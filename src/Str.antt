-- ===== src/Str.antt =====
-- src/com/lib/str.c: strings in memory, ended by a zero byte, and numbers in decimal and hexadecimal.
-- The loops that run until a zero byte are on fuel, where `none` means that it ran out.

pub mod Copy
pub mod Number
pub mod Path
mod Tests
use salern_os_kernel.Prelude.{
  ℕ, zero, suc, ◌+◌, ◌-◌, ◌*◌, ◌/◌, ◌%◌, ◌^◌, Bool, true, false, Option, none, some, ltb, leb, ◌==◌,
  if◌then◌else◌,
}
use salern_os_kernel.Prelude.Word.{word, sub64}
use salern_os_kernel.Mem.{Memory, write, kmemrchr}

-- `true` is 0, `false` is -1.
unfoldable pub kstrcmp : (fuel s1 s2 : ℕ) → Memory → Option Bool
kstrcmp zero s1 s2 m = none
kstrcmp (suc fuel) s1 s2 m =
    let rest = kstrcmp fuel (suc s1) (suc s2) m in
    let both_end = if m s1 == 0 then m s2 == 0 else false in
    if both_end then some true else if m s1 == m s2 then rest else some false

unfoldable pub kstrlen_loop : (fuel s n : ℕ) → Memory → Option ℕ
kstrlen_loop zero s n m = none
kstrlen_loop (suc fuel) s n m =
    let rest = kstrlen_loop fuel (suc s) (suc n) m in if m s == 0 then some n else rest

unfoldable pub kstrlen : (fuel s : ℕ) → Memory → Option ℕ
unfolding kstrlen_loop
kstrlen fuel s m = kstrlen_loop fuel s 0 m

unfoldable pub kstrcpy_loop : (fuel dst src n : ℕ) → Memory → Option Memory
kstrcpy_loop zero dst src n m = none
kstrcpy_loop (suc fuel) dst src n m =
    let rest = kstrcpy_loop fuel dst src (suc n) (write m (dst + n) (m (src + n))) in
    if m (src + n) == 0 then some (write m (dst + n) 0) else rest

unfoldable pub kstrcpy : (fuel dst src : ℕ) → Memory → Option Memory
unfolding kstrcpy_loop
kstrcpy fuel dst src m = kstrcpy_loop fuel dst src 0 m

-- With the rounds that `n < len - 1` leaves.
unfoldable pub kstrncpy_loop : (rounds dst src n : ℕ) → Memory → Memory
kstrncpy_loop zero dst src n m = write m (dst + n) 0
kstrncpy_loop (suc k) dst src n m =
    let rest = kstrncpy_loop k dst src (suc n) (write m (dst + n) (m (src + n))) in
    if m (src + n) == 0 then write m (dst + n) 0 else rest

unfoldable pub kstrncpy : (dst src len : ℕ) → Memory → Memory
unfolding kstrncpy_loop
kstrncpy dst src len m = kstrncpy_loop (sub64 len 1) dst src 0 m

-- `while (size_test >= base)`; a number of 64 bits has at most 20 digits.
unfoldable pub size_loop : (fuel base size_test size : ℕ) → Option ℕ
size_loop zero base size_test size = none
size_loop (suc fuel) base size_test size =
    let rest = size_loop fuel base (size_test / base) (suc size) in
    if leb base size_test then rest else some size

abbrev pub decimal_char : ℕ → ℕ
decimal_char rem = rem + 48

abbrev pub hex_char : ℕ → ℕ
hex_char rem = if ltb rem 10 then rem + 48 else rem - 10 + 65

-- The loop over `idx` and the digit after it, by the rounds `size - idx` that are left; the digit of
-- a round stands at that place.
unfoldable pub digit_loop : (ℕ → ℕ) → (base rounds val s : ℕ) → Memory → Memory
digit_loop char base zero val s m = write m s (char (val % base))
digit_loop char base (suc k) val s m =
    digit_loop char base k (val / base) s (write m (s + suc k) (char (val % base)))

unfoldable pub kuitoa : (val s : ℕ) → Memory → Option Memory
unfolding size_loop digit_loop
kuitoa val s m = elim (size_loop 20 10 val 0) [
  | none ↦ none
  | some size ↦ some (write (digit_loop decimal_char 10 size val s m) (s + (size + 1)) 0)
]

unfoldable pub signed_size_loop : (fuel val size_test size : ℕ) → Option ℕ
signed_size_loop zero val size_test size = none
signed_size_loop (suc fuel) val size_test size =
    let rest = signed_size_loop fuel val ((size_test * 10) % word) (suc size) in
    if ltb 0 (val / size_test) then rest else some size

-- `val` is the two's complement of an `int64_t`. Negating the least value overflows, and has no
-- meaning in C: the result is `none`.
unfoldable pub kitoa : (val s : ℕ) → Memory → Option Memory
unfolding signed_size_loop digit_loop
kitoa val s m =
    let is_negative = leb (2 ^ 63) val in
    let shift = if is_negative then 1 else 0 in
    let magnitude = if is_negative then word - val else val in
    let m0 = write m s (if is_negative then 45 else 43) in
    if magnitude == 2 ^ 63 then none else elim (signed_size_loop 20 magnitude 10 0) [
      | none ↦ none
      | some size ↦ some (
          write (digit_loop decimal_char 10 size magnitude (s + shift) m0) (s + (shift + size + 1))
            0)
    ]

zeros_loop : (rounds s i : ℕ) → Memory → Memory
zeros_loop zero s i m = m
zeros_loop (suc k) s i m = zeros_loop k s (suc i) (write m (s + i) 48)

unfoldable pub kxuitoa : (val s : ℕ) → (have_leading : Bool) → Memory → Option Memory
unfolding size_loop digit_loop zeros_loop
kxuitoa val s have_leading m = elim (size_loop 20 16 val 0) [
  | none ↦ none
  | some size ↦
      let print_size = if have_leading then 15 else size in
      let m0 = if have_leading then zeros_loop (16 - size) s 0 m else m in
      some (
        write (digit_loop hex_char 16 size val (s + (print_size - size)) m0) (s + (print_size + 1))
          0)
]

-- Trailing slashes, `'/'` being 47, do not count.
unfoldable pub trim_slashes : (s len : ℕ) → Memory → ℕ
trim_slashes s zero m = 0
trim_slashes s (suc len) m =
    let rest = trim_slashes s len m in if m (s + len) == 47 then rest else suc len

-- `*penult_len`, `*end_idx` and `*end_len`, by what `kmemrchr` finds.
unfoldable pub path_ends : (s len : ℕ) → Option ℕ → ℕ × ℕ × ℕ
path_ends s len none = (0, 0, len)
path_ends s len (some end) = (end - s, end - s + 1, len - (end - s + 1))

unfoldable pub kstrpathpenult : (s len : ℕ) → Memory → ℕ × ℕ × ℕ
unfolding trim_slashes kmemrchr path_ends
kstrpathpenult s len m =
    let trimmed = trim_slashes s len m in path_ends s trimmed (kmemrchr s 47 trimmed m)
