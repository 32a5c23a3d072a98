-- ===== src/Str/Number.antt =====
-- The digits that `kuitoa` writes.
use native.Mathlib.Nat.{pow-suc}
use salern_os_kernel.Prelude.{
  ℕ, zero, suc, ◌+◌, ◌-◌, ◌*◌, ◌/◌, ◌%◌, ◌^◌, ◌≤◌, ◌<◌, ◌≡◌, some, leb, arith, Bool-cases, ◌⊎◌, inl,
  inr, refl,
}
use salern_os_kernel.Prelude.Word.{word}
use salern_os_kernel.Mem.{Memory, write}
use salern_os_kernel.Str.{decimal_char, size_loop, digit_loop, kuitoa}

-- The number whose `n` decimal digits stand from `s` on, the first digit foremost.
unfoldable pub decimal_value : (s n : ℕ) → Memory → ℕ
decimal_value s zero m = 0
decimal_value s (suc n) m = 10 * decimal_value s n m + (m (s + n) - 48)

-- The digits of the number of `n` digits are characters from 0 to 9.
abbrev pub IsDecimal : Memory → ℕ → ℕ → Type 0
IsDecimal m s n = (i : ℕ) → i < n → (48 ≤ m (s + i)) × (m (s + i) < 58)

size_loop_lem :
    (fuel val size : ℕ)
    → val < 10 ^ suc fuel
    → (k : ℕ) × (size_loop (suc fuel) 10 val size ≡ some (size + k))
      × (val < 10 ^ suc k)
      × (k ≤ fuel)
unfolding size_loop
size_loop_lem zero val size small = (0, ground arith, small, omega arith)
size_loop_lem (suc fuel) val size small = elim (Bool-cases (leb 10 val)) [
  | inr last ↦ (0, ground arith, ground arith, omega arith)
  | inl more ↦
      let (k, done, bound, enough) =
        size_loop_lem fuel (val / 10) (suc size) (omega (arith, pow-suc 10 (suc fuel))) in
      (suc k, ground (arith, done), omega (arith, pow-suc 10 (suc k)), omega arith)
]

-- The loop writes at the digits' places alone.
digit_loop_above :
    (k val s : ℕ) (m : Memory) (q : ℕ) → s + k < q → digit_loop decimal_char 10 k val s m q ≡ m q
unfolding digit_loop
digit_loop_above zero val s m q h = ground arith
digit_loop_above (suc k) val s m q h =
    ground
      (arith, digit_loop_above k (val / 10) s (write m (s + suc k) (decimal_char (val % 10))) q)

digit_loop_value :
    (k val s : ℕ) (m : Memory)
    → val < 10 ^ suc k
    → decimal_value s (suc k) (digit_loop decimal_char 10 k val s m) ≡ val
unfolding digit_loop decimal_value
digit_loop_value zero val s m h = ground (arith)
digit_loop_value (suc k) val s m h =
    let m1 = write m (s + suc k) (decimal_char (val % 10)) in
    ground (
      arith,
      digit_loop_value k (val / 10) s m1 (omega (arith, pow-suc 10 (suc k))),
      digit_loop_above k (val / 10) s m1 (s + suc k),
    )

digit_loop-IsDecimal :
    (k val s : ℕ) (m : Memory) → IsDecimal (digit_loop decimal_char 10 k val s m) s (suc k)
unfolding digit_loop
digit_loop-IsDecimal zero val s m i h = ground arith
digit_loop-IsDecimal (suc k) val s m i h =
    let m1 = write m (s + suc k) (decimal_char (val % 10)) in
    ground (
      arith,
      digit_loop-IsDecimal k (val / 10) s m1 i,
      digit_loop_above k (val / 10) s m1 (s + suc k),
    )

decimal_value-write :
    (s n : ℕ) (m : Memory) (p v : ℕ)
    → s + n ≤ p
    → decimal_value s n (write m p v) ≡ decimal_value s n m
unfolding decimal_value
decimal_value-write s zero m p v h = refl
decimal_value-write s (suc n) m p v h = ground (arith, decimal_value-write s n m p v)

digit_loop_below :
    (k val s : ℕ) (m : Memory) (q : ℕ) → q < s → digit_loop decimal_char 10 k val s m q ≡ m q
unfolding digit_loop
digit_loop_below zero val s m q h = ground arith
digit_loop_below (suc k) val s m q h =
    ground
      (arith, digit_loop_below k (val / 10) s (write m (s + suc k) (decimal_char (val % 10))) q)

-- For every number of 64 bits `kuitoa` ends, and writes at `s` between 1 and 20 characters from 0
-- to 9 that are the number in decimal, a zero byte after them, and nothing else.
pub kuitoa_lem :
    (val s : ℕ) (m : Memory)
    → val < word
    → (n : ℕ) × (m' : Memory) × (kuitoa val s m ≡ some m')
      × (1 ≤ n)
      × (n ≤ 20)
      × IsDecimal m' s n
      × (decimal_value s n m' ≡ val)
      × (m' (s + n) ≡ 0)
      × ((q : ℕ) → (q < s) ⊎ (s + n < q) → m' q ≡ m q)
unfolding kuitoa
kuitoa_lem val s m small =
    let (k, done, bound, enough) = size_loop_lem 19 val 0 (omega arith) in
    let d = digit_loop decimal_char 10 k val s m in
    (
      suc k,
      write d (s + (k + 1)) 0,
      ground (arith, done),
      omega arith,
      omega arith,
      (λ i h. ground (arith, digit_loop-IsDecimal k val s m i)),
      ground (
        arith,
        decimal_value-write s (suc k) d (s + (k + 1)) 0,
        digit_loop_value k val s m bound,
      ),
      ground arith,
      (λ q h. ground (arith, digit_loop_above k val s m q, digit_loop_below k val s m q)),
    )
