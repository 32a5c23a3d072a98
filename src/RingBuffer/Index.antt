-- ===== src/RingBuffer/Index.antt =====
-- Positions in the ring: a capacity that is a power of two divides the range of the counters, so
-- that the mask of `KMOD_FAST` and the wrap of `size_t` agree.
use salern_os_kernel.Prelude.{
  ℕ, zero, suc, ◌+◌, ◌-◌, ◌*◌, ◌%◌, ◌^◌, ◌≤◌, ◌<◌, ◌≡◌, ◌∙◌, ap, sym, ltb, if◌then◌else◌, arith,
}
use salern_os_kernel.Prelude.Word.{word}
use salern_os_kernel.Prelude.Bits.{bit_and_mask, pow-pos}
use salern_os_kernel.RingBuffer.{kmod_fast}
use native.Mathlib.Decide.{dec_lt}
use native.Mathlib.Nat.{
  pow-suc, mod-mod_of_dvd, mod-eq_of_lt, mod-eq-sub-mod, mod-lt, mod-add-mod, dvd_of_mod-eq-zero,
  mul-mod_right,
}

pow_congr : (m n : ℕ) → m ≡ n → 2 ^ m ≡ 2 ^ n
pow_congr m n e = ap (λ (n : ℕ). 2 ^ n) e

pow-add : (a b : ℕ) → 2 ^ (a + b) ≡ 2 ^ a * 2 ^ b
pow-add zero b = pow_congr (0 + b) b (omega arith) ∙ (omega arith)
pow-add (suc a) b =
    pow_congr (suc a + b) (suc (a + b)) (omega arith)
    ∙ (omega (arith, pow-suc 2 (a + b), pow-add a b, ap (λ (n : ℕ). n * 2 ^ b) (pow-suc 2 a)))

-- The wrap of the counter does not show in the slot.
pub mod_word : (k x : ℕ) → k ≤ 64 → (x % word) % 2 ^ k ≡ x % 2 ^ k
mod_word k x le = mod-mod_of_dvd (2 ^ k) x (dvd_of_mod-eq-zero (2 ^ k) multiple)
  where
    whole : word ≡ 2 ^ k * 2 ^ (64 - k)
    whole = pow_congr 64 (k + (64 - k)) (omega arith) ∙ pow-add k (64 - k)

    multiple : word % 2 ^ k ≡ 0
    multiple = ap (λ (n : ℕ). n % 2 ^ k) whole ∙ mul-mod_right (2 ^ k) (2 ^ (64 - k))

pub pow-lt-word : (k : ℕ) → k < 64 → 2 ^ k < word
pow-lt-word k lt = omega (
  arith,
  pow_congr 64 (suc k + (63 - k)) (omega arith) ∙ pow-add (suc k) (63 - k),
  pow-suc 2 k,
  pow-pos k,
  times_pos (2 ^ suc k) (2 ^ (63 - k)) (pow-pos (63 - k)),
)
  where
    times_pos : (x y : ℕ) → 1 ≤ y → x ≤ x * y
    times_pos x y h = grind arith

pub kmod_fast_lem : (k x : ℕ) → kmod_fast x (2 ^ k) ≡ x % 2 ^ k
kmod_fast_lem k x = bit_and_mask k x

slot_near : (n i d : ℕ) → i < n → d < n → (i + d) % n ≡ (if ltb (i + d) n then i + d else i + d - n)
slot_near n i d hi hd = elim (dec_lt (i + d) n) [
  | yes short ↦ ground (arith, mod-eq_of_lt short)
  | no round ↦ ground (
    arith,
    mod-eq-sub-mod {n = i + d} {m = n} (omega arith),
    mod-eq_of_lt {n = i + d - n} {m = n} (omega arith),
  )
]

-- The slot `d` steps behind that of the counter `w`.
pub slot_add :
    (n w d : ℕ) → d < n → (w + d) % n ≡ (if ltb (w % n + d) n then w % n + d else w % n + d - n)
slot_add n w d lt = sym (mod-add-mod w n d) ∙ slot_near n (w % n) d (mod-lt w (omega arith)) lt
