-- ===== src/Prelude/Bits.antt =====
-- Masking: `x & (2 ^ k - 1)` is the remainder by `2 ^ k`, at every width.
use Prim.Native.Nat.{
  ℕ, zero, suc, ◌+◌, ◌-◌, ◌*◌, ◌/◌, ◌%◌, ◌^◌, ◌≤◌, min, bit_and, digits, bit_and-bitwise,
}
use mathlib.Core.Path.{◌≡◌, refl, sym, ◌∙◌, ap}
use native.Mathlib.Nat.{pow-suc, zero-mod}
use native.Mathlib.Omega.{arith}

pub pow-pos : (k : ℕ) → 1 ≤ 2 ^ k
pow-pos zero = omega arith
pow-pos (suc k) = omega (arith, pow-pos k, pow-suc 2 k)

-- Half of a mask is the next shorter one.
abbrev shorter : ℕ → ℕ
shorter zero = zero
shorter (suc k) = k

half_mask : (k : ℕ) → (2 ^ k - 1) / 2 ≡ 2 ^ shorter k - 1
half_mask zero = refl
half_mask (suc k) = omega (arith, pow-suc 2 k, pow-pos k)

-- Half of a remainder by twice a number.
pub half_mod : (a m : ℕ) → 1 ≤ m → a % (2 * m) ≡ 2 * ((a / 2) % m) + a % 2
half_mod a m h = grind arith

-- One binary digit of a masked number.
last_digit : (k a : ℕ) → (a / 2) % 2 ^ shorter k * 2 + min (a % 2) ((2 ^ k - 1) % 2) ≡ a % 2 ^ k
last_digit zero a = omega arith
last_digit (suc k) a =
    let wide : 2 ^ suc k ≡ 2 * 2 ^ k = omega (arith, pow-suc 2 k) in
    rw wide (omega (arith, pow-pos k, half_mod a (2 ^ k) (pow-pos k)))

-- The digits that the native operation stands for, by the rounds it is given.
masked_digits :
    (rounds k a : ℕ) → a ≤ rounds → digits (λ _. zero) min rounds a (2 ^ k - 1) ≡ a % 2 ^ k
masked_digits zero k zero h = sym (zero-mod (2 ^ k))
masked_digits zero k (suc a) h = absurd (omega arith)
masked_digits (suc n) k zero h = sym (zero-mod (2 ^ k))
masked_digits (suc n) k (suc a) h =
    let rest = masked_digits n (shorter k) (suc a / 2) (omega arith) in
    let half = ap (digits (λ _. zero) min n (suc a / 2)) (half_mask k) in
    omega (arith, rest, half, last_digit k (suc a))

-- A mask of `k` ones keeps the remainder by `2 ^ k`.
pub bit_and_mask : (k a : ℕ) → bit_and a (2 ^ k - 1) ≡ a % 2 ^ k
bit_and_mask k a = bit_and-bitwise a (2 ^ k - 1) ∙ masked_digits a k a (omega arith)
