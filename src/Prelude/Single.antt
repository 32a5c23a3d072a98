-- ===== src/Prelude/Single.antt =====
-- One bit of a number, and what `|`, `&`, `~` and `1 << j` do to it.
use Prim.Native.Nat.{
  ℕ, zero, suc, ◌+◌, ◌-◌, ◌*◌, ◌/◌, ◌%◌, ◌^◌, ◌≤◌, ◌<◌, min, max, bit_and, bit_or, digits,
  bit_and-bitwise, bit_or-bitwise,
}
use mathlib.Core.Path.{◌≡◌, refl, sym, subst, ◌∙◌, ap, ap₂}
use mathlib.Core.Logic.{◌⊎◌, inl, inr}
use native.Mathlib.Nat.{pow-succ', pow-suc, zero-div, div-div-eq-div-mul}
use native.Mathlib.Omega.{arith}
use salern_os_kernel.Prelude.Bits.{pow-pos}

-- Bit `k`, counted from 0.
abbrev pub bit : (k x : ℕ) → ℕ
bit k x = x / 2 ^ k % 2

pub bit-suc : (k x : ℕ) → bit (suc k) x ≡ bit k (x / 2)
bit-suc k x =
    ap (λ d. x / d % 2) (pow-succ' 2 k) ∙ ap (λ y. y % 2) (sym (div-div-eq-div-mul x 2 (2 ^ k)))

pub bit_zero : (x : ℕ) → bit 0 x ≡ x % 2
bit_zero x = omega arith

pub bit-zero : (k : ℕ) → bit k 0 ≡ 0
bit-zero k = ap (λ y. y % 2) (zero-div (2 ^ k))

-- An operation on digits, where a number that has ended counts as 0.
module _ (z : ℕ → ℕ) (f : ℕ → ℕ → ℕ) (ended : (k b : ℕ) → bit k (z b) ≡ f 0 (bit k b))
    (small : (a b : ℕ) → a ≤ 1 → b ≤ 1 → f a b ≤ 1) where
  bit-digits : (n k a b : ℕ) → a ≤ n → bit k (digits z f n a b) ≡ f (bit k a) (bit k b)
  bit-digits zero k zero b h = ended k b ∙ ap (λ d. f d (bit k b)) (sym (bit-zero k))
  bit-digits zero k (suc a) b h = absurd (omega arith)
  bit-digits (suc n) k zero b h = ended k b ∙ ap (λ d. f d (bit k b)) (sym (bit-zero k))
  bit-digits (suc n) zero (suc a) b h =
      let low = small (suc a % 2) (b % 2) (omega arith) (omega arith) in
      bit_zero (digits z f n (suc a / 2) (b / 2) * 2 + f (suc a % 2) (b % 2))
      ∙ omega (arith, low)
      ∙ ap₂ f (sym (bit_zero (suc a))) (sym (bit_zero b))
  bit-digits (suc n) (suc k) (suc a) b h =
      let low = small (suc a % 2) (b % 2) (omega arith) (omega arith) in
      bit-suc k (digits z f n (suc a / 2) (b / 2) * 2 + f (suc a % 2) (b % 2))
      ∙ ap (bit k) (omega (arith, low))
      ∙ bit-digits n k (suc a / 2) (b / 2) (omega arith)
      ∙ ap₂ f (sym (bit-suc k (suc a))) (sym (bit-suc k b))

pub bit-bit_or : (k a b : ℕ) → bit k (bit_or a b) ≡ max (bit k a) (bit k b)
bit-bit_or k a b =
    ap (bit k) (bit_or-bitwise a b)
    ∙ bit-digits (λ b. b) max (λ k b. omega arith) (λ a b h h'. omega arith) a k a b (omega arith)

pub bit-bit_and : (k a b : ℕ) → bit k (bit_and a b) ≡ min (bit k a) (bit k b)
bit-bit_and k a b =
    ap (bit k) (bit_and-bitwise a b)
    ∙ bit-digits (λ b. 0) min (λ k b. bit-zero k ∙ omega arith) (λ a b h h'. omega arith) a k a b
        (omega arith)

-- `~x` at 64 bits, for an `x` of 64 bits.
abbrev pub not64 : ℕ → ℕ
not64 x = 2 ^ 64 - 1 - x

half_not : (w x : ℕ) → x < 2 ^ suc w → (2 ^ suc w - 1 - x) / 2 ≡ 2 ^ w - 1 - x / 2
half_not w x h = omega (arith, pow-suc 2 w, pow-pos w, h)

bit_not : (w k x : ℕ) → k < w → x < 2 ^ w → bit k (2 ^ w - 1 - x) ≡ 1 - bit k x
bit_not zero k x h h' = absurd (omega arith)
bit_not (suc w) zero x h h' = omega (arith, pow-suc 2 w, pow-pos w, h')
bit_not (suc w) (suc k) x h h' =
    bit-suc k (2 ^ suc w - 1 - x)
    ∙ ap (bit k) (half_not w x h')
    ∙ bit_not w k (x / 2) (omega arith) (omega (arith, pow-suc 2 w, h'))
    ∙ ap (λ d. 1 - d) (sym (bit-suc k x))

pub bit-not64 : (k x : ℕ) → k < 64 → x < 2 ^ 64 → bit k (not64 x) ≡ 1 - bit k x
bit-not64 k x h h' = bit_not 64 k x h h'

-- `1 << j` has bit `j` and no other.
pub bit_power_self : (j : ℕ) → bit j (2 ^ j) ≡ 1
bit_power_self zero = refl
bit_power_self (suc j) =
    bit-suc j (2 ^ suc j) ∙ ap (bit j) (omega (arith, pow-suc 2 j)) ∙ bit_power_self j

pub bit_power_other : (k j : ℕ) → (k ≡ j → ⊥) → bit k (2 ^ j) ≡ 0
bit_power_other zero zero h = absurd (h refl)
bit_power_other zero (suc j) h = omega (arith, pow-suc 2 j)
bit_power_other (suc k) zero h = bit-suc k 1 ∙ bit-zero k
bit_power_other (suc k) (suc j) h =
    bit-suc k (2 ^ suc j)
    ∙ ap (bit k) (omega (arith, pow-suc 2 j))
    ∙ bit_power_other k j (λ e. h (ap suc e))

lowest_bit : (n x : ℕ) → x ≤ n → (x ≡ 0 → ⊥) → (k : ℕ) × (bit k x ≡ 1)
lowest_bit zero x h full = absurd (full (omega arith))
lowest_bit (suc n) x h full = elim (halves x) [
  | inl odd ↦ (0, bit_zero x ∙ odd)
  | inr even ↦
      let (k, e) = lowest_bit n (x / 2) (omega (arith, h)) (λ z. full (omega (arith, z, even))) in
      (suc k, bit-suc k x ∙ e)
]
  where
    halves : (x : ℕ) → (x % 2 ≡ 1) ⊎ (x % 2 ≡ 0)
    halves x = omega arith

pub some_bit : (x : ℕ) → (x ≡ 0 → ⊥) → (k : ℕ) × (bit k x ≡ 1)
some_bit x full = lowest_bit x x (omega arith) full

-- `&` is no more than its left side.
and_digits_le : (n a b : ℕ) → digits (λ b. 0) min n a b ≤ a
and_digits_le zero a b = omega arith
and_digits_le (suc n) zero b = omega arith
and_digits_le (suc n) (suc a) b =
    let rest = and_digits_le n (suc a / 2) (b / 2) in omega (arith, rest)

pub bit_and_le : (a b : ℕ) → bit_and a b ≤ a
bit_and_le a b = subst (λ x. x ≤ a) (sym (bit_and-bitwise a b)) (and_digits_le a a b)

-- `|` of two numbers of `w` bits has `w` bits.
or_digits_lt : (n w a b : ℕ) → a ≤ n → a < 2 ^ w → b < 2 ^ w → digits (λ b. b) max n a b < 2 ^ w
or_digits_lt zero w zero b h p q = q
or_digits_lt zero w (suc a) b h p q = absurd (omega arith)
or_digits_lt (suc n) w zero b h p q = q
or_digits_lt (suc n) zero (suc a) b h p q = absurd (omega (arith, p))
or_digits_lt (suc n) (suc w) (suc a) b h p q =
    let wide = pow-suc 2 w in
    let rest =
      or_digits_lt n w (suc a / 2) (b / 2) (omega arith) (omega (arith, p, wide))
        (omega (arith, q, wide)) in
    omega (arith, rest, wide)

pub bit_or_lt : (w a b : ℕ) → a < 2 ^ w → b < 2 ^ w → bit_or a b < 2 ^ w
bit_or_lt w a b p q =
    subst (λ x. x < 2 ^ w) (sym (bit_or-bitwise a b)) (or_digits_lt a w a b (omega arith) p q)

power_lt : (j w : ℕ) → j < w → 2 ^ j < 2 ^ w
power_lt j zero h = absurd (omega arith)
power_lt zero (suc w) h = omega (arith, pow-suc 2 w, pow-pos w)
power_lt (suc j) (suc w) h = omega (arith, pow-suc 2 w, pow-suc 2 j, power_lt j w (omega arith))

-- The bit of a place in the word.
pub bit_or-power_lt : (w j a : ℕ) → j < w → a < 2 ^ w → bit_or a (2 ^ j) < 2 ^ w
bit_or-power_lt w j a h p = bit_or_lt w a (2 ^ j) p (power_lt j w h)
