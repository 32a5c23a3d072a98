-- ===== src/Prelude/Fields.antt =====
-- A field of `w` bits from bit `lo` on, and what `|` does to it: where one side has no bits in the
-- field, it is that of the other side.
use Prim.Native.Nat.{
  ℕ, zero, suc, ◌+◌, ◌*◌, ◌/◌, ◌%◌, ◌^◌, ◌≤◌, max, bit_or, digits, bit_or-bitwise,
}
use mathlib.Core.Path.{◌≡◌, refl, sym, subst, ◌∙◌, ap}
use native.Mathlib.Nat.{pow-succ', zero-mod, zero-div, div-div-eq-div-mul}
use native.Mathlib.Omega.{arith}
use salern_os_kernel.Prelude.Bits.{pow-pos, half_mod}

abbrev pub field : (lo w x : ℕ) → ℕ
field lo w x = x / 2 ^ lo % 2 ^ w

field_lower : (lo w x : ℕ) → field (suc lo) w x ≡ field lo w (x / 2)
field_lower lo w x =
    ap (λ d. x / d % 2 ^ w) (pow-succ' 2 lo)
    ∙ ap (λ y. y % 2 ^ w) (sym (div-div-eq-div-mul x 2 (2 ^ lo)))

whole : (x : ℕ) → x / 2 ^ 0 ≡ x
whole x = omega arith

field_wider : (w x : ℕ) → field 0 (suc w) x ≡ 2 * field 0 w (x / 2) + x % 2
field_wider w x =
    ap (λ m. x / 2 ^ 0 % m) (pow-succ' 2 w)
    ∙ ap (λ y. y % (2 * 2 ^ w)) (whole x)
    ∙ half_mod x (2 ^ w) (pow-pos w)
    ∙ ap (λ y. 2 * (y % 2 ^ w) + x % 2) (sym (whole (x / 2)))

pub field-zero : (lo w : ℕ) → field lo w 0 ≡ 0
field-zero lo w = ap (λ y. y % 2 ^ w) (zero-div (2 ^ lo)) ∙ zero-mod (2 ^ w)

-- Half of a sum of a double and a digit.
half_digit : (x d : ℕ) → d ≤ 1 → (x * 2 + d) / 2 ≡ x
half_digit x d h = omega arith

abbrev or_digits : ℕ → ℕ → ℕ → ℕ
or_digits n a b = digits (λ b. b) max n a b

-- What the fields of the result are, if the field of one side is empty.
abbrev Joined : (lo w a b x : ℕ) → Type 0
Joined lo w a b x =
    (field lo w b ≡ 0 → field lo w x ≡ field lo w a)
    × (field lo w a ≡ 0 → field lo w x ≡ field lo w b)

Joined-zero : (lo w b : ℕ) → Joined lo w 0 b b
Joined-zero lo w b = (λ e. e ∙ sym (field-zero lo w), λ e. refl)

Joined-lower : (lo w a b x : ℕ) → Joined lo w (a / 2) (b / 2) (x / 2) → Joined (suc lo) w a b x
Joined-lower lo w a b x (left, right) = (
  (λ e. field_lower lo w x ∙ left (sym (field_lower lo w b) ∙ e) ∙ sym (field_lower lo w a)),
  (λ e. field_lower lo w x ∙ right (sym (field_lower lo w a) ∙ e) ∙ sym (field_lower lo w b)),
)

Joined-wider :
    (w a b x : ℕ)
    → x % 2 ≡ max (a % 2) (b % 2)
    → Joined 0 w (a / 2) (b / 2) (x / 2)
    → Joined 0 (suc w) a b x
Joined-wider w a b x low (left, right) = (
  (λ e. omega (
    arith,
    field_wider w a,
    field_wider w b,
    field_wider w x,
    e,
    left (omega (arith, e, field_wider w b)),
  )),
  (λ e. omega (
    arith,
    field_wider w a,
    field_wider w b,
    field_wider w x,
    e,
    right (omega (arith, e, field_wider w a)),
  )),
)

or_digits-Joined : (n lo w a b : ℕ) → a ≤ n → Joined lo w a b (or_digits n a b)
or_digits-Joined zero lo w zero b h = Joined-zero lo w b
or_digits-Joined zero lo w (suc a) b h = absurd (omega arith)
or_digits-Joined (suc n) lo w zero b h = Joined-zero lo w b
or_digits-Joined (suc n) (suc lo) w (suc a) b h =
    Joined-lower lo w (suc a) b (or_digits (suc n) (suc a) b) (
      subst (Joined lo w (suc a / 2) (b / 2))
        (sym (half_digit (or_digits n (suc a / 2) (b / 2)) (max (suc a % 2) (b % 2)) (omega arith)))
        (or_digits-Joined n lo w (suc a / 2) (b / 2) (omega arith)))
or_digits-Joined (suc n) zero zero (suc a) b h = (λ e. omega arith, λ e. omega arith)
or_digits-Joined (suc n) zero (suc w) (suc a) b h =
    Joined-wider w (suc a) b (or_digits (suc n) (suc a) b) (omega arith) (
      subst (Joined 0 w (suc a / 2) (b / 2))
        (sym (half_digit (or_digits n (suc a / 2) (b / 2)) (max (suc a % 2) (b % 2)) (omega arith)))
        (or_digits-Joined n 0 w (suc a / 2) (b / 2) (omega arith)))

pub bit_or-field :
    (lo w a b : ℕ)
    → (field lo w b ≡ 0 → field lo w (bit_or a b) ≡ field lo w a)
      × (field lo w a ≡ 0 → field lo w (bit_or a b) ≡ field lo w b)
bit_or-field lo w a b =
    subst (Joined lo w a b) (sym (bit_or-bitwise a b)) (or_digits-Joined a lo w a b (omega arith))
