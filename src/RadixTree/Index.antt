-- ===== src/RadixTree/Index.antt =====
-- The path of an index: two indices take one path when they are equal in the bits of the layers.
use native.Mathlib.Nat.{pow-suc, div-add-mod, div-div-eq-div-mul, mul-add-div_right, div-eq_of_lt}
use salern_os_kernel.Prelude.{
  ℕ, zero, suc, ◌+◌, ◌-◌, ◌*◌, ◌/◌, ◌%◌, ◌^◌, ◌≤◌, ◌≡◌, ◌∙◌, ap, ap₂, sym, Bool, ◌&&◌, ◌==◌, arith,
}
use salern_os_kernel.Prelude.Bits.{bit_and_mask, pow-pos}
use salern_os_kernel.RadixTree.{index_bits, split_index}

-- Do two lists of indices agree from layer `i` on, where `n` layers follow it?
unfoldable pub same_path : (ℕ → ℕ) → (ℕ → ℕ) → (n i : ℕ) → Bool
same_path a b zero i = a i == b i
same_path a b (suc n) i = (a i == b i) && same_path a b n (suc i)

-- The capacity of `n` layers.
abbrev pub span : ℕ → ℕ
span n = 2 ^ (index_bits * n)

pow_congr : (a b : ℕ) → a ≡ b → 2 ^ a ≡ 2 ^ b
pow_congr a b e = ap (λ m. 2 ^ m) e

pow_plus : (k n : ℕ) → 2 ^ (n + k) ≡ 2 ^ n * 2 ^ k
pow_plus zero n = pow_congr (n + 0) n (omega arith) ∙ omega arith
pow_plus (suc k) n =
    let e = ap (λ x. 2 ^ n * x) (pow-suc 2 k) in
    pow_congr (n + suc k) (suc (n + k)) (omega arith)
    ∙ omega (arith, pow-suc 2 (n + k), pow_plus k n, e)

span-suc : (n : ℕ) → span (suc n) ≡ 512 * span n
span-suc n = pow_congr (9 * suc n) (9 * n + 9) (omega arith) ∙ omega (arith, pow_plus 9 (9 * n))

mod_split : (a b : ℕ) → 1 ≤ b → a % (512 * b) ≡ (a / b) % 512 * b + a % b
mod_split a b h =
    let q = a / b in
    let e = ap (λ x. b * x) (div-add-mod q 512) in
    let f : a / (512 * b) ≡ q / 512 =
      ap (λ x. a / x) (omega arith) ∙ sym (div-div-eq-div-mul a b 512) in
    let g = ap (λ x. 512 * b * x) f in omega (arith, div-add-mod a b, div-add-mod a (512 * b), e, g)

quotient : (x b r : ℕ) → r + 1 ≤ b → (x * b + r) / b ≡ x
quotient x b r h =
    omega (
      arith,
      mul-add-div_right {m = b} (omega arith) x r,
      div-eq_of_lt {n = r} {m = b} (omega arith),
    )

quotient_eq : (x y b r s : ℕ) → r + 1 ≤ b → s + 1 ≤ b → x * b + r ≡ y * b + s → x ≡ y
quotient_eq x y b r s hr hs e = sym (quotient x b r hr) ∙ ap (λ z. z / b) e ∙ quotient y b s hs

digits_eq :
    (x y b r s : ℕ) → r + 1 ≤ b → s + 1 ≤ b → (x * b + r == y * b + s) ≡ ((x == y) && (r == s))
digits_eq x y b r s hr hs =
    let f = λ (p : x ≡ y). ap (λ z. z * b) p in ground (arith, quotient_eq x y b r s hr hs, f)

split_index_lem :
    (index layers i n : ℕ) → layers ≡ n + i + 1 → split_index index layers i ≡ index / span n % 512
unfolding split_index
split_index_lem index layers i n e =
    bit_and_mask 9 (index / 2 ^ (9 * (layers - i - 1)))
    ∙ ap (λ m. index / 2 ^ (9 * m) % 512) (below layers i n e)
  where
    below : (layers i n : ℕ) → layers ≡ n + i + 1 → layers - i - 1 ≡ n
    below layers i n e = omega arith

-- The indices of the layers from `i` on, where `n` follow it, decide the low bits.
pub same_path_lem :
    (a b layers n i : ℕ)
    → layers ≡ n + i + 1
    → same_path (split_index a layers) (split_index b layers) n i
      ≡ (a % span (suc n) == b % span (suc n))
unfolding same_path
same_path_lem a b layers zero i e =
    ap₂ ◌==◌ (split_index_lem a layers i 0 e ∙ omega arith)
      (split_index_lem b layers i 0 e ∙ omega arith)
same_path_lem a b layers (suc n) i e =
    let s = span (suc n) in
    ap₂ ◌&&◌
      (ap₂ ◌==◌ (split_index_lem a layers i (suc n) e) (split_index_lem b layers i (suc n) e))
      (same_path_lem a b layers n (suc i) (omega arith))
    ∙ sym (
        digits_eq (a / s % 512) (b / s % 512) s (a % s) (b % s) (mod-lt_span a (suc n))
          (mod-lt_span b (suc n)))
    ∙ ap₂ ◌==◌ (sym (mod_span a (suc n))) (sym (mod_span b (suc n)))
  where
    mod_span : (a n : ℕ) → a % span (suc n) ≡ a / span n % 512 * span n + a % span n
    mod_span a n = ap (λ m. a % m) (span-suc n) ∙ mod_split a (span n) (pow-pos (9 * n))

    mod-lt_span : (a n : ℕ) → a % span n + 1 ≤ span n
    mod-lt_span a n = omega (arith, pow-pos (9 * n))
