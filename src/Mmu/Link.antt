-- ===== src/Mmu/Link.antt =====
-- Putting a new table in: the page tables stay a tree, and every entry stays.
use Prim.Native.Nat.{bit_or, ◌^◌, ◌*◌}
use salern_os_kernel.Prelude.{
  ℕ, ◌≤◌, ◌≡◌, ◌≢◌, ◌⊎◌, inl, inr, ◌∙◌, ap, sym, refl, none, some, List, [], ◌∷◌, ◌++◌, length,
  arith, Option-cases,
}
use salern_os_kernel.Prelude.Fields.{field, bit_or-field}
use salern_os_kernel.Pmm.Pages.{phys_to_hhdm}
use salern_os_kernel.Mmu.{addr_bits, set_entry, next, walk, table_flags}
use salern_os_kernel.Mmu.Walk.{IsTree, IsApart, walk-link_old, walk-link_new}

-- The table is empty and not in the tree.
abbrev pub IsSpare : (ℕ → ℕ → ℕ) → (top x : ℕ) → Type 0
IsSpare tables top x = IsApart tables top x × ((j : ℕ) → tables x j ≡ 0)

abbrev pub Without : ℕ → List ℕ → Type 0
Without x [] = Unit {0}
Without x (p ∷ ps) = (x ≢ phys_to_hhdm p) × Without x ps

-- The pages that the cache delivers are aligned, empty, different and not in the tree.
abbrev pub AreSpare : (ℕ → ℕ → ℕ) → (top : ℕ) → List ℕ → Type 0
AreSpare tables top [] = Unit {0}
AreSpare tables top (p ∷ ps) =
    (addr_bits p ≡ p)
    × IsSpare tables top (phys_to_hhdm p)
    × Without (phys_to_hhdm p) ps
    × AreSpare tables top ps

-- The entry at the end of a path, 0 where there is none.
unfoldable pub entry_at : (ℕ → ℕ → ℕ) → (top : ℕ) → List ℕ → (index : ℕ) → ℕ
entry_at tables top q j = elim (walk tables top q) [ none ↦ 0 | some t ↦ tables t j ]

-- An entry made for a table leads to it.
pub next-table_entry :
    (p : ℕ) → addr_bits p ≡ p → next (bit_or p table_flags) ≡ some (phys_to_hhdm p)
unfolding next
next-table_entry p aligned =
    let low : field 0 3 p ≡ 0 = omega arith in
    let some_bit : field 0 3 (bit_or p table_flags) ≡ field 0 3 table_flags =
      (bit_or-field 0 3 p table_flags).1 low in
    let high : field 12 51 (bit_or p table_flags) ≡ field 12 51 p =
      (bit_or-field 12 51 p table_flags).0 refl in
    let used : bit_or p table_flags ≢ 0 = omega arith in
    let same : addr_bits (bit_or p table_flags) ≡ p = ap (λ x. x * 2 ^ 12) high ∙ aligned in
    ground (arith, used, ap phys_to_hhdm same)

next-zero : (entry : ℕ) → entry ≡ 0 → next entry ≡ none
unfolding next
next-zero entry e = ground arith

module _ (tables : ℕ → ℕ → ℕ) (top t i e f : ℕ) (p : List ℕ) (tree : IsTree tables top)
    (spare : IsSpare tables top f) (link : next e ≡ some f) (short : length p ≤ 2)
    (here : walk tables top p ≡ some t) (empty : next (tables t i) ≡ none) where
  reaches :
      (q : List ℕ) (x : ℕ)
      → length q ≤ 3
      → walk (set_entry tables t i e) top q ≡ some x
      → (walk tables top q ≡ some x) ⊎ ((x ≡ f) × (q ≡ p ++ i ∷ []))
  unfolding walk
  reaches q x fits run =
      walk-link_new tables top t i e f p [] top q x tree (spare.0)
        (λ j. next-zero (tables f j) (spare.1 j)) link (omega arith) (omega arith) here refl run

  pub IsTree-link : IsTree (set_entry tables t i e) top
  IsTree-link q r x fits_q fits_r run_q run_r = elim (reaches q x fits_q run_q) [
    | inl old_q ↦ elim (reaches r x fits_r run_r) [
      | inl old_r ↦ tree q r x fits_q fits_r old_q old_r
      | inr (new, path) ↦ absurd (spare.0 q fits_q (old_q ∙ ap some new))
    ]
    | inr (new, path) ↦ elim (reaches r x fits_r run_r) [
      | inl old_r ↦ absurd (spare.0 r fits_r (old_r ∙ ap some new))
      | inr (_, path') ↦ path ∙ sym path'
    ]
  ]

  other_table : (x : ℕ) → IsApart tables top x → t ≢ x
  other_table x apart h = apart p (omega arith) (here ∙ ap some h)

  IsSpare-link : (x : ℕ) → f ≢ x → IsSpare tables top x → IsSpare (set_entry tables t i e) top x
  IsSpare-link x other (apart, zeros) = (
    (λ q fits run. elim (reaches q x fits run) [
      | inl old ↦ apart q fits old
      | inr (new, path) ↦ other (sym new)
    ]),
    (λ j. ground (arith, zeros j, other_table x apart)),
  )

  pub AreSpare-link :
      (ps : List ℕ)
      → Without f ps
      → AreSpare tables top ps
      → AreSpare (set_entry tables t i e) top ps
  AreSpare-link [] others spares = tt
  AreSpare-link (q ∷ ps) (other, others) (aligned, one, apart, spares) =
      (aligned, IsSpare-link (phys_to_hhdm q) other one, apart, AreSpare-link ps others spares)

  pub entry_at-link :
      (q : List ℕ) (j : ℕ)
      → length q ≡ 3
      → entry_at (set_entry tables t i e) top q j ≡ entry_at tables top q j
  unfolding entry_at
  entry_at-link q j full = elim (Option-cases (walk tables top q)) [
    | inr (x, old) ↦
        let new = walk-link_old tables t i e top q x empty old in
        let other : t ≢ x = λ h.
          omega
            (arith, ap length (tree p q x (omega arith) (omega arith) (here ∙ ap some h) old)) in
        ground (arith, old, new, other)
    | inl missing ↦ elim (Option-cases (walk (set_entry tables t i e) top q)) [
      | inl still ↦ ground (arith, missing, still)
      | inr (x, new) ↦ elim (reaches q x (omega arith) new) [
        | inl old ↦ absurd (ground (arith, missing, old))
        | inr (target, path) ↦
            ground (arith, missing, new, target, spare.1 j, other_table f (spare.0))
      ]
    ]
  ]
