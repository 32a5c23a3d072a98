-- ===== src/Mmu/Leaf.antt =====
-- Writing an entry of a last table: no path changes, and no other entry.
use salern_os_kernel.Prelude.{
  ℕ, ◌+◌, ◌≤◌, ◌≡◌, ◌≢◌, inl, inr, ◌∙◌, ap, ap₂, sym, refl, Bool, true, false, ◌&&◌, some, List, [],
  ◌∷◌, ◌++◌, length, length-append, ◌==◌, if◌then◌else◌, arith, Bool-cases, Option-cases,
}
use salern_os_kernel.Pmm.Pages.{phys_to_hhdm}
use salern_os_kernel.Mmu.{set_entry, next, walk}
use salern_os_kernel.Mmu.Walk.{IsTree, walk-snoc}
use salern_os_kernel.Mmu.Link.{AreSpare, entry_at}

-- Do two paths go the same way?
unfoldable pub same_list : List ℕ → List ℕ → Bool
same_list [] [] = true
same_list [] (y ∷ ys) = false
same_list (x ∷ xs) [] = false
same_list (x ∷ xs) (y ∷ ys) = (x == y) && same_list xs ys

pub same_list_sound : (xs ys : List ℕ) → same_list xs ys ≡ true → xs ≡ ys
unfolding same_list
same_list_sound [] [] h = refl
same_list_sound [] (y ∷ ys) h = cc
same_list_sound (x ∷ xs) [] h = cc
same_list_sound (x ∷ xs) (y ∷ ys) h = ap₂ ◌∷◌ (ground arith) (same_list_sound xs ys (ground arith))

same_list_refl : (xs : List ℕ) → same_list xs xs ≡ true
unfolding same_list
same_list_refl [] = refl
same_list_refl (x ∷ xs) = ground (arith, same_list_refl xs)

module _ (tables : ℕ → ℕ → ℕ) (top t i e : ℕ) (p : List ℕ) (tree : IsTree tables top)
    (full : length p ≡ 3) (here : walk tables top p ≡ some t) where
  walk-leaf_from :
      (r : List ℕ) (u : ℕ) (q : List ℕ)
      → length r + length q ≤ 3
      → walk tables top r ≡ some u
      → walk (set_entry tables t i e) u q ≡ walk tables u q
  unfolding walk
  walk-leaf_from r u [] fits there = refl
  walk-leaf_from r u (j ∷ q) fits there =
      let other : t ≢ u = λ h.
        omega
          (arith, ap length (tree p r u (omega arith) (omega arith) (here ∙ ap some h) there)) in
      elim (Option-cases (next (tables u j))) [
        | inl stuck ↦ ground (arith, other, stuck)
        | inr (v, down) ↦ ground (
          arith,
          other,
          down,
          walk-leaf_from (r ++ j ∷ []) v q (omega (arith, length-append r (j ∷ [])))
              (walk-snoc tables top r u j v there down),
        )
      ]

  walk-leaf : (q : List ℕ) → length q ≤ 3 → walk (set_entry tables t i e) top q ≡ walk tables top q
  unfolding walk
  walk-leaf q fits = walk-leaf_from [] top q (omega arith) refl

  pub IsTree-leaf : IsTree (set_entry tables t i e) top
  IsTree-leaf q r x fits_q fits_r run_q run_r =
      tree q r x fits_q fits_r (sym (walk-leaf q fits_q) ∙ run_q) (sym (walk-leaf r fits_r) ∙ run_r)

  pub AreSpare-leaf :
      (ps : List ℕ) → AreSpare tables top ps → AreSpare (set_entry tables t i e) top ps
  AreSpare-leaf [] spares = tt
  AreSpare-leaf (x ∷ ps) (aligned, (apart, zeros), others, spares) = (
    aligned,
    (
      (λ q fits run. apart q fits (sym (walk-leaf q fits) ∙ run)),
      (λ j.
          let other : t ≢ phys_to_hhdm x = λ h. apart p (omega arith) (here ∙ ap some h) in
          ground (arith, zeros j, other)),
    ),
    others,
    AreSpare-leaf ps spares,
  )

  -- The entry of that path and index is the new one, the others are as before.
  pub entry_at-leaf :
      (q : List ℕ) (j : ℕ)
      → length q ≡ 3
      → entry_at (set_entry tables t i e) top q j
        ≡ (if same_list p q && (i == j) then e else entry_at tables top q j)
  unfolding entry_at
  entry_at-leaf q j long = elim (Bool-cases (same_list p q)) [
    | inl same ↦
        let path = same_list_sound p q same in
        let old : walk tables top q ≡ some t = ap (walk tables top) (sym path) ∙ here in
        ground (arith, walk-leaf q (omega arith), old, same)
    | inr differ ↦ elim (Option-cases (walk tables top q)) [
      | inl missing ↦ ground (arith, walk-leaf q (omega arith), missing, differ)
      | inr (x, old) ↦
          let other : t ≢ x = λ h.
            let path = tree p q x (omega arith) (omega arith) (here ∙ ap some h) old in
            let same : same_list p q ≡ true = sym (ap (same_list p) path) ∙ same_list_refl p in
            cc in
          ground (arith, walk-leaf q (omega arith), old, differ, other)
    ]
  ]
