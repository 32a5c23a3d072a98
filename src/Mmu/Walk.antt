-- ===== src/Mmu/Walk.antt =====
-- How a write of one entry changes the paths from the top table.
use salern_os_kernel.Prelude.{
  ℕ, ◌+◌, ◌≤◌, ◌≡◌, ◌≢◌, ◌⊎◌, inl, inr, ◌∙◌, ap, ap₂, sym, refl, ◌&&◌, none, some, List, [], ◌∷◌,
  ◌++◌, append_assoc, length, length-append, ◌==◌, arith, Bool-cases, Option-cases,
}
use salern_os_kernel.Mmu.{set_entry, next, walk}

-- No table is reached by two paths. The arrays hold nothing past their 512 entries.
abbrev pub IsTree : (ℕ → ℕ → ℕ) → (top : ℕ) → Type 0
IsTree tables top =
    (p q : List ℕ) (x : ℕ)
    → length p ≤ 3
    → length q ≤ 3
    → walk tables top p ≡ some x
    → walk tables top q ≡ some x
    → p ≡ q

-- No path reaches the table.
abbrev pub IsApart : (ℕ → ℕ → ℕ) → (top x : ℕ) → Type 0
IsApart tables top x = (q : List ℕ) → length q ≤ 3 → walk tables top q ≢ some x

module _ (tables : ℕ → ℕ → ℕ) where
  -- One more step.
  pub walk-snoc :
      (t : ℕ) (r : List ℕ) (u j u' : ℕ)
      → walk tables t r ≡ some u
      → next (tables u j) ≡ some u'
      → walk tables t (r ++ j ∷ []) ≡ some u'
  unfolding walk
  walk-snoc t [] u j u' here e = ground arith
  walk-snoc t (k ∷ r) u j u' here e = elim (Option-cases (next (tables t k))) [
    | inl stuck ↦ absurd (ground arith)
    | inr (v, down) ↦ ground (arith, down, walk-snoc v r u j u')
  ]

  -- An entry that leads somewhere is not the empty one that is written.
  set_entry_used :
      (t i e u j v : ℕ)
      → next (tables t i) ≡ none
      → next (tables u j) ≡ some v
      → set_entry tables t i e u j ≡ tables u j
  set_entry_used t i e u j v empty down = elim (Bool-cases ((t == u) && (i == j))) [
    | inr other ↦ ground (arith, other)
    | inl same ↦
        let a : t ≡ u = ground arith in
        let b : i ≡ j = ground arith in let c = ap₂ tables a b in absurd (cc (ap next c))
  ]

  -- Where an empty entry is written, the old paths are as before.
  pub walk-link_old :
      (t i e : ℕ) (u : ℕ) (q : List ℕ) (x : ℕ)
      → next (tables t i) ≡ none
      → walk tables u q ≡ some x
      → walk (set_entry tables t i e) u q ≡ some x
  unfolding walk
  walk-link_old t i e u [] x empty old = old
  walk-link_old t i e u (j ∷ q) x empty old = elim (Option-cases (next (tables u j))) [
    | inl stuck ↦ absurd (ground arith)
    | inr (v, down) ↦
        let same = set_entry_used t i e u j v empty down in
        ground (arith, down, same, walk-link_old t i e v q x empty)
  ]

  -- From the new table no other is reached.
  walk-zero_page :
      (t i e f : ℕ) (q : List ℕ) (x : ℕ)
      → t ≢ f
      → ((j : ℕ) → next (tables f j) ≡ none)
      → walk (set_entry tables t i e) f q ≡ some x
      → (q ≡ []) × (x ≡ f)
  unfolding walk
  walk-zero_page t i e f [] x other zeros run = (refl, ground arith)
  walk-zero_page t i e f (k ∷ q) x other zeros run =
      let shut : set_entry tables t i e f k ≡ tables f k = ground (arith, other) in
      absurd (ground (arith, zeros k, ap next shut, run))

  -- The new table is reached by the link alone, and no other table by a new path.
  pub walk-link_new :
      (top t i e f : ℕ) (p r : List ℕ) (u : ℕ) (q : List ℕ) (x : ℕ)
      → IsTree tables top
      → IsApart tables top f
      → ((j : ℕ) → next (tables f j) ≡ none)
      → next e ≡ some f
      → length p ≤ 3
      → length r + length q ≤ 3
      → walk tables top p ≡ some t
      → walk tables top r ≡ some u
      → walk (set_entry tables t i e) u q ≡ some x
      → (walk tables u q ≡ some x) ⊎ ((x ≡ f) × (r ++ q ≡ p ++ i ∷ []))
  unfolding walk
  walk-link_new top t i e f p r u [] x tree apart zeros link short fits here there run = inl run
  walk-link_new top t i e f p r u (j ∷ q) x tree apart zeros link short fits here there run =
      elim (Bool-cases ((t == u) && (i == j))) [
        | inl same ↦
            let at : t ≡ u = ground arith in
            let slot : i ≡ j = ground arith in
            let start : walk (set_entry tables t i e) f q ≡ some x =
              ground (arith, run, link, same) in
            let (last, target) =
              walk-zero_page t i e f q x (λ h. apart p short (here ∙ ap some h)) zeros start in
            let path = tree r p u (omega arith) short there (here ∙ ap some at) in
            inr (target, ap₂ ◌++◌ path (ap₂ ◌∷◌ (sym slot) last))
        | inr other ↦ elim (Option-cases (next (tables u j))) [
          | inl stuck ↦ absurd (ground (arith, run, other, stuck))
          | inr (v, down) ↦
              let rest : walk (set_entry tables t i e) v q ≡ some x =
                ground (arith, run, other, down) in
              elim (walk-link_new top t i e f p (r ++ j ∷ []) v q x tree apart zeros link short
                (omega (arith, length-append r (j ∷ []))) here (walk-snoc top r u j v there down)
                rest) [
                  | inl old ↦ inl (ground (arith, down, old))
                  | inr (target, path) ↦ inr (target, sym (append_assoc r (j ∷ []) q) ∙ path)
                ]
        ]
      ]
