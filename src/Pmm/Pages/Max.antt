-- ===== src/Pmm/Pages/Max.antt =====
-- How many pages `com_mm_pmm_alloc_max` says it has found.
use salern_os_kernel.Prelude.{
  ℕ, ◌≤◌, ◌≡◌, ◌⊎◌, ◌∙◌, sym, ap, refl, Option, none, some, List, [], ◌∷◌, min, ◌==◌, if_true,
  if_false, inl, inr, Bool-cases, Option-cases, arith,
}
use salern_os_kernel.Pmm.FreeList.{Entry, pop_front}
use salern_os_kernel.Pmm.FreeList.Conserve.{AllBlocks}
use salern_os_kernel.Pmm.Pages.{Pmm, fresh, page_meta_set, hhdm_to_phys, claim_many, alloc_max}

-- The number of pages in a result of `pop_front`, of `claim_many` and of `alloc_max`.
abbrev popped : Option (ℕ × ℕ × List Entry) → ℕ
popped none = 0
popped (some (n, virt, l)) = n

abbrev claimed : Option (ℕ × ℕ × Pmm) → ℕ
claimed none = 0
claimed (some (phys, n, s)) = n

abbrev found : Option (ℕ × Option ℕ × Pmm) → ℕ
found none = 0
found (some (phys, none, s)) = 0
found (some (phys, some n, s)) = n

popped-pop_front :
    (pages : ℕ) (e : Entry) (rest : List Entry)
    → popped (pop_front pages (e ∷ rest)) ≡ min pages e.pages
unfolding pop_front
popped-pop_front pages e rest = elim (Bool-cases (min pages e.pages == e.pages)) [
  | inl all ↦ ap popped (if_true _ _ all)
  | inr part ↦ ap popped (if_false _ _ part)
]

abbrev after_claim : Option (ℕ × ℕ × Pmm) → Option (ℕ × Option ℕ × Pmm)
after_claim o = elim o [ none ↦ none | some (phys, n, s) ↦ some (phys, some n, s) ]

abbrev after_pop : Pmm → Option (ℕ × ℕ × List Entry) → Option (ℕ × Option ℕ × Pmm)
after_pop s o = elim o [ none ↦ none | some (n, virt, l) ↦ after_claim (claim_many virt n l s) ]

found-after_claim : (o : Option (ℕ × ℕ × Pmm)) → found (after_claim o) ≡ claimed o
found-after_claim none = refl
found-after_claim (some (phys, n, s)) = refl

claimed-claim_many :
    (virt n : ℕ) (l : List Entry) (s : Pmm)
    → (claim_many virt n l s ≡ none) ⊎ (claimed (claim_many virt n l s) ≡ n)
unfolding claim_many
claimed-claim_many virt n l s =
    elim (Option-cases (page_meta_set (hhdm_to_phys virt) fresh n (record s { free_list = l }))) [
      | inl e ↦ inl (rw (claim_many, e) refl)
      | inr (s', e) ↦ inr (rw (claim_many, e) refl)
    ]

found-after_pop :
    (s : Pmm) (o : Option (ℕ × ℕ × List Entry))
    → (after_pop s o ≡ none) ⊎ (found (after_pop s o) ≡ popped o)
found-after_pop s none = inl refl
found-after_pop s (some (n, virt, l)) = elim (claimed-claim_many virt n l s) [
  | inl e ↦ inl (ap after_claim e)
  | inr e ↦ inr (found-after_claim (claim_many virt n l s) ∙ e)
]

alloc_max-many :
    (pages : ℕ) (s : Pmm)
    → 2 ≤ pages
    → alloc_max pages s ≡ after_pop s (pop_front pages s.free_list)
unfolding alloc_max
alloc_max-many pages s two = if_false {b = pages == 1} _ _ (ground arith)

missing_is_absurd : {x : ℕ × Option ℕ × Pmm} → none ≡ some x → ⊥
missing_is_absurd e = cc

popped_of_found :
    (s : Pmm) (o : Option (ℕ × ℕ × List Entry)) (phys size : ℕ) (s' : Pmm)
    → after_pop s o ≡ some (phys, some size, s')
    → popped o ≡ size
popped_of_found s o phys size s' e = elim (found-after_pop s o) [
  | inl missing ↦ absurd (missing_is_absurd (sym missing ∙ e))
  | inr same ↦ sym same ∙ ap found e
]

-- Asked for two pages or more, with a free list of blocks that are not empty, it says that it has
-- found one page at least and no more than it was asked for.
pub found-alloc_max :
    (pages phys size : ℕ) (s s' : Pmm)
    → AllBlocks s.free_list
    → 2 ≤ pages
    → alloc_max pages s ≡ some (phys, some size, s')
    → (1 ≤ size) × (size ≤ pages)
unfolding pop_front
found-alloc_max pages phys size s s' blocks two e =
    go s.free_list blocks (sym (alloc_max-many pages s two) ∙ e)
  where
    go :
        (l : List Entry)
        → AllBlocks l
        → after_pop s (pop_front pages l) ≡ some (phys, some size, s')
        → (1 ≤ size) × (size ≤ pages)
    go [] blocks e = absurd (missing_is_absurd e)
    go (b ∷ l) blocks e =
        let same = popped_of_found s (pop_front pages (b ∷ l)) phys size s' e in
        let least = popped-pop_front pages b l in
        let some_pages = blocks.0.some_pages in
        (omega (arith, same, least, some_pages, two), omega (arith, same, least))
