-- ===== src/Mmu/Mapping.antt =====
-- The page tables as a map from pages to entries.
use Prim.Native.Nat.{bit_or}
use salern_os_kernel.Prelude.{
  ℕ, ◌^◌, ◌/◌, ◌%◌, ◌<◌, ◌≡◌, ◌⊎◌, inl, inr, ◌∙◌, ap, refl, Bool, true, false, ◌&&◌, Option, none,
  some, [], length, take, ◌==◌, if◌then◌else◌, arith, Bool-cases, Option-cases,
}
use salern_os_kernel.Pmm.Pages.{phys_to_hhdm}
use salern_os_kernel.Mmu.{
  Mmu, addr_bits, set_entry, walk, offsets, pt_offset, get_page, make_path, add_page, arch_mmu_map,
  arch_mmu_unmap, arch_mmu_chflags,
}
use salern_os_kernel.Mmu.Link.{entry_at}
use salern_os_kernel.Mmu.Path.{IsMmu, SameEntries, PathMade, make_path_lem}
use salern_os_kernel.Mmu.Leaf.{
  same_list, same_list_sound, IsTree-leaf, AreSpare-leaf, entry_at-leaf,
}

-- The entry of an address, 0 where a table on the way is missing.
abbrev pub entry_of : (pt vaddr : ℕ) → Mmu → ℕ
entry_of pt v s = entry_at s.tables (phys_to_hhdm pt) (take 3 (offsets v)) (pt_offset v)

-- Addresses of one page, in the 48 bits that the tables translate.
abbrev pub same_page : ℕ → ℕ → Bool
same_page v w = v / 4096 % 2 ^ 36 == w / 4096 % 2 ^ 36

length-offsets : (v : ℕ) → length (take 3 (offsets v)) ≡ 3
unfolding offsets
length-offsets v = refl

same_path :
    (v w : ℕ)
    → (same_list (take 3 (offsets v)) (take 3 (offsets w)) && (pt_offset v == pt_offset w))
      ≡ same_page v w
unfolding offsets same_list
same_path v w = ground arith

-- A write of the entry of an address whose tables are there.
write_entry :
    (pt v e t : ℕ) (s : Mmu)
    → IsMmu (phys_to_hhdm pt) s
    → walk s.tables (phys_to_hhdm pt) (take 3 (offsets v)) ≡ some t
    → let s' = record s { tables = set_entry s.tables t (pt_offset v) e } in
      IsMmu (phys_to_hhdm pt) s'
      × ((w : ℕ) → entry_of pt w s' ≡ (if same_page v w then e else entry_of pt w s))
write_entry pt v e t s (tree, spares) here =
    let top = phys_to_hhdm pt in
    let p = take 3 (offsets v) in
    let i = pt_offset v in
    (
      (
        IsTree-leaf s.tables top t i e p tree (length-offsets v) here,
        AreSpare-leaf s.tables top t i e p tree (length-offsets v) here s.supply spares,
      ),
      (λ w.
          entry_at-leaf s.tables top t i e p tree (length-offsets v) here (take 3 (offsets w))
            (pt_offset w) (length-offsets w)
          ∙ ap (λ b. if b then e else entry_of pt w s) (same_path v w)),
    )

-- Where a table is missing, so it is for every address of the page.
no_entry :
    (pt v w : ℕ) (s : Mmu)
    → walk s.tables (phys_to_hhdm pt) (take 3 (offsets v)) ≡ none
    → entry_of pt w s ≡ (if same_page v w then 0 else entry_of pt w s)
unfolding entry_at
no_entry pt v w s missing = elim (Bool-cases (same_page v w)) [
  | inr differ ↦ ground (arith, differ)
  | inl same ↦
      let both = same_path v w ∙ same in
      let path = same_list_sound (take 3 (offsets v)) (take 3 (offsets w)) (ground arith) in
      let e = ap (walk s.tables (phys_to_hhdm pt)) path in ground (arith, missing, e, same)
]

-- What `add_page` does after the steps.
map_end :
    (pt virt e : ℕ) (s : Mmu) (o : Option ℕ) (s1 : Mmu)
    → make_path (take 3 (offsets virt)) (phys_to_hhdm pt) s ≡ (o, s1)
    → IsMmu (phys_to_hhdm pt) s1
    → SameEntries (phys_to_hhdm pt) s s1
    → PathMade (phys_to_hhdm pt) (take 3 (offsets virt)) (take 3 (offsets virt)) s o s1
    → (done : Bool) × (s' : Mmu) × (add_page pt virt e 0 s ≡ (done, s'))
      × IsMmu (phys_to_hhdm pt) s'
      × ((w : ℕ) → entry_of pt w s' ≡ (if done && same_page virt w then e else entry_of pt w s))
      × (done ≡ false → length s.supply < 3)
unfolding add_page PathMade
map_end pt virt e s none s1 run good same made = (
  false,
  s1,
  ground (arith, run),
  good,
  (λ w. same (take 3 (offsets w)) (pt_offset w) (length-offsets w)),
  (λ h. omega (arith, length-offsets virt)),
)
map_end pt virt e s (some t) s1 run good same made =
    let (good', entries) = write_entry pt virt e t s1 good made in
    (
      true,
      record s1 { tables = set_entry s1.tables t (pt_offset virt) e },
      ground (arith, run),
      good',
      (λ w.
          let old = same (take 3 (offsets w)) (pt_offset w) (length-offsets w) in
          ground (arith, entries w, old)),
      (λ h. cc),
    )

-- On page tables that are a tree, with spare pages outside it, `arch_mmu_map` acts as an insertion
-- into the map from pages to entries: the page gets the address and the flags, every other entry is
-- as before. It fails only if fewer than three spare pages are left, and then no entry changes. The
-- tables stay a tree with spare pages outside it.
pub arch_mmu_map_lem :
    (pt virt phys flags : ℕ) (s : Mmu)
    → IsMmu (phys_to_hhdm pt) s
    → (done : Bool) × (s' : Mmu) × (arch_mmu_map pt virt phys flags s ≡ (done, s'))
      × IsMmu (phys_to_hhdm pt) s'
      × ((w : ℕ)
          → entry_of pt w s'
            ≡ (if done && same_page virt w then bit_or (addr_bits phys) flags else entry_of pt w s))
      × (done ≡ false → length s.supply < 3)
unfolding arch_mmu_map walk PathMade
arch_mmu_map_lem pt virt phys flags s good =
    let top = phys_to_hhdm pt in
    let (o, s1, run, good1, same, made) =
      make_path_lem top (take 3 (offsets virt)) top s [] (omega (arith, length-offsets virt)) refl
        good in
    map_end pt virt (bit_or (addr_bits phys) flags) s o s1 run good1 same made

-- On page tables that are a tree, with spare pages outside it, `arch_mmu_unmap` acts as a removal: if
-- the tables of the page are there, it hands out the address of its entry and empties it, and no
-- other; else the page had no entry, and nothing changes. The tables stay a tree with spare pages
-- outside it.
pub arch_mmu_unmap_lem :
    (pt virt : ℕ) (s : Mmu)
    → IsMmu (phys_to_hhdm pt) s
    → (old : Option ℕ) × (s' : Mmu) × (arch_mmu_unmap pt virt s ≡ (old, s'))
      × IsMmu (phys_to_hhdm pt) s'
      × ((w : ℕ) → entry_of pt w s' ≡ (if same_page virt w then 0 else entry_of pt w s))
      × (((old ≡ none) × (entry_of pt virt s ≡ 0)) ⊎ (old ≡ some (addr_bits (entry_of pt virt s))))
unfolding arch_mmu_unmap entry_at
arch_mmu_unmap_lem pt virt s good =
    elim (Option-cases (walk s.tables (phys_to_hhdm pt) (take 3 (offsets virt)))) [
      | inl missing ↦ (
        none,
        s,
        ground (arith, missing),
        good,
        (λ w. no_entry pt virt w s missing),
        inl (refl, ground (arith, missing)),
      )
      | inr (t, here) ↦
          let (good', entries) = write_entry pt virt 0 t s good here in
          (
            some (addr_bits (s.tables t (pt_offset virt))),
            record s { tables = set_entry s.tables t (pt_offset virt) 0 },
            ground (arith, here),
            good',
            entries,
            inr (ground (arith, here)),
          )
    ]

-- On page tables that are a tree, with spare pages outside it, `arch_mmu_chflags` answers whether
-- the tables of the page are there; the entry of the page then keeps its address and gets the flags,
-- and every other entry is as before.
pub arch_mmu_chflags_lem :
    (pt virt flags : ℕ) (s : Mmu)
    → IsMmu (phys_to_hhdm pt) s
    → (done : Bool) × (s' : Mmu) × (arch_mmu_chflags pt virt flags s ≡ (done, s'))
      × IsMmu (phys_to_hhdm pt) s'
      × ((w : ℕ)
          → entry_of pt w s' ≡ (
              if done && same_page virt w
              then bit_or (addr_bits (entry_of pt virt s)) flags
              else entry_of pt w s))
      × (done ≡ false → get_page pt virt s ≡ none)
unfolding arch_mmu_chflags entry_at
arch_mmu_chflags_lem pt virt flags s good =
    elim (Option-cases (walk s.tables (phys_to_hhdm pt) (take 3 (offsets virt)))) [
      | inl missing ↦ (false, s, ground (arith, missing), good, (λ w. refl), (λ e. missing))
      | inr (t, here) ↦
          let e = bit_or (addr_bits (s.tables t (pt_offset virt))) flags in
          let (good', entries) = write_entry pt virt e t s good here in
          (
            true,
            record s { tables = set_entry s.tables t (pt_offset virt) e },
            ground (arith, here),
            good',
            (λ w. ground (arith, here, entries w)),
            (λ e. cc),
          )
    ]
