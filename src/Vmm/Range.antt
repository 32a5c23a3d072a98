-- ===== src/Vmm/Range.antt =====
-- Ranges of pages, in the map from pages to entries.
use Prim.Native.Nat.{bit_or}
use salern_os_kernel.Prelude.{
  ℕ, zero, suc, ◌+◌, ◌-◌, ◌*◌, ◌/◌, ◌%◌, ◌^◌, ◌≤◌, ◌<◌, ◌≡◌, ◌≢◌, ◌⊎◌, inl, inr, ◌∙◌, refl, sym, ap,
  subst, Bool, true, false, ◌&&◌, Option, none, some, List, [], ◌∷◌, take, ltb, leb, ◌==◌,
  if◌then◌else◌, arith, Option-cases,
}
use salern_os_kernel.Prelude.Word.{add64}
use salern_os_kernel.Pmm.Pages.{phys_to_hhdm}
use salern_os_kernel.Mmu.{
  Mmu, addr_bits, table_flags, set_entry, next, offsets, make_path, add_page, arch_mmu_map,
}
use salern_os_kernel.Mmu.Path.{IsMmu}
use salern_os_kernel.Mmu.Mapping.{entry_of, same_page, arch_mmu_map_lem}
use salern_os_kernel.Vmm.{Vmm, map_loop}

-- How many pages `w` is behind `virt`, in the 48 bits that the tables translate.
abbrev pub distance : (virt w : ℕ) → ℕ
distance virt w = (w / 4096 % 2 ^ 36 + 2 ^ 36 - virt / 4096 % 2 ^ 36) % 2 ^ 36

same_page-distance :
    (virt i w : ℕ) → i < 2 ^ 36 → same_page (add64 virt (i * 4096)) w ≡ (distance virt w == i)
same_page-distance virt i w h =
    let page : (virt + i * 4096) % 2 ^ 64 / 4096 % 2 ^ 36 ≡ (virt / 4096 % 2 ^ 36 + i) % 2 ^ 36 =
      omega arith in
    ground (arith, page)

abbrev IsUsedUp : Option ℕ × Mmu → Type 0
IsUsedUp r = r.0 ≡ none → r.1.supply ≡ []

make_path-IsUsedUp_missing :
    (i : ℕ) (is : List ℕ) (t : ℕ) (tables : ℕ → ℕ → ℕ) (supply : List ℕ)
    → ((t : ℕ) (s : Mmu) → IsUsedUp (make_path is t s))
    → next (tables t i) ≡ none
    → IsUsedUp (make_path (i ∷ is) t (record { tables = tables; supply = supply }))
unfolding make_path
make_path-IsUsedUp_missing i is t tables [] rest empty =
    let s : Mmu = record { tables = tables; supply = [] } in
    let step : make_path (i ∷ is) t s ≡ (none, s) = ground (arith, empty) in
    subst IsUsedUp (sym step) (λ e. refl)
make_path-IsUsedUp_missing i is t tables (p ∷ ps) rest empty =
    let s : Mmu = record { tables = tables; supply = p ∷ ps } in
    let s1 : Mmu = record { tables = set_entry tables t i (bit_or p table_flags); supply = ps } in
    let step : make_path (i ∷ is) t s ≡ make_path is (phys_to_hhdm p) s1 = ground (arith, empty) in
    subst IsUsedUp (sym step) (rest (phys_to_hhdm p) s1)

-- A path fails only when no page is left.
make_path-IsUsedUp : (is : List ℕ) (t : ℕ) (s : Mmu) → IsUsedUp (make_path is t s)
unfolding make_path
make_path-IsUsedUp [] t s = λ e. absurd (ground (arith, e))
make_path-IsUsedUp (i ∷ is) t s = elim (Option-cases (next (s.tables t i))) [
  | inr (t', down) ↦
      let step : make_path (i ∷ is) t s ≡ make_path is t' s = ground (arith, down) in
      subst IsUsedUp (sym step) (make_path-IsUsedUp is t' s)
  | inl empty ↦ make_path-IsUsedUp_missing i is t s.tables s.supply (make_path-IsUsedUp is) empty
]

arch_mmu_map_fails :
    (pt virt phys flags : ℕ) (s : Mmu) (s' : Mmu)
    → arch_mmu_map pt virt phys flags s ≡ (false, s')
    → s'.supply ≡ []
unfolding arch_mmu_map add_page
arch_mmu_map_fails pt virt phys flags s s' run =
    ends (make_path (take 3 (offsets virt)) (phys_to_hhdm pt) s).0
      (make_path (take 3 (offsets virt)) (phys_to_hhdm pt) s).1 refl run
  where
    ends :
        (o : Option ℕ) (s1 : Mmu)
        → make_path (take 3 (offsets virt)) (phys_to_hhdm pt) s ≡ (o, s1)
        → arch_mmu_map pt virt phys flags s ≡ (false, s')
        → s'.supply ≡ []
    ends none s1 made run =
        let failed : arch_mmu_map pt virt phys flags s ≡ (false, s1) = ground (arith, made) in
        ap (λ r. r.1.supply) (sym run ∙ failed)
        ∙ ap (λ r. r.1.supply) (sym made)
        ∙ make_path-IsUsedUp (take 3 (offsets virt)) (phys_to_hhdm pt) s (ap (λ r. r.0) made)
    ends (some t) s1 made run =
        let worked : (arch_mmu_map pt virt phys flags s).0 ≡ true = ground (arith, made) in
        absurd (ground (arith, sym worked ∙ ap (λ r. r.0) run))

-- The address that page `d` of the range is mapped to.
abbrev pub target : (page_paddr zero_page : ℕ) (allocate : Bool) (d : ℕ) → ℕ
target page_paddr zero_page allocate d = if allocate then zero_page else add64 page_paddr (d * 4096)

-- The pages of the range from page `i` on are mapped to their targets, the others as before.
abbrev pub IsMapped : (pages i virt page_paddr mmu_flags : ℕ) (allocate : Bool) → Vmm → Vmm → Type 0
IsMapped n i virt page_paddr mmu_flags allocate c c' =
    (w : ℕ)
    → entry_of c.pagetable w c'.mmu ≡ (
        if leb i (distance virt w) && ltb (distance virt w) (i + n)
        then bit_or (addr_bits (target page_paddr c.zero_page allocate (distance virt w))) mmu_flags
        else entry_of c.pagetable w c.mmu)

-- What the loop comes to.
abbrev LoopEnds : (n i virt page_paddr mmu_flags : ℕ) (allocate : Bool) → Vmm → Type 0
LoopEnds n i virt page_paddr mmu_flags allocate c =
    (ok : Bool) × (c' : Vmm) × (map_loop n i virt page_paddr mmu_flags allocate c ≡ (ok, c'))
    × IsMmu (phys_to_hhdm c.pagetable) c'.mmu
    × (ok ≡ true → IsMapped n i virt page_paddr mmu_flags allocate c c')
    × (ok ≡ false → c'.mmu.supply ≡ [])

-- The entry of the first page, then those of the others.
IsMapped-suc :
    (n i virt page_paddr mmu_flags : ℕ) (allocate : Bool) (c c1 c' : Vmm)
    → i + suc n ≤ 2 ^ 36
    → ((w : ℕ)
        → entry_of c.pagetable w c1.mmu ≡ (
            if same_page (add64 virt (i * 4096)) w
            then bit_or (addr_bits (target page_paddr c.zero_page allocate i)) mmu_flags
            else entry_of c.pagetable w c.mmu))
    → ((w : ℕ)
        → entry_of c.pagetable w c'.mmu ≡ (
            if leb (suc i) (distance virt w) && ltb (distance virt w) (suc i + n)
            then bit_or
                (addr_bits (target page_paddr c.zero_page allocate (distance virt w)))
                mmu_flags
            else entry_of c.pagetable w c1.mmu))
    → IsMapped (suc n) i virt page_paddr mmu_flags allocate c c'
IsMapped-suc n i virt page_paddr mmu_flags allocate c c1 c' fits first rest w =
    let there = same_page-distance virt i w (omega (arith, fits)) in
    let entry : ℕ → ℕ =
      λ d. bit_or (addr_bits (target page_paddr c.zero_page allocate d)) mmu_flags in
    let old = entry_of c.pagetable w c.mmu in
    rest w
    ∙ ap
        (λ e.
          if leb (suc i) (distance virt w) && ltb (distance virt w) (suc i + n)
          then entry (distance virt w)
          else e)
        (first w ∙ ap (λ b. if b then entry i else old) there)
    ∙ choose (distance virt w) entry old
  where
    choose :
        (d : ℕ) (entry : ℕ → ℕ) (old : ℕ)
        → (if leb (suc i) d && ltb d (suc i + n) then entry d else if d == i then entry i else old)
          ≡ (if leb i d && ltb d (i + suc n) then entry d else old)
    choose d entry old = elim (cases d i) [
      | inl same ↦
          subst
            (λ j.
              (if leb (suc j) d && ltb d (suc j + n)
                then entry d
                else if d == j
                then entry j
                else old)
              ≡ (if leb j d && ltb d (j + suc n) then entry d else old))
            same (ground arith)
      | inr differ ↦ ground (arith, differ)
    ]
      where
        cases : (a b : ℕ) → (a ≡ b) ⊎ (a ≢ b)
        cases a b = ground arith

map_step :
    (n i virt page_paddr mmu_flags : ℕ) (allocate : Bool) (c : Vmm)
    → ((c : Vmm)
        → IsMmu (phys_to_hhdm c.pagetable) c.mmu
        → LoopEnds n (suc i) virt page_paddr mmu_flags allocate c)
    → i + suc n ≤ 2 ^ 36
    → (done : Bool) (mmu : Mmu)
    → arch_mmu_map c.pagetable
        (add64 virt (i * 4096))
        (target page_paddr c.zero_page allocate i)
        mmu_flags
        c.mmu
      ≡ (done, mmu)
    → IsMmu (phys_to_hhdm c.pagetable) mmu
    → ((w : ℕ)
        → entry_of c.pagetable w mmu ≡ (
            if done && same_page (add64 virt (i * 4096)) w
            then bit_or (addr_bits (target page_paddr c.zero_page allocate i)) mmu_flags
            else entry_of c.pagetable w c.mmu))
    → LoopEnds (suc n) i virt page_paddr mmu_flags allocate c
unfolding map_loop
map_step n i virt page_paddr mmu_flags allocate c rest fits false mmu run good entries = (
  false,
  record c { mmu = mmu; zero_refs = if allocate then c.zero_refs + 1 else c.zero_refs },
  ground (arith, run),
  good,
  (λ e w. absurd (ground (arith, e))),
  (λ e.
      arch_mmu_map_fails c.pagetable (add64 virt (i * 4096))
        (target page_paddr c.zero_page allocate i) mmu_flags c.mmu mmu run),
)
map_step n i virt page_paddr mmu_flags allocate c rest fits true mmu run good entries =
    let c1 : Vmm = record c {
      mmu = mmu;
      zero_refs = if allocate then c.zero_refs + 1 else c.zero_refs;
    } in
    let (ok, c', run', good', mapped, fails) = rest c1 good in
    let step : map_loop (suc n) i virt page_paddr mmu_flags allocate c
        ≡ map_loop n (suc i) virt page_paddr mmu_flags allocate c1 =
      ground (arith, run) in
    (
      ok,
      c',
      step ∙ run',
      good',
      (λ e. IsMapped-suc n i virt page_paddr mmu_flags allocate c c1 c' fits entries (mapped e)),
      fails,
    )

-- Mapping a range of pages, no more than the tables translate, into page tables that are a tree with
-- spare pages outside it: if the loop gets to its end, exactly the pages of the range have the entry
-- for their target, the zero page or the page as far behind the physical address, with the flags, and
-- every other entry is as before. The assertion fails only when no spare page is left.
pub map_loop_lem :
    (n i virt page_paddr mmu_flags : ℕ) (allocate : Bool) (c : Vmm)
    → i + n ≤ 2 ^ 36
    → IsMmu (phys_to_hhdm c.pagetable) c.mmu
    → (ok : Bool) × (c' : Vmm) × (map_loop n i virt page_paddr mmu_flags allocate c ≡ (ok, c'))
      × IsMmu (phys_to_hhdm c.pagetable) c'.mmu
      × (ok ≡ true → IsMapped n i virt page_paddr mmu_flags allocate c c')
      × (ok ≡ false → c'.mmu.supply ≡ [])
unfolding map_loop
map_loop_lem zero i virt page_paddr mmu_flags allocate c fits good =
    (true, c, refl, good, (λ e w. ground arith), (λ e. absurd (ground (arith, e))))
map_loop_lem (suc n) i virt page_paddr mmu_flags allocate c fits good =
    let (done, mmu, run, good1, entries, fails) =
      arch_mmu_map_lem c.pagetable (add64 virt (i * 4096))
        (target page_paddr c.zero_page allocate i) mmu_flags c.mmu good in
    map_step n i virt page_paddr mmu_flags allocate c
      (λ c1 good1.
        map_loop_lem n (suc i) virt page_paddr mmu_flags allocate c1 (omega (arith, fits)) good1)
      fits done mmu run good1 entries
