-- ===== src/Pmm/Pages/Alloc.antt =====
-- Allocating single pages: what is handed out was free, and is not handed out again.
use salern_os_kernel.Prelude.{
  ℕ, ◌+◌, ◌≤◌, ◌<◌, ◌≡◌, ◌≢◌, refl, Option, some, List, [], ◌∷◌, ◌==◌, if◌then◌else◌, arith, ap,
  subst, sym, ◌∙◌,
}
use salern_os_kernel.Prelude.Word.{word}
use salern_os_kernel.Pmm.FreeList.{Entry, block, pop_rear}
use salern_os_kernel.Pmm.FreeList.Conserve.{covers, free_count, IsBlock, AllBlocks, pop_rear_lem}
use salern_os_kernel.Pmm.Pages.{
  free_page, PageMeta, Pmm, index, hhdm_to_phys, fresh, page_meta_get, put_meta, claim, alloc,
  count_used, update_run,
}

-- The page of a kernel address, and its entry in the page table.
abbrev pub page_of : ℕ → ℕ
page_of a = index (hhdm_to_phys a)

abbrev pub unused : PageMeta
unused = record { state = free_page; num_ref = 0 }

-- The free list holds blocks, no byte twice, and only pages that the page table calls free.
pub record IsConsistent (s : Pmm) : Type 0 where
  pub blocks : AllBlocks s.free_list
  pub table : s.reserved_start ≤ s.extended_len
  pub once : (a : ℕ) → free_count s.free_list a ≤ 1
  pub inside : (a : ℕ) → 1 ≤ free_count s.free_list a → page_of a < s.reserved_start
  pub unclaimed : (a : ℕ) → 1 ≤ free_count s.free_list a → s.buffer (page_of a) ≡ unused

free_count-word : (l : List Entry) (a : ℕ) → AllBlocks l → 1 ≤ free_count l a → a < word
free_count-word [] a b h = absurd (omega arith)
free_count-word (e ∷ l) a b h = ground (arith, free_count-word l a b.1)

-- Addresses outside a page have another entry in the page table.
page_of-ne :
    (page a : ℕ)
    → IsBlock (block page 1)
    → a < word
    → covers (block page 1) a ≡ 0
    → page_of a ≢ page_of page
page_of-ne page a b small out = ground arith

claim_lem :
    (s : Pmm) (page : ℕ) (l' : List Entry)
    → page_of page < s.reserved_start
    → s.reserved_start ≤ s.extended_len
    → s.buffer (page_of page) ≡ unused
    → (s' : Pmm) × (claim page l' s ≡ some (hhdm_to_phys page, s'))
      × (s'.free_list ≡ l')
      × ((i : ℕ) → s'.buffer i ≡ (if i == page_of page then fresh else s.buffer i))
      × (s'.reserved_start ≡ s.reserved_start)
      × (s'.extended_len ≡ s.extended_len)
unfolding claim page_meta_get put_meta
claim_lem s page l' inside table free = (
  record s {
    free_list = l';
    stats = count_used 1 s.stats;
    buffer = update_run s.buffer (page_of page) 1 fresh;
  },
  ground arith,
  refl,
  λ i. ground arith,
  refl,
  refl,
)

claimed-IsConsistent :
    (s s' : Pmm) (page : ℕ)
    → IsConsistent s
    → IsBlock (block page 1)
    → AllBlocks s'.free_list
    → ((a : ℕ) → free_count s.free_list a ≡ covers (block page 1) a + free_count s'.free_list a)
    → ((i : ℕ) → s'.buffer i ≡ (if i == page_of page then fresh else s.buffer i))
    → s'.reserved_start ≡ s.reserved_start
    → s'.extended_len ≡ s.extended_len
    → IsConsistent s'
claimed-IsConsistent s s' page c one blocks moved written same same' = record {
  blocks = blocks;
  table = omega (arith, c.table);
  once = λ a. omega (arith, c.once a, moved a);
  inside = λ a h. omega (arith, c.inside a (omega (arith, moved a)));
  unclaimed = λ a h.
      let apart : covers (block page 1) a ≡ 0 = omega (arith, c.once a, moved a) in
      let small : a < word = free_count-word s'.free_list a blocks h in
      ground (
        arith,
        written (page_of a),
        page_of-ne page a one small apart,
        c.unclaimed a (omega (arith, moved a)),
      );
}

-- A consistent allocator with a free page hands out a page: all of its bytes were free and none is
-- afterwards, every other byte is free as before, its entry says taken with one reference, no other
-- entry has changed, and the allocator is consistent again.
pub alloc_lem :
    (s : Pmm)
    → IsConsistent s
    → s.free_list ≢ []
    → (page : ℕ) × (s' : Pmm) × (alloc s ≡ some (hhdm_to_phys page, s'))
      × IsConsistent s'
      × ((a : ℕ) → free_count s.free_list a ≡ covers (block page 1) a + free_count s'.free_list a)
      × ((i : ℕ) → s'.buffer i ≡ (if i == page_of page then fresh else s.buffer i))
unfolding alloc
alloc_lem s c some_free = go s.free_list refl
  where
    covers_self : (page : ℕ) → covers (block page 1) page ≡ 1
    covers_self page = ground arith

    taken_from :
        {page : ℕ} {l' : List Entry} {r : Option (ℕ × Pmm)}
        → pop_rear s.free_list ≡ some (page, l')
        → claim page l' s ≡ r
        → alloc s ≡ r
    taken_from popped ran = rw (alloc, popped) ran

    go :
        (l : List Entry)
        → s.free_list ≡ l
        → (page : ℕ) × (s' : Pmm) × (alloc s ≡ some (hhdm_to_phys page, s'))
          × IsConsistent s'
          × ((a : ℕ)
              → free_count s.free_list a ≡ covers (block page 1) a + free_count s'.free_list a)
          × ((i : ℕ) → s'.buffer i ≡ (if i == page_of page then fresh else s.buffer i))
    go [] e = absurd (some_free e)
    go (x ∷ l) e =
        let (page, l', popped, one, blocks, moved) =
          pop_rear_lem x l (subst AllBlocks e c.blocks) in
        let moved' : (a : ℕ)
            → free_count s.free_list a ≡ covers (block page 1) a + free_count l' a =
          λ a. ap (λ l. free_count l a) e ∙ moved a in
        let held : 1 ≤ free_count s.free_list page = omega (arith, moved' page, covers_self page) in
        let (s', ran, left, written, same, same') =
          claim_lem s page l' (c.inside page held) c.table (c.unclaimed page held) in
        let moved'' =
          subst (λ m. (a : ℕ) → free_count s.free_list a ≡ covers (block page 1) a + free_count m a)
            (sym left) moved' in
        (
          page,
          s',
          taken_from (ap pop_rear e ∙ popped) ran,
          claimed-IsConsistent s s' page c one (subst AllBlocks (sym left) blocks) moved'' written
              same same',
          moved'',
          written,
        )
