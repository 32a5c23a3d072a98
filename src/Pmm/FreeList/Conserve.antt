-- ===== src/Pmm/FreeList/Conserve.antt =====
-- No page is lost or made: the operations on the free list move each page as often as it was there.
use salern_os_kernel.Prelude.{
  ℕ, ◌+◌, ◌-◌, ◌*◌, ◌%◌, ◌≤◌, ◌<◌, ◌≡◌, refl, ◌&&◌, some, List, [], ◌∷◌, ltb, leb, ◌==◌,
  if◌then◌else◌, arith, min, inl, inr, Bool-cases, ap,
}
use salern_os_kernel.Prelude.Word.{word, add64}
use salern_os_kernel.Pmm.FreeList.{
  Entry, block, page_size, join_last, add_single, insert_by_size, freelist_add_ordered, pop_rear,
  reorder, pop_front,
}

-- How often the block holds the byte at `a`: 0 or 1.
abbrev pub covers : Entry → ℕ → ℕ
covers e a = if leb e.addr a && ltb a (e.addr + e.pages * page_size) then 1 else 0

-- How often the free list holds the byte at `a`.
abbrev pub free_count : List Entry → ℕ → ℕ
free_count [] a = 0
free_count (e ∷ l) a = covers e a + free_count l a

-- A block has a page, begins at a page boundary and ends within the address space.
pub record IsBlock (e : Entry) : Type 0 where
  pub some_pages : 1 ≤ e.pages
  pub aligned : e.addr % page_size ≡ 0
  pub in_range : e.addr + e.pages * page_size < word

abbrev pub AllBlocks : List Entry → Type 0
AllBlocks [] = Unit
AllBlocks (e ∷ l) = IsBlock e × AllBlocks l

free_count-join_last :
    (e last : Entry) (a : ℕ)
    → IsBlock e
    → IsBlock last
    → e.pages ≡ 1
    → free_count (join_last e last) a ≡ covers e a + covers last a
unfolding join_last
free_count-join_last e last a be bl one = ground arith

free_count-add_single :
    (e : Entry) (l : List Entry) (a : ℕ)
    → IsBlock e
    → AllBlocks l
    → e.pages ≡ 1
    → free_count (add_single e l) a ≡ covers e a + free_count l a
unfolding add_single
free_count-add_single e [] a be bl one = refl
free_count-add_single e (x ∷ []) a be bl one = omega (arith, free_count-join_last e x a be bl.0 one)
free_count-add_single e (x ∷ y ∷ l) a be bl one =
    omega (arith, free_count-add_single e (y ∷ l) a be bl.1 one)

free_count-insert_by_size :
    (e : Entry) (l : List Entry) (a : ℕ)
    → free_count (insert_by_size e l) a ≡ covers e a + free_count l a
unfolding insert_by_size
free_count-insert_by_size e [] a = refl
free_count-insert_by_size e (c ∷ l) a = elim (Bool-cases (leb c.pages e.pages)) [
  | inl here ↦ rw here refl
  | inr later ↦ rw later (omega (arith, free_count-insert_by_size e l a))
]

-- Adding a block to the free list, merged with the last one or not, adds exactly its bytes.
pub free_count-freelist_add_ordered :
    (e : Entry) (l : List Entry) (a : ℕ)
    → IsBlock e
    → AllBlocks l
    → free_count (freelist_add_ordered e l) a ≡ covers e a + free_count l a
unfolding freelist_add_ordered
free_count-freelist_add_ordered e l a be bl = elim (Bool-cases (e.pages == 1)) [
  | inl one ↦ rw one (free_count-add_single e l a be bl (ground arith))
  | inr many ↦ rw many (free_count-insert_by_size e l a)
]

-- Taking a page from the rear of a list of blocks succeeds, and moves the bytes of that page out of
-- the free list and no others; the page is a block, and blocks are left.
pub pop_rear_lem :
    (e : Entry) (l : List Entry)
    → AllBlocks (e ∷ l)
    → (page : ℕ) × (l' : List Entry) × (pop_rear (e ∷ l) ≡ some (page, l'))
      × IsBlock (block page 1)
      × AllBlocks l'
      × ((a : ℕ) → free_count (e ∷ l) a ≡ covers (block page 1) a + free_count l' a)
unfolding pop_rear
pop_rear_lem e [] b = elim (Bool-cases (e.pages == 1)) [
  | inl one ↦ (e.addr, [], rw one refl, ground arith, tt, λ a. ground arith)
  | inr many ↦ (
    add64 e.addr (page_size * (e.pages - 1)),
    block e.addr (e.pages - 1) ∷ [],
    rw many refl,
    ground arith,
    (ground arith, tt),
    λ a. ground arith,
  )
]
pop_rear_lem e (x ∷ l) b =
    let (page, l', popped, one, blocks, moved) = pop_rear_lem x l b.1 in
    (page, e ∷ l', rw (pop_rear, popped) refl, one, (b.0, blocks), λ a. omega (arith, moved a))

-- The next entry is not larger.
abbrev pub NotBelow : Entry → List Entry → Type 0
NotBelow e [] = Unit
NotBelow e (next ∷ l) = next.pages ≤ e.pages

reorder-kept : (e : Entry) (kept rest : List Entry) → NotBelow e rest → reorder e kept rest ≡ kept
unfolding reorder
reorder-kept e kept [] h = refl
reorder-kept e kept (next ∷ l) h = ground arith

free_count-reorder :
    (e : Entry) (rest : List Entry) (a : ℕ)
    → IsBlock e
    → AllBlocks rest
    → free_count (reorder e (e ∷ rest) rest) a ≡ covers e a + free_count rest a
unfolding reorder
free_count-reorder e [] a be bl = refl
free_count-reorder e (next ∷ l) a be bl = elim (Bool-cases (ltb e.pages next.pages)) [
  | inl below ↦ rw below (free_count-freelist_add_ordered e (next ∷ l) a be bl)
  | inr above ↦ rw above refl
]

-- The front `left` pages and the `taken` pages behind them make up the block.
covers-split :
    (addr left taken a : ℕ)
    → addr + (left + taken) * page_size < word
    → covers (block addr (left + taken)) a
      ≡ covers (block (add64 addr (page_size * left)) taken) a + covers (block addr left) a
covers-split addr left taken a small = ground arith

-- Taking pages from a front entry that is no smaller than the next succeeds, yields the number asked
-- for or the whole entry, and moves exactly the bytes of those pages out of the free list.
pub pop_front_lem :
    (num_pages : ℕ) (e : Entry) (l : List Entry)
    → AllBlocks (e ∷ l)
    → NotBelow e l
    → (addr : ℕ) × (l' : List Entry) × (pop_front num_pages (e ∷ l)
        ≡ some (min num_pages e.pages, addr, l'))
      × ((a : ℕ)
          → free_count (e ∷ l) a ≡ covers (block addr (min num_pages e.pages)) a + free_count l' a)
unfolding pop_front
pop_front_lem num_pages e l b largest = elim (Bool-cases (min num_pages e.pages == e.pages)) [
  | inl whole ↦
      let e' : min num_pages e.pages ≡ e.pages = ground arith in
      (e.addr, l, rw (whole, reorder-kept e l l largest) refl, λ a. rw e' refl)
  | inr part ↦
      let taken = min num_pages e.pages in
      let left = e.pages - taken in
      let rest-IsBlock : IsBlock (block e.addr left) = ground arith in
      let sum : left + taken ≡ e.pages = omega arith in
      (
        add64 e.addr (page_size * left),
        reorder (block e.addr left) (block e.addr left ∷ l) l,
        rw part refl,
        λ a. omega (
          arith,
          free_count-reorder (block e.addr left) l a rest-IsBlock b.1,
          covers-split e.addr left taken a (omega arith),
          ap (λ (n : ℕ). covers (block e.addr n) a) sum,
        ),
      )
]

-- Where the next entry is larger, taking at least the whole front entry hands it out and leaves it
-- in the free list: no byte leaves the list.
pub pop_front-unordered :
    (num_pages : ℕ) (e next : Entry) (l : List Entry)
    → AllBlocks (e ∷ next ∷ l)
    → e.pages < next.pages
    → e.pages ≤ num_pages
    → (l' : List Entry) × (pop_front num_pages (e ∷ next ∷ l) ≡ some (e.pages, e.addr, l'))
      × ((a : ℕ) → free_count l' a ≡ free_count (e ∷ next ∷ l) a)
unfolding pop_front reorder
pop_front-unordered num_pages e next l b larger all =
    let e' : min num_pages e.pages ≡ e.pages = omega arith in
    (
      freelist_add_ordered e (next ∷ l),
      ground arith,
      λ a. free_count-freelist_add_ordered e (next ∷ l) a b.0 b.1,
    )
