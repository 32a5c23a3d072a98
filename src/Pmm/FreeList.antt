-- ===== src/Pmm/FreeList.antt =====
-- The free list of pmm.c. A block is a run of pages, named by the address of its first page, where
-- its header lies; the TAILQ of headers is a list. Addresses are words, with the wrap of
-- `uintptr_t` written out; page counts stay below 2 ^ 52.
pub mod Conserve
pub mod Order
mod Tests
use salern_os_kernel.Prelude.{
  ℕ, zero, suc, ◌+◌, ◌-◌, ◌*◌, Bool, true, false, Option, none, some, List, [], ◌∷◌, ltb, leb, ◌==◌,
  if◌then◌else◌, min,
}
use salern_os_kernel.Prelude.Word.{add64, sub64}

-- `ARCH_PAGE_SIZE`
abbrev pub page_size : ℕ
page_size = 4096

-- `struct freelist_entry`, with the address where it lies
pub record Entry : Type 0 where
  pub addr : ℕ
  pub pages : ℕ

abbrev pub block : ℕ → ℕ → Entry
block a n = record { addr = a; pages = n }

-- A single page behind the last entry, before it, or apart from it.
unfoldable pub join_last : Entry → Entry → List Entry
join_last e last =
    if e.addr == add64 last.addr (last.pages * page_size)
    then block last.addr (last.pages + 1) ∷ []
    else if last.addr == add64 e.addr page_size
    then block e.addr (e.pages + last.pages) ∷ []
    else last ∷ e ∷ []

-- The fast path for single pages: only the last entry is looked at.
unfoldable pub add_single : Entry → List Entry → List Entry
unfolding join_last
add_single e [] = e ∷ []
add_single e (x ∷ []) = join_last e x
add_single e (x ∷ y ∷ l) = x ∷ add_single e (y ∷ l)

-- Before the first entry that is not larger, else at the end.
unfoldable pub insert_by_size : Entry → List Entry → List Entry
insert_by_size e [] = e ∷ []
insert_by_size e (c ∷ l) = if leb c.pages e.pages then e ∷ c ∷ l else c ∷ insert_by_size e l

unfoldable pub freelist_add_ordered : Entry → List Entry → List Entry
unfolding add_single insert_by_size
freelist_add_ordered e l = if e.pages == 1 then add_single e l else insert_by_size e l

-- The walk of `freelist_add_merged_nolock`; `none` is its end without a merge. The last page of
-- `curr` is computed from `entry->pages`, as in the source.
unfoldable pub merge_into : Entry → List Entry → Option (List Entry)
merge_into e [] = none
merge_into e (c ∷ l) =
    let entry_last = add64 e.addr ((e.pages - 1) * page_size) in
    let curr_last = add64 c.addr ((e.pages - 1) * page_size) in
    let rest = merge_into e l in
    if c.addr == add64 entry_last page_size
    then some (block e.addr (e.pages + c.pages) ∷ l)
    else if curr_last == sub64 e.addr page_size
    then some (block c.addr (c.pages + e.pages) ∷ l)
    else elim rest [ none ↦ none | some l' ↦ some (c ∷ l') ]

unfoldable pub freelist_add_merged : Entry → List Entry → List Entry
unfolding merge_into freelist_add_ordered
freelist_add_merged e l = elim (merge_into e l) [ none ↦ freelist_add_ordered e l | some l' ↦ l' ]

-- The last entry gives its last page. `none` is the failed assertion on an empty list.
unfoldable pub pop_rear : List Entry → Option (ℕ × List Entry)
pop_rear [] = none
pop_rear (x ∷ []) =
    if x.pages == 1
    then some (x.addr, [])
    else some (add64 x.addr (page_size * (x.pages - 1)), block x.addr (x.pages - 1) ∷ [])
pop_rear (x ∷ y ∷ l) = elim (pop_rear (y ∷ l)) [ none ↦ none | some (a, l') ↦ some (a, x ∷ l') ]

-- `TAILQ_REMOVE` of an entry that is the head, or was until it was removed, and its new insertion.
unfoldable pub reorder : Entry → (kept rest : List Entry) → List Entry
unfolding freelist_add_ordered
reorder e kept [] = kept
reorder e kept (next ∷ l) =
    if ltb e.pages next.pages then freelist_add_ordered e (next ∷ l) else kept

-- The first entry gives its last pages: their number, the address of the first, and the list.
unfoldable pub pop_front : ℕ → List Entry → Option (ℕ × ℕ × List Entry)
unfolding reorder
pop_front num_pages [] = none
pop_front num_pages (e ∷ rest) =
    let alloc_size = min num_pages e.pages in
    let left = e.pages - alloc_size in
    if alloc_size == e.pages
    then some (alloc_size, e.addr, reorder e rest rest)
    else some (
      alloc_size,
      add64 e.addr (page_size * left),
      reorder (block e.addr left) (block e.addr left ∷ rest) rest,
    )
