-- ===== src/Pmm/FreeList/Order.antt =====
-- The order of the free list by size: what keeps it, and what breaks it.
use salern_os_kernel.Prelude.{◌*◌, ◌≡◌, ◌≢◌, List, [], ◌∷◌, arith}
use salern_os_kernel.Prelude.Word.{add64}
use salern_os_kernel.Pmm.FreeList.{
  Entry, page_size, insert_by_size, freelist_add_ordered, join_last,
}
use salern_os_kernel.Pmm.FreeList.Conserve.{NotBelow}

-- Larger blocks come first.
abbrev pub Descending : List Entry → Type 0
Descending [] = Unit
Descending (e ∷ l) = NotBelow e l × Descending l

Descending-insert_by_size :
    (e : Entry) (l : List Entry) → Descending l → Descending (insert_by_size e l)
unfolding insert_by_size
Descending-insert_by_size e [] d = (tt, tt)
Descending-insert_by_size e (c ∷ []) d = ground arith
Descending-insert_by_size e (c ∷ n ∷ l) d = ground (arith, Descending-insert_by_size e (n ∷ l) d.1)

-- A block of several pages finds its place: the list stays ordered by size.
pub Descending-freelist_add_ordered :
    (e : Entry) (l : List Entry)
    → e.pages ≢ 1
    → Descending l
    → Descending (freelist_add_ordered e l)
unfolding freelist_add_ordered
Descending-freelist_add_ordered e l many d = ground (arith, Descending-insert_by_size e l d)

-- A single page that lies right behind the last of two blocks of the same size is merged into that
-- block, which is then larger than the one before it: the list is no longer ordered.
pub not-Descending-freelist_add_ordered :
    (e prev last : Entry)
    → e.pages ≡ 1
    → last.pages ≡ prev.pages
    → e.addr ≡ add64 last.addr (last.pages * page_size)
    → ¬ Descending (freelist_add_ordered e (prev ∷ last ∷ []))
unfolding freelist_add_ordered join_last
not-Descending-freelist_add_ordered e prev last one same behind d = ground arith
