-- ===== src/Slab.antt =====
-- src/com/mm/slab.c: lists of free cells by size class. Of a cell the model keeps the first word,
-- which links it to the next; the zeroing of the others is left out. The page of zeros for new cells,
-- at its address in the direct map, is an argument. `none` is a failed assertion or, for cells of
-- no size, a division by zero. The lock is left out.
pub mod Chain
mod Tests
use salern_os_kernel.Prelude.{
  ℕ, zero, suc, ◌+◌, ◌-◌, ◌*◌, ◌/◌, Option, none, some, ltb, ◌==◌, if◌then◌else◌,
}

-- `Slabs` and the first words of the cells.
pub record Slab : Type 0 where
  pub slabs : ℕ → ℕ
  pub words : ℕ → ℕ

abbrev pub num_slabs : ℕ
num_slabs = 4096 / 16

abbrev pub put_at : (ℕ → ℕ) → ℕ → ℕ → ℕ → ℕ
put_at f i v j = if i == j then v else f j

-- The loop of `init`, from cell `i` on, and the last link after it.
unfoldable pub init_loop : (rounds i page entry_size : ℕ) → (ℕ → ℕ) → ℕ → ℕ
init_loop zero i page entry_size words = put_at words (page + i * entry_size) 0
init_loop (suc k) i page entry_size words =
    init_loop k (suc i) page entry_size
      (put_at words (page + i * entry_size) (page + suc i * entry_size))

unfoldable pub init : (page i size : ℕ) → Slab → Slab
unfolding init_loop
init page i size s =
    let entry_size = (size + 15) / 16 * 16 in
    record {
      slabs = put_at s.slabs i page;
      words = init_loop (4096 / entry_size - 1) 0 page entry_size s.words;
    }

-- The head of the list is unlinked and its first word cleared.
unfoldable pub unlink_head : ℕ → Slab → ℕ × Slab
unlink_head i s =
    let head = s.slabs i in
    (head, record { slabs = put_at s.slabs i (s.words head); words = put_at s.words head 0 })

unfoldable pub slab_alloc : (page size : ℕ) → Slab → Option (ℕ × Slab)
unfolding init unlink_head
slab_alloc page size s =
    let i = (size + 15) / 16 in
    if ltb i num_slabs
    then (if s.slabs i == 0
        then (if i == 0 then none else some (unlink_head i (init page i size s)))
        else some (unlink_head i s))
    else none

unfoldable pub slab_free : (ptr size : ℕ) → Slab → Option Slab
slab_free ptr size s =
    let i = (size + 15) / 16 in
    if ptr == 0
    then some s
    else if ltb i num_slabs
    then some (record { slabs = put_at s.slabs i ptr; words = put_at s.words ptr (s.slabs i) })
    else none
