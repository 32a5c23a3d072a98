-- ===== src/Pmm/FreeList/Tests.antt =====
-- Runs of the free list, and the theorems at concrete lists.
use salern_os_kernel.Prelude.{ℕ, ◌+◌, ◌≡◌, refl, some, List, [], ◌∷◌, arith}
use salern_os_kernel.Pmm.FreeList.{
  Entry, block, join_last, freelist_add_ordered, freelist_add_merged, pop_front,
}
use salern_os_kernel.Pmm.FreeList.Conserve.{
  covers, free_count, AllBlocks, pop_front_lem, pop_front-unordered,
}

abbrev two_blocks : List Entry
two_blocks = block 0x10000 3 ∷ block 0x20000 2 ∷ []

two_blocks-AllBlocks : AllBlocks two_blocks
two_blocks-AllBlocks = omega arith

-- Two blocks of one size, and the page behind the second.
abbrev pair : List Entry
pair = block 0x10000 2 ∷ block 0x20000 2 ∷ []

merged_run : freelist_add_ordered (block 0x22000 1) pair ≡ block 0x10000 2 ∷ block 0x20000 3 ∷ []
unfolding freelist_add_ordered join_last
merged_run = refl

-- The allocation of two pages then hands out the first block and keeps it.
double_run :
    pop_front 2 (block 0x10000 2 ∷ block 0x20000 3 ∷ [])
    ≡ some (2, 0x10000, block 0x20000 3 ∷ block 0x10000 2 ∷ [])
unfolding pop_front
double_run = refl

-- A gap of one page is swallowed, since the end of `curr` is computed with the pages of `entry`.
gap_run : freelist_add_merged (block 0x12000 2) (block 0x10000 1 ∷ []) ≡ block 0x10000 3 ∷ []
unfolding freelist_add_merged
gap_run = refl

pop_front_lem_example :
    (addr : ℕ) × (l' : List Entry) × (pop_front 2 two_blocks ≡ some (2, addr, l'))
    × ((a : ℕ) → free_count two_blocks a ≡ covers (block addr 2) a + free_count l' a)
pop_front_lem_example =
    pop_front_lem 2 (block 0x10000 3) (block 0x20000 2 ∷ []) two_blocks-AllBlocks (omega arith)

pop_front-unordered_example :
    (l' : List Entry) × (pop_front 2 (block 0x10000 2 ∷ block 0x20000 3 ∷ [])
      ≡ some (2, 0x10000, l'))
    × ((a : ℕ) → free_count l' a ≡ free_count (block 0x10000 2 ∷ block 0x20000 3 ∷ []) a)
pop_front-unordered_example =
    pop_front-unordered 2 (block 0x10000 2) (block 0x20000 3) [] (omega arith) (omega arith)
      (omega arith)
