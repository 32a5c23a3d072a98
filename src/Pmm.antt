-- ===== src/Pmm.antt =====
-- src/com/mm/pmm.c: the physical page allocator. `FreeList` has the list of free blocks, `Pages` the
-- page table beside it and the interface functions.
pub mod FreeList
pub mod Pages
