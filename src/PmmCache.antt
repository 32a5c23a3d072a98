-- ===== src/PmmCache.antt =====
-- src/com/mm/pmmcache.c: a stock of pages between its users and the page allocator. A `struct pool`
-- stands in the first page of each run of pages; the chain of them is a list of runs, at addresses
-- of the direct map. The results of `com_mm_pmm_alloc_max_zero` are an argument, by the number of the
-- call; in PmmCache/Stock they are those of Pmm/Pages, on the states of the allocator at the calls.
-- `none` is a failed assertion or, in the loop of `pmm_cache_new_pool`, fuel that ran out. The lock and the
-- zeroing of the pages are left out.

pub mod Stock
mod Tests
use salern_os_kernel.Prelude.{
  ℕ, zero, suc, ◌+◌, Bool, true, false, Option, none, some, List, [], ◌∷◌, ltb, ◌==◌, if◌then◌else◌,
}
use salern_os_kernel.Prelude.Word.{add64, sub64}
use salern_os_kernel.Pmm.FreeList.{page_size}
use salern_os_kernel.Pmm.Pages.{phys_to_hhdm, hhdm_to_phys}

-- `struct pool`, at its address.
pub record Run : Type 0 where
  pub address : ℕ
  pub len : ℕ

-- `com_pmm_cache_t`, with two of the flags; the third is about the lock.
pub record PmmCache : Type 0 where
  pub pool_size : ℕ
  pub max_pool_size : ℕ
  pub pool : List Run
  pub avail_pages : ℕ
  pub auto_merge : Bool
  pub auto_alloc : Bool

-- `alloc_max call pages` is the physical address and the size of the run that the call gets.
abbrev pub AllocMax : Type 0
AllocMax = (call pages : ℕ) → ℕ × ℕ

-- The loop from `allocated` on; the runs follow one another in the order of the calls.
unfoldable pub new_pool_loop :
    (fuel : ℕ) → AllocMax → (call allocated pages : ℕ) → Option (List Run)
new_pool_loop zero alloc_max call allocated pages = if ltb allocated pages then none else some []
new_pool_loop (suc fuel) alloc_max call allocated pages =
    let (address, size) = alloc_max call pages in
    let rest = new_pool_loop fuel alloc_max (suc call) (add64 allocated size) pages in
    if ltb allocated pages
    then (elim rest [
      | none ↦ none
      | some runs ↦ some (record { address = phys_to_hhdm address; len = size } ∷ runs)
    ])
    else some []

-- A round gets a page at least, so `pages` rounds are enough.
unfoldable pub pmm_cache_new_pool : AllocMax → (pages : ℕ) → Option (List Run)
unfolding new_pool_loop
pmm_cache_new_pool alloc_max pages = new_pool_loop pages alloc_max 0 0 pages

-- The page at the front, and what is left of the pool; without a page the code follows NULL.
unfoldable pub take_page : PmmCache → Option (Option ℕ × PmmCache)
take_page c = elim c.pool [
  | [] ↦ none
  | r ∷ rs ↦
      let left = sub64 r.len 1 in
      let next : List Run =
        if left == 0 then rs else record { address = add64 r.address page_size; len = left } ∷ rs in
      some (
        some (hhdm_to_phys r.address),
        record c { pool = next; avail_pages = sub64 c.avail_pages 1 },
      )
]

unfoldable pub is_empty : List Run → Bool
is_empty [] = true
is_empty (r ∷ rs) = false

-- The page, or NULL for `none` inside.
unfoldable pub pmm_cache_alloc : AllocMax → (pages : ℕ) → PmmCache → Option (Option ℕ × PmmCache)
unfolding take_page is_empty pmm_cache_new_pool
pmm_cache_alloc alloc_max pages c =
    let refill = pmm_cache_new_pool alloc_max c.pool_size in
    if pages == 1
    then (if is_empty c.pool
        then (if c.avail_pages == 0
            then (if c.auto_alloc
                then (elim refill [
                  | none ↦ none
                  | some runs ↦ take_page (record c { pool = runs; avail_pages = c.pool_size })
                ])
                else some (none, c))
            else none)
        else take_page c)
    else none

unfoldable pub pmm_cache_free : (page : ℕ) → PmmCache → PmmCache
pmm_cache_free page c = if c.auto_merge then c else record c {
  pool = record { address = phys_to_hhdm page; len = 1 } ∷ c.pool;
  avail_pages = add64 c.avail_pages 1;
}

unfoldable pub pmm_cache_init :
    AllocMax
    → (init_size pool_size max_pool_size : ℕ) → (auto_merge auto_alloc : Bool) → Option PmmCache
unfolding pmm_cache_new_pool
pmm_cache_init alloc_max init_size pool_size max_pool_size auto_merge auto_alloc =
    elim (pmm_cache_new_pool alloc_max init_size) [
      | none ↦ none
      | some runs ↦ some (record {
        pool_size = pool_size;
        max_pool_size = max_pool_size;
        pool = runs;
        avail_pages = init_size;
        auto_merge = auto_merge;
        auto_alloc = auto_alloc;
      })
    ]
