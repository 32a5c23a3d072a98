-- ===== src/PmmCache/Tests.antt =====
-- A cache of three pages, and a new pool where memory is fragmented.
use salern_os_kernel.Prelude.{
  ◌+◌, ◌*◌, ◌≤◌, ◌<◌, ◌≡◌, refl, true, false, some, List, [], ◌∷◌, min, arith,
}
use salern_os_kernel.Pmm.FreeList.{block, pop_front, reorder}
use salern_os_kernel.Pmm.Pages.{
  Pmm, phys_to_hhdm, fresh, update_run, count_used, page_meta_set, claim_many, alloc_max,
}
use salern_os_kernel.PmmCache.{Run, PmmCache, AllocMax, pmm_cache_new_pool}
use salern_os_kernel.PmmCache.Stock.{IsStocked, AllNonempty, total, pmm_cache_new_pool_lem}

abbrev cache : PmmCache
cache = record {
  pool_size = 8;
  max_pool_size = 16;
  pool =
      record { address = 0x8000_0000_0000_1000; len = 1 }
      ∷ record { address = 0x8000_0000_0000_4000; len = 2 }
      ∷ [];
  avail_pages = 3;
  auto_merge = false;
  auto_alloc = true;
}

-- At most three pages in a row are free.
abbrev fragmented : AllocMax
fragmented call pages = (call * 65536, min 3 pages)

abbrev nine_pages : List Run
nine_pages =
    record { address = phys_to_hhdm 0; len = 3 }
    ∷ record { address = phys_to_hhdm 65536; len = 3 }
    ∷ record { address = phys_to_hhdm 131072; len = 3 }
    ∷ []

-- A pool of eight pages gets nine of them, so the count of a new cache is one too low.
new_pool_run : pmm_cache_new_pool fragmented 8 ≡ some nine_pages
unfolding pmm_cache_new_pool
new_pool_run = refl

cache-IsStocked : IsStocked cache
unfolding total AllNonempty
cache-IsStocked = (refl, omega arith, (omega arith, (omega arith, refl)))

-- At each call three pages in a row are free, and no more.
abbrev three_free : Pmm
three_free = record {
  free_list = block 0xffff_8000_0000_3000 3 ∷ [];
  buffer = λ i. fresh;
  fake_entry = fresh;
  len = 8;
  reserved_start = 8;
  extended_len = 8;
  stats = record { reserved_bytes = 0; free_bytes = 0x3000; used_bytes = 0x5000 };
}

abbrev three_taken : Pmm
three_taken = record three_free {
  free_list = [];
  buffer = update_run three_free.buffer 3 3 fresh;
  stats = count_used 3 three_free.stats;
}

takes_three : alloc_max 8 three_free ≡ some (0x3000, some 3, three_taken)
unfolding alloc_max pop_front claim_many reorder page_meta_set
takes_three = refl

abbrev threes : AllocMax
threes call pages = (0x3000, 3)

pmm_cache_new_pool_lem_example :
    (runs : List Run) × (pmm_cache_new_pool threes 8 ≡ some runs)
    × (8 ≤ total runs)
    × (total runs < 8 + 8)
    × AllNonempty runs
pmm_cache_new_pool_lem_example =
    pmm_cache_new_pool_lem (λ i. three_free) (λ i. three_taken) threes 8 (λ i. omega arith)
      (λ i. takes_three) (omega arith) (omega arith)
