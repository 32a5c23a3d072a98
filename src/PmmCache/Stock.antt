-- ===== src/PmmCache/Stock.antt =====
-- The pages in stock: what a take, a return and a new pool do to them.
use salern_os_kernel.Prelude.{
  ℕ, zero, suc, ◌+◌, ◌-◌, ◌≤◌, ◌<◌, ◌≡◌, ◌∙◌, ap, ap₂, refl, false, some, List, [], ◌∷◌, ◌++◌, ltb,
  ◌==◌, arith, Bool-cases, inl, inr,
}
use salern_os_kernel.Prelude.Word.{word, add64, sub64}
use salern_os_kernel.Pmm.FreeList.{page_size}
use salern_os_kernel.Pmm.FreeList.Conserve.{AllBlocks}
use salern_os_kernel.Pmm.Pages.{Pmm, phys_to_hhdm, hhdm_to_phys, alloc_max}
use salern_os_kernel.Pmm.Pages.Max.{found-alloc_max}
use salern_os_kernel.PmmCache.{
  Run, PmmCache, AllocMax, new_pool_loop, pmm_cache_new_pool, take_page, is_empty, pmm_cache_alloc,
  pmm_cache_free,
}

-- The addresses of the pages of a run and of a pool.
unfoldable pub run_pages : (address len : ℕ) → List ℕ
run_pages address zero = []
run_pages address (suc n) = address ∷ run_pages (add64 address page_size) n

unfoldable pub pool_pages : List Run → List ℕ
unfolding run_pages
pool_pages [] = []
pool_pages (r ∷ rs) = run_pages r.address r.len ++ pool_pages rs

unfoldable pub total : List Run → ℕ
total [] = 0
total (r ∷ rs) = r.len + total rs

unfoldable pub AllNonempty : List Run → Type 0
AllNonempty [] = ◌≡◌ {A = ℕ} 0 0
AllNonempty (r ∷ rs) = (1 ≤ r.len) × AllNonempty rs

-- `avail_pages` counts the pages of the pool, and no run is empty.
abbrev pub IsStocked : PmmCache → Type 0
IsStocked c = (c.avail_pages ≡ total c.pool) × (c.avail_pages < word) × AllNonempty c.pool

run_pages-cons :
    (address n : ℕ)
    → 1 ≤ n
    → run_pages address n ≡ address ∷ run_pages (add64 address page_size) (n - 1)
unfolding run_pages
run_pages-cons address zero h = absurd (omega arith)
run_pages-cons address (suc n) h =
    ap (λ k. address ∷ run_pages (add64 address page_size) k) (omega arith)

-- Taking a page from a pool with these runs.
take_page_lem :
    (c : PmmCache) (r : Run) (rs : List Run)
    → IsStocked (record c { pool = r ∷ rs })
    → (c' : PmmCache) × (take_page (record c { pool = r ∷ rs })
        ≡ some (some (hhdm_to_phys r.address), c'))
      × (pool_pages (r ∷ rs) ≡ r.address ∷ pool_pages c'.pool)
      × (c'.avail_pages + 1 ≡ c.avail_pages)
      × IsStocked c'
unfolding take_page pool_pages total AllNonempty
take_page_lem c r rs (counts, small, (one, full)) = elim (Bool-cases (sub64 r.len 1 == 0)) [
  | inl last ↦ (
    record c { pool = rs; avail_pages = sub64 c.avail_pages 1 },
    ground (arith, last),
    ap (λ l. l ++ pool_pages rs)
        (run_pages-cons r.address r.len one
          ∙ ap (λ k. r.address ∷ run_pages (add64 r.address page_size) k) {y = 0} (ground arith)),
    omega arith,
    (ground arith, omega arith, full),
  )
  | inr more ↦ (
    record c {
      pool = record { address = add64 r.address page_size; len = sub64 r.len 1 } ∷ rs;
      avail_pages = sub64 c.avail_pages 1;
    },
    ground (arith, more),
    ap (λ l. l ++ pool_pages rs)
        (run_pages-cons r.address r.len one
          ∙ ap (λ k. r.address ∷ run_pages (add64 r.address page_size) k) {y = sub64 r.len 1}
              (omega arith)),
    omega arith,
    (ground arith, omega arith, (ground arith, full)),
  )
]

alloc_from :
    (alloc_max : AllocMax) (c : PmmCache) (pool : List Run)
    → IsStocked (record c { pool = pool })
    → 1 ≤ c.avail_pages
    → (page : ℕ) × (c' : PmmCache) × (pmm_cache_alloc alloc_max 1 (record c { pool = pool })
        ≡ some (some (hhdm_to_phys page), c'))
      × (pool_pages pool ≡ page ∷ pool_pages c'.pool)
      × (c'.avail_pages + 1 ≡ c.avail_pages)
      × IsStocked c'
unfolding pmm_cache_alloc is_empty total
alloc_from alloc_max c [] (counts, small, full) some_left = absurd (omega arith)
alloc_from alloc_max c (r ∷ rs) stocked some_left =
    let (c', run, pages, count, stocked') = take_page_lem c r rs stocked in
    (r.address, c', run, pages, count, stocked')

-- With a page in stock, an allocation succeeds without asking for memory: it hands out the page at
-- the front, the others stay in their order, and the count is one less.
pub pmm_cache_alloc_lem :
    (alloc_max : AllocMax) (c : PmmCache)
    → IsStocked c
    → 1 ≤ c.avail_pages
    → (page : ℕ) × (c' : PmmCache) × (pmm_cache_alloc alloc_max 1 c
        ≡ some (some (hhdm_to_phys page), c'))
      × (pool_pages c.pool ≡ page ∷ pool_pages c'.pool)
      × (c'.avail_pages + 1 ≡ c.avail_pages)
      × IsStocked c'
pmm_cache_alloc_lem alloc_max c stocked some_left = alloc_from alloc_max c c.pool stocked some_left

-- A page that was returned is the next to be handed out, and the cache is then as before.
pub pmm_cache_alloc-free :
    (alloc_max : AllocMax) (page : ℕ) (c : PmmCache)
    → page < word
    → c.avail_pages + 1 < word
    → c.auto_merge ≡ false
    → pmm_cache_alloc alloc_max 1 (pmm_cache_free page c) ≡ some (some page, c)
unfolding pmm_cache_alloc pmm_cache_free take_page is_empty
pmm_cache_alloc-free alloc_max page c in_memory small plain =
    ap (pmm_cache_alloc alloc_max 1) freed
    ∙ ap₂ (λ p a. some (some p, record c { avail_pages = a })) (omega arith) (omega arith)
  where
    freed : pmm_cache_free page c ≡ record c {
      pool = record { address = phys_to_hhdm page; len = 1 } ∷ c.pool;
      avail_pages = add64 c.avail_pages 1;
    }
    freed = ground (arith, plain)

new_pool_loop_lem :
    (fuel : ℕ) (alloc_max : AllocMax) (call allocated pages : ℕ)
    → ((i : ℕ) → (1 ≤ (alloc_max i pages).1) × ((alloc_max i pages).1 ≤ pages))
    → 2 ≤ pages
    → pages + pages ≤ word
    → pages ≤ allocated + fuel
    → (runs : List Run) × (new_pool_loop fuel alloc_max call allocated pages ≡ some runs)
      × (pages ≤ allocated + total runs)
      × (allocated < pages → allocated + total runs < pages + pages)
      × (pages ≤ allocated → total runs ≡ 0)
      × AllNonempty runs
unfolding new_pool_loop total AllNonempty
new_pool_loop_lem zero alloc_max call allocated pages gets two small enough =
    ([], ground arith, omega arith, (λ h. absurd (omega arith)), (λ h. refl), refl)
new_pool_loop_lem (suc fuel) alloc_max call allocated pages gets two small enough =
    elim (Bool-cases (ltb allocated pages)) [
      | inr done ↦ ([], ground arith, ground arith, (λ h. absurd (ground arith)), (λ h. refl), refl)
      | inl more ↦
          let size = (alloc_max call pages).1 in
          let (positive, fits) = gets call in
          let (runs, run, reaches, below, none_more, full) =
            new_pool_loop_lem fuel alloc_max (suc call) (add64 allocated size) pages gets two small
              (ground (arith, fits, more)) in
          (
            record { address = phys_to_hhdm (alloc_max call pages).0; len = size } ∷ runs,
            ground (arith, more, run),
            ground (arith, more, fits),
            (λ h. ground (arith, more, fits)),
            (λ h. absurd (ground arith)),
            (positive, full),
          )
    ]

-- For a pool of at least two pages, and at most 2^63: if each call of `com_mm_pmm_alloc_max` finds a
-- free list of blocks that are not empty and succeeds, whatever else happens to the allocator between
-- the calls, a new pool of `pages` pages is made, has that many at least, and less than twice that
-- many.
pub pmm_cache_new_pool_lem :
    (found left : ℕ → Pmm) (calls : AllocMax) (pages : ℕ)
    → ((i : ℕ) → AllBlocks (found i).free_list)
    → ((i : ℕ)
        → alloc_max pages (found i) ≡ some ((calls i pages).0, some (calls i pages).1, left i))
    → 2 ≤ pages
    → pages + pages ≤ word
    → (runs : List Run) × (pmm_cache_new_pool calls pages ≡ some runs)
      × (pages ≤ total runs)
      × (total runs < pages + pages)
      × AllNonempty runs
unfolding pmm_cache_new_pool
pmm_cache_new_pool_lem found left calls pages blocks goes two small =
    let (runs, run, reaches, below, none_more, full) =
      new_pool_loop_lem pages calls 0 0 pages
        (λ i.
          found-alloc_max pages (calls i pages).0 (calls i pages).1 (found i) (left i) (blocks i)
            two (goes i))
        two small (omega arith) in
    (runs, run, omega arith, ground (arith, below (omega arith)), full)
