-- ===== src/Pmm/Pages.antt =====
-- The page table and the interface functions of pmm.c. `none` is a failed `KASSERT`, which panics.
-- The lock and the atomic operations make each function one step.
pub mod Alloc
pub mod Refs
pub mod Max
mod Tests
use salern_os_kernel.Prelude.{
  ℕ, zero, suc, ◌+◌, ◌-◌, ◌*◌, ◌/◌, Bool, true, false, ◌&&◌, Option, none, some, List, [], ◌∷◌, ltb,
  leb, ◌==◌, if◌then◌else◌,
}
use salern_os_kernel.Prelude.Word.{add64, sub64}
use salern_os_kernel.Pmm.FreeList.{
  Entry, block, page_size, freelist_add_ordered, pop_rear, pop_front,
}

-- `ARCH_PHYS_TO_HHDM` and `ARCH_HHDM_TO_PHYS`
abbrev pub hhdm : ℕ
hhdm = 0xffff_8000_0000_0000

abbrev pub phys_to_hhdm : ℕ → ℕ
phys_to_hhdm addr = add64 hhdm addr

abbrev pub hhdm_to_phys : ℕ → ℕ
hhdm_to_phys addr = sub64 addr hhdm

pub data PageState : Type 0 where
  free_page reserved taken : PageState

abbrev pub is_free : PageState → Bool
is_free free_page = true
is_free reserved = false
is_free taken = false

abbrev pub is_taken : PageState → Bool
is_taken free_page = false
is_taken reserved = false
is_taken taken = true

-- `struct page_meta`. The page type is always `E_PAGE_TYPE_ANONYMOUS`, which is 0 as cleared memory.
pub record PageMeta : Type 0 where
  pub state : PageState
  pub num_ref : ℕ

-- `com_pmm_stats_t`, in bytes; the fields that nothing updates are left out.
pub record Stats : Type 0 where
  pub reserved_bytes : ℕ
  pub free_bytes : ℕ
  pub used_bytes : ℕ

-- The static variables of pmm.c. `buffer` is the page table; pages from `reserved_start` on share
-- the one `fake_entry`.
pub record Pmm : Type 0 where
  pub free_list : List Entry
  pub buffer : ℕ → PageMeta
  pub fake_entry : PageMeta
  pub len : ℕ
  pub reserved_start : ℕ
  pub extended_len : ℕ
  pub stats : Stats

-- `PHYS_TO_META_INDEX`
abbrev pub index : ℕ → ℕ
index phys = phys / page_size

-- `page_meta_get`: `none` is the failed assertion. A write through the pointer is `put_meta`.
unfoldable pub page_meta_get : ℕ → Pmm → Option PageMeta
page_meta_get phys s =
    if ltb (index phys) s.extended_len
    then some (if ltb (index phys) s.reserved_start then s.buffer (index phys) else s.fake_entry)
    else none

abbrev pub update_run : (ℕ → PageMeta) → (start n : ℕ) → PageMeta → ℕ → PageMeta
update_run f start n m i = if leb start i && ltb i (start + n) then m else f i

unfoldable pub put_meta : ℕ → PageMeta → Pmm → Pmm
put_meta phys m s =
    if ltb (index phys) s.reserved_start
    then record s { buffer = update_run s.buffer (index phys) 1 m }
    else record s { fake_entry = m }

-- `page_meta_set`; its copies stay in the table, by the assertions, where that ends at
-- `reserved_start`.
unfoldable pub page_meta_set : (phys : ℕ) → PageMeta → (num_pages : ℕ) → Pmm → Option Pmm
page_meta_set phys m num_pages s =
    let index2 = sub64 (index (add64 phys (num_pages * page_size))) 1 in
    if ltb (index phys) s.len && ltb index2 s.len && ltb (index phys) s.extended_len
    then some (record s { buffer = update_run s.buffer (index phys) num_pages m })
    else none

-- `UPDATE_STATS(used, +n)` and `UPDATE_STATS(free, -n)`
abbrev pub count_used : ℕ → Stats → Stats
count_used n t = record t {
  used_bytes = add64 t.used_bytes (n * page_size);
  free_bytes = sub64 t.free_bytes (n * page_size);
}

abbrev pub fresh : PageMeta
fresh = record { state = taken; num_ref = 1 }

-- What `com_mm_pmm_alloc` does with the page that it has taken from the list.
unfoldable pub claim : ℕ → List Entry → Pmm → Option (ℕ × Pmm)
unfolding page_meta_get put_meta
claim virt l s =
    let phys = hhdm_to_phys virt in
    elim (page_meta_get phys s) [
      | none ↦ none
      | some m ↦
          if is_free m.state && (m.num_ref == 0)
          then some
              (phys, put_meta phys fresh (record s { free_list = l; stats = count_used 1 s.stats }))
          else none
    ]

unfoldable pub alloc : Pmm → Option (ℕ × Pmm)
unfolding claim
alloc s = elim (pop_rear s.free_list) [ none ↦ none | some (virt, l) ↦ claim virt l s ]

-- The common part of `com_mm_pmm_alloc_many` and `com_mm_pmm_alloc_max`.
unfoldable pub claim_many : (virt alloc_size : ℕ) → List Entry → Pmm → Option (ℕ × ℕ × Pmm)
unfolding page_meta_set
claim_many virt alloc_size l s =
    let phys = hhdm_to_phys virt in
    elim (page_meta_set phys fresh alloc_size (record s { free_list = l })) [
      | none ↦ none
      | some s' ↦ some (phys, alloc_size, record s' { stats = count_used alloc_size s'.stats })
    ]

-- The address, what is written to `*out_alloc_size` (`none`: nothing), and the state.
unfoldable pub alloc_max : (pages : ℕ) → Pmm → Option (ℕ × Option ℕ × Pmm)
unfolding claim_many alloc
alloc_max pages s =
    if pages == 1
    then elim (alloc s) [ none ↦ none | some (phys, s') ↦ some (phys, none, s') ]
    else elim (pop_front pages s.free_list) [
      | none ↦ none
      | some (alloc_size, virt, l) ↦ elim (claim_many virt alloc_size l s) [
        | none ↦ none
        | some (phys, n, s') ↦ some (phys, some n, s')
      ]
    ]

-- It asserts that it got all the pages that it asked for.
unfoldable pub alloc_many : (pages : ℕ) → Pmm → Option (ℕ × Pmm)
unfolding claim_many alloc
alloc_many pages s = if pages == 1 then alloc s else elim (pop_front pages s.free_list) [
  | none ↦ none
  | some (alloc_size, virt, l) ↦
      if alloc_size == pages
      then elim (claim_many virt alloc_size l s) [
        | none ↦ none
        | some (phys, n, s') ↦ some (phys, s')
      ]
      else none
]

unfoldable pub hold : ℕ → Pmm → Option Pmm
unfolding page_meta_get put_meta
hold page s = elim (page_meta_get page s) [
  | none ↦ none
  | some m ↦
      if is_free m.state
      then none
      else some (put_meta page (record m { num_ref = add64 m.num_ref 1 }) s)
]

unfoldable pub is_shared : ℕ → Pmm → Option Bool
unfolding page_meta_get
is_shared page s = elim (page_meta_get page s) [
  | none ↦ none
  | some m ↦ if is_free m.state then none else some (ltb 1 m.num_ref)
]

-- The last reference is counted down, and the page stays out of the free list.
unfoldable pub free : ℕ → Pmm → Option Pmm
unfolding page_meta_get put_meta
free page s = elim (page_meta_get page s) [
  | none ↦ none
  | some m ↦
      if is_taken m.state
      then some (put_meta page (record m { num_ref = sub64 m.num_ref 1 }) s)
      else some s
]

-- `for (size_t i = 0; i < pages; i++)`, with the rounds that are left.
free_loop : ℕ → (base i : ℕ) → Pmm → Option Pmm
unfolding free
free_loop zero base i s = some s
free_loop (suc k) base i s = elim (free (add64 base (i * page_size)) s) [
  | none ↦ none
  | some s' ↦ free_loop k base (suc i) s'
]

unfoldable pub free_many : (base pages : ℕ) → Pmm → Option Pmm
unfolding free_loop
free_many base pages s = free_loop pages base 0 s

-- The entries of the pages are cleared, from that of `base` on, for pages below `reserved_start`.
unfoldable pub unreserve_many : (base pages : ℕ) → Pmm → Option Pmm
unfolding page_meta_get
unreserve_many base pages s = elim (page_meta_get base s) [
  | none ↦ none
  | some m ↦ some (record s {
    buffer = update_run s.buffer (index base) pages (record { state = free_page; num_ref = 0 });
    free_list = freelist_add_ordered (block (phys_to_hhdm base) pages) s.free_list;
    stats = record {
      reserved_bytes = sub64 s.stats.reserved_bytes (pages * page_size);
      free_bytes = add64 s.stats.free_bytes (pages * page_size);
      used_bytes = s.stats.used_bytes;
    };
  })
]
