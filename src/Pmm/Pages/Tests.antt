-- ===== src/Pmm/Pages/Tests.antt =====
-- The theorems on pages at a concrete allocator.
use salern_os_kernel.Prelude.{ℕ, ◌+◌, ◌≡◌, refl, none, some, [], ◌∷◌, ◌==◌, if◌then◌else◌, arith}
use mathlib.Core.Option
use salern_os_kernel.Pmm.FreeList.{block, pop_rear}
use salern_os_kernel.Pmm.FreeList.Conserve.{covers, free_count}
use salern_os_kernel.Pmm.Pages.{Pmm, reserved, hhdm_to_phys, fresh, alloc, alloc_max}
use salern_os_kernel.Pmm.Pages.Alloc.{IsConsistent, page_of, unused, alloc_lem}

-- Eight pages of memory, of which 3 and 4 are free and the others taken.
abbrev eight : Pmm
eight = record {
  free_list = block 0xffff_8000_0000_3000 2 ∷ [];
  buffer = λ i. if i == 3 then unused else if i == 4 then unused else fresh;
  fake_entry = record { state = reserved; num_ref = 1 };
  len = 8;
  reserved_start = 8;
  extended_len = 8;
  stats = record { reserved_bytes = 0; free_bytes = 0x2000; used_bytes = 0x6000 };
}

eight-IsConsistent : IsConsistent eight
eight-IsConsistent = record {
  blocks = omega arith;
  table = omega arith;
  once = λ a. ground arith;
  inside = λ a h. ground arith;
  unclaimed = λ a h. ground arith;
}

-- One page asked for: the size that the caller passes in is not written.
alloc_max_run : Option.map (λ r. r.1) (alloc_max 1 eight) ≡ some none
unfolding alloc_max pop_rear
alloc_max_run = refl

alloc_lem_example :
    (page : ℕ) × (s' : Pmm) × (alloc eight ≡ some (hhdm_to_phys page, s'))
    × IsConsistent s'
    × ((a : ℕ) → free_count eight.free_list a ≡ covers (block page 1) a + free_count s'.free_list a)
    × ((i : ℕ) → s'.buffer i ≡ (if i == page_of page then fresh else eight.buffer i))
alloc_lem_example = alloc_lem eight eight-IsConsistent (λ e. cc)
