-- ===== src/Vmm/Tests.antt =====
-- Two pages mapped at a given address in an empty address space.
use salern_os_kernel.Prelude.{ℕ, ◌*◌, ◌/◌, ◌%◌, ◌≡◌, ◌⊎◌, refl, false, some, none, [], ◌∷◌, arith}
use mathlib.Core.Option
use salern_os_kernel.Prelude.Word.{add64}
use salern_os_kernel.Pmm.Pages.{phys_to_hhdm}
use salern_os_kernel.Mmu.{next, arch_mmu_map, arch_mmu_unmap, arch_mmu_get_physical}
use salern_os_kernel.Mmu.Path.{IsMmu}
use salern_os_kernel.Mmu.Empty.{empty_mmu, empty_mmu-IsMmu}
use salern_os_kernel.Vmm.{
  VmmFlags, Vmm, entry_flags, size_in_pages, choose_virt, map_loop, com_mm_vmm_map,
  com_mm_vmm_unmap,
}
use salern_os_kernel.Vmm.Range.{IsMapped}
use salern_os_kernel.Vmm.Map.{AreFlags, source_of, pages_of, com_mm_vmm_map_lem}

abbrev fixed : VmmFlags
fixed = record {
  anonymous = false;
  nohint = false;
  physical = false;
  shared = false;
  allocate = false;
  private = false;
}

abbrev empty_space : Vmm
empty_space = record {
  pagetable = 0x8000;
  is_root = false;
  anon_pages = 0;
  mmu = empty_mmu;
  zero_page = 0x7000;
  zero_refs = 0;
}

-- Where an address of the second page goes.
map_run :
    Option.map
      (λ r. arch_mmu_get_physical 0x8000 0x20_1008 r.1.mmu)
      (com_mm_vmm_map 0x20_0000 0x5010 0x1000 fixed 7 empty_space)
    ≡ some (some 0x6008)
unfolding com_mm_vmm_map choose_virt map_loop entry_flags size_in_pages arch_mmu_map
    arch_mmu_get_physical next
map_run = refl

-- The tables of the first page are missing: the second one stays mapped.
hole_run :
    Option.map
      (λ r. arch_mmu_get_physical 0x8000 0x20_0000 (com_mm_vmm_unmap 0x1f_f000 0x2000 (r.1)).1.mmu)
      (com_mm_vmm_map 0x20_0000 0x5000 0x1000 fixed 7 empty_space)
    ≡ some (some 0x5000)
unfolding com_mm_vmm_map com_mm_vmm_unmap choose_virt map_loop entry_flags size_in_pages
    arch_mmu_map arch_mmu_unmap arch_mmu_get_physical next
hole_run = refl

-- The second page was never mapped: page 0 is handed out to be freed.
never_mapped_run :
    Option.map
      (λ r. (com_mm_vmm_unmap 0x20_0000 0x2000 (r.1)).0)
      (com_mm_vmm_map 0x20_0000 0x5000 0x1000 fixed 7 empty_space)
    ≡ some (0x5000 ∷ 0 ∷ [])
unfolding com_mm_vmm_map com_mm_vmm_unmap choose_virt map_loop entry_flags size_in_pages
    arch_mmu_map arch_mmu_unmap next
never_mapped_run = refl

com_mm_vmm_map_lem_example :
    (flags : ℕ) × AreFlags fixed 7 flags
    × (((c' : Vmm) × (com_mm_vmm_map 0x20_0000 0x5010 0x1000 fixed 7 empty_space
            ≡ some (add64 (0x20_0000 / 4096 * 4096) (source_of fixed 0x5010 % 4096), c'))
          × IsMmu (phys_to_hhdm 0x8000) c'.mmu
          × IsMapped
              (pages_of fixed 0x5010 0x1000)
              0
              (0x20_0000 / 4096 * 4096)
              (source_of fixed 0x5010 / 4096 * 4096)
              flags
              false
              empty_space
              c')
        ⊎ ((c' : Vmm) × (com_mm_vmm_map 0x20_0000 0x5010 0x1000 fixed 7 empty_space ≡ none)
            × (map_loop
                  (pages_of fixed 0x5010 0x1000)
                  0
                  (0x20_0000 / 4096 * 4096)
                  (source_of fixed 0x5010 / 4096 * 4096)
                  flags
                  false
                  empty_space
                ≡ (false, c'))
            × (c'.mmu.supply ≡ [])))
com_mm_vmm_map_lem_example =
    com_mm_vmm_map_lem 0x20_0000 0x5010 0x1000 7 fixed empty_space refl (omega arith)
      empty_mmu-IsMmu
