-- ===== src/Mmu/Tests.antt =====
-- The theorems on page tables at a concrete table: an empty one, with three spare pages.
use Prim.Native.Nat.{bit_or}
use salern_os_kernel.Prelude.{
  ℕ, ◌+◌, ◌%◌, ◌≡◌, ◌<◌, ◌⊎◌, refl, Bool, false, ◌&&◌, Option, none, some, length, ◌==◌,
  if◌then◌else◌,
}
use salern_os_kernel.Pmm.Pages.{phys_to_hhdm}
use salern_os_kernel.Mmu.{Mmu, addr_bits, next, arch_mmu_map, arch_mmu_unmap, arch_mmu_get_physical}
use salern_os_kernel.Mmu.Empty.{empty_mmu, empty_mmu-IsMmu}
use salern_os_kernel.Mmu.Path.{IsMmu}
use salern_os_kernel.Mmu.Mapping.{entry_of, same_page, arch_mmu_map_lem, arch_mmu_unmap_lem}
use salern_os_kernel.Mmu.Translate.{arch_mmu_get_physical-arch_mmu_map}

-- What the page is mapped to, and what it is not once it is unmapped.
map_run :
    arch_mmu_get_physical 0x8000 0x40_0123 (arch_mmu_map 0x8000 0x40_0000 0x5000 7 empty_mmu).1
    ≡ some 0x5123
unfolding arch_mmu_map arch_mmu_get_physical next
map_run = refl

unmap_run :
    (arch_mmu_unmap 0x8000 0x40_0000 (arch_mmu_map 0x8000 0x40_0000 0x5000 7 empty_mmu).1).0
    ≡ some 0x5000
unfolding arch_mmu_map arch_mmu_unmap next
unmap_run = refl

arch_mmu_map_lem_example :
    (done : Bool) × (s' : Mmu) × (arch_mmu_map 0x8000 0x40_0000 0x5000 7 empty_mmu ≡ (done, s'))
    × IsMmu (phys_to_hhdm 0x8000) s'
    × ((w : ℕ)
        → entry_of 0x8000 w s' ≡ (
            if done && same_page 0x40_0000 w
            then bit_or (addr_bits 0x5000) 7
            else entry_of 0x8000 w empty_mmu))
    × (done ≡ false → length (empty_mmu.supply) < 3)
arch_mmu_map_lem_example = arch_mmu_map_lem 0x8000 0x40_0000 0x5000 7 empty_mmu empty_mmu-IsMmu

arch_mmu_unmap_lem_example :
    (old : Option ℕ) × (s' : Mmu) × (arch_mmu_unmap 0x8000 0x40_0000 empty_mmu ≡ (old, s'))
    × IsMmu (phys_to_hhdm 0x8000) s'
    × ((w : ℕ)
        → entry_of 0x8000 w s' ≡ (if same_page 0x40_0000 w then 0 else entry_of 0x8000 w empty_mmu))
    × (((old ≡ none) × (entry_of 0x8000 0x40_0000 empty_mmu ≡ 0))
        ⊎ (old ≡ some (addr_bits (entry_of 0x8000 0x40_0000 empty_mmu))))
arch_mmu_unmap_lem_example = arch_mmu_unmap_lem 0x8000 0x40_0000 empty_mmu empty_mmu-IsMmu

arch_mmu_get_physical-arch_mmu_map_example :
    (done : Bool) × (s' : Mmu) × (arch_mmu_map 0x8000 0x40_0000 0x5000 7 empty_mmu ≡ (done, s'))
    × ((w : ℕ)
        → arch_mmu_get_physical 0x8000 w s' ≡ (
            if done && same_page 0x40_0000 w
            then if addr_bits 0x5000 == 0 then none else some (addr_bits 0x5000 + w % 4096)
            else arch_mmu_get_physical 0x8000 w empty_mmu))
    × (done ≡ false → length (empty_mmu.supply) < 3)
arch_mmu_get_physical-arch_mmu_map_example =
    arch_mmu_get_physical-arch_mmu_map 0x8000 0x40_0000 0x5000 7 empty_mmu empty_mmu-IsMmu refl
