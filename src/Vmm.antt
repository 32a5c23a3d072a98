-- ===== src/Vmm.antt =====
-- src/com/mm/vmm.c: mapping and unmapping a range of an address space. The flags of a mapping are
-- Booleans, by the name of their bit; the flags of an entry are a number.
pub mod Range
pub mod Map
mod Tests
use Prim.Native.Nat.{bit_and, bit_or}
use salern_os_kernel.Prelude.{
  ℕ, zero, suc, ◌+◌, ◌-◌, ◌*◌, ◌/◌, ◌%◌, ◌^◌, Bool, true, false, not, ◌&&◌, ◌||◌, Option, none,
  some, List, [], ◌∷◌, ◌==◌, if◌then◌else◌,
}
use salern_os_kernel.Prelude.Word.{add64}
use salern_os_kernel.Prelude.Single.{bit, not64}
use salern_os_kernel.Pmm.Pages.{phys_to_hhdm}
use salern_os_kernel.Mmu.{Mmu, arch_mmu_map, arch_mmu_unmap}

-- `vmm_flags`
pub record VmmFlags : Type 0 where
  pub anonymous : Bool
  pub nohint : Bool
  pub physical : Bool
  pub shared : Bool
  pub allocate : Bool
  pub private : Bool

-- A context with the memory its page table is in. `zero_refs` counts the calls of `com_mm_pmm_hold`
-- for the zero page, which is page `zero_page`.
pub record Vmm : Type 0 where
  pub pagetable : ℕ
  pub is_root : Bool
  pub anon_pages : ℕ
  pub mmu : Mmu
  pub zero_page : ℕ
  pub zero_refs : ℕ

abbrev pub vmm_anon_start : ℕ
vmm_anon_start = 0x1_0000_0000

-- The flags of the entries.
unfoldable pub entry_flags : VmmFlags → (mmu_flags : ℕ) → ℕ
entry_flags f mmu_flags =
    let with_shared = if f.shared then bit_or mmu_flags 0x400 else mmu_flags in
    let with_nocopy = if f.allocate then bit_or with_shared 0x800 else with_shared in
    if (f.private || f.allocate) && (bit 1 with_nocopy == 1)
    then bit_or (bit_and with_nocopy (not64 2)) 0x200
    else with_nocopy

-- `(size_p_off + ARCH_PAGE_SIZE - 1) / ARCH_PAGE_SIZE`
unfoldable pub size_in_pages : (page_off len : ℕ) → ℕ
size_in_pages page_off len = add64 (add64 page_off len) 4095 / 4096

-- The loop of `com_mm_vmm_map` from page `i` on; `false` is the failed assertion.
unfoldable pub map_loop :
    (pages i virt page_paddr mmu_flags : ℕ) (allocate : Bool) → Vmm → Bool × Vmm
map_loop zero i virt page_paddr mmu_flags allocate c = (true, c)
map_loop (suc n) i virt page_paddr mmu_flags allocate c =
    let vaddr = add64 virt (i * 4096) in
    let paddr = if allocate then c.zero_page else add64 page_paddr (i * 4096) in
    let refs = if allocate then c.zero_refs + 1 else c.zero_refs in
    let (success, mmu) = arch_mmu_map c.pagetable vaddr paddr mmu_flags c.mmu in
    let c' : Vmm = record c { mmu = mmu; zero_refs = refs } in
    let rest = map_loop n (suc i) virt page_paddr mmu_flags allocate c' in
    if success then rest else (false, c')

-- Where the range goes: its address, the flags and the context; `none` is a failed assertion.
unfoldable pub choose_virt :
    VmmFlags → (virt page_paddr mmu_flags pages : ℕ) → Vmm → Option (ℕ × ℕ × Vmm)
choose_virt f virt page_paddr mmu_flags pages c =
    if not f.nohint
    then some (virt / 4096 * 4096, mmu_flags, c)
    else if f.anonymous
    then if c.is_root
      then none
      else some (
        add64 (c.anon_pages * 4096) vmm_anon_start,
        mmu_flags,
        record c { anon_pages = add64 c.anon_pages pages },
      )
    else if f.physical
    then some (phys_to_hhdm page_paddr, bit_or mmu_flags 0x100, c)
    else none

-- The address that is returned, and the context; `none` is a failed assertion.
unfoldable pub com_mm_vmm_map :
    (virt phys len : ℕ) → VmmFlags → (mmu_flags : ℕ) → Vmm → Option (ℕ × Vmm)
com_mm_vmm_map virt phys len f mmu_flags c =
    let paddr = if f.allocate then 0 else phys in
    let pages = size_in_pages (paddr % 4096) len in
    elim (choose_virt f virt (paddr / 4096 * 4096) (entry_flags f mmu_flags) pages c) [
      | none ↦ none
      | some (base, flags, c1) ↦
          let (success, c2) = map_loop pages 0 base (paddr / 4096 * 4096) flags f.allocate c1 in
          if success then some (add64 base (paddr % 4096), c2) else none
    ]

-- The loop of `com_mm_vmm_unmap` that unmaps: the pages it hands out, the last one first in the
-- rounds left, up to the first whose tables are missing.
unfoldable pub unmap_loop : (pages i virt : ℕ) → Vmm → List ℕ × Vmm
unmap_loop zero i virt c = ([], c)
unmap_loop (suc n) i virt c =
    let (old, mmu) = arch_mmu_unmap c.pagetable (add64 virt (i * 4096)) c.mmu in
    let c' : Vmm = record c { mmu = mmu } in
    let rest = unmap_loop n (suc i) virt c' in
    elim old [ none ↦ ([], c') | some phys ↦ (phys ∷ rest.0, rest.1) ]

-- The pages to be freed, the first one first, and the context.
unfoldable pub com_mm_vmm_unmap : (virt len : ℕ) → Vmm → List ℕ × Vmm
unfolding unmap_loop size_in_pages
com_mm_vmm_unmap virt len c = unmap_loop (size_in_pages (virt % 4096) len) 0 (virt / 4096 * 4096) c
