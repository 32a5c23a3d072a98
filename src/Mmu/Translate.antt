-- ===== src/Mmu/Translate.antt =====
-- Addresses translated by the entries.
use Prim.Native.Nat.{bit_or}
use salern_os_kernel.Prelude.{
  ℕ, ◌+◌, ◌%◌, ◌<◌, ◌≡◌, inl, inr, ◌∙◌, ap, sym, Bool, true, false, ◌&&◌, Option, none, some,
  length, take, ◌==◌, if◌then◌else◌, arith, Option-cases,
}
use salern_os_kernel.Prelude.Fields.{field, bit_or-field}
use salern_os_kernel.Pmm.Pages.{phys_to_hhdm}
use salern_os_kernel.Mmu.{Mmu, addr_bits, walk, offsets, arch_mmu_map, arch_mmu_get_physical}
use salern_os_kernel.Mmu.Link.{entry_at}
use salern_os_kernel.Mmu.Path.{IsMmu}
use salern_os_kernel.Mmu.Mapping.{entry_of, same_page, arch_mmu_map_lem}

-- `arch_mmu_get_physical` translates an address by the entry of its page, and is NULL where the
-- entry has no address.
pub arch_mmu_get_physical_lem :
    (pt virt : ℕ) (s : Mmu)
    → arch_mmu_get_physical pt virt s ≡ (
        if addr_bits (entry_of pt virt s) == 0
        then none
        else some (addr_bits (entry_of pt virt s) + virt % 4096))
unfolding arch_mmu_get_physical entry_at
arch_mmu_get_physical_lem pt virt s =
    elim (Option-cases (walk s.tables (phys_to_hhdm pt) (take 3 (offsets virt)))) [
      | inl missing ↦ ground (arith, missing)
      | inr (t, here) ↦ ground (arith, here)
    ]

-- Flags outside the address leave the address of an entry.
addr_bits-bit_or :
    (a flags : ℕ) → addr_bits flags ≡ 0 → addr_bits (bit_or (addr_bits a) flags) ≡ addr_bits a
addr_bits-bit_or a flags clear =
    let same : field 12 51 (bit_or (addr_bits a) flags) ≡ field 12 51 (addr_bits a) =
      (bit_or-field 12 51 (addr_bits a) flags).0 (omega arith) in
    omega arith

abbrev translated : (vaddr entry : ℕ) → Option ℕ
translated v e = if addr_bits e == 0 then none else some (addr_bits e + v % 4096)

if_stored :
    (b : Bool) (v e a old : ℕ) (before : Option ℕ)
    → addr_bits e ≡ a
    → translated v old ≡ before
    → translated v (if b then e else old)
      ≡ (if b then if a == 0 then none else some (a + v % 4096) else before)
if_stored true v e a old before new same =
    ap (λ a. if a == 0 then none else some (a + v % 4096)) new
if_stored false v e a old before new same = same

-- On page tables that are a tree, with spare pages outside it: after `arch_mmu_map` with flags
-- outside the address, `arch_mmu_get_physical` gives, if it could
-- map, the physical address with the offset in the page for each address of the page (NULL for page
-- 0), and for each other address, or if it could not map, what it gave before.
pub arch_mmu_get_physical-arch_mmu_map :
    (pt virt phys flags : ℕ) (s : Mmu)
    → IsMmu (phys_to_hhdm pt) s
    → addr_bits flags ≡ 0
    → (done : Bool) × (s' : Mmu) × (arch_mmu_map pt virt phys flags s ≡ (done, s'))
      × ((w : ℕ)
          → arch_mmu_get_physical pt w s' ≡ (
              if done && same_page virt w
              then if addr_bits phys == 0 then none else some (addr_bits phys + w % 4096)
              else arch_mmu_get_physical pt w s))
      × (done ≡ false → length s.supply < 3)
arch_mmu_get_physical-arch_mmu_map pt virt phys flags s good clear =
    let (done, s', run, good', entries, fails) = arch_mmu_map_lem pt virt phys flags s good in
    let stays = addr_bits-bit_or phys flags clear in
    (
      done,
      s',
      run,
      (λ w.
          arch_mmu_get_physical_lem pt w s'
          ∙ ap (translated w) (entries w)
          ∙ if_stored (done && same_page virt w) w (bit_or (addr_bits phys) flags) (addr_bits phys)
              (entry_of pt w s) (arch_mmu_get_physical pt w s) stays
              (sym (arch_mmu_get_physical_lem pt w s))),
      fails,
    )
