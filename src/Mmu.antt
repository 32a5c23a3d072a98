-- ===== src/Mmu.antt =====
-- src/platform/x86-64/mmu.c: the page tables. Memory holds the tables: an array of 64-bit entries at
-- each address of the direct map. `supply` are the pages, by physical address, that the processor's
-- page cache delivers, one after the other; when there is none left it returns NULL.
pub mod Walk
pub mod Link
pub mod Path
pub mod Leaf
pub mod Mapping
pub mod Translate
pub mod Empty
mod Tests
use Prim.Native.Nat.{bit_and, bit_or}
use salern_os_kernel.Prelude.{
  ℕ, zero, suc, ◌+◌, ◌-◌, ◌*◌, ◌/◌, ◌%◌, ◌^◌, Bool, true, false, not, ◌&&◌, Option, none, some,
  List, [], ◌∷◌, take, get_or, ltb, ◌==◌, if◌then◌else◌,
}
use salern_os_kernel.Prelude.Fields.{field}
use salern_os_kernel.Pmm.Pages.{phys_to_hhdm}

pub record Mmu : Type 0 where
  pub tables : (table index : ℕ) → ℕ
  pub supply : List ℕ

abbrev pub set_entry : (ℕ → ℕ → ℕ) → (table index entry : ℕ) → ℕ → ℕ → ℕ
set_entry tables t i e u j = if (t == u) && (i == j) then e else tables u j

-- `x & ADDRMASK`: the bits from 12 to 62.
abbrev pub addr_bits : ℕ → ℕ
addr_bits x = field 12 51 x * 2 ^ 12

-- `ARCH_MMU_FLAGS_READ | ARCH_MMU_FLAGS_WRITE | ARCH_MMU_FLAGS_USER`
abbrev pub table_flags : ℕ
table_flags = 7

-- `next`
unfoldable pub next : (entry : ℕ) → Option ℕ
next entry = if entry == 0 then none else some (phys_to_hhdm (addr_bits entry))

-- `(addr & PML4MASK) >> 39` and the three below it, foremost first.
unfoldable pub offsets : (vaddr : ℕ) → List ℕ
offsets vaddr = field 39 9 vaddr ∷ field 30 9 vaddr ∷ field 21 9 vaddr ∷ field 12 9 vaddr ∷ []

-- The steps from a table down to the next ones.
unfoldable pub walk : (ℕ → ℕ → ℕ) → (table : ℕ) → List ℕ → Option ℕ
walk tables t [] = some t
walk tables t (i ∷ is) = elim (next (tables t i)) [ none ↦ none | some t' ↦ walk tables t' is ]

-- `get_page`: the last table, where the entry is that of the last offset; `none` is NULL.
unfoldable pub get_page : (top vaddr : ℕ) → Mmu → Option ℕ
unfolding walk offsets
get_page top vaddr s = walk s.tables (phys_to_hhdm top) (take 3 (offsets vaddr))

abbrev pub pt_offset : ℕ → ℕ
pt_offset vaddr = field 12 9 vaddr

-- The steps of `add_page`, where a missing table is put in. The Option is the last table, the state
-- is that after the steps that were made.
unfoldable pub make_path : List ℕ → (table : ℕ) → Mmu → Option ℕ × Mmu
make_path [] t s = (some t, s)
make_path (i ∷ is) t s = elim (next (s.tables t i)) [
  | some t' ↦ make_path is t' s
  | none ↦ elim s.supply [
    | [] ↦ (none, s)
    | p ∷ ps ↦
        make_path is (phys_to_hhdm p)
          (record { tables = set_entry s.tables t i (bit_or p table_flags); supply = ps })
  ]
]

-- How many steps there are before the entry is written.
unfoldable pub steps_of : (depth : ℕ) → ℕ
steps_of zero = 3
steps_of (suc zero) = 0
steps_of (suc (suc zero)) = 1
steps_of (suc (suc (suc zero))) = 2
steps_of (suc (suc (suc (suc n)))) = 3

unfoldable pub add_page : (top vaddr entry depth : ℕ) → Mmu → Bool × Mmu
unfolding make_path offsets steps_of
add_page top vaddr entry depth s =
    let n = steps_of depth in
    let (pt, s') = make_path (take n (offsets vaddr)) (phys_to_hhdm top) s in
    elim pt [
      | none ↦ (false, s')
      | some t ↦
          (true, record s' { tables = set_entry s'.tables t (get_or (offsets vaddr) n 0) entry })
    ]

unfoldable pub arch_mmu_map : (pt virt phys flags : ℕ) → Mmu → Bool × Mmu
unfolding add_page
arch_mmu_map pt virt phys flags s = add_page pt virt (bit_or (addr_bits phys) flags) 0 s

unfoldable pub arch_mmu_chflags : (pt virt new_flags : ℕ) → Mmu → Bool × Mmu
unfolding get_page
arch_mmu_chflags pt virt new_flags s = elim (get_page pt virt s) [
  | none ↦ (false, s)
  | some t ↦
      let entry = s.tables t (pt_offset virt) in
      (
        true,
        record s {
          tables = set_entry s.tables t (pt_offset virt) (bit_or (addr_bits entry) new_flags);
        },
      )
]

-- The Option is `*out_old_phys`, where it is written.
unfoldable pub arch_mmu_unmap : (pt virt : ℕ) → Mmu → Option ℕ × Mmu
unfolding get_page
arch_mmu_unmap pt virt s = elim (get_page pt virt s) [
  | none ↦ (none, s)
  | some t ↦ (
    some (addr_bits (s.tables t (pt_offset virt))),
    record s { tables = set_entry s.tables t (pt_offset virt) 0 },
  )
]

-- `none` is NULL.
unfoldable pub arch_mmu_get_physical : (pagetable virt_addr : ℕ) → Mmu → Option ℕ
unfolding get_page
arch_mmu_get_physical pagetable virt_addr s = elim (get_page pagetable virt_addr s) [
  | none ↦ none
  | some t ↦
      let entry = s.tables t (pt_offset virt_addr) in
      if addr_bits entry == 0 then none else some (addr_bits entry + virt_addr % 4096)
]

-- `ARCH_MMU_EXTRA_FLAGS_PRIVATE` is bit 9, `ARCH_MMU_FLAGS_NOEXEC` bit 63.
unfoldable pub arch_mmu_is_cow : (pagetable virt_addr : ℕ) → Mmu → Bool
unfolding get_page
arch_mmu_is_cow pagetable virt_addr s = elim (get_page pagetable virt_addr s) [
  | none ↦ false
  | some t ↦ field 9 1 (s.tables t (pt_offset virt_addr)) == 1
]

unfoldable pub arch_mmu_is_executable : (pagetable virt_addr : ℕ) → Mmu → Bool
unfolding get_page
arch_mmu_is_executable pagetable virt_addr s = elim (get_page pagetable virt_addr s) [
  | none ↦ false
  | some t ↦ not (field 63 1 (s.tables t (pt_offset virt_addr)) == 1)
]
