-- ===== src/Vmm/Map.antt =====
-- Mapping at a given address.
use salern_os_kernel.Prelude.{
  ℕ, ◌+◌, ◌-◌, ◌*◌, ◌/◌, ◌%◌, ◌^◌, ◌≤◌, ◌<◌, ◌≡◌, ◌==◌, ◌&&◌, ◌||◌, min, max, ◌⊎◌, inl, inr, ◌∙◌,
  ap, sym, subst, Bool, true, false, Bool-cases, none, some, [], if◌then◌else◌, if_true, if_false,
  arith,
}
use Prim.Native.Nat.{bit_and, bit_or}
use salern_os_kernel.Prelude.Single.{
  bit, not64, bit-bit_or, bit-bit_and, bit-not64, bit_power_self, bit_power_other,
}
use salern_os_kernel.Prelude.Word.{add64}
use salern_os_kernel.Pmm.Pages.{phys_to_hhdm}
use salern_os_kernel.Mmu.Path.{IsMmu}
use salern_os_kernel.Vmm.{
  VmmFlags, Vmm, entry_flags, size_in_pages, choose_virt, map_loop, com_mm_vmm_map,
}
use salern_os_kernel.Vmm.Range.{IsMapped, map_loop_lem}

-- The physical address that is used.
abbrev pub source_of : VmmFlags → (phys : ℕ) → ℕ
source_of f phys = if f.allocate then 0 else phys

-- The pages that `len` bytes from the offset of the physical address on touch.
abbrev pub pages_of : VmmFlags → (phys len : ℕ) → ℕ
pages_of f phys len = (source_of f phys % 4096 + len + 4095) / 4096

-- Bit `k` of the flags of the entries: a private or zero-filled mapping loses the write bit (1), and
-- gets the copy-on-write bit (9) for it; a shared one has bit 10, a zero-filled one bit 11; the
-- others are those that were asked for.
abbrev pub flag_bit : VmmFlags → (mmu_flags k : ℕ) → ℕ
flag_bit f mmu_flags k =
    if k == 1 && (f.private || f.allocate)
    then 0
    else if k == 9 && (f.private || f.allocate) && (bit 1 mmu_flags == 1)
    then 1
    else if k == 10 && f.shared
    then 1
    else if k == 11 && f.allocate
    then 1
    else bit k mmu_flags

abbrev pub AreFlags : VmmFlags → (mmu_flags flags : ℕ) → Type 0
AreFlags f mmu_flags flags = (k : ℕ) → k < 64 → bit k flags ≡ flag_bit f mmu_flags k

bit_small : (k x : ℕ) → bit k x ≤ 1
bit_small k x = omega arith

bit_two : (k j : ℕ) → bit k (2 ^ j) ≡ (if k == j then 1 else 0)
bit_two k j = elim (Bool-cases (k == j)) [
  | inl same ↦
      let e : k ≡ j = ground (arith, same) in
      ap (λ k. bit k (2 ^ j)) e ∙ bit_power_self j ∙ sym (if_true _ _ same)
  | inr apart ↦ bit_power_other k j (λ e. ground (arith, apart, e)) ∙ sym (if_false _ _ apart)
]

bit-set : (k j x : ℕ) → bit k (bit_or x (2 ^ j)) ≡ (if k == j then 1 else bit k x)
bit-set k j x =
    bit-bit_or k x (2 ^ j) ∙ ap (max (bit k x)) (bit_two k j) ∙ elim (Bool-cases (k == j)) [
      | inl same ↦
          ap (max (bit k x)) (if_true _ _ same)
          ∙ omega (arith, bit_small k x)
          ∙ sym (if_true _ _ same)
      | inr apart ↦ ap (max (bit k x)) (if_false _ _ apart) ∙ omega arith ∙ sym (if_false _ _ apart)
    ]

bit-clear : (k x : ℕ) → k < 64 → bit k (bit_and x (not64 2)) ≡ (if k == 1 then 0 else bit k x)
bit-clear k x lt =
    bit-bit_and k x (not64 2)
    ∙ ap (min (bit k x)) (bit-not64 k 2 lt (omega arith) ∙ ap (λ b. 1 - b) (bit_two k 1))
    ∙ elim (Bool-cases (k == 1)) [
      | inl same ↦
          ap (λ b. min (bit k x) (1 - b)) (if_true _ _ same) ∙ omega arith ∙ sym (if_true _ _ same)
      | inr apart ↦
          ap (λ b. min (bit k x) (1 - b)) (if_false _ _ apart)
          ∙ omega (arith, bit_small k x)
          ∙ sym (if_false _ _ apart)
    ]

abbrev with_shared : Bool → ℕ → ℕ
with_shared b x = if b then bit_or x 0x400 else x

abbrev with_nocopy : Bool → ℕ → ℕ
with_nocopy b x = if b then bit_or x 0x800 else x

shared_bit : (b : Bool) (k x : ℕ) → bit k (with_shared b x) ≡ (if k == 10 && b then 1 else bit k x)
shared_bit true k x = bit-set k 10 x ∙ ground arith
shared_bit false k x = ground arith

nocopy_bit : (b : Bool) (k x : ℕ) → bit k (with_nocopy b x) ≡ (if k == 11 && b then 1 else bit k x)
nocopy_bit true k x = bit-set k 11 x ∙ ground arith
nocopy_bit false k x = ground arith

both_bits :
    (s a : Bool) (k x : ℕ)
    → bit k (with_nocopy a (with_shared s x))
      ≡ (if k == 10 && s then 1 else if k == 11 && a then 1 else bit k x)
both_bits s a k x =
    nocopy_bit a k (with_shared s x)
    ∙ ap (λ b. if k == 11 && a then 1 else b) (shared_bit s k x)
    ∙ ground arith

cow_bit :
    (k x : ℕ)
    → k < 64
    → bit k (bit_or (bit_and x (not64 2)) 0x200)
      ≡ (if k == 1 then 0 else if k == 9 then 1 else bit k x)
cow_bit k x lt =
    bit-set k 9 (bit_and x (not64 2))
    ∙ ap (λ b. if k == 9 then 1 else b) (bit-clear k x lt)
    ∙ ground arith

entry_flags-AreFlags :
    (f : VmmFlags) (mmu_flags : ℕ) → AreFlags f mmu_flags (entry_flags f mmu_flags)
unfolding entry_flags
entry_flags-AreFlags f mmu_flags k lt =
    let x = with_nocopy f.allocate (with_shared f.shared mmu_flags) in
    let asked = both_bits f.shared f.allocate k mmu_flags in
    let writes = both_bits f.shared f.allocate 1 mmu_flags in
    let cow = cow_bit k x lt in ground (arith, asked, writes, cow, bit_small k mmu_flags)

add64_plain : (a b : ℕ) → a + b < 2 ^ 64 → add64 a b ≡ a + b
add64_plain a b lt = omega arith

choose_virt_given :
    (f : VmmFlags) (virt paddr flags pages : ℕ) (c : Vmm)
    → f.nohint ≡ false
    → choose_virt f virt paddr flags pages c ≡ some (virt / 4096 * 4096, flags, c)
unfolding choose_virt
choose_virt_given f virt paddr flags pages c hint = ground (arith, hint)

-- With a given address, bytes that end below 2^48, and page tables that are a tree with spare pages
-- outside it: there are flags with the bits that the mapping asks for, by which `com_mm_vmm_map` maps
-- exactly the pages that the bytes touch, each to its target, leaves every other entry as it was, and
-- returns the address of the first byte; or its assertion fails, and then no spare page is left.
pub com_mm_vmm_map_lem :
    (virt phys len mmu_flags : ℕ) (f : VmmFlags) (c : Vmm)
    → f.nohint ≡ false
    → source_of f phys % 4096 + len + 4095 < 2 ^ 48
    → IsMmu (phys_to_hhdm c.pagetable) c.mmu
    → (flags : ℕ) × AreFlags f mmu_flags flags
      × (((c' : Vmm) × (com_mm_vmm_map virt phys len f mmu_flags c
              ≡ some (add64 (virt / 4096 * 4096) (source_of f phys % 4096), c'))
            × IsMmu (phys_to_hhdm c.pagetable) c'.mmu
            × IsMapped
                (pages_of f phys len)
                0
                (virt / 4096 * 4096)
                (source_of f phys / 4096 * 4096)
                flags
                f.allocate
                c
                c')
          ⊎ ((c' : Vmm) × (com_mm_vmm_map virt phys len f mmu_flags c ≡ none)
              × (map_loop
                    (pages_of f phys len)
                    0
                    (virt / 4096 * 4096)
                    (source_of f phys / 4096 * 4096)
                    flags
                    f.allocate
                    c
                  ≡ (false, c'))
              × (c'.mmu.supply ≡ [])))
unfolding com_mm_vmm_map size_in_pages
com_mm_vmm_map_lem virt phys len mmu_flags f c hint fits good =
    let base = virt / 4096 * 4096 in
    let paddr = source_of f phys / 4096 * 4096 in
    let flags = entry_flags f mmu_flags in
    let n = size_in_pages (source_of f phys % 4096) len in
    let offset = source_of f phys % 4096 in
    let first : add64 offset len ≡ offset + len = add64_plain offset len (omega (arith, fits)) in
    let touched : n ≡ pages_of f phys len =
      ap (λ b. b / 4096)
        (add64_plain (add64 offset len) 4095 (omega (arith, fits, first))
          ∙ ap (λ b. b + 4095) first) in
    let placed = choose_virt_given f virt paddr flags n c hint in
    let (ok, c', run, good', mapped, fails) =
      map_loop_lem n 0 base paddr flags f.allocate c (omega (arith, fits, touched)) good in
    let goes : com_mm_vmm_map virt phys len f mmu_flags c
        ≡ (if ok then some (add64 base (source_of f phys % 4096), c') else none) =
      ground (arith, placed, run) in
    (
      flags,
      entry_flags-AreFlags f mmu_flags,
      elim (Bool-cases ok) [
        | inl full ↦ inl (
          c',
          goes ∙ ap (λ b. if b then some (add64 base (source_of f phys % 4096), c') else none) full,
          good',
          subst (λ m. IsMapped m 0 base paddr flags f.allocate c c') touched (mapped full),
        )
        | inr short ↦ inr (
          c',
          goes
              ∙ ap (λ b. if b then some (add64 base (source_of f phys % 4096), c') else none) short,
          ap (λ m. map_loop m 0 base paddr flags f.allocate c) (sym touched)
              ∙ run
              ∙ ap (λ b. (b, c')) short,
          fails short,
        )
      ],
    )
