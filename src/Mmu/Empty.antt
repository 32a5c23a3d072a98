-- ===== src/Mmu/Empty.antt =====
-- An empty page table with three spare pages.
use salern_os_kernel.Prelude.{ℕ, ◌≢◌, refl, [], ◌∷◌, arith}
use salern_os_kernel.Pmm.Pages.{phys_to_hhdm}
use salern_os_kernel.Mmu.{Mmu, next, walk}
use salern_os_kernel.Mmu.Walk.{IsTree, IsApart}
use salern_os_kernel.Mmu.Path.{IsMmu}

abbrev pub no_tables : ℕ → ℕ → ℕ
no_tables t i = 0

abbrev pub empty_mmu : Mmu
empty_mmu = record { tables = no_tables; supply = 0x1000 ∷ 0x2000 ∷ 0x3000 ∷ [] }

no_tables-IsTree : (top : ℕ) → IsTree no_tables top
unfolding walk next
no_tables-IsTree top [] [] x hp hq p q = refl
no_tables-IsTree top [] (j ∷ js) x hp hq p q = cc
no_tables-IsTree top (i ∷ is) q x hp hq p e = cc

no_tables-IsApart : (top x : ℕ) → top ≢ x → IsApart no_tables top x
unfolding walk next
no_tables-IsApart top x differ [] h e = ground arith
no_tables-IsApart top x differ (i ∷ is) h e = ground arith

pub empty_mmu-IsMmu : IsMmu (phys_to_hhdm 0x8000) empty_mmu
empty_mmu-IsMmu =
    let apart = no_tables-IsApart (phys_to_hhdm 0x8000) in
    (
      no_tables-IsTree (phys_to_hhdm 0x8000),
      (
        refl,
        (apart (phys_to_hhdm 0x1000) (λ e. absurd (omega arith)), (λ j. refl)),
        ((λ e. absurd (omega arith)), ((λ e. absurd (omega arith)), tt)),
        (
          refl,
          (apart (phys_to_hhdm 0x2000) (λ e. absurd (omega arith)), (λ j. refl)),
          ((λ e. absurd (omega arith)), tt),
          (refl, (apart (phys_to_hhdm 0x3000) (λ e. absurd (omega arith)), (λ j. refl)), tt, tt),
        ),
      ),
    )
