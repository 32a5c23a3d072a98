-- ===== src/Slab/Tests.antt =====
-- Two free cells of 32 bytes at concrete addresses.
use salern_os_kernel.Prelude.{refl, [], ◌∷◌, arith}
use salern_os_kernel.Slab.{Slab, put_at}
use salern_os_kernel.Slab.Chain.{IsChain}

abbrev two_cells : Slab
two_cells = record { slabs = put_at (λ i. 0) 2 4096; words = put_at (λ a. 0) 4096 4128 }

two_cells-IsChain : IsChain two_cells.words (two_cells.slabs 2) (4096 ∷ 4128 ∷ [])
unfolding IsChain
two_cells-IsChain = (refl, (λ e. absurd (omega arith)), (refl, (λ e. absurd (omega arith)), refl))
