-- ===== src/Mem/Tests.antt =====
-- Runs of the memory routines, and the theorems at concrete memories.
use salern_os_kernel.Prelude.{◌+◌, ◌≡◌, refl, arith}
use salern_os_kernel.Mem.{Memory, kmemmove, portable_reverse, movsb_reverse}
use salern_os_kernel.Mem.Copy.{kmemmove_movsb}

-- Address `q` holds `q + 100`.
abbrev ramp : Memory
ramp q = q + 100

kmemmove_overlap : kmemmove portable_reverse 12 10 5 ramp 14 ≡ 112
unfolding kmemmove portable_reverse
kmemmove_overlap = refl

kmemmove_string_instruction : kmemmove movsb_reverse 12 10 5 ramp 14 ≡ 114
unfolding kmemmove movsb_reverse
kmemmove_string_instruction = refl

kmemmove_movsb_example : kmemmove movsb_reverse 12 10 5 ramp 14 ≡ 114
kmemmove_movsb_example =
    kmemmove_movsb 12 10 5 ramp 14 (omega arith) (omega arith) (omega arith) (omega arith)
