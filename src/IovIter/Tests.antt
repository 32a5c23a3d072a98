-- ===== src/IovIter/Tests.antt =====
-- Three vectors, one of them empty, at concrete values.
use salern_os_kernel.Prelude.{◌≡◌, refl, min, List, [], ◌∷◌, arith}
use salern_os_kernel.IovIter.{
  Iovec, IovIter, remaining, kioviter_init, kioviter_skip, kioviter_read, kioviter_write,
  kioviter_memset,
}
use salern_os_kernel.IovIter.Position.{sum, IsPosition, kioviter_init-IsPosition}
use salern_os_kernel.IovIter.Transfer.{Transferred, transfer_lem}

abbrev vectors : List Iovec
vectors =
    record { iov_base = 100; iov_len = 5 }
    ∷ record { iov_base = 200; iov_len = 0 }
    ∷ record { iov_base = 300; iov_len = 7 }
    ∷ []

abbrev start : IovIter
start = kioviter_init vectors

start-IsPosition : IsPosition start
unfolding sum
start-IsPosition = kioviter_init-IsPosition vectors (omega arith)

skip_start : (kioviter_skip 6 start).curr_off ≡ 1
unfolding kioviter_skip kioviter_init
skip_start = refl

transfer_lem_example :
    Transferred 0 start (min 8 (remaining start)) (kioviter_read 1000 8 start (λ i. i))
    × Transferred 0 start (min 8 (remaining start)) (kioviter_write 1000 8 start (λ i. i))
    × Transferred 0 start (min 8 (remaining start)) (kioviter_memset 255 8 start (λ i. i))
transfer_lem_example = transfer_lem 8 1000 255 start (λ i. i) start-IsPosition
