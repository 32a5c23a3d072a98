-- ===== src/IovIter.antt =====
-- src/com/lib/ioviter.c and include/lib/ioviter.h: a position in an array of memory vectors. The
-- pointer `curr_iov` into the array is the part of the array from there on. An access past the end
-- of the array has no meaning in the code; the model then stays where it is. The transfers to and
-- from a ring buffer are not modelled.
pub mod Position
pub mod Transfer
mod Tests
use salern_os_kernel.Prelude.{
  ℕ, zero, suc, ◌+◌, ◌-◌, ◌*◌, ◌/◌, ◌%◌, min, Bool, not, ◌&&◌, ◌||◌, Option, none, some, List, [],
  ◌∷◌, length, ltb, ◌==◌, if◌then◌else◌,
}
use salern_os_kernel.Prelude.Word.{add64, sub64}
use salern_os_kernel.Errno.{Errno, success, efault}
use salern_os_kernel.Mem.{Memory, kmemcpy, kmemset}

-- `struct iovec`
pub record Iovec : Type 0 where
  pub iov_base : ℕ
  pub iov_len : ℕ

-- `kioviter_t`; the length of `first_iov` is `iovcnt`.
pub record IovIter : Type 0 where
  pub first_iov : List Iovec
  pub curr_iov : List Iovec
  pub curr_off : ℕ
  pub total_off : ℕ
  pub total_size : ℕ

unfoldable pub size_from : List Iovec → ℕ → ℕ
size_from [] size = size
size_from (v ∷ vs) size = size_from vs (add64 size v.iov_len)

unfoldable pub ioviter_size : List Iovec → ℕ
unfolding size_from
ioviter_size iov = size_from iov 0

unfoldable pub kioviter_init : List Iovec → IovIter
unfolding ioviter_size
kioviter_init iov = record {
  first_iov = iov;
  curr_iov = iov;
  curr_off = 0;
  total_off = 0;
  total_size = ioviter_size iov;
}

-- `KIOVITER_FINISHED`, `KIOVITER_REMAINING`, `KIOVITER_CURR_REMAINING`
abbrev pub is_finished : IovIter → Bool
is_finished it = it.total_off == it.total_size

abbrev pub remaining : IovIter → ℕ
remaining it = sub64 it.total_size it.total_off

unfoldable pub curr_remaining : List Iovec → (curr_off : ℕ) → ℕ
curr_remaining [] curr_off = 0
curr_remaining (v ∷ vs) curr_off = sub64 v.iov_len curr_off

-- The loop of `kioviter_skip`: the vectors from the current one on, `curr_off` and `total_off`. A
-- round either uses up the count or goes to the next vector.
unfoldable pub skip_loop :
    (total_size : ℕ) → List Iovec → (curr_off total_off count : ℕ) → List Iovec × ℕ × ℕ
skip_loop total_size [] curr_off total_off count = ([], curr_off, total_off)
skip_loop total_size (v ∷ vs) curr_off total_off count =
    let curr_skip = min (sub64 v.iov_len curr_off) count in
    let off = add64 curr_off curr_skip in
    let total = add64 total_off curr_skip in
    let rest = skip_loop total_size vs 0 total (count - curr_skip) in
    if (off == v.iov_len) && not (total == total_size)
    then (if count - curr_skip == 0 then (vs, 0, total) else rest)
    else (v ∷ vs, off, total)

abbrev pub place : IovIter → List Iovec × ℕ × ℕ → IovIter
place it (curr, off, total) = record it { curr_iov = curr; curr_off = off; total_off = total }

unfoldable pub kioviter_skip : (count : ℕ) → IovIter → IovIter
unfolding skip_loop
kioviter_skip count it =
    place it (skip_loop it.total_size it.curr_iov it.curr_off it.total_off count)

unfoldable pub kioviter_goto : (off : ℕ) → IovIter → IovIter
unfolding kioviter_skip
kioviter_goto off it =
    if ltb it.total_off off
    then kioviter_skip (sub64 off it.total_off) it
    else kioviter_skip off (record it { curr_iov = it.first_iov; curr_off = 0; total_off = 0 })

-- The address `curr_iov->iov_base + curr_off`.
unfoldable pub curr_address : List Iovec → (curr_off : ℕ) → ℕ
curr_address [] curr_off = 0
curr_address (v ∷ vs) curr_off = v.iov_base + curr_off

-- The loop that `kioviter_read`, `kioviter_write` and `kioviter_memset` share, on fuel: `move` is the
-- body's memory operation, on the address, the count so far and the size of the piece.
unfoldable pub transfer_loop :
    (fuel : ℕ)
    → (move : (address moved copy_size : ℕ) → Memory → Memory) → (tot_rem moved : ℕ) → IovIter
    → Memory
    → Option (ℕ × IovIter × Memory)
unfolding curr_remaining curr_address kioviter_skip
transfer_loop zero move tot_rem moved it m = none
transfer_loop (suc fuel) move tot_rem moved it m =
    let copy_size = min (curr_remaining it.curr_iov it.curr_off) tot_rem in
    let m' = move (curr_address it.curr_iov it.curr_off) moved copy_size m in
    let it' = kioviter_skip copy_size it in
    let rest = transfer_loop fuel move (tot_rem - copy_size) (moved + copy_size) it' m' in
    if (tot_rem - copy_size == 0) || is_finished it'
    then some (moved + copy_size, it', m')
    else rest

-- As many rounds as vectors are left, and one more, are enough.
abbrev pub rounds : IovIter → ℕ
rounds it = length it.curr_iov + 1

unfoldable pub kioviter_read : (buf buflen : ℕ) → IovIter → Memory → Option (ℕ × IovIter × Memory)
unfolding transfer_loop kmemcpy
kioviter_read buf buflen it m =
    transfer_loop (rounds it)
      (λ address moved copy_size m. kmemcpy (buf + moved) address copy_size m)
      (min buflen (remaining it)) 0 it m

unfoldable pub kioviter_write : (buf buflen : ℕ) → IovIter → Memory → Option (ℕ × IovIter × Memory)
unfolding transfer_loop kmemcpy
kioviter_write buf buflen it m =
    transfer_loop (rounds it)
      (λ address moved copy_size m. kmemcpy address (buf + moved) copy_size m)
      (min buflen (remaining it)) 0 it m

-- The size that the code passes to `kmemset` is `len`, not that of the piece. The code returns
-- nothing; the count is here that of the bytes passed over.
unfoldable pub kioviter_memset : (value len : ℕ) → IovIter → Memory → Option (ℕ × IovIter × Memory)
unfolding transfer_loop kmemset
kioviter_memset value len it m =
    transfer_loop (rounds it) (λ address moved copy_size m. kmemset address len value m)
      (min len (remaining it)) 0 it m

-- The vector is that of the position; `none` is NULL.
unfoldable pub kioviter_next : IovIter → Option Iovec × IovIter
kioviter_next it = if is_finished it then (none, it) else elim it.curr_iov [
  | [] ↦ (none, it)
  | v ∷ vs ↦ (
    some v,
    record it {
      curr_iov = vs;
      curr_off = 0;
      total_off = add64 it.total_off (sub64 v.iov_len it.curr_off);
    },
  )
]

-- The error, the page's physical address, the offset in the page and the bytes left in it;
-- `get_physical` is `com_mm_vmm_get_physical` of the context, with 0 for NULL.
unfoldable pub kioviter_next_page : (get_physical : ℕ → ℕ) → IovIter → Errno × ℕ × ℕ × ℕ
unfolding curr_remaining curr_address
kioviter_next_page get_physical it =
    let curr_rem = curr_remaining it.curr_iov it.curr_off in
    let vaddr = curr_address it.curr_iov it.curr_off in
    let paddr = get_physical vaddr in
    if curr_rem == 0
    then (success, 0, 0, 0)
    else if paddr == 0
    then (efault, 0, vaddr % 4096, 0)
    else (success, paddr / 4096 * 4096, vaddr % 4096, min 4096 curr_rem)
