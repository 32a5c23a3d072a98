-- ===== src/IovIter/Transfer.antt =====
-- Reading, writing and filling: how far they get.
use salern_os_kernel.Prelude.{
  ℕ, zero, suc, ◌+◌, ◌-◌, ◌≤◌, ◌<◌, ◌≡◌, min, false, ◌||◌, List, [], ◌∷◌, length, ◌==◌, arith,
  Bool-cases, inl, inr, Option, some,
}
use salern_os_kernel.Prelude.Word.{word}
use salern_os_kernel.Mem.{Memory, kmemcpy, kmemset}
use salern_os_kernel.IovIter.{
  Iovec, IovIter, is_finished, remaining, curr_remaining, curr_address, skip_loop, kioviter_skip,
  transfer_loop, rounds, kioviter_read, kioviter_write, kioviter_memset,
}
use salern_os_kernel.IovIter.Position.{sum, InHead, InHead-le, IsPosition, kioviter_skip_lem}

-- A round that neither ends the transfer nor reaches the end goes to the next vector.
skip_loop-shorter :
    (size base : ℕ) (curr : List Iovec) (off total tot_rem : ℕ)
    → total ≡ base + off
    → size ≡ base + sum curr
    → size < word
    → InHead curr off
    → (tot_rem - min (curr_remaining curr off) tot_rem == 0) ≡ false
    → ((skip_loop size curr off total (min (curr_remaining curr off) tot_rem)).2 == size) ≡ false
    → length (skip_loop size curr off total (min (curr_remaining curr off) tot_rem)).0 + 1
      ≡ length curr
unfolding skip_loop curr_remaining sum InHead
skip_loop-shorter size base [] off total tot_rem e s small h more other = ground arith
skip_loop-shorter size base (v ∷ vs) off total tot_rem e s small h more other = ground arith

curr_remaining-le :
    (curr : List Iovec) (off : ℕ)
    → sum curr < word
    → InHead curr off
    → off + curr_remaining curr off ≤ sum curr
unfolding curr_remaining sum InHead
curr_remaining-le [] off small h = omega arith
curr_remaining-le (v ∷ vs) off small h = omega arith

-- From a position, the count has gone on by `n`, and so has the position.
pub Transferred : ℕ → IovIter → ℕ → Option (ℕ × IovIter × Memory) → Type 0
Transferred moved it n result =
    (it' : IovIter) × (m' : Memory) × (result ≡ some (moved + n, it', m'))
    × IsPosition it'
    × (it'.total_off ≡ it.total_off + n)

module _ (move : (address moved copy_size : ℕ) → Memory → Memory) where
  transfer_loop_lem :
      (fuel tot_rem moved : ℕ) (it : IovIter) (m : Memory)
      → IsPosition it
      → length it.curr_iov < fuel
      → it.total_off + tot_rem ≤ it.total_size
      → Transferred moved it tot_rem (transfer_loop fuel move tot_rem moved it m)
  unfolding transfer_loop kioviter_skip Transferred
  transfer_loop_lem zero tot_rem moved it m pos enough fits = absurd (omega arith)
  transfer_loop_lem (suc fuel) tot_rem moved it m pos enough fits =
      let (before, split, total, size, small, inside) = pos in
      let copy_size = min (curr_remaining it.curr_iov it.curr_off) tot_rem in
      let it' = kioviter_skip copy_size it in
      let (pos', reached) = kioviter_skip_lem copy_size it pos in
      let m' = move (curr_address it.curr_iov it.curr_off) moved copy_size m in
      let stays = curr_remaining-le it.curr_iov it.curr_off (omega arith) inside in
      let moves : it'.total_off ≡ it.total_off + copy_size = omega arith in
      elim (Bool-cases ((tot_rem - copy_size == 0) || is_finished it')) [
        | inl stop ↦ (it', m', ground (arith, stop), pos', ground arith)
        | inr more ↦
            let shorter =
              skip_loop-shorter it.total_size (sum before) it.curr_iov it.curr_off it.total_off
                tot_rem total size small inside (ground arith) (ground arith) in
            let (it2, m2, run, pos2, off2) =
              transfer_loop_lem fuel (tot_rem - copy_size) (moved + copy_size) it' m' pos'
                (omega arith) (omega arith) in
            (it2, m2, ground (arith, more, run), pos2, omega arith)
      ]

  transfer-rounds :
      (n : ℕ) (it : IovIter) (m : Memory)
      → IsPosition it
      → Transferred 0 it
          (min n (remaining it))
          (transfer_loop (rounds it) move (min n (remaining it)) 0 it m)
  transfer-rounds n it m pos =
      let (before, split, total, size, small, inside) = pos in
      let le = InHead-le it.curr_iov it.curr_off inside in
      transfer_loop_lem (rounds it) (min n (remaining it)) 0 it m pos (omega arith) (ground arith)

-- From a position, reading, writing and filling end after at most a round for each vector and one
-- more, count the bytes asked for, or those that remain if they are fewer, and leave the position so
-- much further. What they write is not stated.
pub transfer_lem :
    (n buf value : ℕ) (it : IovIter) (m : Memory)
    → IsPosition it
    → Transferred 0 it (min n (remaining it)) (kioviter_read buf n it m)
      × Transferred 0 it (min n (remaining it)) (kioviter_write buf n it m)
      × Transferred 0 it (min n (remaining it)) (kioviter_memset value n it m)
unfolding kioviter_read kioviter_write kioviter_memset
transfer_lem n buf value it m pos = (
  transfer-rounds (λ a k c m. kmemcpy (buf + k) a c m) n it m pos,
  transfer-rounds (λ a k c m. kmemcpy a (buf + k) c m) n it m pos,
  transfer-rounds (λ a k c m. kmemset a n value m) n it m pos,
)
