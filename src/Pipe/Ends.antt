-- ===== src/Pipe/Ends.antt =====
-- Reads and writes of any length end.
use salern_os_kernel.Prelude.{
  ℕ, zero, suc, ◌+◌, ◌-◌, ◌≤◌, ◌<◌, min, ◌≡◌, ◌≢◌, ◌⊎◌, inl, inr, refl, sym, subst, Bool, true,
  false, ◌&&◌, List, ltb, ◌==◌, if◌then◌else◌, arith, Bool-cases,
}
use salern_os_kernel.Errno.{success, eintr}
use salern_os_kernel.Mem.{Memory}
use salern_os_kernel.Pipe.{
  Pipe, pipe_buf_sz, diff, av_space, put, get, Wake, Wait, Outcome, wait_while, result_of,
  write_turn, write_loop, com_fs_pipefs_write, read_turn, read_loop, com_fs_pipefs_read,
}
use salern_os_kernel.Pipe.Bytes.{IsPipe, put_lem, get_lem}
use salern_os_kernel.Pipe.Transfer.{AreFair, IsWait, wait_while_lem, is_full}

-- Asleep with the wakes used up, or back with at most `most` bytes: with success, or with EINTR and
-- no bytes. The fuel has not run out.
abbrev pub IsEnded : (most : ℕ) → Outcome → Type 0
IsEnded most (Outcome.done e count m p) =
    IsPipe p × (count ≤ most) × ((e ≡ success) ⊎ ((e ≡ eintr) × (count ≡ 0)))
IsEnded most (Outcome.asleep p) = IsPipe p
IsEnded most Outcome.out_of_fuel = ⊥

result_of-cases :
    (count : ℕ) → (result_of count ≡ success) ⊎ ((result_of count ≡ eintr) × (count ≡ 0))
result_of-cases count = ground arith

write_turn-IsEnded :
    (go_on : ℕ → List Wake → Pipe → Outcome) (src : Memory) (left req count most : ℕ) (w : Wait)
    → count ≤ most
    → 0 < req
    → 0 < left
    → IsWait (is_full req) w
    → ((n : ℕ) (ws : List Wake) (p : Pipe)
        → 0 < n
        → n ≤ left
        → n ≤ av_space p
        → IsPipe p
        → AreFair ws
        → IsEnded most (go_on n ws p))
    → IsEnded most (write_turn go_on src left count w)
write_turn-IsEnded go_on src left req count most (Wait.forever p) h r l (v, full) rest = v
write_turn-IsEnded go_on src left req count most (Wait.interrupted p) h r l v rest =
    (v, h, result_of-cases count)
write_turn-IsEnded go_on src left req count most (Wait.ready ws p) h r l (v, free, fair) rest =
    let room : req ≤ av_space p = ground (arith, free) in
    rest (min left (av_space p)) ws p (omega (arith, r, l, room)) (omega arith) (omega arith) v fair

write_loop-IsEnded :
    (fuel : ℕ) (src : Memory) (buf left req count : ℕ) (ws : List Wake) (p : Pipe)
    → left ≤ fuel
    → 0 < req
    → IsPipe p
    → AreFair ws
    → IsEnded (count + left) (write_loop fuel src buf left req count ws p)
unfolding write_loop
write_loop-IsEnded fuel src buf zero req count ws p enough r v fair = (v, omega arith, inl refl)
write_loop-IsEnded zero src buf (suc left) req count ws p enough r v fair =
    absurd (omega (arith, enough))
write_loop-IsEnded (suc fuel) src buf (suc left) req count ws p enough r v fair =
    write_turn-IsEnded
      (λ n ws' p'.
        write_loop fuel src (buf + n) (suc left - n) req (count + n) ws' (put src buf n p'))
      src (suc left) req count (count + suc left) (wait_while (is_full req) ws p) (omega arith) r
      (omega arith) (wait_while_lem (is_full req) ws p v fair)
      (λ n ws' p' some_bytes le room v' fair'.
        let (v'', joined) = put_lem src buf n p' v' room in
        let most : count + n + (suc left - n) ≡ count + suc left = omega (arith, le) in
        subst
          (λ m.
            IsEnded m
              (write_loop fuel src (buf + n) (suc left - n) req (count + n) ws' (put src buf n p')))
          most
          (write_loop-IsEnded fuel src (buf + n) (suc left - n) req (count + n) ws'
            (put src buf n p') (omega (arith, enough, some_bytes)) r v'' fair'))

abbrev is_empty : Pipe → Bool
is_empty p = (p.write == p.read) && p.write_end

some_diff : (p : Pipe) → IsPipe p → is_empty p ≡ false → p.write_end ≡ true → 0 < diff p
unfolding diff
some_diff p v more held =
    let differ : p.write ≢ p.read = ground (arith, more, held) in
    let w = v.write_word in let r = v.read_word in omega (arith, differ, w, r)

read_turn-IsEnded :
    (go_on : ℕ → Memory → List Wake → Pipe → Outcome) (dst : Memory) (buf left count : ℕ) (w : Wait)
    → 0 < left
    → IsWait is_empty w
    → ((n : ℕ) (dst' : Memory) (ws : List Wake) (p : Pipe)
        → 0 < n
        → n ≤ left
        → IsPipe p
        → AreFair ws
        → IsEnded (count + left) (go_on n dst' ws p))
    → IsEnded (count + left) (read_turn go_on dst buf left count w)
read_turn-IsEnded go_on dst buf left count (Wait.forever p) l (v, empty) rest = v
read_turn-IsEnded go_on dst buf left count (Wait.interrupted p) l v rest =
    (v, omega arith, result_of-cases count)
read_turn-IsEnded go_on dst buf left count (Wait.ready ws p) l (v, more, fair) rest =
    let n = min left (diff p) in
    let dst' = (get dst buf n p).0 in
    let p' = (get dst buf n p).1 in
    let (v', front) = get_lem dst buf n p v (omega arith) in
    elim (Bool-cases p.write_end) [
      | inr shut ↦
          subst
            (λ b.
              IsEnded (count + left)
                (if b then go_on n dst' ws p' else Outcome.done success (count + n) dst' p'))
            (sym shut) (v', omega arith, inl refl)
      | inl held ↦
          subst
            (λ b.
              IsEnded (count + left)
                (if b then go_on n dst' ws p' else Outcome.done success (count + n) dst' p'))
            (sym held)
            (rest n dst' ws p' (omega (arith, l, some_diff p v more held)) (omega arith) v' fair)
    ]

read_loop-IsEnded :
    (fuel : ℕ) (dst : Memory) (buf left count : ℕ) (ws : List Wake) (p : Pipe)
    → left ≤ fuel
    → IsPipe p
    → AreFair ws
    → IsEnded (count + left) (read_loop fuel dst buf left count ws p)
unfolding read_loop
read_loop-IsEnded fuel dst buf zero count ws p enough v fair = (v, omega arith, inl refl)
read_loop-IsEnded zero dst buf (suc left) count ws p enough v fair = absurd (omega (arith, enough))
read_loop-IsEnded (suc fuel) dst buf (suc left) count ws p enough v fair =
    read_turn-IsEnded
      (λ n dst' ws' p'. read_loop fuel dst' (buf + n) (suc left - n) (count + n) ws' p') dst buf
      (suc left) count (wait_while is_empty ws p) (omega arith)
      (wait_while_lem is_empty ws p v fair)
      (λ n dst' ws' p' some_bytes le v' fair'.
        subst (λ m. IsEnded m (read_loop fuel dst' (buf + n) (suc left - n) (count + n) ws' p'))
          (omega (arith, le))
          (read_loop-IsEnded fuel dst' (buf + n) (suc left - n) (count + n) ws' p'
            (omega (arith, enough, some_bytes)) v' fair'))

-- A read or a write of any length, where the others keep the pipe a pipe, does not run on for ever:
-- it sleeps until woken, or returns with at most the bytes asked for, and the counters are at most the
-- buffer's size apart. EINTR comes only with no bytes.
pub com_fs_pipefs_read-com_fs_pipefs_write_ends :
    (m : Memory) (buflen : ℕ) (ws : List Wake) (p : Pipe)
    → IsPipe p
    → AreFair ws
    → IsEnded buflen (com_fs_pipefs_read m buflen ws p)
      × IsEnded buflen (com_fs_pipefs_write m buflen ws p)
unfolding com_fs_pipefs_read com_fs_pipefs_write
com_fs_pipefs_read-com_fs_pipefs_write_ends m buflen ws p v fair =
    let req = if ltb pipe_buf_sz buflen then 1 else buflen in
    let plain : 0 + buflen ≡ buflen = omega arith in
    (
      subst (λ n. IsEnded n (read_loop buflen m 0 buflen 0 ws p)) plain
          (read_loop-IsEnded buflen m 0 buflen 0 ws p (omega arith) v fair),
      write_ends m buflen ws p v fair plain,
    )
  where
    write_ends :
        (m : Memory) (n : ℕ) (ws : List Wake) (p : Pipe)
        → IsPipe p
        → AreFair ws
        → 0 + n ≡ n
        → IsEnded n (write_loop n m 0 n (if ltb pipe_buf_sz n then 1 else n) 0 ws p)
    write_ends m zero ws p v fair plain = (v, omega arith, inl refl)
    write_ends m (suc n) ws p v fair plain =
        subst
          (λ k.
            IsEnded k (
              write_loop (suc n) m 0 (suc n) (if ltb pipe_buf_sz (suc n) then 1 else suc n) 0 ws p))
          plain
          (write_loop-IsEnded (suc n) m 0 (suc n) (if ltb pipe_buf_sz (suc n) then 1 else suc n) 0
            ws p (omega arith) (ground arith) v fair)
