-- ===== src/Pipe/Roundtrip.antt =====
-- What is written is read.
use salern_os_kernel.Prelude.{
  ℕ, zero, suc, ◌+◌, ◌-◌, ◌≤◌, ◌<◌, min, ◌≡◌, ◌≢◌, ◌⊎◌, inl, inr, ◌∙◌, refl, sym, ap, ap₂, Bool,
  false, ◌&&◌, List, [], ◌∷◌, ◌++◌, append-nil, length, length-append, ltb, ◌==◌, if◌then◌else◌,
  arith, Bool-cases,
}
use salern_os_kernel.Errno.{success}
use salern_os_kernel.Mem.{Memory}
use salern_os_kernel.RingBuffer.Queue.{span, length-span}
use salern_os_kernel.Pipe.{
  Pipe, pipe_buf_sz, diff, av_space, put, get, Wake, Wait, Outcome, wait_while, write_turn,
  write_loop, com_fs_pipefs_write, read_turn, read_loop, com_fs_pipefs_read,
}
use salern_os_kernel.Pipe.Bytes.{
  IsPipe, contents, put_lem, get_lem, av_space-add-diff, length-contents,
}
use salern_os_kernel.Pipe.Transfer.{small_request, write_loop_end}

no_wait :
    (must_wait : Pipe → Bool) (ws : List Wake) (p : Pipe)
    → must_wait p ≡ false
    → wait_while must_wait ws p ≡ Wait.ready ws p
unfolding wait_while
no_wait must_wait [] p go = rw go refl
no_wait must_wait (w ∷ ws) p go = rw go refl

-- Where there is room, a write goes on at once.
write_now :
    (src : Memory) (buflen : ℕ) (ws : List Wake) (p : Pipe)
    → 0 < buflen
    → buflen ≤ pipe_buf_sz
    → buflen ≤ av_space p
    → com_fs_pipefs_write src buflen ws p ≡ Outcome.done success buflen src (put src 0 buflen p)
unfolding com_fs_pipefs_write write_loop
write_now src zero ws p some_bytes le room = absurd (omega arith)
write_now src (suc n) ws p some_bytes le room =
    let all : min (suc n) (av_space p) ≡ suc n = omega (arith, room) in
    let free : ltb (av_space p) (suc n) ≡ false = ground (arith, room) in
    ap (λ req. write_loop (suc n) src 0 (suc n) req 0 ws p) (small_request (suc n) le)
    ∙ ap
        (write_turn
          (λ k ws' p'. write_loop n src (0 + k) (suc n - k) (suc n) (0 + k) ws' (put src 0 k p'))
          src (suc n) 0)
        (no_wait (λ p. ltb (av_space p) (suc n)) ws p free)
    ∙ ap (λ k. write_loop n src (0 + k) (suc n - k) (suc n) (0 + k) ws (put src 0 k p)) all
    ∙ write_loop_end n src (0 + suc n) (suc n - suc n) (suc n) (0 + suc n) ws (put src 0 (suc n) p)
        (omega arith)
    ∙ ap (λ c. Outcome.done success c src (put src 0 (suc n) p)) (omega arith)

read_loop_end :
    (fuel : ℕ) (dst : Memory) (buf left count : ℕ) (ws : List Wake) (p : Pipe)
    → left ≡ 0
    → read_loop fuel dst buf left count ws p ≡ Outcome.done success count dst p
unfolding read_loop
read_loop_end fuel dst buf zero count ws p e = refl
read_loop_end fuel dst buf (suc left) count ws p e = absurd (omega (arith, e))

-- Bytes are there, or no more will come.
no_read_wait :
    (p : Pipe)
    → ((p.write_end ≡ false) ⊎ (0 < diff p))
    → ((p.write == p.read) && p.write_end) ≡ false
unfolding diff
no_read_wait p (inl shut) = ground (arith, shut)
no_read_wait p (inr some_bytes) =
    let differ : p.write ≢ p.read = λ e. absurd (omega (arith, e, some_bytes)) in
    ground (arith, differ)

-- The one round.
read_once :
    (n : ℕ) (dst : Memory) (ws : List Wake) (p : Pipe)
    → ((p.write_end ≡ false) ⊎ (suc n ≤ diff p))
    → let k = min (suc n) (diff p) in
      read_turn
        (λ k dst' ws' p'. read_loop n dst' (0 + k) (suc n - k) (0 + k) ws' p')
        dst
        0
        (suc n)
        0
        (Wait.ready ws p)
      ≡ Outcome.done success k (get dst 0 k p).0 (get dst 0 k p).1
read_once n dst ws p enough =
    let k = min (suc n) (diff p) in
    let dst' = (get dst 0 k p).0 in
    let p' = (get dst 0 k p).1 in
    let stop = Outcome.done success (0 + k) dst' p' in
    let go_on = read_loop n dst' (0 + k) (suc n - k) (0 + k) ws p' in
    let plain : stop ≡ Outcome.done success k dst' p' =
      ap (λ c. Outcome.done success c dst' p') (omega arith) in
    elim (Bool-cases p.write_end) [
      | inr shut ↦ ap (λ b. if b then go_on else stop) shut ∙ plain
      | inl held ↦
          let whole : suc n ≤ diff p = ground (arith, enough, held) in
          ap (λ b. if b then go_on else stop) held
          ∙ read_loop_end n dst' (0 + k) (suc n - k) (0 + k) ws p' (omega (arith, whole))
          ∙ plain
    ]

-- Where the pipe has all the bytes, or nobody can write to it any more, a read takes the bytes asked
-- for or those that are there, at once: the front of the queue, in order, and the rest stays. At the
-- end of a pipe without a writer it returns 0 bytes.
pub com_fs_pipefs_read_lem :
    (dst : Memory) (buflen : ℕ) (ws : List Wake) (p : Pipe)
    → 0 < buflen
    → IsPipe p
    → ((p.write_end ≡ false) ⊎ (buflen ≤ diff p))
    → (dst' : Memory) × (p' : Pipe) × (com_fs_pipefs_read dst buflen ws p
        ≡ Outcome.done success (min buflen (diff p)) dst' p')
      × IsPipe p'
      × (contents p ≡ span dst' 0 (min buflen (diff p)) ++ contents p')
unfolding com_fs_pipefs_read read_loop
com_fs_pipefs_read_lem dst zero ws p some_bytes v enough = absurd (omega arith)
com_fs_pipefs_read_lem dst (suc n) ws p some_bytes v enough =
    let k = min (suc n) (diff p) in
    let (v', front) = get_lem dst 0 k p v (omega arith) in
    let more : (p.write_end ≡ false) ⊎ (0 < diff p) = ground (arith, enough) in
    let go = no_wait (λ p. (p.write == p.read) && p.write_end) ws p (no_read_wait p more) in
    let first =
      ap
        (read_turn (λ k dst' ws' p'. read_loop n dst' (0 + k) (suc n - k) (0 + k) ws' p') dst 0
          (suc n) 0)
        go in
    ((get dst 0 k p).0, (get dst 0 k p).1, first ∙ read_once n dst ws p enough, v', front)

empty_list : (xs : List ℕ) → length xs ≡ 0 → xs ≡ []
empty_list [] e = refl
empty_list (x ∷ xs) e = absurd (omega (arith, e))

-- In a pipe: if there is room for the bytes of a write, at least one, it puts them in at once; and a read of all that there is
-- then gives what was there before and the written bytes, in order, and empties the pipe.
pub com_fs_pipefs_read-com_fs_pipefs_write :
    (src dst : Memory) (buflen : ℕ) (ws ws' : List Wake) (p : Pipe)
    → 0 < buflen
    → buflen ≤ av_space p
    → IsPipe p
    → (p1 : Pipe) × (dst' : Memory) × (p2 : Pipe) × (com_fs_pipefs_write src buflen ws p
        ≡ Outcome.done success buflen src p1)
      × (com_fs_pipefs_read dst (diff p + buflen) ws' p1
          ≡ Outcome.done success (diff p + buflen) dst' p2)
      × (span dst' 0 (diff p + buflen) ≡ contents p ++ span src 0 buflen)
      × (contents p2 ≡ [])
      × IsPipe p2
com_fs_pipefs_read-com_fs_pipefs_write src dst buflen ws ws' p some_bytes room v =
    let p1 = put src 0 buflen p in
    let small = av_space-add-diff p v in
    let (v1, joined) = put_lem src 0 buflen p v room in
    let total : diff p1 ≡ diff p + buflen =
      sym (length-contents p1)
      ∙ ap length joined
      ∙ length-append (contents p) (span src 0 buflen)
      ∙ ap₂ (λ a b. a + b) (length-contents p) (length-span src 0 buflen) in
    let (dst', p2, done, v2, front) =
      com_fs_pipefs_read_lem dst (diff p + buflen) ws' p1 (omega (arith, some_bytes)) v1
        (inr (omega (arith, total))) in
    let all : min (diff p + buflen) (diff p1) ≡ diff p + buflen = omega (arith, total) in
    let counted =
      ap length front
      ∙ length-append (span dst' 0 (min (diff p + buflen) (diff p1))) (contents p2) in
    let taken = length-span dst' 0 (min (diff p + buflen) (diff p1)) in
    let gone : contents p2 ≡ [] =
      empty_list (contents p2) (omega (arith, counted, taken, length-contents p1, total, all)) in
    (
      p1,
      dst',
      p2,
      write_now src buflen ws p some_bytes (omega (arith, room, small)) room,
      done ∙ ap (λ c. Outcome.done success c dst' p2) all,
      sym (append-nil (span dst' 0 (diff p + buflen)))
          ∙ ap₂ (λ c l. span dst' 0 c ++ l) (sym all) (sym gone)
          ∙ sym front
          ∙ joined,
      gone,
      v2,
    )
