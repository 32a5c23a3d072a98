-- ===== src/Pipe/Transfer.antt =====
-- What a call of read or write does with the bytes.
use salern_os_kernel.Prelude.{
  ℕ, zero, suc, ◌+◌, ◌-◌, ◌≤◌, ◌<◌, min, ◌≡◌, ◌⊎◌, inl, inr, ◌∙◌, refl, sym, ap, ap₂, subst, Bool,
  true, false, List, [], ◌∷◌, ◌++◌, ltb, if◌then◌else◌, if_true, if_false, arith, Bool-cases,
}
use salern_os_kernel.Errno.{success, eintr}
use salern_os_kernel.Mem.{Memory}
use salern_os_kernel.RingBuffer.Queue.{span}
use salern_os_kernel.Pipe.{
  Pipe, pipe_buf_sz, av_space, put, Wake, Wait, Outcome, wait_while, write_turn, write_loop,
  com_fs_pipefs_write,
}
use salern_os_kernel.Pipe.Bytes.{IsPipe, contents, put_lem}

-- The others keep the pipe a pipe.
abbrev pub AreFair : List Wake → Type 0
AreFair [] = Unit {0}
AreFair (w ∷ ws) = ((p : Pipe) → IsPipe p → IsPipe (w.others p)) × AreFair ws

abbrev pub IsWait : (must_wait : Pipe → Bool) → Wait → Type 0
IsWait must_wait (Wait.forever p) = IsPipe p × (must_wait p ≡ true)
IsWait must_wait (Wait.interrupted p) = IsPipe p
IsWait must_wait (Wait.ready ws p) = IsPipe p × (must_wait p ≡ false) × AreFair ws

pub wait_while_lem :
    (must_wait : Pipe → Bool) (ws : List Wake) (p : Pipe)
    → IsPipe p
    → AreFair ws
    → IsWait must_wait (wait_while must_wait ws p)
unfolding wait_while
wait_while_lem must_wait [] p v fair = elim (Bool-cases (must_wait p)) [
  | inl stay ↦ rw stay (v, stay)
  | inr go ↦ rw go (v, go, tt)
]
wait_while_lem must_wait (w ∷ ws) p v (keeps, fair) =
    let rest = wait_while_lem must_wait ws (w.others p) (keeps p v) fair in
    elim (Bool-cases (must_wait p)) [
      | inr go ↦ rw go (v, go, (keeps, fair))
      | inl stay ↦ elim (Bool-cases w.signal) [
        | inl stop ↦ rw (stay, stop) (keeps p v)
        | inr on ↦ rw (stay, on) rest
      ]
    ]

-- The pipe after what the others do in these wakes.
abbrev pub after_wakes : List Wake → Pipe → Pipe
after_wakes [] p = p
after_wakes (w ∷ ws) p = after_wakes ws (w.others p)

-- How a wait comes to its end: by the pipe that the others left in the wakes that are past.
abbrev Came : (must_wait : Pipe → Bool) → List Wake → (before : Pipe) → Wait → Type 0
Came must_wait ws before (Wait.forever p) = (p ≡ after_wakes ws before) × (must_wait p ≡ true)
Came must_wait ws before (Wait.interrupted p) =
    (past : List Wake) × (w : Wake) × (rest : List Wake) × (ws ≡ past ++ w ∷ rest)
    × (w.signal ≡ true)
    × (must_wait (after_wakes past before) ≡ true)
    × (p ≡ w.others (after_wakes past before))
Came must_wait ws before (Wait.ready rest p) =
    (past : List Wake) × (ws ≡ past ++ rest) × (p ≡ after_wakes past before) × (must_wait p ≡ false)

Came-later :
    (must_wait : Pipe → Bool) (w : Wake) (ws : List Wake) (p : Pipe) (o : Wait)
    → Came must_wait ws (w.others p) o
    → Came must_wait (w ∷ ws) p o
Came-later must_wait w ws p (Wait.forever q) h = h
Came-later must_wait w ws p (Wait.interrupted q) (past, v, rest, split, stop, full, e) =
    (w ∷ past, v, rest, ap (λ l. w ∷ l) split, stop, full, e)
Came-later must_wait w ws p (Wait.ready rest q) (past, split, e, free) =
    (w ∷ past, ap (λ l. w ∷ l) split, e, free)

wait_while-Came :
    (must_wait : Pipe → Bool) (ws : List Wake) (p : Pipe)
    → Came must_wait ws p (wait_while must_wait ws p)
unfolding wait_while
wait_while-Came must_wait [] p = elim (Bool-cases (must_wait p)) [
  | inl stay ↦ subst (Came must_wait [] p) (sym (if_true _ _ stay)) (refl, stay)
  | inr go ↦ subst (Came must_wait [] p) (sym (if_false _ _ go)) ([], refl, refl, go)
]
wait_while-Came must_wait (w ∷ ws) p =
    let rest = wait_while-Came must_wait ws (w.others p) in
    elim (Bool-cases (must_wait p)) [
      | inr go ↦ by (if_false _ _ go) ([], refl, refl, go)
      | inl stay ↦ elim (Bool-cases w.signal) [
        | inl stop ↦ by (if_true _ _ stay ∙ if_true _ _ stop) ([], w, ws, refl, stop, stay, refl)
        | inr on ↦
            by (if_true _ _ stay ∙ if_false _ _ on)
              (Came-later must_wait w ws p (wait_while must_wait ws (w.others p)) rest)
      ]
    ]
  where
    by : {x y : Wait} → x ≡ y → Came must_wait (w ∷ ws) p y → Came must_wait (w ∷ ws) p x
    by e = subst (Came must_wait (w ∷ ws) p) (sym e)

-- The end of the loop.
pub write_loop_end :
    (fuel : ℕ) (src : Memory) (buf left req count : ℕ) (ws : List Wake) (p : Pipe)
    → left ≡ 0
    → write_loop fuel src buf left req count ws p ≡ Outcome.done success count src p
unfolding write_loop
write_loop_end fuel src buf zero req count ws p e = refl
write_loop_end fuel src buf (suc left) req count ws p e = absurd (omega (arith, e))

abbrev pub is_full : (req : ℕ) → Pipe → Bool
is_full req p = ltb (av_space p) req

abbrev after_wait : (fuel : ℕ) (src : Memory) (buf left req count : ℕ) → Wait → Outcome
after_wait fuel src buf left req count w =
    write_turn
      (λ n ws p. write_loop fuel src (buf + n) (left - n) req (count + n) ws (put src buf n p)) src
      left count w

write_loop-suc :
    (fuel : ℕ) (src : Memory) (buf left req count : ℕ) (ws : List Wake) (p : Pipe)
    → write_loop (suc fuel) src buf (suc left) req count ws p
      ≡ after_wait fuel src buf (suc left) req count (wait_while (is_full req) ws p)
unfolding write_loop
write_loop-suc fuel src buf left req count ws p = refl

-- How a write of at most the buffer's size ends, on the pipe `p` and with these wakes: it sleeps on
-- after all of them, without room; or a signal ends a wake before which there was no room, and the
-- pipe is as the others have left it; or all bytes are put behind what the others have left.
abbrev pub IsAtomic : (src : Memory) (buflen : ℕ) → List Wake → Pipe → Outcome → Type 0
IsAtomic src buflen ws p o =
    ((o ≡ Outcome.asleep (after_wakes ws p)) × (av_space (after_wakes ws p) < buflen))
    ⊎ (((past : List Wake) × (w : Wake) × (rest : List Wake) × (ws ≡ past ++ w ∷ rest)
          × (w.signal ≡ true)
          × (av_space (after_wakes past p) < buflen)
          × (o ≡ Outcome.done eintr 0 src (w.others (after_wakes past p))))
        ⊎ ((past : List Wake) × (rest : List Wake) × (p' : Pipe) × (ws ≡ past ++ rest)
            × (o ≡ Outcome.done success buflen src p')
            × IsPipe p'
            × (contents p' ≡ contents (after_wakes past p) ++ span src 0 buflen)))

short_turn :
    (fuel : ℕ) (src : Memory) (left : ℕ) (ws : List Wake) (before : Pipe) (w : Wait)
    → IsWait (is_full (suc left)) w
    → Came (is_full (suc left)) ws before w
    → IsAtomic src (suc left) ws before (after_wait fuel src 0 (suc left) (suc left) 0 w)
short_turn fuel src left ws before (Wait.forever p) wait (left_lem, full) =
    inl (ap Outcome.asleep left_lem, ground (arith, ap (is_full (suc left)) left_lem, full))
short_turn fuel src left ws before (Wait.interrupted p) wait (past, w, rest, split, stop, full, e) =
    inr (inl (past, w, rest, split, stop, ground (arith, full), ap (Outcome.done eintr 0 src) e))
short_turn fuel src left ws before (Wait.ready rest p) (v, free, fair) (past, split, e, free') =
    let room : suc left ≤ av_space p = ground (arith, free) in
    let all : min (suc left) (av_space p) ≡ suc left = omega (arith, room) in
    let (v', joined) = put_lem src 0 (suc left) p v room in
    inr (
      inr (
        past,
        rest,
        put src 0 (suc left) p,
        split,
        write_loop_end fuel src (0 + min (suc left) (av_space p))
              (suc left - min (suc left) (av_space p)) (suc left) (0 + min (suc left) (av_space p))
              rest (put src 0 (min (suc left) (av_space p)) p) (omega (arith, all))
            ∙ ap₂ (λ c n. Outcome.done success c src (put src 0 n p)) (omega (arith, all)) all,
        v',
        joined ∙ ap (λ q. contents q ++ span src 0 (suc left)) e,
      ))

pub small_request : (n : ℕ) → n ≤ pipe_buf_sz → (if ltb pipe_buf_sz n then 1 else n) ≡ n
small_request n le = ground (arith, le)

-- A write of at least one byte and at most the buffer's size to a pipe that the others keep a pipe is
-- never torn: it sleeps on after all wakes, without room for all of its bytes; or a signal comes in a
-- wake before which there was no such room, and it returns EINTR with count 0 and the pipe as the
-- others have left it; or it puts all its bytes, one behind the other, behind what the others have
-- left there, and returns their number.
pub com_fs_pipefs_write_lem :
    (src : Memory) (buflen : ℕ) (ws : List Wake) (p : Pipe)
    → 0 < buflen
    → buflen ≤ pipe_buf_sz
    → IsPipe p
    → AreFair ws
    → IsAtomic src buflen ws p (com_fs_pipefs_write src buflen ws p)
unfolding com_fs_pipefs_write
com_fs_pipefs_write_lem src zero ws p some_bytes le v fair = absurd (omega arith)
com_fs_pipefs_write_lem src (suc left) ws p some_bytes le v fair =
    subst (IsAtomic src (suc left) ws p)
      (sym (
        ap (λ req. write_loop (suc left) src 0 (suc left) req 0 ws p) (small_request (suc left) le)
        ∙ write_loop-suc left src 0 left (suc left) 0 ws p))
      (short_turn left src left ws p (wait_while (is_full (suc left)) ws p)
        (wait_while_lem (is_full (suc left)) ws p v fair)
        (wait_while-Came (is_full (suc left)) ws p))
