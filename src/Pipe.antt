-- ===== src/Pipe.antt =====
-- src/com/fs/pipefs.c: pipes. The lock is held throughout a call, but for `ksync_wait`, which gives
-- it up: what the other threads do meanwhile is an argument (`Wake`). The notifications of the other
-- side change nothing here, and the release of a closed pipe's memory is left out.
pub mod Bytes
pub mod Transfer
pub mod Roundtrip
pub mod Ends
mod Tests
use salern_os_kernel.Prelude.{
  ℕ, zero, suc, ◌+◌, ◌-◌, ◌%◌, min, Bool, true, false, ◌&&◌, List, [], ◌∷◌, ltb, ◌==◌,
  if◌then◌else◌,
}
use salern_os_kernel.Prelude.Word.{add64, sub64}
use salern_os_kernel.Errno.{Errno, success, eintr}
use salern_os_kernel.Mem.{Memory, kmemcpy_across}

-- `PIPE_BUF_SZ`
abbrev pub pipe_buf_sz : ℕ
pipe_buf_sz = 4096

-- The two ends are `true` as long as their pointer is not NULL.
pub record Pipe : Type 0 where
  pub buf : Memory
  pub read : ℕ
  pub write : ℕ
  pub read_end : Bool
  pub write_end : Bool

unfoldable pub diff : Pipe → ℕ
diff p = sub64 p.write p.read

unfoldable pub av_space : Pipe → ℕ
unfolding diff
av_space p = sub64 pipe_buf_sz (diff p)

-- The copy into the pipe of `n` bytes behind `off`, in two pieces if it goes round the end.
unfoldable pub put : (src : Memory) (off n : ℕ) → Pipe → Pipe
put src off n p =
    let modidx = p.write % pipe_buf_sz in
    let end = pipe_buf_sz - modidx in
    let first = kmemcpy_across p.buf modidx src off (min n end) in
    record p {
      buf = if ltb end n then kmemcpy_across first 0 src (off + end) (n - end) else first;
      write = add64 p.write n;
    }

-- The copy of `n` bytes out of the pipe to `off`.
unfoldable pub get : (dst : Memory) (off n : ℕ) → Pipe → Memory × Pipe
get dst off n p =
    let modidx = p.read % pipe_buf_sz in
    let end = pipe_buf_sz - modidx in
    let first = kmemcpy_across dst off p.buf modidx (min n end) in
    (
      if ltb end n then kmemcpy_across first (off + end) p.buf 0 (n - end) else first,
      record p { read = add64 p.read n },
    )

-- One return of `ksync_wait`: what the others did, and whether a signal is pending.
pub record Wake : Type 0 where
  pub others : Pipe → Pipe
  pub signal : Bool

pub data Wait : Type 0 where
  ready : List Wake → Pipe → Wait
  interrupted : Pipe → Wait
  forever : Pipe → Wait

-- `asleep`: the wakes are used up.
pub data Outcome : Type 0 where
  done : Errno → (count : ℕ) → Memory → Pipe → Outcome
  asleep : Pipe → Outcome
  out_of_fuel : Outcome

-- The loops that wait: `must_wait` is their condition.
unfoldable pub wait_while : (must_wait : Pipe → Bool) → List Wake → Pipe → Wait
wait_while must_wait [] p = if must_wait p then Wait.forever p else Wait.ready [] p
wait_while must_wait (w ∷ ws) p =
    let rest = wait_while must_wait ws (w.others p) in
    if must_wait p
    then if w.signal then Wait.interrupted (w.others p) else rest
    else Wait.ready (w ∷ ws) p

abbrev pub result_of : (count : ℕ) → Errno
result_of count = if count == 0 then eintr else success

-- What the loop of `com_fs_pipefs_write` does behind the wait; `go_on` are the copy and the rounds
-- behind it, by the number of bytes copied.
abbrev pub write_turn :
    (go_on : ℕ → List Wake → Pipe → Outcome) (src : Memory) (left write_count : ℕ) → Wait → Outcome
write_turn go_on src left write_count (Wait.forever p) = Outcome.asleep p
write_turn go_on src left write_count (Wait.interrupted p) =
    Outcome.done (result_of write_count) write_count src p
write_turn go_on src left write_count (Wait.ready ws p) = go_on (min left (av_space p)) ws p

-- On fuel; `buf` is the offset of the pointer.
unfoldable pub write_loop :
    (fuel : ℕ) (src : Memory) (buf left req_space write_count : ℕ) → List Wake → Pipe → Outcome
write_loop fuel src buf zero req_space write_count ws p = Outcome.done success write_count src p
write_loop zero src buf (suc left) req_space write_count ws p = Outcome.out_of_fuel
write_loop (suc fuel) src buf (suc left) req_space write_count ws p =
    write_turn
      (λ writesz ws' p'.
        write_loop fuel src (buf + writesz) (suc left - writesz) req_space (write_count + writesz)
          ws' (put src buf writesz p'))
      src (suc left) write_count (wait_while (λ p. ltb (av_space p) req_space) ws p)

unfoldable pub com_fs_pipefs_write : (src : Memory) (buflen : ℕ) → List Wake → Pipe → Outcome
unfolding write_loop
com_fs_pipefs_write src buflen ws p =
    write_loop buflen src 0 buflen (if ltb pipe_buf_sz buflen then 1 else buflen) 0 ws p

-- What the loop of `com_fs_pipefs_read` does behind the wait; `go_on` are the rounds behind the copy.
abbrev pub read_turn :
    (go_on : (readsz : ℕ) → Memory → List Wake → Pipe → Outcome) (dst : Memory)
    (buf left read_count : ℕ)
    → Wait
    → Outcome
read_turn go_on dst buf left read_count (Wait.forever p) = Outcome.asleep p
read_turn go_on dst buf left read_count (Wait.interrupted p) =
    Outcome.done (result_of read_count) read_count dst p
read_turn go_on dst buf left read_count (Wait.ready ws p) =
    let readsz = min left (diff p) in
    let (dst', p') = get dst buf readsz p in
    if p.write_end
    then go_on readsz dst' ws p'
    else Outcome.done success (read_count + readsz) dst' p'

unfoldable pub read_loop :
    (fuel : ℕ) (dst : Memory) (buf left read_count : ℕ) → List Wake → Pipe → Outcome
read_loop fuel dst buf zero read_count ws p = Outcome.done success read_count dst p
read_loop zero dst buf (suc left) read_count ws p = Outcome.out_of_fuel
read_loop (suc fuel) dst buf (suc left) read_count ws p =
    read_turn
      (λ readsz dst' ws' p'.
        read_loop fuel dst' (buf + readsz) (suc left - readsz) (read_count + readsz) ws' p')
      dst buf (suc left) read_count (wait_while (λ p. (p.write == p.read) && p.write_end) ws p)

unfoldable pub com_fs_pipefs_read : (dst : Memory) (buflen : ℕ) → List Wake → Pipe → Outcome
unfolding read_loop
com_fs_pipefs_read dst buflen ws p = read_loop buflen dst 0 buflen 0 ws p

-- `com_fs_pipefs_new`
abbrev pub new_pipe : Memory → Pipe
new_pipe buf = record { buf = buf; read = 0; write = 0; read_end = true; write_end = true }
