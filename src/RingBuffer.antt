-- ===== src/RingBuffer.antt =====
-- src/com/lib/ringbuffer.c and include/lib/ringbuffer.h: the byte ring under pipes, ttys and
-- sockets. The lock is held throughout a call, but for `ksync_wait`, which gives it up: what the
-- other threads do meanwhile is an argument (`Wake`). The callback and the two wait queues are seen
-- through the list of events.
pub mod Blocking
pub mod Index
pub mod Queue
pub mod Read
pub mod Write
mod Tests
use Prim.Native.Nat.{bit_and}
use salern_os_kernel.Prelude.{
  ℕ, zero, suc, ◌+◌, ◌-◌, ◌%◌, Bool, true, false, ◌&&◌, not, Option, none, some, List, [], ◌∷◌, ltb,
  leb, ◌==◌, if◌then◌else◌, min,
}
use salern_os_kernel.Prelude.Word.{word, add64, sub64}
use salern_os_kernel.Errno.{Errno, success, eagain, eintr, is_success}
use salern_os_kernel.Mem.{Memory, kmemcpy_across}

pub data Event : Type 0 where
  notify_readers notify_writers callback : Event

-- `kringbuffer_t`. The indices count all bytes ever written and read, modulo 2 ^ 64.
pub record Ring : Type 0 where
  pub buffer : Memory
  pub buffer_size : ℕ
  pub write_index : ℕ
  pub read_index : ℕ
  pub is_eof : Bool
  pub events : List Event

-- `KMOD_FAST`
abbrev pub kmod_fast : ℕ → ℕ → ℕ
kmod_fast value multiple = bit_and value (multiple - 1)

unfoldable pub avail_read : Ring → ℕ
avail_read r = sub64 r.write_index r.read_index

unfoldable pub avail_write : Ring → ℕ
unfolding avail_read
avail_write r = sub64 r.buffer_size (avail_read r)

pub data Op : Type 0 where
  op_read op_write : Op

-- What a call of `check_hangup` returns and writes through its pointers. A count that it changes
-- without making the caller return is left out; no `check_hangup` of the kernel changes one so.
pub record Hangup : Type 0 where
  pub ret : Errno
  pub force_return : Bool
  pub new_nbytes : Option ℕ

-- No `check_hangup` is set.
abbrev pub no_hangup : Hangup
no_hangup = record { ret = success; force_return = false; new_nbytes = none }

abbrev pub returns_early : Hangup → Bool
returns_early h = if is_success h.ret then h.force_return else true

abbrev pub or_count : Option ℕ → ℕ → ℕ
or_count none n = n
or_count (some m) n = m

-- One return of `ksync_wait`: what the others did to the ring, and whether a signal is pending.
pub record Wake : Type 0 where
  pub others : Ring → Ring
  pub signal : Bool

-- The return value, the byte count that is reported, the ring, and what was read (`dst`).
pub record Reply : Type 0 where
  pub ret : Errno
  pub count : ℕ
  pub ring : Ring

pub data Outcome (A : Type 0) : Type 0 where
  done : A → Outcome A
  -- still asleep when the given wakes are used up
  asleep : Ring → Outcome A
  panic : Outcome A
  -- the model's fuel ran out
  out_of_fuel : Outcome A

-- The copy into the ring, in two pieces if it goes round the end, and the new write index.
unfoldable pub put_bytes : (src : Memory) (off can_write : ℕ) → Ring → Ring
put_bytes src off can_write r =
    let idxoff = kmod_fast r.write_index r.buffer_size in
    let left = r.buffer_size - idxoff in
    let first = kmemcpy_across r.buffer idxoff src off (min can_write left) in
    record r {
      buffer =
          if ltb left can_write
          then kmemcpy_across first 0 src (off + left) (can_write - left)
          else first;
      write_index = add64 r.write_index can_write;
    }

-- The copy out of the ring into `dst`, and the new read index.
unfoldable pub get_bytes : (dst : Memory) (can_read : ℕ) → Ring → Memory × Ring
get_bytes dst can_read r =
    let idxoff = kmod_fast r.read_index r.buffer_size in
    let left = r.buffer_size - idxoff in
    let first = kmemcpy_across dst 0 r.buffer idxoff (min can_read left) in
    (
      if ltb left can_read then kmemcpy_across first left r.buffer 0 (can_read - left) else first,
      record r { read_index = add64 r.read_index can_read },
    )

-- The notification of the other side, and the callback if there is one.
unfoldable pub announce : Event → (has_callback : Bool) → Ring → Ring
announce e has_callback r = record r {
  events = if has_callback then callback ∷ e ∷ r.events else e ∷ r.events;
}

-- What a blocked writer finds when it may go on, or why it returns.
pub data Wait : Type 0 where
  ready : List Wake → Ring → Wait
  leave : Reply → Wait
  forever : Ring → Wait

-- `KASSERT`
abbrev pub assert : {A : Type 0} → Bool → Outcome A → Outcome A
assert true o = o
assert false o = panic

-- The end of `kringbuffer_read_nolock`, behind the loop that waits: by `rb->is_eof`.
read_end : Bool → (has_callback : Bool) (dst : Memory) (nbytes : ℕ) → Ring → Memory × Reply
read_end true has_callback dst nbytes r =
    (dst, record { ret = success; count = 0; ring = record r { is_eof = false } })
read_end false has_callback dst nbytes r =
    let can_read = min nbytes (avail_read r) in
    let (dst', r') = get_bytes dst can_read r in
    (
      dst',
      record { ret = success; count = can_read; ring = announce notify_writers has_callback r' },
    )

unfoldable pub read_ready :
    (has_callback : Bool) (dst : Memory) (nbytes : ℕ) → Ring → Memory × Reply
unfolding avail_read get_bytes announce read_end
read_ready has_callback dst nbytes r = read_end r.is_eof has_callback dst nbytes r

module _ (check_hangup : Ring → Op → ℕ → Hangup) (has_callback : Bool) where
  -- `*buflen` is left as it came where the write is refused.
  unfoldable pub write_nonblocking : (src : Memory) (buflen atomic_size : ℕ) → Ring → Reply
  unfolding avail_write put_bytes announce
  write_nonblocking src buflen atomic_size r =
      let hup = check_hangup r op_write 0 in
      let can_write = min buflen (avail_write r) in
      if returns_early hup
      then record { ret = hup.ret; count = or_count hup.new_nbytes buflen; ring = r }
      else if ltb can_write atomic_size
      then record { ret = eagain; count = buflen; ring = r }
      else record {
        ret = success;
        count = can_write;
        ring = announce notify_readers has_callback (put_bytes src 0 can_write r);
      }

  -- The inner loop of `write_blocking`, one round for each wake.
  unfoldable pub wait_space : (buflen atomic_size written : ℕ) → List Wake → Ring → Wait
  unfolding avail_write
  wait_space buflen atomic_size written [] r =
      if ltb (avail_write r) atomic_size then forever r else ready [] r
  wait_space buflen atomic_size written (w ∷ ws) r =
      let r' = w.others r in
      let hup = check_hangup r' op_write 0 in
      let rest = wait_space buflen atomic_size written ws r' in
      if ltb (avail_write r) atomic_size
      then (if w.signal
          then (if written == 0
              then leave (record { ret = eintr; count = 0; ring = r' })
              else leave (record { ret = success; count = written; ring = r' }))
          else if returns_early hup
          then leave (record { ret = hup.ret; count = or_count hup.new_nbytes buflen; ring = r' })
          else rest)
      else ready (w ∷ ws) r

  -- The rest of a round of the outer loop, with what the wait came to: the copy, and the next
  -- round `again`. `buf` stands at `src + written`.
  unfoldable pub write_round :
      (again : ℕ → List Wake → Ring → Outcome Reply) (src : Memory) (buflen written : ℕ)
      → Wait
      → Outcome Reply
  unfolding avail_write put_bytes announce
  write_round again src buflen written (leave reply) = done reply
  write_round again src buflen written (forever r) = asleep r
  write_round again src buflen written (ready ws r) =
      let can_write = min (buflen - written) (avail_write r) in
      again (written + can_write) ws
        (announce notify_readers has_callback (put_bytes src written can_write r))

  -- The outer loop of `write_blocking`.
  unfoldable pub write_blocking :
      ℕ → (src : Memory) (buflen atomic_size written : ℕ) → List Wake → Ring → Outcome Reply
  unfolding wait_space write_round
  write_blocking zero src buflen atomic_size written ws r = out_of_fuel
  write_blocking (suc fuel) src buflen atomic_size written ws r =
      let hup = check_hangup r op_write 0 in
      let round =
        write_round (write_blocking fuel src buflen atomic_size) src buflen written
          (wait_space buflen atomic_size written ws r) in
      if ltb written buflen
      then (if returns_early hup
          then done (record { ret = hup.ret; count = or_count hup.new_nbytes buflen; ring = r })
          else round)
      else done (record { ret = success; count = written; ring = r })

  -- `kringbuffer_write_nolock`, with the fuel of the blocking loop: it makes at most one round for
  -- each byte.
  unfoldable pub write_nolock :
      (src : Memory) (buflen atomic_size : ℕ) (blocking : Bool) → List Wake → Ring → Outcome Reply
  unfolding write_blocking write_nonblocking
  write_nolock src buflen atomic_size blocking ws r = assert (not (r.buffer_size == 0)) (
      assert (ltb atomic_size r.buffer_size) (
        if blocking
        then write_blocking (suc buflen) src buflen atomic_size 0 ws r
        else done (write_nonblocking src buflen atomic_size r)))

  -- The loop that waits for data, one round for each wake, and what follows it. A hangup returns
  -- before `*bytes_read` is written: the count is then the caller's own, which is an argument here.
  unfoldable pub read_wait :
      (dst : Memory) (bytes_read nbytes atomic_size : ℕ) (blocking : Bool)
      → List Wake
      → Ring
      → Outcome (Memory × Reply)
  unfolding read_ready
  read_wait dst bytes_read nbytes atomic_size blocking [] r =
      if ltb (avail_read r) atomic_size && not r.is_eof
      then (if blocking then asleep r else done (dst, record { ret = eagain; count = 0; ring = r }))
      else done (read_ready has_callback dst nbytes r)
  read_wait dst bytes_read nbytes atomic_size blocking (w ∷ ws) r =
      let r' = w.others r in
      let hup = check_hangup r' op_read nbytes in
      let rest = read_wait dst bytes_read nbytes atomic_size blocking ws r' in
      if ltb (avail_read r) atomic_size && not r.is_eof
      then (if not blocking
          then done (dst, record { ret = eagain; count = 0; ring = r })
          else if returns_early hup
          then done (dst, record { ret = hup.ret; count = bytes_read; ring = r' })
          else if r'.is_eof
          then done (read_ready has_callback dst nbytes r')
          else if w.signal
          then done (dst, record { ret = eintr; count = 0; ring = r' })
          else rest)
      else done (read_ready has_callback dst nbytes r)

  unfoldable pub read_nolock :
      (dst : Memory) (bytes_read nbytes atomic_size : ℕ) (blocking : Bool)
      → List Wake
      → Ring
      → Outcome (Memory × Reply)
  unfolding read_wait
  read_nolock dst bytes_read nbytes atomic_size blocking ws r =
      let hup = check_hangup r op_read nbytes in
      if returns_early hup
      then done (dst, record { ret = hup.ret; count = bytes_read; ring = r })
      else assert (ltb atomic_size r.buffer_size)
          (read_wait dst bytes_read nbytes atomic_size blocking ws r)
