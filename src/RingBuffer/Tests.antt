-- ===== src/RingBuffer/Tests.antt =====
-- Runs of the ring, and the theorems at concrete rings.
use salern_os_kernel.Prelude.{
  ℕ, ◌+◌, ◌-◌, ◌^◌, ◌≡◌, refl, [], ◌∷◌, ◌++◌, ltb, if◌then◌else◌, min, arith, true, false,
}
use salern_os_kernel.Errno.{success, eagain}
use salern_os_kernel.Mem.{Memory, kmemcpy_across}
use salern_os_kernel.RingBuffer.{
  Ring, Op, Hangup, no_hangup, Wake, avail_read, avail_write, write_nonblocking, read_ready,
  returns_early,
}
use salern_os_kernel.RingBuffer.Queue.{IsValid, span, contents}
use salern_os_kernel.RingBuffer.Write.{taken, write_nonblocking_lem}
use salern_os_kernel.RingBuffer.Read.{read_ready_lem}

-- Four slots, three bytes in use, and the write counter past its wrap.
abbrev wrapped : Ring
wrapped = record {
  buffer = λ i. 10 + i;
  buffer_size = 4;
  write_index = 1;
  read_index = 2 ^ 64 - 2;
  is_eof = false;
  events = [];
}

wrapped-IsValid : IsValid 2 wrapped
unfolding avail_read
wrapped-IsValid = record {
  small = omega arith;
  capacity = refl;
  write_word = omega arith;
  read_word = omega arith;
  fits = omega arith;
}

contents-wrapped : contents wrapped ≡ 12 ∷ 13 ∷ 10 ∷ []
unfolding avail_read
contents-wrapped = refl

abbrev quiet : Ring → Op → ℕ → Hangup
quiet r op n = no_hangup

-- Byte `i` of the source.
abbrev letters : Memory
letters i = 97 + i

write_nonblocking_lem_example :
    let reply = write_nonblocking quiet false letters 3 1 wrapped in
    IsValid 2 reply.ring
    × (contents reply.ring ≡ contents wrapped ++ span letters 0 (taken quiet false 3 1 wrapped))
    × (reply.ret ≡ (
        if returns_early no_hangup
        then success
        else if ltb (min 3 (avail_write wrapped)) 1
        then eagain
        else success))
    × (reply.count ≡ (
        if returns_early no_hangup
        then 3
        else if ltb (min 3 (avail_write wrapped)) 1
        then 3
        else taken quiet false 3 1 wrapped))
write_nonblocking_lem_example =
    write_nonblocking_lem quiet false letters 3 1 wrapped wrapped-IsValid

write_runs :
    contents (write_nonblocking quiet false letters 3 1 wrapped).ring ≡ 12 ∷ 13 ∷ 10 ∷ 97 ∷ []
unfolding write_nonblocking avail_read kmemcpy_across
write_runs = refl

read_ready_lem_example :
    let (dst', reply) = read_ready true (λ _. 0) 2 wrapped in
    IsValid 2 reply.ring
    × (contents wrapped ≡ span dst' 0 reply.count ++ contents reply.ring)
    × (reply.count ≡ min 2 (avail_read wrapped))
    × (reply.ring.is_eof ≡ false)
    × (reply.ret ≡ success)
read_ready_lem_example = read_ready_lem true (λ _. 0) 2 wrapped wrapped-IsValid

-- A reader takes at most two bytes while the writer sleeps.
abbrev reader : Wake
reader = record { others = λ r. (read_ready true (λ _. 0) 2 r).1.ring; signal = false }
