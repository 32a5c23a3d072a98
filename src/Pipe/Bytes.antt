-- ===== src/Pipe/Bytes.antt =====
-- The pipe as a queue of bytes, by way of the ring of the same buffer.
use salern_os_kernel.Prelude.{
  ℕ, ◌+◌, ◌-◌, ◌%◌, ◌^◌, ◌≤◌, ◌<◌, min, ◌≡◌, ◌∙◌, refl, sym, ap, subst, false, List, [], ◌++◌,
  length, ltb, if◌then◌else◌, arith,
}
use salern_os_kernel.Mem.{Memory, kmemcpy_across}
use salern_os_kernel.Mem.Copy.{kmemcpy_across_lem}
use salern_os_kernel.RingBuffer.{Ring, avail_read, avail_write, put_bytes, get_bytes}
use salern_os_kernel.RingBuffer.Index.{kmod_fast_lem, slot_add}
use salern_os_kernel.RingBuffer.Queue.{
  IsValid, span, span_congr, length-span, avail_write-add-avail_read,
}
use salern_os_kernel.RingBuffer.Queue
use salern_os_kernel.RingBuffer.Write.{put_bytes-IsValid, contents-put_bytes}
use salern_os_kernel.RingBuffer.Read.{get_slot, get_bytes-IsValid, contents-get_bytes}
use native.Mathlib.Nat.{mod-lt}
use salern_os_kernel.Pipe.{Pipe, pipe_buf_sz, diff, av_space, put, get}

abbrev pub ring_of : Pipe → Ring
ring_of p = record {
  buffer = p.buf;
  buffer_size = pipe_buf_sz;
  write_index = p.write;
  read_index = p.read;
  is_eof = false;
  events = [];
}

-- The counters are words, and at most the buffer's size apart.
abbrev pub IsPipe : Pipe → Type 0
IsPipe p = IsValid 12 (ring_of p)

-- The bytes that were written and not read.
abbrev pub contents : Pipe → List ℕ
contents p = Queue.contents (ring_of p)

ring_of-put :
    (src : Memory) (off n : ℕ) (p : Pipe)
    → put_bytes src off n (ring_of p) ≡ ring_of (put src off n p)
unfolding put put_bytes
ring_of-put src off n p =
    ap
      (λ idx.
        let left = pipe_buf_sz - idx in
        let first = kmemcpy_across p.buf idx src off (min n left) in
        record (ring_of p) {
          buffer = if ltb left n then kmemcpy_across first 0 src (off + left) (n - left) else first;
          write_index = (p.write + n) % 2 ^ 64;
        })
      (kmod_fast_lem 12 p.write)

av_space_lem : (p : Pipe) → avail_write (ring_of p) ≡ av_space p
unfolding av_space avail_write
av_space_lem p = refl

diff_lem : (p : Pipe) → avail_read (ring_of p) ≡ diff p
unfolding diff avail_read
diff_lem p = refl

pub av_space-add-diff : (p : Pipe) → IsPipe p → av_space p + diff p ≡ pipe_buf_sz
av_space-add-diff p v =
    omega (arith, av_space_lem p, diff_lem p, avail_write-add-avail_read (ring_of p) v)

pub length-contents : (p : Pipe) → length (contents p) ≡ diff p
length-contents p =
    length-span (λ i. p.buf (i % pipe_buf_sz)) p.read (avail_read (ring_of p)) ∙ diff_lem p

-- What is put in joins the queue.
pub put_lem :
    (src : Memory) (off n : ℕ) (p : Pipe)
    → IsPipe p
    → n ≤ av_space p
    → IsPipe (put src off n p) × (contents (put src off n p) ≡ contents p ++ span src off n)
put_lem src off n p v fits =
    let room : n ≤ avail_write (ring_of p) = omega (arith, fits, av_space_lem p) in
    let same = ring_of-put src off n p in
    (
      subst (IsValid 12) same (put_bytes-IsValid (ring_of p) v src off n room),
      ap Queue.contents (sym same) ∙ contents-put_bytes (ring_of p) v src off n room,
    )

-- Byte `d` of what is taken out is the byte `d` steps behind the read counter.
get_byte :
    (dst : Memory) (off n d : ℕ) (p : Pipe)
    → n ≤ pipe_buf_sz
    → d < n
    → (get dst off n p).0 (off + d) ≡ p.buf ((p.read + d) % pipe_buf_sz)
unfolding get
get_byte dst off n d p le lt =
    let modidx = p.read % pipe_buf_sz in
    let end = pipe_buf_sz - modidx in
    rw (slot_add pipe_buf_sz p.read d (omega arith)) (
      ground (
        arith,
        mod-lt p.read {m = pipe_buf_sz} (omega arith),
        kmemcpy_across_lem dst off p.buf modidx (min n end) (off + d),
        kmemcpy_across_lem (kmemcpy_across dst off p.buf modidx (min n end)) (off + end) p.buf 0
            (n - end) (off + d),
      ))

-- What is taken out was in front.
pub get_lem :
    (dst : Memory) (off n : ℕ) (p : Pipe)
    → IsPipe p
    → n ≤ diff p
    → let (dst', p') = get dst off n p in IsPipe p' × (contents p ≡ span dst' off n ++ contents p')
unfolding get get_bytes
get_lem dst off n p v fits =
    let there : n ≤ avail_read (ring_of p) = omega (arith, fits, diff_lem p) in
    let small = av_space-add-diff p v in
    (
      get_bytes-IsValid (ring_of p) v dst n there,
      contents-get_bytes (ring_of p) v dst n there
          ∙ ap (λ front. front ++ contents ((get dst off n p).1))
              (span_congr (get_bytes dst n (ring_of p)).0 (get dst off n p).0 0 off n (λ d lt.
                ap (get_bytes dst n (ring_of p)).0 (omega arith)
                ∙ get_slot (ring_of p) v dst n d (omega (arith, fits, small)) lt
                ∙ sym (get_byte dst off n d p (omega (arith, fits, small)) lt))),
    )
