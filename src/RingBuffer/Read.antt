-- ===== src/RingBuffer/Read.antt =====
-- Reading: the oldest bytes leave the queue in their order.
use salern_os_kernel.Prelude.{
  ℕ, ◌+◌, ◌-◌, ◌%◌, ◌≤◌, ◌<◌, ◌≡◌, ◌∙◌, ap, ap₂, sym, refl, ◌++◌, if◌then◌else◌, min, arith, Bool,
  true, false,
}
use salern_os_kernel.Prelude.Word.{word}
use salern_os_kernel.Errno.{success}
use salern_os_kernel.Mem.{Memory, kmemcpy_across}
use salern_os_kernel.Mem.Copy.{kmemcpy_across_lem}
use salern_os_kernel.RingBuffer.{
  Ring, notify_writers, avail_read, kmod_fast, get_bytes, announce, read_end, read_ready,
}
use salern_os_kernel.RingBuffer.Index.{pow-lt-word, kmod_fast_lem, slot_add}
use salern_os_kernel.RingBuffer.Queue.{IsValid, span, contents, wrap_slot, span-append, span_congr}
use salern_os_kernel.RingBuffer.Write.{announce_lem}
use native.Mathlib.Nat.{mod-lt}

module _ {k : ℕ} (r : Ring) (v : IsValid k r) (dst : Memory) (n : ℕ) where
  abbrev slot : ℕ
  slot = r.read_index % r.buffer_size

  mask : kmod_fast r.read_index r.buffer_size ≡ r.read_index % r.buffer_size
  mask = rw v.capacity (kmod_fast_lem k r.read_index)

  -- Byte `d` of the destination is the byte `d` steps behind the read index.
  pub get_slot :
      (d : ℕ)
      → n ≤ r.buffer_size
      → d < n
      → (get_bytes dst n r).0 d ≡ r.buffer ((r.read_index + d) % r.buffer_size)
  unfolding get_bytes
  get_slot d le lt = rw (slot_add r.buffer_size r.read_index d (omega arith)) (
      ground (
        arith,
        mask,
        mod-lt r.read_index {m = r.buffer_size} (omega arith),
        kmemcpy_across_lem dst 0 r.buffer idxoff (min n left) d,
        kmemcpy_across_lem (kmemcpy_across dst 0 r.buffer idxoff (min n left)) left r.buffer 0
            (n - left) d,
      ))
    where
      idxoff : ℕ
      idxoff = kmod_fast r.read_index r.buffer_size

      left : ℕ
      left = r.buffer_size - idxoff

  avail_read-get_bytes : n ≤ avail_read r → avail_read (get_bytes dst n r).1 ≡ avail_read r - n
  unfolding avail_read get_bytes
  avail_read-get_bytes le = omega (arith, pow-lt-word k v.small)

  pub get_bytes-IsValid : n ≤ avail_read r → IsValid k (get_bytes dst n r).1
  unfolding get_bytes
  get_bytes-IsValid le = record {
    small = v.small;
    capacity = v.capacity;
    write_word = v.write_word;
    read_word = omega arith;
    fits = omega (arith, avail_read-get_bytes le);
  }

  -- The destination gets the first `n` bytes, and the ring keeps the others.
  pub contents-get_bytes :
      n ≤ avail_read r
      → contents r ≡ span (get_bytes dst n r).0 0 n ++ contents (get_bytes dst n r).1
  unfolding get_bytes
  contents-get_bytes le =
      span-append at r.read_index (r.read_index + n) n (avail_read r - n) (avail_read r) refl
        (omega arith)
      ∙ ap₂ ◌++◌ (span_congr at (get_bytes dst n r).0 r.read_index 0 n front) (
          span_congr at at (r.read_index + n) ((r.read_index + n) % word) (avail_read r - n) back
          ∙ ap (span at ((r.read_index + n) % word)) (sym (avail_read-get_bytes le)))
    where
      at : ℕ → ℕ
      at i = r.buffer (i % r.buffer_size)

      front : (d : ℕ) → d < n → at (r.read_index + d) ≡ (get_bytes dst n r).0 (0 + d)
      front d lt = ground (arith, get_slot d (omega arith) lt)

      back :
          (d : ℕ)
          → d < avail_read r - n
          → at (r.read_index + n + d) ≡ at ((r.read_index + n) % word + d)
      back d lt = ap r.buffer (sym (wrap_slot r (r.read_index + n) d v))

fits-is_eof :
    {k : ℕ} (r : Ring) → IsValid k r → avail_read (record r { is_eof = false }) ≤ r.buffer_size
unfolding avail_read
fits-is_eof r v = v.fits

contents-is_eof : (r : Ring) → contents r ≡ contents (record r { is_eof = false })
unfolding avail_read
contents-is_eof r = refl

eof-get_bytes :
    (r : Ring) (dst : Memory) (n : ℕ) (b : Bool)
    → (announce notify_writers b (get_bytes dst n r).1).is_eof ≡ r.is_eof
unfolding announce get_bytes
eof-get_bytes r dst n b = refl

module _ (has_callback : Bool) where
  read_end_lem :
      {k : ℕ} (b : Bool) (dst : Memory) (nbytes : ℕ) (r : Ring)
      → IsValid k r
      → r.is_eof ≡ b
      → let (dst', reply) = read_end b has_callback dst nbytes r in
        IsValid k reply.ring
        × (contents r ≡ span dst' 0 reply.count ++ contents reply.ring)
        × (reply.count ≡ (if b then 0 else min nbytes (avail_read r)))
        × (reply.ring.is_eof ≡ false)
        × (reply.ret ≡ success)
  unfolding read_end
  read_end_lem true dst nbytes r v e = (
    record {
      small = v.small;
      capacity = v.capacity;
      write_word = v.write_word;
      read_word = v.read_word;
      fits = fits-is_eof r v;
    },
    contents-is_eof r,
    refl,
    refl,
    refl,
  )
  read_end_lem false dst nbytes r v e =
      let n = min nbytes (avail_read r) in
      let got = get_bytes-IsValid r v dst n (omega arith) in
      let (valid, same) = announce_lem notify_writers has_callback (get_bytes dst n r).1 got in
      (
        valid,
        contents-get_bytes r v dst n (omega arith)
            ∙ ap (λ l. span (get_bytes dst n r).0 0 n ++ l) (sym same),
        refl,
        eof-get_bytes r dst n has_callback ∙ e,
        refl,
      )

  -- What a read delivers once it need not wait: the reported number is what was asked for or what
  -- there is, and none at the end of file, which is thereby used up. The bytes delivered, followed
  -- by the contents that are left, are the contents before.
  pub read_ready_lem :
      {k : ℕ} (dst : Memory) (nbytes : ℕ) (r : Ring)
      → IsValid k r
      → let (dst', reply) = read_ready has_callback dst nbytes r in
        IsValid k reply.ring
        × (contents r ≡ span dst' 0 reply.count ++ contents reply.ring)
        × (reply.count ≡ (if r.is_eof then 0 else min nbytes (avail_read r)))
        × (reply.ring.is_eof ≡ false)
        × (reply.ret ≡ success)
  unfolding read_ready
  read_ready_lem dst nbytes r v = read_end_lem r.is_eof dst nbytes r v refl
