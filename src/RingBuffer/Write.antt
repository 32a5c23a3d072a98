-- ===== src/RingBuffer/Write.antt =====
-- Writing: the bytes go behind those that are there.
use salern_os_kernel.Prelude.{
  ℕ, ◌+◌, ◌-◌, ◌%◌, ◌≤◌, ◌<◌, ◌≡◌, ◌∙◌, ap, refl, ◌++◌, ltb, leb, if◌then◌else◌, min, arith, Bool,
  ◌&&◌, ap₂, sym, append-nil, inl, inr, Bool-cases,
}
use salern_os_kernel.Errno.{success, eagain}
use salern_os_kernel.Mem.{Memory, kmemcpy_across}
use salern_os_kernel.Mem.Copy.{kmemcpy_across_lem}
use salern_os_kernel.RingBuffer.{
  Ring, Op, op_write, Hangup, Event, notify_readers, returns_early, or_count, avail_read,
  avail_write, kmod_fast, put_bytes, announce, write_nonblocking,
}
use salern_os_kernel.RingBuffer.Index.{pow-lt-word, kmod_fast_lem, slot_add}
use salern_os_kernel.RingBuffer.Queue.{
  IsValid, span, contents, write_slot, turn, span-append, span_congr, avail_write-add-avail_read,
}
use native.Mathlib.Nat.{mod-lt}

module _ {k : ℕ} (r : Ring) (v : IsValid k r) (src : Memory) (off n : ℕ) where
  abbrev slot : ℕ
  slot = r.write_index % r.buffer_size

  mask : kmod_fast r.write_index r.buffer_size ≡ r.write_index % r.buffer_size
  mask = rw v.capacity (kmod_fast_lem k r.write_index)

  put_buffer :
      (q : ℕ)
      → n ≤ r.buffer_size
      → q < r.buffer_size
      → slot < r.buffer_size
      → (put_bytes src off n r).buffer q ≡ (
          if leb slot q && ltb q (slot + n)
          then src (off + (q - slot))
          else if ltb (q + r.buffer_size) (slot + n)
          then src (off + (q + r.buffer_size - slot))
          else r.buffer q)
  unfolding put_bytes
  put_buffer q le lt in_range = ground (
    arith,
    mask,
    kmemcpy_across_lem r.buffer idxoff src off (min n left) q,
    kmemcpy_across_lem (kmemcpy_across r.buffer idxoff src off (min n left)) 0 src (off + left)
        (n - left) q,
  )
    where
      idxoff : ℕ
      idxoff = kmod_fast r.write_index r.buffer_size

      left : ℕ
      left = r.buffer_size - idxoff

  -- Slot by slot, counted from the write index: `n` new bytes, and all else as it was.
  put_slot :
      (d : ℕ)
      → n ≤ r.buffer_size
      → d < r.buffer_size
      → (put_bytes src off n r).buffer ((r.write_index + d) % r.buffer_size)
        ≡ (if ltb d n then src (off + d) else r.buffer ((r.write_index + d) % r.buffer_size))
  put_slot d le lt = rw (slot_add r.buffer_size r.write_index d lt) (
      ground (
        arith,
        mod-lt r.write_index {m = r.buffer_size} (omega arith),
        put_buffer (if ltb (slot + d) r.buffer_size then slot + d else slot + d - r.buffer_size),
      ))

  pub avail_read-put_bytes :
      n ≤ avail_write r → avail_read (put_bytes src off n r) ≡ avail_read r + n
  unfolding avail_read put_bytes
  avail_read-put_bytes le = omega (arith, avail_write-add-avail_read r v, pow-lt-word k v.small)

  pub put_bytes-IsValid : n ≤ avail_write r → IsValid k (put_bytes src off n r)
  unfolding put_bytes
  put_bytes-IsValid le = record {
    small = v.small;
    capacity = v.capacity;
    write_word = omega arith;
    read_word = v.read_word;
    fits = omega (arith, avail_read-put_bytes le, avail_write-add-avail_read r v);
  }

  -- What is written joins the queue behind the bytes that are there.
  pub contents-put_bytes :
      n ≤ avail_write r → contents (put_bytes src off n r) ≡ contents r ++ span src off n
  unfolding put_bytes
  contents-put_bytes le =
      ap (span at' r.read_index) (avail_read-put_bytes le)
      ∙ span-append at' r.read_index (r.read_index + avail_read r) (avail_read r) n
          (avail_read r + n) refl refl
      ∙ ap₂ ◌++◌ (span_congr at' at r.read_index r.read_index (avail_read r) old)
          (span_congr at' src (r.read_index + avail_read r) off n new)
    where
      at : ℕ → ℕ
      at i = r.buffer (i % r.buffer_size)

      at' : ℕ → ℕ
      at' i = (put_bytes src off n r).buffer (i % r.buffer_size)

      room : avail_write r + avail_read r ≡ r.buffer_size
      room = avail_write-add-avail_read r v

      old : (d : ℕ) → d < avail_read r → at' (r.read_index + d) ≡ at (r.read_index + d)
      old d lt =
          let e = r.buffer_size - avail_read r + d in
          let same : (r.write_index + e) % r.buffer_size ≡ (r.read_index + d) % r.buffer_size =
            write_slot r e v
            ∙ turn r.buffer_size (r.read_index + avail_read r + e) (r.read_index + d)
                (omega (arith, room)) in
          ground (arith, room, same, put_slot e (omega (arith, room)) (omega (arith, room)))

      new : (d : ℕ) → d < n → at' (r.read_index + avail_read r + d) ≡ src (off + d)
      new d lt =
          ground (arith, write_slot r d v, put_slot d (omega (arith, room)) (omega (arith, room)))

-- The notification touches neither the bytes nor the counters.
pub announce_lem :
    {k : ℕ} (e : Event) (has_callback : Bool) (r : Ring)
    → IsValid k r
    → IsValid k (announce e has_callback r) × (contents (announce e has_callback r) ≡ contents r)
unfolding announce avail_read
announce_lem e has_callback r v = (
  record {
    small = v.small;
    capacity = v.capacity;
    write_word = v.write_word;
    read_word = v.read_word;
    fits = v.fits;
  },
  refl,
)

-- A round of writing: `n` bytes of the source, from `off` on, join the queue.
pub put_lem :
    {k : ℕ} (e : Event) (has_callback : Bool) (src : Memory) (off n : ℕ) (r : Ring)
    → IsValid k r
    → n ≤ avail_write r
    → IsValid k (announce e has_callback (put_bytes src off n r))
      × (contents (announce e has_callback (put_bytes src off n r)) ≡ contents r ++ span src off n)
put_lem {k} e has_callback src off n r v le =
    let (valid, same) = announce_lem e has_callback (put_bytes src off n r) put in
    (valid, same ∙ contents-put_bytes r v src off n le)
  where
    put : IsValid k (put_bytes src off n r)
    put = put_bytes-IsValid r v src off n le

module _ (check_hangup : Ring → Op → ℕ → Hangup) (has_callback : Bool) where
  -- The number of bytes that a write without waiting takes: as many as fit, or none if a hangup is
  -- found or fewer than `atomic_size` can be written.
  abbrev pub taken : (buflen atomic_size : ℕ) → Ring → ℕ
  taken buflen atomic_size r =
      if returns_early (check_hangup r op_write 0)
      then 0
      else if ltb (min buflen (avail_write r)) atomic_size
      then 0
      else min buflen (avail_write r)

  -- A write without waiting to a valid ring leaves a valid ring, whose contents are the old ones
  -- and behind them the first `taken` bytes of the source. It returns the hangup's code, EAGAIN or
  -- success; the count that it reports is the one taken on success, but the requested one on EAGAIN.
  pub write_nonblocking_lem :
      {k : ℕ} (src : Memory) (buflen atomic_size : ℕ) (r : Ring)
      → IsValid k r
      → let reply = write_nonblocking check_hangup has_callback src buflen atomic_size r in
        IsValid k reply.ring
        × (contents reply.ring ≡ contents r ++ span src 0 (taken buflen atomic_size r))
        × (reply.ret ≡ (
            if returns_early (check_hangup r op_write 0)
            then (check_hangup r op_write 0).ret
            else if ltb (min buflen (avail_write r)) atomic_size
            then eagain
            else success))
        × (reply.count ≡ (
            if returns_early (check_hangup r op_write 0)
            then or_count (check_hangup r op_write 0).new_nbytes buflen
            else if ltb (min buflen (avail_write r)) atomic_size
            then buflen
            else taken buflen atomic_size r))
  unfolding write_nonblocking
  write_nonblocking_lem src buflen atomic_size r v =
      elim (Bool-cases (returns_early (check_hangup r op_write 0))) [
        | inl early ↦ rw early (v, sym (append-nil (contents r)), refl, refl)
        | inr on ↦ rw on (elim (Bool-cases (ltb (min buflen (avail_write r)) atomic_size)) [
          | inl few ↦ rw few (v, sym (append-nil (contents r)), refl, refl)
          | inr enough ↦
              let (valid, all) =
                put_lem notify_readers has_callback src 0 (min buflen (avail_write r)) r v
                  (omega arith) in
              rw enough (valid, all, refl, refl)
        ])
      ]
