-- ===== src/Tty/Refine.antt =====
-- The line discipline refines the editing of a line.
use salern_os_kernel.Prelude.{
  ℕ, suc, ◌<◌, ◌≡◌, ◌∙◌, ap, ap₂, sym, refl, Bool, true, false, List, [], ◌++◌, ltb, min, take, inl,
  inr, Bool-cases, arith,
}
use salern_os_kernel.Errno.{Errno}
use salern_os_kernel.Mem.{Memory}
use salern_os_kernel.RingBuffer.{
  Ring, Op, op_write, Hangup, returns_early, avail_read, avail_write, put_bytes, announce,
  write_nonblocking,
}
use salern_os_kernel.RingBuffer.Queue.{IsValid, span, contents}
use salern_os_kernel.RingBuffer.Write.{taken, write_nonblocking_lem}
use salern_os_kernel.Tty.{Backend, EchoReply, com_io_tty_buf_sz}
use salern_os_kernel.Tty.Process.{returns, com_io_tty_process_char}
use salern_os_kernel.Tty.Steps.{Accepts, stop_index}
use salern_os_kernel.Tty.Edit.{
  Key, ordinary, line_break, erase, kill, eof, ignored, signal, key_of, IsCanonical, view, edit,
}
use salern_os_kernel.Tty.Canon.{stored, marked, with_device, delivery, after_key, key_ret}
use salern_os_kernel.Tty.Line.{
  span_count, span-write, drop_last-span, take-span, is_empty-span, stop_index_le,
}
use salern_os_kernel.Tty.Feed.{process_char_key}

-- The mark of the end of file is not part of the queue.
marked-IsValid : {k : ℕ} (b : Bool) (r : Ring) → IsValid k r → IsValid k (record r { is_eof = b })
unfolding avail_read
marked-IsValid b r v = record {
  small = v.small;
  capacity = v.capacity;
  write_word = v.write_word;
  read_word = v.read_word;
  fits = v.fits;
}

contents-marked : (b : Bool) (r : Ring) → contents (record r { is_eof = b }) ≡ contents r
unfolding avail_read
contents-marked b r = refl

room-marked : (b : Bool) (r : Ring) → avail_write (record r { is_eof = b }) ≡ avail_write r
unfolding avail_write avail_read
room-marked b r = refl

module _ (check_hangup : Ring → Op → ℕ → Hangup)
    (connected : (r : Ring) → returns_early (check_hangup r op_write 0) ≡ false) where
  eof-write_nonblocking :
      (src : Memory) (n : ℕ) (r : Ring)
      → (write_nonblocking check_hangup true src n 1 r).ring.is_eof ≡ r.is_eof
  unfolding write_nonblocking put_bytes announce
  eof-write_nonblocking src n r =
      rw (connected r) (elim (Bool-cases (ltb (min n (avail_write r)) 1)) [
        | inl few ↦ rw few refl
        | inr enough ↦ rw enough refl
      ])

  taken_lem : (n : ℕ) (r : Ring) → taken check_hangup true n 1 r ≡ min n (avail_write r)
  taken_lem n r = rw (connected r) (ground arith)

  -- What the readers get of a line: as much as there is room for.
  pub contents-delivery :
      {W : Type 0} {k : ℕ} (tty : Backend W)
      → IsValid k tty.slave_rb
      → contents (delivery check_hangup tty).ring
        ≡ contents tty.slave_rb ++ take (avail_write tty.slave_rb) (span tty.buffer 0 tty.index)
  contents-delivery tty v =
      let line = span tty.buffer 0 in
      let room = avail_write tty.slave_rb in
      (write_nonblocking_lem check_hangup true tty.buffer tty.index 1 tty.slave_rb v).1
      ∙ ap (λ l. contents tty.slave_rb ++ l)
          (ap line (taken_lem tty.index tty.slave_rb)
            ∙ span_count tty.buffer 0 (min tty.index room) (min room tty.index) (omega arith)
            ∙ sym (take-span tty.buffer room 0 tty.index))

  pub delivery-IsValid :
      {W : Type 0} {k : ℕ} (tty : Backend W)
      → IsValid k tty.slave_rb
      → IsValid k (delivery check_hangup tty).ring
  delivery-IsValid tty v =
      (write_nonblocking_lem check_hangup true tty.buffer tty.index 1 tty.slave_rb v).0

  module _ {W : Type 0} {k : ℕ} (tty : Backend W) (v : IsValid k tty.slave_rb) where
    after_key-IsValid : (key : Key) → IsValid k (after_key check_hangup key tty).slave_rb
    after_key-IsValid (ordinary c) = v
    after_key-IsValid (line_break c) = delivery-IsValid (stored c tty) v
    after_key-IsValid erase = v
    after_key-IsValid kill = v
    after_key-IsValid eof = delivery-IsValid (marked tty) (marked-IsValid _ tty.slave_rb v)
    after_key-IsValid ignored = v
    after_key-IsValid (signal sig) = v

    pub after_key-view :
        (key : Key)
        → view (after_key check_hangup key tty)
          ≡ edit
              (avail_write tty.slave_rb)
              tty.fg_pgid
              (stop_index tty.buffer tty.index)
              key
              (view tty)
    after_key-view (ordinary c) =
        ap (λ l. record (view tty) { line = l }) (span-write tty.buffer tty.index c)
    after_key-view (line_break c) =
        ap₂ (λ l b. record (view tty) { line = []; queue = l; at_end = b })
          (contents-delivery (stored c tty) v
            ∙ ap (λ l. contents tty.slave_rb ++ take (avail_write tty.slave_rb) l)
                (span-write tty.buffer tty.index c))
          (eof-write_nonblocking (stored c tty).buffer (suc tty.index) tty.slave_rb)
    after_key-view erase =
        ap (λ l. record (view tty) { line = l }) (sym (drop_last-span tty.buffer 0 tty.index))
    after_key-view kill =
        ap (λ l. record (view tty) { line = l })
          (span_count tty.buffer 0 (stop_index tty.buffer tty.index)
              (min (stop_index tty.buffer tty.index) tty.index)
              (omega (arith, stop_index_le tty.buffer tty.index))
            ∙ sym (take-span tty.buffer (stop_index tty.buffer tty.index) 0 tty.index))
    after_key-view eof =
        let r = (marked tty).slave_rb in
        ap₂ (λ l b. record (view tty) { line = []; queue = l; at_end = b })
          (contents-delivery (marked tty) (marked-IsValid r.is_eof tty.slave_rb v)
            ∙ ap₂ (λ l (n : ℕ). l ++ take n (span tty.buffer 0 tty.index))
                (contents-marked r.is_eof tty.slave_rb) (room-marked r.is_eof tty.slave_rb))
          (eof-write_nonblocking tty.buffer tty.index r
            ∙ ground (arith, is_empty-span tty.buffer tty.index))
    after_key-view ignored = refl
    after_key-view (signal sig) = refl

    after_key-termios : (key : Key) → (after_key check_hangup key tty).termios ≡ tty.termios
    after_key-termios (ordinary c) = refl
    after_key-termios (line_break c) = refl
    after_key-termios erase = refl
    after_key-termios kill = refl
    after_key-termios eof = refl
    after_key-termios ignored = refl
    after_key-termios (signal sig) = refl

    after_key-fg_pgid : (key : Key) → (after_key check_hangup key tty).fg_pgid ≡ tty.fg_pgid
    after_key-fg_pgid (ordinary c) = refl
    after_key-fg_pgid (line_break c) = refl
    after_key-fg_pgid erase = refl
    after_key-fg_pgid kill = refl
    after_key-fg_pgid eof = refl
    after_key-fg_pgid ignored = refl
    after_key-fg_pgid (signal sig) = refl

module _ {W : Type 0} (device_echo : List ℕ → (blocking : Bool) → W → EchoReply W)
    (accepts : Accepts device_echo) (check_hangup : Ring → Op → ℕ → Hangup)
    (connected : (r : Ring) → returns_early (check_hangup r op_write 0) ≡ false) where
  -- A character in canonical mode, without waiting, where the control characters differ, the device
  -- accepts its echo, the ring is valid, of more than one byte and finds no hangup, and the line has
  -- room for a character. The call returns, and what a user and a reader see then is what the
  -- character's key makes of the line, the waiting bytes, the mark of the end of file and the
  -- signals, on a line that kill cuts where its loop stops; the ring is valid, and the settings and
  -- the group are as they were.
  pub process_char-edit :
      {k : ℕ} (c : ℕ) (tty : Backend W)
      → IsCanonical tty.termios
      → IsValid k tty.slave_rb
      → 1 < tty.slave_rb.buffer_size
      → tty.index < com_io_tty_buf_sz
      → (ret : Errno) × (tty' : Backend W) × (com_io_tty_process_char device_echo false check_hangup
            c [] tty
          ≡ returns ret tty')
        × (view tty'
            ≡ edit
                (avail_write tty.slave_rb)
                tty.fg_pgid
                (stop_index tty.buffer tty.index)
                (key_of tty.termios c)
                (view tty))
        × IsValid k tty'.slave_rb
        × (tty'.termios ≡ tty.termios)
        × (tty'.fg_pgid ≡ tty.fg_pgid)
  process_char-edit c tty canonical v size lt =
      let key = key_of tty.termios c in
      let (w, e) = process_char_key device_echo accepts check_hangup c tty canonical lt size in
      (
        key_ret check_hangup key tty,
        with_device w (after_key check_hangup key tty),
        e,
        after_key-view check_hangup connected tty v key,
        after_key-IsValid check_hangup connected tty v key,
        after_key-termios check_hangup connected tty v key,
        after_key-fg_pgid check_hangup connected tty v key,
      )
