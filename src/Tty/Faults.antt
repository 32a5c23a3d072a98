-- ===== src/Tty/Faults.antt =====
-- Where the line discipline goes wrong: a line that is longer than its buffer, and the end of file
-- on an empty line.
use salern_os_kernel.Prelude.{
  ℕ, ◌<◌, ◌≡◌, ◌∙◌, ap, subst, Bool, true, false, List, [], ◌==◌, if_true, if_false, lt→ltb, arith,
  min,
}
use salern_os_kernel.Errno.{eagain}
use salern_os_kernel.RingBuffer.{
  Ring, Op, op_write, Hangup, returns_early, avail_write, write_nonblocking,
}
use salern_os_kernel.Tty.{Backend, EchoReply}
use salern_os_kernel.Tty.Process.{returns, com_io_tty_process_char}
use salern_os_kernel.Tty.Steps.{Accepts}
use salern_os_kernel.Tty.Edit.{eof, key_of, IsCanonical}
use salern_os_kernel.Tty.Canon.{marked, with_device, delivery, delivered, after_key, key_ret}
use salern_os_kernel.Tty.Feed.{process_char_key}

-- A write of no bytes, without waiting, is refused and tells nobody.
refused :
    (check_hangup : Ring → Op → ℕ → Hangup) {W : Type 0} (tty : Backend W)
    → returns_early (check_hangup tty.slave_rb op_write 0) ≡ false
    → tty.index ≡ 0
    → ((delivery check_hangup tty)
        ≡ record { ret = eagain; count = tty.index; ring = tty.slave_rb })
unfolding write_nonblocking
refused check_hangup tty connected empty =
    if_false _ _ connected
    ∙ if_true _ _ (lt→ltb (min tty.index (avail_write tty.slave_rb)) 1 (omega arith))

module _ {W : Type 0} (device_echo : List ℕ → (blocking : Bool) → W → EchoReply W)
    (accepts : Accepts device_echo) (check_hangup : Ring → Op → ℕ → Hangup) where
  -- In canonical mode, without waiting, on a device that accepts its echo, with a ring of more than
  -- one byte that finds no hangup, and on an empty line: the end-of-file character marks the end of
  -- file, but the call returns EAGAIN, and neither is a reader woken nor the callback run.
  pub process_char-eof :
      (c : ℕ) (tty : Backend W)
      → IsCanonical tty.termios
      → 1 < tty.slave_rb.buffer_size
      → ((r : Ring) → returns_early (check_hangup r op_write 0) ≡ false)
      → tty.index ≡ 0
      → key_of tty.termios c ≡ eof
      → (tty' : Backend W) × (com_io_tty_process_char device_echo false check_hangup c [] tty
          ≡ returns eagain tty')
        × (tty'.slave_rb.is_eof ≡ true)
        × (tty'.slave_rb.events ≡ tty.slave_rb.events)
  process_char-eof c tty canonical size connected empty is_eof =
      let (w, e) =
        process_char_key device_echo accepts check_hangup c tty canonical (omega arith) size in
      let no_bytes = refused check_hangup (marked tty) (connected (marked tty).slave_rb) empty in
      (
        with_device w (delivered check_hangup (marked tty)),
        subst
              (λ key.
                com_io_tty_process_char device_echo false check_hangup c [] tty
                ≡ returns (key_ret check_hangup key tty)
                    (with_device w (after_key check_hangup key tty)))
              is_eof e
            ∙ ap (λ ret. returns ret (with_device w (delivered check_hangup (marked tty))))
                (ap (λ r. r.ret) no_bytes),
        ap (λ r. r.ring.is_eof) no_bytes
            ∙ if_true {b = tty.index == 0} true tty.slave_rb.is_eof (ground (arith, empty)),
        ap (λ r. r.ring.events) no_bytes,
      )
