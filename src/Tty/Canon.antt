-- ===== src/Tty/Canon.antt =====
-- The blocks of canonical mode, without waiting, and the end of a call.
use salern_os_kernel.Prelude.{
  ℕ, suc, ◌-◌, ◌<◌, ap₂, lt→ltb, le→ltb, if_true, if_false, ◌≡◌, ◌∙◌, ap, refl, Bool, true, false,
  ◌&&◌, ◌||◌, List, [], ◌∷◌, none, some, ltb, ◌==◌, if◌then◌else◌, inl, inr, Bool-cases, arith,
}
use salern_os_kernel.Errno.{Errno, success, is_success}
use salern_os_kernel.Mem.{write}
use salern_os_kernel.RingBuffer.{Ring, Op, Hangup, Reply, write_nonblocking, write_nolock}
use salern_os_kernel.Tty.{Backend, EchoReply, com_io_tty_buf_sz, newline, carriage_return, cc_is}
use salern_os_kernel.Tty.Process.{
  Progress, Fed, returns, overruns, end_of_file, line_end, sighandler, line_written, echo_to,
  erase_char, kill_loop, flush_line, store_char, canon_mode,
}
use salern_os_kernel.Tty.Steps.{stop_index, Accepts, echo_to_lem, erase_char_lem, kill_loop_lem}
use salern_os_kernel.Tty.Edit.{Key, ordinary, line_break, erase, kill, eof, ignored, signal}

module _ {W : Type 0} where
  abbrev pub stored : ℕ → Backend W → Backend W
  stored c tty = record tty { buffer = write tty.buffer tty.index c; index = suc tty.index }

  -- The end of file is marked if the line is empty.
  abbrev pub marked : Backend W → Backend W
  marked tty = record tty {
    slave_rb = record tty.slave_rb {
      is_eof = if tty.index == 0 then true else tty.slave_rb.is_eof;
    };
  }

  abbrev pub with_device : W → Backend W → Backend W
  with_device w tty = record tty { device = w }

  module _ (check_hangup : Ring → Op → ℕ → Hangup) where
    -- The write of the line to the ring.
    abbrev pub delivery : Backend W → Reply
    delivery tty = write_nonblocking check_hangup true tty.buffer tty.index 1 tty.slave_rb

    -- The line is delivered, as far as there is room.
    abbrev pub delivered : Backend W → Backend W
    delivered tty = record tty { slave_rb = (delivery tty).ring; index = 0 }

    -- The state that a key leaves, the device aside, and the value that is returned.
    abbrev pub after_key : Key → Backend W → Backend W
    after_key (ordinary c) tty = stored c tty
    after_key (line_break c) tty = delivered (stored c tty)
    after_key erase tty = record tty { index = tty.index - 1 }
    after_key kill tty = record tty { index = stop_index tty.buffer tty.index }
    after_key eof tty = delivered (marked tty)
    after_key ignored tty = tty
    after_key (signal sig) tty = record tty { signals = (tty.fg_pgid, sig) ∷ tty.signals }

    abbrev pub key_ret : Key → Backend W → Errno
    key_ret (ordinary c) tty = success
    key_ret (line_break c) tty = (delivery (stored c tty)).ret
    key_ret erase tty = success
    key_ret kill tty = success
    key_ret eof tty = (delivery (marked tty)).ret
    key_ret ignored tty = success
    key_ret (signal sig) tty = success

module _ {W : Type 0} (device_echo : List ℕ → (blocking : Bool) → W → EchoReply W)
    (accepts : Accepts device_echo) (check_hangup : Ring → Op → ℕ → Hangup) where
  -- What a call for a character comes to, up to the device.
  abbrev pub Gives : Fed W → Errno → Backend W → Type 0
  Gives fed ret tty = (w : W) × (fed ≡ returns ret (with_device w tty))

  -- The label `end` for a character that was handled, and for one that was not.
  pub store_handled :
      (c : ℕ) (p : Progress W)
      → p.handled ≡ true
      → store_char device_echo false check_hangup c [] p
        ≡ flush_line device_echo false check_hangup [] p
  unfolding store_char
  store_handled c p h = rw h refl

  pub store_ordinary :
      (c : ℕ) (p : Progress W)
      → p.handled ≡ false
      → p.ret ≡ success
      → p.tty.index < com_io_tty_buf_sz
      → (w : W) × (store_char device_echo false check_hangup c [] p
          ≡ flush_line device_echo false check_hangup []
              (record p { ret = success; tty = with_device w (stored c p.tty) }))
  unfolding store_char
  store_ordinary c p h fine lt = elim (Bool-cases p.tty.termios.echo) [
    | inr quiet ↦ (
      p.tty.device,
      here
          ∙ if_false _ _ quiet
          ∙ ap
              (λ r.
                flush_line device_echo false check_hangup []
                  (record p { ret = r; tty = stored c p.tty }))
              fine,
    )
    | inl on ↦
        let (w, e) =
          echo_to_lem device_echo accepts false true (c ∷ []) (record p { tty = stored c p.tty })
            fine in
        (w, here ∙ if_true _ _ on ∙ ap go_on e)
  ]
    where
      ltb_lt : ltb p.tty.index com_io_tty_buf_sz ≡ true
      ltb_lt = lt→ltb p.tty.index com_io_tty_buf_sz lt

      go_on : Progress W → Fed W
      go_on e =
          if is_success e.ret then flush_line device_echo false check_hangup [] e else sighandler e

      here : store_char device_echo false check_hangup c [] p ≡ (
          if p.tty.termios.echo
          then go_on (echo_to device_echo false (c ∷ []) (record p { tty = stored c p.tty }))
          else flush_line device_echo false check_hangup [] (record p { tty = stored c p.tty }))
      here = if_false _ _ h ∙ if_true _ _ ltb_lt

  pub flush_none :
      (p : Progress W)
      → p.line_done ≡ false
      → p.sig ≡ none
      → flush_line device_echo false check_hangup [] p ≡ returns p.ret p.tty
  unfolding flush_line sighandler
  flush_none p h e = rw (h, e) refl

  pub flush_sent :
      (p : Progress W) (sig : ℕ)
      → p.line_done ≡ false
      → p.sig ≡ some sig
      → flush_line device_echo false check_hangup [] p
        ≡ returns p.ret (record p.tty { signals = (p.tty.fg_pgid, sig) ∷ p.tty.signals })
  unfolding flush_line sighandler
  flush_sent p sig h e = rw (h, e) refl

  pub flush_delivers :
      (p : Progress W)
      → p.line_done ≡ true
      → p.sig ≡ none
      → 1 < p.tty.slave_rb.buffer_size
      → flush_line device_echo false check_hangup [] p
        ≡ returns (delivery check_hangup p.tty).ret (delivered check_hangup p.tty)
  unfolding flush_line sighandler line_written write_nolock
  flush_delivers p h e lt = rw (h, e, nonzero, enough) refl
    where
      nonzero : (p.tty.slave_rb.buffer_size == 0) ≡ false
      nonzero = ground arith

      enough : ltb 1 p.tty.slave_rb.buffer_size ≡ true
      enough = lt→ltb 1 p.tty.slave_rb.buffer_size lt

  -- The blocks of canonical mode that a character passes untouched.
  skip_eof : (c : ℕ) (p : Progress W) → cc_is p.tty.termios.veof c ≡ false → end_of_file c p ≡ p
  unfolding end_of_file
  skip_eof c p other = if_false _ _ other

  skip_erase :
      (c : ℕ) (p : Progress W)
      → cc_is p.tty.termios.verase c ≡ false
      → erase_char device_echo false c p ≡ p
  unfolding erase_char
  skip_erase c p other = if_false _ _ other

  line_end_lem :
      (c : ℕ) (nl : Bool) (p : Progress W)
      → (c == newline || c == carriage_return) ≡ nl
      → line_end c p ≡ (if nl then record p { line_done = true } else p)
  unfolding line_end
  line_end_lem c nl p e = ap (λ b. if b then record p { line_done = true } else p) e

  and_false : (a : Bool) {b : Bool} → b ≡ false → (a && b) ≡ false
  and_false true e = e
  and_false false e = refl

  -- What follows erase in canonical mode.
  abbrev kill_or_store : ℕ → Progress W → Fed W
  kill_or_store c p =
      if is_success p.ret && cc_is p.tty.termios.vkill c
      then (if ltb p.tty.index com_io_tty_buf_sz
          then store_char device_echo false check_hangup c []
              (kill_loop device_echo false p.tty.index p)
          else overruns)
      else store_char device_echo false check_hangup c [] p

  canon_front :
      (c : ℕ) (p q : Progress W)
      → line_end c (end_of_file c p) ≡ q
      → canon_mode device_echo false check_hangup c [] p
        ≡ kill_or_store c (erase_char device_echo false c q)
  unfolding canon_mode
  canon_front c p q e = ap (λ q. kill_or_store c (erase_char device_echo false c q)) e

  skip_kill :
      (c : ℕ) (p : Progress W)
      → cc_is p.tty.termios.vkill c ≡ false
      → kill_or_store c p ≡ store_char device_echo false check_hangup c [] p
  skip_kill c p other = if_false _ _ (and_false (is_success p.ret) other)

  pub canon_plain :
      (c : ℕ) (nl : Bool) (p : Progress W)
      → cc_is p.tty.termios.veof c ≡ false
      → (c == newline || c == carriage_return) ≡ nl
      → cc_is p.tty.termios.verase c ≡ false
      → cc_is p.tty.termios.vkill c ≡ false
      → canon_mode device_echo false check_hangup c [] p
        ≡ store_char device_echo false check_hangup c []
            (if nl then record p { line_done = true } else p)
  canon_plain c true p no_eof e no_erase no_kill =
      canon_front c p _ (ap (line_end c) (skip_eof c p no_eof) ∙ line_end_lem c true p e)
      ∙ ap (kill_or_store c) (skip_erase c (record p { line_done = true }) no_erase)
      ∙ skip_kill c (record p { line_done = true }) no_kill
  canon_plain c false p no_eof e no_erase no_kill =
      canon_front c p _ (ap (line_end c) (skip_eof c p no_eof) ∙ line_end_lem c false p e)
      ∙ ap (kill_or_store c) (skip_erase c p no_erase)
      ∙ skip_kill c p no_kill

  pub canon_erase :
      (c : ℕ) (p : Progress W)
      → cc_is p.tty.termios.veof c ≡ false
      → (c == newline || c == carriage_return) ≡ false
      → cc_is p.tty.termios.verase c ≡ true
      → cc_is p.tty.termios.vkill c ≡ false
      → p.ret ≡ success
      → p.line_done ≡ false
      → p.sig ≡ none
      → Gives
          (canon_mode device_echo false check_hangup c [] p)
          success
          (record p.tty { index = p.tty.index - 1 })
  canon_erase c p no_eof no_nl hit no_kill fine open_line no_sig =
      let (w, e) = erase_char_lem device_echo accepts false c p fine in
      let q = record p {
        ret = success;
        handled = true;
        tty = record p.tty { index = p.tty.index - 1; device = w };
      } in
      (
        w,
        canon_front c p _ (ap (line_end c) (skip_eof c p no_eof) ∙ line_end_lem c false p no_nl)
            ∙ ap (kill_or_store c) (e ∙ if_true q p hit)
            ∙ skip_kill c q no_kill
            ∙ store_handled c q refl
            ∙ flush_none q open_line no_sig,
      )

  pub canon_kill :
      (c : ℕ) (p : Progress W)
      → cc_is p.tty.termios.veof c ≡ false
      → (c == newline || c == carriage_return) ≡ false
      → cc_is p.tty.termios.verase c ≡ false
      → cc_is p.tty.termios.vkill c ≡ true
      → p.ret ≡ success
      → p.line_done ≡ false
      → p.sig ≡ none
      → p.tty.index < com_io_tty_buf_sz
      → Gives
          (canon_mode device_echo false check_hangup c [] p)
          success
          (record p.tty { index = stop_index p.tty.buffer p.tty.index })
  canon_kill c p no_eof no_nl no_erase hit fine open_line no_sig lt =
      let (w, e) = kill_loop_lem device_echo accepts false p.tty.index p refl fine in
      let q = record p {
        ret = success;
        handled = true;
        tty = record p.tty { index = stop_index p.tty.buffer p.tty.index; device = w };
      } in
      (
        w,
        canon_front c p _ (ap (line_end c) (skip_eof c p no_eof) ∙ line_end_lem c false p no_nl)
            ∙ ap (kill_or_store c) (skip_erase c p no_erase)
            ∙ if_true _ _ (ap₂ ◌&&◌ (ap is_success fine) hit)
            ∙ if_true _ _ (lt→ltb p.tty.index com_io_tty_buf_sz lt)
            ∙ ap (store_char device_echo false check_hangup c []) e
            ∙ store_handled c q refl
            ∙ flush_none q open_line no_sig,
      )

  -- The kill character with a full buffer.
  pub canon_kill_full :
      (c : ℕ) (p : Progress W)
      → cc_is p.tty.termios.veof c ≡ false
      → (c == newline || c == carriage_return) ≡ false
      → cc_is p.tty.termios.verase c ≡ false
      → cc_is p.tty.termios.vkill c ≡ true
      → p.ret ≡ success
      → p.tty.index ≡ com_io_tty_buf_sz
      → canon_mode device_echo false check_hangup c [] p ≡ overruns
  canon_kill_full c p no_eof no_nl no_erase hit fine full =
      canon_front c p _ (ap (line_end c) (skip_eof c p no_eof) ∙ line_end_lem c false p no_nl)
      ∙ ap (kill_or_store c) (skip_erase c p no_erase)
      ∙ if_true _ _ (ap₂ ◌&&◌ (ap is_success fine) hit)
      ∙ if_false _ _ (le→ltb p.tty.index com_io_tty_buf_sz (omega arith))

  pub canon_eof :
      (c : ℕ) (p : Progress W)
      → cc_is p.tty.termios.veof c ≡ true
      → (c == newline || c == carriage_return) ≡ false
      → cc_is p.tty.termios.verase c ≡ false
      → cc_is p.tty.termios.vkill c ≡ false
      → p.sig ≡ none
      → 1 < p.tty.slave_rb.buffer_size
      → Gives
          (canon_mode device_echo false check_hangup c [] p)
          (delivery check_hangup (marked p.tty)).ret
          (delivered check_hangup (marked p.tty))
  unfolding end_of_file
  canon_eof c p hit no_nl no_erase no_kill no_sig room =
      let q = record p { handled = true; line_done = true; tty = marked p.tty } in
      (
        p.tty.device,
        canon_front c p _ (ap (line_end c) (if_true _ _ hit) ∙ line_end_lem c false q no_nl)
            ∙ ap (kill_or_store c) (skip_erase c q no_erase)
            ∙ skip_kill c q no_kill
            ∙ store_handled c q refl
            ∙ flush_delivers q refl no_sig room,
      )
