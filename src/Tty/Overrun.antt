-- ===== src/Tty/Overrun.antt =====
-- A line that is longer than its buffer.
use salern_os_kernel.Prelude.{
  ℕ, ◌+◌, ◌<◌, ◌≡◌, ◌⊎◌, length-append, ◌∙◌, ap, sym, subst, refl, Bool, true, false, ◌&&◌, ◌||◌,
  List, [], ◌∷◌, ◌++◌, Option, none, some, ◌==◌, length, if_true, if_false, le→ltb, arith, inl, inr,
  Bool-cases, Option-cases,
}
use salern_os_kernel.Errno.{success}
use salern_os_kernel.RingBuffer.{Ring, Op, Hangup}
use salern_os_kernel.Tty.{
  Termios, Backend, EchoReply, com_io_tty_buf_sz, newline, carriage_return, cc_is,
}
use salern_os_kernel.Tty.Process.{
  Progress, Fed, overruns, stuck, next_char, started, translate, store_char, canon_mode,
  com_io_tty_process_char, process_chars_loop, com_io_tty_process_chars,
}
use salern_os_kernel.Tty.Steps.{signal_of, Accepts, signal_chars_lem, is_some, or_else}
use salern_os_kernel.Tty.Edit.{
  Key, ordinary, line_break, signal, canon_key, input_key, key_of, IsCanonical,
}
use salern_os_kernel.Tty.Canon.{with_device, canon_plain, canon_kill_full}
use salern_os_kernel.Tty.Room.{NeedsRoom}
use salern_os_kernel.RingBuffer.Queue.{span, length-span}
use salern_os_kernel.Tty.Feed.{input_rest}
use salern_os_kernel.Tty.Session.{
  IsTyping, typed, AllTyping, type_all, asleep_never, process_chars_loop-typing,
}

abbrev pub AllOrdinary : Termios → List ℕ → Type 0
AllOrdinary t [] = Unit
AllOrdinary t (c ∷ cs) = (key_of t c ≡ ordinary c) × AllOrdinary t cs

AllOrdinary-AllTyping : (t : Termios) (cs : List ℕ) → AllOrdinary t cs → AllTyping t cs
AllOrdinary-AllTyping t [] h = tt
AllOrdinary-AllTyping t (c ∷ cs) h = (subst IsTyping (sym h.0) tt, AllOrdinary-AllTyping t cs h.1)

length-type_all :
    (t : Termios) (cs line : List ℕ)
    → AllOrdinary t cs
    → length (type_all t cs line) ≡ length line + length cs
length-type_all t [] line h = omega arith
length-type_all t (c ∷ cs) line h =
    length-type_all t cs (typed (key_of t c) line) h.1
    ∙ ap (λ key. length (typed key line) + length cs) h.0
    ∙ omega (arith, length-append line (c ∷ []))

module _ {W : Type 0} (device_echo : List ℕ → (blocking : Bool) → W → EchoReply W)
    (accepts : Accepts device_echo) (check_hangup : Ring → Op → ℕ → Hangup) where
  -- A key that needs room overruns a full buffer.
  abbrev pub Full : Fed W → Key → Type 0
  Full fed key = NeedsRoom key → fed ≡ overruns

  store_overruns :
      (c : ℕ) (p : Progress W)
      → p.handled ≡ false
      → p.tty.index ≡ com_io_tty_buf_sz
      → store_char device_echo false check_hangup c [] p ≡ overruns
  unfolding store_char
  store_overruns c p unhandled full =
      if_false _ _ unhandled ∙ if_false _ _ (le→ltb p.tty.index com_io_tty_buf_sz (omega arith))

  canon_key-Full :
      (c : ℕ) (p : Progress W)
      → IsCanonical p.tty.termios
      → p.ret ≡ success
      → p.handled ≡ false
      → p.tty.index ≡ com_io_tty_buf_sz
      → Full (canon_mode device_echo false check_hangup c [] p) (canon_key p.tty.termios c)
  canon_key-Full c p canonical fine unhandled full =
      elim (Bool-cases (cc_is p.tty.termios.veof c)) [
        | inl hit ↦ subst FullHere (sym (if_true _ _ hit)) (λ needs. absurd needs)
        | inr no_eof ↦
            subst FullHere (sym (if_false _ _ no_eof))
              (elim (Bool-cases (c == newline || c == carriage_return)) [
                | inl hit ↦ subst FullHere (sym (if_true _ _ hit)) (λ needs.
                    canon_plain device_echo accepts check_hangup c true p no_eof hit
                      (ground (arith, canonical.distinct)) (ground (arith, canonical.distinct))
                    ∙ store_overruns c (record p { line_done = true }) unhandled full)
                | inr no_nl ↦
                    subst FullHere (sym (if_false _ _ no_nl))
                      (elim (Bool-cases (cc_is p.tty.termios.verase c)) [
                        | inl hit ↦ subst FullHere (sym (if_true _ _ hit)) (λ needs. absurd needs)
                        | inr no_erase ↦
                            subst FullHere (sym (if_false _ _ no_erase))
                              (elim (Bool-cases (cc_is p.tty.termios.vkill c)) [
                                | inl hit ↦ subst FullHere (sym (if_true _ _ hit)) (λ needs.
                                    canon_kill_full device_echo accepts check_hangup c p no_eof
                                      no_nl no_erase hit fine full)
                                | inr no_kill ↦
                                    subst FullHere (sym (if_false _ _ no_kill)) (λ needs.
                                      canon_plain device_echo accepts check_hangup c false p no_eof
                                        no_nl no_erase no_kill
                                      ∙ store_overruns c p unhandled full)
                              ])
                      ])
              ])
      ]
    where
      FullHere : Key → Type 0
      FullHere = Full (canon_mode device_echo false check_hangup c [] p)

  input_key-Full :
      (c : ℕ) (tty : Backend W) (w : W)
      → IsCanonical tty.termios
      → tty.index ≡ com_io_tty_buf_sz
      → Full
          (input_rest device_echo accepts check_hangup c tty (started (with_device w tty)))
          (input_key tty.termios c)
  input_key-Full c tty w canonical full =
      elim (Bool-cases (c == carriage_return && tty.termios.igncr)) [
        | inl skip ↦ subst (Full _) (sym (if_true _ _ skip)) (λ needs. absurd needs)
        | inr go_on ↦ subst (Full _) (sym (if_false _ _ go_on)) (
            subst (λ fed. Full fed (canon_key tty.termios (translate tty.termios c)))
              (sym (if_false _ _ go_on ∙ if_true _ _ canonical.canonical))
              (canon_key-Full (translate tty.termios c) (started (with_device w tty)) canonical refl
                refl full))
      ]

  pub key_of-Full :
      (c : ℕ) (tty : Backend W)
      → IsCanonical tty.termios
      → tty.index ≡ com_io_tty_buf_sz
      → Full
          (com_io_tty_process_char device_echo false check_hangup c [] tty)
          (key_of tty.termios c)
  unfolding com_io_tty_process_char
  key_of-Full c tty canonical full =
      let (w, e) = signal_chars_lem device_echo accepts false c (started tty) refl in
      let raised : Option ℕ → Progress W = λ o. record (started (with_device w tty)) {
        handled = is_some o || false;
        sig = or_else o none;
      } in
      elim (Bool-cases tty.termios.isig) [
        | inr off ↦ by_key _ tty.device (if_false _ _ off) (ap (input_rest') (e ∙ if_false _ _ off))
        | inl on ↦ elim (Option-cases (signal_of tty.termios c)) [
          | inl no_signal ↦
              by_key _ w (if_true _ _ on ∙ ap of_option no_signal)
                (ap input_rest' (e ∙ if_true _ _ on ∙ ap raised no_signal))
          | inr (sig, is_signal) ↦
              subst (Full _) (sym (if_true _ _ on ∙ ap of_option is_signal)) (λ needs. absurd needs)
        ]
      ]
    where
      of_option : Option ℕ → Key
      of_option o = elim o [ none ↦ input_key tty.termios c | some sig ↦ signal sig ]

      input_rest' : Progress W → Fed W
      input_rest' = input_rest device_echo accepts check_hangup c tty

      by_key :
          (fed : Fed W) (w : W)
          → key_of tty.termios c ≡ input_key tty.termios c
          → fed ≡ input_rest' (started (with_device w tty))
          → Full fed (key_of tty.termios c)
      by_key fed w same e = subst (Full fed) (sym same) (
          subst (λ fed. Full fed (input_key tty.termios c)) (sym e)
            (input_key-Full c tty w canonical full))

  -- In canonical mode, without waiting, on a device that accepts its echo and with a ring of more
  -- than one byte: ordinary characters that fill the line buffer to its last byte are taken, and
  -- the next one, ordinary or the end of the line, is stored behind the buffer.
  pub process_chars-overruns :
      (cs : List ℕ) (c d : ℕ) (tty : Backend W)
      → IsCanonical tty.termios
      → 1 < tty.slave_rb.buffer_size
      → AllOrdinary tty.termios cs
      → tty.index + length cs ≡ com_io_tty_buf_sz
      → (key_of tty.termios c ≡ ordinary d) ⊎ (key_of tty.termios c ≡ line_break d)
      → com_io_tty_process_chars device_echo false check_hangup asleep_never (cs ++ (c ∷ [])) tty
        ≡ stuck (length cs) overruns
  unfolding com_io_tty_process_chars process_chars_loop next_char
  process_chars-overruns cs c d tty canonical size all fill stores =
      let (tty1, e, t) =
        process_chars_loop-typing device_echo accepts check_hangup cs (c ∷ []) 0 tty canonical size
          (AllOrdinary-AllTyping tty.termios cs all) (omega arith) in
      let full : tty1.index ≡ com_io_tty_buf_sz = omega (
        arith,
        ap length t.line_lem,
        length-span tty1.buffer 0 tty1.index,
        length-span tty.buffer 0 tty.index,
        length-type_all tty.termios cs (span tty.buffer 0 tty.index) all,
      ) in
      let lost = key_of-Full c tty1 (subst IsCanonical (sym t.termios_lem) canonical) full in
      e
      ∙ ap (next_char _ (0 + length cs)) (elim stores [
        | inl is_ordinary ↦
            subst (Full _) (ap (λ t. key_of t c) t.termios_lem ∙ is_ordinary) lost tt
        | inr is_break ↦ subst (Full _) (ap (λ t. key_of t c) t.termios_lem ∙ is_break) lost tt
      ])
      ∙ ap (λ (n : ℕ). stuck n overruns) (omega arith)
