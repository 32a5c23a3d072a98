-- ===== src/Tty/Feed.antt =====
-- One character in canonical mode, without waiting: the state that its key leaves.
use salern_os_kernel.Prelude.{
  ℕ, ◌<◌, ◌≡◌, ◌∙◌, ap, ap₂, sym, subst, refl, Bool, true, false, not, ◌&&◌, ◌||◌, List, [], Option,
  none, some, ◌==◌, if◌then◌else◌, if_true, if_false, inl, inr, Bool-cases, Option-cases, arith,
}
use salern_os_kernel.Errno.{success, is_success}
use salern_os_kernel.RingBuffer.{Ring, Op, Hangup}
use salern_os_kernel.Tty.{Backend, EchoReply, com_io_tty_buf_sz, newline, carriage_return, cc_is}
use salern_os_kernel.Tty.Process.{
  Progress, Fed, returns, started, translate, store_char, canon_mode, raw_mode,
  com_io_tty_process_char,
}
use salern_os_kernel.Tty.Steps.{signal_of, Accepts, signal_chars_lem, is_some, or_else}
use salern_os_kernel.Tty.Edit.{
  Key, ordinary, line_break, erase, kill, eof, ignored, signal, canon_key, input_key, key_of,
  IsCanonical,
}
use salern_os_kernel.Tty.Room.{HasRoom}
use salern_os_kernel.Tty.Canon.{
  stored, with_device, after_key, key_ret, Gives, store_ordinary, store_handled, flush_none,
  flush_sent, flush_delivers, canon_plain, canon_erase, canon_kill, canon_eof,
}

module _ {W : Type 0} (device_echo : List ℕ → (blocking : Bool) → W → EchoReply W)
    (accepts : Accepts device_echo) (check_hangup : Ring → Op → ℕ → Hangup) where
  -- Canonical mode for a character that is no signal.
  canon_key_lem :
      (c : ℕ) (p : Progress W)
      → IsCanonical p.tty.termios
      → p.ret ≡ success
      → p.handled ≡ false
      → p.line_done ≡ false
      → p.sig ≡ none
      → HasRoom (canon_key p.tty.termios c) p.tty.index
      → 1 < p.tty.slave_rb.buffer_size
      → Gives device_echo accepts check_hangup
          (canon_mode device_echo false check_hangup c [] p)
          (key_ret check_hangup (canon_key p.tty.termios c) p.tty)
          (after_key check_hangup (canon_key p.tty.termios c) p.tty)
  canon_key_lem c p canonical fine unhandled open_line no_sig fits room =
      elim (Bool-cases (cc_is p.tty.termios.veof c)) [
        | inl hit ↦ rw hit (
            canon_eof device_echo accepts check_hangup c p hit (ground (arith, canonical.distinct))
              (ground (arith, canonical.distinct)) (ground (arith, canonical.distinct)) no_sig room)
        | inr no_eof ↦ rw no_eof (elim (Bool-cases (c == newline || c == carriage_return)) [
          | inl hit ↦
              let q = record p { line_done = true } in
              let lt =
                subst (λ k. HasRoom k p.tty.index) (if_false _ _ no_eof ∙ if_true _ _ hit) fits
                  tt in
              let (w, e) = store_ordinary device_echo accepts check_hangup c q unhandled fine lt in
              rw hit (
                w,
                canon_plain device_echo accepts check_hangup c true p no_eof hit
                      (ground (arith, canonical.distinct)) (ground (arith, canonical.distinct))
                    ∙ e
                    ∙ flush_delivers device_echo accepts check_hangup
                        (record q { ret = success; tty = with_device w (stored c p.tty) }) refl
                        no_sig room,
              )
          | inr no_nl ↦ rw no_nl (elim (Bool-cases (cc_is p.tty.termios.verase c)) [
            | inl hit ↦ rw hit (
                canon_erase device_echo accepts check_hangup c p no_eof no_nl hit
                  (ground (arith, canonical.distinct)) fine open_line no_sig)
            | inr no_erase ↦ rw no_erase (elim (Bool-cases (cc_is p.tty.termios.vkill c)) [
              | inl hit ↦ rw hit (
                  canon_kill device_echo accepts check_hangup c p no_eof no_nl no_erase hit fine
                    open_line no_sig
                    (subst (λ k. HasRoom k p.tty.index)
                      (if_false _ _ no_eof
                        ∙ if_false _ _ no_nl
                        ∙ if_false _ _ no_erase
                        ∙ if_true _ _ hit)
                      fits tt))
              | inr no_kill ↦
                  let lt =
                    subst (λ k. HasRoom k p.tty.index)
                      (if_false _ _ no_eof
                        ∙ if_false _ _ no_nl
                        ∙ if_false _ _ no_erase
                        ∙ if_false _ _ no_kill)
                      fits tt in
                  let (w, e) =
                    store_ordinary device_echo accepts check_hangup c p unhandled fine lt in
                  rw no_kill (
                    w,
                    canon_plain device_echo accepts check_hangup c false p no_eof no_nl no_erase
                          no_kill
                        ∙ e
                        ∙ flush_none device_echo accepts check_hangup
                            (record p { ret = success; tty = with_device w (stored c p.tty) })
                            open_line no_sig,
                  )
            ])
          ])
        ])
      ]

  key_ret-with_device :
      (k : Key) (w : W) (tty : Backend W)
      → key_ret check_hangup k (with_device w tty) ≡ key_ret check_hangup k tty
  key_ret-with_device (ordinary c) w tty = refl
  key_ret-with_device (line_break c) w tty = refl
  key_ret-with_device erase w tty = refl
  key_ret-with_device kill w tty = refl
  key_ret-with_device eof w tty = refl
  key_ret-with_device ignored w tty = refl
  key_ret-with_device (signal sig) w tty = refl

  after_key-with_device :
      (k : Key) (v w : W) (tty : Backend W)
      → with_device v (after_key check_hangup k (with_device w tty))
        ≡ with_device v (after_key check_hangup k tty)
  after_key-with_device (ordinary c) v w tty = refl
  after_key-with_device (line_break c) v w tty = refl
  after_key-with_device erase v w tty = refl
  after_key-with_device kill v w tty = refl
  after_key-with_device eof v w tty = refl
  after_key-with_device ignored v w tty = refl
  after_key-with_device (signal sig) v w tty = refl

  -- What follows the signals.
  abbrev pub input_rest : ℕ → Backend W → Progress W → Fed W
  input_rest c tty p =
      if not (is_success p.ret)
      then store_char device_echo false check_hangup c [] p
      else if c == carriage_return && tty.termios.igncr
      then returns success p.tty
      else if tty.termios.icanon
      then canon_mode device_echo false check_hangup (translate tty.termios c) [] p
      else raw_mode device_echo false check_hangup (translate tty.termios c) p

  -- A character that sends no signal.
  input_key_lem :
      (c : ℕ) (tty : Backend W) (w : W)
      → IsCanonical tty.termios
      → HasRoom (input_key tty.termios c) tty.index
      → 1 < tty.slave_rb.buffer_size
      → Gives device_echo accepts check_hangup
          (input_rest c tty (started (with_device w tty)))
          (key_ret check_hangup (input_key tty.termios c) tty)
          (after_key check_hangup (input_key tty.termios c) tty)
  input_key_lem c tty w canonical fits room =
      elim (Bool-cases (c == carriage_return && tty.termios.igncr)) [
        | inl skip ↦ rw skip (w, refl)
        | inr go_on ↦
            let k = canon_key tty.termios (translate tty.termios c) in
            let (v, e) =
              canon_key_lem (translate tty.termios c) (started (with_device w tty)) canonical refl
                refl refl refl (subst (λ k. HasRoom k tty.index) (if_false _ _ go_on) fits) room in
            rw go_on (
              v,
              if_true _ _ canonical.canonical
                  ∙ e
                  ∙ ap₂ returns (key_ret-with_device k w tty) (after_key-with_device k v w tty),
            )
      ]

  -- A character that sends a signal.
  signal_key_lem :
      (c sig : ℕ) (tty : Backend W) (w : W)
      → IsCanonical tty.termios
      → signal_of tty.termios c ≡ some sig
      → input_rest c tty (record (started (with_device w tty)) { handled = true; sig = some sig })
        ≡ returns success (with_device w (after_key check_hangup (signal sig) tty))
  signal_key_lem c sig tty w canonical e =
      if_false _ _ (and_false tty.termios.igncr no_cr)
      ∙ if_true _ _ canonical.canonical
      ∙ ap (λ c'. canon_mode device_echo false check_hangup c' [] p) same
      ∙ canon_plain device_echo accepts check_hangup c false p (ground (arith, canonical.distinct))
          no_break (ground (arith, canonical.distinct)) (ground (arith, canonical.distinct))
      ∙ store_handled device_echo accepts check_hangup c p refl
      ∙ flush_sent device_echo accepts check_hangup p sig refl refl
    where
      p : Progress W
      p = record (started (with_device w tty)) { handled = true; sig = some sig }

      no_cr : (c == carriage_return) ≡ false
      no_cr = ground (arith, canonical.distinct)

      no_break : (c == newline || c == carriage_return) ≡ false
      no_break = ground (arith, canonical.distinct)

      same : translate tty.termios c ≡ c
      same = ground (arith, no_break)

      and_false : {a : Bool} (b : Bool) → a ≡ false → (a && b) ≡ false
      and_false b e = ap (λ a. a && b) e

  -- In canonical mode, on a device that accepts its echo, with room in the line if the key needs it
  -- and a ring of more than one byte: a character leaves the state that its key says, and returns what
  -- the key says, whatever the device.
  pub process_char_room :
      (c : ℕ) (tty : Backend W)
      → IsCanonical tty.termios
      → HasRoom (key_of tty.termios c) tty.index
      → 1 < tty.slave_rb.buffer_size
      → Gives device_echo accepts check_hangup
          (com_io_tty_process_char device_echo false check_hangup c [] tty)
          (key_ret check_hangup (key_of tty.termios c) tty)
          (after_key check_hangup (key_of tty.termios c) tty)
  unfolding com_io_tty_process_char
  process_char_room c tty canonical fits room =
      let (w, e) = signal_chars_lem device_echo accepts false c (started tty) refl in
      let raised : Option ℕ → Progress W = λ o. record (started (with_device w tty)) {
        handled = is_some o || false;
        sig = or_else o none;
      } in
      elim (Bool-cases tty.termios.isig) [
        | inr off ↦
            let (v, f) =
              input_key_lem c tty tty.device canonical
                (subst (λ k. HasRoom k tty.index) (if_false _ _ off) fits) room in
            by_key _ (if_false _ _ off) (v, ap (input_rest c tty) (e ∙ if_false _ _ off) ∙ f)
        | inl on ↦ elim (Option-cases (signal_of tty.termios c)) [
          | inl no_signal ↦
              let (v, f) =
                input_key_lem c tty w canonical
                  (subst (λ k. HasRoom k tty.index) (if_true _ _ on ∙ ap of_option no_signal) fits)
                  room in
              by_key _ (if_true _ _ on ∙ ap of_option no_signal)
                (v, ap (input_rest c tty) (e ∙ if_true _ _ on ∙ ap raised no_signal) ∙ f)
          | inr (sig, is_signal) ↦ by_key (signal sig) (if_true _ _ on ∙ ap of_option is_signal) (
            w,
            ap (input_rest c tty) (e ∙ if_true _ _ on ∙ ap raised is_signal)
                ∙ signal_key_lem c sig tty w canonical is_signal,
          )
        ]
      ]
    where
      of_option : Option ℕ → Key
      of_option o = elim o [ none ↦ input_key tty.termios c | some sig ↦ signal sig ]

      by_key :
          (k : Key)
          → key_of tty.termios c ≡ k
          → Gives device_echo accepts check_hangup
              (com_io_tty_process_char device_echo false check_hangup c [] tty)
              (key_ret check_hangup k tty)
              (after_key check_hangup k tty)
          → Gives device_echo accepts check_hangup
              (com_io_tty_process_char device_echo false check_hangup c [] tty)
              (key_ret check_hangup (key_of tty.termios c) tty)
              (after_key check_hangup (key_of tty.termios c) tty)
      by_key k same g =
          subst
            (λ k.
              Gives device_echo accepts check_hangup
                (com_io_tty_process_char device_echo false check_hangup c [] tty)
                (key_ret check_hangup k tty) (after_key check_hangup k tty))
            (sym same) g

  -- The same, with room for a character in the line.
  pub process_char_key :
      (c : ℕ) (tty : Backend W)
      → IsCanonical tty.termios
      → tty.index < com_io_tty_buf_sz
      → 1 < tty.slave_rb.buffer_size
      → Gives device_echo accepts check_hangup
          (com_io_tty_process_char device_echo false check_hangup c [] tty)
          (key_ret check_hangup (key_of tty.termios c) tty)
          (after_key check_hangup (key_of tty.termios c) tty)
  process_char_key c tty canonical lt room = process_char_room c tty canonical (λ needs. lt) room
