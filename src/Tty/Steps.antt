-- ===== src/Tty/Steps.antt =====
-- The blocks of `com_io_tty_process_char` on a device that accepts all that is echoed: what each does
-- to the line, the echo aside.
use salern_os_kernel.Prelude.{
  ℕ, zero, suc, ◌-◌, ◌≡◌, ap, ap₂, refl, Bool, true, false, ◌||◌, List, [], ◌∷◌, Option, none, some,
  ltb, ◌==◌, if◌then◌else◌, length, inl, inr, Bool-cases, arith,
}
use salern_os_kernel.Errno.{success}
use salern_os_kernel.Mem.{Memory}
use salern_os_kernel.Tty.{
  Termios, EchoReply, newline, carriage_return, cc_is, before_newline, echo_piece, echo_round,
  echo_loop, com_io_tty_text_backend_echo,
}
use salern_os_kernel.Tty.Process.{
  Progress, sigint, sigquit, sigtstp, rub_out, echo_to, signal_chars, erase_char, kill_loop,
}

-- Where the loop of kill stops: at 0, or where a newline is stored.
abbrev pub stop_index : Memory → ℕ → ℕ
stop_index buffer zero = zero
stop_index buffer (suc i) = if buffer (suc i) == newline then suc i else stop_index buffer i

-- The signal of a control character.
abbrev pub signal_of : Termios → ℕ → Option ℕ
signal_of t c =
    if cc_is t.vsusp c
    then some sigtstp
    else if cc_is t.vquit c
    then some sigquit
    else if cc_is t.vintr c
    then some sigint
    else none

abbrev pub is_some : {A : Type 0} → Option A → Bool
is_some none = false
is_some (some a) = true

abbrev pub or_else : {A : Type 0} → Option A → Option A → Option A
or_else none b = b
or_else (some a) b = some a

module _ {W : Type 0} (device_echo : List ℕ → (blocking : Bool) → W → EchoReply W) where
  -- The device takes all that is written to it.
  abbrev pub Accepts : Type 0
  Accepts = (buf : List ℕ) (blocking : Bool) (w : W) → (device_echo buf blocking w).ret ≡ success

  module _ (accepts : Accepts) (blocking : Bool) where
    echo_round-success :
        (again : ℕ → List ℕ → W → EchoReply W) (count : ℕ) (buf : List ℕ)
        (o : Option (List ℕ × List ℕ)) (w : W)
        → ((count : ℕ) (buf : List ℕ) (w : W) → (again count buf w).ret ≡ success)
        → (echo_round device_echo again blocking count buf o w).ret ≡ success
    unfolding echo_round echo_piece
    echo_round-success again count buf none w ih = accepts buf blocking w
    echo_round-success again count buf (some (before, after)) w ih =
        rw (accepts before blocking w, accepts (carriage_return ∷ newline ∷ []) blocking)
          (ih _ after _)

    echo_loop-success :
        (fuel count : ℕ) (buf : List ℕ) (w : W)
        → (echo_loop device_echo fuel blocking count buf w).ret ≡ success
    unfolding echo_loop
    echo_loop-success fuel count [] w = refl
    echo_loop-success zero count (c ∷ cs) w = refl
    echo_loop-success (suc fuel) count (c ∷ cs) w =
        echo_round-success (echo_loop device_echo fuel blocking) count (c ∷ cs)
          (before_newline (c ∷ cs)) w (echo_loop-success fuel)

    echo-success :
        (t : Termios) (buf : List ℕ) (w : W)
        → (com_io_tty_text_backend_echo device_echo t buf blocking w).ret ≡ success
    unfolding com_io_tty_text_backend_echo
    echo-success t buf w = elim (Bool-cases (t.opost || t.onlcr)) [
      | inl on ↦ rw on (echo_loop-success (length buf) 0 buf w)
      | inr off ↦ rw off (accepts buf blocking w)
    ]

    -- The echo returns success, and changes the device alone.
    pub echo_to_lem :
        (b : Bool) (buf : List ℕ) (p : Progress W)
        → p.ret ≡ success
        → (w : W) × ((if b then echo_to device_echo blocking buf p else p)
            ≡ record p { ret = success; tty = record p.tty { device = w } })
    unfolding echo_to
    echo_to_lem true buf p fine = (
      (com_io_tty_text_backend_echo device_echo p.tty.termios buf blocking p.tty.device).device,
      ap
          (λ r. record p {
            ret = r;
            tty = record p.tty {
              device =
                  (com_io_tty_text_backend_echo device_echo p.tty.termios buf blocking
                    p.tty.device).device;
            };
          })
          (echo-success p.tty.termios buf p.tty.device),
    )
    echo_to_lem false buf p fine = (p.tty.device, ap (λ r. record p { ret = r }) fine)

    -- Erase drops the last character of the line, if there is one.
    pub erase_char_lem :
        (c : ℕ) (p : Progress W)
        → p.ret ≡ success
        → (w : W) × (erase_char device_echo blocking c p ≡ (
            if cc_is p.tty.termios.verase c
            then record p {
              ret = success;
              handled = true;
              tty = record p.tty { index = p.tty.index - 1; device = w };
            }
            else p))
    unfolding erase_char
    erase_char_lem c p fine = elim (Bool-cases (cc_is p.tty.termios.verase c)) [
      | inr other ↦ rw other (p.tty.device, refl)
      | inl hit ↦ rw hit (elim (Bool-cases (ltb 0 p.tty.index)) [
        | inr empty ↦ rw empty (
          p.tty.device,
          ap₂ (λ r (n : ℕ). record p { ret = r; handled = true; tty = record p.tty { index = n } })
              fine (ground arith),
        )
        | inl some_char ↦
            let (w, e) = echo_to_lem p.tty.termios.echoe rub_out p fine in
            rw (some_char, e) (w, refl)
      ])
    ]

    -- Kill takes the line back to where the loop stops.
    pub kill_loop_lem :
        (index : ℕ) (p : Progress W)
        → p.tty.index ≡ index
        → p.ret ≡ success
        → (w : W) × (kill_loop device_echo blocking index p ≡ record p {
          ret = success;
          handled = true;
          tty = record p.tty { index = stop_index p.tty.buffer index; device = w };
        })
    unfolding kill_loop
    kill_loop_lem zero p here fine = (
      p.tty.device,
      ap₂ (λ r (n : ℕ). record p { ret = r; handled = true; tty = record p.tty { index = n } }) fine
          here,
    )
    kill_loop_lem (suc i) p here fine = elim (Bool-cases (p.tty.buffer (suc i) == newline)) [
      | inl stored ↦ rw stored (
        p.tty.device,
        ap₂ (λ r (n : ℕ). record p { ret = r; handled = true; tty = record p.tty { index = n } })
            fine here,
      )
      | inr other ↦
          let back = record p { tty = record p.tty { index = i } } in
          let (w, e) = echo_to_lem p.tty.termios.echoke rub_out back fine in
          rw (other, e)
            (kill_loop_lem i (record back { ret = success; tty = record back.tty { device = w } })
              refl refl)
    ]

    signal_echo_lem :
        (b : Bool) (buf : List ℕ) (signum : ℕ) (p : Progress W)
        → p.ret ≡ success
        → (w : W) × ((if b
              then record (echo_to device_echo blocking buf p) { sig = some signum; handled = true }
              else p)
            ≡ record p {
              ret = success;
              handled = b || p.handled;
              sig = if b then some signum else p.sig;
              tty = record p.tty { device = w };
            })
    signal_echo_lem true buf signum p fine =
        let (w, e) = echo_to_lem true buf p fine in
        (w, ap {A = Progress W} (λ q. record q { sig = some signum; handled = true }) e)
    signal_echo_lem false buf signum p fine = (p.tty.device, ap (λ r. record p { ret = r }) fine)

    -- The block under `ISIG`: the signal to send, and that the character is handled.
    pub signal_chars_lem :
        (c : ℕ) (p : Progress W)
        → p.ret ≡ success
        → (w : W) × (signal_chars device_echo blocking c p ≡ (
            if p.tty.termios.isig
            then record p {
              ret = success;
              handled = is_some (signal_of p.tty.termios c) || p.handled;
              sig = or_else (signal_of p.tty.termios c) p.sig;
              tty = record p.tty { device = w };
            }
            else p))
    unfolding signal_chars
    signal_chars_lem c p fine =
        let (w, e) = signal_echo_lem (cc_is p.tty.termios.vintr c) (94 ∷ 67 ∷ []) sigint p fine in
        let p' = record p {
          ret = success;
          handled = cc_is p.tty.termios.vintr c || p.handled;
          sig = if cc_is p.tty.termios.vintr c then some sigint else p.sig;
          tty = record p.tty { device = w };
        } in
        let (w', e') =
          signal_echo_lem (cc_is p.tty.termios.vquit c) (94 ∷ 92 ∷ 92 ∷ []) sigquit p' refl in
        rw (e, e')
          (
            w',
            last p.tty.termios.isig (cc_is p.tty.termios.vsusp c) (cc_is p.tty.termios.vquit c)
                (cc_is p.tty.termios.vintr c) w',
          )
      where
        last :
            (isig susp quit intr : Bool) (w' : W)
            → (if isig
                then (if susp
                    then record p {
                      ret = success;
                      handled = true;
                      sig = some sigtstp;
                      tty = record p.tty { device = w' };
                    }
                    else record p {
                      ret = success;
                      handled = quit || (intr || p.handled);
                      sig = if quit then some sigquit else if intr then some sigint else p.sig;
                      tty = record p.tty { device = w' };
                    })
                else p)
              ≡ (if isig
                  then record p {
                    ret = success;
                    handled =
                        is_some (
                          if susp
                          then some sigtstp
                          else if quit
                          then some sigquit
                          else if intr
                          then some sigint
                          else none)
                        || p.handled;
                    sig =
                        or_else
                          (if susp
                            then some sigtstp
                            else if quit
                            then some sigquit
                            else if intr
                            then some sigint
                            else none)
                          p.sig;
                    tty = record p.tty { device = w' };
                  }
                  else p)
        last false susp quit intr w' = refl
        last true true quit intr w' = refl
        last true false true intr w' = refl
        last true false false true w' = refl
        last true false false false w' = refl
