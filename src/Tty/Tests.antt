-- ===== src/Tty/Tests.antt =====
-- A tty with the usual control characters and a ring of eight bytes.
use salern_os_kernel.Prelude.{
  ◌<◌, ◌^◌, ℕ, zero, suc, ◌≡◌, ◌⊎◌, ◌++◌, refl, Bool, true, false, List, [], ◌∷◌, length, replicate,
  length-replicate, arith, inr, Option, none, some, if◌then◌else◌, ◌==◌,
}
use salern_os_kernel.Errno.{Errno, success, eagain}
use salern_os_kernel.Mem.{kmemcpy_across}
use salern_os_kernel.RingBuffer.{
  Ring, Op, Hangup, no_hangup, avail_read, avail_write, write_nolock, write_nonblocking, put_bytes,
  announce,
}
use salern_os_kernel.RingBuffer.Queue.{IsValid, span, contents}
use salern_os_kernel.Tty.{
  Termios, Backend, EchoReply, com_io_tty_buf_sz, com_io_tty_text_backend_echo, text_tty_echo,
  echo_loop, echo_round, echo_piece, before_newline,
}
use salern_os_kernel.Tty.Process.{
  Fed, returns, sleeps, overruns, panics, exhausted, echo_to, signal_chars, raw_mode, char_written,
  sighandler, canon_mode, end_of_file, line_end, erase_char, store_char, flush_line, batch, stuck,
  com_io_tty_process_char, com_io_tty_process_chars,
}
use salern_os_kernel.Tty.Echo.{com_io_tty_text_backend_echo_lem}
use salern_os_kernel.Tty.Refine.{process_char-edit}
use salern_os_kernel.Tty.Session.{asleep_never, process_chars-line}
use salern_os_kernel.Tty.Clean.{IsClean, process_char-IsClean, process_char-kill}
use salern_os_kernel.Prelude.Single.{bit}
use salern_os_kernel.Tty.Keyboard.{
  Keycode, key_leftctrl, key_rightctrl, key_backspace, Packet, text_tty_kbd_convert, key_pressed,
  text_tty_kbd_in, modifiers_after, modifiers_after_lem,
}
use salern_os_kernel.Tty.Faults.{process_char-eof}
use salern_os_kernel.Tty.Overrun.{AllOrdinary, process_chars-overruns}
use salern_os_kernel.Tty.Steps.{Accepts, stop_index}
use salern_os_kernel.Tty.Edit.{IsCanonical, key_of, view, edit, ordinary}
use salern_os_kernel.Tty.Room.{NeedsRoom}

abbrev usual : Termios
usual = record {
  isig = true;
  icanon = true;
  echo = true;
  echoe = true;
  echoke = true;
  igncr = false;
  icrnl = true;
  inlcr = false;
  opost = true;
  onlcr = true;
  vintr = 3;
  vquit = 28;
  vsusp = 26;
  veof = 4;
  verase = 127;
  vkill = 21;
}

abbrev ring : Ring
ring = record {
  buffer = λ i. 0;
  buffer_size = 8;
  write_index = 0;
  read_index = 0;
  is_eof = false;
  events = [];
}

-- An empty line, with what an earlier line "ab" has left in its buffer.
abbrev tty : Backend (List ℕ)
tty = record {
  termios = usual;
  fg_pgid = 7;
  slave_rb = ring;
  buffer = λ i. if i == 0 then 97 else if i == 1 then 98 else if i == 2 then 10 else 0;
  index = 0;
  device = [];
  signals = [];
}

abbrev no_hangups : Ring → Op → ℕ → Hangup
no_hangups r op n = no_hangup

usual-IsCanonical : IsCanonical usual
usual-IsCanonical = record { canonical = refl; distinct = ground arith }

ring-IsValid : IsValid 3 ring
unfolding avail_read
ring-IsValid = record {
  small = omega arith;
  capacity = refl;
  write_word = omega arith;
  read_word = omega arith;
  fits = omega arith;
}

accepts : Accepts text_tty_echo
unfolding text_tty_echo
accepts buf blocking screen = refl

-- "xyz" with the y erased, and return.
abbrev keys : List ℕ
keys = 120 ∷ 121 ∷ 127 ∷ 122 ∷ []

process_chars-line_example :
    (tty' : Backend (List ℕ)) × (com_io_tty_process_chars text_tty_echo false no_hangups
        asleep_never
        (keys ++ (13 ∷ []))
        tty
      ≡ batch success 5 tty')
    × (contents tty'.slave_rb ≡ 120 ∷ 122 ∷ 10 ∷ [])
    × (tty'.index ≡ 0)
    × IsValid 3 tty'.slave_rb
unfolding avail_read avail_write
process_chars-line_example =
    process_chars-line text_tty_echo accepts no_hangups keys 13 10 tty usual-IsCanonical
      ring-IsValid (omega arith) (λ r. refl) (tt, (tt, (tt, (tt, tt)))) refl (omega arith)
      (omega arith)

-- An x.
process_char-edit_example :
    (ret : Errno) × (tty' : Backend (List ℕ)) × (com_io_tty_process_char text_tty_echo false
        no_hangups 120 [] tty
      ≡ returns ret tty')
    × (view tty' ≡ edit (avail_write ring) 7 (stop_index tty.buffer 0) (ordinary 120) (view tty))
    × IsValid 3 tty'.slave_rb
    × (tty'.termios ≡ usual)
    × (tty'.fg_pgid ≡ 7)
process_char-edit_example =
    process_char-edit text_tty_echo accepts no_hangups (λ r. refl) 120 tty usual-IsCanonical
      ring-IsValid (omega arith) (omega arith)

process_char-IsClean_example :
    ((ret : Errno) × (tty' : Backend (List ℕ)) × (com_io_tty_process_char text_tty_echo false
          no_hangups 120 [] tty
        ≡ returns ret tty')
      × IsClean tty')
    ⊎ ((com_io_tty_process_char text_tty_echo false no_hangups 120 [] tty ≡ overruns)
        × NeedsRoom (key_of usual 120)
        × (tty.index ≡ com_io_tty_buf_sz))
process_char-IsClean_example =
    process_char-IsClean text_tty_echo accepts no_hangups 120 tty usual-IsCanonical (omega arith)
      (record { no_newline = λ i lt. absurd (omega arith); within = omega arith })

-- The line "ab" again, before its newline is overwritten: kill changes nothing.
abbrev ab : Backend (List ℕ)
ab = record tty { index = 2 }

process_char-kill_example :
    (tty' : Backend (List ℕ)) × (com_io_tty_process_char text_tty_echo false no_hangups 21 [] ab
      ≡ returns success tty')
    × (span tty'.buffer 0 tty'.index ≡ 97 ∷ 98 ∷ [])
process_char-kill_example =
    process_char-kill text_tty_echo accepts no_hangups 21 ab usual-IsCanonical (omega arith)
      (omega arith) (record { no_newline = λ i lt. ground arith; within = omega arith }) refl

process_char-eof_example :
    (tty' : Backend (List ℕ)) × (com_io_tty_process_char text_tty_echo false no_hangups 4 [] tty
      ≡ returns eagain tty')
    × (tty'.slave_rb.is_eof ≡ true)
    × (tty'.slave_rb.events ≡ [])
process_char-eof_example =
    process_char-eof text_tty_echo accepts no_hangups 4 tty usual-IsCanonical (omega arith)
      (λ r. refl) refl refl

many-AllOrdinary : (n : ℕ) → AllOrdinary usual (replicate n 120)
many-AllOrdinary zero = tt
many-AllOrdinary (suc n) = (refl, many-AllOrdinary n)

abbrev many : List ℕ
many = replicate com_io_tty_buf_sz 120

process_chars-overruns_example :
    com_io_tty_process_chars text_tty_echo false no_hangups asleep_never (many ++ (10 ∷ [])) tty
    ≡ stuck (length many) overruns
process_chars-overruns_example =
    process_chars-overruns text_tty_echo accepts no_hangups many 10 10 tty usual-IsCanonical
      (omega arith) (many-AllOrdinary com_io_tty_buf_sz)
      (omega (arith, length-replicate {A = ℕ} com_io_tty_buf_sz 120)) (inr refl)

com_io_tty_text_backend_echo_lem_example :
    let r = com_io_tty_text_backend_echo text_tty_echo usual (97 ∷ 10 ∷ 98 ∷ []) true (62 ∷ []) in
    (r.device ≡ 62 ∷ 97 ∷ 13 ∷ 10 ∷ 98 ∷ []) × (r.ret ≡ success)
com_io_tty_text_backend_echo_lem_example =
    com_io_tty_text_backend_echo_lem usual (97 ∷ 10 ∷ 98 ∷ []) true (62 ∷ [])

-- What a call leaves: the value returned, the line, what waits in the ring, and the signals.
abbrev outcome : {W : Type 0} → Fed W → Option (Errno × (List ℕ × (List ℕ × List (ℕ × ℕ))))
outcome (returns ret after) =
    some (ret, (span after.buffer 0 after.index, (contents after.slave_rb, after.signals)))
outcome (sleeps after) = none
outcome overruns = none
outcome panics = none
outcome exhausted = none

-- Raw mode with `ISIG`: the interrupt character is a signal, and is delivered as well.
abbrev raw : Backend (List ℕ)
raw = record tty { termios = record usual { icanon = false } }

raw_interrupt :
    outcome (com_io_tty_process_char text_tty_echo false no_hangups 3 [] raw)
    ≡ some (success, ([], (3 ∷ [], (7, 2) ∷ [])))
unfolding com_io_tty_process_char signal_chars echo_to com_io_tty_text_backend_echo echo_loop
    echo_round echo_piece before_newline text_tty_echo raw_mode char_written sighandler write_nolock
    write_nonblocking put_bytes announce avail_write avail_read kmemcpy_across
raw_interrupt = refl

-- The erase character on a device that refuses its echo is stored in the line.
abbrev refusing : List ℕ → Bool → List ℕ → EchoReply (List ℕ)
refusing buf blocking screen = record { ret = eagain; bytes_written = 0; device = screen }

erase_refused :
    outcome (com_io_tty_process_char refusing false no_hangups 127 [] ab)
    ≡ some (eagain, (97 ∷ 98 ∷ 127 ∷ [], ([], [])))
unfolding com_io_tty_process_char signal_chars echo_to com_io_tty_text_backend_echo echo_loop
    echo_round echo_piece before_newline canon_mode end_of_file line_end erase_char store_char
    flush_line sighandler avail_read
erase_refused = refl

-- The count that is reported is that of the last piece alone.
echo_count :
    (com_io_tty_text_backend_echo text_tty_echo usual (97 ∷ 10 ∷ 98 ∷ []) true []).bytes_written ≡ 1
unfolding com_io_tty_text_backend_echo echo_loop echo_round echo_piece before_newline text_tty_echo
echo_count = refl

abbrev press : Keycode → ℕ → Packet
press key c = record { keycode = key; pressed = true; c = c }

abbrev release : Keycode → Packet
release key = record { keycode = key; pressed = false; c = 0 }

-- Both controls are pressed and the right one is released.
abbrev controls : List Packet
controls = press key_leftctrl 0 ∷ press key_rightctrl 0 ∷ release key_rightctrl ∷ []

modifiers_after_lem_example :
    (bit 0 (modifiers_after 0 controls) ≡ 1) × (modifiers_after 0 controls < 2 ^ 7)
modifiers_after_lem_example = modifiers_after_lem 0 0 controls (omega arith) (omega arith)

-- The interrupt character.
control_c : text_tty_kbd_convert 99 1 ≡ 3 ∷ []
unfolding text_tty_kbd_convert
control_c = refl

-- Backspace is passed on twice: as the sequence of the delete key, and as its character.
backspace :
    (text_tty_kbd_in 0 (press key_backspace 8)).1 ≡ (27 ∷ 91 ∷ 51 ∷ 126 ∷ []) ∷ (127 ∷ []) ∷ []
unfolding text_tty_kbd_in key_pressed text_tty_kbd_convert
backspace = refl
