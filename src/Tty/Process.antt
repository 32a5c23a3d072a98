-- ===== src/Tty/Process.antt =====
-- `com_io_tty_process_char` and `com_io_tty_process_chars`, cut at the labels of the code. What the
-- device does is an argument; it returns, with success or an error, and does not sleep.
use salern_os_kernel.Prelude.{
  ℕ, zero, suc, ◌-◌, Bool, true, false, ◌&&◌, ◌||◌, not, List, [], ◌∷◌, Option, none, some, ltb,
  ◌==◌, if◌then◌else◌,
}
use salern_os_kernel.Errno.{Errno, success, is_success}
use salern_os_kernel.Mem.{write}
use salern_os_kernel.RingBuffer.{
  Ring, Op, Hangup, Wake, Reply, Outcome, done, asleep, panic, out_of_fuel, write_nolock,
}
use salern_os_kernel.Tty.{
  Termios, Backend, EchoReply, com_io_tty_buf_sz, newline, carriage_return, cc_is,
  com_io_tty_text_backend_echo,
}

-- The numbers of signal.h.
abbrev pub sigint : ℕ
sigint = 2

abbrev pub sigquit : ℕ
sigquit = 3

abbrev pub sigtstp : ℕ
sigtstp = 20

-- The local variables of `com_io_tty_process_char`, with the backend; `sig` is `none` for
-- `COM_IPC_SIGNAL_NONE`.
pub record Progress (W : Type 0) : Type 0 where
  pub ret : Errno
  pub handled : Bool
  pub line_done : Bool
  pub sig : Option ℕ
  pub tty : Backend W

-- How a call ends.
pub data Fed (W : Type 0) : Type 0 where
  returns : Errno → Backend W → Fed W
  -- in the wait of a blocking write
  sleeps : Backend W → Fed W
  -- `canon.buffer` is accessed behind its end
  overruns : Fed W
  -- an assertion of the ring buffer fails
  panics : Fed W
  -- the fuel of the ring buffer's loop ran out
  exhausted : Fed W

-- The bytes of "\b \b".
abbrev pub rub_out : List ℕ
rub_out = 8 ∷ 32 ∷ 8 ∷ []

abbrev pub started : {W : Type 0} → Backend W → Progress W
started tty = record { ret = success; handled = false; line_done = false; sig = none; tty = tty }

-- `ICRNL`, then `INLCR`
abbrev pub translate : Termios → ℕ → ℕ
translate t c =
    let c' = if c == carriage_return && t.icrnl then newline else c in
    if c' == newline && t.inlcr then carriage_return else c'

unfoldable pub end_of_file : {W : Type 0} → ℕ → Progress W → Progress W
end_of_file c p =
    if cc_is p.tty.termios.veof c
    then record p {
      handled = true;
      line_done = true;
      tty = record p.tty {
        slave_rb = record p.tty.slave_rb {
          is_eof = if p.tty.index == 0 then true else p.tty.slave_rb.is_eof;
        };
      };
    }
    else p

unfoldable pub line_end : {W : Type 0} → ℕ → Progress W → Progress W
line_end c p = if c == newline || c == carriage_return then record p { line_done = true } else p

-- The label `sighandler`.
unfoldable pub sighandler : {W : Type 0} → Progress W → Fed W
sighandler p = elim p.sig [
  | none ↦ returns p.ret p.tty
  | some sig ↦ returns p.ret (record p.tty { signals = (p.tty.fg_pgid, sig) ∷ p.tty.signals })
]

-- The end of the write of a line, and of that of a character in raw mode.
unfoldable pub line_written : {W : Type 0} → Progress W → Outcome Reply → Fed W
line_written p (done reply) =
    sighandler
      (record p { ret = reply.ret; tty = record p.tty { slave_rb = reply.ring; index = 0 } })
line_written p (asleep r) = sleeps (record p.tty { slave_rb = r })
line_written p panic = panics
line_written p out_of_fuel = exhausted

unfoldable pub char_written : {W : Type 0} → Progress W → Outcome Reply → Fed W
char_written p (done reply) =
    sighandler
      (record p { ret = reply.ret; handled = true; tty = record p.tty { slave_rb = reply.ring } })
char_written p (asleep r) = sleeps (record p.tty { slave_rb = r })
char_written p panic = panics
char_written p out_of_fuel = exhausted

module _ {W : Type 0} (device_echo : List ℕ → (blocking : Bool) → W → EchoReply W)
    (blocking : Bool) where
  unfoldable pub echo_to : List ℕ → Progress W → Progress W
  echo_to buf p =
      let r = com_io_tty_text_backend_echo device_echo p.tty.termios buf blocking p.tty.device in
      record p { ret = r.ret; tty = record p.tty { device = r.device } }

  -- The block under `ISIG`.
  unfoldable pub signal_chars : ℕ → Progress W → Progress W
  signal_chars c p =
      let t = p.tty.termios in
      let p' =
        if cc_is t.vintr c
        then record (echo_to (94 ∷ 67 ∷ []) p) { sig = some sigint; handled = true }
        else p in
      let p'' =
        if cc_is t.vquit c
        then record (echo_to (94 ∷ 92 ∷ 92 ∷ []) p') { sig = some sigquit; handled = true }
        else p' in
      if t.isig
      then (if cc_is t.vsusp c then record p'' { sig = some sigtstp; handled = true } else p'')
      else p

  -- An echo that fails jumps to `end`, before `handled` is set. Until there `ret` is 0.
  unfoldable pub erase_char : ℕ → Progress W → Progress W
  erase_char c p =
      let e = if p.tty.termios.echoe then echo_to rub_out p else p in
      if cc_is p.tty.termios.verase c
      then (if ltb 0 p.tty.index
          then (if is_success e.ret
              then record e { tty = record e.tty { index = e.tty.index - 1 }; handled = true }
              else e)
          else record p { handled = true })
      else p

  -- The loop of kill, by recursion on `canon.index`.
  unfoldable pub kill_loop : (index : ℕ) → Progress W → Progress W
  kill_loop zero p = record p { handled = true }
  kill_loop (suc index) p =
      let back = record p { tty = record p.tty { index = index } } in
      let e = if p.tty.termios.echoke then echo_to rub_out back else back in
      let rest = kill_loop index e in
      if p.tty.buffer (suc index) == newline
      then record p { handled = true }
      else if is_success e.ret
      then rest
      else e

  module _ (check_hangup : Ring → Op → ℕ → Hangup) where
    -- What follows the storing of a character: `if (line_done)`.
    unfoldable pub flush_line : List Wake → Progress W → Fed W
    flush_line ws p =
        if p.line_done
        then line_written p
            (write_nolock check_hangup true p.tty.buffer p.tty.index 1 blocking ws p.tty.slave_rb)
        else sighandler p

    -- The label `end`.
    unfoldable pub store_char : ℕ → List Wake → Progress W → Fed W
    store_char c ws p =
        let stored = record p {
          tty = record p.tty { buffer = write p.tty.buffer p.tty.index c; index = suc p.tty.index };
        } in
        let e = echo_to (c ∷ []) stored in
        if p.handled
        then flush_line ws p
        else if ltb p.tty.index com_io_tty_buf_sz
        then (if p.tty.termios.echo
            then (if is_success e.ret then flush_line ws e else sighandler e)
            else flush_line ws stored)
        else overruns

    unfoldable pub canon_mode : ℕ → List Wake → Progress W → Fed W
    canon_mode c ws p =
        let p' = erase_char c (line_end c (end_of_file c p)) in
        if is_success p'.ret && cc_is p'.tty.termios.vkill c
        then (if ltb p'.tty.index com_io_tty_buf_sz
            then store_char c ws (kill_loop p'.tty.index p')
            else overruns)
        else store_char c ws p'

    unfoldable pub raw_mode : ℕ → Progress W → Fed W
    raw_mode c p =
        char_written p (write_nolock check_hangup true (λ i. c) 1 1 false [] p.tty.slave_rb)

    unfoldable pub com_io_tty_process_char : ℕ → List Wake → Backend W → Fed W
    com_io_tty_process_char c ws tty =
        let p = signal_chars c (started tty) in
        let c' = translate tty.termios c in
        if not (is_success p.ret)
        then store_char c ws p
        else if c == carriage_return && tty.termios.igncr
        then returns success p.tty
        else if tty.termios.icanon
        then canon_mode c' ws p
        else raw_mode c' p

-- How a call for several characters ends: what it returns and the number of them, or how far it
-- came, and how the call for the next one ended.
pub data Batch (W : Type 0) : Type 0 where
  batch : Errno → (bytes_processed : ℕ) → Backend W → Batch W
  stuck : (bytes_processed : ℕ) → Fed W → Batch W

-- A round of the loop, with what the call for its character came to. An error of a later character
-- than the first is forgotten.
unfoldable pub next_char : {W : Type 0} → (go_on : Backend W → Batch W) (i : ℕ) → Fed W → Batch W
next_char go_on i (returns ret tty) =
    let rest = go_on tty in
    if is_success ret then rest else batch (if i == 0 then ret else success) i tty
next_char go_on i (sleeps tty) = stuck i (sleeps tty)
next_char go_on i overruns = stuck i overruns
next_char go_on i panics = stuck i panics
next_char go_on i exhausted = stuck i exhausted

module _ {W : Type 0} (device_echo : List ℕ → (blocking : Bool) → W → EchoReply W) (blocking : Bool)
    (check_hangup : Ring → Op → ℕ → Hangup) (wakes : ℕ → List Wake) where
  -- The loop, from the character `i` on; `wakes i` is what happens while it is waited there.
  unfoldable pub process_chars_loop : (i : ℕ) → List ℕ → Backend W → Batch W
  process_chars_loop i [] tty = batch success i tty
  process_chars_loop i (c ∷ cs) tty =
      next_char (process_chars_loop (suc i) cs) i
        (com_io_tty_process_char device_echo blocking check_hangup c (wakes i) tty)

  unfoldable pub com_io_tty_process_chars : List ℕ → Backend W → Batch W
  com_io_tty_process_chars buf tty = process_chars_loop 0 buf tty
