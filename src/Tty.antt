-- ===== src/Tty.antt =====
-- src/com/io/tty.c and include/kernel/com/io/tty.h: the line discipline that text ttys and
-- pseudo-terminals share, from the characters that come in to the ring that the process reads. The
-- code takes no lock of its own here, so one call runs at a time.
pub mod Echo
pub mod Process
pub mod Steps
pub mod Edit
pub mod Line
pub mod Canon
pub mod Room
pub mod Feed
pub mod Refine
pub mod Session
pub mod Clean
pub mod Overrun
pub mod Faults
pub mod Keyboard
mod Tests
use salern_os_kernel.Prelude.{
  ℕ, zero, suc, Bool, true, false, ◌&&◌, ◌||◌, List, [], ◌∷◌, Option, none, some, ltb, ◌==◌,
  if◌then◌else◌, length, ◌++◌,
}
use salern_os_kernel.Prelude.Word.{add64}
use salern_os_kernel.Errno.{Errno, success, is_success}
use salern_os_kernel.Mem.{Memory}
use salern_os_kernel.RingBuffer.{Ring}

-- The flags of `struct termios` that the code tests, and its control characters.
pub record Termios : Type 0 where
  pub isig : Bool
  pub icanon : Bool
  pub echo : Bool
  pub echoe : Bool
  pub echoke : Bool
  pub igncr : Bool
  pub icrnl : Bool
  pub inlcr : Bool
  pub opost : Bool
  pub onlcr : Bool
  pub vintr : ℕ
  pub vquit : ℕ
  pub vsusp : ℕ
  pub veof : ℕ
  pub verase : ℕ
  pub vkill : ℕ

-- `com_text_tty_backend_t`, with what `passthrough` points to as `device` and the signals that were
-- sent to process groups, newest first. `canon.buffer` and `canon.index` stand here directly.
pub record Backend (W : Type 0) : Type 0 where
  pub termios : Termios
  pub fg_pgid : ℕ
  pub slave_rb : Ring
  pub buffer : Memory
  pub index : ℕ
  pub device : W
  pub signals : List (ℕ × ℕ)

-- `COM_IO_TTY_BUF_SZ`
abbrev pub com_io_tty_buf_sz : ℕ
com_io_tty_buf_sz = 1024

abbrev pub newline : ℕ
newline = 10

abbrev pub carriage_return : ℕ
carriage_return = 13

-- `c_cc[..] == c`: a control character is unsigned, a `char` is signed, so that a byte from 128 on
-- equals none.
abbrev pub cc_is : ℕ → ℕ → Bool
cc_is cc c = ltb c 128 && cc == c

-- What the function `echo` of a device returns, and writes through `bytes_written`.
pub record EchoReply (W : Type 0) : Type 0 where
  pub ret : Errno
  pub bytes_written : ℕ
  pub device : W

-- `kmemchr(buf, '\n', buflen)`: what stands before the first newline, and what behind it.
unfoldable pub before_newline : List ℕ → Option (List ℕ × List ℕ)
before_newline [] = none
before_newline (c ∷ cs) =
    let rest = before_newline cs in
    if c == newline
    then some ([], cs)
    else elim rest [ none ↦ none | some (before, after) ↦ some (c ∷ before, after) ]

module _ {W : Type 0} (device_echo : List ℕ → (blocking : Bool) → W → EchoReply W) where
  -- A round of the loop for a piece that ends in a newline: the piece, then CR and LF, then `again`.
  unfoldable pub echo_piece :
      (again : ℕ → List ℕ → W → EchoReply W) (blocking : Bool) (count : ℕ) (before after : List ℕ)
      → W
      → EchoReply W
  echo_piece again blocking count before after w =
      let piece = device_echo before blocking w in
      let count' = add64 count (add64 piece.bytes_written 1) in
      let ending = device_echo (carriage_return ∷ newline ∷ []) blocking piece.device in
      let rest = again count' after ending.device in
      if is_success piece.ret
      then (if is_success ending.ret
          then rest
          else record { ret = ending.ret; bytes_written = count'; device = ending.device })
      else record { ret = piece.ret; bytes_written = count'; device = piece.device }

  -- A round of the loop with what `kmemchr` found; without a newline, the jump to `no_newline`.
  unfoldable pub echo_round :
      (again : ℕ → List ℕ → W → EchoReply W) (blocking : Bool) (count : ℕ) (buf : List ℕ)
      → Option (List ℕ × List ℕ)
      → W
      → EchoReply W
  unfolding echo_piece
  echo_round again blocking count buf none w = device_echo buf blocking w
  echo_round again blocking count buf (some (before, after)) w =
      echo_piece again blocking count before after w

  -- The loop, with fuel for one round for each byte.
  unfoldable pub echo_loop : ℕ → (blocking : Bool) (count : ℕ) → List ℕ → W → EchoReply W
  unfolding before_newline echo_round
  echo_loop fuel blocking count [] w = record { ret = success; bytes_written = count; device = w }
  echo_loop zero blocking count (c ∷ cs) w = record {
    ret = success;
    bytes_written = count;
    device = w;
  }
  echo_loop (suc fuel) blocking count (c ∷ cs) w =
      echo_round (echo_loop fuel blocking) blocking count (c ∷ cs) (before_newline (c ∷ cs)) w

  unfoldable pub com_io_tty_text_backend_echo :
      Termios → (buf : List ℕ) (blocking : Bool) → W → EchoReply W
  unfolding echo_loop
  com_io_tty_text_backend_echo t buf blocking w =
      if t.opost || t.onlcr
      then echo_loop (length buf) blocking 0 buf w
      else device_echo buf blocking w

-- `text_tty_echo`: all that the terminal was given, oldest first, is the device.
unfoldable pub text_tty_echo : List ℕ → (blocking : Bool) → List ℕ → EchoReply (List ℕ)
text_tty_echo buf blocking screen = record {
  ret = success;
  bytes_written = length buf;
  device = screen ++ buf;
}
