-- ===== src/Tty/Clean.antt =====
-- The invariant of the line buffer, and what kill does because of the bytes behind the line.
use salern_os_kernel.Prelude.{
  ℕ, zero, suc, ◌≤◌, ◌<◌, ◌≡◌, ◌≢◌, ◌⊎◌, ◌∙◌, sym, subst, refl, Bool, true, false, ◌&&◌, ◌||◌, List,
  [], Option, none, some, ◌==◌, if◌then◌else◌, if_true, if_false, if-both, inl, inr, Bool-cases,
  arith,
}
use salern_os_kernel.Errno.{Errno, success}
use salern_os_kernel.Mem.{Memory, write}
use salern_os_kernel.RingBuffer.{Ring, Op, Hangup}
use salern_os_kernel.RingBuffer.Queue.{span}
use salern_os_kernel.Tty.{
  Termios, Backend, EchoReply, com_io_tty_buf_sz, newline, carriage_return, cc_is,
}
use salern_os_kernel.Tty.Process.{returns, overruns, translate, com_io_tty_process_char}
use salern_os_kernel.Tty.Steps.{stop_index, signal_of, Accepts}
use salern_os_kernel.Tty.Edit.{
  Key, ordinary, line_break, erase, kill, eof, ignored, signal, canon_key, input_key, key_of,
  IsCanonical,
}
use salern_os_kernel.Tty.Line.{stop_index_le, span_count}
use salern_os_kernel.Tty.Canon.{with_device, after_key, key_ret}
use salern_os_kernel.Tty.Feed.{process_char_key, process_char_room}
use salern_os_kernel.Tty.Room.{NeedsRoom, HasRoom, HasRoom-cases}
use salern_os_kernel.Tty.Overrun.{key_of-Full}

-- There is no newline in the first `n` bytes.
abbrev pub NoNewline : Memory → ℕ → Type 0
NoNewline b n = (i : ℕ) → i < n → b i ≢ newline

-- The line has no newline in it and fits its buffer.
pub record IsClean {W : Type 0} (tty : Backend W) : Type 0 where
  pub no_newline : NoNewline tty.buffer tty.index
  pub within : tty.index ≤ com_io_tty_buf_sz

abbrev NotNewline : Key → Type 0
NotNewline (ordinary c) = c ≢ newline
NotNewline (line_break c) = Unit
NotNewline erase = Unit
NotNewline kill = Unit
NotNewline eof = Unit
NotNewline ignored = Unit
NotNewline (signal sig) = Unit

canon_key-NotNewline : (t : Termios) (c : ℕ) → NotNewline (canon_key t c)
canon_key-NotNewline t c =
    if-both NotNewline (cc_is t.veof c) tt
      (elim (Bool-cases (c == newline || c == carriage_return)) [
        | inl here ↦ subst NotNewline (sym (if_true _ _ here)) tt
        | inr other ↦ subst NotNewline (sym (if_false _ _ other)) (
            if-both NotNewline (cc_is t.verase c) tt
              (if-both NotNewline (cc_is t.vkill c) tt (ground (arith, other))))
      ])

input_key-NotNewline : (t : Termios) (c : ℕ) → NotNewline (input_key t c)
input_key-NotNewline t c =
    if-both NotNewline (c == carriage_return && t.igncr) tt (canon_key-NotNewline t (translate t c))

key_of-NotNewline : (t : Termios) (c : ℕ) → NotNewline (key_of t c)
key_of-NotNewline t c =
    if-both NotNewline t.isig (of_option (signal_of t c)) (input_key-NotNewline t c)
  where
    of_option :
        (o : Option ℕ) → NotNewline (elim o [ none ↦ input_key t c | some sig ↦ signal sig ])
    of_option none = input_key-NotNewline t c
    of_option (some sig) = tt

NoNewline-write :
    (b : Memory) (n c : ℕ) → c ≢ newline → NoNewline b n → NoNewline (write b n c) (suc n)
NoNewline-write b n c other clean i lt = elim (Bool-cases (n == i)) [
  | inl here ↦ subst (λ x. x ≢ newline) (sym (if_true _ _ here)) other
  | inr before ↦
      subst (λ x. x ≢ newline) (sym (if_false _ _ before)) (clean i (ground (arith, before)))
]

module _ (check_hangup : Ring → Op → ℕ → Hangup) {W : Type 0} where
  after_key-IsClean :
      (key : Key) (tty : Backend W)
      → NotNewline key
      → HasRoom key tty.index
      → IsClean tty
      → IsClean (after_key check_hangup key tty)
  after_key-IsClean (ordinary c) tty other fits clean = record {
    no_newline = NoNewline-write tty.buffer tty.index c other clean.no_newline;
    within = omega (arith, fits tt);
  }
  after_key-IsClean (line_break c) tty other fits clean = record {
    no_newline = λ i h. absurd (omega arith);
    within = omega (arith, clean.within);
  }
  after_key-IsClean erase tty other fits clean = record {
    no_newline = λ i h. clean.no_newline i (omega arith);
    within = omega (arith, clean.within);
  }
  after_key-IsClean kill tty other fits clean = record {
    no_newline = λ i h. clean.no_newline i (omega (arith, stop_index_le tty.buffer tty.index));
    within = omega (arith, stop_index_le tty.buffer tty.index, clean.within);
  }
  after_key-IsClean eof tty other fits clean = record {
    no_newline = λ i h. absurd (omega arith);
    within = omega (arith, clean.within);
  }
  after_key-IsClean ignored tty other fits clean = clean
  after_key-IsClean (signal sig) tty other fits clean = record {
    no_newline = clean.no_newline;
    within = clean.within;
  }

-- In a clean line, the loop of kill stops at once or not at all.
stop_index-clean :
    (b : Memory) (n : ℕ) → NoNewline b n → stop_index b n ≡ (if b n == newline then n else 0)
stop_index-clean b zero clean = if-both (λ x. 0 ≡ x) (b 0 == newline) refl refl
stop_index-clean b (suc n) clean = elim (Bool-cases (b (suc n) == newline)) [
  | inl here ↦ rw here refl
  | inr other ↦ rw other (
      stop_index-clean b n (λ i lt. clean i (omega arith))
      ∙ if_false {b = b n == newline} n 0 (ground (arith, clean n (omega arith))))
]

module _ {W : Type 0} (device_echo : List ℕ → (blocking : Bool) → W → EchoReply W)
    (accepts : Accepts device_echo) (check_hangup : Ring → Op → ℕ → Hangup) where
  -- In canonical mode, without waiting, on a device that accepts its echo and with a ring of more
  -- than one byte, a line that is free of newlines and within its buffer, full or not: every
  -- character leaves it so; or the line is full, the character is stored, ends the line or is the
  -- kill character, and the call accesses the byte behind the buffer.
  pub process_char-IsClean :
      (c : ℕ) (tty : Backend W)
      → IsCanonical tty.termios
      → 1 < tty.slave_rb.buffer_size
      → IsClean tty
      → ((ret : Errno) × (tty' : Backend W) × (com_io_tty_process_char device_echo false
              check_hangup c [] tty
            ≡ returns ret tty')
          × IsClean tty')
        ⊎ ((com_io_tty_process_char device_echo false check_hangup c [] tty ≡ overruns)
            × NeedsRoom (key_of tty.termios c)
            × (tty.index ≡ com_io_tty_buf_sz))
  process_char-IsClean c tty canonical size clean =
      let key = key_of tty.termios c in
      elim (HasRoom-cases key tty.index clean.within) [
        | inr (needs, full) ↦
            inr
              (key_of-Full device_echo accepts check_hangup c tty canonical full needs, needs, full)
        | inl fits ↦
            let (w, e) =
              process_char_room device_echo accepts check_hangup c tty canonical fits size in
            let after =
              after_key-IsClean check_hangup key tty (key_of-NotNewline tty.termios c) fits clean in
            inl (
              key_ret check_hangup key tty,
              with_device w (after_key check_hangup key tty),
              e,
              record { no_newline = after.no_newline; within = after.within },
            )
      ]

  -- In canonical mode, without waiting, on a device that accepts its echo, with room for a character
  -- in the line, a ring of more than one byte, and a line that is clean: the kill character empties
  -- the line, but where the byte behind the line is a newline that an earlier line has left there it
  -- changes nothing.
  pub process_char-kill :
      (c : ℕ) (tty : Backend W)
      → IsCanonical tty.termios
      → 1 < tty.slave_rb.buffer_size
      → tty.index < com_io_tty_buf_sz
      → IsClean tty
      → key_of tty.termios c ≡ kill
      → (tty' : Backend W) × (com_io_tty_process_char device_echo false check_hangup c [] tty
          ≡ returns success tty')
        × (span tty'.buffer 0 tty'.index
            ≡ (if tty.buffer tty.index == newline then span tty.buffer 0 tty.index else []))
  process_char-kill c tty canonical size lt clean is_kill =
      let (w, e) = process_char_key device_echo accepts check_hangup c tty canonical lt size in
      (
        with_device w (after_key check_hangup kill tty),
        subst
            (λ key.
              com_io_tty_process_char device_echo false check_hangup c [] tty
              ≡ returns (key_ret check_hangup key tty)
                  (with_device w (after_key check_hangup key tty)))
            is_kill e,
        span_count tty.buffer 0 _ _ (stop_index-clean tty.buffer tty.index clean.no_newline)
            ∙ of_both (tty.buffer tty.index == newline),
      )
    where
      of_both :
          (b : Bool)
          → span tty.buffer 0 (if b then tty.index else 0)
            ≡ (if b then span tty.buffer 0 tty.index else [])
      of_both true = refl
      of_both false = refl
