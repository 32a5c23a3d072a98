-- ===== src/Tty/Session.antt =====
-- Lines: characters that are typed and erased, up to the newline that sends the line.
use salern_os_kernel.Prelude.{
  ℕ, suc, ◌+◌, ◌≤◌, ◌<◌, ◌≡◌, ◌∙◌, ap, ap₂, sym, subst, refl, Bool, true, false, List, [], ◌∷◌,
  ◌++◌, min, length, arith, if_false, if_true, le→ltb,
}
use salern_os_kernel.Errno.{Errno, success, is_success}
use salern_os_kernel.RingBuffer.{Ring, Op, op_write, Hangup, Wake, returns_early, avail_write}
use salern_os_kernel.RingBuffer.Queue.{IsValid, span, contents, length-span}
use salern_os_kernel.RingBuffer.Write.{write_nonblocking_lem}
use salern_os_kernel.Tty.{Termios, Backend, EchoReply, com_io_tty_buf_sz}
use salern_os_kernel.Tty.Process.{
  Fed, returns, Batch, batch, next_char, com_io_tty_process_char, process_chars_loop,
  com_io_tty_process_chars,
}
use salern_os_kernel.Tty.Steps.{Accepts}
use salern_os_kernel.Tty.Edit.{
  Key, ordinary, line_break, erase, kill, eof, ignored, signal, key_of, IsCanonical, drop_last,
}
use salern_os_kernel.Tty.Line.{span_count, take-span, span-write, drop_last-span}
use salern_os_kernel.Tty.Canon.{stored, with_device, delivery, delivered, after_key, key_ret}
use salern_os_kernel.Tty.Feed.{process_char_key}
use salern_os_kernel.Tty.Refine.{contents-delivery, delivery-IsValid}

abbrev pub IsTyping : Key → Type 0
IsTyping (ordinary c) = Unit
IsTyping (line_break c) = ⊥
IsTyping erase = Unit
IsTyping kill = ⊥
IsTyping eof = ⊥
IsTyping ignored = ⊥
IsTyping (signal sig) = ⊥

-- What the key makes of the line.
abbrev pub typed : Key → List ℕ → List ℕ
typed (ordinary c) line = line ++ (c ∷ [])
typed (line_break c) line = line
typed erase line = drop_last line
typed kill line = line
typed eof line = line
typed ignored line = line
typed (signal sig) line = line

abbrev pub AllTyping : Termios → List ℕ → Type 0
AllTyping t [] = Unit
AllTyping t (c ∷ cs) = IsTyping (key_of t c) × AllTyping t cs

abbrev pub type_all : Termios → List ℕ → List ℕ → List ℕ
type_all t [] line = line
type_all t (c ∷ cs) line = type_all t cs (typed (key_of t c) line)

-- A call without waiting never uses it.
abbrev pub asleep_never : ℕ → List Wake
asleep_never i = []

module _ {W : Type 0} (device_echo : List ℕ → (blocking : Bool) → W → EchoReply W)
    (accepts : Accepts device_echo) (check_hangup : Ring → Op → ℕ → Hangup) where
  -- Nothing but the line changes, and it grows by one at most.
  pub record Typed (line : List ℕ) (count : ℕ) (tty tty' : Backend W) : Type 0 where
    pub line_lem : span tty'.buffer 0 tty'.index ≡ line
    pub ring_lem : tty'.slave_rb ≡ tty.slave_rb
    pub termios_lem : tty'.termios ≡ tty.termios
    pub index_lem : tty'.index ≤ tty.index + count

  after_key-Typed :
      (key : Key) (w : W) (tty : Backend W)
      → IsTyping key
      → Typed
          (typed key (span tty.buffer 0 tty.index))
          1
          tty
          (with_device w (after_key check_hangup key tty))
        × (key_ret check_hangup key tty ≡ success)
  after_key-Typed (ordinary c) w tty h = (
    record {
      line_lem = span-write tty.buffer tty.index c;
      ring_lem = refl;
      termios_lem = refl;
      index_lem = omega arith;
    },
    refl,
  )
  after_key-Typed erase w tty h = (
    record {
      line_lem = sym (drop_last-span tty.buffer 0 tty.index);
      ring_lem = refl;
      termios_lem = refl;
      index_lem = omega arith;
    },
    refl,
  )
  after_key-Typed (line_break c) w tty h = elim h [ ]
  after_key-Typed kill w tty h = elim h [ ]
  after_key-Typed eof w tty h = elim h [ ]
  after_key-Typed ignored w tty h = elim h [ ]
  after_key-Typed (signal sig) w tty h = elim h [ ]

  next_char-success :
      (go_on : Backend W → Batch W) (i : ℕ) (fed : Fed W) (ret : Errno) (tty : Backend W)
      → fed ≡ returns ret tty
      → ret ≡ success
      → next_char go_on i fed ≡ go_on tty
  unfolding next_char
  next_char-success go_on i fed ret tty e fine =
      ap (next_char go_on i) e ∙ if_true _ _ (ap is_success fine)

  -- The loop takes the typed characters one by one and goes on behind them.
  pub process_chars_loop-typing :
      (cs rest : List ℕ) (i : ℕ) (tty : Backend W)
      → IsCanonical tty.termios
      → 1 < tty.slave_rb.buffer_size
      → AllTyping tty.termios cs
      → tty.index + length cs ≤ com_io_tty_buf_sz
      → (tty' : Backend W) × (process_chars_loop device_echo false check_hangup asleep_never i
            (cs ++ rest)
            tty
          ≡ process_chars_loop device_echo false check_hangup asleep_never
              (i + length cs)
              rest
              tty')
        × Typed (type_all tty.termios cs (span tty.buffer 0 tty.index)) (length cs) tty tty'
  unfolding process_chars_loop
  process_chars_loop-typing [] rest i tty canonical size typing le = (
    tty,
    ap (λ (n : ℕ). process_chars_loop device_echo false check_hangup asleep_never n rest tty)
        (omega arith),
    record { line_lem = refl; ring_lem = refl; termios_lem = refl; index_lem = omega arith },
  )
  process_chars_loop-typing (c ∷ cs) rest i tty canonical size typing le =
      let key = key_of tty.termios c in
      let (w, e) =
        process_char_key device_echo accepts check_hangup c tty canonical (omega arith) size in
      let tty1 = with_device w (after_key check_hangup key tty) in
      let (one, fine) = after_key-Typed key w tty typing.0 in
      let (tty', f, more) =
        process_chars_loop-typing cs rest (suc i) tty1
          (subst IsCanonical (sym one.termios_lem) canonical)
          (subst (λ r. 1 < r.buffer_size) (sym one.ring_lem) size)
          (subst (λ t. AllTyping t cs) (sym one.termios_lem) typing.1)
          (omega (arith, one.index_lem)) in
      (
        tty',
        next_char-success _ i _ _ tty1 e fine
            ∙ f
            ∙ ap
                (λ (n : ℕ).
                  process_chars_loop device_echo false check_hangup asleep_never n rest tty')
                (omega arith),
        record {
          line_lem = more.line_lem ∙ ap₂ (λ t l. type_all t cs l) one.termios_lem one.line_lem;
          ring_lem = more.ring_lem ∙ one.ring_lem;
          termios_lem = more.termios_lem ∙ one.termios_lem;
          index_lem = omega (arith, one.index_lem, more.index_lem);
        },
      )

  -- The newline: all of the line and its end are delivered.
  line_break_lem :
      {k : ℕ} (c d i : ℕ) (tty : Backend W)
      → IsCanonical tty.termios
      → IsValid k tty.slave_rb
      → 1 < tty.slave_rb.buffer_size
      → ((r : Ring) → returns_early (check_hangup r op_write 0) ≡ false)
      → key_of tty.termios c ≡ line_break d
      → tty.index < com_io_tty_buf_sz
      → tty.index < avail_write tty.slave_rb
      → (tty' : Backend W) × (process_chars_loop device_echo false check_hangup asleep_never i
            (c ∷ [])
            tty
          ≡ batch success (suc i) tty')
        × (contents tty'.slave_rb
            ≡ contents tty.slave_rb ++ (span tty.buffer 0 tty.index ++ (d ∷ [])))
        × (tty'.index ≡ 0)
        × IsValid k tty'.slave_rb
  unfolding process_chars_loop
  line_break_lem {k} c d i tty canonical v size connected is_break lt room =
      let (w, e) = process_char_key device_echo accepts check_hangup c tty canonical lt size in
      let b = (stored d tty).buffer in
      (
        with_device w (delivered check_hangup (stored d tty)),
        next_char-success _ i _ (delivery check_hangup (stored d tty)).ret
            (with_device w (delivered check_hangup (stored d tty)))
            (subst
              (λ key.
                com_io_tty_process_char device_echo false check_hangup c [] tty
                ≡ returns (key_ret check_hangup key tty)
                    (with_device w (after_key check_hangup key tty)))
              is_break e)
            accepted,
        contents-delivery check_hangup connected (stored d tty) v
            ∙ ap (λ l. contents tty.slave_rb ++ l)
                (take-span b (avail_write tty.slave_rb) 0 (suc tty.index)
                  ∙ span_count b 0 (min (avail_write tty.slave_rb) (suc tty.index)) (suc tty.index)
                      (omega arith)
                  ∙ span-write tty.buffer tty.index d),
        refl,
        delivery-IsValid check_hangup connected (stored d tty) v,
      )
    where
      accepted : (delivery check_hangup (stored d tty)).ret ≡ success
      accepted =
          (write_nonblocking_lem check_hangup true (stored d tty).buffer (suc tty.index) 1
            tty.slave_rb v).2
          ∙ if_false _ _ (connected tty.slave_rb)
          ∙ if_false _ _ (le→ltb (min (suc tty.index) (avail_write tty.slave_rb)) 1 (omega arith))

  -- In canonical mode, without waiting, on a device that accepts its echo and with a valid ring of
  -- more than one byte that finds no hangup: characters that are typed or erase, and then a newline
  -- or return, for which the line buffer has room. If the ring has room for the line with its end,
  -- the call processes them all with success, the readers get the old bytes and then the line as it
  -- was edited with its end, and the next line starts empty.
  pub process_chars-line :
      {k : ℕ} (cs : List ℕ) (c d : ℕ) (tty : Backend W)
      → IsCanonical tty.termios
      → IsValid k tty.slave_rb
      → 1 < tty.slave_rb.buffer_size
      → ((r : Ring) → returns_early (check_hangup r op_write 0) ≡ false)
      → AllTyping tty.termios cs
      → key_of tty.termios c ≡ line_break d
      → tty.index + length cs < com_io_tty_buf_sz
      → length (type_all tty.termios cs (span tty.buffer 0 tty.index)) < avail_write tty.slave_rb
      → (tty' : Backend W) × (com_io_tty_process_chars device_echo false check_hangup asleep_never
            (cs ++ (c ∷ []))
            tty
          ≡ batch success (suc (length cs)) tty')
        × (contents tty'.slave_rb
            ≡ contents tty.slave_rb
              ++ (type_all tty.termios cs (span tty.buffer 0 tty.index) ++ (d ∷ [])))
        × (tty'.index ≡ 0)
        × IsValid k tty'.slave_rb
  unfolding com_io_tty_process_chars
  process_chars-line {k} cs c d tty canonical v size connected typing is_break le room =
      let (tty1, e, t) =
        process_chars_loop-typing cs (c ∷ []) 0 tty canonical size typing (omega arith) in
      let (tty2, f, all, start, valid) =
        line_break_lem c d (0 + length cs) tty1 (subst IsCanonical (sym t.termios_lem) canonical)
          (subst (IsValid k) (sym t.ring_lem) v)
          (subst (λ r. 1 < r.buffer_size) (sym t.ring_lem) size) connected
          (subst (λ t. key_of t c ≡ line_break d) (sym t.termios_lem) is_break)
          (omega (arith, t.index_lem))
          (subst (λ r. tty1.index < avail_write r) (sym t.ring_lem)
            (omega (arith, ap length t.line_lem, length-span tty1.buffer 0 tty1.index))) in
      (
        tty2,
        e ∙ f ∙ ap (λ (n : ℕ). batch success n tty2) (omega arith),
        all ∙ ap₂ (λ r l. contents r ++ (l ++ (d ∷ []))) t.ring_lem t.line_lem,
        start,
        valid,
      )
