-- ===== src/Tty/Echo.antt =====
-- The echo: what `OPOST` and `ONLCR` make of the output.
use salern_os_kernel.Prelude.{
  ℕ, zero, suc, ◌≤◌, ◌≡◌, ◌∙◌, ap, sym, refl, Bool, ◌||◌, List, [], ◌∷◌, ◌++◌, Option, none, some,
  ◌==◌, if◌then◌else◌, length, arith, append-nil, append_assoc, inl, inr, Bool-cases,
}
use salern_os_kernel.Errno.{success}
use salern_os_kernel.Tty.{
  Termios, EchoReply, newline, carriage_return, before_newline, echo_round, echo_piece, echo_loop,
  com_io_tty_text_backend_echo, text_tty_echo,
}

-- Every newline becomes CR LF.
abbrev pub expand : List ℕ → List ℕ
expand [] = []
expand (c ∷ cs) = if c == newline then carriage_return ∷ newline ∷ expand cs else c ∷ expand cs

-- What `before_newline` finds.
abbrev IsCut : List ℕ → Option (List ℕ × List ℕ) → Type 0
IsCut buf none = expand buf ≡ buf
IsCut buf (some (before, after)) =
    (expand buf ≡ before ++ (carriage_return ∷ newline ∷ expand after))
    × (suc (length after) ≤ length buf)

IsCut-cons :
    (c : ℕ) (cs : List ℕ) (o : Option (List ℕ × List ℕ))
    → (c == newline) ≡ Bool.false
    → IsCut cs o
    → IsCut (c ∷ cs) (elim o [ none ↦ none | some (before, after) ↦ some (c ∷ before, after) ])
IsCut-cons c cs none other h = rw other (ap (c ∷◌) h)
IsCut-cons c cs (some (before, after)) other h = rw other (ap (c ∷◌) h.0, omega (arith, h.1))

before_newline-IsCut : (buf : List ℕ) → IsCut buf (before_newline buf)
unfolding before_newline
before_newline-IsCut [] = refl
before_newline-IsCut (c ∷ cs) = elim (Bool-cases (c == newline)) [
  | inl here ↦ rw here (rw here refl, omega arith)
  | inr other ↦ rw other (IsCut-cons c cs (before_newline cs) other (before_newline-IsCut cs))
]

-- What a reply of the terminal shows: all of `buf`, expanded, behind what was on the screen.
abbrev Shows : (screen buf : List ℕ) → EchoReply (List ℕ) → Type 0
Shows screen buf r = (r.device ≡ screen ++ expand buf) × (r.ret ≡ success)

echo_round-Shows :
    (again : ℕ → List ℕ → List ℕ → EchoReply (List ℕ)) (blocking : Bool) (count : ℕ) (buf : List ℕ)
    (o : Option (List ℕ × List ℕ)) (screen : List ℕ)
    → IsCut buf o
    → ((count' : ℕ) (after screen' : List ℕ)
        → suc (length after) ≤ length buf
        → Shows screen' after (again count' after screen'))
    → Shows screen buf (echo_round text_tty_echo again blocking count buf o screen)
unfolding echo_round echo_piece text_tty_echo
echo_round-Shows again blocking count buf none screen cut ih =
    (ap (λ l. screen ++ l) (sym cut), refl)
echo_round-Shows again blocking count buf (some (before, after)) screen cut ih =
    let (shown, fine) = ih _ after ((screen ++ before) ++ (carriage_return ∷ newline ∷ [])) cut.1 in
    (
      shown
          ∙ append_assoc (screen ++ before) (carriage_return ∷ newline ∷ []) (expand after)
          ∙ append_assoc screen before (carriage_return ∷ newline ∷ expand after)
          ∙ ap (λ l. screen ++ l) (sym cut.0),
      fine,
    )

echo_loop-Shows :
    (fuel : ℕ) (blocking : Bool) (count : ℕ) (buf screen : List ℕ)
    → length buf ≤ fuel
    → Shows screen buf (echo_loop text_tty_echo fuel blocking count buf screen)
unfolding echo_loop
echo_loop-Shows fuel blocking count [] screen le = (sym (append-nil screen), refl)
echo_loop-Shows zero blocking count (c ∷ cs) screen le = absurd (omega arith)
echo_loop-Shows (suc fuel) blocking count (c ∷ cs) screen le =
    echo_round-Shows (echo_loop text_tty_echo fuel blocking) blocking count (c ∷ cs)
      (before_newline (c ∷ cs)) screen (before_newline-IsCut (c ∷ cs))
      (λ count' after screen' lt.
        echo_loop-Shows fuel blocking count' after screen' (omega (arith, lt)))

-- What a text tty writes to its terminal: with `OPOST` or `ONLCR` set, the bytes with CR LF for
-- each newline, without both the bytes themselves. It returns success, and the fuel of the loop, one
-- round for each byte, is enough.
pub com_io_tty_text_backend_echo_lem :
    (t : Termios) (buf : List ℕ) (blocking : Bool) (screen : List ℕ)
    → let r = com_io_tty_text_backend_echo text_tty_echo t buf blocking screen in
      (r.device ≡ screen ++ (if t.opost || t.onlcr then expand buf else buf)) × (r.ret ≡ success)
unfolding com_io_tty_text_backend_echo text_tty_echo
com_io_tty_text_backend_echo_lem t buf blocking screen = elim (Bool-cases (t.opost || t.onlcr)) [
  | inl on ↦ rw on (echo_loop-Shows (length buf) blocking 0 buf screen (omega arith))
  | inr off ↦ rw off (refl, refl)
]
