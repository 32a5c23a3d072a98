-- ===== src/Tty/Edit.antt =====
-- The line discipline in canonical mode as the editing of a line: what each character asks for, and
-- what it does to the line, the bytes that wait to be read, the end-of-file mark and the signals sent.
use salern_os_kernel.Prelude.{
  ℕ, ◌≢◌, ◌≡◌, Bool, true, false, ◌&&◌, ◌||◌, List, [], ◌∷◌, ◌++◌, none, some, ◌==◌, if◌then◌else◌,
  take,
}
use salern_os_kernel.RingBuffer.Queue.{span, contents}
use salern_os_kernel.Tty.{Termios, Backend, newline, carriage_return, cc_is}
use salern_os_kernel.Tty.Process.{translate}
use salern_os_kernel.Tty.Steps.{signal_of}

pub data Key : Type 0 where
  ordinary line_break : ℕ → Key
  erase kill eof ignored : Key
  signal : ℕ → Key

abbrev pub canon_key : Termios → ℕ → Key
canon_key t c =
    if cc_is t.veof c
    then eof
    else if c == newline || c == carriage_return
    then line_break c
    else if cc_is t.verase c
    then erase
    else if cc_is t.vkill c
    then kill
    else ordinary c

abbrev pub input_key : Termios → ℕ → Key
input_key t c = if c == carriage_return && t.igncr then ignored else canon_key t (translate t c)

abbrev pub key_of : Termios → ℕ → Key
key_of t c =
    if t.isig
    then elim (signal_of t c) [ none ↦ input_key t c | some sig ↦ signal sig ]
    else input_key t c

abbrev pub Apart : ℕ → List ℕ → Type 0
Apart x [] = Unit
Apart x (y ∷ ys) = (x ≢ y) × Apart x ys

abbrev pub Distinct : List ℕ → Type 0
Distinct [] = Unit
Distinct (x ∷ xs) = Apart x xs × Distinct xs

-- Canonical mode; the control characters differ from each other and from newline and return.
pub record IsCanonical (t : Termios) : Type 0 where
  pub canonical : t.icanon ≡ true
  pub distinct :
      Distinct
        (newline ∷ carriage_return ∷ t.vintr ∷ t.vquit ∷ t.vsusp ∷ t.veof ∷ t.verase ∷ t.vkill ∷ [])

-- What a user and a reader see: the line that is being typed, the bytes that wait to be read, whether
-- the end of file is marked, and the signals that were sent, newest first.
pub record View : Type 0 where
  pub line : List ℕ
  pub queue : List ℕ
  pub at_end : Bool
  pub sent : List (ℕ × ℕ)

abbrev pub view : {W : Type 0} → Backend W → View
view tty = record {
  line = span tty.buffer 0 tty.index;
  queue = contents tty.slave_rb;
  at_end = tty.slave_rb.is_eof;
  sent = tty.signals;
}

abbrev pub drop_last : List ℕ → List ℕ
drop_last [] = []
drop_last (c ∷ []) = []
drop_last (c ∷ d ∷ cs) = c ∷ drop_last (d ∷ cs)

abbrev pub is_empty : List ℕ → Bool
is_empty [] = true
is_empty (c ∷ cs) = false

-- What a key does, where the ring has room for `room` bytes, signals go to the group `pgid`, and the
-- first `kept` bytes of the line withstand a kill.
abbrev pub edit : (room pgid kept : ℕ) → Key → View → View
edit room pgid kept (ordinary c) v = record v { line = v.line ++ (c ∷ []) }
edit room pgid kept (line_break c) v = record v {
  line = [];
  queue = v.queue ++ take room (v.line ++ (c ∷ []));
}
edit room pgid kept erase v = record v { line = drop_last v.line }
edit room pgid kept kill v = record v { line = take kept v.line }
edit room pgid kept eof v = record v {
  line = [];
  queue = v.queue ++ take room v.line;
  at_end = is_empty v.line || v.at_end;
}
edit room pgid kept ignored v = v
edit room pgid kept (signal sig) v = record v { sent = (pgid, sig) ∷ v.sent }
