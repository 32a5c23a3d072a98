-- ===== src/Tty/Keyboard.antt =====
-- The keyboard of a text tty: `text_tty_kbd_convert` and `text_tty_kbd_in`, which keep the modifiers
-- in a static variable and pass characters on to `com_io_tty_process_chars`, or, for one character,
-- to `com_io_tty_process_char`; each list of characters here is one such call.
use Prim.Native.Nat.{bit_and, bit_or}
use salern_os_kernel.Prelude.{
  ℕ, ◌+◌, ◌-◌, ◌%◌, ◌^◌, ◌<◌, ◌≡◌, ◌∙◌, ap, refl, sym, subst, Bool, true, false, ◌&&◌, ◌||◌, not,
  List, [], ◌∷◌, Option, none, some, leb, ◌==◌, if◌then◌else◌, if_true, if_false, min, arith, inl,
  inr, Bool-cases,
}
use salern_os_kernel.RingBuffer.Index.{pow-lt-word}
use salern_os_kernel.Prelude.Single.{
  bit, not64, bit-bit_or, bit-bit_and, bit-not64, bit_power_self, bit_power_other, bit_and_le,
  bit_or-power_lt,
}

abbrev mod_lctrl : ℕ
mod_lctrl = 1

abbrev mod_rctrl : ℕ
mod_rctrl = 2

abbrev mod_arrow : ℕ
mod_arrow = 4

abbrev mod_lshift : ℕ
mod_lshift = 8

abbrev mod_rshift : ℕ
mod_rshift = 16

abbrev mod_lalt : ℕ
mod_lalt = 32

abbrev mod_ralt : ℕ
mod_ralt = 64

-- The key codes that the code names, and any further one.
pub data Keycode : Type 0 where
  key_leftctrl key_rightctrl key_leftalt key_rightalt key_leftshift key_rightshift : Keycode
  key_backspace key_up key_down key_right key_left : Keycode
  key_other : ℕ → Keycode

-- `com_kbd_packet_t`, without the keyboard.
pub record Packet : Type 0 where
  pub keycode : Keycode
  pub pressed : Bool
  pub c : ℕ

-- The characters that one call passes on. A `char` is a byte, so the subtraction wraps.
unfoldable pub text_tty_kbd_convert : (c mods : ℕ) → List ℕ
text_tty_kbd_convert c mods =
    let is_arrow = not (bit_and mod_arrow mods == 0) in
    let is_ctrl_held = not (bit_and mod_lctrl mods == 0) in
    let is_del = c == 127 in
    let c' = if c == 8 then 127 else c in
    if is_arrow || is_del
    then (if is_arrow then 27 ∷ 91 ∷ c' ∷ [] else 27 ∷ 91 ∷ 51 ∷ 126 ∷ [])
    else if is_ctrl_held
    then ((if leb 97 c' && leb c' 122 then c' - 32 else c') + 192) % 256 ∷ []
    else c' ∷ []

unfoldable pub key_released : Keycode → ℕ → ℕ
key_released key_leftctrl mods = bit_and mods (not64 mod_lctrl)
key_released key_rightctrl mods = bit_and mods (not64 mod_rctrl)
key_released key_leftalt mods = bit_and mods (not64 mod_lalt)
key_released key_rightalt mods = bit_and mods (not64 mod_ralt)
key_released key_leftshift mods = bit_and mods (not64 mod_lshift)
key_released key_rightshift mods = bit_and mods (not64 mod_rshift)
key_released key_backspace mods = mods
key_released key_up mods = mods
key_released key_down mods = mods
key_released key_right mods = mods
key_released key_left mods = mods
key_released (key_other n) mods = mods

-- The new modifiers, and the calls. Backspace falls through to the last statement of the function.
unfoldable pub key_pressed : Keycode → (c mods : ℕ) → ℕ × List (List ℕ)
key_pressed key_leftctrl c mods = (bit_or mods mod_lctrl, [])
key_pressed key_rightctrl c mods = (bit_or mods mod_rctrl, [])
key_pressed key_leftalt c mods = (bit_or mods mod_lalt, [])
key_pressed key_rightalt c mods = (bit_or mods mod_ralt, [])
key_pressed key_leftshift c mods = (bit_or mods mod_lshift, [])
key_pressed key_rightshift c mods = (bit_or mods mod_rshift, [])
key_pressed key_backspace c mods =
    (mods, text_tty_kbd_convert 127 mods ∷ text_tty_kbd_convert c mods ∷ [])
key_pressed key_up c mods = (mods, text_tty_kbd_convert 65 (bit_or mods mod_arrow) ∷ [])
key_pressed key_down c mods = (mods, text_tty_kbd_convert 66 (bit_or mods mod_arrow) ∷ [])
key_pressed key_right c mods = (mods, text_tty_kbd_convert 67 (bit_or mods mod_arrow) ∷ [])
key_pressed key_left c mods = (mods, text_tty_kbd_convert 68 (bit_or mods mod_arrow) ∷ [])
key_pressed (key_other n) c mods = (mods, text_tty_kbd_convert c mods ∷ [])

unfoldable pub text_tty_kbd_in : ℕ → Packet → ℕ × List (List ℕ)
text_tty_kbd_in mods p =
    if p.pressed then key_pressed p.keycode p.c mods else (key_released p.keycode mods, [])

-- The modifiers after a sequence of packets.
unfoldable pub modifiers_after : ℕ → List Packet → ℕ
modifiers_after mods [] = mods
modifiers_after mods (p ∷ ps) = modifiers_after (text_tty_kbd_in mods p).0 ps

-- The number of the modifier that a key is.
abbrev pub modifier_of : Keycode → Option ℕ
modifier_of key_leftctrl = some 0
modifier_of key_rightctrl = some 1
modifier_of key_leftalt = some 5
modifier_of key_rightalt = some 6
modifier_of key_leftshift = some 3
modifier_of key_rightshift = some 4
modifier_of key_backspace = none
modifier_of key_up = none
modifier_of key_down = none
modifier_of key_right = none
modifier_of key_left = none
modifier_of (key_other n) = none

-- Whether the key of modifier `j` is down, by the last packet for it.
abbrev pub is_down : ℕ → ℕ → List Packet → ℕ
is_down j now [] = now
is_down j now (p ∷ ps) = elim (modifier_of p.keycode) [
  | none ↦ is_down j now ps
  | some i ↦ is_down j (if i == j then (if p.pressed then 1 else 0) else now) ps
]

equal : (i j : ℕ) → (i == j) ≡ true → i ≡ j
equal i j e = ground arith

set_bit :
    (i j mods : ℕ)
    → mods < 2 ^ 7
    → i < 7
    → j < 7
    → (bit j (bit_or mods (2 ^ i)) ≡ (if i == j then 1 else bit j mods))
      × (bit_or mods (2 ^ i) < 2 ^ 7)
set_bit i j mods lt small small' = (
  bit-bit_or j mods (2 ^ i) ∙ elim (Bool-cases (i == j)) [
    | inl same ↦ ground (arith, same, bit_power_self i, ap (λ k. bit k (2 ^ i)) (equal i j same))
    | inr apart ↦ ground (arith, apart, bit_power_other j i)
  ],
  bit_or-power_lt 7 i mods small lt,
)

clear_bit :
    (i j mods : ℕ)
    → mods < 2 ^ 7
    → i < 7
    → j < 7
    → (bit j (bit_and mods (not64 (2 ^ i))) ≡ (if i == j then 0 else bit j mods))
      × (bit_and mods (not64 (2 ^ i)) < 2 ^ 7)
clear_bit i j mods lt small small' = (
  bit-bit_and j mods (not64 (2 ^ i))
      ∙ ap (min (bit j mods)) (bit-not64 j (2 ^ i) (omega arith) (pow-lt-word i (omega arith)))
      ∙ elim (Bool-cases (i == j)) [
        | inl same ↦
            ground (arith, same, bit_power_self i, ap (λ k. bit k (2 ^ i)) (equal i j same))
        | inr apart ↦ ground (arith, apart, bit_power_other j i)
      ],
  omega (arith, bit_and_le mods (not64 (2 ^ i))),
)

-- One packet: the modifier of its key is set by a press and cleared by a release.
abbrev Follows : (j mods : ℕ) → Keycode → (now mods' : ℕ) → Type 0
Follows j mods key now mods' =
    (bit j mods'
      ≡ elim (modifier_of key) [ none ↦ bit j mods | some i ↦ if i == j then now else bit j mods ])
    × (mods' < 2 ^ 7)

key_released-Follows :
    (key : Keycode) (j mods : ℕ)
    → mods < 2 ^ 7
    → j < 7
    → Follows j mods key 0 (key_released key mods)
unfolding key_released
key_released-Follows key_leftctrl j mods lt small = clear_bit 0 j mods lt (omega arith) small
key_released-Follows key_rightctrl j mods lt small = clear_bit 1 j mods lt (omega arith) small
key_released-Follows key_leftalt j mods lt small = clear_bit 5 j mods lt (omega arith) small
key_released-Follows key_rightalt j mods lt small = clear_bit 6 j mods lt (omega arith) small
key_released-Follows key_leftshift j mods lt small = clear_bit 3 j mods lt (omega arith) small
key_released-Follows key_rightshift j mods lt small = clear_bit 4 j mods lt (omega arith) small
key_released-Follows key_backspace j mods lt small = (refl, lt)
key_released-Follows key_up j mods lt small = (refl, lt)
key_released-Follows key_down j mods lt small = (refl, lt)
key_released-Follows key_right j mods lt small = (refl, lt)
key_released-Follows key_left j mods lt small = (refl, lt)
key_released-Follows (key_other n) j mods lt small = (refl, lt)

key_pressed-Follows :
    (key : Keycode) (c j mods : ℕ)
    → mods < 2 ^ 7
    → j < 7
    → Follows j mods key 1 (key_pressed key c mods).0
unfolding key_pressed
key_pressed-Follows key_leftctrl c j mods lt small = set_bit 0 j mods lt (omega arith) small
key_pressed-Follows key_rightctrl c j mods lt small = set_bit 1 j mods lt (omega arith) small
key_pressed-Follows key_leftalt c j mods lt small = set_bit 5 j mods lt (omega arith) small
key_pressed-Follows key_rightalt c j mods lt small = set_bit 6 j mods lt (omega arith) small
key_pressed-Follows key_leftshift c j mods lt small = set_bit 3 j mods lt (omega arith) small
key_pressed-Follows key_rightshift c j mods lt small = set_bit 4 j mods lt (omega arith) small
key_pressed-Follows key_backspace c j mods lt small = (refl, lt)
key_pressed-Follows key_up c j mods lt small = (refl, lt)
key_pressed-Follows key_down c j mods lt small = (refl, lt)
key_pressed-Follows key_right c j mods lt small = (refl, lt)
key_pressed-Follows key_left c j mods lt small = (refl, lt)
key_pressed-Follows (key_other n) c j mods lt small = (refl, lt)

text_tty_kbd_in-Follows :
    (j mods : ℕ) (p : Packet) (b : Bool)
    → p.pressed ≡ b
    → mods < 2 ^ 7
    → j < 7
    → Follows j mods p.keycode (if b then 1 else 0) (text_tty_kbd_in mods p).0
unfolding text_tty_kbd_in
text_tty_kbd_in-Follows j mods p true e lt small =
    subst (λ (r : ℕ × List (List ℕ)). Follows j mods p.keycode 1 r.0) (sym (if_true _ _ e))
      (key_pressed-Follows p.keycode p.c j mods lt small)
text_tty_kbd_in-Follows j mods p false e lt small =
    subst (λ (r : ℕ × List (List ℕ)). Follows j mods p.keycode 0 r.0) (sym (if_false _ _ e))
      (key_released-Follows p.keycode j mods lt small)

-- After any packets, from modifiers that fit their seven bits, a modifier is set if the last packet
-- of its key was a press, cleared if it was a release, and as before if there was none; the
-- modifiers still fit. In particular the arrow bit is never kept.
pub modifiers_after_lem :
    (j mods : ℕ) (ps : List Packet)
    → mods < 2 ^ 7
    → j < 7
    → (bit j (modifiers_after mods ps) ≡ is_down j (bit j mods) ps)
      × (modifiers_after mods ps < 2 ^ 7)
unfolding modifiers_after
modifiers_after_lem j mods [] lt small = (refl, lt)
modifiers_after_lem j mods (p ∷ ps) lt small =
    let (now, fits) = text_tty_kbd_in-Follows j mods p p.pressed refl lt small in
    let (later, fits') = modifiers_after_lem j (text_tty_kbd_in mods p).0 ps fits small in
    (later ∙ ap (λ n. is_down j n ps) now ∙ of_option (modifier_of p.keycode), fits')
  where
    of_option :
        (o : Option ℕ)
        → is_down j
            (elim o [
              | none ↦ bit j mods
              | some i ↦ if i == j then (if p.pressed then 1 else 0) else bit j mods
            ])
            ps
          ≡ elim o [
            | none ↦ is_down j (bit j mods) ps
            | some i ↦ is_down j (if i == j then (if p.pressed then 1 else 0) else bit j mods) ps
          ]
    of_option none = refl
    of_option (some i) = refl
