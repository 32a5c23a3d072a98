-- ===== src/Tty/Room.antt =====
-- Which keys need room in the line buffer.
use salern_os_kernel.Prelude.{ℕ, ◌≤◌, ◌<◌, ◌≡◌, ◌⊎◌, inl, inr, arith}
use salern_os_kernel.Tty.{com_io_tty_buf_sz}
use salern_os_kernel.Tty.Edit.{Key, ordinary, line_break, erase, kill, eof, ignored, signal}

-- The key stores its character, or reads the byte behind the line.
abbrev pub NeedsRoom : Key → Type 0
NeedsRoom (ordinary c) = Unit {0}
NeedsRoom (line_break c) = Unit {0}
NeedsRoom erase = ⊥
NeedsRoom kill = Unit {0}
NeedsRoom eof = ⊥
NeedsRoom ignored = ⊥
NeedsRoom (signal sig) = ⊥

-- There is room behind a line of `index` bytes if the key needs it.
abbrev pub HasRoom : Key → (index : ℕ) → Type 0
HasRoom key index = NeedsRoom key → index < com_io_tty_buf_sz

pub HasRoom-cases :
    (key : Key) (index : ℕ)
    → index ≤ com_io_tty_buf_sz
    → HasRoom key index ⊎ (NeedsRoom key × (index ≡ com_io_tty_buf_sz))
HasRoom-cases key index le = elim (order index le) [
  | inl lt ↦ inl (λ needs. lt)
  | inr full ↦ by_key key full
]
  where
    order : (i : ℕ) → i ≤ com_io_tty_buf_sz → (i < com_io_tty_buf_sz) ⊎ (i ≡ com_io_tty_buf_sz)
    order i h = omega arith

    by_key :
        (key : Key)
        → index ≡ com_io_tty_buf_sz
        → HasRoom key index ⊎ (NeedsRoom key × (index ≡ com_io_tty_buf_sz))
    by_key (ordinary c) full = inr (tt, full)
    by_key (line_break c) full = inr (tt, full)
    by_key erase full = inl (λ needs. absurd needs)
    by_key kill full = inr (tt, full)
    by_key eof full = inl (λ needs. absurd needs)
    by_key ignored full = inl (λ needs. absurd needs)
    by_key (signal sig) full = inl (λ needs. absurd needs)
