-- ===== src/Fildes.antt =====
-- src/com/sys/proc.c: the file descriptors of a process, and their use by openat
-- (src/com/sys/syscall/openat.c). The lock of the table is held throughout each call. A file is a
-- number, with its count of references; the other fields of a descriptor and of a file
-- are left out. Negative descriptors, which the code refuses, are no numbers here.
pub mod Hint
pub mod Open
pub mod Close
mod Tests
use salern_os_kernel.Prelude.{
  ◌⊎◌, inl, inr, ℕ, zero, suc, ◌+◌, ◌-◌, Bool, ◌||◌, Option, none, some, ltb, leb, ◌==◌,
  if◌then◌else◌, max,
}
use salern_os_kernel.Errno.{Errno, success, einval, other}

-- `CONFIG_OPEN_MAX`
abbrev pub config_open_max : ℕ
config_open_max = 96

-- The numbers of errno.h.
abbrev pub ebadf : Errno
ebadf = other 9

abbrev pub emfile : Errno
emfile = other 24

-- What stands in `fd[CONFIG_OPEN_MAX]`, which the code can read, is what lies behind the array.
pub record FdTable : Type 0 where
  pub fd : ℕ → Option ℕ
  pub next_fd : ℕ
  pub max_fd : ℕ
  pub num_ref : ℕ → ℕ

abbrev pub put_fd : (ℕ → Option ℕ) → ℕ → Option ℕ → ℕ → Option ℕ
put_fd fd i file j = if i == j then file else fd j

abbrev pub put_count : (ℕ → ℕ) → ℕ → ℕ → ℕ → ℕ
put_count num_ref file n f = if file == f then n else num_ref f

-- A loop of `proc_update_fd_hint`, with the rounds that are left.
unfoldable pub scan_free : ℕ → (fd : ℕ → Option ℕ) → (i : ℕ) → ℕ
scan_free zero fd i = i
scan_free (suc k) fd i =
    let rest = scan_free k fd (suc i) in elim (fd i) [ none ↦ i | some file ↦ rest ]

unfoldable pub proc_update_fd_hint : FdTable → FdTable
proc_update_fd_hint p =
    let i = scan_free (config_open_max - p.next_fd) p.fd p.next_fd in
    let hint = if ltb i config_open_max then i else scan_free config_open_max p.fd 0 in
    record p { next_fd = hint; max_fd = max p.max_fd hint }

-- `none` is -1.
unfoldable pub com_sys_proc_next_fd : FdTable → Option ℕ × FdTable
com_sys_proc_next_fd p = (
  if leb config_open_max p.next_fd then none else some p.next_fd,
  proc_update_fd_hint (record p { next_fd = suc p.next_fd }),
)

-- The end of openat: the descriptor is reserved, then a new file is put there.
unfoldable pub open_file : (file : ℕ) → FdTable → Option ℕ × FdTable
open_file file p =
    let (ret, p') = com_sys_proc_next_fd p in
    elim ret [
      | none ↦ (none, p')
      | some fd ↦ (
        some fd,
        record p' { fd = put_fd p'.fd fd (some file); num_ref = put_count p'.num_ref file 1 },
      )
    ]

unfoldable pub com_sys_proc_get_file_nolock : ℕ → FdTable → Option ℕ × FdTable
com_sys_proc_get_file_nolock fd p = if ltb config_open_max fd then (none, p) else elim (p.fd fd) [
  | none ↦ (none, p)
  | some file ↦ (some file, record p { num_ref = put_count p.num_ref file (suc (p.num_ref file)) })
]

-- The loop of `com_sys_proc_duplicate_file_nolock`.
unfoldable pub free_from : ℕ → (fd : ℕ → Option ℕ) → (new_fd : ℕ) → Option ℕ
free_from zero fd new_fd = none
free_from (suc k) fd new_fd =
    let rest = free_from k fd (suc new_fd) in
    elim (fd new_fd) [
      | none ↦ some new_fd
      | some file ↦ if leb config_open_max new_fd then none else rest
    ]

-- The copy of the descriptor and the hold of its file.
unfoldable pub duplicate_into : (new_fd old_fd : ℕ) → FdTable → FdTable
duplicate_into new_fd old_fd p =
    let p' = proc_update_fd_hint (record p { fd = put_fd p.fd new_fd (p.fd old_fd) }) in
    elim (p.fd old_fd) [
      | none ↦ p'
      | some file ↦ record p' { num_ref = put_count p'.num_ref file (suc (p'.num_ref file)) }
    ]

-- The error, or the new descriptor.
unfoldable pub com_sys_proc_duplicate_file_nolock :
    (new_fd old_fd : ℕ) → FdTable → (Errno ⊎ ℕ) × FdTable
com_sys_proc_duplicate_file_nolock new_fd old_fd p =
    if ltb config_open_max old_fd || ltb config_open_max new_fd
    then (inl einval, p)
    else elim (free_from (suc config_open_max - new_fd) p.fd new_fd) [
      | none ↦ (inl emfile, p)
      | some fd ↦ (inr fd, duplicate_into fd old_fd p)
    ]

unfoldable pub com_sys_proc_close_file_nolock : (fd : ℕ) → FdTable → Errno × (Option ℕ × FdTable)
com_sys_proc_close_file_nolock fd p =
    if ltb config_open_max fd then (ebadf, (none, p)) else elim (p.fd fd) [
      | none ↦ (ebadf, (none, p))
      | some file ↦ (
        success,
        (
          some file,
          record p {
            fd = put_fd p.fd fd none;
            next_fd = if ltb fd p.next_fd then fd else p.next_fd;
          },
        ),
      )
    ]

-- With the release of the file; what is freed at the last release is left out.
unfoldable pub com_sys_proc_close_file : (fd : ℕ) → FdTable → Errno × FdTable
com_sys_proc_close_file fd p =
    let (ret, (file, p')) = com_sys_proc_close_file_nolock fd p in
    elim file [
      | none ↦ (ret, p')
      | some f ↦ (ret, record p' { num_ref = put_count p'.num_ref f (p'.num_ref f - 1) })
    ]
