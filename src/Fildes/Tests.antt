-- ===== src/Fildes/Tests.antt =====
-- Tables of descriptors.
use salern_os_kernel.Prelude.{ℕ, ◌≤◌, ◌<◌, ◌≡◌, refl, none, some, ltb, if◌then◌else◌, arith, inr}
use salern_os_kernel.Errno.{success}
use salern_os_kernel.Fildes.{
  FdTable, config_open_max, put_fd, put_count, scan_free, proc_update_fd_hint, open_file,
  com_sys_proc_duplicate_file_nolock, com_sys_proc_close_file, com_sys_proc_get_file_nolock,
  free_from, duplicate_into,
}
use salern_os_kernel.Fildes.Hint.{IsHint}
use salern_os_kernel.Fildes.Open.{open_file_lem, open_file_last}
use salern_os_kernel.Fildes.Close.{com_sys_proc_close_file-com_sys_proc_duplicate_file_nolock}

-- The first `n` descriptors have the file 7, the others none.
abbrev first : ℕ → FdTable
first n = record {
  fd = λ i. if ltb i n then some 7 else none;
  next_fd = n;
  max_fd = n;
  num_ref = λ f. n;
}

first-IsHint : (n : ℕ) → n ≤ config_open_max → IsHint (first n)
first-IsHint n le = record {
  within = le;
  below = λ m lo hi. ground arith;
  free = λ lt. ground arith;
}

open_file_lem_example :
    let (ret, p') = open_file 8 (first 3) in
    (ret ≡ some 3)
    × (p'.fd ≡ put_fd (first 3).fd 3 (some 8))
    × (p'.num_ref ≡ put_count (first 3).num_ref 8 1)
    × IsHint p'
    × (p'.next_fd < config_open_max)
open_file_lem_example =
    open_file_lem 8 (first 3) 4 (first-IsHint 3 (omega arith)) (omega arith) (omega arith) refl

open_file_last_example :
    let (ret, p') = open_file 8 (first 95) in
    let (ret', p'') = open_file 9 p' in
    (ret ≡ some 95) × (ret' ≡ some 95) × (p'.fd 95 ≡ some 8) × (p''.fd 95 ≡ some 9)
open_file_last_example =
    open_file_last 8 9 (first 95) (first-IsHint 95 (omega arith)) (omega arith)
      (λ m lo hi. absurd (omega arith))

duplicate_example :
    let (ret, p') = com_sys_proc_duplicate_file_nolock 1 0 (first 3) in
    let (ret', p'') = com_sys_proc_close_file 3 p' in
    (ret ≡ inr 3)
    × (p'.fd 3 ≡ some 7)
    × (p'.num_ref 7 ≡ 4)
    × IsHint p'
    × (ret' ≡ success)
    × ((j : ℕ) → p''.fd j ≡ (first 3).fd j)
    × ((g : ℕ) → p''.num_ref g ≡ 3)
    × IsHint p''
duplicate_example =
    com_sys_proc_close_file-com_sys_proc_duplicate_file_nolock 1 3 0 7 (first 3)
      (first-IsHint 3 (omega arith)) (omega arith) (omega arith) (omega arith)
      (λ j lo hi. (first-IsHint 3 (omega arith)).below j (omega arith) hi) refl refl

-- One past the end of the table is accepted: what lies behind it is taken for a file.
past_end : (com_sys_proc_get_file_nolock 96 (record (first 3) { fd = λ i. some 5 })).0 ≡ some 5
unfolding com_sys_proc_get_file_nolock
past_end = refl

-- A duplicate at a high descriptor leaves `max_fd` below it, so that it is not released at exit.
high_duplicate : (com_sys_proc_duplicate_file_nolock 50 0 (first 3)).1.max_fd ≡ 3
unfolding com_sys_proc_duplicate_file_nolock free_from duplicate_into proc_update_fd_hint scan_free
high_duplicate = refl
