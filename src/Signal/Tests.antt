-- ===== src/Signal/Tests.antt =====
-- The theorems on signals at concrete masks, threads and processes. 18 stands for SIGCONT.
use salern_os_kernel.Prelude.{
  ℕ, ◌^◌, ◌≤◌, ◌<◌, ◌≡◌, ◌⊎◌, refl, Bool, true, false, ◌&&◌, none, some, List, [], ◌∷◌, arith,
  if◌then◌else◌,
}
use salern_os_kernel.Errno.{Errno, is_success}
use salern_os_kernel.Signal.{
  How, State, Thread, Proc, sigmask_set, com_ipc_signal_set_mask_nolock,
  com_ipc_signal_check_nolock, send_to_thread, offer, com_ipc_signal_send_to_proc,
  com_ipc_signal_send_to_thread,
}
use salern_os_kernel.Signal.Mask.{member, changed, error_of, com_ipc_signal_set_mask_nolock_lem}
use salern_os_kernel.Signal.Check.{IsNext, com_ipc_signal_check_nolock_lem}
use salern_os_kernel.Signal.Send.{IsOffered, com_ipc_signal_send_to_proc_lem}
use salern_os_kernel.Signal.Deliver.{com_ipc_signal_check_nolock-com_ipc_signal_send_to_thread}

-- It waits, masks signal 2, and has signals 2 and 15 pending.
abbrev sleeper : Thread
sleeper = record {
  state = State.waiting;
  elsewhere = false;
  interrupted = false;
  pending_signals = 0x4002;
  masked_signals = 2;
}

-- It runs on another processor.
abbrev runner : Thread
runner = record {
  state = State.running;
  elsewhere = true;
  interrupted = false;
  pending_signals = 0;
  masked_signals = 0;
}

abbrev pair : Proc
pair = record {
  exited = false;
  stop_signal = none;
  pending_signals = 0;
  threads = sleeper ∷ runner ∷ [];
}

-- Signal 2 is pending on both threads, although only the second takes it.
send_run : com_ipc_signal_send_to_proc 18 (some pair) 2 ≡ (
  Errno.success,
  some (record pair {
    threads = sleeper ∷ record runner { pending_signals = 2; interrupted = true } ∷ [];
  }),
)
unfolding com_ipc_signal_send_to_proc offer send_to_thread
send_run = refl

check_run : com_ipc_signal_check_nolock sleeper ≡ some 15
unfolding com_ipc_signal_check_nolock
check_run = refl

com_ipc_signal_set_mask_nolock_lem_example :
    (mask' : ℕ) × (com_ipc_signal_set_mask_nolock 6 How.unblock (some 2) true ≡ (
      error_of How.unblock,
      mask',
      if true && is_success (error_of How.unblock) then some 6 else none,
    ))
    × (member 2 mask' ≡ changed How.unblock (member 2 6) (member 2 2))
    × (mask' < 2 ^ 64)
    × (com_ipc_signal_set_mask_nolock 6 How.unblock none true
        ≡ (Errno.success, 6, if true then some 6 else none))
com_ipc_signal_set_mask_nolock_lem_example =
    com_ipc_signal_set_mask_nolock_lem 6 2 2 How.unblock true (omega arith) (omega arith)
      (omega arith)

com_ipc_signal_check_nolock_lem_example : IsNext sleeper (com_ipc_signal_check_nolock sleeper)
com_ipc_signal_check_nolock_lem_example =
    com_ipc_signal_check_nolock_lem sleeper (omega arith) (omega arith)

com_ipc_signal_send_to_proc_lem_example :
    (found : Bool) × (threads : List Thread) × (com_ipc_signal_send_to_proc 18 (some pair) 2 ≡ (
      Errno.success,
      some (record pair {
        threads = threads;
        pending_signals =
            if found then pair.pending_signals else sigmask_set pair.pending_signals 2;
      }),
    ))
    × IsOffered 18 pair.stop_signal 2 pair.threads threads found
com_ipc_signal_send_to_proc_lem_example = com_ipc_signal_send_to_proc_lem 18 2 pair refl refl

com_ipc_signal_check_nolock-com_ipc_signal_send_to_thread_example :
    (t' : Thread) × (com_ipc_signal_send_to_thread 18 none sleeper 9 ≡ (Errno.success, t'))
    × (member 9 sleeper.masked_signals ≡ true
        → com_ipc_signal_check_nolock t' ≡ com_ipc_signal_check_nolock sleeper)
    × (member 9 sleeper.masked_signals ≡ false
        → (next : ℕ) × (com_ipc_signal_check_nolock t' ≡ some next)
          × (next ≤ 9)
          × ((next ≡ 9) ⊎ (com_ipc_signal_check_nolock sleeper ≡ some next)))
com_ipc_signal_check_nolock-com_ipc_signal_send_to_thread_example =
    com_ipc_signal_check_nolock-com_ipc_signal_send_to_thread 18 9 none sleeper refl (omega arith)
      (omega arith)
