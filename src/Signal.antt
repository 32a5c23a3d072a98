-- ===== src/Signal.antt =====
-- src/com/ipc/signal.c: signal masks, the sending of signals and the choice of the next one. A signal
-- is its number; `none` is COM_IPC_SIGNAL_NONE. A mask is a number of 64 bits. `how` and the number of
-- SIGCONT come from the C library's <signal.h>: the first is a data type here, the second an argument.
pub mod Mask
pub mod Check
pub mod Send
pub mod Deliver
mod Tests
use Prim.Native.Nat.{bit_and, bit_or}
use salern_os_kernel.Prelude.{
  ℕ, zero, suc, ◌+◌, ◌-◌, ◌/◌, ◌%◌, ◌^◌, Bool, true, false, not, ◌&&◌, ◌||◌, Option, none, some,
  List, [], ◌∷◌, ltb, ◌==◌, if◌then◌else◌,
}
use salern_os_kernel.Prelude.Single.{not64}
use salern_os_kernel.Errno.{Errno}

-- `1UL << ((sig) - 1)`
abbrev pub bit_of : (sig : ℕ) → ℕ
bit_of sig = 2 ^ (sig - 1)

-- `COM_IPC_SIGNAL_SIGMASK_SET` and `COM_IPC_SIGNAL_SIGMASK_ISSET`
abbrev pub sigmask_set : (mask sig : ℕ) → ℕ
sigmask_set mask sig = bit_or mask (bit_of sig)

abbrev pub sigmask_is_set : (mask sig : ℕ) → Bool
sigmask_is_set mask sig = not (bit_and mask (bit_of sig) == 0)

-- `IS_VALID_SIGNAL`
abbrev pub is_valid_signal : ℕ → Bool
is_valid_signal sig = ltb 0 sig && ltb sig 64

pub data How : Type 0 where
  block : How
  set_mask : How
  unblock : How
  unknown : How

-- The error, `*mask` and `oset->sig[0]` as they are after it. `set` is `none` for NULL, `oset` is
-- `none` if nothing is written there.
unfoldable pub com_ipc_signal_set_mask_nolock :
    (mask : ℕ) → How → (set : Option ℕ) → (has_oset : Bool) → Errno × ℕ × Option ℕ
com_ipc_signal_set_mask_nolock mask how none has_oset =
    (Errno.success, mask, if has_oset then some mask else none)
com_ipc_signal_set_mask_nolock mask How.block (some set) has_oset =
    (Errno.success, bit_or mask set, if has_oset then some mask else none)
com_ipc_signal_set_mask_nolock mask How.set_mask (some set) has_oset =
    (Errno.success, set, if has_oset then some mask else none)
com_ipc_signal_set_mask_nolock mask How.unblock (some set) has_oset =
    (Errno.success, bit_and mask (not64 set), if has_oset then some mask else none)
com_ipc_signal_set_mask_nolock mask How.unknown (some set) has_oset = (Errno.einval, mask, none)

-- `__builtin_ffsl`: one more than the place of the lowest bit that is set, 0 if there is none.
unfoldable pub ffs_from : (bits place x : ℕ) → ℕ
ffs_from zero place x = 0
ffs_from (suc n) place x = if x % 2 == 1 then suc place else ffs_from n (suc place) (x / 2)

pub data State : Type 0 where
  new : State
  running : State
  ready : State
  waiting : State
  exited : State

-- `elsewhere`: its processor is another one than the sender's. `interrupted`: that processor has been
-- sent ARCH_CPU_IPI_SIGNAL.
pub record Thread : Type 0 where
  pub state : State
  pub elsewhere : Bool
  pub interrupted : Bool
  pub pending_signals : ℕ
  pub masked_signals : ℕ

unfoldable pub com_ipc_signal_check_nolock : (curr_thread : Thread) → Option ℕ
unfolding ffs_from
com_ipc_signal_check_nolock t =
    let to_service = bit_and t.pending_signals (not64 t.masked_signals) in
    if to_service == 0 then none else some (ffs_from 64 0 to_service)

-- 0, TKILL_STATUS_MASKED and TKILL_STATUS_BAD
pub data Status : Type 0 where
  sent : Status
  masked : Status
  bad : Status

-- `com_sys_sched_notify_thread_nolock` makes a waiting thread ready, `com_sys_sched_prioritize_nolock`
-- does nothing.
unfoldable pub wake : State → Thread → Thread
wake State.waiting t = record t { state = State.ready }
wake State.ready t = t
wake State.running t = if t.elsewhere then record t { interrupted = true } else t
wake State.exited t = t
wake State.new t = t

-- `COM_IPC_SIGNAL_NONE != thread->proc->stop_signal`
abbrev pub is_stopped : (stop_signal : Option ℕ) → Bool
is_stopped none = false
is_stopped (some sig) = true

unfoldable pub send_to_thread :
    (sigcont : ℕ) (stop_signal : Option ℕ) → Thread → (sig : ℕ) → Status × Thread
unfolding wake
send_to_thread sigcont stop_signal thread sig =
    let t = record thread { pending_signals = sigmask_set thread.pending_signals sig } in
    if sigmask_is_set t.masked_signals sig
    then (Status.masked, t)
    else if is_stopped stop_signal && not (sig == sigcont)
    then (Status.bad, t)
    else (Status.sent, wake t.state t)

pub record Proc : Type 0 where
  pub exited : Bool
  pub stop_signal : Option ℕ
  pub pending_signals : ℕ
  pub threads : List Thread

-- The loop of `send_to_proc`: whether a thread took the signal, and the threads.
unfoldable pub offer :
    (sigcont : ℕ) (stop_signal : Option ℕ) → List Thread → (sig : ℕ) → Bool × List Thread
offer sigcont stop_signal [] sig = (false, [])
offer sigcont stop_signal (t ∷ ts) sig =
    let rest = offer sigcont stop_signal ts sig in
    let (status, t') = send_to_thread sigcont stop_signal t sig in
    elim status [
      | sent ↦ (true, t' ∷ ts)
      | masked ↦ (rest.0, t' ∷ rest.1)
      | bad ↦ (rest.0, t' ∷ rest.1)
    ]

unfoldable pub send_to_proc : (sigcont : ℕ) → Proc → (sig : ℕ) → Errno × Proc
unfolding offer
send_to_proc sigcont proc sig =
    if proc.exited
    then (Errno.esrch, proc)
    else let (found, threads) = offer sigcont proc.stop_signal proc.threads sig in
      if found then (Errno.success, record proc { threads = threads }) else (
        Errno.success,
        record proc { threads = threads; pending_signals = sigmask_set proc.pending_signals sig },
      )

-- `proc` is what `com_sys_proc_get_by_pid` finds; `send_to_proc` of NULL is ESRCH. A negative `sig` is
-- refused as 0 is.
unfoldable pub com_ipc_signal_send_to_proc :
    (sigcont : ℕ) → Option Proc → (sig : ℕ) → Errno × Option Proc
unfolding send_to_proc
com_ipc_signal_send_to_proc sigcont proc sig =
    if not (is_valid_signal sig) then (Errno.einval, proc) else elim proc [
      | none ↦ (Errno.esrch, none)
      | some p ↦ let (err, p') = send_to_proc sigcont p sig in (err, some p')
    ]

-- `group` are the processes of what `com_sys_proc_get_group_by_pgid` finds.
unfoldable pub send_to_procs : (sigcont : ℕ) → List Proc → (sig : ℕ) → List Proc
unfolding send_to_proc
send_to_procs sigcont [] sig = []
send_to_procs sigcont (p ∷ ps) sig = (send_to_proc sigcont p sig).1 ∷ send_to_procs sigcont ps sig

unfoldable pub com_ipc_signal_send_to_proc_group :
    (sigcont : ℕ) → Option (List Proc) → (sig : ℕ) → Errno × Option (List Proc)
unfolding send_to_procs
com_ipc_signal_send_to_proc_group sigcont group sig =
    if not (is_valid_signal sig) then (Errno.einval, group) else elim group [
      | none ↦ (Errno.esrch, none)
      | some procs ↦ (Errno.success, some (send_to_procs sigcont procs sig))
    ]

unfoldable pub com_ipc_signal_send_to_thread :
    (sigcont : ℕ) (stop_signal : Option ℕ) → Thread → (sig : ℕ) → Errno × Thread
unfolding send_to_thread
com_ipc_signal_send_to_thread sigcont stop_signal thread sig =
    (Errno.success, (send_to_thread sigcont stop_signal thread sig).1)
