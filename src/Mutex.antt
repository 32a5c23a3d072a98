-- ===== src/Mutex.antt =====
-- src/com/lib/mutex.c: the mutex. Each function holds the mutex's spinlock all the way, but between
-- two tries and where it waits: a definition here is the code from the acquisition of that spinlock,
-- or from the return of the wait, to its release or to the next wait. `CONFIG_MUTEX_RETRIES` is the
-- argument `retries` of the threads in Mutex/System.antt.
pub mod System
pub mod Invariant
pub mod Safety
mod Tests
use salern_os_kernel.Prelude.{
  ℕ, Bool, true, false, Option, none, some, List, [], ◌∷◌, if◌then◌else◌,
}
use salern_os_kernel.Waitlist.{sched_waitlist_insert, com_sys_sched_notify}

-- A thread is its number; `none` is the NULL of `owner`.
pub record Mutex : Type 0 where
  pub locked : Bool
  pub owner : Option ℕ
  pub waiters : List ℕ

-- `KMUTEX_INIT`
abbrev pub init : Mutex
init = record { locked = false; owner = none; waiters = [] }

-- `true` with the spinlock held; `false` for good; once more.
pub data Try : Type 0 where
  taken : Try
  given_up : Try
  again : Try

-- One turn of the loop of `try_acquire_internal`, where `on_this_cpu` says of a thread whether its
-- `last_cpu` is the processor that runs the loop. `none` is the read through a NULL owner.
unfoldable pub try_once : (on_this_cpu : ℕ → Bool) → Mutex → Option Try
try_once on_this_cpu m =
    if m.locked
    then elim m.owner [ none ↦ none | some t ↦ if on_this_cpu t then some given_up else some again ]
    else some taken

-- The label `take` of `kmutex_acquire_timeout`, and the end of `kmutex_try_acquire`.
abbrev pub take : (curr_thread : Option ℕ) → Mutex → Mutex
take curr_thread m = record m { locked = true; owner = curr_thread }

-- The loop that waits in `kmutex_acquire_timeout`: `true` if the thread has the mutex, `false` if it
-- waits. A thread that comes back from the wait in time does the same again.
unfoldable pub wait_test : (curr_thread : ℕ) → Mutex → Bool × Mutex
wait_test curr_thread m =
    if m.locked
    then (false, record m { waiters = sched_waitlist_insert m.waiters curr_thread })
    else (true, take (some curr_thread) m)

-- The mutex, and the threads made ready. `none` is the failed assertion.
unfoldable pub kmutex_release : Mutex → Option (Mutex × List ℕ)
unfolding com_sys_sched_notify
kmutex_release m =
    let (queue, ready) = com_sys_sched_notify m.waiters in
    if m.locked
    then some (record { locked = false; owner = none; waiters = queue }, ready)
    else none
