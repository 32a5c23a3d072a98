-- ===== src/Waitlist.antt =====
-- The waitlists of src/com/sys/sched.c. A waitlist is its queue of threads, the head first; a thread
-- is its number. Making a thread ready is to hand it out here: who uses a waitlist says what a ready
-- thread does next.
pub mod Counts
use salern_os_kernel.Prelude.{ℕ, zero, suc, Bool, List, [], ◌∷◌, ◌++◌, ◌==◌, if◌then◌else◌}

-- `sched_waitlist_insert`: what the thread that waits does before it drops the lock.
abbrev pub sched_waitlist_insert : List ℕ → (thread : ℕ) → List ℕ
sched_waitlist_insert queue thread = queue ++ thread ∷ []

-- The queue that is left, and the threads made ready.
unfoldable pub com_sys_sched_notify : List ℕ → List ℕ × List ℕ
com_sys_sched_notify [] = ([], [])
com_sys_sched_notify (next ∷ queue) = (queue, next ∷ [])

abbrev pub com_sys_sched_notify_all : List ℕ → List ℕ × List ℕ
com_sys_sched_notify_all queue = ([], queue)
