-- ===== src/RwLock/Tests.antt =====
-- Two threads: the first reads, the second wants to write, the first lets go.
use salern_os_kernel.Prelude.{◌≤◌, ◌<◌, ◌≡◌, refl, true, false, [], ◌∷◌, length, arith}
use salern_os_kernel.Waitlist.{com_sys_sched_notify}
use salern_os_kernel.RwLock.{
  krwlock_acquire_read, krwlock_acquire_write, krwlock_release_read, write_test,
}
use salern_os_kernel.RwLock.System.{System, Step, Reach}
use salern_os_kernel.RwLock.Safety.{ReadyTakes, exclusion, no_lost_wakeup}

-- The writer has been made ready, the lock is free.
abbrev handed_over : System
handed_over = record {
  lock = record {
    active_readers = 0;
    waiting_writers = 1;
    writer_active = false;
    readers_waitlist = [];
    writers_waitlist = [];
  };
  idle = 1 ∷ [];
  reading = [];
  writing = [];
  ready_readers = [];
  ready_writers = 2 ∷ [];
}

-- The writer has the lock, and the first thread waits to read.
abbrev written : System
written = record {
  lock = record {
    active_readers = 0;
    waiting_writers = 0;
    writer_active = true;
    readers_waitlist = 1 ∷ [];
    writers_waitlist = [];
  };
  idle = [];
  reading = [];
  writing = 2 ∷ [];
  ready_readers = [];
  ready_writers = [];
}

handed_over-Reach : Reach (1 ∷ 2 ∷ []) handed_over
unfolding krwlock_acquire_read krwlock_acquire_write krwlock_release_read com_sys_sched_notify
handed_over-Reach =
    Reach.later
      (Reach.later (Reach.later Reach.start (Step.acquire_read 1 [] (2 ∷ []) refl))
        (Step.acquire_write 2 [] [] refl))
      (Step.release_read 1 [] [] refl)

written-Reach : Reach (1 ∷ 2 ∷ []) written
unfolding krwlock_acquire_read write_test
written-Reach =
    Reach.later (Reach.later handed_over-Reach (Step.resume_write 2 [] [] refl))
      (Step.acquire_read 1 [] [] refl)

exclusion_example :
    (length written.writing ≤ 1) × (0 < length written.writing → written.reading ≡ [])
exclusion_example = exclusion (1 ∷ 2 ∷ []) written (omega arith) written-Reach

no_lost_wakeup_example : (s' : System) × Step handed_over s' × ReadyTakes handed_over s'
no_lost_wakeup_example =
    no_lost_wakeup (1 ∷ 2 ∷ []) handed_over (omega arith) handed_over-Reach refl refl (omega arith)
