-- ===== src/Mutex/Tests.antt =====
-- Threads on one processor that use a mutex with 60 tries (`CONFIG_MUTEX_RETRIES`).
use salern_os_kernel.Prelude.{
  ℕ, ◌≡◌, ◌⊎◌, refl, Bool, true, false, some, none, [], ◌∷◌, List, ◌==◌, arith,
}
use salern_os_kernel.Waitlist.{com_sys_sched_notify}
use salern_os_kernel.Mutex.{try_once, wait_test, kmutex_release}
use salern_os_kernel.Mutex.System.{System, Step, Reach}
use salern_os_kernel.Mutex.Safety.{mutual_exclusion, mutex_no_lost_wakeup}

abbrev same_cpu : ℕ → Bool
same_cpu t = true

abbrev untimed : ℕ → Bool
untimed t = false

-- Thread 2 has a timeout.
abbrev second_timed : ℕ → Bool
second_timed t = t == 2

-- Thread 1 holds the mutex, and the others wait in the order of the list.
abbrev held_with : (waiters : List ℕ) → System
held_with waiters = record {
  mutex = record { locked = true; owner = some 1; waiters = waiters };
  idle = [];
  trying = [];
  spinning = [];
  to_wait = [];
  ready = [];
  expired = [];
  holding = 1 ∷ [];
  faulted = [];
}

two_threads :
    (timed : ℕ → Bool)
    → (later : List ℕ)
    → Reach 60 timed (1 ∷ 2 ∷ later) (record (held_with (2 ∷ [])) { idle = later })
unfolding try_once wait_test
two_threads timed later =
    Reach.later
      (Reach.later
        (Reach.later
          (Reach.later (Reach.later Reach.start (Step.start_acquire 1 [] (2 ∷ later) refl))
            (Step.spin 1 59 [] [] same_cpu refl))
          (Step.start_acquire 2 [] later refl))
        (Step.spin 2 59 [] [] same_cpu refl))
      (Step.begin_wait 2 [] [] refl)

mutual_exclusion_example :
    (((held_with (2 ∷ [])).mutex.locked ≡ false) × ((held_with (2 ∷ [])).holding ≡ [])
      ⊎ ((t : ℕ) × ((held_with (2 ∷ [])).mutex.locked ≡ true)
          × ((held_with (2 ∷ [])).mutex.owner ≡ some t)
          × ((held_with (2 ∷ [])).holding ≡ t ∷ [])))
    × ((held_with (2 ∷ [])).faulted ≡ [])
mutual_exclusion_example =
    mutual_exclusion 60 second_timed (1 ∷ 2 ∷ []) (held_with (2 ∷ [])) (two_threads second_timed [])

-- Thread 1 has released the mutex to thread 2.
abbrev released : System
released = record {
  mutex = record { locked = false; owner = none; waiters = [] };
  idle = 1 ∷ [];
  trying = [];
  spinning = [];
  to_wait = [];
  ready = 2 ∷ [];
  expired = [];
  holding = [];
  faulted = [];
}

released-Reach : Reach 60 untimed (1 ∷ 2 ∷ []) released
unfolding kmutex_release com_sys_sched_notify
released-Reach = Reach.later (two_threads untimed []) (Step.release 1 [] [] refl)

mutex_no_lost_wakeup_example :
    (s' : System) × (t : ℕ) × (rest : List ℕ) × (2 ∷ [] ≡ t ∷ rest)
    × (s'.ready ≡ rest)
    × Step 60 untimed released s'
    × (s'.holding ≡ t ∷ [])
mutex_no_lost_wakeup_example =
    mutex_no_lost_wakeup 60 untimed (1 ∷ 2 ∷ []) released (λ t. refl) released-Reach refl
      (omega arith)

-- The timeout of thread 2 fires after it was made ready and before it runs: it goes away, the mutex
-- is unlocked, and thread 3 sleeps on.
abbrev forgotten : System
forgotten = record {
  mutex = record { locked = false; owner = none; waiters = 3 ∷ [] };
  idle = 2 ∷ 1 ∷ [];
  trying = [];
  spinning = [];
  to_wait = [];
  ready = [];
  expired = [];
  holding = [];
  faulted = [];
}

forgotten-Reach : Reach 60 second_timed (1 ∷ 2 ∷ 3 ∷ []) forgotten
unfolding try_once wait_test kmutex_release com_sys_sched_notify
forgotten-Reach =
    Reach.later
      (Reach.later
        (Reach.later
          (Reach.later
            (Reach.later
              (Reach.later (two_threads second_timed (3 ∷ [])) (Step.start_acquire 3 [] [] refl))
              (Step.spin 3 59 [] [] same_cpu refl))
            (Step.begin_wait 3 [] [] refl))
          (Step.release 1 [] [] refl))
        (Step.expire_ready 2 [] [] refl refl))
      (Step.resume_expired 2 [] [] refl)
