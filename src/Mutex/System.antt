-- ===== src/Mutex/System.antt =====
-- Threads that use one mutex, interleaved in any order. Each thread stands in one of the lists below
-- or in the mutex's waitlist.
use salern_os_kernel.Prelude.{
  ℕ, suc, Bool, true, false, Option, none, some, ◌≡◌, List, [], ◌∷◌, ◌++◌,
}
use salern_os_kernel.Mutex.{Mutex, init, Try, take, try_once, wait_test, kmutex_release}

-- `trying`: in `kmutex_try_acquire`; `spinning`: in `kmutex_acquire_timeout`, with the turns that are
-- left; `to_wait`: past these turns; `ready`: back from the wait; `expired`: back from the wait with
-- `timed_wait_expired`. `faulted` are threads that read through NULL or failed an assertion.
pub record System : Type 0 where
  pub mutex : Mutex
  pub idle : List ℕ
  pub trying : List ℕ
  pub spinning : List (ℕ × ℕ)
  pub to_wait : List ℕ
  pub ready : List ℕ
  pub expired : List ℕ
  pub holding : List ℕ
  pub faulted : List ℕ

abbrev acquired : (thread : ℕ) → System → System
acquired t s = record s { mutex = take (some t) s.mutex; holding = t ∷ s.holding }

abbrev pub after_try : (thread : ℕ) → System → Option Try → System
after_try t s none = record s { faulted = t ∷ s.faulted }
after_try t s (some Try.taken) = acquired t s
after_try t s (some Try.given_up) = record s { idle = t ∷ s.idle }
after_try t s (some Try.again) = record s { idle = t ∷ s.idle }

abbrev pub after_spin : (thread left : ℕ) → System → Option Try → System
after_spin t n s none = record s { faulted = t ∷ s.faulted }
after_spin t n s (some Try.taken) = acquired t s
after_spin t n s (some Try.given_up) = record s { to_wait = t ∷ s.to_wait }
after_spin t n s (some Try.again) = record s { spinning = (t, n) ∷ s.spinning }

abbrev pub after_wait : (thread : ℕ) → System → Bool × Mutex → System
after_wait t s (true, m) = record s { mutex = m; holding = t ∷ s.holding }
after_wait t s (false, m) = record s { mutex = m }

abbrev pub after_release : (thread : ℕ) → System → Option (Mutex × List ℕ) → System
after_release t s none = record s { faulted = t ∷ s.faulted }
after_release t s (some (m, ready)) = record s {
  mutex = m;
  idle = t ∷ s.idle;
  ready = s.ready ++ ready;
}

-- In each step, `xs ++ t ∷ ys` is the list that thread `t` leaves. A thread for which `timed` holds
-- has a timeout other than 0; its callout can fire as long as it has not been cancelled, which is
-- when the thread runs again. `on` answers for `last_cpu`, which can change from step to step.
pub data Step (retries : ℕ) (timed : ℕ → Bool) (s : System) : System → Type 0 where
  start_try :
      (t : ℕ) (xs ys : List ℕ)
      → s.idle ≡ xs ++ t ∷ ys
      → Step retries timed s (record s { idle = xs ++ ys; trying = t ∷ s.trying })
  start_acquire :
      (t : ℕ) (xs ys : List ℕ)
      → s.idle ≡ xs ++ t ∷ ys
      → Step retries timed s (record s { idle = xs ++ ys; spinning = (t, retries) ∷ s.spinning })
  try_acquire :
      (t : ℕ) (xs ys : List ℕ) (on : ℕ → Bool)
      → s.trying ≡ xs ++ t ∷ ys
      → Step retries timed s (after_try t (record s { trying = xs ++ ys }) (try_once on s.mutex))
  spin :
      (t n : ℕ) (xs ys : List (ℕ × ℕ)) (on : ℕ → Bool)
      → s.spinning ≡ xs ++ (t, suc n) ∷ ys
      → Step retries timed s
          (after_spin t n (record s { spinning = xs ++ ys }) (try_once on s.mutex))
  spun :
      (t : ℕ) (xs ys : List (ℕ × ℕ))
      → s.spinning ≡ xs ++ (t, 0) ∷ ys
      → Step retries timed s (record s { spinning = xs ++ ys; to_wait = t ∷ s.to_wait })
  begin_wait :
      (t : ℕ) (xs ys : List ℕ)
      → s.to_wait ≡ xs ++ t ∷ ys
      → Step retries timed s (after_wait t (record s { to_wait = xs ++ ys }) (wait_test t s.mutex))
  resume :
      (t : ℕ) (xs ys : List ℕ)
      → s.ready ≡ xs ++ t ∷ ys
      → Step retries timed s (after_wait t (record s { ready = xs ++ ys }) (wait_test t s.mutex))
  resume_expired :
      (t : ℕ) (xs ys : List ℕ)
      → s.expired ≡ xs ++ t ∷ ys
      → Step retries timed s (record s { expired = xs ++ ys; idle = t ∷ s.idle })
  release :
      (t : ℕ) (xs ys : List ℕ)
      → s.holding ≡ xs ++ t ∷ ys
      → Step retries timed s
          (after_release t (record s { holding = xs ++ ys }) (kmutex_release s.mutex))
  signal :
      (t : ℕ) (xs ys : List ℕ)
      → s.mutex.waiters ≡ xs ++ t ∷ ys
      → Step retries timed s
          (record s { mutex = record (s.mutex) { waiters = xs ++ ys }; ready = s.ready ++ t ∷ [] })
  expire_waiting :
      (t : ℕ) (xs ys : List ℕ)
      → timed t ≡ true
      → s.mutex.waiters ≡ xs ++ t ∷ ys
      → Step retries timed s
          (record s { mutex = record (s.mutex) { waiters = xs ++ ys }; expired = t ∷ s.expired })
  expire_ready :
      (t : ℕ) (xs ys : List ℕ)
      → timed t ≡ true
      → s.ready ≡ xs ++ t ∷ ys
      → Step retries timed s (record s { ready = xs ++ ys; expired = t ∷ s.expired })

-- Nobody uses the mutex.
abbrev pub start_of : (threads : List ℕ) → System
start_of threads = record {
  mutex = init;
  idle = threads;
  trying = [];
  spinning = [];
  to_wait = [];
  ready = [];
  expired = [];
  holding = [];
  faulted = [];
}

pub data Reach (retries : ℕ) (timed : ℕ → Bool) (threads : List ℕ) : System → Type 0 where
  start : Reach retries timed threads (start_of threads)
  later :
      {s s' : System}
      → Reach retries timed threads s
      → Step retries timed s s'
      → Reach retries timed threads s'
