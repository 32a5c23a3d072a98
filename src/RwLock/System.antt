-- ===== src/RwLock/System.antt =====
-- Threads that use one lock, interleaved in any order. Each thread stands in one of the lists below
-- or in one of the lock's two waitlists.
use salern_os_kernel.Prelude.{ℕ, Bool, true, false, ◌≡◌, List, [], ◌∷◌, ◌++◌}
use salern_os_kernel.RwLock.{
  RwLock, init, krwlock_acquire_read, krwlock_release_read, write_test, krwlock_acquire_write,
  krwlock_release_write,
}

pub record System : Type 0 where
  pub lock : RwLock
  pub idle : List ℕ
  pub reading : List ℕ
  pub writing : List ℕ
  pub ready_readers : List ℕ
  pub ready_writers : List ℕ

-- Where a thread goes after the test of `krwlock_acquire_read`; it is in no list of `s`.
abbrev pub after_read : (thread : ℕ) → System → Bool × RwLock → System
after_read thread s (true, l) = record s { lock = l; reading = thread ∷ s.reading }
after_read thread s (false, l) = record s { lock = l }

abbrev pub after_write : (thread : ℕ) → System → Bool × RwLock → System
after_write thread s (true, l) = record s { lock = l; writing = thread ∷ s.writing }
after_write thread s (false, l) = record s { lock = l }

abbrev pub after_release_read : (thread : ℕ) → System → RwLock × List ℕ → System
after_release_read thread s (l, writers) = record s {
  lock = l;
  idle = thread ∷ s.idle;
  ready_writers = s.ready_writers ++ writers;
}

abbrev pub after_release_write : (thread : ℕ) → System → RwLock × List ℕ × List ℕ → System
after_release_write thread s (l, readers, writers) = record s {
  lock = l;
  idle = thread ∷ s.idle;
  ready_readers = s.ready_readers ++ readers;
  ready_writers = s.ready_writers ++ writers;
}

-- In each step, `xs ++ t ∷ ys` is the list that thread `t` leaves. The last two are a signal to a
-- thread that waits (`com_sys_sched_notify_thread_nolock`).
pub data Step (s : System) : System → Type 0 where
  acquire_read :
      (t : ℕ) (xs ys : List ℕ)
      → s.idle ≡ xs ++ t ∷ ys
      → Step s (after_read t (record s { idle = xs ++ ys }) (krwlock_acquire_read t s.lock))
  resume_read :
      (t : ℕ) (xs ys : List ℕ)
      → s.ready_readers ≡ xs ++ t ∷ ys
      → Step s
          (after_read t (record s { ready_readers = xs ++ ys }) (krwlock_acquire_read t s.lock))
  release_read :
      (t : ℕ) (xs ys : List ℕ)
      → s.reading ≡ xs ++ t ∷ ys
      → Step s
          (after_release_read t (record s { reading = xs ++ ys }) (krwlock_release_read s.lock))
  acquire_write :
      (t : ℕ) (xs ys : List ℕ)
      → s.idle ≡ xs ++ t ∷ ys
      → Step s (after_write t (record s { idle = xs ++ ys }) (krwlock_acquire_write t s.lock))
  resume_write :
      (t : ℕ) (xs ys : List ℕ)
      → s.ready_writers ≡ xs ++ t ∷ ys
      → Step s (after_write t (record s { ready_writers = xs ++ ys }) (write_test t s.lock))
  release_write :
      (t : ℕ) (xs ys : List ℕ)
      → s.writing ≡ xs ++ t ∷ ys
      → Step s
          (after_release_write t (record s { writing = xs ++ ys }) (krwlock_release_write s.lock))
  signal_reader :
      (t : ℕ) (xs ys : List ℕ)
      → s.lock.readers_waitlist ≡ xs ++ t ∷ ys
      → Step s (record s {
        lock = record (s.lock) { readers_waitlist = xs ++ ys };
        ready_readers = s.ready_readers ++ t ∷ [];
      })
  signal_writer :
      (t : ℕ) (xs ys : List ℕ)
      → s.lock.writers_waitlist ≡ xs ++ t ∷ ys
      → Step s (record s {
        lock = record (s.lock) { writers_waitlist = xs ++ ys };
        ready_writers = s.ready_writers ++ t ∷ [];
      })

-- Nobody uses the lock.
abbrev pub start_of : (threads : List ℕ) → System
start_of threads = record {
  lock = init;
  idle = threads;
  reading = [];
  writing = [];
  ready_readers = [];
  ready_writers = [];
}

pub data Reach (threads : List ℕ) : System → Type 0 where
  start : Reach threads (start_of threads)
  later : {s s' : System} → Reach threads s → Step s s' → Reach threads s'
