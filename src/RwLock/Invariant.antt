-- ===== src/RwLock/Invariant.antt =====
-- What each step of the threads keeps: how the lock's fields count the threads, and who must be
-- ready when a thread waits.
use salern_os_kernel.Prelude.{
  ℕ, ◌+◌, ◌<◌, ◌≡◌, Bool, true, false, List, [], ◌∷◌, ◌++◌, length, length-append, arith,
  if◌then◌else◌,
}
use salern_os_kernel.Prelude.Word.{word}
use salern_os_kernel.Waitlist.Counts.{leave, join, notify_lengths}
use salern_os_kernel.RwLock.{
  krwlock_acquire_read, krwlock_release_read, write_test, krwlock_acquire_write,
  krwlock_release_write,
}
use salern_os_kernel.RwLock.System.{
  System, after_read, after_write, after_release_read, after_release_write, Step, Reach,
}

abbrev pub threads_of : System → ℕ
threads_of s =
    length s.idle
    + length s.reading
    + length s.writing
    + length s.ready_readers
    + length s.ready_writers
    + length s.lock.readers_waitlist
    + length s.lock.writers_waitlist

-- `idle` and the six lists' lengths, with the lock's fields.
abbrev pub Balance :
    (active : Bool) (readers waiting reading writing ready_writers readers_queue writers_queue : ℕ)
    → Type 0
Balance active readers waiting r w rw rq wq =
    (readers ≡ r)
    × (w ≡ (if active then 1 else 0))
    × (waiting ≡ wq + rw)
    × (active ≡ true → r ≡ 0)
    × (active ≡ false → r ≡ 0 → 0 < wq → 0 < rw)
    × (active ≡ false → waiting ≡ 0 → rq ≡ 0)

-- There are fewer than 2^64 threads; the fields count those that read, write and want to write;
-- nobody reads while the lock is written; if it is free and a writer waits, a writer is ready; if it
-- is not written and no writer wants it, no reader waits.
abbrev pub IsSound : System → Type 0
IsSound s =
    (threads_of s < word)
    × Balance s.lock.writer_active s.lock.active_readers s.lock.waiting_writers (length s.reading)
        (length s.writing) (length s.ready_writers) (length s.lock.readers_waitlist)
        (length s.lock.writers_waitlist)

IsSound-acquire_read :
    (s : System) (t : ℕ) (xs ys : List ℕ)
    → s.idle ≡ xs ++ t ∷ ys
    → IsSound s
    → IsSound (after_read t (record s { idle = xs ++ ys }) (krwlock_acquire_read t s.lock))
unfolding krwlock_acquire_read
IsSound-acquire_read s t xs ys e sound =
    let out = leave t xs ys s.idle e in
    let queued = join t s.lock.readers_waitlist in ground (arith, out, queued, sound)

IsSound-resume_read :
    (s : System) (t : ℕ) (xs ys : List ℕ)
    → s.ready_readers ≡ xs ++ t ∷ ys
    → IsSound s
    → IsSound (after_read t (record s { ready_readers = xs ++ ys }) (krwlock_acquire_read t s.lock))
unfolding krwlock_acquire_read
IsSound-resume_read s t xs ys e sound =
    let out = leave t xs ys s.ready_readers e in
    let queued = join t s.lock.readers_waitlist in ground (arith, out, queued, sound)

IsSound-acquire_write :
    (s : System) (t : ℕ) (xs ys : List ℕ)
    → s.idle ≡ xs ++ t ∷ ys
    → IsSound s
    → IsSound (after_write t (record s { idle = xs ++ ys }) (krwlock_acquire_write t s.lock))
unfolding krwlock_acquire_write
IsSound-acquire_write s t xs ys e sound =
    let out = leave t xs ys s.idle e in
    let queued = join t s.lock.writers_waitlist in ground (arith, out, queued, sound)

IsSound-resume_write :
    (s : System) (t : ℕ) (xs ys : List ℕ)
    → s.ready_writers ≡ xs ++ t ∷ ys
    → IsSound s
    → IsSound (after_write t (record s { ready_writers = xs ++ ys }) (write_test t s.lock))
unfolding write_test
IsSound-resume_write s t xs ys e sound =
    let out = leave t xs ys s.ready_writers e in
    let queued = join t s.lock.writers_waitlist in ground (arith, out, queued, sound)

IsSound-release_read :
    (s : System) (t : ℕ) (xs ys : List ℕ)
    → s.reading ≡ xs ++ t ∷ ys
    → IsSound s
    → IsSound (after_release_read t (record s { reading = xs ++ ys }) (krwlock_release_read s.lock))
unfolding krwlock_release_read
IsSound-release_read s t xs ys e sound =
    let out = leave t xs ys s.reading e in
    let woken = notify_lengths s.lock.writers_waitlist s.ready_writers in
    let same = length-append s.ready_writers [] in ground (arith, out, woken, same, sound)

IsSound-release_write :
    (s : System) (t : ℕ) (xs ys : List ℕ)
    → s.writing ≡ xs ++ t ∷ ys
    → IsSound s
    → IsSound
        (after_release_write t (record s { writing = xs ++ ys }) (krwlock_release_write s.lock))
unfolding krwlock_release_write
IsSound-release_write s t xs ys e sound =
    let out = leave t xs ys s.writing e in
    let woken = notify_lengths s.lock.writers_waitlist s.ready_writers in
    let same = length-append s.ready_writers [] in
    let all = length-append s.ready_readers s.lock.readers_waitlist in
    let none' = length-append s.ready_readers [] in
    ground (arith, out, woken, same, all, none', sound)

IsSound-Step : {s s' : System} → Step s s' → IsSound s → IsSound s'
IsSound-Step {s} (Step.acquire_read t xs ys e) sound = IsSound-acquire_read s t xs ys e sound
IsSound-Step {s} (Step.resume_read t xs ys e) sound = IsSound-resume_read s t xs ys e sound
IsSound-Step {s} (Step.release_read t xs ys e) sound = IsSound-release_read s t xs ys e sound
IsSound-Step {s} (Step.acquire_write t xs ys e) sound = IsSound-acquire_write s t xs ys e sound
IsSound-Step {s} (Step.resume_write t xs ys e) sound = IsSound-resume_write s t xs ys e sound
IsSound-Step {s} (Step.release_write t xs ys e) sound = IsSound-release_write s t xs ys e sound
IsSound-Step {s} (Step.signal_reader t xs ys e) sound =
    let out = leave t xs ys s.lock.readers_waitlist e in
    let ready = join t s.ready_readers in ground (arith, out, ready, sound)
IsSound-Step {s} (Step.signal_writer t xs ys e) sound =
    let out = leave t xs ys s.lock.writers_waitlist e in
    let ready = join t s.ready_writers in ground (arith, out, ready, sound)

pub Reach-IsSound :
    (threads : List ℕ) (s : System) → length threads < word → Reach threads s → IsSound s
Reach-IsSound threads s few Reach.start = ground arith
Reach-IsSound threads s few (Reach.later {s = before} r step) =
    IsSound-Step step (Reach-IsSound threads before few r)
