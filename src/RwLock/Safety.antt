-- ===== src/RwLock/Safety.antt =====
-- What holds of every state that the threads reach.
use salern_os_kernel.Prelude.{
  ℕ, ◌+◌, ◌≤◌, ◌<◌, ◌≡◌, ◌⊎◌, inl, inr, ap, subst, refl, true, false, List, [], ◌∷◌, ◌++◌, length,
  arith,
}
use salern_os_kernel.Prelude.Word.{word}
use salern_os_kernel.RwLock.{RwLock, krwlock_acquire_read, write_test}
use salern_os_kernel.RwLock.System.{System, Step, Reach, after_read, after_write}
use salern_os_kernel.RwLock.Invariant.{IsSound, Reach-IsSound}

length-zero : (xs : List ℕ) → length xs ≡ 0 → xs ≡ []
length-zero [] e = refl
length-zero (x ∷ xs) e = absurd (omega arith)

-- In every state that fewer than 2^64 threads reach from an unused lock, at most one thread has the
-- lock for writing, and while one has, no thread has it for reading.
pub exclusion :
    (threads : List ℕ) (s : System)
    → length threads < word
    → Reach threads s
    → (length s.writing ≤ 1) × (0 < length s.writing → s.reading ≡ [])
exclusion threads s few r =
    let sound = Reach-IsSound threads s few r in
    (ground (arith, sound), (λ h. length-zero s.reading (ground (arith, sound, h))))

abbrev pub waiting : System → ℕ
waiting s =
    length s.ready_readers
    + length s.ready_writers
    + length s.lock.readers_waitlist
    + length s.lock.writers_waitlist

-- A ready thread resumes and has the lock, alone, for writing or for reading.
abbrev pub ReadyTakes : System → System → Type 0
ReadyTakes s s' =
    (t : ℕ) × (xs : List ℕ) × (ys : List ℕ) × (((s.ready_writers ≡ xs ++ t ∷ ys)
        × (s'.ready_writers ≡ xs ++ ys)
        × (s'.writing ≡ t ∷ [])
        × (s'.reading ≡ []))
      ⊎ ((s.ready_readers ≡ xs ++ t ∷ ys)
          × (s'.ready_readers ≡ xs ++ ys)
          × (s'.reading ≡ t ∷ [])
          × (s'.writing ≡ [])))

write_test_free :
    (t : ℕ) (l : RwLock)
    → l.writer_active ≡ false
    → l.active_readers ≡ 0
    → (l' : RwLock) × (write_test t l ≡ (true, l'))
unfolding write_test
write_test_free t l free unread = ((write_test t l).1, ground (arith, free, unread))

acquire_read_free :
    (t : ℕ) (l : RwLock)
    → l.writer_active ≡ false
    → l.waiting_writers ≡ 0
    → (l' : RwLock) × (krwlock_acquire_read t l ≡ (true, l'))
unfolding krwlock_acquire_read
acquire_read_free t l free unwanted = ((krwlock_acquire_read t l).1, ground (arith, free, unwanted))

takes_write :
    (s : System) (queue : List ℕ)
    → s.ready_writers ≡ queue
    → s.reading ≡ []
    → s.writing ≡ []
    → s.lock.writer_active ≡ false
    → s.lock.active_readers ≡ 0
    → 0 < length queue
    → (s' : System) × Step s s' × ReadyTakes s s'
takes_write s [] e unread unwritten free none_active h = absurd (omega arith)
takes_write s (t ∷ queue) e unread unwritten free none_active h =
    let (l, took) = write_test_free t s.lock free none_active in
    let s₀ : System = record s { ready_writers = queue } in
    (
      after_write t s₀ (true, l),
      subst (λ r. Step s (after_write t s₀ r)) took (Step.resume_write t [] queue e),
      (t, [], queue, inl (e, refl, ap (λ w. t ∷ w) unwritten, unread)),
    )

takes_read :
    (s : System) (queue : List ℕ)
    → s.ready_readers ≡ queue
    → s.reading ≡ []
    → s.writing ≡ []
    → s.lock.writer_active ≡ false
    → s.lock.waiting_writers ≡ 0
    → 0 < length queue
    → (s' : System) × Step s s' × ReadyTakes s s'
takes_read s [] e unread unwritten free unwanted h = absurd (omega arith)
takes_read s (t ∷ queue) e unread unwritten free unwanted h =
    let (l, took) = acquire_read_free t s.lock free unwanted in
    let s₀ : System = record s { ready_readers = queue } in
    (
      after_read t s₀ (true, l),
      subst (λ r. Step s (after_read t s₀ r)) took (Step.resume_read t [] queue e),
      (t, [], queue, inr (e, refl, ap (λ w. t ∷ w) unread, unwritten)),
    )

-- No wake-up is lost: in every state that fewer than 2^64 threads reach from an unused lock, signals
-- to waiting threads included, if no thread has the lock and some thread is in the middle of an
-- acquisition, asleep or made ready, then there is a ready thread, woken and not yet resumed, that
-- takes the lock in one step, in which it resumes.
pub no_lost_wakeup :
    (threads : List ℕ) (s : System)
    → length threads < word
    → Reach threads s
    → s.reading ≡ []
    → s.writing ≡ []
    → 0 < waiting s
    → (s' : System) × Step s s' × ReadyTakes s s'
no_lost_wakeup threads s few r unread unwritten some_wait =
    let sound = Reach-IsSound threads s few r in
    let no_reader = ap length unread in
    let no_writer = ap length unwritten in
    let free : s.lock.writer_active ≡ false = ground (arith, sound, no_writer) in
    let readers : s.lock.active_readers ≡ 0 = ground (arith, sound, no_reader) in
    go (s.ready_writers) refl sound free readers
  where
    go :
        (queue : List ℕ)
        → s.ready_writers ≡ queue
        → IsSound s
        → s.lock.writer_active ≡ false
        → s.lock.active_readers ≡ 0
        → (s' : System) × Step s s' × ReadyTakes s s'
    go [] e sound free readers =
        let none_ready = ap length e in
        let unwanted : s.lock.waiting_writers ≡ 0 =
          ground (arith, sound, none_ready, free, readers) in
        takes_read s s.ready_readers refl unread unwritten free unwanted
          (ground (arith, sound, none_ready, free, readers, unwanted, some_wait))
    go (t ∷ queue) e sound free readers =
        takes_write s (t ∷ queue) e unread unwritten free readers (omega arith)
