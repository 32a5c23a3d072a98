-- ===== src/Mutex/Safety.antt =====
-- What holds of every state that the threads reach.
use salern_os_kernel.Prelude.{
  ℕ, ◌+◌, ◌<◌, ◌≡◌, ◌⊎◌, inl, inr, refl, Bool, true, false, some, List, [], ◌∷◌, length, arith,
}
use salern_os_kernel.Mutex.{wait_test}
use salern_os_kernel.Mutex.System.{System, Step, Reach, after_wait}
use salern_os_kernel.Mutex.Invariant.{Reach-IsSound, Reach-IsAwake}

-- In every state that threads reach from an unused mutex, with timeouts and signals, nobody holds it
-- and it is unlocked, or exactly its owner holds it and it is locked; no thread has read through a
-- NULL owner, nor released a mutex that was not locked.
pub mutual_exclusion :
    (retries : ℕ) (timed : ℕ → Bool) (threads : List ℕ) (s : System)
    → Reach retries timed threads s
    → (((s.mutex.locked ≡ false) × (s.holding ≡ []))
        ⊎ ((t : ℕ) × (s.mutex.locked ≡ true) × (s.mutex.owner ≡ some t) × (s.holding ≡ t ∷ [])))
      × (s.faulted ≡ [])
mutual_exclusion retries timed threads s r = Reach-IsSound r

takes :
    (retries : ℕ) (timed : ℕ → Bool) (s : System) (queue : List ℕ)
    → s.ready ≡ queue
    → s.mutex.locked ≡ false
    → 0 < length queue
    → (s' : System) × (t : ℕ) × (rest : List ℕ) × (s.ready ≡ t ∷ rest)
      × (s'.ready ≡ rest)
      × Step retries timed s s'
      × (s'.holding ≡ t ∷ s.holding)
unfolding wait_test
takes retries timed s [] e free h = absurd (omega arith)
takes retries timed s (t ∷ queue) e free h = (
  after_wait t (record s { ready = queue }) (wait_test t s.mutex),
  t,
  queue,
  e,
  ground (arith, free),
  Step.resume t [] queue e,
  ground (arith, free),
)

-- Where no thread has a timeout, no wake-up is lost: in every state that threads reach from an unused
-- mutex, signals to waiting threads included, if nobody holds the mutex and a thread waits or is
-- back from the wait, then a thread that is back from the wait takes the mutex in one
-- step, in which it goes on.
pub mutex_no_lost_wakeup :
    (retries : ℕ) (timed : ℕ → Bool) (threads : List ℕ) (s : System)
    → ((t : ℕ) → timed t ≡ false)
    → Reach retries timed threads s
    → s.holding ≡ []
    → 0 < length s.mutex.waiters + length s.ready
    → (s' : System) × (t : ℕ) × (rest : List ℕ) × (s.ready ≡ t ∷ rest)
      × (s'.ready ≡ rest)
      × Step retries timed s s'
      × (s'.holding ≡ t ∷ [])
mutex_no_lost_wakeup retries timed threads s never r empty some_wait =
    let (held, fine) = Reach-IsSound r in
    let free : s.mutex.locked ≡ false = elim held [
      | inl (free, h) ↦ free
      | inr (t, locked, owned, h) ↦ absurd (ground (arith, h, empty))
    ] in
    let awake = Reach-IsAwake never r free in
    let (s', t, rest, front, left, step, h) =
      takes retries timed s s.ready refl free (ground (arith, awake, some_wait)) in
    (s', t, rest, front, left, step, ground (arith, h, empty))
