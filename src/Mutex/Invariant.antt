-- ===== src/Mutex/Invariant.antt =====
-- What each step of the threads keeps.
use salern_os_kernel.Prelude.{
  ℕ, ◌<◌, ◌≡◌, ◌⊎◌, inl, inr, ◌∙◌, ap, refl, sym, Bool, true, false, Option, none, some, List, [],
  ◌∷◌, ◌++◌, length, arith, Bool-cases,
}
use salern_os_kernel.Waitlist.Counts.{leave, join, notify_lengths}
use salern_os_kernel.Mutex.{Mutex, Try, try_once, wait_test, kmutex_release}
use salern_os_kernel.Mutex.System.{
  System, Step, Reach, after_try, after_spin, after_wait, after_release,
}

-- The mutex is unlocked and nobody holds it, or the one who holds it is its owner.
abbrev pub IsHeld : Mutex → List ℕ → Type 0
IsHeld m holding =
    ((m.locked ≡ false) × (holding ≡ []))
    ⊎ ((t : ℕ) × (m.locked ≡ true) × (m.owner ≡ some t) × (holding ≡ t ∷ []))

-- If the mutex is unlocked and a thread waits, a thread is ready.
abbrev pub IsAwake : System → Type 0
IsAwake s = s.mutex.locked ≡ false → 0 < length s.mutex.waiters → 0 < length s.ready

abbrev pub IsSound : System → Type 0
IsSound s = IsHeld s.mutex s.holding × (s.faulted ≡ [])

-- What a try finds: never a NULL owner.
try_once-cases :
    (on : ℕ → Bool) (m : Mutex) (holding : List ℕ)
    → IsHeld m holding
    → ((try_once on m ≡ some Try.taken) × (m.locked ≡ false) × (holding ≡ []))
      ⊎ ((try_once on m ≡ some Try.given_up) ⊎ (try_once on m ≡ some Try.again))
unfolding try_once
try_once-cases on m holding (inl (free, empty)) = inl (ground (arith, free), free, empty)
try_once-cases on m holding (inr (t, locked, owned, h)) = elim (Bool-cases (on t)) [
  | inl here ↦ inr (inl (ground (arith, locked, owned, here)))
  | inr away ↦ inr (inr (ground (arith, locked, owned, away)))
]

IsSound-try :
    (s : System) (t : ℕ) (on : ℕ → Bool) (trying : List ℕ)
    → IsSound s
    → IsSound (after_try t (record s { trying = trying }) (try_once on s.mutex))
IsSound-try s t on trying (held, fine) = elim (try_once-cases on s.mutex s.holding held) [
  | inl (e, free, empty) ↦ rw e (inr (t, refl, refl, ap (λ h. t ∷ h) empty), fine)
  | inr (inl e) ↦ rw e (held, fine)
  | inr (inr e) ↦ rw e (held, fine)
]

IsSound-spin :
    (s : System) (t n : ℕ) (on : ℕ → Bool) (spinning : List (ℕ × ℕ))
    → IsSound s
    → IsSound (after_spin t n (record s { spinning = spinning }) (try_once on s.mutex))
IsSound-spin s t n on spinning (held, fine) = elim (try_once-cases on s.mutex s.holding held) [
  | inl (e, free, empty) ↦ rw e (inr (t, refl, refl, ap (λ h. t ∷ h) empty), fine)
  | inr (inl e) ↦ rw e (held, fine)
  | inr (inr e) ↦ rw e (held, fine)
]

IsSound-wait : (s : System) (t : ℕ) → IsSound s → IsSound (after_wait t s (wait_test t s.mutex))
unfolding wait_test
IsSound-wait s t (inl (free, empty), fine) = ground (arith, free, empty, fine)
IsSound-wait s t (inr (o, locked, owned, h), fine) = ground (arith, locked, owned, h, fine)

alone : (t o : ℕ) (xs ys : List ℕ) → o ∷ [] ≡ xs ++ t ∷ ys → xs ++ ys ≡ []
alone t o [] ys e = ground (arith, e)
alone t o (x ∷ xs) ys e = absurd (omega (arith, leave t (x ∷ xs) ys (o ∷ []) e))

IsSound-release :
    (s : System) (t : ℕ) (xs ys : List ℕ)
    → s.holding ≡ xs ++ t ∷ ys
    → IsSound s
    → IsSound (after_release t (record s { holding = xs ++ ys }) (kmutex_release s.mutex))
unfolding kmutex_release
IsSound-release s t xs ys e (inl (free, empty), fine) =
    absurd (omega (arith, leave t xs ys [] (sym empty ∙ e)))
IsSound-release s t xs ys e (inr (o, locked, owned, h), fine) =
    ground (arith, locked, fine, alone t o xs ys (sym h ∙ e))

IsSound-Step :
    {retries : ℕ} {timed : ℕ → Bool} {s s' : System}
    → Step retries timed s s'
    → IsSound s
    → IsSound s'
IsSound-Step (Step.start_try t xs ys e) sound = sound
IsSound-Step (Step.start_acquire t xs ys e) sound = sound
IsSound-Step {s = s} (Step.try_acquire t xs ys on e) sound = IsSound-try s t on (xs ++ ys) sound
IsSound-Step {s = s} (Step.spin t n xs ys on e) sound = IsSound-spin s t n on (xs ++ ys) sound
IsSound-Step (Step.spun t xs ys e) sound = sound
IsSound-Step {s = s} (Step.begin_wait t xs ys e) sound =
    IsSound-wait (record s { to_wait = xs ++ ys }) t sound
IsSound-Step {s = s} (Step.resume t xs ys e) sound =
    IsSound-wait (record s { ready = xs ++ ys }) t sound
IsSound-Step (Step.resume_expired t xs ys e) sound = sound
IsSound-Step {s = s} (Step.release t xs ys e) sound = IsSound-release s t xs ys e sound
IsSound-Step (Step.signal t xs ys e) sound = sound
IsSound-Step (Step.expire_waiting t xs ys on e) sound = sound
IsSound-Step (Step.expire_ready t xs ys on e) sound = sound

pub Reach-IsSound :
    {retries : ℕ} {timed : ℕ → Bool} {threads : List ℕ} {s : System}
    → Reach retries timed threads s
    → IsSound s
Reach-IsSound Reach.start = (inl (refl, refl), refl)
Reach-IsSound (Reach.later r step) = IsSound-Step step (Reach-IsSound r)

-- A mutex that is locked, or that has no more waiters and as many ready threads.
IsAwake-try :
    (s : System) (t : ℕ) (trying : List ℕ) (o : Option Try)
    → IsAwake s
    → IsAwake (after_try t (record s { trying = trying }) o)
IsAwake-try s t trying none awake = awake
IsAwake-try s t trying (some Try.taken) awake = λ free. absurd (ground (arith, free))
IsAwake-try s t trying (some Try.given_up) awake = awake
IsAwake-try s t trying (some Try.again) awake = awake

IsAwake-spin :
    (s : System) (t n : ℕ) (spinning : List (ℕ × ℕ)) (o : Option Try)
    → IsAwake s
    → IsAwake (after_spin t n (record s { spinning = spinning }) o)
IsAwake-spin s t n spinning none awake = awake
IsAwake-spin s t n spinning (some Try.taken) awake = λ free. absurd (ground (arith, free))
IsAwake-spin s t n spinning (some Try.given_up) awake = awake
IsAwake-spin s t n spinning (some Try.again) awake = awake

IsAwake-wait : (s : System) (t : ℕ) → IsAwake (after_wait t s (wait_test t s.mutex))
unfolding wait_test
IsAwake-wait s t = elim (Bool-cases s.mutex.locked) [
  | inl locked ↦ ground (arith, locked)
  | inr free ↦ ground (arith, free)
]

IsAwake-release :
    (s : System) (t : ℕ) (holding : List ℕ)
    → IsAwake s
    → IsAwake (after_release t (record s { holding = holding }) (kmutex_release s.mutex))
unfolding kmutex_release
IsAwake-release s t holding awake =
    let woken = notify_lengths s.mutex.waiters s.ready in
    elim (Bool-cases s.mutex.locked) [
      | inl locked ↦ ground (arith, locked, woken)
      | inr free ↦ ground (arith, free, awake)
    ]

IsAwake-signal :
    (s : System) (t : ℕ) (xs ys : List ℕ)
    → IsAwake
        (record s { mutex = record (s.mutex) { waiters = xs ++ ys }; ready = s.ready ++ t ∷ [] })
IsAwake-signal s t xs ys = λ free h. omega (arith, join t s.ready)

IsAwake-Step :
    {retries : ℕ} {timed : ℕ → Bool} {s s' : System}
    → ((t : ℕ) → timed t ≡ false)
    → Step retries timed s s'
    → IsAwake s
    → IsAwake s'
IsAwake-Step never (Step.start_try t xs ys e) awake = awake
IsAwake-Step never (Step.start_acquire t xs ys e) awake = awake
IsAwake-Step {s = s} never (Step.try_acquire t xs ys on e) awake =
    IsAwake-try s t (xs ++ ys) (try_once on s.mutex) awake
IsAwake-Step {s = s} never (Step.spin t n xs ys on e) awake =
    IsAwake-spin s t n (xs ++ ys) (try_once on s.mutex) awake
IsAwake-Step never (Step.spun t xs ys e) awake = awake
IsAwake-Step {s = s} never (Step.begin_wait t xs ys e) awake =
    IsAwake-wait (record s { to_wait = xs ++ ys }) t
IsAwake-Step {s = s} never (Step.resume t xs ys e) awake =
    IsAwake-wait (record s { ready = xs ++ ys }) t
IsAwake-Step never (Step.resume_expired t xs ys e) awake = awake
IsAwake-Step {s = s} never (Step.release t xs ys e) awake = IsAwake-release s t (xs ++ ys) awake
IsAwake-Step {s = s} never (Step.signal t xs ys e) awake = IsAwake-signal s t xs ys
IsAwake-Step never (Step.expire_waiting t xs ys on e) awake = absurd (ground (arith, never t, on))
IsAwake-Step never (Step.expire_ready t xs ys on e) awake = absurd (ground (arith, never t, on))

pub Reach-IsAwake :
    {retries : ℕ} {timed : ℕ → Bool} {threads : List ℕ} {s : System}
    → ((t : ℕ) → timed t ≡ false)
    → Reach retries timed threads s
    → IsAwake s
Reach-IsAwake never Reach.start = λ free h. h
Reach-IsAwake never (Reach.later r step) = IsAwake-Step never step (Reach-IsAwake never r)
