-- ===== src/Callout/Fires.antt =====
-- Which handlers a timer interrupt has to call, and that a round of the loop calls the next of them.
use salern_os_kernel.Prelude.{
  ℕ, suc, ◌≤◌, ◌≡◌, true, false, List, ◌∷◌, ◌||◌, ◌==◌, if◌then◌else◌, if_true, if_false, inl, inr,
  Bool-cases, subst,
}
use salern_os_kernel.Callout.{Timers, Fire, begin_fire, end_fire, fire_one}
use salern_os_kernel.Callout.Order.{AllFrom}

-- A callout that leaves the front of the queue, no longer marked.
abbrev pub taken : ℕ → List ℕ → Timers → Timers
taken p rest t = record t {
  heap = λ q. if p == q then record (t.heap p) { reuse = false; cpu_callout = false } else t.heap q;
  queue = rest;
}

-- The handlers that are to be called: of one callout after the other, each taken from the front of
-- the queue once its time has come and given back unless it was rescheduled or is permanent, until
-- nothing is due.
pub data Fires (fire : Fire) : Timers → Timers → Type 0 where
  settled : (t : Timers) → AllFrom t.heap (suc t.ns) t.queue → Fires fire t t
  keep :
      (t u : Timers) (p : ℕ) (rest : List ℕ)
      → t.queue ≡ p ∷ rest
      → (t.heap p).ns ≤ t.ns
      → ((fire p (taken p rest t)).heap p).reuse || ((fire p (taken p rest t)).heap p).permanent
        ≡ true
      → Fires fire (fire p (taken p rest t)) u
      → Fires fire t u
  give_back :
      (t u : Timers) (p : ℕ) (rest : List ℕ)
      → t.queue ≡ p ∷ rest
      → (t.heap p).ns ≤ t.ns
      → ((fire p (taken p rest t)).heap p).reuse || ((fire p (taken p rest t)).heap p).permanent
        ≡ false
      → Fires fire
          (record (fire p (taken p rest t)) { freed = p ∷ (fire p (taken p rest t)).freed })
          u
      → Fires fire t u

pub Fires-fire_one :
    (fire : Fire) (t u : Timers) (p : ℕ) (rest : List ℕ)
    → t.queue ≡ p ∷ rest
    → (t.heap p).ns ≤ t.ns
    → Fires fire (fire_one fire p rest t) u
    → Fires fire t u
unfolding fire_one begin_fire end_fire
Fires-fire_one fire t u p rest e le f =
    elim (Bool-cases
      (((fire p (taken p rest t)).heap p).reuse || ((fire p (taken p rest t)).heap p).permanent)) [
        | inl stays ↦
            Fires.keep t u p rest e le stays (subst (λ v. Fires fire v u) (if_true _ _ stays) f)
        | inr frees ↦
            Fires.give_back t u p rest e le frees
              (subst (λ v. Fires fire v u) (if_false _ _ frees) f)
      ]
