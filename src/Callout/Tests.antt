-- ===== src/Callout/Tests.antt =====
-- Runs of the timer multiplexer, and the theorems at concrete states.
use salern_os_kernel.Prelude.{
  ℕ, suc, ◌≤◌, ◌≡◌, ◌↔◌, refl, Bool, true, false, some, [], ◌∷◌, ◌++◌, ◌||◌, ◌==◌, if◌then◌else◌,
  arith,
}
use salern_os_kernel.Prelude.Word.{add64}
use salern_os_kernel.Callout.{
  Callout, Store, Timers, Fire, insert_ordered, reschedule_at, run, run_due, next_due, fire_one,
  sched_ns, reschedule,
}
use salern_os_kernel.Callout.Order.{has, AllFrom, IsWellFormed, at_ns, due}
use salern_os_kernel.Callout.Queue.{reschedule_at_lem}
use salern_os_kernel.Callout.Periodic.{reschedule-IsFair}
use mathlib.Core.Option
use salern_os_kernel.Callout.Run.{run_lem}
use salern_os_kernel.Callout.Fires.{Fires}

abbrev at : ℕ → Bool → Callout
at ns queued = record {
  ns = ns;
  handler = 0;
  arg = 0;
  reuse = false;
  permanent = false;
  cpu_callout = queued;
}

-- Callouts 1, 2 and 3 are queued; 4 was allocated; every other object is blank.
abbrev store : Store
store p =
    if p == 1
    then at 900_000 true
    else if p == 2
    then at 1_500_000 true
    else if p == 3
    then at 1_500_000 true
    else at 0 false

abbrev three : Timers
three = record {
  heap = store;
  queue = 1 ∷ 2 ∷ 3 ∷ [];
  ns = 0;
  next_preempt = 1_000_000;
  freed = 7 ∷ [];
}

three-IsWellFormed : IsWellFormed three
three-IsWellFormed = record {
  sorted = omega arith;
  distinct = (refl, (refl, (refl, tt)));
  marked = λ p. ground arith;
  alive = λ p i. ground arith;
}

insert_runs : insert_ordered store 4 (1 ∷ 2 ∷ 3 ∷ []) ≡ 4 ∷ 1 ∷ 2 ∷ 3 ∷ []
unfolding insert_ordered
insert_runs = refl

reschedule_runs : (reschedule_at 4 1_500_000 three).queue ≡ 1 ∷ 2 ∷ 3 ∷ 4 ∷ []
unfolding reschedule_at insert_ordered
reschedule_runs = refl

-- A handler that runs again 5 ms later.
abbrev periodic : Fire
periodic p t = reschedule p 5_000_000 t

run_runs : Option.map (λ r. r.1.queue) (run periodic true 9 three) ≡ some (2 ∷ 3 ∷ 1 ∷ [])
unfolding run run_due next_due fire_one reschedule insert_ordered
run_runs = refl

reschedule_at_lem_example :
    let t' = reschedule_at 4 1_500_000 three in
    IsWellFormed t'
    × ((q : ℕ) → has q t'.queue ≡ ((q == 4) || has q (1 ∷ 2 ∷ 3 ∷ [])))
    × ((n : ℕ)
        → at_ns t'.heap n t'.queue ≡ (
            if 1_500_000 == n
            then at_ns store n (1 ∷ 2 ∷ 3 ∷ []) ++ (4 ∷ [])
            else at_ns store n (1 ∷ 2 ∷ 3 ∷ [])))
    × ((t'.heap 4).ns ≡ 1_500_000)
    × ((t'.heap 4).reuse ≡ true)
reschedule_at_lem_example = reschedule_at_lem 4 1_500_000 three-IsWellFormed refl refl

due_three : due store 1_000_000 (1 ∷ 2 ∷ 3 ∷ []) ≡ 1
unfolding due
due_three = refl

run_lem_example :
    (resched : Bool) × (u : Timers) × (run periodic true 2 three ≡ some (resched, u))
    × ((v : Timers) × Fires periodic (record three { ns = 1_000_000 }) v
        × (u ≡ record v { next_preempt = u.next_preempt }))
    × IsWellFormed u
    × (u.ns ≡ 1_000_000)
    × AllFrom u.heap (suc u.ns) u.queue
    × ((resched ≡ true) ↔ (1_000_000 ≤ u.ns))
    × (u.next_preempt ≡ (if resched then add64 1_000_000 sched_ns else 1_000_000))
run_lem_example =
    run_lem periodic (reschedule-IsFair 5_000_000 (omega arith) (omega arith)) 2 three
      three-IsWellFormed (omega arith) (omega (arith, due_three))
