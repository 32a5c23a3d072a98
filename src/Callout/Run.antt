-- ===== src/Callout/Run.antt =====
-- `com_sys_callout_run`: what the timer interrupt does to the queue.
use salern_os_kernel.Prelude.{
  ℕ, zero, suc, ◌+◌, ◌≤◌, ◌<◌, ◌^◌, ◌≡◌, ◌↔◌, refl, Bool, true, false, none, some, List, [], ◌∷◌,
  ◌||◌, ltb, leb, if◌then◌else◌, arith, inl, inr, Option-cases, Bool-cases, subst, sym, ◌∙◌, ap,
}
use salern_os_kernel.Prelude.Word.{add64}
use salern_os_kernel.Callout.{
  Store, Timers, timer_ns, sched_ns, Fire, begin_fire, end_fire, fire_one, next_due, run_due,
  preempt, run,
}
use salern_os_kernel.Callout.Fires.{Fires, Fires-fire_one}
use salern_os_kernel.Callout.Order.{
  has, AllFrom, Sorted, Distinct, IsWellFormed, due, AllFrom-mono, Sorted-congr,
}

-- Half of the range of the clock, some 292 years of uptime.
abbrev pub horizon : ℕ
horizon = 2 ^ 63

-- What the loop asks of a handler, called on a callout that is neither queued nor freed: it keeps
-- the queue well formed and leaves the clock and the next preemption alone, what it queues lies in the future, and it
-- queues its own callout again only by the functions that set `reuse`, or if that is permanent.
pub record IsFair (fire : Fire) : Type 0 where
  pub keeps :
      (p : ℕ) (t : Timers)
      → IsWellFormed t
      → has p t.queue ≡ false
      → has p t.freed ≡ false
      → IsWellFormed (fire p t)
  pub clock : (p : ℕ) (t : Timers) → (fire p t).ns ≡ t.ns
  pub slice : (p : ℕ) (t : Timers) → (fire p t).next_preempt ≡ t.next_preempt
  pub future :
      (p : ℕ) (t : Timers)
      → IsWellFormed t
      → has p t.queue ≡ false
      → t.ns < horizon
      → due (fire p t).heap t.ns (fire p t).queue ≤ due t.heap t.ns t.queue
  pub kept :
      (p : ℕ) (t : Timers)
      → has p t.queue ≡ false
      → has p (fire p t).queue ≡ true
      → ((fire p t).heap p).reuse || ((fire p t).heap p).permanent ≡ true

pub due_congr :
    (g h : Store) (n : ℕ) (qs : List ℕ)
    → ((q : ℕ) → has q qs ≡ true → (g q).ns ≡ (h q).ns)
    → due g n qs ≡ due h n qs
unfolding due
due_congr g h n [] same = refl
due_congr g h n (q ∷ qs) same =
    ground (arith, same q, due_congr g h n qs (λ r i. same r (ground arith)))

begin_fire-IsWellFormed :
    {t : Timers} (p : ℕ) (rest : List ℕ)
    → t.queue ≡ p ∷ rest
    → IsWellFormed t
    → IsWellFormed (begin_fire p rest t)
unfolding begin_fire
begin_fire-IsWellFormed {t} p rest e w = record {
  sorted = Sorted-congr (begin_fire p rest t).heap t.heap rest (λ q i. ground arith) s.1;
  distinct = d.1;
  marked = λ q. ground (arith, m q, d.0);
  alive = λ q i. ground (arith, l q);
}
  where
    s : Sorted t.heap (p ∷ rest)
    s = subst (Sorted t.heap) e w.sorted

    d : Distinct (p ∷ rest)
    d = subst Distinct e w.distinct

    m : (q : ℕ) → (t.heap q).cpu_callout ≡ has q (p ∷ rest)
    m q = w.marked q ∙ ap (has q) e

    l : (q : ℕ) → has q (p ∷ rest) ≡ true → has q t.freed ≡ false
    l q i = w.alive q (ap (has q) e ∙ i)

end_fire-IsWellFormed :
    {t : Timers} (p : ℕ)
    → IsWellFormed t
    → (has p t.queue ≡ true → (t.heap p).reuse || (t.heap p).permanent ≡ true)
    → IsWellFormed (end_fire p t)
unfolding end_fire
end_fire-IsWellFormed {t} p w kept = elim (Bool-cases ((t.heap p).reuse || (t.heap p).permanent)) [
  | inl stays ↦ rw stays w
  | inr frees ↦ rw frees (record {
    sorted = w.sorted;
    distinct = w.distinct;
    marked = w.marked;
    alive = λ q i. ground (arith, w.alive q, kept);
  })
]

ns-end_fire : (p : ℕ) (t : Timers) → (end_fire p t).ns ≡ t.ns
unfolding end_fire
ns-end_fire p t = ground arith

slice-end_fire : (p : ℕ) (t : Timers) → (end_fire p t).next_preempt ≡ t.next_preempt
unfolding end_fire
slice-end_fire p t = ground arith

due-end_fire :
    (p n : ℕ) (t : Timers) → due (end_fire p t).heap n (end_fire p t).queue ≡ due t.heap n t.queue
unfolding end_fire
due-end_fire p n t = ground arith

begin_fire_same :
    (p : ℕ) (rest : List ℕ) (t : Timers) (q : ℕ) → ((begin_fire p rest t).heap q).ns ≡ (t.heap q).ns
unfolding begin_fire
begin_fire_same p rest t q = ground arith

due-cons : (h : Store) (n p : ℕ) (qs : List ℕ) → (h p).ns ≤ n → due h n (p ∷ qs) ≡ 1 + due h n qs
unfolding due
due-cons h n p qs le = ground arith

ticked : {t : Timers} (n : ℕ) → IsWellFormed t → IsWellFormed (record t { ns = n })
ticked n w = record { sorted = w.sorted; distinct = w.distinct; marked = w.marked; alive = w.alive }

preempt-IsWellFormed : {t : Timers} → IsWellFormed t → IsWellFormed (preempt t).1
unfolding preempt
preempt-IsWellFormed {t} w = elim (Bool-cases (leb t.next_preempt t.ns)) [
  | inl over ↦
      rw over
        (record { sorted = w.sorted; distinct = w.distinct; marked = w.marked; alive = w.alive })
  | inr more ↦ rw more w
]

preempt-AllFrom :
    (t : Timers)
    → AllFrom t.heap (suc t.ns) t.queue
    → AllFrom (preempt t).1.heap (suc (preempt t).1.ns) (preempt t).1.queue
unfolding preempt
preempt-AllFrom t a = elim (Bool-cases (leb t.next_preempt t.ns)) [
  | inl over ↦ rw over a
  | inr more ↦ rw more a
]

slice_only : (t : Timers) → (preempt t).1 ≡ record t { next_preempt = (preempt t).1.next_preempt }
unfolding preempt
slice_only t = elim (Bool-cases (leb t.next_preempt t.ns)) [
  | inl over ↦ rw over refl
  | inr more ↦ rw more refl
]

module _ (fire : Fire) (fair : IsFair fire) where
  -- A round of the loop keeps the queue well formed and leaves one due entry less.
  fire_one_lem :
      {t : Timers} (p : ℕ) (rest : List ℕ)
      → t.queue ≡ p ∷ rest
      → IsWellFormed t
      → (t.heap p).ns ≤ t.ns
      → t.ns < horizon
      → IsWellFormed (fire_one fire p rest t)
        × ((fire_one fire p rest t).ns ≡ t.ns)
        × ((fire_one fire p rest t).next_preempt ≡ t.next_preempt)
        × (due (fire_one fire p rest t).heap t.ns (fire_one fire p rest t).queue
            < due t.heap t.ns t.queue)
  unfolding fire_one
  fire_one_lem {t} p rest e w le early = (
    end_fire-IsWellFormed p (fair.keeps p b wb out live) (fair.kept p b out),
    ns-end_fire p (fire p b) ∙ fair.clock p b,
    slice-end_fire p (fire p b) ∙ fair.slice p b,
    omega (
      arith,
      due-end_fire p t.ns (fire p b),
      fair.future p b wb out early,
      due_congr b.heap t.heap t.ns rest (λ q i. begin_fire_same p rest t q),
      due-cons t.heap t.ns p rest le,
      ap (due t.heap t.ns) e,
    ),
  )
    where
      b : Timers
      b = begin_fire p rest t

      wb : IsWellFormed b
      wb = begin_fire-IsWellFormed p rest e w

      out : has p b.queue ≡ false
      out = (subst Distinct e w.distinct).0

      live : has p b.freed ≡ false
      live = w.alive p (ap (has p) e ∙ (ground arith))

  next_due-none :
      (t : Timers) (qs : List ℕ)
      → Sorted t.heap qs
      → next_due fire qs t ≡ none
      → AllFrom t.heap (suc t.ns) qs
  unfolding next_due
  next_due-none t [] s e = tt
  next_due-none t (q ∷ qs) s e = ground (arith, AllFrom-mono t.heap (suc t.ns) (t.heap q).ns qs)

  next_due-some :
      {t : Timers} (qs : List ℕ) (u : Timers)
      → t.queue ≡ qs
      → IsWellFormed t
      → t.ns < horizon
      → next_due fire qs t ≡ some u
      → IsWellFormed u
        × (u.ns ≡ t.ns)
        × (u.next_preempt ≡ t.next_preempt)
        × (due u.heap t.ns u.queue < due t.heap t.ns t.queue)
        × ((v : Timers) → Fires fire u v → Fires fire t v)
  unfolding next_due
  next_due-some [] u eq w early e = cc
  next_due-some {t} (q ∷ qs) u eq w early e = elim (Bool-cases (ltb t.ns (t.heap q).ns)) [
    | inl later ↦ absurd (ground arith)
    | inr now ↦
        let step : fire_one fire q qs t ≡ u = ground arith in
        let (w', same, slice, less) = fire_one_lem q qs eq w (ground arith) early in
        rw (← step) (w', same, slice, less, (λ v. Fires-fire_one fire t v q qs eq (ground arith)))
  ]

  -- Before the horizon and with more fuel than entries that are due, the loop ends, the queue is well formed, the clock is
  -- unchanged, and every entry that is left lies in the future.
  pub run_due_total :
      (fuel : ℕ) (t : Timers)
      → IsWellFormed t
      → t.ns < horizon
      → due t.heap t.ns t.queue < fuel
      → (u : Timers) × (run_due fire fuel t ≡ some u)
        × IsWellFormed u
        × (u.ns ≡ t.ns)
        × (u.next_preempt ≡ t.next_preempt)
        × AllFrom u.heap (suc t.ns) u.queue
        × Fires fire t u
  unfolding run_due
  run_due_total zero t w early h = absurd (omega arith)
  run_due_total (suc fuel) t w early h = elim (Option-cases (next_due fire t.queue t)) [
    | inl e ↦
        let later = next_due-none t t.queue w.sorted e in
        (t, rw (run_due, e), w, refl, refl, later, Fires.settled t later)
    | inr (v, e) ↦
        let (w', same, slice, less, called) = next_due-some t.queue v refl w early e in
        let enough = subst (λ n. due v.heap n v.queue < fuel) (sym same) (omega arith) in
        let (u, ran, w'', same', slice', after, fires) =
          run_due_total fuel v w' (omega arith) enough in
        (
          u,
          rw (run_due, e) ran,
          w'',
          same' ∙ same,
          slice' ∙ slice,
          subst (λ n. AllFrom u.heap (suc n) u.queue) same after,
          called u fires,
        )
  ]

  -- A timer interrupt on the bootstrap processor, on a well-formed queue, with a clock that stays
  -- before 2^63, with handlers that are fair (they keep the queue well formed, leave the clock and the
  -- slice alone and queue nothing that is due) and with more fuel than entries that fall due: it
  -- returns; the clock has advanced by one tick; the handlers of the callouts that are due were called
  -- one after the other, each on the queue that its callout has left; the queue is well formed and
  -- holds only entries of the future; a reschedule is asked for exactly when the slice is over, and
  -- then the next one begins.
  pub run_lem :
      (fuel : ℕ) (t : Timers)
      → IsWellFormed t
      → t.ns + timer_ns < horizon
      → due t.heap (t.ns + timer_ns) t.queue < fuel
      → (resched : Bool) × (u : Timers) × (run fire true fuel t ≡ some (resched, u))
        × ((v : Timers) × Fires fire (record t { ns = t.ns + timer_ns }) v
            × (u ≡ record v { next_preempt = u.next_preempt }))
        × IsWellFormed u
        × (u.ns ≡ t.ns + timer_ns)
        × AllFrom u.heap (suc u.ns) u.queue
        × ((resched ≡ true) ↔ (t.next_preempt ≤ u.ns))
        × (u.next_preempt ≡ (if resched then add64 t.next_preempt sched_ns else t.next_preempt))
  unfolding run preempt
  run_lem fuel t w small enough =
      let clk : add64 t.ns timer_ns ≡ t.ns + timer_ns = omega arith in
      let w' = ticked (add64 t.ns timer_ns) w in
      let t' = record t { ns = add64 t.ns timer_ns } in
      let enough' = subst (λ n. due t.heap n t.queue < fuel) (sym clk) enough in
      let (u, ran, wu, same, slice, after, fires) =
        run_due_total fuel t' w' (omega arith) enough' in
      (
        (preempt u).0,
        (preempt u).1,
        rw (run, ran),
        (u, subst (λ n. Fires fire (record t { ns = n }) u) clk fires, slice_only u),
        preempt-IsWellFormed wu,
        ground arith,
        preempt-AllFrom u (subst (λ n. AllFrom u.heap (suc n) u.queue) (sym same) after),
        ground arith,
        ground arith,
      )
