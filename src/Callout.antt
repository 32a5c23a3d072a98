-- ===== src/Callout.antt =====
-- src/com/sys/callout.c and include/kernel/com/sys/callout.h: the timer multiplexer.
-- The callout objects lie in a store addressed by pointers; the queue is the TAILQ of pointers of
-- the bootstrap processor. The spinlocks are not modelled: each function is one critical section,
-- and what happens while `com_sys_callout_run` has released the lock is part of `fire`.
pub mod Order
pub mod Periodic
pub mod Queue
pub mod Fires
pub mod Run
mod Tests
use salern_os_kernel.Prelude.{
  ℕ, zero, suc, ◌*◌, ◌≡◌, Bool, true, false, Option, none, some, List, [], ◌∷◌, ◌||◌, ltb, leb,
  ◌==◌, if◌then◌else◌,
}
use salern_os_kernel.Prelude.Word.{add64}

-- `com_callout_t`. `cpu_callout` is only compared with NULL: `false` stands for NULL. Handlers and
-- their arguments are opaque numbers.
pub record Callout : Type 0 where
  pub ns : ℕ
  pub handler : ℕ
  pub arg : ℕ
  pub reuse : Bool
  pub permanent : Bool
  pub cpu_callout : Bool

abbrev pub Store : Type 0
Store = ℕ → Callout

abbrev pub update : Store → ℕ → Callout → Store
update h p c q = if p == q then c else h q

-- `callout->cpu_callout = …`
abbrev pub mark : Store → ℕ → Bool → Store
mark h p b = update h p (record (h p) { cpu_callout = b })

-- `com_callout_queue_t` with the store, and the pointers given back to the slab allocator.
pub record Timers : Type 0 where
  pub heap : Store
  pub queue : List ℕ
  pub ns : ℕ
  pub next_preempt : ℕ
  pub freed : List ℕ

-- `ARCH_TIMER_NS` and `ARCH_SCHED_NS`
abbrev pub timer_ns : ℕ
timer_ns = 1_000_000

abbrev pub sched_ns : ℕ
sched_ns = 16_000_000

-- The walk of `enqueue_callout`: before the first later entry, else at the tail.
unfoldable pub insert_ordered : Store → ℕ → List ℕ → List ℕ
insert_ordered h p [] = p ∷ []
insert_ordered h p (c ∷ cs) =
    if ltb (h p).ns (h c).ns then p ∷ c ∷ cs else c ∷ insert_ordered h p cs

unfoldable pub enqueue_callout : ℕ → Timers → Timers
enqueue_callout p t = record t {
  queue = insert_ordered t.heap p t.queue;
  heap = mark t.heap p true;
}

-- What the slab allocator hands out is no longer free.
unfoldable pub reclaim : ℕ → List ℕ → List ℕ
reclaim p [] = []
reclaim p (c ∷ cs) = if p == c then reclaim p cs else c ∷ reclaim p cs

-- `p` is what the slab allocator returns. Fields that the source does not write keep the value that
-- the memory had.
unfoldable pub callout_add_at : ℕ → (handler arg ns : ℕ) → Timers → Timers
unfolding enqueue_callout reclaim
callout_add_at p handler arg ns t = enqueue_callout p (record t {
  heap =
      update t.heap p (record (t.heap p) { handler = handler; arg = arg; ns = ns; reuse = false });
  freed = reclaim p t.freed;
})

unfoldable pub callout_add : ℕ → (handler arg delay : ℕ) → Timers → Timers
unfolding callout_add_at
callout_add p handler arg delay t = callout_add_at p handler arg (add64 t.ns delay) t

unfoldable pub reschedule_at : ℕ → ℕ → Timers → Timers
unfolding enqueue_callout
reschedule_at p ns t =
    enqueue_callout p
      (record t { heap = update t.heap p (record (t.heap p) { reuse = true; ns = ns }) })

unfoldable pub reschedule : ℕ → ℕ → Timers → Timers
unfolding reschedule_at
reschedule p delay t = reschedule_at p (add64 t.ns delay) t

unfoldable pub set_and_enqueue : ℕ → (handler delay : ℕ) → Timers → Timers
unfolding enqueue_callout
set_and_enqueue p handler delay t = enqueue_callout p (record t {
  heap = update t.heap p (record (t.heap p) { handler = handler; ns = add64 t.ns delay });
})

-- `TAILQ_REMOVE` of an entry of the queue.
unfoldable pub remove : ℕ → List ℕ → List ℕ
remove p [] = []
remove p (c ∷ cs) = if p == c then cs else c ∷ remove p cs

unfoldable pub cancel : ℕ → Timers → Timers
unfolding remove
cancel p t =
    if (t.heap p).cpu_callout
    then record t { heap = mark t.heap p false; queue = remove p t.queue }
    else t

unfoldable pub destroy : ℕ → Timers → Timers
unfolding cancel
destroy p t = let t' = cancel p t in record t' { freed = p ∷ t'.freed }

-- `callout->handler(callout)`, with whatever else happens while the lock is released.
abbrev pub Fire : Type 0
Fire = ℕ → Timers → Timers

-- The entry leaves the queue before its handler runs.
unfoldable pub begin_fire : ℕ → List ℕ → Timers → Timers
begin_fire p rest t = record t {
  heap = update t.heap p (record (t.heap p) { reuse = false; cpu_callout = false });
  queue = rest;
}

-- An entry that is neither rescheduled nor permanent goes back to the slab allocator.
unfoldable pub end_fire : ℕ → Timers → Timers
end_fire p t =
    if (t.heap p).reuse || (t.heap p).permanent then t else record t { freed = p ∷ t.freed }

-- The end of `com_sys_callout_run`: is the slice over?
unfoldable pub preempt : Timers → Bool × Timers
preempt t =
    if leb t.next_preempt t.ns
    then (true, record t { next_preempt = add64 t.next_preempt sched_ns })
    else (false, t)

module _ (fire : Fire) where
  unfoldable pub fire_one : ℕ → List ℕ → Timers → Timers
  unfolding begin_fire end_fire
  fire_one p rest t = end_fire p (fire p (begin_fire p rest t))

  -- One round of the loop: `none` is `break`.
  unfoldable pub next_due : List ℕ → Timers → Option Timers
  next_due [] t = none
  next_due (p ∷ rest) t = if ltb t.ns (t.heap p).ns then none else some (fire_one p rest t)

  -- The loop; `none` means that the fuel ran out.
  unfoldable pub run_due : ℕ → Timers → Option Timers
  run_due zero t = none
  run_due (suc fuel) t = elim (next_due t.queue t) [ none ↦ some t | some t' ↦ run_due fuel t' ]

  -- `com_sys_callout_run` on the bootstrap processor or another; the Bool asks for a reschedule.
  unfoldable pub run : Bool → ℕ → Timers → Option (Bool × Timers)
  unfolding preempt
  run is_bsp fuel t =
      let t' = record t { ns = add64 t.ns timer_ns } in
      elim (if is_bsp then run_due fuel t' else some t') [ none ↦ none | some u ↦ some (preempt u) ]
