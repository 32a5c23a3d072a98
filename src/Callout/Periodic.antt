-- ===== src/Callout/Periodic.antt =====
-- Handlers that reschedule their own callout, as those of the terminal refresh and of setitimer.
use salern_os_kernel.Prelude.{
  ℕ, ◌+◌, ◌<◌, ◌≡◌, refl, true, false, List, [], ◌∷◌, ltb, if◌then◌else◌, arith,
}
use salern_os_kernel.Prelude.Word.{add64}
use salern_os_kernel.Callout.{
  Store, Timers, insert_ordered, enqueue_callout, reschedule_at, reschedule, mark, update,
}
use salern_os_kernel.Callout.Order.{has, due}
use salern_os_kernel.Callout.Queue.{reschedule_at_lem}
use salern_os_kernel.Callout.Run.{IsFair, horizon, due_congr}

due-insert :
    (h : Store) (n p : ℕ) (qs : List ℕ)
    → due h n (insert_ordered h p qs) ≡ (if ltb n (h p).ns then 0 else 1) + due h n qs
unfolding insert_ordered due
due-insert h n p [] = refl
due-insert h n p (c ∷ cs) = ground (arith, due-insert h n p cs)

due-reschedule :
    (delay p : ℕ) (t : Timers)
    → 0 < delay
    → delay < horizon
    → has p t.queue ≡ false
    → t.ns < horizon
    → due (reschedule p delay t).heap t.ns (reschedule p delay t).queue ≡ due t.heap t.ns t.queue
unfolding reschedule reschedule_at enqueue_callout
due-reschedule delay p t pos small out early = ground (
  arith,
  due_congr (mark h p true) h t.ns (insert_ordered h p t.queue) (λ q i. ground arith),
  due-insert h t.ns p t.queue,
  due_congr h t.heap t.ns t.queue (λ q i. ground arith),
  later,
)
  where
    h : Store
    h = update t.heap p (record (t.heap p) { reuse = true; ns = add64 t.ns delay })

    later : ltb t.ns (h p).ns ≡ true
    later = ground arith

-- A handler that reschedules its callout after a positive delay below the horizon meets every
-- demand of the loop.
pub reschedule-IsFair :
    (delay : ℕ) → 0 < delay → delay < horizon → IsFair (λ p t. reschedule p delay t)
unfolding reschedule
reschedule-IsFair delay pos small = record {
  keeps = λ p t w out live. (reschedule_at_lem p (add64 t.ns delay) w out live).0;
  clock = λ p t. refl;
  slice = λ p t. refl;
  future = λ p t w out early. omega (arith, due-reschedule delay p t pos small out early);
  kept = λ p t out inside. ground arith;
}
