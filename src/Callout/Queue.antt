-- ===== src/Callout/Queue.antt =====
-- The operations that put a callout in the queue or take it out.
use salern_os_kernel.Prelude.{
  ℕ, suc, ◌≡◌, refl, true, false, List, [], ◌∷◌, ◌++◌, ◌||◌, ◌==◌, if◌then◌else◌, arith, sym, inl,
  inr, Bool-cases,
}
use salern_os_kernel.Callout.{
  Callout, Store, Timers, update, mark, insert_ordered, enqueue_callout, reclaim, callout_add_at,
  reschedule_at, set_and_enqueue, remove, cancel, destroy,
}
use salern_os_kernel.Callout.Order.{
  has, AllFrom, Sorted, IsWellFormed, at_ns, AllFrom-mono, Sorted-congr, has-insert, has-remove,
  Sorted-insert, Distinct-insert, Sorted-remove, Distinct-remove,
}

-- A callout outside the queue may be written freely while it is marked as such.
pub update-IsWellFormed :
    {t : Timers} (p : ℕ) (c : Callout)
    → IsWellFormed t
    → has p t.queue ≡ false
    → c.cpu_callout ≡ false
    → IsWellFormed (record t { heap = update t.heap p c })
update-IsWellFormed {t} p c w out off = record {
  sorted = Sorted-congr (update t.heap p c) t.heap t.queue (λ q i. ground arith) w.sorted;
  distinct = w.distinct;
  marked = λ q. ground (arith, w.marked q);
  alive = w.alive;
}

pub enqueue_callout-IsWellFormed :
    {t : Timers} (p : ℕ)
    → IsWellFormed t
    → has p t.queue ≡ false
    → has p t.freed ≡ false
    → IsWellFormed (enqueue_callout p t)
unfolding enqueue_callout
enqueue_callout-IsWellFormed {t} p w out live = record {
  sorted =
      Sorted-congr (mark t.heap p true) t.heap (insert_ordered t.heap p t.queue)
        (λ q i. ground arith) (Sorted-insert t.heap p t.queue w.sorted);
  distinct = Distinct-insert t.heap p t.queue out w.distinct;
  marked = λ q. ground (arith, w.marked q, has-insert t.heap p q t.queue);
  alive = λ q i. ground (arith, w.alive q, has-insert t.heap p q t.queue);
}

at_ns-nil : (h : Store) (n : ℕ) (qs : List ℕ) → AllFrom h (suc n) qs → at_ns h n qs ≡ []
unfolding at_ns
at_ns-nil h n [] a = refl
at_ns-nil h n (q ∷ qs) a = ground (arith, at_ns-nil h n qs)

-- Among equal deadlines the new entry comes last, and no other entry moves.
pub at_ns-insert :
    (h : Store) (n p : ℕ) (qs : List ℕ)
    → Sorted h qs
    → at_ns h n (insert_ordered h p qs)
      ≡ (if (h p).ns == n then at_ns h n qs ++ (p ∷ []) else at_ns h n qs)
unfolding at_ns insert_ordered
at_ns-insert h n p [] s = ground arith
at_ns-insert h n p (c ∷ cs) s =
    ground (arith, at_ns-insert h n p cs, at_ns-nil h n cs, AllFrom-mono h (suc n) (h c).ns cs)

at_ns_congr :
    (g h : Store) (n : ℕ) (qs : List ℕ)
    → ((q : ℕ) → has q qs ≡ true → (g q).ns ≡ (h q).ns)
    → at_ns g n qs ≡ at_ns h n qs
unfolding at_ns
at_ns_congr g h n [] same = refl
at_ns_congr g h n (q ∷ qs) same =
    ground (arith, same q, at_ns_congr g h n qs (λ r i. same r (ground arith)))

-- Rescheduling a callout that is neither queued nor freed keeps the queue well formed, adds that
-- callout and no other, and puts it behind every entry with the same deadline, whose order stays.
pub reschedule_at_lem :
    {t : Timers} (p ns : ℕ)
    → IsWellFormed t
    → has p t.queue ≡ false
    → has p t.freed ≡ false
    → let t' = reschedule_at p ns t in
      IsWellFormed t'
      × ((q : ℕ) → has q t'.queue ≡ ((q == p) || has q t.queue))
      × ((n : ℕ)
          → at_ns t'.heap n t'.queue
            ≡ (if ns == n then at_ns t.heap n t.queue ++ (p ∷ []) else at_ns t.heap n t.queue))
      × ((t'.heap p).ns ≡ ns)
      × ((t'.heap p).reuse ≡ true)
unfolding reschedule_at enqueue_callout
reschedule_at_lem {t} p ns w out live = (
  enqueue_callout-IsWellFormed p w' out live,
  λ q. has-insert h p q t.queue,
  λ n. ground (
    arith,
    at_ns_congr (mark h p true) h n (insert_ordered h p t.queue) (λ q i. ground arith),
    at_ns-insert h n p t.queue w'.sorted,
    at_ns_congr h t.heap n t.queue (λ q i. ground arith),
  ),
  ground arith,
  ground arith,
)
  where
    h : Store
    h = update t.heap p (record (t.heap p) { reuse = true; ns = ns })

    w' : IsWellFormed (record t { heap = h })
    w' = update-IsWellFormed p _ w out (ground (arith, w.marked p))

has-reclaim : (p q : ℕ) (l : List ℕ) → has q (reclaim p l) ≡ (if p == q then false else has q l)
unfolding reclaim
has-reclaim p q [] = ground arith
has-reclaim p q (c ∷ cs) = ground (arith, has-reclaim p q cs)

-- The slab allocator may hand out an address that was freed before.
pub callout_add_at-IsWellFormed :
    {t : Timers} (p handler arg ns : ℕ)
    → IsWellFormed t
    → has p t.queue ≡ false
    → IsWellFormed (callout_add_at p handler arg ns t)
unfolding callout_add_at
callout_add_at-IsWellFormed {t} p handler arg ns w out =
    enqueue_callout-IsWellFormed p reclaimed out (ground (arith, has-reclaim p p t.freed))
  where
    updated : IsWellFormed (record t {
      heap =
          update t.heap p
            (record (t.heap p) { handler = handler; arg = arg; ns = ns; reuse = false });
    })
    updated = update-IsWellFormed p _ w out (ground (arith, w.marked p))

    reclaimed : IsWellFormed (record t {
      heap =
          update t.heap p
            (record (t.heap p) { handler = handler; arg = arg; ns = ns; reuse = false });
      freed = reclaim p t.freed;
    })
    reclaimed = record {
      sorted = updated.sorted;
      distinct = updated.distinct;
      marked = updated.marked;
      alive = λ q i. ground (arith, has-reclaim p q t.freed, w.alive q i);
    }

pub set_and_enqueue-IsWellFormed :
    {t : Timers} (p handler delay : ℕ)
    → IsWellFormed t
    → has p t.queue ≡ false
    → has p t.freed ≡ false
    → IsWellFormed (set_and_enqueue p handler delay t)
unfolding set_and_enqueue
set_and_enqueue-IsWellFormed p handler delay w out live =
    enqueue_callout-IsWellFormed p (update-IsWellFormed p _ w out (ground (arith, w.marked p))) out
      live

remove_self : (p : ℕ) (qs : List ℕ) → has p qs ≡ false → remove p qs ≡ qs
unfolding remove
remove_self p [] out = refl
remove_self p (c ∷ cs) out = ground (arith, remove_self p cs)

-- Cancelling takes the callout out of the queue if it is there, keeps every other entry, and keeps
-- the queue well formed.
pub cancel_lem :
    {t : Timers} (p : ℕ)
    → IsWellFormed t
    → let t' = cancel p t in
      IsWellFormed t'
      × ((q : ℕ) → has q t'.queue ≡ (if p == q then false else has q t.queue))
      × (t'.queue ≡ remove p t.queue)
      × ((t'.heap p).cpu_callout ≡ false)
unfolding cancel
cancel_lem {t} p w = elim (Bool-cases (t.heap p).cpu_callout) [
  | inl on ↦ rw on (cancelled on)
  | inr off ↦ rw off (
    w,
    λ q. ground (arith, w.marked p),
    sym (remove_self p t.queue (ground (arith, w.marked p))),
    off,
  )
]
  where
    gone : (q : ℕ) → has q (remove p t.queue) ≡ (if p == q then false else has q t.queue)
    gone q = has-remove p q t.queue w.distinct

    cancelled :
        (t.heap p).cpu_callout ≡ true
        → IsWellFormed (record t { heap = mark t.heap p false; queue = remove p t.queue })
          × ((q : ℕ) → has q (remove p t.queue) ≡ (if p == q then false else has q t.queue))
          × (remove p t.queue ≡ remove p t.queue)
          × ((mark t.heap p false p).cpu_callout ≡ false)
    cancelled on = (
      record {
        sorted =
            Sorted-congr (mark t.heap p false) t.heap (remove p t.queue) (λ q i. ground arith)
              (Sorted-remove t.heap p t.queue w.sorted);
        distinct = Distinct-remove p t.queue w.distinct;
        marked = λ q. ground (arith, w.marked q, gone q);
        alive = λ q i. ground (arith, w.alive q, gone q);
      },
      gone,
      refl,
      ground arith,
    )

-- Destroying a callout, queued or not, keeps the queue well formed: what is freed has left it.
pub destroy-IsWellFormed : {t : Timers} (p : ℕ) → IsWellFormed t → IsWellFormed (destroy p t)
unfolding destroy
destroy-IsWellFormed {t} p w = record {
  sorted = u.0.sorted;
  distinct = u.0.distinct;
  marked = u.0.marked;
  alive = λ q i. ground (arith, u.0.alive q, u.1 q);
}
  where
    u :
        IsWellFormed (cancel p t)
        × ((q : ℕ) → has q (cancel p t).queue ≡ (if p == q then false else has q t.queue))
        × ((cancel p t).queue ≡ remove p t.queue)
        × (((cancel p t).heap p).cpu_callout ≡ false)
    u = cancel_lem p w
