-- ===== src/Signal/Send.antt =====
-- Which threads of a process get a signal.
use salern_os_kernel.Prelude.{
  ℕ, ◌≡◌, ◌∙◌, ◌⊎◌, inl, inr, refl, sym, ap, subst, Bool, true, false, not, ◌&&◌, ◌||◌, Option,
  some, List, [], ◌∷◌, ◌++◌, map, ◌==◌, arith, Bool-cases, if◌then◌else◌,
}
use salern_os_kernel.Errno.{Errno}
use salern_os_kernel.Signal.{
  State, Thread, Proc, Status, is_stopped, is_valid_signal, sigmask_set, wake, send_to_thread,
  offer, com_ipc_signal_send_to_proc,
}
use salern_os_kernel.Signal.Mask.{member, sigmask_is_set-member}

-- The thread does not take the signal at once: it has masked it, or the process is stopped.
abbrev pub refuses : (sigcont : ℕ) (stop_signal : Option ℕ) (sig : ℕ) → Thread → Bool
refuses sigcont stop sig t =
    member sig t.masked_signals || (is_stopped stop && not (sig == sigcont))

abbrev pub AllRefuse : (sigcont : ℕ) (stop_signal : Option ℕ) (sig : ℕ) → List Thread → Type 0
AllRefuse sigcont stop sig [] = Unit {0}
AllRefuse sigcont stop sig (t ∷ ts) =
    (refuses sigcont stop sig t ≡ true) × AllRefuse sigcont stop sig ts

-- The thread with the signal pending.
abbrev pub mark : (sig : ℕ) → Thread → Thread
mark sig t = record t { pending_signals = sigmask_set t.pending_signals sig }

-- A thread that waits is made ready; any other keeps its state.
abbrev pub woken_state : State → State
woken_state State.new = State.new
woken_state State.running = State.running
woken_state State.ready = State.ready
woken_state State.waiting = State.ready
woken_state State.exited = State.exited

-- A thread that runs on another processor is interrupted.
abbrev pub is_interrupted : State → (elsewhere : Bool) → Bool
is_interrupted State.new elsewhere = false
is_interrupted State.running elsewhere = elsewhere
is_interrupted State.ready elsewhere = false
is_interrupted State.waiting elsewhere = false
is_interrupted State.exited elsewhere = false

-- What a thread in this state becomes: ready if it waits, interrupted if it runs elsewhere.
abbrev pub roused : State → Thread → Thread
roused s t = record t {
  state = woken_state s;
  interrupted = is_interrupted s t.elsewhere || t.interrupted;
}

interrupt_if :
    (t : Thread) (b : Bool)
    → (if b then record t { interrupted = true } else t)
      ≡ record t { interrupted = b || t.interrupted }
interrupt_if t true = refl
interrupt_if t false = refl

wake-roused : (s : State) (t : Thread) → t.state ≡ s → wake s t ≡ roused s t
unfolding wake
wake-roused State.new t e = ap (λ s. record t { state = s }) e
wake-roused State.running t e =
    interrupt_if t t.elsewhere
    ∙ ap (λ s. record t { state = s; interrupted = t.elsewhere || t.interrupted }) e
wake-roused State.ready t e = ap (λ s. record t { state = s }) e
wake-roused State.waiting t e = refl
wake-roused State.exited t e = ap (λ s. record t { state = s }) e

-- A marked thread, made ready or interrupted.
abbrev pub take_signal : (sig : ℕ) → Thread → Thread
take_signal sig t = roused t.state (mark sig t)

pub send_to_thread_refused :
    (sigcont : ℕ) (stop : Option ℕ) (t : Thread) (sig : ℕ)
    → refuses sigcont stop sig t ≡ true
    → (send_to_thread sigcont stop t sig ≡ (Status.masked, mark sig t))
      ⊎ (send_to_thread sigcont stop t sig ≡ (Status.bad, mark sig t))
unfolding send_to_thread
send_to_thread_refused sigcont stop t sig h =
    let e = sigmask_is_set-member sig t.masked_signals in
    elim (Bool-cases (member sig t.masked_signals)) [
      | inl in_mask ↦ inl (ground (arith, e, in_mask))
      | inr clear ↦ inr (ground (arith, e, clear, h))
    ]

pub send_to_thread_taken :
    (sigcont : ℕ) (stop : Option ℕ) (t : Thread) (sig : ℕ)
    → refuses sigcont stop sig t ≡ false
    → send_to_thread sigcont stop t sig ≡ (Status.sent, take_signal sig t)
unfolding send_to_thread
send_to_thread_taken sigcont stop t sig h =
    let e = sigmask_is_set-member sig t.masked_signals in
    ground (arith, e, h) ∙ ap (λ u. (Status.sent, u)) (wake-roused t.state (mark sig t) refl)

-- What becomes of the threads: the first that does not refuse takes the signal, the ones before it
-- have it pending, and the ones behind it are as before; or all refuse and have it pending.
abbrev pub IsOffered :
    (sigcont : ℕ) (stop_signal : Option ℕ) (sig : ℕ)
    → (threads threads' : List Thread) → (found : Bool) → Type 0
IsOffered sigcont stop sig ts ts' false = AllRefuse sigcont stop sig ts × (ts' ≡ map (mark sig) ts)
IsOffered sigcont stop sig ts ts' true =
    (xs : List Thread) × (t : Thread) × (ys : List Thread) × (ts ≡ xs ++ t ∷ ys)
    × AllRefuse sigcont stop sig xs
    × (refuses sigcont stop sig t ≡ false)
    × (ts' ≡ map (mark sig) xs ++ take_signal sig t ∷ ys)

offer_refused :
    (sigcont : ℕ) (stop : Option ℕ) (t : Thread) (ts ts' : List Thread) (sig : ℕ) (found : Bool)
    → refuses sigcont stop sig t ≡ true
    → IsOffered sigcont stop sig ts ts' found
    → IsOffered sigcont stop sig (t ∷ ts) (mark sig t ∷ ts') found
offer_refused sigcont stop t ts ts' sig false h (all, e) = ((h, all), ap (λ l. mark sig t ∷ l) e)
offer_refused sigcont stop t ts ts' sig true h (xs, u, ys, split, all, taken, e) =
    (t ∷ xs, u, ys, ap (λ l. t ∷ l) split, (h, all), taken, ap (λ l. mark sig t ∷ l) e)

offer_skip :
    (sigcont : ℕ) (stop : Option ℕ) (t t' : Thread) (ts : List Thread) (sig : ℕ)
    → ((send_to_thread sigcont stop t sig ≡ (Status.masked, t'))
        ⊎ (send_to_thread sigcont stop t sig ≡ (Status.bad, t')))
    → offer sigcont stop (t ∷ ts) sig
      ≡ ((offer sigcont stop ts sig).0, t' ∷ (offer sigcont stop ts sig).1)
unfolding offer
offer_skip sigcont stop t t' ts sig (inl e) = ground (arith, e)
offer_skip sigcont stop t t' ts sig (inr e) = ground (arith, e)

offer_stop :
    (sigcont : ℕ) (stop : Option ℕ) (t t' : Thread) (ts : List Thread) (sig : ℕ)
    → send_to_thread sigcont stop t sig ≡ (Status.sent, t')
    → offer sigcont stop (t ∷ ts) sig ≡ (true, t' ∷ ts)
unfolding offer
offer_stop sigcont stop t t' ts sig e = ground (arith, e)

offer_lem :
    (sigcont : ℕ) (stop : Option ℕ) (ts : List Thread) (sig : ℕ)
    → let (found, ts') = offer sigcont stop ts sig in IsOffered sigcont stop sig ts ts' found
unfolding offer
offer_lem sigcont stop [] sig = (tt, refl)
offer_lem sigcont stop (t ∷ ts) sig = elim (Bool-cases (refuses sigcont stop sig t)) [
  | inl h ↦
      let step =
        offer_skip sigcont stop t (mark sig t) ts sig
          (send_to_thread_refused sigcont stop t sig h) in
      subst (λ r. IsOffered sigcont stop sig (t ∷ ts) (r.1) (r.0)) (sym step)
        (offer_refused sigcont stop t ts (offer sigcont stop ts sig).1 sig
          (offer sigcont stop ts sig).0 h (offer_lem sigcont stop ts sig))
  | inr h ↦
      let step =
        offer_stop sigcont stop t (take_signal sig t) ts sig
          (send_to_thread_taken sigcont stop t sig h) in
      subst (λ r. IsOffered sigcont stop sig (t ∷ ts) (r.1) (r.0)) (sym step)
        ([], t, ts, refl, tt, h, refl)
]

-- A valid signal to a live process succeeds. The first thread that neither masks it nor is in a
-- stopped process takes it: it has the signal pending, is made ready if it waits, and is interrupted
-- if it runs on another processor. The threads before it have the signal pending too, those behind it
-- are as before. If there is no such thread, the signal is pending on each of them and on the process.
pub com_ipc_signal_send_to_proc_lem :
    (sigcont sig : ℕ) (p : Proc)
    → is_valid_signal sig ≡ true
    → p.exited ≡ false
    → (found : Bool) × (threads : List Thread) × (com_ipc_signal_send_to_proc sigcont (some p) sig
        ≡ (
          Errno.success,
          some (record p {
            threads = threads;
            pending_signals =
                if found then p.pending_signals else sigmask_set p.pending_signals sig;
          }),
        ))
      × IsOffered sigcont p.stop_signal sig p.threads threads found
unfolding com_ipc_signal_send_to_proc
com_ipc_signal_send_to_proc_lem sigcont sig p valid live =
    let offered = offer_lem sigcont p.stop_signal p.threads sig in
    let (found, threads) = offer sigcont p.stop_signal p.threads sig in
    (found, threads, ground (arith, valid, live), offered)
