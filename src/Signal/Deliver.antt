-- ===== src/Signal/Deliver.antt =====
-- What a thread finds after a signal has been sent to it.
use salern_os_kernel.Prelude.{
  ℕ, ◌-◌, ◌^◌, ◌≤◌, ◌<◌, ◌≡◌, ◌⊎◌, inl, inr, ◌∙◌, refl, sym, ap, subst, true, false, not, ◌&&◌,
  ◌||◌, Option, none, some, ◌==◌, arith, Bool-cases,
}
use salern_os_kernel.Prelude.Single.{bit_or-power_lt}
use salern_os_kernel.Errno.{Errno}
use salern_os_kernel.Signal.{
  Thread, is_valid_signal, sigmask_set, send_to_thread, com_ipc_signal_send_to_thread,
  com_ipc_signal_check_nolock,
}
use salern_os_kernel.Signal.Mask.{member, member-sigmask_set}
use salern_os_kernel.Signal.Check.{IsNext, is_deliverable, com_ipc_signal_check_nolock_lem}
use salern_os_kernel.Signal.Send.{refuses, send_to_thread_refused, send_to_thread_taken}

order : (a b : ℕ) → (a ≡ b) ⊎ ((a < b) ⊎ (b < a))
order a b = omega arith

-- There is one next signal.
IsNext-unique : (t : Thread) (o o' : Option ℕ) → IsNext t o → IsNext t o' → o ≡ o'
IsNext-unique t none none a b = refl
IsNext-unique t none (some k) a (l, u, is, low) = absurd (ground (arith, a k l u, is))
IsNext-unique t (some k) none (l, u, is, low) b = absurd (ground (arith, b k l u, is))
IsNext-unique t (some j) (some k) (l, u, is, low) (l', u', is', low') = elim (order j k) [
  | inl same ↦ ap some same
  | inr (inl less) ↦ absurd (ground (arith, low' j l less, is))
  | inr (inr more) ↦ absurd (ground (arith, low k l' more, is'))
]

abbrev HasMasks : (sig : ℕ) → Thread → Thread → Type 0
HasMasks sig t t' =
    (t'.pending_signals ≡ sigmask_set t.pending_signals sig)
    × (t'.masked_signals ≡ t.masked_signals)

send_to_thread_masks :
    (sigcont : ℕ) (stop : Option ℕ) (t : Thread) (sig : ℕ)
    → HasMasks sig t (com_ipc_signal_send_to_thread sigcont stop t sig).1
unfolding com_ipc_signal_send_to_thread
send_to_thread_masks sigcont stop t sig = elim (Bool-cases (refuses sigcont stop sig t)) [
  | inl h ↦ elim (send_to_thread_refused sigcont stop t sig h) [
    | inl e ↦ subst (λ r. HasMasks sig t (r.1)) (sym e) (refl, refl)
    | inr e ↦ subst (λ r. HasMasks sig t (r.1)) (sym e) (refl, refl)
  ]
  | inr h ↦
      subst (λ r. HasMasks sig t (r.1)) (sym (send_to_thread_taken sigcont stop t sig h))
        (refl, refl)
]

-- Which signals are deliverable after it.
is_deliverable-sent :
    (t t' : Thread) (k sig : ℕ)
    → HasMasks sig t t'
    → 0 < k
    → 0 < sig
    → is_deliverable t' k
      ≡ (((k == sig) || member k t.pending_signals) && not (member k t.masked_signals))
is_deliverable-sent t t' k sig (pending, masks) h h' =
    ap (λ m. member k m && not (member k t'.masked_signals)) pending
    ∙ ap (λ m. member k (sigmask_set t.pending_signals sig) && not (member k m)) masks
    ∙ ap (λ b. b && not (member k t.masked_signals))
        (member-sigmask_set k sig t.pending_signals h h')

IsNext-same :
    (t t' : Thread) (o : Option ℕ)
    → ((j : ℕ) → 0 < j → is_deliverable t' j ≡ is_deliverable t j)
    → IsNext t' o
    → IsNext t o
IsNext-same t t' none same next = λ j l u. sym (same j l) ∙ next j l u
IsNext-same t t' (some k) same (l, u, is, low) =
    (l, u, sym (same k l) ∙ is, (λ j p q. sym (same j p) ∙ low j p q))

same_below :
    (t t' : Thread) (sig j : ℕ)
    → HasMasks sig t t'
    → 0 < j
    → j < sig
    → is_deliverable t' j ≡ is_deliverable t j
same_below t t' sig j m l h =
    let e = is_deliverable-sent t t' j sig m l (omega (arith, l, h)) in ground (arith, e, h)

-- The new signal, or the one that was next before it.
first_of :
    (t t' : Thread) (sig : ℕ) (o o' : Option ℕ)
    → HasMasks sig t t'
    → 0 < sig
    → sig ≤ 64
    → member sig t.masked_signals ≡ false
    → IsNext t o
    → IsNext t' o'
    → (next : ℕ) × (o' ≡ some next) × (next ≤ sig) × ((next ≡ sig) ⊎ (o ≡ some next))
first_of t t' sig o none m l u clear before after =
    absurd (ground (arith, after sig l u, is_deliverable-sent t t' sig sig m l l, clear))
first_of t t' sig o (some k) m l u clear before (l', u', is, low) = elim (order k sig) [
  | inl same ↦ (k, refl, omega (arith, same), inl same)
  | inr (inl less) ↦
      let stays : IsNext t (some k) = (
        l',
        u',
        sym (same_below t t' sig k m l' less) ∙ is,
        (λ j p q. sym (same_below t t' sig j m p (omega (arith, less, q))) ∙ low j p q),
      ) in
      (k, refl, omega (arith, less), inr (IsNext-unique t o (some k) before stays))
  | inr (inr more) ↦
      absurd (ground (arith, low sig l more, is_deliverable-sent t t' sig sig m l l, clear))
]

-- A masked signal changes nothing of what is deliverable.
same_masked :
    (t t' : Thread) (sig j : ℕ)
    → HasMasks sig t t'
    → 0 < sig
    → member sig t.masked_signals ≡ true
    → 0 < j
    → is_deliverable t' j ≡ is_deliverable t j
same_masked t t' sig j m h covered l =
    let e = is_deliverable-sent t t' j sig m l h in
    elim (order j sig) [
      | inl same ↦
          let moved = ap (λ k. member k t.masked_signals) same ∙ covered in ground (arith, e, moved)
      | inr differ ↦ ground (arith, e, differ)
    ]

-- After a valid signal has been sent to a thread with masks of 64 bits: if the thread masks it,
-- `com_ipc_signal_check_nolock` answers what it did before; else it answers a signal, the new one or
-- the one it answered before, and none behind the new one.
pub com_ipc_signal_check_nolock-com_ipc_signal_send_to_thread :
    (sigcont sig : ℕ) (stop : Option ℕ) (t : Thread)
    → is_valid_signal sig ≡ true
    → t.pending_signals < 2 ^ 64
    → t.masked_signals < 2 ^ 64
    → (t' : Thread) × (com_ipc_signal_send_to_thread sigcont stop t sig ≡ (Errno.success, t'))
      × (member sig t.masked_signals ≡ true
          → com_ipc_signal_check_nolock t' ≡ com_ipc_signal_check_nolock t)
      × (member sig t.masked_signals ≡ false
          → (next : ℕ) × (com_ipc_signal_check_nolock t' ≡ some next)
            × (next ≤ sig)
            × ((next ≡ sig) ⊎ (com_ipc_signal_check_nolock t ≡ some next)))
unfolding com_ipc_signal_send_to_thread
com_ipc_signal_check_nolock-com_ipc_signal_send_to_thread sigcont sig stop t valid h h' =
    let t' = (send_to_thread sigcont stop t sig).1 in
    let m : HasMasks sig t t' = send_to_thread_masks sigcont stop t sig in
    let l : 0 < sig = ground (arith, valid) in
    let u : sig < 64 = ground (arith, valid) in
    let grown = bit_or-power_lt 64 (sig - 1) t.pending_signals (omega (arith, u)) h in
    let before = com_ipc_signal_check_nolock_lem t h h' in
    let after =
      com_ipc_signal_check_nolock_lem t' (subst (λ x. x < 2 ^ 64) (sym (m.0)) grown)
        (subst (λ x. x < 2 ^ 64) (sym (m.1)) h') in
    (
      t',
      refl,
      (λ covered.
          IsNext-unique t (com_ipc_signal_check_nolock t') (com_ipc_signal_check_nolock t)
            (IsNext-same t t' (com_ipc_signal_check_nolock t')
              (λ j p. same_masked t t' sig j m l covered p) after)
            before),
      (λ clear.
          first_of t t' sig (com_ipc_signal_check_nolock t) (com_ipc_signal_check_nolock t') m l
            (omega (arith, u)) clear before after),
    )
