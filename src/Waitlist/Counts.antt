-- ===== src/Waitlist/Counts.antt =====
-- How many threads are in the queues.
use salern_os_kernel.Prelude.{
  ℕ, suc, ◌+◌, ◌≤◌, ◌<◌, ◌≡◌, ◌∙◌, ap, List, [], ◌∷◌, ◌++◌, length, length-append, arith,
}
use salern_os_kernel.Waitlist.{com_sys_sched_notify}

-- A list that one leaves.
pub leave : (t : ℕ) (xs ys zs : List ℕ) → zs ≡ xs ++ t ∷ ys → length zs ≡ suc (length (xs ++ ys))
leave t xs ys zs e = ap length e ∙ length-append xs (t ∷ ys) ∙ omega (arith, length-append xs ys)

pub join : (t : ℕ) (xs : List ℕ) → length (xs ++ t ∷ []) ≡ suc (length xs)
join t xs = length-append xs (t ∷ []) ∙ omega arith

-- What is handed out was queued, and something is if something was queued.
pub notify_lengths :
    (queue ready : List ℕ)
    → let (queue', woken) = com_sys_sched_notify queue in
      (length queue' + length (ready ++ woken) ≡ length queue + length ready)
      × (0 < length queue → 0 < length (ready ++ woken))
      × (length ready ≤ length (ready ++ woken))
unfolding com_sys_sched_notify
notify_lengths [] ready = (
  omega (arith, length-append ready []),
  (λ h. omega arith),
  omega (arith, length-append ready []),
)
notify_lengths (t ∷ queue) ready =
    (omega (arith, join t ready), (λ h. omega (arith, join t ready)), omega (arith, join t ready))
