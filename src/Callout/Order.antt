-- ===== src/Callout/Order.antt =====
-- Pointers in a queue, the order by deadline, and the well-formedness of the timer state.
use salern_os_kernel.Prelude.{
  ℕ, ◌+◌, ◌≤◌, ◌≡◌, refl, Bool, true, false, List, [], ◌∷◌, ◌||◌, ◌==◌, ltb, if◌then◌else◌, arith,
}
use salern_os_kernel.Callout.{Store, Timers, insert_ordered, remove}

abbrev pub has : ℕ → List ℕ → Bool
has p [] = false
has p (q ∷ qs) = (p == q) || has p qs

abbrev pub AllFrom : Store → ℕ → List ℕ → Type 0
AllFrom h n [] = Unit
AllFrom h n (q ∷ qs) = (n ≤ (h q).ns) × AllFrom h n qs

abbrev pub Sorted : Store → List ℕ → Type 0
Sorted h [] = Unit
Sorted h (q ∷ qs) = AllFrom h (h q).ns qs × Sorted h qs

abbrev pub Distinct : List ℕ → Type 0
Distinct [] = Unit
Distinct (q ∷ qs) = (has q qs ≡ false) × Distinct qs

pub record IsWellFormed (t : Timers) : Type 0 where
  pub sorted : Sorted t.heap t.queue
  pub distinct : Distinct t.queue
  -- `cpu_callout` is NULL exactly for what is not queued.
  pub marked : (p : ℕ) → (t.heap p).cpu_callout ≡ has p t.queue
  -- Nothing in the queue was given back to the allocator.
  pub alive : (p : ℕ) → has p t.queue ≡ true → has p t.freed ≡ false

-- The entries with deadline `n`, in queue order.
unfoldable pub at_ns : Store → ℕ → List ℕ → List ℕ
at_ns h n [] = []
at_ns h n (q ∷ qs) = if (h q).ns == n then q ∷ at_ns h n qs else at_ns h n qs

-- The number of entries whose deadline is reached at time `n`.
unfoldable pub due : Store → ℕ → List ℕ → ℕ
due h n [] = 0
due h n (q ∷ qs) = (if ltb n (h q).ns then 0 else 1) + due h n qs

pub AllFrom-mono : (h : Store) (m n : ℕ) (qs : List ℕ) → m ≤ n → AllFrom h n qs → AllFrom h m qs
AllFrom-mono h m n [] le a = tt
AllFrom-mono h m n (q ∷ qs) le a = (omega arith, AllFrom-mono h m n qs le a.1)

pub has-insert :
    (h : Store) (p q : ℕ) (qs : List ℕ) → has q (insert_ordered h p qs) ≡ ((q == p) || has q qs)
unfolding insert_ordered
has-insert h p q [] = refl
has-insert h p q (c ∷ cs) = ground (arith, has-insert h p q cs)

pub has-remove :
    (p q : ℕ) (qs : List ℕ)
    → Distinct qs
    → has q (remove p qs) ≡ (if p == q then false else has q qs)
unfolding remove
has-remove p q [] d = ground arith
has-remove p q (c ∷ cs) d = ground (arith, has-remove p q cs d.1)

AllFrom-insert :
    (h : Store) (n p : ℕ) (qs : List ℕ)
    → n ≤ (h p).ns
    → AllFrom h n qs
    → AllFrom h n (insert_ordered h p qs)
unfolding insert_ordered
AllFrom-insert h n p [] le a = (le, tt)
AllFrom-insert h n p (c ∷ cs) le a = ground (arith, AllFrom-insert h n p cs)

pub Sorted-insert :
    (h : Store) (p : ℕ) (qs : List ℕ) → Sorted h qs → Sorted h (insert_ordered h p qs)
unfolding insert_ordered
Sorted-insert h p [] s = (tt, tt)
Sorted-insert h p (c ∷ cs) s = ground (
  arith,
  Sorted-insert h p cs,
  AllFrom-insert h (h c).ns p cs,
  AllFrom-mono h (h p).ns (h c).ns cs,
)

pub Distinct-insert :
    (h : Store) (p : ℕ) (qs : List ℕ)
    → has p qs ≡ false
    → Distinct qs
    → Distinct (insert_ordered h p qs)
unfolding insert_ordered
Distinct-insert h p [] out d = (refl, tt)
Distinct-insert h p (c ∷ cs) out d = ground (arith, Distinct-insert h p cs, has-insert h p c cs)

AllFrom-remove : (h : Store) (n p : ℕ) (qs : List ℕ) → AllFrom h n qs → AllFrom h n (remove p qs)
unfolding remove
AllFrom-remove h n p [] a = tt
AllFrom-remove h n p (c ∷ cs) a = ground (arith, AllFrom-remove h n p cs)

pub Sorted-remove : (h : Store) (p : ℕ) (qs : List ℕ) → Sorted h qs → Sorted h (remove p qs)
unfolding remove
Sorted-remove h p [] s = tt
Sorted-remove h p (c ∷ cs) s = ground (arith, Sorted-remove h p cs, AllFrom-remove h (h c).ns p cs)

pub Distinct-remove : (p : ℕ) (qs : List ℕ) → Distinct qs → Distinct (remove p qs)
unfolding remove
Distinct-remove p [] d = tt
Distinct-remove p (c ∷ cs) d = ground (arith, Distinct-remove p cs, has-remove p c cs d.1)

-- Stores that agree on the deadlines of the queue give the same order.
pub AllFrom-congr :
    (g h : Store) (n : ℕ) (qs : List ℕ)
    → ((q : ℕ) → has q qs ≡ true → (g q).ns ≡ (h q).ns)
    → AllFrom h n qs
    → AllFrom g n qs
AllFrom-congr g h n [] same a = tt
AllFrom-congr g h n (q ∷ qs) same a =
    (ground (arith, same q), AllFrom-congr g h n qs (λ r i. same r (ground arith)) a.1)

pub Sorted-congr :
    (g h : Store) (qs : List ℕ)
    → ((q : ℕ) → has q qs ≡ true → (g q).ns ≡ (h q).ns)
    → Sorted h qs
    → Sorted g qs
Sorted-congr g h [] same s = tt
Sorted-congr g h (q ∷ qs) same s = (
  ground (arith, same q, AllFrom-congr g h (h q).ns qs (λ r i. same r (ground arith))),
  Sorted-congr g h qs (λ r i. same r (ground arith)) s.1,
)
