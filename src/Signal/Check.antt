-- ===== src/Signal/Check.antt =====
-- Which signal is next.
use Prim.Native.Nat.{bit_and}
use salern_os_kernel.Prelude.{
  ℕ, zero, suc, ◌+◌, ◌-◌, ◌/◌, ◌%◌, ◌^◌, ◌≤◌, ◌<◌, ◌≡◌, ◌≢◌, ◌⊎◌, inl, inr, ◌∙◌, refl, sym, ap,
  subst, Bool, true, false, not, ◌&&◌, Option, none, some, ◌==◌, arith, Bool-cases, if◌then◌else◌,
}
use salern_os_kernel.Prelude.Single.{bit, bit_zero, bit-suc, bit-zero, not64, bit_and_le}
use native.Mathlib.Nat.{pow-succ'}
use salern_os_kernel.Signal.{Thread, ffs_from, com_ipc_signal_check_nolock}
use salern_os_kernel.Signal.Mask.{member, member-bit_and, member-not64}

-- The lowest bit that is set.
ffs_from_lem :
    (n place x : ℕ)
    → x < 2 ^ n
    → x ≢ 0
    → (k : ℕ) × (ffs_from n place x ≡ place + suc k)
      × (k < n)
      × (bit k x ≡ 1)
      × ((j : ℕ) → j < k → bit j x ≡ 0)
unfolding ffs_from
ffs_from_lem zero place x h full = absurd (full (omega (arith, h)))
ffs_from_lem (suc n) place x h full = elim (halves x) [
  | inl odd ↦ (0, ground (arith, odd), omega arith, bit_zero x ∙ odd, (λ j l. absurd (omega arith)))
  | inr even ↦
      let (k, e, l, one, low) =
        ffs_from_lem n (suc place) (x / 2) (omega (arith, h, pow-succ' 2 n))
          (λ z. full (omega (arith, z, even))) in
      (suc k, ground (arith, even, e), omega arith, bit-suc k x ∙ one, lower k x even low)
]
  where
    halves : (x : ℕ) → (x % 2 ≡ 1) ⊎ (x % 2 ≡ 0)
    halves x = omega arith

    lower :
        (k x : ℕ)
        → x % 2 ≡ 0
        → ((j : ℕ) → j < k → bit j (x / 2) ≡ 0)
        → (j : ℕ) → j < suc k
        → bit j x ≡ 0
    lower k x even low zero l = bit_zero x ∙ even
    lower k x even low (suc j) l = bit-suc j x ∙ low j (omega arith)

-- The signal is pending and not masked.
abbrev pub is_deliverable : Thread → (sig : ℕ) → Bool
is_deliverable t sig = member sig t.pending_signals && not (member sig t.masked_signals)

-- What the check answers: the first deliverable signal of the 64, or that there is none.
abbrev pub IsNext : Thread → Option ℕ → Type 0
IsNext t none = (sig : ℕ) → 0 < sig → sig ≤ 64 → is_deliverable t sig ≡ false
IsNext t (some sig) =
    (0 < sig)
    × (sig ≤ 64)
    × (is_deliverable t sig ≡ true)
    × ((k : ℕ) → 0 < k → k < sig → is_deliverable t k ≡ false)

member-to_service :
    (t : Thread) (sig : ℕ)
    → t.masked_signals < 2 ^ 64
    → sig ≤ 64
    → is_deliverable t sig ≡ member sig (bit_and t.pending_signals (not64 t.masked_signals))
member-to_service t sig h l =
    let both = member-bit_and sig t.pending_signals (not64 t.masked_signals) in
    let negated = member-not64 sig t.masked_signals l h in
    sym (both ∙ ap (λ b. member sig t.pending_signals && b) negated)

member-suc : (k x : ℕ) → bit k x ≡ 1 → member (suc k) x ≡ true
member-suc k x one =
    let same : suc k - 1 ≡ k = omega arith in ap (λ i. bit i x == 1) same ∙ ap (λ b. b == 1) one

-- On masks of 64 bits, `com_ipc_signal_check_nolock` answers the lowest signal that is pending and
-- not masked, and COM_IPC_SIGNAL_NONE only if there is none.
pub com_ipc_signal_check_nolock_lem :
    (t : Thread)
    → t.pending_signals < 2 ^ 64
    → t.masked_signals < 2 ^ 64
    → IsNext t (com_ipc_signal_check_nolock t)
unfolding com_ipc_signal_check_nolock
com_ipc_signal_check_nolock_lem t h h' =
    let x = bit_and t.pending_signals (not64 t.masked_signals) in
    let small : x < 2 ^ 64 =
      omega (arith, h, bit_and_le t.pending_signals (not64 t.masked_signals)) in
    go x refl small (Bool-cases (x == 0))
  where
    go :
        (x : ℕ)
        → bit_and t.pending_signals (not64 t.masked_signals) ≡ x
        → x < 2 ^ 64
        → ((x == 0) ≡ true) ⊎ ((x == 0) ≡ false)
        → IsNext t (if x == 0 then none else some (ffs_from 64 0 x))
    go x e small (inl empty) =
        subst (IsNext t) (ap (λ b. if b then none else some (ffs_from 64 0 x)) (sym empty))
          (λ sig l l'.
            let gone : x ≡ 0 = ground (arith, empty) in
            member-to_service t sig h' l'
            ∙ ap (member sig) (e ∙ gone)
            ∙ ap (λ b. b == 1) (bit-zero (sig - 1)))
    go x e small (inr full) =
        let (k, answer, l, one, low) = ffs_from_lem 64 0 x small (ground (arith, full)) in
        let there : (sig : ℕ) → sig ≤ 64 → is_deliverable t sig ≡ member sig x =
          λ sig l. member-to_service t sig h' l ∙ ap (member sig) e in
        subst (IsNext t)
          (sym (
            ap (λ b. if b then none else some (ffs_from 64 0 x)) full
            ∙ ap some (answer ∙ omega arith)))
          (
            omega arith,
            omega (arith, l),
            there (suc k) (omega (arith, l)) ∙ member-suc k x one,
            (λ j p q.
                there j (omega (arith, q, l))
                ∙ ap (λ b. b == 1) (low (j - 1) (omega (arith, p, q)))),
          )
