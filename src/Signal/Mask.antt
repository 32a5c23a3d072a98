-- ===== src/Signal/Mask.antt =====
-- Masks as sets of signals.
use Prim.Native.Nat.{bit_and, bit_or}
use salern_os_kernel.Prelude.{
  ℕ, ◌-◌, ◌^◌, ◌≤◌, ◌<◌, ◌≡◌, ◌≢◌, ◌⊎◌, inl, inr, ◌∙◌, refl, ap, Bool, not, ◌&&◌, ◌||◌, none, some,
  ◌==◌, arith, if◌then◌else◌,
}
use salern_os_kernel.Prelude.Single.{
  bit, not64, bit-zero, bit-bit_or, bit-bit_and, bit-not64, bit_power_self, bit_power_other,
  some_bit, bit_or_lt, bit_and_le,
}
use salern_os_kernel.Errno.{Errno, is_success}
use salern_os_kernel.Signal.{
  bit_of, sigmask_set, sigmask_is_set, How, com_ipc_signal_set_mask_nolock,
}

-- The signal is in the set.
abbrev pub member : (sig mask : ℕ) → Bool
member sig mask = bit (sig - 1) mask == 1

pub member-bit_or : (sig a b : ℕ) → member sig (bit_or a b) ≡ (member sig a || member sig b)
member-bit_or sig a b = let e = bit-bit_or (sig - 1) a b in ground (arith, e)

pub member-bit_and : (sig a b : ℕ) → member sig (bit_and a b) ≡ (member sig a && member sig b)
member-bit_and sig a b = let e = bit-bit_and (sig - 1) a b in ground (arith, e)

pub member-not64 :
    (sig mask : ℕ) → sig ≤ 64 → mask < 2 ^ 64 → member sig (not64 mask) ≡ not (member sig mask)
member-not64 sig mask h h' = let e = bit-not64 (sig - 1) mask (omega arith) h' in ground (arith, e)

cases : (a b : ℕ) → (a ≡ b) ⊎ (a ≢ b)
cases a b = ground arith

pub member-sigmask_set :
    (k sig mask : ℕ)
    → 0 < k
    → 0 < sig
    → member k (sigmask_set mask sig) ≡ ((k == sig) || member k mask)
member-sigmask_set k sig mask h h' =
    let e = bit-bit_or (k - 1) mask (bit_of sig) in
    let self = bit_power_self (sig - 1) in
    let other = bit_power_other (k - 1) (sig - 1) in
    elim (cases k sig) [
      | inl same ↦ ground (arith, e, self, same)
      | inr differ ↦ ground (arith, e, other (λ q. differ (omega (arith, q, h, h'))), differ)
    ]

-- The test of a bit answers whether the signal is in the set.
pub sigmask_is_set-member : (sig mask : ℕ) → sigmask_is_set mask sig ≡ member sig mask
sigmask_is_set-member sig mask =
    let j = sig - 1 in
    let x = bit_and mask (bit_of sig) in
    let here = bit-bit_and j mask (bit_of sig) in
    let self = bit_power_self j in
    let none_left = bit-zero j in
    elim (cases x 0) [
      | inl empty ↦
          let gone = ap (bit j) empty in ground (arith, here, self, none_left, gone, empty)
      | inr full ↦
          let (k, one) = some_bit x full in
          let e = bit-bit_and k mask (bit_of sig) in
          elim (cases k j) [
            | inl same ↦
                let moved = ap (λ k. bit k mask) same in ground (arith, one, e, moved, full)
            | inr differ ↦ absurd (omega (arith, one, e, bit_power_other k j differ))
          ]
    ]

-- What a signal is after the change, from whether it was in the mask and is in the given set.
abbrev pub changed : How → (in_mask in_set : Bool) → Bool
changed How.block m s = m || s
changed How.set_mask m s = s
changed How.unblock m s = m && not s
changed How.unknown m s = m

abbrev pub error_of : How → Errno
error_of How.block = Errno.success
error_of How.set_mask = Errno.success
error_of How.unblock = Errno.success
error_of How.unknown = Errno.einval

-- For a mask and a set of 64 bits, the new mask has 64 bits, and each signal up to 64 is in it as the union, the set itself or the
-- difference say, whichever is asked for. An unknown `how` is EINVAL, changes nothing and writes no
-- old mask; else the old mask is written where there is a place for it. Without a set nothing
-- changes, whatever `how` is.
pub com_ipc_signal_set_mask_nolock_lem :
    (mask set sig : ℕ) (how : How) (has_oset : Bool)
    → mask < 2 ^ 64
    → set < 2 ^ 64
    → sig ≤ 64
    → (mask' : ℕ) × (com_ipc_signal_set_mask_nolock mask how (some set) has_oset
        ≡ (error_of how, mask', if has_oset && is_success (error_of how) then some mask else none))
      × (member sig mask' ≡ changed how (member sig mask) (member sig set))
      × (mask' < 2 ^ 64)
      × (com_ipc_signal_set_mask_nolock mask how none has_oset
          ≡ (Errno.success, mask, if has_oset then some mask else none))
unfolding com_ipc_signal_set_mask_nolock
com_ipc_signal_set_mask_nolock_lem mask set sig How.block o small h h' =
    (bit_or mask set, ground arith, member-bit_or sig mask set, bit_or_lt 64 mask set small h, refl)
com_ipc_signal_set_mask_nolock_lem mask set sig How.set_mask o small h h' =
    (set, ground arith, refl, h, refl)
com_ipc_signal_set_mask_nolock_lem mask set sig How.unblock o small h h' = (
  bit_and mask (not64 set),
  ground arith,
  member-bit_and sig mask (not64 set) ∙ ap (λ b. member sig mask && b) (member-not64 sig set h' h),
  omega (arith, small, bit_and_le mask (not64 set)),
  refl,
)
com_ipc_signal_set_mask_nolock_lem mask set sig How.unknown o small h h' =
    (mask, ground arith, refl, small, refl)
