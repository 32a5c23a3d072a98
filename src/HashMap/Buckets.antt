-- ===== src/HashMap/Buckets.antt =====
-- One bucket: what finding, assigning and unlinking do to every key.
use salern_os_kernel.Prelude.{
  ℕ, ◌≡◌, ap₂, refl, true, false, none, some, List, [], ◌∷◌, arith, inl, inr, subst, Bool-cases,
  if-both,
}
use salern_os_kernel.HashMap.{Key, HashEntry, same_key, matches, find, assign, unlink}

pub same_key_sound : (a b : Key) → same_key a b ≡ true → a ≡ b
unfolding same_key
same_key_sound [] [] h = refl
same_key_sound [] (b ∷ bs) h = cc
same_key_sound (a ∷ as') [] h = cc
same_key_sound (a ∷ as') (b ∷ bs) h = ap₂ ◌∷◌ (ground arith) (same_key_sound as' bs (ground arith))

pub same_key_refl : (a : Key) → same_key a a ≡ true
unfolding same_key
same_key_refl [] = refl
same_key_refl (a ∷ as') = ground (arith, same_key_refl as')

pub same_key_sym : (a b : Key) → same_key a b ≡ same_key b a
unfolding same_key
same_key_sym [] [] = refl
same_key_sym [] (b ∷ bs) = refl
same_key_sym (a ∷ as') [] = refl
same_key_sym (a ∷ as') (b ∷ bs) = ground (arith, same_key_sym as' bs)

module _ {ℓ} {V : Type ℓ} where
  -- No two entries of the bucket match one key.
  pub data Distinct : List (HashEntry V) → Type ℓ where
    empty : Distinct []
    first :
        {e : HashEntry V} {l : List (HashEntry V)}
        → find l e.key e.hash ≡ none
        → Distinct l
        → Distinct (e ∷ l)

  -- An entry that matches one key matches no other.
  pub matches_other :
      (e : HashEntry V) (k j : Key) (h h' : ℕ)
      → same_key k j ≡ false
      → matches e k h ≡ true
      → matches e j h' ≡ false
  matches_other e k j h h' other m = elim (Bool-cases (matches e j h')) [
    | inr differ ↦ differ
    | inl same ↦
        let a : e.key ≡ k = same_key_sound e.key k (ground arith) in
        let c : same_key k j ≡ true = subst (λ x. same_key x j ≡ true) a (ground arith) in cc
  ]

  pub find-assign_other :
      (l : List (HashEntry V)) (k j : Key) (h h' : ℕ) (v : V)
      → same_key k j ≡ false
      → find (assign l k h v) j h' ≡ find l j h'
  unfolding find assign
  find-assign_other [] k j h h' v other = refl
  find-assign_other (e ∷ l) k j h h' v other =
      ground (arith, matches_other e k j h h' other, find-assign_other l k j h h' v other)

  pub find-unlink_other :
      (l : List (HashEntry V)) (k j : Key) (h h' : ℕ)
      → same_key k j ≡ false
      → find (unlink l k h) j h' ≡ find l j h'
  unfolding find unlink
  find-unlink_other [] k j h h' other = refl
  find-unlink_other (e ∷ l) k j h h' other =
      ground (arith, matches_other e k j h h' other, find-unlink_other l k j h h' other)

  pub find-assign_self :
      (l : List (HashEntry V)) (k : Key) (h : ℕ) (v old : V)
      → find l k h ≡ some old
      → find (assign l k h v) k h ≡ some v
  unfolding find assign
  find-assign_self [] k h v old found = cc
  find-assign_self (e ∷ l) k h v old found = ground (arith, find-assign_self l k h v old)

  pub find-assign-none :
      (l : List (HashEntry V)) (k j : Key) (h h' : ℕ) (v : V)
      → find l j h' ≡ none
      → find (assign l k h v) j h' ≡ none
  unfolding find assign
  find-assign-none [] k j h h' v missing = refl
  find-assign-none (e ∷ l) k j h h' v missing = ground (arith, find-assign-none l k j h h' v)

  pub find-unlink-none :
      (l : List (HashEntry V)) (k j : Key) (h h' : ℕ)
      → find l j h' ≡ none
      → find (unlink l k h) j h' ≡ none
  unfolding find unlink
  find-unlink-none [] k j h h' missing = refl
  find-unlink-none (e ∷ l) k j h h' missing = ground (arith, find-unlink-none l k j h h')

  -- Two entries of one key and one hash find alike.
  pub find_match :
      (l : List (HashEntry V)) (e : HashEntry V) (k : Key) (h : ℕ)
      → matches e k h ≡ true
      → find l e.key e.hash ≡ find l k h
  find_match l e k h m = ap₂ (find l) (same_key_sound e.key k (ground arith)) (ground arith)

  pub find-unlink_self :
      (l : List (HashEntry V)) (k : Key) (h : ℕ) → Distinct l → find (unlink l k h) k h ≡ none
  unfolding find unlink
  find-unlink_self [] k h d = refl
  find-unlink_self (e ∷ l) k h (first missing d) =
      ground (arith, find_match l e k h, find-unlink_self l k h d)

  pub Distinct-assign :
      (l : List (HashEntry V)) (k : Key) (h : ℕ) (v : V) → Distinct l → Distinct (assign l k h v)
  unfolding assign
  Distinct-assign [] k h v d = empty
  Distinct-assign (e ∷ l) k h v (first missing d) =
      if-both Distinct (matches e k h) (first missing d)
        (first (find-assign-none l k e.key h e.hash v missing) (Distinct-assign l k h v d))

  pub Distinct-unlink :
      (l : List (HashEntry V)) (k : Key) (h : ℕ) → Distinct l → Distinct (unlink l k h)
  unfolding unlink
  Distinct-unlink [] k h d = empty
  Distinct-unlink (e ∷ l) k h (first missing d) =
      if-both Distinct (matches e k h) d
        (first (find-unlink-none l k e.key h e.hash missing) (Distinct-unlink l k h d))
