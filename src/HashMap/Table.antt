-- ===== src/HashMap/Table.antt =====
-- The table: what setting, putting and removing do to the lookups of every key.
use salern_os_kernel.Prelude.{
  ℕ, ◌+◌, ◌%◌, ◌≡◌, ◌⊎◌, ap, refl, Bool, true, false, ◌&&◌, Option, none, some, List, ◌∷◌, ◌==◌,
  if◌then◌else◌, arith, inl, inr, subst, Bool-cases, Option-cases, if-both,
}
use salern_os_kernel.Prelude.Word.{word, sub64}
use salern_os_kernel.Errno.{success, enoent, enomem}
use salern_os_kernel.HashMap.{
  Key, HashEntry, HashMap, get_hash, offset, same_key, find, assign, unlink, put_bucket,
  khashmap_get, khashmap_set, khashmap_put, khashmap_remove, khashmap_default,
}
use salern_os_kernel.HashMap.Buckets.{
  same_key_sound, same_key_refl, Distinct, first, find-assign_other, find-unlink_other,
  find-assign_self, find-unlink_self, Distinct-assign, Distinct-unlink,
}

module _ {ℓ} {V : Type ℓ} where
  -- No bucket has two entries for one key.
  abbrev pub IsDistinct : HashMap V → Type ℓ
  IsDistinct m = (i : ℕ) → Distinct (m.entries i)

  -- A write of one key's bucket that changes that key's lookup alone.
  khashmap_get-put_bucket :
      (m : HashMap V) (k j : Key) (l : List (HashEntry V)) (x : Option V)
      → find l k (get_hash k) ≡ x
      → (same_key k j ≡ false
          → find l j (get_hash j) ≡ find (m.entries (offset m (get_hash k))) j (get_hash j))
      → khashmap_get (put_bucket m (offset m (get_hash k)) l) j
        ≡ (if same_key k j then x else khashmap_get m j)
  unfolding khashmap_get
  khashmap_get-put_bucket m k j l x own others = elim (Bool-cases (same_key k j)) [
    | inl same ↦
        subst
          (λ j.
            khashmap_get (put_bucket m (offset m (get_hash k)) l) j
            ≡ (if same_key k j then x else khashmap_get m j))
          (same_key_sound k j same) (ground (arith, own, same_key_refl k))
    | inr differ ↦ elim (Bool-cases (offset m (get_hash k) == offset m (get_hash j))) [
      | inl same_bucket ↦
          let e : offset m (get_hash k) ≡ offset m (get_hash j) = ground arith in
          let f = ap (λ i. find (m.entries i) j (get_hash j)) e in ground (arith, others differ, f)
      | inr other_bucket ↦ ground arith
    ]
  ]

  khashmap_get_same :
      (m : HashMap V) (k j : Key) (v : V)
      → khashmap_get m k ≡ some v
      → khashmap_get m j ≡ (if same_key k j then some v else khashmap_get m j)
  khashmap_get_same m k j v found = elim (Bool-cases (same_key k j)) [
    | inr differ ↦ ground (arith, differ)
    | inl same ↦
        let e = ap (khashmap_get m) (same_key_sound k j same) in ground (arith, e, found, same)
  ]

  IsDistinct-put_bucket :
      (m : HashMap V) (off : ℕ) (l : List (HashEntry V))
      → IsDistinct m
      → Distinct l
      → IsDistinct (put_bucket m off l)
  IsDistinct-put_bucket m off l d e i = if-both Distinct (off == i) e (d i)

  -- Setting a key that is present replaces its value and no other; a key that is missing is an
  -- error, and the table stays.
  pub khashmap_set_lem :
      (m : HashMap V) (k : Key) (v : V)
      → (m' : HashMap V) × (((khashmap_get m k ≡ none)
            × (khashmap_set m k v ≡ (enoent, m))
            × (m' ≡ m))
          ⊎ ((khashmap_set m k v ≡ (success, m'))
              × ((j : Key)
                  → khashmap_get m' j ≡ (if same_key k j then some v else khashmap_get m j))
              × (IsDistinct m → IsDistinct m')))
  unfolding khashmap_set khashmap_get
  khashmap_set_lem m k v = elim (Option-cases (khashmap_get m k)) [
    | inl missing ↦ (m, inl (missing, ground (arith, missing), refl))
    | inr (old, found) ↦
        let b = m.entries (offset m (get_hash k)) in
        let h = get_hash k in
        (
          put_bucket m (offset m h) (assign b k h v),
          inr (
            ground (arith, found),
            (λ j.
                khashmap_get-put_bucket m k j (assign b k h v) (some v)
                  (find-assign_self b k h v old found) (find-assign_other b k j h (get_hash j) v)),
            (λ d.
                IsDistinct-put_bucket m (offset m h) (assign b k h v) d
                  (Distinct-assign b k h v (d (offset m h)))),
          ),
        )
  ]

  -- Putting succeeds unless the key is missing and one of the two allocations fails, which leaves
  -- the table as it was. On success the key has the new value, every other key the value it had,
  -- and no bucket gets a second entry for a key.
  pub khashmap_put_lem :
      (entry_memory key_memory : Bool) (m : HashMap V) (k : Key) (v : V)
      → (m' : HashMap V) × (((khashmap_put entry_memory key_memory m k v ≡ (success, m'))
            × ((j : Key) → khashmap_get m' j ≡ (if same_key k j then some v else khashmap_get m j))
            × (IsDistinct m → IsDistinct m'))
          ⊎ ((khashmap_put entry_memory key_memory m k v ≡ (enomem, m))
              × (m' ≡ m)
              × (khashmap_get m k ≡ none)
              × (entry_memory && key_memory ≡ false)))
  unfolding khashmap_put khashmap_get find
  khashmap_put_lem entry_memory key_memory m k v =
      let (m', r) = khashmap_set_lem m k v in
      elim r [
        | inr (changed, lookups, distinct) ↦ (m', inl (ground (arith, changed), lookups, distinct))
        | inl (missing, failed, same) ↦ elim (Bool-cases (entry_memory && key_memory)) [
          | inr no_memory ↦ (m, inr (ground (arith, failed), refl, missing, no_memory))
          | inl memory ↦
              let h = get_hash k in
              let b = m.entries (offset m h) in
              let e : HashEntry V = record { hash = h; key = k; value = v } in
              (
                record (put_bucket m (offset m h) (e ∷ b)) {
                  num_entries = (m.num_entries + 1) % word;
                },
                inl (
                  ground (arith, failed),
                  (λ j.
                      khashmap_get-put_bucket m k j (e ∷ b) (some v)
                        (ground (arith, same_key_refl k)) (λ other. ground arith)),
                  (λ d.
                      IsDistinct-put_bucket m (offset m h) (e ∷ b) d
                        (first missing (d (offset m h)))),
                ),
              )
        ]
      ]

  -- Removing a key of a table with distinct entries makes it missing, keeps the lookup of every
  -- other key, counts one entry less and keeps the entries distinct; a missing key is an error
  -- and the table stays.
  pub khashmap_remove_lem :
      (m : HashMap V) (k : Key)
      → IsDistinct m
      → (m' : HashMap V) × (((khashmap_get m k ≡ none)
            × (khashmap_remove m k ≡ (enoent, m))
            × (m' ≡ m))
          ⊎ ((khashmap_remove m k ≡ (success, m'))
              × ((j : Key) → khashmap_get m' j ≡ (if same_key k j then none else khashmap_get m j))
              × (m'.num_entries ≡ sub64 m.num_entries 1)
              × IsDistinct m'))
  unfolding khashmap_remove khashmap_get
  khashmap_remove_lem m k d = elim (Option-cases (khashmap_get m k)) [
    | inl missing ↦ (m, inl (missing, ground (arith, missing), refl))
    | inr (old, found) ↦
        let h = get_hash k in
        let b = m.entries (offset m h) in
        (
          record (put_bucket m (offset m h) (unlink b k h)) { num_entries = sub64 m.num_entries 1 },
          inr (
            ground (arith, found),
            (λ j.
                khashmap_get-put_bucket m k j (unlink b k h) none
                  (find-unlink_self b k h (d (offset m h)))
                  (find-unlink_other b k j h (get_hash j))),
            refl,
            IsDistinct-put_bucket m (offset m h) (unlink b k h) d
                (Distinct-unlink b k h (d (offset m h))),
          ),
        )
  ]

  -- With memory for an entry and a key, `khashmap_default` succeeds with the value of the key
  -- in the new table: the one that it had, and the table is as before, or the default, if it was
  -- missing; no other key changes.
  pub khashmap_default_lem :
      (m : HashMap V) (k : Key) (v : V)
      → (w : V) × (m' : HashMap V) × (khashmap_default true true m k v ≡ (success, some w, m'))
        × (((khashmap_get m k ≡ some w) × (m' ≡ m)) ⊎ ((khashmap_get m k ≡ none) × (w ≡ v)))
        × ((j : Key) → khashmap_get m' j ≡ (if same_key k j then some w else khashmap_get m j))
  unfolding khashmap_default
  khashmap_default_lem m k v = elim (Option-cases (khashmap_get m k)) [
    | inr (old, found) ↦
        (old, m, ground (arith, found), inl (found, refl), λ j. khashmap_get_same m k j old found)
    | inl missing ↦
        let (m', r) = khashmap_put_lem true true m k v in
        elim r [
          | inr (failed, same, none_found, no_memory) ↦ absurd cc
          | inl (changed, lookups, distinct) ↦ (
            v,
            m',
            ground (arith, missing, changed, lookups k, same_key_refl k),
            inr (missing, refl),
            lookups,
          )
        ]
  ]
