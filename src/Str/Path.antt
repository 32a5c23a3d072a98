-- ===== src/Str/Path.antt =====
-- The last component of a path.
use salern_os_kernel.Prelude.{
  ℕ, zero, suc, ◌+◌, ◌-◌, ◌≤◌, ◌<◌, ◌≡◌, ◌≢◌, ◌⊎◌, inl, inr, Option, none, some, ◌==◌, arith,
  Bool-cases, refl,
}
use salern_os_kernel.Mem.{Memory, kmemrchr}
use salern_os_kernel.Mem.Scan.{IsLast, kmemrchr-IsLast}
use salern_os_kernel.Str.{trim_slashes, path_ends, kstrpathpenult}

-- The first `t` of `len` characters are left when the slashes at the end are taken off.
abbrev pub IsTrimmed : Memory → (s len t : ℕ) → Type 0
IsTrimmed m s len t =
    (t ≤ len)
    × ((i : ℕ) → t ≤ i → i < len → m (s + i) ≡ 47)
    × ((i : ℕ) → i + 1 ≡ t → m (s + i) ≢ 47)

trim_slashes-IsTrimmed : (s len : ℕ) (m : Memory) → IsTrimmed m s len (trim_slashes s len m)
unfolding trim_slashes
trim_slashes-IsTrimmed s zero m =
    (omega arith, λ i h lt. absurd (omega arith), λ i e. absurd (omega arith))
trim_slashes-IsTrimmed s (suc len) m =
    let (le, slashes, last) = trim_slashes-IsTrimmed s len m in
    elim (Bool-cases (m (s + len) == 47)) [
      | inl slash ↦ rw slash (omega arith, (λ i h lt. ground (arith, slashes i)), last)
      | inr other ↦ rw other (omega arith, (λ i h lt. absurd (omega arith)), λ i e. ground arith)
    ]

-- What `path_ends` makes of the last slash.
path_ends_lem :
    (m : Memory) (s len t : ℕ) (found : Option ℕ)
    → IsLast m s 47 t found
    → IsTrimmed m s len t
    → (t' : ℕ) × (penult_len : ℕ) × (end_idx : ℕ) × (end_len : ℕ) × (path_ends s t found
        ≡ (penult_len, end_idx, end_len))
      × IsTrimmed m s len t'
      × (end_idx + end_len ≡ t')
      × ((i : ℕ) → end_idx ≤ i → i < t' → m (s + i) ≢ 47)
      × (((end_idx ≡ 0) × (penult_len ≡ 0))
          ⊎ ((end_idx ≡ penult_len + 1) × (m (s + penult_len) ≡ 47)))
unfolding path_ends
path_ends_lem m s len t none absent trimmed =
    (t, 0, 0, t, refl, trimmed, omega arith, (λ i h lt. absent i lt), inl (refl, refl))
path_ends_lem m s len t (some p) (j, e, lt, v, after) trimmed = (
  t,
  p - s,
  p - s + 1,
  t - (p - s + 1),
  refl,
  trimmed,
  omega arith,
  (λ i h below. after i (omega arith) below),
  inr (refl, ground (arith, v, e)),
)

-- The component that `kstrpathpenult` finds: it ends where the slashes at the end begin, it has no
-- slash, and a slash at `*penult_len` stands before it, unless it is the whole path.
pub kstrpathpenult_lem :
    (s len : ℕ) (m : Memory)
    → (t : ℕ) × (penult_len : ℕ) × (end_idx : ℕ) × (end_len : ℕ) × (kstrpathpenult s len m
        ≡ (penult_len, end_idx, end_len))
      × IsTrimmed m s len t
      × (end_idx + end_len ≡ t)
      × ((i : ℕ) → end_idx ≤ i → i < t → m (s + i) ≢ 47)
      × (((end_idx ≡ 0) × (penult_len ≡ 0))
          ⊎ ((end_idx ≡ penult_len + 1) × (m (s + penult_len) ≡ 47)))
unfolding kstrpathpenult
kstrpathpenult_lem s len m =
    let t = trim_slashes s len m in
    path_ends_lem m s len t (kmemrchr s 47 t m) (kmemrchr-IsLast s 47 t m)
      (trim_slashes-IsTrimmed s len m)
