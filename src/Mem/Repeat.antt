-- ===== src/Mem/Repeat.antt =====
-- `kmemrepcpy` fills a buffer with copies of a pattern by doubling what it has copied.
use salern_os_kernel.Prelude.{
  ℕ, zero, suc, ◌+◌, ◌-◌, ◌*◌, ◌%◌, ◌≤◌, ◌<◌, ◌≡◌, true, some, ◌==◌, if◌then◌else◌, arith, inr,
  subst, ◌⊎◌, ◌||◌, inl, Bool-cases,
}
use salern_os_kernel.Mem.{Memory, kmemcpy, kmemrepcpy_loop, kmemrepcpy}
use salern_os_kernel.Mem.Copy.{within, kmemcpy_lem}
use native.Mathlib.Nat.{mul-add-mod_self_right, mod-eq_of_lt}
use native.Mathlib.Decide.{dec_lt}

-- The first `copied` bytes repeat the pattern, all else is as in `m`.
abbrev Repeats : (m : Memory) → (dst src size copied : ℕ) → Memory → Type 0
Repeats m dst src size copied g =
    (q : ℕ) → g q ≡ (if within dst copied q then m (src + (q - dst) % size) else m q)

mod_shift : (j c k size : ℕ) → c ≡ k * size → (c + j) % size ≡ j % size
mod_shift j c k size e = rw e (mul-add-mod_self_right k size j)

-- A copy of whole patterns behind whole patterns.
step-Repeats :
    (m g : Memory) (dst src size c k to_copy : ℕ)
    → c ≡ k * size
    → Repeats m dst src size c g
    → to_copy ≤ c
    → Repeats m dst src size (c + to_copy) (kmemcpy (dst + c) dst to_copy g)
step-Repeats m g dst src size c k to_copy e r le q = ground (
  arith,
  kmemcpy_lem (dst + c) dst to_copy g q (inr (omega arith)),
  r q,
  r (dst + (q - (dst + c))),
  mod_shift (q - (dst + c)) c k size e,
)

module _ (m : Memory) (dst src size n total : ℕ) (whole : total ≡ n * size) where
  kmemrepcpy_loop_lem :
      (fuel k c : ℕ) (g : Memory)
      → c ≡ k * size
      → 0 < c
      → c ≤ total
      → total < fuel + c
      → Repeats m dst src size c g
      → (h : Memory) × (kmemrepcpy_loop fuel dst c total g ≡ some h)
        × Repeats m dst src size total h
  unfolding kmemrepcpy_loop
  kmemrepcpy_loop_lem zero k c g e pos le enough r = absurd (omega arith)
  kmemrepcpy_loop_lem (suc fuel) k c g e pos le enough r = elim (dec_lt c total) [
    | no done ↦ (g, ground arith, subst (λ c. Repeats m dst src size c g) (omega arith) r)
    | yes more ↦ elim (dec_lt total (c + c)) [
      | yes last ↦
          let (h, ran, rep) =
            kmemrepcpy_loop_lem fuel n (c + (total - c)) (kmemcpy (dst + c) dst (total - c) g)
              (omega arith) (omega arith) (omega arith) (omega arith)
              (step-Repeats m g dst src size c k (total - c) e r (omega arith)) in
          (h, ground arith, rep)
      | no twice ↦
          let (h, ran, rep) =
            kmemrepcpy_loop_lem fuel (k + k) (c + c) (kmemcpy (dst + c) dst c g) (omega arith)
              (omega arith) (omega arith) (omega arith)
              (step-Repeats m g dst src size c k c e r (omega arith)) in
          (h, ground arith, rep)
    ]
  ]

empty_product : (size rep : ℕ) → ((rep == 0) || (size == 0)) ≡ true → size * rep ≡ 0
empty_product zero rep h = omega arith
empty_product (suc size) zero h = omega arith
empty_product (suc size) (suc rep) h = ground arith

one-le : (size rep : ℕ) → 0 < rep → size ≤ size * rep
one-le size rep h = grind arith

small_mod : (j n : ℕ) → j < n → j % n ≡ j
small_mod j n h = mod-eq_of_lt h

first-Repeats :
    (m : Memory) (dst src size : ℕ)
    → (dst ≤ src) ⊎ (src + size ≤ dst)
    → Repeats m dst src size size (kmemcpy dst src size m)
first-Repeats m dst src size apart q =
    ground (arith, kmemcpy_lem dst src size m q apart, small_mod (q - dst) size)

-- Where pattern and destination do not overlap, `kmemrepcpy` returns, fills the destination with
-- `rep` copies of the pattern, and writes nothing else.
pub kmemrepcpy_lem :
    (dst src size rep : ℕ) (m : Memory)
    → (dst ≤ src) ⊎ (src + size ≤ dst)
    → (h : Memory) × (kmemrepcpy dst src size rep m ≡ some h)
      × ((q : ℕ) → h q ≡ (if within dst (size * rep) q then m (src + (q - dst) % size) else m q))
unfolding kmemrepcpy
kmemrepcpy_lem dst src size rep m apart = elim (Bool-cases ((rep == 0) || (size == 0))) [
  | inl nothing ↦
      let empty : size * rep ≡ 0 = empty_product size rep nothing in
      (m, ground arith, λ q. ground arith)
  | inr something ↦
      let (h, ran, rep') =
        kmemrepcpy_loop_lem m dst src size rep (size * rep) (omega arith) (size * rep + 1) 1 size
          (kmemcpy dst src size m) (omega arith) (ground arith) (one-le size rep (ground arith))
          (ground arith) (first-Repeats m dst src size apart) in
      (h, ground arith, rep')
]
