-- ===== src/Mem/Scan.antt =====
-- `kmemcmp`, `kmemchr` and `kmemrchr` decide what they look for.
use salern_os_kernel.Prelude.{
  ℕ, zero, suc, ◌+◌, ◌≤◌, ◌<◌, ◌≡◌, ◌≢◌, ◌↔◌, refl, true, false, Option, none, some, ◌==◌, arith,
  inl, inr, Bool-cases,
}
use salern_os_kernel.Mem.{Memory, kmemcmp_loop, kmemcmp, kmemchr_loop, kmemchr, kmemrchr}

kmemcmp_loop_sound :
    (k a b i : ℕ) (m : Memory) (j : ℕ)
    → i ≤ j
    → j < i + k
    → kmemcmp_loop k a b i m ≡ true
    → m (a + j) ≡ m (b + j)
unfolding kmemcmp_loop
kmemcmp_loop_sound zero a b i m j lo hi h = absurd (omega arith)
kmemcmp_loop_sound (suc k) a b i m j lo hi h = elim (Bool-cases (i == j)) [
  | inl here ↦ ground arith
  | inr later ↦ ground (arith, kmemcmp_loop_sound k a b (suc i) m j)
]

kmemcmp_loop_complete :
    (k a b i : ℕ) (m : Memory)
    → ((j : ℕ) → i ≤ j → j < i + k → m (a + j) ≡ m (b + j))
    → kmemcmp_loop k a b i m ≡ true
unfolding kmemcmp_loop
kmemcmp_loop_complete zero a b i m same = refl
kmemcmp_loop_complete (suc k) a b i m same = ground (
  arith,
  same i (omega arith) (omega arith),
  kmemcmp_loop_complete k a b (suc i) m (λ j lo hi. same j (omega arith) (omega arith)),
)

-- `kmemcmp` returns 0 exactly when the two buffers hold the same bytes.
pub kmemcmp_iff :
    (a b n : ℕ) (m : Memory) → (kmemcmp a b n m ≡ true) ↔ ((j : ℕ) → j < n → m (a + j) ≡ m (b + j))
unfolding kmemcmp
kmemcmp_iff a b n m = (
  λ h j lt. kmemcmp_loop_sound n a b 0 m j (omega arith) (omega arith) h,
  λ same. kmemcmp_loop_complete n a b 0 m (λ j lo hi. same j (omega arith)),
)

-- The result is the first address from `str + i` on that holds `c`, among `k`, or there is none.
abbrev pub IsFirst : (m : Memory) (str c i k : ℕ) → Option ℕ → Type 0
IsFirst m str c i k none = (j : ℕ) → i ≤ j → j < i + k → m (str + j) ≢ c
IsFirst m str c i k (some p) =
    (j : ℕ) × (p ≡ str + j)
    × (i ≤ j)
    × (j < i + k)
    × (m p ≡ c)
    × ((l : ℕ) → i ≤ l → l < j → m (str + l) ≢ c)

extend-IsFirst :
    (m : Memory) (str c i k : ℕ) (o : Option ℕ)
    → (c == m (str + i)) ≡ false
    → IsFirst m str c (suc i) k o
    → IsFirst m str c i (suc k) o
extend-IsFirst m str c i k none miss f = λ j lo hi. ground (arith, f j)
extend-IsFirst m str c i k (some p) miss (j, e, lo, hi, v, before) =
    (j, e, omega arith, omega arith, v, λ l lo' hi'. ground (arith, before l))

kmemchr_loop-IsFirst : (k str c i : ℕ) (m : Memory) → IsFirst m str c i k (kmemchr_loop k str c i m)
unfolding kmemchr_loop
kmemchr_loop-IsFirst zero str c i m = λ j lo hi. absurd (omega arith)
kmemchr_loop-IsFirst (suc k) str c i m = elim (Bool-cases (c == m (str + i))) [
  | inl here ↦
      rw here (i, refl, omega arith, omega arith, ground arith, λ l lo hi. absurd (omega arith))
  | inr later ↦ rw later (
      extend-IsFirst m str c i k (kmemchr_loop k str c (suc i) m) later
        (kmemchr_loop-IsFirst k str c (suc i) m))
]

-- `kmemchr` finds the first occurrence, and NULL means that there is none.
pub kmemchr-IsFirst : (str c n : ℕ) (m : Memory) → IsFirst m str c 0 n (kmemchr str c n m)
unfolding kmemchr
kmemchr-IsFirst str c n m = kmemchr_loop-IsFirst n str c 0 m

-- The result is the last address among the `n` from `str` on that holds `c`, or there is none.
abbrev pub IsLast : (m : Memory) (str c n : ℕ) → Option ℕ → Type 0
IsLast m str c n none = (j : ℕ) → j < n → m (str + j) ≢ c
IsLast m str c n (some p) =
    (j : ℕ) × (p ≡ str + j) × (j < n) × (m p ≡ c) × ((l : ℕ) → j < l → l < n → m (str + l) ≢ c)

extend-IsLast :
    (m : Memory) (str c n : ℕ) (o : Option ℕ)
    → (m (str + n) == c) ≡ false
    → IsLast m str c n o
    → IsLast m str c (suc n) o
extend-IsLast m str c n none miss f = λ j lt. ground (arith, f j)
extend-IsLast m str c n (some p) miss (j, e, lt, v, after) =
    (j, e, omega arith, v, λ l lo hi. ground (arith, after l))

-- `kmemrchr` finds the last occurrence, and NULL means that there is none.
pub kmemrchr-IsLast : (str c n : ℕ) (m : Memory) → IsLast m str c n (kmemrchr str c n m)
unfolding kmemrchr
kmemrchr-IsLast str c zero m = λ j lt. absurd (omega arith)
kmemrchr-IsLast str c (suc n) m = elim (Bool-cases (m (str + n) == c)) [
  | inl here ↦ rw here (n, refl, omega arith, ground arith, λ l lo hi. absurd (omega arith))
  | inr later ↦
      rw later (extend-IsLast m str c n (kmemrchr str c n m) later (kmemrchr-IsLast str c n m))
]
