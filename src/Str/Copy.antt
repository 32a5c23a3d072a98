-- ===== src/Str/Copy.antt =====
-- The length and the copy of a string.
use salern_os_kernel.Prelude.{
  ℕ, zero, suc, ◌+◌, ◌-◌, ◌<◌, ◌≡◌, ◌≢◌, ◌⊎◌, subst, some, if◌then◌else◌, arith,
}
use salern_os_kernel.Mem.{Memory, write}
use salern_os_kernel.Mem.Copy.{within}
use salern_os_kernel.Str.{kstrlen_loop, kstrlen, kstrcpy_loop, kstrcpy}

-- The string at `s` has `n` characters.
abbrev pub IsString : Memory → ℕ → ℕ → Type 0
IsString m s n = (m (s + n) ≡ 0) × ((i : ℕ) → i < n → m (s + i) ≢ 0)

-- The string after its first character.
IsString-tail : (m : Memory) (s k : ℕ) → IsString m s (suc k) → IsString m (suc s) k
IsString-tail m s k (end, chars) = (ground arith, λ i h. ground (arith, chars (suc i)))

IsString-at : (m : Memory) (s t k : ℕ) → s ≡ t → IsString m s k → IsString m t k
IsString-at m s t k e str = subst (λ p. IsString m p k) e str

-- A write outside the string keeps it.
IsString-write :
    (m : Memory) (s k p v : ℕ) → (p < s) ⊎ (s + k < p) → IsString m s k → IsString (write m p v) s k
IsString-write m s k p v outside (end, chars) = (ground arith, λ i h. ground (arith, chars i))

kstrlen_loop_lem :
    (fuel s n k : ℕ) (m : Memory)
    → IsString m s k
    → k < fuel
    → kstrlen_loop fuel s n m ≡ some (n + k)
unfolding kstrlen_loop
kstrlen_loop_lem zero s n k m str enough = absurd (omega arith)
kstrlen_loop_lem (suc fuel) s n zero m (end, chars) enough = ground (arith)
kstrlen_loop_lem (suc fuel) s n (suc k) m (end, chars) enough =
    ground
      (arith, chars 0, kstrlen_loop_lem fuel (suc s) (suc n) k m (IsString-tail m s k (end, chars)))

-- What `kstrcpy` leaves.
abbrev Copied : (dst src i k : ℕ) → Memory → Memory → Type 0
Copied dst src i k m m' =
    (q : ℕ) → m' q ≡ (if within (dst + i) (k + 1) q then m (src + (q - dst)) else m q)

kstrcpy_loop_lem :
    (fuel dst src i k : ℕ) (m : Memory)
    → IsString m (src + i) k
    → k < fuel
    → (dst + i + k < src) ⊎ (src + i + k < dst)
    → (m' : Memory) × (kstrcpy_loop fuel dst src i m ≡ some m') × Copied dst src i k m m'
unfolding kstrcpy_loop
kstrcpy_loop_lem zero dst src i k m str enough apart = absurd (omega arith)
kstrcpy_loop_lem (suc fuel) dst src i zero m (end, chars) enough apart =
    (write m (dst + i) 0, ground arith, λ q. ground arith)
kstrcpy_loop_lem (suc fuel) dst src i (suc k) m (end, chars) enough apart =
    let m1 = write m (dst + i) (m (src + i)) in
    let str = IsString-tail m (src + i) k (end, chars) in
    let (m', done, copied) =
      kstrcpy_loop_lem fuel dst src (suc i) k m1
        (IsString-write m (src + suc i) k (dst + i) (m (src + i)) (omega arith)
          (IsString-at m (suc (src + i)) (src + suc i) k (omega arith) str))
        (omega arith) (omega arith) in
    (m', ground (arith, chars 0, done), λ q. ground (arith, copied q))

-- `kstrlen` counts the characters, and one round more than that is enough.
pub kstrlen_lem :
    (fuel s n : ℕ) (m : Memory) → IsString m s n → n < fuel → kstrlen fuel s m ≡ some n
unfolding kstrlen
kstrlen_lem fuel s n m str enough = ground (arith, kstrlen_loop_lem fuel s 0 n m str enough)

-- For a string of `n` characters that the destination does not overlap, `kstrcpy` ends within
-- `n + 1` rounds, copies the characters and the zero byte and writes nothing else.
pub kstrcpy_lem :
    (fuel dst src n : ℕ) (m : Memory)
    → IsString m src n
    → n < fuel
    → (dst + n < src) ⊎ (src + n < dst)
    → (m' : Memory) × (kstrcpy fuel dst src m ≡ some m')
      × ((q : ℕ) → m' q ≡ (if within dst (n + 1) q then m (src + (q - dst)) else m q))
unfolding kstrcpy
kstrcpy_lem fuel dst src n m str enough apart =
    let (m', done, copied) =
      kstrcpy_loop_lem fuel dst src 0 n m (IsString-at m src (src + 0) n (omega arith) str) enough
        (omega arith) in
    (m', done, λ q. ground (arith, copied q))
