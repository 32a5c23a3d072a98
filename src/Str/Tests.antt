-- ===== src/Str/Tests.antt =====
-- A path, a number and their strings at concrete values.
use salern_os_kernel.Prelude.{
  ℕ, zero, suc, ◌+◌, ◌≤◌, ◌<◌, ◌≡◌, ◌≢◌, ◌⊎◌, refl, [], ◌∷◌, some, get_or, arith,
}
use salern_os_kernel.Mem.{Memory}
use salern_os_kernel.Str.{kuitoa, kstrpathpenult}
use salern_os_kernel.Str.Copy.{IsString}
use salern_os_kernel.Str.Number.{IsDecimal, decimal_value, kuitoa_lem}

-- "/bin/sh/"
abbrev path : Memory
path i = get_or (47 ∷ 98 ∷ 105 ∷ 110 ∷ 47 ∷ 115 ∷ 104 ∷ 47 ∷ []) i 0

kstrpathpenult-path : kstrpathpenult 0 8 path ≡ (4, 5, 2)
unfolding kstrpathpenult
kstrpathpenult-path = refl

-- "sh/"
end-IsString : IsString path 5 3
end-IsString = (refl, chars)
  where
    chars : (i : ℕ) → i < 3 → path (5 + i) ≢ 0
    chars zero h = ground arith
    chars (suc zero) h = ground arith
    chars (suc (suc zero)) h = ground arith
    chars (suc (suc (suc i))) h = absurd (omega arith)

kuitoa_lem_example :
    (n : ℕ) × (m' : Memory) × (kuitoa 18446744073709551615 10 path ≡ some m')
    × (1 ≤ n)
    × (n ≤ 20)
    × IsDecimal m' 10 n
    × (decimal_value 10 n m' ≡ 18446744073709551615)
    × (m' (10 + n) ≡ 0)
    × ((q : ℕ) → (q < 10) ⊎ (10 + n < q) → m' q ≡ path q)
kuitoa_lem_example = kuitoa_lem 18446744073709551615 10 path (omega arith)
