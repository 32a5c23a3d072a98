-- ===== src/HashMap/Tests.antt =====
-- A table of two keys at concrete values.
use salern_os_kernel.Prelude.{
  ℕ, ◌≡◌, ◌⊎◌, ◌&&◌, true, false, refl, none, some, [], ◌∷◌, if◌then◌else◌, if-both, ◌==◌,
}
use salern_os_kernel.Errno.{success, enoent, enomem}
use salern_os_kernel.HashMap.{
  Key, HashMap, get_hash, offset, find, same_key, khashmap_init, khashmap_get, khashmap_put,
  khashmap_remove,
}
use salern_os_kernel.HashMap.Buckets.{Distinct, empty, first}
use salern_os_kernel.HashMap.Table.{IsDistinct, khashmap_put_lem}

abbrev bin : Key
bin = 98 ∷ 105 ∷ 110 ∷ []

abbrev dev : Key
dev = 100 ∷ 101 ∷ 118 ∷ []

abbrev one_key : HashMap ℕ
unfolding khashmap_init khashmap_put
one_key = let (e, m) = khashmap_put true true (khashmap_init 0 16) bin 7 in m

khashmap_get-one_key : khashmap_get one_key bin ≡ some 7
unfolding khashmap_get khashmap_init khashmap_put same_key
khashmap_get-one_key = refl

khashmap_remove_missing : khashmap_remove one_key dev ≡ (enoent, one_key)
unfolding khashmap_remove khashmap_init khashmap_put khashmap_get
khashmap_remove_missing = refl

one_key-IsDistinct : IsDistinct one_key
unfolding khashmap_init khashmap_put khashmap_get find
one_key-IsDistinct i =
    if-both Distinct (offset one_key (get_hash bin) == i) (first refl empty) empty

khashmap_put_lem_example :
    (m' : HashMap ℕ) × (((khashmap_put true true one_key dev 8 ≡ (success, m'))
        × ((j : Key)
            → khashmap_get m' j ≡ (if same_key dev j then some 8 else khashmap_get one_key j))
        × (IsDistinct one_key → IsDistinct m'))
      ⊎ ((khashmap_put true true one_key dev 8 ≡ (enomem, one_key))
          × (m' ≡ one_key)
          × (khashmap_get one_key dev ≡ none)
          × (true && true ≡ false)))
khashmap_put_lem_example = khashmap_put_lem true true one_key dev 8
