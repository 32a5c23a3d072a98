-- ===== src/RadixTree/Tests.antt =====
-- A tree of three layers at concrete indices.
use salern_os_kernel.Prelude.{ℕ, ◌≡◌, ◌⊎◌, refl, none, some, if◌then◌else◌}
use salern_os_kernel.Errno.{enoent}
use salern_os_kernel.RadixTree.{
  Back, non_null, kradixtree_new, kradixtree_get, kradixtree_put, kradixtree_remove, zero_page,
  split_index,
}
use salern_os_kernel.RadixTree.Lookup.{same_index, kradixtree_put_lem}

abbrev tree : Back 2
unfolding kradixtree_put
tree = elim (kradixtree_put 2 (kradixtree_new 2) 1000000 42) [
  | none ↦ kradixtree_new 2
  | some root ↦ root
]

kradixtree_get-tree : kradixtree_get 2 tree 1000000 ≡ some 42
unfolding kradixtree_get kradixtree_put kradixtree_new non_null zero_page split_index
kradixtree_get-tree = refl

put_again : kradixtree_put 2 tree 1000000 43 ≡ none
unfolding kradixtree_put kradixtree_new zero_page split_index
put_again = refl

-- At a missing leaf the assertion of `kradixtree_remove` fails, at a missing page the error is
-- `ENOENT`.
remove_missing :
    (kradixtree_remove 2 tree 1000001 ≡ none)
    × (kradixtree_remove 2 (kradixtree_new 2) 5 ≡ some (enoent, kradixtree_new 2))
unfolding kradixtree_remove kradixtree_put kradixtree_new zero_page split_index
remove_missing = (refl, refl)

kradixtree_put_lem_example :
    ((root' : Back 2) × (kradixtree_get 2 tree 7 ≡ none)
      × (kradixtree_put 2 tree 7 9 ≡ some root')
      × ((j : ℕ)
          → kradixtree_get 2 root' j
            ≡ (if same_index 2 7 j then non_null 9 else kradixtree_get 2 tree j)))
    ⊎ ((old : ℕ) × (kradixtree_get 2 tree 7 ≡ some old) × (kradixtree_put 2 tree 7 9 ≡ none))
kradixtree_put_lem_example = kradixtree_put_lem 2 tree 7 9
