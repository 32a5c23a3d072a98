-- ===== src/RadixTree/Lookup.antt =====
-- What putting and removing do to the lookups of every index.
use salern_os_kernel.Prelude.{
  ℕ, zero, suc, ◌+◌, ◌≡◌, ◌⊎◌, ◌%◌, ◌∙◌, ap, refl, fun_ext, Bool, ◌&&◌, ◌==◌, if◌then◌else◌, arith,
  Option, none, some, inl, inr, Bool-cases, Option-cases,
}
use salern_os_kernel.Errno.{success, enoent}
use salern_os_kernel.RadixTree.{
  Back, split_index, zero_page, branch, write_slot, non_null, get_from, put_from, remove_from,
  kradixtree_get, kradixtree_put, kradixtree_remove,
}
use salern_os_kernel.RadixTree.Index.{same_path, same_path_lem, span}

get_from-zero_page : (indices : ℕ → ℕ) (n i : ℕ) → get_from indices n i (zero_page n) ≡ none
unfolding get_from zero_page
get_from-zero_page indices zero i = refl
get_from-zero_page indices (suc n) i = refl

-- The lookup in a page is one in the branch of its slot, also where the branch is new.
get_from-branch :
    (indices : ℕ → ℕ) (n i : ℕ) (root : Back (suc n))
    → get_from indices (suc n) i root ≡ get_from indices n (suc i) (branch n (root (indices i)))
unfolding get_from branch
get_from-branch indices n i root = elim (Option-cases (root (indices i))) [
  | inl missing ↦ ground (arith, missing, get_from-zero_page indices n (suc i))
  | inr (page, found) ↦ ground (arith, found)
]

-- What a new page below one slot does to the lookups is done by the whole layer.
get_from-layer :
    (a b : ℕ → ℕ) (n i : ℕ) (root : Back (suc n)) (page : Back n) (x : Option ℕ) (same : Bool)
    → get_from b n (suc i) page ≡ (if same then x else get_from b n (suc i) (branch n (root (a i))))
    → get_from b (suc n) i (write_slot root (a i) (some page))
      ≡ (if (a i == b i) && same then x else get_from b (suc n) i root)
unfolding get_from
get_from-layer a b n i root page x same e = elim (Bool-cases (a i == b i)) [
  | inr other ↦ ground arith
  | inl slot ↦
      let f : a i ≡ b i = ground arith in
      let g = ap (λ k. get_from b n (suc i) (branch n (root k))) f in
      ground (arith, e, g, get_from-branch b n i root)
]

put_from_lem :
    (a : ℕ → ℕ) (n i : ℕ) (root : Back n) (p : ℕ)
    → ((root' : Back n) × (get_from a n i root ≡ none)
        × (put_from a n i root p ≡ some root')
        × ((b : ℕ → ℕ)
            → get_from b n i root'
              ≡ (if same_path a b n i then non_null p else get_from b n i root)))
      ⊎ ((old : ℕ) × (get_from a n i root ≡ some old) × (put_from a n i root p ≡ none))
unfolding get_from put_from same_path
put_from_lem a zero i root p = elim (Bool-cases (root (a i) == 0)) [
  | inl free ↦ inl (write_slot root (a i) p, ground arith, ground arith, λ b. ground arith)
  | inr used ↦ inr (root (a i), ground arith, ground arith)
]
put_from_lem a (suc n) i root p = elim (put_from_lem a n (suc i) (branch n (root (a i))) p) [
  | inr (old, found, failed) ↦ inr (old, get_from-branch a n i root ∙ found, ground (arith, failed))
  | inl (page, missing, done, lookups) ↦ inl (
    write_slot root (a i) (some page),
    get_from-branch a n i root ∙ missing,
    ground (arith, done),
    (λ b. get_from-layer a b n i root page (non_null p) (same_path a b n (suc i)) (lookups b)),
  )
]

write_slot_same : {A : Type 0} (root : ℕ → A) (j : ℕ) → write_slot root j (root j) ≡ root
write_slot_same root j = fun_ext (λ k. at k)
  where
    at : (k : ℕ) → write_slot root j (root j) k ≡ root k
    at k = elim (Bool-cases (j == k)) [
      | inr other ↦ ground (arith, other)
      | inl same ↦ let e : j ≡ k = ground arith in ground (arith, same, ap root e)
    ]

remove_from_lem :
    (a : ℕ → ℕ) (n i : ℕ) (root : Back n)
    → ((root' : Back n) × (old : ℕ) × (get_from a n i root ≡ some old)
        × (remove_from a n i root ≡ some (success, root'))
        × ((b : ℕ → ℕ)
            → get_from b n i root' ≡ (if same_path a b n i then none else get_from b n i root)))
      ⊎ ((get_from a n i root ≡ none)
          × ((remove_from a n i root ≡ none) ⊎ (remove_from a n i root ≡ some (enoent, root))))
unfolding get_from remove_from same_path non_null branch
remove_from_lem a zero i root = elim (Bool-cases (root (a i) == 0)) [
  | inl missing ↦ inr (ground arith, inl (ground arith))
  | inr used ↦
      inl (write_slot root (a i) 0, root (a i), ground arith, ground arith, λ b. ground arith)
]
remove_from_lem a (suc n) i root = elim (Option-cases (root (a i))) [
  | inl missing ↦ inr (ground (arith, missing), inr (ground (arith, missing)))
  | inr (below, found) ↦
      let e : branch n (root (a i)) ≡ below = ap (branch n) found in
      elim (remove_from_lem a n (suc i) below) [
        | inl (page, old, present, done, lookups) ↦ inl (
          write_slot root (a i) (some page),
          old,
          ground (arith, found, present),
          ground (arith, found, done),
          (λ b.
              get_from-layer a b n i root page none (same_path a b n (suc i))
                (ground (arith, lookups b, ap (get_from b n (suc i)) e))),
        )
        | inr (missing, inl failed) ↦
            inr (ground (arith, found, missing), inl (ground (arith, found, failed)))
        | inr (missing, inr failed) ↦ inr (
          ground (arith, found, missing),
          inr (
              ground (
                arith,
                found,
                failed,
                ap (write_slot root (a i)) found,
                write_slot_same root (a i),
              )),
        )
      ]
]

-- Two indices are one key of a tree if they are equal in the bits of its layers.
abbrev pub same_index : (last_layer : ℕ) → ℕ → ℕ → Bool
same_index last_layer index j = index % span (last_layer + 1) == j % span (last_layer + 1)

lookup_congr :
    (last_layer : ℕ) (x y : Option ℕ) (index j : ℕ)
    → (if same_path
          (split_index index (last_layer + 1))
          (split_index j (last_layer + 1))
          last_layer
          0
        then x
        else y)
      ≡ (if same_index last_layer index j then x else y)
lookup_congr last_layer x y index j =
    ap (λ c. if c then x else y)
      (same_path_lem index j (last_layer + 1) last_layer 0 (omega arith)
        ∙ ap (λ m. index % span m == j % span m) (omega arith))

-- Putting data at a free index succeeds, and the index then has the data, unless they are the null
-- pointer, and every index of another key what it had. The assertion fails exactly where the index
-- has data.
pub kradixtree_put_lem :
    (last_layer : ℕ) (root : Back last_layer) (index p : ℕ)
    → ((root' : Back last_layer) × (kradixtree_get last_layer root index ≡ none)
        × (kradixtree_put last_layer root index p ≡ some root')
        × ((j : ℕ)
            → kradixtree_get last_layer root' j ≡ (
                if same_index last_layer index j
                then non_null p
                else kradixtree_get last_layer root j)))
      ⊎ ((old : ℕ) × (kradixtree_get last_layer root index ≡ some old)
          × (kradixtree_put last_layer root index p ≡ none))
unfolding kradixtree_get kradixtree_put
kradixtree_put_lem last_layer root index p =
    elim (put_from_lem (split_index index (last_layer + 1)) last_layer 0 root p) [
      | inr failed ↦ inr failed
      | inl (root', missing, done, lookups) ↦ inl (
        root',
        missing,
        done,
        (λ j.
            lookups (split_index j (last_layer + 1))
            ∙ lookup_congr last_layer (non_null p) (kradixtree_get last_layer root j) index j),
      )
    ]

-- Removing an index that has data succeeds, and the index then has none and every index of another
-- key what it had. At an index without data the assertion fails, or the error is `ENOENT` and the
-- tree is as before.
pub kradixtree_remove_lem :
    (last_layer : ℕ) (root : Back last_layer) (index : ℕ)
    → ((root' : Back last_layer) × (old : ℕ) × (kradixtree_get last_layer root index ≡ some old)
        × (kradixtree_remove last_layer root index ≡ some (success, root'))
        × ((j : ℕ)
            → kradixtree_get last_layer root' j
              ≡ (if same_index last_layer index j then none else kradixtree_get last_layer root j)))
      ⊎ ((kradixtree_get last_layer root index ≡ none)
          × ((kradixtree_remove last_layer root index ≡ none)
              ⊎ (kradixtree_remove last_layer root index ≡ some (enoent, root))))
unfolding kradixtree_get kradixtree_remove
kradixtree_remove_lem last_layer root index =
    elim (remove_from_lem (split_index index (last_layer + 1)) last_layer 0 root) [
      | inr missing ↦ inr missing
      | inl (root', old, present, done, lookups) ↦ inl (
        root',
        old,
        present,
        done,
        (λ j.
            lookups (split_index j (last_layer + 1))
            ∙ lookup_congr last_layer none (kradixtree_get last_layer root j) index j),
      )
    ]
