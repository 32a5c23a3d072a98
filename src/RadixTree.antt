-- ===== src/RadixTree.antt =====
-- src/com/lib/radixtree.c: a tree of pages of 512 pointers, where the last layer holds the data.
-- The number of layers is fixed when the tree is made, so it is the index of the tree's type, less
-- one: a tree of no layer has no meaning in the code. A null pointer is 0 for data and `none` for a
-- page. The locked operations are those without the lock between an acquire and a release, and the
-- pages come from the page allocator, which is taken to deliver.

pub mod Index
pub mod Lookup
mod Tests
use Prim.Native.Nat.{bit_and}
use mathlib.Core.Option
use salern_os_kernel.Prelude.{
  ℕ, zero, suc, ◌+◌, ◌-◌, ◌*◌, ◌/◌, ◌^◌, Option, none, some, ◌==◌, if◌then◌else◌,
}
use salern_os_kernel.Errno.{Errno, success, enoent}

-- `KRADIXTREE_INDEX_BITS` and `KRADIXTREE_INDEX_MASK`
abbrev pub index_bits : ℕ
index_bits = 9

abbrev pub index_mask : ℕ
index_mask = 2 ^ index_bits - 1

-- What a slot holds when `n` layers lie below it.
abbrev pub Slot : ℕ → Type 0
Slot zero = ℕ
Slot (suc n) = Option (ℕ → Slot n)

-- `kradixtree_back_t`
abbrev pub Back : ℕ → Type 0
Back n = ℕ → Slot n

unfoldable pub split_index : (index num_layers i : ℕ) → ℕ
split_index index num_layers i =
    bit_and (index / 2 ^ (index_bits * (num_layers - i - 1))) index_mask

-- A page of zeros.
unfoldable pub zero_page : (n : ℕ) → Back n
zero_page zero i = 0
zero_page (suc n) i = none

-- The branch of a slot, which is a new page of zeros if it has none.
unfoldable pub branch : (n : ℕ) → Slot (suc n) → Back n
unfolding zero_page
branch n none = zero_page n
branch n (some page) = page

abbrev pub write_slot : {A : Type 0} → (ℕ → A) → ℕ → A → ℕ → A
write_slot root j slot k = if j == k then slot else root k

-- A pointer that is not null.
unfoldable pub non_null : ℕ → Option ℕ
non_null p = if p == 0 then none else some p

-- The loops, from layer `i` down, where `n` layers follow it.
unfoldable pub get_from : (ℕ → ℕ) → (n i : ℕ) → Back n → Option ℕ
unfolding non_null
get_from indices zero i root = non_null (root (indices i))
get_from indices (suc n) i root = elim (root (indices i)) [
  | none ↦ none
  | some page ↦ get_from indices n (suc i) page
]

-- `none` is the failed assertion.
unfoldable pub put_from : (ℕ → ℕ) → (n i : ℕ) → Back n → ℕ → Option (Back n)
unfolding branch
put_from indices zero i root p =
    if root (indices i) == 0 then some (write_slot root (indices i) p) else none
put_from indices (suc n) i root p =
    Option.map (λ page. write_slot root (indices i) (some page))
      (put_from indices n (suc i) (branch n (root (indices i))) p)

unfoldable pub remove_from : (ℕ → ℕ) → (n i : ℕ) → Back n → Option (Errno × Back n)
remove_from indices zero i root =
    if root (indices i) == 0 then none else some (success, write_slot {A = ℕ} root (indices i) 0)
remove_from indices (suc n) i root = elim (root (indices i)) [
  | none ↦ some (enoent, root)
  | some below ↦
      Option.map (λ r. let (e, page) = r in (e, write_slot root (indices i) (some page)))
        (remove_from indices n (suc i) below)
]

-- `kradixtree_new` of `last_layer + 1` layers.
unfoldable pub kradixtree_new : (last_layer : ℕ) → Back last_layer
unfolding zero_page
kradixtree_new last_layer = zero_page last_layer

-- The data, or `ENOENT`.
unfoldable pub kradixtree_get : (last_layer : ℕ) → Back last_layer → (index : ℕ) → Option ℕ
unfolding split_index get_from
kradixtree_get last_layer root index =
    get_from (split_index index (last_layer + 1)) last_layer 0 root

unfoldable pub kradixtree_put :
    (last_layer : ℕ) → Back last_layer → (index p : ℕ) → Option (Back last_layer)
unfolding split_index put_from
kradixtree_put last_layer root index p =
    put_from (split_index index (last_layer + 1)) last_layer 0 root p

unfoldable pub kradixtree_remove :
    (last_layer : ℕ) → Back last_layer → (index : ℕ) → Option (Errno × Back last_layer)
unfolding split_index remove_from
kradixtree_remove last_layer root index =
    remove_from (split_index index (last_layer + 1)) last_layer 0 root
