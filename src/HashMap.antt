-- ===== src/HashMap.antt =====
-- src/com/lib/hashmap.c: the chained hash table with FNV-1 hashes. A key is the list of its bytes,
-- so that its size is the list's length; the values are pointers of any type. The memory of the two
-- allocations of `khashmap_put` comes from the slab allocator: whether each succeeds is an argument.
pub mod Buckets
pub mod Table
mod Tests
use Prim.Native.Nat.{bit_and, bit_xor}
use salern_os_kernel.Prelude.{
  ℕ, zero, suc, ◌+◌, ◌-◌, ◌*◌, ◌%◌, Bool, true, false, ◌&&◌, Option, none, some, List, [], ◌∷◌,
  ◌==◌, if◌then◌else◌,
}
use salern_os_kernel.Prelude.Word.{word}
use salern_os_kernel.Errno.{Errno, success, enoent, enomem, is_success}

abbrev pub Key : Type 0
Key = List ℕ

abbrev pub fnv1_offset : ℕ
fnv1_offset = 0xcbf2_9ce4_8422_2325

abbrev pub fnv1_prime : ℕ
fnv1_prime = 0x100_0000_01b3

hash_loop : ℕ → Key → ℕ
hash_loop h [] = h
hash_loop h (b ∷ bs) = hash_loop ((bit_xor h b * fnv1_prime) % word) bs

unfoldable pub get_hash : Key → ℕ
unfolding hash_loop
get_hash key = hash_loop fnv1_offset key

-- Equal sizes and `0 == kmemcmp(...)`
unfoldable pub same_key : Key → Key → Bool
same_key [] [] = true
same_key [] (b ∷ bs) = false
same_key (a ∷ as') [] = false
same_key (a ∷ as') (b ∷ bs) = (a == b) && same_key as' bs

module _ {ℓ} (V : Type ℓ) where
  -- `khashmap_entry_t`
  pub record HashEntry : Type ℓ where
    pub hash : ℕ
    pub key : Key
    pub value : V

  -- `khashmap_t`; a bucket is the TAILQ of its entries.
  pub record HashMap : Type ℓ where
    pub capacity : ℕ
    pub num_entries : ℕ
    pub entries : ℕ → List HashEntry

abbrev pub offset {ℓ} : {V : Type ℓ} → HashMap V → ℕ → ℕ
offset m hash = bit_and hash (m.capacity - 1)

module _ {ℓ} {V : Type ℓ} where
  abbrev pub matches : HashEntry V → Key → ℕ → Bool
  matches e key hash = (e.hash == hash) && same_key e.key key

  -- The walk of `get_entry` through a bucket, and what its callers do with the entry.
  unfoldable pub find : List (HashEntry V) → Key → ℕ → Option V
  find [] key hash = none
  find (e ∷ l) key hash = if matches e key hash then some e.value else find l key hash

  unfoldable pub assign : List (HashEntry V) → Key → ℕ → V → List (HashEntry V)
  assign [] key hash v = []
  assign (e ∷ l) key hash v =
      if matches e key hash then record e { value = v } ∷ l else e ∷ assign l key hash v

  unfoldable pub unlink : List (HashEntry V) → Key → ℕ → List (HashEntry V)
  unlink [] key hash = []
  unlink (e ∷ l) key hash = if matches e key hash then l else e ∷ unlink l key hash

  abbrev pub put_bucket : HashMap V → ℕ → List (HashEntry V) → HashMap V
  put_bucket m off l = record m { entries = λ i. if off == i then l else m.entries i }

  -- The bucket array is fresh memory, `num_entries` is what the caller's memory holds.
  unfoldable pub khashmap_init : (num_entries size : ℕ) → HashMap V
  khashmap_init num_entries size = record {
    capacity = size;
    num_entries = num_entries;
    entries = λ i. [];
  }

  unfoldable pub khashmap_get : HashMap V → Key → Option V
  unfolding find get_hash
  khashmap_get m key = find (m.entries (offset m (get_hash key))) key (get_hash key)

  unfoldable pub khashmap_set : HashMap V → Key → V → Errno × HashMap V
  unfolding khashmap_get assign
  khashmap_set m key v =
      let hash = get_hash key in
      let off = offset m hash in
      elim (khashmap_get m key) [
        | some old ↦ (success, put_bucket m off (assign (m.entries off) key hash v))
        | none ↦ (enoent, m)
      ]

  -- `entry_memory` and `key_memory`: does the slab allocator deliver?
  unfoldable pub khashmap_put :
      (entry_memory key_memory : Bool) → HashMap V → Key → V → Errno × HashMap V
  unfolding khashmap_set
  khashmap_put entry_memory key_memory m key v =
      let hash = get_hash key in
      let off = offset m hash in
      let (e, m') = khashmap_set m key v in
      let m'' = put_bucket m off (record { hash = hash; key = key; value = v } ∷ m.entries off) in
      if is_success e
      then (success, m')
      else if entry_memory
      then (if key_memory
          then (success, record m'' { num_entries = (m.num_entries + 1) % word })
          else (enomem, m))
      else (enomem, m)

  unfoldable pub khashmap_remove : HashMap V → Key → Errno × HashMap V
  unfolding khashmap_get unlink
  khashmap_remove m key =
      let hash = get_hash key in
      let off = offset m hash in
      elim (khashmap_get m key) [
        | none ↦ (enoent, m)
        | some old ↦ (
          success,
          record (put_bucket m off (unlink (m.entries off) key hash)) {
            num_entries = (m.num_entries + word - 1) % word;
          },
        )
      ]

  -- The error, the value for `*out` on success, and the table.
  unfoldable pub khashmap_default :
      (entry_memory key_memory : Bool) → HashMap V → Key → V → Errno × Option V × HashMap V
  unfolding khashmap_put
  khashmap_default entry_memory key_memory m key v = elim (khashmap_get m key) [
    | some old ↦ (success, some old, m)
    | none ↦
        let (e, m') = khashmap_put entry_memory key_memory m key v in
        let out = khashmap_get m' key in
        if is_success e
        then (elim out [ some w ↦ (success, some w, m') | none ↦ (enoent, none, m') ])
        else (e, none, m')
  ]
