-- ===== src/RingBuffer/Queue.antt =====
-- The ring as a queue of bytes: its representation invariant and its contents.
use salern_os_kernel.Prelude.{
  ℕ, zero, suc, ◌+◌, ◌%◌, ◌^◌, ◌≤◌, ◌<◌, ◌≡◌, ◌∙◌, ap, ap₂, sym, subst, refl, List, [], ◌∷◌, ◌++◌,
  arith, length,
}
use salern_os_kernel.Prelude.Word.{word}
use salern_os_kernel.RingBuffer.Index.{pow-lt-word, mod_word}
use native.Mathlib.Nat.{mod-add-mod, add-mod_right}
use salern_os_kernel.RingBuffer.{Ring, avail_read, avail_write}

-- The capacity is `2 ^ k`; the counters are words and differ by at most the capacity.
pub record IsValid (k : ℕ) (r : Ring) : Type 0 where
  pub small : k < 64
  pub capacity : r.buffer_size ≡ 2 ^ k
  pub write_word : r.write_index < word
  pub read_word : r.read_index < word
  pub fits : avail_read r ≤ r.buffer_size

-- The `n` values of `f` from `i` on.
abbrev pub span : (ℕ → ℕ) → ℕ → ℕ → List ℕ
span f i zero = []
span f i (suc n) = f i ∷ span f (suc i) n

-- The bytes that were written and not read yet, oldest first.
abbrev pub contents : Ring → List ℕ
contents r = span (λ i. r.buffer (i % r.buffer_size)) r.read_index (avail_read r)

pub length-span : (f : ℕ → ℕ) (i n : ℕ) → length (span f i n) ≡ n
length-span f i zero = refl
length-span f i (suc n) = ap suc (length-span f (suc i) n)

pub span-append :
    (f : ℕ → ℕ) (i j m n total : ℕ)
    → i + m ≡ j
    → m + n ≡ total
    → span f i total ≡ span f i m ++ span f j n
span-append f i j zero n total e t = ap₂ (span f) (omega arith) (omega arith)
span-append f i j (suc m) n zero e t = absurd (omega arith)
span-append f i j (suc m) n (suc total) e t =
    ap (◌∷◌ (f i)) (span-append f (suc i) j m n total (omega arith) (omega arith))

pub span_congr :
    (f g : ℕ → ℕ) (i j n : ℕ) → ((d : ℕ) → d < n → f (i + d) ≡ g (j + d)) → span f i n ≡ span g j n
span_congr f g i j zero same = refl
span_congr f g i j (suc n) same =
    ap₂ ◌∷◌ (ground (arith, same 0 (omega arith)))
      (span_congr f g (suc i) (suc j) n (λ d lt. ground (arith, same (suc d) (omega arith))))

-- Free and used bytes make up the capacity.
pub avail_write-add-avail_read :
    {k : ℕ} (r : Ring) → IsValid k r → avail_write r + avail_read r ≡ r.buffer_size
unfolding avail_write
avail_write-add-avail_read {k} r v = omega (arith, pow-lt-word k v.small)

-- The wrap of a counter does not show in the slots behind it.
pub wrap_slot :
    {k : ℕ} (r : Ring) (x d : ℕ)
    → IsValid k r
    → (x % word + d) % r.buffer_size ≡ (x + d) % r.buffer_size
wrap_slot {k} r x d v =
    sym (mod-add-mod (x % word) r.buffer_size d)
    ∙ ap (λ (x : ℕ). (x + d) % r.buffer_size)
        (subst (λ n. x % word % n ≡ x % n) (sym v.capacity) (mod_word k x (omega arith)))
    ∙ mod-add-mod x r.buffer_size d

-- The write index stands `avail_read` steps behind the read index, also across the wrap.
pub write_slot :
    {k : ℕ} (r : Ring) (d : ℕ)
    → IsValid k r
    → (r.write_index + d) % r.buffer_size ≡ (r.read_index + avail_read r + d) % r.buffer_size
unfolding avail_read
write_slot r d v =
    ap (λ (x : ℕ). (x + d) % r.buffer_size) wrapped ∙ wrap_slot r (r.read_index + avail_read r) d v
  where
    wrapped : r.write_index ≡ (r.read_index + avail_read r) % word
    wrapped = omega arith

-- A whole turn further lies the same slot.
pub turn : (n p q : ℕ) → p ≡ q + n → p % n ≡ q % n
turn n p q e = ap (λ (x : ℕ). x % n) e ∙ add-mod_right q n
