-- ===== src/Mem/Copy.antt =====
-- What `kmemset`, `kmemcpy` and `kmemmove` leave at each address.
use salern_os_kernel.Prelude.{
  ℕ, zero, suc, ◌+◌, ◌-◌, ◌≤◌, ◌<◌, ◌≡◌, refl, Bool, ◌&&◌, ltb, leb, if◌then◌else◌, arith, ◌⊎◌, inl,
  inr,
}
use salern_os_kernel.Mem.{
  Memory, write, kmemset_loop, kmemset, kmemcpy_loop, kmemcpy, kmemmove_loop, kmemmove,
  kmemcpy_across_loop, kmemcpy_across, portable_reverse, movsb_reverse,
}
use salern_os_kernel.Prelude.Word.{word, sub64}
use native.Mathlib.Decide.{dec_lt}

-- Does `q` lie among the `n` addresses from `p` on?
abbrev pub within : ℕ → ℕ → ℕ → Bool
within p n q = leb p q && ltb q (p + n)

kmemset_loop_lem :
    (k buff i val : ℕ) (m : Memory) (q : ℕ)
    → kmemset_loop k buff i val m q ≡ (if within (buff + i) k q then val else m q)
unfolding kmemset_loop
kmemset_loop_lem zero buff i val m q = ground arith
kmemset_loop_lem (suc k) buff i val m q =
    ground (arith, kmemset_loop_lem k buff (suc i) val (write m (buff + i) val) q)

-- `kmemset` fills exactly the buffer.
pub kmemset_lem :
    (buff n val : ℕ) (m : Memory) (q : ℕ)
    → kmemset buff n val m q ≡ (if within buff n q then val else m q)
unfolding kmemset
kmemset_lem buff n val m q = ground (arith, kmemset_loop_lem n buff 0 val m q)

-- Forwards: sound where the source is not overwritten before it is read.
kmemcpy_loop_lem :
    (k dst src i : ℕ) (m : Memory) (q : ℕ)
    → (dst ≤ src) ⊎ (src + k ≤ dst)
    → kmemcpy_loop k dst src i m q ≡ (if within (dst + i) k q then m (src + (q - dst)) else m q)
unfolding kmemcpy_loop
kmemcpy_loop_lem zero dst src i m q h = ground arith
kmemcpy_loop_lem (suc k) dst src i m q h =
    ground
      (arith, kmemcpy_loop_lem k dst src (suc i) (write m (dst + i) (m (src + i))) q (shorter h))
  where
    shorter : (dst ≤ src) ⊎ (src + suc k ≤ dst) → (dst ≤ src) ⊎ (src + k ≤ dst)
    shorter (inl below) = inl below
    shorter (inr apart) = inr (omega arith)

kmemcpy_across_loop_lem :
    (k : ℕ) (dst : Memory) (d : ℕ) (src : Memory) (s i q : ℕ)
    → kmemcpy_across_loop k dst d src s i q
      ≡ (if within (d + i) k q then src (s + (q - d)) else dst q)
unfolding kmemcpy_across_loop
kmemcpy_across_loop_lem zero dst d src s i q = ground arith
kmemcpy_across_loop_lem (suc k) dst d src s i q =
    ground (arith, kmemcpy_across_loop_lem k (write dst (d + i) (src (s + i))) d src s (suc i) q)

pub kmemcpy_across_lem :
    (dst : Memory) (d : ℕ) (src : Memory) (s n q : ℕ)
    → kmemcpy_across dst d src s n q ≡ (if within d n q then src (s + (q - d)) else dst q)
unfolding kmemcpy_across
kmemcpy_across_lem dst d src s n q = ground (arith, kmemcpy_across_loop_lem n dst d src s 0 q)

-- Backwards: sound where the destination lies above.
kmemmove_loop_lem :
    (n dst src : ℕ) (m : Memory) (q : ℕ)
    → src ≤ dst
    → kmemmove_loop dst src n m q ≡ (if within dst n q then m (src + (q - dst)) else m q)
unfolding kmemmove_loop
kmemmove_loop_lem zero dst src m q h = ground arith
kmemmove_loop_lem (suc n) dst src m q h =
    ground (arith, kmemmove_loop_lem n dst src (write m (dst + n) (m (src + n))) q h)

-- `kmemcpy` copies exactly the buffer where the source is not overwritten before it is read: the
-- destination lies below the source, or behind its end.
pub kmemcpy_lem :
    (dst src n : ℕ) (m : Memory) (q : ℕ)
    → (dst ≤ src) ⊎ (src + n ≤ dst)
    → kmemcpy dst src n m q ≡ (if within dst n q then m (src + (q - dst)) else m q)
unfolding kmemcpy
kmemcpy_lem dst src n m q h = ground (arith, kmemcpy_loop_lem n dst src 0 m q h)

-- `kmemmove` with the portable loop copies exactly the buffer, however the two overlap.
pub kmemmove_lem :
    (dst src n : ℕ) (m : Memory) (q : ℕ)
    → kmemmove portable_reverse dst src n m q
      ≡ (if within dst n q then m (src + (q - dst)) else m q)
unfolding kmemmove portable_reverse
kmemmove_lem dst src n m q = elim (dec_lt dst src) [
  | yes below ↦ ground (arith, kmemcpy_lem dst src n m q (inl (omega arith)))
  | no above ↦ ground (arith, kmemmove_loop_lem n dst src m q)
]

movsb_reverse_lem :
    (n dst src : ℕ) (m : Memory) (q : ℕ)
    → n ≤ suc dst
    → dst < word
    → dst < q
    → movsb_reverse dst src n m q ≡ m q
unfolding movsb_reverse
movsb_reverse_lem zero dst src m q fits small above = refl
movsb_reverse_lem (suc zero) dst src m q fits small above = ground arith
movsb_reverse_lem (suc (suc n)) dst src m q fits small above = ground (
  arith,
  movsb_reverse_lem (suc n) (sub64 dst 1) (sub64 src 1) (write m dst (m src)) q (omega arith)
      (omega arith) (omega arith),
)

-- With the string instruction of x86-64, a move to a higher address leaves every byte behind the
-- first of its destination as it was.
pub kmemmove_movsb :
    (dst src n : ℕ) (m : Memory) (q : ℕ)
    → src < dst
    → n ≤ suc dst
    → dst < word
    → dst < q
    → kmemmove movsb_reverse dst src n m q ≡ m q
unfolding kmemmove
kmemmove_movsb dst src n m q up fits small above =
    ground (arith, movsb_reverse_lem n dst src m q fits small above)
