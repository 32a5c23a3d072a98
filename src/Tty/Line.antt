-- ===== src/Tty/Line.antt =====
-- The line as a list: what the stores and the moves of `canon.index` do to it.
use salern_os_kernel.Prelude.{
  ℕ, zero, suc, ◌-◌, ◌≤◌, ◌≡◌, ◌∙◌, ap, ap₂, refl, [], ◌∷◌, ◌++◌, ◌==◌, min, take, arith,
}
use salern_os_kernel.Mem.{Memory, write}
use salern_os_kernel.RingBuffer.Queue.{span, span-append, span_congr}
use salern_os_kernel.Tty.Steps.{stop_index}
use salern_os_kernel.Tty.Edit.{drop_last, is_empty}

pub span_count : (b : Memory) (i m n : ℕ) → m ≡ n → span b i m ≡ span b i n
span_count b i m n e = ap (span b i) e

pub span-write : (b : Memory) (i c : ℕ) → span (write b i c) 0 (suc i) ≡ span b 0 i ++ (c ∷ [])
span-write b i c =
    span-append (write b i c) 0 i i 1 (suc i) (omega arith) (omega arith)
    ∙ ap₂ ◌++◌ (span_congr (write b i c) b 0 0 i (λ d lt. ground arith))
        (ap (λ x. x ∷ []) (ground arith))

pub drop_last-span : (b : Memory) (i n : ℕ) → drop_last (span b i n) ≡ span b i (n - 1)
drop_last-span b i zero = refl
drop_last-span b i (suc zero) = refl
drop_last-span b i (suc (suc n)) =
    ap (b i ∷◌) (drop_last-span b (suc i) (suc n))
    ∙ span_count b i (suc (suc n - 1)) (suc (suc n) - 1) (omega arith)

pub take-span : (b : Memory) (n i m : ℕ) → take n (span b i m) ≡ span b i (min n m)
take-span b zero i m = span_count b i 0 (min 0 m) (omega arith)
take-span b (suc n) i zero = span_count b i 0 (min (suc n) 0) (omega arith)
take-span b (suc n) i (suc m) =
    ap (b i ∷◌) (take-span b n (suc i) m)
    ∙ span_count b i (suc (min n m)) (min (suc n) (suc m)) (omega arith)

pub is_empty-span : (b : Memory) (n : ℕ) → is_empty (span b 0 n) ≡ (n == 0)
is_empty-span b zero = refl
is_empty-span b (suc n) = ground arith

pub stop_index_le : (b : Memory) (i : ℕ) → stop_index b i ≤ i
stop_index_le b zero = omega arith
stop_index_le b (suc i) = ground (arith, stop_index_le b i)
