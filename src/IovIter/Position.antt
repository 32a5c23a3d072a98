-- ===== src/IovIter/Position.antt =====
-- Skipping and seeking: where the position is afterwards.
use salern_os_kernel.Prelude.{
  ℕ, ◌+◌, ◌-◌, ◌≤◌, ◌<◌, ◌≡◌, ◌∙◌, ap, sym, subst, refl, min, not, ◌&&◌, List, [], ◌∷◌, ◌++◌,
  append_assoc, ltb, ◌==◌, arith, Bool-cases, inl, inr,
}
use salern_os_kernel.Prelude.Word.{word, add64, sub64}
use salern_os_kernel.IovIter.{
  Iovec, IovIter, size_from, ioviter_size, kioviter_init, skip_loop, place, kioviter_skip,
  kioviter_goto,
}

-- The bytes of some vectors.
unfoldable pub sum : List Iovec → ℕ
sum [] = 0
sum (v ∷ vs) = v.iov_len + sum vs

sum-append : (vs ws : List Iovec) → sum (vs ++ ws) ≡ sum vs + sum ws
unfolding sum
sum-append [] ws = omega arith
sum-append (v ∷ vs) ws = omega (arith, sum-append vs ws)

size_from_lem :
    (vs : List Iovec) (size : ℕ) → size + sum vs < word → size_from vs size ≡ size + sum vs
unfolding size_from sum
size_from_lem [] size small = omega arith
size_from_lem (v ∷ vs) size small = ground (arith, size_from_lem vs (add64 size v.iov_len))

-- The offset lies in the current vector.
unfoldable pub InHead : List Iovec → ℕ → Type 0
InHead [] off = off ≡ 0
InHead (v ∷ vs) off = off ≤ v.iov_len

-- The position stands in the array: the vectors before the current one and the offset make up
-- `total_off`, and the array's bytes, which a word counts, `total_size`.
abbrev pub IsPosition : IovIter → Type 0
IsPosition it =
    (before : List Iovec) × (it.first_iov ≡ before ++ it.curr_iov)
    × (it.total_off ≡ sum before + it.curr_off)
    × (it.total_size ≡ sum before + sum it.curr_iov)
    × (it.total_size < word)
    × InHead it.curr_iov it.curr_off

pub InHead-le : (vs : List Iovec) (off : ℕ) → InHead vs off → off ≤ sum vs
unfolding InHead sum
InHead-le [] off h = omega arith
InHead-le (v ∷ vs) off h = omega arith

InHead-zero : (vs : List Iovec) → InHead vs 0
unfolding InHead
InHead-zero [] = refl
InHead-zero (v ∷ vs) = omega arith

pub skip_loop_lem :
    (size base : ℕ) (vs : List Iovec) (off total count : ℕ)
    → total ≡ base + off
    → size ≡ base + sum vs
    → size < word
    → InHead vs off
    → (passed : List Iovec) × (curr : List Iovec) × (off' : ℕ) × (total' : ℕ) × (skip_loop size vs
          off total count
        ≡ (curr, off', total'))
      × (vs ≡ passed ++ curr)
      × (total' ≡ base + sum passed + off')
      × (total' ≡ min (total + count) size)
      × InHead curr off'
unfolding skip_loop sum InHead
skip_loop_lem size base [] off total count e s small h =
    ([], [], off, total, refl, refl, omega arith, omega arith, h)
skip_loop_lem size base (v ∷ vs) off total count e s small h =
    let n = min (sub64 v.iov_len off) count in
    let fits : n ≤ v.iov_len - off = ground arith in
    let add : add64 off n ≡ off + n = omega arith in
    let add_total : add64 total n ≡ total + n = omega arith in
    elim (Bool-cases ((add64 off n == v.iov_len) && not (add64 total n == size))) [
      | inr stay ↦ (
        [],
        v ∷ vs,
        add64 off n,
        add64 total n,
        ground (arith, stay),
        refl,
        omega arith,
        ground arith,
        omega arith,
      )
      | inl advance ↦ elim (Bool-cases (count - n == 0)) [
        | inl done ↦ (
          v ∷ [],
          vs,
          0,
          add64 total n,
          ground (arith, advance, done),
          refl,
          ground arith,
          ground arith,
          InHead-zero vs,
        )
        | inr more ↦
            let (passed, curr, off', total', run, split, reaches, reached, inside) =
              skip_loop_lem size (base + v.iov_len) vs 0 (add64 total n) (count - n) (ground arith)
                (omega arith) small (InHead-zero vs) in
            (
              v ∷ passed,
              curr,
              off',
              total',
              ground (arith, advance, more, run),
              ap (λ l. v ∷ l) split,
              omega arith,
              ground arith,
              inside,
            )
      ]
    ]

-- Skipping goes on by the count, or to the end if that is nearer, and what it returns is what
-- remains.
pub kioviter_skip_lem :
    (count : ℕ) (it : IovIter)
    → IsPosition it
    → IsPosition (kioviter_skip count it)
      × ((kioviter_skip count it).total_off ≡ min (it.total_off + count) it.total_size)
unfolding kioviter_skip
kioviter_skip_lem count it (before, split, total, size, small, inside) =
    let (passed, curr, off, total', run, parts, reaches, reached, inside') =
      skip_loop_lem it.total_size (sum before) it.curr_iov it.curr_off it.total_off count total size
        small inside in
    subst
      (λ r.
        IsPosition (place it r)
        × ((place it r).total_off ≡ min (it.total_off + count) it.total_size))
      (sym run)
      (
        (
          before ++ passed,
          split ∙ ap (λ l. before ++ l) parts ∙ sym (append_assoc before passed curr),
          omega (arith, sum-append before passed),
          omega (arith, sum-append before passed, sum-append passed curr, ap sum parts),
          small,
          inside',
        ),
        reached,
      )

-- A new iterator stands at the start, if a word counts the bytes of its vectors.
pub kioviter_init-IsPosition : (iov : List Iovec) → sum iov < word → IsPosition (kioviter_init iov)
unfolding kioviter_init ioviter_size sum
kioviter_init-IsPosition iov small =
    let e = size_from_lem iov 0 (omega arith) in
    ([], refl, omega arith, omega (arith, e), omega (arith, e), InHead-zero iov)

abbrev rewind : IovIter → IovIter
rewind it = record it { curr_iov = it.first_iov; curr_off = 0; total_off = 0 }

rewind-IsPosition : (it : IovIter) → IsPosition it → IsPosition (rewind it)
unfolding sum
rewind-IsPosition it (before, split, total, size, small, inside) = (
  [],
  refl,
  omega arith,
  omega (arith, size, ap sum split, sum-append before it.curr_iov),
  small,
  InHead-zero it.first_iov,
)

-- Seeking, forwards or back, stands at the offset, or at the end if that is nearer.
pub kioviter_goto_lem :
    (off : ℕ) (it : IovIter)
    → off < word
    → IsPosition it
    → IsPosition (kioviter_goto off it) × ((kioviter_goto off it).total_off ≡ min off it.total_size)
unfolding kioviter_goto
kioviter_goto_lem off it small pos = elim (Bool-cases (ltb it.total_off off)) [
  | inl ahead ↦
      let (pos', reached) = kioviter_skip_lem (sub64 off it.total_off) it pos in
      rw ahead (pos', ground (arith, reached))
  | inr behind ↦
      let (pos', reached) = kioviter_skip_lem off (rewind it) (rewind-IsPosition it pos) in
      rw behind (pos', ground (arith, reached))
]
