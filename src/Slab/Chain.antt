-- ===== src/Slab/Chain.antt =====
-- The free cells of a size class, as a list.
use salern_os_kernel.Prelude.{ℕ, ◌+◌, ◌/◌, ◌<◌, ◌≡◌, ◌≢◌, ◌∙◌, ap, some, List, [], ◌∷◌, arith}
use salern_os_kernel.Slab.{Slab, num_slabs, put_at, unlink_head, slab_alloc, slab_free}

-- From `head` the links lead through these cells and end.
unfoldable pub IsChain : (words : ℕ → ℕ) (head : ℕ) → List ℕ → Type 0
IsChain words head [] = head ≡ 0
IsChain words head (c ∷ cs) = (head ≡ c) × (c ≢ 0) × IsChain words (words c) cs

unfoldable pub Without : ℕ → List ℕ → Type 0
Without p [] = ◌≡◌ {A = ℕ} 0 0
Without p (c ∷ cs) = (p ≢ c) × Without p cs

-- A write of another cell's link.
IsChain-put_at :
    (words : ℕ → ℕ) (head p v : ℕ) (cells : List ℕ)
    → Without p cells
    → IsChain words head cells
    → IsChain (put_at words p v) head cells
unfolding IsChain Without
IsChain-put_at words head p v [] other chain = chain
IsChain-put_at words head p v (c ∷ cs) (other, others) (at, used, chain) =
    let stays : put_at words p v c ≡ words c = ground arith in
    (at, used, rw stays (IsChain-put_at words (words c) p v cs others chain))

put_at_self : (f : ℕ → ℕ) (i v : ℕ) → put_at f i v i ≡ v
put_at_self f i v = ground arith

unlink_head_lem :
    (i c : ℕ) (cs : List ℕ) (s : Slab)
    → IsChain s.words (s.slabs i) (c ∷ cs)
    → Without c cs
    → (s' : Slab) × (unlink_head i s ≡ (c, s')) × IsChain s'.words (s'.slabs i) cs
unfolding unlink_head IsChain
unlink_head_lem i c cs s (at, used, chain) once = (
  unlinked s c,
  ap (λ h. (h, unlinked s h)) at,
  rw (put_at_self s.slabs i (s.words c)) (IsChain-put_at s.words (s.words c) c 0 cs once chain),
)
  where
    unlinked : Slab → ℕ → Slab
    unlinked s h = record { slabs = put_at s.slabs i (s.words h); words = put_at s.words h 0 }

-- With free cells in its class, which occur once, an allocation takes the first of them, without a
-- new page, and the others are left.
pub slab_alloc_lem :
    (page size c : ℕ) (cs : List ℕ) (s : Slab)
    → (size + 15) / 16 < num_slabs
    → IsChain s.words (s.slabs ((size + 15) / 16)) (c ∷ cs)
    → Without c cs
    → (s' : Slab) × (slab_alloc page size s ≡ some (c, s'))
      × IsChain s'.words (s'.slabs ((size + 15) / 16)) cs
unfolding slab_alloc IsChain
slab_alloc_lem page size c cs s inside (at, used, chain) once =
    let i = (size + 15) / 16 in
    let (s', run, left) = unlink_head_lem i c cs s (at, used, chain) once in
    (s', direct ∙ ap (λ r. some r) run, left)
  where
    direct : slab_alloc page size s ≡ some (unlink_head ((size + 15) / 16) s)
    direct = ground (arith, inside, at, used)

-- Freeing a cell that is not free makes it the first of its class, and the next allocation of the
-- size gets it.
pub slab_alloc-free :
    (page size ptr : ℕ) (cells : List ℕ) (s : Slab)
    → (size + 15) / 16 < num_slabs
    → ptr ≢ 0
    → IsChain s.words (s.slabs ((size + 15) / 16)) cells
    → Without ptr cells
    → (freed : Slab) × (s' : Slab) × (slab_free ptr size s ≡ some freed)
      × IsChain freed.words (freed.slabs ((size + 15) / 16)) (ptr ∷ cells)
      × (slab_alloc page size freed ≡ some (ptr, s'))
      × IsChain s'.words (s'.slabs ((size + 15) / 16)) cells
unfolding slab_free IsChain
slab_alloc-free page size ptr cells s inside used chain once =
    let i = (size + 15) / 16 in
    let freed : Slab = record {
      slabs = put_at s.slabs i ptr;
      words = put_at s.words ptr (s.slabs i);
    } in
    let linked : IsChain freed.words (freed.slabs i) (ptr ∷ cells) = (
      put_at_self s.slabs i ptr,
      used,
      rw (put_at_self s.words ptr (s.slabs i))
          (IsChain-put_at s.words (s.slabs i) ptr (s.slabs i) cells once chain),
    ) in
    let (s', run, left) = slab_alloc_lem page size ptr cells freed inside linked once in
    (freed, s', ground (arith, used), linked, run, left)
