-- ===== src/Mmu/Path.antt =====
-- Making the path to an entry, and writing the entry at its end.
use Prim.Native.Nat.{bit_or}
use salern_os_kernel.Prelude.{
  ℕ, ◌+◌, ◌≤◌, ◌<◌, ◌≡◌, inl, inr, ◌∙◌, ap, sym, refl, Option, none, some, List, [], ◌∷◌, ◌++◌,
  append-nil, append_assoc, length, length-append, arith, Option-cases,
}
use salern_os_kernel.Pmm.Pages.{phys_to_hhdm}
use salern_os_kernel.Mmu.{Mmu, set_entry, next, walk, make_path, table_flags}
use salern_os_kernel.Mmu.Walk.{IsTree, walk-snoc, walk-link_old}
use salern_os_kernel.Mmu.Link.{
  AreSpare, entry_at, next-table_entry, IsTree-link, AreSpare-link, entry_at-link,
}

-- The page tables below `top` are a tree, and the spare pages are not in it.
abbrev pub IsMmu : (top : ℕ) → Mmu → Type 0
IsMmu top s = IsTree s.tables top × AreSpare s.tables top s.supply

-- Every entry is as before.
abbrev pub SameEntries : (top : ℕ) → Mmu → Mmu → Type 0
SameEntries top s s' =
    (q : List ℕ) (j : ℕ) → length q ≡ 3 → entry_at s'.tables top q j ≡ entry_at s.tables top q j

-- The path has been made, or the pages did not suffice.
unfoldable pub PathMade : (top : ℕ) (path is : List ℕ) → Mmu → Option ℕ → Mmu → Type 0
PathMade top path is s none s' = length s.supply < length is
PathMade top path is s (some t) s' = walk s'.tables top path ≡ some t

PathMade-cons :
    (top : ℕ) (r : List ℕ) (i : ℕ) (is : List ℕ) (s s1 : Mmu) (o : Option ℕ) (s' : Mmu)
    → length s.supply ≤ length s1.supply + 1
    → PathMade top ((r ++ i ∷ []) ++ is) is s1 o s'
    → PathMade top (r ++ i ∷ is) (i ∷ is) s o s'
unfolding PathMade
PathMade-cons top r i is s s1 none s' fewer made = omega arith
PathMade-cons top r i is s s1 (some t) s' fewer made =
    ap (walk s'.tables top) (sym (append_assoc r (i ∷ []) is)) ∙ made

-- What making the path from the table `t`, at the end of `r`, comes to.
abbrev pub MakesPath : (top : ℕ) (is : List ℕ) (t : ℕ) → Mmu → (r : List ℕ) → Type 0
MakesPath top is t s r =
    (o : Option ℕ) × (s' : Mmu) × (make_path is t s ≡ (o, s'))
    × IsMmu top s'
    × SameEntries top s s'
    × PathMade top (r ++ is) is s o s'

set_entry_self : (tables : ℕ → ℕ → ℕ) (t i e : ℕ) → set_entry tables t i e t i ≡ e
set_entry_self tables t i e = ground arith

make_table :
    (top i : ℕ) (is : List ℕ) (t : ℕ) (tables : ℕ → ℕ → ℕ) (supply r : List ℕ)
    → ((t : ℕ) (s : Mmu) (r : List ℕ)
        → length r + length is ≤ 3
        → walk s.tables top r ≡ some t
        → IsMmu top s
        → MakesPath top is t s r)
    → length r + length (i ∷ is) ≤ 3
    → walk tables top r ≡ some t
    → next (tables t i) ≡ none
    → IsMmu top (record { tables = tables; supply = supply })
    → MakesPath top (i ∷ is) t (record { tables = tables; supply = supply }) r
unfolding make_path PathMade
make_table top i is t tables [] r rest fits here empty good = (
  none,
  record { tables = tables; supply = [] },
  ground (arith, empty),
  good,
  (λ q j full. refl),
  omega arith,
)
make_table top i is t tables (p ∷ ps) r rest fits here empty
      (tree, (aligned, spare, apart, spares)) =
    let e = bit_or p table_flags in
    let f = phys_to_hhdm p in
    let link = next-table_entry p aligned in
    let s1 : Mmu = record { tables = set_entry tables t i e; supply = ps } in
    let good1 : IsMmu top s1 = (
      IsTree-link tables top t i e f r tree spare link (omega arith) here empty,
      AreSpare-link tables top t i e f r tree spare link (omega arith) here empty ps apart spares,
    ) in
    let there : walk s1.tables top (r ++ i ∷ []) ≡ some f =
      walk-snoc s1.tables top r t i f (walk-link_old tables t i e top r t empty here)
        (ap next (set_entry_self tables t i e) ∙ link) in
    let (o, s', run, good', same, made) =
      rest f s1 (r ++ i ∷ []) (omega (arith, length-append r (i ∷ []))) there good1 in
    (
      o,
      s',
      ground (arith, empty, run),
      good',
      (λ q j full.
          same q j full
          ∙ entry_at-link tables top t i e f r tree spare link (omega arith) here empty q j full),
      PathMade-cons top r i is (record { tables = tables; supply = p ∷ ps }) s1 o s' (omega arith)
          made,
    )

pub make_path_lem :
    (top : ℕ) (is : List ℕ) (t : ℕ) (s : Mmu) (r : List ℕ)
    → length r + length is ≤ 3
    → walk s.tables top r ≡ some t
    → IsMmu top s
    → MakesPath top is t s r
unfolding make_path PathMade
make_path_lem top [] t s r fits here good =
    (some t, s, refl, good, (λ q j full. refl), ap (walk s.tables top) (append-nil r) ∙ here)
make_path_lem top (i ∷ is) t s r fits here good = elim (Option-cases (next (s.tables t i))) [
  | inr (t', down) ↦
      let (o, s', run, good', same, made) =
        make_path_lem top is t' s (r ++ i ∷ []) (omega (arith, length-append r (i ∷ [])))
          (walk-snoc s.tables top r t i t' here down) good in
      (
        o,
        s',
        ground (arith, down, run),
        good',
        same,
        PathMade-cons top r i is s s o s' (omega arith) made,
      )
  | inl empty ↦
      make_table top i is t s.tables s.supply r (make_path_lem top is) fits here empty good
]
