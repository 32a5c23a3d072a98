-- ===== src/Fildes/Open.antt =====
-- Opening: the lowest free descriptor is handed out, as long as another one is free.
use salern_os_kernel.Prelude.{
  ℕ, suc, ◌-◌, ◌≤◌, ◌<◌, ◌≡◌, ◌≢◌, ◌∙◌, ap, sym, subst, refl, false, Option, none, some, ltb, leb,
  ◌==◌, if◌then◌else◌, if_true, if_false, arith, inl, inr, Bool-cases, lt→ltb, max,
}
use salern_os_kernel.Fildes.{
  FdTable, config_open_max, put_fd, put_count, scan_free, proc_update_fd_hint, com_sys_proc_next_fd,
  open_file,
}
use salern_os_kernel.Fildes.Hint.{Used, IsHint, Found, scan_free-Found}

module _ (f : ℕ) (p : FdTable) where
  -- What the first loop finds behind the descriptor that is handed out.
  abbrev next_hit : ℕ
  next_hit = scan_free (config_open_max - suc p.next_fd) p.fd (suc p.next_fd)

  abbrev next_hint : ℕ
  next_hint = if ltb next_hit config_open_max then next_hit else scan_free config_open_max p.fd 0

  next_hit-Found : Found p.fd (suc p.next_fd) (config_open_max - suc p.next_fd) next_hit
  next_hit-Found = scan_free-Found (config_open_max - suc p.next_fd) p.fd (suc p.next_fd)

  abbrev opened : FdTable
  opened = record {
    fd = put_fd p.fd p.next_fd (some f);
    next_fd = next_hint;
    max_fd = max p.max_fd next_hint;
    num_ref = put_count p.num_ref f 1;
  }

  open_step : p.next_fd < config_open_max → open_file f p ≡ (some p.next_fd, opened)
  unfolding open_file com_sys_proc_next_fd proc_update_fd_hint
  open_step lt = rw (open_file, below) refl
    where
      below : leb config_open_max p.next_fd ≡ false
      below = ground arith

  -- A table whose hint is the lowest free descriptor, and another free one `j`: the call hands out
  -- the hint, puts the new file there with one reference, and the hint is the lowest free descriptor
  -- again, which exists.
  pub open_file_lem :
      (j : ℕ)
      → IsHint p
      → p.next_fd < j
      → j < config_open_max
      → p.fd j ≡ none
      → let (ret, p') = open_file f p in
        (ret ≡ some p.next_fd)
        × (p'.fd ≡ put_fd p.fd p.next_fd (some f))
        × (p'.num_ref ≡ put_count p.num_ref f 1)
        × IsHint p'
        × (p'.next_fd < config_open_max)
  open_file_lem j v lt lt' free =
      subst
        (λ (r : Option ℕ × FdTable).
          (r.0 ≡ some p.next_fd)
          × (r.1.fd ≡ put_fd p.fd p.next_fd (some f))
          × (r.1.num_ref ≡ put_count p.num_ref f 1)
          × IsHint r.1
          × (r.1.next_fd < config_open_max))
        (sym (open_step (omega arith)))
        (
          refl,
          refl,
          refl,
          subst Lowest (sym same) lowest,
          subst (λ (n : ℕ). n < config_open_max) (sym same) small,
        )
    where
      Lowest : ℕ → Type 0
      Lowest n = IsHint (record opened { next_fd = n; max_fd = max p.max_fd next_hint })

      near : next_hit ≤ j
      near = elim (Bool-cases (ltb j next_hit)) [
        | inl past ↦ absurd (next_hit-Found.used j (omega arith) (ground (arith, past)) free)
        | inr not_past ↦ ground (arith, not_past)
      ]

      small : next_hit < config_open_max
      small = omega (arith, near)

      same : next_hint ≡ next_hit
      same = if_true _ _ (lt→ltb next_hit config_open_max small)

      used : (m : ℕ) → m < next_hit → put_fd p.fd p.next_fd (some f) m ≢ none
      used m lt = elim (Bool-cases (p.next_fd == m)) [
        | inl here ↦ subst (λ o. o ≢ none) (sym (if_true _ _ here)) (λ e. cc e)
        | inr apart ↦
            subst (λ o. o ≢ none) (sym (if_false _ _ apart))
              (elim (Bool-cases (ltb m p.next_fd)) [
                | inl before ↦ v.below m (omega arith) (ground (arith, before))
                | inr after ↦ next_hit-Found.used m (ground (arith, after, apart)) lt
              ])
      ]

      lowest : Lowest next_hit
      lowest = record {
        within = omega (arith, small);
        below = λ m lo hi. used m hi;
        free = λ lt.
            if_false {b = p.next_fd == next_hit} (some f) (p.fd next_hit)
              (ground (arith, next_hit-Found.from))
            ∙ next_hit-Found.stops (omega (arith, next_hit-Found.from));
      }

-- A table whose hint is the only free descriptor: the next two calls both hand it out, and the
-- second puts its file in the place of the first one.
pub open_file_last :
    (f g : ℕ) (p : FdTable)
    → IsHint p
    → p.next_fd < config_open_max
    → Used p.fd (suc p.next_fd) config_open_max
    → let (first, p') = open_file f p in
      let (second, p'') = open_file g p' in
      (first ≡ some p.next_fd)
      × (second ≡ some p.next_fd)
      × (p'.fd p.next_fd ≡ some f)
      × (p''.fd p.next_fd ≡ some g)
open_file_last f g p v lt full =
    subst
      (λ (r : Option ℕ × FdTable).
        let (second, p'') = open_file g r.1 in
        (r.0 ≡ some p.next_fd)
        × (second ≡ some p.next_fd)
        × (r.1.fd p.next_fd ≡ some f)
        × (p''.fd p.next_fd ≡ some g))
      (sym (open_step f p lt))
      (subst
        (λ (r : Option ℕ × FdTable).
          (some p.next_fd ≡ some p.next_fd)
          × (r.0 ≡ some p.next_fd)
          × ((opened f p).fd p.next_fd ≡ some f)
          × (r.1.fd p.next_fd ≡ some g))
        (sym (open_step g (opened f p) (subst (λ (n : ℕ). n < config_open_max) (sym back) lt)))
        (
          refl,
          ap some back,
          if_true {b = p.next_fd == p.next_fd} (some f) (p.fd p.next_fd) (ground arith),
          if_true {b = (opened f p).next_fd == p.next_fd} (some g) ((opened f p).fd p.next_fd)
              (ground (arith, back)),
        ))
  where
    hit : ℕ
    hit = next_hit f p

    start : ℕ
    start = scan_free config_open_max p.fd 0

    no_more : ltb hit config_open_max ≡ false
    no_more = elim (Bool-cases (ltb hit config_open_max)) [
      | inr e ↦ e
      | inl more ↦ absurd (
          full hit (omega (arith, (next_hit-Found f p).from)) (ground (arith, more))
            ((next_hit-Found f p).stops (ground (arith, more, (next_hit-Found f p).from))))
    ]

    again : Found p.fd 0 config_open_max start
    again = scan_free-Found config_open_max p.fd 0

    not_past : start ≤ p.next_fd
    not_past = elim (Bool-cases (ltb p.next_fd start)) [
      | inl past ↦ absurd (again.used p.next_fd (omega arith) (ground (arith, past)) (v.free lt))
      | inr e ↦ ground (arith, e)
    ]

    not_before : p.next_fd ≤ start
    not_before = elim (Bool-cases (ltb start p.next_fd)) [
      | inl before ↦ absurd (
          v.below start (omega arith) (ground (arith, before))
            (again.stops (omega (arith, not_past))))
      | inr e ↦ ground (arith, e)
    ]

    back : (opened f p).next_fd ≡ p.next_fd
    back = if_false _ _ no_more ∙ omega (arith, not_past, not_before)
