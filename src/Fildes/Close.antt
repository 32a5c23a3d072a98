-- ===== src/Fildes/Close.antt =====
-- Closing and duplicating: the hint stays the lowest free descriptor, and the references are the
-- descriptors.
use salern_os_kernel.Prelude.{
  ℕ, zero, suc, ◌+◌, ◌-◌, ◌≤◌, ◌<◌, ◌≡◌, ◌≢◌, ◌∙◌, ap, sym, subst, refl, Bool, true, false, ◌||◌,
  ◌⊎◌, Option, none, some, ltb, leb, ◌==◌, if◌then◌else◌, if_true, if_false, arith, inl, inr,
  Bool-cases, Option-cases, le→ltb,
}
use salern_os_kernel.Errno.{Errno, success}
use salern_os_kernel.Fildes.{
  FdTable, config_open_max, put_fd, put_count, proc_update_fd_hint, free_from, duplicate_into,
  com_sys_proc_duplicate_file_nolock, com_sys_proc_close_file_nolock, com_sys_proc_close_file,
}
use salern_os_kernel.Fildes.Hint.{IsHint, proc_update_fd_hint-IsHint}

abbrev closed : ℕ → FdTable → FdTable
closed fd p = record p {
  fd = put_fd p.fd fd none;
  next_fd = if ltb fd p.next_fd then fd else p.next_fd;
}

closed-IsHint : (fd : ℕ) (p : FdTable) → IsHint p → IsHint (closed fd p)
closed-IsHint fd p v = elim (Bool-cases (ltb fd p.next_fd)) [
  | inl low ↦ subst Lowest (sym (if_true _ _ low)) (record {
    within = ground (arith, low, v.within);
    below = λ m lo hi.
        subst (λ o. o ≢ none) (sym (if_false {b = fd == m} none (p.fd m) (ground arith)))
          (v.below m lo (ground (arith, low)));
    free = λ lt. if_true {b = fd == fd} none (p.fd fd) (ground arith);
  })
  | inr high ↦ subst Lowest (sym (if_false _ _ high)) (record {
    within = v.within;
    below = λ m lo hi.
        subst (λ o. o ≢ none) (sym (if_false {b = fd == m} none (p.fd m) (ground (arith, high))))
          (v.below m lo hi);
    free = λ lt. of_both (fd == p.next_fd) (v.free lt);
  })
]
  where
    Lowest : ℕ → Type 0
    Lowest n = IsHint (record p { fd = put_fd p.fd fd none; next_fd = n })

    of_both : (b : Bool) {o : Option ℕ} → o ≡ none → (if b then none else o) ≡ none
    of_both true e = refl
    of_both false e = e

close_nolock_step :
    (fd f : ℕ) (p : FdTable)
    → fd < config_open_max
    → p.fd fd ≡ some f
    → com_sys_proc_close_file_nolock fd p ≡ (success, (some f, closed fd p))
unfolding com_sys_proc_close_file_nolock
close_nolock_step fd f p lt taken =
    rw (com_sys_proc_close_file_nolock, le→ltb config_open_max fd (omega arith), taken) refl

-- Closing an open descriptor hands out its file, empties it and nothing else, and keeps the hint
-- the lowest free descriptor.
pub com_sys_proc_close_file_nolock_lem :
    (fd f : ℕ) (p : FdTable)
    → IsHint p
    → fd < config_open_max
    → p.fd fd ≡ some f
    → let (ret, (file, p')) = com_sys_proc_close_file_nolock fd p in
      (ret ≡ success) × (file ≡ some f) × (p'.fd ≡ put_fd p.fd fd none) × IsHint p'
com_sys_proc_close_file_nolock_lem fd f p v lt taken =
    subst
      (λ (r : Errno × (Option ℕ × FdTable)).
        (r.0 ≡ success) × (r.1.0 ≡ some f) × (r.1.1.fd ≡ put_fd p.fd fd none) × IsHint r.1.1)
      (sym (close_nolock_step fd f p lt taken)) (refl, refl, refl, closed-IsHint fd p v)

abbrev duplicated : (new_fd f : ℕ) → FdTable → FdTable
duplicated new_fd f p =
    record (proc_update_fd_hint (record p { fd = put_fd p.fd new_fd (some f) })) {
      num_ref = put_count p.num_ref f (suc (p.num_ref f));
    }

-- The loop passes the descriptors in use and stops at the first free one.
free_from_lem :
    (n k : ℕ) (fd : ℕ → Option ℕ) (i target : ℕ)
    → i + n ≡ target
    → n ≤ k
    → target < config_open_max
    → ((j : ℕ) → i ≤ j → j < target → fd j ≢ none)
    → fd target ≡ none
    → free_from (suc k) fd i ≡ some target
unfolding free_from
free_from_lem zero k fd i target e enough lt used free =
    let here : i ≡ target = omega arith in rw (free_from, ap fd here, free) (ap some here)
free_from_lem (suc n) zero fd i target e enough lt used free = absurd (omega arith)
free_from_lem (suc n) (suc k) fd i target e enough lt used free = elim (Option-cases (fd i)) [
  | inl empty ↦ absurd (used i (omega arith) (omega arith) empty)
  | inr (file, taken) ↦
      rw (free_from, taken, le→leb_false i (omega arith))
        (free_from_lem n k fd (suc i) target (omega arith) (omega arith) lt
          (λ j lo hi. used j (omega arith) hi) free)
]
  where
    le→leb_false : (i : ℕ) → i < config_open_max → leb config_open_max i ≡ false
    le→leb_false i h = ground arith

duplicate_into_lem :
    (new_fd old_fd f : ℕ) (p : FdTable)
    → p.fd old_fd ≡ some f
    → duplicate_into new_fd old_fd p ≡ duplicated new_fd f p
unfolding duplicate_into proc_update_fd_hint
duplicate_into_lem new_fd old_fd f p taken =
    rw (duplicate_into, taken)
      (ap
        (λ (o : Option ℕ). record (proc_update_fd_hint (record p { fd = put_fd p.fd new_fd o })) {
          num_ref = put_count p.num_ref f (suc (p.num_ref f));
        })
        taken)

-- Duplicating an open descriptor to the first free one from `new_fd`.
duplicate_step :
    (new_fd target old_fd f : ℕ) (p : FdTable)
    → new_fd ≤ target
    → target < config_open_max
    → old_fd < config_open_max
    → ((j : ℕ) → new_fd ≤ j → j < target → p.fd j ≢ none)
    → p.fd target ≡ none
    → p.fd old_fd ≡ some f
    → com_sys_proc_duplicate_file_nolock new_fd old_fd p ≡ (inr target, duplicated target f p)
unfolding com_sys_proc_duplicate_file_nolock
duplicate_step new_fd target old_fd f p le lt lt' used free taken =
    rw (com_sys_proc_duplicate_file_nolock, bounds, found)
      (ap (λ q. (inr target, q)) (duplicate_into_lem target old_fd f p taken))
  where
    bounds : (ltb config_open_max old_fd || ltb config_open_max new_fd) ≡ false
    bounds = ground arith

    rounds : (m n : ℕ) → m ≡ n → free_from m p.fd new_fd ≡ free_from n p.fd new_fd
    rounds m n e = ap (λ k. free_from k p.fd new_fd) e

    found : free_from (suc config_open_max - new_fd) p.fd new_fd ≡ some target
    found =
        rounds (suc config_open_max - new_fd) (suc (config_open_max - new_fd)) (omega arith)
        ∙ free_from_lem (target - new_fd) (config_open_max - new_fd) p.fd new_fd target
            (omega arith) (omega arith) lt used free

duplicated-IsHint : (new_fd f : ℕ) (p : FdTable) → IsHint p → IsHint (duplicated new_fd f p)
duplicated-IsHint new_fd f p v = record {
  within = hint.within;
  below = hint.below;
  free = hint.free;
}
  where
    used : (b : Bool) {o : Option ℕ} → o ≢ none → (if b then some f else o) ≢ none
    used true ne = λ e. cc e
    used false ne = ne

    hint : IsHint (proc_update_fd_hint (record p { fd = put_fd p.fd new_fd (some f) }))
    hint =
        proc_update_fd_hint-IsHint (record p { fd = put_fd p.fd new_fd (some f) })
          (λ m lo hi. used (new_fd == m) (v.below m lo (omega arith)))

fd-duplicated :
    (new_fd f : ℕ) (p : FdTable) → (duplicated new_fd f p).fd ≡ put_fd p.fd new_fd (some f)
unfolding proc_update_fd_hint
fd-duplicated new_fd f p = refl

close_step :
    (fd f : ℕ) (p : FdTable)
    → fd < config_open_max
    → p.fd fd ≡ some f
    → com_sys_proc_close_file fd p
      ≡ (success, record (closed fd p) { num_ref = put_count p.num_ref f (p.num_ref f - 1) })
unfolding com_sys_proc_close_file
close_step fd f p lt taken =
    ap
      (λ (r : Errno × (Option ℕ × FdTable)). elim r.1.0 [
        | none ↦ (r.0, r.1.1)
        | some f ↦ (r.0, record r.1.1 { num_ref = put_count r.1.1.num_ref f (r.1.1.num_ref f - 1) })
      ])
      (close_nolock_step fd f p lt taken)

-- A table whose hint is the lowest free descriptor, an open descriptor, and a descriptor `new_fd`
-- from which on the first free one is `target`: duplicating the first with `new_fd` answers `target`,
-- puts the file there and counts one reference more; closing the duplicate succeeds and leaves every
-- descriptor and every count as it was; and the hint is the lowest free descriptor after each call.
pub com_sys_proc_close_file-com_sys_proc_duplicate_file_nolock :
    (new_fd target old_fd f : ℕ) (p : FdTable)
    → IsHint p
    → new_fd ≤ target
    → target < config_open_max
    → old_fd < config_open_max
    → ((j : ℕ) → new_fd ≤ j → j < target → p.fd j ≢ none)
    → p.fd target ≡ none
    → p.fd old_fd ≡ some f
    → let (ret, p') = com_sys_proc_duplicate_file_nolock new_fd old_fd p in
      let (ret', p'') = com_sys_proc_close_file target p' in
      (ret ≡ inr target)
      × (p'.fd target ≡ some f)
      × (p'.num_ref f ≡ suc (p.num_ref f))
      × IsHint p'
      × (ret' ≡ success)
      × ((j : ℕ) → p''.fd j ≡ p.fd j)
      × ((g : ℕ) → p''.num_ref g ≡ p.num_ref g)
      × IsHint p''
com_sys_proc_close_file-com_sys_proc_duplicate_file_nolock new_fd target old_fd f p v le lt lt' used
      free taken =
    subst
      (λ (r : (Errno ⊎ ℕ) × FdTable).
        let (ret', p'') = com_sys_proc_close_file target r.1 in
        (r.0 ≡ inr target)
        × (r.1.fd target ≡ some f)
        × (r.1.num_ref f ≡ suc (p.num_ref f))
        × IsHint r.1
        × (ret' ≡ success)
        × ((j : ℕ) → p''.fd j ≡ p.fd j)
        × ((g : ℕ) → p''.num_ref g ≡ p.num_ref g)
        × IsHint p'')
      (sym (duplicate_step new_fd target old_fd f p le lt lt' used free taken))
      (subst
        (λ (r : Errno × FdTable).
          (◌≡◌ {A = Errno ⊎ ℕ} (inr target) (inr target))
          × (q.fd target ≡ some f)
          × (q.num_ref f ≡ suc (p.num_ref f))
          × IsHint q
          × (r.0 ≡ success)
          × ((j : ℕ) → r.1.fd j ≡ p.fd j)
          × ((g : ℕ) → r.1.num_ref g ≡ p.num_ref g)
          × IsHint r.1)
        (sym (close_step target f q lt here))
        (refl, here, one_more, duplicated-IsHint target f p v, refl, restored, counted, after))
  where
    q : FdTable
    q = duplicated target f p

    here : q.fd target ≡ some f
    here =
        ap (λ (t : ℕ → Option ℕ). t target) (fd-duplicated target f p)
        ∙ if_true {b = target == target} (some f) (p.fd target) (ground arith)

    one_more : q.num_ref f ≡ suc (p.num_ref f)
    one_more = if_true {b = f == f} (suc (p.num_ref f)) (p.num_ref f) (ground arith)

    restored : (j : ℕ) → (closed target q).fd j ≡ p.fd j
    restored j = elim (Bool-cases (target == j)) [
      | inl same ↦ if_true _ _ same ∙ sym free ∙ ap p.fd (ground (arith, same))
      | inr apart ↦
          if_false _ _ apart
          ∙ ap (λ (t : ℕ → Option ℕ). t j) (fd-duplicated target f p)
          ∙ if_false _ _ apart
    ]

    equal : (i j : ℕ) → (i == j) ≡ true → i ≡ j
    equal i j e = ground arith

    counted : (g : ℕ) → put_count q.num_ref f (q.num_ref f - 1) g ≡ p.num_ref g
    counted g = elim (Bool-cases (f == g)) [
      | inl same ↦ if_true _ _ same ∙ omega (arith, one_more, ap p.num_ref (equal f g same))
      | inr apart ↦ if_false _ _ apart ∙ if_false _ _ apart
    ]

    after : IsHint (record (closed target q) { num_ref = put_count q.num_ref f (q.num_ref f - 1) })
    after =
        let w = closed-IsHint target q (duplicated-IsHint target f p v) in
        record { within = w.within; below = w.below; free = w.free }
