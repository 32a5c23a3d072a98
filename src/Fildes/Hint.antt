-- ===== src/Fildes/Hint.antt =====
-- The hint `next_fd`: what its loops find, and the invariant of the table.
use salern_os_kernel.Prelude.{
  ℕ, zero, suc, ◌+◌, ◌-◌, ◌≤◌, ◌<◌, ◌≡◌, ◌≢◌, sym, subst, refl, true, Option, none, some, ltb, ◌==◌,
  if_true, if_false, arith, max, inl, inr, Bool-cases, Option-cases, min,
}
use salern_os_kernel.Fildes.{FdTable, config_open_max, scan_free, proc_update_fd_hint}

-- The slots from `i` up to `j` have files.
abbrev pub Used : (ℕ → Option ℕ) → (i j : ℕ) → Type 0
Used fd i j = (m : ℕ) → i ≤ m → m < j → fd m ≢ none

-- The hint is the lowest free descriptor, or the size of the table if there is none.
pub record IsHint (p : FdTable) : Type 0 where
  pub within : p.next_fd ≤ config_open_max
  pub below : Used p.fd 0 p.next_fd
  pub free : p.next_fd < config_open_max → p.fd p.next_fd ≡ none

-- What the loop finds from `i` on in `k` rounds.
pub record Found (fd : ℕ → Option ℕ) (i k r : ℕ) : Type 0 where
  pub from : i ≤ r
  pub upto : r ≤ i + k
  pub used : Used fd i r
  pub stops : r < i + k → fd r ≡ none

scan_free_stop : (k : ℕ) (fd : ℕ → Option ℕ) (i : ℕ) → fd i ≡ none → scan_free (suc k) fd i ≡ i
unfolding scan_free
scan_free_stop k fd i free = rw (scan_free, free) refl

scan_free_next :
    (k : ℕ) (fd : ℕ → Option ℕ) (i file : ℕ)
    → fd i ≡ some file
    → scan_free (suc k) fd i ≡ scan_free k fd (suc i)
unfolding scan_free
scan_free_next k fd i file taken = rw (scan_free, taken) refl

Found-next :
    (k : ℕ) (fd : ℕ → Option ℕ) (i file r : ℕ)
    → fd i ≡ some file
    → Found fd (suc i) k r
    → Found fd i (suc k) r
Found-next k fd i file r taken rest = record {
  from = omega (arith, rest.from);
  upto = omega (arith, rest.upto);
  used = λ m lo hi. elim (Bool-cases (i == m)) [
    | inl here ↦ subst (λ n. fd n ≢ none) (equal i m here) (λ e. cc (e, taken))
    | inr later ↦ rest.used m (ground (arith, later)) hi
  ];
  stops = λ lt. rest.stops (omega arith);
}
  where
    equal : (i j : ℕ) → (i == j) ≡ true → i ≡ j
    equal i j e = ground arith

pub scan_free-Found : (k : ℕ) (fd : ℕ → Option ℕ) (i : ℕ) → Found fd i k (scan_free k fd i)
unfolding scan_free
scan_free-Found zero fd i = record {
  from = omega arith;
  upto = omega arith;
  used = λ m lo hi. absurd (omega arith);
  stops = λ lt. absurd (omega arith);
}
scan_free-Found (suc k) fd i = elim (Option-cases (fd i)) [
  | inl free ↦ subst (Found fd i (suc k)) (sym (scan_free_stop k fd i free)) (record {
    from = omega arith;
    upto = omega arith;
    used = λ m lo hi. absurd (omega arith);
    stops = λ lt. free;
  })
  | inr (file, taken) ↦
      subst (Found fd i (suc k)) (sym (scan_free_next k fd i file taken))
        (Found-next k fd i file (scan_free k fd (suc i)) taken (scan_free-Found k fd (suc i)))
]

-- Where the loop is sent on from the hint, with all slots below it in use, it finds the lowest free
-- descriptor.
pub proc_update_fd_hint-IsHint :
    (p : FdTable) → Used p.fd 0 (min p.next_fd config_open_max) → IsHint (proc_update_fd_hint p)
unfolding proc_update_fd_hint
proc_update_fd_hint-IsHint p below = elim (Bool-cases (ltb here config_open_max)) [
  | inl found ↦ subst Lowest (sym (if_true _ _ found)) (record {
    within = ground (arith, found);
    below = λ m lo hi. elim (Bool-cases (ltb m p.next_fd)) [
      | inl before ↦ below m lo (ground (arith, before, found))
      | inr after ↦ ahead.used m (ground (arith, after)) hi
    ];
    free = λ lt. ahead.stops (omega (arith, ahead.from));
  })
  | inr none_found ↦ subst Lowest (sym (if_false _ _ none_found)) (record {
    within = omega (arith, again.upto);
    below = again.used;
    free = λ lt. again.stops (omega arith);
  })
]
  where
    here : ℕ
    here = scan_free (config_open_max - p.next_fd) p.fd p.next_fd

    Lowest : ℕ → Type 0
    Lowest n = IsHint (record p { next_fd = n; max_fd = max p.max_fd n })

    ahead : Found p.fd p.next_fd (config_open_max - p.next_fd) here
    ahead = scan_free-Found (config_open_max - p.next_fd) p.fd p.next_fd

    again : Found p.fd 0 config_open_max (scan_free config_open_max p.fd 0)
    again = scan_free-Found config_open_max p.fd 0
