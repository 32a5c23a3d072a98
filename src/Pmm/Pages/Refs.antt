-- ===== src/Pmm/Pages/Refs.antt =====
-- Reference counts of pages.
use salern_os_kernel.Prelude.{ℕ, ◌+◌, ◌≤◌, ◌<◌, ◌≡◌, true, some, arith}
use salern_os_kernel.Prelude.Word.{word, add64, sub64}
use salern_os_kernel.Pmm.Pages.{Pmm, taken, index, put_meta, hold, is_shared, free}

-- Holding a taken page of the table that has a reference makes it shared, and freeing it once then
-- restores the page table; the free list is as before.
pub free-hold :
    (s : Pmm) (page : ℕ)
    → index page < s.reserved_start
    → s.reserved_start ≤ s.extended_len
    → (s.buffer (index page)).state ≡ taken
    → 1 ≤ (s.buffer (index page)).num_ref
    → (s.buffer (index page)).num_ref + 1 < word
    → (held : Pmm) × (back : Pmm) × (hold page s ≡ some held)
      × (is_shared page held ≡ some true)
      × (free page held ≡ some back)
      × ((i : ℕ) → back.buffer i ≡ s.buffer i)
      × (back.free_list ≡ s.free_list)
unfolding hold is_shared free
free-hold s page inside table state ref small =
    let m = s.buffer (index page) in
    let held = put_meta page (record m { num_ref = add64 m.num_ref 1 }) s in
    (
      held,
      put_meta page (record m { num_ref = sub64 (add64 m.num_ref 1) 1 }) held,
      ground arith,
      ground arith,
      ground arith,
      λ i. ground arith,
      ground arith,
    )
