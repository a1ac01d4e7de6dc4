-- ===== src/Mvmm/Ends.antt =====
-- MVM_MMAP_MULTIVERSIONING/patches/patches.c: the end of the loop over a range of addresses.
use congenial_octo_telegram.Base.{
  ℕ, zero, suc, ◌+◌, ◌≤◌, ◌≡◌, inl, inr, refl, List, [], ◌∷◌, some, true, leb, ◌==◌, Bool-cases,
  Option-cases, arith,
}
use congenial_octo_telegram.Mvmm.{
  Buffer, Region, page_of, store_note_page_touch, store_prepare_snapshot_slot, store_snapshot_page,
  snapshot_at, snapshot_loop, next_page,
}

-- With a buffer for every page, the loop comes to the end of the range.
store_prepare_snapshot_slot-done :
    (buffers : ℕ → Buffer) (ts p : ℕ) (r : Region)
    → (store_prepare_snapshot_slot (λ k. some (buffers k)) p ts r).0 ≡ true
unfolding store_prepare_snapshot_slot
store_prepare_snapshot_slot-done buffers ts p r =
    elim (Option-cases ((store_note_page_touch p ts r).pages p).slot) [
      | inl empty ↦ rw (empty, store_prepare_snapshot_slot) refl
      | inr (b, there) ↦ rw (there, store_prepare_snapshot_slot) refl
    ]

store_snapshot_page-done :
    (buffers : ℕ → Buffer) (ts p : ℕ) (m : ℕ → ℕ) (r : Region)
    → (store_snapshot_page (λ k. some (buffers k)) m p ts r).0 ≡ true
unfolding store_snapshot_page
store_snapshot_page-done buffers ts p m r =
    elim (Bool-cases
      (((store_prepare_snapshot_slot (λ k. some (buffers k)) p ts r).1.pages p).slot_ts == ts)) [
        | inl before ↦ rw (store_prepare_snapshot_slot-done buffers ts p r, before) refl
        | inr first ↦ rw (store_prepare_snapshot_slot-done buffers ts p r, first) refl
      ]

snapshot_at-done :
    (buffers : ℕ → Buffer) (ts cur : ℕ) (m : ℕ → ℕ) (rs : List Region)
    → (snapshot_at (λ k. some (buffers k)) m cur ts rs).0 ≡ true
unfolding snapshot_at
snapshot_at-done buffers ts cur m [] = refl
snapshot_at-done buffers ts cur m (r ∷ rest) = ground (
  arith,
  store_snapshot_page-done buffers ts (page_of r cur) m r,
  snapshot_at-done buffers ts cur m rest,
)

pub snapshot_loop-done :
    (turns : ℕ) (buffers : ℕ → Buffer) (ts cur end : ℕ) (m : ℕ → ℕ) (rs : List Region)
    → end ≤ cur + turns
    → (snapshot_loop turns (λ k. some (buffers k)) m cur end ts rs).0 ≡ true
unfolding snapshot_loop
snapshot_loop-done zero buffers ts cur end m rs enough = ground arith
snapshot_loop-done (suc turns) buffers ts cur end m rs enough = elim (Bool-cases (leb end cur)) [
  | inl over ↦ rw over refl
  | inr more ↦
      rw (more, snapshot_at-done buffers ts cur m rs)
        (snapshot_loop-done turns buffers ts (next_page cur end) end m
          (snapshot_at (λ k. some (buffers k)) m cur ts rs).1 (ground arith))
]
