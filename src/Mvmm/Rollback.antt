-- ===== src/Mvmm/Rollback.antt =====
-- MVM_MMAP_MULTIVERSIONING/patches/patches.c: the rollback of a region to the start of the epoch.
use mathlib.Core.Path.{subst}
use native.Mathlib.Decide.{ℕ_discrete}
use congenial_octo_telegram.Base.{
  ℕ, ◌+◌, ◌-◌, ◌*◌, ◌%◌, ◌≤◌, ◌<◌, ◌≡◌, ◌≢◌, inl, inr, sym, ◌∙◌, List, [], ◌∷◌, true, false, ◌||◌,
  leb, ◌==◌, Bool-cases, Option-cases, arith, lt→ltb,
}
use congenial_octo_telegram.Mvmm.{
  page_size, never, Region, region_contains, page_of, rollback_page, rollback_pages,
  region_rollback, is_candidate,
}
use congenial_octo_telegram.Mvmm.Pages.{Saved, listed}
use congenial_octo_telegram.Mvmm.Ranges.{IsRegion, page_of-inside, SameShape-IsRegion}
use congenial_octo_telegram.Mvmm.Undo.{Undone, same-Undone, Undone-then, Fixed, copied_back-Undone}

rollback_page-Undone :
    (ts p : ℕ) (m₀ m : ℕ → ℕ) (r : Region)
    → 1 ≤ ts
    → ts < never
    → Saved ts m₀ m r
    → IsRegion r
    → Undone ts m₀ (r, m) (rollback_page (ts - 1) p (r, m))
      × (p < r.npages → (r.pages p).slot_ts ≡ ts → Fixed m₀ (rollback_page (ts - 1) p (r, m)).1 r p)
unfolding rollback_page
rollback_page-Undone ts p m₀ m r lo hi v region = elim (Bool-cases (leb r.npages p)) [
  | inl past ↦ rw past (same-Undone ts m₀ (r, m) v, λ h now. absurd (ground arith))
  | inr inside ↦ elim (Option-cases (r.pages p).slot) [
    | inl empty ↦
        rw (inside, empty)
          (
            same-Undone ts m₀ (r, m) v,
            λ h now. let (b, there, bytes) = (v.pages p).kept now in cc (sym empty ∙ there),
          )
    | inr (b, there) ↦
        elim (Bool-cases ((r.pages p).slot_ts == never || leb (r.pages p).slot_ts (ts - 1))) [
          | inl old ↦
              rw (inside, there, old) (same-Undone ts m₀ (r, m) v, λ h now. absurd (ground arith))
          | inr new ↦
              let now : (r.pages p).slot_ts ≡ ts = ground (arith, (v.pages p).known) in
              let (undone, fixed) =
                copied_back-Undone ts m₀ m p b r v region (ground arith) now there in
              rw (inside, there, new) (undone, λ h e. fixed)
        ]
  ]
]

base-Fixed :
    (m₀ m : ℕ → ℕ) (r r' : Region) (p : ℕ) → r'.base ≡ r.base → Fixed m₀ m r' p → Fixed m₀ m r p
base-Fixed m₀ m r r' p same fixed =
    subst
      (λ b.
        (off : ℕ) → off < page_size → m (b + p * page_size + off) ≡ m₀ (b + p * page_size + off))
      same fixed

rollback_pages-Undone :
    (ts : ℕ) (m₀ m : ℕ → ℕ) (r : Region) (ps : List ℕ)
    → 1 ≤ ts
    → ts < never
    → Saved ts m₀ m r
    → IsRegion r
    → Undone ts m₀ (r, m) (rollback_pages (ts - 1) ps (r, m))
      × ((p : ℕ)
          → listed p ps ≡ true
          → p < r.npages
          → (r.pages p).slot_ts ≡ ts
          → Fixed m₀ (rollback_pages (ts - 1) ps (r, m)).1 r p)
unfolding rollback_pages listed
rollback_pages-Undone ts m₀ m r [] lo hi v region = (same-Undone ts m₀ (r, m) v, λ p h. cc)
rollback_pages-Undone ts m₀ m r (q ∷ rest) lo hi v region =
    let (first, fixed) = rollback_page-Undone ts q m₀ m r lo hi v region in
    let (later, others) =
      rollback_pages-Undone ts m₀ (rollback_page (ts - 1) q (r, m)).1
        (rollback_page (ts - 1) q (r, m)).0 rest lo hi first.saved
        (SameShape-IsRegion r _ first.shape region) in
    (
      Undone-then ts m₀ (r, m) _ _ first later,
      λ p h inside now. elim (Bool-cases (q == p)) [
        | inl same ↦
            let eq : q ≡ p = ground arith in
            subst (Fixed m₀ (rollback_pages (ts - 1) (q ∷ rest) (r, m)).1 r) eq
              (λ off lt. later.keeps _ (fixed (rw eq inside) (rw eq now) off lt))
        | inr other ↦
            let there : listed p rest ≡ true = ground arith in
            base-Fixed m₀ (rollback_pages (ts - 1) (q ∷ rest) (r, m)).1 r
              (rollback_page (ts - 1) q (r, m)).0 p first.shape.same_base
              (others p there (rw first.shape.same_npages inside) (first.slots p ∙ now))
      ],
    )

page_of-offset :
    (r : Region) (x : ℕ)
    → IsRegion r
    → region_contains r x ≡ true
    → r.base + page_of r x * page_size + x % page_size ≡ x
page_of-offset r x v h = ground (arith, v.aligned, v.ends)

Fixed-at :
    (m₀ m : ℕ → ℕ) (r : Region) (x : ℕ)
    → IsRegion r
    → region_contains r x ≡ true
    → Fixed m₀ m r (page_of r x)
    → m x ≡ m₀ x
Fixed-at m₀ m r x v h fixed =
    subst (λ y. m y ≡ m₀ y) (page_of-offset r x v h) (fixed (x % page_size) (omega arith))

intact_at :
    (ts : ℕ) (m₀ m : ℕ → ℕ) (r : Region) (x : ℕ)
    → Saved ts m₀ m r
    → IsRegion r
    → region_contains r x ≡ true
    → (r.pages (page_of r x)).slot_ts ≢ ts
    → m x ≡ m₀ x
intact_at ts m₀ m r x v region h old = Fixed-at m₀ m r x region h (λ off.
    (v.pages (page_of r x)).intact old off
      (lt→ltb (page_of r x) r.npages (page_of-inside r x region h)))

-- The rollback of a region gives back the memory that the epoch found in it, and touches no other.
pub region_rollback-Undone :
    (ts : ℕ) (m₀ m : ℕ → ℕ) (r : Region)
    → 1 ≤ ts
    → ts < never
    → Saved ts m₀ m r
    → IsRegion r
    → Undone ts m₀ (r, m) (region_rollback (ts - 1) r m)
      × ((x : ℕ) → region_contains r x ≡ true → (region_rollback (ts - 1) r m).1 x ≡ m₀ x)
unfolding region_rollback
region_rollback-Undone ts m₀ m r lo hi v region =
    let older : is_candidate r.touched_prev_ts (ts - 1) ≡ false = ground (arith, v.prev_known) in
    elim (Bool-cases (r.touched_curr_ts == ts)) [
      | inl now ↦
          let listed_now : is_candidate r.touched_curr_ts (ts - 1) ≡ true = ground arith in
          let (undone, fixed) = rollback_pages-Undone ts m₀ m r r.touched_curr lo hi v region in
          rw (older, listed_now)
            (
              undone,
              λ x h. elim (ℕ_discrete (r.pages (page_of r x)).slot_ts ts) [
                | no old ↦ undone.keeps x (intact_at ts m₀ m r x v region h old)
                | yes new ↦
                    let page = v.pages (page_of r x) in
                    let there : listed (page_of r x) r.touched_curr ≡ true =
                      ground (arith, page.touched (page.snapped new)) in
                    Fixed-at m₀ (rollback_pages (ts - 1) r.touched_curr (r, m)).1 r x region h
                      (fixed (page_of r x) there (page_of-inside r x region h) new)
              ],
            )
      | inr idle ↦
          let none_now : is_candidate r.touched_curr_ts (ts - 1) ≡ false =
            ground (arith, v.curr_known) in
          rw (older, none_now)
            (
              same-Undone ts m₀ (r, m) v,
              λ x h. intact_at ts m₀ m r x v region h (λ new.
                  let page = v.pages (page_of r x) in
                  ground (arith, page.touched (page.snapped new))),
            )
    ]
