-- ===== src/Mvmm/Ranges.antt =====
-- MVM_MMAP_MULTIVERSIONING/patches/patches.c: the snapshots of a range of addresses, over all regions.
use mathlib.Core.Path.{subst}
use congenial_octo_telegram.Base.{
  ℕ, zero, suc, ◌+◌, ◌-◌, ◌*◌, ◌/◌, ◌%◌, ◌^◌, ◌≤◌, ◌<◌, ◌≡◌, inl, inr, refl, sym, ap, ◌∙◌, List, [],
  ◌∷◌, Option, Bool, true, false, ltb, leb, if◌then◌else◌, Bool-cases, arith, All, lt→ltb,
}
use congenial_octo_telegram.Mvmm.{
  page_size, Buffer, Region, region_contains, page_of, snapshot_at, snapshot_loop, next_page,
}
use congenial_octo_telegram.Mvmm.Pages.{Saved, SameShape}
use congenial_octo_telegram.Mvmm.Snapshots.{Snapped, store_snapshot_page-Snapped}

-- What mmap gives and `mvmm_region_register` makes of it: whole pages, below the end of the addresses.
pub record IsRegion (r : Region) : Type 0 where
  pub aligned : r.base % page_size ≡ 0
  pub whole : r.len ≡ r.npages * page_size
  pub ends : r.base + r.len < 2 ^ 64

abbrev pub AllSaved : ℕ → (ℕ → ℕ) → (ℕ → ℕ) → List Region → Type 0
AllSaved ts m₀ m = All (λ (r : Region). Saved ts m₀ m r × IsRegion r)

abbrev pub NotIn : ℕ → List Region → Type 0
NotIn x = All (λ (r : Region). region_contains r x ≡ false)

-- No address is in two regions.
abbrev pub IsDisjoint : List Region → Type 0
IsDisjoint [] = Unit {0}
IsDisjoint (r ∷ rest) = ((x : ℕ) → region_contains r x ≡ true → NotIn x rest) × IsDisjoint rest

-- The page of an address has its snapshot, in the first region that holds the address.
abbrev pub Covered : ℕ → ℕ → List Region → Type 0
Covered ts x [] = Unit {0}
Covered ts x (r ∷ rest) =
    (region_contains r x ≡ true → (r.pages (page_of r x)).slot_ts ≡ ts)
    × (region_contains r x ≡ false → Covered ts x rest)

pub same-contains :
    (r r' : Region) (x : ℕ) → SameShape r r' → region_contains r' x ≡ region_contains r x
same-contains r r' x s = rw (s.same_base, s.same_len)

-- Two addresses of one page are in the same regions and pages.
page-contains :
    (r : Region) (x y : ℕ)
    → IsRegion r
    → x / page_size ≡ y / page_size
    → region_contains r x ≡ region_contains r y
page-contains r x y v same = ground (arith, v.aligned, v.whole, v.ends)

page-page_of : (r : Region) (x y : ℕ) → x / page_size ≡ y / page_size → page_of r x ≡ page_of r y
page-page_of r x y same =
    let start : x - x % page_size ≡ y - y % page_size = omega arith in rw start

pub page_of-inside :
    (r : Region) (x : ℕ) → IsRegion r → region_contains r x ≡ true → page_of r x < r.npages
page_of-inside r x v h = ground (arith, v.aligned, v.whole, v.ends)

-- Whether an address is in the first region that holds `a`.
abbrev pub together : ℕ → ℕ → List Region → Bool
together a x [] = false
together a x (r ∷ rest) = if region_contains r a then region_contains r x else together a x rest

-- After a turn of the loop at `cur`, or several of them.
pub record Turned (ts : ℕ) (m₀ m : ℕ → ℕ) (rs rs' : List Region) : Type 0 where
  pub saved : AllSaved ts m₀ m rs'
  pub others : (x : ℕ) → Covered ts x rs → Covered ts x rs'
  pub outside : (x : ℕ) → NotIn x rs → NotIn x rs'
  pub disjoint : IsDisjoint rs → IsDisjoint rs'
  pub homes : (a x : ℕ) → together a x rs' ≡ together a x rs

pub SameShape-IsRegion : (r r' : Region) → SameShape r r' → IsRegion r → IsRegion r'
SameShape-IsRegion r r' s v = record {
  aligned = rw s.same_base v.aligned;
  whole = rw (s.same_len, s.same_npages) v.whole;
  ends = rw (s.same_base, s.same_len) v.ends;
}

-- The first region of a list replaced by one of the same shape.
pub first-Turned :
    (ts : ℕ) (m₀ m : ℕ → ℕ) (p : ℕ) (ok : Bool) (r r' : Region) (rest : List Region)
    → Snapped ts m₀ m p ok r r'
    → IsRegion r
    → AllSaved ts m₀ m rest
    → Turned ts m₀ m (r ∷ rest) (r' ∷ rest)
first-Turned ts m₀ m p ok r r' rest s v saved = record {
  saved = ((s.saved, SameShape-IsRegion r r' s.shape v), saved);
  others = λ x c. (
    λ h.
        rw s.shape.same_base
          (s.others (page_of r x) (c.0 (sym (same-contains r r' x s.shape) ∙ h))),
    λ h. c.1 (sym (same-contains r r' x s.shape) ∙ h),
  );
  outside = λ x o. (same-contains r r' x s.shape ∙ o.0, o.1);
  homes = λ a x. rw (same-contains r r' a s.shape, same-contains r r' x s.shape) refl;
  disjoint = λ d. (λ x h. d.0 x (sym (same-contains r r' x s.shape) ∙ h), d.1);
}

pub rest-Turned :
    (ts : ℕ) (m₀ m : ℕ → ℕ) (r : Region) (rest rest' : List Region)
    → Saved ts m₀ m r × IsRegion r
    → Turned ts m₀ m rest rest'
    → Turned ts m₀ m (r ∷ rest) (r ∷ rest')
rest-Turned ts m₀ m r rest rest' v t = record {
  saved = (v, t.saved);
  others = λ x c. (c.0, λ h. t.others x (c.1 h));
  outside = λ x o. (o.0, t.outside x o.1);
  homes = λ a x. ap (λ b. if region_contains r a then region_contains r x else b) (t.homes a x);
  disjoint = λ d. (λ x h. t.outside x (d.0 x h), t.disjoint d.1);
}

snapshot_at-Turned :
    (alloc : ℕ → Option Buffer) (ts cur : ℕ) (m₀ m : ℕ → ℕ) (rs : List Region)
    → AllSaved ts m₀ m rs
    → Turned ts m₀ m rs (snapshot_at alloc m cur ts rs).1
      × ((snapshot_at alloc m cur ts rs).0 ≡ true
          → Covered ts cur (snapshot_at alloc m cur ts rs).1)
unfolding snapshot_at
snapshot_at-Turned alloc ts cur m₀ m [] v = (
  record {
    saved = tt;
    others = λ x c. tt;
    outside = λ x o. tt;
    disjoint = λ d. tt;
    homes = λ a x. refl;
  },
  λ e. tt,
)
snapshot_at-Turned alloc ts cur m₀ m (r ∷ rest) v = elim (Bool-cases (region_contains r cur)) [
  | inl here ↦
      let s = store_snapshot_page-Snapped alloc ts (page_of r cur) m₀ m r v.0.0 in
      rw (here, lt→ltb (page_of r cur) r.npages (page_of-inside r cur v.0.1 here))
        (
          first-Turned ts m₀ m (page_of r cur) _ r _ rest s v.0.1 v.1,
          λ ok. (
            λ h. rw s.shape.same_base (s.taken ok),
            λ h. cc (sym h ∙ same-contains r _ cur s.shape ∙ here),
          ),
        )
  | inr elsewhere ↦
      let (t, covered) = snapshot_at-Turned alloc ts cur m₀ m rest v.1 in
      rw elsewhere
        (rest-Turned ts m₀ m r rest _ v.0 t, λ ok. (λ h. cc (sym h ∙ elsewhere), λ h. covered ok))
]

-- What covers one address of a page covers the others.
page-Covered :
    (ts : ℕ) (m₀ m : ℕ → ℕ) (x y : ℕ) (rs : List Region)
    → AllSaved ts m₀ m rs
    → x / page_size ≡ y / page_size
    → Covered ts x rs
    → Covered ts y rs
page-Covered ts m₀ m x y [] v same c = tt
page-Covered ts m₀ m x y (r ∷ rest) v same c = (
  λ h.
      subst (λ p. (r.pages p).slot_ts ≡ ts) (page-page_of r x y same)
        (c.0 (page-contains r x y v.0.1 same ∙ h)),
  λ h. page-Covered ts m₀ m x y rest v.1 same (c.1 (page-contains r x y v.0.1 same ∙ h)),
)

pub Turned-then :
    (ts : ℕ) (m₀ m m' : ℕ → ℕ) (a b c : List Region)
    → Turned ts m₀ m a b
    → Turned ts m₀ m' b c
    → Turned ts m₀ m' a c
Turned-then ts m₀ m m' a b c p q = record {
  saved = q.saved;
  others = λ x h. q.others x (p.others x h);
  outside = λ x h. q.outside x (p.outside x h);
  homes = λ a x. q.homes a x ∙ p.homes a x;
  disjoint = λ h. q.disjoint (p.disjoint h);
}

-- Where the loop ends well, every address of the range is covered.
pub snapshot_loop-Turned :
    (turns : ℕ) (alloc : ℕ → Option Buffer) (ts cur end : ℕ) (m₀ m : ℕ → ℕ) (rs : List Region)
    → end < 2 ^ 64
    → AllSaved ts m₀ m rs
    → Turned ts m₀ m rs (snapshot_loop turns alloc m cur end ts rs).1
      × ((snapshot_loop turns alloc m cur end ts rs).0 ≡ true
          → (x : ℕ) → cur ≤ x
          → x < end
          → Covered ts x (snapshot_loop turns alloc m cur end ts rs).1)
unfolding snapshot_loop
snapshot_loop-Turned zero alloc ts cur end m₀ m rs small v = (
  record {
    saved = v;
    others = λ x c. c;
    outside = λ x o. o;
    disjoint = λ d. d;
    homes = λ a x. refl;
  },
  λ over x lo hi. absurd (ground arith),
)
snapshot_loop-Turned (suc turns) alloc ts cur end m₀ m rs small v =
    elim (Bool-cases (leb end cur)) [
      | inl over ↦ rw over (
        record {
          saved = v;
          others = λ x c. c;
          outside = λ x o. o;
          disjoint = λ d. d;
          homes = λ a x. refl;
        },
        λ e x lo hi. absurd (ground arith),
      )
      | inr more ↦
          let (t, covered) = snapshot_at-Turned alloc ts cur m₀ m rs v in
          elim (Bool-cases (snapshot_at alloc m cur ts rs).0) [
            | inr failed ↦ rw (more, failed) (t, λ e. cc)
            | inl ok ↦
                let (u, later) =
                  snapshot_loop-Turned turns alloc ts (next_page cur end) end m₀ m
                    (snapshot_at alloc m cur ts rs).1 small t.saved in
                rw (more, ok)
                  (
                    Turned-then ts m₀ m m rs _ _ t u,
                    λ e x lo hi. elim (Bool-cases (ltb x (next_page cur end))) [
                      | inr beyond ↦ later e x (ground arith) hi
                      | inl near ↦ u.others x (
                          page-Covered ts m₀ m cur x _ t.saved (same_page x lo hi near)
                            (covered ok))
                    ],
                  )
          ]
    ]
  where
    same_page :
        (x : ℕ)
        → cur ≤ x
        → x < end
        → ltb x (next_page cur end) ≡ true
        → cur / page_size ≡ x / page_size
    same_page x lo hi near = ground arith
