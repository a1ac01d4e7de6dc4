-- ===== src/Mvmm/Checkpoints.antt =====
-- MVM_MMAP_MULTIVERSIONING/patches/patches.c: the epochs between the checkpoints.
use congenial_octo_telegram.Base.{
  ℕ, ◌+◌, ◌≤◌, ◌<◌, ◌≡◌, ◌≢◌, refl, List, [], ◌∷◌, some, true, arith, All,
}
use congenial_octo_telegram.Memory.{Allocator}
use congenial_octo_telegram.Mvmm.{never, Buffer, Region, Mvmm, restore_object}
use congenial_octo_telegram.Mvmm.Epoch.{Access, run, Fits, Holds, run-Holds, restore_object-Holds}
use congenial_octo_telegram.Mvmm.Pages.{Saved}
use congenial_octo_telegram.Mvmm.Ranges.{IsRegion, AllSaved, IsDisjoint, together}

-- A region that the epoch `ts` has not touched yet.
pub record Closed (ts : ℕ) (r : Region) : Type 0 where
  pub curr_closed : r.touched_curr_ts ≢ never → r.touched_curr_ts < ts
  pub prev_closed : r.touched_prev_ts ≢ never → r.touched_prev_ts < ts
  pub slot_closed : (p : ℕ) → (r.pages p).slot_ts ≢ never → (r.pages p).slot_ts < ts
  pub page_closed : (p : ℕ) → (r.pages p).last_touched_ts ≢ never → (r.pages p).last_touched_ts < ts

-- The state in which an epoch begins.
pub record IsOpen (s : Mvmm) : Type 0 where
  pub bound : s.epoch_round < never
  pub closed : All (λ (r : Region). Closed s.epoch_round r × IsRegion r) s.regions
  pub apart : IsDisjoint s.regions

Closed-Saved : (ts : ℕ) (m : ℕ → ℕ) (r : Region) → ts < never → Closed ts r → Saved ts m m r
Closed-Saved ts m r lt c = record {
  curr_known = λ h. omega (arith, c.curr_closed h);
  prev_known = c.prev_closed;
  pages = λ p. record {
    known = λ h. omega (arith, c.slot_closed p h);
    seen = λ h. omega (arith, c.page_closed p h);
    touched = λ e. absurd (ground (arith, c.page_closed p));
    snapped = λ e. absurd (ground (arith, c.slot_closed p));
    kept = λ e. absurd (ground (arith, c.slot_closed p));
    intact = λ old off real small. refl;
  };
}

Saved-Closed : (ts : ℕ) (m₀ m : ℕ → ℕ) (r : Region) → Saved ts m₀ m r → Closed (ts + 1) r
Saved-Closed ts m₀ m r v = record {
  curr_closed = λ h. omega (arith, v.curr_known h);
  prev_closed = λ h. omega (arith, v.prev_known h);
  slot_closed = λ p h. omega (arith, (v.pages p).known h);
  page_closed = λ p h. omega (arith, (v.pages p).seen h);
}

pub AllSaved-Closed :
    (ts : ℕ) (m₀ m : ℕ → ℕ) (rs : List Region)
    → AllSaved ts m₀ m rs
    → All (λ (r : Region). Closed (ts + 1) r × IsRegion r) rs
AllSaved-Closed ts m₀ m [] v = tt
AllSaved-Closed ts m₀ m (r ∷ rest) v =
    ((Saved-Closed ts m₀ m r v.0.0, v.0.1), AllSaved-Closed ts m₀ m rest v.1)

Closed-AllSaved :
    (ts : ℕ) (m : ℕ → ℕ) (rs : List Region)
    → ts < never
    → All (λ (r : Region). Closed ts r × IsRegion r) rs
    → AllSaved ts m m rs
Closed-AllSaved ts m [] lt c = tt
Closed-AllSaved ts m (r ∷ rest) lt c =
    ((Closed-Saved ts m r lt c.0.0, c.0.1), Closed-AllSaved ts m rest lt c.1)

pub IsOpen-Holds : (s : Mvmm) → IsOpen s → Holds s.epoch_round s.memory s.regions s
IsOpen-Holds s open_ = record {
  epoch = refl;
  turned = record {
    saved = Closed-AllSaved s.epoch_round s.memory s.regions open_.bound open_.closed;
    others = λ x c. c;
    outside = λ x o. o;
    disjoint = λ d. d;
    homes = λ a x. refl;
  };
  disjoint = open_.apart;
}

-- If an epoch after the first and before UINT64_MAX begins with regions of whole pages, none over
-- another, and none touched in the epoch, and a page can be allocated for each snapshot, then after
-- any patched stores, copies by `mmap_mv_memcpy` and rollbacks of objects, `restore_object` of an
-- object whose base is not NULL leaves in the region of that base every byte as it was when the
-- epoch began. The accesses stay below the end of the addresses, and a store that begins outside
-- the regions reaches into none.
pub restore_object-run :
    (buffers : ℕ → Buffer) (accesses : List Access) (a : Allocator) (s : Mvmm) (x : ℕ)
    → IsOpen s
    → 1 ≤ s.epoch_round
    → All (Fits s.regions) accesses
    → a.base ≢ 0
    → together a.base x s.regions ≡ true
    → (restore_object (a, run (λ k. some (buffers k)) accesses s)).1.memory x ≡ s.memory x
restore_object-run buffers accesses a s x start lo fits nz home =
    let holds =
      run-Holds s.epoch_round s.memory s.regions buffers accesses s lo start.bound fits
        (IsOpen-Holds s start) in
    (restore_object-Holds s.epoch_round s.memory s.regions a
        (run (λ k. some (buffers k)) accesses s) lo start.bound holds).1
      nz x home
