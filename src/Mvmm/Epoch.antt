-- ===== src/Mvmm/Epoch.antt =====
-- MVM_MMAP_MULTIVERSIONING/patches/patches.c: the stores, copies and rollbacks of one epoch.
use congenial_octo_telegram.Base.{
  ℕ, ◌+◌, ◌-◌, ◌%◌, ◌^◌, ◌≤◌, ◌<◌, ◌≡◌, ◌≢◌, ◌⊎◌, inl, inr, refl, sym, ◌∙◌, List, [], ◌∷◌, Option,
  some, true, false, ◌||◌, leb, ◌==◌, if◌then◌else◌, Bool-cases, Option-cases, arith, All, length,
}
use congenial_octo_telegram.Memory.{Allocator}
use congenial_octo_telegram.Mvmm.{
  never, Buffer, Region, Mvmm, region_contains, find_region, store_snapshot_range, the_patch, write,
  patched_store, mmap_mv_memcpy, restore_object,
}
use congenial_octo_telegram.Mvmm.Ends.{snapshot_loop-done}
use congenial_octo_telegram.Mvmm.Memory.{Guarded, NotIn-Guarded, Covered-Guarded, write-AllSaved}
use congenial_octo_telegram.Mvmm.Ranges.{
  AllSaved, NotIn, IsDisjoint, Covered, Turned, Turned-then, together, snapshot_loop-Turned,
}
use congenial_octo_telegram.Mvmm.Restore.{rollback_at-Restored}

-- What the code of the objects does between two checkpoints: stores at an address, copies to one, and rollbacks of an
-- object, of which `restore` has the allocator.
pub data Access : Type 0 where
  store : ℕ → List ℕ → Access
  copy : ℕ → List ℕ → Access
  restore : Allocator → Access

unfoldable pub perform : (ℕ → Option Buffer) → Access → Mvmm → Mvmm
perform alloc (store ea bytes) s = patched_store alloc ea bytes s
perform alloc (copy dest bytes) s = mmap_mv_memcpy alloc dest bytes s
perform alloc (restore allocator) s = (restore_object (allocator, s)).1

unfoldable pub run : (ℕ → Option Buffer) → List Access → Mvmm → Mvmm
run alloc [] s = s
run alloc (access ∷ rest) s = run alloc rest (perform alloc access s)

-- No access goes past the last address, and none that starts outside the regions reaches into one.
abbrev pub Fits : List Region → Access → Type 0
Fits rs (store ea bytes) =
    (ea ≢ 0)
    × (ea + length bytes + 1 < 2 ^ 64)
    × ((together ea ea rs ≡ true) ⊎ ((x : ℕ) → ea ≤ x → x < ea + length bytes → NotIn x rs))
Fits rs (copy dest bytes) = dest + length bytes < 2 ^ 64
Fits rs (restore allocator) = Unit {0}

-- In epoch `ts`, which found the regions `rs` and the memory `m₀`.
pub record Holds (ts : ℕ) (m₀ : ℕ → ℕ) (rs : List Region) (s : Mvmm) : Type 0 where
  pub epoch : s.epoch_round ≡ ts
  pub turned : Turned ts m₀ s.memory rs s.regions
  pub disjoint : IsDisjoint s.regions

written-Turned :
    (ts : ℕ) (m₀ m m' : ℕ → ℕ) (a b : List Region)
    → Turned ts m₀ m a b
    → AllSaved ts m₀ m' b
    → Turned ts m₀ m' a b
written-Turned ts m₀ m m' a b t v = record {
  saved = v;
  others = t.others;
  outside = t.outside;
  disjoint = t.disjoint;
  homes = t.homes;
}

-- After the snapshots of a range: the same memory, and the range covered.
record Ready (ts : ℕ) (m₀ : ℕ → ℕ) (rs : List Region) (dst n : ℕ) (s s' : Mvmm) : Type 0 where
  holds : Holds ts m₀ rs s'
  covered : (x : ℕ) → dst ≤ x → x < dst + n → Covered ts x s'.regions

store_snapshot_range-Ready :
    (ts : ℕ) (m₀ : ℕ → ℕ) (rs : List Region) (buffers : ℕ → Buffer) (dst n : ℕ) (s : Mvmm)
    → dst + n < 2 ^ 64
    → Holds ts m₀ rs s
    → Ready ts m₀ rs dst n s (store_snapshot_range (λ k. some (buffers k)) dst n s).1
unfolding store_snapshot_range
store_snapshot_range-Ready ts m₀ rs buffers dst n s small h =
    let end : (dst + n) % 2 ^ 64 ≡ dst + n = omega arith in
    elim (Bool-cases (n == 0 || leb (dst + n) dst)) [
      | inl empty ↦
          rw (end, empty) (record { holds = h; covered = λ x lo hi. absurd (ground arith) })
      | inr more ↦
          let (t, covered) =
            snapshot_loop-Turned n (λ k. some (buffers k)) ts dst (dst + n) m₀ s.memory s.regions
              small h.turned.saved in
          let done =
            snapshot_loop-done n buffers ts dst (dst + n) s.memory s.regions (omega arith) in
          rw (end, more, h.epoch)
            (record {
              holds = record {
                epoch = refl;
                turned = Turned-then ts m₀ s.memory s.memory rs s.regions _ h.turned t;
                disjoint = t.disjoint h.disjoint;
              };
              covered = covered done;
            })
    ]

-- The bytes written after that.
written-Holds :
    (ts : ℕ) (m₀ : ℕ → ℕ) (rs : List Region) (dst : ℕ) (bytes : List ℕ) (s : Mvmm)
    → Holds ts m₀ rs s
    → ((x : ℕ) → dst ≤ x → x < dst + length bytes → Guarded ts x s.regions)
    → Holds ts m₀ rs (record s { memory = write dst bytes s.memory })
written-Holds ts m₀ rs dst bytes s h guarded = record {
  epoch = h.epoch;
  turned =
      written-Turned ts m₀ s.memory _ rs s.regions h.turned
        (write-AllSaved ts m₀ s.memory dst bytes s.regions guarded h.turned.saved);
  disjoint = h.disjoint;
}

mmap_mv_memcpy-Holds :
    (ts : ℕ) (m₀ : ℕ → ℕ) (rs : List Region) (buffers : ℕ → Buffer) (dest : ℕ) (bytes : List ℕ)
    (s : Mvmm)
    → dest + length bytes < 2 ^ 64
    → Holds ts m₀ rs s
    → Holds ts m₀ rs (mmap_mv_memcpy (λ k. some (buffers k)) dest bytes s)
unfolding mmap_mv_memcpy
mmap_mv_memcpy-Holds ts m₀ rs buffers dest bytes s small h =
    let ready = store_snapshot_range-Ready ts m₀ rs buffers dest (length bytes) s small h in
    written-Holds ts m₀ rs dest bytes _ ready.holds
      (λ x lo hi. Covered-Guarded ts x _ ready.holds.disjoint (ready.covered x lo hi))

-- The patch of a store at an address of a region.
find_region-together :
    (a : ℕ) (rs : List Region) → together a a rs ≡ true → (r : Region) × (find_region a rs ≡ some r)
unfolding find_region
find_region-together a [] h = cc
find_region-together a (r ∷ rest) h = elim (Bool-cases (region_contains r a)) [
  | inl here ↦ rw here (r, refl)
  | inr away ↦
      let (found, there) = find_region-together a rest (ground (arith, away)) in
      rw away (found, there)
]

the_patch-Holds :
    (ts : ℕ) (m₀ : ℕ → ℕ) (rs : List Region) (buffers : ℕ → Buffer) (ea : ℕ) (bytes : List ℕ)
    (s : Mvmm)
    → Fits rs (store ea bytes)
    → Holds ts m₀ rs s
    → Holds ts m₀ rs (the_patch (λ k. some (buffers k)) ea (length bytes) s).1
      × ((x : ℕ)
          → ea ≤ x
          → x < ea + length bytes
          → Guarded ts x (the_patch (λ k. some (buffers k)) ea (length bytes) s).1.regions)
unfolding the_patch
the_patch-Holds ts m₀ rs buffers ea bytes s fits h =
    let nz : (ea == 0) ≡ false = ground (arith, fits.0) in
    elim (Option-cases (find_region ea s.regions)) [
      | inl outside ↦
          rw (nz, outside)
            (
              h,
              λ x lo hi. elim fits.2 [
                | inl home ↦
                    let (r, there) =
                      find_region-together ea s.regions (h.turned.homes ea ea ∙ home) in
                    cc (sym outside ∙ there)
                | inr away ↦ NotIn-Guarded ts x s.regions (h.turned.outside x (away x lo hi))
              ],
            )
      | inr (r, there) ↦
          let ready =
            store_snapshot_range-Ready ts m₀ rs buffers ea size s (ground (arith, fits.1)) h in
          rw (nz, there)
            (
              ready.holds,
              λ x lo hi.
                  Covered-Guarded ts x _ ready.holds.disjoint (ready.covered x lo (ground arith)),
            )
    ]
  where
    size : ℕ
    size = if length bytes == 0 then 1 else length bytes

patched_store-Holds :
    (ts : ℕ) (m₀ : ℕ → ℕ) (rs : List Region) (buffers : ℕ → Buffer) (ea : ℕ) (bytes : List ℕ)
    (s : Mvmm)
    → Fits rs (store ea bytes)
    → Holds ts m₀ rs s
    → Holds ts m₀ rs (patched_store (λ k. some (buffers k)) ea bytes s)
unfolding patched_store
patched_store-Holds ts m₀ rs buffers ea bytes s fits h =
    let (holds, guarded) = the_patch-Holds ts m₀ rs buffers ea bytes s fits h in
    written-Holds ts m₀ rs ea bytes (the_patch (λ k. some (buffers k)) ea (length bytes) s).1 holds
      guarded

pub restore_object-Holds :
    (ts : ℕ) (m₀ : ℕ → ℕ) (rs : List Region) (a : Allocator) (s : Mvmm)
    → 1 ≤ ts
    → ts < never
    → Holds ts m₀ rs s
    → Holds ts m₀ rs (restore_object (a, s)).1
      × (a.base ≢ 0
          → (x : ℕ) → together a.base x rs ≡ true
          → (restore_object (a, s)).1.memory x ≡ m₀ x)
unfolding restore_object
restore_object-Holds ts m₀ rs a s lo hi h =
    let target : (if leb 1 s.epoch_round then s.epoch_round - 1 else 0) ≡ ts - 1 =
      ground (arith, h.epoch) in
    let done =
      rollback_at-Restored ts m₀ s.memory a.base s.regions lo hi h.turned.saved h.disjoint in
    elim (Bool-cases (a.base == 0)) [
      | inl null ↦ rw null (h, λ some x. absurd (ground arith))
      | inr base ↦
          rw (base, target)
            (
              record {
                epoch = h.epoch;
                turned = Turned-then ts m₀ s.memory _ rs s.regions _ h.turned done.turned;
                disjoint = done.turned.disjoint h.disjoint;
              },
              λ nz x home. done.back x (h.turned.homes a.base x ∙ home),
            )
    ]

perform-Holds :
    (ts : ℕ) (m₀ : ℕ → ℕ) (rs : List Region) (buffers : ℕ → Buffer) (access : Access) (s : Mvmm)
    → 1 ≤ ts
    → ts < never
    → Fits rs access
    → Holds ts m₀ rs s
    → Holds ts m₀ rs (perform (λ k. some (buffers k)) access s)
unfolding perform
perform-Holds ts m₀ rs buffers (store ea bytes) s lo hi fits h =
    patched_store-Holds ts m₀ rs buffers ea bytes s fits h
perform-Holds ts m₀ rs buffers (copy dest bytes) s lo hi fits h =
    mmap_mv_memcpy-Holds ts m₀ rs buffers dest bytes s fits h
perform-Holds ts m₀ rs buffers (restore a) s lo hi fits h =
    (restore_object-Holds ts m₀ rs a s lo hi h).0

pub run-Holds :
    (ts : ℕ) (m₀ : ℕ → ℕ) (rs : List Region) (buffers : ℕ → Buffer) (accesses : List Access)
    (s : Mvmm)
    → 1 ≤ ts
    → ts < never
    → All (Fits rs) accesses
    → Holds ts m₀ rs s
    → Holds ts m₀ rs (run (λ k. some (buffers k)) accesses s)
unfolding run
run-Holds ts m₀ rs buffers [] s lo hi fits h = h
run-Holds ts m₀ rs buffers (access ∷ rest) s lo hi fits h =
    run-Holds ts m₀ rs buffers rest (perform (λ k. some (buffers k)) access s) lo hi fits.1
      (perform-Holds ts m₀ rs buffers access s lo hi fits.0 h)
