-- ===== src/Mvmm/Rounds.antt =====
-- MVM_MMAP_MULTIVERSIONING/patches/patches.c: the checkpoints of all objects, and new regions.
use congenial_octo_telegram.Base.{
  ℕ, suc, ◌+◌, ◌%◌, ◌^◌, ◌≤◌, ◌<◌, ◌≡◌, inl, inr, refl, ap, ◌∙◌, List, [], ◌∷◌, Option, some, true,
  false, ◌||◌, ◌==◌, if◌then◌else◌, Bool-cases, Option-cases, arith, All, length,
}
use congenial_octo_telegram.Memory.{Allocator}
use congenial_octo_telegram.Mvmm.{
  never, page_size, Buffer, Mvmm, find_region, region_register, map_failed, store_snapshot_range,
  the_patch, patched_store, mmap_mv_memcpy, set_ckpt, restore_object,
}
use congenial_octo_telegram.Mvmm.Epoch.{Access, store, copy, restore, perform, run, Fits, run-Holds}
use congenial_octo_telegram.Mvmm.Ranges.{NotIn}
use congenial_octo_telegram.Mvmm.Checkpoints.{IsOpen, IsOpen-Holds, AllSaved-Closed}

-- The checkpoints of all objects, one after the other.
unfoldable pub set_ckpts : ℕ → List Allocator → Mvmm → Mvmm
set_ckpts objects [] s = s
set_ckpts objects (a ∷ rest) s = set_ckpts objects rest (set_ckpt objects (a, s)).1

store_snapshot_range-ckpt_counter :
    (alloc : ℕ → Option Buffer) (dst n : ℕ) (s : Mvmm)
    → (store_snapshot_range alloc dst n s).1.ckpt_counter ≡ s.ckpt_counter
unfolding store_snapshot_range
store_snapshot_range-ckpt_counter alloc dst n s = ground arith

the_patch-ckpt_counter :
    (alloc : ℕ → Option Buffer) (ea n : ℕ) (s : Mvmm)
    → (the_patch alloc ea n s).1.ckpt_counter ≡ s.ckpt_counter
unfolding the_patch
the_patch-ckpt_counter alloc ea n s = elim (Option-cases (find_region ea s.regions)) [
  | inl outside ↦ rw outside (ground arith)
  | inr (r, there) ↦
      rw there
        (ground (arith, store_snapshot_range-ckpt_counter alloc ea (if n == 0 then 1 else n) s))
]

perform-ckpt_counter :
    (alloc : ℕ → Option Buffer) (access : Access) (s : Mvmm)
    → (perform alloc access s).ckpt_counter ≡ s.ckpt_counter
unfolding perform patched_store mmap_mv_memcpy restore_object
perform-ckpt_counter alloc (store ea bytes) s = the_patch-ckpt_counter alloc ea (length bytes) s
perform-ckpt_counter alloc (copy dest bytes) s =
    store_snapshot_range-ckpt_counter alloc dest (length bytes) s
perform-ckpt_counter alloc (restore a) s = ground arith

run-ckpt_counter :
    (alloc : ℕ → Option Buffer) (accesses : List Access) (s : Mvmm)
    → (run alloc accesses s).ckpt_counter ≡ s.ckpt_counter
unfolding run
run-ckpt_counter alloc [] s = refl
run-ckpt_counter alloc (access ∷ rest) s =
    run-ckpt_counter alloc rest (perform alloc access s) ∙ perform-ckpt_counter alloc access s

set_ckpt-last :
    (objects : ℕ) (a : Allocator) (s : Mvmm)
    → s.ckpt_counter + 1 ≡ objects
    → (set_ckpt objects (a, s)).1 ≡ record s { ckpt_counter = 0; epoch_round = s.epoch_round + 1 }
unfolding set_ckpt
set_ckpt-last objects a s last =
    let full : (s.ckpt_counter + 1 == objects) ≡ true = ground (arith, last) in rw full refl

set_ckpt-more :
    (objects : ℕ) (a : Allocator) (s : Mvmm)
    → s.ckpt_counter + 1 < objects
    → (set_ckpt objects (a, s)).1 ≡ record s { ckpt_counter = s.ckpt_counter + 1 }
unfolding set_ckpt
set_ckpt-more objects a s more =
    let open_ : (s.ckpt_counter + 1 == objects) ≡ false = ground (arith, more) in rw open_ refl

-- The checkpoints of the objects that remain close the epoch.
set_ckpts-closes :
    (objects : ℕ) (a : Allocator) (remain : List Allocator) (s : Mvmm)
    → s.ckpt_counter + 1 + length remain ≡ objects
    → set_ckpts objects (a ∷ remain) s
      ≡ record s { ckpt_counter = 0; epoch_round = s.epoch_round + 1 }
unfolding set_ckpts
set_ckpts-closes objects a [] s all = set_ckpt-last objects a s (omega (arith, all))
set_ckpts-closes objects a (b ∷ rest) s all =
    ap (set_ckpts objects (b ∷ rest)) (set_ckpt-more objects a s (omega (arith, all)))
    ∙ set_ckpts-closes objects b rest (record s { ckpt_counter = s.ckpt_counter + 1 })
        (omega (arith, all))

-- If an epoch after the first begins with regions of whole pages, none over another and none
-- touched in the epoch, no object has set its checkpoint, and a page can be allocated for each
-- snapshot, then after any patched stores, copies and rollbacks, and the checkpoints of all
-- objects, the next epoch begins so, its number is one greater, and no object has set its
-- checkpoint in it. The accesses stay below the end of the addresses, a store that begins outside
-- the regions reaches into none, and the epoch's number stays below UINT64_MAX.
pub set_ckpts-IsOpen :
    (objects : ℕ) (buffers : ℕ → Buffer) (accesses : List Access) (a : Allocator)
    (others : List Allocator) (s : Mvmm)
    → IsOpen s
    → 1 ≤ s.epoch_round
    → s.epoch_round + 1 < never
    → s.ckpt_counter ≡ 0
    → suc (length others) ≡ objects
    → All (Fits s.regions) accesses
    → let next = set_ckpts objects (a ∷ others) (run (λ k. some (buffers k)) accesses s) in
      IsOpen next × (next.epoch_round ≡ s.epoch_round + 1) × (next.ckpt_counter ≡ 0)
set_ckpts-IsOpen objects buffers accesses a others s start lo lt zero_ all fits =
    let holds =
      run-Holds s.epoch_round s.memory s.regions buffers accesses s lo start.bound fits
        (IsOpen-Holds s start) in
    let counter = run-ckpt_counter (λ k. some (buffers k)) accesses s in
    rw (set_ckpts-closes objects a others after (omega (arith, counter, zero_, all))) (
      record {
        bound = omega (arith, holds.epoch, lt);
        closed =
            rw holds.epoch (
              AllSaved-Closed s.epoch_round s.memory after.memory after.regions holds.turned.saved);
        apart = holds.disjoint;
      },
      ap (λ n. n + 1) holds.epoch,
      refl,
    )
  where
    after : Mvmm
    after = run (λ k. some (buffers k)) accesses s

-- If the state is one in which an epoch before UINT64_MAX may begin, with regions of whole pages,
-- none over another and none touched in the epoch, it is so after the registration of whole pages
-- that end below the end of the addresses and are in none of the regions.
pub region_register-IsOpen :
    (base len : ℕ) (s : Mvmm)
    → IsOpen s
    → base % page_size ≡ 0
    → len % page_size ≡ 0
    → base + len < 2 ^ 64
    → ((x : ℕ) → base ≤ x → x < base + len → NotIn x s.regions)
    → IsOpen (region_register base len s)
unfolding region_register
region_register-IsOpen base len s start aligned whole ends fresh =
    elim (Bool-cases (base == map_failed || base == 0 || len == 0)) [
      | inl none_ ↦ rw none_ start
      | inr real ↦ rw real (record {
        bound = start.bound;
        closed = (
          (
            record {
              curr_closed = λ h. absurd (h refl);
              prev_closed = λ h. absurd (h refl);
              slot_closed = λ p h. absurd (h refl);
              page_closed = λ p h. absurd (h refl);
            },
            record { aligned = aligned; whole = omega (arith, whole); ends = ends },
          ),
          start.closed,
        );
        apart = (λ x h. fresh x (ground arith) (ground (arith, ends)), start.apart);
      })
    ]
