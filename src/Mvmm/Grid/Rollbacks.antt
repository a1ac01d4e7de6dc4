-- ===== src/Mvmm/Grid/Rollbacks.antt =====
-- MVM_MMAP_MULTIVERSIONING/patches/patches.c with MMAP_MV_STORE_GRID: the rollback of a page.
use mathlib.Core.Path.{subst}
use native.Mathlib.Nat.{zero-div}
use congenial_octo_telegram.Base.{
  ℕ, ◌+◌, ◌-◌, ◌/◌, ◌%◌, ◌^◌, ◌≤◌, ◌<◌, ◌≡◌, ◌≢◌, ◌⊎◌, inl, inr, refl, sym, ◌∙◌, List, [], ◌∷◌,
  Option, none, some, true, false, ◌||◌, ltb, leb, ◌==◌, if◌then◌else◌, arith, Option-cases, length,
  lt→ltb, All,
}
use congenial_octo_telegram.Byte.{test_bit}
use congenial_octo_telegram.Mvmm.{page_size, never, Buffer, write}
use congenial_octo_telegram.Mvmm.Grid.{
  grid_size, bitmap_bytes, GridPage, snapshot_cells, snapshot_page_cells, rollback_grid_page,
}
use congenial_octo_telegram.Mvmm.Grid.Cells.{AreCells, rollback_cells-AreCells}
use congenial_octo_telegram.Mvmm.Grid.Stores.{snapshot_cells-Saving, write-AreCells}

-- A store of bytes from an offset on, after its snapshot.
unfoldable pub store_cells : Option Buffer → ℕ → ℕ × List ℕ → GridPage × Buffer → GridPage × Buffer
store_cells alloc ts store s =
    let (ok, page) = snapshot_page_cells alloc s.1 store.0 (store.0 + length store.1) ts s.0 in
    (page, write store.0 store.1 s.1)

unfoldable pub run_stores :
    Option Buffer → ℕ → List (ℕ × List ℕ) → GridPage × Buffer → GridPage × Buffer
run_stores alloc ts [] s = s
run_stores alloc ts (store ∷ rest) s = run_stores alloc ts rest (store_cells alloc ts store s)

-- A page that epoch `ts` has not stored to yet, and one that it has.
pub record IsClosed (ts : ℕ) (page : GridPage) : Type 0 where
  pub older : page.slot_ts ≢ never → page.slot_ts < ts
  pub row : (j : ℕ) → page.bitmap j < 256

record HasCells (ts : ℕ) (m₀ : Buffer) (s : GridPage × Buffer) : Type 0 where
  now : s.0.slot_ts ≡ ts
  snapshot : (b : Buffer) × (s.0.slot ≡ some b) × AreCells m₀ s.1 b s.0.bitmap

no_cells :
    (m b : Buffer) (row : ℕ → ℕ)
    → ((j : ℕ) → row j < 256)
    → AreCells m m b (λ j. if ltb j bitmap_bytes then 0 else row j)
no_cells m b row bytes = record {
  bytes = λ j. ground (arith, bytes j);
  saved = λ off lt set_.
      let low : ltb (off / grid_size / 8) bitmap_bytes ≡ true =
        lt→ltb (off / grid_size / 8) bitmap_bytes (omega arith) in
      let none_ : test_bit 0 (off / grid_size % 8) ≡ false =
        rw (zero-div (2 ^ (off / grid_size % 8))) refl in
      cc (sym none_ ∙ rw low at set_);
  intact = λ off lt e. refl;
}

-- The snapshot and the store, on a slot `b` and a bitmap that are ready.
module _ (alloc : Buffer) (ts : ℕ) (m₀ m : Buffer) (start : ℕ) (bytes : List ℕ) (page : GridPage)
    (some_ : 1 ≤ length bytes) (fits : start + length bytes ≤ page_size) where
  abbrev ready_row : ℕ → ℕ
  ready_row =
      if page.slot_ts == ts
      then page.bitmap
      else (λ j. if ltb j bitmap_bytes then 0 else page.bitmap j)

  cells_left : ℕ
  cells_left = (start + length bytes - 1) / grid_size + 1 - start / grid_size

  store_cells-slot :
      (b : Buffer)
      → (page.slot ≡ some b) ⊎ ((page.slot ≡ none) × (alloc ≡ b))
      → store_cells (some alloc) ts (start, bytes) (page, m) ≡ (
        record {
          last_ts_seen = ts;
          slot_ts = ts;
          slot = some (snapshot_cells cells_left (start / grid_size) m (b, ready_row)).0;
          bitmap = (snapshot_cells cells_left (start / grid_size) m (b, ready_row)).1;
        },
        write start bytes m,
      )
  unfolding store_cells snapshot_page_cells cells_left
  store_cells-slot b given =
      let more : leb (start + length bytes) start ≡ false = ground (arith, some_) in
      elim given [
        | inl held ↦ rw (held, more) refl
        | inr (empty, same) ↦ rw (empty, more, same) refl
      ]

  store_cells-HasCells :
      (b : Buffer)
      → (page.slot ≡ some b) ⊎ ((page.slot ≡ none) × (alloc ≡ b))
      → AreCells m₀ m b ready_row
      → HasCells ts m₀ (store_cells (some alloc) ts (start, bytes) (page, m))
  unfolding cells_left
  store_cells-HasCells b given v =
      let (saving, set_) =
        snapshot_cells-Saving cells_left (start / grid_size) m₀ m b ready_row
          (omega (arith, some_, fits)) v in
      subst (HasCells ts m₀) (sym (store_cells-slot b given)) (record {
        now = refl;
        snapshot = (
          (snapshot_cells cells_left (start / grid_size) m (b, ready_row)).0,
          refl,
          write-AreCells start bytes m₀ m _ _
              (λ off lo hi. set_ (off / grid_size) (omega arith) (omega (arith, some_)))
              saving.cells,
        );
      })

-- A store has bytes, and stays in the page.
abbrev pub FitsPage : ℕ × List ℕ → Type 0
FitsPage store = (1 ≤ length store.1) × (store.0 + length store.1 ≤ page_size)

first_store-HasCells :
    (alloc m : Buffer) (ts : ℕ) (store : ℕ × List ℕ) (page : GridPage)
    → ts < never
    → FitsPage store
    → IsClosed ts page
    → HasCells ts m (store_cells (some alloc) ts store (page, m))
first_store-HasCells alloc m ts store page hi fits closed =
    let new : (page.slot_ts == ts) ≡ false = ground (arith, closed.older) in
    let cells : (b : Buffer)
        → AreCells m m b (ready_row alloc ts m m store.0 store.1 page fits.0 fits.1) =
      λ b. rw new (no_cells m b page.bitmap closed.row) in
    elim (Option-cases page.slot) [
      | inl empty ↦
          store_cells-HasCells alloc ts m m store.0 store.1 page fits.0 fits.1 alloc
            (inr (empty, refl)) (cells alloc)
      | inr (b, held) ↦
          store_cells-HasCells alloc ts m m store.0 store.1 page fits.0 fits.1 b (inl held)
            (cells b)
    ]

next_store-HasCells :
    (alloc m₀ : Buffer) (ts : ℕ) (store : ℕ × List ℕ) (s : GridPage × Buffer)
    → FitsPage store
    → HasCells ts m₀ s
    → HasCells ts m₀ (store_cells (some alloc) ts store s)
next_store-HasCells alloc m₀ ts store s fits has =
    let (b, held, cells) = has.snapshot in
    let same : (s.0.slot_ts == ts) ≡ true = ground (arith, has.now) in
    store_cells-HasCells alloc ts m₀ s.1 store.0 store.1 s.0 fits.0 fits.1 b (inl held)
      (rw same cells)

run_stores-HasCells :
    (alloc m₀ : Buffer) (ts : ℕ) (stores : List (ℕ × List ℕ)) (s : GridPage × Buffer)
    → All FitsPage stores
    → HasCells ts m₀ s
    → HasCells ts m₀ (run_stores (some alloc) ts stores s)
unfolding run_stores
run_stores-HasCells alloc m₀ ts [] s fits has = has
run_stores-HasCells alloc m₀ ts (store ∷ rest) s fits has =
    run_stores-HasCells alloc m₀ ts rest (store_cells (some alloc) ts store s) fits.1
      (next_store-HasCells alloc m₀ ts store s fits.0 has)

rollback-HasCells :
    (m₀ : Buffer) (ts off : ℕ) (s : GridPage × Buffer)
    → 1 ≤ ts
    → ts < never
    → off < page_size
    → HasCells ts m₀ s
    → (rollback_grid_page (ts - 1) s).1 off ≡ m₀ off
unfolding rollback_grid_page
rollback-HasCells m₀ ts off s lo hi lt has =
    let (b, held, cells) = has.snapshot in
    let new : (s.0.slot_ts == never || leb s.0.slot_ts (ts - 1)) ≡ false =
      ground (arith, has.now) in
    rw (held, new) (rollback_cells-AreCells m₀ s.1 b s.0.bitmap off cells lt)

-- If an epoch after the first and before UINT64_MAX has not stored to a page yet, whose row of the
-- bitmap holds bytes, and a buffer can be allocated, then after any stores within the page, each of
-- one byte or more and preceded by the snapshot of the cells it reaches, the rollback to the epoch
-- before gives every byte of the page back as it was when the epoch began.
pub rollback_grid_page-run_stores :
    (alloc m : Buffer) (ts off : ℕ) (stores : List (ℕ × List ℕ)) (page : GridPage)
    → 1 ≤ ts
    → ts < never
    → IsClosed ts page
    → All FitsPage stores
    → off < page_size
    → (rollback_grid_page (ts - 1) (run_stores (some alloc) ts stores (page, m))).1 off ≡ m off
unfolding run_stores rollback_grid_page
rollback_grid_page-run_stores alloc m ts off [] page lo hi closed fits lt =
    elim (Option-cases page.slot) [
      | inl empty ↦ rw empty refl
      | inr (b, held) ↦
          let old : (page.slot_ts == never || leb page.slot_ts (ts - 1)) ≡ true =
            ground (arith, closed.older) in
          rw (held, old) refl
    ]
rollback_grid_page-run_stores alloc m ts off (store ∷ rest) page lo hi closed fits lt =
    rollback-HasCells m ts off
      (run_stores (some alloc) ts rest (store_cells (some alloc) ts store (page, m))) lo hi lt
      (run_stores-HasCells alloc m ts rest (store_cells (some alloc) ts store (page, m)) fits.1
        (first_store-HasCells alloc m ts store page hi fits.0 closed))
