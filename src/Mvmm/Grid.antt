-- ===== src/Mvmm/Grid.antt =====
-- MVM_MMAP_MULTIVERSIONING/patches/patches.c with MMAP_MV_STORE_GRID: the snapshot of the cells of a page
-- that a store reaches. An address is an offset in the page, `memory` the page itself.
pub mod Cells
pub mod Stores
pub mod Rollbacks
use congenial_octo_telegram.Base.{
  ℕ, zero, suc, ◌+◌, ◌-◌, ◌*◌, ◌/◌, ◌%◌, Option, none, some, Bool, true, false, ◌&&◌, ◌||◌, ltb,
  leb, ◌==◌, if◌then◌else◌, update,
}
use congenial_octo_telegram.Byte.{test_bit, set_bit}
use congenial_octo_telegram.Mvmm.{page_size, never, Buffer}

-- MVMM_GRID_SIZE, and `grid_cells_per_page` and `grid_bitmap_bytes` of a region
abbrev pub grid_size : ℕ
grid_size = 64

abbrev pub cells_per_page : ℕ
cells_per_page = (page_size + grid_size - 1) / grid_size

abbrev pub bitmap_bytes : ℕ
bitmap_bytes = (cells_per_page + 7) / 8

abbrev pub cell_size : ℕ → ℕ
cell_size cell =
    let start = cell * grid_size in
    if leb page_size start
    then 0
    else if ltb page_size (start + grid_size)
    then page_size - start
    else grid_size

abbrev pub cell_is_set : (ℕ → ℕ) → ℕ → Bool
cell_is_set bitmap cell = test_bit (bitmap (cell / 8)) (cell % 8)

abbrev pub cell_set : (ℕ → ℕ) → ℕ → ℕ → ℕ
cell_set bitmap cell = update bitmap (cell / 8) (set_bit (bitmap (cell / 8)) (cell % 8))

-- What the snapshots use of `mvmm_page_state`, with the page's row of `grid_curr`.
pub record GridPage : Type 0 where
  pub last_ts_seen : ℕ
  pub slot_ts : ℕ
  pub slot : Option Buffer
  pub bitmap : ℕ → ℕ

-- `memcpy` of one cell between the slots.
abbrev pub copy_cell : ℕ → Buffer → Buffer → Buffer
copy_cell cell src dst off =
    if leb (cell * grid_size) off && ltb off (cell * grid_size + cell_size cell)
    then src off
    else dst off

-- The loop of `mvmm_store_snapshot_page_cells`, by the cells left.
unfoldable pub snapshot_cells : ℕ → ℕ → Buffer → Buffer × (ℕ → ℕ) → Buffer × (ℕ → ℕ)
snapshot_cells zero cell memory s = s
snapshot_cells (suc rounds) cell memory s = snapshot_cells rounds (cell + 1) memory (
    if cell_is_set s.1 cell || cell_size cell == 0
    then s
    else (copy_cell cell memory s.0, cell_set s.1 cell))

-- `mvmm_store_snapshot_page_cells`, with what `mvmm_store_prepare_snapshot_slot` does to the slot and the
-- bitmap; the list of touched pages is that of Mvmm, and not kept here.
unfoldable pub snapshot_page_cells : Option Buffer → Buffer → ℕ → ℕ → ℕ → GridPage → Bool × GridPage
snapshot_page_cells alloc memory off_start off_end ts page =
    let slot : Option Buffer = elim page.slot [ none ↦ alloc | some b ↦ some b ] in
    let bitmap : ℕ → ℕ =
      if page.slot_ts == ts
      then page.bitmap
      else (λ j. if ltb j bitmap_bytes then 0 else page.bitmap j) in
    let first = off_start / grid_size in
    let last = (off_end - 1) / grid_size in
    if leb off_end off_start then (true, page) else elim slot [
      | none ↦ (false, page)
      | some b ↦
          let (copied, marked) = snapshot_cells (last + 1 - first) first memory (b, bitmap) in
          (true, record { last_ts_seen = ts; slot_ts = ts; slot = some copied; bitmap = marked })
    ]

-- The loop over the cells in `mvmm_region_rollback`.
unfoldable pub rollback_cells : ℕ → ℕ → Buffer → (ℕ → ℕ) → Buffer → Buffer
rollback_cells zero cell saved bitmap memory = memory
rollback_cells (suc rounds) cell saved bitmap memory =
    rollback_cells rounds (cell + 1) saved bitmap (
      if cell_is_set bitmap cell
      then (if cell_size cell == 0 then memory else copy_cell cell saved memory)
      else memory)

-- One page of `mvmm_region_rollback`.
unfoldable pub rollback_grid_page : ℕ → GridPage × Buffer → GridPage × Buffer
rollback_grid_page target_ts s = elim s.0.slot [
  | none ↦ s
  | some saved ↦ if s.0.slot_ts == never || leb s.0.slot_ts target_ts then s else (
    record s.0 { last_ts_seen = never },
    rollback_cells cells_per_page 0 saved s.0.bitmap s.1,
  )
]
