-- ===== src/Mvmm/Grid/Stores.antt =====
-- MVM_MMAP_MULTIVERSIONING/patches/patches.c with MMAP_MV_STORE_GRID: the stores of an epoch to a page.
use mathlib.Core.Path.{subst}
use native.Mathlib.Decide.{ℕ_discrete}
use congenial_octo_telegram.Base.{
  ℕ, zero, suc, ◌+◌, ◌/◌, ◌%◌, ◌≤◌, ◌<◌, ◌≡◌, inl, inr, sym, ◌∙◌, List, [], ◌∷◌, Bool, true, false,
  ◌||◌, ◌==◌, if◌then◌else◌, update, update_ne, update_cases, arith, Bool-cases, length,
}
use congenial_octo_telegram.Byte.{set_bit, set_bit_lem}
use congenial_octo_telegram.Mvmm.{Buffer, write}
use congenial_octo_telegram.Mvmm.Grid.{
  grid_size, cells_per_page, cell_size, cell_is_set, cell_set, copy_cell, snapshot_cells,
}
use congenial_octo_telegram.Mvmm.Grid.Cells.{
  AreCells, cell_is_set-cell_set, inside_cell, outside_cell, copy_cell-inside, copy_cell-outside,
}

-- One turn of the loop over the cells of a store.
abbrev save_cell : ℕ → Buffer → Buffer × (ℕ → ℕ) → Buffer × (ℕ → ℕ)
save_cell cell memory s =
    if cell_is_set s.1 cell || cell_size cell == 0
    then s
    else (copy_cell cell memory s.0, cell_set s.1 cell)

pub record Saving (m₀ m : Buffer) (s s' : Buffer × (ℕ → ℕ)) : Type 0 where
  pub cells : AreCells m₀ m s'.0 s'.1
  pub still : (d : ℕ) → cell_is_set s.1 d ≡ true → cell_is_set s'.1 d ≡ true

new_cell-AreCells :
    (c : ℕ) (m₀ m b : Buffer) (bitmap : ℕ → ℕ)
    → c < cells_per_page
    → cell_is_set bitmap c ≡ false
    → AreCells m₀ m b bitmap
    → AreCells m₀ m (copy_cell c m b) (cell_set bitmap c)
new_cell-AreCells c m₀ m b bitmap h clear_ v = record {
  bytes =
      update_cases (λ j byte. byte < 256) bitmap (c / 8) (set_bit (bitmap (c / 8)) (c % 8))
        (set_bit_lem (bitmap (c / 8)) (c % 8) 0 (v.bytes (c / 8)) (omega arith) (omega arith)).1
        v.bytes;
  saved = λ off lt set_. elim (ℕ_discrete c (off / grid_size)) [
    | yes same ↦
        let (size, inside) = inside_cell c off h same in
        copy_cell-inside c off m b size inside
        ∙ v.intact off lt (subst (λ q. cell_is_set bitmap q ≡ false) same clear_)
    | no other ↦
        let (size, outside) = outside_cell c off h other in
        let two : (c == off / grid_size) ≡ false = ground (arith, other) in
        copy_cell-outside c off m b size outside
        ∙ v.saved off lt
            (rw two at (sym (cell_is_set-cell_set bitmap c (off / grid_size) v.bytes) ∙ set_))
  ];
  intact = λ off lt unset. elim (Bool-cases (cell_is_set bitmap (off / grid_size))) [
    | inr old ↦ v.intact off lt old
    | inl old ↦ absurd (
        either (c == off / grid_size) (cell_is_set bitmap (off / grid_size)) old
          (sym (cell_is_set-cell_set bitmap c (off / grid_size) v.bytes) ∙ unset))
  ];
}
  where
    either : (x y : Bool) → y ≡ true → (x || y) ≡ false → ⊥
    either x y h e = ground (arith, h, e)

save_cell-Saving :
    (c : ℕ) (m₀ m b : Buffer) (bitmap : ℕ → ℕ)
    → c < cells_per_page
    → AreCells m₀ m b bitmap
    → Saving m₀ m (b, bitmap) (save_cell c m (b, bitmap))
      × (cell_is_set (save_cell c m (b, bitmap)).1 c ≡ true)
save_cell-Saving c m₀ m b bitmap h v = elim (Bool-cases (cell_is_set bitmap c)) [
  | inl set_ ↦ rw set_ (record { cells = v; still = λ d e. e }, set_)
  | inr clear_ ↦
      let size : (cell_size c == 0) ≡ false = ground arith in
      rw (clear_, size)
        (
          record {
            cells = new_cell-AreCells c m₀ m b bitmap h clear_ v;
            still = λ d e. cell_is_set-cell_set bitmap c d v.bytes ∙ ground (arith, e);
          },
          cell_is_set-cell_set bitmap c c v.bytes ∙ ground arith,
        )
]

pub snapshot_cells-Saving :
    (rounds c : ℕ) (m₀ m b : Buffer) (bitmap : ℕ → ℕ)
    → c + rounds ≤ cells_per_page
    → AreCells m₀ m b bitmap
    → Saving m₀ m (b, bitmap) (snapshot_cells rounds c m (b, bitmap))
      × ((d : ℕ)
          → c ≤ d
          → d < c + rounds
          → cell_is_set (snapshot_cells rounds c m (b, bitmap)).1 d ≡ true)
unfolding snapshot_cells
snapshot_cells-Saving zero c m₀ m b bitmap h v =
    (record { cells = v; still = λ d e. e }, λ d lo hi. absurd (omega arith))
snapshot_cells-Saving (suc rounds) c m₀ m b bitmap h v =
    let (first, set_) = save_cell-Saving c m₀ m b bitmap (omega arith) v in
    let (later, others) =
      snapshot_cells-Saving rounds (c + 1) m₀ m (save_cell c m (b, bitmap)).0
        (save_cell c m (b, bitmap)).1 (omega arith) first.cells in
    (
      record { cells = later.cells; still = λ d e. later.still d (first.still d e) },
      λ d lo hi. elim (ℕ_discrete c d) [
        | yes same ↦
            later.still d
              (subst (λ q. cell_is_set (save_cell c m (b, bitmap)).1 q ≡ true) same set_)
        | no other ↦ others d (omega (arith, other)) (omega arith)
      ],
    )

pub write-AreCells :
    (start : ℕ) (bytes : List ℕ) (m₀ m b : Buffer) (bitmap : ℕ → ℕ)
    → ((off : ℕ)
        → start ≤ off
        → off < start + length bytes
        → cell_is_set bitmap (off / grid_size) ≡ true)
    → AreCells m₀ m b bitmap
    → AreCells m₀ (write start bytes m) b bitmap
unfolding write
write-AreCells start [] m₀ m b bitmap g v = v
write-AreCells start (byte ∷ rest) m₀ m b bitmap g v =
    write-AreCells (start + 1) rest m₀ (update m start byte) b bitmap
      (λ off lo hi. g off (omega arith) (omega arith))
      (record {
        bytes = v.bytes;
        saved = v.saved;
        intact = λ off lt unset.
            update_ne m start byte off (λ e. cc (
              sym unset
              ∙ subst (λ x. cell_is_set bitmap (x / grid_size) ≡ true) e
                  (g start (omega arith) (omega arith))))
            ∙ v.intact off lt unset;
      })
