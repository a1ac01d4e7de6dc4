-- ===== src/Mvmm/Grid/Cells.antt =====
-- MVM_MMAP_MULTIVERSIONING/patches/patches.c with MMAP_MV_STORE_GRID: what the cells of a page hold.
use mathlib.Core.Path.{subst}
use native.Mathlib.Decide.{ℕ_discrete}
use congenial_octo_telegram.Base.{
  ℕ, zero, suc, ◌+◌, ◌*◌, ◌/◌, ◌%◌, ◌≤◌, ◌<◌, ◌≡◌, ◌≢◌, inl, inr, refl, sym, ap, ◌∙◌, Bool, true,
  false, ◌&&◌, ◌||◌, ltb, leb, ◌==◌, if◌then◌else◌, update_self, update_ne, arith, Bool-cases,
}
use congenial_octo_telegram.Byte.{test_bit, set_bit, set_bit_lem}
use congenial_octo_telegram.Mvmm.{page_size, Buffer}
use congenial_octo_telegram.Mvmm.Grid.{
  grid_size, cells_per_page, cell_size, cell_is_set, cell_set, copy_cell, rollback_cells,
}

same_byte :
    (bitmap : ℕ → ℕ) (c d : ℕ)
    → c / 8 ≡ d / 8
    → (c % 8 == d % 8 || test_bit (bitmap (c / 8)) (d % 8)) ≡ (c == d || cell_is_set bitmap d)
same_byte bitmap c d same =
    let one : (c % 8 == d % 8) ≡ (c == d) = ground (arith, same) in rw (one, same) refl

other_byte : (c d : ℕ) (b : Bool) → c / 8 ≢ d / 8 → b ≡ (c == d || b)
other_byte c d b other = let two : (c == d) ≡ false = ground (arith, other) in rw two refl

-- The bitmap after a cell is set.
pub cell_is_set-cell_set :
    (bitmap : ℕ → ℕ) (c d : ℕ)
    → ((j : ℕ) → bitmap j < 256)
    → cell_is_set (cell_set bitmap c) d ≡ (c == d || cell_is_set bitmap d)
cell_is_set-cell_set bitmap c d bytes = elim (ℕ_discrete (c / 8) (d / 8)) [
  | yes same ↦
      let bit =
        (set_bit_lem (bitmap (c / 8)) (c % 8) (d % 8) (bytes (c / 8)) (omega arith)
          (omega arith)).0 in
      ap (λ byte. test_bit byte (d % 8))
        (ap (λ j. cell_set bitmap c j) (sym same)
          ∙ update_self bitmap (c / 8) (set_bit (bitmap (c / 8)) (c % 8)))
      ∙ bit
      ∙ same_byte bitmap c d same
  | no other ↦
      ap (λ byte. test_bit byte (d % 8))
        (update_ne bitmap (c / 8) (set_bit (bitmap (c / 8)) (c % 8)) (d / 8) other)
      ∙ other_byte c d (cell_is_set bitmap d) other
]

-- The page in epoch `ts`, where the epoch found the page as `m₀`: a set cell is saved in `b`.
pub record AreCells (m₀ m b : Buffer) (bitmap : ℕ → ℕ) : Type 0 where
  pub bytes : (j : ℕ) → bitmap j < 256
  pub saved :
      (off : ℕ) → off < page_size → cell_is_set bitmap (off / grid_size) ≡ true → b off ≡ m₀ off
  pub intact :
      (off : ℕ) → off < page_size → cell_is_set bitmap (off / grid_size) ≡ false → m off ≡ m₀ off

-- The copy of one cell back to the page.
abbrev cell_back : ℕ → Buffer → (ℕ → ℕ) → Buffer → Buffer
cell_back cell saved bitmap memory =
    if cell_is_set bitmap cell
    then (if cell_size cell == 0 then memory else copy_cell cell saved memory)
    else memory

pub inside_cell :
    (c off : ℕ)
    → c < cells_per_page
    → c ≡ off / grid_size
    → (cell_size c ≡ grid_size)
      × ((leb (c * grid_size) off && ltb off (c * grid_size + grid_size)) ≡ true)
inside_cell c off h same = (ground arith, ground (arith, same))

pub outside_cell :
    (c off : ℕ)
    → c < cells_per_page
    → c ≢ off / grid_size
    → (cell_size c ≡ grid_size)
      × ((leb (c * grid_size) off && ltb off (c * grid_size + grid_size)) ≡ false)
outside_cell c off h other = (ground arith, ground (arith, other))

pub big : (c : ℕ) → cell_size c ≡ grid_size → (cell_size c == 0) ≡ false
big c size = rw size refl

pub copy_cell-inside :
    (c off : ℕ) (src dst : Buffer)
    → cell_size c ≡ grid_size
    → (leb (c * grid_size) off && ltb off (c * grid_size + grid_size)) ≡ true
    → copy_cell c src dst off ≡ src off
copy_cell-inside c off src dst size inside =
    subst
      (λ n.
        (if leb (c * grid_size) off && ltb off (c * grid_size + n) then src off else dst off)
        ≡ src off)
      (sym size) (rw inside refl)

pub copy_cell-outside :
    (c off : ℕ) (src dst : Buffer)
    → cell_size c ≡ grid_size
    → (leb (c * grid_size) off && ltb off (c * grid_size + grid_size)) ≡ false
    → copy_cell c src dst off ≡ dst off
copy_cell-outside c off src dst size outside =
    subst
      (λ n.
        (if leb (c * grid_size) off && ltb off (c * grid_size + n) then src off else dst off)
        ≡ dst off)
      (sym size) (rw outside refl)

cell_back-at :
    (c : ℕ) (b m : Buffer) (bitmap : ℕ → ℕ) (off : ℕ)
    → c < cells_per_page
    → cell_back c b bitmap m off
      ≡ (if c == off / grid_size && cell_is_set bitmap (off / grid_size) then b off else m off)
cell_back-at c b m bitmap off h = elim (ℕ_discrete c (off / grid_size)) [
  | yes same ↦
      let (size, inside) = inside_cell c off h same in
      let here : (c == off / grid_size) ≡ true = ground (arith, same) in
      subst
        (λ q.
          cell_back c b bitmap m off
          ≡ (if c == off / grid_size && cell_is_set bitmap q then b off else m off))
        same
        (elim (Bool-cases (cell_is_set bitmap c)) [
          | inl set_ ↦ rw (set_, here, big c size) (copy_cell-inside c off b m size inside)
          | inr clear_ ↦ rw (clear_, here) refl
        ])
  | no other ↦
      let (size, outside) = outside_cell c off h other in
      let there : (c == off / grid_size) ≡ false = ground (arith, other) in
      elim (Bool-cases (cell_is_set bitmap c)) [
        | inl set_ ↦ rw (set_, there, big c size) (copy_cell-outside c off b m size outside)
        | inr clear_ ↦ rw (clear_, there) refl
      ]
]

one_more :
    (c q rounds x y : ℕ) (s : Bool)
    → (if leb (c + 1) q && ltb q (c + 1 + rounds) && s then x else (if c == q && s then x else y))
      ≡ (if leb c q && ltb q (c + suc rounds) && s then x else y)
one_more c q rounds x y true = ground arith
one_more c q rounds x y false = ground arith

none_more : (c q x y : ℕ) (s : Bool) → y ≡ (if leb c q && ltb q (c + 0) && s then x else y)
none_more c q x y true = ground arith
none_more c q x y false = ground arith

rollback_cells-at :
    (rounds c : ℕ) (b m : Buffer) (bitmap : ℕ → ℕ) (off : ℕ)
    → c + rounds ≤ cells_per_page
    → rollback_cells rounds c b bitmap m off ≡ (
        if leb c (off / grid_size)
          && ltb (off / grid_size) (c + rounds)
          && cell_is_set bitmap (off / grid_size)
        then b off
        else m off)
unfolding rollback_cells
rollback_cells-at zero c b m bitmap off h =
    none_more c (off / grid_size) (b off) (m off) (cell_is_set bitmap (off / grid_size))
rollback_cells-at (suc rounds) c b m bitmap off h =
    rollback_cells-at rounds (c + 1) b (cell_back c b bitmap m) bitmap off (omega arith)
    ∙ ap
        (λ y.
          if leb (c + 1) (off / grid_size)
            && ltb (off / grid_size) (c + 1 + rounds)
            && cell_is_set bitmap (off / grid_size)
          then b off
          else y)
        (cell_back-at c b m bitmap off (omega arith))
    ∙ one_more c (off / grid_size) rounds (b off) (m off) (cell_is_set bitmap (off / grid_size))

-- After the rollback of the cells the page is as the epoch found it.
pub rollback_cells-AreCells :
    (m₀ m b : Buffer) (bitmap : ℕ → ℕ) (off : ℕ)
    → AreCells m₀ m b bitmap
    → off < page_size
    → rollback_cells cells_per_page 0 b bitmap m off ≡ m₀ off
rollback_cells-AreCells m₀ m b bitmap off v lt =
    rollback_cells-at cells_per_page 0 b m bitmap off (omega arith)
    ∙ (elim (Bool-cases (cell_is_set bitmap (off / grid_size))) [
      | inl set_ ↦ rw set_ (ground (arith, v.saved off lt set_))
      | inr clear_ ↦ rw clear_ (ground (arith, v.intact off lt clear_))
    ])
