-- ===== src/Tests/Grids.antt =====
-- A page with a grid, in epoch 3.
use congenial_octo_telegram.Base.{ℕ, ◌≡◌, List, ◌∷◌, [], some, arith}
use congenial_octo_telegram.Mvmm.Grid.{GridPage, rollback_grid_page}
use congenial_octo_telegram.Mvmm.Grid.Rollbacks.{
  IsClosed, run_stores, rollback_grid_page-run_stores,
}

-- Cell 1 was saved in epoch 2.
abbrev grid_page : GridPage
grid_page = record { last_ts_seen = 2; slot_ts = 2; slot = some (λ off. 0); bitmap = λ j. 2 }

grid_page-IsClosed : IsClosed 3 grid_page
grid_page-IsClosed = record { older = λ h. omega arith; row = λ j. omega arith }

-- Two stores, the first over the border of two cells.
abbrev grid_stores : List (ℕ × List ℕ)
grid_stores = (62, 1 ∷ 2 ∷ 3 ∷ 4 ∷ []) ∷ (63, 5 ∷ []) ∷ []

rollback_grid_page-run_stores_example :
    (rollback_grid_page 2 (run_stores (some (λ off. 0)) 3 grid_stores (grid_page, λ off. off))).1 64
    ≡ 64
rollback_grid_page-run_stores_example =
    rollback_grid_page-run_stores (λ off. 0) (λ off. off) 3 64 grid_stores grid_page (omega arith)
      (omega arith) grid_page-IsClosed
      ((omega arith, omega arith), ((omega arith, omega arith), tt)) (omega arith)
