-- ===== src/Tests/Workers.antt =====
-- Ten objects, four workers and two nodes.
use congenial_octo_telegram.Base.{◌*◌, ◌/◌, ◌<◌, ◌≤◌, ◌≡◌, ◌≢◌, ◌⊎◌, ◌↔◌, ℕ, arith}
use congenial_octo_telegram.Engine.{share, startup_info, place_all, no_objects}
use congenial_octo_telegram.Engine.Ranges.{startup_info-owner}
use congenial_octo_telegram.Engine.Tables.{Cut, place_all-no_objects}

startup_info-owner_example :
    (2 < 4)
    × ((i : ℕ)
        → (((startup_info 10 4 (i * share 10 4)).min_id ≤ 7)
            × (7 ≤ (startup_info 10 4 (i * share 10 4)).max_id))
          ↔ (i ≡ 2))
startup_info-owner_example = startup_info-owner 10 4 7 (omega arith) (omega arith)

-- The nodes of the objects, where five objects are on each.
abbrev halves : ℕ → ℕ
halves n = n / 5

place_all-no_objects_example :
    let t = place_all 4 10 4 halves 2 0 no_objects in
    ((◌≡◌ {A = ℕ} 2 1) × (t ≡ no_objects)) ⊎ ((◌≢◌ {A = ℕ} 2 1) × Cut 10 t)
place_all-no_objects_example = place_all-no_objects 10 4 halves 2 (omega arith) (omega arith)
