-- ===== src/Highway.antt =====
-- models/highway/application.c: the cars of one lane. The two sentinels are left out: a lane is the list
-- of the cars between them, from the tail to the head.
pub mod Lane
pub mod Traffic
pub mod Loads
pub mod Drivers
pub mod Network
use congenial_octo_telegram.Base.{
  ℕ, List, [], ◌∷◌, Option, none, some, Bool, true, false, not, ◌&&◌, ltb, if◌then◌else◌,
}

-- What `traversal` moves of a `struct _elem`; a residence time is in ticks.
pub record Car : Type 0 where
  pub residence : ℕ
  pub car_type : ℕ
  pub info : List ℕ

-- `add_car`: next to the tail.
unfoldable pub add_car : Car → List Car → List Car
add_car car lane = car ∷ lane

-- `del_car`: the car next to the head; `none` is NULL, for an empty lane.
unfoldable pub del_car : List Car → Option (Car × List Car)
del_car [] = none
del_car (car ∷ rest) = elim (del_car rest) [
  | none ↦ some (car, [])
  | some (first, left) ↦ some (first, car ∷ left)
]

-- The loop of `traversal` at the node `tail`, before the nodes `prev`: where `skip` is not set yet,
-- the contents of the two nodes change places if they are out of order.
unfoldable pub traversal_walk : Bool → Car → List Car → List Car
traversal_walk skip tail [] = tail ∷ []
traversal_walk skip tail (prev ∷ rest) =
    let moved = traversal_walk skip tail rest in
    let stays = traversal_walk true prev rest in
    if not skip && ltb tail.residence prev.residence then prev ∷ moved else tail ∷ stays

unfoldable pub traversal : List Car → List Car
traversal [] = []
traversal (car ∷ rest) = traversal_walk false car rest
