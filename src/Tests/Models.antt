-- ===== src/Tests/Models.antt =====
-- The models and the generator.
use mathlib.Core.List.{Perm}
use congenial_octo_telegram.Base.{ℕ, ◌<◌, ◌≡◌, ◌∷◌, [], some, refl, arith, false}
use congenial_octo_telegram.Random.{Seeds}
use congenial_octo_telegram.Topology.{hexagon, find_receiver, off_map, hexagon_neighbour}
use congenial_octo_telegram.Topology.Receiver.{find_receiver-ends}
use congenial_octo_telegram.Highway.{Car, add_car, traversal}
use congenial_octo_telegram.Highway.Lane.{IsOrdered, traversal-add_car}

-- What the models start object 0 with.
abbrev seeds : Seeds
seeds = record { seed1 = 1; seed2 = 0 }

east_on_map : off_map 3 (hexagon_neighbour 4 0 0) ≡ false
unfolding hexagon_neighbour
east_on_map = refl

find_receiver-ends_example :
    (n : ℕ × Seeds) × (find_receiver 0 6 9 4 hexagon seeds ≡ some n) × (n.0 < 9)
find_receiver-ends_example =
    find_receiver-ends 0 9 4 hexagon seeds (omega arith) (omega arith) (λ e. cc) (λ e. cc)

abbrev car : ℕ → Car
car residence = record { residence = residence; car_type = 1; info = [] }

traversal-add_car_example :
    IsOrdered (traversal (add_car (car 5) (car 9 ∷ car 5 ∷ car 3 ∷ [])))
    × Perm
        (traversal (add_car (car 5) (car 9 ∷ car 5 ∷ car 3 ∷ [])))
        (car 5 ∷ car 9 ∷ car 5 ∷ car 3 ∷ [])
traversal-add_car_example = traversal-add_car (car 5) (car 9 ∷ car 5 ∷ car 3 ∷ []) (ground arith)
