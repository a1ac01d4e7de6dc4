-- ===== src/Highway/Lane.antt =====
-- models/highway/application.c: the order of the residence times in a lane.
use mathlib.Core.Path.{subst}
use mathlib.Core.List.{Perm}
use mathlib.Core.List.Perm
use congenial_octo_telegram.Base.{
  ◌≤◌, ◌≡◌, refl, List, [], ◌∷◌, none, some, true, false, inl, inr, ltb, Bool-cases, Option-cases,
  All, All-weaken, some_inj, ◌++◌, ◌∙◌, ap, arith, Bool, suc, length,
}
use congenial_octo_telegram.Highway.{Car, add_car, del_car, traversal_walk, traversal}

-- The next car to leave is next to the head.
abbrev pub IsOrdered : List Car → Type 0
IsOrdered [] = Unit {0}
IsOrdered (x ∷ xs) = All (λ (y : Car). y.residence ≤ x.residence) xs × IsOrdered xs

traversal_walk-skips : (tail : Car) (prev : List Car) → traversal_walk true tail prev ≡ tail ∷ prev
unfolding traversal_walk
traversal_walk-skips tail [] = refl
traversal_walk-skips tail (p ∷ rest) = ap (λ l. tail ∷ l) (traversal_walk-skips p rest)

traversal_walk-All {κ} :
    (P : Car → Type κ) (tail : Car) (prev : List Car)
    → P tail
    → All P prev
    → All P (traversal_walk false tail prev)
unfolding traversal_walk
traversal_walk-All P tail [] h hs = (h, tt)
traversal_walk-All P tail (p ∷ rest) h hs = elim (Bool-cases (ltb tail.residence p.residence)) [
  | inl before ↦ rw before (hs.0, traversal_walk-All P tail rest h hs.1)
  | inr after ↦ rw (after, traversal_walk-skips p rest) (h, hs)
]

traversal_walk-IsOrdered :
    (tail : Car) (prev : List Car) → IsOrdered prev → IsOrdered (traversal_walk false tail prev)
unfolding traversal_walk
traversal_walk-IsOrdered tail [] h = (tt, tt)
traversal_walk-IsOrdered tail (p ∷ rest) h = elim (Bool-cases (ltb tail.residence p.residence)) [
  | inl before ↦ rw before (
    traversal_walk-All (λ (y : Car). y.residence ≤ p.residence) tail rest (ground arith) h.0,
    traversal_walk-IsOrdered tail rest h.1,
  )
  | inr after ↦
      rw (after, traversal_walk-skips p rest)
        (
          (
            ground arith,
            All-weaken _ (λ (y : Car). y.residence ≤ tail.residence) rest (λ y le. ground arith)
                h.0,
          ),
          h,
        )
]

traversal_walk-perm :
    (tail : Car) (prev : List Car) → Perm (traversal_walk false tail prev) (tail ∷ prev)
unfolding traversal_walk
traversal_walk-perm tail [] = Perm.refl (tail ∷ [])
traversal_walk-perm tail (p ∷ rest) = elim (Bool-cases (ltb tail.residence p.residence)) [
  | inl before ↦
      rw before (Perm.trans (Perm.cons p (traversal_walk-perm tail rest)) (Perm.swap tail p rest))
  | inr after ↦ rw (after, traversal_walk-skips p rest) (Perm.refl (tail ∷ p ∷ rest))
]

-- A car that joins a lane in order of residence times, by `add_car` and then `traversal`, takes its
-- place in the order, and the lane holds that car and the cars it held.
pub traversal-add_car :
    (car : Car) (lane : List Car)
    → IsOrdered lane
    → IsOrdered (traversal (add_car car lane)) × Perm (traversal (add_car car lane)) (car ∷ lane)
unfolding traversal add_car
traversal-add_car car lane h = (traversal_walk-IsOrdered car lane h, traversal_walk-perm car lane)

del_car-All {κ} :
    (P : Car → Type κ) (lane : List Car) (first : Car) (left : List Car)
    → del_car lane ≡ some (first, left)
    → All P lane
    → P first
unfolding del_car
del_car-All P [] first left h hs = cc
del_car-All P (car ∷ rest) first left h hs = elim (Option-cases (del_car rest)) [
  | inl last ↦ subst P (ap (λ r. r.0) (some_inj (rw last at h))) hs.0
  | inr (r, e) ↦
      del_car-All P rest first r.1
        (e ∙ ap (λ c. some (c, r.1)) (ap (λ r. r.0) (some_inj (rw e at h)))) hs.1
]

-- From a lane in order of residence times that is not empty, `del_car` takes the car next to the
-- head, which leaves no later than each of the others, and leaves the others as they were.
pub del_car-first :
    (car : Car) (rest : List Car)
    → IsOrdered (car ∷ rest)
    → (first : Car) × (left : List Car) × (del_car (car ∷ rest) ≡ some (first, left))
      × All (λ (y : Car). first.residence ≤ y.residence) left
      × (left ++ (first ∷ []) ≡ car ∷ rest)
unfolding del_car
del_car-first car [] h = (car, [], refl, tt, refl)
del_car-first car (next ∷ rest) h =
    let (first, left, ran, least, same) = del_car-first next rest h.1 in
    (
      first,
      car ∷ left,
      ap (λ r. elim r [ none ↦ some (car, []) | some (first, left) ↦ some (first, car ∷ left) ])
          ran,
      (
        del_car-All (λ (y : Car). y.residence ≤ car.residence) (next ∷ rest) first left ran h.0,
        least,
      ),
      ap (λ l. car ∷ l) same,
    )

length-traversal_walk :
    (skip : Bool) (tail : Car) (prev : List Car)
    → length (traversal_walk skip tail prev) ≡ suc (length prev)
unfolding traversal_walk
length-traversal_walk skip tail [] = refl
length-traversal_walk skip tail (p ∷ rest) =
    ground (arith, length-traversal_walk skip tail rest, length-traversal_walk true p rest)

pub length-traversal : (lane : List Car) → length (traversal lane) ≡ length lane
unfolding traversal
length-traversal [] = refl
length-traversal (car ∷ rest) = length-traversal_walk false car rest

pub traversal-IsOrdered : (lane : List Car) → IsOrdered lane → IsOrdered (traversal lane)
unfolding traversal
traversal-IsOrdered [] h = tt
traversal-IsOrdered (car ∷ rest) h = traversal_walk-IsOrdered car rest h.1

All-init {κ} : (P : Car → Type κ) (xs : List Car) (y : Car) → All P (xs ++ (y ∷ [])) → All P xs
All-init P [] y h = tt
All-init P (x ∷ xs) y h = (h.0, All-init P xs y h.1)

-- A lane without the car next to its head.
pub init-IsOrdered : (xs : List Car) (y : Car) → IsOrdered (xs ++ (y ∷ [])) → IsOrdered xs
init-IsOrdered [] y h = tt
init-IsOrdered (x ∷ xs) y h = (All-init _ xs y h.0, init-IsOrdered xs y h.1)
