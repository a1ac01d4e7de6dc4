-- ===== src/Topology/Hexagon.antt =====
-- models/pcs/topology.c: the search for a neighbour on the hexagonal map.
use congenial_octo_telegram.Base.{
  ℕ, zero, suc, ◌+◌, ◌-◌, ◌%◌, ◌^◌, ◌<◌, ◌≡◌, ◌≢◌, inl, inr, some, false, ltb, Bool-cases, arith,
  some_inj, ap, sym, tests,
}
use mathlib.Core.Path.{subst}
use congenial_octo_telegram.Topology.{off_map, hexagon_neighbour, hexagon_walk}

-- West or east is on the map.
hexagon_neighbour-west :
    (edge x y : ℕ)
    → edge < 2 ^ 32
    → x < edge
    → y < edge
    → 0 < x
    → off_map edge (hexagon_neighbour 1 x y) ≡ false
unfolding hexagon_neighbour
hexagon_neighbour-west edge x y small hx hy h = ground arith

hexagon_neighbour-east :
    (edge x y : ℕ)
    → edge < 2 ^ 32
    → x < edge
    → y < edge
    → x + 1 < edge
    → off_map edge (hexagon_neighbour 4 x y) ≡ false
unfolding hexagon_neighbour
hexagon_neighbour-east edge x y small hx hy h = ground arith

-- Enough rounds reach a direction that is on the map.
hexagon_walk-reaches :
    (k rounds edge receiver x y : ℕ)
    → off_map edge (hexagon_neighbour ((receiver + k) % 6) x y) ≡ false
    → receiver < 6
    → (n : ℕ × ℕ) × (hexagon_walk (suc (k + rounds)) edge receiver x y ≡ some n)
unfolding hexagon_walk
hexagon_walk-reaches zero rounds edge receiver x y h lt =
    let same : (receiver + 0) % 6 ≡ receiver = omega arith in
    (
      hexagon_neighbour receiver x y,
      rw (subst (λ d. off_map edge (hexagon_neighbour d x y) ≡ false) same h),
    )
hexagon_walk-reaches (suc k) rounds edge receiver x y h lt =
    let turned : (receiver + suc k) % 6 ≡ ((receiver + 1) % 6 + k) % 6 = omega arith in
    let grow : suc k + rounds ≡ suc (k + rounds) = omega arith in
    let n =
      hexagon_walk-reaches k rounds edge ((receiver + 1) % 6) x y
        (subst (λ d. off_map edge (hexagon_neighbour d x y) ≡ false) turned h) (omega arith) in
    elim (Bool-cases (off_map edge (hexagon_neighbour receiver x y))) [
      | inl off ↦ (n.0, rw (off, grow) n.1)
      | inr on ↦ (hexagon_neighbour receiver x y, rw on)
    ]

-- The rounds from direction `receiver` to direction `d`.
abbrev turns : ℕ → ℕ → ℕ
turns receiver d = (d + 6 - receiver) % 6

hexagon_walk-finds :
    (d edge receiver x y : ℕ)
    → off_map edge (hexagon_neighbour d x y) ≡ false
    → d < 6
    → receiver < 6
    → (n : ℕ × ℕ) × (hexagon_walk 6 edge receiver x y ≡ some n)
hexagon_walk-finds d edge receiver x y h hd lt =
    let there : (receiver + turns receiver d) % 6 ≡ d = omega arith in
    let six : suc (turns receiver d + (5 - turns receiver d)) ≡ 6 = omega arith in
    subst (λ f. (n : ℕ × ℕ) × (hexagon_walk f edge receiver x y ≡ some n)) six
      (hexagon_walk-reaches (turns receiver d) (5 - turns receiver d) edge receiver x y
        (subst (λ d. off_map edge (hexagon_neighbour d x y) ≡ false) (sym there) h) lt)

-- On a hexagonal map with more than one cell and an edge below 2^32, the search for a neighbour of
-- a cell ends within six rounds, whichever direction it starts with.
pub hexagon_walk-ends :
    (edge receiver x y : ℕ)
    → 1 < edge
    → edge < 2 ^ 32
    → x < edge
    → y < edge
    → receiver < 6
    → (n : ℕ × ℕ) × (hexagon_walk 6 edge receiver x y ≡ some n)
hexagon_walk-ends edge receiver x y many small hx hy lt = elim (Bool-cases (ltb 0 x)) [
  | inl in_from_west ↦
      hexagon_walk-finds 1 edge receiver x y
        (hexagon_neighbour-west edge x y small hx hy (omega tests)) (omega arith) lt
  | inr at_west ↦
      hexagon_walk-finds 4 edge receiver x y
        (hexagon_neighbour-east edge x y small hx hy (let z : x ≡ 0 = ground arith in omega arith))
        (omega arith) lt
]

-- What the search finds is on the map.
pub hexagon_walk-on_map :
    (rounds edge receiver x y : ℕ) (n : ℕ × ℕ)
    → hexagon_walk rounds edge receiver x y ≡ some n
    → off_map edge n ≡ false
unfolding hexagon_walk
hexagon_walk-on_map zero edge receiver x y n h = cc
hexagon_walk-on_map (suc rounds) edge receiver x y n h =
    elim (Bool-cases (off_map edge (hexagon_neighbour receiver x y))) [
      | inl off ↦ hexagon_walk-on_map rounds edge ((receiver + 1) % 6) x y n (rw off at h)
      | inr on ↦ subst (λ m. off_map edge m ≡ false) (some_inj (rw on at h)) on
    ]

-- On a hexagonal map with an edge below 2^32, a neighbour of a cell that is on the map is another
-- cell.
pub hexagon_neighbour-moves :
    (receiver edge x y : ℕ)
    → edge < 2 ^ 32
    → x < edge
    → y < edge
    → off_map edge (hexagon_neighbour receiver x y) ≡ false
    → hexagon_neighbour receiver x y ≢ (x, y)
unfolding hexagon_neighbour
hexagon_neighbour-moves receiver edge x y small hx hy h e =
    ground (arith, ap (λ n. n.0) e, ap (λ n. n.1) e)
