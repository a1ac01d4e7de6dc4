-- ===== src/Topology/Receiver.antt =====
-- models/pcs/topology.c: the receiver that FindReceiver returns.
use mathlib.Core.Path.{subst}
use native.Mathlib.Decide.{ℕ_discrete}
use native.Mathlib.Nat.{
  mod-lt, div-lt_iff_lt-mul, mul-le-mul_right, add-mul, one-mul, le-mul_of_pos_right,
}
use congenial_octo_telegram.Base.{
  ℕ, ◌+◌, ◌*◌, ◌/◌, ◌%◌, ◌^◌, ◌<◌, ◌≤◌, ◌≡◌, ◌≢◌, inl, inr, some, false, ◌==◌, Bool-cases, arith,
  ap, refl,
}
use congenial_octo_telegram.Random.{Seeds, random, scaled, scaled-random}
use congenial_octo_telegram.Topology.{
  Topology, hexagon, square, mesh, star, ring, bidring, other, find_receiver, off_map, linear,
  hexagon_receiver, square_root,
}
use congenial_octo_telegram.Topology.Hexagon.{hexagon_walk-ends, hexagon_walk-on_map}

linear-on_map :
    (edge : ℕ) (n : ℕ × ℕ)
    → off_map edge n ≡ false
    → edge * edge < 2 ^ 32
    → linear edge n < edge * edge
linear-on_map edge n h small =
    let hx : n.0 < edge = ground arith in
    let hy : n.1 + 1 ≤ edge = ground arith in
    let row : (n.1 + 1) * edge ≤ edge * edge = mul-le-mul_right edge hy in
    omega (arith, add-mul n.1 1 edge, one-mul edge)

wide_map : (edge n : ℕ) → edge * edge ≡ n → 0 < n → n ≢ 1 → 1 < edge
wide_map edge n h hn ne = elim (ℕ_discrete edge 0) [
  | yes none_wide ↦ absurd (omega (arith, ap (λ e. e * e) none_wide))
  | no wide ↦ elim (ℕ_discrete edge 1) [
    | yes single ↦ absurd (ne (omega (arith, ap (λ e. e * e) single)))
    | no more ↦ omega arith
  ]
]

-- A map of `edge * edge` cells, more than one.
hexagon_receiver-ends :
    (objects me : ℕ) (r : Seeds)
    → objects < 2 ^ 31
    → me < objects
    → (n : ℕ × Seeds) × (hexagon_receiver 6 objects me r ≡ some n) × (n.0 < objects)
hexagon_receiver-ends objects me r small hme = elim (Bool-cases (edge * edge == objects)) [
  | inr bad ↦ ((0, r), rw bad, omega arith)
  | inl good ↦ elim (Bool-cases (objects == 1)) [
    | inl single ↦ ((me, r), rw (good, single), hme)
    | inr many ↦
        let area : edge * edge ≡ objects = ground arith in
        let wide : 1 < edge = wide_map edge objects area (omega arith) (λ e. ground arith) in
        let low : edge < 2 ^ 32 =
          omega (arith, area, le-mul_of_pos_right {m = edge} edge (omega (arith, wide))) in
        let (n, found) =
          hexagon_walk-ends edge (scaled 6 (random r).0) (me % edge) (me / edge) wide low
            (mod-lt me (omega (arith, wide)))
            ((div-lt_iff_lt-mul (omega (arith, wide))).1 (rw area hme))
            (scaled-random 6 r (omega arith)) in
        let inside =
          linear-on_map edge n
            (hexagon_walk-on_map 6 edge (scaled 6 (random r).0) (me % edge) (me / edge) n found)
            (omega (arith, area)) in
        (
          (linear edge n, (random r).1),
          rw (good, many, found),
          subst (λ k. linear edge n < k) area inside,
        )
  ]
]
  where
    edge : ℕ
    edge = square_root objects objects

-- For at most 2^31 - 1 objects and a caller among them, FindReceiver ends, within six rounds of its
-- loop, with one of the objects for a receiver, on each topology but the square map, whose loop has
-- no bound, and a code that is none of the six.
pub find_receiver-ends :
    (unwritten objects me : ℕ) (t : Topology) (r : Seeds)
    → objects < 2 ^ 31
    → me < objects
    → t ≢ square
    → t ≢ other
    → (n : ℕ × Seeds) × (find_receiver unwritten 6 objects me t r ≡ some n) × (n.0 < objects)
unfolding find_receiver
find_receiver-ends unwritten objects me hexagon r small hme h k =
    hexagon_receiver-ends objects me r small hme
find_receiver-ends unwritten objects me square r small hme h k = absurd (h refl)
find_receiver-ends unwritten objects me mesh r small hme h k =
    (_, refl, scaled-random objects r (omega arith))
find_receiver-ends unwritten objects me star r small hme h k = elim (Bool-cases (me == 0)) [
  | inl hub ↦
      ((scaled objects (random r).0, (random r).1), rw hub, scaled-random objects r (omega arith))
  | inr leaf ↦ ((0, r), rw leaf, omega arith)
]
find_receiver-ends unwritten objects me ring r small hme h k = (_, refl, ground arith)
find_receiver-ends unwritten objects me bidring r small hme h k = (_, refl, ground arith)
find_receiver-ends unwritten objects me other r small hme h k = absurd (k refl)
