-- ===== src/Topology.antt =====
-- models/pcs/topology.c: where a call goes when it leaves a cell.
pub mod Hexagon
pub mod Receiver
use congenial_octo_telegram.Base.{
  ℕ, zero, suc, ◌+◌, ◌-◌, ◌*◌, ◌/◌, ◌%◌, ◌^◌, Option, none, some, Bool, true, false, ◌||◌, ltb, leb,
  ◌==◌, if◌then◌else◌, not,
}
use congenial_octo_telegram.Random.{Seeds, random, scaled, below_half}

-- The codes TOPOLOGY_HEXAGON to TOPOLOGY_BIDRING, and any other.
pub data Topology : Type 0 where
  hexagon square mesh star ring bidring other : Topology

-- `(unsigned int)sqrt(n)`: the largest number up to `e` whose square is at most `n`.
unfoldable pub square_root : ℕ → ℕ → ℕ
square_root zero n = 0
square_root (suc e) n = let rest = square_root e n in if leb (suc e * suc e) n then suc e else rest

-- Unsigned neighbours wrap around, and are then off the map.
abbrev pub dec : ℕ → ℕ
dec x = (x + (2 ^ 32 - 1)) % 2 ^ 32

abbrev pub inc : ℕ → ℕ
inc x = (x + 1) % 2 ^ 32

abbrev even : ℕ → Bool
even y = y % 2 == 0

-- The switch of the hexagonal map over NW, W, SW, SE, E and NE.
unfoldable pub hexagon_neighbour : ℕ → ℕ → ℕ → ℕ × ℕ
hexagon_neighbour receiver x y =
    if receiver == 0
    then (if even y then dec x else x, dec y)
    else if receiver == 5
    then (if even y then x else inc x, dec y)
    else if receiver == 2
    then (if even y then dec x else x, inc y)
    else if receiver == 3
    then (if even y then x else inc x, inc y)
    else if receiver == 4
    then (inc x, y)
    else (dec x, y)

abbrev pub off_map : ℕ → ℕ × ℕ → Bool
off_map edge n = leb edge n.0 || leb edge n.1

-- The do-while over the six neighbours, counter-clockwise from the one drawn, by the rounds allowed.
unfoldable pub hexagon_walk : ℕ → ℕ → ℕ → ℕ → ℕ → Option (ℕ × ℕ)
hexagon_walk zero edge receiver x y = none
hexagon_walk (suc rounds) edge receiver x y =
    let again = hexagon_walk rounds edge ((receiver + 1) % 6) x y in
    if off_map edge (hexagon_neighbour receiver x y)
    then again
    else some (hexagon_neighbour receiver x y)

-- The switch of the square map over N, W, S and E.
unfoldable pub square_neighbour : ℕ → ℕ → ℕ → ℕ × ℕ
square_neighbour receiver x y =
    if receiver == 0
    then (x, dec y)
    else if receiver == 2
    then (x, inc y)
    else if receiver == 3
    then (inc x, y)
    else (dec x, y)

-- The do-while of the square map draws again in every round.
unfoldable pub square_walk : ℕ → ℕ → ℕ → ℕ → Seeds → Option ((ℕ × ℕ) × Seeds)
square_walk zero edge x y r = none
square_walk (suc rounds) edge x y r =
    let drawn = random r in
    let again = square_walk rounds edge x y drawn.1 in
    let receiver = if scaled 4 drawn.0 == 4 then 3 else scaled 4 drawn.0 in
    if off_map edge (square_neighbour receiver x y)
    then again
    else some (square_neighbour receiver x y, drawn.1)

-- `receiver = (ny * edge + nx)`
abbrev pub linear : ℕ → ℕ × ℕ → ℕ
linear edge n = (n.1 * edge + n.0) % 2 ^ 32

abbrev pub hexagon_receiver : ℕ → ℕ → ℕ → Seeds → Option (ℕ × Seeds)
hexagon_receiver rounds objects me r =
    let edge = square_root objects objects in
    let drawn = random r in
    if not (edge * edge == objects)
    then some (0, r)
    else if objects == 1
    then some (me, r)
    else elim (hexagon_walk rounds edge (scaled 6 drawn.0) (me % edge) (me / edge)) [
      | none ↦ none
      | some n ↦ some (linear edge n, drawn.1)
    ]

abbrev square_receiver : ℕ → ℕ → ℕ → Seeds → Option (ℕ × Seeds)
square_receiver rounds objects me r =
    let edge = square_root objects objects in
    if not (edge * edge == objects)
    then some (0, r)
    else if objects == 1
    then some (me, r)
    else elim (square_walk rounds edge (me % edge) (me / edge) r) [
      | none ↦ none
      | some (n, r') ↦ some (linear edge n, r')
    ]

-- `FindReceiver`. The rounds bound the loops of the maps; a wrong code prints a message and returns a
-- variable that was never written, here the first argument.
unfoldable pub find_receiver : ℕ → ℕ → ℕ → ℕ → Topology → Seeds → Option (ℕ × Seeds)
find_receiver unwritten rounds objects me hexagon r = hexagon_receiver rounds objects me r
find_receiver unwritten rounds objects me square r = square_receiver rounds objects me r
find_receiver unwritten rounds objects me mesh r = some (scaled objects (random r).0, (random r).1)
find_receiver unwritten rounds objects me star r =
    if me == 0 then some (scaled objects (random r).0, (random r).1) else some (0, r)
find_receiver unwritten rounds objects me ring r = some (if me + 1 == objects then 0 else me + 1, r)
find_receiver unwritten rounds objects me bidring r =
    let drawn = random r in
    let receiver =
      if below_half drawn.0 then (if me == 0 then objects - 1 else me - 1) else me + 1 in
    some (if receiver == objects then 0 else receiver, drawn.1)
find_receiver unwritten rounds objects me other r = some (unwritten, r)
