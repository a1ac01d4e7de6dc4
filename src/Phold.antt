-- ===== src/Phold.antt =====
-- models/phold/application.c: ProcessEvent of the synthetic benchmark, over two stacks of chunks. A chunk is
-- the list of its 8-byte words, less the first, which is the link to the next chunk.
pub mod Chunks
pub mod Handlers
pub mod Network
use congenial_octo_telegram.Base.{
  ℕ, zero, suc, ◌+◌, ◌*◌, ◌/◌, List, [], ◌∷◌, map, Option, none, some, Bool, not, ◌&&◌,
  if◌then◌else◌, ◌>>=◌,
}
use congenial_octo_telegram.Random.{Seeds, random, scaled}
use congenial_octo_telegram.Random.Doubles.{Doubles, expent}
use congenial_octo_telegram.Topology.{inc}

abbrev pub Words : Type 0
Words = List ℕ

-- `add1` and `add2`, of the chunk that malloc gave.
abbrev pub add : List Words → Words → List Words
add head buff = buff ∷ head

-- `dell1` and `dell2`
abbrev pub dell : List Words → List Words
dell [] = []
dell (chunk ∷ rest) = rest

-- FILL_VALUE, in every word but the link.
abbrev pub fill : Words → Words
fill chunk = map (λ word. 42) chunk

-- `update1` and `update2`, by the rounds left. A round goes on from the link of the next chunk, not from
-- that of the chunk it filled; where there is no next chunk the pointer is NULL, and the test of
-- the loop follows it, `none`.
unfoldable pub update_chunks : ℕ → List Words → Option (List Words)
update_chunks rounds [] = some []
update_chunks zero (chunk ∷ rest) = some (chunk ∷ rest)
update_chunks (suc rounds) (chunk ∷ []) = none
update_chunks (suc rounds) (chunk ∷ next ∷ rest) = elim (update_chunks rounds rest) [
  | none ↦ none
  | some others ↦ some (fill chunk ∷ next ∷ others)
]

-- `read1` and `read2` walk as the updates do, and keep nothing of what they read.
unfoldable pub read_chunks : ℕ → List Words → Option (List Words)
read_chunks rounds [] = some []
read_chunks zero (chunk ∷ rest) = some (chunk ∷ rest)
read_chunks (suc rounds) (chunk ∷ []) = none
read_chunks (suc rounds) (chunk ∷ next ∷ rest) = elim (read_chunks rounds rest) [
  | none ↦ none
  | some others ↦ some (chunk ∷ next ∷ others)
]

-- The loops over REALLOCATION and CHUNKS_IN_LIST.
unfoldable pub dell_chunks : ℕ → List Words → List Words
dell_chunks zero p = p
dell_chunks (suc left) p = dell_chunks left (dell p)

unfoldable pub add_chunks : ℕ → Words → List Words → List Words
add_chunks zero buff p = p
add_chunks (suc left) buff p = add_chunks left buff (add p buff)

pub data PholdEvent : Type 0 where
  init normal other : PholdEvent

pub record PholdState : Type 0 where
  pub event_count : ℕ
  pub seeds : Seeds
  pub p1 : List Words
  pub p2 : List Words

-- The arguments of a call of ScheduleNewEvent; the content is always NULL.
pub record PholdMessage (Double : Type 0) : Type 0 where
  pub receiver : ℕ
  pub timestamp : Double
  pub event_type : PholdEvent

-- OBJECTS, M, CHUNKS_IN_LIST, LOOKAHEAD, and whether SPECULATION is defined.
pub record PholdBuild (Double : Type 0) : Type 0 where
  pub objects : ℕ
  pub events : ℕ
  pub chunks_in_list : ℕ
  pub lookahead : Double
  pub speculation : Bool

-- `fresh1` and `fresh2` are what malloc leaves in the words of a chunk.
module _ (d : Doubles) (b : PholdBuild d.Double) (fresh1 fresh2 : Words) (me : ℕ)
    (now : d.Double) where
  -- REALLOCATION, P and TA
  abbrev pub reallocation : ℕ
  reallocation = b.chunks_in_list / 1000

  abbrev pub updates : ℕ
  updates = b.chunks_in_list / 32

  abbrev pub mean : d.Double
  mean = d.mul b.lookahead (d.of_nat 1)

  -- The time of the next event, for a draw of `x`: without SPECULATION it is drawn again if it is too
  -- early.
  abbrev pub settled_time : d.Double → Seeds → Option (d.Double × Seeds)
  settled_time x r1 =
      let early = d.less_equal (d.add now x) (d.add now b.lookahead) in
      if not b.speculation && early
      then (elim (expent d mean r1) [
        | none ↦ none
        | some (y, r2) ↦ some (d.add (d.add now b.lookahead) y, r2)
      ])
      else some (d.add now x, r1)

  unfoldable pub next_time : Seeds → Option (d.Double × Seeds)
  next_time r = do (x, r1) ← expent d mean r; settled_time x r1

  -- NORMAL
  unfoldable pub normal_event : PholdState → Option (PholdState × List (PholdMessage d.Double))
  unfolding next_time
  normal_event state = do
    (timestamp, r1) ← next_time state.seeds
    let drawn = random r1
    p1 ← update_chunks updates (add_chunks reallocation fresh1 (dell_chunks reallocation state.p1))
    p2 ← update_chunks updates (add_chunks reallocation fresh2 (dell_chunks reallocation state.p2))
    some (
      record { event_count = state.event_count + 1; seeds = drawn.1; p1 = p1; p2 = p2 },
      record { receiver = scaled b.objects drawn.0; timestamp = timestamp; event_type = normal }
          ∷ [],
    )

  -- The events that INIT starts, by the events left.
  unfoldable pub initial_events : ℕ → Seeds → Option (Seeds × List (PholdMessage d.Double))
  initial_events zero r = some (r, [])
  initial_events (suc left) r = elim (expent d mean r) [
    | none ↦ none
    | some (x, r1) ↦ elim (initial_events left r1) [
      | none ↦ none
      | some (r2, rest) ↦
          let event : PholdMessage d.Double = record {
            receiver = me;
            timestamp = d.mul (d.decimal 1 2) x;
            event_type = normal;
          } in
          some (r2, event ∷ rest)
    ]
  ]

  -- INIT
  unfoldable pub init_event : Option (PholdState × List (PholdMessage d.Double))
  unfolding initial_events
  init_event = do
    (r, sent) ← initial_events b.events (record { seed1 = inc me; seed2 = 0 })
    some (
      record {
        event_count = 0;
        seeds = r;
        p1 = add_chunks b.chunks_in_list fresh1 [];
        p2 = add_chunks b.chunks_in_list fresh2 [];
      },
      sent,
    )

  -- `ProcessEvent`; `none` is a call of exit, or a fault.
  unfoldable pub process_phold :
      PholdEvent → PholdState → Option (PholdState × List (PholdMessage d.Double))
  unfolding normal_event init_event
  process_phold init state = init_event
  process_phold normal state = normal_event state
  process_phold other state = none
