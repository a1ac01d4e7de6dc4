-- ===== src/Engine.antt =====
-- engine/engine.c, `main`: which objects each worker sets up, and which node of memory they live on. The
-- quotient of `share` is exact, which that of floats is up to 2^24 objects.
pub mod Ranges
pub mod Tables
use congenial_octo_telegram.Base.{
  ℕ, zero, suc, ◌+◌, ◌-◌, ◌*◌, ◌/◌, ◌%◌, List, [], ◌∷◌, ltb, leb, ◌==◌, if◌then◌else◌, update,
}

-- The part of `startup_info[i]` that says what the worker sets up.
pub record StartupInfo : Type 0 where
  pub min_id : ℕ
  pub max_id : ℕ

-- `(int)ratio + corrector`, for up to 2^24 objects: `ratio` is a float, whose rounding changes neither
-- its integral part nor whether it has a fraction up to there.
abbrev pub share : ℕ → ℕ → ℕ
share objects threads = objects / threads + (if objects % threads == 0 then 0 else 1)

-- `startup_info[i]`, where `current_min` is the number of objects given to workers before.
abbrev pub startup_info : ℕ → ℕ → ℕ → StartupInfo
startup_info objects threads current_min = record {
  min_id = current_min;
  max_id =
      if ltb (objects - 1) (current_min + share objects threads - 1)
      then objects - 1
      else current_min + share objects threads - 1;
}

-- The tables `c` and `min`, and `numaNodeInit`.
pub record Nodes : Type 0 where
  pub node : ℕ
  pub counter : ℕ → ℕ
  pub first : ℕ → ℕ

-- What a worker's objects add to the tables: nothing where there is one node of memory. `node_of` of
-- a number of an object is `(int)((double)maxID / (double)NUMAratio)`, by the processor's floats; it is
-- above the node when its share is used up.
unfoldable pub place : (ℕ → ℕ) → ℕ → StartupInfo → Nodes → Nodes
place node_of nodes info t =
    let counted = record t {
      counter = update t.counter t.node (t.counter t.node + (info.max_id - info.min_id + 1));
    } in
    if nodes == 1
    then t
    else if leb info.min_id info.max_id
    then (if ltb t.node (node_of info.max_id)
        then record counted {
          node = t.node + 1;
          first = update t.first (t.node + 1) (info.max_id + 1);
        }
        else counted)
    else t

-- The loop over the workers, by the number left.
unfoldable pub place_all : ℕ → ℕ → ℕ → (ℕ → ℕ) → ℕ → ℕ → Nodes → Nodes
place_all zero objects threads node_of nodes current_min t = t
place_all (suc left) objects threads node_of nodes current_min t =
    place_all left objects threads node_of nodes (current_min + share objects threads)
      (place node_of nodes (startup_info objects threads current_min) t)

abbrev pub no_objects : Nodes
no_objects = record { node = 0; counter = λ n. 0; first = λ n. 0 }
