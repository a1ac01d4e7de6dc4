-- ===== src/Engine/Tables.antt =====
-- engine/engine.c: the tables by which queue_extract shares the objects of a node out.
use mathlib.Core.Path.{subst}
use native.Mathlib.Nat.{suc-mul, zero-mul}
use native.Mathlib.Decide.{ℕ_discrete}
use congenial_octo_telegram.Base.{
  ◌⊎◌, ◌∙◌, true, false, ℕ, zero, suc, ◌+◌, ◌-◌, ◌*◌, ◌≤◌, ◌<◌, ◌≡◌, ◌≢◌, ◌==◌, refl, ap, arith,
  ltb, leb, if◌then◌else◌, inl, inr, Bool-cases, update, update_self,
}
use congenial_octo_telegram.Engine.{
  StartupInfo, share, startup_info, Nodes, place, place_all, no_objects,
}
use congenial_octo_telegram.Engine.Ranges.{share-enough, share-pos}

-- The nodes cut the first `covered` objects into ranges, one after another.
pub record Cut (covered : ℕ) (t : Nodes) : Type 0 where
  pub starts : t.first 0 ≡ 0
  pub linked : (n : ℕ) → n < t.node → t.first n + t.counter n ≡ t.first (n + 1)
  pub reached : t.first t.node + t.counter t.node ≡ covered
  pub unused : (n : ℕ) → t.node < n → t.counter n ≡ 0

-- The objects of one more worker, on the node in use.
abbrev add_objects : ℕ → Nodes → Nodes
add_objects size t = record t { counter = update t.counter t.node (t.counter t.node + size) }

counted-Cut :
    (covered size : ℕ) (t : Nodes) → Cut covered t → Cut (covered + size) (add_objects size t)
counted-Cut covered size t cut = record {
  starts = cut.starts;
  linked = λ n h. ground (arith, cut.linked n h);
  reached =
      rw (update_self t.counter t.node (t.counter t.node + size)) (omega (arith, cut.reached));
  unused = λ n h. ground (arith, cut.unused n h);
}

-- The next node begins where the last one ends.
next-Cut :
    (covered : ℕ) (t : Nodes)
    → Cut covered t
    → Cut covered (record t { node = t.node + 1; first = update t.first (t.node + 1) covered })
next-Cut covered t cut = record {
  starts = ground (arith, cut.starts);
  linked = λ n h. elim (ℕ_discrete n t.node) [
    | yes last ↦ ground (arith, cut.reached, ap t.first last, ap t.counter last)
    | no before ↦ ground (arith, cut.linked n (omega (arith, h, before)))
  ];
  reached =
      rw (update_self t.first (t.node + 1) covered)
        (omega (arith, cut.unused (t.node + 1) (omega arith)));
  unused = λ n h. cut.unused n (omega (arith, h));
}

place-Cut :
    (node_of : ℕ → ℕ) (nodes covered : ℕ) (info : StartupInfo) (t : Nodes)
    → nodes ≢ 1
    → info.min_id ≡ covered
    → info.min_id ≤ info.max_id
    → Cut covered t
    → Cut (info.max_id + 1) (place node_of nodes info t)
unfolding place
place-Cut node_of nodes covered info t several start some_objects cut =
    let end : covered + (info.max_id - info.min_id + 1) ≡ info.max_id + 1 =
      omega (arith, start, some_objects) in
    let counted : Cut (info.max_id + 1) (add_objects (info.max_id - info.min_id + 1) t) =
      subst (λ k. Cut k (add_objects (info.max_id - info.min_id + 1) t)) end
        (counted-Cut covered (info.max_id - info.min_id + 1) t cut) in
    rw
      (
        let guard : (nodes == 1) ≡ false = ground (arith, several) in guard,
        let some : leb info.min_id info.max_id ≡ true = ground arith in some,
      )
      (elim (Bool-cases (ltb t.node (node_of info.max_id))) [
        | inl full ↦
            rw full
              (next-Cut (info.max_id + 1) (add_objects (info.max_id - info.min_id + 1) t) counted)
        | inr room ↦ rw room counted
      ])

abbrev capped : ℕ → ℕ → ℕ
capped objects n = if leb objects n then objects else n

-- The objects of one more worker, or none if all are given away.
worker-Cut :
    (objects threads : ℕ) (node_of : ℕ → ℕ) (nodes current_min : ℕ) (t : Nodes)
    → nodes ≢ 1
    → 0 < threads
    → 0 < objects
    → Cut (capped objects current_min) t
    → Cut
        (capped objects (current_min + share objects threads))
        (place node_of nodes (startup_info objects threads current_min) t)
unfolding place
worker-Cut objects threads node_of nodes current_min t several some_threads some_objects cut =
    elim (Bool-cases (ltb current_min objects)) [
      | inl more ↦
          let size = share-pos objects threads some_threads some_objects in
          let inside : info.min_id ≤ info.max_id = ground arith in
          let end : info.max_id + 1 ≡ capped objects (current_min + share objects threads) =
            ground arith in
          let before : capped objects current_min ≡ current_min = ground arith in
          subst (λ k. Cut k (place node_of nodes info t)) end
            (place-Cut node_of nodes current_min info t several refl inside
              (subst (λ k. Cut k t) before cut))
      | inr over ↦
          let empty : leb info.min_id info.max_id ≡ false = ground arith in
          let same : capped objects current_min
              ≡ capped objects (current_min + share objects threads) =
            ground arith in
          rw (let guard : (nodes == 1) ≡ false = ground (arith, several) in guard, empty)
            (subst (λ k. Cut k t) same cut)
    ]
  where
    info : StartupInfo
    info = startup_info objects threads current_min

place_all-Cut :
    (left objects threads : ℕ) (node_of : ℕ → ℕ) (nodes current_min : ℕ) (t : Nodes)
    → nodes ≢ 1
    → 0 < threads
    → 0 < objects
    → Cut (capped objects current_min) t
    → Cut
        (capped objects (current_min + left * share objects threads))
        (place_all left objects threads node_of nodes current_min t)
unfolding place_all
place_all-Cut zero objects threads node_of nodes current_min t several some_threads some_objects
      cut =
    subst (λ k. Cut (capped objects k) t) (omega (arith, zero-mul (share objects threads))) cut
place_all-Cut (suc left) objects threads node_of nodes current_min t several some_threads
      some_objects cut =
    subst
      (λ k.
        Cut (capped objects k) (place_all (suc left) objects threads node_of nodes current_min t))
      (omega (arith, suc-mul left (share objects threads)))
      (place_all-Cut left objects threads node_of nodes (current_min + share objects threads) _
        several some_threads some_objects
        (worker-Cut objects threads node_of nodes current_min t several some_threads some_objects
          cut))

-- With one node of memory the loop leaves the tables as they are.
place_all-one_node :
    (left objects threads : ℕ) (node_of : ℕ → ℕ) (current_min : ℕ) (t : Nodes)
    → place_all left objects threads node_of 1 current_min t ≡ t
unfolding place_all place
place_all-one_node zero objects threads node_of current_min t = refl
place_all-one_node (suc left) objects threads node_of current_min t =
    place_all-one_node left objects threads node_of (current_min + share objects threads) t

-- For at least one object and one worker, and any rule by which the loop goes on to the next node:
-- after the loop over the workers the tables are as before it if there is one node of memory; if
-- not, they cut the objects, from object 0 to the last, into ranges one after another: each node in
-- use begins where the one before it ends, the last one ends with the last object, and a node
-- behind it has no object.
pub place_all-no_objects :
    (objects threads : ℕ) (node_of : ℕ → ℕ) (nodes : ℕ)
    → 0 < threads
    → 0 < objects
    → let t = place_all threads objects threads node_of nodes 0 no_objects in
      ((nodes ≡ 1) × (t ≡ no_objects)) ⊎ ((nodes ≢ 1) × Cut objects t)
place_all-no_objects objects threads node_of nodes some_threads some_objects =
    elim (ℕ_discrete nodes 1) [
      | yes one ↦ inl (
        one,
        ap (λ n. place_all threads objects threads node_of n 0 no_objects) one
            ∙ place_all-one_node threads objects threads node_of 0 no_objects,
      )
      | no several ↦ inr (
        several,
        subst (λ k. Cut k (place_all threads objects threads node_of nodes 0 no_objects))
            (let enough = share-enough objects threads some_threads in ground arith)
            (place_all-Cut threads objects threads node_of nodes 0 no_objects several some_threads
              some_objects
              (record {
                starts = refl;
                linked = λ n h. absurd (omega arith);
                reached = ground arith;
                unused = λ n h. refl;
              })),
      )
    ]
