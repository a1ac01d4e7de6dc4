-- ===== src/Extract/Machine.antt =====
-- queue/queue.c, `queue_extract`: the labels put together.
use congenial_octo_telegram.Base.{ℕ, Option, none, some, Bool, ltb, if◌then◌else◌}
use congenial_octo_telegram.Event.{Config}
use congenial_octo_telegram.World.{World, with_shared}
use congenial_octo_telegram.Queue.{fallback_check, update_timing}
use congenial_octo_telegram.Speculation.{get_from_stack}
use congenial_octo_telegram.Flush.{retractable_flush_another, speculation_flush_another}
use congenial_octo_telegram.Extract.{
  Placement, Label, entry, start, redo, lookup, exhausted, check, barrier_flush, retractable_flush,
  speculation_flush, barrier_timing, barrier_index, barrier_start, Next, goto, returns, claim,
  acquire, look, take_event,
}

-- What the state `target` of a label falls on, for a target that is there.
abbrev with_target : (ℕ → Option Next) → World → Option Next
with_target f w = elim w.target [ none ↦ some (goto start w) | some object ↦ f object ]

unfoldable pub at_start : Config → Placement → World → Next
at_start c p w = elim w.target [
  | none ↦ elim (claim c p w).target [
    | none ↦ goto start (claim c p w)
    | some object ↦ goto redo (claim c p w)
  ]
  | some object ↦ goto redo w
]

unfoldable pub at_redo : Config → World → Option Next
at_redo c w =
    if w.finished
    then some (returns none w)
    else with_target
        (λ object. if ltb object c.objects then acquire c object w else some (goto exhausted w)) w

-- `my_index = current_index` and the lines after it.
unfoldable pub begin_epoch : Config → World → World
begin_epoch c w = fallback_check c (record w {
  thread = record w.thread {
    my_index = w.current_index;
    target = none;
    my_numa_index = w.thread.my_numa_node;
    steal_numa_index = 0;
  };
})

-- One step of one worker; `leader` is what `barrier()` returns to it.
unfoldable pub step : Config → Placement → Bool → Label → World → Option Next
step c p leader entry w = elim w.target [
  | none ↦ some (goto start (get_from_stack w).1)
  | some object ↦ some (goto start w)
]
step c p leader start w = some (at_start c p w)
step c p leader redo w = at_redo c w
step c p leader lookup w = with_target (λ object. some (look c p object w)) w
step c p leader check w = with_target (λ object. take_event c object w) w
step c p leader exhausted w =
    let (found, popped) = get_from_stack w in
    some (if found then goto redo popped else goto barrier_flush w)
step c p leader barrier_flush w = some (goto retractable_flush w)
step c p leader retractable_flush w =
    let (more, w₁) = retractable_flush_another c w in
    some (goto (if more then retractable_flush else speculation_flush) w₁)
step c p leader speculation_flush w =
    let (more, w₁) = speculation_flush_another c w in
    some (goto (if more then speculation_flush else barrier_timing) w₁)
step c p leader barrier_timing w =
    some (goto barrier_index (if leader then with_shared (update_timing c w.shared) w else w))
step c p leader barrier_index w = some (goto barrier_start (begin_epoch c w))
step c p leader barrier_start w = some (goto start w)
