-- ===== src/Pcs/Allocation.antt =====
-- models/pcs/application.c: `allocation` and `deallocation`, with the change of the counter that goes with each.
use congenial_octo_telegram.Base.{
  ℕ, ◌+◌, ◌-◌, ◌<◌, ◌≡◌, ◌≢◌, refl, List, ◌∷◌, Option, none, some, true, false, ◌==◌, arith, inl,
  inr, Option-cases,
}
use congenial_octo_telegram.Random.{Seeds}
use congenial_octo_telegram.Topology.{inc}
use congenial_octo_telegram.Random.Doubles.{Doubles, IsOrderly}
use congenial_octo_telegram.Pcs.{SirData, Channel, LpState}
use congenial_octo_telegram.Pcs.Radio.{new_sir_data}
use congenial_octo_telegram.Pcs.Channels.{
  check_channel, set_channel, reset_channel, find_free, turns_below, unlink_channel, allocation,
  deallocation,
}
use congenial_octo_telegram.Pcs.Bitmap.{bit, count_where, find_free_lem}
use congenial_octo_telegram.Pcs.Ledger.{
  occurrences, busy_ids, IsCell, new_sir_data-some, new_channel-IsListed, unlink_channel-Unlinked,
  unlink_channel-none, occurs_inside, old_channel-IsListed,
}

-- The state of a cell after `allocation` of the channel `k`.
abbrev pub with_channel :
    {Double : Type 0} → ℕ → SirData Double → Seeds → LpState Double → LpState Double
with_channel k sir seeds state = record state {
  seeds = seeds;
  channel_state = set_channel state.channel_state k;
  channels = record { channel_id = k; sir_data = sir } ∷ state.channels;
}

-- The state of a cell, one call of the code further on its way into a channel.
abbrev pub one_less : {Double : Type 0} → LpState Double → LpState Double
one_less state = record state { channel_counter = state.channel_counter - 1 }

allocation-some :
    (d : Doubles) (unwritten : d.Double) (state : LpState d.Double) (k : ℕ) (sir : SirData d.Double)
    (seeds : Seeds)
    → find_free (turns_below state.channels_per_cell) 0 state.channel_state ≡ some k
    → new_sir_data d unwritten state.channels state.seeds ≡ some (sir, seeds)
    → allocation d true unwritten state ≡ some (k, with_channel k sir seeds state)
unfolding allocation
allocation-some d unwritten state k sir seeds found given = rw (found, given, allocation) refl

deallocation_lem :
    {Double : Type 0} (ch : ℕ) (state : LpState Double) (r : Option (List (Channel Double)))
    → unlink_channel ch state.channels ≡ r
    → deallocation ch state ≡ (elim r [
      | none ↦ none
      | some left ↦
          some
            (record state { channels = left; channel_state = reset_channel state.channel_state ch })
    ])
unfolding deallocation
deallocation_lem ch state r ran = rw (ran, deallocation) refl

-- Without memory it exits, or aborts before.
pub allocation-none :
    (d : Doubles) (unwritten : d.Double) (state : LpState d.Double)
    → allocation d false unwritten state ≡ none
unfolding allocation
allocation-none d unwritten state =
    elim (Option-cases (find_free (turns_below state.channels_per_cell) 0 state.channel_state)) [
      | inl full ↦ rw (full, allocation) refl
      | inr (k, found) ↦ rw (found, allocation) refl
    ]

-- If a cell keeps its books and its counter is not 0, `allocation`, after the counter was
-- decremented, and where malloc gives memory, ends with the lowest free channel, whatever the memory it gets holds, and the cell
-- keeps its books.
pub allocation-IsCell :
    (d : Doubles) (unwritten : d.Double) (state : LpState d.Double)
    → IsOrderly d
    → IsCell state
    → state.channel_counter ≢ 0
    → (k : ℕ) × (sir : SirData d.Double) × (seeds : Seeds) × (allocation d true unwritten
          (one_less state)
        ≡ some (k, with_channel k sir seeds (one_less state)))
      × IsCell (with_channel k sir seeds (one_less state))
      × (k < state.channels_per_cell)
      × (check_channel state.channel_state k ≡ false)
      × ((j : ℕ) → j < k → check_channel state.channel_state j ≡ true)
allocation-IsCell d unwritten state ok v some_free =
    let few : count_where state.channels_per_cell (check_channel state.channel_state)
        < state.channels_per_cell =
      omega (arith, v.channels.busy, v.counted, some_free) in
    let (k, found, lt, free, first) =
      find_free_lem state.channels_per_cell state.channel_state few in
    let bounded : turns_below state.channels_per_cell ≡ state.channels_per_cell =
      ground (arith, v.small) in
    let ((sir, seeds), given) = new_sir_data-some d unwritten state.channels state.seeds ok in
    (
      k,
      sir,
      seeds,
      allocation-some d unwritten (one_less state) k sir seeds (rw bounded found) given,
      record {
        channels =
            new_channel-IsListed state.channels_per_cell k state.channel_state sir state.channels lt
              free v.channels;
        counted = omega (arith, v.counted, some_free);
        small = v.small;
      },
      lt,
      free,
      first,
    )

-- The state of a cell after `deallocation` of the channel `ch`, which leaves `left`.
abbrev pub without_channel :
    {Double : Type 0} → ℕ → List (Channel Double) → LpState Double → LpState Double
without_channel ch left state = record state {
  channels = left;
  channel_state = reset_channel state.channel_state ch;
}

abbrev pub one_more : {Double : Type 0} → LpState Double → LpState Double
one_more state = record state { channel_counter = inc state.channel_counter }

-- `deallocation` of a channel, after the counter was incremented: of one that the cell has taken it
-- ends, takes the channel out of the list, and the cell keeps its books; of any other it aborts.
pub deallocation-IsCell :
    {Double : Type 0} (ch : ℕ) (state : LpState Double)
    → IsCell state
    → (occurrences ch (busy_ids state.channels) ≢ 0
        → (left : List (Channel Double)) × (deallocation ch (one_more state)
            ≡ some (without_channel ch left (one_more state)))
          × IsCell (without_channel ch left (one_more state))
          × ((i : ℕ)
              → occurrences i (busy_ids state.channels)
                ≡ bit (ch == i) + occurrences i (busy_ids left)))
      × (occurrences ch (busy_ids state.channels) ≡ 0 → deallocation ch (one_more state) ≡ none)
deallocation-IsCell ch state v = (
  λ taken.
      let (left, ran, gone) = unlink_channel-Unlinked ch state.channels taken in
      let (lt, held) =
        occurs_inside state.channels_per_cell ch state.channel_state state.channels v.channels
          taken in
      (
        left,
        deallocation_lem ch (one_more state) (some left) ran,
        record {
          channels =
              old_channel-IsListed state.channels_per_cell ch state.channel_state state.channels
                left lt held gone v.channels;
          counted = omega (arith, v.counted, v.small, gone.shorter);
          small = v.small;
        },
        gone.others,
      ),
  λ free. deallocation_lem ch (one_more state) none (unlink_channel-none ch state.channels free),
)
