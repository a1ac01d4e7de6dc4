-- ===== src/Pcs/Channels.antt =====
-- models/pcs/application.c and application.h: the bitmap and the list of the busy channels of a cell.
use congenial_octo_telegram.Base.{
  ℕ, zero, suc, ◌+◌, ◌/◌, ◌%◌, List, [], ◌∷◌, Option, none, some, Bool, ◌==◌, if◌then◌else◌, update,
  ◌^◌, ltb,
}
use congenial_octo_telegram.Byte.{test_bit}
use congenial_octo_telegram.Word.{set_word, clear_word}
use congenial_octo_telegram.Random.Doubles.{Doubles}
use congenial_octo_telegram.Pcs.{Channel, LpState}
use congenial_octo_telegram.Pcs.Radio.{new_sir_data}

abbrev pub check_channel : (ℕ → ℕ) → ℕ → Bool
check_channel words i = test_bit (words (i / 32)) (i % 32)

abbrev pub set_channel : (ℕ → ℕ) → ℕ → ℕ → ℕ
set_channel words i = update words (i / 32) (set_word (words (i / 32)) (i % 32))

abbrev pub reset_channel : (ℕ → ℕ) → ℕ → ℕ → ℕ
reset_channel words i = update words (i / 32) (clear_word (words (i / 32)) (i % 32))

-- The loop of `allocation` over the bitmap, by the channels left; `none` is an index of -1.
unfoldable pub find_free : ℕ → ℕ → (ℕ → ℕ) → Option ℕ
find_free zero i words = none
find_free (suc left) i words =
    let rest = find_free left (i + 1) words in if check_channel words i then rest else some i

-- The walk of `deallocation` along `prev`, and the unlinking of the channel it stops at.
unfoldable pub unlink_channel :
    {Double : Type 0} → ℕ → List (Channel Double) → Option (List (Channel Double))
unlink_channel ch [] = none
unlink_channel ch (c ∷ rest) =
    let left = unlink_channel ch rest in
    if c.channel_id == ch
    then some rest
    else elim left [ none ↦ none | some others ↦ some (c ∷ others) ]

-- `deallocation`; `none` is the call of abort.
unfoldable pub deallocation : {Double : Type 0} → ℕ → LpState Double → Option (LpState Double)
deallocation ch state = elim (unlink_channel ch state.channels) [
  | none ↦ none
  | some left ↦
      some (record state { channels = left; channel_state = reset_channel state.channel_state ch })
]

-- How often a loop runs from 0 below an int of the bits `n`: never, if the int is negative.
abbrev pub turns_below : ℕ → ℕ
turns_below n = if ltb n (2 ^ 31) then n else 0

-- `allocation`. `memory` is whether both calls of malloc give memory, which holds `unwritten`; `none` is
-- the exit if one of them does not, the call of abort, or the exit of Expent.
unfoldable pub allocation :
    (d : Doubles) → Bool → d.Double → LpState d.Double → Option (ℕ × LpState d.Double)
allocation d memory unwritten state =
    elim (find_free (turns_below state.channels_per_cell) 0 state.channel_state) [
      | none ↦ none
      | some index ↦
          if memory
          then elim (new_sir_data d unwritten state.channels state.seeds) [
            | none ↦ none
            | some (sir, seeds) ↦ some (
              index,
              record state {
                seeds = seeds;
                channel_state = set_channel state.channel_state index;
                channels = record { channel_id = index; sir_data = sir } ∷ state.channels;
              },
            )
          ]
          else none
    ]
