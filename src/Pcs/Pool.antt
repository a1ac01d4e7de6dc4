-- ===== src/Pcs/Pool.antt =====
-- models/pcs/application.c: `allocation` and `deallocation` against a set of busy channels, which knows
-- nothing of a bitmap, a list or a counter.
use mathlib.Core.Path.{fun_ext, subst}
use mathlib.Core.Option
use native.Mathlib.Decide.{ℕ_discrete}
use congenial_octo_telegram.Base.{
  ℕ, zero, suc, ◌<◌, ◌≡◌, ◌≢◌, inl, inr, refl, sym, ap, ◌∙◌, Option, none, some, Bool, true, false,
  ◌&&◌, ◌||◌, ◌==◌, ltb, if◌then◌else◌, arith, Bool-cases, update, if_true, if_false,
}
use congenial_octo_telegram.Random.Doubles.{Doubles, IsOrderly}
use congenial_octo_telegram.Pcs.{LpState}
use congenial_octo_telegram.Pcs.Channels.{check_channel, allocation, deallocation}
use congenial_octo_telegram.Pcs.Bitmap.{bit, check_channel-set_channel, check_channel-reset_channel}
use congenial_octo_telegram.Pcs.Ledger.{IsCell, occurrences, busy_ids}
use congenial_octo_telegram.Pcs.Allocation.{
  allocation-IsCell, allocation-none, deallocation-IsCell, one_less, one_more, with_channel,
}

abbrev pub BusySet : Type 0
BusySet = ℕ → Bool

-- The least number below a bound that is not in the set.
pub least_free : ℕ → BusySet → Option ℕ
least_free zero s = none
least_free (suc n) s = elim (least_free n s) [
  | none ↦ if s n then none else some n
  | some k ↦ some k
]

-- A number leaves the set, if it is in it.
abbrev pub leave : ℕ → ℕ → BusySet → Option BusySet
leave n ch s = if ltb ch n && s ch then some (update s ch false) else none

-- What the bitmap of a cell stands for.
abbrev pub busy_set : {Double : Type 0} → LpState Double → BusySet
busy_set state i = check_channel state.channel_state i

least_free-first :
    (n k : ℕ) (s : BusySet)
    → k < n
    → s k ≡ false
    → ((j : ℕ) → j < k → s j ≡ true)
    → least_free n s ≡ some k
unfolding least_free
least_free-first zero k s lt free before = absurd (omega arith)
least_free-first (suc n) k s lt free before = elim (ℕ_discrete k n) [
  | yes last ↦
      rw
        (none_below n s (λ j h. before j (omega (arith, last))), subst (λ j. s j ≡ false) last free)
        (ap some (sym last))
  | no less ↦ rw (least_free-first n k s (omega (arith, less)) free before) refl
]
  where
    none_below : (n : ℕ) (s : BusySet) → ((j : ℕ) → j < n → s j ≡ true) → least_free n s ≡ none
    none_below zero s h = refl
    none_below (suc n) s h = rw (none_below n s (λ j lt. h j (omega arith)), h n (omega arith)) refl

-- If the arithmetic of the doubles is orderly and the bitmap, the list and the counter of a cell of
-- fewer than 2^31 channels agree, the channel operations, with the change of the counter that goes
-- with each, are those of the set of its busy channels. While the counter is not 0, `allocation`
-- ends with the least channel that is not in the set, and adds it, and the three agree again, if
-- malloc gives both pieces of memory, and ends the program if not; `deallocation` takes a channel
-- of the set out of it, and aborts for a channel that is not in it.
pub pool_refines :
    (d : Doubles) (unwritten : d.Double) (ch : ℕ) (state : LpState d.Double)
    → IsOrderly d
    → IsCell state
    → (state.channel_counter ≢ 0
        → (k : ℕ) × (after : LpState d.Double) × (allocation d true unwritten (one_less state)
            ≡ some (k, after))
          × IsCell after
          × (least_free state.channels_per_cell (busy_set state) ≡ some k)
          × (busy_set after ≡ update (busy_set state) k true))
      × (allocation d false unwritten (one_less state) ≡ none)
      × (Option.map busy_set (deallocation ch (one_more state))
          ≡ leave state.channels_per_cell ch (busy_set state))
pool_refines d unwritten ch state ok v = (
  λ some_free.
      let (k, sir, seeds, taken, cell, lt, free, first) =
        allocation-IsCell d unwritten state ok v some_free in
      (
        k,
        with_channel k sir seeds (one_less state),
        taken,
        cell,
        least_free-first state.channels_per_cell k (busy_set state) lt free first,
        fun_ext λ i.
            check_channel-set_channel state.channel_state k i ∙ added (k == i) (busy_set state i),
      ),
  allocation-none d unwritten (one_less state),
  elim (Bool-cases (ltb ch state.channels_per_cell && busy_set state ch)) [
    | inl busy ↦
        let (lt, held) = both (ltb ch state.channels_per_cell) (busy_set state ch) busy in
        let (left, ran, cell, others) =
          (deallocation-IsCell ch state v).0
            (λ e. omega (arith, v.channels.listed ch (ground arith), ap bit held, e)) in
        ap (Option.map busy_set) ran
        ∙ ap some
            (fun_ext λ i. check_channel-reset_channel state.channel_state ch i v.channels.are_words)
        ∙ sym (if_true _ _ busy)
    | inr idle ↦
        ap (Option.map busy_set) ((deallocation-IsCell ch state v).1 (not_listed idle))
        ∙ sym (if_false _ _ idle)
  ],
)
  where
    added : (e b : Bool) → (e || b) ≡ (if e then true else b)
    added true b = refl
    added false b = refl

    both : (a b : Bool) → (a && b) ≡ true → (a ≡ true) × (b ≡ true)
    both a b h = ground arith

    not_listed :
        (ltb ch state.channels_per_cell && busy_set state ch) ≡ false
        → occurrences ch (busy_ids state.channels) ≡ 0
    not_listed idle = elim (Bool-cases (ltb ch state.channels_per_cell)) [
      | inr out ↦ v.channels.inside ch (ground arith)
      | inl inside ↦
          let clear_ : busy_set state ch ≡ false = ground (arith, idle, inside) in
          v.channels.listed ch (ground arith) ∙ ap bit clear_
    ]
