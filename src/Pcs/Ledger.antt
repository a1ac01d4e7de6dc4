-- ===== src/Pcs/Ledger.antt =====
-- models/pcs/application.c: the bitmap, the list and the counter of a cell in step.
use mathlib.Core.Path.{subst}
use native.Mathlib.Decide.{ℕ_discrete}
use congenial_octo_telegram.Base.{
  ℕ, suc, ◌+◌, ◌^◌, ◌≤◌, ◌<◌, ◌≡◌, ◌≢◌, inl, inr, refl, ap, ◌∙◌, List, [], ◌∷◌, map, none, some,
  true, false, ◌||◌, ltb, ◌==◌, if◌then◌else◌, arith, Bool-cases, length, if_true, if_false,
}
use congenial_octo_telegram.Random.{Seeds}
use congenial_octo_telegram.Random.Doubles.{Doubles, IsOrderly, expent-some}
use congenial_octo_telegram.Pcs.{SirData, Channel, LpState}
use congenial_octo_telegram.Pcs.Radio.{interference, new_sir_data, generate_path_gain, clamp}
use congenial_octo_telegram.Pcs.Channels.{check_channel, set_channel, reset_channel, unlink_channel}
use congenial_octo_telegram.Pcs.Bitmap.{
  AreWords, set_channel-AreWords, reset_channel-AreWords, check_channel-set_channel,
  check_channel-reset_channel, bit, count_where, count_where_more,
}

-- How often a number stands in a list.
abbrev pub occurrences : ℕ → List ℕ → ℕ
occurrences i [] = 0
occurrences i (x ∷ xs) = bit (x == i) + occurrences i xs

abbrev pub busy_ids : {Double : Type 0} → List (Channel Double) → List ℕ
busy_ids channels = map (λ c. c.channel_id) channels

-- The list holds the channels whose bits are set, each once.
pub record IsListed {Double : Type 0} (n : ℕ) (words : ℕ → ℕ) (channels : List (Channel Double))
    : Type 0 where
  pub are_words : AreWords words
  pub listed : (i : ℕ) → i < n → occurrences i (busy_ids channels) ≡ bit (check_channel words i)
  pub inside : (i : ℕ) → n ≤ i → occurrences i (busy_ids channels) ≡ 0
  pub busy : count_where n (check_channel words) ≡ length channels

-- A cell that keeps its books: the counter is the number of the free channels.
pub record IsCell {Double : Type 0} (state : LpState Double) : Type 0 where
  pub channels : IsListed state.channels_per_cell state.channel_state state.channels
  pub counted : state.channel_counter + length state.channels ≡ state.channels_per_cell
  pub small : state.channels_per_cell < 2 ^ 31

pub new_sir_data-some :
    (d : Doubles) (unwritten : d.Double) (others : List (Channel d.Double)) (r : Seeds)
    → IsOrderly d
    → (x : SirData d.Double × Seeds) × (new_sir_data d unwritten others r ≡ some x)
unfolding new_sir_data
new_sir_data-some d unwritten others r ok =
    let s = interference d others (d.of_nat 0) r in
    elim (Bool-cases (d.equal s.0 (d.of_nat 0))) [
      | inl quiet ↦ (_, if_true _ _ quiet)
      | inr loud ↦
          let (x, drawn) = expent-some d (d.of_nat 1) s.1 (ok.unsigned 1) in
          (
            (
              record {
                fading = x.0;
                power =
                    clamp d
                      (d.div (d.mul (d.of_nat 10) s.0) (d.mul (generate_path_gain d x.1).0 x.0));
              },
              (generate_path_gain d x.1).1,
            ),
            if_false _ _ loud ∙ rw drawn refl,
          )
    ]

module _ {Double : Type 0} where
  pub new_channel-IsListed :
      (n k : ℕ) (words : ℕ → ℕ) (sir : SirData Double) (channels : List (Channel Double))
      → k < n
      → check_channel words k ≡ false
      → IsListed n words channels
      → IsListed n (set_channel words k) (record { channel_id = k; sir_data = sir } ∷ channels)
  new_channel-IsListed n k words sir channels lt free v = record {
    are_words = set_channel-AreWords words k v.are_words;
    listed = λ i h. elim (ℕ_discrete k i) [
      | yes same ↦
          let here : (k == i) ≡ true = ground arith in
          let old : check_channel words i ≡ false =
            subst (λ j. check_channel words j ≡ false) same free in
          let new =
            check_channel-set_channel words k i ∙ ap (λ b. b || check_channel words i) here in
          omega (arith, ap bit here, ap bit new, ap bit old, v.listed i h)
      | no other ↦
          let there : (k == i) ≡ false = ground (arith, other) in
          let new =
            check_channel-set_channel words k i ∙ ap (λ b. b || check_channel words i) there in
          omega (arith, ap bit there, ap bit new, v.listed i h)
    ];
    inside = λ i h.
        let there : (k == i) ≡ false = ground arith in omega (arith, ap bit there, v.inside i h);
    busy =
        let here : ltb k n ≡ true = ground arith in
        omega (
          arith,
          v.busy,
          ap bit here,
          count_where_more n k (check_channel words) (check_channel (set_channel words k)) free
              (check_channel-set_channel words k),
        );
  }

  -- The walk over the list: it takes the channel out, once.
  pub record Unlinked (ch : ℕ) (channels left : List (Channel Double)) : Type 0 where
    pub others :
        (i : ℕ) → occurrences i (busy_ids channels) ≡ bit (ch == i) + occurrences i (busy_ids left)
    pub shorter : length channels ≡ suc (length left)

  pub unlink_channel-Unlinked :
      (ch : ℕ) (channels : List (Channel Double))
      → occurrences ch (busy_ids channels) ≢ 0
      → (left : List (Channel Double)) × (unlink_channel ch channels ≡ some left)
        × Unlinked ch channels left
  unfolding unlink_channel
  unlink_channel-Unlinked ch [] h = absurd (h refl)
  unlink_channel-Unlinked ch (c ∷ rest) h = elim (Bool-cases (c.channel_id == ch)) [
    | inl here ↦
        let same : c.channel_id ≡ ch = ground (arith, here) in
        (
          rest,
          if_true _ _ here,
          record {
            others = λ i. ap (λ k. bit (k == i) + occurrences i (busy_ids rest)) same;
            shorter = refl;
          },
        )
    | inr there ↦
        let (left, ran, v) =
          unlink_channel-Unlinked ch rest (λ e. h (omega (arith, ap bit there, e))) in
        (
          c ∷ left,
          if_false _ _ there ∙ rw ran refl,
          record { others = λ i. omega (arith, v.others i); shorter = omega (arith, v.shorter) },
        )
  ]

  pub unlink_channel-none :
      (ch : ℕ) (channels : List (Channel Double))
      → occurrences ch (busy_ids channels) ≡ 0
      → unlink_channel ch channels ≡ none
  unfolding unlink_channel
  unlink_channel-none ch [] h = refl
  unlink_channel-none ch (c ∷ rest) h = elim (Bool-cases (c.channel_id == ch)) [
    | inl here ↦ absurd (omega (arith, ap bit here, h))
    | inr there ↦ rw (there, unlink_channel-none ch rest (omega (arith, h))) refl
  ]

  pub occurs_inside :
      (n ch : ℕ) (words : ℕ → ℕ) (channels : List (Channel Double))
      → IsListed n words channels
      → occurrences ch (busy_ids channels) ≢ 0
      → (ch < n) × (check_channel words ch ≡ true)
  occurs_inside n ch words channels v h = elim (Bool-cases (ltb ch n)) [
    | inr out ↦ absurd (h (v.inside ch (ground arith)))
    | inl inside ↦
        let lt : ch < n = ground arith in
        (
          lt,
          elim (Bool-cases (check_channel words ch)) [
            | inl set_ ↦ set_
            | inr clear_ ↦ absurd (h (omega (arith, v.listed ch lt, ap bit clear_)))
          ],
        )
  ]

  pub old_channel-IsListed :
      (n ch : ℕ) (words : ℕ → ℕ) (channels left : List (Channel Double))
      → ch < n
      → check_channel words ch ≡ true
      → Unlinked ch channels left
      → IsListed n words channels
      → IsListed n (reset_channel words ch) left
  old_channel-IsListed n ch words channels left lt held gone v = record {
    are_words = reset_channel-AreWords words ch v.are_words;
    listed = λ i h. elim (ℕ_discrete ch i) [
      | yes same ↦
          let here : (ch == i) ≡ true = ground arith in
          let old : check_channel words i ≡ true =
            subst (λ j. check_channel words j ≡ true) same held in
          omega (
            arith,
            ap bit here,
            ap bit (after i ∙ ap (λ b. if b then false else check_channel words i) here),
            ap bit old,
            v.listed i h,
            gone.others i,
          )
      | no other ↦
          let there : (ch == i) ≡ false = ground (arith, other) in
          omega (
            arith,
            ap bit there,
            ap bit (after i ∙ ap (λ b. if b then false else check_channel words i) there),
            v.listed i h,
            gone.others i,
          )
    ];
    inside = λ i h. omega (arith, v.inside i h, gone.others i);
    busy =
        let here : ltb ch n ≡ true = ground arith in
        let now : (ch == ch) ≡ true = ground arith in
        omega (
          arith,
          v.busy,
          gone.shorter,
          ap bit here,
          count_where_more n ch (check_channel (reset_channel words ch)) (check_channel words)
              (after ch ∙ ap (λ b. if b then false else check_channel words ch) now) before,
        );
  }
    where
      after :
          (i : ℕ)
          → check_channel (reset_channel words ch) i
            ≡ (if ch == i then false else check_channel words i)
      after i = check_channel-reset_channel words ch i v.are_words

      before :
          (i : ℕ) → check_channel words i ≡ (ch == i || check_channel (reset_channel words ch) i)
      before i = elim (ℕ_discrete ch i) [
        | yes same ↦
            let here : (ch == i) ≡ true = ground arith in
            rw here (subst (λ j. check_channel words j ≡ true) same held)
        | no other ↦
            let there : (ch == i) ≡ false = ground (arith, other) in
            rw (there, after i ∙ ap (λ b. if b then false else check_channel words i) there) refl
      ]
