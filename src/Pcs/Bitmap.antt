-- ===== src/Pcs/Bitmap.antt =====
-- models/pcs/application.h and application.c: the bitmap of the busy channels, and the search of a free one.
use mathlib.Core.Path.{subst}
use native.Mathlib.Decide.{ℕ_discrete}
use congenial_octo_telegram.Base.{
  ℕ, zero, suc, ◌+◌, ◌/◌, ◌%◌, ◌^◌, ◌≤◌, ◌<◌, ◌≡◌, ◌≢◌, inl, inr, refl, sym, ap, ◌∙◌, Option, none,
  some, Bool, true, false, ◌||◌, ltb, ◌==◌, if◌then◌else◌, update_self, update_ne, update_cases,
  arith, Bool-cases,
}
use congenial_octo_telegram.Byte.{test_bit}
use congenial_octo_telegram.Word.{
  set_word, clear_word, test_bit-set_word, test_bit-clear_word, set_word-below, clear_word-below,
}
use congenial_octo_telegram.Pcs.Channels.{check_channel, set_channel, reset_channel, find_free}

-- Each word is an unsigned int.
abbrev pub AreWords : (ℕ → ℕ) → Type 0
AreWords words = (j : ℕ) → words j < 2 ^ 32

pub set_channel-AreWords : (words : ℕ → ℕ) (i : ℕ) → AreWords words → AreWords (set_channel words i)
set_channel-AreWords words i h =
    update_cases (λ j w. w < 2 ^ 32) words (i / 32) (set_word (words (i / 32)) (i % 32))
      (set_word-below (words (i / 32)) (i % 32) (omega arith) (h (i / 32))) h

pub reset_channel-AreWords :
    (words : ℕ → ℕ) (i : ℕ) → AreWords words → AreWords (reset_channel words i)
reset_channel-AreWords words i h =
    update_cases (λ j w. w < 2 ^ 32) words (i / 32) (clear_word (words (i / 32)) (i % 32))
      (clear_word-below (words (i / 32)) (i % 32) (h (i / 32))) h

-- A bit of one word has the index of one channel.
same_word : (i j : ℕ) → i / 32 ≡ j / 32 → (i % 32 == j % 32) ≡ (i == j)
same_word i j same = ground (arith, same)

other_word : (i j : ℕ) → i / 32 ≢ j / 32 → (i == j) ≡ false
other_word i j other = ground (arith, other)

pub check_channel-set_channel :
    (words : ℕ → ℕ) (i j : ℕ)
    → check_channel (set_channel words i) j ≡ (i == j || check_channel words j)
check_channel-set_channel words i j = elim (ℕ_discrete (i / 32) (j / 32)) [
  | yes same ↦
      ap (λ w. test_bit w (j % 32))
        (ap (λ k. set_channel words i k) (sym same)
          ∙ update_self words (i / 32) (set_word (words (i / 32)) (i % 32)))
      ∙ test_bit-set_word (words (i / 32)) (i % 32) (j % 32)
      ∙ ap (λ k. i % 32 == j % 32 || test_bit (words k) (j % 32)) same
      ∙ ap (λ b. b || check_channel words j) (same_word i j same)
  | no other ↦
      ap (λ w. test_bit w (j % 32))
        (update_ne words (i / 32) (set_word (words (i / 32)) (i % 32)) (j / 32) other)
      ∙ ap (λ b. b || check_channel words j) (sym (other_word i j other))
]

pub check_channel-reset_channel :
    (words : ℕ → ℕ) (i j : ℕ)
    → AreWords words
    → check_channel (reset_channel words i) j ≡ (if i == j then false else check_channel words j)
check_channel-reset_channel words i j h = elim (ℕ_discrete (i / 32) (j / 32)) [
  | yes same ↦
      ap (λ w. test_bit w (j % 32))
        (ap (λ k. reset_channel words i k) (sym same)
          ∙ update_self words (i / 32) (clear_word (words (i / 32)) (i % 32)))
      ∙ test_bit-clear_word (words (i / 32)) (i % 32) (j % 32) (omega arith) (h (i / 32))
      ∙ ap (λ k. if i % 32 == j % 32 then false else test_bit (words k) (j % 32)) same
      ∙ ap (λ b. if b then false else check_channel words j) (same_word i j same)
  | no other ↦
      ap (λ w. test_bit w (j % 32))
        (update_ne words (i / 32) (clear_word (words (i / 32)) (i % 32)) (j / 32) other)
      ∙ ap (λ b. if b then false else check_channel words j) (sym (other_word i j other))
]

-- The numbers below a bound that pass a test.
abbrev pub bit : Bool → ℕ
bit true = 1
bit false = 0

pub count_where : ℕ → (ℕ → Bool) → ℕ
count_where zero p = 0
count_where (suc n) p = count_where n p + bit (p n)

-- A test that one more number passes.
pub count_where_more :
    (n i : ℕ) (p q : ℕ → Bool)
    → p i ≡ false
    → ((j : ℕ) → q j ≡ (i == j || p j))
    → count_where n q ≡ count_where n p + bit (ltb i n)
unfolding count_where
count_where_more zero i p q clear_ more = ground arith
count_where_more (suc n) i p q clear_ more = elim (ℕ_discrete i n) [
  | yes last ↦
      let now : (i == n) ≡ true = ground arith in
      let old : p n ≡ false = subst (λ k. p k ≡ false) last clear_ in
      let new : q n ≡ true = more n ∙ ap (λ b. b || p n) now in
      let here : ltb i (suc n) ≡ true = ground arith in
      let there : ltb i n ≡ false = ground arith in
      omega (
        arith,
        count_where_more n i p q clear_ more,
        ap bit old,
        ap bit new,
        ap bit here,
        ap bit there,
      )
  | no less ↦
      let now : (i == n) ≡ false = ground (arith, less) in
      let same : q n ≡ p n = more n ∙ ap (λ b. b || p n) now in
      let step : ltb i (suc n) ≡ ltb i n = ground (arith, less) in
      omega (arith, count_where_more n i p q clear_ more, ap bit same, ap bit step)
]

pub count_where_all : (n : ℕ) (p : ℕ → Bool) → ((j : ℕ) → j < n → p j ≡ true) → count_where n p ≡ n
unfolding count_where
count_where_all zero p h = refl
count_where_all (suc n) p h =
    omega (arith, count_where_all n p (λ j lt. h j (omega arith)), ap bit (h n (omega arith)))

pub count_where_none :
    (n : ℕ) (p : ℕ → Bool) → ((j : ℕ) → j < n → p j ≡ false) → count_where n p ≡ 0
unfolding count_where
count_where_none zero p h = refl
count_where_none (suc n) p h =
    omega (arith, count_where_none n p (λ j lt. h j (omega arith)), ap bit (h n (omega arith)))

-- What the search returns: the first free channel from `i` on, or none if all are busy.
pub data Search (words : ℕ → ℕ) (i : ℕ) (bound : ℕ) : Option ℕ → Type 0 where
  found :
      (k : ℕ)
      → i ≤ k
      → k < bound
      → check_channel words k ≡ false
      → ((j : ℕ) → i ≤ j → j < k → check_channel words j ≡ true)
      → Search words i bound (some k)
  full : ((j : ℕ) → i ≤ j → j < bound → check_channel words j ≡ true) → Search words i bound none

busy_first :
    (words : ℕ → ℕ) (i bound : ℕ) (r : Option ℕ)
    → check_channel words i ≡ true
    → Search words (i + 1) bound r
    → Search words i bound r
busy_first words i bound r busy (found k lo hi free before) =
    found k (omega arith) hi free (λ j l h. elim (ℕ_discrete i j) [
      | yes same ↦ subst (λ j. check_channel words j ≡ true) same busy
      | no other ↦ before j (omega (arith, other)) h
    ])
busy_first words i bound r busy (full before) = full (λ j l h. elim (ℕ_discrete i j) [
  | yes same ↦ subst (λ j. check_channel words j ≡ true) same busy
  | no other ↦ before j (omega (arith, other)) h
])

pub find_free-Search :
    (left i bound : ℕ) (words : ℕ → ℕ)
    → i + left ≡ bound
    → Search words i bound (find_free left i words)
unfolding find_free
find_free-Search zero i bound words e = full (λ j lo hi. absurd (omega arith))
find_free-Search (suc left) i bound words e = elim (Bool-cases (check_channel words i)) [
  | inl busy ↦ rw busy (
      busy_first words i bound (find_free left (i + 1) words) busy
        (find_free-Search left (i + 1) bound words (omega arith)))
  | inr free ↦ rw free (found i (omega arith) (omega arith) free (λ j lo hi. absurd (omega arith)))
]

-- While a channel of a cell is free, the search finds the first one.
pub find_free_lem :
    (n : ℕ) (words : ℕ → ℕ)
    → count_where n (check_channel words) < n
    → (k : ℕ) × (find_free n 0 words ≡ some k)
      × (k < n)
      × (check_channel words k ≡ false)
      × ((j : ℕ) → j < k → check_channel words j ≡ true)
find_free_lem n words few =
    by_search (find_free n 0 words) (find_free-Search n 0 n words (omega arith))
  where
    by_search :
        (r : Option ℕ)
        → Search words 0 n r
        → (k : ℕ) × (r ≡ some k)
          × (k < n)
          × (check_channel words k ≡ false)
          × ((j : ℕ) → j < k → check_channel words j ≡ true)
    by_search r (found k lo hi free before) = (k, refl, hi, free, λ j lt. before j (omega arith) lt)
    by_search r (full busy) = absurd (
        omega
          (arith, few, count_where_all n (check_channel words) (λ j lt. busy j (omega arith) lt)))
