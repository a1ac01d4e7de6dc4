-- ===== src/Word.antt =====
-- The bits of an unsigned int, as the macros of models/pcs/application.h use them. `test_bit` is that of a
-- byte: `word & (1 << k)` is not 0.
use Prim.Native.Nat.{max, min, digits, bit_and, bit_or, bit_and-bitwise, bit_or-bitwise}
use native.Mathlib.Nat.{pow-suc, div-div-eq-div-mul, div-one, one-le-pow, pow-le-pow_right}
use congenial_octo_telegram.Base.{
  ℕ, zero, suc, ◌+◌, ◌-◌, ◌*◌, ◌/◌, ◌%◌, ◌^◌, ◌≤◌, ◌<◌, ◌≡◌, refl, sym, ap, ◌∙◌, false, ◌||◌, ◌==◌,
  if◌then◌else◌, arith,
}
use congenial_octo_telegram.Byte.{test_bit}

-- `word | (1 << k)`
unfoldable pub set_word : ℕ → ℕ → ℕ
set_word word k = bit_or word (2 ^ k)

-- `word & ~(1 << k)`, in 32 bits
unfoldable pub clear_word : ℕ → ℕ → ℕ
clear_word word k = bit_and word (2 ^ 32 - 1 - 2 ^ k)

-- What `bit_or` and `bit_and` stand for, with as many rounds as wanted: past the digits of the first
-- number more of them change nothing.
more_rounds :
    (past : ℕ → ℕ) (both : ℕ → ℕ → ℕ) (left other word mask : ℕ)
    → word ≤ left
    → word ≤ other
    → digits past both left word mask ≡ digits past both other word mask
more_rounds past both zero zero word mask hl ho = refl
more_rounds past both zero (suc other) zero mask hl ho = refl
more_rounds past both (suc left) zero zero mask hl ho = refl
more_rounds past both (suc left) (suc other) zero mask hl ho = refl
more_rounds past both zero (suc other) (suc w) mask hl ho = absurd (omega arith)
more_rounds past both (suc left) zero (suc w) mask hl ho = absurd (omega arith)
more_rounds past both (suc left) (suc other) (suc w) mask hl ho =
    let half : (suc w / 2 ≤ left) × (suc w / 2 ≤ other) = (omega arith, omega arith) in
    ap (λ high. high * 2 + both (suc w % 2) (mask % 2))
      (more_rounds past both left other (suc w / 2) (mask / 2) half.0 half.1)

-- The lowest digit, and the others.
halved :
    (past : ℕ → ℕ) (both : ℕ → ℕ → ℕ) (word mask : ℕ)
    → past mask ≡ past (mask / 2) * 2 + both 0 (mask % 2)
    → digits past both word word mask
      ≡ digits past both (word / 2) (word / 2) (mask / 2) * 2 + both (word % 2) (mask % 2)
halved past both zero mask h = h
halved past both (suc w) mask h =
    let half : suc w / 2 ≤ w = omega arith in
    ap (λ high. high * 2 + both (suc w % 2) (mask % 2))
      (more_rounds past both w (suc w / 2) (suc w / 2) (mask / 2) half (omega arith))

bit_or-halved : (w m : ℕ) → bit_or w m ≡ bit_or (w / 2) (m / 2) * 2 + max (w % 2) (m % 2)
bit_or-halved w m = omega (
  arith,
  bit_or-bitwise w m,
  bit_or-bitwise (w / 2) (m / 2),
  halved (λ high. high) max w m (omega arith),
)

bit_and-halved : (w m : ℕ) → bit_and w m ≡ bit_and (w / 2) (m / 2) * 2 + min (w % 2) (m % 2)
bit_and-halved w m = omega (
  arith,
  bit_and-bitwise w m,
  bit_and-bitwise (w / 2) (m / 2),
  halved (λ high. zero) min w m (omega arith),
)

bit_or-zero : (w : ℕ) → bit_or w 0 ≡ w
bit_or-zero w = below (suc w) w (omega arith)
  where
    below : (bound w : ℕ) → w < bound → bit_or w 0 ≡ w
    below zero w lt = absurd (omega arith)
    below (suc bound) zero lt = bit_or-bitwise 0 0
    below (suc bound) (suc w) lt =
        let high = below bound (suc w / 2) (omega arith) in
        omega (arith, bit_or-halved (suc w) 0, high)

bit_and-ones : (n a : ℕ) → a < 2 ^ n → bit_and a (2 ^ n - 1) ≡ a
bit_and-ones zero zero h = bit_and-bitwise 0 0
bit_and-ones zero (suc a) h = absurd (omega arith)
bit_and-ones (suc n) a h =
    let two = pow-suc 2 n in
    let half : (2 ^ suc n - 1) / 2 ≡ 2 ^ n - 1 = omega (arith, two, one-le-pow n 2 (omega arith)) in
    let rec : bit_and (a / 2) ((2 ^ suc n - 1) / 2) ≡ a / 2 =
      ap (bit_and (a / 2)) half ∙ bit_and-ones n (a / 2) (omega (arith, two)) in
    omega (arith, two, one-le-pow n 2 (omega arith), bit_and-halved a (2 ^ suc n - 1), rec)

-- The bits of a number, from its lowest digit and the others.
lowest_bit : (x b : ℕ) → b < 2 → test_bit (x * 2 + b) 0 ≡ (b == 1)
lowest_bit x b h =
    let e : (x * 2 + b) / 2 ^ 0 % 2 ≡ b = omega (arith, div-one (x * 2 + b)) in ap (λ v. v == 1) e

other_bit : (x b j : ℕ) → b < 2 → test_bit (x * 2 + b) (suc j) ≡ test_bit x j
other_bit x b j h =
    let half : (x * 2 + b) / 2 ≡ x = omega arith in
    ap (λ v. v % 2 == 1)
      (ap (λ p. (x * 2 + b) / p) (pow-suc 2 j ∙ omega arith)
        ∙ sym (div-div-eq-div-mul (x * 2 + b) 2 (2 ^ j))
        ∙ ap (λ v. v / 2 ^ j) half)

at_or :
    (w m : ℕ) (v : ℕ)
    → v < 2
    → max (w % 2) (m % 2) ≡ v
    → bit_or w m ≡ bit_or (w / 2) (m / 2) * 2 + v
at_or w m v h e = omega (arith, bit_or-halved w m)

at_and :
    (w m : ℕ) (v : ℕ)
    → v < 2
    → min (w % 2) (m % 2) ≡ v
    → bit_and w m ≡ bit_and (w / 2) (m / 2) * 2 + v
at_and w m v h e = omega (arith, bit_and-halved w m)

halves : (w : ℕ) → w ≡ w / 2 * 2 + w % 2
halves w = omega arith

lowest_is_no_other : (j : ℕ) → (0 == suc j) ≡ false
lowest_is_no_other j = ground arith

other_is_not_lowest : (k : ℕ) → (suc k == 0) ≡ false
other_is_not_lowest k = ground arith

other_is_other : (k j : ℕ) → (suc k == suc j) ≡ (k == j)
other_is_other k j = ground arith

test_bit-bit_or : (k w j : ℕ) → test_bit (bit_or w (2 ^ k)) j ≡ (k == j || test_bit w j)
test_bit-bit_or zero w zero =
    ap (λ x. test_bit x 0) (at_or w (2 ^ 0) 1 (omega arith) (omega arith))
    ∙ lowest_bit (bit_or (w / 2) (2 ^ 0 / 2)) 1 (omega arith)
test_bit-bit_or zero w (suc j) =
    ap (λ x. test_bit x (suc j)) (at_or w (2 ^ 0) 1 (omega arith) (omega arith))
    ∙ other_bit (bit_or (w / 2) (2 ^ 0 / 2)) 1 j (omega arith)
    ∙ ap (λ x. test_bit x j) (bit_or-zero (w / 2))
    ∙ sym (other_bit (w / 2) (w % 2) j (omega arith))
    ∙ ap (λ x. test_bit x (suc j)) (sym (halves w))
    ∙ ap (λ b. b || test_bit w (suc j)) (sym (lowest_is_no_other j))
test_bit-bit_or (suc k) w zero =
    ap (λ x. test_bit x 0) (at_or w (2 ^ suc k) (w % 2) (omega arith) (omega (arith, pow-suc 2 k)))
    ∙ lowest_bit (bit_or (w / 2) (2 ^ suc k / 2)) (w % 2) (omega arith)
    ∙ sym (lowest_bit (w / 2) (w % 2) (omega arith))
    ∙ ap (λ x. test_bit x 0) (sym (halves w))
    ∙ ap (λ b. b || test_bit w 0) (sym (other_is_not_lowest k))
test_bit-bit_or (suc k) w (suc j) =
    let half : 2 ^ suc k / 2 ≡ 2 ^ k = omega (arith, pow-suc 2 k) in
    ap (λ x. test_bit x (suc j))
      (at_or w (2 ^ suc k) (w % 2) (omega arith) (omega (arith, pow-suc 2 k)))
    ∙ other_bit (bit_or (w / 2) (2 ^ suc k / 2)) (w % 2) j (omega arith)
    ∙ ap (λ m. test_bit (bit_or (w / 2) m) j) half
    ∙ test_bit-bit_or k (w / 2) j
    ∙ ap (λ b. k == j || b)
        (sym (other_bit (w / 2) (w % 2) j (omega arith))
          ∙ ap (λ x. test_bit x (suc j)) (sym (halves w)))
    ∙ ap (λ c. c || test_bit w (suc j)) (sym (other_is_other k j))

pow_two-rising : (k n : ℕ) → k < n → 2 ^ k < 2 ^ n
pow_two-rising k n h = omega (
  arith,
  pow-suc 2 k,
  one-le-pow k 2 (omega arith),
  pow-le-pow_right {n = 2} (omega arith) {i = suc k} {j = n} (omega arith),
)

test_bit-bit_and :
    (n k w j : ℕ)
    → k < n
    → w < 2 ^ n
    → test_bit (bit_and w (2 ^ n - 1 - 2 ^ k)) j ≡ (if k == j then false else test_bit w j)
test_bit-bit_and zero k w j h lt = absurd (omega arith)
test_bit-bit_and (suc n) zero w j h lt =
    let two = pow-suc 2 n in
    let pos = one-le-pow n 2 (omega arith) in
    let half : (2 ^ suc n - 1 - 2 ^ 0) / 2 ≡ 2 ^ n - 1 = omega (arith, two, pos) in
    let e : bit_and w (2 ^ suc n - 1 - 2 ^ 0) ≡ w / 2 * 2 + 0 =
      at_and w (2 ^ suc n - 1 - 2 ^ 0) 0 (omega arith) (omega (arith, two, pos))
      ∙ ap (λ x. x * 2 + 0)
          (ap (bit_and (w / 2)) half ∙ bit_and-ones n (w / 2) (omega (arith, two))) in
    ap (λ x. test_bit x j) e ∙ (clear_lowest w j)
  where
    clear_lowest : (w j : ℕ) → test_bit (w / 2 * 2 + 0) j ≡ (if 0 == j then false else test_bit w j)
    clear_lowest w zero = lowest_bit (w / 2) 0 (omega arith)
    clear_lowest w (suc j) =
        other_bit (w / 2) 0 j (omega arith)
        ∙ sym (other_bit (w / 2) (w % 2) j (omega arith))
        ∙ ap (λ x. test_bit x (suc j)) (sym (halves w))
        ∙ ap (λ b. if b then false else test_bit w (suc j)) (sym (lowest_is_no_other j))
test_bit-bit_and (suc n) (suc k) w zero h lt =
    let two = pow-suc 2 n in
    let less : 2 ^ suc k < 2 ^ suc n = pow_two-rising (suc k) (suc n) h in
    ap (λ x. test_bit x 0)
      (at_and w (2 ^ suc n - 1 - 2 ^ suc k) (w % 2) (omega arith)
        (omega (arith, two, pow-suc 2 k, less)))
    ∙ lowest_bit (bit_and (w / 2) ((2 ^ suc n - 1 - 2 ^ suc k) / 2)) (w % 2) (omega arith)
    ∙ sym (lowest_bit (w / 2) (w % 2) (omega arith))
    ∙ ap (λ x. test_bit x 0) (sym (halves w))
    ∙ ap (λ b. if b then false else test_bit w 0) (sym (other_is_not_lowest k))
test_bit-bit_and (suc n) (suc k) w (suc j) h lt =
    let two = pow-suc 2 n in
    let less : 2 ^ suc k < 2 ^ suc n = pow_two-rising (suc k) (suc n) h in
    let half : (2 ^ suc n - 1 - 2 ^ suc k) / 2 ≡ 2 ^ n - 1 - 2 ^ k =
      omega (arith, two, pow-suc 2 k, less) in
    ap (λ x. test_bit x (suc j))
      (at_and w (2 ^ suc n - 1 - 2 ^ suc k) (w % 2) (omega arith)
        (omega (arith, two, pow-suc 2 k, less)))
    ∙ other_bit (bit_and (w / 2) ((2 ^ suc n - 1 - 2 ^ suc k) / 2)) (w % 2) j (omega arith)
    ∙ ap (λ m. test_bit (bit_and (w / 2) m) j) half
    ∙ test_bit-bit_and n k (w / 2) j (omega arith) (omega (arith, two))
    ∙ ap (λ b. if k == j then false else b)
        (sym (other_bit (w / 2) (w % 2) j (omega arith))
          ∙ ap (λ x. test_bit x (suc j)) (sym (halves w)))
    ∙ ap (λ c. if c then false else test_bit w (suc j)) (sym (other_is_other k j))

-- A bit that is set leaves the others.
pub test_bit-set_word : (w k j : ℕ) → test_bit (set_word w k) j ≡ (k == j || test_bit w j)
unfolding set_word
test_bit-set_word w k j = test_bit-bit_or k w j

pub test_bit-clear_word :
    (w k j : ℕ)
    → k < 32
    → w < 2 ^ 32
    → test_bit (clear_word w k) j ≡ (if k == j then false else test_bit w j)
unfolding clear_word
test_bit-clear_word w k j h lt = test_bit-bit_and 32 k w j h lt

bit_or-below : (n k w : ℕ) → k < n → w < 2 ^ n → bit_or w (2 ^ k) < 2 ^ n
bit_or-below zero k w h lt = absurd (omega arith)
bit_or-below (suc n) zero w h lt =
    omega (arith, pow-suc 2 n, at_or w (2 ^ 0) 1 (omega arith) (omega arith), bit_or-zero (w / 2))
bit_or-below (suc n) (suc k) w h lt =
    let half : 2 ^ suc k / 2 ≡ 2 ^ k = omega (arith, pow-suc 2 k) in
    let two = pow-suc 2 n in
    omega (
      arith,
      two,
      at_or w (2 ^ suc k) (w % 2) (omega arith) (omega (arith, pow-suc 2 k)),
      ap (bit_or (w / 2)) half,
      bit_or-below n k (w / 2) (omega arith) (omega (arith, two)),
    )

bit_and-below : (n a b : ℕ) → a < 2 ^ n → bit_and a b < 2 ^ n
bit_and-below zero zero b h = omega (arith, bit_and-bitwise 0 b)
bit_and-below zero (suc a) b h = absurd (omega arith)
bit_and-below (suc n) a b h =
    let two = pow-suc 2 n in
    omega (arith, two, bit_and-halved a b, bit_and-below n (a / 2) (b / 2) (omega (arith, two)))

pub set_word-below : (w k : ℕ) → k < 32 → w < 2 ^ 32 → set_word w k < 2 ^ 32
unfolding set_word
set_word-below w k h lt = bit_or-below 32 k w h lt

pub clear_word-below : (w k : ℕ) → w < 2 ^ 32 → clear_word w k < 2 ^ 32
unfolding clear_word
clear_word-below w k lt = bit_and-below 32 w (2 ^ 32 - 1 - 2 ^ k) lt
