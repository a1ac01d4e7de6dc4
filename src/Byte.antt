-- ===== src/Byte.antt =====
-- The bits of a byte, as the bitmaps of memory/memory.c use them.
use mathlib.Core.Path.{subst}
use native.Mathlib.Decide.{ℕ_discrete}
use Prim.Native.Nat.{bit_and, bit_or}
use congenial_octo_telegram.Base.{
  ℕ, zero, suc, ◌-◌, ◌/◌, ◌%◌, ◌^◌, ◌≤◌, ◌<◌, ◌≡◌, refl, Bool, true, false, arith, ◌==◌, ◌&&◌, ◌||◌,
  if◌then◌else◌, ltb, ltb→lt,
}

-- `(byte >> k) & 1`, equally `byte & (1 << k)`
abbrev pub test_bit : ℕ → ℕ → Bool
test_bit byte k = byte / 2 ^ k % 2 == 1

-- `byte | (1 << k)`
unfoldable pub set_bit : ℕ → ℕ → ℕ
set_bit byte k = bit_or byte (2 ^ k)

-- `byte & ~(1 << k)`, in eight bits
unfoldable pub clear_bit : ℕ → ℕ → ℕ
clear_bit byte k = bit_and byte (255 - 2 ^ k)

and_true : (a b : Bool) → (a && b) ≡ true → (a ≡ true) × (b ≡ true)
and_true a b h = ground arith

-- A test of every number up to a bound, the bound first.
every : (ℕ → Bool) → ℕ → Bool
every test zero = test 0
every test (suc top) = test (suc top) && every test top

every-at : (test : ℕ → Bool) (top k : ℕ) → k ≤ top → every test top ≡ true → test k ≡ true
unfolding every
every-at test zero k le passed =
    let first : 0 ≡ k = omega arith in subst (λ j. test j ≡ true) first passed
every-at test (suc top) k le passed = elim (ℕ_discrete k (suc top)) [
  | yes last ↦ rw last (and_true (test (suc top)) (every test top) passed).0
  | no below ↦
      every-at test top k (omega arith) (and_true (test (suc top)) (every test top) passed).1
]

-- A test of every byte and of every two of its bits.
abbrev every_byte : (ℕ → ℕ → ℕ → Bool) → Bool
every_byte row = every (λ byte. every (λ k. every (row byte k) 7) 7) 255

eq_bool : Bool → Bool → Bool
eq_bool true b = b
eq_bool false true = false
eq_bool false false = true

eq_bool_sound : (a b : Bool) → eq_bool a b ≡ true → a ≡ b
unfolding eq_bool
eq_bool_sound a b h = ground arith

set_row : ℕ → ℕ → ℕ → Bool
set_row byte k j =
    eq_bool (test_bit (set_bit byte k) j) (k == j || test_bit byte j) && ltb (set_bit byte k) 256

set_table : every_byte set_row ≡ true
unfolding every set_row set_bit eq_bool
set_table = refl

clear_row : ℕ → ℕ → ℕ → Bool
clear_row byte k j =
    eq_bool (test_bit (clear_bit byte k) j) (if k == j then false else test_bit byte j)
    && ltb (clear_bit byte k) 256

clear_table : every_byte clear_row ≡ true
unfolding every clear_row clear_bit eq_bool
clear_table = refl

at_table :
    (row : ℕ → ℕ → ℕ → Bool)
    → every_byte row ≡ true
    → (byte k j : ℕ) → byte < 256
    → k < 8
    → j < 8
    → row byte k j ≡ true
at_table row table byte k j hb hk hj =
    let bits =
      every-at (λ byte. every (λ k. every (row byte k) 7) 7) 255 byte (omega arith) table in
    let others = every-at (λ k. every (row byte k) 7) 7 k (omega arith) bits in
    every-at (row byte k) 7 j (omega arith) others

-- Setting one of the eight bits of a byte sets that bit, leaves the others as they were, and gives
-- a byte.
pub set_bit_lem :
    (byte k j : ℕ)
    → byte < 256
    → k < 8
    → j < 8
    → (test_bit (set_bit byte k) j ≡ (k == j || test_bit byte j)) × (set_bit byte k < 256)
unfolding set_row
set_bit_lem byte k j hb hk hj =
    let row = and_true _ _ (at_table set_row set_table byte k j hb hk hj) in
    (eq_bool_sound _ _ row.0, ltb→lt _ _ row.1)

-- Clearing one of the eight bits of a byte clears that bit, leaves the others as they were, and
-- gives a byte.
pub clear_bit_lem :
    (byte k j : ℕ)
    → byte < 256
    → k < 8
    → j < 8
    → (test_bit (clear_bit byte k) j ≡ (if k == j then false else test_bit byte j))
      × (clear_bit byte k < 256)
unfolding clear_row
clear_bit_lem byte k j hb hk hj =
    let row = and_true _ _ (at_table clear_row clear_table byte k j hb hk hj) in
    (eq_bool_sound _ _ row.0, ltb→lt _ _ row.1)
