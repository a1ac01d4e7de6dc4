-- ===== src/Base/Maps.antt =====
-- Arrays indexed by an object, a slot or a thread, as functions from the index.
use Prim.Native.Nat.{ℕ}
use mathlib.Core.Path.{◌≡◌, subst, subst₂}
use mathlib.Core.Logic.{◌≢◌, inl, inr}
use native.Mathlib.Omega.{arith}
use congenial_octo_telegram.Base.Tests.{◌==◌, ==_iff, if◌then◌else◌, Bool-cases}

-- `f[i] = a`
abbrev pub update {ℓ} : {A : Type ℓ} → (ℕ → A) → ℕ → A → ℕ → A
update f i a j = if i == j then a else f j

-- `f[i][k] = a`
abbrev pub update₂ {ℓ} : {A : Type ℓ} → (ℕ → ℕ → A) → ℕ → ℕ → A → ℕ → ℕ → A
update₂ f i k a j l = if i == j then (if k == l then a else f j l) else f j l

pub update_self {ℓ} : {A : Type ℓ} (f : ℕ → A) (i : ℕ) (a : A) → update f i a i ≡ a
update_self f i a = ground arith

pub update_ne {ℓ} : {A : Type ℓ} (f : ℕ → A) (i : ℕ) (a : A) (j : ℕ) → i ≢ j → update f i a j ≡ f j
update_ne f i a j h = ground arith

-- An array after one entry was written: the new entry, and the old ones.
pub update₂_cases {ℓ κ} :
    {A : Type ℓ} (P : ℕ → ℕ → A → Type κ) (f : ℕ → ℕ → A) (i k : ℕ) (a : A)
    → P i k a
    → ((j l : ℕ) → P j l (f j l))
    → (j l : ℕ) → P j l (update₂ f i k a j l)
update₂_cases P f i k a new old j l = elim (Bool-cases (i == j)) [
  | inr ne ↦ rw ne (old j l)
  | inl eq ↦ elim (Bool-cases (k == l)) [
    | inr ne ↦ rw (eq, ne) (old j l)
    | inl eq' ↦ rw (eq, eq') (subst₂ (λ x y. P x y a) ((==_iff i j).0 eq) ((==_iff k l).0 eq') new)
  ]
]

pub update_cases {ℓ κ} :
    {A : Type ℓ} (P : ℕ → A → Type κ) (f : ℕ → A) (i : ℕ) (a : A)
    → P i a
    → ((j : ℕ) → P j (f j))
    → (j : ℕ) → P j (update f i a j)
update_cases P f i a new old j = elim (Bool-cases (i == j)) [
  | inr ne ↦ rw ne (old j)
  | inl eq ↦ rw eq (subst (λ x. P x a) ((==_iff i j).0 eq) new)
]

pub update₂_self {ℓ} : {A : Type ℓ} (f : ℕ → ℕ → A) (i k : ℕ) (a : A) → update₂ f i k a i k ≡ a
update₂_self f i k a = ground arith
