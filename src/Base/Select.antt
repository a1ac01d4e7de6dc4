-- ===== src/Base/Select.antt =====
-- The entries of a list that pass a test, and lists ordered by a key.
use Prim.Native.Nat.{ℕ, ◌≤◌, ◌<◌}
use mathlib.Core.Path.{◌≡◌, refl, sym}
use mathlib.Core.Logic.{inl, inr}
use mathlib.Core.Bool.{Bool, false}
use mathlib.Core.List.{List, [], ◌∷◌, ◌++◌, reverse, reverse-cons, append-nil}
use native.Mathlib.Omega.{arith}
use congenial_octo_telegram.Base.Tests.{if◌then◌else◌, Bool-cases, ltb}
use congenial_octo_telegram.Base.Lists.{length, length-append}

module _ {ℓ} {A : Type ℓ} where
  abbrev pub select : (A → Bool) → List A → List A
  select p [] = []
  select p (x ∷ xs) = if p x then x ∷ select p xs else select p xs

  pub select-append :
      (p : A → Bool) (xs ys : List A) → select p (xs ++ ys) ≡ select p xs ++ select p ys
  select-append p [] ys = refl
  select-append p (x ∷ xs) ys = ground (arith, select-append p xs ys)

  pub select-reverse : (p : A → Bool) (xs : List A) → select p (reverse xs) ≡ reverse (select p xs)
  select-reverse p [] = refl
  select-reverse p (x ∷ xs) = elim (Bool-cases (p x)) [
    | inl keep ↦
        rw (reverse-cons x xs, select-append p (reverse xs) (x ∷ []), select-reverse p xs, keep)
          (sym (reverse-cons x (select p xs)))
    | inr drop ↦
        rw (reverse-cons x xs, select-append p (reverse xs) (x ∷ []), select-reverse p xs, drop)
          (append-nil (reverse (select p xs)))
  ]

  abbrev pub All {κ} : (A → Type κ) → List A → Type κ
  All P [] = Unit
  All P (x ∷ xs) = P x × All P xs

  pub All-append {κ} : (P : A → Type κ) (xs ys : List A) → All P xs → All P ys → All P (xs ++ ys)
  All-append P [] ys hx hy = hy
  All-append P (x ∷ xs) ys hx hy = (hx.0, All-append P xs ys hx.1 hy)

  pub All-weaken {κ ι} :
      (P : A → Type κ) (Q : A → Type ι) (xs : List A) → ((x : A) → P x → Q x) → All P xs → All Q xs
  All-weaken P Q [] w h = tt
  All-weaken P Q (x ∷ xs) w h = (w x h.0, All-weaken P Q xs w h.1)

  pub All-reverse {κ} : (P : A → Type κ) (xs : List A) → All P xs → All P (reverse xs)
  All-reverse P [] h = tt
  All-reverse P (x ∷ xs) h =
      rw (reverse-cons x xs) (All-append P (reverse xs) (x ∷ []) (All-reverse P xs h.1) (h.0, tt))

  module _ (key : A → ℕ) where
    -- The keys never fall along the list.
    abbrev pub Rising : List A → Type 0
    Rising [] = Unit {0}
    Rising (x ∷ xs) = All (λ y. key x ≤ key y) xs × Rising xs

    abbrev pub Falling : List A → Type 0
    Falling [] = Unit {0}
    Falling (x ∷ xs) = All (λ y. key y ≤ key x) xs × Falling xs

    Falling-append :
        (xs : List A) (y : A) → All (λ x. key y ≤ key x) xs → Falling xs → Falling (xs ++ y ∷ [])
    Falling-append [] y h f = (tt, tt)
    Falling-append (x ∷ xs) y h f =
        (All-append _ xs (y ∷ []) f.0 (h.0, tt), Falling-append xs y h.1 f.1)

    pub Falling-reverse : (xs : List A) → Rising xs → Falling (reverse xs)
    Falling-reverse [] r = tt
    Falling-reverse (x ∷ xs) r =
        rw (reverse-cons x xs)
          (Falling-append (reverse xs) x (All-reverse _ xs r.0) (Falling-reverse xs r.1))

    pub select_below :
        (t : ℕ) (xs : List A) → All (λ y. key y < t) xs → select (λ y. ltb (key y) t) xs ≡ xs
    select_below t [] h = refl
    select_below t (x ∷ xs) h = ground (arith, select_below t xs h.1)

  pub select_none : (p : A → Bool) (xs : List A) → All (λ y. p y ≡ false) xs → select p xs ≡ []
  select_none p [] h = refl
  select_none p (x ∷ xs) h = rw h.0 (select_none p xs h.1)

  pub length-reverse : (xs : List A) → length (reverse xs) ≡ length xs
  length-reverse [] = refl
  length-reverse (x ∷ xs) =
      rw (reverse-cons x xs, length-append (reverse xs) (x ∷ []), length-reverse xs) (omega arith)
