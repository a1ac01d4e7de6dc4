-- ===== src/Slot/Order.antt =====
-- queue/queue.c: the order and the content of a slot around an insertion.
use mathlib.Core.List.{Perm}
use mathlib.Core.List.Perm
use congenial_octo_telegram.Base.{
  ℕ, ◌+◌, ◌≤◌, ◌<◌, ◌≡◌, refl, false, inl, inr, List, [], ◌∷◌, ◌++◌, arith, leb, ◌==◌,
  if◌then◌else◌, Bool-cases, length, All, All-weaken,
}
use congenial_octo_telegram.Event.{Event}
use congenial_octo_telegram.Slot.{insert, unlink}

-- `verify_queue_order`: the timestamps never fall.
abbrev pub IsSorted : List Event → Type 0
IsSorted [] = Unit {0}
IsSorted (x ∷ xs) = All (λ (y : Event). x.timestamp ≤ y.timestamp) xs × IsSorted xs

-- The events of one timestamp, in the order of the list.
abbrev pub at_time : ℕ → List Event → List Event
at_time t [] = []
at_time t (x ∷ xs) = if x.timestamp == t then x ∷ at_time t xs else at_time t xs

pub insert-All {κ} :
    (P : Event → Type κ) (e : Event) (xs : List Event) → P e → All P xs → All P (insert e xs)
unfolding insert
insert-All P e [] p h = (p, tt)
insert-All P e (x ∷ xs) p h = elim (Bool-cases (leb x.timestamp e.timestamp)) [
  | inl early ↦ rw early (h.0, insert-All P e xs p h.1)
  | inr late ↦ rw late (p, h)
]

-- If a slot is in order of time, it is so after an insertion.
pub insert-IsSorted : (e : Event) (xs : List Event) → IsSorted xs → IsSorted (insert e xs)
unfolding insert
insert-IsSorted e [] s = (tt, tt)
insert-IsSorted e (x ∷ xs) s = elim (Bool-cases (leb x.timestamp e.timestamp)) [
  | inl early ↦ rw early (
    insert-All (λ y. x.timestamp ≤ y.timestamp) e xs (ground arith) s.0,
    insert-IsSorted e xs s.1,
  )
  | inr late ↦ rw late (
    (
      ground arith,
      All-weaken (λ y. x.timestamp ≤ y.timestamp) (λ y. e.timestamp ≤ y.timestamp) xs
          (λ y h. ground arith) s.0,
    ),
    s,
  )
]

-- After an insertion a slot holds the new event and the events it held, each as often as before.
pub insert-perm : (e : Event) (xs : List Event) → Perm (insert e xs) (e ∷ xs)
unfolding insert
insert-perm e [] = Perm.refl (e ∷ [])
insert-perm e (x ∷ xs) = elim (Bool-cases (leb x.timestamp e.timestamp)) [
  | inl early ↦ rw early (Perm.trans (Perm.cons x (insert-perm e xs)) (Perm.swap e x xs))
  | inr late ↦ rw late (Perm.refl (e ∷ x ∷ xs))
]

at_time_none :
    (t : ℕ) (xs : List Event) → All (λ (y : Event). t < y.timestamp) xs → at_time t xs ≡ []
at_time_none t [] h = refl
at_time_none t (x ∷ xs) h = ground (arith, at_time_none t xs h.1)

-- Into a slot in order of time, an event goes behind all events of its own timestamp, and the
-- events of any other timestamp stay as they were.
pub at_time-insert :
    (e : Event) (xs : List Event) (t : ℕ)
    → IsSorted xs
    → at_time t (insert e xs) ≡ (if e.timestamp == t then at_time t xs ++ e ∷ [] else at_time t xs)
unfolding insert
at_time-insert e [] t s = ground arith
at_time-insert e (x ∷ xs) t s = elim (Bool-cases (leb x.timestamp e.timestamp)) [
  | inl early ↦ rw early (ground (arith, at_time-insert e xs t s.1))
  | inr late ↦ ground (arith, λ (p : e.timestamp ≡ t). at_time_none t (x ∷ xs) (later p late))
]
  where
    later :
        e.timestamp ≡ t
        → leb x.timestamp e.timestamp ≡ false
        → All (λ (y : Event). t < y.timestamp) (x ∷ xs)
    later p late =
        (ground arith, All-weaken (λ y. x.timestamp ≤ y.timestamp) _ xs (λ y h. ground arith) s.0)

pub length-insert : (e : Event) (xs : List Event) → length (insert e xs) ≡ length xs + 1
unfolding insert
length-insert e [] = omega arith
length-insert e (x ∷ xs) = ground (arith, length-insert e xs)

pub unlink-All {κ} : (P : Event → Type κ) (a : ℕ) (xs : List Event) → All P xs → All P (unlink a xs)
unfolding unlink
unlink-All P a [] h = h
unlink-All P a (x ∷ xs) h = elim (Bool-cases (x.addr == a)) [
  | inl hit ↦ rw hit h.1
  | inr miss ↦ rw miss (h.0, unlink-All P a xs h.1)
]

pub unlink-IsSorted : (a : ℕ) (xs : List Event) → IsSorted xs → IsSorted (unlink a xs)
unfolding unlink
unlink-IsSorted a [] s = s
unlink-IsSorted a (x ∷ xs) s = elim (Bool-cases (x.addr == a)) [
  | inl hit ↦ rw hit s.1
  | inr miss ↦
      rw miss (unlink-All (λ y. x.timestamp ≤ y.timestamp) a xs s.0, unlink-IsSorted a xs s.1)
]
