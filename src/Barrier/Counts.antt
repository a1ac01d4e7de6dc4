-- ===== src/Barrier/Counts.antt =====
-- queue/barrier-synchronization.c: sums over the threads.
use congenial_octo_telegram.Base.{
  ℕ, zero, suc, ◌+◌, ◌≤◌, ◌≡◌, refl, List, [], ◌∷◌, some, some_inj, get_elem?, set, length, arith,
  All, sym,
}
use congenial_octo_telegram.Barrier.{Worker}

abbrev pub sum : (Worker → ℕ) → List Worker → ℕ
sum f [] = 0
sum f (w ∷ rest) = f w + sum f rest

-- A sum after one thread has changed.
pub sum-set :
    (f : Worker → ℕ) (ws : List Worker) (i : ℕ) (w w' : Worker)
    → get_elem? ws i ≡ some w
    → sum f (set ws i w') + f w ≡ sum f ws + f w'
sum-set f [] i w w' h = cc
sum-set f (x ∷ rest) zero w w' h = rw (some_inj (sym h)) (omega arith)
sum-set f (x ∷ rest) (suc i) w w' h = omega (arith, sum-set f rest i w w' h)

pub All-set :
    (P : Worker → Type 0) (ws : List Worker) (i : ℕ) (w : Worker)
    → P w
    → All P ws
    → All P (set ws i w)
All-set P [] i w p v = tt
All-set P (x ∷ rest) zero w p v = (p, v.1)
All-set P (x ∷ rest) (suc i) w p v = (v.0, All-set P rest i w p v.1)

pub All-get_elem? :
    (P : Worker → Type 0) (ws : List Worker) (i : ℕ) (w : Worker)
    → get_elem? ws i ≡ some w
    → All P ws
    → P w
All-get_elem? P [] i w h v = cc
All-get_elem? P (x ∷ rest) zero w h v = rw (some_inj (sym h)) v.0
All-get_elem? P (x ∷ rest) (suc i) w h v = All-get_elem? P rest i w h v.1

pub All-map :
    (P Q : Worker → Type 0) (ws : List Worker) → ((w : Worker) → P w → Q w) → All P ws → All Q ws
All-map P Q [] f v = tt
All-map P Q (x ∷ rest) f v = (f x v.0, All-map P Q rest f v.1)

-- Both of two facts about all threads.
pub All-both :
    (P Q : Worker → Type 0) (ws : List Worker) → All P ws → All Q ws → All (λ w. P w × Q w) ws
All-both P Q [] v u = tt
All-both P Q (x ∷ rest) v u = ((v.0, u.0), All-both P Q rest v.1 u.1)

pub sum-zero : (f : Worker → ℕ) (ws : List Worker) → All (λ w. f w ≡ 0) ws → sum f ws ≡ 0
sum-zero f [] v = refl
sum-zero f (x ∷ rest) v = omega (arith, v.0, sum-zero f rest v.1)

pub zero-sum : (f : Worker → ℕ) (ws : List Worker) → sum f ws ≡ 0 → All (λ w. f w ≡ 0) ws
zero-sum f [] h = tt
zero-sum f (x ∷ rest) h = (omega arith, zero-sum f rest (omega arith))

pub sum-length : (f : Worker → ℕ) (ws : List Worker) → All (λ w. f w ≤ 1) ws → sum f ws ≤ length ws
sum-length f [] v = omega arith
sum-length f (x ∷ rest) v = omega (arith, v.0, sum-length f rest v.1)

-- Where a sum of zeros and ones is as large as can be, all are ones.
pub full-sum :
    (f : Worker → ℕ) (ws : List Worker)
    → All (λ w. f w ≤ 1) ws
    → sum f ws ≡ length ws
    → All (λ w. f w ≡ 1) ws
full-sum f [] v h = tt
full-sum f (x ∷ rest) v h = (
  omega (arith, v.0, sum-length f rest v.1),
  full-sum f rest v.1 (omega (arith, v.0, sum-length f rest v.1)),
)

pub All-every : (P : Worker → Type 0) (ws : List Worker) → ((w : Worker) → P w) → All P ws
All-every P [] f = tt
All-every P (x ∷ rest) f = (f x, All-every P rest f)

pub sum-ones : (f : Worker → ℕ) (ws : List Worker) → All (λ w. f w ≡ 1) ws → sum f ws ≡ length ws
sum-ones f [] v = refl
sum-ones f (x ∷ rest) v = omega (arith, v.0, sum-ones f rest v.1)
