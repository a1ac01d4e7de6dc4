-- ===== src/Phold/Chunks.antt =====
-- models/phold/application.c: the walks over the stacks of chunks.
use congenial_octo_telegram.Base.{
  ℕ, zero, suc, ◌+◌, ◌-◌, ◌*◌, ◌%◌, ◌≤◌, ◌≡◌, refl, ap, ◌∙◌, List, [], ◌∷◌, Option, none, some,
  arith, length, get_elem?, leb, ◌==◌, if◌then◌else◌, Bool, true, false,
}
use congenial_octo_telegram.Phold.{Words, fill, update_chunks, dell_chunks, add_chunks}

pub length-dell_chunks : (left : ℕ) (p : List Words) → length (dell_chunks left p) ≡ length p - left
unfolding dell_chunks
length-dell_chunks zero p = omega arith
length-dell_chunks (suc left) [] = omega (arith, length-dell_chunks left [])
length-dell_chunks (suc left) (chunk ∷ rest) = omega (arith, length-dell_chunks left rest)

pub length-add_chunks :
    (left : ℕ) (buff : Words) (p : List Words) → length (add_chunks left buff p) ≡ length p + left
unfolding add_chunks
length-add_chunks zero buff p = omega arith
length-add_chunks (suc left) buff p = omega (arith, length-add_chunks left buff (buff ∷ p))

-- The chunk `i` after `rounds` rounds of an update: every second chunk of twice as many is filled.
abbrev pub updated : ℕ → ℕ → Words → Words
updated rounds i chunk =
    if leb (2 * rounds) i then chunk else (if i % 2 == 0 then fill chunk else chunk)

abbrev pub map_option : (Words → Words) → Option Words → Option Words
map_option f none = none
map_option f (some chunk) = some (f chunk)

two_later :
    (rounds i : ℕ) (chunk : Words)
    → updated rounds i chunk ≡ updated (suc rounds) (suc (suc i)) chunk
two_later rounds i chunk =
    let far : leb (2 * rounds) i ≡ leb (2 * suc rounds) (suc (suc i)) = ground arith in
    let even : (i % 2 == 0) ≡ (suc (suc i) % 2 == 0) = ground arith in rw (far, even) refl

-- On a stack of at least twice as many chunks as the rounds, an update follows no NULL pointer,
-- keeps the number of chunks, and fills the words of the chunks at the even places below twice the
-- rounds, and of no other chunk.
pub update_chunks_lem :
    (rounds : ℕ) (p : List Words)
    → 2 * rounds ≤ length p
    → (p' : List Words) × (update_chunks rounds p ≡ some p')
      × (length p' ≡ length p)
      × ((i : ℕ) → get_elem? p' i ≡ map_option (updated rounds i) (get_elem? p i))
unfolding update_chunks
update_chunks_lem zero [] h = ([], refl, refl, λ i. refl)
update_chunks_lem zero (chunk ∷ rest) h =
    (chunk ∷ rest, refl, refl, λ i. unchanged i (get_elem? (chunk ∷ rest) i))
  where
    unchanged : (i : ℕ) (o : Option Words) → o ≡ map_option (updated zero i) o
    unchanged i none = refl
    unchanged i (some c) = ground arith
update_chunks_lem (suc rounds) [] h = ([], refl, refl, λ i. refl)
update_chunks_lem (suc rounds) (chunk ∷ []) h = absurd (omega arith)
update_chunks_lem (suc rounds) (chunk ∷ next ∷ rest) h =
    let (others, ran, same, each) = update_chunks_lem rounds rest (omega arith) in
    (fill chunk ∷ next ∷ others, rw ran refl, omega (arith, same), at_place others each)
  where
    second : (far : Bool) → next ≡ (if far then next else (if 1 % 2 == 0 then fill next else next))
    second true = refl
    second false = refl

    at_place :
        (others : List Words)
        → ((i : ℕ) → get_elem? others i ≡ map_option (updated rounds i) (get_elem? rest i))
        → (i : ℕ)
        → get_elem? (fill chunk ∷ next ∷ others) i
          ≡ map_option (updated (suc rounds) i) (get_elem? (chunk ∷ next ∷ rest) i)
    at_place others each zero =
        let first : leb (2 * suc rounds) 0 ≡ false = ground arith in rw first refl
    at_place others each (suc zero) = ap some (second (leb (2 * suc rounds) 1))
    at_place others each (suc (suc i)) = each i ∙ later i (get_elem? rest i)
      where
        later :
            (i : ℕ) (o : Option Words)
            → map_option (updated rounds i) o ≡ map_option (updated (suc rounds) (suc (suc i))) o
        later i none = refl
        later i (some c) = ap some (two_later rounds i c)
