-- ===== src/Mvmm/Lookup.antt =====
-- MVM_MMAP_MULTIVERSIONING/patches/patches.c: the cache of the last region found.
use congenial_octo_telegram.Base.{
  ℕ, ◌≡◌, ◌⊎◌, inl, inr, refl, sym, ap, ◌∙◌, List, [], ◌∷◌, some, true, false, Bool-cases,
  Option-cases, some_inj,
}
use congenial_octo_telegram.Mvmm.{Region, region_contains, find_region, find_region_cached}
use congenial_octo_telegram.Mvmm.Ranges.{NotIn, IsDisjoint}

found-NotIn :
    (y x : ℕ) (rs : List Region) (r : Region)
    → find_region y rs ≡ some r
    → NotIn x rs
    → region_contains r x ≡ false
unfolding find_region
found-NotIn y x [] r found o = cc
found-NotIn y x (first ∷ rest) r found o = elim (Bool-cases (region_contains first y)) [
  | inl here ↦ let same : first ≡ r = some_inj (sym (rw here refl) ∙ found) in rw (sym same) o.0
  | inr away ↦ found-NotIn y x rest r (rw away at found) o.1
]

-- The region found for an address is the one found for every address that it holds.
find_region_contains :
    (y x : ℕ) (rs : List Region) (r : Region)
    → IsDisjoint rs
    → find_region y rs ≡ some r
    → region_contains r x ≡ true
    → find_region x rs ≡ some r
unfolding find_region
find_region_contains y x [] r d found h = cc
find_region_contains y x (first ∷ rest) r d found h = elim (Bool-cases (region_contains first y)) [
  | inl here ↦
      let same : first ≡ r = some_inj (sym (rw here refl) ∙ found) in
      let there : region_contains first x ≡ true = rw same h in rw there (ap some same)
  | inr away ↦
      let later : find_region y rest ≡ some r = rw away at found in
      elim (Bool-cases (region_contains first x)) [
        | inl both ↦ cc (sym h ∙ found-NotIn y x rest r later (d.0 x both))
        | inr other ↦ rw other (find_region_contains y x rest r d.1 later h)
      ]
]

-- If no region is over another and a thread has cached the result of some lookup,
-- `mvmm_find_region_cached` gives what `mvmm_find_region` gives, and what is cached after it is
-- again the result of a lookup, of this address or of the earlier one.
pub find_region_cached_lem :
    (y x : ℕ) (rs : List Region)
    → IsDisjoint rs
    → let (found, cache) = find_region_cached x (find_region y rs) rs in
      (found ≡ find_region x rs) × ((cache ≡ find_region x rs) ⊎ (cache ≡ find_region y rs))
unfolding find_region_cached
find_region_cached_lem y x rs d = elim (Option-cases (find_region y rs)) [
  | inl none_ ↦ rw none_ (refl, inl refl)
  | inr (r, found) ↦ elim (Bool-cases (region_contains r x)) [
    | inl hit ↦ rw (found, hit) (sym (find_region_contains y x rs r d found hit), inr refl)
    | inr miss ↦ rw (found, miss) (refl, inl refl)
  ]
]
