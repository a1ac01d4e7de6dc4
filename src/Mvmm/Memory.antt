-- ===== src/Mvmm/Memory.antt =====
-- MVM_MMAP_MULTIVERSIONING/patches/patches.c: what a store, or a rollback elsewhere, does to the memory
-- of the regions.
use mathlib.Core.Path.{subst}
use congenial_octo_telegram.Base.{
  ℕ, ◌+◌, ◌*◌, ◌≤◌, ◌<◌, ◌≡◌, ◌≢◌, inl, inr, sym, ◌∙◌, List, [], ◌∷◌, true, ltb, update, update_ne,
  Bool-cases, arith, All, length,
}
use congenial_octo_telegram.Mvmm.{page_size, Region, region_contains, page_of, write}
use congenial_octo_telegram.Mvmm.Pages.{Saved}
use congenial_octo_telegram.Mvmm.Ranges.{IsRegion, AllSaved, NotIn, IsDisjoint, Covered}

-- A byte of a page is in the region, and its page is that one.
offset-contains :
    (r : Region) (p off : ℕ)
    → IsRegion r
    → ltb p r.npages ≡ true
    → off < page_size
    → region_contains r (r.base + p * page_size + off) ≡ true
offset-contains r p off v h lt = ground (arith, v.whole, v.ends)

offset-page_of :
    (r : Region) (p off : ℕ)
    → IsRegion r
    → ltb p r.npages ≡ true
    → off < page_size
    → page_of r (r.base + p * page_size + off) ≡ p
offset-page_of r p off v h lt = ground (arith, v.whole, v.ends, v.aligned)

-- The bytes of a region that are not of a page with a snapshot.
abbrev pub Unsnapped : ℕ → Region → ℕ → Type 0
Unsnapped ts r x = (region_contains r x ≡ true) × ((r.pages (page_of r x)).slot_ts ≢ ts)

-- A memory that has the same bytes in the pages without a snapshot serves as well.
pub agree-Saved :
    (ts : ℕ) (m₀ m m' : ℕ → ℕ) (r : Region)
    → IsRegion r
    → ((x : ℕ) → Unsnapped ts r x → m' x ≡ m x)
    → Saved ts m₀ m r
    → Saved ts m₀ m' r
agree-Saved ts m₀ m m' r v same saved = record {
  curr_known = saved.curr_known;
  prev_known = saved.prev_known;
  pages = λ p.
      let page = saved.pages p in
      record {
        known = page.known;
        seen = page.seen;
        touched = page.touched;
        snapped = page.snapped;
        kept = page.kept;
        intact = λ old off real lt.
            same (r.base + p * page_size + off) (
              offset-contains r p off v real lt,
              subst (λ k. (r.pages k).slot_ts ≢ ts) (sym (offset-page_of r p off v real lt)) old,
            )
            ∙ page.intact old off real lt;
      };
}

-- Where an address is in a region, its page has a snapshot.
abbrev pub Guarded : ℕ → ℕ → List Region → Type 0
Guarded ts x =
    All (λ (r : Region). region_contains r x ≡ true → (r.pages (page_of r x)).slot_ts ≡ ts)

pub NotIn-Guarded : (ts x : ℕ) (rs : List Region) → NotIn x rs → Guarded ts x rs
NotIn-Guarded ts x [] o = tt
NotIn-Guarded ts x (r ∷ rest) o = (λ h. cc (sym h ∙ o.0), NotIn-Guarded ts x rest o.1)

pub Covered-Guarded :
    (ts x : ℕ) (rs : List Region) → IsDisjoint rs → Covered ts x rs → Guarded ts x rs
Covered-Guarded ts x [] d c = tt
Covered-Guarded ts x (r ∷ rest) d c = (
  c.0,
  elim (Bool-cases (region_contains r x)) [
    | inl here ↦ NotIn-Guarded ts x rest (d.0 x here)
    | inr elsewhere ↦ Covered-Guarded ts x rest d.1 (c.1 elsewhere)
  ],
)

update-AllSaved :
    (ts : ℕ) (m₀ m : ℕ → ℕ) (x byte : ℕ) (rs : List Region)
    → Guarded ts x rs
    → AllSaved ts m₀ m rs
    → AllSaved ts m₀ (update m x byte) rs
update-AllSaved ts m₀ m x byte [] g v = tt
update-AllSaved ts m₀ m x byte (r ∷ rest) g v = (
  (
    agree-Saved ts m₀ m (update m x byte) r v.0.1
        (λ y un. update_ne m x byte y (λ e. un.1 (
          subst (λ z. (r.pages (page_of r z)).slot_ts ≡ ts) e
            (g.0 (subst (λ z. region_contains r z ≡ true) (sym e) un.0)))))
        v.0.0,
    v.0.1,
  ),
  update-AllSaved ts m₀ m x byte rest g.1 v.1,
)

-- A store of bytes whose pages have their snapshots.
pub write-AllSaved :
    (ts : ℕ) (m₀ m : ℕ → ℕ) (at : ℕ) (bytes : List ℕ) (rs : List Region)
    → ((x : ℕ) → at ≤ x → x < at + length bytes → Guarded ts x rs)
    → AllSaved ts m₀ m rs
    → AllSaved ts m₀ (write at bytes m) rs
unfolding write
write-AllSaved ts m₀ m at [] rs g v = v
write-AllSaved ts m₀ m at (byte ∷ rest) rs g v =
    write-AllSaved ts m₀ (update m at byte) (at + 1) rest rs
      (λ x lo hi. g x (omega arith) (omega arith))
      (update-AllSaved ts m₀ m at byte rs (g at (omega arith) (omega arith)) v)

-- A change of the memory outside the regions.
pub agree-AllSaved :
    (ts : ℕ) (m₀ m m' : ℕ → ℕ) (rs : List Region)
    → ((x : ℕ) → ¬ NotIn x rs → m' x ≡ m x)
    → AllSaved ts m₀ m rs
    → AllSaved ts m₀ m' rs
agree-AllSaved ts m₀ m m' [] same v = tt
agree-AllSaved ts m₀ m m' (r ∷ rest) same v = (
  (agree-Saved ts m₀ m m' r v.0.1 (λ x un. same x (λ o. cc (sym un.0 ∙ o.0))) v.0.0, v.0.1),
  agree-AllSaved ts m₀ m m' rest (λ x inside. same x (λ o. inside o.1)) v.1,
)
