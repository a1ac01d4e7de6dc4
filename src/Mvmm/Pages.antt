-- ===== src/Mvmm/Pages.antt =====
-- MVM_MMAP_MULTIVERSIONING/patches/patches.c: what the pages of a region hold within an epoch.
use congenial_octo_telegram.Base.{
  ℕ, ◌+◌, ◌*◌, ◌≤◌, ◌<◌, ◌≡◌, ◌≢◌, List, [], ◌∷◌, ◌++◌, some, Bool, true, false, ◌&&◌, ltb, ◌==◌,
  if◌then◌else◌, arith,
}
use congenial_octo_telegram.Mvmm.{page_size, never, Buffer, Page, Region}

unfoldable pub listed : ℕ → List ℕ → Bool
listed p [] = false
listed p (x ∷ xs) = if x == p then true else listed p xs

pub listed-append :
    (p q : ℕ) (xs : List ℕ) → listed p (xs ++ (q ∷ [])) ≡ (if listed p xs then true else q == p)
unfolding listed
listed-append p q [] = ground arith
listed-append p q (x ∷ xs) = ground (arith, listed-append p q xs)

-- Whether a page is in the list of the epoch `ts`.
abbrev pub in_curr : ℕ → Region → ℕ → Bool
in_curr ts r p = r.touched_curr_ts == ts && listed p r.touched_curr

-- A page at address `at`, in epoch `ts`, where the epoch found the memory as `m₀`: the snapshot holds it
-- if there is one for the epoch, and else the page itself still does. `real` tells a page of the region.
pub record PageSaved (ts : ℕ) (m₀ m : ℕ → ℕ) (at : ℕ) (real : Bool) (page : Page) (in_list : Bool)
    : Type 0 where
  pub known : page.slot_ts ≢ never → page.slot_ts ≤ ts
  pub seen : page.last_touched_ts ≢ never → page.last_touched_ts ≤ ts
  pub touched : page.last_touched_ts ≡ ts → in_list ≡ true
  pub snapped : page.slot_ts ≡ ts → page.last_touched_ts ≡ ts
  pub kept :
      page.slot_ts ≡ ts
      → (b : Buffer) × (page.slot ≡ some b)
        × ((off : ℕ) → real ≡ true → off < page_size → b off ≡ m₀ (at + off))
  pub intact :
      page.slot_ts ≢ ts → (off : ℕ) → real ≡ true → off < page_size → m (at + off) ≡ m₀ (at + off)

pub record Saved (ts : ℕ) (m₀ m : ℕ → ℕ) (r : Region) : Type 0 where
  pub curr_known : r.touched_curr_ts ≢ never → r.touched_curr_ts ≤ ts
  pub prev_known : r.touched_prev_ts ≢ never → r.touched_prev_ts < ts
  pub pages :
      (p : ℕ)
      → PageSaved ts m₀ m (r.base + p * page_size) (ltb p r.npages) (r.pages p) (in_curr ts r p)

pub listed_more :
    (ts : ℕ) (m₀ m : ℕ → ℕ) (at : ℕ) (real : Bool) (page : Page) (b c : Bool)
    → (b ≡ true → c ≡ true)
    → PageSaved ts m₀ m at real page b
    → PageSaved ts m₀ m at real page c
listed_more ts m₀ m at real page b c h v = record {
  known = v.known;
  seen = v.seen;
  touched = λ e. h (v.touched e);
  snapped = v.snapped;
  kept = v.kept;
  intact = v.intact;
}

-- What a step on a region leaves as it is.
pub record SameShape (r r' : Region) : Type 0 where
  pub same_base : r'.base ≡ r.base
  pub same_len : r'.len ≡ r.len
  pub same_npages : r'.npages ≡ r.npages
