-- ===== src/Mvmm/Undo.antt =====
-- MVM_MMAP_MULTIVERSIONING/patches/patches.c: the copy of a page's snapshot back to the page.
use native.Mathlib.Nat.{mul-le-mul_right}
use congenial_octo_telegram.Base.{
  ℕ, suc, ◌+◌, ◌-◌, ◌*◌, ◌≤◌, ◌<◌, ◌≡◌, inl, inr, refl, sym, ap, ◌∙◌, some, false, ◌&&◌, ltb, leb,
  update, update_cases, Bool-cases, arith, lt→ltb, some_inj,
}
use congenial_octo_telegram.Mvmm.{page_size, never, Buffer, Region, region_contains, copy_back}
use congenial_octo_telegram.Mvmm.Pages.{PageSaved, Saved, SameShape, in_curr}
use congenial_octo_telegram.Mvmm.Ranges.{IsRegion}

-- A region and the memory after some pages were rolled back.
pub record Undone (ts : ℕ) (m₀ : ℕ → ℕ) (s s' : Region × (ℕ → ℕ)) : Type 0 where
  pub saved : Saved ts m₀ s'.1 s'.0
  pub shape : SameShape s.0 s'.0
  pub slots : (k : ℕ) → (s'.0.pages k).slot_ts ≡ (s.0.pages k).slot_ts
  pub keeps : (x : ℕ) → s.1 x ≡ m₀ x → s'.1 x ≡ m₀ x
  pub outside : (x : ℕ) → region_contains s.0 x ≡ false → s'.1 x ≡ s.1 x

pub same-Undone :
    (ts : ℕ) (m₀ : ℕ → ℕ) (s : Region × (ℕ → ℕ)) → Saved ts m₀ s.1 s.0 → Undone ts m₀ s s
same-Undone ts m₀ s v = record {
  saved = v;
  shape = record { same_base = refl; same_len = refl; same_npages = refl };
  slots = λ k. refl;
  keeps = λ x h. h;
  outside = λ x h. refl;
}

pub Undone-then :
    (ts : ℕ) (m₀ : ℕ → ℕ) (a b c : Region × (ℕ → ℕ))
    → Undone ts m₀ a b
    → Undone ts m₀ b c
    → Undone ts m₀ a c
Undone-then ts m₀ a b c p q = record {
  saved = q.saved;
  shape = record {
    same_base = q.shape.same_base ∙ p.shape.same_base;
    same_len = q.shape.same_len ∙ p.shape.same_len;
    same_npages = q.shape.same_npages ∙ p.shape.same_npages;
  };
  slots = λ k. q.slots k ∙ p.slots k;
  keeps = λ x h. q.keeps x (p.keeps x h);
  outside = λ x h. q.outside x (rw (p.shape.same_base, p.shape.same_len) h) ∙ p.outside x h;
}

-- All bytes of page `p` are as the epoch found them.
abbrev pub Fixed : (ℕ → ℕ) → (ℕ → ℕ) → Region → ℕ → Type 0
Fixed m₀ m r p =
    (off : ℕ)
    → off < page_size
    → m (r.base + p * page_size + off) ≡ m₀ (r.base + p * page_size + off)

copy_back-inside :
    (r : Region) (p : ℕ) (b : Buffer) (m : ℕ → ℕ) (off : ℕ)
    → off < page_size
    → copy_back r p b m (r.base + p * page_size + off) ≡ b off
copy_back-inside r p b m off h =
    let back : r.base + p * page_size + off - (r.base + p * page_size) ≡ off = omega arith in
    rw
      (
        lt→ltb (r.base + p * page_size + off) (r.base + p * page_size + page_size) (omega arith),
        back,
      )
      (ground arith)

-- The copy of a snapshot changes no byte that is right already, and none outside the page.
copy_back-keeps :
    (m₀ : ℕ → ℕ) (r : Region) (p : ℕ) (b : Buffer) (m : ℕ → ℕ)
    → ((off : ℕ) → off < page_size → b off ≡ m₀ (r.base + p * page_size + off))
    → (x : ℕ) → m x ≡ m₀ x
    → copy_back r p b m x ≡ m₀ x
copy_back-keeps m₀ r p b m bytes x h =
    elim (Bool-cases
      (leb (r.base + p * page_size) x && ltb x (r.base + p * page_size + page_size))) [
        | inr away ↦ rw away h
        | inl inside ↦
            let back : r.base + p * page_size + (x - (r.base + p * page_size)) ≡ x = ground arith in
            rw inside (bytes (x - (r.base + p * page_size)) (ground arith) ∙ ap m₀ back)
      ]

copy_back-outside :
    (r : Region) (p : ℕ) (b : Buffer) (m : ℕ → ℕ)
    → IsRegion r
    → p < r.npages
    → (x : ℕ) → region_contains r x ≡ false
    → copy_back r p b m x ≡ m x
copy_back-outside r p b m v h x out =
    let row : suc p * page_size ≤ r.npages * page_size = mul-le-mul_right page_size h in
    ground (arith, v.whole, v.ends)

pub copied_back-Undone :
    (ts : ℕ) (m₀ m : ℕ → ℕ) (p : ℕ) (b : Buffer) (r : Region)
    → Saved ts m₀ m r
    → IsRegion r
    → p < r.npages
    → (r.pages p).slot_ts ≡ ts
    → (r.pages p).slot ≡ some b
    → Undone ts m₀
        (r, m)
        (
          record r { pages = update r.pages p (record (r.pages p) { last_ts_seen = never }) },
          copy_back r p b m,
        )
      × Fixed m₀ (copy_back r p b m) r p
copied_back-Undone ts m₀ m p b r v region h now there = (
  record {
    saved = record {
      curr_known = v.curr_known;
      prev_known = v.prev_known;
      pages =
          update_cases
            (λ k page.
              PageSaved ts m₀ (copy_back r p b m) (r.base + k * page_size) (ltb k r.npages) page
                (in_curr ts r k))
            r.pages p (record (r.pages p) { last_ts_seen = never }) unseen still;
    };
    shape = record { same_base = refl; same_len = refl; same_npages = refl };
    slots =
        update_cases (λ k page. page.slot_ts ≡ (r.pages k).slot_ts) r.pages p _ refl (λ k. refl);
    keeps = copy_back-keeps m₀ r p b m bytes;
    outside = copy_back-outside r p b m region h;
  },
  λ off lt. copy_back-inside r p b m off lt ∙ bytes off lt,
)
  where
    bytes : (off : ℕ) → off < page_size → b off ≡ m₀ (r.base + p * page_size + off)
    bytes off lt =
        let (c, here, right) = (v.pages p).kept now in
        ap (λ (f : Buffer). f off) (some_inj (sym there ∙ here))
        ∙ right off (lt→ltb p r.npages h) lt

    still :
        (k : ℕ)
        → PageSaved ts m₀
            (copy_back r p b m)
            (r.base + k * page_size)
            (ltb k r.npages)
            (r.pages k)
            (in_curr ts r k)
    still k = record {
      known = (v.pages k).known;
      seen = (v.pages k).seen;
      touched = (v.pages k).touched;
      snapped = (v.pages k).snapped;
      kept = (v.pages k).kept;
      intact = λ old off real lt.
          copy_back-keeps m₀ r p b m bytes _ ((v.pages k).intact old off real lt);
    }

    unseen :
        PageSaved ts m₀
          (copy_back r p b m)
          (r.base + p * page_size)
          (ltb p r.npages)
          (record (r.pages p) { last_ts_seen = never })
          (in_curr ts r p)
    unseen = record {
      known = (still p).known;
      seen = (still p).seen;
      touched = (still p).touched;
      snapped = (still p).snapped;
      kept = (still p).kept;
      intact = (still p).intact;
    }
