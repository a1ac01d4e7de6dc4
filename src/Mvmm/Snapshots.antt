-- ===== src/Mvmm/Snapshots.antt =====
-- MVM_MMAP_MULTIVERSIONING/patches/patches.c: the snapshot of a page.
use congenial_octo_telegram.Base.{
  ℕ, ◌+◌, ◌*◌, ◌≡◌, ◌≢◌, inl, inr, refl, sym, ap, ◌∙◌, [], ◌∷◌, ◌++◌, Option, none, some, Bool,
  true, ◌&&◌, ltb, ◌==◌, update, update_self, update_cases, Bool-cases, Option-cases, arith,
}
use congenial_octo_telegram.Mvmm.{
  page_size, Buffer, Page, Region, store_rotate_touched, store_note_page_touch,
  store_prepare_snapshot_slot, store_snapshot_page, page_bytes,
}
use congenial_octo_telegram.Mvmm.Pages.{
  listed, listed-append, in_curr, PageSaved, Saved, listed_more, SameShape,
}

store_rotate_touched-Saved :
    (ts : ℕ) (m₀ m : ℕ → ℕ) (r : Region)
    → Saved ts m₀ m r
    → Saved ts m₀ m (store_rotate_touched ts r)
      × ((store_rotate_touched ts r).touched_curr_ts ≡ ts)
      × ((store_rotate_touched ts r).pages ≡ r.pages)
      × SameShape r (store_rotate_touched ts r)
unfolding store_rotate_touched
store_rotate_touched-Saved ts m₀ m r v = elim (Bool-cases (r.touched_curr_ts == ts)) [
  | inl same ↦
      rw same
        (v, ground arith, refl, record { same_base = refl; same_len = refl; same_npages = refl })
  | inr new ↦ rw new (
    record {
      curr_known = λ h. omega arith;
      prev_known = λ h. ground (arith, v.curr_known h);
      pages = λ p.
          listed_more ts m₀ m _ _ (r.pages p) (in_curr ts r p) _ (λ e. ground arith) (v.pages p);
    },
    refl,
    refl,
    record { same_base = refl; same_len = refl; same_npages = refl },
  )
]

-- After a step that notes page `p`: the region is as before, but for the page's mark and the list.
pub record Noted (ts : ℕ) (m₀ m : ℕ → ℕ) (p : ℕ) (r r' : Region) : Type 0 where
  pub saved : Saved ts m₀ m r'
  pub marked : (r'.pages p).last_touched_ts ≡ ts
  pub slots : (k : ℕ) → ((r'.pages k).slot_ts ≡ (r.pages k).slot_ts)
  pub shape : SameShape r r'

marked-PageSaved :
    (ts : ℕ) (m₀ m : ℕ → ℕ) (at : ℕ) (real : Bool) (page : Page) (b : Bool)
    → PageSaved ts m₀ m at real page b
    → PageSaved ts m₀ m at real (record page { last_touched_ts = ts }) true
marked-PageSaved ts m₀ m at real page b v = record {
  known = v.known;
  seen = λ h. omega arith;
  touched = λ e. refl;
  snapped = λ e. refl;
  kept = v.kept;
  intact = v.intact;
}

store_note_page_touch-Noted :
    (ts p : ℕ) (m₀ m : ℕ → ℕ) (r : Region)
    → Saved ts m₀ m r
    → Noted ts m₀ m p r (store_note_page_touch p ts r)
unfolding store_note_page_touch
store_note_page_touch-Noted ts p m₀ m r v =
    let (saved, now, same, shape) = store_rotate_touched-Saved ts m₀ m r v in
    elim (Bool-cases ((r.pages p).last_touched_ts == ts)) [
      | inl before ↦ rw before (record {
        saved = saved;
        marked = rw same (ground arith);
        slots = λ k. rw same;
        shape = shape;
      })
      | inr first ↦ rw first (record {
        saved = record {
          curr_known = saved.curr_known;
          prev_known = saved.prev_known;
          pages = noted_pages saved now;
        };
        marked = ap (λ (x : Page). x.last_touched_ts) (update_self rotated.pages p _);
        slots = λ k. noted_slots k ∙ ap (λ (f : ℕ → Page). (f k).slot_ts) same;
        shape = record {
          same_base = shape.same_base;
          same_len = shape.same_len;
          same_npages = shape.same_npages;
        };
      })
    ]
  where
    rotated : Region
    rotated = store_rotate_touched ts r

    noted : ℕ → Page
    noted = update rotated.pages p (record (rotated.pages p) { last_touched_ts = ts })

    noted_pages :
        Saved ts m₀ m rotated
        → rotated.touched_curr_ts ≡ ts
        → (k : ℕ)
        → PageSaved ts m₀ m
            (rotated.base + k * page_size)
            (ltb k rotated.npages)
            (noted k)
            (rotated.touched_curr_ts == ts && listed k (rotated.touched_curr ++ (p ∷ [])))
    noted_pages saved now =
        update_cases
          (λ k page.
            PageSaved ts m₀ m (rotated.base + k * page_size) (ltb k rotated.npages) page
              (rotated.touched_curr_ts == ts && listed k (rotated.touched_curr ++ (p ∷ []))))
          rotated.pages p _
          (listed_more ts m₀ m _ _ _ true _
            (λ e. ground (arith, listed-append p p rotated.touched_curr))
            (marked-PageSaved ts m₀ m _ _ (rotated.pages p) _ (saved.pages p)))
          (λ k.
            listed_more ts m₀ m _ _ (rotated.pages k) (in_curr ts rotated k) _
              (λ e. ground (arith, listed-append k p rotated.touched_curr)) (saved.pages k))

    noted_slots : (k : ℕ) → (noted k).slot_ts ≡ (rotated.pages k).slot_ts
    noted_slots =
        update_cases (λ k page. page.slot_ts ≡ (rotated.pages k).slot_ts) rotated.pages p _ refl
          (λ k. refl)

-- Giving a page without a snapshot a buffer.
with_buffer-Saved :
    (ts p : ℕ) (m₀ m : ℕ → ℕ) (buffer : Buffer) (r : Region)
    → Saved ts m₀ m r
    → (r.pages p).slot ≡ none
    → Saved ts m₀ m
        (record r { pages = update r.pages p (record (r.pages p) { slot = some buffer }) })
with_buffer-Saved ts p m₀ m buffer r v empty = record {
  curr_known = v.curr_known;
  prev_known = v.prev_known;
  pages =
      update_cases
        (λ k page.
          PageSaved ts m₀ m (r.base + k * page_size) (ltb k r.npages) page (in_curr ts r k))
        r.pages p _
        (record {
          known = (v.pages p).known;
          seen = (v.pages p).seen;
          touched = (v.pages p).touched;
          snapped = (v.pages p).snapped;
          kept = λ e. let (b, there, bytes) = (v.pages p).kept e in cc (sym empty ∙ there);
          intact = (v.pages p).intact;
        })
        v.pages;
}

store_prepare_snapshot_slot-Noted :
    (alloc : ℕ → Option Buffer) (ts p : ℕ) (m₀ m : ℕ → ℕ) (r : Region)
    → Saved ts m₀ m r
    → Noted ts m₀ m p r (store_prepare_snapshot_slot alloc p ts r).1
unfolding store_prepare_snapshot_slot
store_prepare_snapshot_slot-Noted alloc ts p m₀ m r v =
    let n = store_note_page_touch-Noted ts p m₀ m r v in
    elim (Option-cases ((store_note_page_touch p ts r).pages p).slot) [
      | inr (b, there) ↦ rw (there, store_prepare_snapshot_slot) n
      | inl empty ↦ elim (Option-cases (alloc p)) [
        | inl failed ↦ rw (empty, store_prepare_snapshot_slot, failed) n
        | inr (b, given) ↦
            rw (empty, store_prepare_snapshot_slot, given)
              (record {
                saved = with_buffer-Saved ts p m₀ m b noted n.saved empty;
                marked =
                    update_cases (λ k page. page.last_touched_ts ≡ (noted.pages k).last_touched_ts)
                      noted.pages p _ refl (λ k. refl) p
                    ∙ n.marked;
                slots = λ k.
                    update_cases (λ k page. page.slot_ts ≡ (noted.pages k).slot_ts) noted.pages p _
                      refl (λ k. refl) k
                    ∙ n.slots k;
                shape = record {
                  same_base = n.shape.same_base;
                  same_len = n.shape.same_len;
                  same_npages = n.shape.same_npages;
                };
              })
      ]
    ]
  where
    noted : Region
    noted = store_note_page_touch p ts r

-- After the snapshot of page `p`.
pub record Snapped (ts : ℕ) (m₀ m : ℕ → ℕ) (p : ℕ) (ok : Bool) (r r' : Region) : Type 0 where
  pub saved : Saved ts m₀ m r'
  pub taken : ok ≡ true → (r'.pages p).slot_ts ≡ ts
  pub others : (k : ℕ) → (r.pages k).slot_ts ≡ ts → (r'.pages k).slot_ts ≡ ts
  pub shape : SameShape r r'

-- A page that is copied while it is as the epoch found it.
copied-Saved :
    (ts p : ℕ) (m₀ m : ℕ → ℕ) (r : Region)
    → Saved ts m₀ m r
    → (r.pages p).slot_ts ≢ ts
    → (r.pages p).last_touched_ts ≡ ts
    → Saved ts m₀ m (record r {
      pages =
          update r.pages p (record (r.pages p) {
            slot = some (page_bytes r p m);
            slot_ts = ts;
            last_ts_seen = ts;
          });
    })
copied-Saved ts p m₀ m r v old marked = record {
  curr_known = v.curr_known;
  prev_known = v.prev_known;
  pages =
      update_cases
        (λ k page.
          PageSaved ts m₀ m (r.base + k * page_size) (ltb k r.npages) page (in_curr ts r k))
        r.pages p _
        (record {
          known = λ h. omega arith;
          seen = (v.pages p).seen;
          touched = (v.pages p).touched;
          snapped = λ e. marked;
          kept = λ e. (page_bytes r p m, refl, (v.pages p).intact old);
          intact = λ h. absurd (h refl);
        })
        v.pages;
}

pub store_snapshot_page-Snapped :
    (alloc : ℕ → Option Buffer) (ts p : ℕ) (m₀ m : ℕ → ℕ) (r : Region)
    → Saved ts m₀ m r
    → Snapped ts m₀ m p
        (store_snapshot_page alloc m p ts r).0
        r
        (store_snapshot_page alloc m p ts r).1
unfolding store_snapshot_page
store_snapshot_page-Snapped alloc ts p m₀ m r v =
    let n = store_prepare_snapshot_slot-Noted alloc ts p m₀ m r v in
    elim (Bool-cases (store_prepare_snapshot_slot alloc p ts r).0) [
      | inr failed ↦ rw failed (record {
        saved = n.saved;
        taken = λ e. cc;
        others = λ k e. n.slots k ∙ e;
        shape = n.shape;
      })
      | inl ok ↦ elim (Bool-cases ((ready.pages p).slot_ts == ts)) [
        | inl before ↦
            rw (ok, before)
              (record {
                saved = n.saved;
                taken = λ e. ground arith;
                others = λ k e. n.slots k ∙ e;
                shape = n.shape;
              })
        | inr first ↦
            rw (ok, first)
              (record {
                saved = copied-Saved ts p m₀ m ready n.saved (λ e. ground arith) n.marked;
                taken = λ e. ap (λ (x : Page). x.slot_ts) (update_self ready.pages p _);
                others = λ k e.
                    update_cases (λ k page. (ready.pages k).slot_ts ≡ ts → page.slot_ts ≡ ts)
                      ready.pages p _ (λ h. refl) (λ k h. h) k (n.slots k ∙ e);
                shape = record {
                  same_base = n.shape.same_base;
                  same_len = n.shape.same_len;
                  same_npages = n.shape.same_npages;
                };
              })
      ]
    ]
  where
    ready : Region
    ready = (store_prepare_snapshot_slot alloc p ts r).1
