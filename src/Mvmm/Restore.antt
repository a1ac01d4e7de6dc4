-- ===== src/Mvmm/Restore.antt =====
-- MVM_MMAP_MULTIVERSIONING/patches/patches.c: the rollback of the region of an object, among all regions.
use congenial_octo_telegram.Base.{
  ℕ, ◌-◌, ◌≤◌, ◌<◌, ◌≡◌, inl, inr, refl, ◌∙◌, List, [], ◌∷◌, true, false, Bool-cases, arith,
}
use congenial_octo_telegram.Mvmm.{never, Region, region_contains, region_rollback, rollback_at}
use congenial_octo_telegram.Mvmm.Memory.{agree-Saved, agree-AllSaved}
use congenial_octo_telegram.Mvmm.Snapshots.{Snapped}
use congenial_octo_telegram.Mvmm.Ranges.{
  AllSaved, NotIn, IsDisjoint, Turned, first-Turned, rest-Turned, together,
}
use congenial_octo_telegram.Mvmm.Rollback.{region_rollback-Undone}
use congenial_octo_telegram.Mvmm.Undo.{Undone}

Undone-Snapped :
    (ts : ℕ) (m₀ : ℕ → ℕ) (s s' : Region × (ℕ → ℕ))
    → Undone ts m₀ s s'
    → Snapped ts m₀ s'.1 0 false s.0 s'.0
Undone-Snapped ts m₀ s s' u = record {
  saved = u.saved;
  taken = λ e. cc;
  others = λ k e. u.slots k ∙ e;
  shape = u.shape;
}

first-NotIn :
    (r : Region) (rest : List Region) (x : ℕ)
    → IsDisjoint (r ∷ rest)
    → ¬ NotIn x rest
    → region_contains r x ≡ false
first-NotIn r rest x d inside = elim (Bool-cases (region_contains r x)) [
  | inl here ↦ absurd (inside (d.0 x here))
  | inr e ↦ e
]

-- The regions and the memory after the rollback of the region of `a`.
pub record Restored (ts : ℕ) (m₀ m : ℕ → ℕ) (a : ℕ) (rs : List Region) (s : List Region × (ℕ → ℕ))
    : Type 0 where
  pub turned : Turned ts m₀ s.1 rs s.0
  pub elsewhere : (x : ℕ) → NotIn x rs → s.1 x ≡ m x
  pub back : (x : ℕ) → together a x rs ≡ true → s.1 x ≡ m₀ x

pub rollback_at-Restored :
    (ts : ℕ) (m₀ m : ℕ → ℕ) (a : ℕ) (rs : List Region)
    → 1 ≤ ts
    → ts < never
    → AllSaved ts m₀ m rs
    → IsDisjoint rs
    → Restored ts m₀ m a rs (rollback_at a (ts - 1) rs m)
unfolding rollback_at
rollback_at-Restored ts m₀ m a [] lo hi v d = record {
  turned = record {
    saved = tt;
    others = λ x c. tt;
    outside = λ x o. tt;
    disjoint = λ h. tt;
    homes = λ b x. refl;
  };
  elsewhere = λ x o. refl;
  back = λ x h. cc;
}
rollback_at-Restored ts m₀ m a (r ∷ rest) lo hi v d = elim (Bool-cases (region_contains r a)) [
  | inl here ↦
      let (undone, back) = region_rollback-Undone ts m₀ m r lo hi v.0.0 v.0.1 in
      let saved =
        agree-AllSaved ts m₀ m (region_rollback (ts - 1) r m).1 rest
          (λ x inside. undone.outside x (first-NotIn r rest x d inside)) v.1 in
      rw here (record {
        turned =
            first-Turned ts m₀ (region_rollback (ts - 1) r m).1 0 false r
              (region_rollback (ts - 1) r m).0 rest
              (Undone-Snapped ts m₀ (r, m) (region_rollback (ts - 1) r m) undone) v.0.1 saved;
        elsewhere = λ x o. undone.outside x o.0;
        back = λ x h. back x (ground (arith, here));
      })
  | inr elsewhere ↦
      let later = rollback_at-Restored ts m₀ m a rest lo hi v.1 d.1 in
      rw elsewhere (record {
        turned =
            rest-Turned ts m₀ (rollback_at a (ts - 1) rest m).1 r rest
              (rollback_at a (ts - 1) rest m).0
              (
                agree-Saved ts m₀ m (rollback_at a (ts - 1) rest m).1 r v.0.1
                    (λ x un. later.elsewhere x (d.0 x un.0)) v.0.0,
                v.0.1,
              )
              later.turned;
        elsewhere = λ x o. later.elsewhere x o.1;
        back = λ x h. later.back x (ground (arith, elsewhere));
      })
]
