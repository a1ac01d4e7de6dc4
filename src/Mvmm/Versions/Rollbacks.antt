-- ===== src/Mvmm/Versions/Rollbacks.antt =====
-- MVM_MMAP_MULTIVERSIONING/patches/patches.c without MMAP_MV_STORE: the rollback of a page.
use mathlib.Core.Path.{subst}
use congenial_octo_telegram.Base.{
  ℕ, ◌-◌, ◌≤◌, ◌<◌, ◌≡◌, ◌≢◌, ◌⊎◌, inl, inr, refl, sym, ◌∙◌, List, [], ◌∷◌, none, some, Bool, true,
  false, not, if◌then◌else◌, arith,
}
use congenial_octo_telegram.Mvmm.{never, Buffer}
use congenial_octo_telegram.Mvmm.Versions.{
  Versions, write_version, store_version, best_slot, rollback_version,
}
use congenial_octo_telegram.Mvmm.Versions.Stores.{
  IsVersioned, Opened, write_version-Opened, opened, open_version-first, opened-Opened,
  store_version-first, store_versions, store_versions-again,
}

best_slot-old :
    (target_ts : ℕ) (slot_ts : Bool → ℕ) (c : Bool)
    → slot_ts c ≢ never
    → slot_ts c ≤ target_ts
    → (slot_ts (not c) ≡ never) ⊎ ((target_ts < slot_ts (not c)) ⊎ (slot_ts (not c) < slot_ts c))
    → best_slot target_ts slot_ts ≡ some c
unfolding best_slot
best_slot-old target_ts slot_ts true known old other = ground arith
best_slot-old target_ts slot_ts false known old other = ground arith

rollback_version-best :
    (target_ts : ℕ) (v : Versions) (c : Bool)
    → best_slot target_ts v.slot_ts ≡ some c
    → (rollback_version target_ts v).slots (rollback_version target_ts v).cur_slot ≡ v.slots c
unfolding rollback_version
rollback_version-best target_ts v c best = rw (best, rollback_version) refl

-- In an epoch after the first and before UINT64_MAX, if the current version of a page is of an
-- earlier epoch, the other version is of none or an older one, and the page was not seen in this
-- epoch, then after any stores of the epoch, which find a buffer, the rollback to the epoch before
-- makes a version current that holds what the current one held when the epoch began.
pub rollback_version-stores :
    (fresh : Buffer) (ts : ℕ) (stores : List (ℕ × ℕ)) (v : Versions)
    → 1 ≤ ts
    → ts < never
    → IsVersioned ts v
    → let back = rollback_version (ts - 1) (store_versions (some fresh) ts stores v) in
      back.slots back.cur_slot ≡ v.slots v.cur_slot
unfolding store_versions
rollback_version-stores fresh ts [] v lo hi w = rollback_version-best (ts - 1) v v.cur_slot (
    best_slot-old (ts - 1) v.slot_ts v.cur_slot w.known (omega (arith, w.older))
      (ground (arith, w.other)))
rollback_version-stores fresh ts (store ∷ rest) v lo hi w =
    let first = store_version-first fresh ts store.0 store.1 v w in
    let o =
      store_versions-again (some fresh) ts rest v.cur_slot (v.slot_ts v.cur_slot)
        (v.slots v.cur_slot) (store_version (some fresh) ts store.0 store.1 v) first in
    rollback_version-best (ts - 1) after v.cur_slot (
      best_slot-old (ts - 1) after.slot_ts v.cur_slot (ground (arith, o.ts_of_old, w.known))
        (omega (arith, o.ts_of_old, w.older)) (inr (inl (omega (arith, o.ts_of_new)))))
    ∙ o.old
  where
    after : Versions
    after = store_versions (some fresh) ts rest (store_version (some fresh) ts store.0 store.1 v)

-- A page that no epoch has stored to.
pub record IsUnversioned (v : Versions) : Type 0 where
  pub page_held : (b : Buffer) × (v.slots v.cur_slot ≡ some b)
  pub no_ts : (s : Bool) → v.slot_ts s ≡ never
  pub not_seen : v.last_ts_seen ≡ never

no_best_slot :
    (ts : ℕ) (slot_ts : Bool → ℕ) (c : Bool)
    → 1 ≤ ts
    → slot_ts c ≡ never
    → slot_ts (not c) ≡ ts
    → best_slot (ts - 1) slot_ts ≡ none
unfolding best_slot
no_best_slot ts slot_ts true lo old new = ground arith
no_best_slot ts slot_ts false lo old new = ground arith

store_version-unversioned :
    (fresh : Buffer) (ts off byte : ℕ) (v : Versions)
    → ts < never
    → IsUnversioned v
    → Opened ts v.cur_slot
        (v.slot_ts v.cur_slot)
        (v.slots v.cur_slot)
        (store_version (some fresh) ts off byte v)
unfolding store_version
store_version-unversioned fresh ts off byte v hi w =
    let (b, there) = w.page_held in
    subst
      (λ s.
        Opened ts v.cur_slot (v.slot_ts v.cur_slot) (v.slots v.cur_slot)
          (write_version (if s.0 then s.1.cur_slot else false) off byte s.1))
      (sym (open_version-first fresh b ts v (λ e. omega (arith, e, w.not_seen)) there))
      (write_version-Opened ts off byte v.cur_slot (v.slot_ts v.cur_slot) (v.slots v.cur_slot)
        (opened ts b v) (opened-Opened ts b v there))

-- If a page was in no epoch stored to before, then after one or more stores of an epoch after the
-- first and before UINT64_MAX, which find a buffer, the rollback to the epoch before leaves the
-- page as the stores have made it.
pub rollback_version-unversioned :
    (fresh : Buffer) (ts : ℕ) (first : ℕ × ℕ) (stores : List (ℕ × ℕ)) (v : Versions)
    → 1 ≤ ts
    → ts < never
    → IsUnversioned v
    → let after = store_versions (some fresh) ts (first ∷ stores) v in
      rollback_version (ts - 1) after ≡ after
unfolding store_versions rollback_version
rollback_version-unversioned fresh ts first stores v lo hi w =
    let o =
      store_versions-again (some fresh) ts stores v.cur_slot (v.slot_ts v.cur_slot)
        (v.slots v.cur_slot) (store_version (some fresh) ts first.0 first.1 v)
        (store_version-unversioned fresh ts first.0 first.1 v hi w) in
    let none_ =
      no_best_slot ts
        (store_versions (some fresh) ts stores
          (store_version (some fresh) ts first.0 first.1 v)).slot_ts
        v.cur_slot lo (o.ts_of_old ∙ w.no_ts v.cur_slot) o.ts_of_new in
    rw (none_, rollback_version) refl
