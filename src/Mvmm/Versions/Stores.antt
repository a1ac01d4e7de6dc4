-- ===== src/Mvmm/Versions/Stores.antt =====
-- MVM_MMAP_MULTIVERSIONING/patches/patches.c without MMAP_MV_STORE: the stores of an epoch to a page.
use mathlib.Core.Path.{subst}
use congenial_octo_telegram.Base.{
  ℕ, ◌<◌, ◌≡◌, ◌≢◌, ◌⊎◌, inl, inr, refl, sym, ◌∙◌, List, [], ◌∷◌, Option, some, Bool, true, false,
  not, ◌==◌, if◌then◌else◌, update, arith, Option-cases,
}
use congenial_octo_telegram.Mvmm.{never, Buffer}
use congenial_octo_telegram.Mvmm.Versions.{
  Versions, put, open_version, write_version, store_version,
}

put_self {ℓ} : {A : Type ℓ} (f : Bool → A) (s : Bool) (a : A) → put f s a s ≡ a
put_self f true a = refl
put_self f false a = refl

put_other {ℓ} : {A : Type ℓ} (f : Bool → A) (s : Bool) (a : A) → put f (not s) a s ≡ f s
put_other f true a = refl
put_other f false a = refl

-- A page when epoch `ts` begins: its current version is of an earlier epoch, the other is none or older.
pub record IsVersioned (ts : ℕ) (v : Versions) : Type 0 where
  pub held : (b : Buffer) × (v.slots v.cur_slot ≡ some b)
  pub known : v.slot_ts v.cur_slot ≢ never
  pub older : v.slot_ts v.cur_slot < ts
  pub other :
      (v.slot_ts (not v.cur_slot) ≡ never) ⊎ (v.slot_ts (not v.cur_slot) < v.slot_ts v.cur_slot)
  pub closed : v.last_ts_seen ≢ ts

-- A page that epoch `ts` has stored to, where the version before it is in slot `c`.
pub record Opened (ts : ℕ) (c : Bool) (old_ts : ℕ) (b : Option Buffer) (v : Versions) : Type 0 where
  pub current : v.cur_slot ≡ not c
  pub old : v.slots c ≡ b
  pub new : (n : Buffer) × (v.slots (not c) ≡ some n)
  pub ts_of_old : v.slot_ts c ≡ old_ts
  pub ts_of_new : v.slot_ts (not c) ≡ ts
  pub seen : v.last_ts_seen ≡ ts

pub write_version-Opened :
    (ts off byte : ℕ) (c : Bool) (old_ts : ℕ) (b : Option Buffer) (v : Versions)
    → Opened ts c old_ts b v
    → Opened ts c old_ts b (write_version (not c) off byte v)
unfolding write_version
write_version-Opened ts off byte c old_ts b v o =
    let (n, there) = o.new in
    rw (there, write_version)
      (record {
        current = o.current;
        old = put_other v.slots c (some (update n off byte)) ∙ o.old;
        new = (update n off byte, put_self v.slots (not c) (some (update n off byte)));
        ts_of_old = o.ts_of_old;
        ts_of_new = o.ts_of_new;
        seen = o.seen;
      })

open_version-again :
    (alloc : Option Buffer) (ts : ℕ) (v : Versions)
    → v.last_ts_seen ≡ ts
    → open_version alloc ts v ≡ (true, v)
unfolding open_version
open_version-again alloc ts v seen =
    let open_ : (v.last_ts_seen == ts) ≡ true = ground (arith, seen) in rw open_ refl

store_version-again :
    (alloc : Option Buffer) (ts off byte : ℕ) (c : Bool) (old_ts : ℕ) (b : Option Buffer)
    (v : Versions)
    → Opened ts c old_ts b v
    → Opened ts c old_ts b (store_version alloc ts off byte v)
unfolding store_version
store_version-again alloc ts off byte c old_ts b v o =
    subst
      (λ s. Opened ts c old_ts b (write_version (if s.0 then s.1.cur_slot else false) off byte s.1))
      (sym (open_version-again alloc ts v o.seen))
      (subst (λ s. Opened ts c old_ts b (write_version s off byte v)) (sym o.current)
        (write_version-Opened ts off byte c old_ts b v o))

-- The page after the first store of an epoch.
abbrev pub opened : ℕ → Buffer → Versions → Versions
opened ts b v = record {
  last_ts_seen = ts;
  cur_slot = not v.cur_slot;
  slot_ts = put v.slot_ts (not v.cur_slot) ts;
  slots = put v.slots (not v.cur_slot) (some b);
}

pub open_version-first :
    (fresh b : Buffer) (ts : ℕ) (v : Versions)
    → v.last_ts_seen ≢ ts
    → v.slots v.cur_slot ≡ some b
    → open_version (some fresh) ts v ≡ (true, opened ts b v)
unfolding open_version
open_version-first fresh b ts v closed there =
    let new : (v.last_ts_seen == ts) ≡ false = ground (arith, closed) in
    elim (Option-cases (v.slots (not v.cur_slot))) [
      | inl empty ↦ rw (new, empty, there, open_version) refl
      | inr (x, second) ↦ rw (new, second, there, open_version) refl
    ]

pub opened-Opened :
    (ts : ℕ) (b : Buffer) (v : Versions)
    → v.slots v.cur_slot ≡ some b
    → Opened ts v.cur_slot (v.slot_ts v.cur_slot) (v.slots v.cur_slot) (opened ts b v)
opened-Opened ts b v there = record {
  current = refl;
  old = put_other v.slots v.cur_slot (some b);
  new = (b, put_self v.slots (not v.cur_slot) (some b));
  ts_of_old = put_other v.slot_ts v.cur_slot ts;
  ts_of_new = put_self v.slot_ts (not v.cur_slot) ts;
  seen = refl;
}

pub store_version-first :
    (fresh : Buffer) (ts off byte : ℕ) (v : Versions)
    → IsVersioned ts v
    → Opened ts v.cur_slot
        (v.slot_ts v.cur_slot)
        (v.slots v.cur_slot)
        (store_version (some fresh) ts off byte v)
unfolding store_version
store_version-first fresh ts off byte v w =
    let (b, there) = w.held in
    subst
      (λ s.
        Opened ts v.cur_slot (v.slot_ts v.cur_slot) (v.slots v.cur_slot)
          (write_version (if s.0 then s.1.cur_slot else false) off byte s.1))
      (sym (open_version-first fresh b ts v w.closed there))
      (write_version-Opened ts off byte v.cur_slot (v.slot_ts v.cur_slot) (v.slots v.cur_slot)
        (opened ts b v) (opened-Opened ts b v there))

-- Stores of bytes at offsets, one after the other.
unfoldable pub store_versions : Option Buffer → ℕ → List (ℕ × ℕ) → Versions → Versions
store_versions alloc ts [] v = v
store_versions alloc ts (store ∷ rest) v =
    store_versions alloc ts rest (store_version alloc ts store.0 store.1 v)

pub store_versions-again :
    (alloc : Option Buffer) (ts : ℕ) (stores : List (ℕ × ℕ)) (c : Bool) (old_ts : ℕ)
    (b : Option Buffer) (v : Versions)
    → Opened ts c old_ts b v
    → Opened ts c old_ts b (store_versions alloc ts stores v)
unfolding store_versions
store_versions-again alloc ts [] c old_ts b v o = o
store_versions-again alloc ts (store ∷ rest) c old_ts b v o =
    store_versions-again alloc ts rest c old_ts b (store_version alloc ts store.0 store.1 v)
      (store_version-again alloc ts store.0 store.1 c old_ts b v o)
