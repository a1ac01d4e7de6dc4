-- ===== src/Mvmm/Versions.antt =====
-- MVM_MMAP_MULTIVERSIONING/patches/patches.c without MMAP_MV_STORE: the two versions of a page, of which
-- loads and stores are led to the current one. Slot 0 is `false`, slot 1 `true`.
pub mod Rollbacks
pub mod Stores
use mathlib.Core.Path.{subst}
use congenial_octo_telegram.Base.{
  ℕ, ◌-◌, ◌≤◌, ◌<◌, ◌≡◌, ◌≢◌, ◌⊎◌, inl, inr, refl, sym, ◌∙◌, List, [], ◌∷◌, Option, none, some,
  Bool, true, false, not, ◌&&◌, ◌||◌, leb, ltb, ◌==◌, if◌then◌else◌, update, arith, Option-cases,
}
use congenial_octo_telegram.Mvmm.{never, Buffer}

pub record Versions : Type 0 where
  pub last_ts_seen : ℕ
  pub cur_slot : Bool
  pub slot_ts : Bool → ℕ
  pub slots : Bool → Option Buffer

abbrev pub put {ℓ} : {A : Type ℓ} → (Bool → A) → Bool → A → Bool → A
put f true a true = a
put f true a false = f false
put f false a true = f true
put f false a false = a

-- `mvmm_translate_ea` at a store: the first of an epoch opens a version, in the other slot, from the
-- current one. `false` where the store goes to the page itself, for want of a buffer.
unfoldable pub open_version : Option Buffer → ℕ → Versions → Bool × Versions
open_version alloc ts v =
    let seen = record v { last_ts_seen = ts } in
    let next = not v.cur_slot in
    let dst : Option Buffer = elim (v.slots next) [ none ↦ alloc | some b ↦ some b ] in
    if v.last_ts_seen == ts then (true, v) else elim dst [
      | none ↦ (false, seen)
      | some fresh ↦ elim (v.slots v.cur_slot) [
        | none ↦ (false, record seen { slots = put v.slots next (some fresh) })
        | some current ↦ (
          true,
          record seen {
            slots = put v.slots next (some current);
            slot_ts = put v.slot_ts next ts;
            cur_slot = next;
          },
        )
      ]
    ]

-- A byte stored at an offset of a version.
unfoldable pub write_version : Bool → ℕ → ℕ → Versions → Versions
write_version slot off byte v = elim (v.slots slot) [
  | none ↦ v
  | some b ↦ record v { slots = put v.slots slot (some (update b off byte)) }
]

-- A store that is led to the current version, or to the page itself.
unfoldable pub store_version : Option Buffer → ℕ → ℕ → ℕ → Versions → Versions
store_version alloc ts off byte v =
    let (ok, opened) = open_version alloc ts v in
    write_version (if ok then opened.cur_slot else false) off byte opened

-- The slot of `best` in `mvmm_region_rollback`, if there is one.
unfoldable pub best_slot : ℕ → (Bool → ℕ) → Option Bool
best_slot target_ts slot_ts =
    let is_candidate : Bool → Bool = λ s. not (slot_ts s == never) && leb (slot_ts s) target_ts in
    if is_candidate true && (not (is_candidate false) || leb (slot_ts false) (slot_ts true))
    then some true
    else if is_candidate false
    then some false
    else none

-- One page of `mvmm_region_rollback`.
unfoldable pub rollback_version : ℕ → Versions → Versions
rollback_version target_ts v = elim (best_slot target_ts v.slot_ts) [
  | none ↦ v
  | some best ↦ record v {
    cur_slot = best;
    last_ts_seen = never;
    slot_ts = λ s.
        if not (v.slot_ts s == never) && ltb target_ts (v.slot_ts s) then never else v.slot_ts s;
  }
]
