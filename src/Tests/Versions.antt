-- ===== src/Tests/Versions.antt =====
-- A page in its second epoch, a page before its first store, and an instruction with a base register.
use congenial_octo_telegram.Base.{
  ◌+◌, ◌≡◌, ◌∷◌, [], none, some, refl, arith, true, false, if◌then◌else◌, inl,
}
use congenial_octo_telegram.Mvmm.{never}
use congenial_octo_telegram.Mvmm.Registers.{
  Instruction, compute_effective_address, rewrite_base_reg_for_ea, rewrite_base_reg_for_ea_lem,
}
use congenial_octo_telegram.Mvmm.Versions.{Versions, rollback_version}
use congenial_octo_telegram.Mvmm.Versions.Stores.{IsVersioned, store_versions}
use congenial_octo_telegram.Mvmm.Versions.Rollbacks.{
  IsUnversioned, rollback_version-stores, rollback_version-unversioned,
}

abbrev one_epoch : Versions
one_epoch = record {
  last_ts_seen = 1;
  cur_slot = true;
  slot_ts = λ s. if s then 1 else never;
  slots = λ s. some (λ off. off + 1);
}

abbrev new_page : Versions
new_page = record {
  last_ts_seen = never;
  cur_slot = false;
  slot_ts = λ s. never;
  slots = λ s. if s then none else some (λ off. off);
}

one_epoch-IsVersioned : IsVersioned 2 one_epoch
one_epoch-IsVersioned = record {
  held = ((λ off. off + 1), refl);
  known = λ e. omega arith;
  older = omega arith;
  other = inl refl;
  closed = λ e. omega arith;
}

new_page-IsUnversioned : IsUnversioned new_page
new_page-IsUnversioned = record {
  page_held = ((λ off. off), refl);
  no_ts = λ s. refl;
  not_seen = refl;
}

rollback_version-stores_example :
    let back =
      rollback_version 1 (store_versions (some (λ off. 0)) 2 ((3, 7) ∷ (4, 8) ∷ []) one_epoch) in
    back.slots back.cur_slot ≡ some (λ off. off + 1)
rollback_version-stores_example =
    rollback_version-stores (λ off. 0) 2 ((3, 7) ∷ (4, 8) ∷ []) one_epoch (omega arith)
      (omega arith) one_epoch-IsVersioned

rollback_version-unversioned_example :
    let after = store_versions (some (λ off. 0)) 1 ((3, 7) ∷ (4, 8) ∷ []) new_page in
    rollback_version 0 after ≡ after
rollback_version-unversioned_example =
    rollback_version-unversioned (λ off. 0) 1 (3, 7) ((4, 8) ∷ []) new_page (omega arith)
      (omega arith) new_page-IsUnversioned

-- A load at 16 behind register 2.
abbrev load : Instruction
load = record {
  effective_operand_address = 0;
  rip_relative = false;
  displacement = 16;
  base_index = 2;
  scale_index = 0;
  scale = 1;
}

rewrite_base_reg_for_ea_lem_example :
    let (ok, after) =
      rewrite_base_reg_for_ea load (compute_effective_address load (λ r. 4096)) 512 (λ r. 4096) in
    (ok ≡ true → compute_effective_address load after ≡ 512) × (ok ≡ false → after ≡ (λ r. 4096))
rewrite_base_reg_for_ea_lem_example =
    rewrite_base_reg_for_ea_lem load 512 (λ r. 4096) refl (omega arith)
