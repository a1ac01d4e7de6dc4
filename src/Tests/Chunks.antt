-- ===== src/Tests/Chunks.antt =====
-- The memory of object 0 with the first chunk of each area in use.
use native.Mathlib.Nat.{zero-div}
use congenial_octo_telegram.Base.{
  ℕ, zero, suc, ◌+◌, ◌*◌, ◌^◌, ◌/◌, ◌%◌, ◌<◌, ◌≤◌, ◌≡◌, ◌==◌, leb, if◌then◌else◌, refl, sym, ◌∙◌,
  arith, true, false, inl, inr, Bool-cases,
}
use congenial_octo_telegram.Byte.{test_bit}
use congenial_octo_telegram.Memory.{segments, max_memory}
use congenial_octo_telegram.Memory.Contents.{
  Object, set_chunks_ckpt, restore_chunk_object, set_used_chunks_ckpt,
}
use congenial_octo_telegram.Memory.Contents.Areas.{size_at}
use congenial_octo_telegram.Memory.Contents.Checkpoint.{
  AreLaid, Untouched, restore_chunk_object-ckpt,
}
use congenial_octo_telegram.Memory.Snapshot.{set_allocator_ckpt}

abbrev first_used : Object
first_used = record {
  allocator = record {
    areas = λ k. record {
      addresses = λ j. 0;
      top_elem = 1;
      size = segments / size_at k;
      base = 8192 + k * segments;
      bitmap = λ j. if j == 0 then 1 else 0;
      bitmap_ckpt = λ j. 0;
      addresses_ckpt = λ j. 0;
      top_elem_ckpt = 0;
    };
    base = 8192;
  };
  memory = λ x. x;
  seed1 = 3;
  seed2 = 5;
  saved_seed1 = 0;
  saved_seed2 = 0;
}

area_sizes :
    (k : ℕ) → k < 8 → (segments / size_at k * size_at k ≡ segments) × (8 ≤ segments / size_at k)
area_sizes zero h = (refl, omega arith)
area_sizes (suc zero) h = (refl, omega arith)
area_sizes (suc (suc zero)) h = (refl, omega arith)
area_sizes (suc (suc (suc zero))) h = (refl, omega arith)
area_sizes (suc (suc (suc (suc zero)))) h = (refl, omega arith)
area_sizes (suc (suc (suc (suc (suc zero))))) h = (refl, omega arith)
area_sizes (suc (suc (suc (suc (suc (suc zero)))))) h = (refl, omega arith)
area_sizes (suc (suc (suc (suc (suc (suc (suc zero))))))) h = (refl, omega arith)
area_sizes (suc (suc (suc (suc (suc (suc (suc (suc k)))))))) h = absurd (omega arith)

first_used-AreLaid : AreLaid first_used
first_used-AreLaid k h = record {
  place = refl;
  full = (area_sizes k h).0;
  marks = λ c small m. elim (Bool-cases (c / 8 == 0)) [
    | inl first ↦ ground (arith, (area_sizes k h).1)
    | inr other ↦
        let none_ : test_bit 0 (c % 8) ≡ false = rw (zero-div (2 ^ (c % 8))) refl in
        cc (sym none_ ∙ rw other at m)
  ];
}

-- The handlers have overwritten the memory of the object.
abbrev overwritten : Object
overwritten = record (set_chunks_ckpt first_used) {
  memory = λ x. if leb (8192 + max_memory) x then (set_chunks_ckpt first_used).memory x else 0;
  seed1 = 7;
}

overwritten-Untouched : Untouched (set_chunks_ckpt first_used) overwritten
unfolding set_chunks_ckpt set_used_chunks_ckpt set_allocator_ckpt
overwritten-Untouched = record {
  same_start = refl;
  same_base = λ k. refl;
  same_size = λ k. refl;
  same_usage = λ k. refl;
  same_copies = λ x lo hi.
      let inside : leb (8192 + max_memory) x ≡ true = ground (arith, lo) in rw inside refl;
  same_seed1 = refl;
  same_seed2 = refl;
}

restore_chunk_object-ckpt_example :
    ((restore_chunk_object overwritten).memory 8202 ≡ 8202)
    × (((restore_chunk_object overwritten).allocator.areas 0).bitmap 0 ≡ 1)
    × ((restore_chunk_object overwritten).seed1 ≡ 3)
    × ((restore_chunk_object overwritten).seed2 ≡ 5)
restore_chunk_object-ckpt_example =
    restore_chunk_object-ckpt first_used overwritten first_used-AreLaid overwritten-Untouched 0 0 10
      0 (omega arith) (omega arith) refl (omega arith) (omega arith)
