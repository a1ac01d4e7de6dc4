-- ===== src/Memory/Malloc.antt =====
-- memory/memory.c, `__wrap_malloc`: the class of a size, and the chunk that is handed out.
use native.Mathlib.Decide.{ℕ_discrete}
use congenial_octo_telegram.Base.{
  ℕ, zero, suc, ◌+◌, ◌-◌, ◌*◌, ◌^◌, ◌≤◌, ◌<◌, ◌≡◌, ◌≢◌, ◌⊎◌, inl, inr, sym, ap, some, leb, ◌==◌,
  arith, Bool-cases, some_inj,
}
use congenial_octo_telegram.Memory.{
  Allocator, area_count, max_chunk_size, min_chunk_size, size_class, take_chunk, set_usage,
  set_area,
}

-- The class that `__wrap_malloc` chooses exists; for a size of at most MAX_CHUNK_SIZE its chunks
-- hold the size and those of the class below do not; for a greater size it is the last class, whose
-- chunks do not hold it.
pub size_class_lem :
    (size : ℕ)
    → let i = size_class area_count 0 min_chunk_size 0 size in
      (i < area_count)
      × (size ≤ max_chunk_size → size ≤ min_chunk_size * 2 ^ i)
      × ((i ≡ 0) ⊎ (min_chunk_size * 2 ^ (i - 1) < size))
      × (max_chunk_size < size → i + 1 ≡ area_count)
unfolding size_class
size_class_lem size = ground arith

-- The chunk that `take_chunk` hands out is the top of the first area, from `index` on, that is not used up.
pub record Taken (index : ℕ) (a : Allocator) (p : ℕ) (a' : Allocator) : Type 0 where
  pub area : ℕ
  pub from : index ≤ area
  pub exists : area < area_count
  pub room : (a.areas area).top_elem ≢ (a.areas area).size
  pub skipped : (k : ℕ) → index ≤ k → k < area → (a.areas k).top_elem ≡ (a.areas k).size
  pub top : p ≡ (a.areas area).addresses (a.areas area).top_elem
  pub after :
      a'
      ≡ set_area area
          (set_usage area
            ((a.areas area).addresses (a.areas area).top_elem)
            (record (a.areas area) { top_elem = (a.areas area).top_elem + 1 }))
          a

-- A chunk that `__wrap_malloc` hands out from class `index` on is the top of the first area, from
-- `index` on, whose stack is not used up, and only this area changes: its stack by one, and its
-- usage bits.
pub take_chunk-Taken :
    (fuel index : ℕ) (a : Allocator) (p : ℕ) (a' : Allocator)
    → take_chunk fuel index a ≡ some (p, a')
    → Taken index a p a'
unfolding take_chunk
take_chunk-Taken zero index a p a' h = cc
take_chunk-Taken (suc fuel) index a p a' h = elim (Bool-cases (leb area_count index)) [
  | inl out ↦ cc (rw out at h)
  | inr here ↦ elim (Bool-cases ((a.areas index).top_elem == (a.areas index).size)) [
    | inl full ↦
        let next = take_chunk-Taken fuel (index + 1) a p a' (rw (here, full) at h) in
        record {
          area = next.area;
          from = omega (arith, next.from);
          exists = next.exists;
          room = next.room;
          skipped = λ k lo hi. elim (ℕ_discrete k index) [
            | yes now ↦ rw now (ground arith)
            | no other ↦ next.skipped k (omega arith) hi
          ];
          top = next.top;
          after = next.after;
        }
    | inr room ↦
        let done = some_inj (rw (here, room) at h) in
        record {
          area = index;
          from = omega arith;
          exists = ground arith;
          room = ground arith;
          skipped = λ k lo hi. absurd (omega arith);
          top = sym (ap (λ r. r.0) done);
          after = sym (ap (λ r. r.1) done);
        }
  ]
]
