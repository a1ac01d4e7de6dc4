-- ===== src/Tests/Memory.antt =====
-- The allocator of object 0, in a build with two copies of its memory.
use mathlib.Core.List.{Perm}
use congenial_octo_telegram.Base.{
  ℕ, ◌+◌, ◌*◌, ◌-◌, ◌^◌, ◌<◌, ◌≤◌, ◌≡◌, ◌⊎◌, List, ◌∷◌, [], Option, none, some, refl, arith, true,
}
use congenial_octo_telegram.Memory.{
  Allocator, area_count, min_chunk_size, max_chunk_size, size_class, wrap_malloc, wrap_free,
  take_chunk,
}
use congenial_octo_telegram.Memory.Malloc.{size_class_lem}
use congenial_octo_telegram.Memory.Chunks.{free_chunks, IsAllocator, wrap_malloc-perm}
use congenial_octo_telegram.Memory.Snapshot.{
  save_area, serve, MemoryCall, malloc, free, set_allocator_ckpt, restore_allocator,
  restore_allocator-serve,
}

-- Two chunks in each of the areas, one of them out.
abbrev allocator : Allocator
allocator = record {
  areas = λ i. record {
    addresses = λ j. 16384 * i + 32 * j;
    top_elem = 1;
    size = 2;
    base = 16384 * i;
    bitmap = λ j. 1;
    bitmap_ckpt = λ j. 0;
    addresses_ckpt = λ j. 0;
    top_elem_ckpt = 0;
  };
  base = 0;
}

allocator-IsAllocator : IsAllocator allocator
allocator-IsAllocator = record { bounded = λ i h. omega arith }

size_class_lem_example :
    let i = size_class area_count 0 min_chunk_size 0 100 in
    (i < area_count)
    × (100 ≤ max_chunk_size → 100 ≤ min_chunk_size * 2 ^ i)
    × ((i ≡ 0) ⊎ (min_chunk_size * 2 ^ (i - 1) < 100))
    × (max_chunk_size < 100 → i + 1 ≡ area_count)
size_class_lem_example = size_class_lem 100

abbrev behind_malloc : Option (Option ℕ × Allocator) → Allocator
behind_malloc none = allocator
behind_malloc (some r) = r.1

abbrev behind_free : Option Allocator → Allocator
behind_free none = allocator
behind_free (some a) = a

abbrev behind_take : Option (ℕ × Allocator) → Allocator
behind_take none = allocator
behind_take (some r) = r.1

malloc_ran :
    wrap_malloc 100 allocator ≡ some (some 32800, behind_malloc (wrap_malloc 100 allocator))
unfolding wrap_malloc size_class take_chunk
malloc_ran = refl

wrap_malloc-perm_example :
    Perm
      (free_chunks 8 allocator)
      (32800 ∷ free_chunks 8 (behind_malloc (wrap_malloc 100 allocator)))
wrap_malloc-perm_example =
    wrap_malloc-perm 100 allocator 32800 (behind_malloc (wrap_malloc 100 allocator)) malloc_ran
      allocator-IsAllocator

free_ran : wrap_free 32768 allocator ≡ some (behind_free (wrap_free 32768 allocator))
unfolding wrap_free
free_ran = refl

-- Area 2 has one chunk left, so the second of these requests falls through to area 3.
abbrev requests : List MemoryCall
requests = malloc 100 ∷ malloc 100 ∷ free 32768 ∷ []

requests_ran :
    serve requests (set_allocator_ckpt true allocator)
    ≡ some (behind_free (serve requests (set_allocator_ckpt true allocator)))
unfolding serve set_allocator_ckpt save_area wrap_malloc wrap_free
requests_ran = refl

restore_allocator-serve_example :
    free_chunks 8
      (restore_allocator (behind_free (serve requests (set_allocator_ckpt true allocator))))
    ≡ free_chunks 8 allocator
restore_allocator-serve_example =
    restore_allocator-serve true allocator
      (behind_free (serve requests (set_allocator_ckpt true allocator))) requests requests_ran
      allocator-IsAllocator

take_chunk_ran : take_chunk 9 2 allocator ≡ some (32800, behind_take (take_chunk 9 2 allocator))
unfolding take_chunk
take_chunk_ran = refl
