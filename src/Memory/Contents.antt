-- ===== src/Memory/Contents.antt =====
-- memory/memory.c and chunk_ckpt/chunk_ckpt.c: the checkpoints of the chunks' contents in the build
-- CHUNK_FULL. The copy of an object's memory stands MAX_MEMORY behind it.
pub mod Copies
pub mod Areas
pub mod Checkpoint
use congenial_octo_telegram.Base.{
  ℕ, zero, suc, ◌+◌, ◌-◌, ◌*◌, ◌/◌, ◌%◌, ◌^◌, Option, none, some, Bool, true, false, ◌||◌, ◌&&◌,
  ltb, leb, ◌==◌, if◌then◌else◌, update,
}
use congenial_octo_telegram.Byte.{test_bit, set_bit}
use congenial_octo_telegram.Memory.{
  Area, Allocator, area_count, area_of, chunk_of, set_area, max_memory, min_chunk_size,
}
use congenial_octo_telegram.Memory.Snapshot.{set_allocator_ckpt, restore_allocator, each_area}

-- `memcpy(dst, src, n)`
abbrev pub copy_bytes : ℕ → ℕ → ℕ → (ℕ → ℕ) → ℕ → ℕ
copy_bytes dst src n memory x =
    if leb dst x && ltb x (dst + n) then memory (src + (x - dst)) else memory x

-- The loop over the bits of byte `j` of a bitmap: the chunks whose bit is set, in the area that begins
-- at `dst`, are copied from those in the area at `src`.
unfoldable pub copy_bits : ℕ → ℕ → ℕ → ℕ → ℕ → ℕ → ℕ → (ℕ → ℕ) → ℕ → ℕ
copy_bits zero k j current_byte dst src chunk_size memory = memory
copy_bits (suc rounds) k j current_byte dst src chunk_size memory =
    copy_bits rounds (k + 1) j current_byte dst src chunk_size (
      if test_bit current_byte k
      then copy_bytes (dst + (j * 8 + k) * chunk_size) (src + (j * 8 + k) * chunk_size) chunk_size
          memory
      else memory)

-- The loop over the bytes of the bitmap.
unfoldable pub copy_marked : ℕ → ℕ → (ℕ → ℕ) → ℕ → ℕ → ℕ → (ℕ → ℕ) → ℕ → ℕ
copy_marked zero j bitmap dst src chunk_size memory = memory
copy_marked (suc rounds) j bitmap dst src chunk_size memory =
    copy_marked rounds (j + 1) bitmap dst src chunk_size
      (if bitmap j == 0 then memory else copy_bits 8 0 j (bitmap j) dst src chunk_size memory)

-- The loop over the areas, of `set_used_chunks_ckpt` and of `restore_chunks`, which differ in the bitmap
-- and in the direction: to `dst` behind an area's base from `src` behind it.
unfoldable pub copy_areas : ℕ → ℕ → ℕ → (Area → ℕ → ℕ) → ℕ → ℕ → (ℕ → Area) → (ℕ → ℕ) → ℕ → ℕ
copy_areas zero i chunk_size marks dst src areas memory = memory
copy_areas (suc rounds) i chunk_size marks dst src areas memory =
    let area = areas i in
    copy_areas rounds (i + 1) (chunk_size * 2) marks dst src areas
      (copy_marked area.size 0 (marks area) (area.base + dst) (area.base + src) chunk_size memory)

abbrev pub usage : Area → ℕ → ℕ
usage area = area.bitmap

abbrev pub saved_usage : Area → ℕ → ℕ
saved_usage area = area.bitmap_ckpt

-- The memory of an object, its allocator, and its two seeds with their copies in `object_seeds`.
pub record Object : Type 0 where
  pub allocator : Allocator
  pub memory : ℕ → ℕ
  pub seed1 : ℕ
  pub seed2 : ℕ
  pub saved_seed1 : ℕ
  pub saved_seed2 : ℕ

abbrev pub save_usage : Area → Area
save_usage area = record area {
  bitmap_ckpt = λ j. if ltb j area.size then area.bitmap j else area.bitmap_ckpt j;
}

abbrev pub restore_usage : Area → Area
restore_usage area = record area {
  bitmap = λ j. if ltb j area.size then area.bitmap_ckpt j else area.bitmap j;
}

unfoldable pub set_used_chunks_ckpt : Object → Object
set_used_chunks_ckpt o = record o {
  allocator = record o.allocator { areas = each_area area_count 0 save_usage o.allocator.areas };
  memory = copy_areas area_count 0 min_chunk_size usage max_memory 0 o.allocator.areas o.memory;
}

unfoldable pub restore_chunks : Object → Object
restore_chunks o = record o {
  allocator = record o.allocator { areas = each_area area_count 0 restore_usage o.allocator.areas };
  memory =
      copy_areas area_count 0 min_chunk_size saved_usage 0 max_memory o.allocator.areas o.memory;
}

abbrev pub save_seeds : Object → Object
save_seeds o = record o { saved_seed1 = o.seed1; saved_seed2 = o.seed2 }

abbrev pub restore_seeds : Object → Object
restore_seeds o = record o { seed1 = o.saved_seed1; seed2 = o.saved_seed2 }

abbrev pub save_stacks : Object → Object
save_stacks o = record o { allocator = set_allocator_ckpt false o.allocator }

abbrev pub restore_stacks : Object → Object
restore_stacks o = record o { allocator = restore_allocator o.allocator }

-- `set_ckpt` and `restore_object` of chunk_ckpt.c.
unfoldable pub set_chunks_ckpt : Object → Object
set_chunks_ckpt o = set_used_chunks_ckpt (save_stacks (save_seeds o))

unfoldable pub restore_chunk_object : Object → Object
restore_chunk_object o = restore_seeds (restore_chunks (restore_stacks o))
