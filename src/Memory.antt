-- ===== src/Memory.antt =====
-- memory/memory.c: the chunk allocator of one simulation object, and `struct _area`. The object is the
-- `current` one of the thread. An array of addresses is a function of the index.
pub mod Malloc
pub mod Chunks
pub mod Snapshot
pub mod Contents
use congenial_octo_telegram.Base.{
  ℕ, zero, suc, ◌+◌, ◌-◌, ◌*◌, ◌/◌, ◌%◌, ◌^◌, Option, none, some, ◌||◌, ltb, leb, ◌==◌,
  if◌then◌else◌, update,
}
use congenial_octo_telegram.Byte.{set_bit, clear_bit}

-- MIN_CHUNK_SIZE, MAX_CHUNK_SIZE, MAX_MEMORY, SEGMENTS and SEGMENT_PAGES
abbrev pub min_chunk_size : ℕ
min_chunk_size = 32

abbrev pub max_chunk_size : ℕ
max_chunk_size = 4096

abbrev pub max_memory : ℕ
max_memory = 2097152

abbrev pub segments : ℕ
segments = max_memory / 2 ^ 3

abbrev pub segment_pages : ℕ
segment_pages = segments / 2 ^ 12

-- `(int)((double)(MAX_MEMORY >> 12) / (double)(SEGMENT_PAGES))`
abbrev pub area_count : ℕ
area_count = max_memory / 2 ^ 12 / segment_pages

pub record Area : Type 0 where
  pub addresses : ℕ → ℕ
  pub top_elem : ℕ
  pub size : ℕ
  pub base : ℕ
  pub bitmap : ℕ → ℕ
  pub bitmap_ckpt : ℕ → ℕ
  pub addresses_ckpt : ℕ → ℕ
  pub top_elem_ckpt : ℕ

-- `allocators[current]` and `base[current]`
pub record Allocator : Type 0 where
  pub areas : ℕ → Area
  pub base : ℕ

-- MEM_NODES
abbrev mem_nodes : ℕ
mem_nodes = 2

-- Where the memory of an object starts; `copies` is 3 for GRID_CKPT, 2 for CHUNK_BASED and else 1.
unfoldable pub target_address : ℕ → ℕ → ℕ
target_address copies object = 8 * (1024 * max_memory) + object * (copies * max_memory * mem_nodes)

-- The inner loop of `object_allocator_setup`: `rounds` chunks from index `j` and address `limit` on.
unfoldable pub fill_addresses : ℕ → ℕ → ℕ → ℕ → (ℕ → ℕ) → ℕ → ℕ
fill_addresses zero j limit chunk_size addresses = addresses
fill_addresses (suc rounds) j limit chunk_size addresses =
    fill_addresses rounds (j + 1) (limit + chunk_size) chunk_size (update addresses j limit)

-- One round of the outer loop. The contents of fresh memory are no matter: they are 0 here.
unfoldable pub setup_area : ℕ → ℕ → Area
setup_area limit chunk_size = record {
  addresses = fill_addresses (segment_pages * 2 ^ 12 / chunk_size) 0 limit chunk_size (λ j. 0);
  top_elem = 0;
  size = segment_pages * 2 ^ 12 / chunk_size;
  base = limit;
  bitmap = λ j. 0;
  bitmap_ckpt = λ j. 0;
  addresses_ckpt = λ j. 0;
  top_elem_ckpt = 0;
}

-- The outer loop: after an area `limit` stands behind its last chunk.
unfoldable pub setup_areas : ℕ → ℕ → ℕ → ℕ → (ℕ → Area) → ℕ → Area
setup_areas zero i limit chunk_size areas = areas
setup_areas (suc rounds) i limit chunk_size areas =
    setup_areas rounds (i + 1) (limit + (setup_area limit chunk_size).size * chunk_size)
      (chunk_size * 2) (update areas i (setup_area limit chunk_size))

unfoldable pub object_allocator_setup : ℕ → ℕ → Allocator
unfolding setup_areas setup_area
object_allocator_setup copies object = record {
  areas =
      setup_areas area_count 0 (target_address copies object) min_chunk_size
        (λ i. setup_area 0 min_chunk_size);
  base = target_address copies object;
}

-- The search of `__wrap_malloc` for the class of a size, with the chunk size of class `i`; `index` is
-- what the loop leaves behind. The fuel counts the classes.
unfoldable pub size_class : ℕ → ℕ → ℕ → ℕ → ℕ → ℕ
size_class zero i chunk_size index size = index
size_class (suc fuel) i chunk_size index size =
    let next = size_class fuel (i + 1) (chunk_size * 2) i size in
    if leb chunk_size max_chunk_size then (if leb size chunk_size then i else next) else index

-- CHUNK_FULL: where the usage bit of a chunk stands.
abbrev pub chunk_of : ℕ → Area → ℕ → ℕ
chunk_of index area address = (address - area.base) / 2 ^ (index + 5)

abbrev pub set_usage : ℕ → ℕ → Area → Area
set_usage index address area =
    let chunk = chunk_of index area address in
    record area {
      bitmap = update area.bitmap (chunk / 8) (set_bit (area.bitmap (chunk / 8)) (chunk % 8));
    }

abbrev pub clear_usage : ℕ → ℕ → Area → Area
clear_usage index address area =
    let chunk = chunk_of index area address in
    record area {
      bitmap = update area.bitmap (chunk / 8) (clear_bit (area.bitmap (chunk / 8)) (chunk % 8));
    }

abbrev pub set_area : ℕ → Area → Allocator → Allocator
set_area index area a = record a { areas = update a.areas index area }

-- The label `redo` of `__wrap_malloc`: an exhausted class passes the request on to the next. `none`
-- is the exit for want of memory; the fuel is enough for all classes.
unfoldable pub take_chunk : ℕ → ℕ → Allocator → Option (ℕ × Allocator)
take_chunk zero index a = none
take_chunk (suc fuel) index a =
    let next = take_chunk fuel (index + 1) a in
    let area = a.areas index in
    if leb area_count index
    then none
    else if area.top_elem == area.size
    then next
    else some (
      area.addresses area.top_elem,
      set_area index
          (set_usage index (area.addresses area.top_elem)
            (record area { top_elem = area.top_elem + 1 }))
          a,
    )

-- `__wrap_malloc`; the inner `none` is the NULL for size 0.
unfoldable pub wrap_malloc : ℕ → Allocator → Option (Option ℕ × Allocator)
unfolding size_class take_chunk
wrap_malloc size a =
    if size == 0
    then some (none, a)
    else elim (take_chunk (area_count + 1) (size_class area_count 0 min_chunk_size 0 size) a) [
      | none ↦ none
      | some (address, a') ↦ some (some address, a')
    ]

-- The area of an address, as `__wrap_free` and `ckpt_chunk` compute it.
abbrev pub area_of : Allocator → ℕ → ℕ
area_of a ptr = (ptr - a.base) / 2 ^ 12 / segment_pages

-- `__wrap_free`. `none` is the exit for a bad address, and for an area with no chunk out: there the
-- code stores through index -1 before it looks at `top_elem`.
unfoldable pub wrap_free : ℕ → Allocator → Option Allocator
wrap_free ptr a =
    let index = area_of a ptr in
    let area = a.areas index in
    if ltb ptr a.base || leb (a.base + max_memory) ptr
    then none
    else if area.top_elem == 0
    then none
    else some (
        set_area index
          (clear_usage index ptr (record area {
            addresses = update area.addresses (area.top_elem - 1) ptr;
            top_elem = area.top_elem - 1;
          }))
          a)
