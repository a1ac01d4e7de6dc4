-- ===== src/Mvmm.antt =====
-- MVM_MMAP_MULTIVERSIONING/patches/patches.c: the checkpoints of memory pages, in the variant
-- MMAP_MV_STORE without the grid. Slot 0 of a page is the page itself, in `memory`; slot 1 is a buffer of
-- its own, and holds the page as the epoch found it. An address is a number, `alloc` is what
-- mvmm_alloc_page returns for a page: a buffer, or `none` for NULL.
pub mod Checkpoints
pub mod Ends
pub mod Epoch
pub mod Grid
pub mod Lookup
pub mod Memory
pub mod Pages
pub mod Ranges
pub mod Restore
pub mod Rounds
pub mod Registers
pub mod Snapshots
pub mod Undo
pub mod Versions
pub mod Rollback
use congenial_octo_telegram.Memory.{Allocator}
use congenial_octo_telegram.Memory.Snapshot.{set_allocator_ckpt, restore_allocator}
use congenial_octo_telegram.Base.{
  ℕ, zero, suc, ◌+◌, ◌-◌, ◌*◌, ◌/◌, ◌%◌, ◌^◌, List, [], ◌∷◌, ◌++◌, Option, none, some, Bool, true,
  false, not, ◌&&◌, ◌||◌, ltb, leb, ◌==◌, if◌then◌else◌, update, length, take,
}

-- MVMM_PAGE_SIZE
abbrev pub page_size : ℕ
page_size = 4096

-- UINT64_MAX, for an epoch that never was.
abbrev pub never : ℕ
never = 2 ^ 64 - 1

abbrev pub Buffer : Type 0
Buffer = ℕ → ℕ

-- `mvmm_page_state`. In this variant slot 0 has no epoch, and `cur_slot` stays 0.
pub record Page : Type 0 where
  pub last_ts_seen : ℕ
  pub last_touched_ts : ℕ
  pub slot_ts : ℕ
  pub slot : Option Buffer

-- `mvmm_region`. A list of touched pages is the array and its count.
pub record Region : Type 0 where
  pub base : ℕ
  pub len : ℕ
  pub npages : ℕ
  pub pages : ℕ → Page
  pub touched_curr : List ℕ
  pub touched_curr_ts : ℕ
  pub touched_prev : List ℕ
  pub touched_prev_ts : ℕ

-- The global variables, and the memory of the process.
pub record Mvmm : Type 0 where
  pub regions : List Region
  pub memory : ℕ → ℕ
  pub epoch_round : ℕ
  pub ckpt_counter : ℕ

abbrev pub region_contains : Region → ℕ → Bool
region_contains r address = leb r.base address && ltb address ((r.base + r.len) % 2 ^ 64)

unfoldable pub find_region : ℕ → List Region → Option Region
find_region address [] = none
find_region address (r ∷ rest) =
    let later = find_region address rest in if region_contains r address then some r else later

-- The cached region, and what the thread's cache is after the lookup. The base and the length of a
-- region, which the test reads, never change.
unfoldable pub find_region_cached : ℕ → Option Region → List Region → Option Region × Option Region
find_region_cached address none regions = (find_region address regions, find_region address regions)
find_region_cached address (some cached) regions =
    if region_contains cached address
    then (some cached, some cached)
    else (find_region address regions, find_region address regions)

-- A page before its first store.
abbrev fresh_page : Page
fresh_page = record { last_ts_seen = never; last_touched_ts = never; slot_ts = never; slot = none }

-- MAP_FAILED, which is `(void *)-1`.
abbrev pub map_failed : ℕ
map_failed = 2 ^ 64 - 1

-- `mvmm_region_register`, where calloc gives what it is asked for.
unfoldable pub region_register : ℕ → ℕ → Mvmm → Mvmm
region_register base len s = if base == map_failed || base == 0 || len == 0 then s else record s {
  regions =
      record {
        base = base;
        len = len;
        npages = (len + page_size - 1) / page_size;
        pages = λ i. fresh_page;
        touched_curr = [];
        touched_curr_ts = never;
        touched_prev = [];
        touched_prev_ts = never;
      }
      ∷ s.regions;
}

unfoldable pub store_rotate_touched : ℕ → Region → Region
store_rotate_touched ts r = if r.touched_curr_ts == ts then r else record r {
  touched_prev = r.touched_curr;
  touched_prev_ts = r.touched_curr_ts;
  touched_curr = [];
  touched_curr_ts = ts;
}

unfoldable pub store_note_page_touch : ℕ → ℕ → Region → Region
unfolding store_rotate_touched
store_note_page_touch page_idx ts r =
    let rotated = store_rotate_touched ts r in
    if (r.pages page_idx).last_touched_ts == ts then rotated else record rotated {
      pages =
          update rotated.pages page_idx (record (rotated.pages page_idx) { last_touched_ts = ts });
      touched_curr = rotated.touched_curr ++ (page_idx ∷ []);
    }

-- A buffer for slot 1, if there is none yet.
unfoldable pub store_prepare_snapshot_slot : (ℕ → Option Buffer) → ℕ → ℕ → Region → Bool × Region
store_prepare_snapshot_slot alloc page_idx ts r =
    let noted = store_note_page_touch page_idx ts r in
    elim (noted.pages page_idx).slot [
      | some buffer ↦ (true, noted)
      | none ↦ elim (alloc page_idx) [
        | none ↦ (false, noted)
        | some buffer ↦ (
          true,
          record noted {
            pages =
                update noted.pages page_idx (record (noted.pages page_idx) { slot = some buffer });
          },
        )
      ]
    ]

-- `memcpy(slots[1], slots[0], MVMM_PAGE_SIZE)`: a buffer's bytes past the page are no part of it.
abbrev pub page_bytes : Region → ℕ → (ℕ → ℕ) → Buffer
page_bytes r page_idx memory = λ off. memory (r.base + page_idx * page_size + off)

unfoldable pub store_snapshot_page : (ℕ → Option Buffer) → (ℕ → ℕ) → ℕ → ℕ → Region → Bool × Region
store_snapshot_page alloc memory page_idx ts r =
    let (ok, ready) = store_prepare_snapshot_slot alloc page_idx ts r in
    if not ok
    then (false, ready)
    else if (ready.pages page_idx).slot_ts == ts
    then (true, ready)
    else (
      true,
      record ready {
        pages = update ready.pages page_idx (record (ready.pages page_idx) {
          slot = some (page_bytes ready page_idx memory);
          slot_ts = ts;
          last_ts_seen = ts;
        });
      },
    )

-- `(page_base - r->base) / MVMM_PAGE_SIZE`: the subtraction wraps around below the base.
abbrev pub page_of : Region → ℕ → ℕ
page_of r address = (address - address % page_size + 2 ^ 64 - r.base) % 2 ^ 64 / page_size

-- One turn of the loop of `mvmm_store_snapshot_range`, at address `cur`: the first region that holds it.
unfoldable pub snapshot_at :
    (ℕ → Option Buffer) → (ℕ → ℕ) → ℕ → ℕ → List Region → Bool × List Region
snapshot_at alloc memory cur ts [] = (true, [])
snapshot_at alloc memory cur ts (r ∷ rest) =
    let later = snapshot_at alloc memory cur ts rest in
    let done = store_snapshot_page alloc memory (page_of r cur) ts r in
    if region_contains r cur
    then (if ltb (page_of r cur) r.npages then (done.0, done.1 ∷ rest) else (true, r ∷ rest))
    else (later.0, r ∷ later.1)

-- The start of the page after that of `cur`, or `end` where that comes first or wraps around.
abbrev pub next_page : ℕ → ℕ → ℕ
next_page cur end =
    let next = (cur - cur % page_size + page_size) % 2 ^ 64 in
    if leb next cur || ltb end next then end else next

-- The loop, by the turns allowed; it returns where a snapshot fails.
unfoldable pub snapshot_loop :
    ℕ → (ℕ → Option Buffer) → (ℕ → ℕ) → ℕ → ℕ → ℕ → List Region → Bool × List Region
snapshot_loop zero alloc memory cur end ts regions = (leb end cur, regions)
snapshot_loop (suc turns) alloc memory cur end ts regions =
    let done = snapshot_at alloc memory cur ts regions in
    let rest = snapshot_loop turns alloc memory (next_page cur end) end ts done.1 in
    if leb end cur then (true, regions) else if done.0 then rest else done

-- `mvmm_store_snapshot_range`; the Boolean tells whether it came to the end of the range. A range has no more
-- pages than bytes.
unfoldable pub store_snapshot_range : (ℕ → Option Buffer) → ℕ → ℕ → Mvmm → Bool × Mvmm
store_snapshot_range alloc dst n s =
    let end = (dst + n) % 2 ^ 64 in
    if n == 0 || leb end dst
    then (true, s)
    else (let (ok, regions) = snapshot_loop n alloc s.memory dst end s.epoch_round s.regions in
        (ok, record s { regions = regions }))

-- `the_patch` before a store of `size` bytes at `ea`, and what the store then writes.
unfoldable pub the_patch : (ℕ → Option Buffer) → ℕ → ℕ → Mvmm → Bool × Mvmm
the_patch alloc ea size s =
    let sz = if size == 0 then 1 else size in
    if ea == 0 then (true, s) else elim (find_region ea s.regions) [
      | none ↦ (true, s)
      | some r ↦ store_snapshot_range alloc ea sz s
    ]

unfoldable pub write : ℕ → List ℕ → (ℕ → ℕ) → ℕ → ℕ
write address [] memory = memory
write address (byte ∷ rest) memory = write (address + 1) rest (update memory address byte)

-- A store of some bytes, with the patch before it.
unfoldable pub patched_store : (ℕ → Option Buffer) → ℕ → List ℕ → Mvmm → Mvmm
patched_store alloc ea bytes s =
    let (ok, ready) = the_patch alloc ea (length bytes) s in
    record ready { memory = write ea bytes ready.memory }

-- The wrapper of memcpy, of the bytes at its source.
unfoldable pub mmap_mv_memcpy : (ℕ → Option Buffer) → ℕ → List ℕ → Mvmm → Mvmm
mmap_mv_memcpy alloc dest bytes s =
    let (ok, ready) = store_snapshot_range alloc dest (length bytes) s in
    record ready { memory = write dest bytes ready.memory }

-- `memcpy(slots[0], slots[1], MVMM_PAGE_SIZE)`
abbrev pub copy_back : Region → ℕ → Buffer → (ℕ → ℕ) → ℕ → ℕ
copy_back r page_idx buffer memory x =
    if leb (r.base + page_idx * page_size) x && ltb x (r.base + page_idx * page_size + page_size)
    then buffer (x - (r.base + page_idx * page_size))
    else memory x

-- One page of `mvmm_region_rollback`.
unfoldable pub rollback_page : ℕ → ℕ → Region × (ℕ → ℕ) → Region × (ℕ → ℕ)
rollback_page target_ts page_idx s =
    let page = s.0.pages page_idx in
    if leb s.0.npages page_idx then s else elim page.slot [
      | none ↦ s
      | some buffer ↦ if page.slot_ts == never || leb page.slot_ts target_ts then s else (
        record s.0 { pages = update s.0.pages page_idx (record page { last_ts_seen = never }) },
        copy_back s.0 page_idx buffer s.1,
      )
    ]

unfoldable pub rollback_pages : ℕ → List ℕ → Region × (ℕ → ℕ) → Region × (ℕ → ℕ)
rollback_pages target_ts [] s = s
rollback_pages target_ts (page_idx ∷ rest) s =
    rollback_pages target_ts rest (rollback_page target_ts page_idx s)

abbrev is_candidate : ℕ → ℕ → Bool
is_candidate ts target_ts = not (ts == never) && ltb target_ts ts

-- `mvmm_region_rollback`: the pages of the epoch, then those of the one before. If both lists are of one
-- epoch, the second is as many pages of the first.
unfoldable pub region_rollback : ℕ → Region → (ℕ → ℕ) → Region × (ℕ → ℕ)
region_rollback target_ts r memory =
    let curr =
      if is_candidate r.touched_curr_ts target_ts
      then rollback_pages target_ts r.touched_curr (r, memory)
      else (r, memory) in
    if is_candidate r.touched_prev_ts target_ts
    then rollback_pages target_ts
        (if r.touched_prev_ts == r.touched_curr_ts
          then take (length r.touched_prev) r.touched_curr
          else r.touched_prev)
        curr
    else curr

-- `set_ckpt`: the epoch advances when all objects have set their checkpoint.
unfoldable pub set_ckpt : ℕ → Allocator × Mvmm → Allocator × Mvmm
set_ckpt objects s = (
  set_allocator_ckpt false s.0,
  if s.1.ckpt_counter + 1 == objects
      then record s.1 { ckpt_counter = 0; epoch_round = s.1.epoch_round + 1 }
      else record s.1 { ckpt_counter = s.1.ckpt_counter + 1 },
)

-- The rollback of the first region that holds an address.
unfoldable pub rollback_at : ℕ → ℕ → List Region → (ℕ → ℕ) → List Region × (ℕ → ℕ)
rollback_at address target_ts [] memory = ([], memory)
rollback_at address target_ts (r ∷ rest) memory =
    let later = rollback_at address target_ts rest memory in
    let done = region_rollback target_ts r memory in
    if region_contains r address then (done.0 ∷ rest, done.1) else (r ∷ later.0, later.1)

-- `restore_object`, of an object whose `base` is that of its allocator; NULL has no region.
unfoldable pub restore_object : Allocator × Mvmm → Allocator × Mvmm
restore_object s =
    let target_ts = if leb 1 s.1.epoch_round then s.1.epoch_round - 1 else 0 in
    let done = rollback_at s.0.base target_ts s.1.regions s.1.memory in
    (
      restore_allocator s.0,
      if s.0.base == 0 then s.1 else record s.1 { regions = done.0; memory = done.1 },
    )
