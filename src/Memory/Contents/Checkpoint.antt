-- ===== src/Memory/Contents/Checkpoint.antt =====
-- memory/memory.c and chunk_ckpt/chunk_ckpt.c: the checkpoint of an object and its restoration.
use mathlib.Core.Path.{subst}
use congenial_octo_telegram.Base.{
  ℕ, ◌+◌, ◌*◌, ◌/◌, ◌%◌, ◌≤◌, ◌<◌, ◌≡◌, inl, inr, refl, sym, ap, ◌∙◌, true, false, ltb, arith,
  lt→ltb,
}
use congenial_octo_telegram.Byte.{test_bit}
use congenial_octo_telegram.Memory.{Area, Allocator, max_memory}
use congenial_octo_telegram.Memory.Contents.{
  Object, usage, saved_usage, save_usage, restore_usage, set_used_chunks_ckpt, restore_chunks,
  set_chunks_ckpt, restore_chunk_object,
}
use congenial_octo_telegram.Memory.Contents.Areas.{IsLaid, size_at, chunk_inside, copy_areas-moved}
use congenial_octo_telegram.Memory.Contents.Copies.{is_marked}
use congenial_octo_telegram.Memory.Snapshot.{
  save_area, restore_area, set_allocator_ckpt, restore_allocator, each_area-inside,
}

-- What the handlers of an epoch leave as it is in an object: the layout, the copies, and what is saved.
pub record Untouched (o o' : Object) : Type 0 where
  pub same_start : o'.allocator.base ≡ o.allocator.base
  pub same_base : (k : ℕ) → (o'.allocator.areas k).base ≡ (o.allocator.areas k).base
  pub same_size : (k : ℕ) → (o'.allocator.areas k).size ≡ (o.allocator.areas k).size
  pub same_usage : (k : ℕ) → (o'.allocator.areas k).bitmap_ckpt ≡ (o.allocator.areas k).bitmap_ckpt
  pub same_copies :
      (x : ℕ)
      → o.allocator.base + max_memory ≤ x
      → x < o.allocator.base + 2 * max_memory
      → o'.memory x ≡ o.memory x
  pub same_seed1 : o'.saved_seed1 ≡ o.saved_seed1
  pub same_seed2 : o'.saved_seed2 ≡ o.saved_seed2

-- The areas of an object as the setup makes them.
abbrev pub AreLaid : Object → Type 0
AreLaid o =
    (k : ℕ) → k < 8 → IsLaid o.allocator.base k (o.allocator.areas k) (o.allocator.areas k).bitmap

same-IsLaid :
    (base k : ℕ) (a a' : Area) (bitmap bitmap' : ℕ → ℕ)
    → a'.base ≡ a.base
    → a'.size ≡ a.size
    → ((c : ℕ) → c < a.size * 8 → is_marked bitmap' c ≡ is_marked bitmap c)
    → IsLaid base k a bitmap
    → IsLaid base k a' bitmap'
same-IsLaid base k a a' bitmap bitmap' same_base same_size same v = record {
  place = same_base ∙ v.place;
  full = rw same_size v.full;
  marks = rw same_size (λ c h m. v.marks c h (sym (same c h) ∙ m));
}

set_used_chunks_ckpt-copy :
    (o : Object) (k c off : ℕ)
    → AreLaid o
    → k < 8
    → c < (o.allocator.areas k).size
    → is_marked (o.allocator.areas k).bitmap c ≡ true
    → off < size_at k
    → (set_used_chunks_ckpt o).memory
        ((o.allocator.areas k).base + max_memory + c * size_at k + off)
      ≡ o.memory ((o.allocator.areas k).base + 0 + c * size_at k + off)
unfolding set_used_chunks_ckpt
set_used_chunks_ckpt-copy o k c off laid hk small marked lt =
    copy_areas-moved o.allocator.base max_memory 0 (inr (omega arith)) usage o.allocator.areas laid
      8 0 o.memory k c off (omega arith) (omega arith) (omega arith) small marked lt

restore_chunks-back :
    (o : Object) (k c off : ℕ)
    → ((k : ℕ)
        → k < 8
        → IsLaid o.allocator.base k (o.allocator.areas k) (o.allocator.areas k).bitmap_ckpt)
    → k < 8
    → c < (o.allocator.areas k).size
    → is_marked (o.allocator.areas k).bitmap_ckpt c ≡ true
    → off < size_at k
    → (restore_chunks o).memory ((o.allocator.areas k).base + 0 + c * size_at k + off)
      ≡ o.memory ((o.allocator.areas k).base + max_memory + c * size_at k + off)
unfolding restore_chunks
restore_chunks-back o k c off laid hk small marked lt =
    copy_areas-moved o.allocator.base 0 max_memory (inl (omega arith)) saved_usage o.allocator.areas
      laid 8 0 o.memory k c off (omega arith) (omega arith) (omega arith) small marked lt

-- The areas of the allocator after `set_allocator_ckpt`, and after `restore_allocator`.
save_stacks-area :
    (a : Allocator) (k : ℕ)
    → k < 8
    → (set_allocator_ckpt false a).areas k ≡ save_area false (a.areas k)
unfolding set_allocator_ckpt
save_stacks-area a k h = each_area-inside (save_area false) a.areas k h

restore_stacks-area :
    (a : Allocator) (k : ℕ) → k < 8 → (restore_allocator a).areas k ≡ restore_area (a.areas k)
unfolding restore_allocator
restore_stacks-area a k h = each_area-inside restore_area a.areas k h

-- What the restored area has of the saved one.
record SavedAs (x y : Area) : Type 0 where
  as_base : y.base ≡ x.base
  as_size : y.size ≡ x.size
  as_usage : (j : ℕ) → j < x.size → y.bitmap_ckpt j ≡ x.bitmap j

set_chunks_ckpt-SavedAs :
    (o : Object) (k : ℕ)
    → k < 8
    → SavedAs (o.allocator.areas k) ((set_chunks_ckpt o).allocator.areas k)
unfolding set_chunks_ckpt set_used_chunks_ckpt save_area
set_chunks_ckpt-SavedAs o k h =
    let first = save_stacks-area o.allocator k h in
    let then_ = each_area-inside save_usage (set_allocator_ckpt false o.allocator).areas k h in
    subst (SavedAs (o.allocator.areas k)) (sym (then_ ∙ ap save_usage first)) (record {
      as_base = refl;
      as_size = refl;
      as_usage = λ j small. rw (lt→ltb j (o.allocator.areas k).size small) refl;
    })

set_chunks_ckpt-copy :
    (o : Object) (k c off : ℕ)
    → AreLaid o
    → k < 8
    → c < (o.allocator.areas k).size
    → is_marked (o.allocator.areas k).bitmap c ≡ true
    → off < size_at k
    → (set_chunks_ckpt o).memory ((o.allocator.areas k).base + max_memory + c * size_at k + off)
      ≡ o.memory ((o.allocator.areas k).base + c * size_at k + off)
unfolding set_chunks_ckpt save_area set_allocator_ckpt
set_chunks_ckpt-copy o k c off laid hk small marked lt =
    ap (λ b. (set_chunks_ckpt o).memory (b + max_memory + c * size_at k + off)) (sym base)
    ∙ set_used_chunks_ckpt-copy saved k c off saved_laid hk (rw size small) (rw bits marked) lt
    ∙ ap (λ b. o.memory (b + c * size_at k + off)) (plus_zero ∙ base)
  where
    saved : Object
    saved = record o {
      allocator = set_allocator_ckpt false o.allocator;
      saved_seed1 = o.seed1;
      saved_seed2 = o.seed2;
    }

    base : (saved.allocator.areas k).base ≡ (o.allocator.areas k).base
    base = ap (λ (a : Area). a.base) (save_stacks-area o.allocator k hk)

    size : (saved.allocator.areas k).size ≡ (o.allocator.areas k).size
    size = ap (λ (a : Area). a.size) (save_stacks-area o.allocator k hk)

    bits : (saved.allocator.areas k).bitmap ≡ (o.allocator.areas k).bitmap
    bits = ap (λ (a : Area). a.bitmap) (save_stacks-area o.allocator k hk)

    plus_zero : (saved.allocator.areas k).base + 0 ≡ (saved.allocator.areas k).base
    plus_zero = omega arith

    saved_laid : AreLaid saved
    saved_laid j hj =
        same-IsLaid o.allocator.base j (o.allocator.areas j) (saved.allocator.areas j)
          (o.allocator.areas j).bitmap _
          (ap (λ (a : Area). a.base) (save_stacks-area o.allocator j hj))
          (ap (λ (a : Area). a.size) (save_stacks-area o.allocator j hj))
          (λ b h. ap (λ (a : Area). is_marked a.bitmap b) (save_stacks-area o.allocator j hj))
          (laid j hj)

-- Between the checkpoint and the restoration.
module _ (o o' : Object) (laid : AreLaid o) (v : Untouched (set_chunks_ckpt o) o') where
  abbrev ready : Object
  ready = record o' { allocator = restore_allocator o'.allocator }

  ready-SavedAs : (k : ℕ) → k < 8 → SavedAs (o.allocator.areas k) (ready.allocator.areas k)
  unfolding restore_area
  ready-SavedAs k h =
      let saved = set_chunks_ckpt-SavedAs o k h in
      subst (SavedAs (o.allocator.areas k)) (sym (restore_stacks-area o'.allocator k h)) (record {
        as_base = v.same_base k ∙ saved.as_base;
        as_size = v.same_size k ∙ saved.as_size;
        as_usage = λ j small. ap (λ f. f j) (v.same_usage k) ∙ saved.as_usage j small;
      })

  ready_marked :
      (k c : ℕ)
      → k < 8
      → c < (o.allocator.areas k).size * 8
      → is_marked (ready.allocator.areas k).bitmap_ckpt c ≡ is_marked (o.allocator.areas k).bitmap c
  ready_marked k c h small =
      ap (λ byte. test_bit byte (c % 8)) ((ready-SavedAs k h).as_usage (c / 8) (omega arith))

  ready-IsLaid :
      (k : ℕ)
      → k < 8
      → IsLaid ready.allocator.base k
          (ready.allocator.areas k)
          (ready.allocator.areas k).bitmap_ckpt
  unfolding restore_allocator set_chunks_ckpt set_used_chunks_ckpt set_allocator_ckpt
  ready-IsLaid k h =
      let as_saved = ready-SavedAs k h in
      subst (λ b. IsLaid b k (ready.allocator.areas k) (ready.allocator.areas k).bitmap_ckpt)
        (sym v.same_start)
        (same-IsLaid o.allocator.base k (o.allocator.areas k) (ready.allocator.areas k)
          (o.allocator.areas k).bitmap _ as_saved.as_base as_saved.as_size
          (λ c small. ready_marked k c h small) (laid k h))

  copy_kept :
      (k c off : ℕ)
      → k < 8
      → c < (o.allocator.areas k).size
      → off < size_at k
      → o'.memory ((o.allocator.areas k).base + max_memory + c * size_at k + off)
        ≡ (set_chunks_ckpt o).memory ((o.allocator.areas k).base + max_memory + c * size_at k + off)
  unfolding set_chunks_ckpt set_used_chunks_ckpt set_allocator_ckpt
  copy_kept k c off h small lt =
      let inside =
        chunk_inside o.allocator.base max_memory 0 (inr (omega arith)) k c off (o.allocator.areas k)
          (o.allocator.areas k).bitmap (laid k h) small lt in
      v.same_copies ((o.allocator.areas k).base + max_memory + c * size_at k + off)
        (omega (arith, (laid k h).place, inside)) (omega (arith, (laid k h).place, inside))

  restore_chunk_object-chunk :
      (k c off : ℕ)
      → k < 8
      → c < (o.allocator.areas k).size
      → is_marked (o.allocator.areas k).bitmap c ≡ true
      → off < size_at k
      → (restore_chunk_object o').memory ((o.allocator.areas k).base + c * size_at k + off)
        ≡ o.memory ((o.allocator.areas k).base + c * size_at k + off)
  unfolding restore_chunk_object
  restore_chunk_object-chunk k c off h small marked lt =
      let as_saved = ready-SavedAs k h in
      let zero_ : (o.allocator.areas k).base ≡ (ready.allocator.areas k).base + 0 =
        omega (arith, as_saved.as_base) in
      ap (λ b. (restore_chunks ready).memory (b + c * size_at k + off)) zero_
      ∙ restore_chunks-back ready k c off ready-IsLaid h (rw as_saved.as_size small)
          (ready_marked k c h (omega arith) ∙ marked) lt
      ∙ ap (λ b. o'.memory (b + max_memory + c * size_at k + off)) as_saved.as_base
      ∙ copy_kept k c off h small lt
      ∙ set_chunks_ckpt-copy o k c off laid h small marked lt

  restore_chunk_object-usage :
      (k j : ℕ)
      → k < 8
      → j < (o.allocator.areas k).size
      → ((restore_chunk_object o').allocator.areas k).bitmap j ≡ (o.allocator.areas k).bitmap j
  unfolding restore_chunk_object restore_chunks
  restore_chunk_object-usage k j h small =
      let as_saved = ready-SavedAs k h in
      let inside : ltb j (ready.allocator.areas k).size ≡ true =
        ground (arith, as_saved.as_size, small) in
      ap (λ (a : Area). a.bitmap j) (each_area-inside restore_usage ready.allocator.areas k h)
      ∙ rw inside (as_saved.as_usage j small)

  -- If the areas of an object lie as the setup lays them, with usage bits of chunks only, and if
  -- after `set_ckpt` the handlers leave the layout, the copies behind the object's memory and what
  -- else is saved as they are, then `restore_object` brings back every byte of every chunk that was
  -- in use at the checkpoint, the usage bits, and both seeds.
  pub restore_chunk_object-ckpt :
      (k c off j : ℕ)
      → k < 8
      → c < (o.allocator.areas k).size
      → is_marked (o.allocator.areas k).bitmap c ≡ true
      → off < size_at k
      → j < (o.allocator.areas k).size
      → ((restore_chunk_object o').memory ((o.allocator.areas k).base + c * size_at k + off)
          ≡ o.memory ((o.allocator.areas k).base + c * size_at k + off))
        × (((restore_chunk_object o').allocator.areas k).bitmap j ≡ (o.allocator.areas k).bitmap j)
        × ((restore_chunk_object o').seed1 ≡ o.seed1)
        × ((restore_chunk_object o').seed2 ≡ o.seed2)
  unfolding restore_chunk_object restore_chunks set_chunks_ckpt set_used_chunks_ckpt
  restore_chunk_object-ckpt k c off j h small marked lt inside = (
    restore_chunk_object-chunk k c off h small marked lt,
    restore_chunk_object-usage k j h inside,
    v.same_seed1,
    v.same_seed2,
  )
