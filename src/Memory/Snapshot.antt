-- ===== src/Memory/Snapshot.antt =====
-- memory/memory.c: the checkpoint of an allocator's stacks, and its restoration.
use mathlib.Core.Path.{subst}
use congenial_octo_telegram.Base.{
  ℕ, zero, suc, ◌+◌, ◌-◌, ◌≤◌, ◌<◌, ◌≡◌, refl, sym, ap, ◌∙◌, inl, inr, List, [], ◌∷◌, Option, some,
  Bool, ltb, leb, ◌==◌, if◌then◌else◌, update, arith, Bool-cases, Option-cases, ◌||◌, some_inj,
  update_self, update_ne, ◌>>=◌, >>=-eq-some,
}
use congenial_octo_telegram.Memory.Malloc.{Taken, take_chunk-Taken}
use native.Mathlib.Decide.{ℕ_discrete}
use congenial_octo_telegram.Memory.{
  Area, Allocator, area_count, wrap_malloc, wrap_free, take_chunk, set_area, size_class,
  min_chunk_size, area_of, max_memory,
}
use congenial_octo_telegram.Memory.Chunks.{window, free_stack, free_chunks, IsAllocator}

-- `for (j = top; j < size; j++) dst[j] = src[j]`, by the rounds left.
unfoldable pub copy_range : ℕ → ℕ → (ℕ → ℕ) → (ℕ → ℕ) → ℕ → ℕ
copy_range zero j src dst = dst
copy_range (suc rounds) j src dst = copy_range rounds (j + 1) src (update dst j (src j))

-- The loop over the classes, whose chunk sizes run from MIN_CHUNK_SIZE to MAX_CHUNK_SIZE.
unfoldable pub each_area : ℕ → ℕ → (Area → Area) → (ℕ → Area) → ℕ → Area
each_area zero i f areas = areas
each_area (suc rounds) i f areas = each_area rounds (i + 1) f (update areas i (f (areas i)))

-- The body of the loop of `set_allocator_ckpt`; CHUNK_BASED_SAVE also clears the bitmap, of as many
-- bytes as there are chunks.
unfoldable pub save_area : Bool → Area → Area
unfolding copy_range
save_area chunk_based_save area = record area {
  top_elem_ckpt = area.top_elem;
  addresses_ckpt =
      copy_range (area.size - area.top_elem) area.top_elem area.addresses area.addresses_ckpt;
  bitmap = λ j.
      if chunk_based_save then (if ltb j area.size then 0 else area.bitmap j) else area.bitmap j;
}

unfoldable pub set_allocator_ckpt : Bool → Allocator → Allocator
unfolding each_area
set_allocator_ckpt chunk_based_save a = record a {
  areas = each_area area_count 0 (save_area chunk_based_save) a.areas;
}

-- The body of the loop of `restore_allocator`.
unfoldable pub restore_area : Area → Area
unfolding copy_range
restore_area area = record area {
  top_elem = area.top_elem_ckpt;
  addresses =
      copy_range (area.size - area.top_elem_ckpt) area.top_elem_ckpt area.addresses_ckpt
        area.addresses;
}

unfoldable pub restore_allocator : Allocator → Allocator
unfolding each_area
restore_allocator a = record a { areas = each_area area_count 0 restore_area a.areas }

copy_range-at :
    (rounds j : ℕ) (src dst : ℕ → ℕ) (k : ℕ)
    → copy_range rounds j src dst k
      ≡ (if leb j k then (if ltb k (j + rounds) then src k else dst k) else dst k)
unfolding copy_range
copy_range-at zero j src dst k = ground arith
copy_range-at (suc rounds) j src dst k =
    copy_range-at rounds (j + 1) src (update dst j (src j)) k ∙ ground arith

each_area-at :
    (rounds i : ℕ) (f : Area → Area) (areas : ℕ → Area) (k : ℕ)
    → each_area rounds i f areas k
      ≡ (if leb i k then (if ltb k (i + rounds) then f (areas k) else areas k) else areas k)
unfolding each_area
each_area-at zero i f areas k = ground arith
each_area-at (suc rounds) i f areas k =
    each_area-at rounds (i + 1) f (update areas i (f (areas i))) k ∙ (elim (ℕ_discrete i k) [
      | yes e ↦
          subst
            (λ k.
              (if leb (i + 1) k
                then (if ltb k (i + 1 + rounds)
                    then f (update areas i (f (areas i)) k)
                    else update areas i (f (areas i)) k)
                else update areas i (f (areas i)) k)
              ≡ (if leb i k
                  then (if ltb k (i + suc rounds) then f (areas k) else areas k)
                  else areas k))
            e (rw (update_self areas i (f (areas i))) (ground arith))
      | no ne ↦ rw (update_ne areas i (f (areas i)) k ne) (ground arith)
    ])

-- Inside the loop's range every area is treated.
pub each_area-inside :
    (f : Area → Area) (areas : ℕ → Area) (k : ℕ)
    → k < area_count
    → each_area area_count 0 f areas k ≡ f (areas k)
each_area-inside f areas k h = each_area-at area_count 0 f areas k ∙ ground arith

-- What the calls of a handler leave alone in an area.
record Kept (x y : Area) : Type 0 where
  same_size : y.size ≡ x.size
  same_top : y.top_elem_ckpt ≡ x.top_elem_ckpt
  same_addresses : (j : ℕ) → y.addresses_ckpt j ≡ x.addresses_ckpt j

same-Kept : (x : Area) → Kept x x
same-Kept x = record { same_size = refl; same_top = refl; same_addresses = λ j. refl }

Kept-then : {x y z : Area} → Kept x y → Kept y z → Kept x z
Kept-then p q = record {
  same_size = q.same_size ∙ p.same_size;
  same_top = q.same_top ∙ p.same_top;
  same_addresses = λ j. q.same_addresses j ∙ p.same_addresses j;
}

set_area-Kept :
    (i : ℕ) (area : Area) (a : Allocator) (k : ℕ)
    → Kept (a.areas i) area
    → Kept (a.areas k) ((set_area i area a).areas k)
set_area-Kept i area a k h = elim (ℕ_discrete i k) [
  | yes e ↦
      subst (λ k. Kept (a.areas k) (update a.areas i area k)) e (rw (update_self a.areas i area) h)
  | no ne ↦ rw (update_ne a.areas i area k ne) (same-Kept (a.areas k))
]

-- The requests that a handler makes.
pub data MemoryCall : Type 0 where
  malloc : ℕ → MemoryCall
  free : ℕ → MemoryCall

abbrev behind : Option ℕ × Allocator → Option Allocator
behind r = some r.1

-- The requests in their order; `none` when one of them ends the program.
unfoldable pub serve : List MemoryCall → Allocator → Option Allocator
serve [] a = some a
serve (malloc size ∷ rest) a = wrap_malloc size a >>= behind >>= serve rest
serve (free p ∷ rest) a = wrap_free p a >>= serve rest

Taken-Kept :
    (n : ℕ) (a : Allocator) (p : ℕ) (a' : Allocator) (k : ℕ)
    → Taken n a p a'
    → Kept (a.areas k) (a'.areas k)
Taken-Kept n a p a' k t =
    subst (λ b. Kept (a.areas k) (b.areas k)) (sym t.after)
      (set_area-Kept t.area _ a k
        (record { same_size = refl; same_top = refl; same_addresses = λ j. refl }))

malloc-Kept :
    (size : ℕ) (a : Allocator) (p : Option ℕ) (a' : Allocator) (k : ℕ)
    → wrap_malloc size a ≡ some (p, a')
    → Kept (a.areas k) (a'.areas k)
unfolding wrap_malloc
malloc-Kept size a p a' k h = elim (Bool-cases (size == 0)) [
  | inl null ↦
      subst (λ b. Kept (a.areas k) (b.areas k)) (ap (λ r. r.1) (some_inj (rw null at h)))
        (same-Kept (a.areas k))
  | inr some_size ↦
      elim (Option-cases
        (take_chunk (area_count + 1) (size_class area_count 0 min_chunk_size 0 size) a)) [
          | inl e ↦ cc (rw (some_size, e) at h)
          | inr (r, e) ↦ Taken-Kept (size_class area_count 0 min_chunk_size 0 size) a r.0 a' k (
              take_chunk-Taken (area_count + 1) (size_class area_count 0 min_chunk_size 0 size) a
                r.0 a'
                (e ∙ ap (λ b. some (r.0, b)) (ap (λ r. r.1) (some_inj (rw (some_size, e) at h)))))
        ]
]

wrap_free-Kept :
    (p : ℕ) (a a' : Allocator) (k : ℕ) → wrap_free p a ≡ some a' → Kept (a.areas k) (a'.areas k)
unfolding wrap_free
wrap_free-Kept p a a' k h = elim (Bool-cases (ltb p a.base || leb (a.base + max_memory) p)) [
  | inl outside ↦ cc (rw outside at h)
  | inr inside ↦ elim (Bool-cases ((a.areas (area_of a p)).top_elem == 0)) [
    | inl none_out ↦ cc (rw (inside, none_out) at h)
    | inr out ↦
        subst (λ b. Kept (a.areas k) (b.areas k)) (some_inj (rw (inside, out) at h))
          (set_area-Kept (area_of a p) _ a k
            (record { same_size = refl; same_top = refl; same_addresses = λ j. refl }))
  ]
]

serve-Kept :
    (rs : List MemoryCall) (a a' : Allocator) (k : ℕ)
    → serve rs a ≡ some a'
    → Kept (a.areas k) (a'.areas k)
unfolding serve
serve-Kept [] a a' k h =
    subst (λ b. Kept (a.areas k) (b.areas k)) (some_inj h) (same-Kept (a.areas k))
serve-Kept (malloc size ∷ rest) a a' k h =
    let (b, e, later) = >>=-eq-some (wrap_malloc size a >>= behind) (serve rest) h in
    let (r, first, second) = >>=-eq-some (wrap_malloc size a) behind e in
    Kept-then (malloc-Kept size a r.0 b k (first ∙ ap (λ c. some (r.0, c)) (some_inj second)))
      (serve-Kept rest b a' k later)
serve-Kept (free p ∷ rest) a a' k h =
    let (b, e, later) = >>=-eq-some (wrap_free p a) (serve rest) h in
    Kept-then (wrap_free-Kept p a b k e) (serve-Kept rest b a' k later)

window-agree :
    (f g : ℕ → ℕ) (n j : ℕ)
    → ((k : ℕ) → j ≤ k → k < j + n → f k ≡ g k)
    → window f j n ≡ window g j n
window-agree f g zero j same = refl
window-agree f g (suc n) j same = rw (
  same j (omega arith) (omega arith),
  window-agree f g n (j + 1) (λ k lo hi. same k (omega arith) (omega arith)),
)

copy_range-inside :
    (src dst : ℕ → ℕ) (top size k : ℕ)
    → top ≤ k
    → k < size
    → copy_range (size - top) top src dst k ≡ src k
copy_range-inside src dst top size k lo hi = copy_range-at (size - top) top src dst k ∙ ground arith

restored_area :
    (b : Bool) (x y : Area)
    → Kept (save_area b x) y
    → x.top_elem ≤ x.size
    → free_stack (restore_area y) ≡ free_stack x
unfolding save_area restore_area
restored_area b x y kept le =
    rw (kept.same_size, kept.same_top)
      (window-agree _ x.addresses (x.size - x.top_elem) x.top_elem (λ k lo hi.
        let inside : k < x.size = omega arith in
        copy_range-inside y.addresses_ckpt y.addresses x.top_elem x.size k lo inside
        ∙ kept.same_addresses k
        ∙ copy_range-inside x.addresses x.addresses_ckpt x.top_elem x.size k lo inside))

free_chunks-all :
    (n : ℕ) (a b : Allocator)
    → ((i : ℕ) → i < n → free_stack (a.areas i) ≡ free_stack (b.areas i))
    → free_chunks n a ≡ free_chunks n b
unfolding free_chunks
free_chunks-all zero a b same = refl
free_chunks-all (suc n) a b same =
    rw (same n (omega arith), free_chunks-all n a b (λ j h. same j (omega arith)))

-- If no stack of an allocator is over its size, then after `set_allocator_ckpt`, any calls of
-- malloc and free that do not end the program, and `restore_allocator`, the allocator can hand out
-- the same chunks in the same order as before.
pub restore_allocator-serve :
    (chunk_based_save : Bool) (a a' : Allocator) (rs : List MemoryCall)
    → serve rs (set_allocator_ckpt chunk_based_save a) ≡ some a'
    → IsAllocator a
    → free_chunks area_count (restore_allocator a') ≡ free_chunks area_count a
unfolding set_allocator_ckpt restore_allocator
restore_allocator-serve b a a' rs h v = free_chunks-all area_count (restore_allocator a') a (λ i hi.
    ap free_stack (each_area-inside restore_area a'.areas i hi)
    ∙ restored_area b (a.areas i) (a'.areas i)
        (subst (λ x. Kept x (a'.areas i)) (each_area-inside (save_area b) a.areas i hi)
          (serve-Kept rs (set_allocator_ckpt b a) a' i h))
        (v.bounded i hi))
