-- ===== src/Memory/Chunks.antt =====
-- memory/memory.c: the chunks of an allocator, those in its stacks and those that the object holds.
use mathlib.Core.List.{Perm, perm_middle}
use mathlib.Core.List.Perm
use congenial_octo_telegram.Base.{
  ℕ, zero, suc, ◌+◌, ◌-◌, ◌≤◌, ◌<◌, ◌≡◌, ◌≢◌, inl, inr, refl, ◌∙◌, sym, ap, some, ◌||◌, ltb, leb,
  ◌==◌, update, arith, Bool-cases, some_inj, List, [], ◌∷◌, ◌++◌, update_self, update_ne,
}
use congenial_octo_telegram.Memory.{
  Area, Allocator, area_count, take_chunk, set_usage, clear_usage, set_area, max_memory,
  min_chunk_size, size_class, wrap_malloc, wrap_free, area_of,
}
use congenial_octo_telegram.Memory.Malloc.{take_chunk-Taken}
use native.Mathlib.Decide.{ℕ_discrete}
use mathlib.Core.Path.{subst, subst₂}

-- `n` entries of an array from index `j` on.
abbrev pub window : (ℕ → ℕ) → ℕ → ℕ → List ℕ
window f j zero = []
window f j (suc n) = f j ∷ window f (j + 1) n

-- The stack of an area, its top first.
abbrev pub free_stack : Area → List ℕ
free_stack area = window area.addresses area.top_elem (area.size - area.top_elem)

-- All chunks that the first `n` areas could still hand out.
unfoldable pub free_chunks : ℕ → Allocator → List ℕ
free_chunks zero a = []
free_chunks (suc n) a = free_stack (a.areas n) ++ free_chunks n a

window-update : (f : ℕ → ℕ) (k v j n : ℕ) → k < j → window (update f k v) j n ≡ window f j n
window-update f k v j zero h = refl
window-update f k v j (suc n) h = ground (arith, window-update f k v (j + 1) n)

-- Taking the top off a stack.
free_stack-take :
    (area : Area)
    → area.top_elem < area.size
    → free_stack area
      ≡ area.addresses area.top_elem ∷ free_stack (record area { top_elem = area.top_elem + 1 })
free_stack-take area h =
    let e : area.size - area.top_elem ≡ suc (area.size - (area.top_elem + 1)) = omega arith in rw e

-- Putting a chunk on a stack.
free_stack-put :
    (area : Area) (p : ℕ)
    → 0 < area.top_elem
    → area.top_elem ≤ area.size
    → free_stack (record area {
      addresses = update area.addresses (area.top_elem - 1) p;
      top_elem = area.top_elem - 1;
    })
      ≡ p ∷ free_stack area
free_stack-put area p h le = rw longer (
    ground (
      arith,
      ap (λ t. window (update area.addresses k p) t m) back,
      window-update area.addresses k p area.top_elem m,
    ))
  where
    k : ℕ
    k = area.top_elem - 1

    m : ℕ
    m = area.size - area.top_elem

    longer : area.size - k ≡ suc m
    longer = omega arith

    back : k + 1 ≡ area.top_elem
    back = omega arith

pub free_chunks-agree :
    (n : ℕ) (a b : Allocator)
    → ((j : ℕ) → j < n → a.areas j ≡ b.areas j)
    → free_chunks n a ≡ free_chunks n b
unfolding free_chunks
free_chunks-agree zero a b same = refl
free_chunks-agree (suc n) a b same =
    rw (same n (omega arith), free_chunks-agree n a b (λ j h. same j (omega arith)))

-- Where one area's stack has one more chunk, so has the whole allocator.
free_chunks-more :
    (n i : ℕ) (a b : Allocator) (p : ℕ)
    → i < n
    → ((j : ℕ) → j ≢ i → a.areas j ≡ b.areas j)
    → free_stack (a.areas i) ≡ p ∷ free_stack (b.areas i)
    → Perm (free_chunks n a) (p ∷ free_chunks n b)
unfolding free_chunks
free_chunks-more zero i a b p h same e = absurd (omega arith)
free_chunks-more (suc n) i a b p h same e = elim (ℕ_discrete i n) [
  | yes last ↦
      rw
        (
          subst (λ k. free_stack (a.areas k) ≡ p ∷ free_stack (b.areas k)) last e,
          free_chunks-agree n a b (λ j hj. same j (omega arith)),
        )
        (Perm.refl (p ∷ (free_stack (b.areas n) ++ free_chunks n b)))
  | no below ↦ rw (same n (λ e. below (sym e))) (
      Perm.trans
        (Perm.append_left (free_stack (b.areas n))
          (free_chunks-more n i a b p (omega arith) same e))
        (perm_middle (free_stack (b.areas n)) (free_chunks n b)))
]

-- What the setup establishes and every call keeps: no stack is over its size.
pub record IsAllocator (a : Allocator) : Type 0 where
  pub bounded : (i : ℕ) → i < area_count → (a.areas i).top_elem ≤ (a.areas i).size

set_area-others :
    (i : ℕ) (area : Area) (a : Allocator) (j : ℕ) → j ≢ i → a.areas j ≡ (set_area i area a).areas j
set_area-others i area a j ne = sym (update_ne a.areas i area j (λ e. ne (sym e)))

-- The areas after the top chunk of area `i` was handed out, and after a chunk was taken back.
abbrev handed_out : ℕ → Allocator → Allocator
handed_out i a =
    set_area i
      (set_usage i ((a.areas i).addresses (a.areas i).top_elem)
        (record (a.areas i) { top_elem = (a.areas i).top_elem + 1 }))
      a

abbrev taken_back : ℕ → ℕ → Allocator → Allocator
taken_back i p a =
    set_area i
      (clear_usage i p (record (a.areas i) {
        addresses = update (a.areas i).addresses ((a.areas i).top_elem - 1) p;
        top_elem = (a.areas i).top_elem - 1;
      }))
      a

handed_out-perm :
    (i : ℕ) (a : Allocator)
    → i < area_count
    → (a.areas i).top_elem < (a.areas i).size
    → Perm
        (free_chunks area_count a)
        ((a.areas i).addresses (a.areas i).top_elem ∷ free_chunks area_count (handed_out i a))
handed_out-perm i a h room =
    free_chunks-more area_count i a (handed_out i a) _ h (set_area-others i _ a) (
      free_stack-take (a.areas i) room
      ∙ ap (λ area. (a.areas i).addresses (a.areas i).top_elem ∷ free_stack area)
          (sym (update_self a.areas i _)))

taken_back-perm :
    (i p : ℕ) (a : Allocator)
    → i < area_count
    → 0 < (a.areas i).top_elem
    → (a.areas i).top_elem ≤ (a.areas i).size
    → Perm (free_chunks area_count (taken_back i p a)) (p ∷ free_chunks area_count a)
taken_back-perm i p a h out le =
    free_chunks-more area_count i (taken_back i p a) a p h
      (λ j ne. sym (set_area-others i _ a j ne))
      (ap free_stack (update_self a.areas i _) ∙ free_stack-put (a.areas i) p out le)

wrap_malloc-taken :
    (size : ℕ) (a : Allocator) (p : ℕ) (a' : Allocator)
    → wrap_malloc size a ≡ some (some p, a')
    → take_chunk (area_count + 1) (size_class area_count 0 min_chunk_size 0 size) a ≡ some (p, a')
unfolding wrap_malloc
wrap_malloc-taken size a p a' h = ground arith

-- If no stack of an allocator is over its size, the chunks that could be handed out before
-- `__wrap_malloc` returns a chunk are that chunk and those that can be handed out after.
pub wrap_malloc-perm :
    (size : ℕ) (a : Allocator) (p : ℕ) (a' : Allocator)
    → wrap_malloc size a ≡ some (some p, a')
    → IsAllocator a
    → Perm (free_chunks area_count a) (p ∷ free_chunks area_count a')
unfolding wrap_malloc
wrap_malloc-perm size a p a' h v =
    let t =
      take_chunk-Taken (area_count + 1) (size_class area_count 0 min_chunk_size 0 size) a p a'
        (wrap_malloc-taken size a p a' h) in
    subst₂ (λ q b. Perm (free_chunks area_count a) (q ∷ free_chunks area_count b)) (sym t.top)
      (sym t.after)
      (handed_out-perm t.area a t.exists (omega (arith, v.bounded t.area t.exists, t.room)))

-- If no stack of an allocator is over its size, the chunks that can be handed out after
-- `__wrap_free` took a chunk back are that chunk and those that could be before.
pub wrap_free-perm :
    (p : ℕ) (a a' : Allocator)
    → wrap_free p a ≡ some a'
    → IsAllocator a
    → Perm (free_chunks area_count a') (p ∷ free_chunks area_count a)
unfolding wrap_free
wrap_free-perm p a a' h v = elim (Bool-cases (ltb p a.base || leb (a.base + max_memory) p)) [
  | inl outside ↦ cc (rw outside at h)
  | inr inside ↦ elim (Bool-cases ((a.areas (area_of a p)).top_elem == 0)) [
    | inl none_out ↦ cc (rw (inside, none_out) at h)
    | inr out ↦
        let exists : area_of a p < area_count = ground arith in
        subst (λ b. Perm (free_chunks area_count b) (p ∷ free_chunks area_count a))
          (some_inj (rw (inside, out) at h))
          (taken_back-perm (area_of a p) p a exists (ground arith) (v.bounded (area_of a p) exists))
  ]
]
