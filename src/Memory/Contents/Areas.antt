-- ===== src/Memory/Contents/Areas.antt =====
-- memory/memory.c: the loops over the areas that copy their marked chunks.
use native.Mathlib.Decide.{ℕ_discrete}
use native.Mathlib.Nat.{pow-suc}
use mathlib.Core.Path.{subst}
use congenial_octo_telegram.Base.{
  ℕ, zero, suc, ◌+◌, ◌*◌, ◌^◌, ◌≤◌, ◌<◌, ◌≡◌, ◌⊎◌, inl, refl, sym, ap, ◌∙◌, true, arith,
}
use congenial_octo_telegram.Memory.{Area, segments, max_memory, min_chunk_size}
use congenial_octo_telegram.Memory.Contents.{copy_marked, copy_areas}
use congenial_octo_telegram.Memory.Contents.Copies.{
  is_marked, copy_marked-copy_chunks, copy_chunks-others, copy_chunks-moved, later_chunk,
}

-- The chunk size of area `index`.
abbrev pub size_at : ℕ → ℕ
size_at index = min_chunk_size * 2 ^ index

-- Area `k` of the object at `base`, as the setup makes it, and the bits of chunks only.
pub record IsLaid (base k : ℕ) (area : Area) (bitmap : ℕ → ℕ) : Type 0 where
  pub place : area.base ≡ base + k * segments
  pub full : area.size * size_at k ≡ segments
  pub marks : (c : ℕ) → c < area.size * 8 → is_marked bitmap c ≡ true → c < area.size

module _ (object_base dst src : ℕ) (far : (dst + max_memory ≤ src) ⊎ (src + max_memory ≤ dst)) where
  pub chunk_inside :
      (k c off : ℕ) (area : Area) (bitmap : ℕ → ℕ)
      → IsLaid object_base k area bitmap
      → c < area.size
      → off < size_at k
      → c * size_at k + off < segments
  chunk_inside k c off area bitmap v m lt =
      omega (arith, later_chunk bitmap dst src (size_at k) c area.size m, v.full)

  abbrev area_copied : ℕ → Area → (ℕ → ℕ) → (ℕ → ℕ) → ℕ → ℕ
  area_copied k area bitmap memory =
      copy_marked area.size 0 bitmap (area.base + dst) (area.base + src) (size_at k) memory

  area_copied-others :
      (k : ℕ) (area : Area) (bitmap : ℕ → ℕ) (memory : ℕ → ℕ) (x : ℕ)
      → IsLaid object_base k area bitmap
      → (x < area.base + dst) ⊎ (area.base + dst + segments ≤ x)
      → area_copied k area bitmap memory x ≡ memory x
  area_copied-others k area bitmap memory x v away =
      ap (λ f. f x)
        (copy_marked-copy_chunks bitmap (area.base + dst) (area.base + src) (size_at k) area.size 0
          memory)
      ∙ copy_chunks-others bitmap (area.base + dst) (area.base + src) (size_at k) (area.size * 8)
          (0 * 8) memory x
          (λ c le hi m.
            let row =
              later_chunk bitmap dst src (size_at k) c area.size (v.marks c (omega arith) m) in
            ground (arith, row, v.full, away))

  area_copied-moved :
      (k c off : ℕ) (area : Area) (bitmap : ℕ → ℕ) (memory : ℕ → ℕ)
      → IsLaid object_base k area bitmap
      → c < area.size
      → is_marked bitmap c ≡ true
      → off < size_at k
      → area_copied k area bitmap memory (area.base + dst + c * size_at k + off)
        ≡ memory (area.base + src + c * size_at k + off)
  area_copied-moved k c off area bitmap memory v small m lt =
      ap (λ f. f (area.base + dst + c * size_at k + off))
        (copy_marked-copy_chunks bitmap (area.base + dst) (area.base + src) (size_at k) area.size 0
          memory)
      ∙ copy_chunks-moved bitmap (area.base + dst) (area.base + src) (size_at k) (area.size * 8)
          (0 * 8) memory c off
          (λ b hi mb.
            let row =
              later_chunk bitmap dst src (size_at k) b area.size (v.marks b (omega arith) mb) in
            ground (arith, row, v.full, chunk_inside k c off area bitmap v small lt, far))
          (omega arith) (omega (arith, small)) m lt

  size_at-suc : (k : ℕ) → size_at k * 2 ≡ size_at (k + 1)
  size_at-suc k =
      let next : k + 1 ≡ suc k = omega arith in
      let step : 2 ^ (k + 1) ≡ 2 ^ k * 2 = ap (λ n. 2 ^ n) next ∙ pow-suc 2 k in omega (arith, step)

  module _ (marks : Area → ℕ → ℕ) (areas : ℕ → Area)
      (laid : (k : ℕ) → k < 8 → IsLaid object_base k (areas k) (marks (areas k))) where
    pub copy_areas-others :
        (rounds i : ℕ) (memory : ℕ → ℕ) (x : ℕ)
        → i + rounds ≤ 8
        → (x < object_base + dst + i * segments) ⊎ (object_base + dst + (i + rounds) * segments ≤ x)
        → copy_areas rounds i (size_at i) marks dst src areas memory x ≡ memory x
    unfolding copy_areas
    copy_areas-others zero i memory x h away = refl
    copy_areas-others (suc rounds) i memory x h away =
        let place = (laid i (omega arith)).place in
        ap
          (λ size.
            copy_areas rounds (i + 1) size marks dst src areas
              (area_copied i (areas i) (marks (areas i)) memory) x)
          (size_at-suc i)
        ∙ copy_areas-others rounds (i + 1) (area_copied i (areas i) (marks (areas i)) memory) x
            (omega arith) (ground (arith, away))
        ∙ area_copied-others i (areas i) (marks (areas i)) memory x (laid i (omega arith))
            (ground (arith, away, place, h))

    pub copy_areas-moved :
        (rounds i : ℕ) (memory : ℕ → ℕ) (j c off : ℕ)
        → i + rounds ≤ 8
        → i ≤ j
        → j < i + rounds
        → c < (areas j).size
        → is_marked (marks (areas j)) c ≡ true
        → off < size_at j
        → copy_areas rounds i
            (size_at i)
            marks
            dst
            src
            areas
            memory
            ((areas j).base + dst + c * size_at j + off)
          ≡ memory ((areas j).base + src + c * size_at j + off)
    unfolding copy_areas
    copy_areas-moved zero i memory j c off h lo hi small m lt = absurd (omega arith)
    copy_areas-moved (suc rounds) i memory j c off h lo hi small m lt =
        ap
          (λ size.
            copy_areas rounds (i + 1) size marks dst src areas
              (area_copied i (areas i) (marks (areas i)) memory)
              ((areas j).base + dst + c * size_at j + off))
          (size_at-suc i)
        ∙ (elim (ℕ_discrete i j) [
          | yes same ↦
              copy_areas-others rounds (i + 1) (area_copied i (areas i) (marks (areas i)) memory)
                ((areas j).base + dst + c * size_at j + off) (omega arith)
                (inl (
                  omega (
                    arith,
                    (laid j (omega arith)).place,
                    same,
                    chunk_inside j c off (areas j) (marks (areas j)) (laid j (omega arith)) small
                        lt,
                  )))
              ∙ subst
                  (λ n.
                    area_copied n (areas n) (marks (areas n)) memory
                      ((areas j).base + dst + c * size_at j + off)
                    ≡ memory ((areas j).base + src + c * size_at j + off))
                  (sym same)
                  (area_copied-moved j c off (areas j) (marks (areas j)) memory
                    (laid j (omega arith)) small m lt)
          | no other ↦
              copy_areas-moved rounds (i + 1) (area_copied i (areas i) (marks (areas i)) memory) j c
                off (omega arith) (omega (arith, other)) (omega arith) small m lt
              ∙ area_copied-others i (areas i) (marks (areas i)) memory
                  ((areas j).base + src + c * size_at j + off) (laid i (omega arith))
                  (ground (
                    arith,
                    far,
                    (laid i (omega arith)).place,
                    (laid j (omega arith)).place,
                    chunk_inside j c off (areas j) (marks (areas j)) (laid j (omega arith)) small
                        lt,
                  ))
        ])
