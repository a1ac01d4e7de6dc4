-- ===== src/Memory/Contents/Copies.antt =====
-- memory/memory.c: the loops that copy the marked chunks of an area.
use mathlib.Core.Path.{subst}
use native.Mathlib.Decide.{ℕ_discrete}
use native.Mathlib.Nat.{mul-le-mul_right, zero-div, suc-mul}
use congenial_octo_telegram.Base.{
  ℕ, zero, suc, ◌+◌, ◌-◌, ◌*◌, ◌/◌, ◌%◌, ◌^◌, ◌≤◌, ◌<◌, ◌≡◌, ◌≢◌, inl, inr, refl, sym, ap, ◌∙◌,
  Bool, true, false, ◌&&◌, ltb, leb, ◌==◌, if◌then◌else◌, arith, Bool-cases,
}
use congenial_octo_telegram.Byte.{test_bit}
use congenial_octo_telegram.Memory.Contents.{copy_bytes, copy_bits, copy_marked}

-- The bit of a chunk in a bitmap.
abbrev pub is_marked : (ℕ → ℕ) → ℕ → Bool
is_marked bitmap chunk = test_bit (bitmap (chunk / 8)) (chunk % 8)

module _ (bitmap : ℕ → ℕ) (dst src chunk_size : ℕ) where
  abbrev pub copy_if_marked : ℕ → (ℕ → ℕ) → ℕ → ℕ
  copy_if_marked chunk memory =
      if is_marked bitmap chunk
      then copy_bytes (dst + chunk * chunk_size) (src + chunk * chunk_size) chunk_size memory
      else memory

  -- The same loop over the chunks, one by one.
  abbrev pub copy_chunks : ℕ → ℕ → (ℕ → ℕ) → ℕ → ℕ
  copy_chunks zero chunk memory = memory
  copy_chunks (suc rounds) chunk memory =
      copy_chunks rounds (chunk + 1) (copy_if_marked chunk memory)

  copy_bits-copy_chunks :
      (rounds k j : ℕ) (memory : ℕ → ℕ)
      → k + rounds ≤ 8
      → copy_bits rounds k j (bitmap j) dst src chunk_size memory
        ≡ copy_chunks rounds (j * 8 + k) memory
  unfolding copy_bits
  copy_bits-copy_chunks zero k j memory h = refl
  copy_bits-copy_chunks (suc rounds) k j memory h =
      let quotient : (j * 8 + k) / 8 ≡ j = omega arith in
      let rest : (j * 8 + k) % 8 ≡ k = omega arith in
      let next : j * 8 + (k + 1) ≡ j * 8 + k + 1 = omega arith in
      copy_bits-copy_chunks rounds (k + 1) j
        (if test_bit (bitmap j) k
          then copy_bytes (dst + (j * 8 + k) * chunk_size) (src + (j * 8 + k) * chunk_size)
              chunk_size memory
          else memory)
        (omega arith)
      ∙ rw (quotient, rest, next) refl

  copy_chunks-split :
      (a b n chunk : ℕ) (memory : ℕ → ℕ)
      → n ≡ a + b
      → copy_chunks n chunk memory ≡ copy_chunks b (chunk + a) (copy_chunks a chunk memory)
  copy_chunks-split zero b n chunk memory h =
      let same : n ≡ b = omega (arith, h) in
      let here : chunk + 0 ≡ chunk = omega arith in rw (same, here) refl
  copy_chunks-split (suc a) b zero chunk memory h = absurd (omega (arith, h))
  copy_chunks-split (suc a) b (suc n) chunk memory h =
      let there : chunk + 1 + a ≡ chunk + suc a = omega arith in
      copy_chunks-split a b n (chunk + 1) (copy_if_marked chunk memory) (omega (arith, h))
      ∙ rw there refl

  no_bits :
      (rounds k j : ℕ) (memory : ℕ → ℕ) → copy_bits rounds k j 0 dst src chunk_size memory ≡ memory
  unfolding copy_bits
  no_bits zero k j memory = refl
  no_bits (suc rounds) k j memory =
      let none_ : test_bit 0 k ≡ false = rw (zero-div (2 ^ k)) refl in
      rw none_ (no_bits rounds (k + 1) j memory)

  pub copy_marked-copy_chunks :
      (rounds j : ℕ) (memory : ℕ → ℕ)
      → copy_marked rounds j bitmap dst src chunk_size memory
        ≡ copy_chunks (rounds * 8) (j * 8) memory
  unfolding copy_marked
  copy_marked-copy_chunks zero j memory = refl
  copy_marked-copy_chunks (suc rounds) j memory =
      copy_marked-copy_chunks rounds (j + 1) (by_byte memory)
      ∙ ap (copy_chunks (rounds * 8) ((j + 1) * 8)) byte
      ∙ sym (
          copy_chunks-split 8 (rounds * 8) (suc rounds * 8) (j * 8) memory (omega arith)
          ∙ ap (λ c. copy_chunks (rounds * 8) c (copy_chunks 8 (j * 8) memory)) next)
    where
      next : j * 8 + 8 ≡ (j + 1) * 8
      next = omega arith

      start : j * 8 + 0 ≡ j * 8
      start = omega arith

      bits : copy_bits 8 0 j (bitmap j) dst src chunk_size memory ≡ copy_chunks 8 (j * 8) memory
      bits =
          copy_bits-copy_chunks 8 0 j memory (omega arith) ∙ ap (λ c. copy_chunks 8 c memory) start

      by_byte : (ℕ → ℕ) → ℕ → ℕ
      by_byte memory =
          if bitmap j == 0 then memory else copy_bits 8 0 j (bitmap j) dst src chunk_size memory

      byte : by_byte memory ≡ copy_chunks 8 (j * 8) memory
      byte = elim (Bool-cases (bitmap j == 0)) [
        | inr some_ ↦ rw some_ bits
        | inl none_ ↦
            let zero_ : bitmap j ≡ 0 = ground arith in
            rw none_ (
              sym (no_bits 8 0 j memory)
              ∙ ap (λ v. copy_bits 8 0 j v dst src chunk_size memory) (sym zero_)
              ∙ bits)
      ]

  -- No byte of a chunk at `dst`.
  abbrev pub Outside : ℕ → ℕ → Type 0
  Outside chunk x =
      (leb (dst + chunk * chunk_size) x && ltb x (dst + chunk * chunk_size + chunk_size)) ≡ false

  pub later_chunk : (a b : ℕ) → a < b → a * chunk_size + chunk_size ≤ b * chunk_size
  later_chunk a b h =
      let row : suc a * chunk_size ≤ b * chunk_size = mul-le-mul_right chunk_size h in
      let sum : suc a * chunk_size ≡ a * chunk_size + chunk_size = suc-mul a chunk_size in
      omega (arith, row, sum)

  other_chunk : (a b off : ℕ) → a ≢ b → off < chunk_size → Outside a (dst + b * chunk_size + off)
  other_chunk a b off h lt = elim (Bool-cases (ltb a b)) [
    | inl below ↦ ground (arith, later_chunk a b (ground arith))
    | inr above ↦ let less : b < a = ground (arith, h) in ground (arith, later_chunk b a less)
  ]

  copy_if_marked-others :
      (chunk : ℕ) (memory : ℕ → ℕ) (x : ℕ)
      → (is_marked bitmap chunk ≡ true → Outside chunk x)
      → copy_if_marked chunk memory x ≡ memory x
  copy_if_marked-others chunk memory x out = elim (Bool-cases (is_marked bitmap chunk)) [
    | inl marked ↦ rw (marked, out marked) refl
    | inr not_marked ↦ rw not_marked refl
  ]

  copy_if_marked-moved :
      (chunk off : ℕ) (memory : ℕ → ℕ)
      → is_marked bitmap chunk ≡ true
      → off < chunk_size
      → copy_if_marked chunk memory (dst + chunk * chunk_size + off)
        ≡ memory (src + chunk * chunk_size + off)
  copy_if_marked-moved chunk off memory marked lt =
      let inside : (leb (dst + chunk * chunk_size) (dst + chunk * chunk_size + off)
            && ltb (dst + chunk * chunk_size + off) (dst + chunk * chunk_size + chunk_size))
          ≡ true =
        ground arith in
      let back : dst + chunk * chunk_size + off - (dst + chunk * chunk_size) ≡ off = omega arith in
      rw (marked, inside, back) refl

  pub copy_chunks-others :
      (rounds chunk : ℕ) (memory : ℕ → ℕ) (x : ℕ)
      → ((c : ℕ) → chunk ≤ c → c < chunk + rounds → is_marked bitmap c ≡ true → Outside c x)
      → copy_chunks rounds chunk memory x ≡ memory x
  copy_chunks-others zero chunk memory x out = refl
  copy_chunks-others (suc rounds) chunk memory x out =
      copy_chunks-others rounds (chunk + 1) (copy_if_marked chunk memory) x
        (λ c le hi. out c (omega arith) (omega arith))
      ∙ copy_if_marked-others chunk memory x (out chunk (omega arith) (omega arith))

  pub copy_chunks-moved :
      (rounds chunk : ℕ) (memory : ℕ → ℕ) (c off : ℕ)
      → ((b : ℕ)
          → b < chunk + rounds
          → is_marked bitmap b ≡ true
          → Outside b (src + c * chunk_size + off))
      → chunk ≤ c
      → c < chunk + rounds
      → is_marked bitmap c ≡ true
      → off < chunk_size
      → copy_chunks rounds chunk memory (dst + c * chunk_size + off)
        ≡ memory (src + c * chunk_size + off)
  copy_chunks-moved zero chunk memory c off apart lo hi marked lt = absurd (omega arith)
  copy_chunks-moved (suc rounds) chunk memory c off apart lo hi marked lt =
      elim (ℕ_discrete chunk c) [
        | yes same ↦
            copy_chunks-others rounds (chunk + 1) (copy_if_marked chunk memory)
              (dst + c * chunk_size + off)
              (λ b le top m. other_chunk b c off (λ e. omega (arith, e, same)) lt)
            ∙ subst
                (λ b.
                  copy_if_marked b memory (dst + c * chunk_size + off)
                  ≡ memory (src + c * chunk_size + off))
                (sym same) (copy_if_marked-moved c off memory marked lt)
        | no other ↦
            copy_chunks-moved rounds (chunk + 1) (copy_if_marked chunk memory) c off
              (λ b top. apart b (omega arith)) (omega (arith, other)) (omega arith) marked lt
            ∙ copy_if_marked-others chunk memory (src + c * chunk_size + off)
                (apart chunk (omega arith))
      ]
