-- ===== src/Mvmm/Registers.antt =====
-- MVM_MMAP_MULTIVERSIONING/patches/patches.c: the effective address of an instruction, and the base
-- register that leads it to another one. A 64-bit value is a number below 2^64, a negative one by its
-- two's complement.
use mathlib.Core.Path.{subst}
use congenial_octo_telegram.Base.{
  ℕ, ◌+◌, ◌-◌, ◌*◌, ◌%◌, ◌^◌, ◌<◌, ◌≡◌, inl, inr, refl, sym, ◌∙◌, Bool, true, false, not, ◌||◌,
  ◌==◌, if◌then◌else◌, update, update_self, arith, Bool-cases,
}

-- What the patches read of `instruction_record` and its `target_address`; a register is a number, 0 none.
pub record Instruction : Type 0 where
  pub effective_operand_address : ℕ
  pub rip_relative : Bool
  pub displacement : ℕ
  pub base_index : ℕ
  pub scale_index : ℕ
  pub scale : ℕ

unfoldable pub compute_effective_address : Instruction → (ℕ → ℕ) → ℕ
compute_effective_address ins regs =
    let base = if ins.base_index == 0 then 0 else regs (ins.base_index - 1) in
    let index = if ins.scale_index == 0 then 0 else regs (ins.scale_index - 1) in
    if ins.effective_operand_address == 0
    then (ins.displacement + base + index * ins.scale) % 2 ^ 64
    else ins.effective_operand_address

-- The result tells whether the instruction was led to the address.
unfoldable pub rewrite_base_reg_for_ea : Instruction → ℕ → ℕ → (ℕ → ℕ) → Bool × (ℕ → ℕ)
rewrite_base_reg_for_ea ins ea ea_prime regs =
    let slot = ins.base_index - 1 in
    let delta = (ea_prime + 2 ^ 64 - ea) % 2 ^ 64 in
    if ins.rip_relative
    then (false, regs)
    else if ins.base_index == 0
    then (false, regs)
    else if ins.scale_index == 0
    then (if delta == 0
        then (true, regs)
        else (true, update regs slot ((regs slot + delta) % 2 ^ 64)))
    else (false, regs)

-- An instruction with a base register alone.
compute_effective_address-base :
    (ins : Instruction) (regs : ℕ → ℕ)
    → ins.effective_operand_address ≡ 0
    → (ins.base_index == 0) ≡ false
    → (ins.scale_index == 0) ≡ true
    → compute_effective_address ins regs ≡ (ins.displacement + regs (ins.base_index - 1)) % 2 ^ 64
unfolding compute_effective_address
compute_effective_address-base ins regs direct base simple =
    let operand : (ins.effective_operand_address == 0) ≡ true = ground (arith, direct) in
    rw (operand, base, simple) (omega arith)

-- An instruction that cannot be led elsewhere, and one that can.
not_rewritten :
    (ins : Instruction) (ea ea_prime : ℕ) (regs : ℕ → ℕ)
    → (ins.rip_relative || (ins.base_index == 0) || not (ins.scale_index == 0)) ≡ true
    → rewrite_base_reg_for_ea ins ea ea_prime regs ≡ (false, regs)
unfolding rewrite_base_reg_for_ea
not_rewritten ins ea ea_prime regs h = elim (Bool-cases ins.rip_relative) [
  | inl rip ↦ rw rip refl
  | inr plain ↦ elim (Bool-cases (ins.base_index == 0)) [
    | inl no_base ↦ rw (plain, no_base) refl
    | inr base ↦ elim (Bool-cases (ins.scale_index == 0)) [
      | inr scaled ↦ rw (plain, base, scaled) refl
      | inl simple ↦ absurd (ground (arith, h, plain, base, simple))
    ]
  ]
]

abbrev led_to : ℕ → ℕ → ℕ → (ℕ → ℕ) → ℕ → ℕ
led_to slot ea ea_prime regs =
    let delta = (ea_prime + 2 ^ 64 - ea) % 2 ^ 64 in
    if delta == 0 then regs else update regs slot ((regs slot + delta) % 2 ^ 64)

rewritten :
    (ins : Instruction) (ea ea_prime : ℕ) (regs : ℕ → ℕ)
    → (ins.rip_relative || (ins.base_index == 0) || not (ins.scale_index == 0)) ≡ false
    → rewrite_base_reg_for_ea ins ea ea_prime regs
      ≡ (true, led_to (ins.base_index - 1) ea ea_prime regs)
unfolding rewrite_base_reg_for_ea
rewritten ins ea ea_prime regs h =
    let plain : ins.rip_relative ≡ false = ground (arith, h) in
    let base : (ins.base_index == 0) ≡ false = ground (arith, h) in
    let simple : (ins.scale_index == 0) ≡ true = ground (arith, h) in
    elim (Bool-cases ((ea_prime + 2 ^ 64 - ea) % 2 ^ 64 == 0)) [
      | inl same ↦ rw (plain, base, simple, same) refl
      | inr other ↦ rw (plain, base, simple, other) refl
    ]

led_to-slot :
    (slot ea_prime displacement : ℕ) (regs : ℕ → ℕ)
    → ea_prime < 2 ^ 64
    → (displacement + led_to slot ((displacement + regs slot) % 2 ^ 64) ea_prime regs slot) % 2 ^ 64
      ≡ ea_prime
led_to-slot slot ea_prime displacement regs small = ground (arith, update_self regs slot)

-- For an instruction without a fixed operand address and a new address below 2^64, where
-- `mvmm_rewrite_base_reg_for_ea` succeeds, the effective address computed from the registers after
-- it is the new one, and where it fails the registers are as they were.
pub rewrite_base_reg_for_ea_lem :
    (ins : Instruction) (ea_prime : ℕ) (regs : ℕ → ℕ)
    → ins.effective_operand_address ≡ 0
    → ea_prime < 2 ^ 64
    → let (ok, after) =
        rewrite_base_reg_for_ea ins (compute_effective_address ins regs) ea_prime regs in
      (ok ≡ true → compute_effective_address ins after ≡ ea_prime) × (ok ≡ false → after ≡ regs)
rewrite_base_reg_for_ea_lem ins ea_prime regs direct small =
    let ea = compute_effective_address ins regs in
    elim (Bool-cases (ins.rip_relative || (ins.base_index == 0) || not (ins.scale_index == 0))) [
      | inl fixed ↦
          subst
            (λ s.
              (s.0 ≡ true → compute_effective_address ins s.1 ≡ ea_prime)
              × (s.0 ≡ false → s.1 ≡ regs))
            (sym (not_rewritten ins ea ea_prime regs fixed)) (λ e. cc, λ e. refl)
      | inr free ↦
          subst
            (λ s.
              (s.0 ≡ true → compute_effective_address ins s.1 ≡ ea_prime)
              × (s.0 ≡ false → s.1 ≡ regs))
            (sym (rewritten ins ea ea_prime regs free)) (λ e. led free, λ e. cc)
    ]
  where
    led :
        (ins.rip_relative || (ins.base_index == 0) || not (ins.scale_index == 0)) ≡ false
        → compute_effective_address ins
            (led_to (ins.base_index - 1) (compute_effective_address ins regs) ea_prime regs)
          ≡ ea_prime
    led free =
        let base : (ins.base_index == 0) ≡ false = ground (arith, free) in
        let simple : (ins.scale_index == 0) ≡ true = ground (arith, free) in
        let before = compute_effective_address-base ins regs direct base simple in
        rw before (
          compute_effective_address-base ins
            (led_to (ins.base_index - 1) ((ins.displacement + regs (ins.base_index - 1)) % 2 ^ 64)
              ea_prime regs)
            direct base simple
          ∙ led_to-slot (ins.base_index - 1) ea_prime ins.displacement regs small)
