-- ===== src/Exec/Compare.antt =====
-- The flags that `do_cmp` sets, as the conditional jumps read them.
use sigma16_emulator.Base.{ℕ, ◌+◌, ◌-◌, ◌≡◌, refl, ap, ◌∙◌, arith, Bool, false, ltb, ◌==◌, u16}
use sigma16_emulator.Base.Int.{ltℤ, int16}
use sigma16_emulator.Cpu.{
  Cpu, ir_sa, ir_sb, Flag, carry, int_overflow, nat_overflow, nat_less, int_less, equal,
  int_greater, nat_greater, flag_bit,
}
use sigma16_emulator.Exec.Ops.{clear_flags, select_bit}
use sigma16_emulator.Exec.Alu.{cmp_flags}
use sigma16_emulator.Isa.{weight}
use sigma16_emulator.Isa.Status.{cmp_flags-write_reg}

-- What a flag says of two words.
abbrev pub says : Flag → ℕ → ℕ → Bool
says nat_greater a b = ltb b a
says int_greater a b = ltℤ (int16 b) (int16 a)
says equal a b = a == b
says int_less a b = ltℤ (int16 a) (int16 b)
says nat_less a b = ltb a b
says carry a b = false
says int_overflow a b = false
says nat_overflow a b = false

-- The bits of a word that is a sum of weights.
abbrev sum : Bool → Bool → Bool → Bool → Bool → ℕ
sum g i e l n =
    weight g 0x8000 + weight i 0x4000 + weight e 0x2000 + weight l 0x1000 + weight n 0x0800

abbrev bit_of : Flag → Bool → Bool → Bool → Bool → Bool → Bool
bit_of nat_greater g i e l n = g
bit_of int_greater g i e l n = i
bit_of equal g i e l n = e
bit_of int_less g i e l n = l
bit_of nat_less g i e l n = n
bit_of _ g i e l n = false

select_bit-sum :
    (f : Flag) (g i e l n : Bool)
    → select_bit (u16 (sum g i e l n)) (15 - flag_bit f) ≡ bit_of f g i e l n
unfolding select_bit
select_bit-sum carry g i e l n = ground arith
select_bit-sum int_overflow g i e l n = ground arith
select_bit-sum nat_overflow g i e l n = ground arith
select_bit-sum nat_less g i e l n = ground arith
select_bit-sum int_less g i e l n = ground arith
select_bit-sum equal g i e l n = ground arith
select_bit-sum int_greater g i e l n = ground arith
select_bit-sum nat_greater g i e l n = ground arith

says-bit_of :
    (f : Flag) (a b : ℕ)
    → bit_of f (ltb b a) (ltℤ (int16 b) (int16 a)) (a == b) (ltℤ (int16 a) (int16 b)) (ltb a b)
      ≡ says f a b
says-bit_of carry a b = refl
says-bit_of int_overflow a b = refl
says-bit_of nat_overflow a b = refl
says-bit_of nat_less a b = refl
says-bit_of int_less a b = refl
says-bit_of equal a b = refl
says-bit_of int_greater a b = refl
says-bit_of nat_greater a b = refl

-- After `do_cmp` has set the flags, the bit that a conditional jump selects for a flag tells how the
-- two operands compare, as R15 was cleared before they were read: greater or less, as words and as
-- signed numbers, or equal; and the bits of carry and overflow are off.
pub select_bit-cmp_flags :
    (f : Flag) (c : Cpu)
    → select_bit ((cmp_flags c).regs 15) (15 - flag_bit f)
      ≡ says f ((clear_flags c).regs (ir_sa c.ir)) ((clear_flags c).regs (ir_sb c.ir))
select_bit-cmp_flags f c =
    let a : ℕ = (clear_flags c).regs (ir_sa c.ir) in
    let b : ℕ = (clear_flags c).regs (ir_sb c.ir) in
    ap (λ (d : Cpu). select_bit (d.regs 15) (15 - flag_bit f)) (cmp_flags-write_reg c)
    ∙ select_bit-sum f (ltb b a) (ltℤ (int16 b) (int16 a)) (a == b) (ltℤ (int16 a) (int16 b))
        (ltb a b)
    ∙ says-bit_of f a b
