-- ===== src/Isa/RefineAlu.antt =====
-- The register instructions of src/vm.c do what the architecture says.
use sigma16_emulator.Base.{
  ℕ, ◌<◌, ◌^◌, ◌*◌, ◌≡◌, refl, false, arith, inl, inr, ltb, lt→ltb, ◌==◌, some, bit_and, bit_or,
  bit_xor,
}
use sigma16_emulator.Base.Cases.{Bool-cases}
use sigma16_emulator.Cpu.{Ir, ir_d, ir_sa, ir_sb}
use sigma16_emulator.Memory.{mem_words}
use sigma16_emulator.Machine.{World, M, ◌>>◌, modify_cpu, silent}
use sigma16_emulator.Exec.Ops.{apply_op_rrr, clear_flags}
use sigma16_emulator.Exec.Alu.{
  do_add, do_sub, do_mul, do_div, do_cmp, do_cmplt, do_cmpeq, do_cmpgt, do_invold, do_andold,
  do_orold, do_xorold, do_nop, truth,
}
use sigma16_emulator.Isa
use sigma16_emulator.Isa.{AluOp, exec_alu, exec_nop, logical, view, outcome}
use sigma16_emulator.Isa.Status.{add_flags-write_reg, cmp_flags-write_reg}

-- The instruction register after INTERP_INST(vm, rrr).
abbrev pub fetched : {H : Type 0} → World H → Ir
fetched w = record (w.vm.cpu.ir) { first = w.vm.mem w.vm.cpu.pc }

-- At `w`, the code `m` has the effect of the instruction `op` with the fields fetched.
abbrev pub Performs : {H : Type 0} → World H → M H (Unit {0}) → AluOp → Type 0
Performs w m op =
    outcome (m w) ≡ exec_alu op (ir_d (fetched w)) (ir_sa (fetched w)) (ir_sb (fetched w)) (view w)

module _ {H : Type 0} (w : World H) (inside : w.vm.cpu.pc < mem_words) where
  -- The instructions that end in CLEARFLAGS.
  apply_op_rrr-logical :
      (f : ℕ → ℕ → ℕ)
      → outcome ((apply_op_rrr silent (λ a b. some (f a b)) >> modify_cpu clear_flags) w)
        ≡ logical
            (ir_d (fetched w))
            (f (w.vm.cpu.regs (ir_sa (fetched w))) (w.vm.cpu.regs (ir_sb (fetched w))))
            (view w)
  unfolding ◌>>◌ apply_op_rrr
  apply_op_rrr-logical f =
      rw (lt→ltb _ _ inside, outcome)
        (elim (Bool-cases (ir_d (fetched w) == 0)) [ inl e ↦ rw e | inr e ↦ rw e ])

  pub do_add-Performs : Performs w (do_add silent) Isa.add
  unfolding ◌>>◌ do_add exec_alu
  do_add-Performs =
      rw (lt→ltb _ _ inside, outcome)
        (elim (Bool-cases (ir_d (fetched w) == 0)) [
          | inl e ↦ rw e (rw add_flags-write_reg (rw e))
          | inr e ↦ rw e (rw add_flags-write_reg (rw e))
        ])

  pub do_sub-Performs : Performs w (do_sub silent) Isa.sub
  unfolding ◌>>◌ do_sub exec_alu
  do_sub-Performs =
      rw (lt→ltb _ _ inside, outcome)
        (elim (Bool-cases (ir_d (fetched w) == 0)) [ inl e ↦ rw e | inr e ↦ rw e ])

  pub do_mul-Performs : Performs w (do_mul silent) Isa.mul
  unfolding ◌>>◌ do_mul exec_alu
  do_mul-Performs =
      rw (lt→ltb _ _ inside, outcome)
        (elim (Bool-cases (ir_d (fetched w) == 0)) [
          | inl e ↦ rw e
          | inr e ↦
              rw e
                (elim (Bool-cases (
                  ltb (w.vm.cpu.regs (ir_sa (fetched w)) * w.vm.cpu.regs (ir_sb (fetched w)))
                    (2 ^ 31))) [ inl small ↦ rw small | inr large ↦ rw large ])
        ])

  pub do_div-Performs : Performs w (do_div silent) Isa.div
  unfolding ◌>>◌ do_div exec_alu
  do_div-Performs =
      rw (lt→ltb _ _ inside, outcome)
        (elim (Bool-cases (w.vm.cpu.regs (ir_sb (fetched w)) == 0)) [
          | inl e ↦ rw e
          | inr e ↦ rw e (elim (Bool-cases (ir_d (fetched w) == 0)) [
            | inl z ↦ let other : (ir_d (fetched w) == 15) ≡ false = ground arith in rw (z, other)
            | inr z ↦
                rw z (elim (Bool-cases (ir_d (fetched w) == 15)) [ inl t ↦ rw t | inr t ↦ rw t ])
          ])
        ])

  pub do_cmp-Performs : Performs w (do_cmp silent) Isa.cmp
  unfolding ◌>>◌ do_cmp exec_alu
  do_cmp-Performs = rw (lt→ltb _ _ inside, outcome, cmp_flags-write_reg)

  pub do_cmplt-Performs : Performs w (do_cmplt silent) Isa.cmplt
  unfolding ◌>>◌ do_cmplt exec_alu
  do_cmplt-Performs = apply_op_rrr-logical λ a b. truth (ltb a b)

  pub do_cmpeq-Performs : Performs w (do_cmpeq silent) Isa.cmpeq
  unfolding ◌>>◌ do_cmpeq exec_alu
  do_cmpeq-Performs = apply_op_rrr-logical λ a b. truth (a == b)

  pub do_cmpgt-Performs : Performs w (do_cmpgt silent) Isa.cmpgt
  unfolding ◌>>◌ do_cmpgt exec_alu
  do_cmpgt-Performs = apply_op_rrr-logical λ a b. truth (ltb b a)

  pub do_invold-Performs : Performs w (do_invold silent) Isa.inv
  unfolding ◌>>◌ do_invold exec_alu
  do_invold-Performs =
      rw (lt→ltb _ _ inside, outcome)
        (elim (Bool-cases (ir_d (fetched w) == 0)) [ inl e ↦ rw e | inr e ↦ rw e ])

  pub do_andold-Performs : Performs w (do_andold silent) Isa.and
  unfolding ◌>>◌ do_andold exec_alu
  do_andold-Performs = apply_op_rrr-logical bit_and

  pub do_orold-Performs : Performs w (do_orold silent) Isa.or
  unfolding ◌>>◌ do_orold exec_alu
  do_orold-Performs = apply_op_rrr-logical bit_or

  pub do_xorold-Performs : Performs w (do_xorold silent) Isa.xor
  unfolding ◌>>◌ do_xorold exec_alu
  do_xorold-Performs = apply_op_rrr-logical bit_xor

pub do_nop-exec_nop : {H : Type 0} (w : World H) → outcome (do_nop silent w) ≡ exec_nop (view w)
unfolding ◌>>◌ do_nop
do_nop-exec_nop w = refl
