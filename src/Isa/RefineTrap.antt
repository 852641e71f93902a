-- ===== src/Isa/RefineTrap.antt =====
-- `do_trap` with its output, and the undefined ends of the EXP instructions.
use sigma16_emulator.Base.{
  ℕ, zero, suc, ◌+◌, ◌<◌, ◌≡◌, refl, arith, inl, inr, ltb, lt→ltb, ◌==◌, u16,
}
use sigma16_emulator.Base.Bits.{bit_and_byte}
use sigma16_emulator.Base.Cases.{Bool-cases}
use sigma16_emulator.Cpu.{ir_d, ir_sa, ir_sb}
use sigma16_emulator.Memory.{mem_words}
use sigma16_emulator.Machine.{World, M, ◌>>◌, modify_cpu, silent}
use sigma16_emulator.Exec.Ops.{advance, clear_flags}
use sigma16_emulator.Exec.Trap.{do_trap, trap_write_loop}
use sigma16_emulator.Isa
use sigma16_emulator.Isa.{State, Next, write_chars, exec_trap, ◌and_then◌, view, outcome}
use sigma16_emulator.Isa.RefineAlu.{fetched}

module _ {H : Type 0} (k : M H (Unit {0})) (f : State → Next)
    (agree : (w : World H) → outcome (k w) ≡ f (view w)) where
  -- The loop of `trap_write`, with the code that follows it.
  trap_write_loop-write_chars :
      (rounds addr i a : ℕ) (w : World H)
      → addr + i ≡ a
      → outcome ((trap_write_loop rounds addr i >> k) w)
        ≡ (write_chars rounds a (view w) and_then f)
  unfolding ◌>>◌ trap_write_loop write_chars
  trap_write_loop-write_chars zero addr i a w e = agree w
  trap_write_loop-write_chars (suc rounds) addr i a w e =
      rw e (elim (Bool-cases (ltb (u16 a) mem_words)) [
        | inl inside ↦
            rw (inside, outcome, bit_and_byte)
              (trap_write_loop-write_chars rounds addr (i + 1) (a + 1) _ (omega arith))
        | inr outside ↦ rw (outside, outcome)
      ])

-- `trap` halts, writes or does nothing, as the architecture says.
pub do_trap-exec_trap :
    {H : Type 0} (w : World H)
    → w.vm.cpu.pc < mem_words
    → outcome (do_trap silent w)
      ≡ exec_trap (ir_d (fetched w)) (ir_sa (fetched w)) (ir_sb (fetched w)) (view w)
unfolding ◌>>◌ do_trap exec_trap
do_trap-exec_trap w inside =
    rw (lt→ltb _ _ inside, outcome)
      (elim (Bool-cases (w.vm.cpu.regs (ir_d (fetched w)) == 0)) [
        | inl zero_code ↦ rw (zero_code, outcome)
        | inr e ↦
            rw (e, outcome)
              (elim (Bool-cases (w.vm.cpu.regs (ir_d (fetched w)) == 2)) [
                | inl write ↦
                    rw (write, outcome)
                      (trap_write_loop-write_chars
                        (modify_cpu (advance 1) >> modify_cpu clear_flags)
                        (λ s. Isa.next (Isa.set_status 0 (Isa.skip 1 s))) (λ w'. refl) _ _ 0 _ _
                        (omega arith))
                | inr other ↦ rw (other, outcome)
              ])
      ])
