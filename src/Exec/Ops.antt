-- ===== src/Exec/Ops.antt =====
-- src/vm.c: the macros and helper functions that the instructions share.
use sigma16_emulator.Base.{ℕ, ◌+◌, ◌-◌, Bool, ◌==◌, Option, u16, bswap_16, bit_and, ◌>>>◌}
use sigma16_emulator.Cpu.{Cpu, ir_d, ir_sa, ir_sb, ir_disp, update}
use sigma16_emulator.Machine.{
  Handler, inst_rrr, M, ◌>>=◌, ◌>>◌, ret, cpu, choose, modify_cpu, defined,
}
use sigma16_emulator.Memory.{fetch}

-- `(val >> 15 - bit_pos) & 0x1`, nonzero; `-` binds tighter than `>>` in C.
unfoldable pub select_bit : ℕ → ℕ → Bool
select_bit val bit_pos = bit_and (val >>> (15 - bit_pos)) 1 == 1

-- A register takes the value of an `int` expression, converted to `uint16_t`.
abbrev pub write_reg : ℕ → ℕ → Cpu → Cpu
write_reg i v c = record c { regs = update c.regs i (u16 v) }

-- CLEARFLAGS(vm->cpu.regs[15])
abbrev pub clear_flags : Cpu → Cpu
clear_flags = write_reg 15 0

-- `vm->cpu.pc += n`
abbrev pub advance : ℕ → Cpu → Cpu
advance n c = record c { pc = u16 (c.pc + n) }

module _ {H : Type 0} where
  -- SAFE_UPDATE: the value is computed only when the register is not R0.
  unfoldable pub safe_update : ℕ → M H ℕ → M H (Unit {0})
  safe_update dst val = choose (dst == 0) (ret tt) (do v ← val; modify_cpu (write_reg dst v))

  -- INTERP_INST(vm, rrr) stores the first two bytes of the union, and leaves the others.
  unfoldable pub interp_rrr : M H (Unit {0})
  unfolding fetch
  interp_rrr = do
    c ← cpu
    word ← fetch c.pc
    modify_cpu (λ c'. record c' { ir = record (c'.ir) { first = word } })

  -- INTERP_INST(vm, exp0) reads four bytes, `sizeof(sigma16_inst_exp0_t)`, in host order.
  unfoldable pub interp_exp0 : M H (Unit {0})
  unfolding fetch
  interp_exp0 = do
    c ← cpu
    word ← fetch c.pc
    next ← fetch (c.pc + 1)
    modify_cpu (λ c'. record c' { ir = record { first = word; second = next } })

  -- INTERP_RX reads four bytes and exchanges the bytes of `disp`.
  unfoldable pub interp_rx : M H (Unit {0})
  unfolding interp_exp0
  interp_rx = do
    interp_exp0
    modify_cpu (λ c'. record c' { ir = record (c'.ir) { second = bswap_16 c'.ir.second } })

  unfoldable pub compute_rx_eaddr : M H ℕ
  compute_rx_eaddr = do
    modify_cpu (λ c. record c { adr = u16 (c.regs (ir_sa c.ir) + ir_disp c.ir) })
    c ← cpu
    ret c.adr

  -- APPLY_OP_RRR: `none` from `op` is an undefined operation.
  unfoldable pub apply_op_rrr : Handler H → (ℕ → ℕ → Option ℕ) → M H (Unit {0})
  unfolding interp_rrr safe_update
  apply_op_rrr trace_handler op = do
    interp_rrr
    trace_handler inst_rrr
    c ← cpu
    safe_update (ir_d c.ir) (defined (op (c.regs (ir_sa c.ir)) (c.regs (ir_sb c.ir))))
    modify_cpu (advance 1)
