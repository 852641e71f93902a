-- ===== src/Exec/Trap.antt =====
-- src/vm.c: `do_trap` with `trap_write`, the one EXP instruction, and `do_bad_op`.
use sigma16_emulator.Base.{ℕ, zero, suc, ◌+◌, ◌==◌, [], ◌∷◌, u16, bit_and}
use sigma16_emulator.Cpu.{ir_d, ir_sa, ir_sb}
use sigma16_emulator.Machine.{
  Handler, inst_rrr, inst_exp0, exec_end, M, ◌>>=◌, ◌>>◌, ret, cpu, choose, modify_cpu, print,
  finish, halted, bad_opcode,
}
use sigma16_emulator.Memory.{read_mem}
use sigma16_emulator.Exec.Ops.{interp_rrr, clear_flags, advance}

module _ {H : Type 0} where
  -- The `for` loop of `trap_write` at index `i`, with `rounds` characters left. `addr + i` is an
  -- `int`, which the parameter of `read_mem` cuts to a `uint16_t`.
  unfoldable pub trap_write_loop : ℕ → ℕ → ℕ → M H (Unit {0})
  unfolding read_mem
  trap_write_loop zero addr i = ret tt
  trap_write_loop (suc rounds) addr i = do
    v ← read_mem (u16 (addr + i))
    print (bit_and v 0xff ∷ [])
    trap_write_loop rounds addr (i + 1)

  unfoldable pub trap_write : M H (Unit {0})
  unfolding trap_write_loop
  trap_write = do c ← cpu; trap_write_loop (c.regs (ir_sb c.ir)) (c.regs (ir_sa c.ir)) 0

  unfoldable pub do_bad_op : M H (Unit {0})
  do_bad_op = do c ← cpu; finish (bad_opcode c.pc)

module _ {H : Type 0} (trace_handler : Handler H) where
  -- Code 0 ends execution by way of `end_hotloop`, 2 writes, and any other does nothing.
  unfoldable pub do_trap : M H (Unit {0})
  unfolding interp_rrr trap_write
  do_trap = do
    interp_rrr
    trace_handler inst_rrr
    c ← cpu
    let code = c.regs (ir_d c.ir)
    choose (code == 0) (do trace_handler exec_end; finish halted)
        (do choose (code == 2) trap_write (ret tt); modify_cpu (advance 1); modify_cpu clear_flags)

  unfoldable pub do_rfi : M H (Unit {0})
  do_rfi = do trace_handler inst_exp0; modify_cpu (advance 2)
