-- ===== src/Exec/Rx.antt =====
-- src/vm.c: the RX instructions `do_lea` to `do_jal`, after `do_decode_rx` has filled `ir`.
use sigma16_emulator.Base.{◌+◌, Bool, ◌==◌, not}
use sigma16_emulator.Cpu.{ir_d}
use sigma16_emulator.Machine.{Handler, inst_rx, M, ◌>>=◌, ◌>>◌, ret, cpu, choose, modify_cpu}
use sigma16_emulator.Memory.{read_mem, write_mem}
use sigma16_emulator.Exec.Ops.{compute_rx_eaddr, safe_update, select_bit, advance}

module _ {H : Type 0} where
  -- `vm->cpu.pc = compute_rx_eaddr(vm)`
  unfoldable pub goto_eaddr : M H (Unit {0})
  unfolding compute_rx_eaddr
  goto_eaddr = do a ← compute_rx_eaddr; modify_cpu (λ c. record c { pc = a })

  -- The two arms of the conditional jumps.
  unfoldable pub branch : Bool → M H (Unit {0})
  unfolding goto_eaddr
  branch taken = choose taken goto_eaddr (modify_cpu (advance 2))

module _ {H : Type 0} (trace_handler : Handler H) where
  unfoldable pub do_lea : M H (Unit {0})
  unfolding safe_update compute_rx_eaddr
  do_lea = do
    trace_handler inst_rx
    c ← cpu
    safe_update (ir_d c.ir) compute_rx_eaddr
    modify_cpu (advance 2)

  unfoldable pub do_load : M H (Unit {0})
  unfolding safe_update compute_rx_eaddr read_mem
  do_load = do
    trace_handler inst_rx
    c ← cpu
    safe_update (ir_d c.ir) (do a ← compute_rx_eaddr; read_mem a)
    modify_cpu (advance 2)

  unfoldable pub do_store : M H (Unit {0})
  unfolding compute_rx_eaddr write_mem
  do_store = do
    trace_handler inst_rx
    a ← compute_rx_eaddr
    c ← cpu
    write_mem a (c.regs (ir_d c.ir))
    modify_cpu (advance 2)

  unfoldable pub do_jump : M H (Unit {0})
  unfolding goto_eaddr
  do_jump = do trace_handler inst_rx; goto_eaddr

  unfoldable pub do_jumpc0 : M H (Unit {0})
  unfolding branch select_bit
  do_jumpc0 = do trace_handler inst_rx; c ← cpu; branch (not (select_bit (c.regs 15) (ir_d c.ir)))

  unfoldable pub do_jumpc1 : M H (Unit {0})
  unfolding branch select_bit
  do_jumpc1 = do trace_handler inst_rx; c ← cpu; branch (select_bit (c.regs 15) (ir_d c.ir))

  unfoldable pub do_jumpf : M H (Unit {0})
  unfolding branch
  do_jumpf = do trace_handler inst_rx; c ← cpu; branch (c.regs (ir_d c.ir) == 0)

  unfoldable pub do_jumpt : M H (Unit {0})
  unfolding branch
  do_jumpt = do trace_handler inst_rx; c ← cpu; branch (not (c.regs (ir_d c.ir) == 0))

  -- The link register is stored first, so the effective address sees it.
  unfoldable pub do_jal : M H (Unit {0})
  unfolding safe_update goto_eaddr
  do_jal = do trace_handler inst_rx; c ← cpu; safe_update (ir_d c.ir) (ret (c.pc + 2)); goto_eaddr
