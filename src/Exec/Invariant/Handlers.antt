-- ===== src/Exec/Invariant/Handlers.antt =====
-- The well-formed machine and the labels of `sigma16_vm_exec` in src/vm.c, and each round, under a
-- trace handler that keeps the machine well formed.
use sigma16_emulator.Base.{ℕ, arith, Option}
use sigma16_emulator.Cpu.{Cpu}
use sigma16_emulator.Machine.{
  Handler, Event, inst_rrr, inst_rx, inst_exp0, exec_end, halted, bad_opcode, M, modify_cpu, ◌>>◌,
}
use sigma16_emulator.Exec.Keeps.{
  Keeps-bind, Keeps-then, Keeps-ret, Keeps-finish, Keeps-weaken, Keeps-choose,
}
use sigma16_emulator.Exec.Ops.{interp_rrr, apply_op_rrr, clear_flags, advance}
use sigma16_emulator.Exec.Alu.{
  add_flags, cmp_flags, c_add, c_sub, c_mul, c_lt, c_eq, c_gt, c_and, c_or, c_xor,
}
use sigma16_emulator.Exec.Trap.{do_trap}
use sigma16_emulator.Exec.{
  Label, ExpLabel, rfi, RxLabel, run_exp, run_rx, run_label, decode_exp_inst, decode_rx_inst, step,
}
use sigma16_emulator.Isa.Status.{add_flags-write_reg, cmp_flags-write_reg}
use sigma16_emulator.Exec.Invariant.{
  IsCpu, Preserves, write_reg-IsCpu, clear_flags-IsCpu, advance-IsCpu, cpu-Keeps,
  modify_cpu-Preserves, defined-Keeps, fetch-Keeps, read_mem-Keeps, write_mem-Preserves,
}
use sigma16_emulator.Exec.Invariant.Ops.{
  safe_update-Preserves, interp_rrr-Preserves, interp_exp0-Preserves, interp_rx-Preserves,
  compute_rx_eaddr-Keeps, goto_eaddr-Preserves, branch-Preserves, op_div-Preserves,
  trap_write-Preserves,
}

-- The SETFLAGs amount to one write to R15.
add_flags-IsCpu : (c : Cpu) → IsCpu c → IsCpu (add_flags c)
add_flags-IsCpu c h = rw (add_flags-write_reg c) (write_reg-IsCpu 15 _ (λ e. omega arith) h)

cmp_flags-IsCpu : (c : Cpu) → IsCpu c → IsCpu (cmp_flags c)
cmp_flags-IsCpu c h = rw (cmp_flags-write_reg c) (write_reg-IsCpu 15 _ (λ e. omega arith) h)

module _ {H : Type 0} where
  -- The two ends of an instruction that most share.
  advances : (n : ℕ) → Preserves {H = H} (modify_cpu (advance n))
  advances n = modify_cpu-Preserves (advance n) (advance-IsCpu n)

  clears : Preserves {H = H} (modify_cpu clear_flags)
  clears = modify_cpu-Preserves clear_flags clear_flags-IsCpu

module _ {H : Type 0} (trace_handler : Handler H)
    (handler_preserves : (e : Event) → Preserves (trace_handler e)) where
  apply_op_rrr-Preserves : (op : ℕ → ℕ → Option ℕ) → Preserves (apply_op_rrr trace_handler op)
  unfolding apply_op_rrr
  apply_op_rrr-Preserves op = Keeps-then interp_rrr-Preserves (
      Keeps-then (handler_preserves _) (
        Keeps-bind cpu-Keeps
          λ c _. Keeps-then (safe_update-Preserves _ _ (defined-Keeps _)) (advances 1)))

  apply_op_rrr_clear-Preserves :
      (op : ℕ → ℕ → Option ℕ) → Preserves (apply_op_rrr trace_handler op >> modify_cpu clear_flags)
  apply_op_rrr_clear-Preserves op = Keeps-then (apply_op_rrr-Preserves op) clears

  -- The instructions that decode, trace, and go on by `m`.
  decoded-Preserves :
      {m : M H (Unit {0})} → Preserves m → Preserves (interp_rrr >> (trace_handler inst_rrr >> m))
  decoded-Preserves h = Keeps-then interp_rrr-Preserves (Keeps-then (handler_preserves inst_rrr) h)

  do_trap-Preserves : Preserves (do_trap trace_handler)
  unfolding do_trap
  do_trap-Preserves = decoded-Preserves (
      Keeps-bind cpu-Keeps λ c _.
        Keeps-choose _ (Keeps-then (handler_preserves exec_end) (Keeps-finish halted)) (
          Keeps-then (Keeps-choose _ trap_write-Preserves (Keeps-ret tt tt))
            (Keeps-then (advances 1) clears)))

  run_exp-Preserves : (l : ExpLabel) → Preserves (run_exp trace_handler l)
  unfolding run_exp
  run_exp-Preserves rfi = Keeps-then (handler_preserves inst_exp0) (advances 2)

  run_rx-Preserves : (l : RxLabel) → Preserves (run_rx trace_handler l)
  unfolding run_rx
  run_rx-Preserves RxLabel.lea = Keeps-then (handler_preserves inst_rx) (
      Keeps-bind cpu-Keeps λ c _.
        Keeps-then (safe_update-Preserves _ _ (Keeps-weaken compute_rx_eaddr-Keeps)) (advances 2))
  run_rx-Preserves RxLabel.load = Keeps-then (handler_preserves inst_rx) (
      Keeps-bind cpu-Keeps λ c _.
        Keeps-then
          (safe_update-Preserves _ _ (Keeps-bind compute_rx_eaddr-Keeps λ a _. read_mem-Keeps a))
          (advances 2))
  run_rx-Preserves RxLabel.store = Keeps-then (handler_preserves inst_rx) (
      Keeps-bind compute_rx_eaddr-Keeps
        λ a _. Keeps-bind cpu-Keeps λ c _. Keeps-then (write_mem-Preserves a _) (advances 2))
  run_rx-Preserves RxLabel.jump = Keeps-then (handler_preserves inst_rx) goto_eaddr-Preserves
  run_rx-Preserves RxLabel.jumpc0 =
      Keeps-then (handler_preserves inst_rx) (Keeps-bind cpu-Keeps λ c _. branch-Preserves _)
  run_rx-Preserves RxLabel.jumpc1 =
      Keeps-then (handler_preserves inst_rx) (Keeps-bind cpu-Keeps λ c _. branch-Preserves _)
  run_rx-Preserves RxLabel.jumpf =
      Keeps-then (handler_preserves inst_rx) (Keeps-bind cpu-Keeps λ c _. branch-Preserves _)
  run_rx-Preserves RxLabel.jumpt =
      Keeps-then (handler_preserves inst_rx) (Keeps-bind cpu-Keeps λ c _. branch-Preserves _)
  run_rx-Preserves RxLabel.jal = Keeps-then (handler_preserves inst_rx) (
      Keeps-bind cpu-Keeps
        λ c _. Keeps-then (safe_update-Preserves _ _ (Keeps-ret _ tt)) goto_eaddr-Preserves)
  run_rx-Preserves RxLabel.bad_op = Keeps-bind cpu-Keeps λ c _. Keeps-finish (bad_opcode c.pc)

  decode_exp_inst-Preserves : Preserves (decode_exp_inst trace_handler)
  unfolding decode_exp_inst
  decode_exp_inst-Preserves =
      Keeps-then interp_exp0-Preserves
        (Keeps-bind cpu-Keeps λ c _. Keeps-bind (defined-Keeps _) λ l _. run_exp-Preserves l)

  decode_rx_inst-Preserves : Preserves (decode_rx_inst trace_handler)
  unfolding decode_rx_inst
  decode_rx_inst-Preserves =
      Keeps-then interp_rx-Preserves
        (Keeps-bind cpu-Keeps λ c _. Keeps-bind (defined-Keeps _) λ l _. run_rx-Preserves l)

  label-Preserves : (l : Label) → Preserves (run_label trace_handler l)
  unfolding run_label
  label-Preserves Label.add =
      Keeps-then (apply_op_rrr-Preserves c_add) (modify_cpu-Preserves add_flags add_flags-IsCpu)
  label-Preserves Label.sub = apply_op_rrr-Preserves c_sub
  label-Preserves Label.mul = apply_op_rrr-Preserves c_mul
  label-Preserves Label.div = decoded-Preserves (Keeps-then op_div-Preserves (advances 1))
  label-Preserves Label.cmp =
      decoded-Preserves (Keeps-then (modify_cpu-Preserves cmp_flags cmp_flags-IsCpu) (advances 1))
  label-Preserves Label.cmplt = apply_op_rrr_clear-Preserves c_lt
  label-Preserves Label.cmpeq = apply_op_rrr_clear-Preserves c_eq
  label-Preserves Label.cmpgt = apply_op_rrr_clear-Preserves c_gt
  label-Preserves Label.invold = decoded-Preserves (
      Keeps-bind cpu-Keeps λ c _.
        Keeps-then (safe_update-Preserves _ _ (Keeps-ret _ tt)) (Keeps-then (advances 1) clears))
  label-Preserves Label.andold = apply_op_rrr_clear-Preserves c_and
  label-Preserves Label.orold = apply_op_rrr_clear-Preserves c_or
  label-Preserves Label.xorold = apply_op_rrr_clear-Preserves c_xor
  label-Preserves Label.nop =
      Keeps-then (handler_preserves inst_rrr) (Keeps-then clears (advances 1))
  label-Preserves Label.trap = do_trap-Preserves
  label-Preserves Label.decode_exp = decode_exp_inst-Preserves
  label-Preserves Label.decode_rx = decode_rx_inst-Preserves

  -- Under a trace handler that keeps the machine well formed, one round of the dispatch loop from a
  -- well-formed machine ends in a well-formed machine, whether it goes on or stops: registers,
  -- `ir`, `pc`, `adr` and memory fit their widths, and R0 is still 0.
  pub step-Preserves : Preserves (step trace_handler)
  unfolding step
  step-Preserves =
      Keeps-bind
        (Keeps-bind cpu-Keeps λ c _. Keeps-bind (fetch-Keeps c.pc) λ word _. defined-Keeps _)
        λ l _. label-Preserves l
