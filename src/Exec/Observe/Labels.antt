-- ===== src/Exec/Observe/Labels.antt =====
-- Every label of `sigma16_vm_exec`, and so each round, under a trace handler that only observes, and
-- without one.
use sigma16_emulator.Base.{ℕ, zero, suc, ◌+◌, Bool, Option}
use sigma16_emulator.Machine.{
  Handler, Event, inst_rrr, inst_rx, inst_exp0, exec_end, halted, bad_opcode, M, modify_cpu, ◌>>◌,
  silent,
}
use sigma16_emulator.Exec.Ops.{
  interp_rrr, interp_exp0, interp_rx, apply_op_rrr, clear_flags, advance, safe_update,
  compute_rx_eaddr,
}
use sigma16_emulator.Exec.Alu.{
  add_flags, cmp_flags, c_add, c_sub, c_mul, c_lt, c_eq, c_gt, c_and, c_or, c_xor, op_div,
}
use sigma16_emulator.Exec.Rx.{goto_eaddr, branch}
use sigma16_emulator.Exec.Trap.{do_trap, trap_write_loop, trap_write}
use sigma16_emulator.Exec.{
  Label, ExpLabel, rfi, RxLabel, run_exp, run_rx, run_label, decode_exp_inst, decode_rx_inst, step,
  dispatch,
}
use sigma16_emulator.Exec.Observe.{
  Follows, Follows-bind, Follows-then, Follows-choose, Follows-ret, Follows-finish, Follows-cpu,
  Follows-modify_cpu, Follows-print, Follows-defined, Follows-fetch, Follows-read_mem,
  Follows-write_mem,
}

-- What an action does to the machine does not depend on the output or the trace handler's state.
abbrev Steady : {H A : Type 0} → Type 0 → (H → Type 0) → M H A → Type 0
Steady L I m = Follows L I m m

module _ {H : Type 0} {L : Type 0} {I : H → Type 0} where
  safe_update-Follows : (d : ℕ) (m : M H ℕ) → Steady L I m → Steady L I (safe_update d m)
  unfolding safe_update
  safe_update-Follows d m h =
      Follows-choose _ (Follows-ret tt) (Follows-bind h λ v. Follows-modify_cpu _)

  interp_rrr-Follows : Steady L I interp_rrr
  unfolding interp_rrr
  interp_rrr-Follows =
      Follows-bind Follows-cpu λ c. Follows-bind (Follows-fetch _) λ w. Follows-modify_cpu _

  interp_exp0-Follows : Steady L I interp_exp0
  unfolding interp_exp0
  interp_exp0-Follows = Follows-bind Follows-cpu λ c.
      Follows-bind (Follows-fetch _) λ w. Follows-bind (Follows-fetch _) λ v. Follows-modify_cpu _

  interp_rx-Follows : Steady L I interp_rx
  unfolding interp_rx
  interp_rx-Follows = Follows-then interp_exp0-Follows (Follows-modify_cpu _)

  compute_rx_eaddr-Follows : Steady L I compute_rx_eaddr
  unfolding compute_rx_eaddr
  compute_rx_eaddr-Follows =
      Follows-then (Follows-modify_cpu _) (Follows-bind Follows-cpu λ c. Follows-ret _)

  goto_eaddr-Follows : Steady L I goto_eaddr
  unfolding goto_eaddr
  goto_eaddr-Follows = Follows-bind compute_rx_eaddr-Follows λ a. Follows-modify_cpu _

  branch-Follows : (b : Bool) → Steady L I (branch b)
  unfolding branch
  branch-Follows b = Follows-choose b goto_eaddr-Follows (Follows-modify_cpu _)

  op_div-Follows : Steady L I op_div
  unfolding op_div
  op_div-Follows = Follows-bind Follows-cpu λ c. Follows-choose _ (Follows-ret tt) (
      Follows-then (safe_update-Follows _ _ (Follows-ret _))
        (Follows-choose _ (Follows-ret tt) (Follows-modify_cpu _)))

  trap_write_loop-Follows : (rounds addr i : ℕ) → Steady L I (trap_write_loop rounds addr i)
  unfolding trap_write_loop
  trap_write_loop-Follows zero addr i = Follows-ret tt
  trap_write_loop-Follows (suc rounds) addr i =
      Follows-bind (Follows-read_mem _)
        λ v. Follows-then (Follows-print _ _) (trap_write_loop-Follows rounds addr (i + 1))

  trap_write-Follows : Steady L I trap_write
  unfolding trap_write
  trap_write-Follows = Follows-bind Follows-cpu λ c. trap_write_loop-Follows _ _ 0

module _ {H : Type 0} {L : Type 0} {I : H → Type 0} (trace_handler : Handler H)
    (observes : (e : Event) → Follows L I (trace_handler e) (silent e)) where
  apply_op_rrr-Follows :
      (op : ℕ → ℕ → Option ℕ) → Follows L I (apply_op_rrr trace_handler op) (apply_op_rrr silent op)
  unfolding apply_op_rrr
  apply_op_rrr-Follows op = Follows-then interp_rrr-Follows (
      Follows-then (observes _) (
        Follows-bind Follows-cpu λ c.
          Follows-then (safe_update-Follows _ _ (Follows-defined _))
            (Follows-modify_cpu (advance 1))))

  apply_op_rrr_clear-Follows :
      (op : ℕ → ℕ → Option ℕ)
      → Follows L I
          (apply_op_rrr trace_handler op >> modify_cpu clear_flags)
          (apply_op_rrr silent op >> modify_cpu clear_flags)
  apply_op_rrr_clear-Follows op =
      Follows-then (apply_op_rrr-Follows op) (Follows-modify_cpu clear_flags)

  -- The instructions that decode, trace, and go on by `m`.
  decoded-Follows :
      {m n : M H (Unit {0})}
      → Follows L I m n
      → Follows L I
          (interp_rrr >> (trace_handler inst_rrr >> m))
          (interp_rrr >> (silent inst_rrr >> n))
  decoded-Follows h = Follows-then interp_rrr-Follows (Follows-then (observes inst_rrr) h)

  do_trap-Follows : Follows L I (do_trap trace_handler) (do_trap silent)
  unfolding do_trap
  do_trap-Follows = decoded-Follows (
      Follows-bind Follows-cpu λ c.
        Follows-choose _ (Follows-then (observes exec_end) (Follows-finish halted)) (
          Follows-then (Follows-choose _ trap_write-Follows (Follows-ret tt))
            (Follows-then (Follows-modify_cpu (advance 1)) (Follows-modify_cpu clear_flags))))

  run_exp-Follows : (l : ExpLabel) → Follows L I (run_exp trace_handler l) (run_exp silent l)
  unfolding run_exp
  run_exp-Follows rfi = Follows-then (observes inst_exp0) (Follows-modify_cpu (advance 2))

  run_rx-Follows : (l : RxLabel) → Follows L I (run_rx trace_handler l) (run_rx silent l)
  unfolding run_rx
  run_rx-Follows RxLabel.lea = Follows-then (observes inst_rx) (
      Follows-bind Follows-cpu λ c.
        Follows-then (safe_update-Follows _ _ compute_rx_eaddr-Follows)
          (Follows-modify_cpu (advance 2)))
  run_rx-Follows RxLabel.load = Follows-then (observes inst_rx) (
      Follows-bind Follows-cpu λ c.
        Follows-then
          (safe_update-Follows _ _ (Follows-bind compute_rx_eaddr-Follows λ a. Follows-read_mem a))
          (Follows-modify_cpu (advance 2)))
  run_rx-Follows RxLabel.store = Follows-then (observes inst_rx) (
      Follows-bind compute_rx_eaddr-Follows λ a.
        Follows-bind Follows-cpu
          λ c. Follows-then (Follows-write_mem a _) (Follows-modify_cpu (advance 2)))
  run_rx-Follows RxLabel.jump = Follows-then (observes inst_rx) goto_eaddr-Follows
  run_rx-Follows RxLabel.jumpc0 =
      Follows-then (observes inst_rx) (Follows-bind Follows-cpu λ c. branch-Follows _)
  run_rx-Follows RxLabel.jumpc1 =
      Follows-then (observes inst_rx) (Follows-bind Follows-cpu λ c. branch-Follows _)
  run_rx-Follows RxLabel.jumpf =
      Follows-then (observes inst_rx) (Follows-bind Follows-cpu λ c. branch-Follows _)
  run_rx-Follows RxLabel.jumpt =
      Follows-then (observes inst_rx) (Follows-bind Follows-cpu λ c. branch-Follows _)
  run_rx-Follows RxLabel.jal = Follows-then (observes inst_rx) (
      Follows-bind Follows-cpu
        λ c. Follows-then (safe_update-Follows _ _ (Follows-ret _)) goto_eaddr-Follows)
  run_rx-Follows RxLabel.bad_op = Follows-bind Follows-cpu λ c. Follows-finish (bad_opcode c.pc)

  decode_exp_inst-Follows : Follows L I (decode_exp_inst trace_handler) (decode_exp_inst silent)
  unfolding decode_exp_inst
  decode_exp_inst-Follows =
      Follows-then interp_exp0-Follows
        (Follows-bind Follows-cpu λ c. Follows-bind (Follows-defined _) λ l. run_exp-Follows l)

  decode_rx_inst-Follows : Follows L I (decode_rx_inst trace_handler) (decode_rx_inst silent)
  unfolding decode_rx_inst
  decode_rx_inst-Follows =
      Follows-then interp_rx-Follows
        (Follows-bind Follows-cpu λ c. Follows-bind (Follows-defined _) λ l. run_rx-Follows l)

  label-Follows : (l : Label) → Follows L I (run_label trace_handler l) (run_label silent l)
  unfolding run_label
  label-Follows Label.add = Follows-then (apply_op_rrr-Follows c_add) (Follows-modify_cpu add_flags)
  label-Follows Label.sub = apply_op_rrr-Follows c_sub
  label-Follows Label.mul = apply_op_rrr-Follows c_mul
  label-Follows Label.div =
      decoded-Follows (Follows-then op_div-Follows (Follows-modify_cpu (advance 1)))
  label-Follows Label.cmp =
      decoded-Follows (Follows-then (Follows-modify_cpu cmp_flags) (Follows-modify_cpu (advance 1)))
  label-Follows Label.cmplt = apply_op_rrr_clear-Follows c_lt
  label-Follows Label.cmpeq = apply_op_rrr_clear-Follows c_eq
  label-Follows Label.cmpgt = apply_op_rrr_clear-Follows c_gt
  label-Follows Label.invold = decoded-Follows (
      Follows-bind Follows-cpu λ c.
        Follows-then (safe_update-Follows _ _ (Follows-ret _))
          (Follows-then (Follows-modify_cpu (advance 1)) (Follows-modify_cpu clear_flags)))
  label-Follows Label.andold = apply_op_rrr_clear-Follows c_and
  label-Follows Label.orold = apply_op_rrr_clear-Follows c_or
  label-Follows Label.xorold = apply_op_rrr_clear-Follows c_xor
  label-Follows Label.nop =
      Follows-then (observes inst_rrr)
        (Follows-then (Follows-modify_cpu clear_flags) (Follows-modify_cpu (advance 1)))
  label-Follows Label.trap = do_trap-Follows
  label-Follows Label.decode_exp = decode_exp_inst-Follows
  label-Follows Label.decode_rx = decode_rx_inst-Follows

  -- One round.
  pub step-Follows : Follows L I (step trace_handler) (step silent)
  unfolding step dispatch
  step-Follows =
      Follows-bind
        (Follows-bind Follows-cpu λ c. Follows-bind (Follows-fetch c.pc) λ word. Follows-defined _)
        λ l. label-Follows l
