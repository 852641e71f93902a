-- ===== src/Exec/Invariant/Ops.antt =====
-- The helpers of src/vm.c keep the machine well formed.
use sigma16_emulator.Base.{ℕ, zero, suc, ◌+◌, arith, Bool, ◌==◌, bswap_16-lt}
use sigma16_emulator.Machine.{M}
use sigma16_emulator.Exec.Keeps.{
  Keeps, Any, Keeps-bind, Keeps-then, Keeps-ret, Keeps-choose, Keeps-choose_eq,
}
use sigma16_emulator.Exec.Ops.{
  write_reg, safe_update, interp_rrr, interp_exp0, interp_rx, compute_rx_eaddr,
}
use sigma16_emulator.Exec.Alu.{op_div}
use sigma16_emulator.Exec.Trap.{trap_write_loop, trap_write}
use sigma16_emulator.Exec.Rx.{goto_eaddr, branch}
use sigma16_emulator.Exec.Invariant.{
  IsWord, IsMachine, Preserves, write_reg-IsCpu, advance-IsCpu, cpu-Keeps, modify_cpu-Preserves,
  print-Preserves, fetch-Keeps, read_mem-Keeps,
}

module _ {H : Type 0} where
  pub safe_update-Preserves :
      (d : ℕ) (m : M H ℕ) → Keeps IsMachine Any m → Preserves (safe_update d m)
  unfolding safe_update
  safe_update-Preserves d m h =
      Keeps-choose_eq (d == 0) (λ _. Keeps-ret tt tt)
        λ e. Keeps-bind h λ v _.
          modify_cpu-Preserves (write_reg d v) λ c k. write_reg-IsCpu d v (λ z. ground arith) k

  pub interp_rrr-Preserves : Preserves {H = H} interp_rrr
  unfolding interp_rrr
  interp_rrr-Preserves = Keeps-bind cpu-Keeps λ c _. Keeps-bind (fetch-Keeps c.pc) λ word fits.
      modify_cpu-Preserves _ λ c' h. record {
        regs_fit = h.regs_fit;
        zero_reg = h.zero_reg;
        pc_fits = h.pc_fits;
        adr_fits = h.adr_fits;
        first_fits = fits;
        second_fits = h.second_fits;
      }

  pub interp_exp0-Preserves : Preserves {H = H} interp_exp0
  unfolding interp_exp0
  interp_exp0-Preserves = Keeps-bind cpu-Keeps λ c _. Keeps-bind (fetch-Keeps c.pc) λ word fits.
      Keeps-bind (fetch-Keeps (c.pc + 1)) λ next next_fits. modify_cpu-Preserves _ λ c' h. record {
        regs_fit = h.regs_fit;
        zero_reg = h.zero_reg;
        pc_fits = h.pc_fits;
        adr_fits = h.adr_fits;
        first_fits = fits;
        second_fits = next_fits;
      }

  pub interp_rx-Preserves : Preserves {H = H} interp_rx
  unfolding interp_rx
  interp_rx-Preserves = Keeps-then interp_exp0-Preserves (
      modify_cpu-Preserves _ λ c' h. record {
        regs_fit = h.regs_fit;
        zero_reg = h.zero_reg;
        pc_fits = h.pc_fits;
        adr_fits = h.adr_fits;
        first_fits = h.first_fits;
        second_fits = bswap_16-lt _ h.second_fits;
      })

  -- The effective address is a word.
  pub compute_rx_eaddr-Keeps : Keeps {H = H} IsMachine IsWord compute_rx_eaddr
  unfolding compute_rx_eaddr
  compute_rx_eaddr-Keeps =
      Keeps-then
        (modify_cpu-Preserves _ λ c h. record {
          regs_fit = h.regs_fit;
          zero_reg = h.zero_reg;
          pc_fits = h.pc_fits;
          adr_fits = omega arith;
          first_fits = h.first_fits;
          second_fits = h.second_fits;
        })
        (Keeps-bind cpu-Keeps λ c h. Keeps-ret _ h.adr_fits)

  pub goto_eaddr-Preserves : Preserves {H = H} goto_eaddr
  unfolding goto_eaddr
  goto_eaddr-Preserves = Keeps-bind compute_rx_eaddr-Keeps λ a fits. modify_cpu-Preserves _ λ c h.
      record {
        regs_fit = h.regs_fit;
        zero_reg = h.zero_reg;
        pc_fits = fits;
        adr_fits = h.adr_fits;
        first_fits = h.first_fits;
        second_fits = h.second_fits;
      }

  pub branch-Preserves : (b : Bool) → Preserves {H = H} (branch b)
  unfolding branch
  branch-Preserves b =
      Keeps-choose b goto_eaddr-Preserves (modify_cpu-Preserves _ (advance-IsCpu 2))

  pub op_div-Preserves : Preserves {H = H} op_div
  unfolding op_div
  op_div-Preserves = Keeps-bind cpu-Keeps λ c _. Keeps-choose _ (Keeps-ret tt tt) (
      Keeps-then (safe_update-Preserves _ _ (Keeps-ret _ tt)) (
        Keeps-choose _ (Keeps-ret tt tt)
          (modify_cpu-Preserves _ λ c' h. write_reg-IsCpu 15 _ (λ e. omega arith) h)))

  pub trap_write_loop-Preserves :
      (rounds addr i : ℕ) → Preserves {H = H} (trap_write_loop rounds addr i)
  unfolding trap_write_loop
  trap_write_loop-Preserves zero addr i = Keeps-ret tt tt
  trap_write_loop-Preserves (suc rounds) addr i =
      Keeps-bind (read_mem-Keeps _)
        λ v _. Keeps-then (print-Preserves _) (trap_write_loop-Preserves rounds addr (i + 1))

  pub trap_write-Preserves : Preserves {H = H} trap_write
  unfolding trap_write
  trap_write-Preserves = Keeps-bind cpu-Keeps λ c _. trap_write_loop-Preserves _ _ 0
