-- ===== src/Exec.antt =====
-- src/vm.c: `sigma16_vm_exec`. The labels of the source are functions of the children; here are
-- its dispatch tables, one round from one DISPATCH to the next, and the loop of such rounds.
pub mod Ops
pub mod Alu
pub mod Trap
pub mod Rx
pub mod Keeps
pub mod Invariant
pub mod Runs
pub mod Output
pub mod Compare
pub mod Observe
use sigma16_emulator.Base.{
  ℕ, zero, suc, List, [], ◌∷◌, Option, none, some, get_elem?, bit_and, ◌>>>◌,
}
use sigma16_emulator.Cpu.{Cpu, ir_sb, ir_ab}
use sigma16_emulator.Machine.{
  Handler, Event, exec_start, Stop, undefined, World, M, Res, ok, stop, ◌>>=◌, ◌>>◌, cpu, defined,
}
use sigma16_emulator.Memory.{fetch}
use Ops.{interp_exp0, interp_rx}
use Alu.{
  do_add, do_sub, do_mul, do_div, do_cmp, do_cmplt, do_cmpeq, do_cmpgt, do_invold, do_andold,
  do_orold, do_xorold, do_nop, add_flags, cmp_flags,
}
use Trap.{do_trap, do_rfi, do_bad_op}
use Rx.{do_lea, do_load, do_store, do_jump, do_jumpc0, do_jumpc1, do_jumpf, do_jumpt, do_jal}

-- The labels of the three tables, in their order.
pub data Label : Type 0 where
  add sub mul div cmp cmplt cmpeq cmpgt invold andold orold xorold nop trap : Label
  decode_exp decode_rx : Label

pub data ExpLabel : Type 0 where
  rfi : ExpLabel

pub data RxLabel : Type 0 where
  lea load store jump jumpc0 jumpc1 jumpf jumpt jal bad_op : RxLabel

abbrev pub dispatch_table : List Label
dispatch_table =
    add ∷ sub ∷ mul ∷ div ∷ cmp ∷ cmplt ∷ cmpeq ∷ cmpgt ∷ invold ∷ andold ∷ orold ∷ xorold ∷ nop
    ∷ trap ∷ decode_exp ∷ decode_rx ∷ []

abbrev pub exp_dispatch_table : List ExpLabel
exp_dispatch_table = rfi ∷ []

abbrev pub rx_dispatch_table : List RxLabel
rx_dispatch_table =
    lea ∷ load ∷ store ∷ jump ∷ jumpc0 ∷ jumpc1 ∷ jumpf ∷ jumpt ∷ jal ∷ bad_op ∷ bad_op ∷ bad_op
    ∷ bad_op ∷ bad_op ∷ bad_op ∷ bad_op ∷ []

module _ {H : Type 0} (trace_handler : Handler H) where
  unfoldable pub run_exp : ExpLabel → M H (Unit {0})
  unfolding do_rfi
  run_exp rfi = do_rfi trace_handler

  unfoldable pub run_rx : RxLabel → M H (Unit {0})
  unfolding do_lea do_load do_store do_jump do_jumpc0 do_jumpc1 do_jumpf do_jumpt do_jal do_bad_op
  run_rx lea = do_lea trace_handler
  run_rx load = do_load trace_handler
  run_rx store = do_store trace_handler
  run_rx jump = do_jump trace_handler
  run_rx jumpc0 = do_jumpc0 trace_handler
  run_rx jumpc1 = do_jumpc1 trace_handler
  run_rx jumpf = do_jumpf trace_handler
  run_rx jumpt = do_jumpt trace_handler
  run_rx jal = do_jal trace_handler
  run_rx bad_op = do_bad_op

  -- `goto* exp_dispatch_table[ab]`: the table has one entry, and `ab` is not checked.
  unfoldable pub decode_exp_inst : M H (Unit {0})
  unfolding interp_exp0 run_exp
  decode_exp_inst = do
    interp_exp0
    c ← cpu
    l ← defined (get_elem? exp_dispatch_table (ir_ab c.ir))
    run_exp l

  -- `goto* rx_dispatch_table[sb]`.
  unfoldable pub decode_rx_inst : M H (Unit {0})
  unfolding interp_rx run_rx
  decode_rx_inst = do
    interp_rx
    c ← cpu
    l ← defined (get_elem? rx_dispatch_table (ir_sb c.ir))
    run_rx l

  unfoldable pub run_label : Label → M H (Unit {0})
  unfolding do_add do_sub do_mul do_div do_cmp do_cmplt do_cmpeq do_cmpgt do_invold do_andold
      do_orold do_xorold do_nop do_trap add_flags cmp_flags decode_exp_inst decode_rx_inst
  run_label add = do_add trace_handler
  run_label sub = do_sub trace_handler
  run_label mul = do_mul trace_handler
  run_label div = do_div trace_handler
  run_label cmp = do_cmp trace_handler
  run_label cmplt = do_cmplt trace_handler
  run_label cmpeq = do_cmpeq trace_handler
  run_label cmpgt = do_cmpgt trace_handler
  run_label invold = do_invold trace_handler
  run_label andold = do_andold trace_handler
  run_label orold = do_orold trace_handler
  run_label xorold = do_xorold trace_handler
  run_label nop = do_nop trace_handler
  run_label trap = do_trap trace_handler
  run_label decode_exp = decode_exp_inst
  run_label decode_rx = decode_rx_inst

  -- `dispatch_table[(vm->mem[vm->cpu.pc] >> 4) & 0xf]`.
  unfoldable pub dispatch : M H Label
  unfolding fetch
  dispatch = do
    c ← cpu
    word ← fetch c.pc
    defined (get_elem? dispatch_table (bit_and (word >>> 4) 0xf))

  -- One DISPATCH and the code up to the next.
  unfoldable pub step : M H (Unit {0})
  unfolding dispatch run_label
  step = do l ← dispatch; run_label l

  -- The rounds, at most `fuel` of them; `none` means that execution was still going on.
  unfoldable pub exec_loop : ℕ → World H → Option (Stop × World H)
  exec_loop zero w = none
  exec_loop (suc fuel) w = elim (step w) [ ok _ w' ↦ exec_loop fuel w' | stop s w' ↦ some (s, w') ]

  unfoldable pub sigma16_vm_exec : ℕ → World H → Option (Stop × World H)
  unfolding step exec_loop
  sigma16_vm_exec fuel w = elim (trace_handler exec_start w) [
    | ok _ w' ↦ exec_loop fuel w'
    | stop s w' ↦ some (s, w')
  ]
