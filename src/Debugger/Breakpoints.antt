-- ===== src/Debugger/Breakpoints.antt =====
-- The list of breakpoints of src/debugger.c: its numbers and addresses, over every event and command.
use sigma16_emulator.Base.{
  ◌≢◌, ◌≡◌, ◌-◌, ◌%◌, ℕ, zero, suc, ◌+◌, ◌^◌, ◌<◌, arith, inl, inr, Bool, ltb, ◌==◌, List, [], ◌∷◌,
  Option, none, some, u16,
}
use sigma16_emulator.Base.Cases.{Bool-cases}
use sigma16_emulator.Cpu.{Cpu}
use sigma16_emulator.Memory.{fetch, read_mem, mem_words}
use sigma16_emulator.Machine.{
  World, Event, exec_start, exec_end, inst_rrr, inst_rx, inst_exp0, M, undefined, cpu, modify_cpu,
  print, defined, finish, choose, ret, ◌>>◌,
}
use sigma16_emulator.Exec.Keeps.{
  ends, stops, Keeps, Any, Keeps-bind, Keeps-then, Keeps-ret, Keeps-finish, Keeps-choose,
}
use sigma16_emulator.Trace.{sigma16_trace}
use sigma16_emulator.Trace.Dump.{dump_cpu, dump_loop, dump_vm_mem}
use sigma16_emulator.Debugger.Command.{Cmd, Prompt, Parsed, command, invalid, crash, parse_cmd}
use sigma16_emulator.Machine.{◌>>=◌}
use sigma16_emulator.Debugger.{
  Breakpoint, Debugger, Action, resume, prompt, error, ctx, modify_ctx, complain, add_breakpoint,
  debugger_write_reg, debugger_read_reg, debugger_set_breakpoint, debugger_step, debugger_trace,
  run_cmd, act, perform, is_empty, interact, debugger_interactive, check_breakpoints, count_step,
  at_event, yield_debugger, count_event, number_breakpoint, is_rejected, in_regs, invalid_register,
}

-- Numbers below `n` that fall along the list, so that no two are the same, and addresses of 16 bits.
abbrev pub Numbered : ℕ → List Breakpoint → Type 0
Numbered n [] = Unit
Numbered n (bp ∷ bps) = (bp.id < n) × (bp.addr < 2 ^ 16) × Numbered bp.id bps

-- The next number is an `int` that is not negative.
abbrev pub IsCounted : Debugger → Type 0
IsCounted d = Numbered d.next_id d.breakpoints × (d.next_id < 2 ^ 31)

abbrev pub IsNumbered : World Debugger → Type 0
IsNumbered w = IsCounted w.host

-- Actions of the machine, which do not touch the debugger.
print-IsNumbered : (s : List ℕ) → Keeps IsNumbered Any (print s)
print-IsNumbered s = record { keeps = λ w i. ends tt i }

cpu-IsNumbered : Keeps IsNumbered Any cpu
cpu-IsNumbered = record { keeps = λ w i. ends tt i }

defined-IsNumbered : {A : Type 0} (o : Option A) → Keeps IsNumbered Any (defined o)
defined-IsNumbered none = record { keeps = λ w i. stops i }
defined-IsNumbered (some a) = record { keeps = λ w i. ends tt i }

read_mem-IsNumbered : (a : ℕ) → Keeps IsNumbered Any (read_mem a)
unfolding read_mem fetch
read_mem-IsNumbered a =
    Keeps-bind {Q = Any}
      (record {
        keeps = λ w i. elim (Bool-cases (ltb a mem_words)) [
          | inl e ↦ rw e (ends tt i)
          | inr e ↦ rw e (stops i)
        ];
      })
      λ v _. Keeps-ret _ tt

ctx-IsNumbered : Keeps IsNumbered Any ctx
ctx-IsNumbered = record { keeps = λ w i. ends tt i }

modify_ctx-IsNumbered :
    (f : Debugger → Debugger)
    → ((d : Debugger) → IsCounted d → IsCounted (f d))
    → Keeps IsNumbered Any (modify_ctx f)
modify_ctx-IsNumbered f h = record { keeps = λ w i. ends tt (h w.host i) }

complain-IsNumbered : (s : List ℕ) → Keeps IsNumbered Any (complain s)
complain-IsNumbered s = modify_ctx-IsNumbered _ λ d i. i

sigma16_trace-IsNumbered : (e : Event) → Keeps IsNumbered Any (sigma16_trace e)
unfolding sigma16_trace
sigma16_trace-IsNumbered exec_start = Keeps-ret tt tt
sigma16_trace-IsNumbered exec_end = Keeps-ret tt tt
sigma16_trace-IsNumbered inst_rrr =
    Keeps-then (Keeps-bind cpu-IsNumbered λ c _. print-IsNumbered _)
      (Keeps-bind cpu-IsNumbered λ c _. Keeps-bind (defined-IsNumbered _) λ m _. print-IsNumbered _)
sigma16_trace-IsNumbered inst_rx =
    Keeps-then (Keeps-bind cpu-IsNumbered λ c _. print-IsNumbered _)
      (Keeps-bind cpu-IsNumbered λ c _. Keeps-bind (defined-IsNumbered _) λ m _. print-IsNumbered _)
sigma16_trace-IsNumbered inst_exp0 = Keeps-bind cpu-IsNumbered λ c _. print-IsNumbered _

dump_loop-IsNumbered : (rounds i : ℕ) (buf : List ℕ) → Keeps IsNumbered Any (dump_loop rounds i buf)
unfolding dump_loop
dump_loop-IsNumbered zero i buf = Keeps-ret buf tt
dump_loop-IsNumbered (suc rounds) i buf = Keeps-bind (read_mem-IsNumbered (u16 i)) λ word _.
    Keeps-then (print-IsNumbered _) (
      Keeps-then (print-IsNumbered _)
        (Keeps-choose _ (Keeps-finish _) (dump_loop-IsNumbered rounds (i + 1) _)))

dump_vm_mem-IsNumbered : (start end : ℕ) → Keeps IsNumbered Any (dump_vm_mem start end)
unfolding dump_vm_mem
dump_vm_mem-IsNumbered start end =
    Keeps-bind (dump_loop-IsNumbered _ _ _) λ buf _. print-IsNumbered _

modify_cpu-IsNumbered : (f : Cpu → Cpu) → Keeps IsNumbered Any (modify_cpu f)
modify_cpu-IsNumbered f = record { keeps = λ w i. ends tt i }

-- A register command: refused, carried out, or undefined.
register-IsNumbered :
    (idx : ℕ) {m : M Debugger Action}
    → Keeps IsNumbered Any m
    → Keeps IsNumbered Any (
        choose
          (is_rejected idx)
          (complain invalid_register >> ret prompt)
          (choose (in_regs idx) m (finish undefined)))
register-IsNumbered idx h =
    Keeps-choose (is_rejected idx)
      (Keeps-then (complain-IsNumbered invalid_register) (Keeps-ret prompt tt))
      (Keeps-choose (in_regs idx) h (Keeps-finish undefined))

-- A number is given where the counter can be raised.
add_breakpoint-IsCounted :
    (addr : ℕ) (d : Debugger)
    → IsCounted d
    → d.next_id ≢ 2 ^ 31 - 1
    → IsCounted (add_breakpoint addr d)
add_breakpoint-IsCounted addr d (below, small) room =
    let next : (d.next_id + 1) % 2 ^ 32 ≡ d.next_id + 1 = omega arith in
    ((omega arith, omega arith, below), omega arith)

number_breakpoint-IsNumbered : (addr : ℕ) → Keeps IsNumbered Any (number_breakpoint addr)
unfolding ◌>>=◌ ◌>>◌
number_breakpoint-IsNumbered addr = record {
  keeps = λ w i. elim (Bool-cases (w.host.next_id == 2 ^ 31 - 1)) [
    | inl full ↦ rw full (stops i)
    | inr room ↦ rw room (ends tt (add_breakpoint-IsCounted addr w.host i (ground arith)))
  ];
}

run_cmd-IsNumbered : (bp_ok : Bool) (cmd : Cmd) → Keeps IsNumbered Any (run_cmd bp_ok cmd)
unfolding run_cmd debugger_write_reg debugger_read_reg debugger_set_breakpoint debugger_step
    debugger_trace dump_cpu
run_cmd-IsNumbered bp_ok Cmd.exit = Keeps-then (print-IsNumbered _) (Keeps-finish _)
run_cmd-IsNumbered bp_ok (Cmd.step n) =
    Keeps-then (modify_ctx-IsNumbered _ λ d i. i) (Keeps-ret _ tt)
run_cmd-IsNumbered bp_ok Cmd.trace =
    Keeps-then (modify_ctx-IsNumbered _ λ d i. i)
      (Keeps-bind ctx-IsNumbered λ d _. Keeps-then (print-IsNumbered _) (Keeps-ret _ tt))
run_cmd-IsNumbered bp_ok (Cmd.read_reg idx) =
    register-IsNumbered idx
      (Keeps-bind cpu-IsNumbered λ c _. Keeps-then (print-IsNumbered _) (Keeps-ret _ tt))
run_cmd-IsNumbered bp_ok (Cmd.write_reg idx val) =
    register-IsNumbered idx (Keeps-then (modify_cpu-IsNumbered _) (Keeps-ret _ tt))
run_cmd-IsNumbered bp_ok (Cmd.set_breakpoint addr) =
    Keeps-choose bp_ok (number_breakpoint-IsNumbered addr)
      (Keeps-then (complain-IsNumbered _) (Keeps-ret _ tt))
run_cmd-IsNumbered bp_ok Cmd.help = Keeps-then (print-IsNumbered _) (Keeps-ret _ tt)
run_cmd-IsNumbered bp_ok Cmd.go_on = Keeps-then (print-IsNumbered _) (Keeps-ret _ tt)
run_cmd-IsNumbered bp_ok Cmd.dump_cpu =
    Keeps-then (Keeps-bind cpu-IsNumbered λ c _. print-IsNumbered _) (Keeps-ret _ tt)
run_cmd-IsNumbered bp_ok (Cmd.dump_mem end start) =
    Keeps-then (dump_vm_mem-IsNumbered start end) (Keeps-ret _ tt)

act-IsNumbered :
    {again : M Debugger (Unit {0})} (a : Action)
    → Keeps IsNumbered Any again
    → Keeps IsNumbered Any (act again a)
act-IsNumbered resume h = Keeps-ret tt tt
act-IsNumbered prompt h = h
act-IsNumbered error h = Keeps-then (complain-IsNumbered _) (Keeps-finish _)

perform-IsNumbered :
    {again : M Debugger (Unit {0})} (p : Prompt) (r : Parsed)
    → Keeps IsNumbered Any again
    → Keeps IsNumbered Any (perform again p r)
perform-IsNumbered p crash h = Keeps-finish _
perform-IsNumbered p (invalid why) h =
    Keeps-then (complain-IsNumbered why) (Keeps-then (complain-IsNumbered _) h)
perform-IsNumbered p (command cmd) h =
    Keeps-bind (run_cmd-IsNumbered p.bp_ok cmd) λ a _. act-IsNumbered a h

interact-IsNumbered : (ps : List Prompt) → Keeps IsNumbered Any (interact ps)
unfolding interact
interact-IsNumbered [] = Keeps-finish _
interact-IsNumbered (p ∷ ps) =
    let again = interact-IsNumbered ps in
    Keeps-then (modify_ctx-IsNumbered _ λ d i. i)
      (Keeps-choose (is_empty p.line) again (perform-IsNumbered p (parse_cmd p) again))

debugger_interactive-IsNumbered : Keeps IsNumbered Any debugger_interactive
unfolding debugger_interactive
debugger_interactive-IsNumbered = Keeps-bind ctx-IsNumbered λ d _. interact-IsNumbered d.prompts

check_breakpoints-IsNumbered :
    (bps : List Breakpoint) → Keeps IsNumbered Any (check_breakpoints bps)
unfolding check_breakpoints
check_breakpoints-IsNumbered [] = Keeps-ret tt tt
check_breakpoints-IsNumbered (bp ∷ bps) = Keeps-bind cpu-IsNumbered λ c _.
    Keeps-choose (c.pc == bp.addr) (Keeps-then (print-IsNumbered _) debugger_interactive-IsNumbered)
      (check_breakpoints-IsNumbered bps)

count_event-IsNumbered : Keeps IsNumbered Any count_event
unfolding count_event
count_event-IsNumbered =
    Keeps-bind ctx-IsNumbered
      λ d _. Keeps-choose _ (Keeps-finish _) (modify_ctx-IsNumbered _ λ d' i. i)

count_step-IsNumbered : Keeps IsNumbered Any count_step
unfolding count_step
count_step-IsNumbered = Keeps-bind ctx-IsNumbered λ d _. Keeps-choose _ (Keeps-finish _) (
    Keeps-then (modify_ctx-IsNumbered _ λ d' i. i) (
      Keeps-bind ctx-IsNumbered
        λ d' _. Keeps-choose _ debugger_interactive-IsNumbered (Keeps-ret tt tt)))

at_event-IsNumbered : (e : Event) → Keeps IsNumbered Any (at_event e)
unfolding at_event
at_event-IsNumbered exec_start = debugger_interactive-IsNumbered
at_event-IsNumbered exec_end = Keeps-then (print-IsNumbered _) debugger_interactive-IsNumbered
at_event-IsNumbered inst_rrr = Keeps-ret tt tt
at_event-IsNumbered inst_rx = Keeps-ret tt tt
at_event-IsNumbered inst_exp0 = Keeps-ret tt tt

-- Whatever event the debugger is called on, whatever the user types at the prompts that it brings, and
-- whether the event goes on or ends, it keeps its breakpoints numbered: their numbers fall along the list
-- from below the next number to be given, so that no two are the same, the next number is an `int` that is
-- not negative, and the addresses fit 16 bits.
pub yield_debugger-IsNumbered : (e : Event) → Keeps IsNumbered Any (yield_debugger e)
unfolding yield_debugger
yield_debugger-IsNumbered e = Keeps-then count_event-IsNumbered (
    Keeps-bind ctx-IsNumbered λ d _.
      Keeps-then (Keeps-choose d.trace (sigma16_trace-IsNumbered e) (Keeps-ret tt tt)) (
        Keeps-then count_step-IsNumbered (
          Keeps-then (at_event-IsNumbered e)
            (Keeps-bind ctx-IsNumbered λ d' _. check_breakpoints-IsNumbered d'.breakpoints))))
