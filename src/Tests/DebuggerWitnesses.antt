-- ===== src/Tests/DebuggerWitnesses.antt =====
-- The theorems on src/debugger.c at concrete inputs.
use sigma16_emulator.Base.{◌^◌, ◌-◌, true, ℕ, ◌≡◌, refl, arith, false, [], ◌∷◌}
use sigma16_emulator.Machine.{World, inst_rrr, inst_rx, ok, ◌>>◌}
use sigma16_emulator.Exec.Invariant.{IsMachine}
use sigma16_emulator.Init.Image.{booted}
use sigma16_emulator.Debugger.{Breakpoint, Debugger, prompt, debugger_write_reg, check_breakpoints}
use sigma16_emulator.Debugger.Registers.{
  refused, written, debugger_write_reg-access, debugger_write_reg-not-IsMachine,
}
use sigma16_emulator.Debugger.Stepping.{hit, yields, ticks, yields-ticks, check_breakpoints-hit}
use sigma16_emulator.Debugger.Command.{Cmd, command, parse_cmd}
use sigma16_emulator.Debugger.RoundTrip.{answer, parse_cmd-typed}
use sigma16_emulator.Machine.{silent}
use sigma16_emulator.Exec.{sigma16_vm_exec}
use sigma16_emulator.Exec.Observe.Runs.{AlikeRuns}
use sigma16_emulator.Debugger.{yield_debugger}
use sigma16_emulator.Debugger.Rest.{IsResting, sigma16_vm_exec-yield_debugger}
use sigma16_emulator.Exec.Keeps.{Keeps, Any}
use sigma16_emulator.Debugger.Breakpoints.{IsNumbered, yield_debugger-IsNumbered}
use sigma16_emulator.Debugger.Quit.{asked, sigma16_vm_exec-debugger_exit}
use sigma16_emulator.Debugger.{line}
use sigma16_emulator.Machine.{exited}
use sigma16_emulator.Base.{some}
use sigma16_emulator.Tests.Programs.{fib_image}

abbrev breakpoint : ℕ → ℕ → Breakpoint
breakpoint id addr = record { id = id; addr = addr }

-- Told to step five instructions, with a breakpoint at address 9.
abbrev debugger : Debugger
debugger = record {
  n_steps = 5;
  n_events = 0;
  trace = false;
  breakpoints = breakpoint 1 9 ∷ [];
  next_id = 1;
  prompts = [];
  errors = [];
}

abbrev world : World Debugger
world = booted fib_image debugger

debugger_write_reg-access_example : debugger_write_reg 3 7 world ≡ ok prompt (refused 3 7 world)
debugger_write_reg-access_example = debugger_write_reg-access 3 7 world (omega arith)

write_zero : debugger_write_reg 0 7 world ≡ ok prompt (written 0 7 world)
unfolding debugger_write_reg ◌>>◌
write_zero = refl

debugger_write_reg-not-IsMachine_example : ¬ IsMachine (written 0 7 world)
debugger_write_reg-not-IsMachine_example =
    debugger_write_reg-not-IsMachine 7 world (written 0 7 world) (omega arith) write_zero

yields-ticks_example : yields (inst_rx ∷ inst_rrr ∷ []) world ≡ ok tt (ticks 2 world)
yields-ticks_example =
    yields-ticks (inst_rx ∷ inst_rrr ∷ []) world (tt, (tt, tt)) (refl, (omega arith, tt))
      (omega arith, omega arith) (omega arith) (omega arith)

check_breakpoints-hit_example :
    check_breakpoints (breakpoint 2 9 ∷ breakpoint 1 0 ∷ breakpoint 0 0 ∷ []) world
    ≡ hit (breakpoint 1 0) world
check_breakpoints-hit_example =
    check_breakpoints-hit (breakpoint 2 9 ∷ []) (breakpoint 0 0 ∷ []) (breakpoint 1 0) world
      (omega arith, tt) refl

parse_cmd-typed_example :
    parse_cmd (answer true (Cmd.write_reg 15 40000)) ≡ command (Cmd.write_reg 15 40000)
parse_cmd-typed_example = parse_cmd-typed true (Cmd.write_reg 15 40000) (omega arith, omega arith)

-- As it starts, with a user who goes on twice.
abbrev resting : Debugger
resting = record debugger {
  n_steps = 2 ^ 32 - 1;
  trace = true;
  breakpoints = [];
  prompts = answer true Cmd.go_on ∷ answer true Cmd.go_on ∷ [];
}

resting-IsResting : IsResting resting
resting-IsResting = record {
  no_breakpoints = refl;
  steps_low = omega arith;
  steps_high = omega arith;
  answers =
      ((refl, parse_cmd-typed true Cmd.go_on tt), ((refl, parse_cmd-typed true Cmd.go_on tt), tt));
}

sigma16_vm_exec-yield_debugger_example :
    AlikeRuns Unit
      (sigma16_vm_exec yield_debugger 80 (booted fib_image resting))
      (sigma16_vm_exec silent 80 (booted fib_image resting))
sigma16_vm_exec-yield_debugger_example =
    sigma16_vm_exec-yield_debugger 80 (booted fib_image resting) resting-IsResting

yield_debugger-IsNumbered_example : Keeps IsNumbered Any (yield_debugger inst_rrr)
yield_debugger-IsNumbered_example = yield_debugger-IsNumbered inst_rrr

-- As it starts, with a user who leaves.
abbrev leaving : Debugger
leaving = record resting { prompts = answer true Cmd.exit ∷ [] }

sigma16_vm_exec-debugger_exit_example :
    sigma16_vm_exec yield_debugger 80 (booted fib_image leaving)
    ≡ some
        (exited, record (booted fib_image leaving) { out = line "Quit."; host = asked [] leaving })
sigma16_vm_exec-debugger_exit_example =
    sigma16_vm_exec-debugger_exit 80 (booted fib_image leaving) (answer true Cmd.exit) [] refl refl
      (parse_cmd-typed true Cmd.exit tt) (omega arith) (omega arith)
