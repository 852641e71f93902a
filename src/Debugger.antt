-- ===== src/Debugger.antt =====
-- src/debugger.c: the interactive debugger, a trace handler that may stop at a prompt before each
-- instruction and change the machine there. The user's answers are the list `prompts`.
pub mod Strtol
pub mod Command
pub mod Registers
pub mod Stepping
pub mod Breakpoints
pub mod Quit
pub mod Numbers
pub mod Rest
pub mod RoundTrip
use Prim.Native.String.{String}
use sigma16_emulator.Base.{
  ℕ, ◌+◌, ◌-◌, ◌%◌, ◌^◌, Bool, true, false, ltb, ◌==◌, ◌&&◌, ◌||◌, not, if◌then◌else◌, List, [],
  ◌∷◌, ◌++◌, Option, none, some, u16,
}
use sigma16_emulator.Base.Int.{ℤ, ltℤ, int32}
use sigma16_emulator.Cpu.{Cpu}
use sigma16_emulator.Machine.{
  Vm, World, Handler, Event, exec_start, exec_end, inst_rrr, inst_rx, inst_exp0, M, ok, ret, cpu,
  modify_cpu, print, choose, finish, exited, aborted, undefined, ◌>>=◌, ◌>>◌,
}
use sigma16_emulator.Exec.Ops.{write_reg}
use sigma16_emulator.Text.{codes, decimal, hex4, newline}
use sigma16_emulator.Trace.{sigma16_trace}
use sigma16_emulator.Trace.Dump.{dump_cpu, dump_vm_mem}
use Command.{Cmd, Prompt, Parsed, command, invalid, crash, parse_cmd}

-- `struct debugger_bp`.
pub record Breakpoint : Type 0 where
  pub id : ℕ
  pub addr : ℕ

-- `struct debugger_ctx`, with the counter of `debugger_set_breakpoint`, the answers that the user
-- has yet to give, and what was written to `stderr`. The numbers are 32-bit patterns. The list of
-- breakpoints begins with the latest. `ctx->vm` is the machine that is being run.
pub record Debugger : Type 0 where
  pub n_steps : ℕ
  pub n_events : ℕ
  pub trace : Bool
  pub breakpoints : List Breakpoint
  pub next_id : ℕ
  pub prompts : List Prompt
  pub errors : List ℕ

-- `enum debugger_cmd_action`.
pub data Action : Type 0 where
  resume prompt error : Action

abbrev pub ctx : M Debugger Debugger
ctx w = ok w.host w

abbrev pub modify_ctx : (Debugger → Debugger) → M Debugger (Unit {0})
modify_ctx f w = ok tt (record w { host = f w.host })

abbrev pub complain : List ℕ → M Debugger (Unit {0})
complain s = modify_ctx (λ d. record d { errors = d.errors ++ s })

-- `0 < idx && idx < 15`, on an `int`.
unfoldable pub is_rejected : ℕ → Bool
is_rejected idx = ltℤ (ℤ.pos 0) (int32 idx) && ltℤ (int32 idx) (ℤ.pos 15)

-- The array `regs` has sixteen elements; any other index is undefined.
abbrev pub in_regs : ℕ → Bool
in_regs idx = ltb idx 16

abbrev invalid_register : List ℕ
invalid_register = codes "invalid register" ++ newline

unfoldable pub debugger_write_reg : ℕ → ℕ → M Debugger Action
unfolding is_rejected
debugger_write_reg idx val =
    choose (is_rejected idx) (do complain invalid_register; ret prompt)
      (choose (in_regs idx) (do modify_cpu (write_reg idx val); ret prompt) (finish undefined))

unfoldable pub debugger_read_reg : ℕ → M Debugger Action
unfolding is_rejected decimal hex4
debugger_read_reg idx =
    choose (is_rejected idx) (do complain invalid_register; ret prompt)
      (choose (in_regs idx)
        (do
          c ← cpu
          print (
              codes "R"
              ++ decimal idx
              ++ codes "="
              ++ decimal (c.regs idx)
              ++ codes " (0x"
              ++ hex4 (c.regs idx)
              ++ codes ")"
              ++ newline)
          ret prompt)
        (finish undefined))

-- The new breakpoint goes in front; its address is cut to a `uint16_t`.
abbrev pub add_breakpoint : ℕ → Debugger → Debugger
add_breakpoint addr d = record d {
  breakpoints = record { id = d.next_id; addr = u16 addr } ∷ d.breakpoints;
  next_id = (d.next_id + 1) % 2 ^ 32;
}

-- `id++` on an `int`, which INT_MAX does not survive.
abbrev pub number_breakpoint : ℕ → M Debugger Action
number_breakpoint addr = do
  d ← ctx
  choose (d.next_id == 2 ^ 31 - 1) (finish undefined)
      (do modify_ctx (add_breakpoint addr); ret prompt)

unfoldable pub debugger_set_breakpoint : Bool → ℕ → M Debugger Action
debugger_set_breakpoint bp_ok addr =
    choose bp_ok (number_breakpoint addr)
      (do complain (codes "unable to create breakpoint" ++ newline); ret error)

unfoldable pub debugger_step : ℕ → M Debugger Action
debugger_step n = do modify_ctx (λ d. record d { n_steps = n }); ret resume

unfoldable pub debugger_trace : M Debugger Action
unfolding decimal
debugger_trace = do
  modify_ctx (λ d. record d { trace = not d.trace })
  d ← ctx
  print (codes "tracing=" ++ decimal (if d.trace then 1 else 0) ++ newline)
  ret prompt

abbrev pub line : String → List ℕ
line s = codes s ++ newline

unfoldable pub help_text : List ℕ
help_text =
    line "Command        : Description"
    ++ line "-------        : -----------"
    ++ line " ?             : display this message"
    ++ line " n (int)       : execute n steps"
    ++ line " i (int) (int) : write value to specified register"
    ++ line " o (int)       : display value of specified register"
    ++ line " t             : toggle tracing"
    ++ line " c             : continue execution"
    ++ line " d             : dump processor state"
    ++ line " m (int) ?(int): inspect memory from end to start"
    ++ line " b (int)       : set breakpoint at specified address"
    ++ line " e             : exit"

abbrev pub debugger_help : M Debugger Action
debugger_help = do print help_text; ret prompt

abbrev pub debugger_dump_cpu : M Debugger Action
debugger_dump_cpu = do dump_cpu; ret prompt

-- The arguments of the command are in the order in which the user gives them.
abbrev pub debugger_dump_mem : ℕ → ℕ → M Debugger Action
debugger_dump_mem end start = do dump_vm_mem start end; ret prompt

abbrev pub debugger_continue : M Debugger Action
debugger_continue = do print (line "Continuing."); ret resume

abbrev pub debugger_exit : M Debugger Action
debugger_exit = do print (line "Quit."); finish exited

-- The `switch` of `debugger_interactive`; `bp_ok` says whether a breakpoint can be allocated.
unfoldable pub run_cmd : Bool → Cmd → M Debugger Action
unfolding debugger_write_reg debugger_read_reg debugger_set_breakpoint debugger_step debugger_trace
    help_text dump_cpu dump_vm_mem
run_cmd bp_ok Cmd.exit = debugger_exit
run_cmd bp_ok (Cmd.step n) = debugger_step n
run_cmd bp_ok Cmd.trace = debugger_trace
run_cmd bp_ok (Cmd.read_reg idx) = debugger_read_reg idx
run_cmd bp_ok (Cmd.write_reg idx val) = debugger_write_reg idx val
run_cmd bp_ok (Cmd.set_breakpoint addr) = debugger_set_breakpoint bp_ok addr
run_cmd bp_ok Cmd.help = debugger_help
run_cmd bp_ok Cmd.go_on = debugger_continue
run_cmd bp_ok Cmd.dump_cpu = debugger_dump_cpu
run_cmd bp_ok (Cmd.dump_mem end start) = debugger_dump_mem end start

-- The `switch` on the action, with `again` for the next round of the prompt loop.
abbrev pub act : M Debugger (Unit {0}) → Action → M Debugger (Unit {0})
act again resume = ret tt
act again prompt = again
act again error = do complain (line "an error occured, tearing down debugger"); finish aborted

abbrev pub perform : M Debugger (Unit {0}) → Prompt → Parsed → M Debugger (Unit {0})
perform again p crash = finish undefined
perform again p (invalid why) = do complain why; complain (line "invalid command"); again
perform again p (command cmd) = do action ← run_cmd p.bp_ok cmd; act again action

-- `readline` skips empty lines.
abbrev pub is_empty : List ℕ → Bool
is_empty [] = true
is_empty (c ∷ cs) = false

-- The loop of `debugger_interactive` over the answers to come. At the end of the input `readline`
-- returns NULL, with which `strtok` goes on in a line that has been freed.
unfoldable pub interact : List Prompt → M Debugger (Unit {0})
unfolding run_cmd parse_cmd
interact [] = finish undefined
interact (p ∷ ps) =
    let again = interact ps in
    do
      modify_ctx (λ d. record d { prompts = ps })
      choose (is_empty p.line) again (perform again p (parse_cmd p))

unfoldable pub debugger_interactive : M Debugger (Unit {0})
unfolding interact
debugger_interactive = do d ← ctx; interact d.prompts

-- The loop over the breakpoints stops at the first that is hit.
unfoldable pub check_breakpoints : List Breakpoint → M Debugger (Unit {0})
unfolding debugger_interactive decimal
check_breakpoints [] = ret tt
check_breakpoints (bp ∷ rest) = do
  c ← cpu
  choose (c.pc == bp.addr)
      (do
        print (codes "breakpoint " ++ decimal bp.id ++ codes " hit" ++ newline)
        debugger_interactive)
      (check_breakpoints rest)

-- `ctx->n_events++` on an `int`, which `debugger_init` leaves as `malloc` found it.
unfoldable pub count_event : M Debugger (Unit {0})
count_event = do
  d ← ctx
  choose (d.n_events == 2 ^ 31 - 1) (finish undefined)
      (modify_ctx (λ d'. record d' { n_events = (d'.n_events + 1) % 2 ^ 32 }))

-- `!--ctx->n_steps`: the step count falls at every event, and INT_MIN cannot fall.
unfoldable pub count_step : M Debugger (Unit {0})
unfolding debugger_interactive
count_step = do
  d ← ctx
  choose (d.n_steps == 2 ^ 31) (finish undefined) (do
    modify_ctx (λ d'. record d' { n_steps = (d'.n_steps + 2 ^ 32 - 1) % 2 ^ 32 })
    d' ← ctx
    choose (d'.n_steps == 0) debugger_interactive (ret tt))

-- The prompts that the start and the end of execution bring.
unfoldable pub at_event : Event → M Debugger (Unit {0})
unfolding debugger_interactive
at_event exec_start = debugger_interactive
at_event exec_end = do print (line "Post execution (limited commands)."); debugger_interactive
at_event inst_rrr = ret tt
at_event inst_rx = ret tt
at_event inst_exp0 = ret tt

unfoldable pub yield_debugger : Handler Debugger
unfolding sigma16_trace count_event count_step at_event check_breakpoints
yield_debugger event = do
  count_event
  d ← ctx
  choose d.trace (sigma16_trace event) (ret tt)
  count_step
  at_event event
  d' ← ctx
  check_breakpoints d'.breakpoints
