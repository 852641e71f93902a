-- ===== src/Main.antt =====
-- src/main.c, `debugger_init` of src/debugger.c, and the build switches of src/config.h.
pub mod Build
use mathlib.Core.Option
use Prim.Native.String.{String}
use sigma16_emulator.Base.{
  ℕ, ◌-◌, ◌^◌, Bool, true, false, if◌then◌else◌, List, [], ◌∷◌, ◌++◌, Option, none, some,
}
use sigma16_emulator.Machine.{
  Vm, World, Stop, halted, bad_opcode, exited, aborted, undefined, Handler, M, Res, ok, stop, ret,
  print, choose, ◌>>=◌, ◌>>◌, silent,
}
use sigma16_emulator.Exec.{sigma16_vm_exec}
use sigma16_emulator.Init.{Os, InitResult, ready, failed, overrun, sigma16_vm_init}
use sigma16_emulator.Text.{codes, newline}
use sigma16_emulator.Trace.{sigma16_trace}
use sigma16_emulator.Trace.Dump.{dump_cpu, dump_vm_mem}
use sigma16_emulator.Debugger.{Debugger, yield_debugger}
use sigma16_emulator.Debugger.Command.{Prompt}

-- The switches of src/config.h, and DUMP_MEM_LIM.
pub record Config : Type 0 where
  pub enable_debugger : Bool
  pub enable_trace : Bool
  pub enable_cpu_dump : Bool
  pub enable_dump_mem : Bool
  pub dump_mem_lim : ℕ

-- How the process ends: with an exit status, by `abort`, or by an operation that C leaves undefined.
pub data Exit : Type 0 where
  status : ℕ → Exit
  abort_signal unspecified : Exit

-- The process: how it ended, and the bytes it wrote to `stdout`.
abbrev pub Process : Type 0
Process = Exit × List ℕ

-- What is left when execution stops: `sigma16_vm_exec` returned 0, or -1, which `main` turns into
-- EXIT_FAILURE, or the process is over.
abbrev pub exit_of : Stop → Exit
exit_of halted = status 0
exit_of (bad_opcode pc) = status 1
exit_of exited = status 0
exit_of aborted = abort_signal
exit_of undefined = unspecified

abbrev line : String → List ℕ
line s = codes s ++ newline

module _ {H : Type 0} where
  -- The dumps after execution.
  unfoldable pub post_execution : Config → M H (Unit {0})
  unfolding dump_cpu dump_vm_mem
  post_execution config = do
    choose config.enable_cpu_dump (do print (line "Termination." ++ newline); dump_cpu) (ret tt)
    choose config.enable_dump_mem (do print (line "Memory:"); dump_vm_mem 0 config.dump_mem_lim)
        (ret tt)

  abbrev pub after_post : Res H (Unit {0}) → Process
  after_post (ok _ w) = (status 0, w.out)
  after_post (stop s w) = (exit_of s, w.out)

  unfoldable pub after_exec : Config → Stop → World H → Process
  unfolding post_execution
  after_exec config halted w = after_post (post_execution config w)
  after_exec config (bad_opcode pc) w = (status 1, w.out)
  after_exec config exited w = (status 0, w.out)
  after_exec config aborted w = (abort_signal, w.out)
  after_exec config undefined w = (unspecified, w.out)

-- Execution of a machine that is ready.
unfoldable pub run_normal : Config → ℕ → Vm → Option Process
unfolding sigma16_vm_exec after_exec sigma16_trace
run_normal config fuel vm =
    let out : List ℕ = if config.enable_trace then line "Instruction Trace:" else [] in
    let handler : Handler (Unit {0}) = if config.enable_trace then sigma16_trace else silent in
    Option.map (λ r. after_exec config r.0 r.1)
      (sigma16_vm_exec handler fuel (record { vm = vm; out = out; host = tt }))

unfoldable pub exec_normal : Config → Os → ℕ → List ℕ → Option Process
unfolding run_normal sigma16_vm_init
exec_normal config os fuel fname = elim (sigma16_vm_init os fname) [
  | ready vm held ↦ run_normal config fuel vm
  | failed held ↦ some (status 1, [])
  | overrun ↦ some (unspecified, [])
]

-- What `debugger_init` finds in its environment: whether `malloc` succeeds, what `n_events` holds in
-- the fresh block, which the source does not set, and what the user is going to type.
pub record Session : Type 0 where
  pub malloc_ok : Bool
  pub stale_events : ℕ
  pub typed : List Prompt

-- A machine with its debugger; NULL; or an undefined operation: the image overran its mapping, or the
-- teardown was given a machine that was never set.
pub data DebuggerStart : Type 0 where
  started : World Debugger → DebuggerStart
  no_context undefined_start : DebuggerStart

unfoldable pub debugger_init : Session → Os → List ℕ → DebuggerStart
unfolding sigma16_vm_init
debugger_init session os fname =
    if session.malloc_ok
    then elim (sigma16_vm_init os fname) [
      | ready vm held ↦ started (record {
        vm = vm;
        out = [];
        host = record {
          n_steps = 2 ^ 32 - 1;
          n_events = session.stale_events;
          trace = true;
          breakpoints = [];
          next_id = 0;
          prompts = session.typed;
          errors = [];
        };
      })
      | failed held ↦ undefined_start
      | overrun ↦ undefined_start
    ]
    else no_context

unfoldable pub exec_debugger : Session → Os → ℕ → List ℕ → Option Process
unfolding sigma16_vm_exec yield_debugger debugger_init
exec_debugger session os fuel fname = elim (debugger_init session os fname) [
  | started w ↦ Option.map (λ r. (exit_of r.0, r.1.out)) (sigma16_vm_exec yield_debugger fuel w)
  | no_context ↦ some (status 1, [])
  | undefined_start ↦ some (unspecified, [])
]

-- `main`, with the arguments behind the program's name.
unfoldable pub main_process : Config → Session → Os → ℕ → List (List ℕ) → Option Process
unfolding exec_normal exec_debugger
main_process config session os fuel [] = some (status 1, [])
main_process config session os fuel (fname ∷ rest) =
    if config.enable_debugger
    then exec_debugger session os fuel fname
    else exec_normal config os fuel fname
