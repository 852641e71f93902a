-- ===== src/Main/Build.antt =====
-- What the program does as a whole, in the builds of src/config.h.
use mathlib.Core.Option
use sigma16_emulator.Base.{
  ◌-◌, ◌^◌, ℕ, ◌+◌, ◌*◌, ◌≡◌, refl, ap, ◌∙◌, fun_ext, arith, true, false, List, [], ◌∷◌, Option,
  none, some, get_or, bswap_16,
}
use sigma16_emulator.Machine.{
  World, Stop, halted, bad_opcode, exited, aborted, undefined, silent, ◌>>=◌, ◌>>◌,
}
use sigma16_emulator.Exec.{sigma16_vm_exec}
use sigma16_emulator.Init.{Os, zero_cpu, load_words}
use sigma16_emulator.Init.Image.{IsBytes, booted, booted-IsMachine, Loads, ready-sigma16_vm_init}
use sigma16_emulator.Isa.{State, view}
use sigma16_emulator.Isa.Runs.{isa_run, final, sigma16_vm_exec-isa_run}
use sigma16_emulator.Exec.Observe.Runs.{AlikeRuns, running, over, lost_run}
use sigma16_emulator.Debugger.{Debugger}
use sigma16_emulator.Debugger.Rest.{AllContinue, IsResting, sigma16_vm_exec-yield_debugger}
use sigma16_emulator.Main.{
  Config, Process, Exit, Session, unspecified, exit_of, after_exec, post_execution, run_normal,
  exec_normal, exec_debugger, debugger_init, main_process,
}

-- The build without debugger, tracing and dumps.
abbrev pub bare : Config
bare = record {
  enable_debugger = false;
  enable_trace = false;
  enable_cpu_dump = false;
  enable_dump_mem = false;
  dump_mem_lim = 0;
}

-- The state of the instruction set that an image starts in: all registers 0, and each word of the
-- memory two bytes of the image, the first of them the high byte.
abbrev pub isa_boot : List ℕ → State
isa_boot bytes = record {
  regs = λ _. 0;
  pc = 0;
  mem = λ a. 256 * get_or bytes (2 * a) 0 + get_or bytes (2 * a + 1) 0;
  out = [];
}

-- How the process ends when the instruction set does.
abbrev pub ending : Option (Stop × State) → Option Process
ending none = none
ending (some (s, t)) = some (exit_of s, t.out)

bare-ending :
    {H : Type 0} (o : Option (Stop × World H))
    → Option.map (λ r. after_exec bare r.0 r.1) o ≡ ending (final o)
unfolding after_exec post_execution ◌>>◌ ◌>>=◌
bare-ending none = refl
bare-ending (some (halted, w)) = refl
bare-ending (some (bad_opcode pc, w)) = refl
bare-ending (some (exited, w)) = refl
bare-ending (some (aborted, w)) = refl
bare-ending (some (undefined, w)) = refl

pub view-booted :
    {H : Type 0} (bytes : List ℕ) (host : H)
    → IsBytes bytes
    → view (booted bytes host) ≡ isa_boot bytes
unfolding bswap_16
view-booted bytes host h =
    ap (λ (m : ℕ → ℕ). record { regs = λ _. 0; pc = 0; mem = m; out = [] })
      (fun_ext λ a. omega (arith, h (2 * a), h (2 * a + 1)))

-- The program in the build without debugger, tracing and dumps, given a file of bytes that it can
-- load: for every bound on the number of instructions, it is still running exactly when the
-- instruction set is, started from the bytes of the file; else it has written what the instruction
-- set writes, and its exit status is 0 where that halts and 1 where it meets an invalid operation;
-- where that is undefined, so is the program.
pub main_process-isa_run :
    (session : Session) (os : Os) (fuel : ℕ) (fname : List ℕ) (rest : List (List ℕ))
    (bytes : List ℕ)
    → Loads os fname (record { cpu = zero_cpu; mem = load_words bytes }) bytes
    → IsBytes bytes
    → main_process bare session os fuel (fname ∷ rest) ≡ ending (isa_run fuel (isa_boot bytes))
unfolding main_process exec_normal run_normal
main_process-isa_run session os fuel fname rest bytes loads h =
    rw (main_process, exec_normal, ready-sigma16_vm_init os fname (booted bytes tt).vm bytes loads)
      (bare-ending (sigma16_vm_exec silent fuel (booted bytes tt))
        ∙ ap ending (sigma16_vm_exec-isa_run fuel (booted bytes tt) (booted-IsMachine bytes tt h))
        ∙ ap (λ s. ending (isa_run fuel s)) (view-booted bytes tt h))

-- A process beside another: both still running; the same exit; or the first one did what C leaves undefined.
pub data ExitsAlike : Option Process → Option Process → Type 0 where
  both_running : ExitsAlike none none
  same_exit : {x : Exit} {o o' : List ℕ} → ExitsAlike (some (x, o)) (some (x, o'))
  unspecified_first : {o : List ℕ} {r : Option Process} → ExitsAlike (some (unspecified, o)) r

AlikeRuns-ExitsAlike :
    {H L : Type 0} {r r' : Option (Stop × World H)}
    → AlikeRuns L r r'
    → ExitsAlike (Option.map (λ e. (exit_of e.0, e.1.out)) r) (ending (final r'))
AlikeRuns-ExitsAlike running = both_running
AlikeRuns-ExitsAlike over = same_exit
AlikeRuns-ExitsAlike (lost_run l) = unspecified_first

-- A user who, at every prompt, goes on.
abbrev pub IsPatient : Session → Type 0
IsPatient session = (session.malloc_ok ≡ true) × AllContinue session.typed

-- The program in a build with the debugger, given a file of bytes that it can load and a user who only
-- types `c`: for every bound on the number of instructions, it is still running exactly when the
-- instruction set is, started from the bytes of the file, or it exits as the build without the debugger
-- does: with 0 where the instruction set halts and 1 where that meets an invalid operation; or it has done
-- what C leaves undefined, such as reading past the end of what the user types.
pub main_process-debugger :
    (config : Config) (session : Session) (os : Os) (fuel : ℕ) (fname : List ℕ)
    (rest : List (List ℕ)) (bytes : List ℕ)
    → config.enable_debugger ≡ true
    → IsPatient session
    → Loads os fname (record { cpu = zero_cpu; mem = load_words bytes }) bytes
    → IsBytes bytes
    → ExitsAlike
        (main_process config session os fuel (fname ∷ rest))
        (ending (isa_run fuel (isa_boot bytes)))
unfolding main_process exec_debugger debugger_init
main_process-debugger config session os fuel fname rest bytes on (ok, patient) loads h =
    let d : Debugger = record {
      n_steps = 2 ^ 32 - 1;
      n_events = session.stale_events;
      trace = true;
      breakpoints = [];
      next_id = 0;
      prompts = session.typed;
      errors = [];
    } in
    let w : World Debugger = booted bytes d in
    let resting : IsResting d = record {
      no_breakpoints = refl;
      steps_low = omega arith;
      steps_high = omega arith;
      answers = patient;
    } in
    rw
      (
        main_process,
        on,
        exec_debugger,
        debugger_init,
        ok,
        ready-sigma16_vm_init os fname (booted bytes tt).vm bytes loads,
        ← view-booted bytes d h,
        ← sigma16_vm_exec-isa_run fuel w (booted-IsMachine bytes d h),
      )
      (AlikeRuns-ExitsAlike (sigma16_vm_exec-yield_debugger fuel w resting))
