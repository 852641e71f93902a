-- ===== src/Debugger/Rest.antt =====
-- A debugger at rest: without breakpoints, never told to stop, and answered by `c` only.
use sigma16_emulator.Base.{
  ℕ, ◌+◌, ◌-◌, ◌%◌, ◌^◌, ◌<◌, ◌≤◌, ◌≡◌, ◌≢◌, arith, inl, inr, Bool, true, false, ◌==◌, ==_iff,
  ==_ne, List, [], ◌∷◌,
}
use sigma16_emulator.Base.Cases.{Bool-cases}
use sigma16_emulator.Machine.{
  Vm, World, Event, exec_start, exec_end, inst_rrr, inst_rx, inst_exp0, M, ok, stop, undefined, ret,
  choose, silent, ◌>>=◌, ◌>>◌,
}
use sigma16_emulator.Exec.{sigma16_vm_exec}
use sigma16_emulator.Exec.Observe.{
  world, Alike, goes_on, lost, Follows, Follows-ret, Follows-print_only,
}
use sigma16_emulator.Exec.Observe.Runs.{AlikeRuns, sigma16_vm_exec-AlikeRuns}
use sigma16_emulator.Trace.{sigma16_trace}
use sigma16_emulator.Exec.Observe.{Observes, then-Observes}
use sigma16_emulator.Trace.Observe.{sigma16_trace-Observes}
use sigma16_emulator.Debugger.{
  Debugger, ctx, is_empty, run_cmd, interact, debugger_interactive, check_breakpoints, count_step,
  count_event, at_event, yield_debugger,
}
use sigma16_emulator.Debugger.Command.{Cmd, Prompt, command, parse_cmd}

-- Every answer of the user is the command to go on.
abbrev pub AllContinue : List Prompt → Type 0
AllContinue [] = Unit
AllContinue (p ∷ ps) =
    ((is_empty p.line ≡ false) × (parse_cmd p ≡ command Cmd.go_on)) × AllContinue ps

-- The step count is negative, as `debugger_init` sets it, so it falls without reaching 0.
pub record IsResting (d : Debugger) : Type 0 where
  pub no_breakpoints : d.breakpoints ≡ []
  pub steps_low : 2 ^ 31 ≤ d.n_steps
  pub steps_high : d.n_steps < 2 ^ 32
  pub answers : AllContinue d.prompts

interact-Alike :
    (ps : List Prompt) (vm : Vm) (o o' : List ℕ) (d d' : Debugger)
    → IsResting d
    → AllContinue ps
    → Alike Unit IsResting (interact ps (world vm o d)) (ok tt (world vm o' d'))
unfolding interact run_cmd ◌>>◌ ◌>>=◌
interact-Alike [] vm o o' d d' i a = lost tt
interact-Alike (p ∷ ps) vm o o' d d' i ((typed, parsed), rest) =
    rw (typed, parsed)
      (goes_on (record {
        no_breakpoints = i.no_breakpoints;
        steps_low = i.steps_low;
        steps_high = i.steps_high;
        answers = rest;
      }))

debugger_interactive-Observes : Observes Unit IsResting debugger_interactive
unfolding debugger_interactive ◌>>=◌
debugger_interactive-Observes = record {
  follows = λ vm o o' d d' i. interact-Alike d.prompts vm o o' d d' i i.answers;
}

ctx-Observes :
    {f : Debugger → M Debugger (Unit {0})}
    → ((d : Debugger) → IsResting d → Observes Unit IsResting (f d))
    → Observes Unit IsResting (ctx >>= f)
unfolding ◌>>=◌
ctx-Observes g = record { follows = λ vm o o' d d' i. (g d i).follows vm o o' d d' i }

-- Counted down from a number that is not the least.
count_step-rest :
    (w : World Debugger)
    → IsResting w.host
    → w.host.n_steps ≢ 2 ^ 31
    → count_step w ≡ ok tt (record w { host = record (w.host) { n_steps = w.host.n_steps - 1 } })
unfolding count_step ◌>>◌
count_step-rest w i ne =
    let fallen : (w.host.n_steps + 2 ^ 32 - 1) % 2 ^ 32 ≡ w.host.n_steps - 1 =
      omega (arith, i.steps_low, i.steps_high) in
    let more : w.host.n_steps - 1 ≢ 0 = omega (arith, i.steps_low) in
    rw (==_ne _ _ ne) (rw fallen (rw (==_ne _ _ more)))

count_step-least : (w : World Debugger) → w.host.n_steps ≡ 2 ^ 31 → count_step w ≡ stop undefined w
unfolding count_step ◌>>◌
count_step-least w e = rw ((==_iff _ _).1 e)

count_step-Observes : Observes Unit IsResting count_step
count_step-Observes = record {
  follows = λ vm o o' d d' i. elim (Bool-cases (d.n_steps == 2 ^ 31)) [
    | inl least ↦ rw (count_step-least (world vm o d) ((==_iff _ _).0 least)) (lost tt)
    | inr other ↦
        let ne : d.n_steps ≢ 2 ^ 31 = ground arith in
        rw (count_step-rest (world vm o d) i ne) (
          goes_on (record {
            no_breakpoints = i.no_breakpoints;
            steps_low = omega (arith, i.steps_low);
            steps_high = omega (arith, i.steps_high);
            answers = i.answers;
          }))
  ];
}

at_event-Observes : (e : Event) → Observes Unit IsResting (at_event e)
unfolding at_event
at_event-Observes exec_start = debugger_interactive-Observes
at_event-Observes exec_end = then-Observes (Follows-print_only _) debugger_interactive-Observes
at_event-Observes inst_rrr = Follows-ret tt
at_event-Observes inst_rx = Follows-ret tt
at_event-Observes inst_exp0 = Follows-ret tt

-- The count of events is raised, or overflows.
count_event-Observes : Observes Unit IsResting count_event
unfolding count_event ◌>>=◌
count_event-Observes = record {
  follows = λ vm o o' d d' i. elim (Bool-cases (d.n_events == 2 ^ 31 - 1)) [
    | inl full ↦ rw full (lost tt)
    | inr room ↦ rw room (
        goes_on (record {
          no_breakpoints = i.no_breakpoints;
          steps_low = i.steps_low;
          steps_high = i.steps_high;
          answers = i.answers;
        }))
  ];
}

check_breakpoints-Observes :
    (d : Debugger) → IsResting d → Observes Unit IsResting (check_breakpoints d.breakpoints)
unfolding check_breakpoints
check_breakpoints-Observes d i = rw (i.no_breakpoints, check_breakpoints) (Follows-ret tt)

tracing-Observes :
    (on : Bool) (e : Event) → Observes Unit IsResting (choose on (sigma16_trace e) (ret tt))
tracing-Observes true e = record { follows = (sigma16_trace-Observes e).follows }
tracing-Observes false e = record { follows = (Follows-ret tt).follows }

yield_debugger-Observes : (e : Event) → Follows Unit IsResting (yield_debugger e) (silent e)
unfolding yield_debugger
yield_debugger-Observes e = then-Observes count_event-Observes (
    ctx-Observes λ d _. then-Observes (tracing-Observes d.trace e) (
      then-Observes count_step-Observes
        (then-Observes (at_event-Observes e) (ctx-Observes check_breakpoints-Observes))))

-- A debugger without breakpoints whose step count is negative, as at its start, and whose user only
-- types `c` is transparent: for every bound on the rounds, execution under it and execution without
-- it are both still going on, or both end for the same reason with the same machine; or the one under
-- the debugger has met what C leaves undefined, such as the end of what the user types.
pub sigma16_vm_exec-yield_debugger :
    (fuel : ℕ) (w : World Debugger)
    → IsResting w.host
    → AlikeRuns Unit (sigma16_vm_exec yield_debugger fuel w) (sigma16_vm_exec silent fuel w)
sigma16_vm_exec-yield_debugger fuel w i =
    sigma16_vm_exec-AlikeRuns yield_debugger yield_debugger-Observes fuel w i
