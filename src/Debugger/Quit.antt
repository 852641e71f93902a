-- ===== src/Debugger/Quit.antt =====
-- The command `e` of src/debugger.c at the first prompt.
use sigma16_emulator.Base.{
  ℕ, ◌+◌, ◌-◌, ◌%◌, ◌^◌, ◌≡◌, ◌≢◌, refl, ap, ◌∙◌, if◌then◌else◌, false, true, Bool, ◌==◌, ==_ne,
  List, ◌∷◌, ◌++◌, some,
}
use sigma16_emulator.Machine.{
  exec_start, M, Stop, ok, stop, ret, choose, World, exited, ◌>>=◌, ◌>>◌,
}
use sigma16_emulator.Exec.{sigma16_vm_exec, exec_loop}
use sigma16_emulator.Trace.{sigma16_trace}
use sigma16_emulator.Debugger.Stepping.{>>-ok, count_event-tick}
use sigma16_emulator.Debugger.Command.{Cmd, Prompt, command, parse_cmd}
use sigma16_emulator.Debugger.{
  Debugger, is_empty, line, run_cmd, interact, debugger_interactive, count_step, at_event,
  yield_debugger, ctx, check_breakpoints, count_event,
}

-- A debugger that has counted the first event and taken the first line.
abbrev pub asked : List Prompt → Debugger → Debugger
asked ps d = record d {
  n_events = (d.n_events + 1) % 2 ^ 32;
  n_steps = (d.n_steps + 2 ^ 32 - 1) % 2 ^ 32;
  prompts = ps;
}

>>-stop :
    (m k : M Debugger (Unit {0})) (s : Stop) (w w' : World Debugger)
    → m w ≡ stop s w'
    → (m >> k) w ≡ stop s w'
unfolding ◌>>◌ ◌>>=◌
>>-stop m k s w w' e = ap (λ r. elim r [ ok a w'' ↦ k w'' | stop s w'' ↦ stop s w'' ]) e

-- A prompt where the next line is the command `e`.
module _ (p : Prompt) (ps : List Prompt) (typed : is_empty p.line ≡ false)
    (parsed : parse_cmd p ≡ command Cmd.exit) where
  abbrev quit : World Debugger → World Debugger
  quit v = record v { out = v.out ++ line "Quit."; host = record (v.host) { prompts = ps } }

  debugger_interactive-quit :
      (v : World Debugger) → v.host.prompts ≡ p ∷ ps → debugger_interactive v ≡ stop exited (quit v)
  unfolding debugger_interactive interact run_cmd ◌>>=◌ ◌>>◌
  debugger_interactive-quit v e = rw (e, interact, typed, parsed) refl

  -- The step count falls, and may bring the prompt.
  abbrev fallen : World Debugger → World Debugger
  fallen v = record v {
    host = record (v.host) { n_steps = (v.host.n_steps + 2 ^ 32 - 1) % 2 ^ 32 };
  }

  count_step-quit :
      (v : World Debugger) (b : Bool)
      → v.host.prompts ≡ p ∷ ps
      → v.host.n_steps ≢ 2 ^ 31
      → ((fallen v).host.n_steps == 0) ≡ b
      → count_step v ≡ (if b then stop exited (quit (fallen v)) else ok tt (fallen v))
  unfolding count_step ◌>>=◌ ◌>>◌
  count_step-quit v true e steps last =
      rw (==_ne _ _ steps, last) (debugger_interactive-quit (fallen v) e)
  count_step-quit v false e steps more = rw (==_ne _ _ steps, more) refl

  traced_or_not :
      (b : Bool) (v : World Debugger) → choose b (sigma16_trace exec_start) (ret tt) v ≡ ok tt v
  unfolding sigma16_trace
  traced_or_not true v = refl
  traced_or_not false v = refl

  -- What follows the trace at the start.
  start-quit :
      (v : World Debugger) (b : Bool) (rest : M Debugger (Unit {0}))
      → v.host.prompts ≡ p ∷ ps
      → v.host.n_steps ≢ 2 ^ 31
      → ((fallen v).host.n_steps == 0) ≡ b
      → (count_step >> (at_event exec_start >> rest)) v ≡ stop exited (quit (fallen v))
  unfolding at_event
  start-quit v true rest e steps last =
      >>-stop count_step (at_event exec_start >> rest) exited v _
        (count_step-quit v true e steps last)
  start-quit v false rest e steps more =
      >>-ok count_step (at_event exec_start >> rest) v (fallen v)
        (count_step-quit v false e steps more)
      ∙ >>-stop (at_event exec_start) rest exited (fallen v) _
          (debugger_interactive-quit (fallen v) e)

  yield_debugger-quit :
      (w : World Debugger)
      → w.host.prompts ≡ p ∷ ps
      → w.host.n_events ≢ 2 ^ 31 - 1
      → w.host.n_steps ≢ 2 ^ 31
      → yield_debugger exec_start w
        ≡ stop exited (record w { out = w.out ++ line "Quit."; host = asked ps w.host })
  unfolding yield_debugger ◌>>=◌ ◌>>◌
  yield_debugger-quit w e events steps =
      let v : World Debugger = record w {
        host = record (w.host) { n_events = (w.host.n_events + 1) % 2 ^ 32 };
      } in
      let last : M Debugger (Unit {0}) = ctx >>= λ d. check_breakpoints d.breakpoints in
      let rest : M Debugger (Unit {0}) = count_step >> (at_event exec_start >> last) in
      >>-ok count_event (ctx >>= λ d. choose d.trace (sigma16_trace exec_start) (ret tt) >> rest) w
        v (count_event-tick w events)
      ∙ >>-ok (choose v.host.trace (sigma16_trace exec_start) (ret tt)) rest v v
          (traced_or_not v.host.trace v)
      ∙ start-quit v _ last e steps refl

-- Where the user first types the command `e`, and neither the count of events nor the step count overflows
-- when the first event is counted, execution under the debugger ends at its start: the process exits, the
-- machine is as it was, and only the farewell has been written, whether the debugger traces or not, and also
-- where the step count brings the first prompt.
pub sigma16_vm_exec-debugger_exit :
    (fuel : ℕ) (w : World Debugger) (p : Prompt) (ps : List Prompt)
    → w.host.prompts ≡ p ∷ ps
    → is_empty p.line ≡ false
    → parse_cmd p ≡ command Cmd.exit
    → w.host.n_events ≢ 2 ^ 31 - 1
    → w.host.n_steps ≢ 2 ^ 31
    → sigma16_vm_exec yield_debugger fuel w
      ≡ some (exited, record w { out = w.out ++ line "Quit."; host = asked ps w.host })
unfolding sigma16_vm_exec
sigma16_vm_exec-debugger_exit fuel w p ps e typed parsed events steps =
    ap (λ r. elim r [ ok _ w' ↦ exec_loop yield_debugger fuel w' | stop s w' ↦ some (s, w') ])
      (yield_debugger-quit p ps typed parsed w e events steps)
