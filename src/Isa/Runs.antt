-- ===== src/Isa/Runs.antt =====
-- Whole executions of src/vm.c beside runs of the architecture.
use sigma16_emulator.Base.{ℕ, zero, suc, ◌≡◌, refl, Option, none, some}
use sigma16_emulator.Machine.{World, Stop, Res, ok, stop, Event, silent}
use sigma16_emulator.Exec.{step, exec_loop, sigma16_vm_exec}
use sigma16_emulator.Exec.Keeps.{Holds, ends, Any, Keeps-ret}
use sigma16_emulator.Exec.Invariant.{IsMachine, Preserves}
use sigma16_emulator.Exec.Invariant.Handlers.{step-Preserves}
use sigma16_emulator.Isa.{State, next, over, isa_step, view, outcome}
use sigma16_emulator.Isa.Refine.{step-isa_step}

-- At most `fuel` instructions of the architecture.
unfoldable pub isa_run : ℕ → State → Option (Stop × State)
isa_run zero s = none
isa_run (suc fuel) s = elim (isa_step s) [ next t ↦ isa_run fuel t | over r t ↦ some (r, t) ]

abbrev pub final : {H : Type 0} → Option (Stop × World H) → Option (Stop × State)
final none = none
final (some (s, w)) = some (s, view w)

pub silent-Preserves : {H : Type 0} (e : Event) → Preserves (silent {H = H} e)
silent-Preserves e = Keeps-ret tt tt

-- The end of a round, and what comes after it, seen by the program.
continue-view :
    {H : Type 0} (k : World H → Option (Stop × World H)) (f : State → Option (Stop × State))
    (r : Res H (Unit {0}))
    → Holds IsMachine Any r
    → ((w : World H) → IsMachine w → final (k w) ≡ f (view w))
    → final (elim r [ ok _ w ↦ k w | stop s w ↦ some (s, w) ])
      ≡ (elim (outcome r) [ next t ↦ f t | over s t ↦ some (s, t) ])
continue-view k f (ok a w) (ends q i) agree = agree w i
continue-view k f (stop s w) h agree = refl

exec_loop-isa_run :
    {H : Type 0} (fuel : ℕ) (w : World H)
    → IsMachine w
    → final (exec_loop silent fuel w) ≡ isa_run fuel (view w)
unfolding exec_loop isa_run
exec_loop-isa_run zero w i = refl
exec_loop-isa_run (suc fuel) w i =
    rw (← step-isa_step w i.mem_fits, isa_run)
      (continue-view (exec_loop silent fuel) (isa_run fuel) (step silent w)
        ((step-Preserves silent silent-Preserves).keeps w i) (exec_loop-isa_run fuel))

-- Without tracing, execution from a well-formed machine is a run of the architecture from what the
-- program sees: for every number of rounds both go on, or both end for the same reason in the same
-- registers, program counter, memory and output.
pub sigma16_vm_exec-isa_run :
    {H : Type 0} (fuel : ℕ) (w : World H)
    → IsMachine w
    → final (sigma16_vm_exec silent fuel w) ≡ isa_run fuel (view w)
unfolding sigma16_vm_exec
sigma16_vm_exec-isa_run fuel w i = exec_loop-isa_run fuel w i
