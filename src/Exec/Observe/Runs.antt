-- ===== src/Exec/Observe/Runs.antt =====
-- Whole executions under a trace handler that only observes, and without one.
use sigma16_emulator.Base.{ℕ, zero, suc, List, Option, none, some}
use sigma16_emulator.Machine.{
  Vm, World, Stop, undefined, Res, ok, stop, Handler, Event, exec_start, silent,
}
use sigma16_emulator.Exec.{exec_loop, sigma16_vm_exec}
use sigma16_emulator.Exec.Observe.{world, Alike, goes_on, stops, lost, Follows}
use sigma16_emulator.Exec.Observe.Labels.{step-Follows}

-- Both are still running; or both are over, for the same reason and with the same machine; or the left
-- one did what C leaves undefined, and `L` holds.
pub data AlikeRuns {H : Type 0} (L : Type 0)
    : Option (Stop × World H) → Option (Stop × World H) → Type 0 where
  running : AlikeRuns L none none
  over :
      {s : Stop} {vm : Vm} {o o' : List ℕ} {h h' : H}
      → AlikeRuns L (some (s, world vm o h)) (some (s, world vm o' h'))
  lost_run : {w : World H} {r : Option (Stop × World H)} → L → AlikeRuns L (some (undefined, w)) r

module _ {H : Type 0} {L : Type 0} {I : H → Type 0} where
  AlikeRuns-continue :
      (k k' : World H → Option (Stop × World H)) {r r' : Res H (Unit {0})}
      → Alike L I r r'
      → ((vm : Vm) (o o' : List ℕ) (h h' : H)
          → I h
          → AlikeRuns L (k (world vm o h)) (k' (world vm o' h')))
      → AlikeRuns L
          (elim r [ ok _ w ↦ k w | stop s w ↦ some (s, w) ])
          (elim r' [ ok _ w ↦ k' w | stop s w ↦ some (s, w) ])
  AlikeRuns-continue k k' (goes_on {vm} {o} {o'} {h} {h'} i) g = g vm o o' h h' i
  AlikeRuns-continue k k' stops g = over
  AlikeRuns-continue k k' (lost l) g = lost_run l

  module _ (handler : Handler H) (observes : (e : Event) → Follows L I (handler e) (silent e)) where
    exec_loop-AlikeRuns :
        (fuel : ℕ) (vm : Vm) (o o' : List ℕ) (h h' : H)
        → I h
        → AlikeRuns L
            (exec_loop handler fuel (world vm o h))
            (exec_loop silent fuel (world vm o' h'))
    unfolding exec_loop
    exec_loop-AlikeRuns zero vm o o' h h' i = running
    exec_loop-AlikeRuns (suc fuel) vm o o' h h' i =
        AlikeRuns-continue (exec_loop handler fuel) (exec_loop silent fuel)
          ((step-Follows handler observes).follows vm o o' h h' i) (exec_loop-AlikeRuns fuel)

    -- Under a trace handler that on each event, in a state in `I`, leaves the machine alone and goes on
    -- in such a state, or does what C leaves undefined and `L` holds, and from such a state: execution ends in the
    -- same machine for the same reason as without a handler, after the same number of rounds, unless
    -- it ended in what is undefined.
    pub sigma16_vm_exec-AlikeRuns :
        (fuel : ℕ) (w : World H)
        → I w.host
        → AlikeRuns L (sigma16_vm_exec handler fuel w) (sigma16_vm_exec silent fuel w)
    unfolding sigma16_vm_exec
    sigma16_vm_exec-AlikeRuns fuel w i =
        AlikeRuns-continue (exec_loop handler fuel) (exec_loop silent fuel)
          ((observes exec_start).follows w.vm w.out w.out w.host w.host i)
          (exec_loop-AlikeRuns fuel)
