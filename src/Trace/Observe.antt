-- ===== src/Trace/Observe.antt =====
-- The tracer of src/tracing.c as a handler that observes, and executions under it.
use sigma16_emulator.Base.{ℕ, List, Option, none, some}
use sigma16_emulator.Machine.{
  World, Event, exec_start, exec_end, inst_rrr, inst_rx, inst_exp0, print, defined, silent, ◌>>=◌,
}
use sigma16_emulator.Exec.{sigma16_vm_exec}
use sigma16_emulator.Exec.Observe.{
  Follows, Observes, then-Observes, cpu-Observes, lost, goes_on, Follows-ret, Follows-print_only,
}
use sigma16_emulator.Exec.Observe.Runs.{AlikeRuns, sigma16_vm_exec-AlikeRuns}
use sigma16_emulator.Trace.{sigma16_trace, print_pc}

module _ {H : Type 0} {I : H → Type 0} where
  defined-Observes :
      (a : Option (List ℕ)) (f : List ℕ → List ℕ) → Observes Unit I (defined a >>= λ m. print (f m))
  unfolding ◌>>=◌
  defined-Observes none f = record { follows = λ vm o o' h h' i. lost tt }
  defined-Observes (some m) f = record { follows = λ vm o o' h h' i. goes_on i }

  print_pc-Observes : Observes Unit I print_pc
  unfolding print_pc
  print_pc-Observes = cpu-Observes λ c. Follows-print_only _

  pub sigma16_trace-Observes : (e : Event) → Follows Unit I (sigma16_trace {H = H} e) (silent e)
  unfolding sigma16_trace
  sigma16_trace-Observes exec_start = Follows-ret tt
  sigma16_trace-Observes exec_end = Follows-ret tt
  sigma16_trace-Observes inst_rrr =
      then-Observes print_pc-Observes (cpu-Observes λ c. defined-Observes _ _)
  sigma16_trace-Observes inst_rx =
      then-Observes print_pc-Observes (cpu-Observes λ c. defined-Observes _ _)
  sigma16_trace-Observes inst_exp0 = print_pc-Observes

module _ {H : Type 0} where
  -- From any machine and for every bound on the rounds, execution under the tracer and execution
  -- without tracing are both still going on, or both end for the same reason with the same registers,
  -- memory and all else of the machine; or the one under the tracer has met what C leaves undefined.
  pub sigma16_vm_exec-sigma16_trace :
      (fuel : ℕ) (w : World H)
      → AlikeRuns Unit (sigma16_vm_exec sigma16_trace fuel w) (sigma16_vm_exec silent fuel w)
  sigma16_vm_exec-sigma16_trace fuel w =
      sigma16_vm_exec-AlikeRuns {I = λ _. Unit} sigma16_trace sigma16_trace-Observes fuel w tt
