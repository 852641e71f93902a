-- ===== src/Python/Calls.antt =====
-- `Emulator_execute` of src/sigma16module.c beside the instruction set.
use sigma16_emulator.Base.{ℕ, ◌≡◌, refl, [], Option, none, some}
use sigma16_emulator.Machine.{Vm, World, Stop, halted, bad_opcode, exited, aborted, undefined}
use sigma16_emulator.Exec.Observe.{world}
use sigma16_emulator.Exec.Observe.Runs.{AlikeRuns, running, over, lost_run}
use sigma16_emulator.Exec.Invariant.{IsMachine}
use sigma16_emulator.Isa.{State, view}
use sigma16_emulator.Isa.Runs.{isa_run, final, sigma16_vm_exec-isa_run}
use sigma16_emulator.Python.{Api, Binding}
use sigma16_emulator.Python.Observe.{sigma16_vm_exec-vm_trace_compat}
use sigma16_emulator.Python.Traced.{IsShort}
use sigma16_emulator.Python.Emulator.{
  Slot, live, EmulatorObject, Outcome, returned, crashed, Executed, py_none, raised, after_vm_exec,
  after_run, execute_slot, emulator_execute,
}

-- The registers, program counter and memory of a machine are those of a state of the instruction set.
abbrev pub Shows : Slot → State → Type 0
Shows (live vm) t =
    let w : World (Unit {0}) = world vm [] tt in
    ((view w).regs ≡ t.regs) × ((view w).pc ≡ t.pc) × ((view w).mem ≡ t.mem)
Shows _ t = ⊥

-- An end of the instruction set that is neither the trap that halts nor an invalid operation.
abbrev pub IsFault : Stop → Type 0
IsFault halted = ⊥
IsFault (bad_opcode pc) = ⊥
IsFault _ = Unit

-- `Emulator_execute` beside a run of the instruction set. `L` has to hold for it to crash alone.
pub data Mirrors (L : Type 0) : Option (Outcome Executed) → Option (Stop × State) → Type 0 where
  both_running : Mirrors L none none
  both_halted :
      {self : EmulatorObject} {t : State}
      → Shows self.slot t
      → Mirrors L (some (returned py_none self)) (some (halted, t))
  both_bad :
      {self : EmulatorObject} {t : State} {pc : ℕ}
      → Shows self.slot t
      → Mirrors L (some (returned raised self)) (some (bad_opcode pc, t))
  both_fault : {s : Stop} {t : State} → IsFault s → Mirrors L (some crashed) (some (s, t))
  crash_alone : {r : Option (Stop × State)} → L → Mirrors L (some crashed) r

AlikeRuns-Mirrors :
    {L : Type 0} {r r' : Option (Stop × World Binding)}
    → AlikeRuns L r r'
    → Mirrors L (after_run r) (final r')
unfolding after_vm_exec
AlikeRuns-Mirrors running = both_running
AlikeRuns-Mirrors (over {s = halted}) = both_halted (refl, refl, refl)
AlikeRuns-Mirrors (over {s = bad_opcode pc}) = both_bad (refl, refl, refl)
AlikeRuns-Mirrors (over {s = exited}) = both_fault tt
AlikeRuns-Mirrors (over {s = aborted}) = both_fault tt
AlikeRuns-Mirrors (over {s = undefined}) = both_fault tt
AlikeRuns-Mirrors (lost_run l) = crash_alone l

-- Where the emulator has a well-formed machine, `execute` is a run of the instruction set from that
-- machine: for every bound on the rounds both go on; or that halts and `execute` returns None, or that
-- meets an invalid operation and `execute` raises, with the same registers, program counter and memory
-- then; or both meet what is undefined, or `execute` does because Python was short of memory.
pub emulator_execute-isa_run :
    (api : Api) (fuel : ℕ) (self : EmulatorObject) (vm : Vm)
    → self.slot ≡ live vm
    → IsMachine (world vm self.stdout self.binding)
    → Mirrors
        (IsShort api)
        (emulator_execute api fuel self)
        (isa_run fuel (view (world vm self.stdout self.binding)))
unfolding emulator_execute execute_slot
emulator_execute-isa_run api fuel self vm e i =
    let w : World Binding = world vm self.stdout self.binding in
    rw (e, execute_slot, ← sigma16_vm_exec-isa_run fuel w i)
      (AlikeRuns-Mirrors (sigma16_vm_exec-vm_trace_compat api fuel w))
