-- ===== src/Python/Observe.antt =====
-- Executions under the trace handler of src/sigma16module.c, and without it.
use sigma16_emulator.Base.{ℕ, ◌≡◌, refl, arith, List, none, some}
use sigma16_emulator.Cpu.{Ir}
use sigma16_emulator.Machine.{
  Vm, World, Event, exec_start, exec_end, inst_rrr, inst_rx, inst_exp0, M, Res, ok, stop, ret, cpu,
  silent, ◌>>=◌, ◌>>◌,
}
use sigma16_emulator.Exec.{sigma16_vm_exec}
use sigma16_emulator.Exec.Observe.{world, Alike, goes_on, lost, Follows, Observes, Follows-ret}
use sigma16_emulator.Exec.Observe.Runs.{AlikeRuns, sigma16_vm_exec-AlikeRuns}
use sigma16_emulator.Python.{Object, Pointer, Api, Binding, binding, TypeObject}
use sigma16_emulator.Python.Instruction.{
  py_object_new, fill_rrr, fill_rx, fill_exp0, instruction_rrr_from_bytes,
  instruction_rx_from_bytes, instruction_exp0_from_bytes,
}
use sigma16_emulator.Python.Handler.{call_trace_handler, trace_instruction, vm_trace_compat}
use sigma16_emulator.Python.Quiet.{Leaves, leaves, Quiet, Quiet-bind, Quiet-cpu, Quiet-ret}
use sigma16_emulator.Python.Traced.{
  IsShort, Unless, py_object_new-Quiet, fill_rrr-Quiet, fill_rx-Quiet, fill_exp0-Quiet,
}

-- Any state of the binding.
abbrev pub Anything : Binding → Type 0
Anything b = Unit

module _ {A : Type 0} {L : Type 0} (p : Object) {Q : A → Type 0}
    {f : A → M Binding (Unit {0})} where
  Leaves-Alike :
      {vm : Vm} {out : List ℕ} {b : Binding} {r : Res Binding A} (o' : List ℕ) (b' : Binding)
      → Leaves p 0 Q vm out b r
      → ((a : A) → Q a → Observes L Anything (f a))
      → Alike L Anything (elim r [ ok a w ↦ f a w | stop s w ↦ stop s w ]) (ok tt (world vm o' b'))
  Leaves-Alike {vm} {out} o' b' (leaves {a} q g) h = (h a q).follows vm out o' _ b' tt

  Quiet-Observes :
      {m : M Binding A}
      → Quiet p 0 Q m
      → ((a : A) → Q a → Observes L Anything (f a))
      → Observes L Anything (m >>= f)
  unfolding ◌>>=◌
  Quiet-Observes g h = record { follows = λ vm o o' b b' i. Leaves-Alike o' b' (g.quiet vm o b) h }

module _ (api : Api) (L : Type 0) (short : IsShort api → L) where
  -- A pointer that is made, or not, and what is then done with it.
  from_bytes-Quiet :
      (t : TypeObject) (fill : Pointer → M Binding Pointer)
      → ((obj : Object) → Quiet 0 0 (Unless L) (fill (some obj)))
      → fill none ≡ ret none
      → Quiet 0 0 (Unless L) (py_object_new api t >>= fill)
  from_bytes-Quiet t fill filled null =
      Quiet-bind 0 0 0 (py_object_new-Quiet api 0 t short) (made fill filled null)
    where
      made :
          (g : Pointer → M Binding Pointer)
          → ((obj : Object) → Quiet 0 0 (Unless L) (g (some obj)))
          → g none ≡ ret none
          → (a : Pointer) → Unless L a
          → Quiet 0 0 (Unless L) (g a)
      made g h e none l = rw e (Quiet-ret 0 none l)
      made g h e (some obj) l = h obj

  handed-Observes :
      (a : Pointer)
      → Unless L a
      → Observes L Anything (binding >>= λ b. call_trace_handler api b.members.trace_handler a)
  unfolding call_trace_handler ◌>>=◌ ◌>>◌
  handed-Observes a l = record {
    follows = λ vm o o' b b' i. handed-Alike a b.members.trace_handler l vm o o' b b';
  }
    where
      handed-Alike :
          (a handler : Pointer)
          → Unless L a
          → (vm : Vm) (o o' : List ℕ) (b b' : Binding)
          → Alike L Anything
              (call_trace_handler api handler a (world vm o b))
              (ok tt (world vm o' b'))
      handed-Alike a none l vm o o' b b' = goes_on tt
      handed-Alike none (some f) l vm o o' b b' = lost (l refl)
      handed-Alike (some obj) (some f) l vm o o' b b' = goes_on tt

  trace_instruction-Observes :
      (from_bytes : Ir → M Binding Pointer)
      → ((ir : Ir) → Quiet 0 0 (Unless L) (from_bytes ir))
      → Observes L Anything (trace_instruction api (cpu >>= λ c. from_bytes c.ir))
  unfolding trace_instruction
  trace_instruction-Observes from_bytes h =
      Quiet-Observes 0 (Quiet-bind 0 0 0 (Quiet-cpu 0) λ c _. h c.ir) handed-Observes

  vm_trace_compat-Observes : (e : Event) → Follows L Anything (vm_trace_compat api e) (silent e)
  unfolding vm_trace_compat instruction_rrr_from_bytes instruction_rx_from_bytes
      instruction_exp0_from_bytes
  vm_trace_compat-Observes exec_start = Follows-ret tt
  vm_trace_compat-Observes exec_end = Follows-ret tt
  vm_trace_compat-Observes inst_rrr =
      trace_instruction-Observes (instruction_rrr_from_bytes api) λ ir.
        from_bytes-Quiet _ (fill_rrr api ir) (λ obj. fill_rrr-Quiet api 0 0 ir obj (omega arith))
          refl
  vm_trace_compat-Observes inst_rx =
      trace_instruction-Observes (instruction_rx_from_bytes api) λ ir.
        from_bytes-Quiet _ (fill_rx api ir) (λ obj. fill_rx-Quiet api 0 0 ir obj (omega arith)) refl
  vm_trace_compat-Observes inst_exp0 =
      trace_instruction-Observes (instruction_exp0_from_bytes api) λ ir.
        from_bytes-Quiet _ (fill_exp0 api ir) (λ obj. fill_exp0-Quiet api 0 0 ir obj (omega arith))
          refl

-- For every bound on the rounds, execution under the handler that calls back into Python and execution
-- without tracing are both still going on, or both end for the same reason with the same machine; or
-- Python was short of memory for an instruction object, and the one under the handler has met what C
-- leaves undefined.
pub sigma16_vm_exec-vm_trace_compat :
    (api : Api) (fuel : ℕ) (w : World Binding)
    → AlikeRuns
        (IsShort api)
        (sigma16_vm_exec (vm_trace_compat api) fuel w)
        (sigma16_vm_exec silent fuel w)
sigma16_vm_exec-vm_trace_compat api fuel w =
    sigma16_vm_exec-AlikeRuns {I = Anything} (vm_trace_compat api)
      (vm_trace_compat-Observes api (IsShort api) (λ s. s)) fuel w tt
