-- ===== src/Python/Traced.antt =====
-- The trace handler of the binding: what it does to the machine, and to references.
use sigma16_emulator.Base.{◌∷◌, ℕ, ◌≤◌, ◌≡◌, ◌≢◌, refl, sym, subst, arith, List, Option, none, some}
use native.Mathlib.Nat.{add-zero}
use sigma16_emulator.Cpu.{Ir}
use sigma16_emulator.Machine.{
  Vm, Event, exec_start, exec_end, inst_rrr, inst_rx, inst_exp0, M, Res, ok, stop, ◌>>=◌, ◌>>◌,
}
use sigma16_emulator.Exec.Observe.{world}
use sigma16_emulator.Python.{
  Object, Pointer, TypeObject, instruction_rrr_type, instruction_rx_type, instruction_exp0_type,
  Call, Api, Fields, Binding, binding, logged, incref, new_object, taken, released, taken_by,
}
use sigma16_emulator.Python.Instruction.{
  py_object_new, py_long_from_long, fill, fill_rrr, fill_rx, fill_exp0, instruction_rrr_from_bytes,
  instruction_rx_from_bytes, instruction_exp0_from_bytes,
}
use sigma16_emulator.Python.Handler.{call_trace_handler, trace_instruction, vm_trace_compat}
use sigma16_emulator.Python.Quiet.{
  Leaves, Leaves-widen, Leaves-bind, Quiet, Any, Quiet-bind, Quiet-then, Quiet-ret, Quiet-binding,
  Quiet-logged, Quiet-modify,
}

-- Python can be short of memory for an instruction object.
abbrev pub IsShort : Api → Type 0
IsShort api = (log : List Call) × (t : TypeObject) × (api.object_new log t ≡ none)

-- A pointer that is NULL only for a reason.
abbrev pub Unless : Type 0 → Pointer → Type 0
Unless L a = a ≡ none → L

module _ (api : Api) (p : Object) where
  py_long_from_long-Quiet : (n : ℕ) → Quiet p 0 Any (py_long_from_long api n)
  unfolding py_long_from_long
  py_long_from_long-Quiet n =
      Quiet-bind p 0 0 (Quiet-binding p)
        λ b _. Quiet-then p 0 0 (Quiet-logged p 0 _ (λ o. refl) (omega arith)) (Quiet-ret p _ tt)

  module _ {L : Type 0} where
    pub py_object_new-Quiet :
        (t : TypeObject) → (IsShort api → L) → Quiet p 0 (Unless L) (py_object_new api t)
    unfolding py_object_new
    py_object_new-Quiet t short = Quiet-bind p 0 0 (Quiet-binding p) λ b _.
        Quiet-then p 0 0 (Quiet-logged p 0 _ (λ o. refl) (omega arith))
          (Quiet-ret p _ λ e. short (b.log, t, e))

    fill-Quiet : (obj : Object) (fields : Fields) → Quiet p 0 (Unless L) (fill api obj fields)
    fill-Quiet obj fields = Quiet-then p 0 0 (Quiet-modify p _ λ b. refl) (Quiet-ret p _ λ e. cc)

    long-then :
        {f : Pointer → M Binding Pointer} (n : ℕ)
        → ((a : Pointer) → Quiet p 0 (Unless L) (f a))
        → Quiet p 0 (Unless L) (py_long_from_long api n >>= f)
    long-then n h = Quiet-bind p 0 0 (py_long_from_long-Quiet n) λ a _. h a

    incref-then :
        {m : M Binding Pointer} (k : ℕ) (obj : Object)
        → k ≤ taken_by p (incref obj)
        → Quiet p 0 (Unless L) m
        → Quiet p k (Unless L) (logged (incref obj) >> m)
    incref-then {m} k obj h rest =
        subst (λ (n : ℕ). Quiet p n (Unless L) (logged (incref obj) >> m)) (add-zero k)
          (Quiet-then p k 0 (Quiet-logged p k _ (λ o. refl) h) rest)

    pub fill_rrr-Quiet :
        (k : ℕ) (ir : Ir) (obj : Object)
        → k ≤ taken_by p (incref obj)
        → Quiet p k (Unless L) (fill_rrr api ir (some obj))
    unfolding fill_rrr
    fill_rrr-Quiet k ir obj h =
        incref-then k obj h
          (long-then _ λ d. long-then _ λ op. long-then _ λ sb. long-then _ λ sa. fill-Quiet obj _)

    pub fill_rx-Quiet :
        (k : ℕ) (ir : Ir) (obj : Object)
        → k ≤ taken_by p (incref obj)
        → Quiet p k (Unless L) (fill_rx api ir (some obj))
    unfolding fill_rx
    fill_rx-Quiet k ir obj h = incref-then k obj h (
        long-then _ λ d.
          long-then _
            λ op. long-then _ λ sb. long-then _ λ sa. long-then _ λ disp. fill-Quiet obj _)

    pub fill_exp0-Quiet :
        (k : ℕ) (ir : Ir) (obj : Object)
        → k ≤ taken_by p (incref obj)
        → Quiet p k (Unless L) (fill_exp0 api ir (some obj))
    unfolding fill_exp0
    fill_exp0-Quiet k ir obj h =
        incref-then k obj h (long-then _ λ d. long-then _ λ op. long-then _ λ ab. fill-Quiet obj _)

  pub call_trace_handler-Quiet :
      (handler instruction : Pointer)
      → instruction ≢ none
      → Quiet p 0 Any (call_trace_handler api handler instruction)
  unfolding call_trace_handler
  call_trace_handler-Quiet none instruction h = Quiet-ret p tt tt
  call_trace_handler-Quiet (some f) none h = absurd (h refl)
  call_trace_handler-Quiet (some f) (some item) h =
      Quiet-bind p 0 0
        (Quiet-bind p 0 0 (Quiet-binding p) λ b _.
          Quiet-then p 0 0 (Quiet-logged p 0 _ (λ o. refl) (omega arith))
            (Quiet-ret p {Q = Any} _ tt))
        λ args _. Quiet-bind p 0 0 (Quiet-binding p) λ b _.
          Quiet-then p 0 0 (Quiet-modify p _ λ b'. refl)
            (Quiet-logged p 0 _ (λ o. refl) (omega arith))

  -- The handler is called, or not, on an object that is there.
  handed-Quiet :
      (a : Pointer)
      → a ≢ none
      → Quiet p 0 Any (binding >>= λ b. call_trace_handler api b.members.trace_handler a)
  handed-Quiet a h =
      Quiet-bind p 0 0 (Quiet-binding p) λ b _. call_trace_handler-Quiet b.members.trace_handler a h

  -- The two references to a new instruction object, of PyObject_New and of Py_INCREF.
  made-Leaves :
      {m : M Binding Pointer} (t : TypeObject) (vm : Vm) (out : List ℕ) (b : Binding)
      → Quiet p 1 (Unless ⊥) m
      → Leaves p 2
          (Unless ⊥)
          vm
          out
          b
          (m (world vm out (record b { log = new_object t (some p) ∷ b.log })))
  unfolding taken released
  made-Leaves t vm out b h =
      Leaves-widen p 1 1 (record { kept = λ o. omega arith; grown = ground arith })
        (h.quiet vm out (record b { log = new_object t (some p) ∷ b.log }))

-- The type of the object that an event makes.
abbrev pub type_of : Event → Option TypeObject
type_of inst_rrr = some instruction_rrr_type
type_of inst_rx = some instruction_rx_type
type_of inst_exp0 = some instruction_exp0_type
type_of _ = none

module _ (api : Api) (p : Object) (vm : Vm) (out : List ℕ) (b : Binding) where
  -- An object is made, filled and handed on.
  abbrev handed_on : (Pointer → M Binding Pointer) → TypeObject → Pointer → Res Binding (Unit {0})
  handed_on fill t q = elim (fill q (world vm out (record b { log = new_object t q ∷ b.log }))) [
    | ok a w ↦ (binding >>= λ b'. call_trace_handler api b'.members.trace_handler a) w
    | stop s w ↦ stop s w
  ]

  handed_on-Leaves :
      (fill : Pointer → M Binding Pointer) (t : TypeObject) (q : Pointer)
      → q ≡ some p
      → Quiet p 1 (Unless ⊥) (fill (some p))
      → Leaves p 2 Any vm out b (handed_on fill t q)
  handed_on-Leaves fill t q e h =
      subst (λ (r : Pointer). Leaves p 2 Any vm out b (handed_on fill t r)) (sym e)
        (Leaves-bind p 2 0 (made-Leaves api p t vm out b h) λ a there. handed-Quiet api p a there)

  pub traced-Leaves :
      (e : Event) (t : TypeObject)
      → type_of e ≡ some t
      → api.object_new b.log t ≡ some p
      → Leaves p 2 Any vm out b (vm_trace_compat api e (world vm out b))
  unfolding vm_trace_compat trace_instruction instruction_rrr_from_bytes instruction_rx_from_bytes
      instruction_exp0_from_bytes py_object_new ◌>>=◌ ◌>>◌
  traced-Leaves exec_start t k made = cc
  traced-Leaves exec_end t k made = cc
  traced-Leaves inst_rrr t k made =
      let here : api.object_new b.log instruction_rrr_type ≡ some p = cc in
      handed_on-Leaves (fill_rrr api vm.cpu.ir) _ _ here
        (fill_rrr-Quiet api p 1 vm.cpu.ir p (ground arith))
  traced-Leaves inst_rx t k made =
      let here : api.object_new b.log instruction_rx_type ≡ some p = cc in
      handed_on-Leaves (fill_rx api vm.cpu.ir) _ _ here
        (fill_rx-Quiet api p 1 vm.cpu.ir p (ground arith))
  traced-Leaves inst_exp0 t k made =
      let here : api.object_new b.log instruction_exp0_type ≡ some p = cc in
      handed_on-Leaves (fill_exp0 api vm.cpu.ir) _ _ here
        (fill_exp0-Quiet api p 1 vm.cpu.ir p (ground arith))
