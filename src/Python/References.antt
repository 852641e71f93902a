-- ===== src/Python/References.antt =====
-- References that the trace handler of src/sigma16module.c takes and does not give back.
use sigma16_emulator.Base.{ℕ, ◌+◌, ◌≤◌, ◌≡◌, refl, List, some}
use sigma16_emulator.Machine.{Vm, World, Event, Res, ok}
use sigma16_emulator.Exec.Observe.{world}
use sigma16_emulator.Python.{Object, TypeObject, Api, Binding, taken, released}
use sigma16_emulator.Python.Handler.{vm_trace_compat}
use sigma16_emulator.Python.Quiet.{Leaves, leaves, Any}
use sigma16_emulator.Python.Traced.{type_of, traced-Leaves}

-- The binding after an action that goes on, gives nothing back and takes `p` two times or more.
abbrev pub TakesTwice : Object → World Binding → Res Binding (Unit {0}) → Type 0
TakesTwice p w r =
    (b : Binding) × (r ≡ ok tt (world w.vm w.out b))
    × ((o : Object) → released o b.log ≡ released o w.host.log)
    × (taken p w.host.log + 2 ≤ taken p b.log)

Leaves-TakesTwice :
    (p : Object) {vm : Vm} {out : List ℕ} {b : Binding} {r : Res Binding (Unit {0})}
    → Leaves p 2 Any vm out b r
    → TakesTwice p (world vm out b) r
Leaves-TakesTwice p (leaves q g) = (_, refl, g.kept, g.grown)

-- Whenever an instruction is traced and Python makes the object for it, execution goes on with the same
-- machine and output, no reference to any object has been given back, and the C code has taken two or
-- more references to that object, which it thus never frees.
pub vm_trace_compat-TakesTwice :
    (api : Api) (e : Event) (t : TypeObject) (p : Object) (w : World Binding)
    → type_of e ≡ some t
    → api.object_new w.host.log t ≡ some p
    → TakesTwice p w (vm_trace_compat api e w)
vm_trace_compat-TakesTwice api e t p w typed made =
    Leaves-TakesTwice p (traced-Leaves api p w.vm w.out w.host e t typed made)
