-- ===== src/Python/Shown.antt =====
-- What the trace handler in Python finds in the instruction objects of src/sigma16module.c.
use Prim.Native.String.{String}
use mathlib.Core.List.{Memᴰ}
use sigma16_emulator.Base.{ℕ, ◌≡◌, refl, sym, List, [], ◌∷◌, none, some}
use sigma16_emulator.Cpu.{Ir, ir_d, ir_op, ir_sb, ir_sa, ir_disp, ir_ab}
use sigma16_emulator.Machine.{
  World, Event, exec_start, exec_end, inst_rrr, inst_rx, inst_exp0, Res, ok, stop, ◌>>=◌, ◌>>◌,
}
use sigma16_emulator.Exec.Observe.{world}
use sigma16_emulator.Python.{
  Object, Pointer, TypeObject, instruction_rrr_type, instruction_rx_type, instruction_exp0_type,
  Call, long_from_long, tuple_pack, call_object, Api, Fields, Binding,
}
use sigma16_emulator.Python.Instruction.{
  instruction_rrr_from_bytes, instruction_rx_from_bytes, instruction_exp0_from_bytes,
}
use sigma16_emulator.Python.Handler.{
  vm_trace_compat, trace_instruction, call_trace_handler, py_tuple_pack, py_object_call_object,
}
use sigma16_emulator.Python.Traced.{type_of}
use sigma16_emulator.Python.RoundTrip.{from_bytes}
use sigma16_emulator.Python.Attributes.{Field, offset_of, tp_members}

-- What a handler expects of each format: the parts of the instruction, by name.
abbrev pub parts : Event → List (String × (Ir → ℕ))
parts inst_rrr = ("d", ir_d) ∷ ("op", ir_op) ∷ ("sb", ir_sb) ∷ ("sa", ir_sa) ∷ []
parts inst_rx = ("d", ir_d) ∷ ("op", ir_op) ∷ ("sb", ir_sb) ∷ ("sa", ir_sa) ∷ ("disp", ir_disp) ∷ []
parts inst_exp0 = ("d", ir_d) ∷ ("op", ir_op) ∷ ("ab", ir_ab) ∷ []
parts _ = []

-- The members are the parts, each with the object that was made for its number.
abbrev pub Shows :
    Ir → Fields → List Call → List (String × Field) → List (String × (Ir → ℕ)) → Type 0
Shows ir fields log [] [] = Unit
Shows ir fields log ((name, field) ∷ ms) ((name', part) ∷ vs) =
    ((name ≡ name')
      × (p : Pointer) × (offset_of field fields ≡ some p)
      × Memᴰ (long_from_long (part ir) p) log)
    × Shows ir fields log ms vs
Shows ir fields log _ _ = ⊥

-- The handler, if there is one, has been called last, with a tuple made for the object.
abbrev pub IsHanded : Object → Pointer → List Call → Type 0
IsHanded obj none log = Unit
IsHanded obj (some f) log =
    (args : Pointer) × (result : Pointer) × (before : List Call) × (log
      ≡ call_object f args result ∷ tuple_pack obj args ∷ before)

-- Where a trace ends.
abbrev pub IsShown : Object → Event → TypeObject → World Binding → Res Binding (Unit {0}) → Type 0
IsShown obj e t w r =
    (fields : Fields) × (b : Binding) × (r ≡ ok tt (world w.vm w.out b))
    × (b.instructions ≡ (obj, fields) ∷ w.host.instructions)
    × Shows w.vm.cpu.ir fields b.log (tp_members t) (parts e)
    × IsHanded obj w.host.members.trace_handler b.log

-- The object is filled, and the members of the emulator are as they were.
abbrev IsFilled : Object → Event → TypeObject → World Binding → Res Binding Pointer → Type 0
IsFilled obj e t w r =
    (fields : Fields) × (b : Binding) × (r ≡ ok (some obj) (world w.vm w.out b))
    × (b.instructions ≡ (obj, fields) ∷ w.host.instructions)
    × Shows w.vm.cpu.ir fields b.log (tp_members t) (parts e)
    × (b.members.trace_handler ≡ w.host.members.trace_handler)

from_bytes-IsFilled :
    (api : Api) (e : Event) (t : TypeObject) (obj : Object) (w : World Binding)
    → type_of e ≡ some t
    → api.object_new w.host.log t ≡ some obj
    → IsFilled obj e t w (from_bytes api e w.vm.cpu.ir w)
unfolding instruction_rrr_from_bytes instruction_rx_from_bytes instruction_exp0_from_bytes ◌>>=◌
    ◌>>◌
from_bytes-IsFilled api exec_start t obj w typed made = cc
from_bytes-IsFilled api exec_end t obj w typed made = cc
from_bytes-IsFilled api inst_rrr t obj w typed made =
    let known : t ≡ instruction_rrr_type = cc in
    let here : api.object_new w.host.log instruction_rrr_type ≡ some obj = cc in
    rw (known, here)
      (
        _,
        _,
        refl,
        refl,
        (
          (refl, _, refl, Memᴰ.tail (Memᴰ.tail (Memᴰ.tail (Memᴰ.head refl)))),
          (
            (refl, _, refl, Memᴰ.tail (Memᴰ.tail (Memᴰ.head refl))),
            ((refl, _, refl, Memᴰ.tail (Memᴰ.head refl)), ((refl, _, refl, Memᴰ.head refl), tt)),
          ),
        ),
        refl,
      )
from_bytes-IsFilled api inst_rx t obj w typed made =
    let known : t ≡ instruction_rx_type = cc in
    let here : api.object_new w.host.log instruction_rx_type ≡ some obj = cc in
    rw (known, here)
      (
        _,
        _,
        refl,
        refl,
        (
          (refl, _, refl, Memᴰ.tail (Memᴰ.tail (Memᴰ.tail (Memᴰ.tail (Memᴰ.head refl))))),
          (
            (refl, _, refl, Memᴰ.tail (Memᴰ.tail (Memᴰ.tail (Memᴰ.head refl)))),
            (
              (refl, _, refl, Memᴰ.tail (Memᴰ.tail (Memᴰ.head refl))),
              ((refl, _, refl, Memᴰ.tail (Memᴰ.head refl)), ((refl, _, refl, Memᴰ.head refl), tt)),
            ),
          ),
        ),
        refl,
      )
from_bytes-IsFilled api inst_exp0 t obj w typed made =
    let known : t ≡ instruction_exp0_type = cc in
    let here : api.object_new w.host.log instruction_exp0_type ≡ some obj = cc in
    rw (known, here)
      (
        _,
        _,
        refl,
        refl,
        (
          (refl, _, refl, Memᴰ.tail (Memᴰ.tail (Memᴰ.head refl))),
          ((refl, _, refl, Memᴰ.tail (Memᴰ.head refl)), ((refl, _, refl, Memᴰ.head refl), tt)),
        ),
        refl,
      )

-- Later calls do not hide what has been made.
Shows-later :
    (c : Call) (ir : Ir) (fields : Fields) (log : List Call) (ms : List (String × Field))
    (vs : List (String × (Ir → ℕ)))
    → Shows ir fields log ms vs
    → Shows ir fields (c ∷ log) ms vs
Shows-later c ir fields log [] [] h = tt
Shows-later c ir fields log (m ∷ ms) (v ∷ vs) ((same, p, stored, made), rest) =
    ((same, p, stored, Memᴰ.tail made), Shows-later c ir fields log ms vs rest)
Shows-later c ir fields log [] (v ∷ vs) h = absurd h
Shows-later c ir fields log (m ∷ ms) [] h = absurd h

-- The object is handed on.
handed-IsShown :
    (api : Api) (obj : Object) (e : Event) (t : TypeObject) (w : World Binding) (fields : Fields)
    (b : Binding) (handler : Pointer)
    → w.host.members.trace_handler ≡ handler
    → b.instructions ≡ (obj, fields) ∷ w.host.instructions
    → Shows w.vm.cpu.ir fields b.log (tp_members t) (parts e)
    → IsShown obj e t w (call_trace_handler api handler (some obj) (world w.vm w.out b))
unfolding call_trace_handler py_tuple_pack py_object_call_object ◌>>=◌ ◌>>◌
handed-IsShown api obj e t w fields b none known listed shows =
    rw known (fields, b, refl, listed, shows, tt)
handed-IsShown api obj e t w fields b (some f) known listed shows = rw known (
  fields,
  _,
  refl,
  listed,
  Shows-later _ _ fields _ (tp_members t) (parts e)
      (Shows-later _ _ fields _ (tp_members t) (parts e) shows),
  (_, _, _, refl),
)

filled-IsShown :
    (api : Api) (e : Event) (t : TypeObject) (obj : Object) (w : World Binding)
    (r : Res Binding Pointer)
    → IsFilled obj e t w r
    → IsShown obj e t w (elim r [
      | ok a w' ↦ call_trace_handler api w'.host.members.trace_handler a w'
      | stop s w' ↦ stop s w'
    ])
filled-IsShown api e t obj w r (fields, b, ran, listed, shows, same) =
    rw (ran) (handed-IsShown api obj e t w fields b b.members.trace_handler (sym same) listed shows)

-- Whenever an instruction is traced and Python makes the object for it, each member in the table of the
-- object's type holds the object that was made for the part of the instruction of that name; the machine and
-- the output are as before; and the trace handler, if one is set, has been called last, with a tuple made
-- for that object.
pub vm_trace_compat-IsShown :
    (api : Api) (e : Event) (t : TypeObject) (obj : Object) (w : World Binding)
    → type_of e ≡ some t
    → api.object_new w.host.log t ≡ some obj
    → IsShown obj e t w (vm_trace_compat api e w)
unfolding vm_trace_compat trace_instruction ◌>>=◌
vm_trace_compat-IsShown api exec_start t obj w typed made = cc
vm_trace_compat-IsShown api exec_end t obj w typed made = cc
vm_trace_compat-IsShown api inst_rrr t obj w typed made =
    filled-IsShown api inst_rrr t obj w _ (from_bytes-IsFilled api inst_rrr t obj w typed made)
vm_trace_compat-IsShown api inst_rx t obj w typed made =
    filled-IsShown api inst_rx t obj w _ (from_bytes-IsFilled api inst_rx t obj w typed made)
vm_trace_compat-IsShown api inst_exp0 t obj w typed made =
    filled-IsShown api inst_exp0 t obj w _ (from_bytes-IsFilled api inst_exp0 t obj w typed made)
