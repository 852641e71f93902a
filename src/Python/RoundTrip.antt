-- ===== src/Python/RoundTrip.antt =====
-- `*_FromBytes` and `*_dealloc` of src/sigma16module.c, one after the other.
use sigma16_emulator.Base.{ℕ, ◌+◌, ◌*◌, ◌≡◌, refl, arith, List, ◌∷◌, none, some}
use sigma16_emulator.Cpu.{Ir}
use sigma16_emulator.Machine.{
  World, Event, exec_start, exec_end, inst_rrr, inst_rx, inst_exp0, M, Res, ok, ret, ◌>>=◌, ◌>>◌,
}
use sigma16_emulator.Exec.Observe.{world}
use sigma16_emulator.Python.{
  rrr, rx, exp0, Object, Pointer, Call, TypeObject, Api, Fields, Binding, gives, taken, released,
  instruction_rrr_type, instruction_rx_type, instruction_exp0_type,
}
use sigma16_emulator.Python.Instruction.{
  instruction_rrr_from_bytes, instruction_rx_from_bytes, instruction_exp0_from_bytes,
  instruction_dealloc, instruction_rrr_dealloc, instruction_rx_dealloc, instruction_exp0_dealloc,
}
use sigma16_emulator.Python.Discipline.{xdecref-taken, xdecref-released}
use sigma16_emulator.Python.Traced.{type_of}

-- How many of the fields point to an object.
abbrev pub stored_in : Object → Fields → ℕ
stored_in o (rrr d op sb sa) = gives o d + gives o op + gives o sb + gives o sa
stored_in o (rx d op sb sa disp) = gives o d + gives o op + gives o sb + gives o sa + gives o disp
stored_in o (exp0 d op ab) = gives o d + gives o op + gives o ab

instruction_dealloc-taken :
    (o self : Object) (fields : Fields) (log : List Call)
    → taken o (instruction_dealloc self fields log) ≡ taken o log
unfolding instruction_dealloc instruction_rrr_dealloc instruction_rx_dealloc
    instruction_exp0_dealloc taken
instruction_dealloc-taken o self (rrr d op sb sa) log = simp (xdecref-taken o) (omega arith)
instruction_dealloc-taken o self (rx d op sb sa disp) log = simp (xdecref-taken o) (omega arith)
instruction_dealloc-taken o self (exp0 d op ab) log = simp (xdecref-taken o) (omega arith)

instruction_dealloc-released :
    (o self : Object) (fields : Fields) (log : List Call)
    → released o (instruction_dealloc self fields log) ≡ released o log + stored_in o fields
unfolding instruction_dealloc instruction_rrr_dealloc instruction_rx_dealloc
    instruction_exp0_dealloc released
instruction_dealloc-released o self (rrr d op sb sa) log = simp (xdecref-released o) (omega arith)
instruction_dealloc-released o self (rx d op sb sa disp) log =
    simp (xdecref-released o) (omega arith)
instruction_dealloc-released o self (exp0 d op ab) log = simp (xdecref-released o) (omega arith)

-- The calls that make and unmake an object, by what they do to the number of references to `o` that
-- are taken and not given back.
abbrev pub Nets : Object → ℕ → List Call → List Call → Type 0
Nets o k log log' = taken o log' + released o log ≡ released o log' + taken o log + k

unmade-Nets :
    (o obj : Object) (fields : Fields) (k : ℕ) (log log' : List Call)
    → taken o log' + released o log ≡ released o log' + taken o log + (stored_in o fields + k)
    → Nets o k log (instruction_dealloc obj fields log')
unmade-Nets o obj fields k log log' h = omega (
  arith,
  h,
  instruction_dealloc-taken o obj fields log',
  instruction_dealloc-released o obj fields log',
)

-- The object `obj` has been made, and filled so that unmaking it leaves two references to it and none
-- to any other object that making it took.
abbrev pub IsMade : Object → World Binding → Res Binding Pointer → Type 0
IsMade obj w r =
    (fields : Fields) × (b : Binding) × (r ≡ ok (some obj) (world w.vm w.out b))
    × (b.instructions ≡ (obj, fields) ∷ w.host.instructions)
    × ((o : Object)
        → Nets o (2 * gives o (some obj)) w.host.log (instruction_dealloc obj fields b.log))

-- What the `switch` of `vm_trace_compat` calls.
abbrev pub from_bytes : Api → Event → Ir → M Binding Pointer
from_bytes api inst_rrr ir = instruction_rrr_from_bytes api ir
from_bytes api inst_rx ir = instruction_rx_from_bytes api ir
from_bytes api inst_exp0 ir = instruction_exp0_from_bytes api ir
from_bytes api _ ir = ret none

-- Where Python makes the object for an instruction event, its deallocator gives back every reference that
-- was taken to make and fill it, but for the two references to the object itself.
pub from_bytes-instruction_dealloc :
    (api : Api) (e : Event) (t : TypeObject) (ir : Ir) (obj : Object) (w : World Binding)
    → type_of e ≡ some t
    → api.object_new w.host.log t ≡ some obj
    → IsMade obj w (from_bytes api e ir w)
unfolding instruction_rrr_from_bytes instruction_rx_from_bytes instruction_exp0_from_bytes ◌>>=◌
    ◌>>◌ taken released
from_bytes-instruction_dealloc api exec_start t ir obj w typed made = cc
from_bytes-instruction_dealloc api exec_end t ir obj w typed made = cc
from_bytes-instruction_dealloc api inst_rrr t ir obj w typed made =
    let here : api.object_new w.host.log instruction_rrr_type ≡ some obj = cc in
    rw (here) (_, _, refl, refl, λ o. unmade-Nets o obj _ _ _ _ (omega arith))
from_bytes-instruction_dealloc api inst_rx t ir obj w typed made =
    let here : api.object_new w.host.log instruction_rx_type ≡ some obj = cc in
    rw (here) (_, _, refl, refl, λ o. unmade-Nets o obj _ _ _ _ (omega arith))
from_bytes-instruction_dealloc api inst_exp0 t ir obj w typed made =
    let here : api.object_new w.host.log instruction_exp0_type ≡ some obj = cc in
    rw (here) (_, _, refl, refl, λ o. unmade-Nets o obj _ _ _ _ (omega arith))
