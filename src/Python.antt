-- ===== src/Python.antt =====
-- src/sigma16module.c, the Python binding, with ENABLE_TRACE. The C API of Python is a parameter: what
-- each of its calls returns may depend on all calls before it. The calls are logged, the latest first.
pub mod Instruction
pub mod Handler
pub mod Emulator
pub mod Quiet
pub mod Traced
pub mod References
pub mod Observe
pub mod Calls
pub mod Module
pub mod Discipline
pub mod RoundTrip
pub mod Attributes
pub mod Shown
pub mod Session
use sigma16_emulator.Base.{ℕ, ◌+◌, ◌==◌, if◌then◌else◌, List, [], ◌∷◌, ◌++◌, Option, none, some}
use sigma16_emulator.Machine.{World, M, ok}

-- Where an object lies; NULL is `none`.
abbrev pub Object : Type 0
Object = ℕ

abbrev pub Pointer : Type 0
Pointer = Option Object

-- The static types of the module.
pub data TypeObject : Type 0 where
  emulator_type instruction_rrr_type instruction_rx_type instruction_exp0_type : TypeObject

-- A call into the C API: its arguments and, last, the object that it returned.
pub data Call : Type 0 where
  incref decref tp_free : Object → Call
  new_object : TypeObject → Pointer → Call
  long_from_long : ℕ → Pointer → Call
  tuple_pack : Object → Pointer → Call
  call_object : Object → Pointer → Pointer → Call
  set_from_errno return_none : Call

-- The objects that the members of an `EmulatorObject` point to.
pub record Members : Type 0 where
  pub cpu : Pointer
  pub memory : Pointer
  pub executable : Pointer
  pub trace_handler : Pointer

-- What the API returns, after the calls in the log. A callable may set the members of the emulator;
-- one that runs or initialises the same emulator again is left out.
pub record Api : Type 0 where
  pub object_new : List Call → TypeObject → Pointer
  pub py_long : List Call → ℕ → Pointer
  pub py_tuple : List Call → Object → Pointer
  pub py_call : List Call → Object → Pointer → Members → Pointer × Members
  pub as_utf8 : List Call → Object → Option (List ℕ)

-- The fields of an instruction object, as `*_FromBytes` stores them.
pub data Fields : Type 0 where
  rrr : Pointer → Pointer → Pointer → Pointer → Fields
  rx : Pointer → Pointer → Pointer → Pointer → Pointer → Fields
  exp0 : Pointer → Pointer → Pointer → Fields

-- What the binding keeps while a machine runs: the members, the log, and the instruction objects that
-- it made, the latest first.
pub record Binding : Type 0 where
  pub members : Members
  pub log : List Call
  pub instructions : List (Object × Fields)

-- How often the calls in a log have given the C code a reference to an object that is its own: a new
-- reference, or one taken by Py_INCREF.
abbrev pub gives : Object → Pointer → ℕ
gives o none = 0
gives o (some p) = if o == p then 1 else 0

abbrev pub taken_by : Object → Call → ℕ
taken_by o (incref p) = gives o (some p)
taken_by o (new_object t p) = gives o p
taken_by o (long_from_long n p) = gives o p
taken_by o (tuple_pack item p) = gives o p
taken_by o (call_object f args p) = gives o p
taken_by o _ = 0

unfoldable pub taken : Object → List Call → ℕ
taken o [] = 0
taken o (c ∷ cs) = taken_by o c + taken o cs

-- How often the C code has given a reference to an object back.
abbrev pub released_by : Object → Call → ℕ
released_by o (decref p) = gives o (some p)
released_by o _ = 0

unfoldable pub released : Object → List Call → ℕ
released o [] = 0
released o (c ∷ cs) = released_by o c + released o cs

-- Py_XDECREF
abbrev pub xdecref : Pointer → List Call → List Call
xdecref none log = log
xdecref (some o) log = decref o ∷ log

-- The state of the binding is read, and changed.
abbrev pub binding : M Binding Binding
binding w = ok w.host w

abbrev pub modify_binding : (Binding → Binding) → M Binding (Unit {0})
modify_binding f w = ok tt (record w { host = f w.host })

abbrev pub logged : Call → M Binding (Unit {0})
logged c = modify_binding (λ b. record b { log = c ∷ b.log })
