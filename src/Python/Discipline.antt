-- ===== src/Python/Discipline.antt =====
-- The references that an `EmulatorObject` of src/sigma16module.c holds, and what `Emulator_init` reports.
use sigma16_emulator.Base.{ℕ, ◌+◌, ◌≡◌, refl, ◌↔◌, arith, inl, inr, List, ◌∷◌, Option, none, some}
use sigma16_emulator.Base.Cases.{Bool-cases}
use sigma16_emulator.Base.Int.{ℤ}
use sigma16_emulator.Init.{Os, Held, InitResult, ready, failed, overrun}
use sigma16_emulator.Python.{
  Object, Pointer, Call, incref, tp_free, set_from_errno, Members, Api, Binding, gives, taken,
  released, xdecref,
}
use sigma16_emulator.Python.Emulator.{
  EmulatorObject, Outcome, returned, crashed, set_executable, set_trace_handler, slot_of,
  with_machine, init_machine, load_executable, emulator_init, execute_slot, emulator_execute,
  emulator_dealloc,
}

tp_free-counts :
    (self o : Object) (log : List Call)
    → (taken o (tp_free self ∷ log) ≡ taken o log)
      × (released o (tp_free self ∷ log) ≡ released o log)
unfolding taken released
tp_free-counts self o log = omega arith

slot_of-crashes :
    (api : Api) (fuel : ℕ) (held : Held) (self : EmulatorObject)
    → execute_slot api fuel (slot_of held) self ≡ some crashed
unfolding execute_slot
slot_of-crashes api fuel held self = elim (Bool-cases held.vm_block) [
  | inl bare ↦ rw (bare, execute_slot)
  | inr no_block ↦ elim (Bool-cases held.file_handle) [
    | inl freed ↦ rw (no_block, freed, execute_slot)
    | inr null ↦ rw (no_block, null, execute_slot)
  ]
]

-- How many of the members point to an object.
abbrev pub held_by : Object → Members → ℕ
held_by o m = gives o m.cpu + gives o m.memory + gives o m.executable + gives o m.trace_handler

-- The references taken and not given back are those that the members stand for.
abbrev pub IsBalanced : Binding → Type 0
IsBalanced b = (o : Object) → taken o b.log ≡ released o b.log + held_by o b.members

pub xdecref-taken :
    (o : Object) (p : Pointer) (log : List Call) → taken o (xdecref p log) ≡ taken o log
unfolding taken
xdecref-taken o none log = refl
xdecref-taken o (some q) log = omega arith

pub xdecref-released :
    (o : Object) (p : Pointer) (log : List Call)
    → released o (xdecref p log) ≡ released o log + gives o p
unfolding released
xdecref-released o none log = omega arith
xdecref-released o (some q) log = omega arith

taken-incref :
    (o p : Object) (log : List Call) → taken o (incref p ∷ log) ≡ taken o log + gives o (some p)
unfolding taken
taken-incref o p log = omega arith

released-incref : (o p : Object) (log : List Call) → released o (incref p ∷ log) ≡ released o log
unfolding released
released-incref o p log = omega arith

set_executable-IsBalanced :
    (p : Pointer) (b : Binding) → IsBalanced b → IsBalanced (set_executable p b)
set_executable-IsBalanced none b h = h
set_executable-IsBalanced (some q) b h = λ o. omega (
  arith,
  h o,
  xdecref-taken o b.members.executable (incref q ∷ b.log),
  xdecref-released o b.members.executable (incref q ∷ b.log),
  taken-incref o q b.log,
  released-incref o q b.log,
)

set_trace_handler-IsBalanced :
    (p : Pointer) (b : Binding) → IsBalanced b → IsBalanced (set_trace_handler p b)
set_trace_handler-IsBalanced none b h = h
set_trace_handler-IsBalanced (some q) b h = λ o. omega (
  arith,
  h o,
  xdecref-taken o b.members.trace_handler (incref q ∷ b.log),
  xdecref-released o b.members.trace_handler (incref q ∷ b.log),
  taken-incref o q b.log,
  released-incref o q b.log,
)

-- What an outcome says of the emulator, if the call returned.
abbrev pub Returning : {A : Type 0} → (A → EmulatorObject → Type 0) → Outcome A → Type 0
Returning P (returned a self) = P a self
Returning P crashed = Unit

Returning-mono :
    {A : Type 0} {P Q : A → EmulatorObject → Type 0} (r : Outcome A)
    → ((a : A) (self : EmulatorObject) → P a self → Q a self)
    → Returning P r
    → Returning Q r
Returning-mono (returned a self) weaken p = weaken a self p
Returning-mono crashed weaken p = tt

with_machine-IsBalanced :
    (self : EmulatorObject) (r : InitResult)
    → IsBalanced self.binding
    → Returning
        (λ status self'. (status ≡ ℤ.pos 0) × IsBalanced self'.binding)
        (with_machine self r)
unfolding with_machine taken released
with_machine-IsBalanced self (ready vm held) h = (refl, h)
with_machine-IsBalanced self (failed held) h = (refl, λ o. omega (arith, h o))
with_machine-IsBalanced self overrun h = tt

load_executable-IsBalanced :
    (api : Api) (os : Os) (p : Pointer) (self : EmulatorObject)
    → IsBalanced self.binding
    → Returning
        (λ status self'. (status ≡ ℤ.pos 0) × IsBalanced self'.binding)
        (load_executable api os p self)
unfolding load_executable
load_executable-IsBalanced api os none self h = tt
load_executable-IsBalanced api os (some o) self h =
    with_machine-IsBalanced self (init_machine os (api.as_utf8 self.binding.log o)) h

-- Where the references of the emulator are balanced and `__init__` returns, they are balanced again, also
-- when members are replaced; and the status is -1 exactly when the arguments do not parse, so that a
-- machine that could not be made is reported as success.
pub emulator_init-IsBalanced :
    (api : Api) (os : Os) (args : Option (Pointer × Pointer)) (self : EmulatorObject)
    → IsBalanced self.binding
    → Returning
        (λ status self'. ((status ≡ ℤ.negsuc 0) ↔ (args ≡ none)) × IsBalanced self'.binding)
        (emulator_init api os args self)
unfolding emulator_init
emulator_init-IsBalanced api os none self h = ((λ _. refl, λ _. refl), h)
emulator_init-IsBalanced api os (some (executable, trace_handler)) self h =
    let set : Binding = set_trace_handler trace_handler (set_executable executable self.binding) in
    let balanced : IsBalanced set =
      set_trace_handler-IsBalanced trace_handler _
        (set_executable-IsBalanced executable self.binding h) in
    Returning-mono (load_executable api os executable (record self { binding = set }))
      (λ status self' p. ((λ e. cc (p.0), λ e. cc), p.1))
      (load_executable-IsBalanced api os executable (record self { binding = set }) balanced)

-- When an emulator whose references are balanced is freed, the reference to its trace handler is kept:
-- all others have been given back, to every object.
pub emulator_dealloc-keeps :
    (self : Object) (b : Binding) (o : Object)
    → IsBalanced b
    → taken o (emulator_dealloc self b.members b.log)
      ≡ released o (emulator_dealloc self b.members b.log) + gives o b.members.trace_handler
unfolding emulator_dealloc
emulator_dealloc-keeps self b o h =
    let log₁ : List Call = xdecref b.members.cpu b.log in
    let log₂ : List Call = xdecref b.members.memory log₁ in
    let log₃ : List Call = xdecref b.members.executable log₂ in
    omega (
      arith,
      h o,
      tp_free-counts self o log₃,
      xdecref-taken o b.members.cpu b.log,
      xdecref-taken o b.members.memory log₁,
      xdecref-taken o b.members.executable log₂,
      xdecref-released o b.members.cpu b.log,
      xdecref-released o b.members.memory log₁,
      xdecref-released o b.members.executable log₂,
    )

-- Where the arguments parse but the machine cannot be made, `__init__` returns 0 all the same, and
-- `execute` on the emulator then does what C leaves undefined.
pub emulator_init-failed :
    (api : Api) (os : Os) (executable : Object) (trace_handler : Pointer) (self : EmulatorObject)
    (held : Held)
    → init_machine os (
        api.as_utf8
          (set_trace_handler trace_handler (set_executable (some executable) self.binding)).log
          executable)
      ≡ failed held
    → (self' : EmulatorObject) × (emulator_init api os (some (some executable, trace_handler)) self
        ≡ returned (ℤ.pos 0) self')
      × ((fuel : ℕ) → emulator_execute api fuel self' ≡ some crashed)
unfolding emulator_init load_executable with_machine emulator_execute
emulator_init-failed api os executable trace_handler self held e =
    let set : Binding =
      set_trace_handler trace_handler (set_executable (some executable) self.binding) in
    let self' : EmulatorObject = record {
      binding = record set { log = set_from_errno ∷ set.log };
      slot = slot_of held;
      stdout = self.stdout;
    } in
    (self', rw (e, with_machine) refl, λ fuel. slot_of-crashes api fuel held self')
