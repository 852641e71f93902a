-- ===== src/Python/Emulator.antt =====
-- src/sigma16module.c: the type `Emulator`, with `Emulator_init`, `Emulator_execute` and
-- `Emulator_dealloc`.
use sigma16_emulator.Base.{ℕ, false, if◌then◌else◌, List, [], ◌∷◌, Option, none, some}
use sigma16_emulator.Base.Int.{ℤ}
use sigma16_emulator.Machine.{Vm, World, Stop, halted, bad_opcode, exited, aborted, undefined}
use sigma16_emulator.Exec.{sigma16_vm_exec}
use sigma16_emulator.Exec.Observe.{world}
use sigma16_emulator.Init.{Os, Held, InitResult, ready, failed, overrun, sigma16_vm_init}
use sigma16_emulator.Python.{
  Object, Pointer, Call, incref, tp_free, set_from_errno, return_none, Members, Api, Binding,
  xdecref,
}
use sigma16_emulator.Python.Handler.{vm_trace_compat}

-- What the member `vm` of an `EmulatorObject` points to: nothing; a block without a memory and without a
-- trace handler; a block that has been freed; or a machine.
pub data Slot : Type 0 where
  null_vm bare_vm freed_vm : Slot
  live : Vm → Slot

-- With the bytes that have been written to `stdout`.
pub record EmulatorObject : Type 0 where
  pub binding : Binding
  pub slot : Slot
  pub stdout : List ℕ

-- A call of `Emulator_init` or `Emulator_execute`: what it returned, and the emulator then; or an
-- operation that C leaves undefined.
pub data Outcome (A : Type 0) : Type 0 where
  returned : A → EmulatorObject → Outcome A
  crashed : Outcome A

-- PyType_GenericNew clears the object.
abbrev pub generic_new : EmulatorObject
generic_new = record {
  binding = record {
    members = record { cpu = none; memory = none; executable = none; trace_handler = none };
    log = [];
    instructions = [];
  };
  slot = null_vm;
  stdout = [];
}

abbrev pub set_executable : Pointer → Binding → Binding
set_executable none b = b
set_executable (some o) b = record b {
  members = record (b.members) { executable = some o };
  log = xdecref b.members.executable (incref o ∷ b.log);
}

abbrev pub set_trace_handler : Pointer → Binding → Binding
set_trace_handler none b = b
set_trace_handler (some o) b = record b {
  members = record (b.members) { trace_handler = some o };
  log = xdecref b.members.trace_handler (incref o ∷ b.log);
}

-- `sigma16_vm_init(&self->vm, …)`: where it fails, `self->vm` has been assigned all the same. A file
-- name that is NULL is read by `fopen`, after `calloc`.
abbrev pub slot_of : Held → Slot
slot_of held = if held.vm_block then bare_vm else if held.file_handle then freed_vm else null_vm

-- PyErr_SetFromErrno returns NULL, which becomes the `int` 0.
unfoldable pub with_machine : EmulatorObject → InitResult → Outcome ℤ
with_machine self (ready vm held) = returned (ℤ.pos 0) (record self { slot = live vm })
with_machine self (failed held) = returned (ℤ.pos 0) (record self {
  binding = record (self.binding) { log = set_from_errno ∷ self.binding.log };
  slot = slot_of held;
})
with_machine self overrun = crashed

unfoldable pub init_machine : Os → Option (List ℕ) → InitResult
unfolding sigma16_vm_init
init_machine os none =
    if os.calloc_ok
    then overrun
    else failed (record { vm_block = false; file_handle = false; mapping = false })
init_machine os (some fname) = sigma16_vm_init os fname

-- PyUnicode_AsUTF8 does not take NULL.
unfoldable pub load_executable : Api → Os → Pointer → EmulatorObject → Outcome ℤ
unfolding with_machine init_machine
load_executable api os none self = crashed
load_executable api os (some o) self =
    with_machine self (init_machine os (api.as_utf8 self.binding.log o))

-- `Emulator_init`, with what PyArg_ParseTupleAndKeywords makes of its arguments.
unfoldable pub emulator_init : Api → Os → Option (Pointer × Pointer) → EmulatorObject → Outcome ℤ
unfolding load_executable
emulator_init api os none self = returned (ℤ.negsuc 0) self
emulator_init api os (some (executable, trace_handler)) self =
    load_executable api os executable (record self {
      binding = set_trace_handler trace_handler (set_executable executable self.binding);
    })

-- The result of `Emulator_execute`: None, or NULL with an exception.
pub data Executed : Type 0 where
  py_none raised : Executed

-- `exited` and `aborted` are ends that only the debugger brings, which is not compiled in.
unfoldable pub after_vm_exec : Stop → World Binding → Outcome Executed
after_vm_exec halted w = returned py_none (record {
  binding = record (w.host) { log = return_none ∷ w.host.log };
  slot = live w.vm;
  stdout = w.out;
})
after_vm_exec (bad_opcode pc) w = returned raised (record {
  binding = record (w.host) { log = set_from_errno ∷ w.host.log };
  slot = live w.vm;
  stdout = w.out;
})
after_vm_exec exited w = crashed
after_vm_exec aborted w = crashed
after_vm_exec undefined w = crashed

abbrev pub after_run : Option (Stop × World Binding) → Option (Outcome Executed)
after_run none = none
after_run (some (s, w)) = some (after_vm_exec s w)

-- `sigma16_vm_exec` reads the trace handler of the machine first. `none` means that it is still
-- running after `fuel` rounds.
unfoldable pub execute_slot : Api → ℕ → Slot → EmulatorObject → Option (Outcome Executed)
unfolding sigma16_vm_exec vm_trace_compat after_vm_exec
execute_slot api fuel (live vm) self =
    after_run (sigma16_vm_exec (vm_trace_compat api) fuel (world vm self.stdout self.binding))
execute_slot api fuel null_vm self = some crashed
execute_slot api fuel bare_vm self = some crashed
execute_slot api fuel freed_vm self = some crashed

unfoldable pub emulator_execute : Api → ℕ → EmulatorObject → Option (Outcome Executed)
unfolding execute_slot
emulator_execute api fuel self = execute_slot api fuel self.slot self

-- The calls of `Emulator_dealloc`. The machine and the trace handler are left.
unfoldable pub emulator_dealloc : Object → Members → List Call → List Call
emulator_dealloc self m log =
    tp_free self ∷ xdecref m.executable (xdecref m.memory (xdecref m.cpu log))
