-- ===== src/Tests/PythonWitnesses.antt =====
-- The theorems on src/sigma16module.c at concrete inputs.
use sigma16_emulator.Base.{
  ℕ, ◌+◌, ◌*◌, ◌≡◌, refl, arith, ◌↔◌, [], ◌∷◌, Option, none, some, if◌then◌else◌, true,
}
use sigma16_emulator.Base.Int.{ℤ}
use sigma16_emulator.Machine.{World, inst_rrr, silent}
use sigma16_emulator.Exec.{sigma16_vm_exec}
use sigma16_emulator.Exec.Observe.Runs.{AlikeRuns}
use sigma16_emulator.Init.{failed}
use sigma16_emulator.Init.Image.{booted, booted-IsMachine}
use sigma16_emulator.Isa.{view}
use sigma16_emulator.Isa.Runs.{isa_run}
use sigma16_emulator.Python.{
  incref, Pointer, Api, Binding, instruction_rrr_type, emulator_type, taken, released, gives,
}
use sigma16_emulator.Python.Handler.{vm_trace_compat}
use sigma16_emulator.Python.Traced.{IsShort}
use sigma16_emulator.Python.References.{TakesTwice, vm_trace_compat-TakesTwice}
use sigma16_emulator.Python.Observe.{sigma16_vm_exec-vm_trace_compat}
use sigma16_emulator.Python.Emulator.{
  live, EmulatorObject, generic_new, returned, crashed, emulator_init, emulator_execute,
  emulator_dealloc, init_machine,
}
use sigma16_emulator.Python.Calls.{Mirrors, emulator_execute-isa_run}
use sigma16_emulator.Python.Discipline.{
  IsBalanced, Returning, emulator_init-IsBalanced, emulator_dealloc-keeps, emulator_init-failed,
}
use sigma16_emulator.Python.RoundTrip.{IsMade, from_bytes, from_bytes-instruction_dealloc}
use sigma16_emulator.Python.Session.{emulator_init-emulator_execute}
use sigma16_emulator.Main.Build.{isa_boot}
use sigma16_emulator.Python.Shown.{IsShown, vm_trace_compat-IsShown}
use sigma16_emulator.Python.Module.{
  ModuleApi, increfs, decrefs, stolen, one, same_type, py_init_sigma16, py_init_sigma16-references,
}
use sigma16_emulator.Tests.Programs.{fib_image}
use sigma16_emulator.Tests.Witnesses.{fib_image-IsBytes, one_file, no_file, leaked}

-- A Python where every call succeeds, and where the file name has one byte.
abbrev python_named : ℕ → Api
python_named name = record {
  object_new = λ log t. some 100;
  py_long = λ log n. some (1000 + n);
  py_tuple = λ log item. some 50;
  py_call = λ log f args members. (some 60, members);
  as_utf8 = λ log o. some (name ∷ []);
}

abbrev python : Api
python = python_named 97

abbrev handed : Option (Pointer × Pointer)
handed = some (some 7, some 8)

-- An emulator that holds its file name, the object 7, and its trace handler, the object 8.
abbrev fib_emulator : EmulatorObject
fib_emulator = record {
  binding = record {
    members = record { cpu = none; memory = none; executable = some 7; trace_handler = some 8 };
    log = [];
    instructions = [];
  };
  slot = live (booted fib_image tt).vm;
  stdout = [];
}

abbrev python_world : World Binding
python_world = booted fib_image fib_emulator.binding

generic_new-IsBalanced : IsBalanced generic_new.binding
unfolding taken released
generic_new-IsBalanced o = refl

vm_trace_compat-TakesTwice_example :
    TakesTwice 100 python_world (vm_trace_compat python inst_rrr python_world)
vm_trace_compat-TakesTwice_example =
    vm_trace_compat-TakesTwice python inst_rrr instruction_rrr_type 100 python_world refl refl

sigma16_vm_exec-vm_trace_compat_example :
    AlikeRuns
      (IsShort python)
      (sigma16_vm_exec (vm_trace_compat python) 80 python_world)
      (sigma16_vm_exec silent 80 python_world)
sigma16_vm_exec-vm_trace_compat_example = sigma16_vm_exec-vm_trace_compat python 80 python_world

emulator_execute-isa_run_example :
    Mirrors
      (IsShort python)
      (emulator_execute python 80 fib_emulator)
      (isa_run 80 (view python_world))
emulator_execute-isa_run_example =
    emulator_execute-isa_run python 80 fib_emulator (booted fib_image tt).vm refl
      (booted-IsMachine fib_image fib_emulator.binding fib_image-IsBytes)

emulator_init-IsBalanced_example :
    Returning
      (λ status self. ((status ≡ ℤ.negsuc 0) ↔ (handed ≡ none)) × IsBalanced self.binding)
      (emulator_init python one_file handed generic_new)
emulator_init-IsBalanced_example =
    emulator_init-IsBalanced python one_file handed generic_new generic_new-IsBalanced

-- The references that an emulator with the trace handler 8 has taken.
abbrev held_binding : Binding
held_binding = record (generic_new.binding) {
  members = record { cpu = none; memory = none; executable = none; trace_handler = some 8 };
  log = incref 8 ∷ [];
}

held_binding-IsBalanced : IsBalanced held_binding
unfolding taken released
held_binding-IsBalanced o = omega arith

emulator_dealloc-keeps_example :
    taken 8 (emulator_dealloc 9 held_binding.members held_binding.log)
    ≡ released 8 (emulator_dealloc 9 held_binding.members held_binding.log)
      + gives 8 held_binding.members.trace_handler
emulator_dealloc-keeps_example = emulator_dealloc-keeps 9 held_binding 8 held_binding-IsBalanced

name_missing : init_machine one_file (some (98 ∷ [])) ≡ failed leaked
unfolding init_machine
name_missing = no_file

emulator_init-failed_example :
    (self' : EmulatorObject) × (emulator_init
        (python_named 98)
        one_file
        (some (some 7, none))
        generic_new
      ≡ returned (ℤ.pos 0) self')
    × ((fuel : ℕ) → emulator_execute (python_named 98) fuel self' ≡ some crashed)
emulator_init-failed_example =
    emulator_init-failed (python_named 98) one_file 7 none generic_new leaked name_missing

-- The second type cannot be added.
abbrev second_fails : ModuleApi
second_fails = record {
  ready_ok = λ t. true;
  create_ok = true;
  add_ok = λ t. same_type t emulator_type;
}

py_init_sigma16-references_example :
    let (loaded, log) = py_init_sigma16 second_fails in
    decrefs emulator_type log + stolen emulator_type log
    ≡ increfs emulator_type log
      + (if loaded
          then 0
          else one (same_type emulator_type emulator_type) * stolen emulator_type log)
py_init_sigma16-references_example = py_init_sigma16-references second_fails emulator_type

from_bytes-instruction_dealloc_example :
    IsMade 100 python_world (from_bytes python inst_rrr python_world.vm.cpu.ir python_world)
from_bytes-instruction_dealloc_example =
    from_bytes-instruction_dealloc python inst_rrr instruction_rrr_type python_world.vm.cpu.ir 100
      python_world refl refl

emulator_init-emulator_execute_example :
    (self' : EmulatorObject) × (emulator_init python one_file handed generic_new
      ≡ returned (ℤ.pos 0) self')
    × Mirrors
        (IsShort python)
        (emulator_execute python 80 self')
        (isa_run 80 (record (isa_boot fib_image) { out = [] }))
emulator_init-emulator_execute_example =
    emulator_init-emulator_execute python one_file 7 (some 8) generic_new (97 ∷ []) fib_image 80
      refl (refl, refl, refl, omega arith, refl) fib_image-IsBytes

vm_trace_compat-IsShown_example :
    IsShown 100 inst_rrr instruction_rrr_type python_world
      (vm_trace_compat python inst_rrr python_world)
vm_trace_compat-IsShown_example =
    vm_trace_compat-IsShown python inst_rrr instruction_rrr_type 100 python_world refl refl
