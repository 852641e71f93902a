-- ===== src/Python/Session.antt =====
-- `Emulator_init` of src/sigma16module.c with a file that can be loaded, and then `Emulator_execute`.
use sigma16_emulator.Base.{ℕ, ◌≡◌, refl, ap, List, some}
use sigma16_emulator.Base.Int.{ℤ}
use sigma16_emulator.Machine.{Vm}
use sigma16_emulator.Exec.Observe.{world}
use sigma16_emulator.Init.{Os, zero_cpu, load_words}
use sigma16_emulator.Init.Image.{IsBytes, booted-IsMachine, Loads, ready-sigma16_vm_init}
use sigma16_emulator.Isa.{State, view}
use sigma16_emulator.Isa.Runs.{isa_run}
use sigma16_emulator.Main.Build.{isa_boot, view-booted}
use sigma16_emulator.Python.{Object, Pointer, Api, Binding}
use sigma16_emulator.Python.Traced.{IsShort}
use sigma16_emulator.Python.Emulator.{
  live, EmulatorObject, returned, set_executable, set_trace_handler, init_machine, load_executable,
  emulator_init, with_machine, emulator_execute,
}
use sigma16_emulator.Python.Calls.{Mirrors, emulator_execute-isa_run}

-- The binding when the arguments of `Emulator_init` are stored.
abbrev pub stored : Object → Pointer → EmulatorObject → Binding
stored executable trace_handler self =
    set_trace_handler trace_handler (set_executable (some executable) self.binding)

abbrev fresh_vm : List ℕ → Vm
fresh_vm bytes = record { cpu = zero_cpu; mem = load_words bytes }

-- Where Python gives the file name as a string and the file is bytes that can be loaded, `__init__` returns 0,
-- and `execute` is then a run of the instruction set from the bytes of the file, whatever the emulator
-- object was before: for every bound on the rounds both go on; or that halts and `execute` returns None, or
-- that meets an invalid operation and `execute` raises, with the same registers, program counter and memory
-- then; or both meet what is undefined, or `execute` does because Python was short of memory.
pub emulator_init-emulator_execute :
    (api : Api) (os : Os) (executable : Object) (trace_handler : Pointer) (self : EmulatorObject)
    (name bytes : List ℕ) (fuel : ℕ)
    → api.as_utf8 (stored executable trace_handler self).log executable ≡ some name
    → Loads os name (fresh_vm bytes) bytes
    → IsBytes bytes
    → (self' : EmulatorObject) × (emulator_init api os (some (some executable, trace_handler)) self
        ≡ returned (ℤ.pos 0) self')
      × Mirrors
          (IsShort api)
          (emulator_execute api fuel self')
          (isa_run fuel (record (isa_boot bytes) { out = self.stdout }))
unfolding emulator_init load_executable with_machine init_machine
emulator_init-emulator_execute api os executable trace_handler self name bytes fuel named loads
      fits =
    let b : Binding = stored executable trace_handler self in
    let self' : EmulatorObject = record {
      binding = b;
      slot = live (fresh_vm bytes);
      stdout = self.stdout;
    } in
    let i = booted-IsMachine bytes b fits in
    let seen : view (world (fresh_vm bytes) self.stdout b)
        ≡ record (isa_boot bytes) { out = self.stdout } =
      ap (λ (s : State). record s { out = self.stdout }) (view-booted bytes b fits) in
    (
      self',
      rw (named, ready-sigma16_vm_init os name (fresh_vm bytes) bytes loads) refl,
      rw (← seen) (
          emulator_execute-isa_run api fuel self' (fresh_vm bytes) refl
            (record { cpu_fits = i.cpu_fits; mem_fits = i.mem_fits })),
    )
