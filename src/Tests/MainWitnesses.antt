-- ===== src/Tests/MainWitnesses.antt =====
-- The theorems on src/main.c at concrete inputs.
use sigma16_emulator.Base.{◌≡◌, refl, arith, true, [], ◌∷◌}
use sigma16_emulator.Main.{Config, Session, main_process}
use sigma16_emulator.Main.Build.{bare, isa_boot, ending, main_process-isa_run}
use sigma16_emulator.Isa.Runs.{isa_run}
use sigma16_emulator.Main.Build.{IsPatient, ExitsAlike, main_process-debugger}
use sigma16_emulator.Main.{Config, Session}
use sigma16_emulator.Debugger.Command.{Cmd}
use sigma16_emulator.Debugger.RoundTrip.{answer, parse_cmd-typed}
use sigma16_emulator.Tests.Programs.{fib_image}
use sigma16_emulator.Tests.Witnesses.{one_file, fib_image-IsBytes}

abbrev session : Session
session = record { malloc_ok = true; stale_events = 3; typed = [] }

-- The switches of the source as it stands.
abbrev default_build : Config
default_build = record (bare) { enable_debugger = true; enable_trace = true }

main_process-isa_run_example :
    main_process bare session one_file 80 ((97 ∷ []) ∷ [])
    ≡ ending (isa_run 80 (isa_boot fib_image))
main_process-isa_run_example =
    main_process-isa_run session one_file 80 (97 ∷ []) [] fib_image
      (refl, refl, refl, omega arith, refl) fib_image-IsBytes

-- A user who goes on at the start and at the end.
abbrev patient : Session
patient = record {
  malloc_ok = true;
  stale_events = 7;
  typed = answer true Cmd.go_on ∷ answer true Cmd.go_on ∷ [];
}

patient-IsPatient : IsPatient patient
patient-IsPatient = (
  refl,
  ((refl, parse_cmd-typed true Cmd.go_on tt), ((refl, parse_cmd-typed true Cmd.go_on tt), tt)),
)

main_process-debugger_example :
    ExitsAlike
      (main_process default_build patient one_file 80 ((97 ∷ []) ∷ []))
      (ending (isa_run 80 (isa_boot fib_image)))
main_process-debugger_example =
    main_process-debugger default_build patient one_file 80 (97 ∷ []) [] fib_image refl
      patient-IsPatient (refl, refl, refl, omega arith, refl) fib_image-IsBytes
