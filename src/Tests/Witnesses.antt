-- ===== src/Tests/Witnesses.antt =====
-- The theorems on src/vm.c and src/tracing.c at concrete inputs.
use sigma16_emulator.Base.{
  ℕ, ◌≡◌, refl, arith, true, false, List, [], ◌∷◌, none, some, get_or, bswap_16, ◌↔◌, ◌++◌, ◌==◌,
  if◌then◌else◌,
}
use sigma16_emulator.Machine.{World, halted, undefined, Event, silent, stop_of, ok, ◌>>◌}
use sigma16_emulator.Memory.{read_mem, write_mem}
use sigma16_emulator.Memory.Laws.{stored, read_mem-write_mem}
use sigma16_emulator.Exec.{step, exec_loop, sigma16_vm_exec}
use sigma16_emulator.Exec.Keeps.{Keeps-ret}
use sigma16_emulator.Exec.Invariant.{IsMachine, Preserves}
use sigma16_emulator.Exec.Invariant.Handlers.{step-Preserves}
use sigma16_emulator.Exec.Trap.{trap_write_loop}
use sigma16_emulator.Exec.Output.{low_bytes, trap_write_loop-low_bytes}
use sigma16_emulator.Exec.Runs.{sigma16_vm_exec-IsMachine}
use sigma16_emulator.Exec.Alu.{do_nop}
use sigma16_emulator.Isa.{isa_step, view, outcome}
use sigma16_emulator.Isa.Refine.{step-isa_step}
use sigma16_emulator.Isa.Runs.{isa_run, final, sigma16_vm_exec-isa_run}
use sigma16_emulator.Init.{Os, Held, failed, ready, sigma16_vm_init}
use sigma16_emulator.Init.Image.{
  all_bytes-IsBytes, IsBytes, booted, booted-IsMachine, read_mem-booted, Loads, sigma16_vm_init_iff,
}
use sigma16_emulator.Trace.{sigma16_trace}
use sigma16_emulator.Trace.Laws.{do_nop-undefined}
use sigma16_emulator.Exec.Observe.Runs.{AlikeRuns}
use sigma16_emulator.Trace.Observe.{sigma16_vm_exec-sigma16_trace}
use sigma16_emulator.Cpu.{equal}
use sigma16_emulator.Exec.Ops.{select_bit, clear_flags}
use sigma16_emulator.Exec.Alu.{cmp_flags}
use sigma16_emulator.Exec.Compare.{says, select_bit-cmp_flags}
use sigma16_emulator.Isa.Halting.{sigma16_vm_exec_again}
use sigma16_emulator.Fibonacci.{fib_program, fib}
use sigma16_emulator.Fibonacci.Halts.{sigma16_vm_exec-fib}
use sigma16_emulator.Init.Leaks.{left_by, is_opened, sigma16_vm_init-leaks}
use sigma16_emulator.Trace.Dump.{dump_vm_mem}
use sigma16_emulator.Trace.Rows.{written, lead, rows, dump_vm_mem-rows}
use sigma16_emulator.Isa.Outside.{Oversteps, sigma16_vm_exec-Oversteps}
use sigma16_emulator.Base.{◌+◌, ◌*◌, ◌%◌, ◌^◌, not, ap, ltb, ◌&&◌, replicate}
use sigma16_emulator.Tests.Programs.{fib_image, fib_world, halt_image, halt_world, world_of}

pub fib_image-IsBytes : IsBytes fib_image
fib_image-IsBytes = all_bytes-IsBytes fib_image refl

halt_image-IsBytes : IsBytes halt_image
halt_image-IsBytes = all_bytes-IsBytes halt_image refl

fib_world-IsMachine : IsMachine fib_world
fib_world-IsMachine = booted-IsMachine fib_image tt fib_image-IsBytes

halt_world-IsMachine : IsMachine halt_world
halt_world-IsMachine = booted-IsMachine halt_image tt halt_image-IsBytes

silent_keeps : (e : Event) → Preserves (silent {H = Unit {0}} e)
silent_keeps e = Keeps-ret tt tt

step-isa_step_example : outcome (step silent fib_world) ≡ isa_step (view fib_world)
step-isa_step_example = step-isa_step fib_world fib_world-IsMachine.mem_fits

sigma16_vm_exec-isa_run_example :
    final (sigma16_vm_exec silent 80 fib_world) ≡ isa_run 80 (view fib_world)
sigma16_vm_exec-isa_run_example = sigma16_vm_exec-isa_run 80 fib_world fib_world-IsMachine

step-Preserves_example : Preserves {H = Unit {0}} (step silent)
step-Preserves_example = step-Preserves silent silent_keeps

abbrev halt_end : World (Unit {0})
halt_end = world_of (sigma16_vm_exec silent 1 halt_world) halt_world

halt_world-halts : sigma16_vm_exec silent 1 halt_world ≡ some (halted, halt_end)
unfolding ◌>>◌ sigma16_vm_exec bswap_16
halt_world-halts = refl

halt_loop : exec_loop silent 1 halt_world ≡ some (halted, halt_end)
unfolding ◌>>◌ sigma16_vm_exec bswap_16
halt_loop = refl

sigma16_vm_exec-IsMachine_example : IsMachine halt_end
sigma16_vm_exec-IsMachine_example =
    sigma16_vm_exec-IsMachine silent silent_keeps 1 halt_world halt_end halted halt_world-IsMachine
      halt_world-halts

read_mem-write_mem_example :
    (write_mem 3 0x12345 >> read_mem 3) fib_world ≡ ok 0x2345 (stored fib_world 3 0x12345)
read_mem-write_mem_example = read_mem-write_mem fib_world 3 3 0x12345 (omega arith) (omega arith)

trap_write_loop-low_bytes_example :
    trap_write_loop 2 0 3 fib_world
    ≡ ok tt (record fib_world { out = fib_world.out ++ low_bytes fib_world.vm.mem 3 2 })
trap_write_loop-low_bytes_example = trap_write_loop-low_bytes 2 0 3 3 fib_world refl (omega arith)

-- An operating system with one file, named by the byte 97.
abbrev pub one_file : Os
one_file = record {
  calloc_ok = true;
  files = λ fname. if get_or fname 0 0 == 97 then some fib_image else none;
  mmap_ok = true;
}

sigma16_vm_init_iff_example :
    ((held : Held) × (sigma16_vm_init one_file (97 ∷ []) ≡ ready fib_world.vm held))
    ↔ ((bytes : List ℕ) × Loads one_file (97 ∷ []) fib_world.vm bytes)
sigma16_vm_init_iff_example = sigma16_vm_init_iff one_file (97 ∷ []) fib_world.vm

abbrev pub leaked : Held
leaked = record { vm_block = true; file_handle = false; mapping = false }

pub no_file : sigma16_vm_init one_file (98 ∷ []) ≡ failed leaked
unfolding sigma16_vm_init
no_file = refl

read_mem-booted_example : read_mem 1 (booted fib_image tt) ≡ ok 0 (booted fib_image tt)
read_mem-booted_example = read_mem-booted fib_image tt 1 fib_image-IsBytes (omega arith)

-- The instruction before was of the RX format.
abbrev after_rx : World (Unit {0})
after_rx = record fib_world {
  vm = record (fib_world.vm) {
    cpu = record (fib_world.vm.cpu) { ir = record { first = 0xf1; second = 0 } };
  };
}

do_nop-undefined_example : stop_of (do_nop sigma16_trace after_rx) ≡ some undefined
do_nop-undefined_example = do_nop-undefined after_rx (omega arith)

sigma16_vm_exec-sigma16_trace_example :
    AlikeRuns Unit
      (sigma16_vm_exec sigma16_trace 80 fib_world)
      (sigma16_vm_exec silent 80 fib_world)
sigma16_vm_exec-sigma16_trace_example = sigma16_vm_exec-sigma16_trace 80 fib_world

select_bit-cmp_flags_example :
    select_bit ((cmp_flags after_rx.vm.cpu).regs 15) 2
    ≡ says equal ((clear_flags after_rx.vm.cpu).regs 0) ((clear_flags after_rx.vm.cpu).regs 0)
select_bit-cmp_flags_example = select_bit-cmp_flags equal after_rx.vm.cpu

sigma16_vm_exec_again_example :
    final (sigma16_vm_exec silent 5 halt_end) ≡ some (halted, view halt_end)
sigma16_vm_exec_again_example =
    sigma16_vm_exec_again 1 4 halt_world halt_end halt_world-IsMachine halt_world-halts

sigma16_vm_exec-fib_example :
    (w : World (Unit {0})) × ((fuel : ℕ)
      → sigma16_vm_exec silent fuel (booted (fib_program 10) tt)
        ≡ (if ltb fuel (5 + 6 * 10) then none else some (halted, w)))
    × (w.vm.cpu.regs 1 ≡ fib 10 % 2 ^ 16)
sigma16_vm_exec-fib_example = sigma16_vm_exec-fib 10 (omega arith) (omega arith)

sigma16_vm_init-leaks_example :
    (leaked.file_handle ≡ is_opened one_file (98 ∷ []))
    × (leaked.vm_block ≡ (one_file.calloc_ok && not (is_opened one_file (98 ∷ []))))
    × (leaked.mapping ≡ false)
sigma16_vm_init-leaks_example = sigma16_vm_init-leaks one_file (98 ∷ []) leaked (ap left_by no_file)

-- `load R1,0x9000[R0]`, whose operand lies past the mapping.
abbrev load_image : List ℕ
load_image = 0xf1 ∷ 0x01 ∷ 0x90 ∷ 0x00 ∷ []

load_image-IsBytes : IsBytes load_image
load_image-IsBytes = all_bytes-IsBytes load_image refl

load_image-Oversteps : Oversteps (view (booted load_image tt))
unfolding bswap_16
load_image-Oversteps =
    Oversteps.loads {d = 1} {sa = 0} (omega arith) (omega arith) (omega arith) (omega arith) refl
      (omega arith)

sigma16_vm_exec-Oversteps_example :
    final (sigma16_vm_exec silent 3 (booted load_image tt))
    ≡ some (undefined, view (booted load_image tt))
sigma16_vm_exec-Oversteps_example =
    sigma16_vm_exec-Oversteps 2 (booted load_image tt)
      (booted-IsMachine load_image tt load_image-IsBytes) load_image-Oversteps

dump_vm_mem-rows_example :
    dump_vm_mem (16 * 1) (16 * (1 + 2)) fib_world
    ≡ ok tt (written (lead 1 (replicate 17 0) ++ rows fib_world.vm.mem 1 2) fib_world)
dump_vm_mem-rows_example = dump_vm_mem-rows 1 2 fib_world (omega arith) (omega arith)
