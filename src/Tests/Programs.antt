-- ===== src/Tests/Programs.antt =====
-- Guest programs as images, run from the first instruction to their end.
use sigma16_emulator.Base.{ℕ, bswap_16, ◌≡◌, refl, List, [], ◌∷◌, Option, none, some}
use sigma16_emulator.Machine.{◌>>◌, World, Stop, silent}
use sigma16_emulator.Init.Image.{booted}
use sigma16_emulator.Exec.{sigma16_vm_exec}

-- README.md, "Assembler Example": the tenth Fibonacci number.
abbrev pub fib_image : List ℕ
fib_image =
    0xf1 ∷ 0x00 ∷ 0x00 ∷ 0x00 ∷ 0xf2 ∷ 0x00 ∷ 0x00 ∷ 0x01 ∷ 0xf3 ∷ 0x00 ∷ 0x00 ∷ 0x0a ∷ 0xf4 ∷ 0x00
    ∷ 0x00 ∷ 0x01 ∷ 0x05 ∷ 0x12 ∷ 0xf1 ∷ 0x20 ∷ 0x00 ∷ 0x00 ∷ 0xf2 ∷ 0x50 ∷ 0x00 ∷ 0x00 ∷ 0x13
    ∷ 0x34 ∷ 0x66 ∷ 0x30 ∷ 0xf6 ∷ 0x06 ∷ 0x00 ∷ 0x08 ∷ 0xd0 ∷ 0x00 ∷ []

abbrev pub fib_world : World (Unit {0})
fib_world = booted fib_image tt

abbrev reg_of : ℕ → Option (Stop × World (Unit {0})) → Option ℕ
reg_of i none = none
reg_of i (some (s, w)) = some (w.vm.cpu.regs i)

fib_runs : reg_of 1 (sigma16_vm_exec silent 80 fib_world) ≡ some 55
unfolding ◌>>◌ sigma16_vm_exec bswap_16
fib_runs = refl

-- `trap R0,R0,R0`, which ends execution.
abbrev pub halt_image : List ℕ
halt_image = 0xd0 ∷ 0x00 ∷ []

abbrev pub halt_world : World (Unit {0})
halt_world = booted halt_image tt

-- The world in which an execution ended.
abbrev pub world_of : {H : Type 0} → Option (Stop × World H) → World H → World H
world_of none w = w
world_of (some (s, v)) w = v
