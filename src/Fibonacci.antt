-- ===== src/Fibonacci.antt =====
-- The program of README.md, "Assembler Example", for any number of rounds: a guest of src/vm.c that
-- computes Fibonacci numbers by a loop.
pub mod Halts
use sigma16_emulator.Base.{
  ℕ, zero, suc, ◌+◌, ◌-◌, ◌*◌, ◌/◌, ◌%◌, ◌^◌, ◌<◌, ◌≡◌, refl, ap, ◌∙◌, subst, arith, ◌==◌,
  if◌then◌else◌, Bool, false, List, [], ◌∷◌, Option, none, some, u16,
}
use sigma16_emulator.Cpu.{update}
use sigma16_emulator.Machine.{World, Stop, halted, silent}
use sigma16_emulator.Exec.{sigma16_vm_exec}
use sigma16_emulator.Init.Image.{all_bytes-IsBytes, IsBytes, booted, booted-IsMachine}
use sigma16_emulator.Isa.{
  State, isa_step, exec_operation, exec_alu, exec_rx, exec_trap, view, weight,
}
use sigma16_emulator.Isa.Runs.{isa_run, final, sigma16_vm_exec-isa_run}
use sigma16_emulator.Main.Build.{isa_boot, view-booted}

-- The image, with the number of rounds as the displacement of the third instruction.
abbrev pub fib_program : ℕ → List ℕ
fib_program n =
    0xf1
    ∷ 0x00
    ∷ 0x00
    ∷ 0x00
    ∷ 0xf2
    ∷ 0x00
    ∷ 0x00
    ∷ 0x01
    ∷ 0xf3
    ∷ 0x00
    ∷ n / 256
    ∷ n % 256
    ∷ 0xf4
    ∷ 0x00
    ∷ 0x00
    ∷ 0x01
    ∷ 0x05
    ∷ 0x12
    ∷ 0xf1
    ∷ 0x20
    ∷ 0x00
    ∷ 0x00
    ∷ 0xf2
    ∷ 0x50
    ∷ 0x00
    ∷ 0x00
    ∷ 0x13
    ∷ 0x34
    ∷ 0x66
    ∷ 0x30
    ∷ 0xf6
    ∷ 0x06
    ∷ 0x00
    ∷ 0x08
    ∷ 0xd0
    ∷ 0x00
    ∷ []

unfoldable pub fib : ℕ → ℕ
fib zero = 0
fib (suc zero) = 1
fib (suc (suc k)) = fib k + fib (suc k)

-- The program at an instruction.
abbrev at : ℕ → ℕ → (ℕ → ℕ) → State
at n pc regs = record (isa_boot (fib_program n)) { pc = pc; regs = regs }

-- The start of a round: `k` rounds have been made and `left` are to come.
record Round (k left : ℕ) (regs : ℕ → ℕ) : Type 0 where
  r0 : regs 0 ≡ 0
  r1 : regs 1 ≡ fib k % 2 ^ 16
  r2 : regs 2 ≡ fib (suc k) % 2 ^ 16
  r3 : regs 3 ≡ left
  r4 : regs 4 ≡ 1

-- The registers after a round.
round_regs : (ℕ → ℕ) → ℕ → ℕ
round_regs r =
    let sum = u16 (r 1 + r 2) in
    let left = u16 (r 3 + 2 ^ 16 - r 4) in
    update
      (update
        (update
          (update (update (update (update r 5 sum) 15 50944) 1 (u16 (u16 (r 2 + 0)))) 2
            (u16 (u16 (sum + 0))))
          3 left)
        6 (u16 (weight (left == r 0) 1)))
      15 (u16 0)

abbrev is_last : (ℕ → ℕ) → Bool
is_last r = u16 (r 3 + 2 ^ 16 - r 4) == r 0

round_run :
    (n f : ℕ) (r : ℕ → ℕ)
    → isa_run (suc (suc (suc (suc (suc (suc f)))))) (at n 8 r)
      ≡ isa_run f (
          if u16 (weight (is_last r) 1) == 0
          then at n (u16 (r 0 + 8)) (round_regs r)
          else at n 17 (round_regs r))
unfolding isa_run isa_step exec_operation exec_alu exec_rx round_regs
round_run n f r = refl

module _ {k left : ℕ} {r : ℕ → ℕ} (h : Round k (suc left) r) (bound : suc left < 2 ^ 16) where
  round_regs-Round : Round (suc k) left (round_regs r)
  unfolding fib round_regs
  round_regs-Round = record {
    r0 = h.r0;
    r1 = ground (arith, h.r2);
    r2 = omega (arith, h.r1, h.r2);
    r3 = omega (arith, h.r3, h.r4);
    r4 = h.r4;
  }

  is_last_lem : is_last r ≡ (left == 0)
  is_last_lem = ground (arith, h.r0, h.r3, h.r4)

  goes_round : 0 < left → is_last r ≡ false
  goes_round some_left = ground (arith, h.r0, h.r3, h.r4)

-- The instructions that `left` more rounds after one take, with the trap.
abbrev fuel_for : ℕ → ℕ
fuel_for zero = 1
fuel_for (suc left) = suc (suc (suc (suc (suc (suc (fuel_for left))))))

halts : (n : ℕ) (r : ℕ → ℕ) → r 0 ≡ 0 → isa_run 1 (at n 17 r) ≡ some (halted, at n 17 r)
unfolding isa_run isa_step exec_operation exec_trap
halts n r e = rw (e, isa_run, isa_step, exec_operation, exec_trap) refl

rounds_end :
    (n left k : ℕ) (r : ℕ → ℕ)
    → suc left < 2 ^ 16
    → Round k (suc left) r
    → (r' : ℕ → ℕ) × (isa_run (fuel_for (suc left)) (at n 8 r) ≡ some (halted, at n 17 r'))
      × (r' 1 ≡ fib (suc left + k) % 2 ^ 16)
rounds_end n zero k r bound h =
    let h' : Round (suc k) 0 (round_regs r) = round_regs-Round h bound in
    (
      round_regs r,
      rw (round_run, is_last_lem h bound) (halts n (round_regs r) h'.r0),
      subst (λ (m : ℕ). round_regs r 1 ≡ fib m % 2 ^ 16) (omega arith) h'.r1,
    )
rounds_end n (suc left) k r bound h =
    let h' : Round (suc k) (suc left) (round_regs r) = round_regs-Round h bound in
    let (r', run, result) = rounds_end n left (suc k) (round_regs r) (omega arith) h' in
    (
      r',
      rw (round_run, goes_round h bound (omega arith), h.r0) run,
      subst (λ (m : ℕ). r' 1 ≡ fib m % 2 ^ 16) (omega arith) result,
    )
