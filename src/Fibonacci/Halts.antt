-- ===== src/Fibonacci/Halts.antt =====
-- How long the guest of the parent module runs, and what it leaves.
use sigma16_emulator.Base.{
  ℕ, zero, suc, ◌+◌, ◌*◌, ◌/◌, ◌%◌, ◌^◌, ◌<◌, ◌≡◌, refl, ap, ◌∙◌, subst, arith, if◌then◌else◌,
  Option, none, some, u16,
}
use sigma16_emulator.Cpu.{update}
use sigma16_emulator.Machine.{World, Stop, halted, silent}
use sigma16_emulator.Exec.{sigma16_vm_exec}
use sigma16_emulator.Init.Image.{all_bytes-IsBytes, IsBytes, booted, booted-IsMachine}
use sigma16_emulator.Isa.{State, isa_step, exec_operation, exec_rx, view}
use sigma16_emulator.Isa.Runs.{isa_run, final, sigma16_vm_exec-isa_run}
use sigma16_emulator.Main.Build.{isa_boot, view-booted}
use sigma16_emulator.Base.{ltb, sym, inl, inr, ◌≤◌}
use sigma16_emulator.Base.Cases.{Bool-cases, Option-cases}
use sigma16_emulator.Exec.Runs.{exec_loop_mono}
use sigma16_emulator.Fibonacci.{
  fib_program, fib, at, Round, round_regs, round_run, round_regs-Round, goes_round, fuel_for,
  rounds_end,
}

-- The registers when the loop begins.
start_regs : ℕ → ℕ → ℕ
start_regs n =
    let count = 256 * (n / 256) + n % 256 in
    update
      (update (update (update (λ _. 0) 1 (u16 (u16 0))) 2 (u16 (u16 1))) 3 (u16 (u16 (0 + count))))
      4 (u16 (u16 1))

start_run :
    (n f : ℕ)
    → isa_run (suc (suc (suc (suc f)))) (isa_boot (fib_program n))
      ≡ isa_run f (at n 8 (start_regs n))
unfolding isa_run isa_step exec_operation exec_rx start_regs
start_run n f = refl

start-Round : (n : ℕ) → n < 2 ^ 16 → Round 0 n (start_regs n)
unfolding start_regs fib
start-Round n h = record { r0 = refl; r1 = refl; r2 = refl; r3 = omega arith; r4 = refl }

fuel_for_lem : (left : ℕ) → fuel_for left ≡ 1 + 6 * left
fuel_for_lem zero = refl
fuel_for_lem (suc left) = omega (arith, fuel_for_lem left)

fib_program-IsBytes : (n : ℕ) → n < 2 ^ 16 → IsBytes (fib_program n)
fib_program-IsBytes n h = all_bytes-IsBytes (fib_program n) (ground arith)

-- What an execution ended in, if the program sees the state of the instruction set there.
final-some :
    {H : Type 0} {s : Stop} {t : State} (o : Option (Stop × World H))
    → final o ≡ some (s, t)
    → (w : World H) × (o ≡ some (s, w)) × (view w ≡ t)
final-some none e = cc
final-some (some (s, w)) e = (w, cc, cc)

-- Rounds that are not the last leave the loop running.
before : ℕ → ℕ
before zero = 0
before (suc left) = suc (suc (suc (suc (suc (suc (before left))))))

rounds_running :
    (n left k : ℕ) (r : ℕ → ℕ)
    → suc left < 2 ^ 16
    → Round k (suc left) r
    → isa_run (before (suc left)) (at n 8 r) ≡ none
unfolding before isa_run
rounds_running n zero k r bound h = rw round_run refl
rounds_running n (suc left) k r bound h =
    rw (round_run, goes_round h bound (omega arith), h.r0)
      (rounds_running n left (suc k) (round_regs r) (omega arith) (round_regs-Round h bound))

before_lem : (left : ℕ) → before left ≡ 6 * left
unfolding before
before_lem zero = refl
before_lem (suc left) = omega (arith, before_lem left)

final-none : {H : Type 0} (o : Option (Stop × World H)) → final o ≡ none → o ≡ none
final-none none e = refl
final-none (some (s, w)) e = cc

-- Executions of the image, by the instruction set.
module _ (n : ℕ) (bound : n < 2 ^ 16) where
  abbrev execute : ℕ → Option (Stop × World (Unit {0}))
  execute fuel = sigma16_vm_exec silent fuel (booted (fib_program n) tt)

  execute-isa_run : (fuel : ℕ) → final (execute fuel) ≡ isa_run fuel (isa_boot (fib_program n))
  execute-isa_run fuel =
      let bytes = fib_program-IsBytes n bound in
      sigma16_vm_exec-isa_run fuel (booted (fib_program n) tt)
        (booted-IsMachine (fib_program n) tt bytes)
      ∙ ap (isa_run fuel) (view-booted (fib_program n) tt bytes)

  execute_mono :
      (m fuel : ℕ) {r : Stop × World (Unit {0})}
      → m ≤ fuel
      → execute m ≡ some r
      → execute fuel ≡ some r
  unfolding sigma16_vm_exec
  execute_mono m fuel le e = exec_loop_mono silent m fuel (booted (fib_program n) tt) le e

execute-end :
    (left : ℕ) (bound : suc left < 2 ^ 16)
    → (w : World (Unit {0})) × (execute (suc left) bound (5 + 6 * suc left) ≡ some (halted, w))
      × (w.vm.cpu.regs 1 ≡ fib (suc left) % 2 ^ 16)
execute-end left bound =
    let n = suc left in
    let (r, run, result) = rounds_end n left 0 (start_regs n) bound (start-Round n bound) in
    let fuel : 5 + 6 * n ≡ suc (suc (suc (suc (fuel_for n)))) = omega (arith, fuel_for_lem n) in
    let seen : final (execute n bound (5 + 6 * n)) ≡ some (halted, at n 17 r) =
      execute-isa_run n bound (5 + 6 * n)
      ∙ ap (λ (f : ℕ). isa_run f (isa_boot (fib_program n))) fuel
      ∙ start_run n (fuel_for n)
      ∙ run in
    let (w, ended, same) = final-some _ seen in
    (
      w,
      ended,
      ap (λ (s : State). s.regs 1) same ∙ result ∙ ap (λ (m : ℕ). fib m % 2 ^ 16) (omega arith),
    )

execute-running :
    (left : ℕ) (bound : suc left < 2 ^ 16) → execute (suc left) bound (4 + 6 * suc left) ≡ none
execute-running left bound =
    let n = suc left in
    let fuel : 4 + 6 * n ≡ suc (suc (suc (suc (before n)))) = omega (arith, before_lem n) in
    final-none _ (
      execute-isa_run n bound (4 + 6 * n)
      ∙ ap (λ (f : ℕ). isa_run f (isa_boot (fib_program n))) fuel
      ∙ start_run n (before n)
      ∙ rounds_running n left 0 (start_regs n) bound (start-Round n bound))

-- An execution that fewer instructions do not end, and one more does.
execute-exact :
    (n m : ℕ) (bound : n < 2 ^ 16) {r : Stop × World (Unit {0})}
    → execute n bound m ≡ none
    → execute n bound (suc m) ≡ some r
    → (fuel : ℕ) → execute n bound fuel ≡ (if ltb fuel (suc m) then none else some r)
execute-exact n m bound going ended fuel = elim (Bool-cases (ltb fuel (suc m))) [
  | inr enough ↦ rw enough (execute_mono n bound (suc m) fuel (ground arith) ended)
  | inl short ↦ elim (Option-cases (execute n bound fuel)) [
    | inl running ↦ rw short running
    | inr (x, over) ↦ cc (execute_mono n bound fuel m (ground arith) over, going)
  ]
]

-- From an image of the README's program with a number of rounds from 1 to 2 ^ 16 - 1, the machine halts
-- after exactly five instructions and six for each round, the one that halts included: with a smaller bound
-- on the instructions execution is still going on, and with any other bound it halts in one same machine,
-- which has the Fibonacci number of the rounds in R1, modulo 2 ^ 16.
pub sigma16_vm_exec-fib :
    (n : ℕ)
    → 0 < n
    → n < 2 ^ 16
    → (w : World (Unit {0})) × ((fuel : ℕ)
        → sigma16_vm_exec silent fuel (booted (fib_program n) tt)
          ≡ (if ltb fuel (5 + 6 * n) then none else some (halted, w)))
      × (w.vm.cpu.regs 1 ≡ fib n % 2 ^ 16)
sigma16_vm_exec-fib zero some_rounds bound = let no_rounds : ⊥ = omega arith in absurd no_rounds
sigma16_vm_exec-fib (suc left) some_rounds bound =
    let (w, ended, result) = execute-end left bound in
    let n = suc left in
    let more : 5 + 6 * n ≡ suc (4 + 6 * n) = omega arith in
    let ended' : execute n bound (suc (4 + 6 * n)) ≡ some (halted, w) =
      subst (λ (f : ℕ). execute n bound f ≡ some (halted, w)) more ended in
    (
      w,
      λ fuel.
          subst (λ (f : ℕ). execute n bound fuel ≡ (if ltb fuel f then none else some (halted, w)))
            (sym more) (execute-exact n (4 + 6 * n) bound (execute-running left bound) ended' fuel),
      result,
    )
