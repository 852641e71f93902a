-- ===== src/Isa/Outside.antt =====
-- A program that leaves the mapping of src/vm.c, which covers half of the addresses that a word can hold.
use sigma16_emulator.Base.{
  ℕ, suc, ◌+◌, ◌*◌, ◌/◌, ◌%◌, ◌<◌, ◌≤◌, ◌≡◌, ◌≢◌, refl, ◌∙◌, arith, ==_ne, lt→ltb, le→ltb, some,
  u16,
}
use sigma16_emulator.Memory.{mem_words}
use sigma16_emulator.Machine.{World, undefined, silent}
use sigma16_emulator.Exec.{sigma16_vm_exec}
use sigma16_emulator.Exec.Invariant.{IsMachine}
use sigma16_emulator.Isa.{State, over, exec_operation, exec_rx, isa_step, view}
use sigma16_emulator.Isa.Runs.{isa_run, final, sigma16_vm_exec-isa_run}

-- The instruction word of `load` or `store` with register `d` and index register `sa`.
abbrev pub load_word : ℕ → ℕ → ℕ
load_word d sa = 0xf000 + 256 * d + 16 * sa + 1

abbrev pub store_word : ℕ → ℕ → ℕ
store_word d sa = 0xf000 + 256 * d + 16 * sa + 2

-- The address that such an instruction at the program counter forms.
abbrev pub reached : ℕ → State → ℕ
reached sa s = u16 (s.regs sa + s.mem (s.pc + 1))

-- The next instruction, or the word that it reads or writes, lies at an address from 0x8000 on.
pub data Oversteps (s : State) : Type 0 where
  fetches : 0x8000 ≤ s.pc → Oversteps s
  reads_second : s.pc ≡ 0x7fff → 0xf000 ≤ s.mem s.pc → s.mem s.pc < 0x10000 → Oversteps s
  loads :
      {d sa : ℕ}
      → s.pc < 0x7fff
      → d < 16
      → sa < 16
      → d ≢ 0
      → s.mem s.pc ≡ load_word d sa
      → 0x8000 ≤ reached sa s
      → Oversteps s
  stores :
      {d sa : ℕ}
      → s.pc < 0x7fff
      → d < 16
      → sa < 16
      → s.mem s.pc ≡ store_word d sa
      → 0x8000 ≤ reached sa s
      → Oversteps s

module _ (s : State) (d sa low : ℕ) (inside : s.pc < 0x8000) (d_fits : d < 16) (sa_fits : sa < 16)
    (low_fits : low < 16) (word : s.mem s.pc ≡ 0xf000 + 256 * d + 16 * sa + low) where
  fields :
      (s.mem s.pc / 4096 ≡ 15)
      × (s.mem s.pc / 256 % 16 ≡ d)
      × (s.mem s.pc / 16 % 16 ≡ sa)
      × (s.mem s.pc % 16 ≡ low)
  fields = (omega arith, omega arith, omega arith, omega arith)

isa_step-Oversteps : (s : State) → Oversteps s → isa_step s ≡ over undefined s
unfolding isa_step exec_operation exec_rx
isa_step-Oversteps s (fetches past) = rw (le→ltb s.pc mem_words past) refl
isa_step-Oversteps s (reads_second pc high fits) =
    let op : s.mem s.pc / 4096 ≡ 15 = omega arith in
    rw
      (
        lt→ltb s.pc mem_words (omega arith),
        op,
        exec_operation,
        le→ltb (s.pc + 1) mem_words (omega arith),
      )
      refl
isa_step-Oversteps s (loads {d} {sa} inside d_fits sa_fits ne word past) =
    let (op, fd, fs, low) = fields s d sa 1 (omega arith) d_fits sa_fits (omega arith) word in
    rw
      (
        lt→ltb s.pc mem_words (omega arith),
        op,
        exec_operation,
        lt→ltb (s.pc + 1) mem_words (omega arith),
        fd,
        fs,
        low,
        exec_rx,
        ==_ne _ _ ne,
        le→ltb (reached sa s) mem_words past,
      )
      refl
isa_step-Oversteps s (stores {d} {sa} inside d_fits sa_fits word past) =
    let (op, fd, fs, low) = fields s d sa 2 (omega arith) d_fits sa_fits (omega arith) word in
    rw
      (
        lt→ltb s.pc mem_words (omega arith),
        op,
        exec_operation,
        lt→ltb (s.pc + 1) mem_words (omega arith),
        fd,
        fs,
        low,
        exec_rx,
        le→ltb (reached sa s) mem_words past,
      )
      refl

isa_run-over :
    (fuel : ℕ) (s : State)
    → isa_step s ≡ over undefined s
    → isa_run (suc fuel) s ≡ some (undefined, s)
unfolding isa_run
isa_run-over fuel s e = rw (isa_run, e) refl

-- Without tracing, where a well-formed machine is about to fetch an instruction at an address from 0x8000
-- on, or an instruction of the RX format whose second word lies there, or a `load` of a register but R0 or a
-- `store` whose effective address does, execution meets what C leaves undefined at that instruction, and the
-- program sees the state before it.
pub sigma16_vm_exec-Oversteps :
    {H : Type 0} (fuel : ℕ) (w : World H)
    → IsMachine w
    → Oversteps (view w)
    → final (sigma16_vm_exec silent (suc fuel) w) ≡ some (undefined, view w)
sigma16_vm_exec-Oversteps fuel w i past =
    sigma16_vm_exec-isa_run (suc fuel) w i
    ∙ isa_run-over fuel (view w) (isa_step-Oversteps (view w) past)
