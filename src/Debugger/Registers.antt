-- ===== src/Debugger/Registers.antt =====
-- The register commands of the debugger: which registers they can reach.
use sigma16_emulator.Base.{
  ℕ, ◌<◌, ◌≤◌, ◌%◌, ◌^◌, ◌≡◌, ◌≢◌, sym, subst, arith, inl, inr, true, false, ltb, ◌++◌, ◌&&◌,
  if◌then◌else◌, ◌⊎◌,
}
use sigma16_emulator.Base.Cases.{Bool-cases}
use sigma16_emulator.Exec.Ops.{write_reg}
use sigma16_emulator.Exec.Invariant.{IsMachine}
use sigma16_emulator.Machine.{World, ok, stop, undefined, ◌>>◌}
use sigma16_emulator.Debugger.{Debugger, prompt, is_rejected, debugger_write_reg, invalid_register}

is_rejected-inner : (idx : ℕ) → 0 < idx → idx < 15 → is_rejected idx ≡ true
unfolding is_rejected
is_rejected-inner idx lo hi = ground arith

is_rejected-outer : (idx : ℕ) → idx < 2 ^ 32 → ((idx ≡ 0) ⊎ (15 ≤ idx)) → is_rejected idx ≡ false
unfolding is_rejected
is_rejected-outer idx fits out = ground arith

module _ (idx val : ℕ) (w : World Debugger) where
  -- The world after a refusal, and after a write.
  abbrev pub refused : World Debugger
  refused = record w { host = record (w.host) { errors = w.host.errors ++ invalid_register } }

  abbrev pub written : World Debugger
  written = record w { vm = record (w.vm) { cpu = write_reg idx val w.vm.cpu } }

  -- The command `i` by the index of the register, an `int` given by its 32-bit pattern: R1 to R14
  -- are refused with a message and the machine is left as it was; R0 and R15 are written; any other
  -- index, a negative one included, is a write past the registers, which is undefined.
  pub debugger_write_reg-access :
      idx < 2 ^ 32
      → debugger_write_reg idx val w ≡ (
          if ltb 0 idx && ltb idx 15
          then ok prompt refused
          else if ltb idx 16
          then ok prompt written
          else stop undefined w)
  unfolding debugger_write_reg ◌>>◌
  debugger_write_reg-access fits = elim (Bool-cases (ltb 0 idx && ltb idx 15)) [
    | inl inner ↦
        let hit : is_rejected idx ≡ true = is_rejected-inner idx (ground arith) (ground arith) in
        rw (inner, hit)
    | inr outer ↦
        let miss : is_rejected idx ≡ false = is_rejected-outer idx fits (ground arith) in
        rw (outer, miss)
          (elim (Bool-cases (ltb idx 16)) [ inl inside ↦ rw inside | inr outside ↦ rw outside ])
  ]

-- The command `i 0 val` makes R0, which the processor never changes, other than 0, unless `val` is
-- a multiple of 2 ^ 16: a well-formed machine is not well formed after it.
pub debugger_write_reg-not-IsMachine :
    (val : ℕ) (w v : World Debugger)
    → val % 2 ^ 16 ≢ 0
    → debugger_write_reg 0 val w ≡ ok prompt v
    → ¬ IsMachine v
unfolding debugger_write_reg is_rejected ◌>>◌
debugger_write_reg-not-IsMachine val w v ne e i =
    let same : written 0 val w ≡ v = cc in
    let zero : (written 0 val w).vm.cpu.regs 0 ≡ 0 =
      subst (λ (u : World Debugger). u.vm.cpu.regs 0 ≡ 0) (sym same) i.cpu_fits.zero_reg in
    ne zero
