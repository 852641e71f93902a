-- ===== src/Exec/Alu.antt =====
-- src/vm.c: the register instructions `do_add` to `do_nop`. An `int` holds any sum or difference
-- of two words; a product of two words may pass INT_MAX, which C leaves undefined.
use sigma16_emulator.Base.{
  ℕ, ◌+◌, ◌-◌, ◌*◌, ◌/◌, ◌%◌, ◌^◌, Bool, ltb, ◌==◌, if◌then◌else◌, Option, none, some, word_mod,
  bit_and, bit_or, bit_xor,
}
use sigma16_emulator.Base.Int.{ℤ, ltℤ, int16}
use sigma16_emulator.Cpu.{
  Cpu, ir_d, ir_sa, ir_sb, Flag, carry, int_overflow, nat_overflow, nat_less, int_less, equal,
  int_greater, nat_greater, set_flag,
}
use sigma16_emulator.Machine.{Handler, inst_rrr, M, ◌>>=◌, ◌>>◌, ret, cpu, choose, modify_cpu}
use sigma16_emulator.Exec.Ops.{
  apply_op_rrr, interp_rrr, safe_update, write_reg, clear_flags, advance,
}

-- The C operators on two words, as the number that the register receives.
abbrev pub c_add : ℕ → ℕ → Option ℕ
c_add a b = some (a + b)

abbrev pub c_sub : ℕ → ℕ → Option ℕ
c_sub a b = some (a + word_mod - b)

abbrev pub c_mul : ℕ → ℕ → Option ℕ
c_mul a b = if ltb (a * b) (2 ^ 31) then some (a * b) else none

-- The `int` that a comparison yields.
abbrev pub truth : Bool → ℕ
truth b = if b then 1 else 0

abbrev pub c_lt : ℕ → ℕ → Option ℕ
c_lt a b = some (truth (ltb a b))

abbrev pub c_eq : ℕ → ℕ → Option ℕ
c_eq a b = some (truth (a == b))

abbrev pub c_gt : ℕ → ℕ → Option ℕ
c_gt a b = some (truth (ltb b a))

abbrev pub c_and : ℕ → ℕ → Option ℕ
c_and a b = some (bit_and a b)

abbrev pub c_or : ℕ → ℕ → Option ℕ
c_or a b = some (bit_or a b)

abbrev pub c_xor : ℕ → ℕ → Option ℕ
c_xor a b = some (bit_xor a b)

-- SETFLAG(vm->cpu.regs[15], flag, val)
abbrev pub setflag : Flag → Bool → Cpu → Cpu
setflag f b c = write_reg 15 (set_flag f b (c.regs 15)) c

-- The flags that `do_add` sets, from `vm->cpu.ir.rrr.d`, the number of the register: as an
-- `int16_t` that number is not negative.
unfoldable pub add_flags : Cpu → Cpu
unfolding set_flag
add_flags c =
    let positive = ltb 0 (ir_d c.ir) in
    let c₁ = setflag nat_greater positive (clear_flags c) in
    let c₂ = setflag int_greater (ltℤ (ℤ.pos 0) (int16 (ir_d c.ir))) c₁ in
    let c₃ = setflag equal (ir_d c.ir == 0) c₂ in
    let c₄ = setflag nat_less (ltℤ (int16 (ir_d c.ir)) (ℤ.pos 0)) c₃ in
    let c₅ = setflag nat_less (ir_d c.ir == 0) c₄ in
    let c₆ = setflag nat_overflow positive c₅ in
    let c₇ = setflag int_overflow positive c₆ in setflag carry positive c₇

-- The flags that `do_cmp` sets; it clears R15 first, and reads its operands after that.
unfoldable pub cmp_flags : Cpu → Cpu
unfolding set_flag
cmp_flags c =
    let c₀ = clear_flags c in
    let a = c₀.regs (ir_sa c₀.ir) in
    let b = c₀.regs (ir_sb c₀.ir) in
    let c₁ = setflag nat_greater (ltb b a) c₀ in
    let c₂ = setflag int_greater (ltℤ (int16 b) (int16 a)) c₁ in
    let c₃ = setflag equal (a == b) c₂ in
    let c₄ = setflag int_less (ltℤ (int16 a) (int16 b)) c₃ in setflag nat_less (ltb a b) c₄

module _ {H : Type 0} where
  -- `op_div`: division by zero changes nothing.
  unfoldable pub op_div : M H (Unit {0})
  unfolding safe_update
  op_div = do
    c ← cpu
    let a = c.regs (ir_sa c.ir)
    let b = c.regs (ir_sb c.ir)
    choose (b == 0) (ret tt) (do
      safe_update (ir_d c.ir) (ret (a / b))
      choose (ir_d c.ir == 15) (ret tt) (modify_cpu (write_reg 15 (a % b))))

module _ {H : Type 0} (trace_handler : Handler H) where
  unfoldable pub do_add : M H (Unit {0})
  unfolding apply_op_rrr
  do_add = do apply_op_rrr trace_handler c_add; modify_cpu add_flags

  unfoldable pub do_sub : M H (Unit {0})
  unfolding apply_op_rrr
  do_sub = apply_op_rrr trace_handler c_sub

  unfoldable pub do_mul : M H (Unit {0})
  unfolding apply_op_rrr
  do_mul = apply_op_rrr trace_handler c_mul

  unfoldable pub do_div : M H (Unit {0})
  unfolding interp_rrr op_div
  do_div = do interp_rrr; trace_handler inst_rrr; op_div; modify_cpu (advance 1)

  unfoldable pub do_cmp : M H (Unit {0})
  unfolding interp_rrr
  do_cmp = do interp_rrr; trace_handler inst_rrr; modify_cpu cmp_flags; modify_cpu (advance 1)

  unfoldable pub do_cmplt : M H (Unit {0})
  unfolding apply_op_rrr
  do_cmplt = do apply_op_rrr trace_handler c_lt; modify_cpu clear_flags

  unfoldable pub do_cmpeq : M H (Unit {0})
  unfolding apply_op_rrr
  do_cmpeq = do apply_op_rrr trace_handler c_eq; modify_cpu clear_flags

  unfoldable pub do_cmpgt : M H (Unit {0})
  unfolding apply_op_rrr
  do_cmpgt = do apply_op_rrr trace_handler c_gt; modify_cpu clear_flags

  -- `~` of a word, converted back to a word, is its distance from 0xffff.
  unfoldable pub do_invold : M H (Unit {0})
  unfolding interp_rrr safe_update
  do_invold = do
    interp_rrr
    trace_handler inst_rrr
    c ← cpu
    safe_update (ir_d c.ir) (ret (word_mod - 1 - c.regs (ir_sa c.ir)))
    modify_cpu (advance 1)
    modify_cpu clear_flags

  unfoldable pub do_andold : M H (Unit {0})
  unfolding apply_op_rrr
  do_andold = do apply_op_rrr trace_handler c_and; modify_cpu clear_flags

  unfoldable pub do_orold : M H (Unit {0})
  unfolding apply_op_rrr
  do_orold = do apply_op_rrr trace_handler c_or; modify_cpu clear_flags

  unfoldable pub do_xorold : M H (Unit {0})
  unfolding apply_op_rrr
  do_xorold = do apply_op_rrr trace_handler c_xor; modify_cpu clear_flags

  -- `do_nop` traces, and does not decode: `ir` is that of an earlier instruction.
  unfoldable pub do_nop : M H (Unit {0})
  do_nop = do trace_handler inst_rrr; modify_cpu clear_flags; modify_cpu (advance 1)
