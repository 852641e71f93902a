-- ===== src/Isa/Status.antt =====
-- The words that `do_add` and `do_cmp` leave in the status register R15.
use sigma16_emulator.Base.{
  ℕ, ◌+◌, ◌<◌, ◌≡◌, refl, ap, fun_ext, arith, Bool, true, false, inl, inr, ltb, lt→ltb, le→ltb, ◌^◌,
  ◌==◌, if◌then◌else◌, u16,
}
use sigma16_emulator.Base.Int.{ℤ, ltℤ, int16}
use sigma16_emulator.Base.Cases.{Bool-cases}
use sigma16_emulator.Cpu.{
  Cpu, ir_d, ir_sa, ir_sb, update, set_flag, nat_less, int_less, equal, int_greater, nat_greater,
}
use sigma16_emulator.Exec.Ops.{write_reg, clear_flags}
use sigma16_emulator.Exec.Alu.{add_flags, cmp_flags}
use sigma16_emulator.Isa.{weight, comparison}

-- The last of two writes to one element counts.
pub update-update :
    {A : Type 0} (f : ℕ → A) (i : ℕ) (v v' : A) → update (update f i v) i v' ≡ update f i v'
update-update f i v v' = fun_ext λ j. elim (Bool-cases (i == j)) [ inl e ↦ rw e | inr e ↦ rw e ]

write_reg-write_reg : (c : Cpu) (i v v' : ℕ) → write_reg i v' (write_reg i v c) ≡ write_reg i v' c
write_reg-write_reg c i v v' =
    ap (λ (r : ℕ → ℕ). record c { regs = r }) (update-update c.regs i (u16 v) (u16 v'))

-- The flags of a comparison, set one after another, add up.
five_flags :
    (g i e l n : Bool)
    → set_flag nat_less n (
        u16 (
          set_flag int_less l (
            u16
              (set_flag equal e (u16 (set_flag int_greater i (u16 (set_flag nat_greater g 0))))))))
      ≡ weight g 0x8000 + weight i 0x4000 + weight e 0x2000 + weight l 0x1000 + weight n 0x0800
unfolding set_flag
five_flags g i e l n = ground arith

pub cmp_flags-write_reg :
    (c : Cpu)
    → let a = (clear_flags c).regs (ir_sa c.ir) in
      let b = (clear_flags c).regs (ir_sb c.ir) in cmp_flags c ≡ write_reg 15 (comparison a b) c
unfolding cmp_flags
cmp_flags-write_reg c = simp (write_reg-write_reg, five_flags)

-- The number of a register, which is below 16, is not negative as an `int16_t`.
signed_number :
    (d : ℕ) → d < 16 → (ltℤ (ℤ.pos 0) (int16 d) ≡ ltb 0 d) × (ltℤ (int16 d) (ℤ.pos 0) ≡ false)
signed_number d h = rw (lt→ltb d (2 ^ 15) (omega arith)) (refl, le→ltb d 0 (omega arith))

pub add_flags-write_reg :
    (c : Cpu) → add_flags c ≡ write_reg 15 (if ir_d c.ir == 0 then 0x2800 else 0xc700) c
unfolding add_flags
add_flags-write_reg c =
    let (up, down) = signed_number (ir_d c.ir) (omega arith) in
    elim (Bool-cases (ir_d c.ir == 0)) [
      | inl e ↦
          let zero_d : ltb 0 (ir_d c.ir) ≡ false = ground arith in
          simp (up, down, zero_d, e, update-update)
      | inr e ↦
          let some_d : ltb 0 (ir_d c.ir) ≡ true = ground arith in
          simp (up, down, some_d, e, update-update)
    ]
