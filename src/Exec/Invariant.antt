-- ===== src/Exec/Invariant.antt =====
-- What holds of the machine between any two actions of src/vm.c: every register, `ir`, `pc`, `adr`
-- and every word of memory fits its width, and R0 is 0.
pub mod Ops
pub mod Handlers
use sigma16_emulator.Base.{
  ℕ, zero, suc, ◌+◌, ◌-◌, ◌%◌, ◌/◌, ◌<◌, ◌≡◌, ◌≢◌, refl, arith, Bool, true, false, inl, inr, ltb,
  ◌==◌, ==_iff, if◌then◌else◌, Option, none, some, u16, word_mod, bswap_16, bswap_16-lt, get_elem?,
  bit_and, List,
}
use sigma16_emulator.Base.Cases.{Bool-cases}
use sigma16_emulator.Cpu.{Cpu, Ir, ir_d, ir_sa, ir_sb, ir_disp, update}
use sigma16_emulator.Memory.{fetch, read_mem, write_mem, mem_words}
use sigma16_emulator.Machine.{
  World, Handler, Event, inst_rrr, M, Res, ok, stop, ret, cpu, modify_cpu, print, defined, choose,
  ◌>>=◌, ◌>>◌,
}
use sigma16_emulator.Exec.Keeps.{
  Holds, ends, stops, Keeps, Any, Keeps-bind, Keeps-then, Keeps-ret, Keeps-finish, Keeps-choose,
}
use sigma16_emulator.Exec.Ops.{
  write_reg, clear_flags, advance, safe_update, interp_rrr, interp_exp0, interp_rx,
  compute_rx_eaddr, apply_op_rrr,
}

abbrev pub IsWord : ℕ → Type 0
IsWord n = n < word_mod

pub record IsCpu (c : Cpu) : Type 0 where
  pub regs_fit : (i : ℕ) → IsWord (c.regs i)
  pub zero_reg : c.regs 0 ≡ 0
  pub pc_fits : IsWord c.pc
  pub adr_fits : IsWord c.adr
  pub first_fits : IsWord c.ir.first
  pub second_fits : IsWord c.ir.second

pub record IsMachine {H : Type 0} (w : World H) : Type 0 where
  pub cpu_fits : IsCpu w.vm.cpu
  pub mem_fits : (a : ℕ) → IsWord (w.vm.mem a)

-- A write to any register but R0 keeps the processor well formed.
pub write_reg-IsCpu : (i v : ℕ) {c : Cpu} → i ≢ 0 → IsCpu c → IsCpu (write_reg i v c)
write_reg-IsCpu i v {c} ne h = record {
  regs_fit =
      λ j. elim (Bool-cases (i == j)) [ inl e ↦ rw e (omega arith) | inr e ↦ rw e (h.regs_fit j) ];
  zero_reg = ground (arith, h.zero_reg);
  pc_fits = h.pc_fits;
  adr_fits = h.adr_fits;
  first_fits = h.first_fits;
  second_fits = h.second_fits;
}

pub clear_flags-IsCpu : (c : Cpu) → IsCpu c → IsCpu (clear_flags c)
clear_flags-IsCpu c h = write_reg-IsCpu 15 0 (λ e. omega arith) h

pub advance-IsCpu : (n : ℕ) (c : Cpu) → IsCpu c → IsCpu (advance n c)
advance-IsCpu n c h = record {
  regs_fit = h.regs_fit;
  zero_reg = h.zero_reg;
  pc_fits = omega arith;
  adr_fits = h.adr_fits;
  first_fits = h.first_fits;
  second_fits = h.second_fits;
}

-- Words stay words behind a store.
update-IsWord :
    (mem : ℕ → ℕ) (a v : ℕ)
    → ((b : ℕ) → IsWord (mem b))
    → (b : ℕ) → IsWord (update mem a (bswap_16 (u16 v)) b)
update-IsWord mem a v h b = elim (Bool-cases (a == b)) [
  | inl here ↦ rw here (bswap_16-lt (u16 v) (omega arith))
  | inr there ↦ rw there (h b)
]

-- An action that keeps the machine well formed.
abbrev pub Preserves : {H : Type 0} → M H (Unit {0}) → Type 0
Preserves m = Keeps IsMachine Any m

module _ {H : Type 0} where
  pub cpu-Keeps : Keeps {H = H} IsMachine IsCpu cpu
  cpu-Keeps = record { keeps = λ w i. ends i.cpu_fits i }

  pub modify_cpu-Preserves :
      (f : Cpu → Cpu) → ((c : Cpu) → IsCpu c → IsCpu (f c)) → Preserves {H = H} (modify_cpu f)
  modify_cpu-Preserves f h = record {
    keeps = λ w i. ends tt (record { cpu_fits = h w.vm.cpu i.cpu_fits; mem_fits = i.mem_fits });
  }

  pub print-Preserves : (s : List ℕ) → Preserves {H = H} (print s)
  print-Preserves s = record {
    keeps = λ w i. ends tt (record { cpu_fits = i.cpu_fits; mem_fits = i.mem_fits });
  }

  pub defined-Keeps : {A : Type 0} (o : Option A) → Keeps {H = H} IsMachine Any (defined o)
  defined-Keeps none = record { keeps = λ w i. stops i }
  defined-Keeps (some a) = record { keeps = λ w i. ends tt i }

  pub fetch-Keeps : (a : ℕ) → Keeps {H = H} IsMachine IsWord (fetch a)
  unfolding fetch
  fetch-Keeps a = record {
    keeps = λ w i. elim (Bool-cases (ltb a mem_words)) [
      | inl e ↦ rw e (ends (i.mem_fits a) i)
      | inr e ↦ rw e (stops i)
    ];
  }

  pub read_mem-Keeps : (a : ℕ) → Keeps {H = H} IsMachine Any (read_mem a)
  unfolding read_mem
  read_mem-Keeps a = Keeps-bind (fetch-Keeps a) λ v _. Keeps-ret (bswap_16 v) tt

  pub write_mem-Preserves : (a v : ℕ) → Preserves {H = H} (write_mem a v)
  unfolding write_mem
  write_mem-Preserves a v = record {
    keeps = λ w i. elim (Bool-cases (ltb a mem_words)) [
      | inr e ↦ rw e (stops i)
      | inl e ↦ rw e (
          ends tt
            (record { cpu_fits = i.cpu_fits; mem_fits = update-IsWord w.vm.mem a v i.mem_fits }))
    ];
  }
