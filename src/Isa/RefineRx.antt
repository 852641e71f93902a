-- ===== src/Isa/RefineRx.antt =====
-- The RX instructions of src/vm.c do what the architecture says, once `ir` is filled.
use sigma16_emulator.Base.{
  ℕ, ◌+◌, ◌-◌, ◌/◌, ◌%◌, ◌^◌, ◌≡◌, refl, arith, inl, inr, ltb, ◌==◌, fun_ext, ap, u16, bswap_16,
  bswap_16-bswap_16,
}
use sigma16_emulator.Base.Bits.{bit_and-one}
use sigma16_emulator.Base.Cases.{Bool-cases}
use sigma16_emulator.Cpu.{ir_d, ir_sa, ir_disp, update}
use sigma16_emulator.Memory.{mem_words}
use sigma16_emulator.Machine.{◌>>◌, World, M, silent}
use sigma16_emulator.Exec.Rx.{
  do_lea, do_load, do_store, do_jump, do_jumpc0, do_jumpc1, do_jumpf, do_jumpt, do_jal,
}
use sigma16_emulator.Isa
use sigma16_emulator.Isa.{RxOp, exec_rx, view, outcome}

-- At `w`, whose `ir` is filled, the code `m` has the effect of the instruction `op`.
abbrev pub PerformsRx : {H : Type 0} → World H → M H (Unit {0}) → RxOp → Type 0
PerformsRx w m op =
    let i = w.vm.cpu.ir in outcome (m w) ≡ exec_rx op (ir_d i) (ir_sa i) (ir_disp i) (view w)

-- Storing a word behind the view of the memory.
view-store :
    (mem : ℕ → ℕ) (a v : ℕ)
    → ◌≡◌ {A = ℕ → ℕ}
        (λ j. bswap_16 (update mem a (bswap_16 (u16 v)) j))
        (update (λ j. bswap_16 (mem j)) a (u16 v))
view-store mem a v = fun_ext λ j. elim (Bool-cases (a == j)) [
  | inl e ↦ rw e (bswap_16-bswap_16 (u16 v) (omega arith))
  | inr e ↦ rw e
]

module _ {H : Type 0} (w : World H) where
  pub do_lea-PerformsRx : PerformsRx w (do_lea silent) Isa.lea
  unfolding ◌>>◌ do_lea exec_rx
  do_lea-PerformsRx = (elim (Bool-cases (ir_d w.vm.cpu.ir == 0)) [
    | inl e ↦ rw (e, outcome)
    | inr e ↦ rw (e, outcome)
  ])

  pub do_load-PerformsRx : PerformsRx w (do_load silent) Isa.load
  unfolding ◌>>◌ do_load exec_rx
  do_load-PerformsRx = elim (Bool-cases (ir_d w.vm.cpu.ir == 0)) [
    | inl e ↦ rw (e, outcome)
    | inr e ↦
        rw (e, outcome)
          (elim (Bool-cases
            (ltb (u16 (w.vm.cpu.regs (ir_sa w.vm.cpu.ir) + ir_disp w.vm.cpu.ir)) mem_words)) [
              | inl inside ↦ rw (inside, outcome)
              | inr outside ↦ rw (outside, outcome)
            ])
  ]

  pub do_store-PerformsRx : PerformsRx w (do_store silent) Isa.store
  unfolding ◌>>◌ do_store exec_rx
  do_store-PerformsRx =
      elim (Bool-cases
        (ltb (u16 (w.vm.cpu.regs (ir_sa w.vm.cpu.ir) + ir_disp w.vm.cpu.ir)) mem_words)) [
          | inl inside ↦
              rw (inside, outcome)
                (ap (λ (m : ℕ → ℕ). Isa.next (Isa.skip 2 (record (view w) { mem = m })))
                  (view-store w.vm.mem _ (w.vm.cpu.regs (ir_d w.vm.cpu.ir))))
          | inr outside ↦ rw (outside, outcome)
        ]

  pub do_jump-PerformsRx : PerformsRx w (do_jump silent) Isa.jump
  unfolding ◌>>◌ do_jump exec_rx
  do_jump-PerformsRx = refl

  pub do_jumpc0-PerformsRx : PerformsRx w (do_jumpc0 silent) Isa.jumpc0
  unfolding ◌>>◌ do_jumpc0 exec_rx
  do_jumpc0-PerformsRx =
      rw (bit_and-one, outcome)
        (elim (Bool-cases (w.vm.cpu.regs 15 / 2 ^ (15 - ir_d w.vm.cpu.ir) % 2 == 1)) [
          | inl e ↦ rw (e, outcome)
          | inr e ↦ rw (e, outcome)
        ])

  pub do_jumpc1-PerformsRx : PerformsRx w (do_jumpc1 silent) Isa.jumpc1
  unfolding ◌>>◌ do_jumpc1 exec_rx
  do_jumpc1-PerformsRx =
      rw (bit_and-one, outcome)
        (elim (Bool-cases (w.vm.cpu.regs 15 / 2 ^ (15 - ir_d w.vm.cpu.ir) % 2 == 1)) [
          | inl e ↦ rw (e, outcome)
          | inr e ↦ rw (e, outcome)
        ])

  pub do_jumpf-PerformsRx : PerformsRx w (do_jumpf silent) Isa.jumpf
  unfolding ◌>>◌ do_jumpf exec_rx
  do_jumpf-PerformsRx = (elim (Bool-cases (w.vm.cpu.regs (ir_d w.vm.cpu.ir) == 0)) [
    | inl e ↦ rw (e, outcome)
    | inr e ↦ rw (e, outcome)
  ])

  pub do_jumpt-PerformsRx : PerformsRx w (do_jumpt silent) Isa.jumpt
  unfolding ◌>>◌ do_jumpt exec_rx
  do_jumpt-PerformsRx = (elim (Bool-cases (w.vm.cpu.regs (ir_d w.vm.cpu.ir) == 0)) [
    | inl e ↦ rw (e, outcome)
    | inr e ↦ rw (e, outcome)
  ])

  pub do_jal-PerformsRx : PerformsRx w (do_jal silent) Isa.jal
  unfolding ◌>>◌ do_jal exec_rx
  do_jal-PerformsRx = (elim (Bool-cases (ir_d w.vm.cpu.ir == 0)) [
    | inl e ↦ rw (e, outcome)
    | inr e ↦ rw (e, outcome)
  ])
