-- ===== src/Isa/Refine.antt =====
-- One round of src/vm.c beside one instruction of the architecture.
use mathlib.Core.Option
use sigma16_emulator.Base.{
  ℕ, zero, suc, ◌⊎◌, true, false, ==_ne, ◌+◌, ◌/◌, ◌<◌, ◌≡◌, refl, arith, inl, inr, ltb, lt→ltb,
  ltb→lt, ◌==◌, Option, none, some, get_elem?, get_elem?-map, bswap_16, word_mod,
}
use sigma16_emulator.Base.Cases.{Bool-cases, Option-cases}
use sigma16_emulator.Cpu.{ir_d, ir_sa, ir_sb, ir_disp}
use sigma16_emulator.Memory.{mem_words}
use sigma16_emulator.Machine.{◌>>◌, World, silent}
use sigma16_emulator.Exec.{
  Label, RxLabel, rfi, rx_dispatch_table, exp_dispatch_table, run_label, run_rx, decode_rx_inst,
  decode_exp_inst, step, dispatch_table,
}
use sigma16_emulator.Isa.{
  AluOp, RxOp, Operation, operations, rx_operations, exec_rx_code, exec_operation, isa_step, view,
  outcome,
}
use sigma16_emulator.Isa.Fields.{ir_d-bswap_16, ir_sa-bswap_16, ir_sb-bswap_16, dispatch_code}
use sigma16_emulator.Isa.RefineAlu
use sigma16_emulator.Isa.RefineAlu.{fetched, Performs}
use sigma16_emulator.Isa.RefineRx
use sigma16_emulator.Isa.RefineTrap.{do_trap-exec_trap}

-- The words of the memory are words.
abbrev pub HasWords : {H : Type 0} → World H → Type 0
HasWords w = (a : ℕ) → w.vm.mem a < word_mod

-- The label of the source that an operation is implemented at.
label : Operation → Label
label (Operation.alu AluOp.add) = Label.add
label (Operation.alu AluOp.sub) = Label.sub
label (Operation.alu AluOp.mul) = Label.mul
label (Operation.alu AluOp.div) = Label.div
label (Operation.alu AluOp.cmp) = Label.cmp
label (Operation.alu AluOp.cmplt) = Label.cmplt
label (Operation.alu AluOp.cmpeq) = Label.cmpeq
label (Operation.alu AluOp.cmpgt) = Label.cmpgt
label (Operation.alu AluOp.inv) = Label.invold
label (Operation.alu AluOp.and) = Label.andold
label (Operation.alu AluOp.or) = Label.orold
label (Operation.alu AluOp.xor) = Label.xorold
label Operation.nop = Label.nop
label Operation.trap = Label.trap
label Operation.exp = Label.decode_exp
label Operation.rx = Label.decode_rx

dispatch_table-lookup :
    (i : ℕ) → get_elem? dispatch_table i ≡ Option.map label (get_elem? operations i)
unfolding label
dispatch_table-lookup i = get_elem?-map label operations i

-- The label of an RX instruction, and of the codes that name none.
rx_label : Option RxOp → RxLabel
rx_label (some RxOp.lea) = RxLabel.lea
rx_label (some RxOp.load) = RxLabel.load
rx_label (some RxOp.store) = RxLabel.store
rx_label (some RxOp.jump) = RxLabel.jump
rx_label (some RxOp.jumpc0) = RxLabel.jumpc0
rx_label (some RxOp.jumpc1) = RxLabel.jumpc1
rx_label (some RxOp.jumpf) = RxLabel.jumpf
rx_label (some RxOp.jumpt) = RxLabel.jumpt
rx_label (some RxOp.jal) = RxLabel.jal
rx_label none = RxLabel.bad_op

rx_dispatch_table-lookup :
    (i : ℕ) → i < 16 → get_elem? rx_dispatch_table i ≡ some (rx_label (get_elem? rx_operations i))
unfolding rx_label
rx_dispatch_table-lookup i h = ground arith

exp_dispatch_table-lookup :
    (x : ℕ)
    → ((get_elem? exp_dispatch_table x ≡ some rfi) × ((bswap_16 x == 0) ≡ true))
      ⊎ ((get_elem? exp_dispatch_table x ≡ none) × ((bswap_16 x == 0) ≡ false))
unfolding bswap_16
exp_dispatch_table-lookup zero = inl (refl, refl)
exp_dispatch_table-lookup (suc x) = inr (refl, ==_ne _ _ (omega arith))

rx-PerformsRx :
    {H : Type 0} (w : World H) (op : Option RxOp)
    → let i = w.vm.cpu.ir in
      outcome (run_rx silent (rx_label op) w)
      ≡ exec_rx_code op (ir_d i) (ir_sa i) (ir_disp i) (view w)
unfolding ◌>>◌ run_rx rx_label
rx-PerformsRx w (some RxOp.lea) = RefineRx.do_lea-PerformsRx w
rx-PerformsRx w (some RxOp.load) = RefineRx.do_load-PerformsRx w
rx-PerformsRx w (some RxOp.store) = RefineRx.do_store-PerformsRx w
rx-PerformsRx w (some RxOp.jump) = RefineRx.do_jump-PerformsRx w
rx-PerformsRx w (some RxOp.jumpc0) = RefineRx.do_jumpc0-PerformsRx w
rx-PerformsRx w (some RxOp.jumpc1) = RefineRx.do_jumpc1-PerformsRx w
rx-PerformsRx w (some RxOp.jumpf) = RefineRx.do_jumpf-PerformsRx w
rx-PerformsRx w (some RxOp.jumpt) = RefineRx.do_jumpt-PerformsRx w
rx-PerformsRx w (some RxOp.jal) = RefineRx.do_jal-PerformsRx w
rx-PerformsRx w none = refl

module _ {H : Type 0} (w : World H) (inside : w.vm.cpu.pc < mem_words) (words : HasWords w) where
  alu-Performs : (op : AluOp) → Performs w (run_label silent (label (Operation.alu op))) op
  unfolding run_label label
  alu-Performs AluOp.add = RefineAlu.do_add-Performs w inside
  alu-Performs AluOp.sub = RefineAlu.do_sub-Performs w inside
  alu-Performs AluOp.mul = RefineAlu.do_mul-Performs w inside
  alu-Performs AluOp.div = RefineAlu.do_div-Performs w inside
  alu-Performs AluOp.cmp = RefineAlu.do_cmp-Performs w inside
  alu-Performs AluOp.cmplt = RefineAlu.do_cmplt-Performs w inside
  alu-Performs AluOp.cmpeq = RefineAlu.do_cmpeq-Performs w inside
  alu-Performs AluOp.cmpgt = RefineAlu.do_cmpgt-Performs w inside
  alu-Performs AluOp.inv = RefineAlu.do_invold-Performs w inside
  alu-Performs AluOp.and = RefineAlu.do_andold-Performs w inside
  alu-Performs AluOp.or = RefineAlu.do_orold-Performs w inside
  alu-Performs AluOp.xor = RefineAlu.do_xorold-Performs w inside

  exp-outcome :
      (word : ℕ) → outcome (decode_exp_inst silent w) ≡ exec_operation Operation.exp word (view w)
  unfolding ◌>>◌ decode_exp_inst exec_operation
  exp-outcome word =
      rw (lt→ltb _ _ inside, outcome)
        (elim (Bool-cases (ltb (w.vm.cpu.pc + 1) mem_words)) [
          | inr outside ↦ rw (outside, outcome)
          | inl second ↦
              rw (second, outcome)
                (elim (exp_dispatch_table-lookup (w.vm.mem (w.vm.cpu.pc + 1))) [
                  | inl (found, is_zero) ↦ rw (found, is_zero, outcome)
                  | inr (missing, not_zero) ↦ rw (missing, not_zero, outcome)
                ])
        ])

  rx-outcome :
      outcome (decode_rx_inst silent w)
      ≡ exec_operation Operation.rx (bswap_16 (w.vm.mem w.vm.cpu.pc)) (view w)
  unfolding ◌>>◌ decode_rx_inst exec_operation
  rx-outcome =
      rw (lt→ltb _ _ inside, outcome)
        (elim (Bool-cases (ltb (w.vm.cpu.pc + 1) mem_words)) [
          | inr outside ↦ rw (outside, outcome)
          | inl second ↦
              rw (second, outcome)
                (rw (rx_dispatch_table-lookup (ir_sb (fetched w)) (omega arith), outcome)
                  (rw
                    (
                      ir_sb-bswap_16 (fetched w) (words _),
                      ir_d-bswap_16 (fetched w) (words _),
                      ir_sa-bswap_16 (fetched w) (words _),
                    )
                    (rx-PerformsRx _ (get_elem? rx_operations (ir_sb (fetched w))))))
        ])

  operation-outcome :
      (o : Operation)
      → outcome (run_label silent (label o) w)
        ≡ exec_operation o (bswap_16 (w.vm.mem w.vm.cpu.pc)) (view w)
  unfolding exec_operation
  operation-outcome (Operation.alu op) =
      rw
        (
          ir_sb-bswap_16 (fetched w) (words _),
          ir_d-bswap_16 (fetched w) (words _),
          ir_sa-bswap_16 (fetched w) (words _),
        )
        (alu-Performs op)
  operation-outcome Operation.nop = unfold ◌>>◌ label run_label in RefineAlu.do_nop-exec_nop w
  operation-outcome Operation.trap =
      rw
        (
          ir_sb-bswap_16 (fetched w) (words _),
          ir_d-bswap_16 (fetched w) (words _),
          ir_sa-bswap_16 (fetched w) (words _),
        )
        (unfold ◌>>◌ label run_label in do_trap-exec_trap w inside)
  operation-outcome Operation.exp =
      unfold ◌>>◌ label run_label in exp-outcome (bswap_16 (w.vm.mem w.vm.cpu.pc))
  operation-outcome Operation.rx = unfold ◌>>◌ label run_label in rx-outcome

-- Where the memory holds words, one round of the dispatch loop, without tracing, takes the state
-- that a program sees to what the architecture's instruction makes of it: the same registers,
-- memory, program counter and output, or the same end.
pub step-isa_step :
    {H : Type 0} (w : World H) → HasWords w → outcome (step silent w) ≡ isa_step (view w)
unfolding ◌>>◌ step isa_step
step-isa_step w words = elim (Bool-cases (ltb w.vm.cpu.pc mem_words)) [
  | inr outside ↦ rw (outside, outcome)
  | inl inside ↦
      rw (inside, outcome)
        (rw (dispatch_code (w.vm.mem w.vm.cpu.pc) (words _), dispatch_table-lookup, outcome)
          (elim (Option-cases (get_elem? operations (bswap_16 (w.vm.mem w.vm.cpu.pc) / 4096))) [
            | inl missing ↦ rw (missing, outcome)
            | inr (o, found) ↦ rw (found, outcome) (operation-outcome w (ltb→lt _ _ inside) words o)
          ]))
]
