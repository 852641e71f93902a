-- ===== src/Cpu/Inst.antt =====
-- src/instructions.h, and the union `ir` of src/cpu.h, on a little-endian host: four bytes, kept
-- as the two 16-bit words in which the host reads them. A bit field of width 4 that is declared
-- first takes the low half of its byte.
use sigma16_emulator.Base.{ℕ, ◌/◌, ◌%◌}

-- `union sigma16_inst_variant`: the words at offsets 0 and 2.
pub record Ir : Type 0 where
  pub first : ℕ
  pub second : ℕ

-- The fields of `sigma16_inst_rrr_t`, which `sigma16_inst_rx_t` and `sigma16_inst_exp0_t` begin
-- with as well.
abbrev pub ir_d : Ir → ℕ
ir_d ir = ir.first % 16

abbrev pub ir_op : Ir → ℕ
ir_op ir = ir.first / 16 % 16

abbrev pub ir_sb : Ir → ℕ
ir_sb ir = ir.first / 256 % 16

abbrev pub ir_sa : Ir → ℕ
ir_sa ir = ir.first / 4096 % 16

-- `disp` of `sigma16_inst_rx_t`.
abbrev pub ir_disp : Ir → ℕ
ir_disp ir = ir.second

-- `ab` of `sigma16_inst_exp0_t`: a `uint16_t`, which alignment puts at offset 2.
abbrev pub ir_ab : Ir → ℕ
ir_ab ir = ir.second
