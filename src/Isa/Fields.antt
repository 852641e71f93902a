-- ===== src/Isa/Fields.antt =====
-- The bit fields of src/instructions.h, filled from memory in host order, are the fields of the
-- architecture's big-endian instruction word.
use sigma16_emulator.Base.{ℕ, ◌/◌, ◌%◌, ◌^◌, ◌<◌, ◌≡◌, arith, bswap_16, bit_and, ◌>>>◌}
use sigma16_emulator.Base.Bits.{bit_and_nibble}
use sigma16_emulator.Cpu.{Ir, ir_d, ir_op, ir_sa, ir_sb}

module _ (ir : Ir) (fits : ir.first < 2 ^ 16) where
  pub ir_d-bswap_16 : bswap_16 ir.first / 256 % 16 ≡ ir_d ir
  unfolding bswap_16
  ir_d-bswap_16 = omega arith

  pub ir_sa-bswap_16 : bswap_16 ir.first / 16 % 16 ≡ ir_sa ir
  unfolding bswap_16
  ir_sa-bswap_16 = omega arith

  pub ir_sb-bswap_16 : bswap_16 ir.first % 16 ≡ ir_sb ir
  unfolding bswap_16
  ir_sb-bswap_16 = omega arith

  pub ir_op-bswap_16 : bswap_16 ir.first / 4096 ≡ ir_op ir
  unfolding bswap_16
  ir_op-bswap_16 = omega arith

-- What DISPATCH computes is the operation code.
pub dispatch_code : (w : ℕ) → w < 2 ^ 16 → bit_and (w >>> 4) 0xf ≡ bswap_16 w / 4096
unfolding bswap_16
dispatch_code w h = omega (arith, bit_and_nibble (w >>> 4))
