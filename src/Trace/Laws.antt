-- ===== src/Trace/Laws.antt =====
-- The tracer of src/tracing.c after an instruction that is not decoded.
use sigma16_emulator.Base.{ℕ, ◌≤◌, ◌≡◌, arith, none, some, get_elem?}
use sigma16_emulator.Cpu.{ir_op}
use sigma16_emulator.Machine.{World, undefined, stop_of, ◌>>=◌, ◌>>◌}
use sigma16_emulator.Exec.Alu.{do_nop}
use sigma16_emulator.Trace.{sigma16_trace, rrr_inst_mnemonics}

-- A table of fourteen mnemonics ends before the codes of the RX and EXP formats.
missing_mnemonic : (op : ℕ) → 14 ≤ op → get_elem? rrr_inst_mnemonics op ≡ none
missing_mnemonic op h = ground arith

-- `nop` does not decode, so the tracer takes the operation from the instruction before it: when that
-- was of the RX or EXP format, the mnemonic is read past the end of its table.
pub do_nop-undefined :
    {H : Type 0} (w : World H)
    → 14 ≤ ir_op w.vm.cpu.ir
    → stop_of (do_nop sigma16_trace w) ≡ some undefined
unfolding do_nop sigma16_trace ◌>>◌
do_nop-undefined w h = rw (missing_mnemonic _ h, ◌>>=◌)
