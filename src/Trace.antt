-- ===== src/Trace.antt =====
-- src/tracing.c: the trace of each instruction. A table of mnemonics is read without a check, and
-- a read past its end is undefined.
pub mod Dump
pub mod Laws
pub mod Observe
pub mod Names
pub mod Rows
use Prim.Native.String.{String}
use sigma16_emulator.Base.{
  ℕ, Bool, true, false, leb, ◌==◌, ◌&&◌, ◌||◌, if◌then◌else◌, List, [], ◌∷◌, ◌++◌, Option,
  get_elem?,
}
use sigma16_emulator.Cpu.{Cpu, Ir, ir_d, ir_op, ir_sa, ir_sb, ir_disp}
use sigma16_emulator.Machine.{
  Handler, Event, exec_start, exec_end, inst_rrr, inst_rx, inst_exp0, M, ret, cpu, print, defined,
  ◌>>=◌, ◌>>◌,
}
use sigma16_emulator.Text.{
  codes, decimal, hex4, pad_right, newline, tab, ansi_off, ansi_red, ansi_green, ansi_yellow,
  ansi_blue, ansi_magenta, ansi_cyan, ansi_white,
}

abbrev pub rrr_inst_mnemonics : List (List ℕ)
rrr_inst_mnemonics =
    codes "add"
    ∷ codes "sub"
    ∷ codes "mul"
    ∷ codes "div"
    ∷ codes "cmp"
    ∷ codes "cmplt"
    ∷ codes "cmpeq"
    ∷ codes "cmpgt"
    ∷ codes "inv"
    ∷ codes "and"
    ∷ codes "or"
    ∷ codes "xor"
    ∷ codes "nop"
    ∷ codes "trap"
    ∷ []

abbrev pub rx_inst_mnemonics : List (List ℕ)
rx_inst_mnemonics =
    codes "lea"
    ∷ codes "load"
    ∷ codes "store"
    ∷ codes "jump"
    ∷ codes "jumpc0"
    ∷ codes "jumpc1"
    ∷ codes "jumpf"
    ∷ codes "jumpt"
    ∷ codes "jal"
    ∷ []

unfoldable pub print_reg : ℕ → List ℕ
unfolding decimal
print_reg r =
    if r == 0
    then ansi_green ++ codes "R0" ++ ansi_off
    else if r == 15
    then ansi_red ++ codes "R15" ++ ansi_off
    else ansi_magenta ++ codes "R" ++ decimal r ++ ansi_off

unfoldable pub print_value : ℕ → List ℕ
unfolding hex4
print_value val = (if val == 0 then ansi_white else ansi_cyan) ++ hex4 val ++ ansi_off

-- `%-05s` and a tab: the width is five, filled with blanks on the right.
abbrev pub mnemonic_column : List ℕ → List ℕ
mnemonic_column m = pad_right 5 m ++ tab

abbrev pub comma : List ℕ
comma = codes ", "

unfoldable pub address_operand : Ir → List ℕ
unfolding print_value print_reg
address_operand ir =
    print_value (ir_disp ir)
    ++ ansi_off
    ++ codes "["
    ++ print_reg (ir_sa ir)
    ++ ansi_off
    ++ codes "]"
    ++ newline

unfoldable pub trace_branch : Ir → List ℕ → List ℕ
unfolding address_operand
trace_branch ir mnemonic =
    ansi_red
    ++ mnemonic_column mnemonic
    ++ (if ir_sb ir == 3 then [] else print_reg (ir_d ir) ++ comma)
    ++ address_operand ir

unfoldable pub trace_pseudoinst : Ir → List ℕ → List ℕ
unfolding print_reg
trace_pseudoinst ir mnemonic =
    ansi_blue
    ++ mnemonic_column mnemonic
    ++ print_reg (ir_sa ir)
    ++ comma
    ++ print_reg (ir_sb ir)
    ++ newline
    ++ ansi_off

unfoldable pub trace_rx : Ir → List ℕ → List ℕ
unfolding trace_branch
trace_rx ir mnemonic =
    if leb 3 (ir_sb ir) && leb (ir_sb ir) 8
    then trace_branch ir mnemonic
    else ansi_yellow
      ++ mnemonic_column mnemonic
      ++ print_reg (ir_d ir)
      ++ comma
      ++ address_operand ir

unfoldable pub trace_rrr : Ir → List ℕ → List ℕ
unfolding trace_pseudoinst
trace_rrr ir mnemonic =
    if ir_op ir == 4 || ir_op ir == 8
    then trace_pseudoinst ir mnemonic
    else ansi_blue
      ++ mnemonic_column mnemonic
      ++ print_reg (ir_d ir)
      ++ comma
      ++ print_reg (ir_sa ir)
      ++ comma
      ++ print_reg (ir_sb ir)
      ++ newline

module _ {H : Type 0} where
  -- The line's head, `[pc]` and a tab.
  unfoldable pub print_pc : M H (Unit {0})
  unfolding hex4
  print_pc = do c ← cpu; print (ansi_off ++ codes "[" ++ hex4 c.pc ++ codes "]" ++ tab)

  unfoldable pub sigma16_trace : Handler H
  unfolding print_pc trace_rrr trace_rx
  sigma16_trace exec_start = ret tt
  sigma16_trace exec_end = ret tt
  sigma16_trace inst_rrr = do
    print_pc
    c ← cpu
    mnemonic ← defined (get_elem? rrr_inst_mnemonics (ir_op c.ir))
    print (trace_rrr c.ir mnemonic)
  sigma16_trace inst_rx = do
    print_pc
    c ← cpu
    mnemonic ← defined (get_elem? rx_inst_mnemonics (ir_sb c.ir))
    print (trace_rx c.ir mnemonic)
  sigma16_trace inst_exp0 = print_pc
