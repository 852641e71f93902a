-- ===== src/Trace/Dump.antt =====
-- src/tracing.c: `dump_cpu` and `dump_vm_mem`, the displays of the debugger.
use Prim.Native.String.{String}
use sigma16_emulator.Base.{
  length, ℕ, zero, suc, ◌+◌, ◌-◌, ◌%◌, ◌^◌, Bool, ltb, leb, ◌==◌, ◌&&◌, ◌||◌, not, if◌then◌else◌,
  List, [], ◌∷◌, ◌++◌, set, replicate, u16, bit_and,
}
use sigma16_emulator.Cpu.{
  Cpu, Flag, get_flag, carry, int_overflow, nat_overflow, nat_less, int_less, equal, int_greater,
  nat_greater,
}
use sigma16_emulator.Memory.{read_mem}
use sigma16_emulator.Machine.{M, ret, cpu, print, choose, finish, undefined, ◌>>=◌, ◌>>◌}
use sigma16_emulator.Text.{
  codes, decimal, decimal2, hex4, newline, tab, ansi_off, ansi_red, ansi_yellow, ansi_blue,
  ansi_magenta, ansi_cyan, ansi_white,
}
use sigma16_emulator.Trace.{print_value}

abbrev flag_letter : Flag → ℕ → List ℕ → List ℕ
flag_letter f stat letter = (if get_flag f stat then ansi_yellow else ansi_blue) ++ letter

unfoldable pub print_status : ℕ → List ℕ
unfolding get_flag
print_status stat =
    flag_letter carry stat (codes "C")
    ++ flag_letter int_overflow stat (codes "v")
    ++ flag_letter nat_overflow stat (codes "V")
    ++ flag_letter nat_less stat (codes "L")
    ++ flag_letter int_less stat (codes "l")
    ++ flag_letter equal stat (codes "E")
    ++ flag_letter int_greater stat (codes "g")
    ++ flag_letter nat_greater stat (codes "G")
    ++ ansi_off

-- One line for a register below R15.
unfoldable pub dump_reg : ℕ → ℕ → List ℕ
unfolding print_value decimal2
dump_reg i v =
    ansi_magenta
    ++ codes "R"
    ++ decimal2 i
    ++ codes ": "
    ++ ansi_off
    ++ print_value v
    ++ (if v == 0
        then ansi_white ++ tab ++ codes "0" ++ ansi_off ++ newline
        else ansi_cyan ++ tab ++ decimal v ++ newline ++ ansi_off)

-- The `for` loop over the registers, at register `i` with `rounds` left.
unfoldable pub dump_regs : ℕ → ℕ → (ℕ → ℕ) → List ℕ
unfolding dump_reg
dump_regs zero i regs = []
dump_regs (suc rounds) i regs = dump_reg i (regs i) ++ dump_regs rounds (i + 1) regs

abbrev control : String → ℕ → List ℕ
control name v = ansi_red ++ codes name ++ codes ":" ++ tab ++ print_value v

abbrev bit : Bool → ℕ
bit b = if b then 1 else 0

unfoldable pub cpu_text : Cpu → List ℕ
unfolding dump_regs print_value print_status
cpu_text c =
    codes "General Registers:"
    ++ newline
    ++ dump_regs 15 0 c.regs
    ++ ansi_magenta
    ++ codes "R15: "
    ++ ansi_off
    ++ print_value (c.regs 15)
    ++ tab
    ++ print_status (c.regs 15)
    ++ newline
    ++ codes "Control Registers:"
    ++ newline
    ++ ansi_red
    ++ codes "IR:"
    ++ tab
    ++ ansi_blue
    ++ codes "N/A"
    ++ ansi_off
    ++ newline
    ++ control "PC" c.pc
    ++ newline
    ++ control "ADR" c.adr
    ++ newline
    ++ control "DAT" c.dat
    ++ newline
    ++ control "STATUS" c.status
    ++ tab
    ++ print_status c.status
    ++ ansi_off
    ++ newline
    ++ codes "Status Register Flags:"
    ++ newline
    ++ control "SYS" (bit c.sys)
    ++ newline
    ++ control "IE" (bit c.ie)
    ++ ansi_off
    ++ newline
    ++ codes "Interrupt and Exceptions:"
    ++ newline
    ++ control "MASK" c.mask
    ++ newline
    ++ control "REQ" c.req
    ++ newline
    ++ control "ISTAT" c.istat
    ++ tab
    ++ print_status c.istat
    ++ newline
    ++ control "IPC" c.ipc
    ++ newline
    ++ control "VECT" c.vect
    ++ newline

-- A row of characters: `.` stands for what cannot be printed.
unfoldable pub print_array_char : List ℕ → List ℕ
print_array_char [] = newline
print_array_char (c ∷ buf) =
    (if c == b'.' then ansi_white else ansi_yellow) ++ c ∷ ansi_off ++ print_array_char buf

-- What the loop prints in front of the word at index `i`.
abbrev row_head : ℕ → List ℕ → List ℕ
row_head i buf =
    if i % 16 == 0
    then (if i == 0 then [] else print_array_char buf) ++ codes "[" ++ hex4 i ++ codes "] "
    else []

abbrev pub blanks : ℕ → List ℕ
blanks zero = []
blanks (suc n) = codes "     " ++ blanks n

module _ {H : Type 0} where
  unfoldable pub dump_cpu : M H (Unit {0})
  unfolding cpu_text
  dump_cpu = do c ← cpu; print (cpu_text c)

  -- The `for` loop at index `i`, a 32-bit pattern, with `rounds` words left. Where `i` is negative
  -- so is `i % 16`, unless it is 0; a write to `buf[i % 16]` out of bounds is undefined.
  unfoldable pub dump_loop : ℕ → ℕ → List ℕ → M H (List ℕ)
  unfolding read_mem print_array_char hex4 print_value
  dump_loop zero i buf = ret buf
  dump_loop (suc rounds) i buf = do
    word ← read_mem (u16 i)
    print (row_head i buf)
    print (print_value word ++ codes " ")
    let printable = bit_and word 0xff
    let shown = if ltb printable b' ' || ltb b'~' printable then b'.' else printable
    choose (leb (2 ^ 31) i && not (i % 16 == 0) || leb (length buf) (i % 16)) (finish undefined)
        (dump_loop rounds (i + 1) (set buf (i % 16) shown))

  -- `start` and `end` are `int`s, whose conversion to `size_t` keeps the order of their patterns.
  unfoldable pub dump_vm_mem : ℕ → ℕ → M H (Unit {0})
  unfolding dump_loop
  dump_vm_mem start end = do
    buf ← dump_loop (end - start) start (replicate 17 0)
    let last = if ltb start end then end else start
    print (blanks ((16 - last % 16) % 16) ++ print_array_char buf)
