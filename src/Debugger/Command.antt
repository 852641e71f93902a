-- ===== src/Debugger/Command.antt =====
-- src/debugger.c: the commands, and `parse_cmd`, which takes one from a line.
use Prim.Native.String.{String}
use sigma16_emulator.Base.{
  ℕ, ◌/◌, Bool, ◌==◌, if◌then◌else◌, List, [], ◌∷◌, ◌++◌, Option, none, some,
}
use sigma16_emulator.Text.{codes, newline}
use sigma16_emulator.Debugger.Strtol.{tokens, parse_int, parse_int_default}

-- `struct debugger_cmd`, with its arguments. RESTART is commented out of the source.
pub data Cmd : Type 0 where
  step : ℕ → Cmd
  go_on trace : Cmd
  set_breakpoint : ℕ → Cmd
  dump_cpu : Cmd
  dump_mem : ℕ → ℕ → Cmd
  write_reg : ℕ → ℕ → Cmd
  read_reg : ℕ → Cmd
  help exit : Cmd

-- What `parse_cmd` comes to: a command, NULL after a message on `stderr`, or a null pointer read.
pub data Parsed : Type 0 where
  command : Cmd → Parsed
  invalid : List ℕ → Parsed
  crash : Parsed

-- One answer of the user, and whether the allocations that it leads to succeed: of the command,
-- of its arguments, and of a breakpoint.
pub record Prompt : Type 0 where
  pub line : List ℕ
  pub cmd_ok : Bool
  pub args_ok : Bool
  pub bp_ok : Bool

-- `create_cmd`, and what `create_cmd_*` do without arguments, and with: the block of arguments is not
-- checked.
abbrev pub create_cmd : Prompt → Cmd → Parsed
create_cmd p cmd = if p.cmd_ok then command cmd else invalid []

abbrev pub create_cmd_args : Prompt → Cmd → Parsed
create_cmd_args p cmd = if p.cmd_ok then (if p.args_ok then command cmd else crash) else invalid []

abbrev pub create_cmd_step : Prompt → ℕ → Parsed
create_cmd_step p steps = create_cmd_args p (step steps)

abbrev pub create_cmd_continue : Prompt → Parsed
create_cmd_continue p = create_cmd p go_on

abbrev pub create_cmd_help : Prompt → Parsed
create_cmd_help p = create_cmd p help

abbrev pub create_cmd_dump_cpu : Prompt → Parsed
create_cmd_dump_cpu p = create_cmd p dump_cpu

abbrev pub create_cmd_write_reg : Prompt → ℕ → ℕ → Parsed
create_cmd_write_reg p reg val = create_cmd_args p (write_reg reg val)

abbrev pub create_cmd_set_breakpoint : Prompt → ℕ → Parsed
create_cmd_set_breakpoint p addr = create_cmd_args p (set_breakpoint addr)

abbrev pub create_cmd_read_reg : Prompt → ℕ → Parsed
create_cmd_read_reg p reg = create_cmd_args p (read_reg reg)

-- The caller hands over the end as `start` and the start as `end`.
abbrev pub create_cmd_dump_mem : Prompt → ℕ → ℕ → Parsed
create_cmd_dump_mem p start end = create_cmd_args p (dump_mem start end)

abbrev pub create_cmd_exit : Prompt → Parsed
create_cmd_exit p = create_cmd p exit

abbrev pub create_cmd_trace : Prompt → Parsed
create_cmd_trace p = create_cmd p trace

abbrev message : String → Parsed
message s = invalid (codes s ++ newline)

unfoldable pub parse_cmd_write_reg : Prompt → List (List ℕ) → Parsed
unfolding parse_int
parse_cmd_write_reg p [] = message "specify register"
parse_cmd_write_reg p (reg ∷ []) = message "specify value"
parse_cmd_write_reg p (reg ∷ val ∷ rest) = create_cmd_write_reg p (parse_int reg) (parse_int val)

unfoldable pub parse_cmd_read_reg : Prompt → List (List ℕ) → Parsed
unfolding parse_int
parse_cmd_read_reg p [] = message "specify register"
parse_cmd_read_reg p (reg ∷ rest) = create_cmd_read_reg p (parse_int reg)

abbrev first : List (List ℕ) → Option (List ℕ)
first [] = none
first (t ∷ ts) = some t

abbrev second : List (List ℕ) → Option (List ℕ)
second [] = none
second (t ∷ ts) = first ts

unfoldable pub parse_cmd_step : Prompt → List (List ℕ) → Parsed
unfolding parse_int_default
parse_cmd_step p args = create_cmd_step p (parse_int_default (first args) 1)

-- The first argument is the end, and the second the start.
unfoldable pub parse_cmd_dump_mem : Prompt → List (List ℕ) → Parsed
unfolding parse_int_default
parse_cmd_dump_mem p args =
    let end = parse_int_default (first args) (0x200 / 2) in
    let start = parse_int_default (second args) 0 in create_cmd_dump_mem p end start

-- A missing address is reported, and then read all the same.
unfoldable pub parse_cmd_set_breakpoint : Prompt → List (List ℕ) → Parsed
unfolding parse_int
parse_cmd_set_breakpoint p [] = crash
parse_cmd_set_breakpoint p (addr ∷ rest) = create_cmd_set_breakpoint p (parse_int addr)

abbrev pub parse_cmd_help : Prompt → Parsed
parse_cmd_help p = create_cmd_help p

abbrev pub parse_cmd_dump_cpu : Prompt → Parsed
parse_cmd_dump_cpu p = create_cmd_dump_cpu p

abbrev pub parse_cmd_exit : Prompt → Parsed
parse_cmd_exit p = create_cmd_exit p

abbrev pub parse_cmd_continue : Prompt → Parsed
parse_cmd_continue p = create_cmd_continue p

abbrev pub parse_cmd_trace : Prompt → Parsed
parse_cmd_trace p = create_cmd_trace p

-- A token of one character, or none: `strcmp` with the names of the commands.
abbrev letter : List ℕ → Option ℕ
letter (c ∷ []) = some c
letter _ = none

abbrev parse_letter : Prompt → Option ℕ → List (List ℕ) → Parsed
parse_letter p none args = invalid []
parse_letter p (some c) args =
    if c == b'n'
    then parse_cmd_step p args
    else if c == b'b'
    then parse_cmd_set_breakpoint p args
    else if c == b'i'
    then parse_cmd_write_reg p args
    else if c == b'o'
    then parse_cmd_read_reg p args
    else if c == b't'
    then parse_cmd_trace p
    else if c == b'?'
    then parse_cmd_help p
    else if c == b'c'
    then parse_cmd_continue p
    else if c == b'd'
    then parse_cmd_dump_cpu p
    else if c == b'm'
    then parse_cmd_dump_mem p args
    else if c == b'e'
    then parse_cmd_exit p
    else invalid []

abbrev pub parse_tokens : Prompt → List (List ℕ) → Parsed
parse_tokens p [] = invalid []
parse_tokens p (token ∷ args) = parse_letter p (letter token) args

-- `parse_cmd`, after `readline` has returned a line that is not empty.
unfoldable pub parse_cmd : Prompt → Parsed
unfolding tokens parse_cmd_write_reg parse_cmd_read_reg parse_cmd_step parse_cmd_dump_mem
    parse_cmd_set_breakpoint
parse_cmd p = parse_tokens p (tokens p.line)
