-- ===== src/Isa.antt =====
-- The architecture as a programmer sees it: sixteen registers, a program counter and a memory of
-- big-endian words, with one equation for each instruction. It has no instruction register, no
-- host byte order and no trace. A specification for src/vm.c.
pub mod Fields
pub mod Status
pub mod RefineAlu
pub mod RefineRx
pub mod RefineTrap
pub mod Refine
pub mod Runs
pub mod Halting
pub mod Outside
use sigma16_emulator.Base.{
  ℕ, zero, suc, ◌+◌, ◌-◌, ◌*◌, ◌/◌, ◌%◌, ◌^◌, Bool, true, false, ◌||◌, ltb, ◌==◌, if◌then◌else◌,
  not, List, [], ◌∷◌, ◌++◌, Option, none, some, get_elem?, u16, word_mod, bit_and, bit_or, bit_xor,
  bswap_16,
}
use sigma16_emulator.Base.Int.{ltℤ, int16}
use sigma16_emulator.Cpu.{update}
use sigma16_emulator.Memory.{mem_words}
use sigma16_emulator.Machine.{Stop, halted, bad_opcode, undefined, World, Res, ok, stop}

pub record State : Type 0 where
  pub regs : ℕ → ℕ
  pub pc : ℕ
  pub mem : ℕ → ℕ
  pub out : List ℕ

pub data Next : Type 0 where
  next : State → Next
  over : Stop → State → Next

pub data AluOp : Type 0 where
  add sub mul div cmp cmplt cmpeq cmpgt inv and or xor : AluOp

pub data RxOp : Type 0 where
  lea load store jump jumpc0 jumpc1 jumpf jumpt jal : RxOp

-- R0 is never written; a register takes a value modulo 2 ^ 16.
abbrev pub put : ℕ → ℕ → State → State
put d v s = if d == 0 then s else record s { regs = update s.regs d (u16 v) }

abbrev pub set_status : ℕ → State → State
set_status v s = record s { regs = update s.regs 15 (u16 v) }

abbrev pub skip : ℕ → State → State
skip n s = record s { pc = u16 (s.pc + n) }

abbrev pub weight : Bool → ℕ → ℕ
weight b v = if b then v else 0

-- The status word of a comparison of `a` with `b`.
abbrev pub comparison : ℕ → ℕ → ℕ
comparison a b =
    weight (ltb b a) 0x8000
    + weight (ltℤ (int16 b) (int16 a)) 0x4000
    + weight (a == b) 0x2000
    + weight (ltℤ (int16 a) (int16 b)) 0x1000
    + weight (ltb a b) 0x0800

-- A result in `d`, with the status register cleared behind it.
abbrev pub logical : ℕ → ℕ → State → Next
logical d v s = next (set_status 0 (skip 1 (put d v s)))

-- The register instructions with destination `d` and operands `sa` and `sb`.
unfoldable pub exec_alu : AluOp → ℕ → ℕ → ℕ → State → Next
exec_alu add d sa sb s =
    next (set_status (if d == 0 then 0x2800 else 0xc700) (skip 1 (put d (s.regs sa + s.regs sb) s)))
exec_alu sub d sa sb s = next (skip 1 (put d (s.regs sa + word_mod - s.regs sb) s))
exec_alu mul d sa sb s =
    if d == 0 || ltb (s.regs sa * s.regs sb) (2 ^ 31)
    then next (skip 1 (put d (s.regs sa * s.regs sb) s))
    else over undefined s
exec_alu div d sa sb s =
    if s.regs sb == 0
    then next (skip 1 s)
    else if d == 15
    then next (skip 1 (put d (s.regs sa / s.regs sb) s))
    else next (skip 1 (set_status (s.regs sa % s.regs sb) (put d (s.regs sa / s.regs sb) s)))
exec_alu cmp d sa sb s =
    let cleared = set_status 0 s in
    next (skip 1 (set_status (comparison (cleared.regs sa) (cleared.regs sb)) s))
exec_alu cmplt d sa sb s = logical d (weight (ltb (s.regs sa) (s.regs sb)) 1) s
exec_alu cmpeq d sa sb s = logical d (weight (s.regs sa == s.regs sb) 1) s
exec_alu cmpgt d sa sb s = logical d (weight (ltb (s.regs sb) (s.regs sa)) 1) s
exec_alu inv d sa sb s = logical d (word_mod - 1 - s.regs sa) s
exec_alu and d sa sb s = logical d (bit_and (s.regs sa) (s.regs sb)) s
exec_alu or d sa sb s = logical d (bit_or (s.regs sa) (s.regs sb)) s
exec_alu xor d sa sb s = logical d (bit_xor (s.regs sa) (s.regs sb)) s

abbrev pub exec_nop : State → Next
exec_nop s = next (set_status 0 (skip 1 s))

-- The effective address, and the bit of the status register that a jump names: bit 0 is the
-- leftmost.
abbrev pub address : ℕ → ℕ → State → ℕ
address sa disp s = u16 (s.regs sa + disp)

abbrev pub status_bit : ℕ → State → Bool
status_bit d s = s.regs 15 / 2 ^ (15 - d) % 2 == 1

abbrev pub go_to : ℕ → State → State
go_to a s = record s { pc = a }

-- The two-word instructions, with the displacement in the second word. A memory access past the
-- mapped words is undefined. `jal` stores its link before it forms the address.
unfoldable pub exec_rx : RxOp → ℕ → ℕ → ℕ → State → Next
exec_rx lea d sa disp s = next (skip 2 (put d (address sa disp s) s))
exec_rx load d sa disp s =
    if d == 0
    then next (skip 2 s)
    else if ltb (address sa disp s) mem_words
    then next (skip 2 (put d (s.mem (address sa disp s)) s))
    else over undefined s
exec_rx store d sa disp s =
    if ltb (address sa disp s) mem_words
    then next (skip 2 (record s { mem = update s.mem (address sa disp s) (u16 (s.regs d)) }))
    else over undefined s
exec_rx jump d sa disp s = next (go_to (address sa disp s) s)
exec_rx jumpc0 d sa disp s = next (if status_bit d s then skip 2 s else go_to (address sa disp s) s)
exec_rx jumpc1 d sa disp s = next (if status_bit d s then go_to (address sa disp s) s else skip 2 s)
exec_rx jumpf d sa disp s = next (if s.regs d == 0 then go_to (address sa disp s) s else skip 2 s)
exec_rx jumpt d sa disp s = next (if s.regs d == 0 then skip 2 s else go_to (address sa disp s) s)
exec_rx jal d sa disp s =
    let linked = put d (s.pc + 2) s in next (go_to (address sa disp linked) linked)

-- A step that goes on is followed by another.
infixl 5 ◌and_then◌
abbrev pub ◌and_then◌ : Next → (State → Next) → Next
◌and_then◌ (next s) f = f s
◌and_then◌ (over r s) f = over r s

-- The low bytes of `count` words from address `a` on are written.
unfoldable pub write_chars : ℕ → ℕ → State → Next
write_chars zero a s = next s
write_chars (suc count) a s =
    if ltb (u16 a) mem_words
    then write_chars count (a + 1) (record s { out = s.out ++ s.mem (u16 a) % 256 ∷ [] })
    else over undefined s

-- `trap` by the code in its first register: 0 halts, 2 writes, any other does nothing.
unfoldable pub exec_trap : ℕ → ℕ → ℕ → State → Next
exec_trap d sa sb s =
    let resume = λ (t : State). next (set_status 0 (skip 1 t)) in
    if s.regs d == 0
    then over halted s
    else if s.regs d == 2
    then write_chars (s.regs sb) (s.regs sa) s and_then resume
    else resume s

-- The instructions by the code in the leftmost four bits.
pub data Operation : Type 0 where
  alu : AluOp → Operation
  nop trap exp rx : Operation

abbrev pub operations : List Operation
operations =
    alu add
    ∷ alu sub
    ∷ alu mul
    ∷ alu div
    ∷ alu cmp
    ∷ alu cmplt
    ∷ alu cmpeq
    ∷ alu cmpgt
    ∷ alu inv
    ∷ alu and
    ∷ alu or
    ∷ alu xor
    ∷ nop
    ∷ trap
    ∷ exp
    ∷ rx
    ∷ []

abbrev pub rx_operations : List RxOp
rx_operations = lea ∷ load ∷ store ∷ jump ∷ jumpc0 ∷ jumpc1 ∷ jumpf ∷ jumpt ∷ jal ∷ []

-- A second word follows the instruction word, if the memory has one.
abbrev pub with_second : (ℕ → State → Next) → State → Next
with_second f s = if ltb (s.pc + 1) mem_words then f (s.mem (s.pc + 1)) s else over undefined s

-- Only `rfi`, whose second word is 0, is implemented, and it does nothing.
abbrev pub exec_exp : ℕ → State → Next
exec_exp second s = if second == 0 then next (skip 2 s) else over undefined s

abbrev pub exec_rx_code : Option RxOp → ℕ → ℕ → ℕ → State → Next
exec_rx_code (some op) d sa disp s = exec_rx op d sa disp s
exec_rx_code none d sa disp s = over (bad_opcode s.pc) s

unfoldable pub exec_operation : Operation → ℕ → State → Next
exec_operation (alu op) word = exec_alu op (word / 256 % 16) (word / 16 % 16) (word % 16)
exec_operation nop word = exec_nop
exec_operation trap word = exec_trap (word / 256 % 16) (word / 16 % 16) (word % 16)
exec_operation exp word = with_second exec_exp
exec_operation rx word =
    with_second
      (exec_rx_code (get_elem? rx_operations (word % 16)) (word / 256 % 16) (word / 16 % 16))

abbrev pub exec_code : Option Operation → ℕ → State → Next
exec_code (some op) word s = exec_operation op word s
exec_code none word s = over undefined s

-- One instruction of the architecture.
unfoldable pub isa_step : State → Next
isa_step s =
    if ltb s.pc mem_words
    then exec_code (get_elem? operations (s.mem s.pc / 4096)) (s.mem s.pc) s
    else over undefined s

-- What a program sees of the machine of src/vm.c.
abbrev pub view : {H : Type 0} → World H → State
view w = record {
  regs = w.vm.cpu.regs;
  pc = w.vm.cpu.pc;
  mem = λ a. bswap_16 (w.vm.mem a);
  out = w.out;
}

abbrev pub outcome : {H : Type 0} → Res H (Unit {0}) → Next
outcome (ok _ w) = next (view w)
outcome (stop s w) = over s (view w)
