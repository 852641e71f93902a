-- ===== src/Trace/Names.antt =====
-- The tables of mnemonics of src/tracing.c beside the dispatch tables of src/vm.c.
use sigma16_emulator.Base.{ℕ, List, ◌++◌, Option, none, some}
use sigma16_emulator.Machine.{World, Res, defined, print, ◌>>=◌}
use sigma16_emulator.Text.{codes, hex4, tab, ansi_off}
use sigma16_emulator.Exec.{Label, RxLabel}

-- The instruction that a label carries out, as README.md writes it.
abbrev pub label_name : Label → Option (List ℕ)
label_name Label.add = some (codes "add")
label_name Label.sub = some (codes "sub")
label_name Label.mul = some (codes "mul")
label_name Label.div = some (codes "div")
label_name Label.cmp = some (codes "cmp")
label_name Label.cmplt = some (codes "cmplt")
label_name Label.cmpeq = some (codes "cmpeq")
label_name Label.cmpgt = some (codes "cmpgt")
label_name Label.invold = some (codes "inv")
label_name Label.andold = some (codes "and")
label_name Label.orold = some (codes "or")
label_name Label.xorold = some (codes "xor")
label_name Label.nop = some (codes "nop")
label_name Label.trap = some (codes "trap")
label_name Label.decode_exp = none
label_name Label.decode_rx = none

abbrev pub rx_label_name : RxLabel → Option (List ℕ)
rx_label_name RxLabel.lea = some (codes "lea")
rx_label_name RxLabel.load = some (codes "load")
rx_label_name RxLabel.store = some (codes "store")
rx_label_name RxLabel.jump = some (codes "jump")
rx_label_name RxLabel.jumpc0 = some (codes "jumpc0")
rx_label_name RxLabel.jumpc1 = some (codes "jumpc1")
rx_label_name RxLabel.jumpf = some (codes "jumpf")
rx_label_name RxLabel.jumpt = some (codes "jumpt")
rx_label_name RxLabel.jal = some (codes "jal")
rx_label_name RxLabel.bad_op = none

-- The name of what stands at a place of a dispatch table.
abbrev pub name_at : {L : Type 0} → (L → Option (List ℕ)) → Option L → Option (List ℕ)
name_at name none = none
name_at name (some l) = name l

-- A line of the trace: the program counter, and then the instruction by its name, or, where there is none,
-- what C leaves undefined.
abbrev pub traced : {H : Type 0} → World H → (List ℕ → List ℕ) → Option (List ℕ) → Res H (Unit {0})
traced w show name =
    let head = ansi_off ++ codes "[" ++ hex4 w.vm.cpu.pc ++ codes "]" ++ tab in
    (defined name >>= λ n. print (show n)) (record w { out = w.out ++ head })
