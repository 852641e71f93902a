-- ===== src/Init.antt =====
-- src/vm.c: `sigma16_vm_init` and `sigma16_vm_del`. What the operating system answers is an argument;
-- the resources that a call leaves allocated are part of its result.
pub mod Image
pub mod Leaks
use sigma16_emulator.Base.{
  ℕ, ◌+◌, ◌*◌, Bool, true, false, ltb, if◌then◌else◌, List, Option, none, some, length, get_or,
}
use sigma16_emulator.Cpu.{Cpu}
use sigma16_emulator.Machine.{Vm}
use sigma16_emulator.Memory.{mem_bytes}

-- Whether `calloc` and `mmap` succeed, and the content of each file that `fopen` can open.
pub record Os : Type 0 where
  pub calloc_ok : Bool
  pub files : List ℕ → Option (List ℕ)
  pub mmap_ok : Bool

-- What has been allocated and not released.
pub record Held : Type 0 where
  pub vm_block : Bool
  pub file_handle : Bool
  pub mapping : Bool

-- `return 0` with the machine, `return -1`, or a read past the end of the mapping.
pub data InitResult : Type 0 where
  ready : Vm → Held → InitResult
  failed : Held → InitResult
  overrun : InitResult

-- The processor as `calloc` clears it.
abbrev pub zero_cpu : Cpu
zero_cpu = record {
  regs = λ _. 0;
  ir = record { first = 0; second = 0 };
  pc = 0;
  adr = 0;
  dat = 0;
  status = 0;
  sys = false;
  ie = false;
  mask = 0;
  req = 0;
  istat = 0;
  ipc = 0;
  vect = 0;
}

-- The bytes of the file from the start of the mapping, and zeros behind them, as the host reads
-- words.
abbrev pub load_words : List ℕ → ℕ → ℕ
load_words bytes i = get_or bytes (2 * i) 0 + 256 * get_or bytes (2 * i + 1) 0

-- What each call allocates, and what it releases.
abbrev pub nothing_held : Held
nothing_held = record { vm_block = false; file_handle = false; mapping = false }

abbrev pub calloc_block : Held → Held
calloc_block held = record held { vm_block = true }

abbrev pub open_file : Held → Held
open_file held = record held { file_handle = true }

abbrev pub map_memory : Held → Held
map_memory held = record held { mapping = true }

abbrev pub unmap_memory : Held → Held
unmap_memory held = record held { mapping = false }

abbrev pub free_block : Held → Held
free_block held = record held { vm_block = false }

-- `fread(mem, exec_size, 1, executable)` into the fresh mapping.
unfoldable pub fread_image : List ℕ → Held → InitResult
fread_image bytes held =
    if ltb mem_bytes (length bytes)
    then overrun
    else ready (record { cpu = zero_cpu; mem = load_words bytes }) held

-- From `fopen` on.
unfoldable pub open_image : Bool → Option (List ℕ) → Held → InitResult
unfolding fread_image
open_image mmap_ok none held = failed held
open_image mmap_ok (some bytes) held =
    let opened = open_file held in
    if mmap_ok then fread_image bytes (map_memory opened) else failed (free_block opened)

unfoldable pub sigma16_vm_init : Os → List ℕ → InitResult
unfolding open_image
sigma16_vm_init os fname =
    if os.calloc_ok
    then open_image os.mmap_ok (os.files fname) (calloc_block nothing_held)
    else failed nothing_held

unfoldable pub sigma16_vm_del : Held → Held
sigma16_vm_del held = free_block (unmap_memory held)
