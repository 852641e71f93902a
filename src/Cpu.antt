-- ===== src/Cpu.antt =====
-- src/cpu.h and src/instructions.h: the processor state, the instruction register, and the
-- condition flags of a status register.
mod Inst
mod Flags
pub use Inst.*
unfoldable pub use Flags.*
use sigma16_emulator.Base.{ℕ, Bool, ◌==◌, if◌then◌else◌}

-- `sigma16_cpu_t`. The sixteen registers are a function of the register number.
pub record Cpu : Type 0 where
  pub regs : ℕ → ℕ
  pub ir : Ir
  pub pc : ℕ
  pub adr : ℕ
  pub dat : ℕ
  pub status : ℕ
  pub sys : Bool
  pub ie : Bool
  pub mask : ℕ
  pub req : ℕ
  pub istat : ℕ
  pub ipc : ℕ
  pub vect : ℕ

-- An array element stored anew.
abbrev pub update {ℓ} : {A : Type ℓ} → (ℕ → A) → ℕ → A → ℕ → A
update f i v j = if i == j then v else f j
