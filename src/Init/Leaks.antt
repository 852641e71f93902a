-- ===== src/Init/Leaks.antt =====
-- What `sigma16_vm_init` and `sigma16_vm_del` of src/vm.c leave allocated.
use sigma16_emulator.Base.{
  ℕ, ◌≡◌, arith, inl, inr, Bool, false, ◌&&◌, not, List, Option, none, some,
}
use sigma16_emulator.Base.Cases.{Option-cases}
use sigma16_emulator.Init.{
  Os, Held, InitResult, ready, failed, overrun, sigma16_vm_init, sigma16_vm_del,
}

-- What is still held when a caller that was given a machine has deleted it, or was given none.
abbrev pub left_by : InitResult → Option Held
left_by (ready vm held) = some (sigma16_vm_del held)
left_by (failed held) = some held
left_by overrun = none

-- Whether `fopen` comes to be called with success.
abbrev pub is_opened : Os → List ℕ → Bool
is_opened os fname = elim (os.files fname) [ none ↦ false | some bytes ↦ os.calloc_ok ]

-- Unless the file overruns the mapping, what the start of a machine, with its deletion where it succeeded,
-- leaves allocated: the file wherever it could be opened, whether the rest then succeeds or fails; the
-- block of the machine exactly where there was memory for it and the file could not be opened; and never
-- the mapping.
pub sigma16_vm_init-leaks :
    (os : Os) (fname : List ℕ) (held : Held)
    → left_by (sigma16_vm_init os fname) ≡ some held
    → (held.file_handle ≡ is_opened os fname)
      × (held.vm_block ≡ (os.calloc_ok && not (is_opened os fname)))
      × (held.mapping ≡ false)
unfolding sigma16_vm_init sigma16_vm_del
sigma16_vm_init-leaks os fname held e = elim (Option-cases (os.files fname)) [
  | inl missing ↦ ground arith
  | inr (bytes, found) ↦ ground arith
]
