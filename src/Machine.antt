-- ===== src/Machine.antt =====
-- src/vm.h and src/events.h: the virtual machine with what surrounds it, and the monad in which
-- the functions of src/vm.c are written. Where the source mutates `vm` or prints, an action
-- returns the new world.
use sigma16_emulator.Base.{ℕ, Bool, if◌then◌else◌, List, ◌++◌, Option, none, some}
use sigma16_emulator.Cpu.{Cpu}

-- `sigma16_vm_t`. `mem` holds words in the byte order of the host. The members `trace_handler`
-- and `vm_refl` are the argument `Handler` of what calls them, and the `host` state it keeps.
pub record Vm : Type 0 where
  pub cpu : Cpu
  pub mem : ℕ → ℕ

-- `enum sigma16_trace_event`.
pub data Event : Type 0 where
  exec_start exec_end inst_rrr inst_rx inst_exp0 : Event

-- Why execution is over: `return 0`; `return -1` after the message with the `pc`; a call of
-- `exit(0)`; a call of `abort()`; or an operation that C leaves undefined.
pub data Stop : Type 0 where
  halted : Stop
  bad_opcode : ℕ → Stop
  exited aborted undefined : Stop

-- The machine, the bytes written to `stdout`, and the state that the trace handler keeps.
pub record World (H : Type 0) : Type 0 where
  pub vm : Vm
  pub out : List ℕ
  pub host : H

pub data Res (H : Type 0) (A : Type 0) : Type 0 where
  ok : A → World H → Res H A
  stop : Stop → World H → Res H A

abbrev pub M : Type 0 → Type 0 → Type 0
M H A = World H → Res H A

-- What `vm->trace_handler` points to.
abbrev pub Handler : Type 0 → Type 0
Handler H = Event → M H (Unit {0})

abbrev pub ret : {H A : Type 0} → A → M H A
ret a w = ok a w

infixl 5 ◌>>=◌ ◌>>◌
unfoldable pub ◌>>=◌ : {H A B : Type 0} → M H A → (A → M H B) → M H B
◌>>=◌ m f w = elim (m w) [ ok a w' ↦ f a w' | stop s w' ↦ stop s w' ]

unfoldable pub ◌>>◌ : {H B : Type 0} → M H (Unit {0}) → M H B → M H B
unfolding ◌>>=◌
m >> k = m >>= λ _. k

module _ {H : Type 0} where
  abbrev pub finish : {A : Type 0} → Stop → M H A
  finish s w = stop s w

  -- The processor is read, and changed.
  abbrev pub cpu : M H Cpu
  cpu w = ok w.vm.cpu w

  abbrev pub set_cpu : Cpu → M H (Unit {0})
  set_cpu c w = ok tt (record w { vm = record (w.vm) { cpu = c } })

  abbrev pub modify_cpu : (Cpu → Cpu) → M H (Unit {0})
  modify_cpu f w = ok tt (record w { vm = record (w.vm) { cpu = f w.vm.cpu } })

  -- Bytes are written to `stdout`.
  abbrev pub print : List ℕ → M H (Unit {0})
  print s w = ok tt (record w { out = w.out ++ s })

  -- A branch on a test, between two actions.
  abbrev pub choose : {A : Type 0} → Bool → M H A → M H A → M H A
  choose b m k w = if b then m w else k w

  -- `none` stands for an operation that C leaves undefined.
  abbrev pub defined : {A : Type 0} → Option A → M H A
  defined none w = stop undefined w
  defined (some a) w = ok a w

-- No handler at all, as when ENABLE_TRACE is not defined.
abbrev pub silent : {H : Type 0} → Handler H
silent e = ret tt

-- Why an action did not go on, if it did not.
abbrev pub stop_of : {H A : Type 0} → Res H A → Option Stop
stop_of (ok a w) = none
stop_of (stop s w) = some s
