-- ===== src/Python/Handler.antt =====
-- src/sigma16module.c: `vm_trace_compat`, the trace handler that calls back into Python.
use sigma16_emulator.Base.{none, some}
use sigma16_emulator.Machine.{
  Handler, exec_start, exec_end, inst_rrr, inst_rx, inst_exp0, M, ret, cpu, finish, undefined,
  ◌>>=◌, ◌>>◌,
}
use sigma16_emulator.Python.{
  Object, Pointer, tuple_pack, call_object, Api, Binding, binding, logged, modify_binding,
}
use sigma16_emulator.Python.Instruction.{
  instruction_rrr_from_bytes, instruction_rx_from_bytes, instruction_exp0_from_bytes,
}

module _ (api : Api) where
  -- PyTuple_Pack(1, item) takes a reference to `item`, which NULL does not survive.
  unfoldable pub py_tuple_pack : Pointer → M Binding Pointer
  py_tuple_pack none = finish undefined
  py_tuple_pack (some item) = do
    b ← binding
    let p = api.py_tuple b.log item
    logged (tuple_pack item p)
    ret p

  -- The object that the call returns is dropped, and so is NULL for an exception.
  unfoldable pub py_object_call_object : Object → Pointer → M Binding (Unit {0})
  py_object_call_object f args = do
    b ← binding
    let called = api.py_call b.log f args b.members
    modify_binding (λ b'. record b' { members = called.1 })
    logged (call_object f args called.0)

  unfoldable pub call_trace_handler : Pointer → Pointer → M Binding (Unit {0})
  unfolding py_tuple_pack py_object_call_object
  call_trace_handler none instruction = ret tt
  call_trace_handler (some f) instruction = do
    args ← py_tuple_pack instruction
    py_object_call_object f args

  -- What follows the `switch`.
  unfoldable pub trace_instruction : M Binding Pointer → M Binding (Unit {0})
  unfolding call_trace_handler
  trace_instruction from_bytes = do
    instruction ← from_bytes
    b ← binding
    call_trace_handler b.members.trace_handler instruction

  unfoldable pub vm_trace_compat : Handler Binding
  unfolding trace_instruction instruction_rrr_from_bytes instruction_rx_from_bytes
      instruction_exp0_from_bytes
  vm_trace_compat exec_start = ret tt
  vm_trace_compat exec_end = ret tt
  vm_trace_compat inst_rrr = trace_instruction (do c ← cpu; instruction_rrr_from_bytes api c.ir)
  vm_trace_compat inst_rx = trace_instruction (do c ← cpu; instruction_rx_from_bytes api c.ir)
  vm_trace_compat inst_exp0 = trace_instruction (do c ← cpu; instruction_exp0_from_bytes api c.ir)
