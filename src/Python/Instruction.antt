-- ===== src/Python/Instruction.antt =====
-- src/sigma16module.c: the instruction objects, made by `*_FromBytes` and unmade by `*_dealloc`.
use sigma16_emulator.Base.{ℕ, List, ◌∷◌, none, some}
use sigma16_emulator.Cpu.{Ir, ir_d, ir_op, ir_sb, ir_sa, ir_disp, ir_ab}
use sigma16_emulator.Machine.{M, ret, ◌>>=◌, ◌>>◌}
use sigma16_emulator.Python.{
  Object, Pointer, TypeObject, instruction_rrr_type, instruction_rx_type, instruction_exp0_type,
  Call, incref, tp_free, new_object, long_from_long, Api, Fields, rrr, rx, exp0, Binding, binding,
  logged, modify_binding, xdecref,
}

module _ (api : Api) where
  unfoldable pub py_object_new : TypeObject → M Binding Pointer
  py_object_new t = do b ← binding; let p = api.object_new b.log t; logged (new_object t p); ret p

  unfoldable pub py_long_from_long : ℕ → M Binding Pointer
  py_long_from_long n = do
    b ← binding
    let p = api.py_long b.log n
    logged (long_from_long n p)
    ret p

  -- The object's fields are stored.
  abbrev pub fill : Object → Fields → M Binding Pointer
  fill obj fields = do
    modify_binding (λ b. record b { instructions = (obj, fields) ∷ b.instructions })
    ret (some obj)

  unfoldable pub fill_rrr : Ir → Pointer → M Binding Pointer
  unfolding py_long_from_long
  fill_rrr ir none = ret none
  fill_rrr ir (some obj) = do
    logged (incref obj)
    d ← py_long_from_long (ir_d ir)
    op ← py_long_from_long (ir_op ir)
    sb ← py_long_from_long (ir_sb ir)
    sa ← py_long_from_long (ir_sa ir)
    fill obj (rrr d op sb sa)

  unfoldable pub instruction_rrr_from_bytes : Ir → M Binding Pointer
  unfolding py_object_new fill_rrr
  instruction_rrr_from_bytes ir = do obj ← py_object_new instruction_rrr_type; fill_rrr ir obj

  unfoldable pub fill_rx : Ir → Pointer → M Binding Pointer
  unfolding py_long_from_long
  fill_rx ir none = ret none
  fill_rx ir (some obj) = do
    logged (incref obj)
    d ← py_long_from_long (ir_d ir)
    op ← py_long_from_long (ir_op ir)
    sb ← py_long_from_long (ir_sb ir)
    sa ← py_long_from_long (ir_sa ir)
    disp ← py_long_from_long (ir_disp ir)
    fill obj (rx d op sb sa disp)

  unfoldable pub instruction_rx_from_bytes : Ir → M Binding Pointer
  unfolding py_object_new fill_rx
  instruction_rx_from_bytes ir = do obj ← py_object_new instruction_rx_type; fill_rx ir obj

  -- The member `sb` of the object stays unset.
  unfoldable pub fill_exp0 : Ir → Pointer → M Binding Pointer
  unfolding py_long_from_long
  fill_exp0 ir none = ret none
  fill_exp0 ir (some obj) = do
    logged (incref obj)
    d ← py_long_from_long (ir_d ir)
    op ← py_long_from_long (ir_op ir)
    ab ← py_long_from_long (ir_ab ir)
    fill obj (exp0 d op ab)

  unfoldable pub instruction_exp0_from_bytes : Ir → M Binding Pointer
  unfolding py_object_new fill_exp0
  instruction_exp0_from_bytes ir = do obj ← py_object_new instruction_exp0_type; fill_exp0 ir obj

-- The calls of `*_dealloc`, which Python makes when the last reference to an object is gone.
unfoldable pub instruction_rrr_dealloc :
    Object → Pointer → Pointer → Pointer → Pointer → List Call → List Call
instruction_rrr_dealloc self d op sb sa log =
    tp_free self ∷ xdecref sa (xdecref sb (xdecref op (xdecref d log)))

unfoldable pub instruction_rx_dealloc :
    Object → Pointer → Pointer → Pointer → Pointer → Pointer → List Call → List Call
instruction_rx_dealloc self d op sb sa disp log =
    tp_free self ∷ xdecref disp (xdecref sa (xdecref sb (xdecref op (xdecref d log))))

unfoldable pub instruction_exp0_dealloc :
    Object → Pointer → Pointer → Pointer → List Call → List Call
instruction_exp0_dealloc self d op ab log = tp_free self ∷ xdecref ab (xdecref op (xdecref d log))

unfoldable pub instruction_dealloc : Object → Fields → List Call → List Call
unfolding instruction_rrr_dealloc instruction_rx_dealloc instruction_exp0_dealloc
instruction_dealloc self (rrr d op sb sa) = instruction_rrr_dealloc self d op sb sa
instruction_dealloc self (rx d op sb sa disp) = instruction_rx_dealloc self d op sb sa disp
instruction_dealloc self (exp0 d op ab) = instruction_exp0_dealloc self d op ab
