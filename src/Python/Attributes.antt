-- ===== src/Python/Attributes.antt =====
-- The tables `*_members` of src/sigma16module.c, by which Python reads the objects of the module.
use Prim.Native.String.{String}
use sigma16_emulator.Base.{List, [], ◌∷◌, Option, none, some}
use sigma16_emulator.Python.{
  Pointer, TypeObject, emulator_type, instruction_rrr_type, instruction_rx_type,
  instruction_exp0_type, Fields, rrr, rx, exp0,
}

-- The fields that `offsetof` names.
pub data Field : Type 0 where
  field_d field_op field_sb field_sa field_disp field_ab : Field
  field_cpu field_memory field_executable field_trace_handler : Field

-- The field of an instruction object, where it has been set.
abbrev pub offset_of : Field → Fields → Option Pointer
offset_of field_d (rrr d op sb sa) = some d
offset_of field_op (rrr d op sb sa) = some op
offset_of field_sb (rrr d op sb sa) = some sb
offset_of field_sa (rrr d op sb sa) = some sa
offset_of field_d (rx d op sb sa disp) = some d
offset_of field_op (rx d op sb sa disp) = some op
offset_of field_sb (rx d op sb sa disp) = some sb
offset_of field_sa (rx d op sb sa disp) = some sa
offset_of field_disp (rx d op sb sa disp) = some disp
offset_of field_d (exp0 d op ab) = some d
offset_of field_op (exp0 d op ab) = some op
offset_of field_ab (exp0 d op ab) = some ab
offset_of _ _ = none

abbrev pub instruction_rrr_members : List (String × Field)
instruction_rrr_members =
    ("d", field_d) ∷ ("op", field_op) ∷ ("sb", field_sb) ∷ ("sa", field_sa) ∷ []

abbrev pub instruction_rx_members : List (String × Field)
instruction_rx_members =
    ("d", field_d)
    ∷ ("op", field_op)
    ∷ ("sb", field_sb)
    ∷ ("sa", field_sa)
    ∷ ("disp", field_disp)
    ∷ []

abbrev pub instruction_exp0_members : List (String × Field)
instruction_exp0_members = ("d", field_d) ∷ ("op", field_op) ∷ ("ab", field_ab) ∷ []

abbrev pub emulator_members : List (String × Field)
emulator_members =
    ("cpu", field_cpu)
    ∷ ("memory", field_memory)
    ∷ ("executable", field_executable)
    ∷ ("trace_handler", field_trace_handler)
    ∷ []

abbrev pub tp_members : TypeObject → List (String × Field)
tp_members emulator_type = emulator_members
tp_members instruction_rrr_type = instruction_rrr_members
tp_members instruction_rx_type = instruction_rx_members
tp_members instruction_exp0_type = instruction_exp0_members
