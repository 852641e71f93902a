-- ===== src/Python/Module.antt =====
-- src/sigma16module.c: `PyInit_sigma16`, with the references that it takes to the types of the module.
-- PyModule_AddObject takes a reference over when it succeeds, and leaves it to the caller when it fails.
use sigma16_emulator.Base.{ℕ, ◌+◌, ◌*◌, ◌≡◌, arith, Bool, true, false, if◌then◌else◌, List, [], ◌∷◌}
use sigma16_emulator.Python.{
  TypeObject, emulator_type, instruction_rrr_type, instruction_rx_type, instruction_exp0_type,
}

-- The calls of the C API, with whether they succeed.
pub data ModuleCall : Type 0 where
  type_ready : TypeObject → Bool → ModuleCall
  module_create : Bool → ModuleCall
  add_object : TypeObject → Bool → ModuleCall
  incref_type decref_type : TypeObject → ModuleCall
  decref_module : ModuleCall

-- Which calls succeed.
pub record ModuleApi : Type 0 where
  pub ready_ok : TypeObject → Bool
  pub create_ok : Bool
  pub add_ok : TypeObject → Bool

-- Whether the module is returned, or NULL; and the calls, the latest first.
abbrev pub Loaded : Type 0
Loaded = Bool × List ModuleCall

-- What the function does when a type cannot be added: after its own references it gives back one to
-- `EmulatorType`, unless that is the type, and the module.
abbrev pub give_up : TypeObject → List ModuleCall → Loaded
give_up emulator_type log = (false, decref_module ∷ decref_type emulator_type ∷ log)
give_up t log = (false, decref_module ∷ decref_type emulator_type ∷ decref_type t ∷ log)

module _ (api : ModuleApi) where
  unfoldable pub add_types : List TypeObject → List ModuleCall → Loaded
  add_types [] log = (true, log)
  add_types (t ∷ ts) log =
      let rest = add_types ts (add_object t true ∷ incref_type t ∷ log) in
      if api.add_ok t then rest else give_up t (add_object t false ∷ incref_type t ∷ log)

  unfoldable pub create_module : List ModuleCall → Loaded
  unfolding add_types
  create_module log =
      if api.create_ok
      then add_types
          (emulator_type ∷ instruction_rrr_type ∷ instruction_rx_type ∷ instruction_exp0_type ∷ [])
          (module_create true ∷ log)
      else (false, module_create false ∷ log)

  unfoldable pub ready_types : List TypeObject → List ModuleCall → Loaded
  unfolding create_module
  ready_types [] log = create_module log
  ready_types (t ∷ ts) log =
      let rest = ready_types ts (type_ready t true ∷ log) in
      if api.ready_ok t then rest else (false, type_ready t false ∷ log)

  unfoldable pub py_init_sigma16 : Loaded
  unfolding ready_types
  py_init_sigma16 =
      ready_types
        (emulator_type ∷ instruction_rrr_type ∷ instruction_rx_type ∷ instruction_exp0_type ∷ []) []

abbrev pub same_type : TypeObject → TypeObject → Bool
same_type emulator_type emulator_type = true
same_type instruction_rrr_type instruction_rrr_type = true
same_type instruction_rx_type instruction_rx_type = true
same_type instruction_exp0_type instruction_exp0_type = true
same_type _ _ = false

abbrev pub one : Bool → ℕ
one b = if b then 1 else 0

-- References to a type taken, given back, and taken over by the module.
unfoldable pub increfs : TypeObject → List ModuleCall → ℕ
increfs t [] = 0
increfs t (incref_type u ∷ log) = one (same_type t u) + increfs t log
increfs t (_ ∷ log) = increfs t log

unfoldable pub decrefs : TypeObject → List ModuleCall → ℕ
decrefs t [] = 0
decrefs t (decref_type u ∷ log) = one (same_type t u) + decrefs t log
decrefs t (_ ∷ log) = decrefs t log

unfoldable pub stolen : TypeObject → List ModuleCall → ℕ
stolen t [] = 0
stolen t (add_object u true ∷ log) = one (same_type t u) + stolen t log
stolen t (_ ∷ log) = stolen t log

-- Whatever fails, each type's references come out even, with those that the module took over, except
-- that one reference to `EmulatorType` too many is given back when NULL is returned after that type was
-- added.
pub py_init_sigma16-references :
    (api : ModuleApi) (t : TypeObject)
    → let (loaded, log) = py_init_sigma16 api in
      decrefs t log + stolen t log
      ≡ increfs t log + (if loaded then 0 else one (same_type t emulator_type) * stolen t log)
unfolding py_init_sigma16 ready_types create_module add_types increfs decrefs stolen
py_init_sigma16-references api emulator_type = ground arith
py_init_sigma16-references api instruction_rrr_type = ground arith
py_init_sigma16-references api instruction_rx_type = ground arith
py_init_sigma16-references api instruction_exp0_type = ground arith
