-- ===== src/Tests.antt =====
-- Concrete runs, and the theorems of the development at concrete inputs.
mod Programs
mod Witnesses
mod DebuggerWitnesses
mod MainWitnesses
mod PythonWitnesses
