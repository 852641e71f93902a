-- ===== src/Lib.antt =====
-- A verification library for the Sigma16 emulator: the virtual machine of src/vm.c, the tracer of
-- src/tracing.c, the interactive debugger of src/debugger.c, the program of src/main.c and the Python
-- module of src/sigma16module.c.
--
-- The program (`main`) loads an image into a fresh machine (`sigma16_vm_init`), and then runs the
-- dispatch loop (`sigma16_vm_exec`). Each instruction calls the machine's trace handler, which is the tracer
-- (`sigma16_trace`) or the debugger (`yield_debugger`); the debugger calls the tracer, changes the
-- machine by its commands, and may end the process. The Python module makes a machine in
-- `Emulator_init` and runs it in `Emulator_execute`, with `vm_trace_compat`, which hands instructions to a
-- callable of Python, as the trace handler.
--
-- Base       numbers, words of 16 bits, bit operations, lists and options on the native numbers.
-- Cpu        src/cpu.h and src/instructions.h: `Cpu` is `sigma16_cpu_t`; `Ir` is the union of the
--            instruction formats, as two words; Cpu/Flags is `sigma16_reg_status_t`.
-- Machine    src/vm.h and src/events.h: `Vm` is `sigma16_vm_t`; `World` adds the bytes written to
--            `stdout` and the state that the trace handler keeps; `M` is the monad of actions on a
--            world that go on with a value, or stop for a reason.
-- Memory     src/vm.c: `read_mem`, `write_mem`. Memory/Laws is about the two together.
-- Exec       src/vm.c: `sigma16_vm_exec`. Exec/Ops has the macros and helpers, Exec/Alu, Exec/Trap
--            and Exec/Rx one function for each label `do_*`. A step is one DISPATCH and the code
--            up to the next; `exec_loop` is at most `fuel` steps. The trace handler is a parameter.
--            Exec/Invariant is the well-formed machine and what keeps it, Exec/Runs the loop and
--            reachability, Exec/Output what `trap_write` prints, Exec/Compare the flags of `do_cmp`,
--            Exec/Observe a run under a trace handler that only observes beside one without.
-- Isa        the instruction set as the emulator implements it (an `add` sets the flags from the
--            number of its destination, and a `mul` past INT_MAX is undefined), without instruction
--            register, byte orders, bit fields and jump labels: a specification, which Isa/Refine
--            compares with the step and Isa/Runs with whole executions; Isa/Halting is about a machine
--            that is executed again, Isa/Outside about a program that leaves the mapping.
-- Init       src/vm.c: `sigma16_vm_init`, `sigma16_vm_del`. Init/Image is about the machine that
--            the first makes, Init/Leaks about what the two leave allocated.
-- Text       the numbers and colours that `printf` writes.
-- Trace      src/tracing.c: `sigma16_trace`; Trace/Dump has `dump_cpu` and `dump_vm_mem`; Trace/Laws
--            and Trace/Observe are about the tracer as the handler of an execution, Trace/Names about
--            its mnemonics beside the dispatch tables, Trace/Rows about the dump of memory.
-- Debugger   src/debugger.c: `yield_debugger` and the commands; Debugger/Strtol has the tokens and
--            numbers of a line, Debugger/Command has `parse_cmd`. Debugger/Registers,
--            Debugger/Stepping, Debugger/Breakpoints, Debugger/RoundTrip (with Debugger/Numbers),
--            Debugger/Rest and Debugger/Quit are about the register commands, steps and breakpoints,
--            the list of breakpoints, the reading of commands, a debugger that is never stopped, and
--            one that is left at once.
-- Main       src/main.c with the switches of src/config.h, and `debugger_init` of src/debugger.c.
--            Main/Build is about the whole program.
-- Python     src/sigma16module.c, compiled with ENABLE_TRACE: the objects, and the calls of the C API of
--            Python as a log. Python/Instruction has `*_FromBytes` and `*_dealloc`, Python/Handler
--            `vm_trace_compat`, Python/Emulator `Emulator_init`, `Emulator_execute` and
--            `Emulator_dealloc`, Python/Module `PyInit_sigma16` and the references it takes,
--            Python/Attributes the tables `*_members`; Python/Shown is about what a callable finds by them.
--            Python/Quiet, Python/Traced, Python/Observe, Python/Calls and Python/Session are about the
--            machine under that handler, Python/References, Python/RoundTrip and Python/Discipline
--            about references.
-- Fibonacci  the program of README.md as a guest of src/vm.c, with its run in Fibonacci/Halts.
-- Tests      runs of guest programs, and the theorems at concrete inputs.
--
-- The host is little-endian with an `int` of 32 bits, as the bit fields and `bswap_16` of the source
-- suppose. Numbers are native naturals, and every conversion to `uint16_t` is written as a remainder;
-- an `int` of the debugger is its 32-bit pattern. What C leaves undefined (an access past the mapping
-- or past a table, a product, a count of events or a number of a breakpoint past INT_MAX) is the
-- end `undefined`; nothing is said of what comes after.
--
-- The fuel of `exec_loop` and `sigma16_vm_exec` bounds the number of instructions, because a guest
-- program may run for ever; `none` means that it is still running. Exec/Runs relates the
-- fuel to the steps that lead to an end. The prompts that the user answers are a list
-- in the state of the debugger; the debugger reads past its end only where `readline` reports the end
-- of the input, which the source does not handle.
--
-- Parameters: the answers of the operating system (`Os`), the lines of the user and the success of
-- `malloc` (`Prompt`, `Session`), the trace handler where a theorem does not name one, and the C API of
-- Python: what its calls return (`Api`), which may depend on all calls before, and which calls succeed
-- while the module is loaded (`ModuleApi`). A reference count is the number of references that the
-- calls in the log have taken, less those given back.
--
-- Not modelled: the tables of methods and types of src/sigma16module.c, which are data for Python; a
-- trace handler in Python that runs or initialises the same emulator again; the binding compiled
-- without tracing; the scripts of tooling, which are not C; the freeing of the debugger's commands,
-- which only releases memory; the texts of `perror`.
pub mod Base
pub mod Cpu
pub mod Machine
pub mod Memory
pub mod Exec
pub mod Isa
pub mod Init
pub mod Text
pub mod Trace
pub mod Debugger
pub mod Main
pub mod Python
pub mod Fibonacci
mod Tests
