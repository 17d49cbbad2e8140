-- ===== src/Lib.antt =====
-- UHCR compiles numeric Python code for the hardware that it runs on, and runs it locally or as
-- jobs on other machines. This library models the part of the compiler between the front end and
-- the code generators, the assembler for x86-64, the runtime's dynamic array and its pool of
-- interned strings, the division of loops among threads, the pool of aligned buffers, the manager
-- of remote jobs, and the coordinator of workers.
--
-- How the parts interact. The front end calls the builder (uhcr/compiler/ir_builder.py), which
-- makes a function of the intermediate representation (uhcr/compiler/ir.py): blocks of
-- instructions in single-assignment form. The pipeline (uhcr/compiler/passes/pipeline.py) rewrites
-- it with four passes; the code generators read the result and write machine code with an
-- assembler. The dynamic array (uhcr/runtime/list_runtime.py) backs the list instructions. The
-- server hands work to the job manager (uhcr/network/jobs.py), which keeps the state of each job,
-- and the coordinator (uhcr/network/coordinator.py) chooses a worker for it.
--
-- Files and sources.
--   Prelude: tests, lists, integers, exceptions, dictionaries and equality as an interface.
--   Compiler/Ir: ir.py. Types has Type, Opcode and ListType; Function has Value and its subclasses,
--     Instruction, BasicBlock, Function and the validators; Machine and Paths give a semantics of
--     instructions on a machine that the theorems take as a parameter; Numbering has _reassign_ids.
--   Compiler/IrBuilder: ir_builder.py. State has the builder, the function objects on a heap and the
--     monad of the methods; Methods and Structured the methods; Typing what each opcode asks of its
--     operands, written apart from them, and which opcodes the builder checks; Fits what the other
--     methods leave to their callers; Rules, Emission, EmissionStructured and EmissionPhi the proofs,
--     Program the calls as data, Validated the instructions on strings.
--   Compiler/X86: x86_64/assembler.py. Assembler has the state, the encoding helpers and the patching of
--     labels, Methods the instructions; Decoder is a decoder after the instruction format; Fields,
--     Writes, Operands, Instructions, Encodings and Calls relate what they write to what it reads,
--     Patching and Branches treat the jumps, Program has the calls as data, Running, Assembly and
--     Completeness whole programs, Undeclared a missing label, Stack the prologue.
--   Compiler/Passes: passes/constant_folding.py, strength_reduction.py, dead_code.py, cse.py and
--     pipeline.py, one folder each: Defs has the pass (visit is the body of its loop, run is run), and
--     Sound and Run its proofs; Pipeline/Rounds has the pipeline's rounds written apart from it. Sweep and Substitution have what the passes share, Tables the tables of
--     replacements, Numbers the numbers of constants and compute the arithmetic of _try_fold.
--   Runtime/ListRuntime: list_runtime.py. Defs has the methods of List, Loops and Searches their loops,
--     Layout the representation of a list by cells, Calls the calls as data, Agreement and Refines
--     the comparison with plain lists, Slices slice and __eq__.
--   Runtime/StringPool: string_pool.py. Defs has InternedString and StringPool, with the objects on a
--     heap; Canonical one object for one text; Held, Counted and Reached the pool with the references
--     that its callers hold.
--   Runtime/Scheduler: scheduler.py, the division of a range among threads.
--   Storage/MemoryPool: memory_pool.py. Defs has AlignedBuffer and MemoryPool, with the buffers on a
--     heap; Classes the size classes and the copies; World and Reach the pool with its callers, as
--     steps; Invariant, Taken, Reset, Buffers and Counts the proofs, Twice a release made twice.
--   Network/Jobs: jobs.py. Status has JobStatus and the table of transitions, Methods the methods of
--     JobManager, Outcomes what each returns, Calls calls as data, Lifecycle, Submit and Invariant the
--     proofs.
--   Network/Coordinator: coordinator.py. Defs has WorkerInfo and the methods of CoordinatorNode, Assign
--     where an assignment goes, Choice the least-loaded choice and the hints, Turns round robin, Registry
--     the invariant.
--   Tests: a small machine, and runs of the definitions at concrete inputs.
--
-- Correspondence. An instruction has a key beside its printed number: the identity of the Python
-- object, by which the passes' dictionaries and the operands name it. A method that raises returns
-- err with the exception, and the caller keeps the state it had; where a method changes the state
-- and then raises (release of the string pool, allocate of the memory pool, the methods of the
-- builder and of the assembler), it returns both. The locks of JobManager, CoordinatorNode,
-- StringPool and MemoryPool make a method one step, so an interleaving is a sequence of calls. The
-- fresh identifier of uuid4, the clock and what the platform's allocator answers are arguments.
-- The builder's _val takes any object, so one that is no Value or number is a constructor of its
-- own. The assembler's code is a list of bytes.
--
-- Parameters and hypotheses. Floats are a type with operations (FloatOps), never assumed to be
-- exact. The theorems on passes ask of the machine what a pass relies on: Evaluates for folding,
-- Identities for strength reduction, IsQuiet for dead code (an opcode outside the pass's list
-- changes no state), IsPure for common subexpressions, and IsSsa of the function. Tests has a
-- machine with all of them. The theorems on the memory pool take callers that release only what
-- they hold, and so do those on the references to interned strings. Python's == on the elements of a
-- list is an operation without laws (PyEq), since on floats it is not identity.
--
-- Bounds and fuel. Numbers of Python are unbounded, as here; integers with a sign are ℤ. The loop
-- of dead code elimination runs on fuel, one more than the number of instructions, and each round
-- but the last removes one. The decoder's fuel is a number of instructions. Every other loop is
-- structural recursion.
--
-- Not modelled: printing; get_stats of the list and the string pool; the global pool; the code
-- generators, the assemblers for other machines and native code; the network servers, the other
-- storage, plugins, hardware detection and tools, which mostly call the host or other libraries;
-- and, so far, the instruction selection for x86-64. The job manager's payload is a sequence of
-- bytes, so the test of its Python type is left out, and a job or worker is changed only through
-- its table. Times are numbers of clock ticks, and a health threshold is not negative. Sizes of
-- buffers are not negative, and nor are registers. The passes here never fold
-- a constant that is a string (one is a label or the name of a condition, and no operand of
-- arithmetic), never take one constant object used twice for two equal operands of a subtraction,
-- and compare constants by value: that an object, NaN included, equals itself is left out.
pub mod Compiler
pub mod Network
pub mod Prelude
pub mod Runtime
pub mod Storage
pub mod Tests
