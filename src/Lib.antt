-- ===== src/Lib.antt =====
-- wasmjit, a just-in-time compiler from WebAssembly to x86-64 in C: its parser of the binary format,
-- its code generator, the instantiation of a module, checks of the runtime, and system calls of the
-- emscripten runtime.
--
-- The program reads a module (src/wasmjit/parse.c) into the structures of src/wasmjit/ast.h.
-- Ast models those structures: Ast/Instruction the instructions (`struct Instr`), Ast/Section the
-- sections and the module, Ast/Opcode and Ast/Valtype the codes that they hold. Ast/Path models the
-- pointers by which `read_instructions` fills nested vectors: a path names the field of the last
-- instruction of the vector above.
--
-- Parse models parse.c, a function for each of its functions, under its name. A reader takes a
-- `ParseState` and returns an `Outcome`: a value with the state after it, a failure with the state
-- it leaves, or `undef` where C leaves the behaviour undefined or an assertion fails. Parse/State
-- has the basic readers, Parse/Leb the variable-length integers at a width of `w` bits,
-- Parse/Instruction `read_instruction`, Parse/Instructions `read_instructions` with its explicit
-- stack, Parse/Types and Parse/Section the sections' readers, Parse/Module `read_module`.
--
-- Parse/Format is the binary format as relations between what is encoded and its bytes, which do not
-- mention the reader: instructions in Parse/Format.antt, the type section in Types, what the other
-- sections hold in Sections, the module in Module. The readers on encoded input are in Operands,
-- Instruction, Steps, Fuel, Bodies and Sequence for instructions, Readers and Module for the rest.
-- The sequences of instructions are those without memory.size and memory.grow: the specification has a byte
-- 0 behind their opcodes, which the reader leaves (Format/Instruction).
-- Parse/Takes is about the input that a reader steps over, and about its end; Parse/Module/Ends
-- about the end of `read_module`.
--
-- Two loops run on fuel, `run` and `read_sections`. Both are given the length of the input and one
-- more, which is enough because each of their rounds but the last takes a byte. Out of fuel is a
-- result of its own, apart from the failures that the source has.
--
-- Runtime models src/wasmjit/runtime.h and runtime.c. Its instances share objects through pointers:
-- Runtime/Store holds the objects in lists, and a pointer is a place in one of them. Runtime/Typecheck
-- has the checks of imports against their types, Runtime/Indirect the function that compiled code
-- calls for an indirect call.
--
-- Instantiate models wasmjit_instantiate in src/wasmjit/instantiate.c, from the module that the parser
-- reads to the runtime's instances. Its steps take a `Linking`: the store, the instance that is made and
-- the code segments that are mapped. Instantiate/Import looks up the imports, Instantiate/Define adds the
-- module's own types, functions, tables, memories, globals and exports, with Instantiate/Constant for
-- constant expressions and Instantiate/Create for a table or a memory; Instantiate/Segment has the element
-- and data segments, which change the objects of the store; Instantiate/Code fills in the types by
-- which functions are compiled, calls Compile for each, and writes the addresses that the code refers to;
-- Instantiate/Whole puts the steps together. Instantiate/Export is the lookup of an export, which is in
-- runtime.c. Mapping of segments, the addresses of objects, and what the
-- start function does are parameters. A step is done, an `error`, or `undefined` for an assertion that
-- fails or an access outside an object. Instantiate/Gives has the rules for the result of steps that
-- succeed; Define/Has, Define/Constants, Define/Declared, Code/References and the modules below Segment,
-- Create and Constant are about what the steps do.
--
-- Emscripten models the part of src/wasmjit/emscripten_runtime.c by which a module made by emscripten
-- calls Linux. Emscripten/Memory has the checks and copies of a module's memory, Emscripten/Syscall the
-- calls, each under its name in the source; what the host answers is a parameter, `Host`. A step is given the
-- memory, and a `return` in the middle of a call, a trap, and an access of the host outside the
-- memory are outcomes of their own. Memory/Keeps has the rules by which Syscall/Within and Syscall/Safety
-- follow the calls; Syscall/Named has the calls that are given paths, Syscall/Vector
-- those that are given a vector of buffers. Emscripten/Program has
-- the environment and the arguments, which are copied to memory that the module's own functions give:
-- what these do is a parameter, `Program`; Program/Requests and Program/Safety are about the places of
-- the copies. Memory/Copies is about the copy in parts, Syscall/Paths about strings, Syscall/Seek
-- about `_llseek`.
--
-- Compile models src/wasmjit/compile.c with assertions on. Compile/State has what the translation of a
-- function works on (the bytes written, the references into them, the branches, the labels and the
-- static stack) and the monad of its steps; Compile/Stack the static stack, Compile/Retpoline
-- indirect calls and traps, Compile/Branch `emit_br_code`. The cases of wasmjit_compile_instruction
-- are in Compile/Control, Call, Variable, Memory and Numeric, with a table of numeric opcodes in
-- Numeric/Cases, and Compile/Instruction chooses among them. Compile/Sequence is
-- wasmjit_compile_instructions with its stack, Compile/Frame the places of locals and
-- Compile/Function wasmjit_compile_function. The loops of Compile/Sequence run on fuel, of which each
-- instruction and each end of a vector takes one; out of fuel is a result of its own. Compile/Invoker
-- is the code by which C calls a function, and Invoker/Counts and Invoker/Laws are about it;
-- Compile/Hostfunc is that by which a translated function calls C, and Hostfunc/Size about its size. Compile/Emits is
-- a postcondition that every step keeps, with rules by which `search` follows the steps; Laws, Typing,
-- Spill, Bytes, Branch/Search, Frame/Places and Retpoline/Size are about what comes out of them. The machine code
-- is bytes here: what a processor does with them is not modelled.
--
-- The allocator is a parameter: whether a request of some bytes is met, given the input that is
-- left, and elsewhere given the state. The host is little-endian, with a `size_t` of 64 bits, and a
-- float is its bit pattern.
--
-- Not modelled: of the emscripten runtime sockets, stat, select, poll, signals, time, users
-- and everything for hosts other than Linux; the call of a function in runtime.c; the writer of object files, the kernel module and the command line, which are input and
-- output; nor messages, dumps and the release of memory, which compute nothing.
pub mod Prelude
pub mod Ast
pub mod Parse
pub mod Runtime
pub mod Instantiate
pub mod Compile
pub mod Emscripten
