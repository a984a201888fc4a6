-- ===== src/Instantiate/Whole/Tests.antt =====
-- src/wasmjit/instantiate.c: a small module that imports a function.
use wasmjit.Prelude.{ℕ, ◌+◌, ◌≡◌, refl, true, [], ◌∷◌, All, List, Option, none, some, length, arith}
use wasmjit.Ast.Valtype
use wasmjit.Ast.Instruction.{i32_const, get_global, nil, cons}
use wasmjit.Ast.Section.{FuncType, ImportDesc, Code, Module}
use wasmjit.Runtime.Store.{FuncInst, ExportPtr, Store}
use wasmjit.Runtime.Typecheck.{typecheck_func}
use wasmjit.Instantiate.State.{ModuleInst, Attempt, done}
use wasmjit.Instantiate.Constant.{read_constant_expression}
use wasmjit.Instantiate.Constant.Typed.{Safe}
use wasmjit.Instantiate.Import.{Allocator, NamedModule, same_name, load_import, add_import}
use wasmjit.Instantiate.Define.{add_type, add_func, add_global, add_export, export_value, link}
use wasmjit.Instantiate.Code.{Machine, resolve_references}
use wasmjit.Instantiate.Code.References.{Names, compile_function-resolve_references}
use wasmjit.Instantiate.Gives.{Gives}
use wasmjit.Instantiate.Define.Declared.{Declares, fresh, prepare-Declares}
use wasmjit.Instantiate.Whole.{no_instance, prepare}
use wasmjit.Compile.State.{State, Result, outs, out_uint32, le_bytes}
use wasmjit.Compile.State
use wasmjit.Compile.Stack.{push_stack, take_top, pop_stack, stack_depth}
use wasmjit.Compile.Control.{Env, patch}
use wasmjit.Compile.Frame.{frame_of}
use wasmjit.Compile.Instruction.{compile_instruction}
use wasmjit.Compile.Sequence.{compile_instructions}
use wasmjit.Compile.Function.{compile_function}
use wasmjit.Compile.Hostfunc.{no_output}
use wasmjit.Compile.Typing.{enough_memory}
use wasmjit.Compile.Variable.{emit_get_global}
use wasmjit.Compile.Emits.Frames.{rounds}

abbrev constant : FuncType
constant = record { input_types = []; output_type = Valtype.i32 }

abbrev host_func : FuncInst
host_func = record {
  compiled_code = none;
  compiled_code_size = 0;
  invoker = none;
  invoker_size = 0;
  stack_usage = 0;
  type = constant;
}

abbrev host_store : Store
host_store = record { funcs = host_func ∷ []; tables = []; mems = []; globals = [] }

abbrev host_instance : ModuleInst
host_instance = record no_instance {
  exports = record { name = 102 ∷ []; value = ExportPtr.func 0 } ∷ [];
}

abbrev host_modules : List NamedModule
host_modules = record { name = 101 ∷ []; module_inst = host_instance } ∷ []

abbrev get_code : Code
get_code = record { size = 0; locals = []; instructions = cons (get_global 0) nil }

-- It imports `e.f`, and has a function that gives its global, which it exports.
abbrev importing : Module
importing = record {
  types = constant ∷ [];
  imports = record { module_name = 101 ∷ []; name = 102 ∷ []; desc = ImportDesc.func 0 } ∷ [];
  typeidxs = 0 ∷ [];
  tables = [];
  memories = [];
  globals =
      record {
        type = record { valtype = Valtype.i32; mut = 0 };
        instructions = cons (i32_const 3) nil;
      }
      ∷ [];
  exports = record { name = 103 ∷ []; idx_type = 0; idx = 1 } ∷ [];
  start = none;
  elements = [];
  codes = get_code ∷ [];
  datas = [];
}

abbrev granted : Allocator
granted _ _ = true

instance_of : Attempt wasmjit.Instantiate.Import.Linking → Option ModuleInst
instance_of (done l) = some l.module_inst
instance_of _ = none

abbrev linked : ModuleInst
linked = record {
  types = constant ∷ [];
  funcs = 0 ∷ 1 ∷ [];
  tables = [];
  mems = [];
  globals = 0 ∷ [];
  exports = record { name = 103 ∷ []; value = ExportPtr.func 1 } ∷ [];
  n_imported_funcs = 1;
  n_imported_tables = 0;
  n_imported_mems = 0;
  n_imported_globals = 0;
}

link_runs : instance_of (link granted host_modules importing (fresh host_store [])) ≡ some linked
unfolding instance_of link add_type load_import add_import same_name typecheck_func add_func
    add_global read_constant_expression add_export export_value
link_runs = refl

prepare-Declares_example :
    Gives
      (λ r. Declares importing r.0)
      (prepare granted host_modules importing (fresh host_store []))
prepare-Declares_example = prepare-Declares granted host_modules importing host_store []

abbrev machine : Machine
machine = record {
  map_segment = λ _ _. some 0x10000;
  room = λ n. n;
  mark_executable = λ _ _ _. true;
  type_address = λ i. 0x20000 + i;
  func_address = λ i. 0x30000 + i;
  table_address = λ i. 0x40000 + i;
  mem_address = λ i. 0x50000 + i;
  global_address = λ i. 0x60000 + i;
  resolve_indirect_call = 0x70000;
  trap = 0x70001;
  stack_top = 0x70002;
}

abbrev env : Env
env = record {
  func_types = constant ∷ [];
  functypes = constant ∷ constant ∷ [];
  globaltypes = record { valtype = Valtype.i32; mut = 0 } ∷ [];
  type = constant;
  locals_md = [];
  n_frame_locals = 0;
  check_stack = true;
  flags = record { intel_retpoline = true; amd_retpoline = true };
}

usage_of_result : Result ℕ → ℕ
usage_of_result (State.done usage s) = usage
usage_of_result _ = 0

state_of_result : Result ℕ → State
state_of_result (State.done usage s) = s
state_of_result _ = no_output

abbrev compiled : Result ℕ
compiled = compile_function enough_memory env (rounds get_code.instructions) get_code no_output

get_code_runs : compiled ≡ State.done (usage_of_result compiled) (state_of_result compiled)
unfolding usage_of_result state_of_result rounds compile_function frame_of outs out_uint32
    compile_instructions compile_instruction push_stack take_top pop_stack patch stack_depth
    emit_get_global State.out_memref
get_code_runs = refl

get_code_known : All (Names linked) (state_of_result compiled).memrefs
unfolding usage_of_result state_of_result rounds compile_function frame_of outs out_uint32
    compile_instructions compile_instruction push_stack take_top pop_stack patch stack_depth
    emit_get_global State.out_memref
get_code_known = (omega arith, tt)

compile_function-resolve_references_example :
    Safe
      (λ written. length written ≡ length (state_of_result compiled).output)
      (resolve_references machine linked
        (state_of_result compiled).memrefs
        (state_of_result compiled).output)
compile_function-resolve_references_example =
    compile_function-resolve_references enough_memory env get_code (usage_of_result compiled)
      (state_of_result compiled) machine linked get_code_runs get_code_known
