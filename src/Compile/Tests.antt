-- ===== src/Compile/Tests.antt =====
-- src/wasmjit/compile.c on small inputs.
use wasmjit.Prelude.{
  ℕ, ◌+◌, ◌≡◌, refl, inl, ◌↔◌, true, false, [], ◌∷◌, Option, none, some, length, arith,
}
use wasmjit.Ast.Valtype
use wasmjit.Ast.Instruction.{Instrs, plain, block, if_, br, get_local, nil, cons}
use wasmjit.Ast.Section.{FuncType, Code}
use wasmjit.Parse.State.{ok, read_uint32}
use wasmjit.Compile.State.{
  Label, State, Flags, Result, done, undefined, le_bytes, out, outs, out_uint32, add_branch,
}
use wasmjit.Compile.Stack.{value, push_stack, pop_stack, take_top, stack_depth}
use wasmjit.Compile.Branch.{find_label, emit_br_code}
use wasmjit.Compile.Branch.Search.{values, labelled, f32_with, emit_br_code-f32}
use wasmjit.Compile.Control.{Env, patch, emit_br, below}
use wasmjit.Compile.Call.{Passed, none_passed, pass_all, pushed_offset, register_offset}
use wasmjit.Compile.Frame.{Frame, frame_of}
use wasmjit.Compile.Frame.Layout.{Layout}
use wasmjit.Compile.Frame.Places.{Gives, frame_of-Layout, frame_of_distinct}
use wasmjit.Compile.Instruction.{numeric_case, compile_instruction}
use wasmjit.Compile.Sequence.{compile_instructions}
use wasmjit.Compile.Function.{compile_function, fix_branches}
use wasmjit.Compile.Retpoline.{emit_trap}
use wasmjit.Compile.Retpoline.Size.{made, length_of, flags_of, emit_trap-trap_size}
use wasmjit.Compile.Numeric.{arithmetic, emit_numeric}
use wasmjit.Compile.Variable.{emit_get_local}
use wasmjit.Compile.Typing.{enough_memory, stack_of, numeric_case_typed}
use wasmjit.Compile.Emits.{Ends, Anything, Placed}
use wasmjit.Compile.Emits.Frames.{rounds, Framed}
use wasmjit.Compile.Emits.Fixed.{Fixes}
use wasmjit.Compile.Laws.{no_code, compile_function-Ends, compile_instructions-Fixes}
use wasmjit.Compile.Bytes.{read_uint32-le_bytes}
use wasmjit.Compile.Invoker.{emit_read, compile_invoker, invoker_pass_all}
use wasmjit.Compile.Invoker.Laws.{Finishes, Holds, compile_invoker-Finishes}
use wasmjit.Compile.Invoker.Counts.{invoker_pass_all-pass_all}
use wasmjit.Compile.Hostfunc.{compile_hostfunc}
use wasmjit.Compile.Hostfunc.Size.{enough, code_length, compile_hostfunc-size_of}
use wasmjit.Compile.Spill.{pushed_offset-register_offset}

-- A function of two i32, with an i32 as its result.
abbrev binary : FuncType
binary = record { input_types = Valtype.i32 ∷ Valtype.i32 ∷ []; output_type = Valtype.i32 }

abbrev plain_flags : Flags
plain_flags = record { intel_retpoline = false; amd_retpoline = false }

abbrev binary_env : Env
binary_env = record {
  func_types = [];
  functypes = [];
  globaltypes = [];
  type = binary;
  locals_md = [];
  n_frame_locals = 0;
  check_stack = true;
  flags = plain_flags;
}

-- The first where the second is not 0, else the sum of both.
abbrev choice : Instrs
choice = cons (get_local 1) (
    cons
      (if_ Valtype.i32 (cons (get_local 0) nil)
        (cons (get_local 0) (cons (get_local 1) (cons (plain 0x6a) nil))))
      nil)

abbrev choice_code : Code
choice_code = record { size = 0; locals = []; instructions = choice }

usage_of_result : Result ℕ → Option (ℕ × ℕ)
usage_of_result (done usage s) = some (usage, length s.output)
usage_of_result _ = none

choice_runs :
    usage_of_result (compile_function enough_memory binary_env 20 choice_code no_code)
    ≡ some (176, 75)
unfolding usage_of_result compile_function frame_of outs out_uint32 compile_instructions
    compile_instruction emit_get_local push_stack take_top pop_stack patch emit_numeric stack_depth
choice_runs = refl

compile_function-Ends_example :
    Ends Anything (compile_function enough_memory binary_env 20 choice_code no_code)
unfolding rounds
compile_function-Ends_example =
    compile_function-Ends enough_memory binary_env 20 choice_code (omega arith)

-- A block that is left at once.
abbrev leave : Instrs
leave = cons (block Valtype.null (cons (br 0) nil)) nil

abbrev left : State
left = record {
  output = 0xe9 ∷ 0x90 ∷ 0x90 ∷ 0x90 ∷ 0x90 ∷ [];
  memrefs = [];
  branches = record { branch_offset = 0; continuation_idx = 0 } ∷ [];
  labels = some 5 ∷ [];
  stack = [];
}

no_code-Placed_example : Placed no_code
no_code-Placed_example = record { memrefs_in = tt; branches_in = tt; labels_in = tt; stack_in = tt }

no_code-Framed_example : Framed no_code []
no_code-Framed_example = record { footers_in = tt; open_labels = λ i e. cc }

leave_runs : compile_instructions enough_memory binary_env 9 leave no_code ≡ done 0 left
unfolding compile_instructions compile_instruction emit_br emit_br_code out add_branch stack_depth
leave_runs = refl

compile_instructions-Fixes_example : Fixes left (fix_branches left.branches left)
unfolding rounds
compile_instructions-Fixes_example =
    compile_instructions-Fixes enough_memory binary_env 9 0 leave no_code left (omega arith)
      no_code-Placed_example no_code-Framed_example leave_runs

abbrev innermost : Label
innermost = record { arity = 1; continuation_idx = 0 }

emit_br_code-f32_example :
    (find_label 0 (values (Valtype.i32 ∷ []) (labelled innermost ∷ [])) 0
      ≡ some (record { above = 1; data_of = some innermost }))
    × (find_label 0 (values (Valtype.i32 ∷ []) (f32_with none ∷ labelled innermost ∷ [])) 0
        ≡ some (record { above = 1; data_of = none }))
    × (emit_br_code enough_memory 0 (record no_code {
      stack = values (Valtype.i32 ∷ []) (value Valtype.f32 ∷ labelled innermost ∷ []);
    })
        ≡ undefined)
emit_br_code-f32_example =
    emit_br_code-f32 enough_memory no_code (Valtype.i32 ∷ []) innermost [] none (inl refl, tt)

numeric_case_typed_example :
    stack_of (
      numeric_case enough_memory 0x6a
        (record no_code { stack = value Valtype.i32 ∷ value Valtype.i32 ∷ value Valtype.f64 ∷ [] }))
    ≡ some (value Valtype.i32 ∷ value Valtype.f64 ∷ [])
numeric_case_typed_example =
    numeric_case_typed 0x6a (arithmetic Valtype.i32 ((0x01 ∷ 0x04 ∷ 0x24 ∷ []) ∷ [])) refl no_code
      (value Valtype.f64 ∷ [])

emit_trap-trap_size_example :
    length_of (emit_trap enough_memory (flags_of true false) 5 no_code) ≡ made 39
emit_trap-trap_size_example = emit_trap-trap_size true false 5 no_code

read_uint32-le_bytes_example :
    read_uint32 (record { eof = false; input = 0x2a ∷ 0x01 ∷ 0x00 ∷ 0x00 ∷ 0xc3 ∷ [] })
    ≡ ok 0x12a (record { eof = false; input = 0xc3 ∷ [] })
unfolding le_bytes
read_uint32-le_bytes_example = read_uint32-le_bytes 0x12a (0xc3 ∷ []) false (omega arith)

abbrev one_stacked : Passed
one_stacked = record { n_movs = 6; n_xmm_movs = 0; n_stack = 0 }

pushed_offset-register_offset_example :
    (pushed_offset 8 6 0 one_stacked ≡ register_offset 8 6 0 one_stacked) ↔ (6 + 1 ≡ 8)
pushed_offset-register_offset_example =
    pushed_offset-register_offset 8 6 0 one_stacked (omega arith) (omega arith)

frame_of-Layout_example :
    Gives
      (λ frame. Layout frame.n_frame_locals 0 0 frame.locals_md)
      (frame_of enough_memory binary [] no_code)
frame_of-Layout_example = frame_of-Layout enough_memory binary [] no_code

abbrev binary_frame : Frame
binary_frame = record {
  locals_md =
      record { valtype = Valtype.i32; fp_offset = below 8 }
      ∷ record { valtype = Valtype.i32; fp_offset = below 16 }
      ∷ [];
  n_frame_locals = 2;
}

frame_runs : frame_of enough_memory binary [] no_code ≡ done binary_frame no_code
unfolding frame_of
frame_runs = refl

frame_of_distinct_example : ◌≡◌ {A = ℕ} 1 1
frame_of_distinct_example =
    frame_of_distinct enough_memory binary [] no_code no_code binary_frame 1 1
      (record { valtype = Valtype.i32; fp_offset = below 16 })
      (record { valtype = Valtype.i32; fp_offset = below 16 }) frame_runs refl refl refl

-- The first float of a function whose first argument is an integer is read into %xmm1.
read_second :
    emit_read enough_memory 1 Valtype.f32
      (record { n_movs = 1; n_xmm_movs = 0; n_stack = 0 })
      no_code
    ≡ done tt
        (record no_code { output = 0xf3 ∷ 0x0f ∷ 0x10 ∷ 0x8b ∷ 0x08 ∷ 0x00 ∷ 0x00 ∷ 0x00 ∷ [] })
unfolding out out_uint32 le_bytes
read_second = refl

compile_invoker-Finishes_example :
    Finishes
      (Holds 0x12345678)
      0
      (compile_invoker enough_memory plain_flags binary 0x12345678 no_code)
compile_invoker-Finishes_example =
    compile_invoker-Finishes enough_memory plain_flags binary 0x12345678 no_code (λ s n size. refl)

invoker_pass_all-pass_all_example :
    invoker_pass_all (Valtype.i32 ∷ Valtype.f64 ∷ Valtype.f32 ∷ []) none_passed
    ≡ pass_all (Valtype.i32 ∷ Valtype.f64 ∷ Valtype.f32 ∷ []) none_passed
invoker_pass_all-pass_all_example =
    invoker_pass_all-pass_all (Valtype.i32 ∷ Valtype.f64 ∷ Valtype.f32 ∷ []) none_passed

-- Seven integers leave no register for the instance.
abbrev seven : FuncType
seven = record {
  input_types =
      Valtype.i32 ∷ Valtype.i32 ∷ Valtype.i32 ∷ Valtype.i32 ∷ Valtype.i32 ∷ Valtype.i32
      ∷ Valtype.i64 ∷ [];
  output_type = Valtype.i32;
}

compile_hostfunc-size_of_example :
    code_length (compile_hostfunc enough_memory enough (flags_of false false) seven 0x1000 0x2000)
    ≡ made 42
compile_hostfunc-size_of_example = compile_hostfunc-size_of false false seven 0x1000 0x2000
