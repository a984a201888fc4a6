-- ===== src/Parse/Tests.antt =====
-- Runs of the reader of src/wasmjit/parse.c on small inputs.
use wasmjit.Prelude.{ℕ, ◌≡◌, refl, Bool, true, false, List, [], ◌∷◌, ◌++◌, arith}
use wasmjit.Ast.Instruction.{Instrs, plain, block, if_, br, i32_const, nil, cons}
use wasmjit.Ast.Opcode
use wasmjit.Ast.Path.{get, update}
use wasmjit.Parse.State.{ok, fail, undef, read_uint8, read_uint32, read_raw}
use wasmjit.Parse.Leb.{read_uleb, read_leb}
use wasmjit.Parse.Leb.Value.{read_uleb-IsLeb}
use wasmjit.Parse.Leb.Signed.{read_leb-IsLeb}
use wasmjit.Parse.Leb.Errors.{read_uleb_truncated, read_uleb_overlong}
use wasmjit.Parse.Instruction.{read_instruction}
use wasmjit.Parse.Instructions.{read_instructions}
use wasmjit.Parse.Format.{
  memory_code, memory_coded, IsU32, IsSigned, br_code, i32_const_code, plain_code, Codes, empty,
  simple, if_else_codes, block_codes,
}
use wasmjit.Parse.Format.Operands.{at}
use wasmjit.Parse.Format.Instruction.{read_instruction-AnyCode}
use wasmjit.Parse.Format.Sequence.{read_instructions-Codes}
use wasmjit.Parse.Takes.{Takes}
use wasmjit.Parse.Takes.Instructions.{read_instructions-Takes}
use wasmjit.Parse.Module.{read_module, read, empty_module}
use wasmjit.Parse.Module.Ends.{Ends, read_module-Ends}

abbrev roomy : List ℕ → ℕ → Bool
roomy input n = true

abbrev minus_two : List ℕ
minus_two = 0x7e ∷ []

-- An if with a br and a nop in its clauses, and an empty block after it.
abbrev nested_bytes : List ℕ
nested_bytes = 0x41 ∷ 1 ∷ 0x04 ∷ 0x40 ∷ 0x0c ∷ 0 ∷ 0x05 ∷ 0x01 ∷ 0x0b ∷ 0x02 ∷ 0x40 ∷ 0x0b ∷ []

abbrev nested_instrs : Instrs
nested_instrs =
    cons (i32_const 1)
      (cons (if_ 0x40 (cons (br 0) nil) (cons (plain 1) nil)) (cons (block 0x40 nil) nil))

read_leb-minus_two :
    read_leb 32 (at false (minus_two ++ 9 ∷ [])) ≡ ok 0xffff_fffe (at false (9 ∷ []))
unfolding read_leb
read_leb-minus_two = refl

nested :
    read_instructions roomy (at false (nested_bytes ++ 0x0b ∷ 7 ∷ []))
    ≡ ok nested_instrs (at false (7 ∷ []))
unfolding read_instructions read_instruction read_uint8 read_uleb read_leb get update
nested = refl

-- The header alone is a module with no section.
header :
    read_module roomy (at false (0 ∷ 0x61 ∷ 0x73 ∷ 0x6d ∷ 1 ∷ 0 ∷ 0 ∷ 0 ∷ []))
    ≡ read empty_module (at true [])
unfolding read_module read_uint32 read_uint8 read_raw
header = refl

zero_IsU32 : IsU32 (0 ∷ []) 0
zero_IsU32 = record { leb = omega arith; short = omega arith; value = refl; range = omega arith }

one_IsSigned : IsSigned 32 (1 ∷ []) 1
one_IsSigned = record { leb = omega arith; short = omega arith; value = refl; range = omega arith }

nested_Codes : Codes nested_instrs nested_bytes
nested_Codes = simple (i32_const_code one_IsSigned) (
    if_else_codes 0x40 (simple (br_code zero_IsU32) empty)
      (simple (plain_code 1 (unfold Opcode.is_plain in refl) refl) empty)
      (block_codes 0x40 empty empty))

read_instructions-Codes_example :
    read_instructions roomy (at false (nested_bytes ++ 0x0b ∷ 7 ∷ []))
    ≡ ok nested_instrs (at false (7 ∷ []))
read_instructions-Codes_example =
    read_instructions-Codes roomy (λ input size. refl) nested_Codes false (7 ∷ []) (omega arith)

read_module-Ends_example :
    Ends (read_module roomy (at false (0 ∷ 0x61 ∷ 0x73 ∷ 0x6d ∷ 1 ∷ 0 ∷ 0 ∷ 0 ∷ [])))
read_module-Ends_example =
    read_module-Ends roomy (at false (0 ∷ 0x61 ∷ 0x73 ∷ 0x6d ∷ 1 ∷ 0 ∷ 0 ∷ 0 ∷ []))

read_instructions-Takes_example :
    Takes 1
      (at false (nested_bytes ++ 0x0b ∷ []))
      (read_instructions roomy (at false (nested_bytes ++ 0x0b ∷ [])))
read_instructions-Takes_example =
    read_instructions-Takes roomy (at false (nested_bytes ++ 0x0b ∷ []))

-- memory.size with its reserved byte: the byte is read as `unreachable`.
memory_size_as_two :
    read_instructions roomy (at false (0x3f ∷ 0 ∷ 0x0b ∷ []))
    ≡ ok (cons (plain 0x3f) (cons (plain 0) nil)) (at false [])
unfolding read_instructions read_instruction read_uint8 get update
memory_size_as_two = refl

read_instruction-AnyCode_example :
    read_instruction roomy (at false (0x3f ∷ 0 ∷ 5 ∷ [])) ≡ ok (plain 0x3f) (at false (0 ∷ 5 ∷ []))
read_instruction-AnyCode_example =
    read_instruction-AnyCode roomy (λ input size. refl) (memory_coded (memory_code 0x3f refl)) false
      (5 ∷ [])

read_leb-IsLeb_example :
    read_leb 32 (at false (minus_two ++ 9 ∷ [])) ≡ ok 0xffff_fffe (at false (9 ∷ []))
read_leb-IsLeb_example =
    read_leb-IsLeb 32 0xffff_fffe minus_two (9 ∷ []) false (omega arith) (omega arith) (omega arith)
      refl

read_uleb-IsLeb_example :
    read_uleb 32 (at false (0xe5 ∷ 0x8e ∷ 0x26 ∷ 9 ∷ [])) ≡ ok 624485 (at false (9 ∷ []))
read_uleb-IsLeb_example =
    read_uleb-IsLeb 32 (0xe5 ∷ 0x8e ∷ 0x26 ∷ []) (9 ∷ []) false
      (omega arith, omega arith, (omega arith, omega arith, omega arith)) (omega arith)

read_uleb_truncated_example :
    (read_uleb 32 (at false (0x80 ∷ [])) ≡ fail (at true []))
    × (read_leb 32 (at false (0x80 ∷ [])) ≡ fail (at true []))
read_uleb_truncated_example =
    read_uleb_truncated 32 (0x80 ∷ []) false ((omega arith, omega arith), tt) (omega arith)

abbrev five_groups : List ℕ
five_groups = 0x80 ∷ 0x80 ∷ 0x80 ∷ 0x80 ∷ 0x80 ∷ []

read_uleb_overlong_example :
    (read_uleb 32 (at false (five_groups ++ 0 ∷ [])) ≡ undef)
    × (read_leb 32 (at false (five_groups ++ 0 ∷ [])) ≡ undef)
read_uleb_overlong_example =
    read_uleb_overlong 32 five_groups 0 [] false
      (
        (omega arith, omega arith),
        (
          (omega arith, omega arith),
          (
            (omega arith, omega arith),
            ((omega arith, omega arith), ((omega arith, omega arith), tt)),
          ),
        ),
      )
      (omega arith)
