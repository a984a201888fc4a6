-- ===== src/Parse/Format/Instruction.antt =====
-- read_instruction of src/wasmjit/parse.c on an encoded instruction with no body.
use wasmjit.Prelude.{
  ℕ, ◌≡◌, ◌∙◌, Bool, true, List, [], ◌∷◌, ◌++◌, refl, if◌then◌else◌, append_assoc, arith,
}
use wasmjit.Ast.Instruction.{Instr, plain}
use wasmjit.Ast.Opcode
use wasmjit.Parse.State.{Allocator, ok, read_uint8}
use wasmjit.Parse.Instruction.{
  read_br_table, read_call_indirect, read_load_store, read_operands, read_instruction,
}
use wasmjit.Parse.Format.{
  MemoryCode, memory_code, AnyCode, coded, memory_coded, Code, plain_code, br_code, br_if_code,
  br_table_code, call_code, call_indirect_code, get_local_code, set_local_code, tee_local_code,
  get_global_code, set_global_code, load_store_code, i32_const_code, i64_const_code, f32_const_code,
  f64_const_code,
}
use wasmjit.Parse.Format.Operands.{
  at, Meets, Reads, read_uleb-IsU32, read_leb-IsSigned, read_float_lem, read_double_lem,
  read_vector-AreU32,
}

-- The opcodes of `is_plain` have no case before theirs.
plain_operands :
    (alloc : Allocator) (op : ℕ)
    → Opcode.is_plain op ≡ true
    → Reads (read_operands alloc op) [] (plain op)
unfolding read_operands
plain_operands alloc op h eof rest = ground arith

load_store_operands :
    (alloc : Allocator) (op : ℕ) (eof : Bool) (bs : List ℕ)
    → Opcode.is_load_store op ≡ true
    → read_operands alloc op (at eof bs) ≡ read_load_store op (at eof bs)
unfolding read_operands
load_store_operands alloc op eof bs h = ground arith

-- What the reader leaves of the encoding of an instruction.
abbrev pub unread : Instr → List ℕ
unread (plain op) = if Opcode.has_reserved op then 0 ∷ [] else []
unread _ = []

unread-Code : {i : Instr} {bs : List ℕ} → Code i bs → unread i ≡ []
unread-Code (plain_code op h q) = rw q refl
unread-Code _ = refl

module _ (alloc : Allocator) (meets : Meets alloc) where
  pub read_instruction-Code :
      {i : Instr} {bs : List ℕ} → Code i bs → Reads (read_instruction alloc) bs i
  unfolding read_instruction read_uint8
  read_instruction-Code (plain_code op h q) eof rest = plain_operands alloc op h eof rest
  read_instruction-Code (br_code u) eof rest = rw (read_uleb-IsU32 u)
  read_instruction-Code (br_if_code u) eof rest = rw (read_uleb-IsU32 u)
  read_instruction-Code (br_table_code u us d) eof rest =
      unfold read_br_table in
      rw (
        append_assoc,
        append_assoc,
        read_uleb-IsU32 u,
        read_vector-AreU32 alloc 4 meets us,
        read_uleb-IsU32 d,
      )
  read_instruction-Code (call_code u) eof rest = rw (read_uleb-IsU32 u)
  read_instruction-Code (call_indirect_code u) eof rest =
      unfold read_call_indirect in rw (append_assoc, read_uleb-IsU32 u)
  read_instruction-Code (get_local_code u) eof rest = rw (read_uleb-IsU32 u)
  read_instruction-Code (set_local_code u) eof rest = rw (read_uleb-IsU32 u)
  read_instruction-Code (tee_local_code u) eof rest = rw (read_uleb-IsU32 u)
  read_instruction-Code (get_global_code u) eof rest = rw (read_uleb-IsU32 u)
  read_instruction-Code (set_global_code u) eof rest = rw (read_uleb-IsU32 u)
  read_instruction-Code (load_store_code op h u v) eof rest =
      load_store_operands alloc op eof _ h
      ∙ unfold read_load_store in rw (append_assoc, read_uleb-IsU32 u, read_uleb-IsU32 v)
  read_instruction-Code (i32_const_code u) eof rest = rw (read_leb-IsSigned 32 u)
  read_instruction-Code (i64_const_code u) eof rest = rw (read_leb-IsSigned 64 u)
  read_instruction-Code (f32_const_code a h) eof rest = rw (read_float_lem a h)
  read_instruction-Code (f64_const_code a h) eof rest = rw (read_double_lem a h)

  reserved_operands :
      (op : ℕ) → Opcode.has_reserved op ≡ true → Reads (read_operands alloc op) [] (plain op)
  reserved_operands op h = plain_operands alloc op (unfold Opcode.is_plain in ground arith)

  read_instruction-MemoryCode :
      {i : Instr} {bs : List ℕ}
      → MemoryCode i bs
      → (eof : Bool) (rest : List ℕ)
      → read_instruction alloc (at eof (bs ++ rest)) ≡ ok i (at eof (0 ∷ rest))
  unfolding read_instruction read_uint8
  read_instruction-MemoryCode (memory_code op h) eof rest = reserved_operands op h eof (0 ∷ rest)

  -- With an allocator that meets every request, `read_instruction` gets back every instruction that has
  -- no body from its encoding in the specification. It stops right after it, except that of memory.size
  -- and memory.grow it leaves the last byte, a 0, which is then taken for an instruction of its own.
  pub read_instruction-AnyCode :
      {i : Instr} {bs : List ℕ}
      → AnyCode i bs
      → (eof : Bool) (rest : List ℕ)
      → read_instruction alloc (at eof (bs ++ rest)) ≡ ok i (at eof (unread i ++ rest))
  read_instruction-AnyCode {i} {bs} (coded c) eof rest =
      rw (unread-Code c) (read_instruction-Code c eof rest)
  read_instruction-AnyCode (memory_coded (memory_code op h)) eof rest =
      rw h (read_instruction-MemoryCode (memory_code op h) eof rest)
