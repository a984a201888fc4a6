-- ===== src/Parse/Format.antt =====
-- The binary format of instructions, as the WebAssembly specification gives it, apart from memory.size
-- and memory.grow: a relation between instructions and bytes. Those two have a relation of their own,
-- `MemoryCode`: the specification has a reserved byte 0 behind their opcodes, which the reader
-- in src/wasmjit/parse.c does not read.
pub mod Operands
pub mod Instruction
pub mod Steps
pub mod Fuel
pub mod Bodies
pub mod Sequence
pub mod Types
pub mod Sections
pub mod Readers
pub mod Module
mod Tests
use wasmjit.Prelude.{
  ℕ, zero, suc, ◌+◌, ◌≤◌, ◌<◌, ◌%◌, ◌*◌, ◌^◌, ◌≡◌, Bool, true, false, List, [], ◌∷◌, ◌++◌, length,
}
use wasmjit.Ast.Instruction.{
  Instr, Instrs, plain, block, loop, if_, br, br_if, br_table, call, call_indirect, get_local,
  set_local, tee_local, get_global, set_global, load_store, i32_const, i64_const, f32_const,
  f64_const, nil, cons,
}
use wasmjit.Ast.Opcode
use wasmjit.Parse.State.{le_value}
use wasmjit.Parse.Leb.Value.{IsLeb, groups_value}
use wasmjit.Parse.Leb.Signed.{sign}

-- A u32: at most five groups, the number that they stand for.
pub record IsU32 (bs : List ℕ) (v : ℕ) : Type 0 where
  pub leb : IsLeb bs
  pub short : length bs ≤ 5
  pub value : groups_value bs ≡ v
  pub range : v < 2 ^ 32

-- A signed integer of `w` bits, as its two's complement `v`.
pub record IsSigned (w : ℕ) (bs : List ℕ) (v : ℕ) : Type 0 where
  pub leb : IsLeb bs
  pub short : 7 * length bs < w + 7
  pub value : (v + sign bs * 2 ^ (7 * length bs)) % 2 ^ w ≡ groups_value bs % 2 ^ w
  pub range : v < 2 ^ w

pub data AreU32 : List ℕ → List ℕ → Type 0 where
  none : AreU32 [] []
  more : {a b : List ℕ} {v : ℕ} {vs : List ℕ} → IsU32 a v → AreU32 b vs → AreU32 (a ++ b) (v ∷ vs)

-- The encoding of memory.size and memory.grow.
pub data MemoryCode : Instr → List ℕ → Type 0 where
  memory_code : (op : ℕ) → Opcode.has_reserved op ≡ true → MemoryCode (plain op) (op ∷ 0 ∷ [])

-- The instructions with no body, but memory.size and memory.grow.
pub data Code : Instr → List ℕ → Type 0 where
  plain_code :
      (op : ℕ)
      → Opcode.is_plain op ≡ true
      → Opcode.has_reserved op ≡ false
      → Code (plain op) (op ∷ [])
  br_code : {a : List ℕ} {v : ℕ} → IsU32 a v → Code (br v) (Opcode.br ∷ a)
  br_if_code : {a : List ℕ} {v : ℕ} → IsU32 a v → Code (br_if v) (Opcode.br_if ∷ a)
  br_table_code :
      {a b c : List ℕ} {labels : List ℕ} {v : ℕ}
      → IsU32 a (length labels)
      → AreU32 b labels
      → IsU32 c v
      → Code (br_table labels v) (Opcode.br_table ∷ (a ++ (b ++ c)))
  call_code : {a : List ℕ} {v : ℕ} → IsU32 a v → Code (call v) (Opcode.call ∷ a)
  call_indirect_code :
      {a : List ℕ} {v : ℕ}
      → IsU32 a v
      → Code (call_indirect v) (Opcode.call_indirect ∷ (a ++ 0 ∷ []))
  get_local_code : {a : List ℕ} {v : ℕ} → IsU32 a v → Code (get_local v) (Opcode.get_local ∷ a)
  set_local_code : {a : List ℕ} {v : ℕ} → IsU32 a v → Code (set_local v) (Opcode.set_local ∷ a)
  tee_local_code : {a : List ℕ} {v : ℕ} → IsU32 a v → Code (tee_local v) (Opcode.tee_local ∷ a)
  get_global_code : {a : List ℕ} {v : ℕ} → IsU32 a v → Code (get_global v) (Opcode.get_global ∷ a)
  set_global_code : {a : List ℕ} {v : ℕ} → IsU32 a v → Code (set_global v) (Opcode.set_global ∷ a)
  load_store_code :
      {a b : List ℕ} {align offset : ℕ} (op : ℕ)
      → Opcode.is_load_store op ≡ true
      → IsU32 a align
      → IsU32 b offset
      → Code (load_store op align offset) (op ∷ (a ++ b))
  i32_const_code :
      {a : List ℕ} {v : ℕ} → IsSigned 32 a v → Code (i32_const v) (Opcode.i32_const ∷ a)
  i64_const_code :
      {a : List ℕ} {v : ℕ} → IsSigned 64 a v → Code (i64_const v) (Opcode.i64_const ∷ a)
  f32_const_code :
      (a : List ℕ) → length a ≡ 4 → Code (f32_const (le_value a)) (Opcode.f32_const ∷ a)
  f64_const_code :
      (a : List ℕ) → length a ≡ 8 → Code (f64_const (le_value a)) (Opcode.f64_const ∷ a)

-- The whole format of the instructions with no body.
pub data AnyCode : Instr → List ℕ → Type 0 where
  coded : {i : Instr} {bs : List ℕ} → Code i bs → AnyCode i bs
  memory_coded : {i : Instr} {bs : List ℕ} → MemoryCode i bs → AnyCode i bs

-- Sequences of such instructions, without the terminal that ends them. An empty else clause can be
-- written out or left off.
pub data Codes : Instrs → List ℕ → Type 0 where
  empty : Codes nil []
  simple :
      {i : Instr} {is : Instrs} {a b : List ℕ} → Code i a → Codes is b → Codes (cons i is) (a ++ b)
  block_codes :
      (blocktype : ℕ) {body is : Instrs} {a b : List ℕ}
      → Codes body a
      → Codes is b
      → Codes
          (cons (block blocktype body) is)
          (Opcode.block ∷ blocktype ∷ (a ++ Opcode.block_terminal ∷ b))
  loop_codes :
      (blocktype : ℕ) {body is : Instrs} {a b : List ℕ}
      → Codes body a
      → Codes is b
      → Codes
          (cons (loop blocktype body) is)
          (Opcode.loop ∷ blocktype ∷ (a ++ Opcode.block_terminal ∷ b))
  if_codes :
      (blocktype : ℕ) {then_ is : Instrs} {a b : List ℕ}
      → Codes then_ a
      → Codes is b
      → Codes
          (cons (if_ blocktype then_ nil) is)
          (Opcode.if_ ∷ blocktype ∷ (a ++ Opcode.block_terminal ∷ b))
  if_else_codes :
      (blocktype : ℕ) {then_ else_ is : Instrs} {a b c : List ℕ}
      → Codes then_ a
      → Codes else_ b
      → Codes is c
      → Codes
          (cons (if_ blocktype then_ else_) is)
          (Opcode.if_ ∷ blocktype ∷ (a ++ Opcode.else_terminal ∷ (b ++ Opcode.block_terminal ∷ c)))
