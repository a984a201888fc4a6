-- ===== src/Ast/Instruction.antt =====
-- src/wasmjit/ast.h: `struct Instr`. A vector of instructions with its count is an `Instrs`.
use wasmjit.Prelude.{ℕ, suc, List}

-- `struct Instr`: a constructor for each member of its union that an opcode uses. `block` and
-- `loop` have one layout, and so have the loads and stores, which keep their opcode.
mutual
  pub data Instr : Type 0 where
    plain : ℕ → Instr
    block : ℕ → Instrs → Instr
    loop : ℕ → Instrs → Instr
    if_ : ℕ → Instrs → Instrs → Instr
    br : ℕ → Instr
    br_if : ℕ → Instr
    br_table : List ℕ → ℕ → Instr
    call : ℕ → Instr
    call_indirect : ℕ → Instr
    get_local : ℕ → Instr
    set_local : ℕ → Instr
    tee_local : ℕ → Instr
    get_global : ℕ → Instr
    set_global : ℕ → Instr
    load_store : ℕ → ℕ → ℕ → Instr
    i32_const : ℕ → Instr
    i64_const : ℕ → Instr
    f32_const : ℕ → Instr
    f64_const : ℕ → Instr

  pub data Instrs : Type 0 where
    nil : Instrs
    cons : Instr → Instrs → Instrs

abbrev pub count : Instrs → ℕ
count nil = 0
count (cons i is) = suc (count is)

-- A vector grown by one element, which `realloc` and the store behind it make.
abbrev pub snoc : Instrs → Instr → Instrs
snoc nil j = cons j nil
snoc (cons i is) j = cons i (snoc is j)

abbrev pub append : Instrs → Instrs → Instrs
append nil js = js
append (cons i is) js = cons i (append is js)
