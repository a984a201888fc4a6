-- ===== src/Ast/Valtype.antt =====
-- src/wasmjit/ast.h: the value types by their numbers.
use wasmjit.Prelude.{ℕ}

abbrev pub null : ℕ
null = 0x40

abbrev pub i32 : ℕ
i32 = 0x7f

abbrev pub i64 : ℕ
i64 = 0x7e

abbrev pub f32 : ℕ
f32 = 0x7d

abbrev pub f64 : ℕ
f64 = 0x7c
