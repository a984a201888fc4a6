-- ===== src/Compile/Memory.antt =====
-- src/wasmjit/compile.c: the loads and stores of wasmjit_compile_instruction. An access is tested
-- against the memory's size first; one that ends beyond it traps. The loads 0x30 to 0x35 and
-- OPCODE_I64_STORE16 have no case.
use wasmjit.Prelude.{
  ℕ, ◌+◌, ◌-◌, ◌^◌, List, [], ◌∷◌, Option, none, some, lookup, ltb, ◌==◌, if◌then◌else◌,
}
use wasmjit.Ast.Valtype
use wasmjit.Compile.State.{
  Flags, memref_mem, Emit, skip, wrong, ensure, ◌>>◌, Allocator, out, outs, out_uint32, out_memref,
}
use wasmjit.Compile.Stack.{push_stack, pop_type}
use wasmjit.Compile.Retpoline.{trap_size, emit_trap}

-- WASMJIT_TRAP_MEMORY_OVERFLOW
abbrev pub trap_memory_overflow : ℕ
trap_memory_overflow = 5

-- Offsets of the fields of `struct MemInst`.
abbrev pub meminst_data : ℕ
meminst_data = 0

abbrev pub meminst_size : ℕ
meminst_size = 8

-- A load or store: the bytes that it accesses, the type of the value and the last instruction.
pub record Access : Type 0 where
  pub mem_size : ℕ
  pub valtype : ℕ
  pub code : List ℕ

abbrev pub loads : List (ℕ × Access)
loads =
    (0x28, record { mem_size = 4; valtype = Valtype.i32; code = (0x8b ∷ 0x04 ∷ 0x30 ∷ []) })
    ∷ (
      0x29,
      record { mem_size = 8; valtype = Valtype.i64; code = (0x48 ∷ 0x8b ∷ 0x04 ∷ 0x30 ∷ []) },
    )
    ∷ (0x2a, record { mem_size = 4; valtype = Valtype.f32; code = (0x8b ∷ 0x04 ∷ 0x30 ∷ []) })
    ∷ (
      0x2b,
      record { mem_size = 8; valtype = Valtype.f64; code = (0x48 ∷ 0x8b ∷ 0x04 ∷ 0x30 ∷ []) },
    )
    ∷ (
      0x2c,
      record { mem_size = 1; valtype = Valtype.i32; code = (0x0f ∷ 0xbe ∷ 0x04 ∷ 0x30 ∷ []) },
    )
    ∷ (
      0x2d,
      record { mem_size = 1; valtype = Valtype.i32; code = (0x0f ∷ 0xb6 ∷ 0x04 ∷ 0x30 ∷ []) },
    )
    ∷ (
      0x2e,
      record { mem_size = 2; valtype = Valtype.i32; code = (0x0f ∷ 0xbf ∷ 0x04 ∷ 0x30 ∷ []) },
    )
    ∷ (
      0x2f,
      record { mem_size = 2; valtype = Valtype.i32; code = (0x0f ∷ 0xb7 ∷ 0x04 ∷ 0x30 ∷ []) },
    )
    ∷ []

abbrev pub stores : List (ℕ × Access)
stores =
    (0x36, record { mem_size = 4; valtype = Valtype.i32; code = (0x89 ∷ 0x7c ∷ 0x30 ∷ 0xfd ∷ []) })
    ∷ (
      0x37,
      record {
        mem_size = 8;
        valtype = Valtype.i64;
        code = (0x48 ∷ 0x89 ∷ 0x7c ∷ 0x30 ∷ 0xf9 ∷ []);
      },
    )
    ∷ (
      0x38,
      record { mem_size = 4; valtype = Valtype.f32; code = (0x89 ∷ 0x7c ∷ 0x30 ∷ 0xfd ∷ []) },
    )
    ∷ (
      0x39,
      record {
        mem_size = 8;
        valtype = Valtype.f64;
        code = (0x48 ∷ 0x89 ∷ 0x7c ∷ 0x30 ∷ 0xf9 ∷ []);
      },
    )
    ∷ (
      0x3a,
      record { mem_size = 1; valtype = Valtype.i32; code = (0x40 ∷ 0x88 ∷ 0x3c ∷ 0x30 ∷ []) },
    )
    ∷ (
      0x3b,
      record {
        mem_size = 2;
        valtype = Valtype.i32;
        code = (0x66 ∷ 0x89 ∷ 0x7c ∷ 0x30 ∷ 0xff ∷ []);
      },
    )
    ∷ (
      0x3c,
      record { mem_size = 1; valtype = Valtype.i64; code = (0x40 ∷ 0x88 ∷ 0x3c ∷ 0x30 ∷ []) },
    )
    ∷ (
      0x3e,
      record { mem_size = 4; valtype = Valtype.i64; code = (0x89 ∷ 0x7c ∷ 0x30 ∷ 0xfd ∷ []) },
    )
    ∷ []

-- The address, its test and the memory's data. The sum of offset and size may not wrap around in
-- 32 bits, and what is added of it must fit 31.
unfoldable pub emit_address : Allocator → Flags → ℕ → ℕ → Emit (Unit {0})
emit_address alloc flags mem_size offset = do
  pop_type alloc Valtype.i32
  out alloc (0x5e ∷ [])
  ensure (ltb (mem_size + offset) (2 ^ 32))
  if mem_size + offset - 1 == 0 then skip else (do
    ensure (ltb (mem_size + offset - 1) (2 ^ 31))
    out alloc (0x48 ∷ 0x81 ∷ 0xc6 ∷ [])
    out_uint32 alloc (mem_size + offset - 1))
  out alloc (0x48 ∷ 0xb8 ∷ [])
  out_memref alloc memref_mem (some 0)
  outs alloc (
      (0x48 ∷ 0x8b ∷ 0x40 ∷ [])
      ∷ (meminst_size ∷ [])
      ∷ (0x48 ∷ 0x39 ∷ 0xc6 ∷ [])
      ∷ (0x72 ∷ [])
      ∷ (trap_size flags ∷ [])
      ∷ [])
  emit_trap alloc flags trap_memory_overflow
  out alloc (0x48 ∷ 0xb8 ∷ [])
  out_memref alloc memref_mem (some 0)
  outs alloc ((0x48 ∷ 0x8b ∷ 0x40 ∷ []) ∷ (meminst_data ∷ []) ∷ [])

unfoldable pub emit_load : Allocator → Flags → ℕ → Access → Emit (Unit {0})
unfolding emit_address
emit_load alloc flags offset access = do
  emit_address alloc flags access.mem_size offset
  out alloc (0x48 ∷ 0x19 ∷ 0xd2 ∷ [])
  if access.mem_size - 1 == 0
      then skip
      else outs alloc ((0x48 ∷ 0x83 ∷ 0xee ∷ []) ∷ ((access.mem_size - 1) ∷ []) ∷ [])
  outs alloc ((0x48 ∷ 0x21 ∷ 0xd6 ∷ []) ∷ access.code ∷ (0x50 ∷ []) ∷ [])
  push_stack alloc access.valtype

unfoldable pub emit_store : Allocator → Flags → ℕ → Access → Emit (Unit {0})
unfolding emit_address
emit_store alloc flags offset access = do
  pop_type alloc access.valtype
  out alloc (0x5f ∷ [])
  emit_address alloc flags access.mem_size offset
  out alloc access.code

-- The case of a load, else that of a store, else none.
abbrev pub access_case : Allocator → Flags → ℕ → Option Access → Option Access → Emit (Unit {0})
access_case alloc flags offset (some access) store = emit_load alloc flags offset access
access_case alloc flags offset none (some access) = emit_store alloc flags offset access
access_case alloc flags offset none none = wrong

unfoldable pub emit_load_store : Allocator → Flags → ℕ → ℕ → Emit (Unit {0})
unfolding emit_load emit_store
emit_load_store alloc flags op offset =
    access_case alloc flags offset (lookup op loads) (lookup op stores)
