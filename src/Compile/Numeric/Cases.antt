-- ===== src/Compile/Numeric/Cases.antt =====
-- src/wasmjit/compile.c: the numeric opcodes that wasmjit_compile_instruction has a case for. All
-- others of them run into its assertion.
use wasmjit.Prelude.{ℕ, List, [], ◌∷◌, ◌++◌}
use wasmjit.Ast.Valtype
use wasmjit.Compile.Numeric.{
  Numeric, eqz, compare, compare_f64, arithmetic, divide, shift, negate_f64, arithmetic_f64,
  convert,
}

abbrev pub comparisons : List (ℕ × Numeric)
comparisons =
    (0x46, compare Valtype.i32 (0x0f ∷ 0x94 ∷ 0xc0 ∷ []))
    ∷ (0x47, compare Valtype.i32 (0x0f ∷ 0x95 ∷ 0xc0 ∷ []))
    ∷ (0x48, compare Valtype.i32 (0x0f ∷ 0x9c ∷ 0xc0 ∷ []))
    ∷ (0x49, compare Valtype.i32 (0x0f ∷ 0x92 ∷ 0xc0 ∷ []))
    ∷ (0x4a, compare Valtype.i32 (0x0f ∷ 0x9f ∷ 0xc0 ∷ []))
    ∷ (0x4b, compare Valtype.i32 (0x0f ∷ 0x97 ∷ 0xc0 ∷ []))
    ∷ (0x4c, compare Valtype.i32 (0x0f ∷ 0x9e ∷ 0xc0 ∷ []))
    ∷ (0x4d, compare Valtype.i32 (0x0f ∷ 0x96 ∷ 0xc0 ∷ []))
    ∷ (0x4e, compare Valtype.i32 (0x0f ∷ 0x9d ∷ 0xc0 ∷ []))
    ∷ (0x4f, compare Valtype.i32 (0x0f ∷ 0x93 ∷ 0xc0 ∷ []))
    ∷ (0x51, compare Valtype.i64 (0x0f ∷ 0x94 ∷ 0xc0 ∷ []))
    ∷ (0x52, compare Valtype.i64 (0x0f ∷ 0x95 ∷ 0xc0 ∷ []))
    ∷ (0x53, compare Valtype.i64 (0x0f ∷ 0x9c ∷ 0xc0 ∷ []))
    ∷ (0x54, compare Valtype.i64 (0x0f ∷ 0x92 ∷ 0xc0 ∷ []))
    ∷ (0x56, compare Valtype.i64 (0x0f ∷ 0x97 ∷ 0xc0 ∷ []))
    ∷ []

abbrev pub comparisons_f64 : List (ℕ × Numeric)
comparisons_f64 =
    (
      0x61,
      compare_f64 ((0x31 ∷ 0xd2 ∷ []) ∷ [])
          ((0x0f ∷ 0x9b ∷ 0xc0 ∷ []) ∷ (0x0f ∷ 0x45 ∷ 0xc2 ∷ []) ∷ []),
    )
    ∷ (
      0x62,
      compare_f64 ((0xba ∷ 0x01 ∷ []) ∷ (0x00 ∷ []) ∷ (0x00 ∷ []) ∷ (0x00 ∷ []) ∷ [])
          ((0x0f ∷ 0x9a ∷ 0xc0 ∷ []) ∷ (0x0f ∷ 0x45 ∷ 0xc2 ∷ []) ∷ []),
    )
    ∷ (0x63, compare_f64 [] ((0x0f ∷ 0x97 ∷ 0xc0 ∷ []) ∷ []))
    ∷ []

abbrev pub arithmetics : List (ℕ × Numeric)
arithmetics =
    (0x6a, arithmetic Valtype.i32 ((0x01 ∷ 0x04 ∷ 0x24 ∷ []) ∷ []))
    ∷ (0x6b, arithmetic Valtype.i32 ((0x29 ∷ 0x04 ∷ 0x24 ∷ []) ∷ []))
    ∷ (0x6c, arithmetic Valtype.i32 ((0xf7 ∷ 0x24 ∷ 0x24 ∷ []) ∷ (0x89 ∷ 0x04 ∷ 0x24 ∷ []) ∷ []))
    ∷ (0x71, arithmetic Valtype.i32 ((0x21 ∷ 0x04 ∷ 0x24 ∷ []) ∷ []))
    ∷ (0x72, arithmetic Valtype.i32 ((0x09 ∷ 0x04 ∷ 0x24 ∷ []) ∷ []))
    ∷ (0x73, arithmetic Valtype.i32 ((0x31 ∷ 0x04 ∷ 0x24 ∷ []) ∷ []))
    ∷ (0x7c, arithmetic Valtype.i64 ((0x01 ∷ 0x04 ∷ 0x24 ∷ []) ∷ []))
    ∷ (0x7d, arithmetic Valtype.i64 ((0x29 ∷ 0x04 ∷ 0x24 ∷ []) ∷ []))
    ∷ (0x7e, arithmetic Valtype.i64 ((0xf7 ∷ 0x24 ∷ 0x24 ∷ []) ∷ (0x89 ∷ 0x04 ∷ 0x24 ∷ []) ∷ []))
    ∷ (0x83, arithmetic Valtype.i64 ((0x21 ∷ 0x04 ∷ 0x24 ∷ []) ∷ []))
    ∷ (0x84, arithmetic Valtype.i64 ((0x09 ∷ 0x04 ∷ 0x24 ∷ []) ∷ []))
    ∷ (0x85, arithmetic Valtype.i64 ((0x31 ∷ 0x04 ∷ 0x24 ∷ []) ∷ []))
    ∷ []

-- `cltd` or `cqto` and `idiv`, or `xor` and `div`, and the half of the result.
abbrev pub division : List ℕ → List ℕ → List ℕ → List (List ℕ)
division extend div store = (0x8b ∷ 0x04 ∷ 0x24 ∷ []) ∷ extend ∷ div ∷ store ∷ []

abbrev pub divisions : List (ℕ × Numeric)
divisions =
    (0x6d, divide Valtype.i32 (division (0x99 ∷ []) (0xf7 ∷ 0xff ∷ []) (0x89 ∷ 0x04 ∷ 0x24 ∷ [])))
    ∷ (
      0x6e,
      divide Valtype.i32 (division (0x31 ∷ 0xd2 ∷ []) (0xf7 ∷ 0xf7 ∷ []) (0x89 ∷ 0x04 ∷ 0x24 ∷ [])),
    )
    ∷ (0x6f, divide Valtype.i32 (division (0x99 ∷ []) (0xf7 ∷ 0xff ∷ []) (0x89 ∷ 0x14 ∷ 0x24 ∷ [])))
    ∷ (
      0x70,
      divide Valtype.i32 (division (0x31 ∷ 0xd2 ∷ []) (0xf7 ∷ 0xf7 ∷ []) (0x89 ∷ 0x14 ∷ 0x24 ∷ [])),
    )
    ∷ (0x7f, divide Valtype.i64 (division (0x99 ∷ []) (0xf7 ∷ 0xff ∷ []) (0x89 ∷ 0x04 ∷ 0x24 ∷ [])))
    ∷ (
      0x80,
      divide Valtype.i64 (division (0x31 ∷ 0xd2 ∷ []) (0xf7 ∷ 0xf7 ∷ []) (0x89 ∷ 0x04 ∷ 0x24 ∷ [])),
    )
    ∷ (0x81, divide Valtype.i64 (division (0x99 ∷ []) (0xf7 ∷ 0xff ∷ []) (0x89 ∷ 0x14 ∷ 0x24 ∷ [])))
    ∷ (
      0x82,
      divide Valtype.i64 (division (0x31 ∷ 0xd2 ∷ []) (0xf7 ∷ 0xf7 ∷ []) (0x89 ∷ 0x14 ∷ 0x24 ∷ [])),
    )
    ∷ []

abbrev pub shifts : List (ℕ × Numeric)
shifts =
    (0x74, shift Valtype.i32 (0xd3 ∷ 0x24 ∷ 0x24 ∷ []))
    ∷ (0x75, shift Valtype.i32 (0xd3 ∷ 0x3c ∷ 0x24 ∷ []))
    ∷ (0x76, shift Valtype.i32 (0xd3 ∷ 0x2c ∷ 0x24 ∷ []))
    ∷ (0x86, shift Valtype.i64 (0xd3 ∷ 0x24 ∷ 0x24 ∷ []))
    ∷ (0x87, shift Valtype.i64 (0xd3 ∷ 0x3c ∷ 0x24 ∷ []))
    ∷ (0x88, shift Valtype.i64 (0xd3 ∷ 0x2c ∷ 0x24 ∷ []))
    ∷ []

abbrev pub arithmetics_f64 : List (ℕ × Numeric)
arithmetics_f64 =
    (0x9a, negate_f64)
    ∷ (0xa0, arithmetic_f64 (0xf2 ∷ 0x0f ∷ 0x58 ∷ 0x04 ∷ 0x24 ∷ []))
    ∷ (0xa1, arithmetic_f64 (0xf2 ∷ 0x0f ∷ 0x5c ∷ 0x04 ∷ 0x24 ∷ []))
    ∷ (0xa2, arithmetic_f64 (0xf2 ∷ 0x0f ∷ 0x59 ∷ 0x04 ∷ 0x24 ∷ []))
    ∷ []

-- The truncation of an f64 to an unsigned i64: what is 2^63 or more is lessened by that first.
abbrev pub trunc_u_f64 : List (List ℕ)
trunc_u_f64 =
    (0x48 ∷ 0xb8 ∷ 0x00 ∷ 0x00 ∷ 0x00 ∷ 0x00 ∷ 0x00 ∷ 0x00 ∷ 0xe0 ∷ 0x43 ∷ [])
    ∷ (0x66 ∷ 0x48 ∷ 0x0f ∷ 0x6e ∷ 0xc8 ∷ [])
    ∷ (0xf2 ∷ 0x0f ∷ 0x10 ∷ 0x04 ∷ 0x24 ∷ [])
    ∷ (0x66 ∷ 0x0f ∷ 0x2e ∷ 0xc1 ∷ [])
    ∷ (0x73 ∷ [])
    ∷ (0x07 ∷ [])
    ∷ (0xf2 ∷ 0x48 ∷ 0x0f ∷ 0x2c ∷ 0xc0 ∷ [])
    ∷ (0xeb ∷ [])
    ∷ (0x0e ∷ [])
    ∷ (0xf2 ∷ 0x0f ∷ 0x5c ∷ 0xc1 ∷ [])
    ∷ (0xf2 ∷ 0x48 ∷ 0x0f ∷ 0x2c ∷ 0xc0 ∷ [])
    ∷ (0x48 ∷ 0x0f ∷ 0xba ∷ 0xf8 ∷ 0x3f ∷ [])
    ∷ (0x48 ∷ 0x89 ∷ 0x04 ∷ 0x24 ∷ [])
    ∷ []

abbrev pub conversions : List (ℕ × Numeric)
conversions =
    (
      0xa7,
      convert Valtype.i64 Valtype.i32
          ((0xb8 ∷ 0xff ∷ 0xff ∷ 0xff ∷ 0xff ∷ []) ∷ (0x48 ∷ 0x21 ∷ 0x04 ∷ 0x24 ∷ []) ∷ []),
    )
    ∷ (
      0xaa,
      convert Valtype.f64 Valtype.i32
          ((0xf2 ∷ 0x0f ∷ 0x2c ∷ 0x04 ∷ 0x24 ∷ []) ∷ (0x48 ∷ 0x89 ∷ 0x04 ∷ 0x24 ∷ []) ∷ []),
    )
    ∷ (
      0xab,
      convert Valtype.f64 Valtype.i32
          ((0xf2 ∷ 0x0f ∷ 0x2c ∷ 0x04 ∷ 0x24 ∷ []) ∷ (0x48 ∷ 0x89 ∷ 0x04 ∷ 0x24 ∷ []) ∷ []),
    )
    ∷ (
      0xac,
      convert Valtype.i32 Valtype.i64
          ((0x48 ∷ 0x63 ∷ 0x04 ∷ 0x24 ∷ []) ∷ (0x48 ∷ 0x89 ∷ 0x04 ∷ 0x24 ∷ []) ∷ []),
    )
    ∷ (0xad, convert Valtype.i32 Valtype.i64 [])
    ∷ (
      0xb0,
      convert Valtype.f64 Valtype.i64
          ((0xf2 ∷ 0x48 ∷ 0x0f ∷ 0x2c ∷ 0x04 ∷ 0x24 ∷ []) ∷ (0x48 ∷ 0x89 ∷ 0x04 ∷ 0x24 ∷ []) ∷ []),
    )
    ∷ (0xb1, convert Valtype.f64 Valtype.i64 trunc_u_f64)
    ∷ (
      0xb7,
      convert Valtype.i32 Valtype.f64
          ((0xf2 ∷ 0x0f ∷ 0x2a ∷ 0x04 ∷ 0x24 ∷ []) ∷ (0xf2 ∷ 0x0f ∷ 0x11 ∷ 0x04 ∷ 0x24 ∷ []) ∷ []),
    )
    ∷ (
      0xb8,
      convert Valtype.i32 Valtype.f64 (
          (0x8b ∷ 0x04 ∷ 0x24 ∷ [])
          ∷ (0xf2 ∷ 0x48 ∷ 0x0f ∷ 0x2a ∷ 0xc0 ∷ [])
          ∷ (0xf2 ∷ 0x0f ∷ 0x11 ∷ 0x04 ∷ 0x24 ∷ [])
          ∷ []),
    )
    ∷ (
      0xba,
      convert Valtype.i64 Valtype.f64 (
          (0xf2 ∷ 0x48 ∷ 0x0f ∷ 0x2a ∷ 0x04 ∷ 0x24 ∷ [])
          ∷ (0xf2 ∷ 0x0f ∷ 0x11 ∷ 0x04 ∷ 0x24 ∷ [])
          ∷ []),
    )
    ∷ (
      0xbb,
      convert Valtype.f32 Valtype.f64 (
          (0x66 ∷ 0x0f ∷ 0x6e ∷ 0x04 ∷ 0x24 ∷ [])
          ∷ (0xf3 ∷ 0x0f ∷ 0x5a ∷ 0xc8 ∷ [])
          ∷ (0xf2 ∷ 0x0f ∷ 0x11 ∷ 0x0c ∷ 0x24 ∷ [])
          ∷ []),
    )
    ∷ (0xbd, convert Valtype.f64 Valtype.i64 [])
    ∷ (0xbf, convert Valtype.i64 Valtype.f64 [])
    ∷ []

abbrev pub numerics : List (ℕ × Numeric)
numerics =
    (0x45, eqz)
    ∷ (comparisons
        ++ (comparisons_f64
            ++ (arithmetics ++ (divisions ++ (shifts ++ (arithmetics_f64 ++ conversions))))))
