-- ===== src/Compile/Bytes.antt =====
-- encode_le_uint32_t and encode_le_uint64_t of src/wasmjit/compile.c against read_uint32 of
-- src/wasmjit/parse.c.
use wasmjit.Prelude.{ℕ, zero, suc, ◌/◌, ◌^◌, ◌<◌, ◌≡◌, ap, arith, List, ◌++◌, Bool, length, le→ltb}
use native.Mathlib.Nat.{pow-suc}
use wasmjit.Compile.State.{le_bytes}
use wasmjit.Parse.State.{ok, read_raw, read_uint32, le_value}

le_value-le_bytes : (n v : ℕ) → v < 256 ^ n → le_value (le_bytes n v) ≡ v
unfolding le_value le_bytes
le_value-le_bytes zero v h = omega (arith, h)
le_value-le_bytes (suc n) v h =
    let rest = le_value-le_bytes n (v / 256) (omega (arith, h, pow-suc 256 n)) in
    omega (arith, rest)

-- The four bytes that the code generator writes for a number below 2^32 are read back as the number,
-- and what follows them is left.
pub read_uint32-le_bytes :
    (v : ℕ) (rest : List ℕ) (eof : Bool)
    → v < 2 ^ 32
    → read_uint32 (record { eof = eof; input = le_bytes 4 v ++ rest })
      ≡ ok v (record { eof = eof; input = rest })
unfolding read_uint32 read_raw le_bytes
read_uint32-le_bytes v rest eof h =
    rw (le→ltb (suc (suc (suc (suc (length rest))))) 4 (omega arith))
      (ap (λ n. ok n (record { eof = eof; input = rest })) (le_value-le_bytes 4 v h))
