-- ===== src/Instantiate/Segment/Data.antt =====
-- src/wasmjit/instantiate.c: a data segment on one memory, byte by byte.
use wasmjit.Prelude.{
  ℕ, ◌+◌, ◌-◌, ◌≤◌, ◌<◌, ◌≡◌, ◌∙◌, List, length, get_elem?, ltb, arith, Bool-cases, inl, inr,
}
use wasmjit.Prelude.Overwrite.{overwrite, written, length-overwrite, overwrite_lem}
use wasmjit.Runtime.Store.{MemInst}
use wasmjit.Instantiate.State.{Attempt, done, error}
use wasmjit.Instantiate.Create.Typed.{IsMemory}
use wasmjit.Instantiate.Segment.{init_memory}

-- What a data segment is to do to a memory: to write its bytes at the offset, and nothing else, or
-- to be refused where it does not fit.
pub data Copies (meminst : MemInst) (offset : ℕ) (buf : List ℕ) : Attempt MemInst → Type 0 where
  fits :
      (bytes : List ℕ)
      → offset + length buf ≤ meminst.size
      → length bytes ≡ meminst.size
      → ((i : ℕ) → get_elem? bytes i ≡ written meminst.bytes offset buf i)
      → Copies meminst offset buf (done (record meminst { bytes = bytes }))
  refused : meminst.size < offset + length buf → Copies meminst offset buf error

-- On a memory with as many bytes as its size says, a data segment is copied exactly where it fits,
-- and is an error otherwise: the segment's bytes are at the offset, the bytes before and after them
-- are those that were there, and the memory keeps its size.
pub init_memory-Copies :
    (offset : ℕ) (buf : List ℕ) (meminst : MemInst)
    → IsMemory meminst
    → Copies meminst offset buf (init_memory offset buf meminst)
unfolding init_memory
init_memory-Copies offset buf meminst whole = elim (Bool-cases (ltb meminst.size (length buf))) [
  | inl long ↦ rw long (refused (ground (arith, long)))
  | inr short ↦ elim (Bool-cases (ltb (meminst.size - length buf) offset)) [
    | inl outside ↦ rw (short, outside) (refused (ground (arith, short, outside)))
    | inr inside ↦
        let room : offset + length buf ≤ length meminst.bytes =
          ground (arith, short, inside, whole) in
        rw (short, inside)
          (fits (overwrite meminst.bytes offset buf) (omega (arith, whole))
            (length-overwrite meminst.bytes buf offset room ∙ whole)
            (overwrite_lem meminst.bytes buf offset room))
  ]
]
