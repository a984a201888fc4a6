-- ===== src/Compile/State.antt =====
-- src/wasmjit/compile.c and compile.h: what the translation of a function works on, and its outcomes.
-- A step is `done`, an `error` where the source returns 0, or `undefined` for an assertion that
-- fails or an access outside an object; only compile_instructions runs on fuel. The stack of the source is a list here, its top first.
use wasmjit.Prelude.{
  ℕ, zero, suc, ◌+◌, ◌-◌, ◌/◌, ◌%◌, ◌^◌, Bool, true, false, List, [], ◌∷◌, ◌++◌, Option, none, some,
  length,
}

-- The bits WASMJIT_COMPILE_FLAG_INTEL_RETPOLINE and WASMJIT_COMPILE_FLAG_AMD_RETPOLINE.
pub record Flags : Type 0 where
  pub intel_retpoline : Bool
  pub amd_retpoline : Bool

pub data MemrefType : Type 0 where
  memref_type memref_func memref_table memref_mem memref_global memref_resolve_indirect_call
        memref_trap memref_stack_top :
      MemrefType

-- `struct MemoryReferenceElt`; the index is not always set.
pub record Memref : Type 0 where
  pub type : MemrefType
  pub code_offset : ℕ
  pub idx : Option ℕ

-- `struct BranchPointElt`
pub record BranchPoint : Type 0 where
  pub branch_offset : ℕ
  pub continuation_idx : ℕ

pub record Label : Type 0 where
  pub arity : ℕ
  pub continuation_idx : ℕ

-- `struct StackElt`; the data of a label is not always set.
pub record StackElt : Type 0 where
  pub type : ℕ
  pub label : Option Label

-- The enumeration goes on from STACK_F64, 0x7c, and so gives STACK_LABEL the number of STACK_F32.
abbrev pub stack_label : ℕ
stack_label = 0x7d

-- FUNC_EXIT_CONT, which is SIZE_MAX.
abbrev pub func_exit_cont : ℕ
func_exit_cont = 2 ^ 64 - 1

-- The vectors that grow during the translation. A label's place in the code is not set at first.
pub record State : Type 0 where
  pub output : List ℕ
  pub memrefs : List Memref
  pub branches : List BranchPoint
  pub labels : List (Option ℕ)
  pub stack : List StackElt

pub data Result {ℓ} (A : Type ℓ) : Type ℓ where
  done : A → State → Result A
  error : Result A
  undefined : Result A
  out_of_fuel : Result A

abbrev pub Emit {ℓ} : Type ℓ → Type ℓ
Emit A = State → Result A

abbrev pub pure {ℓ} : {A : Type ℓ} → A → Emit A
pure a s = done a s

abbrev pub bind {ℓ κ} : {A : Type ℓ} {B : Type κ} → Result A → (A → State → Result B) → Result B
bind (done a s) f = f a s
bind error f = error
bind undefined f = undefined
bind out_of_fuel f = out_of_fuel

infixl 5 ◌>>=◌ ◌>>◌
abbrev pub ◌>>=◌ {ℓ κ} : {A : Type ℓ} {B : Type κ} → Emit A → (A → Emit B) → Emit B
◌>>=◌ m f s = bind (m s) f

abbrev pub ◌>>◌ {ℓ κ} : {A : Type ℓ} {B : Type κ} → Emit A → Emit B → Emit B
m >> k = m >>= λ _. k

abbrev pub skip : Emit (Unit {0})
skip = pure tt

abbrev pub failed : Emit (Unit {0})
failed s = error

abbrev pub wrong {ℓ} : {A : Type ℓ} → Emit A
wrong s = undefined

-- `if (!c) goto error;` and `assert(c);`
abbrev pub ensure : Bool → Emit (Unit {0})
ensure true s = done tt s
ensure false s = error

abbrev pub assert : Bool → Emit (Unit {0})
assert true s = done tt s
assert false s = undefined

abbrev pub get : Emit State
get s = done s s

-- An element of an array; there is none outside it.
abbrev pub found {ℓ} : {A : Type ℓ} → Option A → Emit A
found none = wrong
found (some a) = pure a

-- A call whose result is not tested. Where it fails, the vector that it failed on is freed already
-- and used all the same.
abbrev pub unchecked {ℓ} : {A : Type ℓ} → Emit A → Emit A
unchecked m s = elim (m s) [ error ↦ undefined | r ↦ r ]

-- The answer of `wasmjit_vector_set_size` for a vector of so many elements of so many bytes, in a
-- state: whether it could set that size.
abbrev pub Allocator : Type 0
Allocator = State → ℕ → ℕ → Bool

abbrev pub set_size : Allocator → ℕ → ℕ → Emit (Unit {0})
set_size alloc n_elts elt_size s = ensure (alloc s n_elts elt_size) s

-- The `n` bytes of a number from the lowest on: encode_le_uint32_t and encode_le_uint64_t. What
-- does not fit them is cut off.
unfoldable pub le_bytes : ℕ → ℕ → List ℕ
le_bytes zero v = []
le_bytes (suc n) v = v % 256 ∷ le_bytes n (v / 256)

-- A negative number in so many bits.
abbrev pub negative : ℕ → ℕ → ℕ
negative w n = (2 ^ w - n) % 2 ^ w

-- OUTS, OUTSN and output_buf.
unfoldable pub out : Allocator → List ℕ → Emit (Unit {0})
out alloc bytes s =
    (set_size alloc (length s.output + length bytes) 1 >> λ t.
    done tt (record t { output = t.output ++ bytes }))
      s

-- A run of OUTS.
unfoldable pub outs : Allocator → List (List ℕ) → Emit (Unit {0})
unfolding out
outs alloc [] = skip
outs alloc (bytes ∷ rest) = do out alloc bytes; outs alloc rest

unfoldable pub out_uint32 : Allocator → ℕ → Emit (Unit {0})
unfolding out le_bytes
out_uint32 alloc v = out alloc (le_bytes 4 v)

-- A reference to what the eight bytes just written are to hold.
unfoldable pub add_memref : Allocator → MemrefType → Option ℕ → Emit (Unit {0})
add_memref alloc type idx s =
    (set_size alloc (length s.memrefs + 1) 24 >> λ t. done tt (record t {
      memrefs =
          t.memrefs ++ record { type = type; code_offset = length t.output - 8; idx = idx } ∷ [];
    }))
      s

abbrev pub eight_nulls : List ℕ
eight_nulls = 0x00 ∷ 0x00 ∷ 0x00 ∷ 0x00 ∷ 0x00 ∷ 0x00 ∷ 0x00 ∷ 0x00 ∷ []

-- OUTNULL(8) and the reference to what those bytes are to hold.
unfoldable pub out_memref : Allocator → MemrefType → Option ℕ → Emit (Unit {0})
unfolding out add_memref
out_memref alloc type idx = do out alloc eight_nulls; add_memref alloc type idx

-- `bp_grow`, and the element's fields.
unfoldable pub add_branch : Allocator → ℕ → ℕ → Emit (Unit {0})
add_branch alloc offset continuation_idx s =
    (set_size alloc (length s.branches + 1) 16 >> λ t. done tt (record t {
      branches =
          t.branches ++ record { branch_offset = offset; continuation_idx = continuation_idx } ∷ [];
    }))
      s
