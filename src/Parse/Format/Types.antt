-- ===== src/Parse/Format/Types.antt =====
-- The binary format of the type section, and read_type_section of src/wasmjit/parse.c on it.
use wasmjit.Prelude.{
  ℕ, suc, ◌≤◌, ◌≡◌, refl, false, List, [], ◌∷◌, ◌++◌, append_assoc, arith, length, le→leb, ◌==◌,
}
use wasmjit.Ast.Section.{FuncType}
use wasmjit.Ast.Valtype
use wasmjit.Parse.State.{Allocator, Reader, read_uint8, read_items, ◌>>=◌}
use wasmjit.Parse.Leb.{read_uleb}
use wasmjit.Parse.Instruction.{read_vector}
use wasmjit.Parse.Types.{read_func_type, read_type_section}
use wasmjit.Parse.Format.{IsU32}
use wasmjit.Parse.Format.Operands.{Meets, Reads, read_uleb-IsU32}

-- A function's type: its inputs, of at most 254 bytes, and its output, if it has one. What values
-- the bytes of the types have is left to validation.
pub data FuncTypeCode : FuncType → List ℕ → Type 0 where
  no_output :
      {a b : List ℕ} (inputs : List ℕ)
      → IsU32 a (length inputs)
      → length inputs ≤ 254
      → IsU32 b 0
      → FuncTypeCode
          (record { input_types = inputs; output_type = Valtype.null })
          (0x60 ∷ (a ++ (inputs ++ b)))
  one_output :
      {a b : List ℕ} (inputs : List ℕ) (output : ℕ)
      → IsU32 a (length inputs)
      → length inputs ≤ 254
      → IsU32 b 1
      → FuncTypeCode
          (record { input_types = inputs; output_type = output })
          (0x60 ∷ (a ++ (inputs ++ (b ++ output ∷ []))))

-- Items one after the other.
pub data Items {A : Type 0} (P : A → List ℕ → Type 0) : List A → List ℕ → Type 0 where
  none : Items P [] []
  more : {x : A} {xs : List A} {a b : List ℕ} → P x a → Items P xs b → Items P (x ∷ xs) (a ++ b)

-- A vector: the number of its items, and the items.
pub record Vector {A : Type 0} (P : A → List ℕ → Type 0) (xs : List A) (bs : List ℕ) : Type 0 where
  pub start : List ℕ
  pub items : List ℕ
  pub whole : bs ≡ start ++ items
  pub counted : IsU32 start (length xs)
  pub each : Items P xs items

pub read_items-Items :
    {A : Type 0} (P : A → List ℕ → Type 0) (read : Reader A)
    → ((x : A) (bs : List ℕ) → P x bs → Reads read bs x)
    → {xs : List A} {bs : List ℕ} → Items P xs bs
    → Reads (read_items (length xs) read) bs xs
unfolding read_items
read_items-Items P read h Items.none eof rest = refl
read_items-Items P read h (Items.more {x = x} {a = a} p ps) eof rest =
    rw (append_assoc, h x a p, read_items-Items P read h ps) refl

pub read_vector-Items :
    {A : Type 0} (alloc : Allocator) (size : ℕ) (P : A → List ℕ → Type 0) (read : Reader A)
    → Meets alloc
    → ((x : A) (bs : List ℕ) → P x bs → Reads read bs x)
    → (xs : List A) {bs : List ℕ} → Items P xs bs
    → Reads (read_vector alloc size (length xs) read) bs xs
unfolding read_vector
read_vector-Items alloc size P read meets h [] Items.none eof rest = refl
read_vector-Items alloc size P read meets h (x ∷ xs) each eof rest =
    let some_items : (suc (length xs) == 0) ≡ false = ground arith in
    rw (some_items, meets) (read_items-Items P read h each eof rest)

-- Bytes that are read one by one.
read_bytes_lem : (bs : List ℕ) → Reads (read_items (length bs) read_uint8) bs bs
unfolding read_items read_uint8
read_bytes_lem [] eof rest = refl
read_bytes_lem (b ∷ bs) eof rest = rw (read_bytes_lem bs) refl

read_func_type-FuncTypeCode :
    {ft : FuncType} {bs : List ℕ} → FuncTypeCode ft bs → Reads read_func_type bs ft
unfolding read_func_type
read_func_type-FuncTypeCode (no_output {a} {b} inputs u few v) eof rest =
    unfold read_uint8 in
    rw
      (
        append_assoc,
        append_assoc,
        read_uleb-IsU32 u,
        le→leb (length inputs) 254 few,
        read_bytes_lem inputs,
        read_uleb-IsU32 v,
      )
      refl
read_func_type-FuncTypeCode (one_output {a} {b} inputs output u few v) eof rest =
    unfold read_uint8 in
    rw
      (
        append_assoc,
        append_assoc,
        append_assoc,
        read_uleb-IsU32 u,
        le→leb (length inputs) 254 few,
        read_bytes_lem inputs,
        read_uleb-IsU32 v,
      )
      refl

-- With an allocator that meets every request, a section that is a vector is read by the reader of
-- its items.
pub vector_lem :
    {A : Type 0} (alloc : Allocator) (size : ℕ) (P : A → List ℕ → Type 0) (read : Reader A)
    → Meets alloc
    → ((x : A) (bs : List ℕ) → P x bs → Reads read bs x)
    → (xs : List A) {bs : List ℕ} → Vector P xs bs
    → Reads (read_uleb 32 >>= λ n. read_vector alloc size n read) bs xs
vector_lem alloc size P read meets h xs v eof rest =
    rw (v.whole, append_assoc, read_uleb-IsU32 v.counted)
      (read_vector-Items alloc size P read meets h xs v.each eof rest)

-- With an allocator that meets every request, `read_type_section` inverts the format of the type
-- section: it returns the types that a vector of them encodes, and stops right after it.
pub read_type_section-Vector :
    (alloc : Allocator)
    → Meets alloc
    → {fts : List FuncType} {bs : List ℕ} → Vector FuncTypeCode fts bs
    → Reads (read_type_section alloc) bs fts
unfolding read_type_section
read_type_section-Vector alloc meets {fts} v =
    vector_lem alloc 256 FuncTypeCode read_func_type meets
      (λ ft bs code. read_func_type-FuncTypeCode code) fts v
