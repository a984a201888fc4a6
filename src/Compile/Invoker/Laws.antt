-- ===== src/Compile/Invoker/Laws.antt =====
-- What the invoker of src/wasmjit/compile.c guarantees.
use wasmjit.Prelude.{
  ℕ, zero, suc, ◌+◌, ◌*◌, ◌≤◌, ◌<◌, ◌≡◌, refl, List, [], ◌∷◌, length, get_elem?, Bool, true, false,
  ltb, le→leb, ◌==◌, arith, length-append, if◌then◌else◌, ◌&&◌, Bool-cases, inl, inr, ap,
}
use wasmjit.Prelude.Overwrite.{overwritten_inside, length-overwrite}
use wasmjit.Ast.Valtype
use wasmjit.Ast.Section.{FuncType}
use wasmjit.Compile.State.{
  Flags, State, Result, done, error, undefined, Emit, bind, pure, found, ensure, ◌>>=◌, ◌>>◌,
  Allocator, out, out_uint32, le_bytes, eight_nulls,
}
use wasmjit.Compile.Retpoline.{emit_indirect_call}
use wasmjit.Compile.Control.{patch}
use wasmjit.Compile.Call.{is_int, Passed, none_passed}
use wasmjit.Compile.Invoker.{
  emit_rest, is_float, invoker_pass, invoker_movs, invoker_f32_movs, invoker_f64_movs, emit_read,
  emit_reads, emit_before, emit_after, compile_invoker_offset, compile_invoker,
}

-- A step that succeeds with no less output: no failure, and nothing undefined.
pub data Finishes {ℓ} {A : Type ℓ} (Q : A → State → Type 0) (n : ℕ) : Result A → Type ℓ where
  finishes : {a : A} {t : State} → n ≤ length t.output → Q a t → Finishes Q n (done a t)

abbrev pub Any {ℓ} : {A : Type ℓ} → A → State → Type 0
Any a t = Unit

-- A step that does so from every state.
record Sure {ℓ} {A : Type ℓ} (m : Emit A) : Type ℓ where
  pub at : (s : State) → Finishes Any (length s.output) (m s)

module _ {ℓ} {A : Type ℓ} {Q : A → State → Type 0} where
  weaken : {n m : ℕ} {r : Result A} → n ≤ m → Finishes Q m r → Finishes Q n r
  weaken h (finishes l q) = finishes (omega (arith, h, l)) q

  forget : {n : ℕ} {r : Result A} → Finishes Q n r → Finishes Any n r
  forget (finishes l q) = finishes l tt

module _ {ℓ κ} {A : Type ℓ} {B : Type κ} {P : A → State → Type 0} {Q : B → State → Type 0} where
  bind-Finishes :
      {n : ℕ} {r : Result A} {f : A → Emit B}
      → Finishes P n r
      → ((a : A) (t : State) → n ≤ length t.output → P a t → Finishes Q (length t.output) (f a t))
      → Finishes Q n (bind r f)
  bind-Finishes (finishes {a = a} {t = t} l p) k = weaken l (k a t l p)

module _ {ℓ κ} {A : Type ℓ} {B : Type κ} where
  Sure-bind : {m : Emit A} {f : A → Emit B} → Sure m → ((a : A) → Sure (f a)) → Sure (m >>= f)
  Sure-bind h k = record { at = λ s. bind-Finishes (h.at s) λ a t _ _. (k a).at t }

  Sure-then : {m : Emit A} {k : Emit B} → Sure m → Sure k → Sure (m >> k)
  Sure-then h k = Sure-bind h λ _. k

Sure-if {ℓ} :
    {A : Type ℓ} {m k : Emit A} (b : Bool)
    → (b ≡ true → Sure m)
    → Sure k
    → Sure (if b then m else k)
Sure-if true h k = h refl
Sure-if false h k = k

Sure-either {ℓ} :
    {A : Type ℓ} {m k : Emit A} (b : Bool) → Sure m → Sure k → Sure (if b then m else k)
Sure-either b h k = Sure-if b (λ _. h) k

Sure-pure {ℓ} : {A : Type ℓ} (a : A) → Sure (pure a)
Sure-pure a = record { at = λ s. finishes (omega arith) tt }

Sure-found {ℓ} : {A : Type ℓ} (xs : List A) (i : ℕ) → i < length xs → Sure (found (get_elem? xs i))
Sure-found [] i h = absurd (omega arith)
Sure-found (x ∷ xs) zero h = Sure-pure x
Sure-found (x ∷ xs) (suc i) h = Sure-found xs i (omega arith)

ensure-Finishes :
    (b : Bool) (s : State) → b ≡ true → Finishes (λ _ t. t ≡ s) (length s.output) (ensure b s)
ensure-Finishes true s h = finishes (omega arith) refl
ensure-Finishes false s h = cc

and_right : (a b : Bool) → (a && b) ≡ true → b ≡ true
and_right true b h = h
and_right false b h = cc

n_movs_kept : (t : ℕ) (p : Passed) → p.n_movs ≤ 6 → (invoker_pass t p).n_movs ≤ 6
n_movs_kept t p h = elim (Bool-cases (is_int t && ltb p.n_movs 6)) [
  | inl e ↦ rw e (ground (arith, and_right (is_int t) _ e))
  | inr e ↦
      rw e
        (elim (Bool-cases (is_float t && ltb p.n_xmm_movs 8)) [ inl f ↦ rw f h | inr f ↦ rw f h ])
]

not_refused {ℓ} :
    {A : Type ℓ} {Q : A → State → Type 0} {n : ℕ} {r : Result A}
    → Finishes Q n r
    → Finishes Q n (elim r [ error ↦ undefined | r ↦ r ])
not_refused (finishes l q) = finishes l q

-- Every request for memory is met.
abbrev pub Meets : Allocator → Type 0
Meets alloc = (s : State) (n size : ℕ) → alloc s n size ≡ true

module _ (alloc : Allocator) (meets : Meets alloc) where
  out-Finishes :
      (bytes : List ℕ) (s : State)
      → Finishes
          (λ _ t. length t.output ≡ length s.output + length bytes)
          (length s.output)
          (out alloc bytes s)
  unfolding out
  out-Finishes bytes s =
      bind-Finishes (ensure-Finishes (alloc s (length s.output + length bytes) 1) s (meets s _ 1))
        λ _ t _ same.
          let longer = length-append t.output bytes in
          finishes (omega (arith, longer))
            (omega (arith, longer, ap (λ (x : State). length x.output) same))

  Sure-out : (bytes : List ℕ) → Sure (out alloc bytes)
  Sure-out bytes = record { at = λ s. forget (out-Finishes bytes s) }

  Sure-out_uint32 : (v : ℕ) → Sure (out_uint32 alloc v)
  unfolding out_uint32
  Sure-out_uint32 v = Sure-out (le_bytes 4 v)

  Sure-two : (bytes : List ℕ) (v : ℕ) → Sure (out alloc bytes >> out_uint32 alloc v)
  Sure-two bytes v = Sure-then (Sure-out bytes) (Sure-out_uint32 v)

  -- The integers' registers are not more than six, so every code that is asked for exists.
  Sure-emit_read : (i t : ℕ) (p : Passed) → p.n_movs ≤ 6 → Sure (emit_read alloc i t p)
  Sure-emit_read i t p h =
      Sure-if (is_int t && ltb p.n_movs 6)
        (λ e.
          Sure-bind (Sure-found invoker_movs p.n_movs (ground (arith, and_right (is_int t) _ e)))
            λ code. Sure-two code (i * 8))
        (Sure-if (is_float t && ltb p.n_xmm_movs 8)
          (λ _. Sure-bind (Sure-float t p h) λ code. Sure-two code (i * 8))
          (Sure-then (Sure-out _) (Sure-then (Sure-out_uint32 _) (Sure-two _ _))))
    where
      Sure-float :
          (t : ℕ) (p : Passed)
          → p.n_movs ≤ 6
          → Sure (
              found (
                get_elem?
                  (if t == Valtype.f32 then invoker_f32_movs else invoker_f64_movs)
                  p.n_movs))
      Sure-float t p h = elim (Bool-cases (t == Valtype.f32)) [
        | inl e ↦ rw e (Sure-found invoker_f32_movs p.n_movs (omega (arith, h)))
        | inr e ↦ rw e (Sure-found invoker_f64_movs p.n_movs (omega (arith, h)))
      ]

  Sure-emit_reads :
      (i : ℕ) (ts : List ℕ) (p : Passed) → p.n_movs ≤ 6 → Sure (emit_reads alloc i ts p)
  unfolding emit_reads
  Sure-emit_reads i [] p h = Sure-pure tt
  Sure-emit_reads i (t ∷ ts) p h =
      Sure-then (Sure-emit_read i t p h)
        (Sure-emit_reads (i + 1) ts (invoker_pass t p) (n_movs_kept t p h))

  Sure-emit_before : (types : List ℕ) (n : ℕ) → Sure (emit_before alloc types n)
  unfolding emit_before
  Sure-emit_before types n =
      let reads = Sure-emit_reads 0 types none_passed (omega arith) in
      Sure-then (Sure-out_uint32 _) (
        Sure-then (Sure-out _)
          (Sure-then (Sure-out_uint32 _) (Sure-then (Sure-out _) (Sure-then reads (Sure-out _)))))

  Sure-call : (flags : Flags) → Sure (emit_indirect_call alloc flags)
  unfolding emit_indirect_call
  Sure-call flags = search (Sure-then, Sure-out, Sure-either, Sure-pure) depth 12

  Sure-emit_after : (flags : Flags) (n : ℕ) → Sure (emit_after alloc flags n)
  unfolding emit_after
  Sure-emit_after flags n =
      search (Sure-then, Sure-out, Sure-out_uint32, Sure-call, Sure-either, Sure-pure) depth 12

  -- The operand's place is before the last eight bytes of output, or further.
  abbrev Room : ℕ → State → Type 0
  Room offset t = offset + 8 ≤ length t.output

  rest-Finishes :
      (flags : Flags) (type : FuncType) (s : State)
      → Finishes Room (length s.output) (emit_rest alloc flags type s)
  unfolding emit_rest
  rest-Finishes flags type s = bind-Finishes ((Sure-emit_before type.input_types _).at s) λ _ t _ _.
      bind-Finishes (out-Finishes eight_nulls t) λ _ u _ longer.
        bind-Finishes ((Sure-emit_after flags _).at u)
          λ _ v grown _. finishes (omega arith) (omega (arith, longer, grown))

  offset-Finishes :
      (flags : Flags) (type : FuncType) (s : State)
      → Finishes Room (length s.output) (compile_invoker_offset alloc flags type s)
  unfolding compile_invoker_offset
  offset-Finishes flags type s =
      bind-Finishes ((Sure-out _).at s) λ _ r _ _. not_refused (rest-Finishes flags type r)

-- The eight bytes at a place are those of a number.
abbrev pub Holds : ℕ → ℕ → State → Type 0
Holds address offset t =
    (i : ℕ) → i < 8 → get_elem? t.output (offset + i) ≡ get_elem? (le_bytes 8 address) i

patched :
    (offset address : ℕ) (t : State)
    → offset + 8 ≤ length t.output
    → Finishes
        (Holds address)
        (length t.output)
        ((patch offset (le_bytes 8 address) >> pure offset) t)
unfolding patch le_bytes
patched offset address t inside = rw (le→leb (offset + 8) (length t.output) inside) (
    finishes (omega (arith, length-overwrite t.output (le_bytes 8 address) offset inside))
      (λ i below. overwritten_inside t.output (le_bytes 8 address) offset inside i below))

-- Where every request for memory is met, the making of an invoker succeeds: it takes no code of a register
-- from outside the tables and no byte of the address outside the output. The eight bytes at the
-- offset that it gives are then those of the address of the function's code.
pub compile_invoker-Finishes :
    (alloc : Allocator) (flags : Flags) (type : FuncType) (address : ℕ) (s : State)
    → Meets alloc
    → Finishes (Holds address) (length s.output) (compile_invoker alloc flags type address s)
unfolding compile_invoker
compile_invoker-Finishes alloc flags type address s meets =
    bind-Finishes (offset-Finishes alloc meets flags type s)
      λ offset t _ inside. patched offset address t inside
