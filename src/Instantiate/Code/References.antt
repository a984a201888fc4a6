-- ===== src/Instantiate/Code/References.antt =====
-- src/wasmjit/instantiate.c: the addresses that are written into the code of a function, against the
-- references that src/wasmjit/compile.c gives.
use wasmjit.Prelude.{
  ℕ, zero, suc, ◌+◌, ◌≤◌, ◌<◌, ◌≡◌, refl, ◌∙◌, List, [], ◌∷◌, Option, none, some, length, get_elem?,
  All, le→leb, arith,
}
use wasmjit.Prelude.Overwrite.{length-overwrite}
use wasmjit.Ast.Section.{Code}
use wasmjit.Instantiate.State.{ModuleInst, done, element, ◌>>=◌}
use wasmjit.Instantiate.Constant.Typed.{Safe}
use wasmjit.Instantiate.Segment.Within.{bind-Safe}
use wasmjit.Instantiate.Code.{
  Machine, pointed, reference_value, write_reference, resolve_references,
}
use wasmjit.Compile.State.{
  MemrefType, memref_type, memref_func, memref_table, memref_mem, memref_global,
  memref_resolve_indirect_call, memref_trap, memref_stack_top, Memref, State, le_bytes,
}
use wasmjit.Compile.State
use wasmjit.Compile.Control.{Env}
use wasmjit.Compile.Function.{compile_function}
use wasmjit.Compile.Hostfunc.{no_output}
use wasmjit.Compile.Emits.{RefIn}
use wasmjit.Compile.Emits.Frames.{rounds}
use wasmjit.Compile.Laws.{ended_at, compile_function-Ends}

-- An index that is set, below a length.
abbrev pub Below : ℕ → Option ℕ → Type 0
Below n none = ⊥
Below n (some i) = i < n

-- What a reference names is there.
abbrev pub Known : ModuleInst → MemrefType → Option ℕ → Type 0
Known m memref_type idx = Below (length m.types) idx
Known m memref_func idx = Below (length m.funcs) idx
Known m memref_table idx = Below (length m.tables) idx
Known m memref_mem idx = Below (length m.mems) idx
Known m memref_global idx = Below (length m.globals) idx
Known m _ idx = Unit

abbrev pub Names : ModuleInst → Memref → Type 0
Names m r = Known m r.type r.idx

abbrev Any : ℕ → Type 0
Any _ = Unit

inside-Safe :
    {A : Type 0} (xs : List A) (i : ℕ) (f : A → ℕ)
    → i < length xs
    → Safe Any (element (get_elem? xs i) >>= λ x. done (f x))
inside-Safe [] i f h = absurd (omega arith)
inside-Safe (x ∷ xs) zero f h = tt
inside-Safe (x ∷ xs) (suc i) f h = inside-Safe xs i f (omega arith)

pointed-Safe :
    (address : ℕ → ℕ) (addresses : List ℕ) (idx : Option ℕ)
    → Below (length addresses) idx
    → Safe Any (pointed address addresses idx)
pointed-Safe address addresses (some i) h = inside-Safe addresses i address h
pointed-Safe address addresses none h = absurd h

type-Safe :
    (machine : Machine) (m : ModuleInst) (idx : Option ℕ)
    → Below (length m.types) idx
    → Safe Any (reference_value machine m memref_type idx)
type-Safe machine m (some i) h = inside-Safe m.types i (λ _. machine.type_address i) h
type-Safe machine m none h = absurd h

reference_value-Safe :
    (machine : Machine) (m : ModuleInst) (type : MemrefType) (idx : Option ℕ)
    → Known m type idx
    → Safe Any (reference_value machine m type idx)
reference_value-Safe machine m memref_type idx h = type-Safe machine m idx h
reference_value-Safe machine m memref_func idx h = pointed-Safe machine.func_address m.funcs idx h
reference_value-Safe machine m memref_table idx h =
    pointed-Safe machine.table_address m.tables idx h
reference_value-Safe machine m memref_mem idx h = pointed-Safe machine.mem_address m.mems idx h
reference_value-Safe machine m memref_global idx h =
    pointed-Safe machine.global_address m.globals idx h
reference_value-Safe machine m _ idx h = tt

abbrev SameLength : List ℕ → List ℕ → Type 0
SameLength bytes written = length written ≡ length bytes

write_reference-Safe :
    (bytes : List ℕ) (code_offset val : ℕ)
    → code_offset + 8 ≤ length bytes
    → Safe (SameLength bytes) (write_reference bytes code_offset val)
unfolding le_bytes
write_reference-Safe bytes code_offset val h =
    rw (le→leb (code_offset + 8) (length bytes) h)
      (length-overwrite bytes (le_bytes 8 val) code_offset h)

resolve_references-Safe :
    (machine : Machine) (m : ModuleInst) (rs : List Memref) (n : ℕ) (bytes : List ℕ)
    → length bytes ≡ n
    → All (RefIn n) rs
    → All (Names m) rs
    → Safe (λ written. length written ≡ n) (resolve_references machine m rs bytes)
unfolding resolve_references
resolve_references-Safe machine m [] n bytes e inside known = e
resolve_references-Safe machine m (r ∷ rs) n bytes e inside known =
    bind-Safe Any _ (reference_value machine m r.type r.idx) _
      (reference_value-Safe machine m r.type r.idx known.0)
      λ val _.
        bind-Safe (SameLength bytes) _ (write_reference bytes r.code_offset val) _
          (write_reference-Safe bytes r.code_offset val (omega (arith, e, inside.0)))
          λ written same. resolve_references-Safe machine m rs n written (same ∙ e) inside.1 known.1

-- Where a function is compiled, and the types, functions, tables, memories and globals that its
-- references name are in the instance, the writing of their addresses into the code stays inside the
-- code and leaves it as long as it is.
pub compile_function-resolve_references :
    (calloc : State.Allocator) (env : Env) (code : Code) (usage : ℕ) (s : State) (machine : Machine)
    (m : ModuleInst)
    → compile_function calloc env (rounds code.instructions) code no_output ≡ State.done usage s
    → All (Names m) s.memrefs
    → Safe
        (λ written. length written ≡ length s.output)
        (resolve_references machine m s.memrefs s.output)
compile_function-resolve_references calloc env code usage s machine m e known =
    let ended =
      ended_at usage s
        (compile_function-Ends calloc env (rounds code.instructions) code (omega arith)) e in
    resolve_references-Safe machine m s.memrefs (length s.output) s.output refl ended.0.memrefs_in
      known
