-- ===== src/Instantiate/Segment/Within.antt =====
-- src/wasmjit/instantiate.c: the accesses that a data segment makes to the objects of a store.
use wasmjit.Prelude.{ℕ, zero, suc, ◌<◌, inl, refl, List, [], ◌∷◌, length, get_elem?, All, arith}
use wasmjit.Ast.Section.{DataSegment}
use wasmjit.Ast.Valtype
use wasmjit.Runtime.Store.{MemInst, Store}
use wasmjit.Instantiate.State.{ModuleInst, Attempt, done, error, undefined, element, ◌>>=◌}
use wasmjit.Instantiate.Constant.{read_constant_expression}
use wasmjit.Instantiate.Constant.Typed.{
  Safe, HasType, Globals, Evaluates-Safe, read_constant_expression-Evaluates,
}
use wasmjit.Instantiate.Create.Typed.{IsMemory}
use wasmjit.Instantiate.Segment.{init_memory, init_data}
use wasmjit.Instantiate.Segment.Data.{Copies, fits, refused, init_memory-Copies}
use wasmjit.Instantiate.Segment.Keeps.{IsWellFormed, set_elem-All}

pub bind-Safe :
    {A B : Type 0} (P : A → Type 0) (Q : B → Type 0) (x : Attempt A) (f : A → Attempt B)
    → Safe P x
    → ((a : A) → P a → Safe Q (f a))
    → Safe Q (x >>= f)
bind-Safe P Q (done a) f p h = h a p
bind-Safe P Q error f p h = tt
bind-Safe P Q undefined f p h = absurd p

element-Safe :
    {A : Type 0} (P : A → Type 0) (xs : List A) (i : ℕ)
    → All P xs
    → i < length xs
    → Safe P (element (get_elem? xs i))
element-Safe P [] i h l = absurd (omega arith)
element-Safe P (x ∷ xs) zero h l = h.0
element-Safe P (x ∷ xs) (suc i) h l = element-Safe P xs i h.1 (omega arith)

copied-IsMemory :
    {meminst : MemInst} {offset : ℕ} {buf : List ℕ} {r : Attempt MemInst}
    → Copies meminst offset buf r
    → Safe IsMemory r
copied-IsMemory (fits bytes p q h) = q
copied-IsMemory (refused p) = tt

-- In a well-formed store, for a module of which the memories and globals exist, a data segment that
-- names a memory, and in its expression globals, of the module never makes an access outside an
-- object: it is an error, or leaves a well-formed store.
pub init_data-Safe :
    (store : Store) (module_inst : ModuleInst) (d : DataSegment)
    → IsWellFormed store
    → All (λ a. a < length store.mems) module_inst.mems
    → All (λ a. a < length store.globals) module_inst.globals
    → d.memidx < length module_inst.mems
    → Globals store module_inst d.instructions
    → Safe IsWellFormed (init_data store module_inst d)
unfolding init_data
init_data-Safe store module_inst d ok mems globals memidx named =
    bind-Safe (λ a. a < length store.mems) IsWellFormed
      (element (get_elem? module_inst.mems d.memidx)) _
      (element-Safe _ module_inst.mems d.memidx mems memidx)
      λ address here.
        bind-Safe IsMemory IsWellFormed (element (get_elem? store.mems address)) _
          (element-Safe IsMemory store.mems address ok.0 here)
          λ meminst whole.
            bind-Safe (HasType Valtype.i32) IsWellFormed
              (read_constant_expression store module_inst Valtype.i32 d.instructions) _
              (Evaluates-Safe Valtype.i32 _ _ (
                read_constant_expression-Evaluates store module_inst Valtype.i32 d.instructions
                  (inl refl) globals named))
              λ value typed.
                bind-Safe IsMemory IsWellFormed (init_memory value.bits d.buf meminst) _
                  (copied-IsMemory (init_memory-Copies value.bits d.buf meminst whole))
                  λ m p. (set_elem-All IsMemory store.mems address ok.0 p, ok.1)
