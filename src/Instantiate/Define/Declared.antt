-- ===== src/Instantiate/Define/Declared.antt =====
-- src/wasmjit/instantiate.c: the functions and globals of an instance against what its module declares.
use wasmjit.Prelude.{
  ℕ, ◌≡◌, refl, sym, ap, List, [], ◌∷◌, ◌++◌, append_assoc, append-nil, get_elem?, map,
}
use wasmjit.Ast.Section.{FuncType, GlobalType, Import, Global, Element, Module}
use wasmjit.Runtime.Store.{Store}
use wasmjit.Ast.Valtype
use wasmjit.Instantiate.State.{ModuleInst, Attempt, done, ensure, element, ◌>>=◌}
use wasmjit.Instantiate.Constant.{read_constant_expression}
use wasmjit.Instantiate.Segment.{init_table, init_element}
use wasmjit.Instantiate.Import.{Linking, Allocator, NamedModule, load_import, for_each}
use wasmjit.Instantiate.Define.{
  add_type, add_func, add_table, add_memory, add_global, add_export, link,
}
use wasmjit.Instantiate.Code.{
  collect, table_type, memory_type, enough, ModuleTypes, fill_module_types,
}
use wasmjit.Instantiate.Whole.{no_instance, on_store, prepare}
use wasmjit.Instantiate.Gives.{Gives, Gives-bind, Gives-next, Gives-done}
use wasmjit.Instantiate.Define.Lists.{nothing, Lists-collect}
use wasmjit.Instantiate.Define.Has.{
  Has, unmoved, func_index, global_of, identity, load_import-Has, add_func-Has, add_global-Has,
  add_type-Has, add_table-Has, add_memory-Has, add_export-Has,
}

abbrev pub gather {ℓ κ} : {A : Type ℓ} {B : Type κ} → (A → List B) → List A → List B
gather f [] = []
gather f (x ∷ xs) = f x ++ gather f xs

gather-map : {A B : Type 0} (f : A → B) (xs : List A) → gather (λ x. f x ∷ []) xs ≡ map f xs
gather-map f [] = refl
gather-map f (x ∷ xs) = ap (λ (r : List _). f x ∷ r) (gather-map f xs)

gather-itself : (xs : List ℕ) → gather (λ (x : ℕ). x ∷ []) xs ≡ xs
gather-itself [] = refl
gather-itself (x ∷ xs) = ap (λ (r : List ℕ). x ∷ r) (gather-itself xs)

gather-nothing : {A B : Type 0} (xs : List A) → gather {B = B} (λ (_ : A). []) xs ≡ []
gather-nothing [] = refl
gather-nothing (x ∷ xs) = gather-nothing xs

-- The indices of the types of a module's functions, and the types of its globals: those of the
-- imports come first.
abbrev pub declared_funcs : Module → List ℕ
declared_funcs m = gather (λ (i : Import). func_index i.desc) m.imports ++ m.typeidxs

abbrev pub declared_globals : Module → List GlobalType
declared_globals m =
    gather (λ (i : Import). global_of i.desc) m.imports ++ map (λ (g : Global). g.type) m.globals

element_kept :
    (store : Store) (m : ModuleInst) (e : Element)
    → Gives (λ s. (s.funcs ≡ store.funcs) × (s.globals ≡ store.globals)) (init_element store m e)
unfolding init_element
element_kept store m e =
    Gives-next (read_constant_expression store m Valtype.i32 e.instructions) λ value.
      Gives-next (element (get_elem? m.tables e.tableidx)) λ address.
        Gives-next (element (get_elem? store.tables address))
          λ t. Gives-next (init_table m.funcs value.bits e.funcidxs t) λ _. Gives-done (refl, refl)

module _ (types : List FuncType) where
  -- A loop of which each round adds what its element declares.
  for_each-Has :
      {A : Type 0} (step : A → Linking → Attempt Linking) (f : A → List ℕ) (g : A → List GlobalType)
      → ((x : A) (idxs : List ℕ) (globals : List GlobalType) (l : Linking)
          → Has types idxs globals l
          → Gives (Has types (idxs ++ f x) (globals ++ g x)) (step x l))
      → (xs : List A) (idxs : List ℕ) (globals : List GlobalType) (l : Linking)
      → Has types idxs globals l
      → Gives (Has types (idxs ++ gather f xs) (globals ++ gather g xs)) (for_each step xs l)
  for_each-Has step f g h [] idxs globals l p = Gives-done (rw (append-nil, append-nil) p)
  for_each-Has step f g h (x ∷ xs) idxs globals l p =
      Gives-bind (step x l) (h x idxs globals l p) λ t q.
        let rest = for_each-Has step f g h xs (idxs ++ f x) (globals ++ g x) t q in
        rw (← append_assoc idxs (f x) (gather f xs), ← append_assoc globals (g x) (gather g xs))
          rest

  for_each-keeps :
      {A : Type 0} (step : A → Linking → Attempt Linking) {idxs : List ℕ}
      {globals : List GlobalType}
      → ((x : A) (l : Linking)
          → Has types idxs globals l
          → Gives (Has types idxs globals) (step x l))
      → (xs : List A) (l : Linking) → Has types idxs globals l
      → Gives (Has types idxs globals) (for_each step xs l)
  for_each-keeps step h [] l p = Gives-done p
  for_each-keeps step h (x ∷ xs) l p =
      Gives-bind (step x l) (h x l p) λ t q. for_each-keeps step h xs t q

  -- Element segments leave the functions and the globals.
  element-Has :
      {idxs : List ℕ} {globals : List GlobalType} (e : Element) (l : Linking)
      → Has types idxs globals l
      → Gives (Has types idxs globals) (on_store init_element e l)
  element-Has e l h =
      Gives-bind (init_element l.store l.module_inst e) (element_kept l.store l.module_inst e)
        λ s same. Gives-done (unmoved types l _ h (sym same.0) (sym same.1) refl refl)

-- The types that are filled in are those that the module declares.
pub record Declares (m : Module) (filled : ModuleTypes) : Type 0 where
  pub functypes_declared : collect identity m.types (declared_funcs m) ≡ done filled.functypes
  pub globaltypes_declared : filled.globaltypes ≡ declared_globals m

fill-Declares :
    (alloc : Allocator) (m : Module) (l : Linking)
    → Has m.types (declared_funcs m) (declared_globals m) l
    → Gives (Declares m) (fill_module_types alloc l)
unfolding fill_module_types
fill-Declares alloc m l h =
    rw (Lists-collect h.funcs_typed, Lists-collect h.globals_typed)
      (Gives-next (enough (alloc l 0) l.module_inst.funcs) λ _.
        Gives-next (enough (alloc l 1) l.module_inst.tables) λ _.
          Gives-next (enough (alloc l 2) l.module_inst.mems) λ _.
            Gives-next (enough (alloc l 3) l.module_inst.globals) λ _.
              Gives-next (collect table_type l.store.tables l.module_inst.tables) λ _.
                Gives-next (collect memory_type l.store.mems l.module_inst.mems) λ _.
                  Gives-done (record {
                    functypes_declared = Lists-collect h.declared;
                    globaltypes_declared = refl;
                  }))

abbrev pub fresh : Store → List (ℕ × List ℕ) → Linking
fresh store segments = record { store = store; module_inst = no_instance; segments = segments }

link-Has :
    (alloc : Allocator) (imports : List NamedModule) (m : Module) (store : Store)
    (segments : List (ℕ × List ℕ))
    → Gives
        (Has m.types (declared_funcs m) (declared_globals m))
        (link alloc imports m (fresh store segments))
unfolding link
link-Has alloc imports m store segments =
    Gives-bind
      (ensure (alloc (fresh store segments) 1) >>= λ _.
        for_each (add_type alloc) m.types (fresh store segments))
      (Gives-next (ensure (alloc (fresh store segments) 1)) λ _.
        for_each-keeps m.types (add_type alloc) (λ x l. add_type-Has m.types alloc x [] [] l)
          m.types (fresh store segments) nothing_yet)
      λ l0 h0.
        Gives-bind (for_each (load_import alloc m.types imports) m.imports l0)
          (for_each-Has m.types (load_import alloc m.types imports) (λ i. func_index i.desc)
            (λ i. global_of i.desc) (load_import-Has m.types alloc imports) m.imports [] [] l0 h0)
          λ l1 h1.
            Gives-bind (for_each (add_func alloc m.types) m.typeidxs l1)
              (for_each-Has m.types (add_func alloc m.types) (λ i. i ∷ []) (λ _. [])
                (λ i is gs l h. rw append-nil (add_func-Has m.types alloc i is gs l h)) m.typeidxs
                (gather (λ (i : Import). func_index i.desc) m.imports)
                (gather (λ (i : Import). global_of i.desc) m.imports) l1 h1)
              λ l2 h2.
                Gives-bind (for_each (add_table alloc) m.tables l2)
                  (for_each-keeps m.types (add_table alloc)
                    (λ x l. add_table-Has m.types alloc x _ _ l) m.tables l2 h2)
                  λ l3 h3.
                    Gives-bind (for_each (add_memory alloc) m.memories l3)
                      (for_each-keeps m.types (add_memory alloc)
                        (λ x l. add_memory-Has m.types alloc x _ _ l) m.memories l3 h3)
                      λ l4 h4.
                        Gives-bind (for_each (add_global alloc) m.globals l4)
                          (for_each-Has m.types (add_global alloc) (λ _. []) (λ g. g.type ∷ [])
                            (λ g is gs l h.
                              rw append-nil (add_global-Has m.types alloc g is gs l h))
                            m.globals _ _ l4 h4)
                          λ l5 h5. rw (← gather-map (λ (g : Global). g.type) m.globals) (
                            for_each-keeps m.types (add_export alloc)
                              (λ x l. add_export-Has m.types alloc x _ _ l) m.exports l5
                              (rw
                                (
                                  gather-itself m.typeidxs,
                                  gather-nothing m.globals,
                                  gather-nothing m.typeidxs,
                                  append-nil,
                                  append-nil,
                                )
                                at h5))
  where
    nothing_yet : Has m.types [] [] (fresh store segments)
    nothing_yet = record {
      func_types = [];
      declared = nothing;
      funcs_typed = nothing;
      globals_typed = nothing;
    }

-- Where the instance of a module is linked, its elements are in the tables and its types are filled in,
-- the types of functions, by which their code is compiled, are those that the imports and
-- then the definitions of the module declare, and so are those of the globals.
pub prepare-Declares :
    (alloc : Allocator) (imports : List NamedModule) (m : Module) (store : Store)
    (segments : List (ℕ × List ℕ))
    → Gives (λ r. Declares m r.0) (prepare alloc imports m (fresh store segments))
unfolding prepare
prepare-Declares alloc imports m store segments =
    Gives-bind (link alloc imports m (fresh store segments))
      (link-Has alloc imports m store segments)
      λ l h.
        Gives-bind (for_each (on_store init_element) m.elements l)
          (for_each-keeps m.types (on_store init_element) (element-Has m.types) m.elements l h)
          λ t k.
            Gives-bind (fill_module_types alloc t) (fill-Declares alloc m t k)
              λ filled d. Gives-done d
