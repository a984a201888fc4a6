-- ===== src/Instantiate/Define/Has.antt =====
-- src/wasmjit/instantiate.c: what each step adds to the functions and globals of an instance.
use wasmjit.Prelude.{
  ℕ, ◌≡◌, refl, sym, Bool, true, false, List, [], ◌∷◌, ◌++◌, append-nil, none, length, get_elem?,
  ==_iff, ◌==◌, ◌&&◌,
}
use wasmjit.Ast.Section.{
  FuncType, GlobalType, TableType, MemoryType, ImportDesc, Import, Global, Export,
}
use wasmjit.Runtime.Store.{GlobalInst, ExportPtr}
use wasmjit.Runtime.Typecheck.{typecheck_func, typecheck_global, typecheck_table, typecheck_memory}
use wasmjit.Runtime.Typecheck.Exact.{typecheck_func_iff}
use wasmjit.Instantiate.State.{ensure, element}
use wasmjit.Instantiate.Constant.{read_constant_expression}
use wasmjit.Instantiate.Create.{create_table, create_memory}
use wasmjit.Instantiate.Import.{
  Linking, Allocator, NamedModule, found, find_module, find_export, add_import, load_import,
}
use wasmjit.Instantiate.Define.{
  add_type, add_func, add_table, add_memory, add_global, export_value, add_export,
}
use wasmjit.Instantiate.Code.{func_type, global_type}
use wasmjit.Instantiate.Define.Constants.{constant-Gives}
use wasmjit.Instantiate.Define.Lists.{Lists, get_elem?-last, Lists-snoc, Lists-grown}
use wasmjit.Instantiate.Gives.{
  Gives, Gives-bind, Gives-next, Gives-done, Gives-error, element-Gives, ensure-Gives,
}

-- What an import declares.
abbrev pub func_index : ImportDesc → List ℕ
func_index (ImportDesc.func typeidx) = typeidx ∷ []
func_index _ = []

abbrev pub global_of : ImportDesc → List GlobalType
global_of (ImportDesc.global type) = type ∷ []
global_of _ = []

abbrev pub identity {ℓ} : {A : Type ℓ} → A → A
identity a = a

-- The functions of an instance have the types of these indices, and its globals these types.
pub record Has (types : List FuncType) (idxs : List ℕ) (globals : List GlobalType) (l : Linking)
    : Type 0 where
  pub func_types : List FuncType
  pub declared : Lists identity types idxs func_types
  pub funcs_typed : Lists func_type l.store.funcs l.module_inst.funcs func_types
  pub globals_typed : Lists global_type l.store.globals l.module_inst.globals globals

both : (a b : Bool) → (a && b) ≡ true → (a ≡ true) × (b ≡ true)
both true b h = (refl, h)
both false b h = cc

same_global :
    (type : GlobalType) (g : GlobalInst) → typecheck_global type g ≡ true → global_type g ≡ type
unfolding typecheck_global
same_global type g h =
    let p = both (g.value.type == type.valtype) (g.mut == type.mut) h in
    let t = (==_iff _ _).0 p.0 in
    let m = (==_iff _ _).0 p.1 in λ i. record { valtype = t i; mut = m i }

module _ (types : List FuncType) where
  -- A step that adds neither functions nor globals.
  pub unmoved :
      {idxs : List ℕ} {globals : List GlobalType} (l t : Linking)
      → Has types idxs globals l
      → l.store.funcs ≡ t.store.funcs
      → l.store.globals ≡ t.store.globals
      → l.module_inst.funcs ≡ t.module_inst.funcs
      → l.module_inst.globals ≡ t.module_inst.globals
      → Has types idxs globals t
  unmoved l t h p q r s = record {
    func_types = h.func_types;
    declared = h.declared;
    funcs_typed = rw (← p, ← r) h.funcs_typed;
    globals_typed = rw (← q, ← s) h.globals_typed;
  }

  module _ (alloc : Allocator) where
    pub add_import-Has :
        (desc : ImportDesc) (value : ExportPtr) (idxs : List ℕ) (globals : List GlobalType)
        (l : Linking)
        → Has types idxs globals l
        → Gives
            (Has types (idxs ++ func_index desc) (globals ++ global_of desc))
            (add_import alloc types desc value l)
    unfolding add_import
    add_import-Has (ImportDesc.func i) (ExportPtr.func f) idxs globals l h =
        Gives-bind (element (get_elem? types i)) (element-Gives (get_elem? types i)) λ type p.
          Gives-bind (element (get_elem? l.store.funcs f))
            (element-Gives (get_elem? l.store.funcs f))
            λ funcinst q.
              Gives-bind (ensure (typecheck_func type funcinst))
                (ensure-Gives (typecheck_func type funcinst))
                λ _ same. Gives-next (ensure (alloc l 0)) λ _. Gives-done (
                  rw append-nil record {
                    func_types = h.func_types ++ type ∷ [];
                    declared = Lists-snoc i type type h.declared p refl;
                    funcs_typed =
                        Lists-snoc f funcinst type h.funcs_typed q
                          (sym ((typecheck_func_iff type funcinst).0 same));
                    globals_typed = h.globals_typed;
                  })
    add_import-Has (ImportDesc.table t) (ExportPtr.table a) idxs globals l h =
        Gives-next (element (get_elem? l.store.tables a)) λ x.
          Gives-next (ensure (typecheck_table t x)) λ _.
            Gives-next (ensure (alloc l 0))
              λ _. Gives-done (rw (append-nil, append-nil) (unmoved l _ h refl refl refl refl))
    add_import-Has (ImportDesc.mem t) (ExportPtr.mem a) idxs globals l h =
        Gives-next (element (get_elem? l.store.mems a)) λ x.
          Gives-next (ensure (typecheck_memory t x)) λ _.
            Gives-next (ensure (alloc l 0))
              λ _. Gives-done (rw (append-nil, append-nil) (unmoved l _ h refl refl refl refl))
    add_import-Has (ImportDesc.global t) (ExportPtr.global a) idxs globals l h =
        Gives-bind (element (get_elem? l.store.globals a))
          (element-Gives (get_elem? l.store.globals a))
          λ g q.
            Gives-bind (ensure (typecheck_global t g)) (ensure-Gives (typecheck_global t g))
              λ _ same. Gives-next (ensure (alloc l 0)) λ _. Gives-done (
                rw append-nil record {
                  func_types = h.func_types;
                  declared = h.declared;
                  funcs_typed = h.funcs_typed;
                  globals_typed = Lists-snoc a g t h.globals_typed q (same_global t g same);
                })
    add_import-Has _ _ idxs globals l h = Gives-error

    pub load_import-Has :
        (imports : List NamedModule) (i : Import) (idxs : List ℕ) (globals : List GlobalType)
        (l : Linking)
        → Has types idxs globals l
        → Gives
            (Has types (idxs ++ func_index i.desc) (globals ++ global_of i.desc))
            (load_import alloc types imports i l)
    unfolding load_import
    load_import-Has imports i idxs globals l h =
        Gives-next (found (find_module i.module_name imports none)) λ m.
          Gives-next (found (find_export i.name m.exports))
            λ e. add_import-Has i.desc e.value idxs globals l h

    pub add_func-Has :
        (typeidx : ℕ) (idxs : List ℕ) (globals : List GlobalType) (l : Linking)
        → Has types idxs globals l
        → Gives (Has types (idxs ++ typeidx ∷ []) globals) (add_func alloc types typeidx l)
    unfolding add_func
    add_func-Has i idxs globals l h = Gives-next (ensure (alloc l 0)) λ _.
        Gives-bind (element (get_elem? types i)) (element-Gives (get_elem? types i)) λ type p.
          Gives-next (ensure (alloc l 1)) λ _. Gives-done (record {
            func_types = h.func_types ++ type ∷ [];
            declared = Lists-snoc i type type h.declared p refl;
            funcs_typed =
                Lists-snoc (length l.store.funcs) _ type (Lists-grown _ h.funcs_typed)
                  (get_elem?-last l.store.funcs _) refl;
            globals_typed = h.globals_typed;
          })

    pub add_global-Has :
        (g : Global) (idxs : List ℕ) (globals : List GlobalType) (l : Linking)
        → Has types idxs globals l
        → Gives (Has types idxs (globals ++ g.type ∷ [])) (add_global alloc g l)
    unfolding add_global
    add_global-Has g idxs globals l h =
        Gives-bind (read_constant_expression l.store l.module_inst g.type.valtype g.instructions)
          (constant-Gives l.store l.module_inst g.type.valtype g.instructions)
          λ value typed. Gives-next (ensure (alloc l 0)) λ _. Gives-next (ensure (alloc l 1)) λ _.
            Gives-done (record {
              func_types = h.func_types;
              declared = h.declared;
              funcs_typed = h.funcs_typed;
              globals_typed =
                  Lists-snoc (length l.store.globals) (record { value = value; mut = g.type.mut })
                    g.type (Lists-grown _ h.globals_typed) (get_elem?-last l.store.globals _)
                    (λ i. record { valtype = typed i; mut = g.type.mut });
            })

    pub add_type-Has :
        (type : FuncType) (idxs : List ℕ) (globals : List GlobalType) (l : Linking)
        → Has types idxs globals l
        → Gives (Has types idxs globals) (add_type alloc type l)
    unfolding add_type
    add_type-Has type idxs globals l h =
        Gives-next (ensure (alloc l 0)) λ _. Gives-done (unmoved l _ h refl refl refl refl)

    pub add_table-Has :
        (table : TableType) (idxs : List ℕ) (globals : List GlobalType) (l : Linking)
        → Has types idxs globals l
        → Gives (Has types idxs globals) (add_table alloc table l)
    unfolding add_table
    add_table-Has table idxs globals l h =
        Gives-next (create_table (alloc l 0) (alloc l 1) table)
          λ _. Gives-next (ensure (alloc l 2)) λ _. Gives-done (unmoved l _ h refl refl refl refl)

    pub add_memory-Has :
        (memtype : MemoryType) (idxs : List ℕ) (globals : List GlobalType) (l : Linking)
        → Has types idxs globals l
        → Gives (Has types idxs globals) (add_memory alloc memtype l)
    unfolding add_memory
    add_memory-Has memtype idxs globals l h =
        Gives-next (create_memory (alloc l 0) (alloc l 1) memtype)
          λ _. Gives-next (ensure (alloc l 2)) λ _. Gives-done (unmoved l _ h refl refl refl refl)

    pub add_export-Has :
        (e : Export) (idxs : List ℕ) (globals : List GlobalType) (l : Linking)
        → Has types idxs globals l
        → Gives (Has types idxs globals) (add_export alloc e l)
    unfolding add_export
    add_export-Has e idxs globals l h = Gives-next (ensure (alloc l 0)) λ _.
        Gives-next (ensure (alloc l 1)) λ _.
          Gives-next (export_value l.module_inst e.idx_type e.idx)
            λ _. Gives-done (unmoved l _ h refl refl refl refl)
