-- ===== src/Parse/Module/Ends.antt =====
-- The end of `read_module` of src/wasmjit/parse.c: its fuel, and the input that is left.
use wasmjit.Prelude.{
  ℕ, zero, suc, ◌+◌, ◌≤◌, ◌<◌, ◌≡◌, refl, ap, Bool, true, false, List, [], ◌∷◌, arith, length,
  length-append, ◌==◌, if◌then◌else◌,
}
use wasmjit.Ast.Section.{Module}
use wasmjit.Parse.State.{ParseState, Outcome, Allocator, read_uint8}
use wasmjit.Parse.Module.{
  Item, ModuleResult, read, rejected, undefined, no_fuel, read_item, Continue, read_late_section,
  read_section, read_sections, read_module, empty_module, wasm_magic, wasm_version,
}
use wasmjit.Parse.Takes.{
  Takes, takes, fails, Takes-mono, read_uleb-Runs, read_uint32-Takes, advance_parser-Takes,
}
use wasmjit.Parse.Takes.Section.{
  read_type_section-Runs, read_import_section-Runs, read_function_section-Runs,
  read_table_section-Runs, read_memory_section-Runs, read_global_section-Runs,
  read_export_section-Runs, read_element_section-Runs, read_code_section-Runs,
  read_data_section-Runs,
}

-- The reader does not run out of fuel, and a module is accepted where no input is left, with the
-- end-of-file flag set. Of a rejection, and of what C leaves undefined, nothing is said.
abbrev pub Ends : ModuleResult → Type 0
Ends (read m s) = (s.input ≡ []) × (s.eof ≡ true)
Ends (rejected why s) = Unit
Ends undefined = Unit
Ends no_fuel = ⊥

-- An item that is read ends, if what follows it does on no more input.
read_item-Ends {ℓ} :
    {A : Type ℓ} (s : ParseState) {r : Outcome A} (item : Item) (k : A → ParseState → ModuleResult)
    → Takes 0 s r
    → ((a : A) (s' : ParseState) → length s'.input ≤ length s.input → Ends (k a s'))
    → Ends (read_item item r k)
read_item-Ends s item k (takes {s' = s'} bs p q e) rest =
    rest _ s' (omega (arith, ap length p, length-append bs s'.input))
read_item-Ends s item k fails rest = tt
read_item-Ends s item k Takes.undefined rest = tt

if-Ends : (b : Bool) (x y : ModuleResult) → Ends x → Ends y → Ends (if b then x else y)
if-Ends true x y p q = p
if-Ends false x y p q = q

module _ (alloc : Allocator) (n i : ℕ) (m : Module) (s : ParseState) (k : Continue)
    (rest : (m' : Module) (s' : ParseState)
      → length s'.input ≤ length s.input
      → Ends (k m' s')) where
  section-Ends {ℓ} :
      {A : Type ℓ} {r : Outcome A} (item : Item) (f : A → Module)
      → Takes 0 s r
      → Ends (read_item item r (λ x. k (f x)))
  section-Ends item f t = read_item-Ends s item (λ x. k (f x)) t (λ a s'. rest (f a) s')

  read_late_section-Ends : Ends (read_late_section alloc i m s k)
  unfolding read_late_section
  read_late_section-Ends =
      if-Ends (i == 6) _ _ (section-Ends _ _ (read_global_section-Runs alloc s)) (
        if-Ends (i == 7) _ _ (section-Ends _ _ (read_export_section-Runs alloc s)) (
          if-Ends (i == 8) _ _ (section-Ends _ _ (read_uleb-Runs 32 s)) (
            if-Ends (i == 9) _ _ (section-Ends _ _ (read_element_section-Runs alloc s)) (
              if-Ends (i == 10) _ _ (section-Ends _ _ (read_code_section-Runs alloc s))
                (if-Ends (i == 11) _ _ (section-Ends _ _ (read_data_section-Runs alloc s)) tt)))))

  read_section-Ends : Ends (read_section alloc i n m s k)
  unfolding read_section
  read_section-Ends =
      if-Ends (i == 0) _ _ (section-Ends _ _ (Takes-mono (omega arith) (advance_parser-Takes n s)))
        (if-Ends (i == 1) _ _ (section-Ends _ _ (read_type_section-Runs alloc s)) (
          if-Ends (i == 2) _ _ (section-Ends _ _ (read_import_section-Runs alloc s)) (
            if-Ends (i == 3) _ _ (section-Ends _ _ (read_function_section-Runs alloc s)) (
              if-Ends (i == 4) _ _ (section-Ends _ _ (read_table_section-Runs alloc s)) (
                if-Ends (i == 5) _ _ (section-Ends _ _ (read_memory_section-Runs alloc s))
                  read_late_section-Ends)))))

read_sections-Ends :
    (alloc : Allocator) (fuel : ℕ) (m : Module) (eof : Bool) (bs : List ℕ)
    → length bs < fuel
    → Ends (read_sections alloc fuel m (record { eof = eof; input = bs }))
unfolding read_sections read_uint8
read_sections-Ends alloc zero m eof bs h = absurd (omega arith)
read_sections-Ends alloc (suc fuel) m eof [] h = (refl, refl)
read_sections-Ends alloc (suc fuel) m eof (i ∷ bs) h =
    read_item-Ends (record { eof = eof; input = bs }) Item.size _ (read_uleb-Runs 32 _)
      λ n s l.
        read_section-Ends alloc n i m s (read_sections alloc fuel)
          λ m' s' l'. read_sections-Ends alloc fuel m' s'.eof s'.input (omega arith)

-- For every allocator and every input, neither the loop of `read_module` nor those that it calls run
-- out of fuel: it accepts a module, rejects it, or meets something that C leaves undefined, as on an
-- integer with too many bytes. Where it accepts a module, it has read the input to its end, and the
-- end-of-file flag is set.
pub read_module-Ends : (alloc : Allocator) (s : ParseState) → Ends (read_module alloc s)
unfolding read_module
read_module-Ends alloc s =
    read_item-Ends s Item.magic _ (Takes-mono (omega arith) (read_uint32-Takes s)) λ m s₁ l₁.
      if-Ends (m == wasm_magic) _ _
        (read_item-Ends s₁ Item.version _ (Takes-mono (omega arith) (read_uint32-Takes s₁))
          λ v s₂ l₂.
            if-Ends (v == wasm_version) _ _
              (read_sections-Ends alloc (length s₂.input + 1) empty_module s₂.eof s₂.input
                (omega arith))
              tt)
        tt
