-- ===== src/Ast/Path.antt =====
-- The places where the reader of src/wasmjit/parse.c holds a pointer to a vector of instructions:
-- the root's, or a field of the last instruction of another vector. A path names the fields from
-- the root on.
pub mod Laws
use wasmjit.Prelude.{List, [], ◌∷◌, Option, none, some}
use wasmjit.Ast.Instruction.{Instr, Instrs, block, loop, if_, nil, cons}

-- `data.block.instructions` and `data.loop.instructions` share their place in the union.
pub data Field : Type 0 where
  body then_ else_ : Field

abbrev pub Place : Type 0
Place = List Field

abbrev pub read_field : Field → Instr → Option Instrs
read_field body (block bt is) = some is
read_field body (loop bt is) = some is
read_field then_ (if_ bt is es) = some is
read_field else_ (if_ bt is es) = some es
read_field _ _ = none

abbrev pub write_field : Field → (Instrs → Instrs) → Instr → Instr
write_field body f (block bt is) = block bt (f is)
write_field body f (loop bt is) = loop bt (f is)
write_field then_ f (if_ bt is es) = if_ bt (f is) es
write_field else_ f (if_ bt is es) = if_ bt is (f es)
write_field _ f i = i

abbrev pub last_instr : Instrs → Option Instr
last_instr nil = none
last_instr (cons i nil) = some i
last_instr (cons i (cons j is)) = last_instr (cons j is)

abbrev pub on_last : (Instr → Instr) → Instrs → Instrs
on_last f nil = nil
on_last f (cons i nil) = cons (f i) nil
on_last f (cons i (cons j is)) = cons i (on_last f (cons j is))

abbrev pub bind_option {ℓ κ} : {A : Type ℓ} {B : Type κ} → Option A → (A → Option B) → Option B
bind_option none f = none
bind_option (some a) f = f a

-- The vector at a path, where there is one.
unfoldable pub get : Place → Instrs → Option Instrs
get [] is = some is
get (f ∷ p) is = bind_option (last_instr is) λ i. bind_option (read_field f i) (get p)

-- A write to the vector at a path.
unfoldable pub update : Place → (Instrs → Instrs) → Instrs → Instrs
update [] g is = g is
update (f ∷ p) g is = on_last (write_field f (update p g)) is
