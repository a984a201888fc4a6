-- ===== src/Parse/State.antt =====
-- src/wasmjit/parse.c and parse.h: `struct ParseState`, its basic readers, and the outcomes of a
-- reader. `input` holds the `amt_left` bytes from the source's pointer on, so `amt_left` is its
-- length. `eof` is the source's flag. A reader that returns 0 is `fail`, with the state it leaves.
-- `undef` stands for behaviour that C leaves undefined, and `out_of_fuel` has no counterpart: it
-- marks a model loop that was given too few rounds.
-- The host is little-endian, as the x86-64 that the program supports, so that
-- `uint32_t_swap_bytes` and its like change nothing. A float is its bit pattern.
use wasmjit.Prelude.{
  ℕ, ◌+◌, ◌*◌, Bool, true, false, List, [], ◌∷◌, Option, none, some, length, take, drop, ltb,
  if◌then◌else◌,
}

pub record ParseState : Type 0 where
  pub eof : Bool
  pub input : List ℕ

pub data Outcome {ℓ} (A : Type ℓ) : Type ℓ where
  ok : A → ParseState → Outcome A
  fail : ParseState → Outcome A
  undef : Outcome A
  out_of_fuel : Outcome A

abbrev pub Reader {ℓ} : Type ℓ → Type ℓ
Reader A = ParseState → Outcome A

abbrev pub pure {ℓ} : {A : Type ℓ} → A → Reader A
pure a s = ok a s

abbrev pub failed {ℓ} : {A : Type ℓ} → Reader A
failed s = fail s

abbrev pub bind {ℓ κ} :
    {A : Type ℓ} {B : Type κ} → Outcome A → (A → ParseState → Outcome B) → Outcome B
bind (ok a s) f = f a s
bind (fail s) f = fail s
bind undef f = undef
bind out_of_fuel f = out_of_fuel

infixl 5 ◌>>=◌ ◌>>◌
abbrev pub ◌>>=◌ {ℓ κ} : {A : Type ℓ} {B : Type κ} → Reader A → (A → Reader B) → Reader B
◌>>=◌ m f s = bind (m s) f

abbrev pub ◌>>◌ {ℓ κ} : {A : Type ℓ} {B : Type κ} → Reader A → Reader B → Reader B
m >> k = m >>= λ _. k

-- `if (!c) goto error;`
abbrev pub check : Bool → Reader (Unit {0})
check true s = ok tt s
check false s = fail s

-- The state at `buf`, if that is not NULL.
unfoldable pub init_pstate : Option (List ℕ) → Option ParseState
init_pstate none = none
init_pstate (some buf) = some (record { eof = false; input = buf })

unfoldable pub advance_parser : ℕ → Reader (Unit {0})
advance_parser size s =
    if ltb (length s.input) size
    then fail (record s { eof = true })
    else ok tt (record s { input = drop size s.input })

-- `memcpy` of `size` bytes from the input, and the step over them.
unfoldable pub read_raw : ℕ → Reader (List ℕ)
read_raw size s =
    if ltb (length s.input) size
    then fail (record s { eof = true })
    else ok (take size s.input) (record s { input = drop size s.input })

-- The unsigned integer that little-endian bytes stand for.
unfoldable pub le_value : List ℕ → ℕ
le_value [] = 0
le_value (b ∷ bs) = b + 256 * le_value bs

first_byte : Bool → List ℕ → Outcome ℕ
first_byte eof [] = fail (record { eof = true; input = [] })
first_byte eof (b ∷ rest) = ok b (record { eof = eof; input = rest })

unfoldable pub read_uint8 : Reader ℕ
unfolding first_byte
read_uint8 s = first_byte s.eof s.input

unfoldable pub read_uint32 : Reader ℕ
unfolding read_raw le_value
read_uint32 = do bs ← read_raw 4; pure (le_value bs)

unfoldable pub read_float : Reader ℕ
unfolding read_raw le_value
read_float = do bs ← read_raw 4; pure (le_value bs)

unfoldable pub read_double : Reader ℕ
unfolding read_raw le_value
read_double = do bs ← read_raw 8; pure (le_value bs)

-- What the allocator answers: whether a request of so many bytes, made when that input is left,
-- is met. `malloc`, `calloc` and `realloc` are not the program's own, and a proof that holds for
-- every `Allocator` holds whatever they return.
abbrev pub Allocator : Type 0
Allocator = List ℕ → ℕ → Bool

-- `p = malloc(size); if (!p) goto error;`
abbrev pub request : Allocator → ℕ → Reader (Unit {0})
request alloc size s = check (alloc s.input size) s

-- `for (i = 0; i < n; ++i) { if (!read(...)) goto error; }`, the items in order.
unfoldable pub read_items {ℓ} : {A : Type ℓ} → ℕ → Reader A → Reader (List A)
read_items ℕ.zero read = pure []
read_items (ℕ.suc n) read = do x ← read; xs ← read_items n read; pure (x ∷ xs)
