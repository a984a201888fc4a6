-- ===== src/Emscripten/Memory.antt =====
-- src/wasmjit/emscripten_runtime.c: how the host reads and writes the memory of a module. A step is
-- given the memory and ends with a value, by a `return` of the whole call, by a trap, or with
-- something undefined: an access of the host outside the memory.
pub mod Copies
pub mod Keeps
use wasmjit.Prelude.{
  ℕ, zero, suc, ◌+◌, ◌-◌, ◌*◌, ◌/◌, ◌%◌, ◌^◌, Bool, true, false, not, ◌&&◌, List, [], ◌∷◌, ◌++◌,
  Option, none, some, length, take, drop, get_elem?, ltb, leb, ◌==◌, if◌then◌else◌,
}
use wasmjit.Prelude.Overwrite.{overwrite}
use wasmjit.Runtime.Store.{MemInst}
use wasmjit.Runtime.Indirect.{array_index_nospec}
use wasmjit.Parse.State.{le_value}

-- WASMJIT_TRAP_INTEGER_OVERFLOW, WASMJIT_TRAP_MEMORY_OVERFLOW and WASMJIT_TRAP_ABORT
pub data Trap : Type 0 where
  integer_overflow memory_overflow aborted : Trap

pub data Outcome {ℓ} (A : Type ℓ) : Type ℓ where
  done : A → MemInst → Outcome A
  returned : ℕ → MemInst → Outcome A
  trapped : Trap → Outcome A
  undefined : Outcome A

abbrev pub Step {ℓ} : Type ℓ → Type ℓ
Step A = MemInst → Outcome A

abbrev pub bind {ℓ κ} : {A : Type ℓ} {B : Type κ} → Outcome A → (A → Step B) → Outcome B
bind (done a m) f = f a m
bind (returned v m) f = returned v m
bind (trapped t) f = trapped t
bind undefined f = undefined

infixl 5 ◌>>=◌ ◌>>◌
abbrev pub ◌>>=◌ {ℓ κ} : {A : Type ℓ} {B : Type κ} → Step A → (A → Step B) → Step B
◌>>=◌ step f m = bind (step m) f

abbrev pub ◌>>◌ {ℓ κ} : {A : Type ℓ} {B : Type κ} → Step A → Step B → Step B
step >> k = step >>= λ _. k

abbrev pub pure {ℓ} : {A : Type ℓ} → A → Step A
pure a m = done a m

abbrev pub skip : Step (Unit {0})
skip = pure tt

abbrev pub give {ℓ} : {A : Type ℓ} → ℕ → Step A
give v m = returned v m

abbrev pub trap {ℓ} : {A : Type ℓ} → Trap → Step A
trap t m = trapped t

-- A negative error number, as 32 bits.
abbrev pub negated : ℕ → ℕ
negated n = 2 ^ 32 - n

-- EM_ENOMEM, EM_EFAULT, EM_EINVAL and EM_ENOSYS, which are Linux's.
abbrev pub enomem : ℕ
enomem = 12

abbrev pub efault : ℕ
efault = 14

abbrev pub einval : ℕ
einval = 22

abbrev pub enosys : ℕ
enosys = 38

-- PATH_MAX of Linux.
abbrev pub path_max : ℕ
path_max = 4096

-- The host's own accesses, by the offset from the memory's base.
unfoldable pub read_host : ℕ → ℕ → Step (List ℕ)
read_host offset n m =
    if leb (offset + n) (length m.bytes) then done (take n (drop offset m.bytes)) m else undefined

unfoldable pub write_host : ℕ → List ℕ → Step (Unit {0})
write_host offset buf m =
    if leb (offset + length buf) (length m.bytes)
    then done tt (record m { bytes = overwrite m.bytes offset buf })
    else undefined

-- `size_t` has 64 bits.
unfoldable pub check_range : ℕ → ℕ → MemInst → Bool
check_range user_ptr extent m =
    not (user_ptr == 0)
    && (not (leb (2 ^ 64) (user_ptr + extent)) && leb (user_ptr + extent) m.size)

-- Whether it failed, and if not what is in the memory then.
unfoldable pub copy_to_user : ℕ → List ℕ → Step Bool
unfolding write_host
copy_to_user user_dest_ptr src m =
    if check_range user_dest_ptr (length src) m
    then (write_host user_dest_ptr src >> pure false) m
    else done true m

-- The offsets and sizes of the parts that are copied one by one.
abbrev pub eights : ℕ → ℕ → List (ℕ × ℕ)
eights zero i = []
eights (suc n) i = (i, 8) ∷ eights n (i + 8)

abbrev pub part : ℕ → ℕ → ℕ → List (ℕ × ℕ)
part rest size i = if rest / size % 2 == 1 then (i, size) ∷ [] else []

abbrev pub after_part : ℕ → ℕ → ℕ → ℕ
after_part rest size i = if rest / size % 2 == 1 then i + size else i

abbrev pub chunks : ℕ → List (ℕ × ℕ)
chunks size =
    let rest = size % 8 in
    let i = size / 8 * 8 in
    let j = after_part rest 4 i in
    eights (size / 8) 0 ++ (part rest 4 i ++ (part rest 2 j ++ part rest 1 (after_part rest 2 j)))

-- One of them: the masked offset has 32 bits.
unfoldable pub read_chunk : ℕ → ℕ → ℕ → Step (List ℕ)
unfolding read_host
read_chunk user_src_ptr i size m =
    read_host (array_index_nospec (user_src_ptr + i) size m.size % 2 ^ 32) size m

unfoldable pub read_chunks : ℕ → List (ℕ × ℕ) → Step (List ℕ)
unfolding read_chunk
read_chunks user_src_ptr [] = pure []
read_chunks user_src_ptr ((i, size) ∷ rest) = do
  bytes ← read_chunk user_src_ptr i size
  more ← read_chunks user_src_ptr rest
  pure (bytes ++ more)

unfoldable pub memcpy_from_user : ℕ → ℕ → Step (List ℕ)
unfolding read_chunks
memcpy_from_user user_src_ptr src_size = read_chunks user_src_ptr (chunks src_size)

-- What is copied, or nothing where it fails.
unfoldable pub copy_from_user : ℕ → ℕ → Step (Option (List ℕ))
unfolding memcpy_from_user
copy_from_user user_src_ptr src_size m =
    if check_range user_src_ptr src_size m
    then (memcpy_from_user user_src_ptr src_size >>= λ bytes. pure (some bytes)) m
    else done none m

abbrev pub check_byte : Option ℕ → Step Bool → Step Bool
check_byte none rest m = undefined
check_byte (some zero) rest m = done true m
check_byte (some (suc b)) rest m = rest m

-- The loop, for so many rounds at most; the pointer has 32 bits.
unfoldable pub check_string : ℕ → ℕ → Step Bool
check_string user_ptr zero m = done false m
check_string user_ptr (suc max) m =
    let masked = array_index_nospec user_ptr 1 m.size in
    let rest = check_string ((masked + 1) % 2 ^ 32) max in
    if ltb user_ptr m.size then check_byte (get_elem? m.bytes masked) rest m else done false m

-- `if (!…) return -EM_EFAULT;`
abbrev pub or_efault : Bool → Step (Unit {0})
or_efault true = skip
or_efault false = give (negated efault)

unfoldable pub ensure_range : ℕ → ℕ → Step (Unit {0})
ensure_range user_ptr extent m = or_efault (check_range user_ptr extent m) m

unfoldable pub ensure_string : ℕ → Step (Unit {0})
unfolding check_string
ensure_string user_ptr = do ok ← check_string user_ptr path_max; or_efault ok

abbrev pub some_or_efault : Option (List ℕ) → Step (List ℕ)
some_or_efault none = give (negated efault)
some_or_efault (some bytes) = pure bytes

-- LOAD_ARGS, for so many bytes of arguments.
unfoldable pub load_args : ℕ → ℕ → Step (List ℕ)
unfolding copy_from_user
load_args varargs size = do bytes ← copy_from_user varargs size; some_or_efault bytes

-- The 32 bits of an argument, by its place.
unfoldable pub arg : List ℕ → ℕ → ℕ
unfolding le_value
arg args i = le_value (take 4 (drop (i * 4) args))

-- A `long` is its 64 bits.
unfoldable pub check_ret : ℕ → Step ℕ
check_ret r =
    if ltb r (2 ^ 31)
    then pure r
    else if leb (2 ^ 64 - 2 ^ 31) r
    then pure (r % 2 ^ 32)
    else trap integer_overflow

-- check_ret_signed with 0, for what is not signed.
unfoldable pub check_unsigned : ℕ → Step ℕ
check_unsigned r = if ltb r (2 ^ 32) then pure r else trap integer_overflow
