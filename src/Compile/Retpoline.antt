-- ===== src/Compile/Retpoline.antt =====
-- src/wasmjit/compile.c: indirect calls and jumps, with a retpoline where the flags ask for one, and
-- traps, with the sizes that other code relies on to jump over them.
pub mod Size
use wasmjit.Prelude.{
  ℕ, ◌+◌, ◌-◌, Bool, true, false, List, [], ◌∷◌, none, length, ◌==◌, if◌then◌else◌,
}
use wasmjit.Compile.State.{
  Flags, memref_trap, Emit, skip, ◌>>=◌, ◌>>◌, assert, get, Allocator, out, out_uint32, out_memref,
}

-- The retpoline's bytes. The operands of its calls and jumps are relative: `label1` is 7 bytes after
-- the first call, `capture_ret_spec` 7 bytes before, and `label0` 22 bytes before the end.
abbrev pub retpoline : List ℕ
retpoline =
    (0xe8 ∷ 0x07 ∷ 0x00 ∷ 0x00 ∷ 0x00 ∷ 0xf3 ∷ 0x90 ∷ 0x0f ∷ 0xae ∷ 0xe8 ∷ 0xeb ∷ 0xf9 ∷ 0x48 ∷ 0x89
      ∷ 0x04 ∷ 0x24 ∷ 0xc3 ∷ [])

abbrev pub intel_retpoline_size : ℕ
intel_retpoline_size = 2 + 5 + 2 + 3 + 2 + 4 + 1 + 5

abbrev pub amd_retpoline_size : ℕ
amd_retpoline_size = 3 + 2

-- INDIRECT_CALL_SIZE: the second test is that of the first flag again.
abbrev pub indirect_call_size : Flags → ℕ
indirect_call_size flags =
    if flags.intel_retpoline
    then intel_retpoline_size
    else if flags.intel_retpoline
    then amd_retpoline_size
    else 2

unfoldable pub emit_indirect_call : Allocator → Flags → Emit (Unit {0})
emit_indirect_call alloc flags =
    if flags.intel_retpoline
    then (do
      out alloc (0xeb ∷ [])
      out alloc (0x11 ∷ [])
      out alloc retpoline
      out alloc (0xe8 ∷ [])
      out alloc (0xea ∷ 0xff ∷ 0xff ∷ 0xff ∷ []))
    else (do
      if flags.amd_retpoline then out alloc (0x0f ∷ 0xae ∷ 0xe8 ∷ []) else skip
      out alloc (0xff ∷ 0xd0 ∷ []))

abbrev pub intel_jump_retpoline_size : ℕ
intel_jump_retpoline_size = 5 + 2 + 3 + 2 + 4 + 1

abbrev pub amd_jump_retpoline_size : ℕ
amd_jump_retpoline_size = 3 + 2

-- INDIRECT_JUMP_SIZE, with the same second test.
abbrev pub indirect_jump_size : Flags → ℕ
indirect_jump_size flags =
    if flags.intel_retpoline
    then intel_jump_retpoline_size
    else if flags.intel_retpoline
    then amd_jump_retpoline_size
    else 2

unfoldable pub emit_indirect_jump : Allocator → Flags → Emit (Unit {0})
emit_indirect_jump alloc flags = if flags.intel_retpoline then out alloc retpoline else (do
  if flags.amd_retpoline then out alloc (0x0f ∷ 0xae ∷ 0xe8 ∷ []) else skip
  out alloc (0xff ∷ 0xe0 ∷ []))

-- TRAP_SIZE
abbrev pub trap_size : Flags → ℕ
trap_size flags = 15 + indirect_call_size flags

unfoldable pub emit_trap : Allocator → Flags → ℕ → Emit (Unit {0})
unfolding emit_indirect_call
emit_trap alloc flags reason = do
  before ← get
  out alloc (0xbf ∷ [])
  out_uint32 alloc reason
  out alloc (0x48 ∷ 0xb8 ∷ [])
  out_memref alloc memref_trap none
  emit_indirect_call alloc flags
  after ← get
  assert (length after.output - length before.output == trap_size flags)
