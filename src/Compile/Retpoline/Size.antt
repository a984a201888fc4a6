-- ===== src/Compile/Retpoline/Size.antt =====
-- The sizes of traps in src/wasmjit/compile.c, over which the code around them jumps.
use wasmjit.Prelude.{
  ℕ, ◌+◌, ◌-◌, ◌≡◌, refl, ap, Bool, true, false, ◌||◌, not, length, length-append, ◌==◌, ==_iff,
  if◌then◌else◌, arith,
}
use wasmjit.Compile.State.{
  Flags, State, Result, done, error, undefined, out_of_fuel, assert, Allocator, out, out_uint32,
  le_bytes, out_memref, add_memref,
}
use wasmjit.Compile.Retpoline.{emit_indirect_call, emit_trap, trap_size}

abbrev pub enough_memory : Allocator
enough_memory s n size = true

-- What comes of a translation: what it has made, by its size; a failure that is reported; an assertion
-- that fails, or an access that C leaves undefined; the end of the fuel.
pub data Made : Type 0 where
  made : ℕ → Made
  refused : Made
  broken : Made
  unfinished : Made

abbrev pub length_of {ℓ} : {A : Type ℓ} → Result A → Made
length_of (done a s) = made (length s.output)
length_of error = refused
length_of undefined = broken
length_of out_of_fuel = unfinished

abbrev pub flags_of : Bool → Bool → Flags
flags_of intel amd = record { intel_retpoline = intel; amd_retpoline = amd }

-- The assertion at the end, where the trap has `n` bytes and should have `m`.
module _ (k n m : ℕ) (t : State) (grown : length t.output ≡ k + n) where
  same_size : n ≡ m → length_of (assert (length t.output - k == m) t) ≡ made (k + m)
  same_size same =
      rw ((==_iff (length t.output - k) m).1 (omega (arith, grown, same)))
        (ap made (omega (arith, grown, same)))

  other_size : (n == m) ≡ false → length_of (assert (length t.output - k == m) t) ≡ broken
  other_size differs =
      let same : length t.output - k ≡ n = omega (arith, grown) in rw (same, differs) refl

-- With enough memory, the code of a trap has the size over which the code before it jumps where
-- the flags ask for no retpoline or for Intel's. Where they ask only for AMD's, it is not reported
-- as a failure: the assertion at its end fails.
pub emit_trap-trap_size :
    (intel amd : Bool) (reason : ℕ) (s : State)
    → length_of (emit_trap enough_memory (flags_of intel amd) reason s) ≡ (
        if not amd || intel
        then made (length s.output + trap_size (flags_of intel amd))
        else broken)
unfolding emit_trap emit_indirect_call out out_uint32 le_bytes out_memref add_memref
emit_trap-trap_size true true reason s =
    same_size (length s.output) 39 39 _ (grind (arith, length-append)) refl
emit_trap-trap_size true false reason s =
    same_size (length s.output) 39 39 _ (grind (arith, length-append)) refl
emit_trap-trap_size false true reason s =
    other_size (length s.output) 20 17 _ (grind (arith, length-append)) refl
emit_trap-trap_size false false reason s =
    same_size (length s.output) 17 17 _ (grind (arith, length-append)) refl
