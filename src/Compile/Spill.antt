-- ===== src/Compile/Spill.antt =====
-- src/wasmjit/compile.c: where a call reads the arguments that it pushes again, against where they are.
use wasmjit.Prelude.{ℕ, ◌+◌, ◌^◌, ◌<◌, ◌≡◌, ◌↔◌, arith}
use wasmjit.Compile.Call.{Passed, pushed_offset, register_offset}

module _ (n_inputs i aligned : ℕ) (p : Passed) (inside : i < n_inputs)
    (small : n_inputs + p.n_stack + aligned < 2 ^ 20) where
  last_offset :
      i + 1 ≡ n_inputs → pushed_offset n_inputs i aligned p ≡ register_offset n_inputs i aligned p
  last_offset last = omega (arith, inside, small, last)

  last_of_offset :
      pushed_offset n_inputs i aligned p ≡ register_offset n_inputs i aligned p → i + 1 ≡ n_inputs
  last_of_offset same = omega (arith, inside, small, same)

-- An argument that goes to the stack is read from where it is, at the offset that one in its place has
-- which goes to a register, if it is the last one, and from elsewhere if it is not.
pub pushed_offset-register_offset :
    (n_inputs i aligned : ℕ) (p : Passed)
    → i < n_inputs
    → n_inputs + p.n_stack + aligned < 2 ^ 20
    → (pushed_offset n_inputs i aligned p ≡ register_offset n_inputs i aligned p)
      ↔ (i + 1 ≡ n_inputs)
pushed_offset-register_offset n_inputs i aligned p inside small = (
  last_of_offset n_inputs i aligned p inside small,
  last_offset n_inputs i aligned p inside small,
)
