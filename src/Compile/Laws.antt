-- ===== src/Compile/Laws.antt =====
-- What a whole translation by src/wasmjit/compile.c guarantees.
use wasmjit.Prelude.{ℕ, ◌≤◌, ◌≡◌, []}
use wasmjit.Ast.Instruction.{Instrs}
use wasmjit.Ast.Section.{Code}
use wasmjit.Compile.State.{State, Result, done, Allocator}
use wasmjit.Compile.Control.{Env}
use wasmjit.Compile.Function.{fix_branches, compile_function}
use wasmjit.Compile.Sequence.{compile_instructions}
use wasmjit.Compile.Emits.{Placed, Anything, Ends, ends}
use wasmjit.Compile.Emits.Frames.{rounds, Framed}
use wasmjit.Compile.Emits.Rounds.{compile_instructions-Leads}
use wasmjit.Compile.Emits.Fixed.{Fixes, fix_branches-Fixes}
use wasmjit.Compile.Emits.Function.{compile_function-Leads}

-- The state that wasmjit_compile_function starts from.
abbrev pub no_code : State
no_code = record { output = []; memrefs = []; branches = []; labels = []; stack = [] }

no_code-Placed : Placed no_code
no_code-Placed = record { memrefs_in = tt; branches_in = tt; labels_in = tt; stack_in = tt }

no_code-Framed : Framed no_code []
no_code-Framed = record { footers_in = tt; open_labels = λ i e. cc }

pub ended_at :
    {A : Type 0} {Q : A → State → Type 0} {r : Result A} (a : A) (t : State)
    → Ends Q r
    → r ≡ done a t
    → Placed t × Q a t
ended_at b u (ends {a = a} {t = t} p q) e =
    let same_state : t ≡ u = cc in
    let same_result : a ≡ b = cc in (rw (← same_state) p, rw (← same_result, ← same_state) q)
ended_at b u Ends.fails e = cc
ended_at b u Ends.aborts e = cc

-- The translation of a function, from no code, ends with a round of fuel for each instruction and
-- each end of a vector of them: it does not run out. Where it succeeds, the eight bytes of each
-- reference and the five of each branch are in the code, and the labels' places are, too.
pub compile_function-Ends :
    (alloc : Allocator) (env : Env) (fuel : ℕ) (code : Code)
    → rounds code.instructions ≤ fuel
    → Ends Anything (compile_function alloc env fuel code no_code)
compile_function-Ends alloc env fuel code h =
    (compile_function-Leads alloc env fuel code h no_code no_code-Framed).at no_code-Placed

-- When the instructions are translated, from a state whose references, branches and labels are in its
-- code and whose labels all have places, every branch has one to go to: fix_branches succeeds, and
-- leaves the code as long as it is and the labels as they are.
pub compile_instructions-Fixes :
    (alloc : Allocator) (env : Env) (fuel max : ℕ) (is : Instrs) (s t : State)
    → rounds is ≤ fuel
    → Placed s
    → Framed s []
    → compile_instructions alloc env fuel is s ≡ done max t
    → Fixes t (fix_branches t.branches t)
compile_instructions-Fixes alloc env fuel max is s t h placed framed e =
    let at_end =
      ended_at max t ((compile_instructions-Leads alloc env fuel is s framed h).at placed) e in
    fix_branches-Fixes t.branches t at_end.0.branches_in at_end.1.open_labels
