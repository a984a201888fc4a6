-- ===== src/Compile/Emits/Frames.antt =====
-- What holds of the stack of wasmjit_compile_instructions in src/wasmjit/compile.c, and how much it
-- has still to do.
use wasmjit.Prelude.{
  ℕ, ◌+◌, ◌≤◌, ◌<◌, ◌≡◌, ◌⊎◌, List, [], ◌∷◌, Option, none, some, length, get_elem?, All, All-map,
  arith,
}
use wasmjit.Ast.Instruction.{Instr, Instrs, block, loop, if_, nil, cons}
use wasmjit.Compile.State.{State}
use wasmjit.Compile.Sequence.{
  Footer, root, end_block, end_loop, end_then, end_else, Md, Next, more, finished,
}
use wasmjit.Compile.Emits.{Later}

-- The rounds that instructions take: one for each, and one for the end of each vector.
unfoldable mutual
  pub rounds_of : Instr → ℕ
  rounds_of (block blocktype is) = 1 + rounds is
  rounds_of (loop blocktype is) = 1 + rounds is
  rounds_of (if_ blocktype thens elses) = 1 + rounds thens + rounds elses
  rounds_of _ = 1

  pub rounds : Instrs → ℕ
  rounds nil = 1
  rounds (cons i is) = rounds_of i + rounds is

-- An else clause that is still to come has its rounds in the footer.
abbrev pub footer_rounds : Footer → ℕ
footer_rounds (end_then _ elses _ _ _) = rounds elses
footer_rounds _ = 0

abbrev pub rounds_left : List Md → ℕ
rounds_left [] = 0
rounds_left (md ∷ frames) = rounds md.instructions + footer_rounds md.footer + rounds_left frames

pub rounds_pos : (is : Instrs) → 1 ≤ rounds is
unfolding rounds
rounds_pos nil = omega arith
rounds_pos (cons i is) = omega (arith, rounds_pos is)

abbrev pub frames_of : Next → List Md
frames_of (more max md rest) = md ∷ rest
frames_of (finished max) = []

-- The label of a block that is open.
abbrev pub label_of : Footer → Option ℕ
label_of root = none
label_of (end_block _ label_idx _) = some label_idx
label_of (end_loop _ label_idx _ _) = some label_idx
label_of (end_then _ _ label_idx _ _) = some label_idx
label_of (end_else _ label_idx _ _) = some label_idx

-- The start of a loop is in the output.
abbrev pub FooterIn : ℕ → Footer → Type 0
FooterIn n (end_loop _ _ _ output_idx) = output_idx ≤ n
FooterIn n _ = Unit

abbrev pub Opens : ℕ → List Md → Type 0
Opens i [] = ⊥
Opens i (md ∷ frames) = (label_of md.footer ≡ some i) ⊎ Opens i frames

-- Every label that has no place yet is that of an open block.
pub record Framed (t : State) (frames : List Md) : Type 0 where
  pub footers_in : All (λ md. FooterIn (length t.output) md.footer) frames
  pub open_labels : (i : ℕ) → get_elem? t.labels i ≡ some none → Opens i frames

-- What a round leads to: fewer rounds left than before.
pub record Round (before : ℕ) (next : Next) (t : State) : Type 0 where
  pub framed : Framed t (frames_of next)
  pub fewer : rounds_left (frames_of next) < before

FooterIn-mono : {n m : ℕ} → n ≤ m → (f : Footer) → FooterIn n f → FooterIn m f
FooterIn-mono h root q = tt
FooterIn-mono h (end_block _ _ _) q = tt
FooterIn-mono h (end_loop _ _ _ o) q = omega (arith, h, q)
FooterIn-mono h (end_then _ _ _ _ _) q = tt
FooterIn-mono h (end_else _ _ _ _) q = tt

pub footers_later :
    (n m : ℕ) (frames : List Md)
    → n ≤ m
    → All (λ md. FooterIn n md.footer) frames
    → All (λ md. FooterIn m md.footer) frames
footers_later n m frames h q = All-map (λ (md : Md) p. FooterIn-mono h md.footer p) frames q

pub Framed-Later : {s t : State} (frames : List Md) → Later s t → Framed s frames → Framed t frames
Framed-Later frames l f = record {
  footers_in = footers_later _ _ frames l.output_grows f.footers_in;
  open_labels = λ i e. f.open_labels i (l.unset_before i e);
}
