-- ===== src/Compile/Frame/Places.antt =====
-- The frame that wasmjit_compile_function of src/wasmjit/compile.c lays out.
use wasmjit.Prelude.{
  ℕ, suc, ◌+◌, ◌-◌, ◌*◌, ◌^◌, ◌≡◌, refl, Bool, true, false, List, [], ◌∷◌, ◌++◌, some, length,
  get_elem?, leb, ◌==◌, if◌then◌else◌, arith,
}
use wasmjit.Ast.Section.{FuncType, CodeLocal}
use wasmjit.Compile.State.{
  State, Result, done, error, undefined, out_of_fuel, Emit, bind, ensure, skip, set_size, Allocator,
}
use wasmjit.Compile.Control.{LocalMd, FpOffset, below, above}
use wasmjit.Compile.Call.{Passed, none_passed, pass, pass_all}
use wasmjit.Compile.Frame.{
  Frame, frame_of, place_of, place_args, place_locals, in_registers, local_types, fits,
  locals_md_size,
}
use wasmjit.Compile.Frame.Layout.{Layout, in_frame, Layout-cast, pass-Layout, Layout-distinct}

-- What holds of the result of a step that succeeds.
pub data Gives {A : Type 0} (P : A → Type 0) : Result A → Type 0 where
  gives : {a : A} {s : State} → P a → Gives P (done a s)
  fails : Gives P error
  aborts : Gives P undefined
  stops : Gives P out_of_fuel

bind-Gives :
    {A B : Type 0} {P : A → Type 0} {Q : B → Type 0} {r : Result A} {f : A → Emit B}
    → Gives P r
    → ((a : A) (s : State) → P a → Gives Q (f a s))
    → Gives Q (bind r f)
bind-Gives (gives p) k = k _ _ p
bind-Gives fails k = fails
bind-Gives aborts k = aborts
bind-Gives stops k = stops

given :
    {A : Type 0} {P : A → Type 0} {r : Result A} {a : A} (s : State)
    → Gives P r
    → r ≡ done a s
    → P a
given {a = a} s (gives {a = b} p) e = let same : b ≡ a = cc in rw (← same) p
given s fails e = cc
given s aborts e = cc
given s stops e = cc

-- A test, of which only what follows matters.
ensure-Gives : (b : Bool) (s : State) → Gives (λ _. Unit) (ensure b s)
ensure-Gives true s = gives tt
ensure-Gives false s = fails

fits-Gives : (p : FpOffset) (s : State) → Gives (λ _. Unit) (fits p s)
fits-Gives (below n) s = gives tt
fits-Gives (above n) s = ensure-Gives _ s

module _ (end : ℕ) where
  place_args-Gives :
      (ts : List ℕ) (p : Passed) (s : State)
      → Gives
          (λ mds.
            (rest : List LocalMd)
            → Layout end (in_registers (pass_all ts p)) (pass_all ts p).n_stack rest
            → Layout end (in_registers p) p.n_stack (mds ++ rest))
          (place_args ts p s)
  unfolding place_args
  place_args-Gives [] p s = gives (λ rest l. l)
  place_args-Gives (t ∷ ts) p s = bind-Gives (fits-Gives (place_of t p) s) λ _ s₁ _.
      bind-Gives (place_args-Gives ts (pass t p) s₁)
        λ mds s₂ h. gives (λ rest l. pass-Layout end t p (mds ++ rest) (h rest l))

end_cast :
    {end end' used over : ℕ} {mds : List LocalMd}
    → end ≡ end'
    → Layout end used over mds
    → Layout end' used over mds
end_cast p l = rw (← p) l

-- One local more, before the rest.
next_local :
    (words i n t over : ℕ) (mds : List LocalMd)
    → Layout (words + (i + 1) + n) (words + (i + 1)) over mds
    → Layout
        (words + i + suc n)
        (words + i)
        over
        (record { valtype = t; fp_offset = below ((1 + words + i) * 8) } ∷ mds)
next_local words i n t over mds l =
    in_frame (omega arith) (end_cast (omega arith) (Layout-cast (omega arith) refl l))

place_locals-Gives :
    (words i : ℕ) (ts : List ℕ) (s : State)
    → Gives
        (λ mds. (over : ℕ) → Layout (words + i + length ts) (words + i) over mds)
        (place_locals words i ts s)
unfolding place_locals
place_locals-Gives words i [] s = gives (λ over. end_cast (omega arith) Layout.done)
place_locals-Gives words i (t ∷ ts) s =
    bind-Gives (ensure-Gives (leb ((1 + words + i) * 8) (2 ^ 31)) s) λ _ s₁ _.
      bind-Gives (place_locals-Gives words (i + 1) ts s₁)
        λ mds s₂ h. gives (λ over. next_local words i (length ts) t over mds (h over))

resize-Gives :
    (b : Bool) (alloc : Allocator) (n size : ℕ) (s : State)
    → Gives (λ _. Unit) ((if◌then◌else◌ {A = Emit (Unit {0})} b skip (set_size alloc n size)) s)
resize-Gives true alloc n size s = gives tt
resize-Gives false alloc n size s = ensure-Gives _ s

-- Where the places of a function's locals can be given out, the arguments in registers and the other
-- locals have the words below the frame pointer one after the other, and `n_frame_locals` is how
-- many these are; the other arguments have the words over the return address one after the other.
pub frame_of-Layout :
    (alloc : Allocator) (type : FuncType) (locals : List CodeLocal) (s : State)
    → Gives
        (λ frame. Layout frame.n_frame_locals 0 0 frame.locals_md)
        (frame_of alloc type locals s)
unfolding frame_of
frame_of-Layout alloc type locals s =
    let words = in_registers (pass_all type.input_types none_passed) in
    let n = length (local_types locals) in
    bind-Gives
      (resize-Gives (length type.input_types + n == 0) alloc (length type.input_types + n)
        locals_md_size s)
      λ _ s₁ _.
        bind-Gives (place_args-Gives (words + n) type.input_types none_passed s₁) λ args_md s₂ h.
          bind-Gives (place_locals-Gives words 0 (local_types locals) s₂) λ mds s₃ k.
            bind-Gives (ensure-Gives (leb (n + words) (2 ^ 64 - 1)) s₃) λ _ s₄ _.
              gives (h mds (end_cast (omega arith) (Layout-cast (omega arith) refl (k _))))

-- Where a function's frame is laid out, no two of its locals have one place.
pub frame_of_distinct :
    (alloc : Allocator) (type : FuncType) (locals : List CodeLocal) (s t : State) (frame : Frame)
    (i j : ℕ) (a b : LocalMd)
    → frame_of alloc type locals s ≡ done frame t
    → get_elem? frame.locals_md i ≡ some a
    → get_elem? frame.locals_md j ≡ some b
    → a.fp_offset ≡ b.fp_offset
    → i ≡ j
frame_of_distinct alloc type locals s t frame i j a b e p q same =
    Layout-distinct frame.locals_md i j a b (given t (frame_of-Layout alloc type locals s) e) p q
      same
