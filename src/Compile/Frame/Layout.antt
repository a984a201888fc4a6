-- ===== src/Compile/Frame/Layout.antt =====
-- The frame of src/wasmjit/compile.c: every local has a place of its own.
use wasmjit.Prelude.{
  ℕ, zero, suc, ◌+◌, ◌*◌, ◌≤◌, ◌<◌, ◌≡◌, refl, sym, ap, ◌∙◌, inl, inr, Bool, true, false, ◌&&◌,
  ◌||◌, Bool-cases, List, [], ◌∷◌, some, get_elem?, ltb, ◌==◌, if◌then◌else◌, arith,
}
use wasmjit.Ast.Valtype
use wasmjit.Compile.Control.{LocalMd, FpOffset, below, above}
use wasmjit.Compile.Call.{Passed, pass, pass_float, is_int}
use wasmjit.Compile.Frame.{place_of, in_registers}

-- The words below the frame pointer are given out one after the other from `used` on, and so are the
-- words of arguments above it, from `over` on; `end` words below it are given out in the end.
pub data Layout (end : ℕ) : ℕ → ℕ → List LocalMd → Type 0 where
  done : {over : ℕ} → Layout end end over []
  in_frame :
      {used over t n : ℕ} {rest : List LocalMd}
      → n ≡ (1 + used) * 8
      → Layout end (suc used) over rest
      → Layout end used over (record { valtype = t; fp_offset = below n } ∷ rest)
  on_stack :
      {used over t n : ℕ} {rest : List LocalMd}
      → n ≡ over * 8 + 16
      → Layout end used (suc over) rest
      → Layout end used over (record { valtype = t; fp_offset = above n } ∷ rest)

-- A place that is given out from there on.
abbrev From : ℕ → ℕ → ℕ → FpOffset → Type 0
From end used over (below n) = (used * 8 < n) × (n ≤ end * 8)
From end used over (above n) = over * 8 + 16 ≤ n

From-before :
    (end used over more further : ℕ) (f : FpOffset)
    → used ≤ more
    → over ≤ further
    → From end more further f
    → From end used over f
From-before end used over more further (below n) h k (p, q) = (omega arith, q)
From-before end used over more further (above n) h k p = omega arith

used_up : {end used over : ℕ} {mds : List LocalMd} → Layout end used over mds → used ≤ end
used_up done = omega arith
used_up (in_frame p l) = let rest = used_up l in omega (arith, rest)
used_up (on_stack p l) = used_up l

Layout-From :
    {end used over : ℕ} {mds : List LocalMd} (i : ℕ) (md : LocalMd)
    → Layout end used over mds
    → get_elem? mds i ≡ some md
    → From end used over md.fp_offset
Layout-From i md done e = cc
Layout-From zero md (in_frame {t = t} {n = n} p l) e =
    let same : record { valtype = t; fp_offset = below n } ≡ md = cc in
    let more = used_up l in rw (← same) (omega (arith, p), omega (arith, p, more))
Layout-From (suc i) md (in_frame p l) e =
    From-before _ _ _ _ _ md.fp_offset (omega arith) (omega arith) (Layout-From i md l e)
Layout-From zero md (on_stack {t = t} {n = n} p l) e =
    let same : record { valtype = t; fp_offset = above n } ≡ md = cc in
    rw (← same) (omega (arith, p))
Layout-From (suc i) md (on_stack p l) e =
    From-before _ _ _ _ _ md.fp_offset (omega arith) (omega arith) (Layout-From i md l e)

-- The first place is given out once.
not_again :
    {end used over : ℕ} {rest : List LocalMd} (md b : LocalMd) (j : ℕ)
    → Layout end used over (md ∷ rest)
    → get_elem? rest j ≡ some b
    → md.fp_offset ≡ b.fp_offset
    → ⊥
not_again {end = end} md b j (in_frame {used = used} {over = over} {n = n} p l) e same =
    let further : From end (suc used) over (below n) = rw (← same) at (Layout-From j b l e) in
    omega (arith, p, further.0)
not_again {end = end} md b j (on_stack {used = used} {over = over} {n = n} p l) e same =
    let further : From end used (suc over) (above n) = rw (← same) at (Layout-From j b l e) in
    omega (arith, p, further)

tail_of :
    {end used over : ℕ} (md : LocalMd) (rest : List LocalMd)
    → Layout end used over (md ∷ rest)
    → (n : ℕ × ℕ) × Layout end n.0 n.1 rest
tail_of md rest (in_frame {used = used} {over = over} p l) = ((suc used, over), l)
tail_of md rest (on_stack {used = used} {over = over} p l) = ((used, suc over), l)

-- Two locals at one place are the same.
pub Layout-distinct :
    {end : ℕ} (mds : List LocalMd) (i j : ℕ) (a b : LocalMd) {used over : ℕ}
    → Layout end used over mds
    → get_elem? mds i ≡ some a
    → get_elem? mds j ≡ some b
    → a.fp_offset ≡ b.fp_offset
    → i ≡ j
Layout-distinct [] i j a b l e f same = cc
Layout-distinct (md ∷ rest) zero zero a b l e f same = refl
Layout-distinct (md ∷ rest) zero (suc j) a b l e f same =
    let first : md ≡ a = cc in
    absurd (not_again md b j l f (ap (λ (m : LocalMd). m.fp_offset) first ∙ same))
Layout-distinct (md ∷ rest) (suc i) zero a b l e f same =
    let first : md ≡ b = cc in
    absurd (not_again md a i l e (ap (λ (m : LocalMd). m.fp_offset) first ∙ sym same))
Layout-distinct (md ∷ rest) (suc i) (suc j) a b l e f same =
    ap suc (Layout-distinct rest i j a b (tail_of md rest l).1 e f same)

pub Layout-cast :
    {end used over used' over' : ℕ} {mds : List LocalMd}
    → used ≡ used'
    → over ≡ over'
    → Layout end used over mds
    → Layout end used' over' mds
Layout-cast p q l = rw (← p, ← q) l

-- One argument more that is no integer in a register, before the rest of a layout.
float-Layout :
    (end t : ℕ) (p : Passed) (mds : List LocalMd)
    → Layout end (in_registers (pass_float t p)) (pass_float t p).n_stack mds
    → Layout end (in_registers p) p.n_stack (
        record {
          valtype = t;
          fp_offset =
              if (t == Valtype.f32 || t == Valtype.f64) && ltb p.n_xmm_movs 8
              then below ((1 + p.n_movs + p.n_xmm_movs) * 8)
              else above (p.n_stack * 8 + 16);
        }
        ∷ mds)
float-Layout end t p mds l = by_tests (t == Valtype.f32) (t == Valtype.f64) (ltb p.n_xmm_movs 8) l
  where
    by_tests :
        (f32 f64 room : Bool)
        → Layout end
            (in_registers (
              if f32 && room
              then record p { n_xmm_movs = p.n_xmm_movs + 1 }
              else if f64 && room
              then record p { n_xmm_movs = p.n_xmm_movs + 1 }
              else record p { n_stack = p.n_stack + 1 }))
            ((if f32 && room
              then record p { n_xmm_movs = p.n_xmm_movs + 1 }
              else if f64 && room
              then record p { n_xmm_movs = p.n_xmm_movs + 1 }
              else record p { n_stack = p.n_stack + 1 }).n_stack)
            mds
        → Layout end (in_registers p) p.n_stack (
            record {
              valtype = t;
              fp_offset =
                  if (f32 || f64) && room
                  then below ((1 + p.n_movs + p.n_xmm_movs) * 8)
                  else above (p.n_stack * 8 + 16);
            }
            ∷ mds)
    by_tests true true true l = in_frame (omega arith) (Layout-cast (omega arith) refl l)
    by_tests true false true l = in_frame (omega arith) (Layout-cast (omega arith) refl l)
    by_tests false true true l = in_frame (omega arith) (Layout-cast (omega arith) refl l)
    by_tests false false true l = on_stack refl (Layout-cast refl (omega arith) l)
    by_tests true true false l = on_stack refl (Layout-cast refl (omega arith) l)
    by_tests true false false l = on_stack refl (Layout-cast refl (omega arith) l)
    by_tests false true false l = on_stack refl (Layout-cast refl (omega arith) l)
    by_tests false false false l = on_stack refl (Layout-cast refl (omega arith) l)

-- One argument more, before the rest of a layout.
pub pass-Layout :
    (end t : ℕ) (p : Passed) (mds : List LocalMd)
    → Layout end (in_registers (pass t p)) (pass t p).n_stack mds
    → Layout end (in_registers p) p.n_stack (record { valtype = t; fp_offset = place_of t p } ∷ mds)
pass-Layout end t p mds l = elim (Bool-cases (is_int t && ltb p.n_movs 6)) [
  | inl int ↦ rw int (in_frame (omega arith) (Layout-cast (omega arith) refl (rw int at l)))
  | inr other ↦ rw other (float-Layout end t p mds (rw other at l))
]
