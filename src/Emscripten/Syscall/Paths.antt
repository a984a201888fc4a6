-- ===== src/Emscripten/Syscall/Paths.antt =====
-- src/wasmjit/emscripten_runtime.c: the check of a string against what the host reads of it.
use wasmjit.Prelude.{
  ℕ, zero, suc, ◌+◌, ◌%◌, ◌^◌, ◌<◌, ◌≡◌, refl, ◌∙◌, Bool, true, List, [], ◌∷◌, Option, none, some,
  length, drop, get_elem?, get_elem?-none, ltb, ltb→lt, le→leb, Bool-cases, inl, inr, arith,
}
use wasmjit.Runtime.Store.{MemInst}
use wasmjit.Runtime.Indirect.{array_index_nospec}
use wasmjit.Runtime.Indirect.Resolves.{array_index_nospec_lem}
use wasmjit.Emscripten.Memory.{Outcome, Step, check_byte, check_string, ensure_string, path_max}
use wasmjit.Emscripten.Memory.Keeps.{
  Post, holds, Keeps, Reads, Keeps-bind, Keeps-map, or_efault-Keeps,
}
use wasmjit.Emscripten.Syscall.Named.{terminated, read_path}

-- A C string starts there, and ends in the memory.
abbrev pub StringAt : ℕ → MemInst → Type 0
StringAt p m = (s : List ℕ) × (terminated (drop p m.bytes) ≡ some s)

drop-get : (p : ℕ) (xs : List ℕ) {x : ℕ} → get_elem? xs p ≡ some x → drop p xs ≡ x ∷ drop (p + 1) xs
drop-get p [] h = cc
drop-get zero (y ∷ xs) {x} h = let same : y ≡ x = cc in rw same refl
drop-get (suc p) (y ∷ xs) {x} h =
    let next : suc p + 1 ≡ suc (p + 1) = omega arith in rw next (drop-get p xs h)

StringAt-here : (p : ℕ) (m : MemInst) → get_elem? m.bytes p ≡ some zero → StringAt p m
StringAt-here p m e = ([], rw (drop-get p m.bytes e) refl)

StringAt-later :
    (p b : ℕ) (m : MemInst) → get_elem? m.bytes p ≡ some (suc b) → StringAt (p + 1) m → StringAt p m
StringAt-later p b m e (s, h) = (suc b ∷ s, rw (drop-get p m.bytes e, h) refl)

module _ (n : ℕ) (m : MemInst) where
  abbrev Checked : ℕ → Bool → MemInst → Type 0
  Checked p = Reads m (λ b. b ≡ true → StringAt p m)

  byte-Keeps :
      (p : ℕ) (o : Option ℕ) (rest : Step Bool)
      → p < length m.bytes
      → get_elem? m.bytes p ≡ o
      → Keeps n (Checked (p + 1)) rest m
      → Keeps n (Checked p) (check_byte o rest) m
  byte-Keeps p none rest h e k = absurd (get_elem?-none m.bytes p h e)
  byte-Keeps p (some zero) rest h e k = record {
    at = λ ok. holds ok (refl, λ _. StringAt-here p m e);
  }
  byte-Keeps p (some (suc b)) rest h e k = record { at = λ ok. later (k.at ok) }
    where
      later : {r : Outcome Bool} → Post n (Checked (p + 1)) r → Post n (Checked p) r
      later (holds ok q) = holds ok (q.0, λ found. StringAt-later p b m e (q.1 found))
      later (Post.ends ok) = Post.ends ok
      later Post.traps = Post.traps

  -- In a memory below 4 GiB, what passes the check of a string is one that ends inside the memory.
  pub check_string-Keeps : (p max : ℕ) → Keeps n (Checked p) (check_string p max) m
  unfolding check_string
  check_string-Keeps p zero = record { at = λ ok. holds ok (refl, λ e. cc) }
  check_string-Keeps p (suc max) = record {
    at = λ ok. elim (Bool-cases (ltb p m.size)) [
      | inr beyond ↦ rw beyond (holds ok (refl, λ e. cc))
      | inl inside ↦
          let below : p < n = omega (arith, ltb→lt p m.size inside, ok.sized) in
          let masked : array_index_nospec p 1 m.size ≡ p =
            rw
              (
                array_index_nospec_lem p 1 m.size (omega (arith, below, ok.bound))
                    (omega (arith, ok.sized, ok.bound)),
                le→leb (p + 1) m.size (omega (arith, below, ok.sized)),
              )
              refl in
          let next : (p + 1) % 2 ^ 32 ≡ p + 1 = omega (arith, below, ok.bound) in
          rw (inside, masked, next)
            ((byte-Keeps p (get_elem? m.bytes p) (check_string (p + 1) max)
                (omega (arith, below, ok.whole)) refl (check_string-Keeps (p + 1) max)).at
              ok)
    ];
  }

  pub ensure_string-Keeps : (p : ℕ) → Keeps n (Reads m (λ _. StringAt p m)) (ensure_string p) m
  unfolding ensure_string
  ensure_string-Keeps p =
      Keeps-bind (check_string-Keeps p path_max)
        λ b t q. Keeps-map (λ _ u r. (r.0 ∙ q.0, q.1 r.1)) (or_efault-Keeps n b t)

  pub read_path-Keeps : (p : ℕ) → StringAt p m → Keeps n (Reads m (λ _. Unit)) (read_path p) m
  unfolding read_path
  read_path-Keeps p (s, h) = record { at = λ ok. rw h (holds ok (refl, tt)) }
