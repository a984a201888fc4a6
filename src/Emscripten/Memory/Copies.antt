-- ===== src/Emscripten/Memory/Copies.antt =====
-- src/wasmjit/emscripten_runtime.c: the copy in parts against the copy of the whole.
use wasmjit.Prelude.{
  ℕ, zero, suc, ◌+◌, ◌-◌, ◌*◌, ◌/◌, ◌%◌, ◌^◌, ◌≤◌, ◌<◌, ◌≡◌, refl, sym, ap, ◌∙◌, subst, true, List,
  [], ◌∷◌, ◌++◌, some, none, length, take, drop, le→leb, Bool-cases, inl, inr, ◌==◌, arith,
  if◌then◌else◌,
}
use wasmjit.Runtime.Store.{MemInst}
use wasmjit.Runtime.Indirect.{array_index_nospec}
use wasmjit.Runtime.Indirect.Resolves.{array_index_nospec_lem}
use wasmjit.Emscripten.Memory.{
  done, read_host, check_range, eights, part, after_part, chunks, read_chunk, read_chunks,
  memcpy_from_user, copy_from_user,
}

-- As many bytes as the size says, and less than 2^32.
pub record IsMemory (n : ℕ) (m : MemInst) : Type 0 where
  pub whole : length m.bytes ≡ n
  pub sized : m.size ≡ n
  pub bound : n < 2 ^ 32

abbrev pub slice : ℕ → ℕ → MemInst → List ℕ
slice offset n m = take n (drop offset m.bytes)

-- The parts follow one another, from an offset to another.
pub data Runs : ℕ → List (ℕ × ℕ) → ℕ → Type 0 where
  ended : {i : ℕ} → Runs i [] i
  next : {i j e : ℕ} {cs : List (ℕ × ℕ)} (k : ℕ) → i + k ≡ j → Runs j cs e → Runs i ((i, k) ∷ cs) e

Runs-append : {i j e : ℕ} {cs ds : List (ℕ × ℕ)} → Runs i cs j → Runs j ds e → Runs i (cs ++ ds) e
Runs-append ended r = r
Runs-append (next k h q) r = next k h (Runs-append q r)

Runs-eights : (n i : ℕ) → Runs i (eights n i) (n * 8 + i)
Runs-eights zero i = let same : i ≡ 0 * 8 + i = omega arith in rw (← same) ended
Runs-eights (suc n) i =
    let same : n * 8 + (i + 8) ≡ suc n * 8 + i = omega arith in
    rw (← same) (next 8 refl (Runs-eights n (i + 8)))

Runs-part : (rest size i : ℕ) → Runs i (part rest size i) (after_part rest size i)
Runs-part rest size i = elim (Bool-cases (rest / size % 2 == 1)) [
  | inl e ↦ rw e (next size refl ended)
  | inr e ↦ rw e ended
]

parts_sum : (r i : ℕ) → r < 8 → after_part r 1 (after_part r 2 (after_part r 4 i)) ≡ i + r
parts_sum r i h = ground (arith, h)

pub Runs-chunks : (n : ℕ) → Runs 0 (chunks n) n
Runs-chunks n =
    let r : ℕ = n % 8 in
    let i : ℕ = n / 8 * 8 in
    let j : ℕ = after_part r 4 i in
    let whole : after_part r 1 (after_part r 2 j) ≡ n = parts_sum r i (omega arith) ∙ rest_sum in
    let start : n / 8 * 8 + 0 ≡ i = omega arith in
    let first : Runs 0 (eights (n / 8) 0) i =
      subst (λ (e : ℕ). Runs 0 (eights (n / 8) 0) e) start (Runs-eights (n / 8) 0) in
    subst (λ (e : ℕ). Runs 0 (chunks n) e) whole
      (Runs-append first (
        Runs-append (Runs-part r 4 i)
          (Runs-append (Runs-part r 2 j) (Runs-part r 1 (after_part r 2 j)))))
  where
    rest_sum : n / 8 * 8 + n % 8 ≡ n
    rest_sum = omega arith

pub Runs-le : {i e : ℕ} {cs : List (ℕ × ℕ)} → Runs i cs e → i ≤ e
Runs-le ended = omega arith
Runs-le (next k same r) = omega (arith, same, Runs-le r)

take-nil : (m : ℕ) → take {A = ℕ} m [] ≡ []
take-nil zero = refl
take-nil (suc m) = refl

drop-nil : (m : ℕ) → drop {A = ℕ} m [] ≡ []
drop-nil zero = refl
drop-nil (suc m) = refl

suc_add : (k m : ℕ) → suc k + m ≡ suc (k + m)
suc_add k m = omega arith

take-add : (k m : ℕ) (xs : List ℕ) → take k xs ++ take m (drop k xs) ≡ take (k + m) xs
take-add zero m xs = ap (λ (n : ℕ). take n xs) (omega arith)
take-add (suc k) m [] = take-nil m ∙ sym (take-nil (suc k + m))
take-add (suc k) m (x ∷ xs) = rw (suc_add k m) (ap (λ (r : List ℕ). x ∷ r) (take-add k m xs))

drop-add : (p k : ℕ) (xs : List ℕ) → drop k (drop p xs) ≡ drop (p + k) xs
drop-add zero k xs = ap (λ (n : ℕ). drop n xs) (omega arith)
drop-add (suc p) k [] = drop-nil k ∙ sym (drop-nil (suc p + k))
drop-add (suc p) k (x ∷ xs) = rw (suc_add p k) (drop-add p k xs)

-- What the check of a range means.
pub range_fits :
    (ptr extent : ℕ) (m : MemInst)
    → check_range ptr extent m ≡ true
    → (0 < ptr) × (ptr + extent ≤ m.size)
unfolding check_range
range_fits ptr extent m h = ground (arith, h)

module _ (n : ℕ) (m : MemInst) (ok : IsMemory n m) (ptr : ℕ) where
  slice-append :
      (i k e : ℕ) → slice (ptr + i) k m ++ slice (ptr + (i + k)) e m ≡ slice (ptr + i) (k + e) m
  slice-append i k e =
      let far : ptr + (i + k) ≡ ptr + i + k = omega arith in
      rw far (rw (← drop-add (ptr + i) k m.bytes) (take-add k e (drop (ptr + i) m.bytes)))

  pub read_chunk_lem :
      (i k : ℕ) → ptr + i + k ≤ n → read_chunk ptr i k m ≡ done (slice (ptr + i) k m) m
  unfolding read_chunk read_host
  read_chunk_lem i k h =
      let small : ptr + i < 2 ^ 64 = omega (arith, h, ok.bound) in
      let masked : array_index_nospec (ptr + i) k m.size % 2 ^ 32 ≡ ptr + i =
        rw
          (
            array_index_nospec_lem (ptr + i) k m.size small (omega (arith, ok.sized, ok.bound)),
            le→leb (ptr + i + k) m.size (omega (arith, h, ok.sized)),
          )
          (omega (arith, h, ok.bound)) in
      rw (masked, le→leb (ptr + i + k) (length m.bytes) (omega (arith, h, ok.whole))) refl

  joined :
      (i k j e : ℕ)
      → i + k ≡ j
      → j ≤ e
      → slice (ptr + i) k m ++ slice (ptr + j) (e - j) m ≡ slice (ptr + i) (e - i) m
  joined i k j e same below =
      let rest : e - i ≡ k + (e - j) = omega (arith, same, below) in
      rw (rest, ← same) (slice-append i k (e - (i + k)))

  read_chunks_lem :
      {i e : ℕ} {cs : List (ℕ × ℕ)}
      → Runs i cs e
      → ptr + e ≤ n
      → read_chunks ptr cs m ≡ done (slice (ptr + i) (e - i) m) m
  unfolding read_chunks
  read_chunks_lem {i = i} ended h = let none_left : i - i ≡ 0 = omega arith in rw none_left refl
  read_chunks_lem {i = i} {e = e} (next {j = j} k same r) h =
      let below = Runs-le r in
      rw
        (
          read_chunk_lem i k (omega (arith, same, below, h)),
          read_chunks_lem r h,
          joined i k j e same below,
        )
        refl

  -- From a memory below 4 GiB, with as many bytes as its size says, the copy in parts is one copy of the
  -- bytes that the pointer and the size give, where the check of that range allows it; else it fails. The
  -- memory stays as it is.
  pub copy_from_user_lem :
      (src_size : ℕ)
      → copy_from_user ptr src_size m
        ≡ (if check_range ptr src_size m then done (some (slice ptr src_size m)) m else done none m)
  unfolding copy_from_user memcpy_from_user
  copy_from_user_lem src_size = elim (Bool-cases (check_range ptr src_size m)) [
    | inr outside ↦ rw outside refl
    | inl inside ↦
        let fits : ptr + src_size ≤ n =
          omega (arith, ok.sized, (range_fits ptr src_size m inside).1) in
        let start : ptr + 0 ≡ ptr = omega arith in
        let all_of_it : src_size - 0 ≡ src_size = omega arith in
        rw (inside, read_chunks_lem (Runs-chunks src_size) fits, start, all_of_it) refl
  ]
