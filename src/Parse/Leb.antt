-- ===== src/Parse/Leb.antt =====
-- src/wasmjit/parse.c: DEFINE_ULEB_READER and DEFINE_LEB_READER, at a width of `w` bits.
-- A shift by the width or more is undefined in C: the loop has no bound of its own, so an encoding
-- with too many bytes gets there. Each round takes one byte by `read_uint8`, which is written out,
-- so that the recursion is on the input.
pub mod Value
pub mod Errors
pub mod Signed
use wasmjit.Prelude.{
  ℕ, ◌+◌, ◌-◌, ◌*◌, ◌^◌, ◌%◌, bit_and, bit_or, Bool, true, false, not, ◌&&◌, List, [], ◌∷◌, ltb,
  leb, ◌==◌, if◌then◌else◌,
}
use wasmjit.Parse.State.{ParseState, Outcome, ok, fail, undef, Reader}

-- `(type)(byt & 0x7f) << shift`, in `w` bits.
abbrev pub group : ℕ → ℕ → ℕ → ℕ
group w byt shift = bit_and byt 0x7f * 2 ^ shift % 2 ^ w

unfoldable pub uleb_loop : ℕ → Bool → ℕ → ℕ → List ℕ → Outcome ℕ
uleb_loop w eof value shift [] = fail (record { eof = true; input = [] })
uleb_loop w eof value shift (byt ∷ rest) =
    let value' = bit_or value (group w byt shift) in
    let more = uleb_loop w eof value' (shift + 7) rest in
    if leb w shift
    then undef
    else if bit_and byt 0x80 == 0
    then ok value' (record { eof = eof; input = rest })
    else more

unfoldable pub read_uleb : ℕ → Reader ℕ
unfolding uleb_loop
read_uleb w s = uleb_loop w s.eof 0 0 s.input

-- `if (shift < sizeof(type) * 8 && (byt & 0x40)) data |= (~(type) 0) << shift;`
unfoldable pub extend_sign : ℕ → ℕ → ℕ → ℕ → ℕ
extend_sign w byt shift value =
    if ltb shift w && not (bit_and byt 0x40 == 0)
    then bit_or value ((2 ^ w - 1) * 2 ^ shift % 2 ^ w)
    else value

unfoldable pub leb_loop : ℕ → Bool → ℕ → ℕ → List ℕ → Outcome ℕ
unfolding extend_sign
leb_loop w eof value shift [] = fail (record { eof = true; input = [] })
leb_loop w eof value shift (byt ∷ rest) =
    let value' = bit_or value (group w byt shift) in
    let more = leb_loop w eof value' (shift + 7) rest in
    if leb w shift
    then undef
    else if bit_and byt 0x80 == 0
    then ok (extend_sign w byt (shift + 7) value') (record { eof = eof; input = rest })
    else more

unfoldable pub read_leb : ℕ → Reader ℕ
unfolding leb_loop
read_leb w s = leb_loop w s.eof 0 0 s.input

abbrev pub read_uleb_uint32 : Reader ℕ
read_uleb_uint32 = read_uleb 32

abbrev pub read_leb_uint32 : Reader ℕ
read_leb_uint32 = read_leb 32

abbrev pub read_leb_uint64 : Reader ℕ
read_leb_uint64 = read_leb 64
