-- ===== src/Escape/Utf8.antt =====
-- `encodeUTF8` of src/escape_seq.cpp against the table of RFC 3629.
use choice_lang.Prelude.{
  ℕ, ◌+◌, ◌-◌, ◌*◌, ◌/◌, ◌%◌, ◌≤◌, ◌<◌, ◌≡◌, Bool, true, false, not, ◌&&◌, Option, none, some, List,
  [], ◌∷◌, ◌++◌, length, All, ltb, leb, if◌then◌else◌, arith, bit_and_six_bits, bit_and_byte,
  or_0x80, or_0xc0, or_0xe0, or_0xf0,
}
use choice_lang.Escape.{continuation, multi_byte, encode_utf8, invalid_codepoint}

-- The byte sequences of RFC 3629, in plain arithmetic.
unfoldable pub utf8 : ℕ → List ℕ
utf8 v =
    if ltb v 0x80
    then v ∷ []
    else if ltb v 0x800
    then (192 + v / 64) ∷ (128 + v % 64) ∷ []
    else if ltb v 0x10000
    then (224 + v / 4096) ∷ (128 + v / 64 % 64) ∷ (128 + v % 64) ∷ []
    else (240 + v / 262144) ∷ (128 + v / 4096 % 64) ∷ (128 + v / 64 % 64) ∷ (128 + v % 64) ∷ []

continuation_lem : (v : ℕ) → continuation v ≡ 128 + v % 64
continuation_lem v = rw (bit_and_six_bits v) (omega (arith, or_0x80 (v % 64) (omega arith)))

multi_byte_two : (v : ℕ) → v < 0x800 → multi_byte 2 v ≡ (192 + v / 64) ∷ (128 + v % 64) ∷ []
unfolding multi_byte
multi_byte_two v h =
    ground (arith, continuation_lem v, bit_and_byte (v / 64), or_0xc0 (v / 64) (omega arith))

multi_byte_three :
    (v : ℕ)
    → v < 0x10000
    → multi_byte 3 v ≡ (224 + v / 4096) ∷ (128 + v / 64 % 64) ∷ (128 + v % 64) ∷ []
unfolding multi_byte
multi_byte_three v h = ground (
  arith,
  continuation_lem v,
  continuation_lem (v / 64),
  bit_and_byte (v / 64 / 64),
  or_0xe0 (v / 4096) (omega arith),
)

multi_byte_four :
    (v : ℕ)
    → v < 0x110000
    → multi_byte 4 v
      ≡ (240 + v / 262144) ∷ (128 + v / 4096 % 64) ∷ (128 + v / 64 % 64) ∷ (128 + v % 64) ∷ []
unfolding multi_byte
multi_byte_four v h = ground (
  arith,
  continuation_lem v,
  continuation_lem (v / 64),
  continuation_lem (v / 64 / 64),
  bit_and_byte (v / 64 / 64 / 64),
  or_0xf0 (v / 262144) (omega arith),
)

-- On every code point the loops write the bytes of the table behind what `str` holds.
pub encode_utf8-utf8 : (str : List ℕ) (v : ℕ) → v < 0x110000 → encode_utf8 str v ≡ str ++ utf8 v
unfolding encode_utf8 utf8
encode_utf8-utf8 str v h = ground (arith, multi_byte_two v, multi_byte_three v, multi_byte_four v h)

-- `utf8` gives one to four elements, and each is a byte.
pub utf8_bytes :
    (v : ℕ)
    → v < 0x110000
    → All (λ b. b < 256) (utf8 v) × (1 ≤ length (utf8 v)) × (length (utf8 v) ≤ 4)
unfolding utf8
utf8_bytes v h = ground arith

-- A strict reader of the table: no overlong forms, no surrogates, nothing above 0x10ffff.
abbrev is_continuation : ℕ → Bool
is_continuation b = leb 0x80 b && ltb b 0xc0

abbrev accept : Bool → ℕ → List ℕ → Option (ℕ × List ℕ)
accept true v s = some (v, s)
accept false v s = none

abbrev decode_two : ℕ → List ℕ → Option (ℕ × List ℕ)
decode_two a (b ∷ s) =
    let v = (a - 192) * 64 + (b - 128) in accept (is_continuation b && leb 0x80 v) v s
decode_two a _ = none

abbrev decode_three : ℕ → List ℕ → Option (ℕ × List ℕ)
decode_three a (b ∷ c ∷ s) =
    let v = (a - 224) * 4096 + (b - 128) * 64 + (c - 128) in
    accept
      (is_continuation b && is_continuation c && leb 0x800 v && not (leb 0xd800 v && leb v 0xdfff))
      v s
decode_three a _ = none

abbrev decode_four : ℕ → List ℕ → Option (ℕ × List ℕ)
decode_four a (b ∷ c ∷ d ∷ s) =
    let v = (a - 240) * 262144 + (b - 128) * 4096 + (c - 128) * 64 + (d - 128) in
    accept
      (is_continuation b
        && is_continuation c
        && is_continuation d
        && leb 0x10000 v
        && leb v 0x10ffff)
      v s
decode_four a _ = none

unfoldable pub decode_utf8 : List ℕ → Option (ℕ × List ℕ)
decode_utf8 [] = none
decode_utf8 (a ∷ s) =
    if ltb a 0x80
    then some (a, s)
    else if ltb a 0xc0
    then none
    else if ltb a 0xe0
    then decode_two a s
    else if ltb a 0xf0
    then decode_three a s
    else if ltb a 0xf8
    then decode_four a s
    else none

decode-utf8 :
    (v : ℕ) (rest : List ℕ)
    → invalid_codepoint v ≡ false
    → decode_utf8 (utf8 v ++ rest) ≡ some (v, rest)
unfolding decode_utf8 utf8 invalid_codepoint
decode-utf8 v rest h = ground arith

valid→lt : (v : ℕ) → invalid_codepoint v ≡ false → v < 0x110000
unfolding invalid_codepoint
valid→lt v h = ground arith

-- What `encodeUTF8` appends for a code point that `parseUnicodeSequence` lets through, a strict
-- UTF-8 reader decodes to that code point, and leaves what follows.
pub decode_utf8-encode_utf8 :
    (v : ℕ) (rest : List ℕ)
    → invalid_codepoint v ≡ false
    → decode_utf8 (encode_utf8 [] v ++ rest) ≡ some (v, rest)
decode_utf8-encode_utf8 v rest h = rw (encode_utf8-utf8 [] v (valid→lt v h)) (decode-utf8 v rest h)
