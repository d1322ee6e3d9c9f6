-- ===== src/Escape/Unicode.antt =====
-- `parseUnicodeSequence` of src/escape_seq.cpp: the well-formed sequence and its five errors.
use choice_lang.Prelude.{
  ℕ, suc, ◌+◌, ◌^◌, ◌≤◌, ◌<◌, ◌≡◌, refl, ap, ◌∙◌, true, false, some, List, [], ◌∷◌, ◌++◌, length,
  All, if◌then◌else◌, arith, drop, ◌≢◌, drop-append,
}
use choice_lang.Chars.{is_hex, from_hex, from_hex-lt}
use choice_lang.Diagnostics.{
  wrong_char_found, invalid_utf_codepoint, invalid_hex_digit, too_many_digits, expect_hex_digits,
  expect_closing_brace, expect_opening_brace,
}
use choice_lang.Escape.{
  stopped, cursor, ErrorPair, parsed, first_is, set_code, set_error, encode_utf8, invalid_codepoint,
  scan_hex, unicode_count, consume_unicode_sequence, finish_unicode, parse_unicode_sequence,
}
use native.Mathlib.Numerals.{add-one}
use native.Mathlib.Nat.{pow-le-pow_right}
use choice_lang.Escape.Digits.{
  digits_value, digits_value-lt, str_to_hex-append, scan_hex-append, scan_hex_open, scan_hex_bad,
  scan_hex_long,
}

-- One to six hexadecimal digits.
pub record IsCodepoint (ds : List ℕ) : Type 0 where
  pub digits : All (λ c. is_hex c ≡ true) ds
  pub some_digit : 1 ≤ length ds
  pub within : length ds ≤ 6

abbrev pub hex_value : List ℕ → ℕ
hex_value ds = digits_value 16 from_hex 0 ds

hex_digits : (ds : List ℕ) → All (λ c. is_hex c ≡ true) ds → All (λ c. from_hex c < 16) ds
hex_digits [] h = tt
hex_digits (d ∷ ds) (h, hs) = (from_hex-lt d h, hex_digits ds hs)

hex_value-lt : (ds : List ℕ) → IsCodepoint ds → hex_value ds < 2 ^ 24
hex_value-lt ds c =
    let bound = digits_value-lt 16 from_hex (omega arith) 0 ds (hex_digits ds c.digits) in
    let top : 16 ^ length ds ≤ 16 ^ 6 = pow-le-pow_right (omega arith) c.within in omega arith

drop_past : (xs : List ℕ) (y : ℕ) (ys : List ℕ) → drop (suc (length xs)) (xs ++ (y ∷ ys)) ≡ ys
drop_past [] y ys = refl
drop_past (x ∷ xs) y ys = drop_past xs y ys

drop-append_suc : (xs : List ℕ) (y : ℕ) (ys : List ℕ) → drop (length xs + 1) (xs ++ (y ∷ ys)) ≡ ys
drop-append_suc xs y ys = rw add-one (drop_past xs y ys)

drop-length : (xs : List ℕ) → drop (length xs) xs ≡ []
drop-length [] = refl
drop-length (x ∷ xs) = drop-length xs

consume_codepoint :
    (ds rest : List ℕ) (p : ℕ) (pair : ErrorPair)
    → IsCodepoint ds
    → consume_unicode_sequence (cursor p (ds ++ (b'}' ∷ rest))) pair
      ≡ (some (length ds), cursor p (ds ++ (b'}' ∷ rest)), pair)
unfolding consume_unicode_sequence unicode_count
consume_codepoint ds rest p pair c =
    let scanned : scan_hex 0 (ds ++ (b'}' ∷ rest)) ≡ stopped (length ds) =
      scan_hex-append 0 ds rest c.digits (omega arith) ∙ ap stopped (omega arith) in
    rw (scanned, drop-append ds (b'}' ∷ rest)) (ground arith)

-- A well-formed sequence appends the encoding of its code point, or reports a code point outside
-- Unicode or in the surrogate range; both move behind the closing brace.
pub parse_unicode_sequence-codepoint :
    (b p : ℕ) (ds rest str : List ℕ) (pair : ErrorPair)
    → IsCodepoint ds
    → parse_unicode_sequence str (cursor p (b ∷ b'u' ∷ b'{' ∷ (ds ++ (b'}' ∷ rest)))) pair ≡ (
        if invalid_codepoint (hex_value ds)
        then parsed false str
            (cursor (p + 3 + (length ds + 1)) rest)
            (set_code invalid_utf_codepoint pair)
        else parsed true
            (encode_utf8 str (hex_value ds))
            (cursor (p + 3 + (length ds + 1)) rest)
            pair)
unfolding parse_unicode_sequence finish_unicode
parse_unicode_sequence-codepoint b p ds rest str pair c =
    let read = str_to_hex-append 0 ds (b'}' ∷ rest) (omega (arith, hex_value-lt ds c)) in
    rw (consume_codepoint ds rest (p + 3) pair c, read)
      (ground (arith, drop-append_suc ds b'}' rest))

-- The sequence from the backslash on, up to the opening brace.
abbrev pub braced : ℕ → List ℕ → List ℕ
braced b cs = b ∷ b'u' ∷ b'{' ∷ cs

enter_braces :
    (b p : ℕ) (cs str : List ℕ) (pair : ErrorPair)
    → parse_unicode_sequence str (cursor p (braced b cs)) pair
      ≡ finish_unicode str (consume_unicode_sequence (cursor (p + 3) cs) pair)
unfolding parse_unicode_sequence
enter_braces b p cs str pair = ground arith

module _ (b p : ℕ) (str : List ℕ) (pair : ErrorPair) where
  pub no_brace :
      (rest : List ℕ)
      → first_is b'{' rest ≡ false
      → parse_unicode_sequence str (cursor p (b ∷ b'u' ∷ rest)) pair
        ≡ parsed false str
            (cursor (p + 2) rest)
            (set_error expect_opening_brace (set_code wrong_char_found pair))
  unfolding parse_unicode_sequence
  no_brace rest h = ground arith

  pub empty_braces :
      (rest : List ℕ)
      → parse_unicode_sequence str (cursor p (braced b (b'}' ∷ rest))) pair
        ≡ parsed false str
            (cursor (p + 3) (b'}' ∷ rest))
            (set_error expect_hex_digits (set_code wrong_char_found pair))
  unfolding parse_unicode_sequence finish_unicode consume_unicode_sequence unicode_count scan_hex
      is_hex
  empty_braces rest = ground arith

  -- At most six hexadecimal digits and then a character that is none and no closing brace: the parser
  -- reports the invalid digit and stays behind the opening brace.
  pub bad_hex_digit :
      (ds : List ℕ) (c : ℕ) (rest : List ℕ)
      → All (λ c. is_hex c ≡ true) ds
      → length ds ≤ 6
      → is_hex c ≡ false
      → c ≢ b'}'
      → parse_unicode_sequence str (cursor p (braced b (ds ++ (c ∷ rest)))) pair
        ≡ parsed false str
            (cursor (p + 3) (ds ++ (c ∷ rest)))
            (set_error invalid_hex_digit (set_code wrong_char_found pair))
  unfolding finish_unicode consume_unicode_sequence unicode_count
  bad_hex_digit ds c rest hd hl hb hn =
      enter_braces b p (ds ++ (c ∷ rest)) str pair
      ∙ rw (scan_hex_bad 0 ds c rest hd (omega arith) hb hn)

  -- Seven hexadecimal digits or more: the parser reports too many digits and stops behind the sixth.
  pub seven_digits :
      (ds rest : List ℕ)
      → All (λ c. is_hex c ≡ true) ds
      → 6 < length ds
      → parse_unicode_sequence str (cursor p (braced b (ds ++ rest))) pair
        ≡ parsed false str
            (cursor (p + 3 + 6) (drop 6 (ds ++ rest)))
            (set_error too_many_digits (set_code wrong_char_found pair))
  unfolding finish_unicode consume_unicode_sequence unicode_count
  seven_digits ds rest hd hl =
      enter_braces b p (ds ++ rest) str pair
      ∙ rw (scan_hex_long 0 ds rest hd (omega arith) (omega arith))

  -- One to six hexadecimal digits at the end of the text: the parser reports the missing brace and
  -- stops behind the digits.
  pub no_closing_brace :
      (ds : List ℕ)
      → IsCodepoint ds
      → parse_unicode_sequence str (cursor p (braced b ds)) pair
        ≡ parsed false str
            (cursor (p + 3 + length ds) [])
            (set_error expect_closing_brace (set_code wrong_char_found pair))
  unfolding finish_unicode consume_unicode_sequence unicode_count
  no_closing_brace ds c =
      let scanned : scan_hex 0 ds ≡ stopped (length ds) =
        scan_hex_open 0 ds c.digits (omega arith) ∙ ap stopped (omega arith) in
      enter_braces b p ds str pair ∙ rw (scanned, drop-length ds) (ground arith)
