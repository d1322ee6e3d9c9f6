-- ===== src/StringToken/Swallowed.antt =====
-- A numeric sequence with no digits whose next two characters are any character and a `u`: the
-- unicode parser runs behind the failed one, and the error is not reported.
use choice_lang.Prelude.{
  ℕ, ◌+◌, ◌≡◌, refl, ◌∙◌, true, false, none, some, List, [], ◌∷◌, ◌++◌, length, All, arith, ◌≢◌,
}
use choice_lang.Chars.{is_hex}
use choice_lang.Diagnostics.{wrong_char_found, missing_arguments}
use choice_lang.Escape.{
  cursor, parsed, ErrorPair, parse_char_sequence, char_escape, set_code, set_error,
  invalid_codepoint, encode_utf8,
}
use choice_lang.Escape.Numeric.{hex, parse_numeric_sequence_missing}
use choice_lang.Escape.Unicode.{IsCodepoint, hex_value, parse_unicode_sequence-codepoint}
use choice_lang.StringToken.{
  StringState, parse_sequence, escape_step, string_step, initial, parse_string_token,
}
use choice_lang.StringToken.RoundTrip.{
  string_loop_step, string_loop_end, parse_string_token-quotes, NoNewline, NoNewline-append,
}

-- `\x`, a character `c`, and a well-formed `u{…}`.
abbrev pub swallowed_text : ℕ → List ℕ → List ℕ
swallowed_text c ds = 92 ∷ b'x' ∷ c ∷ b'u' ∷ b'{' ∷ (ds ++ (b'}' ∷ []))

char_sequence_x :
    (str cs : List ℕ) (p : ℕ) (pair : ErrorPair)
    → parse_char_sequence str (cursor p (92 ∷ b'x' ∷ cs)) pair
      ≡ parsed false str (cursor p (92 ∷ b'x' ∷ cs)) pair
unfolding parse_char_sequence char_escape
char_sequence_x str cs p pair = ground arith

sequence-swallowed :
    (c : ℕ) (ds : List ℕ) (pair : ErrorPair)
    → is_hex c ≡ false
    → IsCodepoint ds
    → invalid_codepoint (hex_value ds) ≡ false
    → parse_sequence [] (cursor 0 (swallowed_text c ds)) pair
      ≡ parsed true
          (encode_utf8 [] (hex_value ds))
          (cursor (2 + 3 + (length ds + 1)) [])
          (set_error (missing_arguments b'x') (set_code wrong_char_found pair))
unfolding parse_sequence
sequence-swallowed c ds pair hc hd hv =
    let cs = c ∷ b'u' ∷ b'{' ∷ (ds ++ (b'}' ∷ [])) in
    let lost = set_error (missing_arguments b'x') (set_code wrong_char_found pair) in
    rw (
      char_sequence_x [] cs 0 pair,
      parse_numeric_sequence_missing 92 0 cs [] pair hex hc,
      parse_unicode_sequence-codepoint c (0 + 2) ds [] [] lost hd,
      hv,
    )

swallowed_step :
    (c after : ℕ) (ds : List ℕ) (pair : ErrorPair)
    → is_hex c ≡ false
    → IsCodepoint ds
    → invalid_codepoint (hex_value ds) ≡ false
    → string_step 1 after (record (initial (cursor 0 (swallowed_text c ds))) { pair = pair })
      ≡ record (initial (cursor (2 + 3 + (length ds + 1)) [])) {
        str = encode_utf8 [] (hex_value ds);
        pair = set_error (missing_arguments b'x') (set_code wrong_char_found pair);
      }
unfolding string_step escape_step
swallowed_step c after ds pair hc hd hv = ground (arith, sequence-swallowed c ds pair hc hd hv)

hex-NoNewline : (ds : List ℕ) → All (λ c. is_hex c ≡ true) ds → NoNewline ds
unfolding is_hex
hex-NoNewline [] h = tt
hex-NoNewline (d ∷ ds) (h, hs) = (ground arith, hex-NoNewline ds hs)

swallowed-NoNewline :
    (c : ℕ) (ds : List ℕ) → c ≢ 10 → IsCodepoint ds → NoNewline (swallowed_text c ds)
swallowed-NoNewline c ds hn hd =
    let tail = NoNewline-append ds (b'}' ∷ []) (hex-NoNewline ds hd.digits) (omega arith) in
    (omega arith, (omega arith, (hn, (omega arith, (omega arith, tail)))))

-- A literal whose only content is `\x`, a character that is no hexadecimal digit (and no newline)
-- and a valid `u{…}` parses with no report, to the encoding of that code point.
pub malformed_sequence_accepted :
    (c : ℕ) (ds : List ℕ)
    → is_hex c ≡ false
    → c ≢ 10
    → IsCodepoint ds
    → invalid_codepoint (hex_value ds) ≡ false
    → (t : StringState) × (parse_string_token (34 ∷ (swallowed_text c ds ++ (34 ∷ []))) 1 2
        ≡ some t)
      × (t.report ≡ none)
      × (t.str ≡ encode_utf8 [] (hex_value ds))
malformed_sequence_accepted c ds hc hn hd hv =
    let text = swallowed_text c ds in
    let pair = (initial (cursor 0 [])).pair in
    let done = record (initial (cursor (2 + 3 + (length ds + 1)) [])) {
      str = encode_utf8 [] (hex_value ds);
      pair = set_error (missing_arguments b'x') (set_code wrong_char_found pair);
    } in
    (
      done,
      parse_string_token-quotes text (swallowed-NoNewline c ds hn hd) (omega arith)
          ∙ string_loop_step _ 1 _ (initial (cursor 0 text)) (omega arith)
          ∙ rw (swallowed_step c _ ds pair hc hd hv) (string_loop_end _ 1 _ done refl),
      refl,
      refl,
    )
