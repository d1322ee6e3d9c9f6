-- ===== src/Tests/EscapeTests.antt =====
-- Runs of the escape sequences of src/escape_seq.cpp and of `parseStringToken`.
use choice_lang.Prelude.{
  ℕ, ◌≡◌, refl, false, true, none, some, [], ◌∷◌, ◌++◌, List, length, arith, inr, if◌then◌else◌,
}
use choice_lang.Chars.{is_hex, from_hex, isdigit, isupper}
use choice_lang.Diagnostics.{
  DiagCode, wrong_char_found, empty, invalid_hex_digit, too_many_digits, expect_closing_brace,
  invalid_utf_codepoint,
}
use choice_lang.Escape.{
  cursor, parsed, ErrorPair, hex_rules, encode_utf8, multi_byte, invalid_codepoint,
  parse_numeric_sequence, parse_unicode_sequence, set_code, set_error, rules_for, numeric_arguments,
  check_parse_args, finish_numeric, parse_escape_string, parse_digits,
}
use choice_lang.Escape.Utf8.{decode_utf8, decode_utf8-encode_utf8}
use choice_lang.Escape.Digits.{digits_value}
use choice_lang.Escape.Numeric.{hex, numeric_outcome, IsDigitRun, parse_numeric_sequence-digits}
use choice_lang.Escape.Unicode.{
  IsCodepoint, hex_value, braced, parse_unicode_sequence-codepoint, bad_hex_digit, seven_digits,
  no_closing_brace,
}
use choice_lang.StringToken.{StringState, initial, parse_string_token}
use choice_lang.StringToken.Progress.{parse_string_token_total}
use choice_lang.StringToken.RoundTrip.{quote, parse_string_token-quote}
use choice_lang.StringToken.Swallowed.{swallowed_text, malformed_sequence_accepted}

abbrev no_error : ErrorPair
no_error = record { code = DiagCode.unterminated_comment; message = empty }

euro : encode_utf8 [] 0x20ac ≡ 0xe2 ∷ 0x82 ∷ 0xac ∷ []
unfolding encode_utf8 multi_byte
euro = refl

smile : encode_utf8 (b'a' ∷ []) 0x1f600 ≡ b'a' ∷ 0xf0 ∷ 0x9f ∷ 0x98 ∷ 0x80 ∷ []
unfolding encode_utf8 multi_byte
smile = refl

decode_utf8-encode_utf8_example :
    decode_utf8 (encode_utf8 [] 0x20ac ++ (b'!' ∷ [])) ≡ some (0x20ac, b'!' ∷ [])
unfolding invalid_codepoint
decode_utf8-encode_utf8_example = decode_utf8-encode_utf8 0x20ac (b'!' ∷ []) refl

abbrev two_hex : List ℕ
two_hex = b'4' ∷ b'1' ∷ []

two_hex-IsDigitRun : IsDigitRun hex_rules two_hex (b'9' ∷ [])
unfolding is_hex
two_hex-IsDigitRun = record {
  digits = (refl, (refl, tt));
  some_digit = omega arith;
  within = omega arith;
  stop = inr refl;
}

parse_numeric_sequence-digits_example :
    parse_numeric_sequence [] (cursor 0 (92 ∷ b'x' ∷ (two_hex ++ (b'9' ∷ [])))) no_error
    ≡ numeric_outcome hex_rules two_hex [] (cursor 4 (b'9' ∷ [])) no_error
parse_numeric_sequence-digits_example =
    parse_numeric_sequence-digits 92 0 two_hex (b'9' ∷ []) [] no_error hex two_hex-IsDigitRun

hex_byte :
    parse_numeric_sequence [] (cursor 0 (92 ∷ b'x' ∷ (two_hex ++ (b'9' ∷ [])))) no_error
    ≡ parsed true (b'A' ∷ []) (cursor 4 (b'9' ∷ [])) no_error
unfolding parse_numeric_sequence rules_for numeric_arguments check_parse_args finish_numeric
    parse_escape_string parse_digits is_hex from_hex isdigit isupper
hex_byte = refl

abbrev euro_digits : List ℕ
euro_digits = b'2' ∷ b'0' ∷ b'a' ∷ b'C' ∷ []

euro-IsCodepoint : IsCodepoint euro_digits
unfolding is_hex
euro-IsCodepoint = record {
  digits = (refl, (refl, (refl, (refl, tt))));
  some_digit = omega arith;
  within = omega arith;
}

parse_unicode_sequence-codepoint_example :
    parse_unicode_sequence [] (cursor 0 (92 ∷ b'u' ∷ b'{' ∷ (euro_digits ++ (b'}' ∷ [])))) no_error
    ≡ (if invalid_codepoint (hex_value euro_digits)
        then parsed false [] (cursor 8 []) (set_code invalid_utf_codepoint no_error)
        else parsed true (encode_utf8 [] (hex_value euro_digits)) (cursor 8 []) no_error)
parse_unicode_sequence-codepoint_example =
    parse_unicode_sequence-codepoint 92 0 euro_digits [] [] no_error euro-IsCodepoint

bad_hex_digit_example :
    parse_unicode_sequence [] (cursor 0 (braced 92 (euro_digits ++ (b'g' ∷ [])))) no_error
    ≡ parsed false []
        (cursor 3 (euro_digits ++ (b'g' ∷ [])))
        (set_error invalid_hex_digit (set_code wrong_char_found no_error))
unfolding is_hex
bad_hex_digit_example =
    bad_hex_digit 92 0 [] no_error euro_digits b'g' [] euro-IsCodepoint.digits (omega arith) refl
      (omega arith)

abbrev seven_ones : List ℕ
seven_ones = b'1' ∷ b'1' ∷ b'1' ∷ b'1' ∷ b'1' ∷ b'1' ∷ b'1' ∷ []

seven_digits_example :
    parse_unicode_sequence [] (cursor 0 (braced 92 (seven_ones ++ (b'}' ∷ [])))) no_error
    ≡ parsed false []
        (cursor 9 (b'1' ∷ b'}' ∷ []))
        (set_error too_many_digits (set_code wrong_char_found no_error))
unfolding is_hex
seven_digits_example =
    seven_digits 92 0 [] no_error seven_ones (b'}' ∷ [])
      (refl, (refl, (refl, (refl, (refl, (refl, (refl, tt))))))) (omega arith)

no_closing_brace_example :
    parse_unicode_sequence [] (cursor 0 (braced 92 euro_digits)) no_error
    ≡ parsed false []
        (cursor 7 [])
        (set_error expect_closing_brace (set_code wrong_char_found no_error))
no_closing_brace_example = no_closing_brace 92 0 [] no_error euro_digits euro-IsCodepoint

parse_string_token_total_example :
    (t : StringState) × (parse_string_token (34 ∷ 92 ∷ b'q' ∷ 34 ∷ []) 1 2 ≡ some t)
    × (length t.it.rest ≡ 0)
parse_string_token_total_example = parse_string_token_total (34 ∷ 92 ∷ b'q' ∷ 34 ∷ []) 1 2

parse_string_token-quote_example :
    parse_string_token (34 ∷ (quote (b'a' ∷ 10 ∷ 92 ∷ []) ++ (34 ∷ []))) 1 2
    ≡ some (record (initial (cursor (length (quote (b'a' ∷ 10 ∷ 92 ∷ []))) [])) {
      str = b'a' ∷ 10 ∷ 92 ∷ [];
    })
parse_string_token-quote_example = parse_string_token-quote (b'a' ∷ 10 ∷ 92 ∷ [])

malformed_sequence_accepted_example :
    (t : StringState) × (parse_string_token
        (34 ∷ (swallowed_text b'g' euro_digits ++ (34 ∷ [])))
        1
        2
      ≡ some t)
    × (t.report ≡ none)
    × (t.str ≡ encode_utf8 [] (hex_value euro_digits))
unfolding is_hex invalid_codepoint digits_value from_hex isdigit isupper
malformed_sequence_accepted_example =
    malformed_sequence_accepted b'g' euro_digits refl (omega arith) euro-IsCodepoint refl
