-- ===== src/Diagnostics.antt =====
-- include/diagnostic.h: the codes that the modelled components record, and the messages that
-- they pass along with a code.
use choice_lang.Prelude.{ℕ, Bool, true, false}

-- `enum DiagCode`; `unterminated_comment` is the first, with the value 0.
pub data DiagCode : Type 0 where
  unterminated_comment invalid_digit_sep numeric_lit_parse_fail invalid_num_lit_char : DiagCode
  invalid_sci_notation wrong_char_found wrong_string_syntax unterminated_string : DiagCode
  unterminated_inter hit_inter_nest_max unrecognized_token missing_initializer : DiagCode
  wrong_token_found invalid_token hit_param_max unexpected_input_end : DiagCode
  hit_octal_char_max invalid_utf_codepoint : DiagCode

-- The message strings. `empty` is "".
pub data Message : Type 0 where
  empty : Message
  missing_arguments : ℕ → Message
  invalid_hex_digit too_many_digits expect_hex_digits expect_closing_brace : Message
  expect_opening_brace : Message
  expect_fraction_digit expect_exponent expect_binary_digit : Message
  expect_octal_digit expect_hexadecimal_digit : Message

-- `static_cast<u8>(code) != 0`.
abbrev pub is_nonzero : DiagCode → Bool
is_nonzero DiagCode.unterminated_comment = false
is_nonzero _ = true
