-- ===== src/Lexer/Scan.antt =====
-- src/lexer.cpp: the loops that scan comments, numbers, identifiers and string literals. What scans
-- one token inside of an interpolation is the parameter `token` of the string scanners.
use choice_lang.Prelude.{
  ℕ, zero, suc, ◌+◌, ◌-◌, ◌%◌, ◌^◌, Bool, true, false, not, ◌&&◌, ◌||◌, Option, none, some, length,
  ltb, ◌==◌,
}
use choice_lang.Branch.{if◌then◌else◌}
use choice_lang.Diagnostics.{
  Message, empty, unterminated_comment, wrong_char_found, invalid_sci_notation,
  invalid_num_lit_char, wrong_string_syntax, unterminated_string, unterminated_inter,
  hit_inter_nest_max, expect_fraction_digit, expect_exponent, expect_binary_digit,
  expect_octal_digit, expect_hexadecimal_digit,
}
use choice_lang.Chars.{isdigit, isalnum, is_binary, is_octal, is_hex}
use choice_lang.Token.{
  TokenType, tok_num, tok_num_dec, tok_raw_str, tok_str_lit, tok_inter_start, tok_inter_part,
  tok_inter_end,
}
use choice_lang.Lexer.{
  NumBase, base_dec, base_bin, base_oct, base_hex, Lexer, Floats, hit_end, move, peek_char,
  previous_char, check_char, consume_chars, match_sequence, report_error, make_token,
  identifier_type,
}

-- `while (check(peekChar()) && !hitEnd()) advance();`, on the number of characters that are left.
unfoldable pub skip_loop : (ℕ → Bool) → ℕ → Lexer → Lexer
skip_loop check zero s = s
skip_loop check (suc n) s =
    let next = skip_loop check n (move s) in
    if check (peek_char 0 s) && not (hit_end s) then next else s

unfoldable pub skip_while : (ℕ → Bool) → Lexer → Lexer
skip_while check s = skip_loop check (length s.current.rest) s

abbrev pub digit_or_sep : (ℕ → Bool) → ℕ → Bool
digit_or_sep check c = check c || c == 39

-- The part of `numToken` from the exponent on.
unfoldable pub exponent : Floats → TokenType → Lexer → Lexer
exponent floats type_ s =
    if check_char b'e' s
    then (let s1 = move s in
        let sign = check_char b'-' s1 || check_char b'+' s1 in
        let s2 = if sign then move s1 else s1 in
        if not sign && not (isdigit (peek_char 0 s2))
        then report_error invalid_sci_notation s2.offset empty s2
        else if not (isdigit (peek_char 0 s2))
        then report_error wrong_char_found s2.offset expect_exponent s2
        else make_token floats tok_num_dec (skip_while (digit_or_sep isdigit) s2))
    else make_token floats type_ s

unfoldable pub num_token : Floats → Lexer → Lexer
num_token floats s =
    let s1 = skip_while (digit_or_sep isdigit) s in
    if peek_char 0 s1 == b'.'
    then (if peek_char 1 s1 == b'.'
        then make_token floats tok_num s1
        else let s2 = move s1 in
          if not (isdigit (peek_char 0 s2))
          then report_error wrong_char_found s2.offset expect_fraction_digit s2
          else exponent floats tok_num_dec (skip_while (digit_or_sep isdigit) s2))
    else exponent floats tok_num s1

abbrev prefix_message : NumBase → Message
prefix_message base_bin = expect_binary_digit
prefix_message base_oct = expect_octal_digit
prefix_message _ = expect_hexadecimal_digit

-- `numericToken`, which runs with a base that is not decimal.
unfoldable pub numeric_token : Floats → (ℕ → Bool) → Lexer → Lexer
numeric_token floats check s =
    if not (check (peek_char 0 s))
    then report_error wrong_char_found s.offset (prefix_message s.base) s
    else let s1 = skip_while (digit_or_sep check) s in
      if not (hit_end s1) && isalnum (peek_char 0 s1)
      then report_error invalid_num_lit_char s1.offset empty s1
      else make_token floats tok_num s1

-- A case of `checkNumericLiteral`: the letter is consumed, and the base is set around the scan.
unfoldable pub based_literal : Floats → NumBase → (ℕ → Bool) → Lexer → Lexer
based_literal floats base check s =
    let s1 = numeric_token floats check (record (move s) { base = base }) in
    record s1 { base = base_dec }

-- `none` is false: nothing was consumed.
unfoldable pub check_numeric_literal : Floats → ℕ → Lexer → Option Lexer
check_numeric_literal floats c s =
    if not (c == b'0')
    then none
    else if check_char b'b' s
    then some (based_literal floats base_bin is_binary s)
    else if check_char b'o' s
    then some (based_literal floats base_oct is_octal s)
    else if check_char b'x' s
    then some (based_literal floats base_hex is_hex s)
    else none

unfoldable pub identifier_token : Floats → Lexer → Lexer
identifier_token floats s =
    let s1 = skip_while (λ c. isalnum c || c == b'_') s in make_token floats (identifier_type s1) s1

-- `while (!matchSequence('#', 3) && !hitEnd()) advance();`
unfoldable pub hyper_loop : ℕ → Lexer → Lexer
hyper_loop zero s = s
hyper_loop (suc n) s =
    let next = hyper_loop n (move s) in
    if not (match_sequence b'#' 3 s) && not (hit_end s) then next else s

unfoldable pub check_hyper_comment : Lexer → Option Lexer
check_hyper_comment s =
    if match_sequence b'#' 2 s
    then (let s1 = move (move s) in
        let s2 = hyper_loop (length s1.current.rest) s1 in
        some (
          if match_sequence b'#' 3 s2
          then consume_chars 3 s2
          else report_error unterminated_comment s2.offset empty s2))
    else none

-- The case of a single `#`.
unfoldable pub comment : Lexer → Lexer
comment s =
    let s1 = skip_while (λ c. not (c == b'#')) s in
    if hit_end s1 then report_error unterminated_comment s1.offset empty s1 else move s1

-- The macro FORMAT_PARAM at the current character.
abbrev pub at_param : Lexer → Bool
at_param s = peek_char 0 s == b'%' && not (previous_char s == 92) && peek_char 1 s == b'('

-- `start = current`.
abbrev pub reset_start : Lexer → Lexer
reset_start s = record s { start = s.current }

-- Goes on with `f` where the test holds, and ends otherwise.
abbrev pub while_ : Bool → Lexer → (Lexer → Option Lexer) → Option Lexer
while_ true s f = f s
while_ false s f = some s

abbrev pub then_ : Option Lexer → (Lexer → Option Lexer) → Option Lexer
then_ none f = none
then_ (some s) f = f s

-- How a part of a string scan ends: with a state to go on from, or with a return of the caller.
pub data Flow : Type 0 where
  returned going : Lexer → Flow

module _ (floats : Floats) (token : Lexer → Option Lexer) where
  -- The tokens of an interpolation, up to the closing parenthesis. `none` is lack of fuel.
  unfoldable pub param_loop : ℕ → Lexer → Option Lexer
  param_loop zero s = none
  param_loop (suc fuel) s =
      while_ (not (peek_char 0 s == b')') && not (hit_end s)) s
        (λ s. then_ (token s) (param_loop fuel))

  -- The end of `formatParam`.
  unfoldable pub close_param : Lexer → Flow
  close_param s =
      if hit_end s
      then returned (report_error unterminated_inter s.offset empty s)
      else going (reset_start (move s))

  abbrev pub flow_of : Option Lexer → Option Flow
  flow_of none = none
  flow_of (some s) = some (close_param s)

  unfoldable pub format_param : Lexer → Option Flow
  format_param s =
      let s1 = consume_chars 2 s in flow_of (param_loop (suc (length s1.current.rest)) s1)

  abbrev pub flow_bind : Option Flow → (Lexer → Option Lexer) → Option Lexer
  flow_bind none f = none
  flow_bind (some (returned s)) f = some s
  flow_bind (some (going s)) f = f s

  -- The end of `formatStringToken`.
  unfoldable pub end_format : Lexer → Option Lexer
  end_format s =
      if hit_end s
      then some (report_error unterminated_string s.offset empty s)
      else some (make_token floats tok_inter_end (move s))

  -- The loop of `formatStringToken` and what follows it.
  unfoldable pub part_loop : ℕ → ℕ → Lexer → Option Lexer
  part_loop zero end_delim s = none
  part_loop (suc fuel) end_delim s =
      if not (peek_char 0 s == end_delim) && not (hit_end s)
      then (if at_param s
          then flow_bind (format_param (make_token floats tok_inter_part s))
              (part_loop fuel end_delim)
          else part_loop fuel end_delim (move s))
      else end_format s

  unfoldable pub format_string_token : ℕ → Lexer → Option Lexer
  format_string_token end_delim s =
      let depth = (s.nesting_depth + 1) % 256 in
      let s1 = record s { nesting_depth = depth } in
      let s2 = if ltb 2 depth then report_error hit_inter_nest_max s1.offset empty s1 else s1 in
      flow_bind (format_param (make_token floats tok_inter_start s2)) (λ s3.
        part_loop (suc (length s3.current.rest)) end_delim
          (record s3 { nesting_depth = (s3.nesting_depth + 255) % 256 }))

  -- Behind the loop of `stringToken` or `multiLineStringToken`; `report` is the offset that an
  -- unterminated string is reported at.
  unfoldable pub end_string : Bool → ℕ → Lexer → Option Lexer
  end_string raw report s =
      if hit_end s
      then some (report_error unterminated_string report empty s)
      else some (make_token floats (if raw then tok_raw_str else tok_str_lit) (move s))

  -- The loop of `stringToken`, on the number of characters that are left; `even` is
  -- `escapeCharCount % 2 == 0`.
  unfoldable pub quoted_loop : ℕ → Bool → Bool → Lexer → Option Lexer
  quoted_loop zero raw even s = end_string raw s.offset s
  quoted_loop (suc n) raw even s =
      let c = peek_char 0 s in
      let next = quoted_loop n raw (if c == 92 then not even else true) (move s) in
      if hit_end s || c == 34 && even
      then end_string raw s.offset s
      else if not raw && at_param s
      then format_string_token 34 s
      else if c == 10
      then some (report_error wrong_string_syntax ((s.offset + 1) % 2 ^ 64) empty s)
      else next

  unfoldable pub string_token : Bool → Lexer → Option Lexer
  string_token raw s = quoted_loop (length s.current.rest) raw true s

  unfoldable pub multi_line_loop : ℕ → Bool → ℕ → Bool → Lexer → Option Lexer
  multi_line_loop zero raw begin even s = end_string raw begin s
  multi_line_loop (suc n) raw begin even s =
      let c = peek_char 0 s in
      let next = multi_line_loop n raw begin (if c == 92 then not even else true) (move s) in
      if hit_end s || c == 96 && even
      then end_string raw begin s
      else if not raw && at_param s
      then format_string_token 96 s
      else next

  unfoldable pub multi_line_string_token : Bool → Lexer → Option Lexer
  multi_line_string_token raw s =
      multi_line_loop (length s.current.rest) raw ((s.offset + 2 ^ 64 - 1) % 2 ^ 64) true s

  -- `none` in the outer option is false.
  unfoldable pub check_raw_string : ℕ → Lexer → Option (Option Lexer)
  check_raw_string c s =
      if c == b'r' && check_char 34 s
      then some (string_token true (move s))
      else if c == b'r' && check_char 96 s
      then some (multi_line_string_token true (move s))
      else none
