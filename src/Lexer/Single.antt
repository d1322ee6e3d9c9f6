-- ===== src/Lexer/Single.antt =====
-- src/lexer.cpp: `singleToken` and `tokenize`.
use choice_lang.Prelude.{
  ℕ, zero, suc, false, not, ◌||◌, Option, none, some, List, [], ◌∷◌, ◌++◌, length, ◌==◌,
}
use choice_lang.Branch.{if◌then◌else◌}
use choice_lang.Diagnostics.{empty, unrecognized_token}
use choice_lang.Chars.{isdigit, isalpha}
use choice_lang.Escape.{cursor}
use choice_lang.Token.{
  TokenType, Token, unset, tok_amp, tok_amp_amp, tok_amp_eq, tok_at, tok_bang, tok_bang_eq, tok_bar,
  tok_bar_bar, tok_bar_eq, tok_colon, tok_comma, tok_decr, tok_dot, tok_dot_dot_eq, tok_dot_dot_lt,
  tok_ellipsis, tok_eof, tok_eq_eq, tok_equal, tok_gt, tok_gt_eq, tok_incr, tok_left_brace,
  tok_left_bracket, tok_left_paren, tok_left_shift, tok_lshift_eq, tok_lt, tok_lt_eq, tok_minus,
  tok_minus_eq, tok_percent, tok_percent_eq, tok_plus, tok_plus_eq, tok_qmark, tok_rarrow,
  tok_right_brace, tok_right_bracket, tok_right_paren, tok_right_shift, tok_rshift_eq, tok_scope,
  tok_semicolon, tok_slash, tok_slash_eq, tok_star, tok_star_eq, tok_star_star, tok_star_star_eq,
  tok_thick_arrow, tok_tilde, tok_tilde_eq, tok_uarrow, tok_uarrow_eq,
}
use choice_lang.Lexer.{
  Lexer, Floats, hit_end, ch_eof, move, peek_char, check_char, report_error, previous_offset,
  make_token,
}
use choice_lang.Lexer.Scan.{
  skip_while, num_token, check_numeric_literal, identifier_token, check_hyper_comment, comment,
  then_, while_, string_token, multi_line_string_token, check_raw_string,
}

unfoldable pub conditional_token : Floats → ℕ → TokenType → TokenType → Lexer → Lexer
conditional_token floats c two one s =
    if check_char c s then make_token floats two (move s) else make_token floats one s

-- `if (consumeChar(c)) f else g`.
unfoldable pub consume_or : ℕ → (Lexer → Lexer) → (Lexer → Lexer) → Lexer → Lexer
consume_or c f g s = if check_char c s then f (move s) else g s

-- The tokens of one character.
unfoldable pub punctuation : ℕ → Option TokenType
punctuation c =
    if c == b'['
    then some tok_left_bracket
    else if c == b']'
    then some tok_right_bracket
    else if c == b'('
    then some tok_left_paren
    else if c == b')'
    then some tok_right_paren
    else if c == b'{'
    then some tok_left_brace
    else if c == b'}'
    then some tok_right_brace
    else if c == b';'
    then some tok_semicolon
    else if c == b','
    then some tok_comma
    else if c == b'?'
    then some tok_qmark
    else if c == b'@'
    then some tok_at
    else none

-- The case of a dot. The character after two dots is one of `.=<` where the rest is reached.
unfoldable pub dots : Floats → Lexer → Lexer
dots floats s =
    let c = peek_char 1 s in
    if peek_char 0 s == b'.'
    then (if not (c == b'.' || c == b'=' || c == b'<')
        then make_token floats tok_dot s
        else consume_or b'.' (make_token floats tok_ellipsis)
            (consume_or b'=' (make_token floats tok_dot_dot_eq)
              (consume_or b'<' (make_token floats tok_dot_dot_lt) (λ s. s)))
            (move s))
    else make_token floats tok_dot s

-- The cases of the operators and of the line comment.
unfoldable pub operator : Floats → ℕ → Lexer → Option Lexer
operator floats c s =
    if c == b'+'
    then some (
        consume_or b'+' (make_token floats tok_incr)
          (λ s. conditional_token floats b'=' tok_plus_eq tok_plus s) s)
    else if c == b'-'
    then some (
        consume_or b'-' (make_token floats tok_decr)
          (consume_or b'=' (make_token floats tok_minus_eq)
            (λ s. conditional_token floats b'>' tok_rarrow tok_minus s))
          s)
    else if c == b'*'
    then some (
        consume_or b'*' (λ s. conditional_token floats b'=' tok_star_star_eq tok_star_star s)
          (λ s. conditional_token floats b'=' tok_star_eq tok_star s) s)
    else if c == b'/'
    then some (
        consume_or b'/' (skip_while (λ c. not (c == 10)))
          (λ s. conditional_token floats b'=' tok_slash_eq tok_slash s) s)
    else if c == b'%'
    then some (conditional_token floats b'=' tok_percent_eq tok_percent s)
    else if c == b'^'
    then some (conditional_token floats b'=' tok_uarrow_eq tok_uarrow s)
    else if c == b'~'
    then some (conditional_token floats b'=' tok_tilde_eq tok_tilde s)
    else if c == b'!'
    then some (conditional_token floats b'=' tok_bang_eq tok_bang s)
    else if c == b':'
    then some (conditional_token floats b':' tok_scope tok_colon s)
    else if c == b'.'
    then some (dots floats s)
    else if c == b'='
    then some (
        consume_or b'>' (make_token floats tok_thick_arrow)
          (λ s. conditional_token floats b'=' tok_eq_eq tok_equal s) s)
    else if c == b'>'
    then some (
        consume_or b'>' (λ s. conditional_token floats b'=' tok_rshift_eq tok_right_shift s)
          (λ s. conditional_token floats b'=' tok_gt_eq tok_gt s) s)
    else if c == b'<'
    then some (
        consume_or b'<' (λ s. conditional_token floats b'=' tok_lshift_eq tok_left_shift s)
          (λ s. conditional_token floats b'=' tok_lt_eq tok_lt s) s)
    else if c == b'&'
    then some (
        consume_or b'&' (make_token floats tok_amp_amp)
          (λ s. conditional_token floats b'=' tok_amp_eq tok_amp s) s)
    else if c == b'|'
    then some (
        consume_or b'|' (make_token floats tok_bar_bar)
          (λ s. conditional_token floats b'=' tok_bar_eq tok_bar s) s)
    else none

-- A first choice, and what is done where it does not apply.
abbrev pub or_else : Option Lexer → Option Lexer → Option Lexer
or_else (some s) other = some s
or_else none other = other

abbrev pub or_try : Option (Option Lexer) → Option Lexer → Option Lexer
or_try (some r) other = r
or_try none other = other

-- The case `default` behind its two checks.
unfoldable pub plain_token : Floats → ℕ → Lexer → Lexer
plain_token floats c s =
    if isdigit c
    then num_token floats s
    else if isalpha c || c == b'_'
    then identifier_token floats s
    else report_error unrecognized_token (previous_offset s) empty s

abbrev pub mark : Floats → Option TokenType → Lexer → Option Lexer
mark floats none s = none
mark floats (some type_) s = some (make_token floats type_ s)

-- The switch of `singleToken` on the character that was consumed.
unfoldable pub switch : Floats → (Lexer → Option Lexer) → ℕ → Lexer → Option Lexer
switch floats token c s = or_else (mark floats (punctuation c) s) (
    or_else (operator floats c s) (
      if c == 34
      then string_token floats token false s
      else if c == 96
      then multi_line_string_token floats token false s
      else if c == 32 || c == 10
      then some s
      else if c == b'#'
      then or_else (check_hyper_comment s) (some (comment s))
      else or_try (check_raw_string floats token c s)
          (or_else (check_numeric_literal floats c s) (some (plain_token floats c s)))))

-- On fuel for the nesting of interpolations; `none` is lack of fuel.
unfoldable pub single_token : Floats → ℕ → Lexer → Option Lexer
single_token floats zero s = none
single_token floats (suc fuel) s =
    let c = if hit_end s then ch_eof else peek_char 0 s in
    switch floats (single_token floats fuel) c (move (record s { start = s.current }))

-- `while (!hitEnd()) { inError = false; singleToken(); }`
unfoldable pub token_loop : Floats → ℕ → ℕ → Lexer → Option Lexer
token_loop floats zero depth s = none
token_loop floats (suc fuel) depth s = while_ (not (hit_end s)) s (λ s.
    then_ (single_token floats depth (record s { in_error = false }))
      (token_loop floats fuel depth))

-- `setUp`; the base and the nesting depth are what an earlier run left.
unfoldable pub set_up : List ℕ → Lexer → Lexer
set_up code s = record s {
  start = cursor 0 code;
  current = cursor 0 code;
  offset = 0;
  hit_error = false;
  stream = [];
}

abbrev pub eof_token : Lexer → Token
eof_token s = record { type_ = tok_eof; text = 32 ∷ []; content = unset; byte_offset = s.offset }

unfoldable pub finish : Lexer → Lexer
finish s =
    if s.hit_error
    then record s { stream = [] }
    else record s { stream = s.stream ++ (eof_token s ∷ []) }

abbrev pub map_finish : Option Lexer → Option Lexer
map_finish none = none
map_finish (some s) = some (finish s)

-- Every token takes a character, so the length of the code is fuel enough.
unfoldable pub tokenize : Floats → List ℕ → Lexer → Option Lexer
tokenize floats code s =
    map_finish (token_loop floats (suc (length code)) (suc (length code)) (set_up code s))
