-- ===== src/Lexer/Operators.antt =====
-- The operators: which token `singleToken` makes of which characters.
use choice_lang.Prelude.{ℕ, suc, ◌+◌, ◌^◌, ◌<◌, ◌≡◌, true, some, List, [], ◌∷◌, ◌++◌, length, arith}
use choice_lang.Branch.{if◌then◌else◌}
use choice_lang.Escape.{cursor}
use choice_lang.Token.{
  TokenType, unset, tok_left_bracket, tok_right_bracket, tok_left_paren, tok_right_paren,
  tok_left_brace, tok_right_brace, tok_semicolon, tok_comma, tok_qmark, tok_at, tok_plus, tok_incr,
  tok_plus_eq, tok_minus, tok_decr, tok_minus_eq, tok_rarrow, tok_star, tok_star_eq, tok_star_star,
  tok_star_star_eq, tok_slash, tok_slash_eq, tok_percent, tok_percent_eq, tok_uarrow, tok_uarrow_eq,
  tok_tilde, tok_tilde_eq, tok_bang, tok_bang_eq, tok_colon, tok_scope, tok_dot, tok_ellipsis,
  tok_dot_dot_eq, tok_dot_dot_lt, tok_equal, tok_eq_eq, tok_thick_arrow, tok_gt, tok_gt_eq,
  tok_right_shift, tok_rshift_eq, tok_lt, tok_lt_eq, tok_left_shift, tok_lshift_eq, tok_amp,
  tok_amp_eq, tok_amp_amp, tok_bar, tok_bar_eq, tok_bar_bar,
}
use choice_lang.Lexer.{Lexer, Floats, move, make_token, emplace, token_value}
use choice_lang.Lexer.Longer.{ends_operator}
use choice_lang.Lexer.Single.{
  punctuation, switch, single_token, operator, consume_or, conditional_token, dots,
}

-- The state of `s` with the characters `cs` from the position `p` on.
abbrev pub at_position : Lexer → ℕ → List ℕ → Lexer
at_position s p cs = record s { current = cursor p cs; offset = p }

abbrev pub with_token : Lexer → ℕ → List ℕ → List ℕ → TokenType → Lexer
with_token s p text rest type_ = record s {
  start = cursor p (text ++ rest);
  current = cursor (p + length text) rest;
  offset = p + length text;
  stream =
      s.stream ++ (record { type_ = type_; text = text; content = unset; byte_offset = p } ∷ []);
}

-- The operators and the punctuation of the language, with their tokens.
pub data IsOperator : List ℕ → TokenType → Type 0 where
  is_left_bracket : IsOperator (b'[' ∷ []) tok_left_bracket
  is_right_bracket : IsOperator (b']' ∷ []) tok_right_bracket
  is_left_paren : IsOperator (b'(' ∷ []) tok_left_paren
  is_right_paren : IsOperator (b')' ∷ []) tok_right_paren
  is_left_brace : IsOperator (b'{' ∷ []) tok_left_brace
  is_right_brace : IsOperator (b'}' ∷ []) tok_right_brace
  is_semicolon : IsOperator (b';' ∷ []) tok_semicolon
  is_comma : IsOperator (b',' ∷ []) tok_comma
  is_qmark : IsOperator (b'?' ∷ []) tok_qmark
  is_at : IsOperator (b'@' ∷ []) tok_at
  is_plus : IsOperator (b'+' ∷ []) tok_plus
  is_incr : IsOperator (b'+' ∷ b'+' ∷ []) tok_incr
  is_plus_eq : IsOperator (b'+' ∷ b'=' ∷ []) tok_plus_eq
  is_minus : IsOperator (b'-' ∷ []) tok_minus
  is_decr : IsOperator (b'-' ∷ b'-' ∷ []) tok_decr
  is_minus_eq : IsOperator (b'-' ∷ b'=' ∷ []) tok_minus_eq
  is_rarrow : IsOperator (b'-' ∷ b'>' ∷ []) tok_rarrow
  is_star : IsOperator (b'*' ∷ []) tok_star
  is_star_eq : IsOperator (b'*' ∷ b'=' ∷ []) tok_star_eq
  is_star_star : IsOperator (b'*' ∷ b'*' ∷ []) tok_star_star
  is_star_star_eq : IsOperator (b'*' ∷ b'*' ∷ b'=' ∷ []) tok_star_star_eq
  is_slash : IsOperator (b'/' ∷ []) tok_slash
  is_slash_eq : IsOperator (b'/' ∷ b'=' ∷ []) tok_slash_eq
  is_percent : IsOperator (b'%' ∷ []) tok_percent
  is_percent_eq : IsOperator (b'%' ∷ b'=' ∷ []) tok_percent_eq
  is_uarrow : IsOperator (b'^' ∷ []) tok_uarrow
  is_uarrow_eq : IsOperator (b'^' ∷ b'=' ∷ []) tok_uarrow_eq
  is_tilde : IsOperator (b'~' ∷ []) tok_tilde
  is_tilde_eq : IsOperator (b'~' ∷ b'=' ∷ []) tok_tilde_eq
  is_bang : IsOperator (b'!' ∷ []) tok_bang
  is_bang_eq : IsOperator (b'!' ∷ b'=' ∷ []) tok_bang_eq
  is_colon : IsOperator (b':' ∷ []) tok_colon
  is_scope : IsOperator (b':' ∷ b':' ∷ []) tok_scope
  is_dot : IsOperator (b'.' ∷ []) tok_dot
  is_ellipsis : IsOperator (b'.' ∷ b'.' ∷ b'.' ∷ []) tok_ellipsis
  is_dot_dot_eq : IsOperator (b'.' ∷ b'.' ∷ b'=' ∷ []) tok_dot_dot_eq
  is_dot_dot_lt : IsOperator (b'.' ∷ b'.' ∷ b'<' ∷ []) tok_dot_dot_lt
  is_equal : IsOperator (b'=' ∷ []) tok_equal
  is_eq_eq : IsOperator (b'=' ∷ b'=' ∷ []) tok_eq_eq
  is_thick_arrow : IsOperator (b'=' ∷ b'>' ∷ []) tok_thick_arrow
  is_gt : IsOperator (b'>' ∷ []) tok_gt
  is_gt_eq : IsOperator (b'>' ∷ b'=' ∷ []) tok_gt_eq
  is_right_shift : IsOperator (b'>' ∷ b'>' ∷ []) tok_right_shift
  is_rshift_eq : IsOperator (b'>' ∷ b'>' ∷ b'=' ∷ []) tok_rshift_eq
  is_lt : IsOperator (b'<' ∷ []) tok_lt
  is_lt_eq : IsOperator (b'<' ∷ b'=' ∷ []) tok_lt_eq
  is_left_shift : IsOperator (b'<' ∷ b'<' ∷ []) tok_left_shift
  is_lshift_eq : IsOperator (b'<' ∷ b'<' ∷ b'=' ∷ []) tok_lshift_eq
  is_amp : IsOperator (b'&' ∷ []) tok_amp
  is_amp_eq : IsOperator (b'&' ∷ b'=' ∷ []) tok_amp_eq
  is_amp_amp : IsOperator (b'&' ∷ b'&' ∷ []) tok_amp_amp
  is_bar : IsOperator (b'|' ∷ []) tok_bar
  is_bar_eq : IsOperator (b'|' ∷ b'=' ∷ []) tok_bar_eq
  is_bar_bar : IsOperator (b'|' ∷ b'|' ∷ []) tok_bar_bar

-- An operator, in front of no character that makes this operator longer, becomes its token, whose text is
-- the operator; the scan ends behind it, and nothing else of the state changes but `start`, which is
-- where the operator begins. The position is below 2^64 - 3.
pub single_token-IsOperator :
    (floats : Floats) (fuel : ℕ) (s : Lexer) (p : ℕ) {text : List ℕ} {type_ : TokenType}
    → IsOperator text type_
    → (rest : List ℕ) → ends_operator text rest ≡ true
    → p + 3 < 2 ^ 64
    → single_token floats (suc fuel) (at_position s p (text ++ rest))
      ≡ some (with_token s p text rest type_)
unfolding single_token switch punctuation operator consume_or conditional_token dots move make_token
    emplace token_value if◌then◌else◌
single_token-IsOperator floats fuel s p is_left_bracket rest stop h = ground arith
single_token-IsOperator floats fuel s p is_right_bracket rest stop h = ground arith
single_token-IsOperator floats fuel s p is_left_paren rest stop h = ground arith
single_token-IsOperator floats fuel s p is_right_paren rest stop h = ground arith
single_token-IsOperator floats fuel s p is_left_brace rest stop h = ground arith
single_token-IsOperator floats fuel s p is_right_brace rest stop h = ground arith
single_token-IsOperator floats fuel s p is_semicolon rest stop h = ground arith
single_token-IsOperator floats fuel s p is_comma rest stop h = ground arith
single_token-IsOperator floats fuel s p is_qmark rest stop h = ground arith
single_token-IsOperator floats fuel s p is_at rest stop h = ground arith
single_token-IsOperator floats fuel s p is_plus rest stop h = ground arith
single_token-IsOperator floats fuel s p is_incr rest stop h = ground arith
single_token-IsOperator floats fuel s p is_plus_eq rest stop h = ground arith
single_token-IsOperator floats fuel s p is_minus rest stop h = ground arith
single_token-IsOperator floats fuel s p is_decr rest stop h = ground arith
single_token-IsOperator floats fuel s p is_minus_eq rest stop h = ground arith
single_token-IsOperator floats fuel s p is_rarrow rest stop h = ground arith
single_token-IsOperator floats fuel s p is_star rest stop h = ground arith
single_token-IsOperator floats fuel s p is_star_eq rest stop h = ground arith
single_token-IsOperator floats fuel s p is_star_star rest stop h = ground arith
single_token-IsOperator floats fuel s p is_star_star_eq rest stop h = ground arith
single_token-IsOperator floats fuel s p is_slash rest stop h = ground arith
single_token-IsOperator floats fuel s p is_slash_eq rest stop h = ground arith
single_token-IsOperator floats fuel s p is_percent rest stop h = ground arith
single_token-IsOperator floats fuel s p is_percent_eq rest stop h = ground arith
single_token-IsOperator floats fuel s p is_uarrow rest stop h = ground arith
single_token-IsOperator floats fuel s p is_uarrow_eq rest stop h = ground arith
single_token-IsOperator floats fuel s p is_tilde rest stop h = ground arith
single_token-IsOperator floats fuel s p is_tilde_eq rest stop h = ground arith
single_token-IsOperator floats fuel s p is_bang rest stop h = ground arith
single_token-IsOperator floats fuel s p is_bang_eq rest stop h = ground arith
single_token-IsOperator floats fuel s p is_colon rest stop h = ground arith
single_token-IsOperator floats fuel s p is_scope rest stop h = ground arith
single_token-IsOperator floats fuel s p is_dot rest stop h = ground arith
single_token-IsOperator floats fuel s p is_ellipsis rest stop h = ground arith
single_token-IsOperator floats fuel s p is_dot_dot_eq rest stop h = ground arith
single_token-IsOperator floats fuel s p is_dot_dot_lt rest stop h = ground arith
single_token-IsOperator floats fuel s p is_equal rest stop h = ground arith
single_token-IsOperator floats fuel s p is_eq_eq rest stop h = ground arith
single_token-IsOperator floats fuel s p is_thick_arrow rest stop h = ground arith
single_token-IsOperator floats fuel s p is_gt rest stop h = ground arith
single_token-IsOperator floats fuel s p is_gt_eq rest stop h = ground arith
single_token-IsOperator floats fuel s p is_right_shift rest stop h = ground arith
single_token-IsOperator floats fuel s p is_rshift_eq rest stop h = ground arith
single_token-IsOperator floats fuel s p is_lt rest stop h = ground arith
single_token-IsOperator floats fuel s p is_lt_eq rest stop h = ground arith
single_token-IsOperator floats fuel s p is_left_shift rest stop h = ground arith
single_token-IsOperator floats fuel s p is_lshift_eq rest stop h = ground arith
single_token-IsOperator floats fuel s p is_amp rest stop h = ground arith
single_token-IsOperator floats fuel s p is_amp_eq rest stop h = ground arith
single_token-IsOperator floats fuel s p is_amp_amp rest stop h = ground arith
single_token-IsOperator floats fuel s p is_bar rest stop h = ground arith
single_token-IsOperator floats fuel s p is_bar_eq rest stop h = ground arith
single_token-IsOperator floats fuel s p is_bar_bar rest stop h = ground arith
