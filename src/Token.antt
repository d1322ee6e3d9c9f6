-- ===== src/Token.antt =====
-- include/token.h, and the keyword table of src/lexer.cpp.
use choice_lang.Prelude.{ℕ, Bool, List, [], ◌∷◌, if◌then◌else◌, same}

-- `enum TokenType`.
pub data TokenType : Type 0 where
  tok_left_bracket tok_right_bracket tok_left_paren tok_right_paren tok_left_brace : TokenType
  tok_right_brace tok_semicolon tok_comma tok_qmark tok_num tok_num_dec tok_str_lit : TokenType
  tok_raw_str tok_true tok_false tok_null tok_inter_start tok_inter_part tok_inter_end : TokenType
  tok_if tok_elif tok_else tok_while tok_for tok_where tok_repeat tok_until tok_break : TokenType
  tok_cont tok_match tok_is tok_fall tok_end tok_immut tok_mut tok_and tok_or tok_not : TokenType
  tok_return tok_in tok_plus tok_minus tok_star tok_slash tok_percent tok_star_star : TokenType
  tok_incr tok_decr tok_eq_eq tok_bang_eq tok_gt tok_gt_eq tok_lt tok_lt_eq tok_bang : TokenType
  tok_amp_amp tok_bar_bar tok_amp tok_bar tok_uarrow tok_tilde tok_left_shift : TokenType
  tok_right_shift tok_dot_dot_eq tok_dot_dot_lt tok_plus_eq tok_minus_eq tok_star_eq : TokenType
  tok_slash_eq tok_percent_eq tok_star_star_eq tok_amp_eq tok_bar_eq tok_uarrow_eq : TokenType
  tok_tilde_eq tok_lshift_eq tok_rshift_eq tok_identifier tok_make tok_fix tok_colon : TokenType
  tok_equal tok_func tok_thick_arrow tok_ellipsis tok_type tok_dot tok_rarrow : TokenType
  tok_alias tok_use tok_from tok_as tok_scope tok_at tok_private tok_static : TokenType
  tok_computed tok_closed tok_test tok_eof : TokenType

-- The union `Value`: an i64 and a double are 64-bit patterns, and `unset` is `Value{}`.
pub data Value : Type 0 where
  unset : Value
  integer : ℕ → Value
  decimal : ℕ → Value
  boolean : Bool → Value
  null_pointer : Value

pub record Token : Type 0 where
  pub type_ : TokenType
  pub text : List ℕ
  pub content : Value
  pub byte_offset : ℕ

unfoldable pub keywords : List (List ℕ × TokenType)
keywords =
    (b't' ∷ b'r' ∷ b'u' ∷ b'e' ∷ [], tok_true)
    ∷ (b'f' ∷ b'a' ∷ b'l' ∷ b's' ∷ b'e' ∷ [], tok_false)
    ∷ (b'n' ∷ b'u' ∷ b'l' ∷ b'l' ∷ [], tok_null)
    ∷ (b'i' ∷ b'f' ∷ [], tok_if)
    ∷ (b'e' ∷ b'l' ∷ b'i' ∷ b'f' ∷ [], tok_elif)
    ∷ (b'e' ∷ b'l' ∷ b's' ∷ b'e' ∷ [], tok_else)
    ∷ (b'w' ∷ b'h' ∷ b'i' ∷ b'l' ∷ b'e' ∷ [], tok_while)
    ∷ (b'f' ∷ b'o' ∷ b'r' ∷ [], tok_for)
    ∷ (b'w' ∷ b'h' ∷ b'e' ∷ b'r' ∷ b'e' ∷ [], tok_where)
    ∷ (b'r' ∷ b'e' ∷ b'p' ∷ b'e' ∷ b'a' ∷ b't' ∷ [], tok_repeat)
    ∷ (b'u' ∷ b'n' ∷ b't' ∷ b'i' ∷ b'l' ∷ [], tok_until)
    ∷ (b'b' ∷ b'r' ∷ b'e' ∷ b'a' ∷ b'k' ∷ [], tok_break)
    ∷ (b'c' ∷ b'o' ∷ b'n' ∷ b't' ∷ b'i' ∷ b'n' ∷ b'u' ∷ b'e' ∷ [], tok_cont)
    ∷ (b'm' ∷ b'a' ∷ b't' ∷ b'c' ∷ b'h' ∷ [], tok_match)
    ∷ (b'i' ∷ b's' ∷ [], tok_is)
    ∷ (b'f' ∷ b'a' ∷ b'l' ∷ b'l' ∷ b't' ∷ b'h' ∷ b'r' ∷ b'o' ∷ b'u' ∷ b'g' ∷ b'h' ∷ [], tok_fall)
    ∷ (b'e' ∷ b'n' ∷ b'd' ∷ [], tok_end)
    ∷ (b'i' ∷ b'm' ∷ b'm' ∷ b'u' ∷ b't' ∷ [], tok_immut)
    ∷ (b'm' ∷ b'u' ∷ b't' ∷ [], tok_mut)
    ∷ (b'a' ∷ b'n' ∷ b'd' ∷ [], tok_and)
    ∷ (b'o' ∷ b'r' ∷ [], tok_or)
    ∷ (b'n' ∷ b'o' ∷ b't' ∷ [], tok_not)
    ∷ (b'r' ∷ b'e' ∷ b't' ∷ b'u' ∷ b'r' ∷ b'n' ∷ [], tok_return)
    ∷ (b'i' ∷ b'n' ∷ [], tok_in)
    ∷ (b'm' ∷ b'a' ∷ b'k' ∷ b'e' ∷ [], tok_make)
    ∷ (b'f' ∷ b'i' ∷ b'x' ∷ [], tok_fix)
    ∷ (b'f' ∷ b'u' ∷ b'n' ∷ b'c' ∷ [], tok_func)
    ∷ (b't' ∷ b'y' ∷ b'p' ∷ b'e' ∷ [], tok_type)
    ∷ (b'a' ∷ b'l' ∷ b'i' ∷ b'a' ∷ b's' ∷ [], tok_alias)
    ∷ (b'u' ∷ b's' ∷ b'e' ∷ [], tok_use)
    ∷ (b'f' ∷ b'r' ∷ b'o' ∷ b'm' ∷ [], tok_from)
    ∷ (b'a' ∷ b's' ∷ [], tok_as)
    ∷ (b'p' ∷ b'r' ∷ b'i' ∷ b'v' ∷ b'a' ∷ b't' ∷ b'e' ∷ [], tok_private)
    ∷ (b's' ∷ b't' ∷ b'a' ∷ b't' ∷ b'i' ∷ b'c' ∷ [], tok_static)
    ∷ (b'c' ∷ b'o' ∷ b'm' ∷ b'p' ∷ b'u' ∷ b't' ∷ b'e' ∷ b'd' ∷ [], tok_computed)
    ∷ (b'c' ∷ b'l' ∷ b'o' ∷ b's' ∷ b'e' ∷ b'd' ∷ [], tok_closed)
    ∷ (b't' ∷ b'e' ∷ b's' ∷ b't' ∷ [], tok_test)
    ∷ []

-- `keywords.get(text)`, where a missing keyword is an identifier.
unfoldable pub keyword_type : List (List ℕ × TokenType) → List ℕ → TokenType
keyword_type [] text = tok_identifier
keyword_type ((word, type_) ∷ table) text =
    let rest = keyword_type table text in if same word text then type_ else rest
