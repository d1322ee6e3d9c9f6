-- ===== src/Lexer.antt =====
-- src/lexer.cpp: the state of the lexer, its movements, its error report and `makeToken`. The pointers
-- `start` and `current` are cursors: the distance from the start of the code with the characters up
-- to `end`. `fast_float::from_chars` is the two parameters of `Floats`.
pub mod Scan
pub mod Single
pub mod Invariant
pub mod Scanned
pub mod Nested
pub mod Tokenize
pub mod Longer
pub mod Operators
pub mod Keywords
use choice_lang.Prelude.{
  ℕ, zero, suc, ◌+◌, ◌-◌, ◌%◌, ◌^◌, Bool, true, false, not, ◌&&◌, ◌||◌, Option, none, some, List,
  [], ◌∷◌, ◌++◌, length, drop, take, get_or, ltb, leb, ◌==◌, if◌then◌else◌,
}
use choice_lang.Diagnostics.{
  DiagCode, Message, empty, invalid_digit_sep, numeric_lit_parse_fail, wrong_char_found,
  unexpected_input_end,
}
use choice_lang.Chars.{isdigit, isalnum, is_hex}
use choice_lang.Escape.{Cursor, cursor, advance}
use choice_lang.Token.{
  TokenType, tok_identifier, tok_true, tok_false, tok_null, tok_num, tok_num_dec, Value, unset,
  integer, decimal, boolean, null_pointer, Token, keywords, keyword_type,
}

pub data NumBase : Type 0 where
  base_dec base_bin base_oct base_hex : NumBase

pub record Diagnostic : Type 0 where
  pub code : DiagCode
  pub offset : ℕ
  pub message : Message

-- `nesting_depth` is the static variable of `formatStringToken`.
pub record Lexer : Type 0 where
  pub start : Cursor
  pub current : Cursor
  pub offset : ℕ
  pub base : NumBase
  pub hit_error : Bool
  pub in_error : Bool
  pub stream : List Token
  pub diagnostics : List Diagnostic
  pub nesting_depth : ℕ

-- `from_chars` on an i64 with a base and on a double: the value that it leaves in `ret`, and whether
-- the answer is a success.
pub record Floats : Type 0 where
  pub parse_int : List ℕ → ℕ → ℕ × Bool
  pub parse_double : List ℕ → ℕ × Bool

-- `current >= end`.
abbrev pub hit_end : Lexer → Bool
hit_end s = length s.current.rest == 0

-- CH_EOF is the char -1.
abbrev pub ch_eof : ℕ
ch_eof = 255

-- `advance`, without the character that it returns.
unfoldable pub move : Lexer → Lexer
move s =
    if hit_end s
    then s
    else record s { current = advance 1 s.current; offset = (s.offset + 1) % 2 ^ 64 }

abbrev pub peek_char : ℕ → Lexer → ℕ
peek_char distance s = get_or s.current.rest distance ch_eof

-- `previousChar()`: `current - 1 > start`.
abbrev pub previous_char : Lexer → ℕ
previous_char s =
    let taken = s.current.pos - s.start.pos in
    if ltb 1 taken then get_or s.start.rest (taken - 1) ch_eof else ch_eof

abbrev pub check_char : ℕ → Lexer → Bool
check_char c s = if hit_end s then false else get_or s.current.rest 0 0 == c

-- The loop of `consumeChars`.
unfoldable pub consume_chars : ℕ → Lexer → Lexer
unfolding move
consume_chars zero s = s
consume_chars (suc count) s = consume_chars count (move s)

unfoldable pub match_sequence : ℕ → ℕ → Lexer → Bool
match_sequence c zero s = true
match_sequence c (suc n) s = match_sequence c n s && peek_char n s == c

-- Offsets that a report may name: `PREVIOUS_OFFSET`, `CURRENT_OFFSET` and `NEXT_OFFSET`.
abbrev pub previous_offset : Lexer → ℕ
previous_offset s = (s.offset + 2 ^ 64 - 1) % 2 ^ 64

-- `current[offset - this->offset]`, which only `WRONG_CHAR_FOUND` reads; the text ends in a NUL.
unfoldable pub report_error : DiagCode → ℕ → Message → Lexer → Lexer
report_error code offset message s =
    let shown : DiagCode = elim code [
      | DiagCode.wrong_char_found ↦
          if get_or s.current.rest (offset - s.offset) 0 == 0
          then unexpected_input_end
          else wrong_char_found
      | other ↦ other
    ] in
    let entry : Diagnostic = record { code = shown; offset = offset; message = message } in
    if s.in_error
    then s
    else record s { hit_error = true; in_error = true; diagnostics = s.diagnostics ++ (entry ∷ []) }

-- `strchr(".+-", c) != nullptr`, which holds of the NUL as well.
abbrev allowed_char : ℕ → Bool
allowed_char c = c == b'.' || c == b'+' || c == b'-' || c == 0

abbrev valid_beside : Bool → ℕ → Bool
valid_beside dec c = isdigit c || (is_hex c && not dec)

-- The loop of `formatNumber` from `i` on: `textSize` and `initOffset` are u8. The result is `str`.
unfoldable pub format_loop : Bool → List ℕ → ℕ → ℕ → ℕ → ℕ → List ℕ → Lexer → List ℕ × Lexer
unfolding report_error
format_loop dec text size zero i init_offset str s = (str, s)
format_loop dec text size (suc n) i init_offset str s =
    let c = get_or text i 0 in
    let str' = if isalnum c || allowed_char c then str ++ (c ∷ []) else str in
    let bad =
      c == 39
      && (i == 0
          || i == size - 1
          || not (valid_beside dec (get_or text (i - 1) 0))
          || not (valid_beside dec (get_or text (i + 1) 0))) in
    let s' =
      if isalnum c || allowed_char c
      then s
      else if bad
      then report_error invalid_digit_sep init_offset empty s
      else s in
    format_loop dec text size n (i + 1) ((init_offset + 1) % 256) str' s'

-- `0b`, `0o` or `0x` at the start.
abbrev has_prefix : List ℕ → Bool
has_prefix text =
    get_or text 0 0 == b'0'
    && (get_or text 1 0 == b'b' || get_or text 1 0 == b'o' || get_or text 1 0 == b'x')

unfoldable pub format_number : Bool → List ℕ → Lexer → List ℕ × Lexer
unfolding format_loop
format_number dec text s =
    let size = length text % 256 in
    let init_offset = (s.offset + 2 ^ 64 - size) % 256 in
    let i = if has_prefix text then 2 else 0 in
    format_loop dec text size (size - i) i init_offset [] s

abbrev pub base_value : NumBase → ℕ
base_value base_dec = 10
base_value base_bin = 2
base_value base_oct = 8
base_value base_hex = 16

-- `reportError(NUMERIC_LIT_PARSE_FAIL, PREVIOUS_OFFSET)` unless the answer is a success.
unfoldable pub parse_result : ℕ × Bool → Lexer → ℕ × Lexer
unfolding report_error
parse_result (ret, ok) s =
    (ret, if ok then s else report_error numeric_lit_parse_fail (previous_offset s) empty s)

unfoldable pub int_value : Floats → List ℕ → Lexer → ℕ × Lexer
unfolding parse_result format_number
int_value floats text s =
    let (formatted, s') = format_number false text s in
    parse_result (floats.parse_int formatted (base_value s.base)) s'

unfoldable pub dec_value : Floats → List ℕ → Lexer → ℕ × Lexer
unfolding parse_result format_number
dec_value floats text s =
    let (formatted, s') = format_number true text s in
    parse_result (floats.parse_double formatted) s'

-- The switch of `makeToken`; the types that are no literals leave the value unset.
unfoldable pub token_value : Floats → TokenType → List ℕ → Lexer → Value × Lexer
unfolding int_value dec_value
token_value floats type_ text s = elim type_ [
  | TokenType.tok_num ↦ let (i, s') = int_value floats text s in (integer i, s')
  | TokenType.tok_num_dec ↦ let (d, s') = dec_value floats text s in (decimal d, s')
  | TokenType.tok_true ↦ (boolean true, s)
  | TokenType.tok_false ↦ (boolean false, s)
  | TokenType.tok_null ↦ (null_pointer, s)
  | _ ↦ (unset, s)
]

-- The text from `start` to `current`.
abbrev pub token_text : Lexer → List ℕ
token_text s = take (s.current.pos - s.start.pos) s.start.rest

-- `stream.emplace_back(type, text, value, offset - text.size())`.
unfoldable pub emplace : TokenType → List ℕ → Value × Lexer → Lexer
emplace type_ text (value, s) = record s {
  stream =
      s.stream
      ++ (record {
        type_ = type_;
        text = text;
        content = value;
        byte_offset = (s.offset + 2 ^ 64 - length text) % 2 ^ 64;
      }
          ∷ []);
}

unfoldable pub make_token : Floats → TokenType → Lexer → Lexer
unfolding token_value emplace
make_token floats type_ s =
    let text = token_text s in emplace type_ text (token_value floats type_ text s)

-- The length of the identifier is cut to a u8.
unfoldable pub identifier_type : Lexer → TokenType
identifier_type s =
    let size = (s.current.pos - s.start.pos) % 256 in
    if ltb size 2 then tok_identifier else keyword_type keywords (take size s.start.rest)
