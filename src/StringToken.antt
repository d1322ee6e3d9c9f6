-- ===== src/StringToken.antt =====
-- src/compiler.cpp: `Compiler::parseStringToken`, which turns the text of a string token into the
-- bytes of a string and reports its first malformed escape sequence.
pub mod Swallowed
pub mod RoundTrip
pub mod Progress
use choice_lang.Prelude.{
  ℕ, zero, suc, ◌+◌, ◌-◌, ◌%◌, ◌^◌, Bool, true, false, not, ◌&&◌, ◌||◌, Option, none, some, List,
  [], ◌∷◌, ◌++◌, length, drop, take, get_or, ltb, leb, ◌==◌, if◌then◌else◌,
}
use choice_lang.Diagnostics.{DiagCode, Message, empty, is_nonzero}
use choice_lang.Escape.{
  Cursor, cursor, ErrorPair, Parsed, parse_char_sequence, parse_numeric_sequence,
  parse_unicode_sequence,
}

-- The arguments of `reportPartError`, the offset from the start of the token.
pub record Report : Type 0 where
  pub code : DiagCode
  pub offset : ℕ
  pub length : ℕ
  pub message : Message

-- The local variables of the loop. `report` is set where `reportedError` is true.
pub record StringState : Type 0 where
  pub str : List ℕ
  pub it : Cursor
  pub pair : ErrorPair
  pub report : Option Report

-- A difference of positions as a u64.
abbrev pub sub_u64 : ℕ → ℕ → ℕ
sub_u64 a b = (a + 2 ^ 64 - b) % 2 ^ 64

-- The macro REPORT with the arguments that each code has.
unfoldable pub report_for : ℕ → ℕ → Cursor → ErrorPair → Report
report_for start current it pair = elim pair.code [
  | DiagCode.hit_octal_char_max ↦ record {
    code = pair.code;
    offset = start + sub_u64 it.pos 3;
    length = 3;
    message = pair.message;
  }
  | DiagCode.invalid_utf_codepoint ↦ record {
    code = pair.code;
    offset = start + (current + 3);
    length = sub_u64 it.pos (current + 3 + 1);
    message = pair.message;
  }
  | _ ↦ record { code = pair.code; offset = start + it.pos; length = 1; message = pair.message }
]

abbrev first_report : Bool → Option Report → Report → Option Report
first_report _ (some r) new = some r
first_report true none new = some new
first_report false none new = none

-- The three parsers in turn, each on what the one before left, up to the first that succeeds.
unfoldable pub parse_sequence : List ℕ → Cursor → ErrorPair → Parsed
parse_sequence str it pair =
    let a = parse_char_sequence str it pair in
    if a.matched
    then a
    else let b = parse_numeric_sequence a.str a.it a.pair in
      if b.matched then b else parse_unicode_sequence b.str b.it b.pair

-- `str.push_back(*it); it++;`, where `after` is the character at `end`.
unfoldable pub push_current : ℕ → StringState → StringState
push_current after s = record s {
  str = s.str ++ (get_or s.it.rest 0 after ∷ []);
  it = cursor (s.it.pos + 1) (drop 1 s.it.rest);
}

-- The loop's body behind a backslash that is not the last character.
unfoldable pub escape_step : ℕ → ℕ → StringState → StringState
escape_step start after s =
    let r = parse_sequence s.str s.it s.pair in
    if r.matched
    then record s { str = r.str; it = r.it; pair = r.pair }
    else push_current after (record {
      str = r.str;
      it = r.it;
      pair = r.pair;
      report =
          first_report (is_nonzero r.pair.code) s.report (report_for start s.it.pos r.it r.pair);
    })

unfoldable pub string_step : ℕ → ℕ → StringState → StringState
string_step start after s =
    if get_or s.it.rest 0 after == 92 && ltb 1 (length s.it.rest)
    then escape_step start after s
    else push_current after s

-- `while (it < end)`, on fuel.
unfoldable pub string_loop : ℕ → ℕ → ℕ → StringState → Option StringState
string_loop zero start after s = none
string_loop (suc fuel) start after s =
    let next = string_loop fuel start after (string_step start after s) in
    if length s.it.rest == 0 then some s else next

-- `if (it[0] == '\n') it++;`
unfoldable pub skip_first : List ℕ → Cursor
skip_first [] = cursor 0 []
skip_first (c ∷ cs) = if c == 10 then cursor 1 cs else cursor 0 (c ∷ cs)

-- `if (end[-1] == '\n') end--;`: the characters that remain, and the one at `end`.
unfoldable pub skip_last : List ℕ → ℕ → List ℕ × ℕ
skip_last [] after = ([], after)
skip_last (c ∷ []) after = if c == 10 then ([], c) else (c ∷ [], after)
skip_last (c ∷ d ∷ cs) after = let (rest, end) = skip_last (d ∷ cs) after in (c ∷ rest, end)

abbrev pub initial : Cursor → StringState
initial it = record {
  str = [];
  it = it;
  pair = record { code = DiagCode.unterminated_comment; message = empty };
  report = none;
}

-- The text is `token.text.substr(start, token.text.size() - offset)`. Each round moves `it`, so a
-- fuel above the number of characters is enough.
unfoldable pub parse_string_token : List ℕ → ℕ → ℕ → Option StringState
parse_string_token token start offset =
    let size = length token - offset in
    let text = take size (drop start token) in
    let first = skip_first text in
    let (rest, after) = skip_last first.rest (get_or token (start + size) 0) in
    if size == 0
    then some (initial (cursor 0 []))
    else string_loop (suc (length rest)) start after (initial (cursor first.pos rest))
