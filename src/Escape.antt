-- ===== src/Escape.antt =====
-- src/escape_seq.cpp: the escape sequences of string literals. An iterator pair `it`, `end` is a
-- cursor: the position of `it` in the text and the characters from `it` up to `end`.
pub mod Utf8
pub mod Digits
pub mod Numeric
pub mod Unicode
use choice_lang.Prelude.{
  ℕ, zero, suc, ◌+◌, ◌-◌, ◌*◌, ◌/◌, ◌%◌, ◌^◌, bit_and, bit_or, Bool, true, false, not, ◌&&◌, ◌||◌,
  Option, none, some, List, [], ◌∷◌, ◌++◌, length, drop, get_or, ltb, leb, ◌==◌, if◌then◌else◌,
}
use choice_lang.Chars.{is_binary, is_octal, is_hex, from_binary, from_octal, from_hex}
use choice_lang.Diagnostics.{
  DiagCode, wrong_char_found, hit_octal_char_max, invalid_utf_codepoint, Message, empty,
  missing_arguments, invalid_hex_digit, too_many_digits, expect_hex_digits, expect_closing_brace,
  expect_opening_brace,
}

pub record Cursor : Type 0 where
  pub pos : ℕ
  pub rest : List ℕ

pub record ErrorPair : Type 0 where
  pub code : DiagCode
  pub message : Message

-- The result of a parser: its Boolean, and the arguments that it takes by reference.
pub record Parsed : Type 0 where
  pub matched : Bool
  pub str : List ℕ
  pub it : Cursor
  pub pair : ErrorPair

abbrev pub cursor : ℕ → List ℕ → Cursor
cursor p cs = record { pos = p; rest = cs }

abbrev pub parsed : Bool → List ℕ → Cursor → ErrorPair → Parsed
parsed b s c e = record { matched = b; str = s; it = c; pair = e }

-- `it += n`.
abbrev pub advance : ℕ → Cursor → Cursor
advance n c = cursor (c.pos + n) (drop n c.rest)

unfoldable pub set_code : DiagCode → ErrorPair → ErrorPair
set_code code p = record p { code = code }

abbrev keep_message : Message → Message → Message
keep_message empty new = new
keep_message old new = old

-- Only the first message is kept.
unfoldable pub set_error : Message → ErrorPair → ErrorPair
set_error msg p = record p { message = keep_message p.message msg }

-- `commonByteStart | (value & lastSixBits)`
abbrev pub continuation : ℕ → ℕ
continuation value = bit_or 0x80 (bit_and value 0x3f)

-- The loop that fills `buffer[i]` to `buffer[1]` from the back and shifts `value`.
unfoldable pub fill_buffer : ℕ → ℕ → List ℕ → ℕ × List ℕ
fill_buffer zero value buffer = (value, buffer)
fill_buffer (suc i) value buffer = fill_buffer i (value / 2 ^ 6) (continuation value ∷ buffer)

-- The loop that sets the `n` top bits of `start`, from bit `7 - i` down.
unfoldable pub start_bits : ℕ → ℕ → ℕ → ℕ
start_bits zero i start = start
start_bits (suc n) i start = start_bits n (i + 1) (bit_or start (2 ^ (7 - i)) % 256)

unfoldable pub multi_byte : ℕ → ℕ → List ℕ
unfolding fill_buffer start_bits
multi_byte n value =
    let (top, tail) = fill_buffer (n - 1) value [] in
    bit_or (start_bits n 0 0) (bit_and top 0xff) ∷ tail

unfoldable pub encode_utf8 : List ℕ → ℕ → List ℕ
encode_utf8 str value =
    if ltb 0xffff value
    then str ++ multi_byte 4 value
    else if ltb 0x7ff value
    then str ++ multi_byte 3 value
    else if ltb 0x7f value
    then str ++ multi_byte 2 value
    else str ++ (value ∷ [])

-- `result = (result << 4) + fromHex(it[i])` over the first `count` characters, in a u32.
unfoldable pub str_to_hex : ℕ → ℕ → List ℕ → ℕ
str_to_hex zero result cs = result
str_to_hex (suc n) result [] = result
str_to_hex (suc n) result (c ∷ cs) = str_to_hex n ((result * 2 ^ 4 + from_hex c) % 2 ^ 32) cs

-- The switch of `parseCharSequence`.
unfoldable pub char_escape : ℕ → Option ℕ
char_escape c =
    if c == b'n'
    then some 10
    else if c == b't'
    then some 9
    else if c == b'r'
    then some 13
    else if c == 92
    then some 92
    else if c == 34
    then some 34
    else if c == 96
    then some 96
    else if c == 37
    then some 37
    else none

abbrev char_result : Option ℕ → List ℕ → Cursor → ErrorPair → Parsed
char_result none str it pair = parsed false str it pair
char_result (some c) str it pair = parsed true (str ++ (c ∷ [])) (advance 2 it) pair

-- `it >= end - 1` leaves fewer than two characters.
unfoldable pub parse_char_sequence : List ℕ → Cursor → ErrorPair → Parsed
parse_char_sequence str it pair =
    if ltb (length it.rest) 2
    then parsed false str it pair
    else char_result (char_escape (get_or it.rest 1 0)) str it pair

pub record NumParseRules : Type 0 where
  pub escape : ℕ
  pub max_digits : ℕ
  pub shift : ℕ
  pub check : ℕ → Bool
  pub convert : ℕ → ℕ

abbrev pub binary_rules : NumParseRules
binary_rules = record {
  escape = b'b';
  max_digits = 8;
  shift = 1;
  check = is_binary;
  convert = from_binary;
}

abbrev pub octal_rules : NumParseRules
octal_rules = record {
  escape = b'o';
  max_digits = 3;
  shift = 3;
  check = is_octal;
  convert = from_octal;
}

abbrev pub hex_rules : NumParseRules
hex_rules = record { escape = b'x'; max_digits = 2; shift = 4; check = is_hex; convert = from_hex }

abbrev first_fits : (ℕ → Bool) → List ℕ → Bool
first_fits check [] = false
first_fits check (c ∷ _) = check c

-- `none` is success; otherwise the pair that an error leaves. `MISSING_ARG_ERROR` is 1.
unfoldable pub check_parse_args : NumParseRules → Cursor → ErrorPair → Option ErrorPair
check_parse_args rules it pair =
    if first_fits rules.check it.rest
    then none
    else some (set_error (missing_arguments rules.escape) (set_code wrong_char_found pair))

-- `replace` and `count` of the loop, over the characters from `it` on.
unfoldable pub parse_digits : NumParseRules → ℕ → ℕ → ℕ → List ℕ → ℕ × Cursor
parse_digits rules count replace p [] = (replace, cursor p [])
parse_digits rules count replace p (c ∷ cs) =
    let next =
      parse_digits rules (count + 1) ((replace * 2 ^ rules.shift + rules.convert c) % 2 ^ 32)
        (p + 1) cs in
    if rules.check c && ltb count rules.max_digits then next else (replace, cursor p (c ∷ cs))

unfoldable pub parse_escape_string : NumParseRules → Cursor → ℕ × Cursor
parse_escape_string rules it = parse_digits rules 0 0 it.pos it.rest

unfoldable pub rules_for : ℕ → Option NumParseRules
rules_for c =
    if c == b'b'
    then some binary_rules
    else if c == b'o'
    then some octal_rules
    else if c == b'x'
    then some hex_rules
    else none

-- The rest of `parseNumericSequence` once the digits are read.
unfoldable pub finish_numeric : NumParseRules → List ℕ → ErrorPair → ℕ × Cursor → Parsed
finish_numeric rules str pair (replace, it) =
    if rules.escape == b'o' && ltb 255 replace
    then parsed false str it (set_code hit_octal_char_max pair)
    else parsed true (str ++ (replace % 256 ∷ [])) it pair

abbrev pub after_check : NumParseRules → List ℕ → Cursor → ErrorPair → Option ErrorPair → Parsed
after_check rules str it pair (some e) = parsed false str it e
after_check rules str it pair none = finish_numeric rules str pair (parse_escape_string rules it)

unfoldable pub numeric_arguments : NumParseRules → List ℕ → Cursor → ErrorPair → Parsed
numeric_arguments rules str it pair = after_check rules str it pair (check_parse_args rules it pair)

abbrev numeric_result : Option NumParseRules → List ℕ → Cursor → ErrorPair → Parsed
numeric_result none str it pair = parsed false str it pair
numeric_result (some rules) str it pair = numeric_arguments rules str (advance 2 it) pair

unfoldable pub parse_numeric_sequence : List ℕ → Cursor → ErrorPair → Parsed
parse_numeric_sequence str it pair =
    if ltb (length it.rest) 2
    then parsed false str it pair
    else numeric_result (rules_for (get_or it.rest 1 0)) str it pair

-- How the loop of `consumeUnicodeSequence` ends.
pub data HexScan : Type 0 where
  stopped : ℕ → HexScan
  bad_digit too_many : HexScan

-- The list is what `it[count]` on leaves before `end`.
unfoldable pub scan_hex : ℕ → List ℕ → HexScan
scan_hex count [] = stopped count
scan_hex count (c ∷ cs) =
    let next = scan_hex (count + 1) cs in
    if not (is_hex c)
    then (if not (c == b'}') then bad_digit else stopped count)
    else if count == 6
    then too_many
    else next

abbrev first_is : ℕ → List ℕ → Bool
first_is c [] = false
first_is c (x ∷ _) = x == c

-- -1 is `none`.
unfoldable pub unicode_count : HexScan → Cursor → ErrorPair → Option ℕ × Cursor × ErrorPair
unicode_count bad_digit it pair =
    (none, it, set_error invalid_hex_digit (set_code wrong_char_found pair))
unicode_count too_many it pair =
    (none, advance 6 it, set_error too_many_digits (set_code wrong_char_found pair))
unicode_count (stopped count) it pair =
    if count == 0
    then (none, it, set_error expect_hex_digits (set_code wrong_char_found pair))
    else if not (first_is b'}' (drop count it.rest))
    then (none, advance count it, set_error expect_closing_brace (set_code wrong_char_found pair))
    else (some count, it, pair)

unfoldable pub consume_unicode_sequence : Cursor → ErrorPair → Option ℕ × Cursor × ErrorPair
consume_unicode_sequence it pair = unicode_count (scan_hex 0 it.rest) it pair

-- `value > fourByteMax` or a surrogate.
unfoldable pub invalid_codepoint : ℕ → Bool
invalid_codepoint value = ltb 0x10ffff value || leb 0xd800 value && leb value 0xdfff

unfoldable pub finish_unicode : List ℕ → Option ℕ × Cursor × ErrorPair → Parsed
finish_unicode str (none, it, pair) = parsed false str it pair
finish_unicode str (some count, it, pair) =
    let value = str_to_hex count 0 it.rest in
    let it' = advance (count + 1) it in
    if invalid_codepoint value
    then parsed false str it' (set_code invalid_utf_codepoint pair)
    else parsed true (encode_utf8 str value) it' pair

unfoldable pub parse_unicode_sequence : List ℕ → Cursor → ErrorPair → Parsed
parse_unicode_sequence str it pair =
    if ltb (length it.rest) 2 || not (get_or it.rest 1 0 == b'u')
    then parsed false str it pair
    else if not (first_is b'{' (drop 2 it.rest))
    then parsed false str (advance 2 it)
        (set_error expect_opening_brace (set_code wrong_char_found pair))
    else finish_unicode str (consume_unicode_sequence (advance 3 it) pair)
