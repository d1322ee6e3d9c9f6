-- ===== src/StringToken/Progress.antt =====
-- Every round of the loop of `parseStringToken` moves the iterator, so the loop ends.
use choice_lang.Prelude.{
  ℕ, zero, suc, ◌+◌, ◌-◌, ◌*◌, ◌%◌, ◌^◌, ◌≤◌, ◌<◌, ◌≡◌, refl, true, Option, none, some, List, [],
  ◌∷◌, length, ◌==◌, arith, inl, inr, Bool-cases, Option-cases, drop, get_or, length-drop,
}
use choice_lang.Escape.{
  Cursor, cursor, ErrorPair, Parsed, NumParseRules, parse_digits, parse_escape_string,
  finish_numeric, numeric_arguments, check_parse_args, parse_char_sequence, char_escape, rules_for,
  parse_numeric_sequence, HexScan, stopped, bad_digit, too_many, unicode_count, scan_hex,
  consume_unicode_sequence, finish_unicode, parse_unicode_sequence,
}
use choice_lang.StringToken.{
  StringState, parse_sequence, push_current, escape_step, string_step, string_loop, initial,
  parse_string_token,
}

-- `r` leaves no more characters than `cs`, and fewer by two if it succeeded.
pub record Moves (cs : List ℕ) (r : Parsed) : Type 0 where
  pub shrinks : length r.it.rest ≤ length cs
  pub takes : r.matched ≡ true → length r.it.rest + 2 ≤ length cs

parse_char_sequence-Moves :
    (str : List ℕ) (it : Cursor) (pair : ErrorPair)
    → Moves it.rest (parse_char_sequence str it pair)
unfolding parse_char_sequence
parse_char_sequence-Moves str it pair = elim (Option-cases (char_escape (get_or it.rest 1 0))) [
  | inl e ↦ rw e (ground arith)
  | inr (c, e) ↦ rw e (ground (arith, length-drop 2 it.rest))
]

parse_digits-shrinks :
    (rules : NumParseRules) (count replace p : ℕ) (cs : List ℕ)
    → length (parse_digits rules count replace p cs).1.rest ≤ length cs
unfolding parse_digits
parse_digits-shrinks rules count replace p [] = omega arith
parse_digits-shrinks rules count replace p (c ∷ cs) = ground (
  arith,
  parse_digits-shrinks rules (count + 1) ((replace * 2 ^ rules.shift + rules.convert c) % 2 ^ 32)
      (p + 1) cs,
)

numeric_arguments-shrinks :
    (rules : NumParseRules) (str : List ℕ) (it : Cursor) (pair : ErrorPair)
    → length (numeric_arguments rules str it pair).it.rest ≤ length it.rest
unfolding numeric_arguments check_parse_args parse_escape_string finish_numeric
numeric_arguments-shrinks rules str it pair =
    ground (arith, parse_digits-shrinks rules 0 0 it.pos it.rest)

parse_numeric_sequence-Moves :
    (str : List ℕ) (it : Cursor) (pair : ErrorPair)
    → Moves it.rest (parse_numeric_sequence str it pair)
unfolding parse_numeric_sequence
parse_numeric_sequence-Moves str it pair = elim (Option-cases (rules_for (get_or it.rest 1 0))) [
  | inl e ↦ rw e (ground arith)
  | inr (rules, e) ↦ rw e (
      ground (
        arith,
        length-drop 2 it.rest,
        numeric_arguments-shrinks rules str (cursor (it.pos + 2) (drop 2 it.rest)) pair,
      ))
]

consume-shrinks :
    (s : HexScan) (it : Cursor) (pair : ErrorPair)
    → length (unicode_count s it pair).1.rest ≤ length it.rest
unfolding unicode_count
consume-shrinks bad_digit it pair = omega arith
consume-shrinks too_many it pair = omega (arith, length-drop 6 it.rest)
consume-shrinks (stopped n) it pair = ground (arith, length-drop n it.rest)

finish_unicode-shrinks :
    (str : List ℕ) (n : Option ℕ) (it : Cursor) (pair : ErrorPair)
    → length (finish_unicode str (n, it, pair)).it.rest ≤ length it.rest
unfolding finish_unicode
finish_unicode-shrinks str none it pair = omega arith
finish_unicode-shrinks str (some n) it pair = ground (arith, length-drop (n + 1) it.rest)

parse_unicode_sequence-Moves :
    (str : List ℕ) (it : Cursor) (pair : ErrorPair)
    → Moves it.rest (parse_unicode_sequence str it pair)
unfolding parse_unicode_sequence consume_unicode_sequence
parse_unicode_sequence-Moves str it pair =
    let it' = cursor (it.pos + 3) (drop 3 it.rest) in
    let c = consume_unicode_sequence it' pair in
    let small = consume-shrinks (scan_hex 0 it'.rest) it' pair in
    ground (
      arith,
      length-drop 2 it.rest,
      length-drop 3 it.rest,
      small,
      finish_unicode-shrinks str c.0 c.1 c.2,
    )

parse_sequence-Moves :
    (str : List ℕ) (it : Cursor) (pair : ErrorPair) → Moves it.rest (parse_sequence str it pair)
unfolding parse_sequence
parse_sequence-Moves str it pair =
    let a = parse_char_sequence str it pair in
    let b = parse_numeric_sequence a.str a.it a.pair in
    ground (
      arith,
      parse_char_sequence-Moves str it pair,
      parse_numeric_sequence-Moves a.str a.it a.pair,
      parse_unicode_sequence-Moves b.str b.it b.pair,
    )

push_current-shrinks :
    (after : ℕ) (s : StringState) → length (push_current after s).it.rest ≡ length s.it.rest - 1
unfolding push_current
push_current-shrinks after s = length-drop 1 s.it.rest

escape_step-shrinks :
    (start after : ℕ) (s : StringState)
    → 1 < length s.it.rest
    → length (escape_step start after s).it.rest < length s.it.rest
unfolding escape_step push_current
escape_step-shrinks start after s h =
    let r = parse_sequence s.str s.it s.pair in
    ground (arith, parse_sequence-Moves s.str s.it s.pair, length-drop 1 r.it.rest)

-- A round of the loop uses up a character at least.
pub string_step-shrinks :
    (start after : ℕ) (s : StringState)
    → 0 < length s.it.rest
    → length (string_step start after s).it.rest < length s.it.rest
unfolding string_step
string_step-shrinks start after s h =
    ground (arith, escape_step-shrinks start after s, push_current-shrinks after s)

string_loop_total :
    (fuel start after : ℕ) (s : StringState)
    → length s.it.rest < fuel
    → (t : StringState) × (string_loop fuel start after s ≡ some t) × (length t.it.rest ≡ 0)
unfolding string_loop
string_loop_total zero start after s h = absurd (omega arith)
string_loop_total (suc fuel) start after s h = elim (Bool-cases (length s.it.rest == 0)) [
  | inl e ↦ (s, rw e, ground arith)
  | inr e ↦ rw e (
      string_loop_total fuel start after (string_step start after s)
        (ground (arith, string_step-shrinks start after s)))
]

-- The loop of `parseStringToken` ends on every token: the fuel is enough, and no character is left.
pub parse_string_token_total :
    (token : List ℕ) (start offset : ℕ)
    → (t : StringState) × (parse_string_token token start offset ≡ some t) × (length t.it.rest ≡ 0)
unfolding parse_string_token
parse_string_token_total token start offset = elim (Bool-cases (length token - offset == 0)) [
  | inl e ↦ rw e (initial (cursor 0 []), refl, refl)
  | inr e ↦ rw e (string_loop_total _ start _ _ (omega arith))
]
