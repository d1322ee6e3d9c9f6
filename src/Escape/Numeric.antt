-- ===== src/Escape/Numeric.antt =====
-- `parseNumericSequence` of src/escape_seq.cpp on every branch.
use choice_lang.Prelude.{
  ℕ, ◌+◌, ◌^◌, ◌≤◌, ◌<◌, ◌≡◌, refl, ◌∙◌, Bool, true, false, none, List, [], ◌∷◌, ◌++◌, length, All,
  ltb, if◌then◌else◌, arith, inl, inr, ◌⊎◌, ◌≢◌,
}
use choice_lang.Chars.{
  from_binary, from_octal, from_hex, from_hex-lt, from_octal-lt, from_binary-lt,
}
use choice_lang.Diagnostics.{wrong_char_found, hit_octal_char_max, missing_arguments}
use choice_lang.Escape.{
  NumParseRules, binary_rules, octal_rules, hex_rules, Cursor, cursor, ErrorPair, Parsed, parsed,
  first_fits, rules_for, set_code, set_error, parse_numeric_sequence, parse_escape_string,
  finish_numeric, numeric_arguments, check_parse_args,
}
use native.Mathlib.Nat.{pow-le-pow_right}
use choice_lang.Escape.Digits.{digits_value, digits_value-lt, parse_digits-append}

-- `rules` is one of the three that the switch chooses.
pub data IsRules : NumParseRules → Type 0 where
  binary : IsRules binary_rules
  octal : IsRules octal_rules
  hex : IsRules hex_rules

-- The value of the digits that follow the letter.
abbrev pub escape_value : NumParseRules → List ℕ → ℕ
escape_value rules ds = digits_value (2 ^ rules.shift) rules.convert 0 ds

-- `ds` are digits, at least one and as many as the limit allows, and the next character is none
-- or the limit is reached.
pub record IsDigitRun (rules : NumParseRules) (ds rest : List ℕ) : Type 0 where
  pub digits : All (λ c. rules.check c ≡ true) ds
  pub some_digit : 1 ≤ length ds
  pub within : length ds ≤ rules.max_digits
  pub stop : (first_fits rules.check rest ≡ false) ⊎ (length ds ≡ rules.max_digits)

All-map {ℓ} :
    {A : Type ℓ} {P Q : A → Type 0} (xs : List A) → ((x : A) → P x → Q x) → All P xs → All Q xs
All-map [] f h = tt
All-map (x ∷ xs) f (h, hs) = (f x h, All-map xs f hs)

pow-le : (b n m : ℕ) → 1 ≤ b → n ≤ m → b ^ n ≤ b ^ m
pow-le b n m h le = pow-le-pow_right h le

-- Eight bits hold a binary or hexadecimal escape, and nine an octal one.
escape_value-lt :
    {rules : NumParseRules} (ds : List ℕ)
    → IsRules rules
    → All (λ c. rules.check c ≡ true) ds
    → length ds ≤ rules.max_digits
    → (escape_value rules ds < 512) × (rules.escape ≢ b'o' → escape_value rules ds < 256)
escape_value-lt ds binary hd hl =
    let bound = digits_value-lt 2 from_binary (omega arith) 0 ds (All-map ds from_binary-lt hd) in
    let top : 2 ^ length ds ≤ 2 ^ 8 = pow-le 2 _ _ (omega arith) hl in
    (omega arith, λ _. omega arith)
escape_value-lt ds octal hd hl =
    let bound = digits_value-lt 8 from_octal (omega arith) 0 ds (All-map ds from_octal-lt hd) in
    let top : 8 ^ length ds ≤ 8 ^ 3 = pow-le 8 _ _ (omega arith) hl in
    (omega arith, λ n. absurd (n refl))
escape_value-lt ds hex hd hl =
    let bound = digits_value-lt 16 from_hex (omega arith) 0 ds (All-map ds from_hex-lt hd) in
    let top : 16 ^ length ds ≤ 16 ^ 2 = pow-le 16 _ _ (omega arith) hl in
    (omega arith, λ _. omega arith)

base_pos : {rules : NumParseRules} → IsRules rules → 1 ≤ 2 ^ rules.shift
base_pos binary = omega arith
base_pos octal = omega arith
base_pos hex = omega arith

run_fits :
    (check : ℕ → Bool) (ds rest : List ℕ)
    → 1 ≤ length ds
    → All (λ c. check c ≡ true) ds
    → first_fits check (ds ++ rest) ≡ true
run_fits check [] rest h hd = absurd (omega arith)
run_fits check (d ∷ ds) rest h (hc, hs) = hc

-- What a run of digits leaves, with the value not cut to a byte.
abbrev pub numeric_outcome : NumParseRules → List ℕ → List ℕ → Cursor → ErrorPair → Parsed
numeric_outcome rules ds str it pair =
    if ltb 255 (escape_value rules ds)
    then parsed false str it (set_code hit_octal_char_max pair)
    else parsed true (str ++ (escape_value rules ds ∷ [])) it pair

finish_numeric-outcome :
    (rules : NumParseRules) (ds str : List ℕ) (it : Cursor) (pair : ErrorPair)
    → (rules.escape ≢ b'o' → escape_value rules ds < 256)
    → finish_numeric rules str pair (escape_value rules ds, it)
      ≡ numeric_outcome rules ds str it pair
unfolding finish_numeric
finish_numeric-outcome rules ds str it pair h = ground arith

check_parse_args-run :
    (rules : NumParseRules) (ds rest : List ℕ) (p : ℕ) (pair : ErrorPair)
    → IsDigitRun rules ds rest
    → check_parse_args rules (cursor p (ds ++ rest)) pair ≡ none
unfolding check_parse_args
check_parse_args-run rules ds rest p pair run =
    rw (run_fits rules.check ds rest run.some_digit run.digits)

run_stop : {P : Type 0} {n max : ℕ} → P ⊎ (n ≡ max) → P ⊎ (0 + n ≡ max)
run_stop (inl h) = inl h
run_stop (inr e) = inr (omega arith)

numeric_arguments-digits :
    {rules : NumParseRules} (ds rest str : List ℕ) (p : ℕ) (pair : ErrorPair)
    → IsRules rules
    → IsDigitRun rules ds rest
    → numeric_arguments rules str (cursor p (ds ++ rest)) pair
      ≡ numeric_outcome rules ds str (cursor (p + length ds) rest) pair
unfolding numeric_arguments parse_escape_string
numeric_arguments-digits {rules} ds rest str p pair r run =
    let (small, byte) = escape_value-lt ds r run.digits run.within in
    let read =
      parse_digits-append rules 0 0 p ds rest run.digits (omega arith) (run_stop run.stop)
        (base_pos r) (omega arith) in
    rw (check_parse_args-run rules ds rest p pair run, read)
      (finish_numeric-outcome rules ds str (cursor (p + length ds) rest) pair byte)

-- The letter of the sequence chooses its rules.
switch_rules :
    {rules : NumParseRules} (b p : ℕ) (cs str : List ℕ) (pair : ErrorPair)
    → IsRules rules
    → parse_numeric_sequence str (cursor p (b ∷ rules.escape ∷ cs)) pair
      ≡ numeric_arguments rules str (cursor (p + 2) cs) pair
unfolding parse_numeric_sequence rules_for
switch_rules b p cs str pair binary = ground arith
switch_rules b p cs str pair octal = ground arith
switch_rules b p cs str pair hex = ground arith

-- A `\b`, `\o` or `\x` sequence with a run of its digits (at most 8, 3 and 2) appends the byte that
-- the digits stand for and moves behind them; a value above 255 reports an octal error, appends
-- nothing, and moves as far.
pub parse_numeric_sequence-digits :
    {rules : NumParseRules} (b p : ℕ) (ds rest str : List ℕ) (pair : ErrorPair)
    → IsRules rules
    → IsDigitRun rules ds rest
    → parse_numeric_sequence str (cursor p (b ∷ rules.escape ∷ (ds ++ rest))) pair
      ≡ numeric_outcome rules ds str (cursor (p + 2 + length ds) rest) pair
parse_numeric_sequence-digits b p ds rest str pair r run =
    switch_rules b p (ds ++ rest) str pair r
    ∙ numeric_arguments-digits ds rest str (p + 2) pair r run

-- With no digit behind the letter, the parser reports the missing arguments and stops behind the
-- letter, with the string unchanged.
pub parse_numeric_sequence_missing :
    {rules : NumParseRules} (b p : ℕ) (rest str : List ℕ) (pair : ErrorPair)
    → IsRules rules
    → first_fits rules.check rest ≡ false
    → parse_numeric_sequence str (cursor p (b ∷ rules.escape ∷ rest)) pair
      ≡ parsed false str
          (cursor (p + 2) rest)
          (set_error (missing_arguments rules.escape) (set_code wrong_char_found pair))
unfolding numeric_arguments check_parse_args
parse_numeric_sequence_missing b p rest str pair r h = switch_rules b p rest str pair r ∙ rw h
