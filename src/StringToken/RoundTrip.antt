-- ===== src/StringToken/RoundTrip.antt =====
-- A string literal that quotes the special characters stands for the string that it was made from.
use choice_lang.Prelude.{
  ℕ, zero, suc, ◌+◌, ◌-◌, ◌<◌, ◌≡◌, refl, ◌∙◌, Option, none, some, List, [], ◌∷◌, ◌++◌, length, All,
  ◌==◌, if◌then◌else◌, arith, get_or, ◌≢◌, length-append, append_assoc, append-nil, take-append,
}
use choice_lang.Escape.{cursor, ErrorPair, parse_char_sequence, char_escape}
use choice_lang.StringToken.{
  StringState, parse_sequence, push_current, escape_step, string_step, string_loop, skip_first,
  skip_last, initial, parse_string_token,
}

-- The letter behind the backslash, for a character that needs one.
unfoldable pub escape_letter : ℕ → Option ℕ
escape_letter c =
    if c == 10
    then some b'n'
    else if c == 9
    then some b't'
    else if c == 13
    then some b'r'
    else if c == 92
    then some 92
    else if c == 34
    then some 34
    else if c == 96
    then some 96
    else if c == 37
    then some 37
    else none

abbrev pub quote_char : ℕ → Option ℕ → List ℕ
quote_char c none = c ∷ []
quote_char c (some l) = 92 ∷ l ∷ []

unfoldable pub quote : List ℕ → List ℕ
quote [] = []
quote (c ∷ cs) = quote_char c (escape_letter c) ++ quote cs

abbrev state : List ℕ → ℕ → List ℕ → ErrorPair → StringState
state s p cs pair = record { str = s; it = cursor p cs; pair = pair; report = none }

step_plain :
    (start after c p : ℕ) (str cs : List ℕ) (pair : ErrorPair)
    → escape_letter c ≡ none
    → string_step start after (state str p (c ∷ cs) pair) ≡ state (str ++ (c ∷ [])) (p + 1) cs pair
unfolding string_step push_current escape_letter
step_plain start after c p str cs pair h = ground arith

char_escape-letter : (c l : ℕ) → escape_letter c ≡ some l → char_escape l ≡ some c
unfolding escape_letter char_escape
char_escape-letter c l h = ground arith

step_quoted :
    (start after c l p : ℕ) (str cs : List ℕ) (pair : ErrorPair)
    → escape_letter c ≡ some l
    → string_step start after (state str p (92 ∷ l ∷ cs) pair)
      ≡ state (str ++ (c ∷ [])) (p + 2) cs pair
unfolding string_step escape_step parse_sequence parse_char_sequence
step_quoted start after c l p str cs pair h = ground (arith, char_escape-letter c l h)

-- One round of the loop, where characters are left.
pub string_loop_step :
    (fuel start after : ℕ) (s : StringState)
    → 0 < length s.it.rest
    → string_loop (suc fuel) start after s
      ≡ string_loop fuel start after (string_step start after s)
unfolding string_loop
string_loop_step fuel start after s h = ground arith

pub string_loop_end :
    (fuel start after : ℕ) (s : StringState)
    → length s.it.rest ≡ 0
    → string_loop (suc fuel) start after s ≡ some s
unfolding string_loop
string_loop_end fuel start after s h = ground arith

loop-quote_char :
    (o : Option ℕ) (c : ℕ) (s : List ℕ) (fuel start after p : ℕ) (str : List ℕ) (pair : ErrorPair)
    → escape_letter c ≡ o
    → ((fuel p : ℕ) (str : List ℕ)
        → length (quote s) < fuel
        → string_loop fuel start after (state str p (quote s) pair)
          ≡ some (state (str ++ s) (p + length (quote s)) [] pair))
    → length (quote_char c o ++ quote s) < fuel
    → string_loop fuel start after (state str p (quote_char c o ++ quote s) pair)
      ≡ some (state (str ++ (c ∷ s)) (p + length (quote_char c o ++ quote s)) [] pair)
loop-quote_char o c s zero start after p str pair e ih h = absurd (omega arith)
loop-quote_char none c s (suc fuel) start after p str pair e ih h =
    string_loop_step fuel start after (state str p (c ∷ quote s) pair) (omega arith)
    ∙ rw
        (
          step_plain start after c p str (quote s) pair e,
          ih fuel (p + 1) (str ++ (c ∷ [])) (omega arith),
          append_assoc,
        )
        (ground arith)
loop-quote_char (some l) c s (suc fuel) start after p str pair e ih h =
    string_loop_step fuel start after (state str p (92 ∷ l ∷ quote s) pair) (omega arith)
    ∙ rw
        (
          step_quoted start after c l p str (quote s) pair e,
          ih fuel (p + 2) (str ++ (c ∷ [])) (omega arith),
          append_assoc,
        )
        (ground arith)

loop-quote :
    (s : List ℕ) (fuel start after p : ℕ) (str : List ℕ) (pair : ErrorPair)
    → length (quote s) < fuel
    → string_loop fuel start after (state str p (quote s) pair)
      ≡ some (state (str ++ s) (p + length (quote s)) [] pair)
unfolding quote
loop-quote [] zero start after p str pair h = absurd (omega arith)
loop-quote [] (suc fuel) start after p str pair h =
    string_loop_end fuel start after (state str p [] pair) refl ∙ rw append-nil (ground arith)
loop-quote (c ∷ s) fuel start after p str pair h =
    loop-quote_char (escape_letter c) c s fuel start after p str pair refl
      (λ f q t. loop-quote s f start after q t pair) h

abbrev pub NoNewline : List ℕ → Type 0
NoNewline = All (λ c. c ≢ 10)

pub NoNewline-append : (xs ys : List ℕ) → NoNewline xs → NoNewline ys → NoNewline (xs ++ ys)
NoNewline-append [] ys h k = k
NoNewline-append (x ∷ xs) ys (h, hs) k = (h, NoNewline-append xs ys hs k)

quote_char-NoNewline : (c : ℕ) → NoNewline (quote_char c (escape_letter c))
unfolding escape_letter
quote_char-NoNewline c = ground arith

quote-NoNewline : (s : List ℕ) → NoNewline (quote s)
unfolding quote
quote-NoNewline [] = tt
quote-NoNewline (c ∷ s) = NoNewline-append _ (quote s) (quote_char-NoNewline c) (quote-NoNewline s)

pub skip_first-NoNewline : (cs : List ℕ) → NoNewline cs → skip_first cs ≡ cursor 0 cs
unfolding skip_first
skip_first-NoNewline [] h = refl
skip_first-NoNewline (c ∷ cs) (h, hs) = ground arith

pub skip_last-NoNewline :
    (cs : List ℕ) (after : ℕ) → NoNewline cs → skip_last cs after ≡ (cs, after)
unfolding skip_last
skip_last-NoNewline [] after h = refl
skip_last-NoNewline (c ∷ []) after (h, hs) = ground arith
skip_last-NoNewline (c ∷ d ∷ cs) after (h, hs) = rw (skip_last-NoNewline (d ∷ cs) after hs)

-- A token between quotation marks with no newline at its ends: the loop runs on what is between.
pub parse_string_token-quotes :
    (q : List ℕ)
    → NoNewline q
    → 0 < length q
    → parse_string_token (34 ∷ (q ++ (34 ∷ []))) 1 2
      ≡ string_loop
          (suc (length q))
          1
          (get_or (34 ∷ (q ++ (34 ∷ []))) (1 + length q) 0)
          (initial (cursor 0 q))
unfolding parse_string_token
parse_string_token-quotes q h n =
    let size : length (34 ∷ (q ++ (34 ∷ []))) - 2 ≡ length q =
      omega (arith, length-append q (34 ∷ [])) in
    rw (size, take-append q (34 ∷ []), skip_first-NoNewline q h, skip_last-NoNewline q _ h)
      (ground arith)

quote_char-pos : (o : Option ℕ) (c : ℕ) (cs : List ℕ) → 0 < length (quote_char c o ++ cs)
quote_char-pos none c cs = omega arith
quote_char-pos (some l) c cs = omega arith

quote-pos : (c : ℕ) (s : List ℕ) → 0 < length (quote (c ∷ s))
unfolding quote
quote-pos c s = quote_char-pos (escape_letter c) c (quote s)

-- The literal that quotes each special character of a string parses back to that string: nothing is
-- reported, and the whole text is read.
pub parse_string_token-quote :
    (s : List ℕ)
    → parse_string_token (34 ∷ (quote s ++ (34 ∷ []))) 1 2
      ≡ some (record (initial (cursor (length (quote s)) [])) { str = s })
parse_string_token-quote [] = unfold parse_string_token quote in refl
parse_string_token-quote (c ∷ s) =
    parse_string_token-quotes (quote (c ∷ s)) (quote-NoNewline (c ∷ s)) (quote-pos c s)
    ∙ loop-quote (c ∷ s) _ 1 _ 0 [] _ (omega arith)
    ∙ ground arith
