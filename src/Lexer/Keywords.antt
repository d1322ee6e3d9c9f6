-- ===== src/Lexer/Keywords.antt =====
-- `identifierType`: the keyword that an identifier is looked up as. Its length is cut to eight bits.
use choice_lang.Prelude.{
  ℕ, ◌+◌, ◌-◌, ◌%◌, ◌≤◌, ◌<◌, ◌≡◌, refl, sym, Bool, true, false, ◌&&◌, List, [], ◌∷◌, ◌++◌, length,
  ltb, arith, same, take-append, and-true, Bool-cases, inl, inr,
}
use choice_lang.Token.{TokenType, tok_identifier, keywords, keyword_type}
use choice_lang.Lexer.{Lexer, identifier_type, token_text}
use choice_lang.Lexer.Invariant.{length-take}

-- Every word of the table has two characters at least.
long_words : List (List ℕ × TokenType) → Bool
long_words [] = true
long_words ((word, type_) ∷ table) = ltb 1 (length word) && long_words table

long-same :
    (word text : List ℕ) → ltb 1 (length word) ≡ true → length text < 2 → same word text ≡ false
long-same [] text h lt = absurd (ground arith)
long-same (w ∷ []) text h lt = absurd (ground arith)
long-same (w ∷ x ∷ ws) [] h lt = refl
long-same (w ∷ x ∷ ws) (c ∷ []) h lt = ground arith
long-same (w ∷ x ∷ ws) (c ∷ d ∷ cs) h lt = absurd (omega arith)

long_words-keyword_type :
    (table : List (List ℕ × TokenType)) (text : List ℕ)
    → long_words table ≡ true
    → length text < 2
    → keyword_type table text ≡ tok_identifier
unfolding keyword_type long_words
long_words-keyword_type [] text h lt = refl
long_words-keyword_type ((word, type_) ∷ table) text h lt =
    let (long, more) = and-true (ltb 1 (length word)) (long_words table) h in
    rw (long-same word text long lt) (long_words-keyword_type table text more lt)

-- No keyword has fewer than two characters.
no_keyword : (text : List ℕ) → length text < 2 → keyword_type keywords text ≡ tok_identifier
unfolding keywords long_words
no_keyword text lt = long_words-keyword_type keywords text refl lt

-- An identifier of fewer than 256 characters is looked up in the table of keywords as it stands; one
-- of a single character is no keyword. `start` and `current` are in the same text.
pub identifier_type-keyword_type :
    (s : Lexer)
    → s.current.pos - s.start.pos ≤ length s.start.rest
    → s.current.pos - s.start.pos < 256
    → identifier_type s ≡ keyword_type keywords (token_text s)
unfolding identifier_type
identifier_type-keyword_type s inside short =
    let size = s.current.pos - s.start.pos in
    let all : size % 256 ≡ size = omega arith in
    let taken = length-take size s.start.rest inside in
    elim (Bool-cases (ltb size 2)) [
      | inl h ↦ rw (all, h) (sym (no_keyword (token_text s) (ground arith)))
      | inr h ↦ rw (all, h) refl
    ]

-- The type of a longer identifier depends on its first characters only, as many as the length modulo
-- 256: one that starts with a word of fewer than 256 characters and has 256 more is looked up as
-- that word.
pub identifier_type_wraps :
    (s : Lexer) (word more : List ℕ)
    → s.start.rest ≡ word ++ more
    → s.current.pos ≡ s.start.pos + length word + 256
    → length word < 256
    → identifier_type s ≡ keyword_type keywords word
unfolding identifier_type
identifier_type_wraps s word more text long short =
    let cut : (s.current.pos - s.start.pos) % 256 ≡ length word = omega arith in
    elim (Bool-cases (ltb (length word) 2)) [
      | inl h ↦ rw (cut, h) (sym (no_keyword word (ground arith)))
      | inr h ↦ rw (cut, h, text, take-append word more) refl
    ]
