-- ===== src/Tests/LexerTests.antt =====
-- Runs of src/lexer.cpp.
use choice_lang.Prelude.{
  ℕ, ◌+◌, ◌-◌, ◌*◌, ◌≡◌, refl, ◌⊎◌, true, false, some, List, [], ◌∷◌, ◌++◌, length, replicate,
  arith,
}
use choice_lang.Escape.{cursor}
use choice_lang.Token.{Token, tok_rshift_eq, keywords, keyword_type}
use choice_lang.Lexer.{base_dec, Lexer, Floats, identifier_type}
use choice_lang.Lexer.Single.{tokenize, single_token}
use choice_lang.Lexer.Invariant.{Tiles}
use choice_lang.Lexer.Tokenize.{end_of_file, tokenize-Tiles}
use choice_lang.Lexer.Operators.{at_position, with_token, is_rshift_eq, single_token-IsOperator}
use choice_lang.Lexer.Keywords.{identifier_type-keyword_type, identifier_type_wraps}

-- `from_chars` on decimal digits; doubles are not read.
read_digits : ℕ → List ℕ → ℕ
read_digits n [] = n
read_digits n (c ∷ cs) = read_digits (n * 10 + (c - b'0')) cs

abbrev decimal_floats : Floats
decimal_floats = record {
  parse_int = λ text base. (read_digits 0 text, true);
  parse_double = λ text. (0, false);
}

abbrev blank : Lexer
blank = record {
  start = cursor 0 [];
  current = cursor 0 [];
  offset = 0;
  base = base_dec;
  hit_error = false;
  in_error = false;
  stream = [];
  diagnostics = [];
  nesting_depth = 0;
}

-- `x >>= "a%(b)c"`
abbrev sample : List ℕ
sample =
    b'x' ∷ 32 ∷ b'>' ∷ b'>' ∷ b'=' ∷ 32 ∷ 34 ∷ b'a' ∷ b'%' ∷ b'(' ∷ b'b' ∷ b')' ∷ b'c' ∷ 34 ∷ []

tokenize-Tiles_example :
    (t : Lexer) × (tokenize decimal_floats sample blank ≡ some t)
    × (((t.hit_error ≡ true) × (t.stream ≡ []))
        ⊎ ((t.hit_error ≡ false)
            × (ts : List Token) × (t.stream ≡ ts ++ (end_of_file sample ∷ []))
            × Tiles sample 0 (length sample) ts))
tokenize-Tiles_example = tokenize-Tiles decimal_floats sample blank (omega arith)

single_token-IsOperator_example :
    single_token decimal_floats 1 (at_position blank 2 (b'>' ∷ b'>' ∷ b'=' ∷ 32 ∷ b'1' ∷ []))
    ≡ some (with_token blank 2 (b'>' ∷ b'>' ∷ b'=' ∷ []) (32 ∷ b'1' ∷ []) tok_rshift_eq)
single_token-IsOperator_example =
    single_token-IsOperator decimal_floats 0 blank 2 is_rshift_eq (32 ∷ b'1' ∷ []) refl
      (omega arith)

-- `and` of a longer text.
abbrev at_and : Lexer
at_and = record blank {
  start = cursor 4 (b'a' ∷ b'n' ∷ b'd' ∷ 32 ∷ b'y' ∷ []);
  current = cursor 7 (32 ∷ b'y' ∷ []);
}

identifier_type-keyword_type_example :
    identifier_type at_and ≡ keyword_type keywords (b'a' ∷ b'n' ∷ b'd' ∷ [])
identifier_type-keyword_type_example =
    identifier_type-keyword_type at_and (omega arith) (omega arith)

-- `if` with 256 letters behind it.
abbrev long_identifier : Lexer
long_identifier = record blank {
  start = cursor 0 (b'i' ∷ b'f' ∷ replicate 256 b'a');
  current = cursor 258 [];
}

identifier_type_wraps_example :
    identifier_type long_identifier ≡ keyword_type keywords (b'i' ∷ b'f' ∷ [])
identifier_type_wraps_example =
    identifier_type_wraps long_identifier (b'i' ∷ b'f' ∷ []) (replicate 256 b'a') refl refl
      (omega arith)
