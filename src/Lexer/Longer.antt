-- ===== src/Lexer/Longer.antt =====
-- src/lexer.cpp, `singleToken`: the characters that an operator cannot stand in front of.
use choice_lang.Prelude.{
  ℕ, Bool, false, not, ◌||◌, List, [], ◌∷◌, ◌==◌, get_or, same, if◌then◌else◌,
}
use choice_lang.Lexer.{ch_eof}

-- The characters that make an operator longer; `//` starts a comment.
abbrev pub longer : List ℕ → List ℕ
longer text =
    if same text (b'+' ∷ [])
    then b'+' ∷ b'=' ∷ []
    else if same text (b'-' ∷ [])
    then b'-' ∷ b'=' ∷ b'>' ∷ []
    else if same text (b'*' ∷ [])
    then b'*' ∷ b'=' ∷ []
    else if same text (b'/' ∷ [])
    then b'/' ∷ b'=' ∷ []
    else if same text (b':' ∷ []) || same text (b'.' ∷ [])
    then text
    else if same text (b'=' ∷ []) || same text (b'>' ∷ [])
    then b'=' ∷ b'>' ∷ []
    else if same text (b'<' ∷ []) || same text (b'&' ∷ []) || same text (b'|' ∷ [])
    then b'=' ∷ text
    else if same text (b'%' ∷ [])
        || same text (b'^' ∷ [])
        || same text (b'~' ∷ [])
        || same text (b'!' ∷ [])
        || same text (b'*' ∷ b'*' ∷ [])
        || same text (b'>' ∷ b'>' ∷ [])
        || same text (b'<' ∷ b'<' ∷ [])
    then b'=' ∷ []
    else []

abbrev pub is_one_of : ℕ → List ℕ → Bool
is_one_of c [] = false
is_one_of c (x ∷ xs) = c == x || is_one_of c xs

abbrev pub ends_operator : List ℕ → List ℕ → Bool
ends_operator text rest = not (is_one_of (get_or rest 0 ch_eof) (longer text))
