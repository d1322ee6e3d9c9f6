-- ===== src/Lexer/Tokenize.antt =====
-- `tokenize` ends on every code, and its tokens stand in the code in their order.
use choice_lang.Prelude.{
  ℕ, zero, suc, ◌+◌, ◌^◌, ◌<◌, ◌≡◌, refl, Bool, true, false, not, ◌⊎◌, inl, inr, Option, none, some,
  List, [], ◌∷◌, ◌++◌, length, arith, Bool-cases,
}
use choice_lang.Branch.{if◌then◌else◌}
use choice_lang.Token.{TokenType, Token, tok_eof, unset}
use choice_lang.Lexer.{Lexer, Floats, hit_end, move}
use choice_lang.Lexer.Scan.{while_, then_, check_raw_string, reset_start}
use choice_lang.Lexer.Single.{
  or_else, or_try, mark, punctuation, switch, single_token, token_loop, set_up, finish, tokenize,
  eof_token, map_finish,
}
use choice_lang.Lexer.Invariant.{
  Inv, Inv-open, Inv-lower, Keeps, Keeps-Inv, move-Inv, move-past, make_token-Inv, Tiles, Tiles-nil,
  Tiles-weaken,
}
use choice_lang.Lexer.Scanned.{
  InvSome, nothing, found, check_hyper_comment-Inv, comment-Inv, check_numeric_literal-Inv,
  plain_token-Inv, operator-Inv,
}
use choice_lang.Lexer.Nested.{
  Ends, ends, Ends-if, left, reset_start-Inv, string_token-Ends, multi_line_string_token-Ends,
}

-- Where there is a result, it ends.
data EndsSome (code : List ℕ) (p : ℕ) : Option (Option Lexer) → Type 0 where
  nothing_tried : EndsSome code p none
  tried : {o : Option Lexer} → Ends code p o → EndsSome code p (some o)

EndsSome-if :
    {code : List ℕ} {p : ℕ} {s t : Option (Option Lexer)} (b : Bool)
    → EndsSome code p s
    → EndsSome code p t
    → EndsSome code p (if b then s else t)
unfolding if◌then◌else◌
EndsSome-if true i j = i
EndsSome-if false i j = j

or_else-Ends :
    {code : List ℕ} {p : ℕ} {s t : Option Lexer}
    → InvSome code p false s
    → Ends code p t
    → Ends code p (or_else s t)
or_else-Ends nothing j = j
or_else-Ends (found i) j = ends i

or_try-Ends :
    {code : List ℕ} {p : ℕ} {s : Option (Option Lexer)} {t : Option Lexer}
    → EndsSome code p s
    → Ends code p t
    → Ends code p (or_try s t)
or_try-Ends nothing_tried j = j
or_try-Ends (tried i) j = i

-- The loop is done at the end of the code.
data Finished (code : List ℕ) : Option Lexer → Type 0 where
  finished : {s : Lexer} → Inv code 0 false s → hit_end s ≡ true → Finished code (some s)

after_token :
    {code : List ℕ} {q : ℕ} {o : Option Lexer} (f : Lexer → Option Lexer)
    → Ends code q o
    → ((t : Lexer) → Inv code q false t → Finished code (f t))
    → Finished code (then_ o f)
after_token f (ends {s} i) h = h s i

while_-Finished :
    {code : List ℕ} (s : Lexer) (f : Lexer → Option Lexer)
    → Inv code 0 false s
    → (hit_end s ≡ false → Finished code (f s))
    → Finished code (while_ (not (hit_end s)) s f)
while_-Finished s f i h = elim (Bool-cases (hit_end s)) [
  | inl e ↦ rw e (finished i e)
  | inr e ↦ rw e (h e)
]

module _ {code : List ℕ} (short : length code < 2 ^ 64) (floats : Floats) where
  mark-Inv :
      {p : ℕ} (type_ : Option TokenType) {s : Lexer}
      → Inv code p true s
      → InvSome code p false (mark floats type_ s)
  mark-Inv none i = nothing
  mark-Inv (some type_) i = found (make_token-Inv short floats type_ i)

  module _ (token : Lexer → Option Lexer) (p : ℕ)
      (serves : (s : Lexer)
        → Inv code p false s
        → hit_end s ≡ false
        → Ends code (suc s.current.pos) (token s)) where
    check_raw_string-Ends :
        (c : ℕ) (s : Lexer)
        → Inv code p true s
        → EndsSome code p (check_raw_string floats token c s)
    unfolding check_raw_string
    check_raw_string-Ends c s i =
        EndsSome-if _
          (tried (string_token-Ends short floats token p serves true (move s) (move-Inv short i)))
          (EndsSome-if _
            (tried (
              multi_line_string_token-Ends short floats token p serves true (move s)
                (move-Inv short i)))
            nothing_tried)

    switch-Ends : (c : ℕ) (s : Lexer) → Inv code p true s → Ends code p (switch floats token c s)
    unfolding switch
    switch-Ends c s i = or_else-Ends (mark-Inv (punctuation c) i) (
        or_else-Ends (operator-Inv short p floats c i) (
          Ends-if _ (string_token-Ends short floats token p serves false s i) (
            Ends-if _ (multi_line_string_token-Ends short floats token p serves false s i) (
              Ends-if _ (ends (Inv-open short true i)) (
                Ends-if _
                  (or_else-Ends (check_hyper_comment-Inv short p i) (ends (comment-Inv short p i)))
                  (or_try-Ends (check_raw_string-Ends c s i) (
                    or_else-Ends (check_numeric_literal-Inv short p floats c i)
                      (ends (plain_token-Inv short p floats c i)))))))))

  -- A single token moves on, on fuel above the characters that are left.
  single_token-Ends :
      (fuel : ℕ) (p : ℕ) (s : Lexer)
      → Inv code p false s
      → hit_end s ≡ false
      → length code < s.current.pos + fuel
      → Ends code (suc s.current.pos) (single_token floats fuel s)
  unfolding single_token
  single_token-Ends zero p s i h enough = absurd (omega (arith, i.within))
  single_token-Ends (suc fuel) p s i h enough =
      switch-Ends (single_token floats fuel) (suc s.current.pos)
        (λ t j more. single_token-Ends fuel (suc s.current.pos) t j more (omega (arith, j.low))) _
        (move (reset_start s)) (move-past short h (reset_start-Inv short i))

  token_loop-Finished :
      (fuel depth : ℕ) (s : Lexer)
      → Inv code 0 false s
      → length code < s.current.pos + fuel
      → length code < depth
      → Finished code (token_loop floats fuel depth s)
  unfolding token_loop
  token_loop-Finished zero depth s i enough deep = absurd (omega (arith, i.within))
  token_loop-Finished (suc fuel) depth s i enough deep = while_-Finished s _ i (λ more.
      let k : Keeps s (record s { in_error = false }) = record {
        same_start = refl;
        same_current = refl;
        same_offset = refl;
        same_stream = refl;
      } in
      after_token _ (single_token-Ends depth 0 _ (Keeps-Inv short k i) more (omega arith)) (λ t j.
        token_loop-Finished fuel depth t (Inv-lower (omega arith) j) (omega (arith, j.low)) deep))

-- The token that ends the stream.
abbrev pub end_of_file : List ℕ → Token
end_of_file code = record {
  type_ = tok_eof;
  text = 32 ∷ [];
  content = unset;
  byte_offset = length code;
}

set_up-Inv : (code : List ℕ) (s : Lexer) → Inv code 0 false (set_up code s)
unfolding set_up
set_up-Inv code s = record {
  here = refl;
  low = omega arith;
  within = omega arith;
  place = refl;
  begin = refl;
  before = omega arith;
  tiles = Tiles-nil code;
}

-- How a run ends: an error leaves no tokens; without one, the tokens stand in the code, and the last
-- stands behind it.
finish-result :
    (code : List ℕ) (s : Lexer)
    → Inv code 0 false s
    → hit_end s ≡ true
    → (((finish s).hit_error ≡ true) × ((finish s).stream ≡ []))
      ⊎ (((finish s).hit_error ≡ false)
          × (ts : List Token) × ((finish s).stream ≡ ts ++ (end_of_file code ∷ []))
          × Tiles code 0 (length code) ts)
unfolding finish if◌then◌else◌
finish-result code s i e = elim (Bool-cases s.hit_error) [
  | inl h ↦ rw h (inl (refl, refl))
  | inr h ↦
      let at_end : s.current.pos ≡ length code = ground (arith, left i) in
      let last : s.stream ++ (eof_token s ∷ []) ≡ s.stream ++ (end_of_file code ∷ []) =
        rw (i.place, at_end) refl in
      let tiles = Tiles-weaken code 0 s.current.pos (length code) s.stream i.within i.tiles in
      rw h (inr (refl, s.stream, last, tiles))
]

map-Finished :
    {code : List ℕ} {o : Option Lexer}
    → Finished code o
    → (t : Lexer) × (map_finish o ≡ some t)
      × (((t.hit_error ≡ true) × (t.stream ≡ []))
          ⊎ ((t.hit_error ≡ false)
              × (ts : List Token) × (t.stream ≡ ts ++ (end_of_file code ∷ []))
              × Tiles code 0 (length code) ts))
map-Finished {code} (finished {s} i e) = (finish s, refl, finish-result code s i e)

-- On a code of fewer than 2^64 characters `tokenize` ends, whatever an earlier run left. Either it
-- saw an error and the stream is empty; or the stream is a list of tokens and the token of the end,
-- which stands behind the code. The tokens do not overlap and stand in the order of the code, each
-- with the text of the code at its offset.
pub tokenize-Tiles :
    (floats : Floats) (code : List ℕ) (s : Lexer)
    → length code < 2 ^ 64
    → (t : Lexer) × (tokenize floats code s ≡ some t)
      × (((t.hit_error ≡ true) × (t.stream ≡ []))
          ⊎ ((t.hit_error ≡ false)
              × (ts : List Token) × (t.stream ≡ ts ++ (end_of_file code ∷ []))
              × Tiles code 0 (length code) ts))
unfolding tokenize
tokenize-Tiles floats code s short = map-Finished (
    token_loop-Finished short floats (suc (length code)) (suc (length code)) (set_up code s)
      (set_up-Inv code s) (omega arith) (omega arith))
