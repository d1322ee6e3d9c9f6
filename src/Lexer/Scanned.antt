-- ===== src/Lexer/Scanned.antt =====
-- The scanners of one token that do not call each other keep the invariant of the lexer.
use choice_lang.Prelude.{
  ℕ, zero, suc, ◌^◌, ◌<◌, refl, Bool, true, false, not, ◌||◌, Option, none, some, List, length,
  ◌==◌,
}
use choice_lang.Branch.{if◌then◌else◌}
use choice_lang.Diagnostics.{DiagCode, Message}
use choice_lang.Chars.{isdigit}
use choice_lang.Token.{TokenType}
use choice_lang.Lexer.{
  NumBase, base_dec, Lexer, Floats, move, consume_chars, report_error, make_token, check_char,
}
use choice_lang.Lexer.Scan.{
  skip_loop, skip_while, exponent, num_token, numeric_token, based_literal, check_numeric_literal,
  digit_or_sep, identifier_token, hyper_loop, check_hyper_comment, comment,
}
use choice_lang.Lexer.Single.{conditional_token, consume_or, dots, operator, plain_token}
use choice_lang.Lexer.Invariant.{
  Inv, report_error-Keeps, Keeps-Inv, Inv-open, move-Inv, make_token-Inv,
}

pub Inv-if :
    {code : List ℕ} {p : ℕ} {fresh : Bool} {s t : Lexer} (b : Bool)
    → Inv code p fresh s
    → Inv code p fresh t
    → Inv code p fresh (if b then s else t)
unfolding if◌then◌else◌
Inv-if true i j = i
Inv-if false i j = j

-- Where there is a result, it has the invariant.
pub data InvSome (code : List ℕ) (p : ℕ) (fresh : Bool) : Option Lexer → Type 0 where
  nothing : InvSome code p fresh none
  found : {s : Lexer} → Inv code p fresh s → InvSome code p fresh (some s)

pub InvSome-if :
    {code : List ℕ} {p : ℕ} {fresh : Bool} {s t : Option Lexer} (b : Bool)
    → InvSome code p fresh s
    → InvSome code p fresh t
    → InvSome code p fresh (if b then s else t)
unfolding if◌then◌else◌
InvSome-if true i j = i
InvSome-if false i j = j

module _ {code : List ℕ} (short : length code < 2 ^ 64) (p : ℕ) where
  pub report-Inv :
      {fresh : Bool} (d : DiagCode) (o : ℕ) (m : Message) {s : Lexer}
      → Inv code p fresh s
      → Inv code p false (report_error d o m s)
  report-Inv {fresh} d o m {s} i =
      Inv-open short fresh (Keeps-Inv short (report_error-Keeps d o m s) i)

  skip_loop-Inv :
      (check : ℕ → Bool) (n : ℕ) {fresh : Bool} {s : Lexer}
      → Inv code p fresh s
      → Inv code p fresh (skip_loop check n s)
  unfolding skip_loop
  skip_loop-Inv check zero i = i
  skip_loop-Inv check (suc n) i = Inv-if _ (skip_loop-Inv check n (move-Inv short i)) i

  pub skip_while-Inv :
      (check : ℕ → Bool) {fresh : Bool} {s : Lexer}
      → Inv code p fresh s
      → Inv code p fresh (skip_while check s)
  unfolding skip_while
  skip_while-Inv check {fresh} {s} i = skip_loop-Inv check (length s.current.rest) i

  pub consume_chars-Inv :
      (n : ℕ) {fresh : Bool} {s : Lexer} → Inv code p fresh s → Inv code p fresh (consume_chars n s)
  unfolding consume_chars
  consume_chars-Inv zero i = i
  consume_chars-Inv (suc n) i = consume_chars-Inv n (move-Inv short i)

  hyper_loop-Inv :
      (n : ℕ) {fresh : Bool} {s : Lexer} → Inv code p fresh s → Inv code p fresh (hyper_loop n s)
  unfolding hyper_loop
  hyper_loop-Inv zero i = i
  hyper_loop-Inv (suc n) i = Inv-if _ (hyper_loop-Inv n (move-Inv short i)) i

  pub check_hyper_comment-Inv :
      {s : Lexer} → Inv code p true s → InvSome code p false (check_hyper_comment s)
  unfolding check_hyper_comment
  check_hyper_comment-Inv {s} i =
      let moved = move (move s) in
      let j = hyper_loop-Inv (length moved.current.rest) (move-Inv short (move-Inv short i)) in
      InvSome-if _
        (found (Inv-if _ (consume_chars-Inv 3 (Inv-open short true j)) (report-Inv _ _ _ j)))
        nothing

  pub comment-Inv : {s : Lexer} → Inv code p true s → Inv code p false (comment s)
  unfolding comment
  comment-Inv {s} i =
      let j = skip_while-Inv (λ c. not (c == b'#')) i in
      Inv-if _ (report-Inv _ _ _ j) (move-Inv short (Inv-open short true j))

  module _ (floats : Floats) where
    token-Inv :
        (type_ : TokenType) {s : Lexer}
        → Inv code p true s
        → Inv code p false (make_token floats type_ s)
    token-Inv type_ i = make_token-Inv short floats type_ i

    exponent-Inv :
        (type_ : TokenType) {s : Lexer}
        → Inv code p true s
        → Inv code p false (exponent floats type_ s)
    unfolding exponent
    exponent-Inv type_ {s} i =
        let sign = check_char b'-' (move s) || check_char b'+' (move s) in
        let j = Inv-if sign (move-Inv short (move-Inv short i)) (move-Inv short i) in
        Inv-if _
          (Inv-if _ (report-Inv _ _ _ j)
            (Inv-if _ (report-Inv _ _ _ j) (token-Inv _ (skip_while-Inv _ j))))
          (token-Inv type_ i)

    num_token-Inv : {s : Lexer} → Inv code p true s → Inv code p false (num_token floats s)
    unfolding num_token
    num_token-Inv i =
        let j = skip_while-Inv (digit_or_sep isdigit) i in
        let k = move-Inv short j in
        Inv-if _
          (Inv-if _ (token-Inv _ j)
            (Inv-if _ (report-Inv _ _ _ k) (exponent-Inv _ (skip_while-Inv _ k))))
          (exponent-Inv _ j)

    numeric_token-Inv :
        (check : ℕ → Bool) {s : Lexer}
        → Inv code p true s
        → Inv code p false (numeric_token floats check s)
    unfolding numeric_token
    numeric_token-Inv check i =
        let j = skip_while-Inv (digit_or_sep check) i in
        Inv-if _ (report-Inv _ _ _ i) (Inv-if _ (report-Inv _ _ _ j) (token-Inv _ j))

    set_base-Inv :
        (base : NumBase) {fresh : Bool} {s : Lexer}
        → Inv code p fresh s
        → Inv code p fresh (record s { base = base })
    set_base-Inv base i =
        Keeps-Inv short
          (record {
            same_start = refl;
            same_current = refl;
            same_offset = refl;
            same_stream = refl;
          })
          i

    based_literal-Inv :
        (base : NumBase) (check : ℕ → Bool) {s : Lexer}
        → Inv code p true s
        → Inv code p false (based_literal floats base check s)
    unfolding based_literal
    based_literal-Inv base check i =
        set_base-Inv base_dec (numeric_token-Inv check (set_base-Inv base (move-Inv short i)))

    pub check_numeric_literal-Inv :
        (c : ℕ) {s : Lexer}
        → Inv code p true s
        → InvSome code p false (check_numeric_literal floats c s)
    unfolding check_numeric_literal
    check_numeric_literal-Inv c i = InvSome-if _ nothing (
        InvSome-if _ (found (based_literal-Inv _ _ i)) (
          InvSome-if _ (found (based_literal-Inv _ _ i))
            (InvSome-if _ (found (based_literal-Inv _ _ i)) nothing)))

    identifier_token-Inv :
        {s : Lexer} → Inv code p true s → Inv code p false (identifier_token floats s)
    unfolding identifier_token
    identifier_token-Inv i = token-Inv _ (skip_while-Inv _ i)

    pub plain_token-Inv :
        (c : ℕ) {s : Lexer} → Inv code p true s → Inv code p false (plain_token floats c s)
    unfolding plain_token
    plain_token-Inv c i =
        Inv-if _ (num_token-Inv i) (Inv-if _ (identifier_token-Inv i) (report-Inv _ _ _ i))

    conditional-Inv :
        (c : ℕ) (two one : TokenType) {s : Lexer}
        → Inv code p true s
        → Inv code p false (conditional_token floats c two one s)
    unfolding conditional_token
    conditional-Inv c two one i = Inv-if _ (token-Inv two (move-Inv short i)) (token-Inv one i)

    consume_or-Inv :
        (c : ℕ) (f g : Lexer → Lexer) {s : Lexer}
        → Inv code p true s
        → ((t : Lexer) → Inv code p true t → Inv code p false (f t))
        → ((t : Lexer) → Inv code p true t → Inv code p false (g t))
        → Inv code p false (consume_or c f g s)
    unfolding consume_or
    consume_or-Inv c f g i hf hg = Inv-if _ (hf _ (move-Inv short i)) (hg _ i)

    dots-Inv : {s : Lexer} → Inv code p true s → Inv code p false (dots floats s)
    unfolding dots
    dots-Inv i =
        Inv-if _
          (Inv-if _ (token-Inv _ i) (
            consume_or-Inv _ _ _ (move-Inv short i) (λ t j. token-Inv _ j)
              (λ t j.
                consume_or-Inv _ _ _ j (λ t j. token-Inv _ j)
                  (λ t j.
                    consume_or-Inv _ _ _ j (λ t j. token-Inv _ j) (λ t j. Inv-open short true j)))))
          (token-Inv _ i)

    two_chars :
        (c c' : ℕ) (a two one : TokenType) {s : Lexer}
        → Inv code p true s
        → Inv code p false
            (consume_or c (make_token floats a) (λ s. conditional_token floats c' two one s) s)
    two_chars c c' a two one i =
        consume_or-Inv c _ _ i (λ t j. token-Inv a j) (λ t j. conditional-Inv c' two one j)

    three_chars :
        (c c' c'' : ℕ) (three two' two one : TokenType) {s : Lexer}
        → Inv code p true s
        → Inv code p false (
            consume_or c
              (λ s. conditional_token floats c'' three two' s)
              (λ s. conditional_token floats c' two one s)
              s)
    three_chars c c' c'' three two' two one i =
        consume_or-Inv c _ _ i (λ t j. conditional-Inv c'' three two' j)
          (λ t j. conditional-Inv c' two one j)

    pub operator-Inv :
        (c : ℕ) {s : Lexer} → Inv code p true s → InvSome code p false (operator floats c s)
    unfolding operator
    operator-Inv c i =
        let two : (t : TokenType) (s : Lexer)
            → Inv code p true s
            → Inv code p false (make_token floats t s) =
          λ t s j. token-Inv t j in
        InvSome-if _ (found (two_chars _ _ _ _ _ i)) (
          InvSome-if _ (found (consume_or-Inv _ _ _ i (two _) (λ t j. two_chars _ _ _ _ _ j))) (
            InvSome-if _ (found (three_chars _ _ _ _ _ _ _ i)) (
              InvSome-if _
                (found (
                  consume_or-Inv _ _ _ i (λ t j. Inv-open short true (skip_while-Inv _ j))
                    (λ t j. conditional-Inv _ _ _ j)))
                (InvSome-if _ (found (conditional-Inv _ _ _ i)) (
                  InvSome-if _ (found (conditional-Inv _ _ _ i)) (
                    InvSome-if _ (found (conditional-Inv _ _ _ i)) (
                      InvSome-if _ (found (conditional-Inv _ _ _ i)) (
                        InvSome-if _ (found (conditional-Inv _ _ _ i)) (
                          InvSome-if _ (found (dots-Inv i)) (
                            InvSome-if _ (found (two_chars _ _ _ _ _ i)) (
                              InvSome-if _ (found (three_chars _ _ _ _ _ _ _ i)) (
                                InvSome-if _ (found (three_chars _ _ _ _ _ _ _ i)) (
                                  InvSome-if _ (found (two_chars _ _ _ _ _ i)) (
                                    InvSome-if _ (found (two_chars _ _ _ _ _ i))
                                      nothing))))))))))))))
