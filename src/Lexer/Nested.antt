-- ===== src/Lexer/Nested.antt =====
-- String tokens keep the invariant of the lexer and end, given that the scan of a single token does
-- behind the position `p`.
use choice_lang.Prelude.{
  ℕ, zero, suc, ◌+◌, ◌%◌, ◌^◌, ◌≤◌, ◌<◌, ◌≡◌, refl, sym, ap, ◌∙◌, Bool, true, false, not, ◌&&◌,
  ◌||◌, Option, some, List, length, ltb, ◌==◌, arith, length-drop, Bool-cases, inl, inr,
}
use choice_lang.Branch.{if◌then◌else◌}
use choice_lang.Diagnostics.{empty, hit_inter_nest_max}
use choice_lang.Token.{TokenType, tok_inter_part, tok_inter_start}
use choice_lang.Lexer.{
  Lexer, Floats, hit_end, move, peek_char, consume_chars, make_token, report_error,
}
use choice_lang.Lexer.Scan.{
  while_, then_, at_param, Flow, returned, going, param_loop, close_param, format_param, flow_of,
  flow_bind, end_format, part_loop, format_string_token, end_string, quoted_loop, string_token,
  multi_line_loop, multi_line_string_token, reset_start,
}
use choice_lang.Lexer.Invariant.{
  Inv, Keeps, Keeps-trans, report_error-Keeps, Keeps-Inv, Inv-lower, move-Inv, move-past,
  make_token-Inv, make_token-current,
}
use choice_lang.Lexer.Scanned.{report-Inv}

-- There is a result, and it has the invariant.
pub data Ends (code : List ℕ) (p : ℕ) : Option Lexer → Type 0 where
  ends : {s : Lexer} → Inv code p false s → Ends code p (some s)

pub Ends-if :
    {code : List ℕ} {p : ℕ} {s t : Option Lexer} (b : Bool)
    → Ends code p s
    → Ends code p t
    → Ends code p (if b then s else t)
unfolding if◌then◌else◌
Ends-if true i j = i
Ends-if false i j = j

pub Ends-cases :
    {code : List ℕ} {p : ℕ} {s t : Option Lexer} (b : Bool)
    → (b ≡ true → Ends code p s)
    → (b ≡ false → Ends code p t)
    → Ends code p (if b then s else t)
unfolding if◌then◌else◌
Ends-cases true i j = i refl
Ends-cases false i j = j refl

Keeps-branch : {s t u : Lexer} (b : Bool) → Keeps s t → Keeps s u → Keeps s (if b then t else u)
unfolding if◌then◌else◌
Keeps-branch true h k = h
Keeps-branch false h k = k

pub Ends-lower :
    {code : List ℕ} {p q : ℕ} {o : Option Lexer} → q ≤ p → Ends code p o → Ends code q o
Ends-lower le (ends i) = ends (Inv-lower le i)

-- `formatParam` ends: with a report, or behind the closing parenthesis.
pub data FlowEnds (code : List ℕ) (p : ℕ) : Option Flow → Type 0 where
  stops : {s : Lexer} → Inv code p false s → FlowEnds code p (some (returned s))
  goes : {s : Lexer} → Inv code p true s → FlowEnds code p (some (going s))

and_not : (a b : Bool) → (a && not b) ≡ true → b ≡ false
and_not a b h = ground arith

neither : (a b : Bool) → (a || b) ≡ false → a ≡ false
neither a b h = ground arith

while_-Ends :
    {code : List ℕ} {q : ℕ} (b : Bool) {s : Lexer} (f : Lexer → Option Lexer)
    → Inv code q false s
    → (b ≡ true → Ends code q (f s))
    → Ends code q (while_ b s f)
while_-Ends true f i h = h refl
while_-Ends false f i h = ends i

then_-Ends :
    {code : List ℕ} {r q : ℕ} {o : Option Lexer} (f : Lexer → Option Lexer)
    → Ends code r o
    → ((t : Lexer) → Inv code r false t → Ends code q (f t))
    → Ends code q (then_ o f)
then_-Ends f (ends {s} i) h = h s i

-- The characters that are left are those of the code behind the position.
pub left :
    {code : List ℕ} {p : ℕ} {fresh : Bool} {s : Lexer}
    → Inv code p fresh s
    → length s.current.rest + s.current.pos ≡ length code
left {code} {p} {fresh} {s} i =
    let size = ap length i.here ∙ length-drop s.current.pos code in omega (arith, i.within)

module _ {code : List ℕ} (short : length code < 2 ^ 64) where
  pub reset_start-Inv : {p : ℕ} {s : Lexer} → Inv code p false s → Inv code p true (reset_start s)
  reset_start-Inv {p} {s} i = record {
    here = i.here;
    low = i.low;
    within = i.within;
    place = i.place;
    begin = i.here;
    before = omega arith;
    tiles = i.tiles;
  }

  depth-Inv :
      {p : ℕ} {fresh : Bool} {s : Lexer} (depth : ℕ)
      → Inv code p fresh s
      → Inv code p fresh (record s { nesting_depth = depth })
  depth-Inv depth i =
      Keeps-Inv short
        (record { same_start = refl; same_current = refl; same_offset = refl; same_stream = refl })
        i

  module _ (floats : Floats) (token : Lexer → Option Lexer) (p : ℕ)
      (serves : (s : Lexer)
        → Inv code p false s
        → hit_end s ≡ false
        → Ends code (suc s.current.pos) (token s)) where
    -- Every token moves on, so the fuel above the characters that are left is enough.
    param_loop-Ends :
        (q fuel : ℕ) (s : Lexer)
        → p ≤ q
        → Inv code q false s
        → length code < s.current.pos + fuel
        → Ends code q (param_loop floats token fuel s)
    unfolding param_loop
    param_loop-Ends q zero s le i enough = absurd (omega (arith, i.within))
    param_loop-Ends q (suc fuel) s le i enough =
        let test = not (peek_char 0 s == b')') in
        while_-Ends (test && not (hit_end s)) _ i (λ inside.
          let more = and_not test (hit_end s) inside in
          then_-Ends _ (serves s (Inv-lower le i) more) (λ t j.
            param_loop-Ends q fuel t le (Inv-lower (omega (arith, i.low)) j)
              (omega (arith, j.low))))

    close_param-FlowEnds :
        {q : ℕ} (s : Lexer)
        → Inv code q false s
        → FlowEnds code q (some (close_param floats token s))
    unfolding close_param if◌then◌else◌
    close_param-FlowEnds {q} s i = elim (Bool-cases (hit_end s)) [
      | inl h ↦ rw h (stops (report-Inv short q _ _ _ i))
      | inr h ↦ rw h (goes (reset_start-Inv (move-Inv short i)))
    ]

    flow_of-FlowEnds :
        {q : ℕ} {o : Option Lexer} → Ends code q o → FlowEnds code q (flow_of floats token o)
    flow_of-FlowEnds (ends {s} i) = close_param-FlowEnds s i

    -- An interpolation takes its opening parenthesis at least.
    format_param-FlowEnds :
        (s : Lexer)
        → hit_end s ≡ false
        → Inv code p false s
        → FlowEnds code (suc s.current.pos) (format_param floats token s)
    unfolding format_param consume_chars
    format_param-FlowEnds s h i =
        let j = move-Inv short (move-past short h i) in
        flow_of-FlowEnds (
          param_loop-Ends (suc s.current.pos) _ (move (move s)) (omega (arith, i.low)) j
            (omega (arith, left j)))

    flow_bind-Ends :
        {r q : ℕ} {o : Option Flow} (f : Lexer → Option Lexer)
        → q ≤ r
        → FlowEnds code r o
        → ((t : Lexer) → Inv code r true t → Ends code q (f t))
        → Ends code q (flow_bind floats token o f)
    flow_bind-Ends f le (stops i) h = ends (Inv-lower le i)
    flow_bind-Ends f le (goes {s} i) h = h s i

    end_format-Ends : (s : Lexer) → Inv code p true s → Ends code p (end_format floats token s)
    unfolding end_format
    end_format-Ends s i =
        Ends-if _ (ends (report-Inv short p _ _ _ i))
          (ends (make_token-Inv short floats _ (move-Inv short i)))

    format_here :
        (type_ : TokenType) (s : Lexer)
        → hit_end s ≡ false
        → Inv code p true s
        → FlowEnds code (suc s.current.pos) (format_param floats token (make_token floats type_ s))
    format_here type_ s h i =
        let same = make_token-current floats type_ s in
        rw (ap (λ c. suc c.pos) (sym same)) (
          format_param-FlowEnds (make_token floats type_ s) (ap (λ c. length c.rest == 0) same ∙ h)
            (make_token-Inv short floats type_ i))

    part_loop-Ends :
        (fuel end_delim : ℕ) (s : Lexer)
        → Inv code p true s
        → length code < s.current.pos + fuel
        → Ends code p (part_loop floats token fuel end_delim s)
    unfolding part_loop
    part_loop-Ends zero end_delim s i enough = absurd (omega (arith, i.within))
    part_loop-Ends (suc fuel) end_delim s i enough =
        let test = not (peek_char 0 s == end_delim) in
        Ends-cases (test && not (hit_end s))
          (λ inside.
            let more = and_not test (hit_end s) inside in
            let j = move-past short more i in
            Ends-if (at_param s)
              (flow_bind-Ends _ (omega (arith, i.low)) (format_here tok_inter_part s more i) (λ t k.
                part_loop-Ends fuel end_delim t (Inv-lower (omega (arith, i.low)) k)
                  (omega (arith, k.low))))
              (part_loop-Ends fuel end_delim (move s) (move-Inv short i) (omega (arith, j.low))))
          (λ done. end_format-Ends s i)

    format_string_token-Ends :
        (end_delim : ℕ) (s : Lexer)
        → hit_end s ≡ false
        → Inv code p true s
        → Ends code p (format_string_token floats token end_delim s)
    unfolding format_string_token
    format_string_token-Ends end_delim s h i =
        let depth = (s.nesting_depth + 1) % 256 in
        let s1 = record s { nesting_depth = depth } in
        let k1 : Keeps s s1 = record {
          same_start = refl;
          same_current = refl;
          same_offset = refl;
          same_stream = refl;
        } in
        let k : Keeps s
            (if ltb 2 depth then report_error hit_inter_nest_max s1.offset empty s1 else s1) =
          Keeps-branch (ltb 2 depth)
            (Keeps-trans k1 (report_error-Keeps hit_inter_nest_max s1.offset empty s1)) k1 in
        let kept = Keeps-Inv short k i in
        let more = ap (λ c. length c.rest == 0) k.same_current ∙ h in
        let open_string = format_here tok_inter_start _ more kept in
        flow_bind-Ends _ (omega (arith, kept.low)) open_string (λ t j.
          part_loop-Ends _ end_delim _ (Inv-lower (omega (arith, kept.low)) (depth-Inv _ j))
            (omega (arith, left j)))

    end_string-Ends :
        (raw : Bool) (report : ℕ) (s : Lexer)
        → Inv code p true s
        → Ends code p (end_string floats token raw report s)
    unfolding end_string
    end_string-Ends raw report s i =
        Ends-if _ (ends (report-Inv short p _ _ _ i))
          (ends (make_token-Inv short floats _ (move-Inv short i)))

    quoted_loop-Ends :
        (n : ℕ) (raw even : Bool) (s : Lexer)
        → Inv code p true s
        → Ends code p (quoted_loop floats token n raw even s)
    unfolding quoted_loop
    quoted_loop-Ends zero raw even s i = end_string-Ends raw s.offset s i
    quoted_loop-Ends (suc n) raw even s i =
        let c = peek_char 0 s in
        Ends-cases (hit_end s || c == 34 && even) (λ done. end_string-Ends raw s.offset s i)
          (λ inside.
            let more = neither (hit_end s) (c == 34 && even) inside in
            Ends-if _ (format_string_token-Ends 34 s more i) (
              Ends-if _ (ends (report-Inv short p _ _ _ i))
                (quoted_loop-Ends n raw _ (move s) (move-Inv short i))))

    multi_line_loop-Ends :
        (n : ℕ) (raw : Bool) (begin : ℕ) (even : Bool) (s : Lexer)
        → Inv code p true s
        → Ends code p (multi_line_loop floats token n raw begin even s)
    unfolding multi_line_loop
    multi_line_loop-Ends zero raw begin even s i = end_string-Ends raw begin s i
    multi_line_loop-Ends (suc n) raw begin even s i =
        let c = peek_char 0 s in
        Ends-cases (hit_end s || c == 96 && even) (λ done. end_string-Ends raw begin s i)
          (λ inside.
            let more = neither (hit_end s) (c == 96 && even) inside in
            Ends-if _ (format_string_token-Ends 96 s more i)
              (multi_line_loop-Ends n raw begin _ (move s) (move-Inv short i)))

    pub string_token-Ends :
        (raw : Bool) (s : Lexer) → Inv code p true s → Ends code p (string_token floats token raw s)
    unfolding string_token
    string_token-Ends raw s i = quoted_loop-Ends _ raw true s i

    pub multi_line_string_token-Ends :
        (raw : Bool) (s : Lexer)
        → Inv code p true s
        → Ends code p (multi_line_string_token floats token raw s)
    unfolding multi_line_string_token
    multi_line_string_token-Ends raw s i = multi_line_loop-Ends _ raw _ true s i
