-- ===== src/Lexer/Invariant.antt =====
-- The invariant of the lexer: its pointers lie in the code, and the tokens of the stream stand in
-- the code one behind the other.
use choice_lang.Prelude.{
  ℕ, zero, suc, ◌+◌, ◌-◌, ◌%◌, ◌^◌, ◌≤◌, ◌<◌, ◌≡◌, refl, ap, ◌∙◌, Bool, true, false, List, [], ◌∷◌,
  ◌++◌, length, drop, take, if◌then◌else◌, arith, length-drop, Bool-cases, inl, inr,
}
use native.Mathlib.Numerals.{add-one}
use choice_lang.Diagnostics.{DiagCode, Message, empty, invalid_digit_sep, numeric_lit_parse_fail}
use choice_lang.Escape.{Cursor, advance}
use choice_lang.Token.{TokenType, Value, Token}
use choice_lang.Lexer.{
  Lexer, Floats, hit_end, move, report_error, format_loop, format_number, has_prefix, parse_result,
  int_value, dec_value, token_value, token_text, emplace, make_token, previous_offset, base_value,
}

-- The tokens stand in the code in their order, with no overlap, from `from` on and up to `limit`; the
-- text of each is the code at its offset.
pub Tiles : List ℕ → ℕ → ℕ → List Token → Type 0
Tiles code from limit [] = from ≤ limit
Tiles code from limit (t ∷ ts) =
    (from ≤ t.byte_offset)
    × (t.text ≡ take (length t.text) (drop t.byte_offset code))
    × (t.byte_offset + length t.text ≤ length code)
    × Tiles code (t.byte_offset + length t.text) limit ts

pub Tiles-weaken :
    (code : List ℕ) (from limit more : ℕ) (ts : List Token)
    → limit ≤ more
    → Tiles code from limit ts
    → Tiles code from more ts
unfolding Tiles
Tiles-weaken code from limit more [] le h = omega arith
Tiles-weaken code from limit more (t ∷ ts) le (a, b, c, h) =
    (a, b, c, Tiles-weaken code (t.byte_offset + length t.text) limit more ts le h)

pub Tiles-nil : (code : List ℕ) → Tiles code 0 0 []
unfolding Tiles
Tiles-nil code = omega arith

Tiles-snoc :
    (code : List ℕ) (from limit : ℕ) (ts : List Token) (t : Token)
    → Tiles code from limit ts
    → limit ≤ t.byte_offset
    → t.text ≡ take (length t.text) (drop t.byte_offset code)
    → t.byte_offset + length t.text ≤ length code
    → Tiles code from (t.byte_offset + length t.text) (ts ++ (t ∷ []))
unfolding Tiles
Tiles-snoc code from limit [] t h le e b = (omega arith, e, b, omega arith)
Tiles-snoc code from limit (u ∷ ts) t (h1, h2, h3, h) le e b =
    (h1, h2, h3, Tiles-snoc code (u.byte_offset + length u.text) limit ts t h le e b)

-- What the tokens reach to: before the token of `start` is made, and after.
abbrev pub limit : Bool → Lexer → ℕ
limit true s = s.start.pos
limit false s = s.current.pos

-- `fresh` says that no token starts at or behind `start` yet; `p` is a position that is passed.
pub record Inv (code : List ℕ) (p : ℕ) (fresh : Bool) (s : Lexer) : Type 0 where
  pub here : s.current.rest ≡ drop s.current.pos code
  pub low : p ≤ s.current.pos
  pub within : s.current.pos ≤ length code
  pub place : s.offset ≡ s.current.pos
  pub begin : s.start.rest ≡ drop s.start.pos code
  pub before : s.start.pos ≤ s.current.pos
  pub tiles : Tiles code 0 (limit fresh s) s.stream

-- `t` differs from `s` in flags, reports, the base or the nesting depth only.
pub record Keeps (s t : Lexer) : Type 0 where
  pub same_start : t.start ≡ s.start
  pub same_current : t.current ≡ s.current
  pub same_offset : t.offset ≡ s.offset
  pub same_stream : t.stream ≡ s.stream

pub kept : {s : Lexer} → Keeps s s
kept = record { same_start = refl; same_current = refl; same_offset = refl; same_stream = refl }

pub Keeps-trans : {s t u : Lexer} → Keeps s t → Keeps t u → Keeps s u
Keeps-trans a b = record {
  same_start = b.same_start ∙ a.same_start;
  same_current = b.same_current ∙ a.same_current;
  same_offset = b.same_offset ∙ a.same_offset;
  same_stream = b.same_stream ∙ a.same_stream;
}

pub Keeps-if : {s t u : Lexer} (b : Bool) → Keeps s t → Keeps s u → Keeps s (if b then t else u)
Keeps-if true h k = h
Keeps-if false h k = k

pub report_error-Keeps :
    (code : DiagCode) (offset : ℕ) (message : Message) (s : Lexer)
    → Keeps s (report_error code offset message s)
unfolding report_error
report_error-Keeps code offset message s =
    Keeps-if s.in_error kept
      (record { same_start = refl; same_current = refl; same_offset = refl; same_stream = refl })

format_loop-Keeps :
    (dec : Bool) (text : List ℕ) (size n i o : ℕ) (str : List ℕ) (s : Lexer)
    → Keeps s (format_loop dec text size n i o str s).1
unfolding format_loop
format_loop-Keeps dec text size zero i o str s = kept
format_loop-Keeps dec text size (suc n) i o str s =
    Keeps-trans (Keeps-if _ kept (Keeps-if _ (report_error-Keeps invalid_digit_sep o empty s) kept))
      (format_loop-Keeps dec text size n (i + 1) ((o + 1) % 256) _ _)

parse_result-Keeps : (answer : ℕ × Bool) (s : Lexer) → Keeps s (parse_result answer s).1
unfolding parse_result
parse_result-Keeps (ret, ok) s =
    Keeps-if ok kept (report_error-Keeps numeric_lit_parse_fail (previous_offset s) empty s)

format_number-Keeps :
    (dec : Bool) (text : List ℕ) (s : Lexer) → Keeps s (format_number dec text s).1
unfolding format_number
format_number-Keeps dec text s =
    let size = length text % 256 in
    let i = if has_prefix text then 2 else 0 in
    format_loop-Keeps dec text size (size - i) i ((s.offset + 2 ^ 64 - size) % 256) [] s

module _ (floats : Floats) (text : List ℕ) (s : Lexer) where
  int_value-Keeps : Keeps s (int_value floats text s).1
  unfolding int_value
  int_value-Keeps =
      let (formatted, t) = format_number false text s in
      Keeps-trans (format_number-Keeps false text s)
        (parse_result-Keeps (floats.parse_int formatted (base_value s.base)) t)

  dec_value-Keeps : Keeps s (dec_value floats text s).1
  unfolding dec_value
  dec_value-Keeps =
      let (formatted, t) = format_number true text s in
      Keeps-trans (format_number-Keeps true text s)
        (parse_result-Keeps (floats.parse_double formatted) t)

  token_value-Keeps : (type_ : TokenType) → Keeps s (token_value floats type_ text s).1
  unfolding token_value
  token_value-Keeps TokenType.tok_num = int_value-Keeps
  token_value-Keeps TokenType.tok_num_dec = dec_value-Keeps
  token_value-Keeps _ = kept

pub length-take : (n : ℕ) (xs : List ℕ) → n ≤ length xs → length (take n xs) ≡ n
length-take zero xs le = refl
length-take (suc n) [] le = absurd (omega arith)
length-take (suc n) (x ∷ xs) le = ap suc (length-take n xs (omega arith))

drop-step : (n : ℕ) (xs : List ℕ) → drop 1 (drop n xs) ≡ drop (suc n) xs
drop-step zero xs = refl
drop-step (suc n) [] = refl
drop-step (suc n) (x ∷ xs) = drop-step n xs

limit-Keeps : (fresh : Bool) {s t : Lexer} → Keeps s t → limit fresh t ≡ limit fresh s
limit-Keeps true k = ap (λ c. c.pos) k.same_start
limit-Keeps false k = ap (λ c. c.pos) k.same_current

limit-advance :
    (fresh : Bool) (s : Lexer) (c : Cursor) (o : ℕ)
    → s.current.pos ≤ c.pos
    → limit fresh s ≤ limit fresh (record s { current = c; offset = o })
limit-advance true s c o le = omega arith
limit-advance false s c o le = le

pub Inv-lower :
    {code : List ℕ} {p q : ℕ} {fresh : Bool} {s : Lexer}
    → q ≤ p
    → Inv code p fresh s
    → Inv code q fresh s
Inv-lower {code} {p} {q} {fresh} {s} le i = record {
  here = i.here;
  low = omega (arith, i.low);
  within = i.within;
  place = i.place;
  begin = i.begin;
  before = i.before;
  tiles = i.tiles;
}

module _ {code : List ℕ} (short : length code < 2 ^ 64) where
  pub Keeps-Inv :
      {p : ℕ} {fresh : Bool} {s t : Lexer} → Keeps s t → Inv code p fresh s → Inv code p fresh t
  Keeps-Inv {p} {fresh} {s} {t} k i = record {
    here = rw k.same_current i.here;
    low = rw k.same_current i.low;
    within = rw k.same_current i.within;
    place = rw (k.same_offset, k.same_current) i.place;
    begin = rw k.same_start i.begin;
    before = rw (k.same_start, k.same_current) i.before;
    tiles = rw (limit-Keeps fresh k, k.same_stream) i.tiles;
  }

  -- Making the token of `start` moves the limit to `current`.
  pub Inv-open : (fresh : Bool) {p : ℕ} {s : Lexer} → Inv code p fresh s → Inv code p false s
  Inv-open true {p} {s} i = record {
    here = i.here;
    low = i.low;
    within = i.within;
    place = i.place;
    begin = i.begin;
    before = i.before;
    tiles = Tiles-weaken code 0 s.start.pos s.current.pos s.stream i.before i.tiles;
  }
  Inv-open false i = i

  pub not_end-lt :
      {p : ℕ} {fresh : Bool} {s : Lexer}
      → hit_end s ≡ false
      → Inv code p fresh s
      → s.current.pos < length code
  not_end-lt {p} {fresh} {s} h i =
      let size = ap length i.here ∙ length-drop s.current.pos code in ground arith

  pub move-past :
      {p : ℕ} {fresh : Bool} {s : Lexer}
      → hit_end s ≡ false
      → Inv code p fresh s
      → Inv code (suc s.current.pos) fresh (move s)
  unfolding move
  move-past {p} {fresh} {s} h i =
      let inside = not_end-lt h i in
      let next = advance 1 s.current in
      let up = limit-advance fresh s next ((s.offset + 1) % 2 ^ 64) (omega arith) in
      let rest : drop 1 s.current.rest ≡ drop (s.current.pos + 1) code =
        rw (i.here, add-one) (drop-step s.current.pos code) in
      rw h (record {
        here = rest;
        low = omega arith;
        within = omega arith;
        place = omega (arith, i.place);
        begin = i.begin;
        before = omega (arith, i.before);
        tiles = Tiles-weaken code 0 _ _ s.stream up i.tiles;
      })

  pub move-Inv : {p : ℕ} {fresh : Bool} {s : Lexer} → Inv code p fresh s → Inv code p fresh (move s)
  unfolding move
  move-Inv {p} {fresh} {s} i = elim (Bool-cases (hit_end s)) [
    | inl h ↦ rw h i
    | inr h ↦ Inv-lower (omega (arith, i.low)) (move-past h i)
  ]

  emplace-Inv :
      (type_ : TokenType) (text : List ℕ) (value : Value) {p : ℕ} (s : Lexer)
      → text ≡ token_text s
      → Inv code p true s
      → Inv code p false (emplace type_ text (value, s))
  unfolding emplace
  emplace-Inv type_ text value {p} s same i =
      let size = s.current.pos - s.start.pos in
      let rest = ap length i.begin ∙ length-drop s.start.pos code in
      let taken : length text ≡ size =
        ap length same ∙ length-take size s.start.rest (omega (arith, i.before, i.within)) in
      let offset : (s.offset + 2 ^ 64 - length text) % 2 ^ 64 ≡ s.start.pos =
        omega (arith, i.before, i.within, i.place) in
      let t : Token = record {
        type_ = type_;
        text = text;
        content = value;
        byte_offset = (s.offset + 2 ^ 64 - length text) % 2 ^ 64;
      } in
      let there : t.text ≡ take (length t.text) (drop t.byte_offset code) =
        rw (offset, taken, ← i.begin) same in
      let tiles =
        Tiles-snoc code 0 s.start.pos s.stream t i.tiles (omega arith) there
          (omega (arith, i.before, i.within)) in
      let end : t.byte_offset + length t.text ≡ s.current.pos = omega (arith, i.before) in
      record {
        here = i.here;
        low = i.low;
        within = i.within;
        place = i.place;
        begin = i.begin;
        before = i.before;
        tiles = Tiles-weaken code 0 _ _ (s.stream ++ (t ∷ [])) (omega arith) tiles;
      }

  pub make_token-Inv :
      (floats : Floats) (type_ : TokenType) {p : ℕ} {s : Lexer}
      → Inv code p true s
      → Inv code p false (make_token floats type_ s)
  unfolding make_token
  make_token-Inv floats type_ {p} {s} i =
      let text = token_text s in
      let (value, t) = token_value floats type_ text s in
      let k : Keeps s t = token_value-Keeps floats text s type_ in
      let same : text ≡ token_text t = rw (k.same_start, k.same_current) refl in
      emplace-Inv type_ text value t same (Keeps-Inv k i)

pub make_token-current :
    (floats : Floats) (type_ : TokenType) (s : Lexer)
    → (make_token floats type_ s).current ≡ s.current
unfolding make_token emplace
make_token-current floats type_ s = (token_value-Keeps floats (token_text s) s type_).same_current
