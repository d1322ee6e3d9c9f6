-- ===== src/Escape/Digits.antt =====
-- The digit loops of src/escape_seq.cpp: `parseEscapeString`, `strToHex` and the count of
-- `consumeUnicodeSequence`, against the value of a digit string.
use choice_lang.Prelude.{
  ℕ, suc, ◌+◌, ◌*◌, ◌%◌, ◌^◌, ◌≤◌, ◌<◌, ◌≡◌, refl, true, false, List, [], ◌∷◌, ◌++◌, length, All,
  lt→ltb, arith, inl, inr, ◌⊎◌, ◌≢◌,
}
use choice_lang.Chars.{is_hex, from_hex}
use choice_lang.Escape.{
  NumParseRules, cursor, parse_digits, first_fits, str_to_hex, scan_hex, stopped, bad_digit,
  too_many,
}
use native.Mathlib.Nat.{mul-le-mul_right, pow-suc, pow-zero, mod-eq_of_lt}

-- The number that the digits stand for, behind the digits of `acc`.
unfoldable pub digits_value : ℕ → (ℕ → ℕ) → ℕ → List ℕ → ℕ
digits_value base convert acc [] = acc
digits_value base convert acc (c ∷ cs) = digits_value base convert (acc * base + convert c) cs

module _ (base : ℕ) (convert : ℕ → ℕ) (pos : 1 ≤ base) where
  le-digits_value : (acc : ℕ) (cs : List ℕ) → acc ≤ digits_value base convert acc cs
  unfolding digits_value
  le-digits_value acc [] = omega arith
  le-digits_value acc (c ∷ cs) = grind (arith, le-digits_value (acc * base + convert c) cs)

  -- `n` digits are below the base to the `n`.
  pub digits_value-lt :
      (acc : ℕ) (cs : List ℕ)
      → All (λ c. convert c < base) cs
      → digits_value base convert acc cs < (acc + 1) * base ^ length cs
  unfolding digits_value
  digits_value-lt acc [] h = grind (arith, pow-zero base)
  digits_value-lt acc (c ∷ cs) (hc, hs) =
      let step : (acc * base + convert c + 1) * base ^ length cs
          ≤ (acc + 1) * base * base ^ length cs =
        mul-le-mul_right (base ^ length cs) (omega arith) in
      rw pow-suc (omega (arith, step, digits_value-lt (acc * base + convert c) cs hs))

six_or_not : (n : ℕ) → (n ≡ 6) ⊎ (n ≢ 6)
six_or_not n = grind arith

shift_stop :
    {P : Type 0} (count n : ℕ) {max : ℕ} → P ⊎ (count + suc n ≡ max) → P ⊎ (count + 1 + n ≡ max)
shift_stop count n (inl h) = inl h
shift_stop count n (inr e) = inr (omega arith)

-- The loop reads the digits up to the limit, and its u32 does not wrap.
pub parse_digits-append :
    (rules : NumParseRules) (count replace p : ℕ) (ds rest : List ℕ)
    → All (λ c. rules.check c ≡ true) ds
    → count + length ds ≤ rules.max_digits
    → (first_fits rules.check rest ≡ false) ⊎ (count + length ds ≡ rules.max_digits)
    → 1 ≤ 2 ^ rules.shift
    → digits_value (2 ^ rules.shift) rules.convert replace ds < 2 ^ 32
    → parse_digits rules count replace p (ds ++ rest)
      ≡ (digits_value (2 ^ rules.shift) rules.convert replace ds, cursor (p + length ds) rest)
unfolding parse_digits digits_value
parse_digits-append rules count replace p [] [] hd hl stop hb fits = ground arith
parse_digits-append rules count replace p [] (c ∷ rest) hd hl stop hb fits = ground arith
parse_digits-append rules count replace p (d ∷ ds) rest (hc, hs) hl stop hb fits =
    let next = replace * 2 ^ rules.shift + rules.convert d in
    let small = le-digits_value (2 ^ rules.shift) rules.convert hb next ds in
    let ih =
      parse_digits-append rules (count + 1) next (p + 1) ds rest hs (omega arith)
        (shift_stop count (length ds) stop) hb fits in
    let whole : next % 2 ^ 32 ≡ next = mod-eq_of_lt (omega arith) in
    rw (hc, lt→ltb count rules.max_digits (omega arith), whole, ih) (ground arith)

pub str_to_hex-append :
    (result : ℕ) (ds rest : List ℕ)
    → digits_value 16 from_hex result ds < 2 ^ 32
    → str_to_hex (length ds) result (ds ++ rest) ≡ digits_value 16 from_hex result ds
unfolding str_to_hex digits_value
str_to_hex-append result [] rest fits = refl
str_to_hex-append result (d ∷ ds) rest fits =
    let small = le-digits_value 16 from_hex (omega arith) (result * 16 + from_hex d) ds in
    let whole : (result * 16 + from_hex d) % 2 ^ 32 ≡ result * 16 + from_hex d =
      mod-eq_of_lt (omega arith) in
    rw whole (str_to_hex-append (result * 16 + from_hex d) ds rest fits)

-- The scan stops behind hex digits, at the end or at a closing brace.
pub scan_hex-append :
    (count : ℕ) (ds rest : List ℕ)
    → All (λ c. is_hex c ≡ true) ds
    → count + length ds ≤ 6
    → scan_hex count (ds ++ (b'}' ∷ rest)) ≡ stopped (count + length ds)
unfolding scan_hex is_hex
scan_hex-append count [] rest hd hl = ground arith
scan_hex-append count (d ∷ ds) rest (hc, hs) hl =
    ground (arith, scan_hex-append (count + 1) ds rest hs (omega arith))

pub scan_hex_open :
    (count : ℕ) (ds : List ℕ)
    → All (λ c. is_hex c ≡ true) ds
    → count + length ds ≤ 6
    → scan_hex count ds ≡ stopped (count + length ds)
unfolding scan_hex
scan_hex_open count [] hd hl = ground arith
scan_hex_open count (d ∷ ds) (hc, hs) hl =
    ground (arith, scan_hex_open (count + 1) ds hs (omega arith))

pub scan_hex_bad :
    (count : ℕ) (ds : List ℕ) (c : ℕ) (rest : List ℕ)
    → All (λ c. is_hex c ≡ true) ds
    → count + length ds ≤ 6
    → is_hex c ≡ false
    → c ≢ b'}'
    → scan_hex count (ds ++ (c ∷ rest)) ≡ bad_digit
unfolding scan_hex
scan_hex_bad count [] c rest hd hl hb hn = ground arith
scan_hex_bad count (d ∷ ds) c rest (hc, hs) hl hb hn =
    ground (arith, scan_hex_bad (count + 1) ds c rest hs (omega arith) hb hn)

pub scan_hex_long :
    (count : ℕ) (ds rest : List ℕ)
    → All (λ c. is_hex c ≡ true) ds
    → count ≤ 6
    → 6 < count + length ds
    → scan_hex count (ds ++ rest) ≡ too_many
unfolding scan_hex
scan_hex_long count [] rest hd hl hn = absurd (omega arith)
scan_hex_long count (d ∷ ds) rest (hc, hs) hl hn = elim (six_or_not count) [
  | inl e ↦ ground arith
  | inr ne ↦ ground (arith, scan_hex_long (count + 1) ds rest hs (omega arith) (omega arith))
]
