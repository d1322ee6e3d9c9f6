-- ===== src/Arith/Shifts.antt =====
-- The bitwise operators: the folding of constants against the VM, and the right shift of the VM
-- against the shift that keeps the sign.
use choice_lang.Prelude.{
  ℕ, zero, suc, ◌+◌, ◌-◌, ◌/◌, ◌^◌, ◌≤◌, ◌<◌, ◌≡◌, ◌≢◌, refl, sym, ap, ◌∙◌, Option, none, some,
  arith, ltb, inl, inr, ◌⊎◌, if◌then◌else◌,
}
use choice_lang.Object.{Object, int}
use choice_lang.Arith.{
  BitOp, op_and, op_or, op_xor, op_shift_l, op_shift_r, BitResult, value, bit_oper, bit_case,
  evaluate_bit, evaluate_shift, shift_right,
}
use native.Mathlib.Nat.{pow-le-pow_right, div-le_self, div-lt_iff_lt-mul}

-- The case of `evaluateExpr` that the operator chooses.
abbrev pub folded : BitOp → Object → Object → Option Object
folded op_shift_l l r = evaluate_shift op_shift_l l r
folded op_shift_r l r = evaluate_shift op_shift_r l r
folded op l r = evaluate_bit op l r

-- The result of the VM, where it is a value.
abbrev pub value_of : BitResult → Option Object
value_of (value o) = some o
value_of _ = none

folded_ints : (op : BitOp) (a b : ℕ) → folded op (int a) (int b) ≡ value_of (bit_case op a b)
unfolding evaluate_bit evaluate_shift bit_case
folded_ints op_and a b = refl
folded_ints op_or a b = refl
folded_ints op_xor a b = refl
folded_ints op_shift_l a b = ground arith
folded_ints op_shift_r a b = ground arith

-- Folding a bitwise operator or a shift at compile time gives what the VM gives at run time: the
-- same value, or none where the VM throws.
pub folded-bit_oper : (op : BitOp) (l r : Object) → folded op l r ≡ value_of (bit_oper op l r)
unfolding evaluate_bit evaluate_shift bit_oper
folded-bit_oper op (int a) (int b) = folded_ints op a b
folded-bit_oper op_and l r = refl
folded-bit_oper op_or l r = refl
folded-bit_oper op_xor l r = refl
folded-bit_oper op_shift_l l r = refl
folded-bit_oper op_shift_r l r = refl

-- The shift that fills with the sign.
abbrev pub arithmetic_shift : ℕ → ℕ → ℕ
arithmetic_shift a b = if ltb a (2 ^ 63) then a / 2 ^ b else a / 2 ^ b + (2 ^ 64 - 2 ^ (64 - b))

-- For a shift below 64, the VM's right shift is the arithmetic one where the left operand is not
-- negative or the shift is by one.
pub bit_oper-arithmetic_shift :
    (a b : ℕ)
    → a < 2 ^ 64
    → b < 64
    → (a < 2 ^ 63) ⊎ (b ≡ 1)
    → bit_oper op_shift_r (int a) (int b) ≡ value (int (arithmetic_shift a b))
unfolding bit_oper bit_case
bit_oper-arithmetic_shift a b ha hb (inl small) = let below = div-le_self a (2 ^ b) in ground arith
bit_oper-arithmetic_shift a b ha hb (inr one) = rw one (ground arith)

abbrev number : BitResult → ℕ
number (value (int n)) = n
number _ = 0

in_range : (a b : ℕ) → b < 64 → bit_oper op_shift_r (int a) (int b) ≡ value (int (shift_right a b))
unfolding bit_oper bit_case
in_range a b hb = ground arith

-- A negative operand shifted by two or more leaves fewer than 62 bits.
few_bits : (a b : ℕ) → a < 2 ^ 64 → 2 ≤ b → a / 2 ^ b < 2 ^ 62
few_bits a b ha hb =
    let four : 2 ^ 2 ≤ 2 ^ b = pow-le-pow_right (omega arith) hb in
    (div-lt_iff_lt-mul (omega arith)).1 (omega arith)

differs_at_zero : (a : ℕ) → 2 ^ 63 ≤ a → a < 2 ^ 64 → shift_right a 0 ≢ arithmetic_shift a 0
differs_at_zero a low high e = absurd (ground arith)

differs :
    (a b : ℕ) → 2 ^ 63 ≤ a → a < 2 ^ 64 → 2 ≤ b → b < 64 → shift_right a b ≢ arithmetic_shift a b
differs a b low high two hb e =
    let few = few_bits a b high two in
    let fewer : 64 - b ≤ 62 = omega arith in
    let room : 2 ^ (64 - b) ≤ 2 ^ 62 = pow-le-pow_right (omega arith) fewer in absurd (ground arith)

-- For a negative left operand and a shift below 64 other than one, the VM's right shift is not the
-- arithmetic one: the result is another number.
pub bit_oper_negative :
    (a b : ℕ)
    → 2 ^ 63 ≤ a
    → a < 2 ^ 64
    → b < 64
    → b ≢ 1
    → bit_oper op_shift_r (int a) (int b) ≢ value (int (arithmetic_shift a b))
bit_oper_negative a zero low high hb hn e =
    differs_at_zero a low high (ap number (sym (in_range a 0 hb) ∙ e))
bit_oper_negative a (suc zero) low high hb hn e = absurd (hn refl)
bit_oper_negative a (suc (suc b)) low high hb hn e =
    differs a (suc (suc b)) low high (omega arith) hb
      (ap number (sym (in_range a (suc (suc b)) hb) ∙ e))
