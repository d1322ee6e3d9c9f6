-- ===== src/Arith.antt =====
-- src/vm.cpp: integer powers, and the bitwise operators and shifts; src/optimizer.cpp: the same
-- operators in the folding of constants. An i64 is its 64-bit pattern; signed addition and
-- multiplication wrap around, where the source's overflow is undefined.
pub mod Powers
pub mod Shifts
use choice_lang.Prelude.{
  ℕ, zero, suc, ◌+◌, ◌*◌, ◌/◌, ◌%◌, ◌^◌, bit_and, bit_or, bit_xor, Bool, true, false, Option, none,
  some, leb, ltb, ◌==◌, if◌then◌else◌,
}
use choice_lang.Object.{Object, int}

-- `exp >>= 1` on an i64.
abbrev pub halve : ℕ → ℕ
halve e = if ltb e (2 ^ 63) then e / 2 else e / 2 + 2 ^ 63

-- The loop of `ipow`, on fuel.
unfoldable pub ipow_loop : ℕ → ℕ → ℕ → ℕ → Option ℕ
ipow_loop zero res base exp = none
ipow_loop (suc fuel) res base exp =
    let next =
      ipow_loop fuel (if exp % 2 == 1 then res * base % 2 ^ 64 else res) (base * base % 2 ^ 64)
        (halve exp) in
    if exp == 0 then some res else next

unfoldable pub ipow : ℕ → ℕ → ℕ → Option ℕ
ipow fuel base exp = ipow_loop fuel 1 base exp

-- The opcodes OP_AND, OP_OR, OP_XOR, OP_SHIFT_L and OP_SHIFT_R.
pub data BitOp : Type 0 where
  op_and op_or op_xor op_shift_l op_shift_r : BitOp

-- What `bitOper` returns or throws.
pub data BitResult : Type 0 where
  value : Object → BitResult
  hit_shift_max wrong_operands : BitResult

-- INT64_MIN for a negative left operand.
abbrev pub shift_term : ℕ → ℕ
shift_term a = if ltb a (2 ^ 63) then 0 else 2 ^ 63

abbrev pub shift_left : ℕ → ℕ → ℕ
shift_left a b = a * 2 ^ b % 2 ^ 64

abbrev pub shift_right : ℕ → ℕ → ℕ
shift_right a b = (a / 2 ^ b + shift_term a) % 2 ^ 64

unfoldable pub bit_case : BitOp → ℕ → ℕ → BitResult
bit_case op_and a b = value (int (bit_and a b))
bit_case op_or a b = value (int (bit_or a b))
bit_case op_xor a b = value (int (bit_xor a b))
bit_case op_shift_l a b = if leb 64 b then hit_shift_max else value (int (shift_left a b))
bit_case op_shift_r a b = if leb 64 b then hit_shift_max else value (int (shift_right a b))

unfoldable pub bit_oper : BitOp → Object → Object → BitResult
unfolding bit_case
bit_oper op (int a) (int b) = bit_case op a b
bit_oper op a b = wrong_operands

-- `evaluateBitExpr` on the values of its operands; `none` is the invalid object.
unfoldable pub evaluate_bit : BitOp → Object → Object → Option Object
evaluate_bit op_and (int a) (int b) = some (int (bit_and a b))
evaluate_bit op_or (int a) (int b) = some (int (bit_or a b))
evaluate_bit op_xor (int a) (int b) = some (int (bit_xor a b))
evaluate_bit op a b = none

-- `evaluateShiftExpr` likewise.
unfoldable pub evaluate_shift : BitOp → Object → Object → Option Object
evaluate_shift op_shift_l (int a) (int b) = if leb 64 b then none else some (int (shift_left a b))
evaluate_shift op_shift_r (int a) (int b) = if leb 64 b then none else some (int (shift_right a b))
evaluate_shift op a b = none
