-- ===== src/Tests/ArithTests.antt =====
-- Runs of the integer operators of src/vm.cpp.
use choice_lang.Prelude.{◌-◌, ◌%◌, ◌^◌, ◌≡◌, ◌≢◌, refl, none, some, inr, arith}
use choice_lang.Object.{int}
use choice_lang.Arith.{ipow, op_shift_r, value, bit_oper}
use choice_lang.Arith.Powers.{ipow-pow, ipow_negative}
use choice_lang.Arith.Shifts.{
  folded, value_of, folded-bit_oper, arithmetic_shift, bit_oper-arithmetic_shift, bit_oper_negative,
}

ipow-pow_example : ipow 64 3 41 ≡ some (3 ^ 41 % 2 ^ 64)
ipow-pow_example = ipow-pow 3 41 (omega arith)

-- 2 ** -1.
ipow_negative_example : ipow 1000 2 (2 ^ 64 - 1) ≡ none
ipow_negative_example = ipow_negative 1000 2 (2 ^ 64 - 1) (omega arith) (omega arith)

folded-bit_oper_example :
    folded op_shift_r (int 40) (int 3) ≡ value_of (bit_oper op_shift_r (int 40) (int 3))
folded-bit_oper_example = folded-bit_oper op_shift_r (int 40) (int 3)

-- -8 >> 1.
bit_oper-arithmetic_shift_example :
    bit_oper op_shift_r (int (2 ^ 64 - 8)) (int 1) ≡ value (int (arithmetic_shift (2 ^ 64 - 8) 1))
bit_oper-arithmetic_shift_example =
    bit_oper-arithmetic_shift (2 ^ 64 - 8) 1 (omega arith) (omega arith) (inr refl)

-- -8 >> 2.
bit_oper_negative_example :
    bit_oper op_shift_r (int (2 ^ 64 - 8)) (int 2) ≢ value (int (arithmetic_shift (2 ^ 64 - 8) 2))
bit_oper_negative_example =
    bit_oper_negative (2 ^ 64 - 8) 2 (omega arith) (omega arith) (omega arith) (omega arith)
