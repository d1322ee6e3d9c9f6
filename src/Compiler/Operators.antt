-- ===== src/Compiler/Operators.antt =====
-- src/compiler.cpp: the opcode that each operator of the language is compiled to.
use choice_lang.Prelude.{◌≡◌, refl, true, false, some}
use choice_lang.Token.{TokenType}
use choice_lang.Opcodes.{op_jump_true, op_jump_false}
use choice_lang.Arith.{BitOp}
use choice_lang.Machine.{ArithOp, CompareOp, UnaryOp}
use choice_lang.Compiler.{arith_of, bits_of, shift_of, compare_of, unary_of, logic_jump}
use choice_lang.Compiler.Operation.{
  IsArith, IsBitwise, IsShift, IsComparison, IsNegated, IsUnary, IsAnd, IsOr, sum, difference,
  product, quotient, rest, power, bit_and, bit_or, bit_xor, to_left, to_right, equals, greater,
  less, member, differs, at_most, at_least, no_member, minus, bang, negation, tilde, double_amp,
  word_and, double_bar, word_or,
}

pub arith_of-IsArith : (op : TokenType) (k : ArithOp) → IsArith op k → arith_of op ≡ some k
arith_of-IsArith _ _ sum = refl
arith_of-IsArith _ _ difference = refl
arith_of-IsArith _ _ product = refl
arith_of-IsArith _ _ quotient = refl
arith_of-IsArith _ _ rest = refl
arith_of-IsArith _ _ power = refl

pub bits_of-IsBitwise : (op : TokenType) (k : BitOp) → IsBitwise op k → bits_of op ≡ some k
bits_of-IsBitwise _ _ bit_and = refl
bits_of-IsBitwise _ _ bit_or = refl
bits_of-IsBitwise _ _ bit_xor = refl

pub shift_of-IsShift : (op : TokenType) (k : BitOp) → IsShift op k → shift_of op ≡ k
shift_of-IsShift _ _ to_left = refl
shift_of-IsShift _ _ to_right = refl

pub compare_of-IsComparison :
    (op : TokenType) (k : CompareOp) → IsComparison op k → compare_of op ≡ some (k, false)
compare_of-IsComparison _ _ equals = refl
compare_of-IsComparison _ _ greater = refl
compare_of-IsComparison _ _ less = refl
compare_of-IsComparison _ _ member = refl

pub compare_of-IsNegated :
    (op : TokenType) (k : CompareOp) → IsNegated op k → compare_of op ≡ some (k, true)
compare_of-IsNegated _ _ differs = refl
compare_of-IsNegated _ _ at_most = refl
compare_of-IsNegated _ _ at_least = refl
compare_of-IsNegated _ _ no_member = refl

pub unary_of-IsUnary : (op : TokenType) (k : UnaryOp) → IsUnary op k → unary_of op ≡ some k
unary_of-IsUnary _ _ minus = refl
unary_of-IsUnary _ _ bang = refl
unary_of-IsUnary _ _ negation = refl
unary_of-IsUnary _ _ tilde = refl

pub logic_jump-IsAnd : (op : TokenType) → IsAnd op → logic_jump op ≡ some op_jump_false
unfolding logic_jump
logic_jump-IsAnd _ double_amp = refl
logic_jump-IsAnd _ word_and = refl

pub logic_jump-IsOr : (op : TokenType) → IsOr op → logic_jump op ≡ some op_jump_true
unfolding logic_jump
logic_jump-IsOr _ double_bar = refl
logic_jump-IsOr _ word_or = refl
