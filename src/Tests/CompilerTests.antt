-- ===== src/Tests/CompilerTests.antt =====
-- Runs of the compiler of expressions and of the machine.
use choice_lang.Prelude.{
  ℕ, ◌+◌, ◌-◌, ◌*◌, ◌/◌, ◌^◌, ◌<◌, ◌==◌, ltb, ◌≡◌, refl, false, some, List, [], ◌∷◌, ◌++◌, arith,
}
use choice_lang.Object.{Object, int, bytecode, block, pool, Pool, DebugRange}
use choice_lang.Code.{code_size}
use choice_lang.Code.LoadConst.{Keeps}
use choice_lang.Token.{TokenType, Token, integer}
use choice_lang.Ast.{Expr}
use choice_lang.Arith.{ipow, ipow_loop}
use choice_lang.Machine.{
  Floats, result, endless, op_add, op_mod, op_power, op_lt, op_not, arith_oper, int_arith,
  compare_oper, object_less, unary_oper, is_truthy,
}
use choice_lang.Compiler.{Compiler, compiler, compile_expr}
use choice_lang.Compiler.Operation.{
  Operation, constant, arith_on, compare_on, unary_on, both, evaluate, IsOperation, number,
  arithmetic, inverted, conjunction, sum, at_least, double_amp, weight, depth,
}
use choice_lang.Compiler.Deliver.{Delivers}
use choice_lang.Compiler.Correct.{Fits, compile_expr-evaluate}

abbrev pub number_token : ℕ → Token
number_token i = record {
  type_ = TokenType.tok_num;
  text = [];
  content = integer i;
  byte_offset = 0;
}

-- `1 + 300 >= 2 && 7`.
abbrev sum_test : Expr
sum_test =
    Expr.logic_expr
      (Expr.compare_expr
        (Expr.binary_expr (Expr.literal_expr (number_token 1)) TokenType.tok_plus
          (Expr.literal_expr (number_token 300)))
        TokenType.tok_gt_eq (Expr.literal_expr (number_token 2)))
      TokenType.tok_amp_amp (Expr.literal_expr (number_token 7))

abbrev sum_operation : Operation
sum_operation =
    both
      (unary_on op_not (
        compare_on op_lt (arith_on op_add (constant (int 1)) (constant (int 300)))
          (constant (int 2))))
      (constant (int 7))

pub is_number :
    (i : ℕ) → i < 2 ^ 64 → IsOperation (Expr.literal_expr (number_token i)) (constant (int i))
is_number i h = number (number_token i) i refl refl h

sum_test-IsOperation : IsOperation sum_test sum_operation
sum_test-IsOperation =
    conjunction _ _ _ _ TokenType.tok_amp_amp
      (inverted _ _ _ _ TokenType.tok_gt_eq op_lt
        (arithmetic _ _ _ _ TokenType.tok_plus op_add (is_number 1 (omega arith))
          (is_number 300 (omega arith)) sum)
        (is_number 2 (omega arith)) at_least)
      (is_number 7 (omega arith)) double_amp

sum_test-Fits : Fits (depth sum_operation) (weight sum_operation) 3 (9 ∷ []) Pool.nil
sum_test-Fits = record {
  registers = omega arith;
  code = omega arith;
  constants = omega arith;
  distances = omega arith;
}

-- Doubles that hold natural numbers.
abbrev pub some_floats : Floats
some_floats = record {
  of_int = λ a. a;
  add = λ a b. a + b;
  sub = λ a b. a - b;
  mult = λ a b. a * b;
  div = λ a b. a / b;
  pow = λ a b. a ^ b;
  negate = λ a. a;
  equal = λ a b. a == b;
  less = ltb;
  same_pointer = λ a b. false;
}

sum_value : evaluate some_floats sum_operation ≡ result (int 7)
unfolding evaluate arith_oper int_arith compare_oper object_less unary_oper is_truthy
sum_value = refl

negative_power : int_arith some_floats op_power 2 (2 ^ 64 - 1) ≡ endless
unfolding int_arith ipow ipow_loop
negative_power = refl

remainder_sign : int_arith some_floats op_mod (2 ^ 64 - 7) 3 ≡ result (int (2 ^ 64 - 1))
unfolding int_arith
remainder_sign = refl

compile_expr-evaluate_example :
    (c : Compiler) × (compile_expr sum_test (compiler (bytecode (9 ∷ []) Pool.nil []) 3)
      ≡ some (3, c))
    × ((more : List ℕ) (q : Pool) (n : List DebugRange) (regs : ℕ → Object)
        → Keeps (pool c.code) q
        → Delivers some_floats
            (bytecode (block c.code ++ more) q n)
            regs
            1
            3
            (evaluate some_floats sum_operation)
            (code_size c.code))
compile_expr-evaluate_example =
    compile_expr-evaluate some_floats sum_test sum_operation 3 (9 ∷ []) Pool.nil []
      sum_test-IsOperation sum_test-Fits
