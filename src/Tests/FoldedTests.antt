-- ===== src/Tests/FoldedTests.antt =====
-- Expressions that the optimizer folds, against their compiled code.
use choice_lang.Prelude.{ℕ, ◌≡◌, ◌⊎◌, refl, true, some, List, [], ◌++◌, arith}
use choice_lang.Object.{Object, int, boolean, bytecode, block, pool, Pool, DebugRange}
use choice_lang.Code.{code_size}
use choice_lang.Code.LoadConst.{Keeps}
use choice_lang.Token.{TokenType}
use choice_lang.Ast.{Expr}
use choice_lang.Arith.{op_and, evaluate_bit}
use choice_lang.Machine.{result, op_gt, is_truthy}
use choice_lang.Optimizer.{
  evaluate_expr, literal_object, bit_objects, compare_objects, logic_objects,
}
use choice_lang.Compiler.{Compiler, compiler, compile_expr}
use choice_lang.Compiler.Operation.{
  Operation, constant, bits_on, compare_on, both, evaluate, IsOperation, bitwise, comparison,
  conjunction, bit_and, greater, double_amp, weight, depth,
}
use choice_lang.Compiler.Deliver.{Delivers}
use choice_lang.Compiler.Correct.{Fits}
use choice_lang.Compiler.Folded.{doubles, evaluate_expr-compile_expr}
use choice_lang.Compiler.Truth.{evaluate_expr-truth}
use choice_lang.Tests.CompilerTests.{number_token, is_number, some_floats}

-- `(6 & 3) > 1`.
abbrev mask_test : Expr
mask_test =
    Expr.compare_expr
      (Expr.bit_expr (Expr.literal_expr (number_token 6)) TokenType.tok_amp
        (Expr.literal_expr (number_token 3)))
      TokenType.tok_gt (Expr.literal_expr (number_token 1))

abbrev mask_operation : Operation
mask_operation =
    compare_on op_gt (bits_on op_and (constant (int 6)) (constant (int 3))) (constant (int 1))

mask_test-IsOperation : IsOperation mask_test mask_operation
mask_test-IsOperation =
    comparison _ _ _ _ TokenType.tok_gt op_gt
      (bitwise _ _ _ _ TokenType.tok_amp op_and (is_number 6 (omega arith))
        (is_number 3 (omega arith)) bit_and)
      (is_number 1 (omega arith)) greater

mask_test_value : evaluate_expr (doubles some_floats) mask_test ≡ some (boolean true)
unfolding evaluate_expr literal_object bit_objects compare_objects evaluate_bit
mask_test_value = refl

mask_test-Fits : Fits (depth mask_operation) (weight mask_operation) 0 [] Pool.nil
mask_test-Fits = record {
  registers = omega arith;
  code = omega arith;
  constants = omega arith;
  distances = omega arith;
}

evaluate_expr-compile_expr_example :
    (c : Compiler) × (compile_expr mask_test (compiler (bytecode [] Pool.nil []) 0) ≡ some (0, c))
    × ((more : List ℕ) (q : Pool) (n : List DebugRange) (regs : ℕ → Object)
        → Keeps (pool c.code) q
        → Delivers some_floats
            (bytecode (block c.code ++ more) q n)
            regs
            0
            0
            (result (boolean true))
            (code_size c.code))
evaluate_expr-compile_expr_example =
    evaluate_expr-compile_expr some_floats mask_test mask_operation (boolean true) 0 [] Pool.nil []
      mask_test-IsOperation refl mask_test_value mask_test-Fits

-- `2 && 7`, which the optimizer makes `true` and the code 7.
abbrev two_and_seven : Expr
two_and_seven =
    Expr.logic_expr (Expr.literal_expr (number_token 2)) TokenType.tok_amp_amp
      (Expr.literal_expr (number_token 7))

abbrev seven : Operation
seven = both (constant (int 2)) (constant (int 7))

seven_evaluated : evaluate some_floats seven ≡ result (int 7)
unfolding evaluate is_truthy
seven_evaluated = refl

seven_folded : evaluate_expr (doubles some_floats) two_and_seven ≡ some (boolean true)
unfolding evaluate_expr literal_object logic_objects
seven_folded = refl

evaluate_expr-truth_example :
    (v : Object) × (evaluate some_floats seven ≡ result v)
    × (boolean true ≡ boolean (is_truthy some_floats v))
    × ((w : Operation) × (IsOperation (Expr.literal_expr (number_token 2)) w
          ⊎ IsOperation (Expr.literal_expr (number_token 7)) w)
        × (evaluate some_floats w ≡ result v))
evaluate_expr-truth_example =
    evaluate_expr-truth some_floats (Expr.literal_expr (number_token 2))
      (Expr.literal_expr (number_token 7)) TokenType.tok_amp_amp seven (boolean true)
      (conjunction _ _ _ _ TokenType.tok_amp_amp (is_number 2 (omega arith))
        (is_number 7 (omega arith)) double_amp)
      refl refl seven_folded
