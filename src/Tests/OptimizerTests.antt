-- ===== src/Tests/OptimizerTests.antt =====
-- Runs of src/optimizer.cpp.
use choice_lang.Prelude.{ℕ, true, ◌≡◌, refl, [], ltb, ◌==◌, if◌then◌else◌}
use choice_lang.Token.{TokenType, Value, Token, unset, integer, boolean}
use choice_lang.Ast.{Expr, Stmt, Stmts}
use choice_lang.Optimizer.{
  Doubles, is_truthy_lit, is_truthy, evaluate_expr, logic_objects, shift_objects, literal_object,
}
use choice_lang.Object.{Object}
use choice_lang.Arith.{evaluate_shift}
use choice_lang.Optimizer.Rewrite.{optimize_expr, optimize_stmt}
use choice_lang.Optimizer.Folding.{
  if_stmt_unfolded, if_stmt-IsFoldable, repeat_stmt_nested_break, of_literal, of_logic, of_shift,
  evaluate_expr-optimize_expr,
}

-- Doubles that are natural numbers.
abbrev whole : Doubles
whole = record { of_int = λ n. n; equal = λ x y. x == y; less = ltb }

abbrev token : TokenType → Value → Token
token type_ content = record { type_ = type_; text = []; content = content; byte_offset = 0 }

abbrev number : ℕ → Token
number n = token TokenType.tok_num (integer n)

abbrev truth : Token
truth = token TokenType.tok_true (boolean true)

abbrev name : Token
name = token TokenType.tok_identifier unset

abbrev no_label : Token
no_label = token TokenType.tok_eof unset

-- if (1 + 1) break; else end;
if_stmt_unfolded_example :
    optimize_stmt whole (
      Stmt.if_stmt
        (Expr.binary_expr
          (Expr.literal_expr (number 1))
          TokenType.tok_plus
          (Expr.literal_expr (number 1)))
        (Stmt.break_stmt no_label)
        Stmt.end_stmt)
    ≡ optimize_stmt whole Stmt.end_stmt
if_stmt_unfolded_example =
    if_stmt_unfolded whole (number 1) (number 1) TokenType.tok_plus (Stmt.break_stmt no_label)
      Stmt.end_stmt

-- true && (8 << 2).
abbrev sample : Expr
sample = Expr.logic_expr (Expr.literal_expr truth) TokenType.tok_amp_amp (
    Expr.shift_expr (Expr.literal_expr (number 8)) TokenType.tok_left_shift
      (Expr.literal_expr (number 2)))

evaluate_expr-optimize_expr_example :
    evaluate_expr whole (optimize_expr whole sample) ≡ evaluate_expr whole sample
evaluate_expr-optimize_expr_example = evaluate_expr-optimize_expr whole (
    of_logic TokenType.tok_amp_amp (of_literal truth)
      (of_shift TokenType.tok_left_shift (of_literal (number 8)) (of_literal (number 2))))

repeat_stmt_nested_break_example :
    optimize_stmt whole (
      Stmt.repeat_stmt (Expr.literal_expr truth) no_label (
        Stmt.block_stmt (
          Stmts.stmt
            (Stmt.if_stmt (Expr.var_expr name) (Stmt.break_stmt no_label) Stmt.no_stmt)
            Stmts.no_stmts)))
    ≡ Stmt.block_stmt (
        Stmts.stmt
          (Stmt.if_stmt (Expr.var_expr name) (Stmt.break_stmt no_label) Stmt.no_stmt)
          Stmts.no_stmts)
unfolding is_truthy_lit
repeat_stmt_nested_break_example = repeat_stmt_nested_break whole truth name no_label no_label refl

if_stmt-IsFoldable_example :
    optimize_stmt whole (Stmt.if_stmt sample (Stmt.break_stmt no_label) Stmt.end_stmt)
    ≡ optimize_stmt whole
        (if is_truthy whole (Object.boolean true) then Stmt.break_stmt no_label else Stmt.end_stmt)
unfolding evaluate_expr logic_objects shift_objects literal_object evaluate_shift
if_stmt-IsFoldable_example =
    if_stmt-IsFoldable whole (Object.boolean true) (Stmt.break_stmt no_label) Stmt.end_stmt
      (of_logic TokenType.tok_amp_amp (of_literal truth)
        (of_shift TokenType.tok_left_shift (of_literal (number 8)) (of_literal (number 2))))
      refl
