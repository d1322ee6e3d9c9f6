-- ===== src/Optimizer/Folding.antt =====
-- What the optimizer makes of constant expressions.
use choice_lang.Prelude.{
  ℕ, Bool, true, false, not, ◌&&◌, ◌≡◌, refl, sym, ap, ◌∙◌, Option, none, some, if◌then◌else◌, leb,
  arith, Bool-cases, Option-cases, inl, inr,
}
use choice_lang.Token.{TokenType, Token}
use choice_lang.Object.{Object}
use choice_lang.Arith.{
  BitOp, op_and, op_or, op_xor, op_shift_l, op_shift_r, evaluate_bit, evaluate_shift,
}
use choice_lang.Ast.{Expr, Stmt, Stmts}
use choice_lang.Optimizer.{
  Doubles, is_constant, is_truthy_lit, truthy_node, is_truthy_constant, is_falsy_constant,
  evaluate_expr, evaluate, compute, object_to_node, literal_object, logic_objects, compare_objects,
  bit_objects, shift_objects, both, is_truthy, is_and_token, is_or_token, ordered, as_num, node_of,
}
use choice_lang.Optimizer.Rewrite.{optimize_expr, optimize_stmt, is_direct_loop, direct_stmts}

-- A condition that adds or multiplies literals is constant but is not folded. The optimizer takes it
-- for false, whatever its value is: it keeps the else branch alone.
pub if_stmt_unfolded :
    (d : Doubles) (a b : Token) (op : TokenType) (t f : Stmt)
    → optimize_stmt d
        (Stmt.if_stmt (Expr.binary_expr (Expr.literal_expr a) op (Expr.literal_expr b)) t f)
      ≡ optimize_stmt d f
unfolding optimize_expr optimize_stmt compute evaluate evaluate_expr is_constant is_truthy_constant
    truthy_node is_falsy_constant
if_stmt_unfolded d a b op t f = refl

-- A `repeat` whose condition is a true literal and whose block is one `if`, on a variable, with a
-- `break` for its branch and no `else`, is taken out of its loop, whatever the labels are: the
-- `break` is left with no loop, or leaves an outer one.
pub repeat_stmt_nested_break :
    (d : Doubles) (c x label target : Token)
    → is_truthy_lit d c ≡ true
    → optimize_stmt d (
        Stmt.repeat_stmt (Expr.literal_expr c) label (
          Stmt.block_stmt (
            Stmts.stmt
              (Stmt.if_stmt (Expr.var_expr x) (Stmt.break_stmt target) Stmt.no_stmt)
              Stmts.no_stmts)))
      ≡ Stmt.block_stmt (
          Stmts.stmt
            (Stmt.if_stmt (Expr.var_expr x) (Stmt.break_stmt target) Stmt.no_stmt)
            Stmts.no_stmts)
unfolding optimize_expr optimize_stmt is_constant is_truthy_constant truthy_node is_falsy_constant
    is_direct_loop direct_stmts
repeat_stmt_nested_break d c x label target h = rw h refl

-- The objects that the walker makes, or none.
abbrev pub basic : Option Object → Bool
basic none = true
basic (some (Object.int i)) = true
basic (some (Object.dec x)) = true
basic (some (Object.boolean b)) = true
basic (some Object.null) = true
basic (some _) = false

basic_node :
    (d : Doubles) (o : Object) → basic (some o) ≡ true → evaluate_expr d (object_to_node o) ≡ some o
unfolding evaluate_expr object_to_node literal_object
basic_node d (Object.int i) h = refl
basic_node d (Object.dec x) h = refl
basic_node d (Object.boolean true) h = refl
basic_node d (Object.boolean false) h = refl
basic_node d Object.null h = refl
basic_node d _ h = absurd (ground arith)

literal-basic : (t : Token) → basic (literal_object t) ≡ true
unfolding literal_object
literal-basic t = ground arith

basic-if :
    (b : Bool) (s t : Option Object)
    → basic s ≡ true
    → basic t ≡ true
    → basic (if b then s else t) ≡ true
basic-if true s t h k = h
basic-if false s t h k = k

logic-basic :
    (d : Doubles) (op : TokenType) (l r : Option Object) → basic (logic_objects d op l r) ≡ true
unfolding logic_objects
logic-basic d op none r = refl
logic-basic d op (some l) none =
    basic-if (is_and_token op && not (is_truthy d l)) (some (Object.boolean false)) _ refl
      (basic-if (is_or_token op && is_truthy d l) (some (Object.boolean true)) none refl refl)
logic-basic d op (some l) (some r) =
    basic-if (is_and_token op && not (is_truthy d l)) (some (Object.boolean false)) _ refl (
      basic-if (is_or_token op && is_truthy d l) (some (Object.boolean true))
        (some (Object.boolean (is_truthy d r))) refl refl)

ordered-basic : (x y : Option ℕ) (less : ℕ → ℕ → Bool) → basic (ordered x y less) ≡ true
ordered-basic (some x) (some y) less = refl
ordered-basic _ _ less = refl

compare-basic :
    (d : Doubles) (op : TokenType) (l r : Object) → basic (compare_objects d op l r) ≡ true
unfolding compare_objects
compare-basic d TokenType.tok_gt l r = ordered-basic (as_num d l) (as_num d r) _
compare-basic d TokenType.tok_gt_eq l r = ordered-basic (as_num d l) (as_num d r) _
compare-basic d TokenType.tok_lt l r = ordered-basic (as_num d l) (as_num d r) _
compare-basic d TokenType.tok_lt_eq l r = ordered-basic (as_num d l) (as_num d r) _
compare-basic d _ l r = refl

evaluate_bit-basic : (op : BitOp) (l r : Object) → basic (evaluate_bit op l r) ≡ true
unfolding evaluate_bit
evaluate_bit-basic op_and (Object.int a) (Object.int b) = refl
evaluate_bit-basic op_or (Object.int a) (Object.int b) = refl
evaluate_bit-basic op_xor (Object.int a) (Object.int b) = refl
evaluate_bit-basic op l r = ground arith

evaluate_shift-basic : (op : BitOp) (l r : Object) → basic (evaluate_shift op l r) ≡ true
unfolding evaluate_shift
evaluate_shift-basic op_shift_l (Object.int a) (Object.int b) =
    basic-if (leb 64 b) none (some _) refl refl
evaluate_shift-basic op_shift_r (Object.int a) (Object.int b) =
    basic-if (leb 64 b) none (some _) refl refl
evaluate_shift-basic op l r = ground arith

bit-basic : (op : TokenType) (l r : Object) → basic (bit_objects op l r) ≡ true
unfolding bit_objects
bit-basic TokenType.tok_amp l r = evaluate_bit-basic op_and l r
bit-basic TokenType.tok_bar l r = evaluate_bit-basic op_or l r
bit-basic TokenType.tok_uarrow l r = evaluate_bit-basic op_xor l r
bit-basic _ l r = refl

shift-basic : (op : TokenType) (l r : Object) → basic (shift_objects op l r) ≡ true
unfolding shift_objects
shift-basic TokenType.tok_left_shift l r = evaluate_shift-basic op_shift_l l r
shift-basic TokenType.tok_right_shift l r = evaluate_shift-basic op_shift_r l r
shift-basic _ l r = refl

both-basic :
    (f : Object → Object → Option Object)
    → ((l r : Object) → basic (f l r) ≡ true)
    → (x y : Option Object) → basic (both f x y) ≡ true
both-basic f h (some l) (some r) = h l r
both-basic f h (some l) none = refl
both-basic f h none y = refl

evaluate_expr-basic : (d : Doubles) (e : Expr) → basic (evaluate_expr d e) ≡ true
unfolding evaluate_expr
evaluate_expr-basic d (Expr.logic_expr l op r) =
    logic-basic d op (evaluate_expr d l) (evaluate_expr d r)
evaluate_expr-basic d (Expr.compare_expr l op r) =
    both-basic (compare_objects d op) (compare-basic d op) (evaluate_expr d l) (evaluate_expr d r)
evaluate_expr-basic d (Expr.bit_expr l op r) =
    both-basic (bit_objects op) (bit-basic op) (evaluate_expr d l) (evaluate_expr d r)
evaluate_expr-basic d (Expr.shift_expr l op r) =
    both-basic (shift_objects op) (shift-basic op) (evaluate_expr d l) (evaluate_expr d r)
evaluate_expr-basic d (Expr.literal_expr t) = literal-basic t
evaluate_expr-basic d _ = refl

node_value :
    (d : Doubles) (e : Expr) (x : Option Object)
    → evaluate_expr d e ≡ x
    → evaluate_expr d (node_of e x) ≡ x
node_value d e none h = h
node_value d e (some o) h = basic_node d o (ap basic (sym h) ∙ evaluate_expr-basic d e)

-- Putting the result in place of the expression does not change the value.
compute_value : (d : Doubles) (e : Expr) → evaluate_expr d (compute d e) ≡ evaluate_expr d e
unfolding compute evaluate
compute_value d e = elim (Bool-cases (is_constant e)) [
  | inl h ↦ rw h (node_value d e (evaluate_expr d e) refl)
  | inr h ↦ rw h refl
]

-- `evaluateCompareExpr` has a case for the operator; `!=` and `not in` reach `CH_UNREACHABLE`.
abbrev pub has_case : TokenType → Bool
has_case op = elim op [
  | TokenType.tok_eq_eq ↦ true
  | TokenType.tok_gt ↦ true
  | TokenType.tok_gt_eq ↦ true
  | TokenType.tok_lt ↦ true
  | TokenType.tok_lt_eq ↦ true
  | TokenType.tok_in ↦ true
  | _ ↦ false
]

-- Logic, comparisons but `!=` and `not in`, bitwise operators and shifts over literals.
pub data IsFoldable : Expr → Type 0 where
  of_literal : (t : Token) → IsFoldable (Expr.literal_expr t)
  of_logic :
      {l r : Expr} (op : TokenType)
      → IsFoldable l
      → IsFoldable r
      → IsFoldable (Expr.logic_expr l op r)
  of_compare :
      {l r : Expr} (op : TokenType)
      → has_case op ≡ true
      → IsFoldable l
      → IsFoldable r
      → IsFoldable (Expr.compare_expr l op r)
  of_bit :
      {l r : Expr} (op : TokenType)
      → IsFoldable l
      → IsFoldable r
      → IsFoldable (Expr.bit_expr l op r)
  of_shift :
      {l r : Expr} (op : TokenType)
      → IsFoldable l
      → IsFoldable r
      → IsFoldable (Expr.shift_expr l op r)

-- Optimizing an expression of logic, comparisons other than `!=` and `not in`, bitwise operators and
-- shifts over literals does not change its value: what the walker finds for the result is what it
-- finds for the expression, also where it finds none.
pub evaluate_expr-optimize_expr :
    (d : Doubles) {e : Expr}
    → IsFoldable e
    → evaluate_expr d (optimize_expr d e) ≡ evaluate_expr d e
unfolding optimize_expr evaluate_expr
evaluate_expr-optimize_expr d (of_literal t) = refl
evaluate_expr-optimize_expr d (of_logic op l r) =
    compute_value d _ ∙ rw (evaluate_expr-optimize_expr d l, evaluate_expr-optimize_expr d r) refl
evaluate_expr-optimize_expr d (of_compare op known l r) =
    compute_value d _ ∙ rw (evaluate_expr-optimize_expr d l, evaluate_expr-optimize_expr d r) refl
evaluate_expr-optimize_expr d (of_bit op l r) =
    compute_value d _ ∙ rw (evaluate_expr-optimize_expr d l, evaluate_expr-optimize_expr d r) refl
evaluate_expr-optimize_expr d (of_shift op l r) =
    compute_value d _ ∙ rw (evaluate_expr-optimize_expr d l, evaluate_expr-optimize_expr d r) refl

node-constant : (o : Object) → is_constant (object_to_node o) ≡ true
unfolding object_to_node is_constant
node-constant (Object.boolean true) = refl
node-constant (Object.boolean false) = refl
node-constant (Object.int i) = refl
node-constant (Object.dec x) = refl
node-constant _ = refl

compute-constant :
    (d : Doubles) (e : Expr) → is_constant e ≡ true → is_constant (compute d e) ≡ true
unfolding compute evaluate
compute-constant d e h = elim (Option-cases (evaluate_expr d e)) [
  | inl n ↦ rw (h, n) h
  | inr (o, v) ↦ rw (h, v) (node-constant o)
]

parts : (a b : Bool) → a ≡ true → b ≡ true → (a && b) ≡ true
parts a b h k = rw (h, k) refl

IsFoldable-constant :
    (d : Doubles) {e : Expr} → IsFoldable e → is_constant (optimize_expr d e) ≡ true
unfolding optimize_expr is_constant
IsFoldable-constant d (of_literal t) = refl
IsFoldable-constant d (of_logic op l r) =
    compute-constant d _ (parts _ _ (IsFoldable-constant d l) (IsFoldable-constant d r))
IsFoldable-constant d (of_compare op known l r) =
    compute-constant d _ (parts _ _ (IsFoldable-constant d l) (IsFoldable-constant d r))
IsFoldable-constant d (of_bit op l r) =
    compute-constant d _ (parts _ _ (IsFoldable-constant d l) (IsFoldable-constant d r))
IsFoldable-constant d (of_shift op l r) =
    compute-constant d _ (parts _ _ (IsFoldable-constant d l) (IsFoldable-constant d r))

literal-truthy :
    (d : Doubles) (t : Token) (o : Object)
    → literal_object t ≡ some o
    → is_truthy_lit d t ≡ is_truthy d o
unfolding literal_object is_truthy_lit
literal-truthy d t o h = ground arith

node-truthy :
    (d : Doubles) (o : Object)
    → basic (some o) ≡ true
    → truthy_node d (object_to_node o) ≡ is_truthy d o
unfolding truthy_node object_to_node is_truthy_lit
node-truthy d (Object.int i) h = refl
node-truthy d (Object.dec x) h = refl
node-truthy d (Object.boolean true) h = refl
node-truthy d (Object.boolean false) h = refl
node-truthy d Object.null h = refl
node-truthy d _ h = absurd (ground arith)

compute-truthy :
    (d : Doubles) (e : Expr) (o : Object)
    → is_constant e ≡ true
    → evaluate_expr d (compute d e) ≡ some o
    → truthy_node d (compute d e) ≡ is_truthy d o
unfolding compute evaluate
compute-truthy d e o h v =
    let value = sym (compute_value d e) ∙ v in
    rw (h, value) (node-truthy d o (ap basic (sym value) ∙ evaluate_expr-basic d e))

IsFoldable-truthy :
    (d : Doubles) {e : Expr} (o : Object)
    → IsFoldable e
    → evaluate_expr d (optimize_expr d e) ≡ some o
    → truthy_node d (optimize_expr d e) ≡ is_truthy d o
unfolding optimize_expr truthy_node evaluate_expr
IsFoldable-truthy d o (of_literal t) v = literal-truthy d t o v
IsFoldable-truthy d o (of_logic op l r) v =
    compute-truthy d _ o (parts _ _ (IsFoldable-constant d l) (IsFoldable-constant d r)) v
IsFoldable-truthy d o (of_compare op known l r) v =
    compute-truthy d _ o (parts _ _ (IsFoldable-constant d l) (IsFoldable-constant d r)) v
IsFoldable-truthy d o (of_bit op l r) v =
    compute-truthy d _ o (parts _ _ (IsFoldable-constant d l) (IsFoldable-constant d r)) v
IsFoldable-truthy d o (of_shift op l r) v =
    compute-truthy d _ o (parts _ _ (IsFoldable-constant d l) (IsFoldable-constant d r)) v

-- An `if` on a condition of logic, comparisons other than `!=` and `not in`, bitwise operators and
-- shifts over literals, whose value the walker finds, leaves the branch that the truth of the value
-- chooses.
pub if_stmt-IsFoldable :
    (d : Doubles) {c : Expr} (o : Object) (t f : Stmt)
    → IsFoldable c
    → evaluate_expr d c ≡ some o
    → optimize_stmt d (Stmt.if_stmt c t f) ≡ optimize_stmt d (if is_truthy d o then t else f)
unfolding optimize_stmt is_truthy_constant is_falsy_constant
if_stmt-IsFoldable d {c} o t f h v =
    let constant = IsFoldable-constant d h in
    let truth = IsFoldable-truthy d o h (evaluate_expr-optimize_expr d h ∙ v) in
    elim (Bool-cases (is_truthy d o)) [
      | inl b ↦ rw (constant, truth, b) refl
      | inr b ↦ rw (constant, truth, b) refl
    ]
