-- ===== src/Optimizer.antt =====
-- src/optimizer.cpp: the tests for constant expressions and the evaluation of constants by the
-- class `TreeWalker`. Comparisons of numbers go by doubles, which are the parameters of `Doubles`.
pub mod Rewrite
pub mod Folding
use choice_lang.Prelude.{
  ℕ, zero, suc, Bool, true, false, not, ◌&&◌, ◌||◌, Option, none, some, ltb, ◌==◌, if◌then◌else◌,
  length, List, [],
}
use choice_lang.Token.{TokenType, Value, unset, integer, decimal, boolean, null_pointer, Token}
use choice_lang.Object.{Object}
use choice_lang.Arith.{op_and, op_or, op_xor, op_shift_l, op_shift_r, evaluate_bit, evaluate_shift}
use choice_lang.Ast.{Expr, Exprs, Pairs}

-- Arithmetic of doubles, on their patterns: the double of an integer, and the comparisons.
pub record Doubles : Type 0 where
  pub of_int : ℕ → ℕ
  pub equal : ℕ → ℕ → Bool
  pub less : ℕ → ℕ → Bool

-- 0.0 has the pattern 0.
abbrev pub double_zero : ℕ
double_zero = 0

unfoldable mutual
  pub is_constant : Expr → Bool
  is_constant (Expr.mut_expr mut value) = is_constant value
  is_constant (Expr.logic_expr l op r) = is_constant l && is_constant r
  is_constant (Expr.compare_expr l op r) = is_constant l && is_constant r
  is_constant (Expr.bit_expr l op r) = is_constant l && is_constant r
  is_constant (Expr.shift_expr l op r) = is_constant l && is_constant r
  is_constant (Expr.binary_expr l op r) = is_constant l && is_constant r
  is_constant (Expr.unary_expr op e prev) = is_constant e
  is_constant (Expr.index_expr obj index) = is_constant obj && is_constant index
  is_constant (Expr.if_expr c t f) = is_constant c && is_constant t && is_constant f
  is_constant (Expr.list_expr entries) = all_constant entries
  is_constant (Expr.table_expr pairs) = all_pairs_constant pairs
  is_constant (Expr.literal_expr t) = true
  is_constant _ = false

  pub all_constant : Exprs → Bool
  all_constant Exprs.no_exprs = true
  all_constant (Exprs.expr e es) = is_constant e && all_constant es

  pub all_pairs_constant : Pairs → Bool
  all_pairs_constant Pairs.no_pairs = true
  all_pairs_constant (Pairs.pair k v ps) = is_constant k && is_constant v && all_pairs_constant ps

-- The double 0.0 is compared with `!=`.
unfoldable pub is_truthy_lit : Doubles → Token → Bool
is_truthy_lit d t = elim t.type_ [
  | TokenType.tok_num ↦ elim t.content [ integer i ↦ not (i == 0) | _ ↦ false ]
  | TokenType.tok_num_dec ↦ elim t.content [ decimal x ↦ not (d.equal x double_zero) | _ ↦ false ]
  | TokenType.tok_str_lit ↦ ltb 2 (length t.text)
  | TokenType.tok_raw_str ↦ ltb 3 (length t.text)
  | TokenType.tok_true ↦ true
  | _ ↦ false
]

-- `isTruthyConstant` behind its first test.
unfoldable pub truthy_node : Doubles → Expr → Bool
unfolding is_truthy_lit is_constant
truthy_node d (Expr.mut_expr mut value) = is_constant value && truthy_node d value
truthy_node d (Expr.literal_expr t) = is_truthy_lit d t
truthy_node d (Expr.list_expr Exprs.no_exprs) = false
truthy_node d (Expr.list_expr entries) = true
truthy_node d (Expr.table_expr Pairs.no_pairs) = false
truthy_node d (Expr.table_expr pairs) = true
truthy_node d _ = false

unfoldable pub is_truthy_constant : Doubles → Expr → Bool
is_truthy_constant d node = is_constant node && truthy_node d node

unfoldable pub is_falsy_constant : Doubles → Expr → Bool
is_falsy_constant d node = is_constant node && not (is_truthy_constant d node)

abbrev empty_node : Expr → Bool
empty_node (Expr.list_expr Exprs.no_exprs) = true
empty_node (Expr.table_expr Pairs.no_pairs) = true
empty_node _ = false

unfoldable pub is_empty_constant : Expr → Bool
is_empty_constant node = is_constant node && empty_node node

-- `AS_NUM`, of an integer or a double.
abbrev pub as_num : Doubles → Object → Option ℕ
as_num d (Object.int i) = some (d.of_int i)
as_num d (Object.dec x) = some x
as_num d _ = none

-- `Object::isTruthy` on the objects that the walker makes.
abbrev pub is_truthy : Doubles → Object → Bool
is_truthy d (Object.int i) = not (i == 0)
is_truthy d (Object.dec x) = not (d.equal x double_zero)
is_truthy d (Object.boolean b) = b
is_truthy d _ = false

abbrev pub same_object : Doubles → Object → Object → Bool
same_object d (Object.int i) (Object.int j) = d.equal (d.of_int i) (d.of_int j)
same_object d (Object.int i) (Object.dec y) = d.equal (d.of_int i) y
same_object d (Object.dec x) (Object.int j) = d.equal x (d.of_int j)
same_object d (Object.dec x) (Object.dec y) = d.equal x y
same_object d (Object.boolean a) (Object.boolean b) = if a then b else not b
same_object d Object.null Object.null = true
same_object d _ _ = false

abbrev pub ordered : Option ℕ → Option ℕ → (ℕ → ℕ → Bool) → Option Object
ordered (some x) (some y) less = some (Object.boolean (less x y))
ordered _ _ less = none

-- `evaluateCompareExpr` on valid operands. `in` throws on them, and the walker gives up. `!=` and
-- `not in` reach `CH_UNREACHABLE`, and so does every operator that is no comparison: the source has no
-- result for them, nor has the model, and what is proved leaves them out.
unfoldable pub compare_objects : Doubles → TokenType → Object → Object → Option Object
compare_objects d op l r = elim op [
  | TokenType.tok_eq_eq ↦ some (Object.boolean (same_object d l r))
  | TokenType.tok_gt ↦ ordered (as_num d l) (as_num d r) (λ x y. d.less y x)
  | TokenType.tok_gt_eq ↦ ordered (as_num d l) (as_num d r) (λ x y. d.less y x || d.equal x y)
  | TokenType.tok_lt ↦ ordered (as_num d l) (as_num d r) d.less
  | TokenType.tok_lt_eq ↦ ordered (as_num d l) (as_num d r) (λ x y. d.less x y || d.equal x y)
  | _ ↦ none
]

abbrev pub is_and_token : TokenType → Bool
is_and_token TokenType.tok_amp_amp = true
is_and_token TokenType.tok_and = true
is_and_token _ = false

abbrev pub is_or_token : TokenType → Bool
is_or_token TokenType.tok_bar_bar = true
is_or_token TokenType.tok_or = true
is_or_token _ = false

-- The invalid object is `none`.
unfoldable pub logic_objects : Doubles → TokenType → Option Object → Option Object → Option Object
logic_objects d op none r = none
logic_objects d op (some l) none =
    if is_and_token op && not (is_truthy d l)
    then some (Object.boolean false)
    else if is_or_token op && is_truthy d l
    then some (Object.boolean true)
    else none
logic_objects d op (some l) (some r) =
    if is_and_token op && not (is_truthy d l)
    then some (Object.boolean false)
    else if is_or_token op && is_truthy d l
    then some (Object.boolean true)
    else some (Object.boolean (is_truthy d r))

abbrev pub both : (Object → Object → Option Object) → Option Object → Option Object → Option Object
both f (some l) (some r) = f l r
both f _ _ = none

unfoldable pub bit_objects : TokenType → Object → Object → Option Object
bit_objects op l r = elim op [
  | TokenType.tok_amp ↦ evaluate_bit op_and l r
  | TokenType.tok_bar ↦ evaluate_bit op_or l r
  | TokenType.tok_uarrow ↦ evaluate_bit op_xor l r
  | _ ↦ none
]

unfoldable pub shift_objects : TokenType → Object → Object → Option Object
shift_objects op l r = elim op [
  | TokenType.tok_left_shift ↦ evaluate_shift op_shift_l l r
  | TokenType.tok_right_shift ↦ evaluate_shift op_shift_r l r
  | _ ↦ none
]

unfoldable pub literal_object : Token → Option Object
literal_object t = elim t.type_ [
  | TokenType.tok_num ↦ elim t.content [ integer i ↦ some (Object.int i) | _ ↦ none ]
  | TokenType.tok_num_dec ↦ elim t.content [ decimal x ↦ some (Object.dec x) | _ ↦ none ]
  | TokenType.tok_true ↦ some (Object.boolean true)
  | TokenType.tok_false ↦ some (Object.boolean false)
  | TokenType.tok_null ↦ some Object.null
  | _ ↦ none
]

unfoldable pub evaluate_expr : Doubles → Expr → Option Object
evaluate_expr d (Expr.logic_expr l op r) =
    logic_objects d op (evaluate_expr d l) (evaluate_expr d r)
evaluate_expr d (Expr.compare_expr l op r) =
    both (compare_objects d op) (evaluate_expr d l) (evaluate_expr d r)
evaluate_expr d (Expr.bit_expr l op r) =
    both (bit_objects op) (evaluate_expr d l) (evaluate_expr d r)
evaluate_expr d (Expr.shift_expr l op r) =
    both (shift_objects op) (evaluate_expr d l) (evaluate_expr d r)
evaluate_expr d (Expr.literal_expr t) = literal_object t
evaluate_expr d _ = none

abbrev synthetic_token : TokenType → Value → Token
synthetic_token type_ content = record {
  type_ = type_;
  text = [];
  content = content;
  byte_offset = 0;
}

-- The walker makes no other objects than these.
unfoldable pub object_to_node : Object → Expr
object_to_node (Object.int i) = Expr.literal_expr (synthetic_token TokenType.tok_num (integer i))
object_to_node (Object.dec x) =
    Expr.literal_expr (synthetic_token TokenType.tok_num_dec (decimal x))
object_to_node (Object.boolean true) =
    Expr.literal_expr (synthetic_token TokenType.tok_true (boolean true))
object_to_node (Object.boolean false) =
    Expr.literal_expr (synthetic_token TokenType.tok_false (boolean false))
object_to_node _ = Expr.literal_expr (synthetic_token TokenType.tok_null null_pointer)

abbrev pub node_of : Expr → Option Object → Expr
node_of node none = node
node_of node (some o) = object_to_node o

unfoldable pub evaluate : Doubles → Expr → Expr
evaluate d node = node_of node (evaluate_expr d node)

-- The macro COMPUTE.
unfoldable pub compute : Doubles → Expr → Expr
compute d node = if is_constant node then evaluate d node else node
