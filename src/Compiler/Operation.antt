-- ===== src/Compiler/Operation.antt =====
-- What the operators of the language mean, without registers and jumps: operands from left to right,
-- the first error ends the evaluation, and `&&`, `||` and conditionals evaluate what they need.
use choice_lang.Prelude.{ℕ, ◌+◌, ◌^◌, ◌<◌, ◌≤◌, ◌≡◌, length, some, Bool, not, if◌then◌else◌}
use Prim.Native.Nat.{max}
use choice_lang.Object.{Object, int, dec, text, null}
use choice_lang.StringToken.{StringState, parse_string_token}
use choice_lang.Compiler.{get_raw_string}
use choice_lang.Token.{TokenType, Token, integer, decimal, boolean}
use choice_lang.Ast.{Expr}
use choice_lang.Arith.{BitOp, op_and, op_or, op_xor, op_shift_l, op_shift_r, bit_oper}
use choice_lang.Machine.{
  Floats, Result, result, thrown, endless, unreachable, ArithOp, CompareOp, UnaryOp, op_add, op_sub,
  op_mult, op_div, op_power, op_mod, op_equal, op_gt, op_lt, op_in, op_neg, op_not, op_comp,
  arith_oper, compare_oper, unary_oper, from_bits, is_truthy,
}

pub data Operation : Type 0 where
  constant : Object → Operation
  arith_on : ArithOp → Operation → Operation → Operation
  bits_on : BitOp → Operation → Operation → Operation
  compare_on : CompareOp → Operation → Operation → Operation
  unary_on : UnaryOp → Operation → Operation
  both either : Operation → Operation → Operation
  choose : Operation → Operation → Operation → Operation

-- The next part of an evaluation sees a value, not an error.
abbrev pub and_then : Result → (Object → Result) → Result
and_then (result v) f = f v
and_then (thrown e) f = thrown e
and_then endless f = endless
and_then unreachable f = unreachable

unfoldable pub evaluate : Floats → Operation → Result
evaluate fl (constant o) = result o
evaluate fl (arith_on op a b) =
    and_then (evaluate fl a) (λ x. and_then (evaluate fl b) (λ y. arith_oper fl op x y))
evaluate fl (bits_on op a b) =
    and_then (evaluate fl a) (λ x. and_then (evaluate fl b) (λ y. from_bits (bit_oper op x y)))
evaluate fl (compare_on op a b) =
    and_then (evaluate fl a) (λ x. and_then (evaluate fl b) (λ y. compare_oper fl op x y))
evaluate fl (unary_on op a) = and_then (evaluate fl a) (λ x. unary_oper fl op x)
evaluate fl (both a b) =
    and_then (evaluate fl a) (λ x. if not (is_truthy fl x) then result x else evaluate fl b)
evaluate fl (either a b) =
    and_then (evaluate fl a) (λ x. if is_truthy fl x then result x else evaluate fl b)
evaluate fl (choose c t f) =
    and_then (evaluate fl c) (λ x. if not (is_truthy fl x) then evaluate fl f else evaluate fl t)

-- What each operator of the language stands for; of a negated comparison the result is inverted.
pub data IsArith : TokenType → ArithOp → Type 0 where
  sum : IsArith TokenType.tok_plus op_add
  difference : IsArith TokenType.tok_minus op_sub
  product : IsArith TokenType.tok_star op_mult
  quotient : IsArith TokenType.tok_slash op_div
  rest : IsArith TokenType.tok_percent op_mod
  power : IsArith TokenType.tok_star_star op_power

pub data IsBitwise : TokenType → BitOp → Type 0 where
  bit_and : IsBitwise TokenType.tok_amp op_and
  bit_or : IsBitwise TokenType.tok_bar op_or
  bit_xor : IsBitwise TokenType.tok_uarrow op_xor

pub data IsShift : TokenType → BitOp → Type 0 where
  to_left : IsShift TokenType.tok_left_shift op_shift_l
  to_right : IsShift TokenType.tok_right_shift op_shift_r

pub data IsComparison : TokenType → CompareOp → Type 0 where
  equals : IsComparison TokenType.tok_eq_eq op_equal
  greater : IsComparison TokenType.tok_gt op_gt
  less : IsComparison TokenType.tok_lt op_lt
  member : IsComparison TokenType.tok_in op_in

pub data IsNegated : TokenType → CompareOp → Type 0 where
  differs : IsNegated TokenType.tok_bang_eq op_equal
  at_most : IsNegated TokenType.tok_lt_eq op_gt
  at_least : IsNegated TokenType.tok_gt_eq op_lt
  no_member : IsNegated TokenType.tok_not op_in

pub data IsUnary : TokenType → UnaryOp → Type 0 where
  minus : IsUnary TokenType.tok_minus op_neg
  bang : IsUnary TokenType.tok_bang op_not
  negation : IsUnary TokenType.tok_not op_not
  tilde : IsUnary TokenType.tok_tilde op_comp

pub data IsAnd : TokenType → Type 0 where
  double_amp : IsAnd TokenType.tok_amp_amp
  word_and : IsAnd TokenType.tok_and

pub data IsOr : TokenType → Type 0 where
  double_bar : IsOr TokenType.tok_bar_bar
  word_or : IsOr TokenType.tok_or

-- The expressions that stand for an operation. The token of a string has its quotes.
pub data IsOperation : Expr → Operation → Type 0 where
  number :
      (t : Token) (i : ℕ)
      → t.type_ ≡ TokenType.tok_num
      → t.content ≡ integer i
      → i < 2 ^ 64
      → IsOperation (Expr.literal_expr t) (constant (int i))
  number_dec :
      (t : Token) (d : ℕ)
      → t.type_ ≡ TokenType.tok_num_dec
      → t.content ≡ decimal d
      → IsOperation (Expr.literal_expr t) (constant (dec d))
  truth :
      (t : Token) (b : Bool)
      → t.type_ ≡ (if b then TokenType.tok_true else TokenType.tok_false)
      → t.content ≡ boolean b
      → IsOperation (Expr.literal_expr t) (constant (Object.boolean b))
  nothing :
      (t : Token) → t.type_ ≡ TokenType.tok_null → IsOperation (Expr.literal_expr t) (constant null)
  quoted :
      (t : Token) (s : StringState)
      → t.type_ ≡ TokenType.tok_str_lit
      → 2 ≤ length t.text
      → parse_string_token t.text 1 2 ≡ some s
      → IsOperation (Expr.literal_expr t) (constant (text s.str))
  raw :
      (t : Token)
      → t.type_ ≡ TokenType.tok_raw_str
      → 3 ≤ length t.text
      → IsOperation (Expr.literal_expr t) (constant (text (get_raw_string t.text)))
  arithmetic :
      (l r : Expr) (a b : Operation) (op : TokenType) (oper : ArithOp)
      → IsOperation l a
      → IsOperation r b
      → IsArith op oper
      → IsOperation (Expr.binary_expr l op r) (arith_on oper a b)
  bitwise :
      (l r : Expr) (a b : Operation) (op : TokenType) (oper : BitOp)
      → IsOperation l a
      → IsOperation r b
      → IsBitwise op oper
      → IsOperation (Expr.bit_expr l op r) (bits_on oper a b)
  shift :
      (l r : Expr) (a b : Operation) (op : TokenType) (oper : BitOp)
      → IsOperation l a
      → IsOperation r b
      → IsShift op oper
      → IsOperation (Expr.shift_expr l op r) (bits_on oper a b)
  comparison :
      (l r : Expr) (a b : Operation) (op : TokenType) (oper : CompareOp)
      → IsOperation l a
      → IsOperation r b
      → IsComparison op oper
      → IsOperation (Expr.compare_expr l op r) (compare_on oper a b)
  inverted :
      (l r : Expr) (a b : Operation) (op : TokenType) (oper : CompareOp)
      → IsOperation l a
      → IsOperation r b
      → IsNegated op oper
      → IsOperation (Expr.compare_expr l op r) (unary_on op_not (compare_on oper a b))
  on_one :
      (e : Expr) (a : Operation) (op : Token) (prev : Bool) (oper : UnaryOp)
      → IsOperation e a
      → IsUnary op.type_ oper
      → IsOperation (Expr.unary_expr op e prev) (unary_on oper a)
  conjunction :
      (l r : Expr) (a b : Operation) (op : TokenType)
      → IsOperation l a
      → IsOperation r b
      → IsAnd op
      → IsOperation (Expr.logic_expr l op r) (both a b)
  disjunction :
      (l r : Expr) (a b : Operation) (op : TokenType)
      → IsOperation l a
      → IsOperation r b
      → IsOr op
      → IsOperation (Expr.logic_expr l op r) (either a b)
  conditional :
      (cond t f : Expr) (a b c : Operation)
      → IsOperation cond a
      → IsOperation t b
      → IsOperation f c
      → IsOperation (Expr.if_expr cond t f) (choose a b c)

-- A bound on the bytes of the code.
abbrev pub weight : Operation → ℕ
weight (constant o) = 7
weight (arith_on op a b) = weight a + weight b + 3
weight (bits_on op a b) = weight a + weight b + 3
weight (compare_on op a b) = weight a + weight b + 3
weight (unary_on op a) = weight a + 2
weight (both a b) = weight a + 4 + weight b
weight (either a b) = weight a + 4 + weight b
weight (choose c t f) = weight c + 4 + weight t + 3 + weight f

-- The registers that are in use at once.
abbrev pub depth : Operation → ℕ
depth (constant o) = 1
depth (arith_on op a b) = max (depth a) (1 + depth b)
depth (bits_on op a b) = max (depth a) (1 + depth b)
depth (compare_on op a b) = max (depth a) (1 + depth b)
depth (unary_on op a) = depth a
depth (both a b) = max (depth a) (depth b)
depth (either a b) = max (depth a) (depth b)
depth (choose c t f) = max (depth c) (max (depth t) (depth f))
