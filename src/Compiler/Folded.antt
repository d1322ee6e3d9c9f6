-- ===== src/Compiler/Folded.antt =====
-- src/optimizer.cpp against src/compiler.cpp and src/vm.cpp: the walker's values and those of the
-- compiled code.
use choice_lang.Prelude.{
  ℕ, ◌≡◌, refl, ap, leb, List, ◌++◌, length, arith, sym, Bool, true, false, ◌&&◌, Option, none,
  some, and-true, Bool-cases, inl, inr,
}
use mathlib.Core.Path.{subst}
use choice_lang.Token.{TokenType}
use choice_lang.Object.{Object, int, dec, boolean, null, bytecode, block, pool, Pool, DebugRange}
use choice_lang.Code.{code_size}
use choice_lang.Code.LoadConst.{Keeps}
use choice_lang.Compiler.{Compiler, compiler, compile_expr}
use choice_lang.Compiler.Deliver.{Delivers}
use choice_lang.Compiler.Correct.{Fits, compile_expr-evaluate}
use choice_lang.Ast.{Expr}
use choice_lang.Arith.{
  BitOp, BitResult, value, hit_shift_max, wrong_operands, op_and, op_or, op_xor, op_shift_l,
  op_shift_r, bit_oper, evaluate_bit, evaluate_shift,
}
use choice_lang.Arith.Shifts.{folded, value_of, folded-bit_oper}
use choice_lang.Machine.{
  Floats, Result, result, CompareOp, is_truthy, compare_oper, object_less, object_in, from_bits,
}
use choice_lang.Optimizer as Walker
use choice_lang.Machine
use choice_lang.Optimizer.{
  Doubles, evaluate_expr, compare_objects, bit_objects, shift_objects, logic_objects,
  literal_object,
}
use choice_lang.Optimizer.Folding.{basic}
use choice_lang.Compiler.Operation.{
  Operation, IsOperation, evaluate, and_then, number, number_dec, truth, nothing, quoted, raw,
  arithmetic, bitwise, shift, comparison, inverted, on_one, conjunction, disjunction, conditional,
  IsBitwise, bit_and, bit_or, bit_xor, IsShift, to_left, to_right, weight, depth, IsComparison,
  equals, greater, less, member, IsNegated, differs, at_most, at_least, no_member,
}

-- The comparisons of the machine's doubles.
abbrev pub doubles : Floats → Doubles
doubles fl = record { of_int = fl.of_int; equal = fl.equal; less = fl.less }

abbrev is_total : TokenType → Bool
is_total op = elim op [ TokenType.tok_lt_eq ↦ false | TokenType.tok_gt_eq ↦ false | _ ↦ true ]

-- No `&&` and no `||`, whose values differ, and no `<=` and `>=`, whose values differ on NaN.
abbrev pub is_plain : Expr → Bool
is_plain (Expr.logic_expr l op r) = false
is_plain (Expr.compare_expr l op r) = is_total op && (is_plain l && is_plain r)
is_plain (Expr.bit_expr l op r) = is_plain l && is_plain r
is_plain (Expr.shift_expr l op r) = is_plain l && is_plain r
is_plain _ = true

-- The walker gives up, or finds the value of the code.
abbrev pub Gives : Option Object → Result → Type 0
Gives none r = Unit
Gives (some o) r = (r ≡ result o) × (basic (some o) ≡ true)

both_given :
    (x y : Option Object) (p q : Result) (f : Object → Object → Option Object)
    (g : Object → Object → Result)
    → ((o o' : Object) → basic (some o) ≡ true → basic (some o') ≡ true → Gives (f o o') (g o o'))
    → Gives x p
    → Gives y q
    → Gives (Walker.both f x y) (and_then p (λ v. and_then q (λ w. g v w)))
both_given none y p q f g h hx hy = tt
both_given (some o) none p q f g h hx hy = tt
both_given (some o) (some o') p q f g h hx hy = rw (hx.0, hy.0) (h o o' hx.1 hy.1)

folded-basic : (k : BitOp) (o o' : Object) → basic (folded k o o') ≡ true
unfolding evaluate_bit evaluate_shift
folded-basic op_and (int a) (int b) = refl
folded-basic op_or (int a) (int b) = refl
folded-basic op_xor (int a) (int b) = refl
folded-basic op_shift_l (int a) (int b) = elim (Bool-cases (leb 64 b)) [
  | inl e ↦ rw e refl
  | inr e ↦ rw e refl
]
folded-basic op_shift_r (int a) (int b) = elim (Bool-cases (leb 64 b)) [
  | inl e ↦ rw e refl
  | inr e ↦ rw e refl
]
folded-basic op_and o o' = refl
folded-basic op_or o o' = refl
folded-basic op_xor o o' = refl
folded-basic op_shift_l o o' = refl
folded-basic op_shift_r o o' = refl

value_given : (r : BitResult) → basic (value_of r) ≡ true → Gives (value_of r) (from_bits r)
value_given (value o) h = (refl, h)
value_given hit_shift_max h = tt
value_given wrong_operands h = tt

folded_given : (k : BitOp) (o o' : Object) → Gives (folded k o o') (from_bits (bit_oper k o o'))
folded_given k o o' =
    let e = folded-bit_oper k o o' in
    subst (λ x. Gives x (from_bits (bit_oper k o o'))) (sym e)
      (value_given (bit_oper k o o') (subst (λ x. basic x ≡ true) e (folded-basic k o o')))

bits_given :
    (op : TokenType) (k : BitOp)
    → IsBitwise op k
    → (o o' : Object) → Gives (bit_objects op o o') (from_bits (bit_oper k o o'))
unfolding bit_objects
bits_given _ _ bit_and o o' = folded_given op_and o o'
bits_given _ _ bit_or o o' = folded_given op_or o o'
bits_given _ _ bit_xor o o' = folded_given op_xor o o'

shift_given :
    (op : TokenType) (k : BitOp)
    → IsShift op k
    → (o o' : Object) → Gives (shift_objects op o o') (from_bits (bit_oper k o o'))
unfolding shift_objects
shift_given _ _ to_left o o' = folded_given op_shift_l o o'
shift_given _ _ to_right o o' = folded_given op_shift_r o o'

module _ (fl : Floats) where
  equal_given :
      (o o' : Object)
      → basic (some o) ≡ true
      → basic (some o') ≡ true
      → Machine.same_object fl o o' ≡ Walker.same_object (doubles fl) o o'
  equal_given (int a) (int b) h h' = refl
  equal_given (int a) (dec b) h h' = refl
  equal_given (int a) (boolean b) h h' = refl
  equal_given (int a) null h h' = refl
  equal_given (dec a) (int b) h h' = refl
  equal_given (dec a) (dec b) h h' = refl
  equal_given (dec a) (boolean b) h h' = refl
  equal_given (dec a) null h h' = refl
  equal_given (boolean a) (int b) h h' = refl
  equal_given (boolean a) (dec b) h h' = refl
  equal_given (boolean a) (boolean b) h h' = refl
  equal_given (boolean a) null h h' = refl
  equal_given null (int b) h h' = refl
  equal_given null (dec b) h h' = refl
  equal_given null (boolean b) h h' = refl
  equal_given null null h h' = refl
  equal_given _ _ h h' = ground arith

  abbrev Number : Option ℕ → Machine.Comparable → Type 0
  Number none c = Unit
  Number (some x) c = c ≡ Machine.number x

  num_given : (o : Object) → Number (Walker.as_num (doubles fl) o) (Machine.comparable fl o)
  num_given (int a) = refl
  num_given (dec a) = refl
  num_given _ = tt

  ordered_given :
      (x y : Option ℕ) (c c' : Machine.Comparable)
      → Number x c
      → Number y c'
      → Gives (Walker.ordered x y fl.less) (object_less fl c c')
        × Gives (Walker.ordered x y (λ a b. fl.less b a)) (object_less fl c' c)
  unfolding object_less
  ordered_given none y c c' hx hy = (tt, tt)
  ordered_given (some x) none c c' hx hy = (tt, tt)
  ordered_given (some x) (some y) c c' hx hy = rw (hx, hy) ((refl, refl), (refl, refl))

  comparison_given :
      (op : TokenType) (k : CompareOp)
      → IsComparison op k
      → (o o' : Object) → basic (some o) ≡ true
      → basic (some o') ≡ true
      → Gives (compare_objects (doubles fl) op o o') (compare_oper fl k o o')
  unfolding compare_objects compare_oper
  comparison_given _ _ equals o o' h h' =
      (ap (λ b. result (boolean b)) (equal_given o o' h h'), refl)
  comparison_given _ _ greater o o' h h' = (ordered_given _ _ _ _ (num_given o) (num_given o')).1
  comparison_given _ _ less o o' h h' = (ordered_given _ _ _ _ (num_given o) (num_given o')).0
  comparison_given _ _ member o o' h h' = tt

  negated_given :
      (op : TokenType) (k : CompareOp)
      → IsNegated op k
      → is_total op ≡ true
      → (x y : Option Object) (r : Result)
      → Gives (Walker.both (compare_objects (doubles fl) op) x y) r
  unfolding compare_objects
  negated_given _ _ differs h (some x) (some y) r = tt
  negated_given _ _ no_member h (some x) (some y) r = tt
  negated_given _ _ at_most h x y r = ground arith
  negated_given _ _ at_least h x y r = ground arith
  negated_given _ _ differs h none y r = tt
  negated_given _ _ differs h (some x) none r = tt
  negated_given _ _ no_member h none y r = tt
  negated_given _ _ no_member h (some x) none r = tt

  pub given :
      (e : Expr) (a : Operation)
      → IsOperation e a
      → is_plain e ≡ true
      → Gives (evaluate_expr (doubles fl) e) (evaluate fl a)
  unfolding evaluate_expr evaluate literal_object
  given _ _ (number t i type_ content small) h = rw (type_, content) (refl, refl)
  given _ _ (number_dec t i type_ content) h = rw (type_, content) (refl, refl)
  given _ _ (truth t true type_ content) h = rw type_ (refl, refl)
  given _ _ (truth t false type_ content) h = rw type_ (refl, refl)
  given _ _ (nothing t type_) h = rw type_ (refl, refl)
  given _ _ (quoted t s type_ quotes parsed) h = rw type_ tt
  given _ _ (raw t type_ quotes) h = rw type_ tt
  given _ _ (arithmetic l r a b op k x y known) h = tt
  given _ _ (bitwise l r a b op k x y known) h =
      let s = and-true (is_plain l) (is_plain r) h in
      both_given _ _ _ _ (bit_objects op) (λ v w. from_bits (bit_oper k v w))
        (λ o o' n n'. bits_given op k known o o') (given l a x s.0) (given r b y s.1)
  given _ _ (shift l r a b op k x y known) h =
      let s = and-true (is_plain l) (is_plain r) h in
      both_given _ _ _ _ (shift_objects op) (λ v w. from_bits (bit_oper k v w))
        (λ o o' n n'. shift_given op k known o o') (given l a x s.0) (given r b y s.1)
  given _ _ (comparison l r a b op k x y known) h =
      let s' = (and-true (is_total op) (is_plain l && is_plain r) h).1 in
      let s = and-true (is_plain l) (is_plain r) s' in
      both_given _ _ _ _ (compare_objects (doubles fl) op) (λ v w. compare_oper fl k v w)
        (comparison_given op k known) (given l a x s.0) (given r b y s.1)
  given _ _ (inverted l r a b op k x y known) h =
      negated_given op k known (and-true (is_total op) (is_plain l && is_plain r) h).0 _ _ _
  given _ _ (on_one e a op prev k x known) h = tt
  given _ _ (conjunction l r a b op x y known) h = ground arith
  given _ _ (disjunction l r a b op x y known) h = ground arith
  given _ _ (conditional cond t f a b c x y z) h = tt

-- What the optimizer computes is what the compiled code computes: where the walker finds a value for
-- an expression of literals, bitwise operators, shifts and the comparisons `==`, `>` and `<`, the
-- compiler emits code for the expression, and the VM, run with any code and further constants behind
-- it, brings that value to the first free register and arrives at the end of the code, where
-- registers, code, constants and distances of jumps have room.
pub evaluate_expr-compile_expr :
    (fl : Floats) (e : Expr) (a : Operation) (o : Object) (r : ℕ) (b : List ℕ) (p : Pool)
    (m : List DebugRange)
    → IsOperation e a
    → is_plain e ≡ true
    → evaluate_expr (doubles fl) e ≡ some o
    → Fits (depth a) (weight a) r b p
    → (c : Compiler) × (compile_expr e (compiler (bytecode b p m) r) ≡ some (r, c))
      × ((more : List ℕ) (q : Pool) (n : List DebugRange) (regs : ℕ → Object)
          → Keeps (pool c.code) q
          → Delivers fl
              (bytecode (block c.code ++ more) q n)
              regs
              (length b)
              r
              (result o)
              (code_size c.code))
evaluate_expr-compile_expr fl e a o r b p m is plain found fits =
    let same_value = (subst (λ x. Gives x (evaluate fl a)) found (given fl e a is plain)).0 in
    subst
      (λ v.
        (c : Compiler) × (compile_expr e (compiler (bytecode b p m) r) ≡ some (r, c))
        × ((more : List ℕ) (q : Pool) (n : List DebugRange) (regs : ℕ → Object)
            → Keeps (pool c.code) q
            → Delivers fl (bytecode (block c.code ++ more) q n) regs (length b) r v
                (code_size c.code)))
      same_value (compile_expr-evaluate fl e a r b p m is fits)
