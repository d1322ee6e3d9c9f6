-- ===== src/Compiler/Truth.antt =====
-- src/optimizer.cpp against the compiled code: the values of `&&` and `||`.
use choice_lang.Prelude.{
  ◌≡◌, ◌⊎◌, refl, ap, arith, true, false, not, Option, none, some, if◌then◌else◌, Bool-cases, inl,
  inr,
}
use mathlib.Core.Path.{subst}
use choice_lang.Token.{TokenType}
use choice_lang.Object.{Object, int, dec, boolean, null}
use choice_lang.Ast.{Expr}
use choice_lang.Machine.{Floats, Result, result, is_truthy}
use choice_lang.Optimizer as Walker
use choice_lang.Optimizer.{evaluate_expr, logic_objects}
use choice_lang.Optimizer.Folding.{basic}
use choice_lang.Compiler.Operation.{
  Operation, IsOperation, evaluate, and_then, conjunction, disjunction, double_amp, word_and,
  double_bar, word_or, IsAnd, IsOr,
}
use choice_lang.Compiler.Folded.{doubles, is_plain, Gives, given}

and_op :
    (op : TokenType) → IsAnd op → (Walker.is_and_token op ≡ true) × (Walker.is_or_token op ≡ false)
and_op _ double_amp = (refl, refl)
and_op _ word_and = (refl, refl)

or_op :
    (op : TokenType) → IsOr op → (Walker.is_and_token op ≡ false) × (Walker.is_or_token op ≡ true)
or_op _ double_bar = (refl, refl)
or_op _ word_or = (refl, refl)

module _ (fl : Floats) where
  truthy_given :
      (o : Object) → basic (some o) ≡ true → Walker.is_truthy (doubles fl) o ≡ is_truthy fl o
  unfolding is_truthy
  truthy_given (int a) h = refl
  truthy_given (dec a) h = refl
  truthy_given (boolean b) h = refl
  truthy_given null h = refl
  truthy_given _ h = ground arith

  -- The walker gives up, or finds the truth of the value of the code.
  abbrev GivesTruth : Option Object → Result → Result → Result → Type 0
  GivesTruth none r p q = Unit
  GivesTruth (some o) r p q =
      (v : Object) × (r ≡ result v)
      × (o ≡ boolean (is_truthy fl v))
      × ((p ≡ result v) ⊎ (q ≡ result v))

  and_given :
      (op : TokenType) (x y : Option Object) (p q : Result)
      → Walker.is_and_token op ≡ true
      → Walker.is_or_token op ≡ false
      → Gives x p
      → Gives y q
      → GivesTruth
          (logic_objects (doubles fl) op x y)
          (and_then p (λ v. if not (is_truthy fl v) then result v else q))
          p
          q
  unfolding logic_objects
  and_given op none y p q is nor hx hy = tt
  and_given op (some l) none p q is nor hx hy =
      let t = truthy_given l hx.1 in
      elim (Bool-cases (is_truthy fl l)) [
        | inl e ↦ rw (is, nor, t, e) tt
        | inr e ↦ rw (is, nor, t, hx.0, e) (l, refl, rw e refl, inl refl)
      ]
  and_given op (some l) (some r) p q is nor hx hy =
      let t = truthy_given l hx.1 in
      elim (Bool-cases (is_truthy fl l)) [
        | inl e ↦ rw (is, nor, t, hx.0, e) (r, hy.0, ap boolean (truthy_given r hy.1), inr hy.0)
        | inr e ↦ rw (is, nor, t, hx.0, e) (l, refl, rw e refl, inl refl)
      ]

  or_given :
      (op : TokenType) (x y : Option Object) (p q : Result)
      → Walker.is_and_token op ≡ false
      → Walker.is_or_token op ≡ true
      → Gives x p
      → Gives y q
      → GivesTruth
          (logic_objects (doubles fl) op x y)
          (and_then p (λ v. if is_truthy fl v then result v else q))
          p
          q
  unfolding logic_objects
  or_given op none y p q nor is hx hy = tt
  or_given op (some l) none p q nor is hx hy =
      let t = truthy_given l hx.1 in
      elim (Bool-cases (is_truthy fl l)) [
        | inl e ↦ rw (nor, is, t, hx.0, e) (l, refl, rw e refl, inl refl)
        | inr e ↦ rw (nor, is, t, e) tt
      ]
  or_given op (some l) (some r) p q nor is hx hy =
      let t = truthy_given l hx.1 in
      elim (Bool-cases (is_truthy fl l)) [
        | inl e ↦ rw (nor, is, t, hx.0, e) (l, refl, rw e refl, inl refl)
        | inr e ↦ rw (nor, is, t, hx.0, e) (r, hy.0, ap boolean (truthy_given r hy.1), inr hy.0)
      ]

  abbrev FoldsTo : Expr → Expr → Option Object → Result → Type 0
  FoldsTo l r none res = Unit
  FoldsTo l r (some o) res =
      (v : Object) × (res ≡ result v)
      × (o ≡ boolean (is_truthy fl v))
      × ((w : Operation) × (IsOperation l w ⊎ IsOperation r w) × (evaluate fl w ≡ result v))

  folds_to :
      (l r : Expr) (a b : Operation) (x : Option Object) (res : Result)
      → IsOperation l a
      → IsOperation r b
      → GivesTruth x res (evaluate fl a) (evaluate fl b)
      → FoldsTo l r x res
  folds_to l r a b none res hl hr h = tt
  folds_to l r a b (some o) res hl hr (v, e, t, inl p) = (v, e, t, (a, inl hl, p))
  folds_to l r a b (some o) res hl hr (v, e, t, inr q) = (v, e, t, (b, inr hr, q))

  truth_given :
      (l r : Expr) (op : TokenType) (a : Operation)
      → IsOperation (Expr.logic_expr l op r) a
      → is_plain l ≡ true
      → is_plain r ≡ true
      → FoldsTo l r (evaluate_expr (doubles fl) (Expr.logic_expr l op r)) (evaluate fl a)
  unfolding evaluate_expr evaluate
  truth_given l r op _ (conjunction _ _ a b _ x y known) hl hr = folds_to l r a b _ _ x y (
      and_given op _ _ _ _ (and_op op known).0 (and_op op known).1 (given fl l a x hl)
        (given fl r b y hr))
  truth_given l r op _ (disjunction _ _ a b _ x y known) hl hr = folds_to l r a b _ _ x y (
      or_given op _ _ _ _ (or_op op known).0 (or_op op known).1 (given fl l a x hl)
        (given fl r b y hr))

pub evaluate_expr-truth :
    (fl : Floats) (l r : Expr) (op : TokenType) (a : Operation) (o : Object)
    → IsOperation (Expr.logic_expr l op r) a
    → is_plain l ≡ true
    → is_plain r ≡ true
    → evaluate_expr (doubles fl) (Expr.logic_expr l op r) ≡ some o
    → (v : Object) × (evaluate fl a ≡ result v)
      × (o ≡ boolean (is_truthy fl v))
      × ((w : Operation) × (IsOperation l w ⊎ IsOperation r w) × (evaluate fl w ≡ result v))
evaluate_expr-truth fl l r op a o is hl hr found =
    subst (λ x. FoldsTo fl l r x (evaluate fl a)) found (truth_given fl l r op a is hl hr)
