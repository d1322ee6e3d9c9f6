-- ===== src/Optimizer/Rewrite.antt =====
-- src/optimizer.cpp: the optimizers of expressions and statements. A node that is moved out of its
-- parent replaces it.
use choice_lang.Prelude.{Bool, true, false, not, ◌&&◌, ◌||◌, if◌then◌else◌, same}
use choice_lang.Token.{TokenType, Token}
use choice_lang.Ast.{Expr, Exprs, Pairs, Params, Fields, Stmt, Stmts, Cases}
use choice_lang.Optimizer.{
  Doubles, is_constant, is_truthy_constant, is_falsy_constant, is_empty_constant, evaluate, compute,
}

unfoldable pub is_immutable_constant : Doubles → Expr → Bool
is_immutable_constant d (Expr.mut_expr mut value) =
    let inner = is_immutable_constant d value in
    if not mut && is_constant value then true else inner
is_immutable_constant d (Expr.assign_expr targets op Exprs.no_exprs) = false
is_immutable_constant d (Expr.assign_expr targets op (Exprs.expr e es)) = is_immutable_constant d e
is_immutable_constant d (Expr.logic_expr l op r) = is_constant (Expr.logic_expr l op r)
is_immutable_constant d (Expr.compare_expr l op r) = is_constant (Expr.compare_expr l op r)
is_immutable_constant d (Expr.bit_expr l op r) = is_constant (Expr.bit_expr l op r)
is_immutable_constant d (Expr.shift_expr l op r) = is_constant (Expr.shift_expr l op r)
is_immutable_constant d (Expr.unary_expr op e prev) = is_constant e
is_immutable_constant d (Expr.scope_expr e entry) = true
is_immutable_constant d (Expr.if_expr c t f) =
    let t' = is_immutable_constant d t in
    let f' = is_immutable_constant d f in
    if is_truthy_constant d c then t' else if is_falsy_constant d c then f' else false
is_immutable_constant d (Expr.lambda_expr _ _ _) = true
is_immutable_constant d (Expr.literal_expr t) = true
is_immutable_constant d _ = false

-- The choice of `optimizeIfExpr` and `optimizeIfStmt` on the optimized condition.
abbrev choose_expr : Doubles → Expr → Expr → Expr → Expr
choose_expr d c t f =
    if is_truthy_constant d c then t else if is_falsy_constant d c then f else Expr.if_expr c t f

abbrev choose_stmt : Doubles → Expr → Stmt → Stmt → Stmt
choose_stmt d c t f =
    if is_truthy_constant d c then t else if is_falsy_constant d c then f else Stmt.if_stmt c t f

-- Nothing is iterated over, or nothing passes `where`.
abbrev never_runs : Doubles → Expr → Expr → Bool
never_runs d iter where_ = is_empty_constant iter || is_falsy_constant d where_

abbrev keep_where : Doubles → Expr → Expr
keep_where d where_ = if is_truthy_constant d where_ then Expr.no_expr else where_

-- `!label`: the default token has the type TOK_EOF.
abbrev is_no_label : Token → Bool
is_no_label t = elim t.type_ [ TokenType.tok_eof ↦ true | _ ↦ false ]

-- Whether a `break` or `continue` of the label is of the loop with the label `loop`.
abbrev leaves : Token → Token → Bool
leaves loop label = is_no_label label || not (is_no_label loop) && same label.text loop.text

unfoldable pub direct_stmts : Token → Stmts → Bool
direct_stmts loop Stmts.no_stmts = true
direct_stmts loop (Stmts.stmt (Stmt.break_stmt label) ss) =
    not (leaves loop label) && direct_stmts loop ss
direct_stmts loop (Stmts.stmt (Stmt.continue_stmt label) ss) =
    not (leaves loop label) && direct_stmts loop ss
direct_stmts loop (Stmts.stmt s ss) = direct_stmts loop ss

-- The body of a `repeat` is a block.
unfoldable pub is_direct_loop : Token → Stmt → Bool
is_direct_loop loop (Stmt.block_stmt ss) = direct_stmts loop ss
is_direct_loop loop _ = true

abbrev while_choice : Doubles → Expr → Token → Stmt → Stmt → Stmt → Stmt → Stmt
while_choice d c label body body' else_ else' =
    if is_falsy_constant d c
    then else'
    else if is_truthy_constant d c
    then Stmt.while_stmt c label body Stmt.no_stmt
    else Stmt.while_stmt c label body' else'

unfoldable mutual
  pub optimize_expr : Doubles → Expr → Expr
  optimize_expr d Expr.no_expr = Expr.no_expr
  optimize_expr d (Expr.mut_expr mut value) =
      let value' = optimize_expr d value in
      if is_immutable_constant d value
      then value'
      else if is_constant value
      then Expr.mut_expr mut (evaluate d value)
      else Expr.mut_expr mut value
  optimize_expr d (Expr.assign_expr targets op values) =
      Expr.assign_expr targets op (optimize_exprs d values)
  optimize_expr d (Expr.logic_expr l op r) =
      compute d (Expr.logic_expr (optimize_expr d l) op (optimize_expr d r))
  optimize_expr d (Expr.compare_expr l op r) =
      compute d (Expr.compare_expr (optimize_expr d l) op (optimize_expr d r))
  optimize_expr d (Expr.bit_expr l op r) =
      compute d (Expr.bit_expr (optimize_expr d l) op (optimize_expr d r))
  optimize_expr d (Expr.shift_expr l op r) =
      compute d (Expr.shift_expr (optimize_expr d l) op (optimize_expr d r))
  optimize_expr d (Expr.binary_expr l op r) =
      compute d (Expr.binary_expr (optimize_expr d l) op (optimize_expr d r))
  optimize_expr d (Expr.unary_expr op e prev) =
      compute d (Expr.unary_expr op (optimize_expr d e) prev)
  optimize_expr d (Expr.index_expr obj index) =
      compute d (Expr.index_expr (optimize_expr d obj) (optimize_expr d index))
  optimize_expr d (Expr.call_expr callee args builtin) =
      Expr.call_expr callee (optimize_exprs d args) builtin
  optimize_expr d (Expr.field_expr obj name) = Expr.field_expr (optimize_expr d obj) name
  optimize_expr d (Expr.scope_expr module_ entry) = Expr.scope_expr (optimize_expr d module_) entry
  optimize_expr d (Expr.if_expr c t f) =
      choose_expr d (optimize_expr d c) (optimize_expr d t) (optimize_expr d f)
  optimize_expr d (Expr.lambda_expr ps body iife) =
      Expr.lambda_expr (optimize_params d ps) (optimize_stmt d body) iife
  optimize_expr d (Expr.list_expr entries) = Expr.list_expr (optimize_exprs d entries)
  optimize_expr d (Expr.table_expr pairs) = Expr.table_expr (optimize_pairs d pairs)
  optimize_expr d (Expr.instance_expr type_ fields) =
      Expr.instance_expr type_ (optimize_fields d fields)
  optimize_expr d (Expr.list_comp_expr vars iter where_ e) =
      let iter' = optimize_expr d iter in
      let where' = optimize_expr d where_ in
      let e' = optimize_expr d e in
      if never_runs d iter' where'
      then Expr.list_expr Exprs.no_exprs
      else Expr.list_comp_expr vars iter' (keep_where d where') e'
  optimize_expr d (Expr.table_comp_expr vars iter where_ k v) =
      let iter' = optimize_expr d iter in
      let where' = optimize_expr d where_ in
      let k' = optimize_expr d k in
      let v' = optimize_expr d v in
      if never_runs d iter' where'
      then Expr.table_expr Pairs.no_pairs
      else Expr.table_comp_expr vars iter' (keep_where d where') k' v'
  optimize_expr d (Expr.ref_expr e) = Expr.ref_expr e
  optimize_expr d (Expr.var_expr name) = Expr.var_expr name
  optimize_expr d (Expr.string_part_expr part) = Expr.string_part_expr part
  optimize_expr d (Expr.format_expr parts) = Expr.format_expr (optimize_exprs d parts)
  optimize_expr d (Expr.literal_expr t) = Expr.literal_expr t

  pub optimize_exprs : Doubles → Exprs → Exprs
  optimize_exprs d Exprs.no_exprs = Exprs.no_exprs
  optimize_exprs d (Exprs.expr e es) = Exprs.expr (optimize_expr d e) (optimize_exprs d es)

  pub optimize_pairs : Doubles → Pairs → Pairs
  optimize_pairs d Pairs.no_pairs = Pairs.no_pairs
  optimize_pairs d (Pairs.pair k v ps) =
      Pairs.pair (optimize_expr d k) (optimize_expr d v) (optimize_pairs d ps)

  pub optimize_params : Doubles → Params → Params
  optimize_params d Params.no_params = Params.no_params
  optimize_params d (Params.param name fix variadic e ps) =
      Params.param name fix variadic (optimize_expr d e) (optimize_params d ps)

  pub optimize_fields : Doubles → Fields → Fields
  optimize_fields d Fields.no_fields = Fields.no_fields
  optimize_fields d (Fields.field name e fs) =
      Fields.field name (optimize_expr d e) (optimize_fields d fs)

  pub optimize_stmt : Doubles → Stmt → Stmt
  optimize_stmt d Stmt.no_stmt = Stmt.no_stmt
  optimize_stmt d (Stmt.var_decl fix names op values) =
      Stmt.var_decl fix names op (optimize_exprs d values)
  optimize_stmt d (Stmt.func_decl name params body) =
      Stmt.func_decl name (optimize_params d params) (optimize_stmt d body)
  optimize_stmt d (Stmt.type_decl name fields methods) =
      Stmt.type_decl name (optimize_fields d fields) (optimize d methods)
  optimize_stmt d (Stmt.alias_decl t) = Stmt.alias_decl t
  optimize_stmt d (Stmt.use_stmt t) = Stmt.use_stmt t
  optimize_stmt d (Stmt.if_stmt c t f) =
      choose_stmt d (optimize_expr d c) (optimize_stmt d t) (optimize_stmt d f)
  optimize_stmt d (Stmt.while_stmt c label body else_) =
      while_choice d (optimize_expr d c) label body (optimize_stmt d body) else_
        (optimize_stmt d else_)
  optimize_stmt d (Stmt.for_stmt vars iter where_ label body else_) =
      let iter' = optimize_expr d iter in
      let where' = optimize_expr d where_ in
      let body' = optimize_stmt d body in
      let else' = optimize_stmt d else_ in
      if never_runs d iter' where'
      then else'
      else Stmt.for_stmt vars iter' (keep_where d where') label body' else_
  optimize_stmt d (Stmt.match_stmt value cases) =
      Stmt.match_stmt (optimize_expr d value) (optimize_cases d cases)
  optimize_stmt d (Stmt.repeat_stmt c label body) =
      let c' = optimize_expr d c in
      let body' = optimize_stmt d body in
      if is_truthy_constant d c' && is_direct_loop label body'
      then body'
      else Stmt.repeat_stmt c' label body'
  optimize_stmt d (Stmt.return_stmt keyword e) = Stmt.return_stmt keyword (optimize_expr d e)
  optimize_stmt d (Stmt.break_stmt label) = Stmt.break_stmt label
  optimize_stmt d (Stmt.continue_stmt label) = Stmt.continue_stmt label
  optimize_stmt d Stmt.end_stmt = Stmt.end_stmt
  optimize_stmt d (Stmt.expr_stmt e) = Stmt.expr_stmt (optimize_expr d e)
  optimize_stmt d (Stmt.block_stmt ss) = Stmt.block_stmt (optimize d ss)

  pub optimize : Doubles → Stmts → Stmts
  optimize d Stmts.no_stmts = Stmts.no_stmts
  optimize d (Stmts.stmt s ss) = Stmts.stmt (optimize_stmt d s) (optimize d ss)

  pub optimize_cases : Doubles → Cases → Cases
  optimize_cases d Cases.no_cases = Cases.no_cases
  optimize_cases d (Cases.match_case value body fall cases) =
      Cases.match_case (optimize_expr d value) (optimize_stmt d body) fall (optimize_cases d cases)
