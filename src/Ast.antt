-- ===== src/Ast.antt =====
-- include/astnodes.h: the syntax tree. A null pointer is `no_expr` or `no_stmt`; attributes, type hints
-- and the states of unpacking, which no modelled code looks at, are left out.
use choice_lang.Prelude.{Bool, List}
use choice_lang.Token.{TokenType, Token}

mutual
  pub data Expr : Type 0 where
    no_expr : Expr
    mut_expr : Bool → Expr → Expr
    assign_expr : Exprs → Token → Exprs → Expr
    logic_expr compare_expr bit_expr shift_expr binary_expr : Expr → TokenType → Expr → Expr
    unary_expr : Token → Expr → Bool → Expr
    index_expr : Expr → Expr → Expr
    call_expr : Expr → Exprs → Bool → Expr
    field_expr scope_expr : Expr → Token → Expr
    if_expr : Expr → Expr → Expr → Expr
    lambda_expr : Params → Stmt → Bool → Expr
    list_expr : Exprs → Expr
    table_expr : Pairs → Expr
    instance_expr : Expr → Fields → Expr
    list_comp_expr : List Token → Expr → Expr → Expr → Expr
    table_comp_expr : List Token → Expr → Expr → Expr → Expr → Expr
    ref_expr : Expr → Expr
    var_expr string_part_expr : Token → Expr
    format_expr : Exprs → Expr
    literal_expr : Token → Expr

  pub data Exprs : Type 0 where
    no_exprs : Exprs
    expr : Expr → Exprs → Exprs

  -- The pairs of a table.
  pub data Pairs : Type 0 where
    no_pairs : Pairs
    pair : Expr → Expr → Pairs → Pairs

  -- Parameters with their name, flags `fix` and `variadic`, and default value.
  pub data Params : Type 0 where
    no_params : Params
    param : Token → Bool → Bool → Expr → Params → Params

  -- Fields of a type or an instance, with their name and initial value.
  pub data Fields : Type 0 where
    no_fields : Fields
    field : Token → Expr → Fields → Fields

  -- The labels of loops and of `break` and `continue` are tokens; the default token is no label.
  pub data Stmt : Type 0 where
    no_stmt : Stmt
    var_decl : Bool → List Token → Token → Exprs → Stmt
    func_decl : Token → Params → Stmt → Stmt
    type_decl : Token → Fields → Stmts → Stmt
    alias_decl use_stmt : Token → Stmt
    if_stmt : Expr → Stmt → Stmt → Stmt
    while_stmt : Expr → Token → Stmt → Stmt → Stmt
    for_stmt : List Token → Expr → Expr → Token → Stmt → Stmt → Stmt
    match_stmt : Expr → Cases → Stmt
    repeat_stmt : Expr → Token → Stmt → Stmt
    return_stmt : Token → Expr → Stmt
    break_stmt continue_stmt : Token → Stmt
    end_stmt : Stmt
    expr_stmt : Expr → Stmt
    block_stmt : Stmts → Stmt

  pub data Stmts : Type 0 where
    no_stmts : Stmts
    stmt : Stmt → Stmts → Stmts

  -- The cases of a `match`, with their value, body and flag `fallthrough`.
  pub data Cases : Type 0 where
    no_cases : Cases
    match_case : Expr → Stmt → Bool → Cases → Cases
