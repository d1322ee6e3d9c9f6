-- ===== src/Compiler.antt =====
-- src/compiler.cpp: the compilation of literals, operators and conditionals. Registers are numbered
-- by u8. The other expressions are not modelled: `none`.
pub mod Operation
pub mod Operators
pub mod Deliver
pub mod Placed
pub mod Runs
pub mod Emitted
pub mod Branches
pub mod Correct
pub mod Folded
pub mod Truth
use choice_lang.Prelude.{
  ℕ, ◌+◌, ◌-◌, ◌%◌, length, take, drop, get_or, ltb, ◌==◌, Bool, true, false, Option, none, some,
  List, [], ◌∷◌, if◌then◌else◌,
}
use choice_lang.Object.{Object, int, dec, text, ByteCode}
use choice_lang.StringToken.{StringState, parse_string_token}
use choice_lang.Opcodes.{op_true, op_false, op_null, op_jump, op_jump_true, op_jump_false}
use choice_lang.Code.{add_op, add_jump, patch_jump, load_reg, load_reg_const}
use choice_lang.Token.{TokenType, Token, integer, decimal, boolean}
use choice_lang.Ast.{Expr}
use choice_lang.Vm.{◌>>=◌}
use choice_lang.Arith.{BitOp, op_and, op_or, op_xor, op_shift_l, op_shift_r}
use choice_lang.Machine.{
  ArithOp, op_add, op_sub, op_mult, op_div, op_power, op_mod, CompareOp, op_equal, op_gt, op_lt,
  op_in, UnaryOp, op_neg, op_not, op_comp,
}
use choice_lang.Machine.Step.{arith_code, unary_code, compare_code, bit_code}

-- The code so far and the first free register.
pub record Compiler : Type 0 where
  pub code : ByteCode
  pub next_reg : ℕ

abbrev pub compiler : ByteCode → ℕ → Compiler
compiler code reg = record { code = code; next_reg = reg }

abbrev pub reserve_reg : Compiler → Compiler
reserve_reg c = record c { next_reg = (c.next_reg + 1) % 256 }

abbrev pub free_reg : Compiler → Compiler
free_reg c = record c { next_reg = (c.next_reg + 255) % 256 }

abbrev pub emit_op : ℕ → List ℕ → Compiler → Compiler
emit_op op opers c = record c { code = add_op op opers c.code }

abbrev pub load_const : Object → Compiler → Compiler
load_const obj c = reserve_reg (record c { code = load_reg_const obj c.next_reg c.code })

abbrev pub load_code : ℕ → Compiler → Compiler
load_code op c = reserve_reg (record c { code = load_reg c.next_reg op c.code })

-- `getRawString`. The length of the part wraps if its newlines overlap, and the part then goes to the
-- end of the token.
abbrev pub raw_start : List ℕ → ℕ
raw_start str = if get_or str 2 0 == 10 then 3 else 2

abbrev pub raw_offset : List ℕ → ℕ
raw_offset str = raw_start str + 1 + (if get_or str (length str - 2) 0 == 10 then 1 else 0)

unfoldable pub get_raw_string : List ℕ → List ℕ
get_raw_string str =
    let part = drop (raw_start str) str in
    if ltb (length str) (raw_offset str) then part else take (length str - raw_offset str) part

-- The errors that `parseStringToken` reports do not stop the compilation.
abbrev pub load_text : Option StringState → Compiler → Option Compiler
load_text none c = none
load_text (some s) c = some (load_const (text s.str) c)

unfoldable pub literal : Token → Compiler → Option Compiler
literal tok c = elim tok.type_ [
  | TokenType.tok_num ↦ elim tok.content [ integer i ↦ some (load_const (int i) c) | _ ↦ none ]
  | TokenType.tok_num_dec ↦ elim tok.content [ decimal d ↦ some (load_const (dec d) c) | _ ↦ none ]
  | TokenType.tok_true ↦ elim tok.content [
    | boolean b ↦ some (load_code (if b then op_true else op_false) c)
    | _ ↦ none
  ]
  | TokenType.tok_false ↦ elim tok.content [
    | boolean b ↦ some (load_code (if b then op_true else op_false) c)
    | _ ↦ none
  ]
  | TokenType.tok_str_lit ↦ load_text (parse_string_token tok.text 1 2) c
  | TokenType.tok_raw_str ↦ some (load_const (text (get_raw_string tok.text)) c)
  | TokenType.tok_null ↦ some (load_code op_null c)
  | _ ↦ none
]

-- The operators of each kind of expression; a range is not modelled.
abbrev pub arith_of : TokenType → Option ArithOp
arith_of op = elim op [
  | TokenType.tok_plus ↦ some op_add
  | TokenType.tok_minus ↦ some op_sub
  | TokenType.tok_star ↦ some op_mult
  | TokenType.tok_slash ↦ some op_div
  | TokenType.tok_percent ↦ some op_mod
  | TokenType.tok_star_star ↦ some op_power
  | _ ↦ none
]

abbrev pub bits_of : TokenType → Option BitOp
bits_of op = elim op [
  | TokenType.tok_amp ↦ some op_and
  | TokenType.tok_bar ↦ some op_or
  | TokenType.tok_uarrow ↦ some op_xor
  | _ ↦ none
]

abbrev pub shift_of : TokenType → BitOp
shift_of op = elim op [ TokenType.tok_right_shift ↦ op_shift_r | _ ↦ op_shift_l ]

-- The operator, and whether its result is inverted.
abbrev pub compare_of : TokenType → Option (CompareOp × Bool)
compare_of op = elim op [
  | TokenType.tok_in ↦ some (op_in, false)
  | TokenType.tok_not ↦ some (op_in, true)
  | TokenType.tok_eq_eq ↦ some (op_equal, false)
  | TokenType.tok_bang_eq ↦ some (op_equal, true)
  | TokenType.tok_gt ↦ some (op_gt, false)
  | TokenType.tok_lt_eq ↦ some (op_gt, true)
  | TokenType.tok_lt ↦ some (op_lt, false)
  | TokenType.tok_gt_eq ↦ some (op_lt, true)
  | _ ↦ none
]

abbrev pub unary_of : TokenType → Option UnaryOp
unary_of op = elim op [
  | TokenType.tok_minus ↦ some op_neg
  | TokenType.tok_bang ↦ some op_not
  | TokenType.tok_not ↦ some op_not
  | TokenType.tok_tilde ↦ some op_comp
  | _ ↦ none
]

-- The jump of `&&` and of `||`; another operator emits nothing.
unfoldable pub logic_jump : TokenType → Option ℕ
logic_jump op = elim op [
  | TokenType.tok_amp_amp ↦ some op_jump_false
  | TokenType.tok_and ↦ some op_jump_false
  | TokenType.tok_bar_bar ↦ some op_jump_true
  | TokenType.tok_or ↦ some op_jump_true
  | _ ↦ none
]

abbrev pub for_jump {ℓ} : {A : Type ℓ} → Option ℕ → A → (ℕ → A) → A
for_jump none other f = other
for_jump (some jump) other f = f jump

abbrev pub invert : Bool → ℕ → Compiler → Compiler
invert false reg c = c
invert true reg c = emit_op (unary_code op_not) (reg ∷ []) c

-- `addJump`: the offset to patch, and the state behind the jump.
abbrev pub jump_from : ℕ → Option ℕ → Compiler → Option (ℕ × Compiler)
jump_from op reg c =
    let (code, offset) = add_jump op reg c.code in some (offset, record c { code = code })

abbrev pub patch : ℕ → Compiler → Compiler
patch offset c = record c { code = patch_jump offset c.code }

-- The result is the register of the value, which is the first free one at the start.
unfoldable pub compile_expr : Expr → Compiler → Option (ℕ × Compiler)
unfolding literal
compile_expr Expr.no_expr c = some (0, c)
compile_expr (Expr.literal_expr tok) c = do c1 ← literal tok c; some (c.next_reg, c1)
compile_expr (Expr.logic_expr l op r) c = for_jump (logic_jump op) (some (c.next_reg, c)) (λ jump.
    do
      (reg, c1) ← compile_expr l c
      (offset, c2) ← jump_from jump (some reg) c1
      (_, c3) ← compile_expr r (record c2 { next_reg = reg })
      some (c.next_reg, patch offset c3))
compile_expr (Expr.compare_expr l op r) c = do
  (first, c1) ← compile_expr l c
  (second, c2) ← compile_expr r c1
  (oper, inverted) ← compare_of op
  some (
    c.next_reg,
    free_reg (invert inverted first (emit_op (compare_code oper) (first ∷ second ∷ []) c2)),
  )
compile_expr (Expr.bit_expr l op r) c = do
  (first, c1) ← compile_expr l c
  (second, c2) ← compile_expr r c1
  oper ← bits_of op
  some (c.next_reg, free_reg (emit_op (bit_code oper) (first ∷ second ∷ []) c2))
compile_expr (Expr.shift_expr l op r) c = do
  (first, c1) ← compile_expr l c
  (second, c2) ← compile_expr r c1
  some (c.next_reg, free_reg (emit_op (bit_code (shift_of op)) (first ∷ second ∷ []) c2))
compile_expr (Expr.binary_expr l op r) c = do
  (first, c1) ← compile_expr l c
  (second, c2) ← compile_expr r c1
  oper ← arith_of op
  some (c.next_reg, free_reg (emit_op (arith_code oper) (first ∷ second ∷ []) c2))
compile_expr (Expr.unary_expr op e prev) c = do
  oper ← unary_of op.type_
  (first, c1) ← compile_expr e c
  some (c.next_reg, emit_op (unary_code oper) (first ∷ []) c1)
compile_expr (Expr.if_expr cond t f) c = do
  (reg, c1) ← compile_expr cond c
  (false_jump, c2) ← jump_from op_jump_false (some reg) c1
  (current, c3) ← compile_expr t (free_reg c2)
  (true_jump, c4) ← jump_from op_jump none c3
  (_, c5) ← compile_expr f (record (patch false_jump c4) { next_reg = current })
  some (c.next_reg, patch true_jump c5)
compile_expr _ c = none
