-- ===== src/Compiler/Emitted.antt =====
-- src/compiler.cpp: what the compilation of an expression adds to the code, with its run on the VM.
use choice_lang.Prelude.{
  ℕ, zero, suc, ◌+◌, ◌%◌, ◌^◌, ◌≤◌, ◌<◌, ◌≡◌, ap, ◌∙◌, Bool, true, false, some, List, [], ◌∷◌, ◌++◌,
  length, if◌then◌else◌, arith, length-append, append_assoc,
}
use native.Mathlib.Nat.{mod-eq_of_lt}
use choice_lang.Object.{
  Object, int, dec, bytecode, Pool, push_back, pool_size, DebugRange, pool_size-push_back,
}
use choice_lang.Opcodes.{op_load_reg}
use choice_lang.Code.{add_op, load_reg, is_immediate}
use choice_lang.Code.LoadConst.{
  IsWord, Keeps, immediate_or, operand, operand_pool, load_reg_const-block,
}
use choice_lang.Code.Operands.{index_bytes, low}
use choice_lang.Ast.{Expr}
use choice_lang.Machine.{
  Floats, Result, result, UnaryOp, op_neg, op_incr, op_decr, op_not, op_comp, unary_oper,
}
use choice_lang.Machine.Step.{unary_code}
use choice_lang.Compiler.{
  Compiler, compiler, free_reg, emit_op, load_const, load_code, compile_expr,
}
use choice_lang.Compiler.Operation.{and_then}
use choice_lang.Compiler.Placed.{IsBinary, IsLiteral}
use choice_lang.Compiler.Runs.{Runs, Keeps-trans, const-Runs, literal-Runs, unary-Runs, binary-Runs}

-- Register numbers are u8.
abbrev pub after_reg : ℕ → ℕ
after_reg r = (r + 1) % 256

-- The compilation of `e` behind `b`, with first free register `r`: it adds at most `size` bytes and
-- as many constants, which deliver `res` in register `r`.
pub record Emitted (fl : Floats) (e : Expr) (size : ℕ) (res : Result) (r : ℕ) (b : List ℕ)
    (p : Pool) (m : List DebugRange) : Type 0 where
  pub bytes : List ℕ
  pub pool : Pool
  pub emits :
      compile_expr e (compiler (bytecode b p m) r)
      ≡ some (r, compiler (bytecode (b ++ bytes) pool m) (after_reg r))
  pub short : length bytes ≤ size
  pub grows : pool_size pool ≤ pool_size p + size
  pub kept : Keeps p pool
  pub runs : Runs fl bytes pool r res

unary_code-byte : (op : UnaryOp) → unary_code op < 256
unary_code-byte op_neg = omega arith
unary_code-byte op_incr = omega arith
unary_code-byte op_decr = omega arith
unary_code-byte op_not = omega arith
unary_code-byte op_comp = omega arith

pub add_op-one :
    (op x : ℕ) (b : List ℕ) (p : Pool) (m : List DebugRange)
    → add_op op (x ∷ []) (bytecode b p m) ≡ bytecode (b ++ (op % 256 ∷ x ∷ [])) p m
unfolding add_op
add_op-one op x b p m = simp append_assoc

pub add_op-two :
    (op x y : ℕ) (b : List ℕ) (p : Pool) (m : List DebugRange)
    → add_op op (x ∷ y ∷ []) (bytecode b p m) ≡ bytecode (b ++ (op % 256 ∷ x ∷ y ∷ [])) p m
unfolding add_op
add_op-two op x y b p m = simp append_assoc

Keeps-push_back : (p : Pool) (o : Object) → Keeps p (push_back p o)
Keeps-push_back Pool.nil o i x h = absurd (ground arith)
Keeps-push_back (Pool.cons a p) o zero x h = h
Keeps-push_back (Pool.cons a p) o (suc i) x h = Keeps-push_back p o i x h

if_holds {ℓ} :
    {A : Type ℓ} (P : A → Type 0) (b : Bool) (x y : A) → P x → P y → P (if b then x else y)
if_holds P true x y px py = px
if_holds P false x y px py = py

-- What holds of both forms of an operand holds of the operand.
immediate_or_holds {ℓ} :
    {A : Type ℓ} (P : A → Type 0) (o : Object) (x : A) (f : ℕ → A)
    → P x
    → ((v : ℕ) → P (f v))
    → P (immediate_or o x f)
immediate_or_holds P (int v) x f px pf = if_holds P (is_immediate v) (f v) x (pf v) px
immediate_or_holds P (dec v) x f px pf = px
immediate_or_holds P (Object.boolean b) x f px pf = px
immediate_or_holds P Object.null x f px pf = px
immediate_or_holds P (Object.text str) x f px pf = px
immediate_or_holds P (Object.string str) x f px pf = px
immediate_or_holds P (Object.module_ name) x f px pf = px
immediate_or_holds P (Object.user_type name fields) x f px pf = px
immediate_or_holds P (Object.user_func g) x f px pf = px

Keeps-operand_pool : (o : Object) (p : Pool) → Keeps p (operand_pool o p)
Keeps-operand_pool o p =
    immediate_or_holds (Keeps p) o (push_back p o) (λ v. p) (Keeps-push_back p o) (λ v i x h. h)

operand_pool-size : (o : Object) (p : Pool) → pool_size (operand_pool o p) ≤ pool_size p + 1
operand_pool-size o p =
    immediate_or_holds (λ q. pool_size q ≤ pool_size p + 1) o (push_back p o) (λ v. p)
      (omega (arith, pool_size-push_back p o)) (λ v. omega arith)

index_bytes-length : (i : ℕ) → length (index_bytes i) ≤ 5
unfolding index_bytes
index_bytes-length i = ground arith

operand-length : (o : Object) (p : Pool) → length (operand o p) ≤ 5
operand-length o p =
    immediate_or_holds (λ l. length l ≤ 5) o (index_bytes (pool_size p)) _
      (index_bytes-length (pool_size p)) (λ v. omega arith)

module _ (fl : Floats) (r : ℕ) (b : List ℕ) (p : Pool) (m : List DebugRange) where
  -- A literal that is loaded as a constant.
  pub const_emitted :
      (e : Expr) (o : Object)
      → IsWord o
      → pool_size p < 2 ^ 32
      → ((c : Compiler) → compile_expr e c ≡ some (c.next_reg, load_const o c))
      → Emitted fl e 7 (result o) r b p m
  const_emitted e o word small eq =
      let c = compiler (bytecode b p m) r in
      record {
        bytes = op_load_reg ∷ r ∷ operand o p;
        pool = operand_pool o p;
        emits =
            eq c
            ∙ ap (λ code. some (r, compiler code (after_reg r)))
                (load_reg_const-block o r b p m small);
        short = omega (arith, operand-length o p);
        grows = omega (arith, operand_pool-size o p);
        kept = Keeps-operand_pool o p;
        runs = const-Runs fl o p r word small;
      }

  pub literal_emitted :
      {op : ℕ} {o : Object} (l : IsLiteral fl op o) (e : Expr)
      → ((c : Compiler) → compile_expr e c ≡ some (c.next_reg, load_code op c))
      → Emitted fl e 7 (result o) r b p m
  unfolding load_reg
  literal_emitted {op} {o} l e eq =
      let c = compiler (bytecode b p m) r in
      record {
        bytes = op_load_reg ∷ r ∷ op ∷ [];
        pool = p;
        emits =
            eq c
            ∙ ap (λ code. some (r, compiler code (after_reg r)))
                (add_op-two op_load_reg r op b p m);
        short = omega arith;
        grows = omega arith;
        kept = λ i x h. h;
        runs = literal-Runs fl l p r;
      }

  -- An operator on the value of `e`.
  pub unary_emitted :
      (e whole : Expr) (op : UnaryOp) (size : ℕ) (res : Result)
      → Emitted fl e size res r b p m
      → ((c c1 : Compiler) (x : ℕ)
          → compile_expr e c ≡ some (x, c1)
          → compile_expr whole c ≡ some (c.next_reg, emit_op (unary_code op) (x ∷ []) c1))
      → Emitted fl whole (size + 2) (and_then res (λ x. unary_oper fl op x)) r b p m
  unary_emitted e whole op size res x eq =
      let tail = unary_code op ∷ r ∷ [] in
      let code = unary_code-byte op in
      record {
        bytes = x.bytes ++ tail;
        pool = x.pool;
        emits =
            eq _ _ r x.emits
            ∙ ap (λ c. some (r, compiler c (after_reg r)))
                (add_op-one (unary_code op) r (b ++ x.bytes) x.pool m
                  ∙ ap (λ o. bytecode ((b ++ x.bytes) ++ (o ∷ r ∷ [])) x.pool m) (mod-eq_of_lt code)
                  ∙ ap (λ l. bytecode l x.pool m) (append_assoc b x.bytes tail));
        short = omega (arith, length-append x.bytes tail, x.short);
        grows = omega (arith, x.grows);
        kept = x.kept;
        runs = unary-Runs fl op x.bytes x.pool r res x.runs;
      }

  -- An operator on the values of `l` and `s`.
  pub binary_emitted :
      (l s whole : Expr) (op : ℕ) (oper : Object → Object → Result) (size size' : ℕ)
      (res res' : Result) (x : Emitted fl l size res r b p m)
      → Emitted fl s size' res' (r + 1) (b ++ x.bytes) x.pool m
      → IsBinary fl op oper
      → op < 256
      → r + 1 < 256
      → ((c c1 c2 : Compiler) (i j : ℕ)
          → compile_expr l c ≡ some (i, c1)
          → compile_expr s c1 ≡ some (j, c2)
          → compile_expr whole c ≡ some (c.next_reg, free_reg (emit_op op (i ∷ j ∷ []) c2)))
      → Emitted fl whole
          (size + size' + 3)
          (and_then res (λ v. and_then res' (λ w. oper v w)))
          r
          b
          p
          m
  binary_emitted l s whole op oper size size' res res' x y is byte low eq =
      let tail = op ∷ r ∷ (r + 1) ∷ [] in
      let second : compile_expr s (compiler (bytecode (b ++ x.bytes) x.pool m) (after_reg r))
          ≡ some (
            r + 1,
            compiler (bytecode ((b ++ x.bytes) ++ y.bytes) y.pool m) (after_reg (r + 1)),
          ) =
        ap (λ i. compile_expr s (compiler (bytecode (b ++ x.bytes) x.pool m) i)) (mod-eq_of_lt low)
        ∙ y.emits in
      let freed : (after_reg (r + 1) + 255) % 256 ≡ after_reg r = omega arith in
      record {
        bytes = x.bytes ++ (y.bytes ++ tail);
        pool = y.pool;
        emits =
            eq _ _ _ r (r + 1) x.emits second
            ∙ ap (λ c. some (r, compiler c ((after_reg (r + 1) + 255) % 256)))
                (add_op-two op r (r + 1) ((b ++ x.bytes) ++ y.bytes) y.pool m
                  ∙ ap
                      (λ o.
                        bytecode (((b ++ x.bytes) ++ y.bytes) ++ (o ∷ r ∷ (r + 1) ∷ [])) y.pool m)
                      (mod-eq_of_lt byte)
                  ∙ ap (λ l. bytecode l y.pool m)
                      (append_assoc (b ++ x.bytes) y.bytes tail
                        ∙ append_assoc b x.bytes (y.bytes ++ tail)))
            ∙ ap
                (λ i.
                  some (r, compiler (bytecode (b ++ (x.bytes ++ (y.bytes ++ tail))) y.pool m) i))
                freed;
        short = omega (
          arith,
          length-append x.bytes (y.bytes ++ tail),
          length-append y.bytes tail,
          x.short,
          y.short,
        );
        grows = omega (arith, x.grows, y.grows);
        kept = Keeps-trans p x.pool y.pool x.kept y.kept;
        runs =
            binary-Runs fl op oper x.bytes y.bytes x.pool y.pool r res res' is y.kept x.runs y.runs;
      }

  -- The same with an operator on the result.
  pub binary_then_emitted :
      (l s whole : Expr) (op : ℕ) (oper : Object → Object → Result) (last : UnaryOp)
      (size size' : ℕ) (res res' : Result) (x : Emitted fl l size res r b p m)
      → Emitted fl s size' res' (r + 1) (b ++ x.bytes) x.pool m
      → IsBinary fl op oper
      → op < 256
      → r + 1 < 256
      → ((c c1 c2 : Compiler) (i j : ℕ)
          → compile_expr l c ≡ some (i, c1)
          → compile_expr s c1 ≡ some (j, c2)
          → compile_expr whole c
            ≡ some (
              c.next_reg,
              free_reg (emit_op (unary_code last) (i ∷ []) (emit_op op (i ∷ j ∷ []) c2)),
            ))
      → Emitted fl whole
          (size + size' + 3 + 2)
          (and_then (and_then res (λ v. and_then res' (λ w. oper v w))) (λ o. unary_oper fl last o))
          r
          b
          p
          m
  binary_then_emitted l s whole op oper last size size' res res' x y is byte low eq =
      let tail = op ∷ r ∷ (r + 1) ∷ [] in
      let end = unary_code last ∷ r ∷ [] in
      let bytes = x.bytes ++ (y.bytes ++ tail) in
      let joined =
        append_assoc (b ++ x.bytes) y.bytes tail ∙ append_assoc b x.bytes (y.bytes ++ tail) in
      let second : compile_expr s (compiler (bytecode (b ++ x.bytes) x.pool m) (after_reg r))
          ≡ some (
            r + 1,
            compiler (bytecode ((b ++ x.bytes) ++ y.bytes) y.pool m) (after_reg (r + 1)),
          ) =
        ap (λ i. compile_expr s (compiler (bytecode (b ++ x.bytes) x.pool m) i)) (mod-eq_of_lt low)
        ∙ y.emits in
      let freed : (after_reg (r + 1) + 255) % 256 ≡ after_reg r = omega arith in
      let first : add_op op (r ∷ (r + 1) ∷ []) (bytecode ((b ++ x.bytes) ++ y.bytes) y.pool m)
          ≡ bytecode (b ++ bytes) y.pool m =
        add_op-two op r (r + 1) ((b ++ x.bytes) ++ y.bytes) y.pool m
        ∙ ap (λ o. bytecode (((b ++ x.bytes) ++ y.bytes) ++ (o ∷ r ∷ (r + 1) ∷ [])) y.pool m)
            (mod-eq_of_lt byte)
        ∙ ap (λ t. bytecode t y.pool m) joined in
      record {
        bytes = bytes ++ end;
        pool = y.pool;
        emits =
            eq _ _ _ r (r + 1) x.emits second
            ∙ ap
                (λ c. some (
                  r,
                  compiler (add_op (unary_code last) (r ∷ []) c) ((after_reg (r + 1) + 255) % 256),
                ))
                first
            ∙ ap (λ c. some (r, compiler c ((after_reg (r + 1) + 255) % 256)))
                (add_op-one (unary_code last) r (b ++ bytes) y.pool m
                  ∙ ap (λ o. bytecode ((b ++ bytes) ++ (o ∷ r ∷ [])) y.pool m)
                      (mod-eq_of_lt (unary_code-byte last))
                  ∙ ap (λ t. bytecode t y.pool m) (append_assoc b bytes end))
            ∙ ap (λ i. some (r, compiler (bytecode (b ++ (bytes ++ end)) y.pool m) i)) freed;
        short = omega (
          arith,
          length-append bytes end,
          length-append x.bytes (y.bytes ++ tail),
          length-append y.bytes tail,
          x.short,
          y.short,
        );
        grows = omega (arith, x.grows, y.grows);
        kept = Keeps-trans p x.pool y.pool x.kept y.kept;
        runs = unary-Runs fl last bytes y.pool r _ (
            binary-Runs fl op oper x.bytes y.bytes x.pool y.pool r res res' is y.kept x.runs
              y.runs);
      }
