-- ===== src/Compiler/Correct.antt =====
-- src/compiler.cpp against src/vm.cpp: compiled expressions of operators evaluate.
use choice_lang.Prelude.{
  ℕ, ◌+◌, ◌%◌, ◌^◌, ◌≤◌, ◌<◌, ◌≡◌, refl, sym, Bool, true, false, none, some, List, [], ◌∷◌, ◌++◌,
  length, if◌then◌else◌, arith, length-append, append_assoc,
}
use Prim.Native.Nat.{max}
use choice_lang.Object.{Object, int, dec, text, bytecode, block, pool, Pool, pool_size, DebugRange}
use choice_lang.Opcodes.{op_jump, op_jump_false, op_jump_true}
use choice_lang.Code.{byte_jump_max, code_size}
use choice_lang.Token.{TokenType, Token, integer, decimal}
use choice_lang.Ast.{Expr}
use choice_lang.Arith.{BitOp, op_and, op_or, op_xor, op_shift_l, op_shift_r, bit_oper}
use choice_lang.Machine.{
  Floats, Result, result, ArithOp, op_add, op_sub, op_mult, op_div, op_power, op_mod, CompareOp,
  op_equal, op_gt, op_lt, op_in, op_not, arith_oper, compare_oper, from_bits,
}
use choice_lang.Machine.Step.{arith_code, compare_code, bit_code}
use choice_lang.Compiler.{
  Compiler, compiler, literal, get_raw_string, compile_expr, emit_op, free_reg,
}
use choice_lang.Compiler.Operation.{
  Operation, constant, arith_on, bits_on, compare_on, unary_on, both, either, choose, and_then,
  evaluate, IsOperation, number, number_dec, truth, nothing, quoted, raw, arithmetic, bitwise,
  shift, comparison, inverted, on_one, conjunction, disjunction, conditional, weight, depth,
}
use choice_lang.Compiler.Operators.{
  arith_of-IsArith, bits_of-IsBitwise, shift_of-IsShift, compare_of-IsComparison,
  compare_of-IsNegated, unary_of-IsUnary, logic_jump-IsAnd, logic_jump-IsOr,
}
use choice_lang.Compiler.Placed.{
  IsBinary, arith-IsBinary, compare-IsBinary, bits-IsBinary, is_true, is_false, is_null,
}
use choice_lang.Compiler.Deliver.{Delivers, ends_at}
use choice_lang.Code.LoadConst.{Keeps}
use choice_lang.Compiler.Runs.{both-Runs, either-Runs}
use choice_lang.Compiler.Emitted.{
  Emitted, const_emitted, literal_emitted, unary_emitted, binary_emitted, binary_then_emitted,
}
use choice_lang.Compiler.Branches.{
  pending, pending_length, first_branch, first_branch_length, logic_emitted, choose_emitted,
}

arith_code-byte : (op : ArithOp) → arith_code op < 256
arith_code-byte op_add = omega arith
arith_code-byte op_sub = omega arith
arith_code-byte op_mult = omega arith
arith_code-byte op_div = omega arith
arith_code-byte op_power = omega arith
arith_code-byte op_mod = omega arith

compare_code-byte : (op : CompareOp) → compare_code op < 256
compare_code-byte op_equal = omega arith
compare_code-byte op_gt = omega arith
compare_code-byte op_lt = omega arith
compare_code-byte op_in = omega arith

bit_code-byte : (op : BitOp) → bit_code op < 256
bit_code-byte op_and = omega arith
bit_code-byte op_or = omega arith
bit_code-byte op_xor = omega arith
bit_code-byte op_shift_l = omega arith
bit_code-byte op_shift_r = omega arith

some_depth : (a : Operation) → 1 ≤ depth a
some_depth (constant o) = omega arith
some_depth (arith_on op a b) = omega (arith, some_depth a)
some_depth (bits_on op a b) = omega (arith, some_depth a)
some_depth (compare_on op a b) = omega (arith, some_depth a)
some_depth (unary_on op a) = some_depth a
some_depth (both a b) = omega (arith, some_depth a)
some_depth (either a b) = omega (arith, some_depth a)
some_depth (choose c t f) = omega (arith, some_depth c)

-- There is room for `d` registers and `w` bytes: registers, code, constants, distances of jumps.
pub record Fits (d w r : ℕ) (b : List ℕ) (p : Pool) : Type 0 where
  pub registers : r + d ≤ 256
  pub code : length b + w < 2 ^ 64
  pub constants : pool_size p + w < 2 ^ 32
  pub distances : w ≤ byte_jump_max

module _ {r : ℕ} {b : List ℕ} {p : Pool} where
  first_fits : (d w d' w' : ℕ) → Fits d w r b p → d' ≤ d → w' ≤ w → Fits d' w' r b p
  first_fits d w d' w' f h k = record {
    registers = omega (arith, f.registers);
    code = omega (arith, f.code);
    constants = omega (arith, f.constants);
    distances = omega (arith, f.distances);
  }

  -- Behind `xs`, with the pool `q`, for a register further up.
  later_fits :
      (d w d' w' n s : ℕ) (b' : List ℕ) (q : Pool)
      → Fits d w r b p
      → s + d' ≤ r + d
      → length b' ≤ length b + n
      → pool_size q ≤ pool_size p + n
      → n + w' ≤ w
      → Fits d' w' s b' q
  later_fits d w d' w' n s b' q f h len size le = record {
    registers = omega (arith, f.registers);
    code = omega (arith, f.code);
    constants = omega (arith, f.constants);
    distances = omega (arith, f.distances);
  }

  logic_first :
      (a a' : Operation)
      → Fits (max (depth a) (depth a')) (weight a + 4 + weight a') r b p
      → Fits (depth a) (weight a) r b p
  logic_first a a' f =
      first_fits (max (depth a) (depth a')) (weight a + 4 + weight a') (depth a) (weight a) f
        (omega arith) (omega arith)

  logic_second :
      (a a' : Operation) (op : ℕ) (xs : List ℕ) (q : Pool)
      → length xs ≤ weight a
      → pool_size q ≤ pool_size p + weight a
      → Fits (max (depth a) (depth a')) (weight a + 4 + weight a') r b p
      → Fits (depth a') (weight a') r (pending (b ++ xs) op (some r)) q
  logic_second a a' op xs q short grows f =
      later_fits (max (depth a) (depth a')) (weight a + 4 + weight a') (depth a') (weight a')
        (weight a + 4) r (pending (b ++ xs) op (some r)) q f (omega arith)
        (omega (
          arith,
          length-append b xs,
          length-append (b ++ xs) (op % 256 ∷ r % 256 ∷ []),
          length-append ((b ++ xs) ++ (op % 256 ∷ r % 256 ∷ [])) (0 ∷ 0 ∷ []),
          short,
        ))
        (omega (arith, grows)) (omega arith)

module _ (fl : Floats) where
  literal_compiled :
      (r : ℕ) (b : List ℕ) (p : Pool) (m : List DebugRange) (t : Token) (x : Bool)
      → t.type_ ≡ (if x then TokenType.tok_true else TokenType.tok_false)
      → t.content ≡ choice_lang.Token.boolean x
      → Emitted fl (Expr.literal_expr t) 7 (result (Object.boolean x)) r b p m
  unfolding compile_expr literal
  literal_compiled r b p m t true e f =
      literal_emitted fl r b p m is_true (Expr.literal_expr t) (λ c. rw (e, f) refl)
  literal_compiled r b p m t false e f =
      literal_emitted fl r b p m is_false (Expr.literal_expr t) (λ c. rw (e, f) refl)

  -- Two operands and an operator, from what holds of the operands.
  two :
      (l s whole : Expr) (a a' : Operation) (op : ℕ) (oper : Object → Object → Result) (r : ℕ)
      (b : List ℕ) (p : Pool) (m : List DebugRange)
      → IsBinary fl op oper
      → op < 256
      → (Fits (depth a) (weight a) r b p → Emitted fl l (weight a) (evaluate fl a) r b p m)
      → ((b' : List ℕ) (q : Pool)
          → Fits (depth a') (weight a') (r + 1) b' q
          → Emitted fl s (weight a') (evaluate fl a') (r + 1) b' q m)
      → Fits (max (depth a) (1 + depth a')) (weight a + weight a' + 3) r b p
      → ((c c1 c2 : Compiler) (i j : ℕ)
          → compile_expr l c ≡ some (i, c1)
          → compile_expr s c1 ≡ some (j, c2)
          → compile_expr whole c ≡ some (c.next_reg, free_reg (emit_op op (i ∷ j ∷ []) c2)))
      → Emitted fl whole
          (weight a + weight a' + 3)
          (and_then (evaluate fl a) (λ v. and_then (evaluate fl a') (λ w. oper v w)))
          r
          b
          p
          m
  two l s whole a a' op oper r b p m is byte first second fits eq =
      let d = max (depth a) (1 + depth a') in
      let w = weight a + weight a' + 3 in
      let x = first (first_fits d w _ _ fits (omega arith) (omega arith)) in
      let y = second (b ++ x.bytes) x.pool (
        later_fits d w (depth a') (weight a') (weight a) (r + 1) (b ++ x.bytes) x.pool fits
          (omega arith) (omega (arith, length-append b x.bytes, x.short)) x.grows (omega arith)) in
      binary_emitted fl r b p m l s whole op oper (weight a) (weight a') _ _ x y is byte
        (omega (arith, fits.registers, some_depth a')) eq

  pub compiled :
      (e : Expr) (a : Operation) (r : ℕ) (b : List ℕ) (p : Pool) (m : List DebugRange)
      → IsOperation e a
      → Fits (depth a) (weight a) r b p
      → Emitted fl e (weight a) (evaluate fl a) r b p m
  unfolding compile_expr literal evaluate
  compiled _ _ r b p m (number t i type_ content small) fits =
      const_emitted fl r b p m (Expr.literal_expr t) (int i) small (omega (arith, fits.constants))
        (λ c. rw (type_, content) refl)
  compiled _ _ r b p m (number_dec t d type_ content) fits =
      const_emitted fl r b p m (Expr.literal_expr t) (dec d) tt (omega (arith, fits.constants))
        (λ c. rw (type_, content) refl)
  compiled _ _ r b p m (truth t x type_ content) fits = literal_compiled r b p m t x type_ content
  compiled _ _ r b p m (nothing t type_) fits =
      literal_emitted fl r b p m is_null (Expr.literal_expr t) (λ c. rw type_ refl)
  compiled _ _ r b p m (quoted t s type_ quotes parsed) fits =
      const_emitted fl r b p m (Expr.literal_expr t) (text s.str) tt (omega (arith, fits.constants))
        (λ c. rw (type_, parsed) refl)
  compiled _ _ r b p m (raw t type_ quotes) fits =
      const_emitted fl r b p m (Expr.literal_expr t) (text (get_raw_string t.text)) tt
        (omega (arith, fits.constants)) (λ c. rw type_ refl)
  compiled _ _ r b p m (arithmetic l s a a' op k ia ib known) fits =
      two l s (Expr.binary_expr l op s) a a' (arith_code k) (arith_oper fl k) r b p m
        (arith-IsBinary fl k) (arith_code-byte k) (compiled l a r b p m ia)
        (λ b' q. compiled s a' (r + 1) b' q m ib) fits
        (λ c c1 c2 i j el es. rw (el, es, arith_of-IsArith op k known) refl)
  compiled _ _ r b p m (bitwise l s a a' op k ia ib known) fits =
      two l s (Expr.bit_expr l op s) a a' (bit_code k) (λ x y. from_bits (bit_oper k x y)) r b p m
        (bits-IsBinary fl k) (bit_code-byte k) (compiled l a r b p m ia)
        (λ b' q. compiled s a' (r + 1) b' q m ib) fits
        (λ c c1 c2 i j el es. rw (el, es, bits_of-IsBitwise op k known) refl)
  compiled _ _ r b p m (shift l s a a' op k ia ib known) fits =
      two l s (Expr.shift_expr l op s) a a' (bit_code k) (λ x y. from_bits (bit_oper k x y)) r b p m
        (bits-IsBinary fl k) (bit_code-byte k) (compiled l a r b p m ia)
        (λ b' q. compiled s a' (r + 1) b' q m ib) fits
        (λ c c1 c2 i j el es. rw (el, es, shift_of-IsShift op k known) refl)
  compiled _ _ r b p m (comparison l s a a' op k ia ib known) fits =
      two l s (Expr.compare_expr l op s) a a' (compare_code k) (compare_oper fl k) r b p m
        (compare-IsBinary fl k) (compare_code-byte k) (compiled l a r b p m ia)
        (λ b' q. compiled s a' (r + 1) b' q m ib) fits
        (λ c c1 c2 i j el es. rw (el, es, compare_of-IsComparison op k known) refl)
  compiled _ _ r b p m (inverted l s a a' op k ia ib known) fits =
      let d = max (depth a) (1 + depth a') in
      let w = weight a + weight a' + 3 + 2 in
      let x = compiled l a r b p m ia (first_fits d w _ _ fits (omega arith) (omega arith)) in
      let y = compiled s a' (r + 1) (b ++ x.bytes) x.pool m ib (
        later_fits d w (depth a') (weight a') (weight a) (r + 1) (b ++ x.bytes) x.pool fits
          (omega arith) (omega (arith, length-append b x.bytes, x.short)) x.grows (omega arith)) in
      binary_then_emitted fl r b p m l s (Expr.compare_expr l op s) (compare_code k)
        (compare_oper fl k) op_not (weight a) (weight a') _ _ x y (compare-IsBinary fl k)
        (compare_code-byte k) (omega (arith, fits.registers, some_depth a'))
        (λ c c1 c2 i j el es. rw (el, es, compare_of-IsNegated op k known) refl)
  compiled _ _ r b p m (on_one e a op prev k ia known) fits =
      let x =
        compiled e a r b p m ia
          (first_fits (depth a) (weight a + 2) _ _ fits (omega arith) (omega arith)) in
      unary_emitted fl r b p m e (Expr.unary_expr op e prev) k (weight a) _ x
        (λ c c1 i el. rw (unary_of-IsUnary op.type_ k known, el) refl)
  compiled _ _ r b p m (conjunction l s a a' op ia ib known) fits =
      let x = compiled l a r b p m ia (logic_first a a' fits) in
      let y =
        compiled s a' r (pending (b ++ x.bytes) op_jump_false (some r)) x.pool m ib
          (logic_second a a' op_jump_false x.bytes x.pool x.short x.grows fits) in
      logic_emitted fl r b p m l s (Expr.logic_expr l op s) op_jump_false (weight a) (weight a') _ _
        _ x y (omega (arith, fits.distances)) (omega (arith, fits.code))
        (λ c c1 c2 i j offset code el ej es. rw (logic_jump-IsAnd op known, el, ej, es) refl)
        (λ xs ys q k short kept f g.
          both-Runs fl r (omega (arith, fits.registers, some_depth a)) xs ys q k _ _ short kept f g)
  compiled _ _ r b p m (disjunction l s a a' op ia ib known) fits =
      let x = compiled l a r b p m ia (logic_first a a' fits) in
      let y =
        compiled s a' r (pending (b ++ x.bytes) op_jump_true (some r)) x.pool m ib
          (logic_second a a' op_jump_true x.bytes x.pool x.short x.grows fits) in
      logic_emitted fl r b p m l s (Expr.logic_expr l op s) op_jump_true (weight a) (weight a') _ _
        _ x y (omega (arith, fits.distances)) (omega (arith, fits.code))
        (λ c c1 c2 i j offset code el ej es. rw (logic_jump-IsOr op known, el, ej, es) refl)
        (λ xs ys q k short kept f g.
          either-Runs fl r (omega (arith, fits.registers, some_depth a)) xs ys q k _ _ short kept f
            g)
  compiled _ _ r b p m (conditional cond t f a a' a'' ia ib ic) fits =
      let d = max (depth a) (max (depth a') (depth a'')) in
      let w = weight a + 4 + weight a' + 3 + weight a'' in
      let x = compiled cond a r b p m ia (first_fits d w _ _ fits (omega arith) (omega arith)) in
      let front = pending (b ++ x.bytes) op_jump_false (some r) in
      let y = compiled t a' r front x.pool m ib (
        later_fits d w (depth a') (weight a') (weight a + 4) r front x.pool fits (omega arith)
          (omega (
            arith,
            pending_length (b ++ x.bytes) op_jump_false (some r),
            length-append b x.bytes,
            x.short,
          ))
          (omega (arith, x.grows)) (omega arith)) in
      let back = pending (first_branch fl r b p m x.bytes y.bytes) op_jump none in
      let z = compiled f a'' r back y.pool m ic (
        later_fits d w (depth a'') (weight a'') (weight a + 4 + weight a' + 3) r back y.pool fits
          (omega arith)
          (omega (
            arith,
            pending_length (first_branch fl r b p m x.bytes y.bytes) op_jump none,
            first_branch_length fl r b p m x.bytes y.bytes,
            x.short,
            y.short,
          ))
          (omega (arith, x.grows, y.grows)) (omega arith)) in
      choose_emitted fl r b p m cond t f (Expr.if_expr cond t f) (weight a) (weight a') (weight a'')
        _ _ _ x y z (omega (arith, fits.registers, some_depth a)) (omega (arith, fits.distances))
        (omega (arith, fits.distances)) (omega (arith, fits.code))
        (λ c c1 c3 c5 i j k before over code2 code4 ec ej et eo ef. rw (ec, ej, et, eo, ef) refl)

pub compile_expr-evaluate :
    (fl : Floats) (e : Expr) (a : Operation) (r : ℕ) (b : List ℕ) (p : Pool) (m : List DebugRange)
    → IsOperation e a
    → Fits (depth a) (weight a) r b p
    → (c : Compiler) × (compile_expr e (compiler (bytecode b p m) r) ≡ some (r, c))
      × ((more : List ℕ) (q : Pool) (n : List DebugRange) (regs : ℕ → Object)
          → Keeps (pool c.code) q
          → Delivers fl
              (bytecode (block c.code ++ more) q n)
              regs
              (length b)
              r
              (evaluate fl a)
              (code_size c.code))
compile_expr-evaluate fl e a r b p m is fits =
    let x = compiled fl e a r b p m is fits in
    (
      compiler (bytecode (b ++ x.bytes) x.pool m) ((r + 1) % 256),
      x.emits,
      λ more q n regs keep.
          ends_at fl (bytecode ((b ++ x.bytes) ++ more) q n) regs (length b) r
            (length b + length x.bytes) (length (b ++ x.bytes)) (evaluate fl a)
            (sym (length-append b x.bytes))
            (x.runs ((b ++ x.bytes) ++ more) q n regs (length b)
              (b, more, append_assoc b x.bytes more, refl) keep),
    )
