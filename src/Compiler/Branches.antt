-- ===== src/Compiler/Branches.antt =====
-- src/compiler.cpp: the code of `&&`, `||` and of conditionals, with its run on the VM.
use choice_lang.Prelude.{
  ℕ, ◌+◌, ◌/◌, ◌%◌, ◌^◌, ◌≤◌, ◌<◌, ◌≡◌, sym, ap, ◌∙◌, not, Option, none, some, List, [], ◌∷◌, ◌++◌,
  length, if◌then◌else◌, arith, length-append, append_assoc,
}
use choice_lang.Object.{ByteCode, bytecode, Pool, DebugRange}
use choice_lang.Opcodes.{op_jump, op_jump_false}
use choice_lang.Code.{add_jump, patch_jump, byte_jump_max}
use choice_lang.Code.LoadConst.{Keeps}
use choice_lang.Code.Operands.{low}
use choice_lang.Code.Jumps.{jump_front, register_bytes, add_jump-block, patch_jump-body}
use choice_lang.Ast.{Expr}
use choice_lang.Machine.{Floats, Result, is_truthy}
use choice_lang.Compiler.{Compiler, compiler, patch, compile_expr, free_reg}
use choice_lang.Compiler.Operation.{and_then}
use choice_lang.Compiler.Placed.{jump_bytes}
use choice_lang.Compiler.Runs.{Runs, Keeps-trans, choose-Runs}
use choice_lang.Compiler.Emitted.{Emitted, after_reg}

-- The code in front of a body that is not compiled yet.
abbrev pub pending : List ℕ → ℕ → Option ℕ → List ℕ
pending b op reg = jump_front b op reg ++ (0 ∷ 0 ∷ [])

pub pending_length :
    (b : List ℕ) (op : ℕ) (reg : Option ℕ)
    → length (pending b op reg) ≡ length b + 3 + length (register_bytes reg)
pending_length b op reg = omega (
  arith,
  length-append (jump_front b op reg) (0 ∷ 0 ∷ []),
  length-append b (op % 256 ∷ register_bytes reg),
)

-- The patched jump and its body stand behind `b`.
patched_body :
    (fl : Floats) (b ys : List ℕ) (op : ℕ) (reg : Option ℕ) (p : Pool) (m : List DebugRange)
    → length ys ≤ byte_jump_max
    → length (jump_front b op reg) + 2 + length ys < 2 ^ 64
    → patch_jump (length (jump_front b op reg)) (bytecode (pending b op reg ++ ys) p m)
      ≡ bytecode (b ++ (jump_bytes fl op reg (length ys) ++ ys)) p m
patched_body fl b ys op reg p m h fits =
    let front = jump_front b op reg in
    let opcode = op % 256 ∷ register_bytes reg in
    let distance = low (length ys / 2 ^ 8) ∷ low (length ys) ∷ [] in
    ap (λ l. patch_jump (length front) (bytecode l p m)) (append_assoc front (0 ∷ 0 ∷ []) ys)
    ∙ patch_jump-body front ys p m h fits
    ∙ ap (λ l. bytecode l p m)
        (append_assoc b opcode (distance ++ ys)
          ∙ ap (λ l. b ++ l) (sym (append_assoc opcode distance ys)))

module _ (fl : Floats) (r : ℕ) (b : List ℕ) (p : Pool) (m : List DebugRange) where
  -- A jump over the second operand.
  pub logic_emitted :
      (l s whole : Expr) (op size size' : ℕ) (res res' out : Result)
      (x : Emitted fl l size res r b p m)
      → Emitted fl s size' res' r (pending (b ++ x.bytes) op (some r)) x.pool m
      → size' ≤ byte_jump_max
      → length b + (size + 4 + size') < 2 ^ 64
      → ((c c1 c2 : Compiler) (i j offset : ℕ) (code : ByteCode)
          → compile_expr l c ≡ some (i, c1)
          → add_jump op (some i) c1.code ≡ (code, offset)
          → compile_expr s (compiler code i) ≡ some (j, c2)
          → compile_expr whole c ≡ some (c.next_reg, patch offset c2))
      → ((xs ys : List ℕ) (q k : Pool)
          → length ys < 2 ^ 16
          → Keeps q k
          → Runs fl xs q r res
          → Runs fl ys k r res'
          → Runs fl (xs ++ (jump_bytes fl op (some r) (length ys) ++ ys)) k r out)
      → Emitted fl whole (size + 4 + size') out r b p m
  logic_emitted l s whole op size size' res res' out x y near fits eq rule =
      let front = jump_front (b ++ x.bytes) op (some r) in
      let jump = jump_bytes fl op (some r) (length y.bytes) in
      let front_size = length-append (b ++ x.bytes) (op % 256 ∷ r % 256 ∷ []) in
      let left_size = length-append b x.bytes in
      let near' : length y.bytes ≤ byte_jump_max = omega (arith, y.short, near) in
      let fits' : length front + 2 + length y.bytes < 2 ^ 64 =
        omega (arith, x.short, y.short, front_size, left_size, fits) in
      record {
        bytes = x.bytes ++ (jump ++ y.bytes);
        pool = y.pool;
        emits =
            eq _ _ _ r r (length front) (bytecode (front ++ (0 ∷ 0 ∷ [])) x.pool m) x.emits
              (add_jump-block op (some r) (b ++ x.bytes) x.pool m) y.emits
            ∙ ap (λ c. some (r, compiler c (after_reg r)))
                (patched_body fl (b ++ x.bytes) y.bytes op (some r) y.pool m near' fits'
                  ∙ ap (λ t. bytecode t y.pool m) (append_assoc b x.bytes (jump ++ y.bytes)));
        short = omega (
          arith,
          length-append x.bytes (jump ++ y.bytes),
          length-append jump y.bytes,
          x.short,
          y.short,
        );
        grows = omega (arith, x.grows, y.grows);
        kept = Keeps-trans p x.pool y.pool x.kept y.kept;
        runs = rule x.bytes y.bytes x.pool y.pool (omega (arith, near')) y.kept x.runs y.runs;
      }

  -- The code of the first branch with the jump over the second, before that one is compiled.
  unfoldable pub first_branch : (xs ts : List ℕ) → List ℕ
  first_branch xs ts = (b ++ xs) ++ (jump_bytes fl op_jump_false (some r) (length ts + 3) ++ ts)

  pub first_branch_length :
      (xs ts : List ℕ) → length (first_branch xs ts) ≡ length b + length xs + 4 + length ts
  unfolding first_branch
  first_branch_length xs ts =
      let jump = jump_bytes fl op_jump_false (some r) (length ts + 3) in
      omega (arith, length-append (b ++ xs) (jump ++ ts), length-append b xs, length-append jump ts)

  -- Patching the first jump.
  first_patched :
      (xs ts : List ℕ) (q : Pool)
      → length ts + 3 ≤ byte_jump_max
      → length b + length xs + 7 + length ts < 2 ^ 64
      → patch_jump
          (length (jump_front (b ++ xs) op_jump_false (some r)))
          (bytecode (pending (pending (b ++ xs) op_jump_false (some r) ++ ts) op_jump none) q m)
        ≡ bytecode (pending (first_branch xs ts) op_jump none) q m
  unfolding first_branch
  first_patched xs ts q near fits =
      let front = pending (b ++ xs) op_jump_false (some r) in
      let last = op_jump ∷ 0 ∷ 0 ∷ [] in
      let body = ts ++ last in
      let jump = jump_bytes fl op_jump_false (some r) (length ts + 3) in
      let size : length body ≡ length ts + 3 = omega (arith, length-append ts last) in
      let left = length-append b xs in
      let opcode = length-append (b ++ xs) (op_jump_false % 256 ∷ r % 256 ∷ []) in
      let near' : length body ≤ byte_jump_max = omega (arith, size, near) in
      let fits' : length (jump_front (b ++ xs) op_jump_false (some r)) + 2 + length body < 2 ^ 64 =
        omega (arith, size, left, opcode, fits) in
      let ends : (zs : List ℕ) → (zs ++ (op_jump ∷ [])) ++ (0 ∷ 0 ∷ []) ≡ zs ++ last =
        λ zs. append_assoc zs (op_jump ∷ []) (0 ∷ 0 ∷ []) in
      ap (λ l. patch_jump (length (jump_front (b ++ xs) op_jump_false (some r))) (bytecode l q m))
        (ends (front ++ ts) ∙ append_assoc front ts last)
      ∙ patched_body fl (b ++ xs) body op_jump_false (some r) q m near' fits'
      ∙ ap (λ n. bytecode ((b ++ xs) ++ (jump_bytes fl op_jump_false (some r) n ++ body)) q m) size
      ∙ ap (λ l. bytecode l q m)
          (ap (λ l. (b ++ xs) ++ l) (sym (append_assoc jump ts last))
            ∙ sym (append_assoc (b ++ xs) (jump ++ ts) last)
            ∙ sym (ends ((b ++ xs) ++ (jump ++ ts))))

  pub choose_emitted :
      (cond t f whole : Expr) (size size' size'' : ℕ) (res res' res'' : Result)
      (x : Emitted fl cond size res r b p m)
      (y : Emitted fl t size' res' r (pending (b ++ x.bytes) op_jump_false (some r)) x.pool m)
      → Emitted fl f size'' res'' r (pending (first_branch x.bytes y.bytes) op_jump none) y.pool m
      → r < 256
      → size' + 3 ≤ byte_jump_max
      → size'' ≤ byte_jump_max
      → length b + (size + 4 + size' + 3 + size'') < 2 ^ 64
      → ((c c1 c3 c5 : Compiler) (i j k before over : ℕ) (code2 code4 : ByteCode)
          → compile_expr cond c ≡ some (i, c1)
          → add_jump op_jump_false (some i) c1.code ≡ (code2, before)
          → compile_expr t (free_reg (compiler code2 c1.next_reg)) ≡ some (j, c3)
          → add_jump op_jump none c3.code ≡ (code4, over)
          → compile_expr f (compiler (patch_jump before code4) j) ≡ some (k, c5)
          → compile_expr whole c ≡ some (c.next_reg, patch over c5))
      → Emitted fl whole
          (size + 4 + size' + 3 + size'')
          (and_then res (λ v. if not (is_truthy fl v) then res'' else res'))
          r
          b
          p
          m
  unfolding first_branch
  choose_emitted cond t f whole size size' size'' res res' res'' x y z small near near' fits eq =
      let front = pending (b ++ x.bytes) op_jump_false (some r) in
      let branch = first_branch x.bytes y.bytes in
      let jump = jump_bytes fl op_jump_false (some r) (length y.bytes + 3) in
      let over = jump_bytes fl op_jump none (length z.bytes) in
      let rest = over ++ z.bytes in
      let freed : (after_reg r + 255) % 256 ≡ r = omega arith in
      let left = length-append b x.bytes in
      let left' = length-append (b ++ x.bytes) (op_jump_false % 256 ∷ r % 256 ∷ []) in
      let front_size =
        length-append (jump_front (b ++ x.bytes) op_jump_false (some r)) (0 ∷ 0 ∷ []) in
      let code_size = length-append front y.bytes in
      let jump_size = length-append jump y.bytes in
      let branch_size = length-append (b ++ x.bytes) (jump ++ y.bytes) in
      let opcode = length-append (front ++ y.bytes) (op_jump ∷ []) in
      let opcode' = length-append branch (op_jump ∷ []) in
      let short_y : length y.bytes + 3 ≤ byte_jump_max = omega (arith, y.short, near) in
      let short_z : length z.bytes ≤ byte_jump_max = omega (arith, z.short, near') in
      let fits' : length b + length x.bytes + 7 + length y.bytes < 2 ^ 64 =
        omega (arith, x.short, y.short, fits) in
      let fits'' : length (jump_front branch op_jump none) + 2 + length z.bytes < 2 ^ 64 =
        omega (arith, x.short, y.short, z.short, left, branch_size, jump_size, opcode', fits) in
      let place : length (jump_front (front ++ y.bytes) op_jump none)
          ≡ length (jump_front branch op_jump none) =
        omega (arith, left', front_size, code_size, jump_size, branch_size, opcode, opcode') in
      let compiled : compile_expr t (compiler (bytecode front x.pool m) ((after_reg r + 255) % 256))
          ≡ some (r, compiler (bytecode (front ++ y.bytes) y.pool m) (after_reg r)) =
        ap (λ i. compile_expr t (compiler (bytecode front x.pool m) i)) freed ∙ y.emits in
      let compiled' : compile_expr f (
            compiler
              (patch_jump (length (jump_front (b ++ x.bytes) op_jump_false (some r)))
                (bytecode (pending (front ++ y.bytes) op_jump none) y.pool m))
              r)
          ≡ some (
            r,
            compiler (bytecode (pending branch op_jump none ++ z.bytes) z.pool m) (after_reg r),
          ) =
        ap (λ code. compile_expr f (compiler code r))
          (first_patched x.bytes y.bytes y.pool short_y fits')
        ∙ z.emits in
      record {
        bytes = x.bytes ++ (jump ++ (y.bytes ++ rest));
        pool = z.pool;
        emits =
            eq _ _ _ _ r r r _ _ _ _ x.emits
              (add_jump-block op_jump_false (some r) (b ++ x.bytes) x.pool m) compiled
              (add_jump-block op_jump none (front ++ y.bytes) y.pool m) compiled'
            ∙ ap
                (λ n. some (
                  r,
                  patch n (
                      compiler (bytecode (pending branch op_jump none ++ z.bytes) z.pool m)
                        (after_reg r)),
                ))
                place
            ∙ ap (λ code. some (r, compiler code (after_reg r)))
                (patched_body fl branch z.bytes op_jump none z.pool m short_z fits''
                  ∙ ap (λ l. bytecode l z.pool m)
                      (append_assoc (b ++ x.bytes) (jump ++ y.bytes) rest
                        ∙ ap (λ l. (b ++ x.bytes) ++ l) (append_assoc jump y.bytes rest)
                        ∙ append_assoc b x.bytes (jump ++ (y.bytes ++ rest))));
        short = omega (
          arith,
          length-append x.bytes (jump ++ (y.bytes ++ rest)),
          length-append jump (y.bytes ++ rest),
          length-append y.bytes rest,
          length-append over z.bytes,
          x.short,
          y.short,
          z.short,
        );
        grows = omega (arith, x.grows, y.grows, z.grows);
        kept = Keeps-trans p x.pool z.pool x.kept (Keeps-trans x.pool y.pool z.pool y.kept z.kept);
        runs =
            choose-Runs fl r x.bytes y.bytes z.bytes x.pool y.pool z.pool res res' res'' small
              (omega (arith, short_y)) (omega (arith, short_z)) y.kept z.kept x.runs y.runs z.runs;
      }
