-- ===== src/Compiler/Runs.antt =====
-- src/compiler.cpp and src/vm.cpp: how the runs of the parts of an expression make the run of the
-- whole, for each pattern of code that the compiler emits.
use choice_lang.Prelude.{
  ℕ, ◌+◌, ◌^◌, ◌<◌, ◌≡◌, ap, ◌∙◌, Bool, not, none, some, List, [], ◌∷◌, ◌++◌, length, if◌then◌else◌,
  arith, length-append,
}
use native.Mathlib.Nat.{mod-eq_of_lt}
use choice_lang.Object.{Object, ByteCode, bytecode, Pool, pool_size, DebugRange}
use choice_lang.Opcodes.{op_jump, op_jump_true, op_jump_false, op_load_reg}
use choice_lang.Code.LoadConst.{IsWord, Keeps, operand, operand_pool}
use choice_lang.Code.Jumps.{IsJump, always, on_true, on_false, takes}
use choice_lang.Machine.{Floats, Result, result, UnaryOp, unary_oper, is_truthy}
use choice_lang.Machine.Step.{machine, settle, running, stay, next, unary_code}
use choice_lang.Compiler.Operation.{and_then}
use choice_lang.Compiler.Deliver.{
  Delivers, sequence, extend, settled, arrived, ends_at, branch, put,
}
use choice_lang.Compiler.Placed.{
  At, At-left, At-right, IsBinary, binary_step, unary_step, jump_bytes, jump_step, load_step,
  IsLiteral, literal_step,
}

-- Wherever the bytes stand, in a code whose pool keeps the constants of `p`, they deliver `r` in
-- register `reg` and arrive behind themselves.
abbrev pub Runs : Floats → List ℕ → Pool → ℕ → Result → Type 0
Runs fl bytes p reg r =
    (w : List ℕ) (q : Pool) (m : List DebugRange) (regs : ℕ → Object) (ip : ℕ)
    → At w ip bytes
    → Keeps p q
    → Delivers fl (bytecode w q m) regs ip reg r (ip + length bytes)

pub Keeps-trans : (p q k : Pool) → Keeps p q → Keeps q k → Keeps p k
Keeps-trans p q k f g i o e = g i o (f i o e)

from_place :
    (fl : Floats) (code : ByteCode) (regs : ℕ → Object) (ip other reg stop : ℕ) (r : Result)
    → ip ≡ other
    → Delivers fl code regs ip reg r stop
    → Delivers fl code regs other reg r stop
from_place fl code regs ip other reg stop r e d = rw (← e) d

module _ (fl : Floats) where
  pub const-Runs :
      (o : Object) (p : Pool) (reg : ℕ)
      → IsWord o
      → pool_size p < 2 ^ 32
      → Runs fl (op_load_reg ∷ reg ∷ operand o p) (operand_pool o p) reg (result o)
  const-Runs o p reg word small w q m regs ip at keep =
      put fl (bytecode w q m) regs ip reg _ o
        (load_step fl o w p q m regs ip reg word small keep at)

  pub literal-Runs :
      {op : ℕ} {o : Object} (l : IsLiteral fl op o) (p : Pool) (reg : ℕ)
      → Runs fl (op_load_reg ∷ reg ∷ op ∷ []) p reg (result o)
  literal-Runs {op} {o} l p reg w q m regs ip at keep =
      ends_at fl (bytecode w q m) regs ip reg (ip + 1 + 1 + 1) _ (result o) (omega arith) (
        put fl (bytecode w q m) regs ip reg (ip + 1 + 1 + 1) o
          (literal_step fl l (bytecode w q m) regs ip reg at))

  pub unary-Runs :
      (op : UnaryOp) (xs : List ℕ) (p : Pool) (reg : ℕ) (r : Result)
      → Runs fl xs p reg r
      → Runs fl (xs ++ (unary_code op ∷ reg ∷ [])) p reg (and_then r (λ x. unary_oper fl op x))
  unary-Runs op xs p reg r f w q m regs ip at keep =
      let code = bytecode w q m in
      let tail = unary_code op ∷ reg ∷ [] in
      let mid = ip + length xs in
      let stop = ip + length (xs ++ tail) in
      let size : mid + 1 + 1 ≡ stop = omega (arith, length-append xs tail) in
      sequence fl code regs ip mid reg reg stop r _ (omega arith)
        (f w q m regs ip (At-left xs tail at) keep)
        (λ x after ex same. settled fl code after mid reg stop (unary_oper fl op x) (
          unary_step fl op code after mid reg (At-right xs tail at)
          ∙ ap (λ i. settle after reg i (unary_oper fl op (after reg))) size
          ∙ ap (λ o. settle after reg stop (unary_oper fl op o)) ex))

  pub binary-Runs :
      (op : ℕ) (oper : Object → Object → Result) (xs ys : List ℕ) (p q : Pool) (reg : ℕ)
      (r s : Result)
      → IsBinary fl op oper
      → Keeps p q
      → Runs fl xs p reg r
      → Runs fl ys q (reg + 1) s
      → Runs fl
          (xs ++ (ys ++ (op ∷ reg ∷ (reg + 1) ∷ [])))
          q
          reg
          (and_then r (λ x. and_then s (λ y. oper x y)))
  binary-Runs op oper xs ys p q reg r s is kept f g w k m regs ip at keep =
      let code = bytecode w k m in
      let tail = op ∷ reg ∷ (reg + 1) ∷ [] in
      let second = At-right xs (ys ++ tail) at in
      let mid = ip + length xs in
      let last = mid + length ys in
      let stop = ip + length (xs ++ (ys ++ tail)) in
      let size : last + 1 + 1 + 1 ≡ stop =
        omega (arith, length-append xs (ys ++ tail), length-append ys tail) in
      sequence fl code regs ip mid reg reg stop r _ (omega arith)
        (f w k m regs ip (At-left xs (ys ++ tail) at) (Keeps-trans p q k kept keep))
        (λ x after ex same.
          sequence fl code after mid last reg (reg + 1) stop s _ (omega arith)
            (g w k m after mid (At-left ys tail second) keep)
            (λ y end ey same'. settled fl code end last reg stop (oper x y) (
              binary_step fl op oper code end last reg (reg + 1) is (At-right ys tail second)
              ∙ ap (λ i. settle end reg i (oper (end reg) (end (reg + 1)))) size
              ∙ ap (λ o. settle end reg stop (oper o (end (reg + 1))))
                  (same' reg (omega arith) ∙ ex)
              ∙ ap (λ o. settle end reg stop (oper x o)) ey)))

  -- A jump over `ys` where the value in the register says so.
  skip-Runs :
      (op reg : ℕ) (j : IsJump op (some reg)) (cond : Object → Bool) (xs ys : List ℕ) (p q : Pool)
      (r s : Result)
      → ((regs : ℕ → Object) → takes (λ i. is_truthy fl (regs i)) j ≡ cond (regs reg))
      → length ys < 2 ^ 16
      → Keeps p q
      → Runs fl xs p reg r
      → Runs fl ys q reg s
      → Runs fl
          (xs ++ (jump_bytes fl op (some reg) (length ys) ++ ys))
          q
          reg
          (and_then r (λ x. if cond x then result x else s))
  skip-Runs op reg j cond xs ys p q r s tests short kept f g w k m regs ip at keep =
      let code = bytecode w k m in
      let jump = jump_bytes fl op (some reg) (length ys) in
      let second = At-right xs (jump ++ ys) at in
      let mid = ip + length xs in
      let body = mid + length jump in
      let stop = ip + length (xs ++ (jump ++ ys)) in
      let size : body + length ys ≡ stop =
        omega (arith, length-append xs (jump ++ ys), length-append jump ys) in
      sequence fl code regs ip mid reg reg stop r _ (omega arith)
        (f w k m regs ip (At-left xs (jump ++ ys) at) (Keeps-trans p q k kept keep))
        (λ x after ex same.
          let tested : takes (λ i. is_truthy fl (after i)) j ≡ cond x = tests after ∙ ap cond ex in
          let go = jump_step fl j code after mid (length ys) short (At-left jump ys second) in
          branch fl code after mid body (length ys) reg stop (cond x) (result x) s
            (go ∙ ap (λ b. running (machine after (body + (if b then length ys else 0)))) tested)
            (arrived fl code after (body + length ys) reg stop x size ex)
            (ends_at fl code after body reg (body + length ys) stop s size
              (g w k m after body (At-right jump ys second) keep)))

  module _ (reg : ℕ) (small : reg < 256) (xs ys : List ℕ) (p q : Pool) (r s : Result)
      (short : length ys < 2 ^ 16) (kept : Keeps p q) (f : Runs fl xs p reg r)
      (g : Runs fl ys q reg s) where
    pub both-Runs :
        Runs fl
          (xs ++ (jump_bytes fl op_jump_false (some reg) (length ys) ++ ys))
          q
          reg
          (and_then r (λ x. if not (is_truthy fl x) then result x else s))
    both-Runs =
        skip-Runs op_jump_false reg (on_false reg) (λ x. not (is_truthy fl x)) xs ys p q r s
          (λ regs. ap (λ i. not (is_truthy fl (regs i))) (mod-eq_of_lt small)) short kept f g

    pub either-Runs :
        Runs fl
          (xs ++ (jump_bytes fl op_jump_true (some reg) (length ys) ++ ys))
          q
          reg
          (and_then r (λ x. if is_truthy fl x then result x else s))
    either-Runs =
        skip-Runs op_jump_true reg (on_true reg) (is_truthy fl) xs ys p q r s
          (λ regs. ap (λ i. is_truthy fl (regs i)) (mod-eq_of_lt small)) short kept f g

  -- The first branch ends with a jump over the second.
  pub choose-Runs :
      (reg : ℕ) (cs ts fs : List ℕ) (p q k : Pool) (r s t : Result)
      → reg < 256
      → length ts + 3 < 2 ^ 16
      → length fs < 2 ^ 16
      → Keeps p q
      → Keeps q k
      → Runs fl cs p reg r
      → Runs fl ts q reg s
      → Runs fl fs k reg t
      → Runs fl
          (cs
            ++ (jump_bytes fl op_jump_false (some reg) (length ts + 3)
                ++ (ts ++ (jump_bytes fl op_jump none (length fs) ++ fs))))
          k
          reg
          (and_then r (λ x. if not (is_truthy fl x) then t else s))
  choose-Runs reg cs ts fs p q k r s t small short short' pq qk f g h w o m regs ip at keep =
      let code = bytecode w o m in
      let over = jump_bytes fl op_jump none (length fs) in
      let jump = jump_bytes fl op_jump_false (some reg) (length ts + 3) in
      let behind_jump = At-right cs (jump ++ (ts ++ (over ++ fs))) at in
      let body = At-right jump (ts ++ (over ++ fs)) behind_jump in
      let rest = At-right ts (over ++ fs) body in
      let mid = ip + length cs in
      let start = mid + length jump in
      let middle = start + length ts in
      let third = middle + length over in
      let stop = ip + length (cs ++ (jump ++ (ts ++ (over ++ fs)))) in
      let size : third + length fs ≡ stop = omega (
        arith,
        length-append cs (jump ++ (ts ++ (over ++ fs))),
        length-append jump (ts ++ (over ++ fs)),
        length-append ts (over ++ fs),
        length-append over fs,
      ) in
      sequence fl code regs ip mid reg reg stop r _ (omega arith)
        (f w o m regs ip (At-left cs (jump ++ (ts ++ (over ++ fs))) at)
          (Keeps-trans p q o pq (Keeps-trans q k o qk keep)))
        (λ x after ex same.
          let tested : takes (λ i. is_truthy fl (after i)) (on_false reg) ≡ not (is_truthy fl x) =
            ap (λ i. not (is_truthy fl (after i))) (mod-eq_of_lt small)
            ∙ ap (λ v. not (is_truthy fl v)) ex in
          let go =
            jump_step fl (on_false reg) code after mid (length ts + 3) short
              (At-left jump (ts ++ (over ++ fs)) behind_jump) in
          branch fl code after mid start (length ts + 3) reg stop (not (is_truthy fl x)) t s
            (go
              ∙ ap (λ b. running (machine after (start + (if b then length ts + 3 else 0)))) tested)
            (ends_at fl code after (start + (length ts + 3)) reg (third + length fs) stop t size (
              from_place fl code after third (start + (length ts + 3)) reg (third + length fs) t
                (omega arith) (h w o m after third (At-right over fs rest) keep)))
            (extend fl code after start middle reg stop s
              (g w o m after start (At-left ts (over ++ fs) body) (Keeps-trans q k o qk keep))
              (λ end.
                next _ _ _
                  (jump_step fl always code end middle (length fs) short' (At-left over fs rest)
                    ∙ ap (λ i. running (machine end i)) size)
                  (stay _))))
