-- ===== src/Machine/Step.antt =====
-- src/vm.cpp: the dispatch loop `executeOp`, one instruction at a time, for constants, jumps and
-- operators. `ip` is an index into the block of the current code.
use choice_lang.Prelude.{ℕ, Option, none, some, List, ◌==◌, ◌||◌, ◌≡◌, if◌then◌else◌}
use choice_lang.Object.{Object, ByteCode, block}
use choice_lang.Opcodes.{op_jump, op_jump_true, op_jump_false, op_loop, op_load_reg, op_halt}
use choice_lang.Vm.{read_byte, jump_case, load_reg_case}
use choice_lang.Arith.{BitOp, op_and, op_or, op_xor, op_shift_l, op_shift_r, bit_oper}
use choice_lang.Machine.{
  Floats, RuntimeError, Result, result, thrown, endless, unreachable, ArithOp, op_add, op_sub,
  op_mult, op_div, op_power, op_mod, CompareOp, op_equal, op_gt, op_lt, op_in, UnaryOp, op_neg,
  op_incr, op_decr, op_not, op_comp, arith_oper, compare_oper, from_bits, unary_oper, is_truthy,
}

-- The byte of each operator.
abbrev pub arith_code : ArithOp → ℕ
arith_code op_add = 8
arith_code op_sub = 9
arith_code op_mult = 10
arith_code op_div = 11
arith_code op_power = 12
arith_code op_mod = 13

abbrev pub unary_code : UnaryOp → ℕ
unary_code op_neg = 14
unary_code op_incr = 15
unary_code op_decr = 16
unary_code op_not = 21
unary_code op_comp = 24

abbrev pub compare_code : CompareOp → ℕ
compare_code op_equal = 17
compare_code op_gt = 18
compare_code op_lt = 19
compare_code op_in = 20

abbrev pub bit_code : BitOp → ℕ
bit_code op_and = 22
bit_code op_or = 23
bit_code op_xor = 25
bit_code op_shift_r = 26
bit_code op_shift_l = 27

-- The cases of the dispatch.
pub data Instruction : Type 0 where
  load_instr : Instruction
  jump_instr : ℕ → Instruction
  arith_instr : ArithOp → Instruction
  compare_instr : CompareOp → Instruction
  bit_instr : BitOp → Instruction
  unary_instr : UnaryOp → Instruction
  halt_instr : Instruction
  not_modelled : Instruction

unfoldable pub decode : ℕ → Instruction
decode op =
    if op == op_load_reg
    then load_instr
    else if op == op_jump || op == op_jump_true || op == op_jump_false || op == op_loop
    then jump_instr op
    else if op == 8
    then arith_instr op_add
    else if op == 9
    then arith_instr op_sub
    else if op == 10
    then arith_instr op_mult
    else if op == 11
    then arith_instr op_div
    else if op == 12
    then arith_instr op_power
    else if op == 13
    then arith_instr op_mod
    else if op == 14
    then unary_instr op_neg
    else if op == 15
    then unary_instr op_incr
    else if op == 16
    then unary_instr op_decr
    else if op == 17
    then compare_instr op_equal
    else if op == 18
    then compare_instr op_gt
    else if op == 19
    then compare_instr op_lt
    else if op == 20
    then compare_instr op_in
    else if op == 21
    then unary_instr op_not
    else if op == 22
    then bit_instr op_and
    else if op == 23
    then bit_instr op_or
    else if op == 24
    then unary_instr op_comp
    else if op == 25
    then bit_instr op_xor
    else if op == 26
    then bit_instr op_shift_r
    else if op == 27
    then bit_instr op_shift_l
    else if op == op_halt
    then halt_instr
    else not_modelled

-- Registers by their number.
pub record Machine : Type 0 where
  pub registers : ℕ → Object
  pub ip : ℕ

abbrev pub machine : (ℕ → Object) → ℕ → Machine
machine regs ip = record { registers = regs; ip = ip }

abbrev pub update : (ℕ → Object) → ℕ → Object → ℕ → Object
update regs dest value r = if r == dest then value else regs r

-- `undefined` is `CH_UNREACHABLE`; `stuck` is a read outside of the code, or an instruction that is not modelled.
pub data Outcome : Type 0 where
  running : Machine → Outcome
  raised : RuntimeError → Outcome
  looping : Outcome
  undefined : Outcome
  halted : Outcome
  stuck : Outcome

-- The register `dest` gets the value, or the error leaves the loop.
unfoldable pub settle : (ℕ → Object) → ℕ → ℕ → Result → Outcome
settle regs dest ip (result value) = running (machine (update regs dest value) ip)
settle regs dest ip (thrown error) = raised error
settle regs dest ip endless = looping
settle regs dest ip unreachable = undefined

-- What follows a byte that was read.
abbrev pub with_byte : (ℕ → ℕ → Outcome) → Option (ℕ × ℕ) → Outcome
with_byte f none = stuck
with_byte f (some (b, ip)) = f b ip

abbrev pub binary_case : (Object → Object → Result) → List ℕ → (ℕ → Object) → ℕ → Outcome
binary_case oper code regs ip =
    with_byte
      (λ dest ip1.
        with_byte (λ second ip2. settle regs dest ip2 (oper (regs dest) (regs second)))
          (read_byte code ip1))
      (read_byte code ip)

abbrev pub unary_case : (Object → Result) → List ℕ → (ℕ → Object) → ℕ → Outcome
unary_case oper code regs ip =
    with_byte (λ dest ip1. settle regs dest ip1 (oper (regs dest))) (read_byte code ip)

abbrev pub loaded : (ℕ → Object) → Option (ℕ × Object × ℕ) → Outcome
loaded regs none = stuck
loaded regs (some (dest, value, ip)) = running (machine (update regs dest value) ip)

abbrev pub jumped : (ℕ → Object) → Option ℕ → Outcome
jumped regs none = stuck
jumped regs (some ip) = running (machine regs ip)

unfoldable pub execute : Floats → ByteCode → Instruction → (ℕ → Object) → ℕ → Outcome
execute fl code load_instr regs ip = loaded regs (load_reg_case code ip)
execute fl code (jump_instr op) regs ip =
    jumped regs (jump_case (λ r. is_truthy fl (regs r)) op (block code) ip)
execute fl code (arith_instr op) regs ip = binary_case (arith_oper fl op) (block code) regs ip
execute fl code (compare_instr op) regs ip = binary_case (compare_oper fl op) (block code) regs ip
execute fl code (bit_instr op) regs ip =
    binary_case (λ a b. from_bits (bit_oper op a b)) (block code) regs ip
execute fl code (unary_instr op) regs ip = unary_case (unary_oper fl op) (block code) regs ip
execute fl code halt_instr regs ip = halted
execute fl code not_modelled regs ip = stuck

abbrev pub fetched : Floats → ByteCode → (ℕ → Object) → Option (ℕ × ℕ) → Outcome
fetched fl code regs none = stuck
fetched fl code regs (some (op, ip)) = execute fl code (decode op) regs ip

unfoldable pub step : Floats → ByteCode → Machine → Outcome
step fl code m = fetched fl code m.registers (read_byte (block code) m.ip)

-- Any number of steps.
pub data Steps (fl : Floats) (code : ByteCode) : Machine → Machine → Type 0 where
  stay : (m : Machine) → Steps fl code m m
  next : (m n k : Machine) → step fl code m ≡ running n → Steps fl code n k → Steps fl code m k
