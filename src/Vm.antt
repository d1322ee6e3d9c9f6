-- ===== src/Vm.antt =====
-- src/vm.cpp: the VM's reading of instructions. `ip` is an index into the block of the current
-- code; `none` is a read outside of it, which is undefined in the source.
use choice_lang.Prelude.{
  ℕ, ◌+◌, ◌-◌, ◌*◌, ◌%◌, ◌^◌, bit_or, Bool, true, false, Option, none, some, List, get_elem?, leb,
  ◌==◌, if◌then◌else◌,
}
use choice_lang.Opcodes.{
  op_true, op_false, op_null, op_byte_oper, op_short_oper, op_long_oper, op_jump, op_jump_true,
  op_jump_false, op_loop,
}
use choice_lang.Object.{Object, int, boolean, null, ByteCode, Pool, block, pool, pool_at}

infixl 5 ◌>>=◌
abbrev pub ◌>>=◌ {ℓ κ} : {A : Type ℓ} {B : Type κ} → Option A → (A → Option B) → Option B
none >>= f = none
some a >>= f = f a

-- The byte at `ip`, and `ip` moved behind it.
unfoldable pub read_byte : List ℕ → ℕ → Option (ℕ × ℕ)
read_byte code ip = do b ← get_elem? code ip; some (b, ip + 1)

unfoldable pub read_short : List ℕ → ℕ → Option (ℕ × ℕ)
read_short code ip = do
  b1 ← get_elem? code ip
  b2 ← get_elem? code (ip + 1)
  some (bit_or (b1 * 2 ^ 8) b2 % 2 ^ 16, ip + 2)

unfoldable pub read_long : List ℕ → ℕ → Option (ℕ × ℕ)
read_long code ip = do
  b1 ← get_elem? code ip
  b2 ← get_elem? code (ip + 1)
  b3 ← get_elem? code (ip + 2)
  b4 ← get_elem? code (ip + 3)
  some (
    bit_or (bit_or (bit_or (b1 * 2 ^ 24 % 2 ^ 32) (b2 * 2 ^ 16)) (b3 * 2 ^ 8)) b4 % 2 ^ 32,
    ip + 4,
  )

-- `i64(oper - 2)`.
abbrev small_int : ℕ → Object
small_int oper = int ((oper + 2 ^ 64 - 2) % 2 ^ 64)

abbrev pool_entry : Pool → Option (ℕ × ℕ) → Option (Object × ℕ)
pool_entry p none = none
pool_entry p (some (i, ip)) = do o ← pool_at p i; some (o, ip)

-- The switch of `loadOper`, on the byte that was read.
unfoldable pub load_case : ℕ → ByteCode → ℕ → Option (Object × ℕ)
load_case oper code ip =
    if leb oper 4
    then some (small_int oper, ip)
    else if oper == op_true
    then some (boolean true, ip)
    else if oper == op_false
    then some (boolean false, ip)
    else if oper == op_null
    then some (null, ip)
    else if oper == op_byte_oper
    then pool_entry (pool code) (read_byte (block code) ip)
    else if oper == op_short_oper
    then pool_entry (pool code) (read_short (block code) ip)
    else if oper == op_long_oper
    then pool_entry (pool code) (read_long (block code) ip)
    else none

unfoldable pub load_oper : ByteCode → ℕ → Option (Object × ℕ)
load_oper code ip = do (oper, ip') ← read_byte (block code) ip; load_case oper code ip'

-- The cases of the dispatch loop that move `ip`; `ip` stands behind the opcode. The tests of
-- registers come from the function `truthy`, `registers[r].isTruthy()`.
unfoldable pub jump_case : (ℕ → Bool) → ℕ → List ℕ → ℕ → Option ℕ
jump_case truthy op code ip =
    if op == op_jump
    then (do (jump, ip') ← read_short code ip; some (ip' + jump))
    else if op == op_loop
    then (do (jump, ip') ← read_short code ip; some (ip' - jump))
    else if op == op_jump_true
    then (do
      (check, ip1) ← read_byte code ip
      (jump, ip2) ← read_short code ip1
      some (if truthy check then ip2 + jump else ip2))
    else if op == op_jump_false
    then (do
      (check, ip1) ← read_byte code ip
      (jump, ip2) ← read_short code ip1
      some (if truthy check then ip2 else ip2 + jump))
    else none

-- `OP_LOAD_REG` behind its opcode: the register, the value that it gets, and the next `ip`.
unfoldable pub load_reg_case : ByteCode → ℕ → Option (ℕ × Object × ℕ)
load_reg_case code ip = do
  (dest, ip1) ← read_byte (block code) ip
  (value, ip2) ← load_oper code ip1
  some (dest, value, ip2)
