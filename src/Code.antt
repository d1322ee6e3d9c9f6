-- ===== src/Code.antt =====
-- src/bytecode.cpp and include/bytecode.h: the methods of `ByteCode` by which the compiler emits
-- instructions, operands, jumps and constants.
pub mod Jumps
pub mod LoadConst
pub mod Operands
use choice_lang.Prelude.{
  ℕ, zero, suc, ◌+◌, ◌-◌, ◌*◌, ◌/◌, ◌%◌, ◌^◌, bit_and, Bool, true, false, ◌&&◌, Option, none, some,
  List, [], ◌∷◌, ◌++◌, length, set, ltb, leb, ◌==◌, if◌then◌else◌,
}
use choice_lang.Opcodes.{op_loop, op_byte_oper, op_short_oper, op_long_oper, op_load_reg}
use choice_lang.Object.{
  Object, int, ByteCode, bytecode, Pool, block, pool, push_back, pool_size, slt,
}

unfoldable pub add_byte : ℕ → ByteCode → ByteCode
add_byte byte (bytecode b p m) = bytecode (b ++ (byte ∷ [])) p m

unfoldable pub add_bytes : List ℕ → ByteCode → ByteCode
unfolding add_byte
add_bytes [] code = code
add_bytes (byte ∷ bytes) code = add_bytes bytes (add_byte byte code)

-- An opcode with its operands.
unfoldable pub add_op : ℕ → List ℕ → ByteCode → ByteCode
unfolding add_bytes
add_op op opers code = add_bytes opers (add_byte (op % 256) code)

-- The high byte first.
unfoldable pub add_short : ℕ → ByteCode → ByteCode
unfolding add_byte
add_short n code = add_byte (bit_and n 0xff) (add_byte (bit_and (n / 2 ^ 8) 0xff) code)

unfoldable pub add_long : ℕ → ByteCode → ByteCode
unfolding add_byte
add_long n code = add_byte (bit_and n 0xff) (
    add_byte (bit_and (n / 2 ^ 8) 0xff)
      (add_byte (bit_and (n / 2 ^ 16) 0xff) (add_byte (bit_and (n / 2 ^ 24) 0xff) code)))

abbrev pub code_size : ByteCode → ℕ
code_size code = length (block code)

-- No register is -1. The result is the offset of the two bytes to patch.
unfoldable pub add_jump : ℕ → Option ℕ → ByteCode → ByteCode × ℕ
unfolding add_op
add_jump op none code = let c = add_op op [] code in (add_byte 0 (add_byte 0 c), code_size c)
add_jump op (some reg) code =
    let c = add_op op (reg % 256 ∷ []) code in (add_byte 0 (add_byte 0 c), code_size c)

abbrev pub byte_jump_max : ℕ
byte_jump_max = 2 ^ 16 - 1

-- A distance above the maximum changes nothing.
unfoldable pub patch_jump : ℕ → ByteCode → ByteCode
patch_jump offset (bytecode b p m) =
    let diff = (length b + 2 ^ 64 - offset + 2 ^ 64 - 2) % 2 ^ 64 in
    if leb diff byte_jump_max
    then bytecode
        (set (set b offset (bit_and (diff / 2 ^ 8) 0xff)) (offset + 1) (bit_and diff 0xff)) p m
    else bytecode b p m

unfoldable pub add_loop : ℕ → ByteCode → ByteCode
unfolding add_byte
add_loop start code =
    let diff = (code_size code + 2 ^ 64 - start + 3) % 2 ^ 16 in
    add_byte (bit_and diff 0xff) (add_byte (bit_and (diff / 2 ^ 8) 0xff) (add_byte op_loop code))

unfoldable pub load_reg : ℕ → ℕ → ByteCode → ByteCode
unfolding add_op
load_reg reg op code = add_op op_load_reg (reg ∷ op ∷ []) code

-- -3 < val < 3, as signed numbers.
abbrev pub is_immediate : ℕ → Bool
is_immediate val = slt (2 ^ 64 - 3) val && slt val 3

-- The operand that names a place of the pool.
unfoldable pub pool_operand : ℕ → ByteCode → ByteCode
unfolding add_byte add_short add_long
pool_operand index code =
    if ltb index (2 ^ 8)
    then add_byte (index % 2 ^ 8) (add_byte op_byte_oper code)
    else if ltb index (2 ^ 16)
    then add_short (index % 2 ^ 16) (add_byte op_short_oper code)
    else add_long (index % 2 ^ 32) (add_byte op_long_oper code)

abbrev pub add_constant : Object → ByteCode → ByteCode
add_constant constant (bytecode b p m) =
    let p' = push_back p constant in pool_operand (pool_size p' - 1) (bytecode b p' m)

unfoldable pub load_operand : Object → ByteCode → ByteCode
unfolding add_byte pool_operand
load_operand (int val) code =
    if is_immediate val
    then add_byte ((val + 2) % 2 ^ 64 % 256) code
    else add_constant (int val) code
load_operand constant code = add_constant constant code

unfoldable pub load_reg_const : Object → ℕ → ByteCode → ByteCode
unfolding add_op load_operand
load_reg_const constant reg code = load_operand constant (add_op op_load_reg (reg ∷ []) code)
