-- ===== src/Opcodes.antt =====
-- include/opcodes.h: the codes of `enum Opcode` that the emitter and the reader of operands name.
use choice_lang.Prelude.{ℕ}

abbrev pub op_true : ℕ
op_true = 5

abbrev pub op_false : ℕ
op_false = 6

abbrev pub op_null : ℕ
op_null = 7

abbrev pub op_jump : ℕ
op_jump = 67

abbrev pub op_jump_true : ℕ
op_jump_true = 68

abbrev pub op_jump_false : ℕ
op_jump_false = 69

abbrev pub op_loop : ℕ
op_loop = 70

abbrev pub op_byte_oper : ℕ
op_byte_oper = 77

abbrev pub op_short_oper : ℕ
op_short_oper = 78

abbrev pub op_long_oper : ℕ
op_long_oper = 79

abbrev pub op_load_reg : ℕ
op_load_reg = 82

abbrev pub op_halt : ℕ
op_halt = 85

abbrev pub op_enter_scope : ℕ
op_enter_scope = 80

abbrev pub op_exit_scope : ℕ
op_exit_scope = 81
