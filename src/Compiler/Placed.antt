-- ===== src/Compiler/Placed.antt =====
-- Code at a place of a block, and what the VM does there: operators, constants and jumps.
use choice_lang.Prelude.{
  ℕ, ◌+◌, ◌/◌, ◌%◌, ◌^◌, ◌<◌, ◌≡◌, refl, sym, ap, ◌∙◌, Bool, true, false, Option, some, List, [],
  ◌∷◌, ◌++◌, length, get_elem?, if◌then◌else◌, arith, length-append, append_assoc,
}
use choice_lang.Object.{
  Object, boolean, null, ByteCode, bytecode, block, pool, pool_size, Pool, DebugRange,
}
use choice_lang.Arith.{BitOp, op_and, op_or, op_xor, op_shift_l, op_shift_r, bit_oper}
use choice_lang.Opcodes.{op_load_reg, op_true, op_false, op_null}
use choice_lang.Vm.{jump_case, load_case, load_reg_case}
use choice_lang.Code.{load_reg_const, code_size}
use choice_lang.Code.LoadConst.{
  IsWord, Keeps, operand, operand_pool, load_reg_const-block, load_reg_case-load_reg_const,
}
use choice_lang.Code.Operands.{get_elem?-behind, read_byte-at, load_oper_step, low}
use choice_lang.Code.Jumps.{
  jump_front, register_bytes, IsJump, always, on_true, on_false, takes, jump_case-distance,
}
use choice_lang.Machine.{
  Floats, Result, ArithOp, op_add, op_sub, op_mult, op_div, op_power, op_mod, CompareOp, op_equal,
  op_gt, op_lt, op_in, UnaryOp, op_neg, op_incr, op_decr, op_not, op_comp, arith_oper, compare_oper,
  from_bits, unary_oper, is_truthy,
}
use choice_lang.Machine.Step.{
  machine, running, settle, step, decode, execute, arith_code, compare_code, bit_code, unary_code,
  with_byte, binary_case, unary_case, jumped, loaded, update,
}

-- `bytes` stand at `ip`.
abbrev pub At : List ℕ → ℕ → List ℕ → Type 0
At whole ip bytes =
    (pre : List ℕ) × (more : List ℕ) × (whole ≡ pre ++ (bytes ++ more)) × (length pre ≡ ip)

module _ {whole : List ℕ} {ip : ℕ} where
  pub At-left : (xs ys : List ℕ) → At whole ip (xs ++ ys) → At whole ip xs
  At-left xs ys (pre, more, e, len) =
      (pre, ys ++ more, e ∙ ap (λ l. pre ++ l) (append_assoc xs ys more), len)

  pub At-right : (xs ys : List ℕ) → At whole ip (xs ++ ys) → At whole (ip + length xs) ys
  At-right xs ys (pre, more, e, len) = (
    pre ++ xs,
    more,
    e ∙ ap (λ l. pre ++ l) (append_assoc xs ys more) ∙ sym (append_assoc pre xs (ys ++ more)),
    omega (arith, length-append pre xs, len),
  )

  pub At-byte :
      (xs ys : List ℕ) (x i : ℕ)
      → At whole ip (xs ++ (x ∷ ys))
      → i ≡ ip + length xs
      → get_elem? whole i ≡ some x
  At-byte xs ys x i at e =
      let (pre, more, w, len) = At-right xs (x ∷ ys) at in
      rw w (get_elem?-behind pre (x ∷ (ys ++ more)) 0 i (omega (arith, e, len)))

module _ (fl : Floats) where
  -- The first byte of an instruction.
  pub step_at :
      (code : ByteCode) (regs : ℕ → Object) (ip op : ℕ)
      → get_elem? (block code) ip ≡ some op
      → step fl code (machine regs ip) ≡ execute fl code (decode op) regs (ip + 1)
  unfolding step
  step_at code regs ip op e = rw (read_byte-at (block code) ip op e) refl

  -- The opcode of an operator on two registers.
  abbrev pub IsBinary : ℕ → (Object → Object → Result) → Type 0
  IsBinary op oper =
      (code : ByteCode) (regs : ℕ → Object) (ip : ℕ)
      → execute fl code (decode op) regs ip ≡ binary_case oper (block code) regs ip

  pub arith-IsBinary : (op : ArithOp) → IsBinary (arith_code op) (arith_oper fl op)
  unfolding decode execute
  arith-IsBinary op_add code regs ip = refl
  arith-IsBinary op_sub code regs ip = refl
  arith-IsBinary op_mult code regs ip = refl
  arith-IsBinary op_div code regs ip = refl
  arith-IsBinary op_power code regs ip = refl
  arith-IsBinary op_mod code regs ip = refl

  pub compare-IsBinary : (op : CompareOp) → IsBinary (compare_code op) (compare_oper fl op)
  unfolding decode execute
  compare-IsBinary op_equal code regs ip = refl
  compare-IsBinary op_gt code regs ip = refl
  compare-IsBinary op_lt code regs ip = refl
  compare-IsBinary op_in code regs ip = refl

  pub bits-IsBinary : (op : BitOp) → IsBinary (bit_code op) (λ a b. from_bits (bit_oper op a b))
  unfolding decode execute
  bits-IsBinary op_and code regs ip = refl
  bits-IsBinary op_or code regs ip = refl
  bits-IsBinary op_xor code regs ip = refl
  bits-IsBinary op_shift_l code regs ip = refl
  bits-IsBinary op_shift_r code regs ip = refl

  unary_decode :
      (op : UnaryOp) (code : ByteCode) (regs : ℕ → Object) (ip : ℕ)
      → execute fl code (decode (unary_code op)) regs ip
        ≡ unary_case (unary_oper fl op) (block code) regs ip
  unfolding decode execute
  unary_decode op_neg code regs ip = refl
  unary_decode op_incr code regs ip = refl
  unary_decode op_decr code regs ip = refl
  unary_decode op_not code regs ip = refl
  unary_decode op_comp code regs ip = refl

  pub binary_step :
      (op : ℕ) (oper : Object → Object → Result) (code : ByteCode) (regs : ℕ → Object) (ip a b : ℕ)
      → IsBinary op oper
      → At (block code) ip (op ∷ a ∷ b ∷ [])
      → step fl code (machine regs ip) ≡ settle regs a (ip + 1 + 1 + 1) (oper (regs a) (regs b))
  binary_step op oper code regs ip a b is at =
      step_at code regs ip op (At-byte [] (a ∷ b ∷ []) op ip at (omega arith))
      ∙ is code regs (ip + 1)
      ∙ ap (with_byte _)
          (read_byte-at (block code) (ip + 1) a (At-byte (op ∷ []) (b ∷ []) a _ at (omega arith)))
      ∙ ap (with_byte _)
          (read_byte-at (block code) (ip + 1 + 1) b (At-byte (op ∷ a ∷ []) [] b _ at (omega arith)))

  pub unary_step :
      (op : UnaryOp) (code : ByteCode) (regs : ℕ → Object) (ip a : ℕ)
      → At (block code) ip (unary_code op ∷ a ∷ [])
      → step fl code (machine regs ip) ≡ settle regs a (ip + 1 + 1) (unary_oper fl op (regs a))
  unary_step op code regs ip a at =
      step_at code regs ip (unary_code op) (At-byte [] (a ∷ []) (unary_code op) ip at (omega arith))
      ∙ unary_decode op code regs (ip + 1)
      ∙ ap (with_byte _) (
          read_byte-at (block code) (ip + 1) a
            (At-byte (unary_code op ∷ []) [] a _ at (omega arith)))

  -- A jump over the distance `n`.
  abbrev pub jump_bytes : ℕ → Option ℕ → ℕ → List ℕ
  jump_bytes op reg n = (op % 256 ∷ register_bytes reg) ++ (low (n / 2 ^ 8) ∷ low n ∷ [])

  jump_decode :
      {op : ℕ} {reg : Option ℕ} (j : IsJump op reg) (code : ByteCode) (regs : ℕ → Object) (ip : ℕ)
      → execute fl code (decode (op % 256)) regs ip
        ≡ jumped regs (jump_case (λ r. is_truthy fl (regs r)) op (block code) ip)
  unfolding decode execute
  jump_decode always code regs ip = refl
  jump_decode (on_true r) code regs ip = refl
  jump_decode (on_false r) code regs ip = refl

  pub jump_step :
      {op : ℕ} {reg : Option ℕ} (j : IsJump op reg) (code : ByteCode) (regs : ℕ → Object) (ip n : ℕ)
      → n < 2 ^ 16
      → At (block code) ip (jump_bytes op reg n)
      → step fl code (machine regs ip)
        ≡ running (
            machine regs (
              ip
              + length (jump_bytes op reg n)
              + (if takes (λ r. is_truthy fl (regs r)) j then n else 0)))
  jump_step {op} {reg} j code regs ip n h at =
      let truthy : ℕ → Bool = λ r. is_truthy fl (regs r) in
      let bytes = low (n / 2 ^ 8) ∷ low n ∷ [] in
      let opcode = op % 256 ∷ register_bytes reg in
      let (pre, more, w, len) = at in
      let front = jump_front pre op reg in
      let whole : block code ≡ front ++ (low (n / 2 ^ 8) ∷ low n ∷ more) =
        w
        ∙ ap (λ l. pre ++ l) (append_assoc opcode bytes more)
        ∙ sym (append_assoc pre opcode (bytes ++ more)) in
      let size = length-append pre opcode in
      let size' = length-append opcode bytes in
      let place : length pre + 1 ≡ ip + 1 = omega (arith, len) in
      let distance : jump_case truthy op (block code) (ip + 1)
          ≡ some (length front + 2 + (if takes truthy j then n else 0)) =
        ap (λ i. jump_case truthy op (block code) i) (sym place)
        ∙ ap (λ l. jump_case truthy op l (length pre + 1)) whole
        ∙ jump_case-distance truthy j pre more n h in
      step_at code regs ip (op % 256)
        (At-byte [] (register_bytes reg ++ bytes) (op % 256) ip at (omega arith))
      ∙ jump_decode j code regs (ip + 1)
      ∙ ap (jumped regs) distance
      ∙ ap (λ i. running (machine regs i)) (omega (arith, len))

  load_decode :
      (code : ByteCode) (regs : ℕ → Object) (ip : ℕ)
      → execute fl code (decode op_load_reg) regs ip ≡ loaded regs (load_reg_case code ip)
  unfolding decode execute
  load_decode code regs ip = refl

  -- A constant that was emitted with the pool `p`.
  pub load_step :
      (o : Object) (w : List ℕ) (p q : Pool) (m : List DebugRange) (regs : ℕ → Object) (ip reg : ℕ)
      → IsWord o
      → pool_size p < 2 ^ 32
      → Keeps (operand_pool o p) q
      → At w ip (op_load_reg ∷ reg ∷ operand o p)
      → step fl (bytecode w q m) (machine regs ip)
        ≡ running (machine (update regs reg o) (ip + length (op_load_reg ∷ reg ∷ operand o p)))
  load_step o w p q m regs ip reg word small keep at =
      let bytes = op_load_reg ∷ reg ∷ operand o p in
      let (pre, more, e, len) = at in
      let emitted = load_reg_const-block o reg pre p m small in
      let kept : Keeps (pool (load_reg_const o reg (bytecode pre p m))) q =
        λ i x h. keep i x (rw emitted at h) in
      let whole : w ≡ block (load_reg_const o reg (bytecode pre p m)) ++ more =
        e ∙ sym (append_assoc pre bytes more) ∙ ap (λ c. block c ++ more) (sym emitted) in
      let place : length pre + 1 ≡ ip + 1 = omega (arith, len) in
      let case_ = load_reg_case-load_reg_const o reg pre more p q m m word small kept in
      let end : code_size (load_reg_const o reg (bytecode pre p m)) ≡ ip + length bytes =
        ap code_size emitted ∙ omega (arith, length-append pre bytes, len) in
      step_at (bytecode w q m) regs ip op_load_reg
        (At-byte [] (reg ∷ operand o p) op_load_reg ip at (omega arith))
      ∙ load_decode (bytecode w q m) regs (ip + 1)
      ∙ ap (loaded regs) (
          ap (λ i. load_reg_case (bytecode w q m) i) (sym place)
          ∙ ap (λ l. load_reg_case (bytecode l q m) (length pre + 1)) whole
          ∙ case_)
      ∙ ap (λ i. running (machine (update regs reg o) i)) end

  -- The operands that are opcodes themselves.
  pub data IsLiteral : ℕ → Object → Type 0 where
    is_true : IsLiteral op_true (boolean true)
    is_false : IsLiteral op_false (boolean false)
    is_null : IsLiteral op_null null

  load_literal :
      {op : ℕ} {o : Object} (l : IsLiteral op o) (code : ByteCode) (ip : ℕ)
      → load_case op code ip ≡ some (o, ip)
  unfolding load_case
  load_literal is_true code ip = refl
  load_literal is_false code ip = refl
  load_literal is_null code ip = refl

  pub literal_step :
      {op : ℕ} {o : Object} (l : IsLiteral op o) (code : ByteCode) (regs : ℕ → Object) (ip reg : ℕ)
      → At (block code) ip (op_load_reg ∷ reg ∷ op ∷ [])
      → step fl code (machine regs ip) ≡ running (machine (update regs reg o) (ip + 1 + 1 + 1))
  unfolding load_reg_case
  literal_step {op} {o} l code regs ip reg at =
      let register = At-byte (op_load_reg ∷ []) (op ∷ []) reg (ip + 1) at (omega arith) in
      let operand = At-byte (op_load_reg ∷ reg ∷ []) [] op (ip + 1 + 1) at (omega arith) in
      step_at code regs ip op_load_reg (At-byte [] (reg ∷ op ∷ []) op_load_reg ip at (omega arith))
      ∙ load_decode code regs (ip + 1)
      ∙ rw
          (
            read_byte-at (block code) (ip + 1) reg register,
            load_oper_step code (ip + 1 + 1) op operand,
            load_literal l code (ip + 1 + 1 + 1),
          )
          refl
