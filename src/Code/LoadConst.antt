-- ===== src/Code/LoadConst.antt =====
-- `ByteCode::loadRegConst` against `OP_LOAD_REG` and `VM::loadOper`.
use choice_lang.Prelude.{
  ℕ, ◌+◌, ◌-◌, ◌%◌, ◌^◌, ◌<◌, ◌≡◌, refl, ◌∙◌, true, some, List, [], ◌∷◌, ◌++◌, length,
  if◌then◌else◌, arith, inl, inr, Bool-cases, length-append, append_assoc,
}
use choice_lang.Object.{
  Object, int, DebugRange, bytecode, Pool, block, pool, push_back, pool_size, pool_at,
  pool_size-push_back, pool_at-push_back,
}
use choice_lang.Opcodes.{op_load_reg}
use choice_lang.Code.{add_op, load_operand, load_reg_const, code_size, add_constant, is_immediate}
use choice_lang.Vm.{load_case, load_oper, load_reg_case}
use choice_lang.Code.Operands.{
  get_elem?-behind, index_bytes, pool_operand-block, read_byte-at, load_oper_step, load_index,
}

-- An integer is a 64-bit pattern.
abbrev pub IsWord : Object → Type 0
IsWord (int v) = v < 2 ^ 64
IsWord _ = Unit

-- A pool that later constants may have made longer.
abbrev pub Keeps : Pool → Pool → Type 0
Keeps p q = (i : ℕ) (o : Object) → pool_at p i ≡ some o → pool_at q i ≡ some o

-- The bytes of the operand, and the pool behind it.
abbrev pub immediate_or {ℓ} : {A : Type ℓ} → Object → A → (ℕ → A) → A
immediate_or (int v) other f = if is_immediate v then f v else other
immediate_or _ other f = other

abbrev pub operand : Object → Pool → List ℕ
operand o p = immediate_or o (index_bytes (pool_size p)) (λ v. (v + 2) % 2 ^ 64 % 256 ∷ [])

abbrev pub operand_pool : Object → Pool → Pool
operand_pool o p = immediate_or o (push_back p o) (λ _. p)

add_constant-block :
    (o : Object) (b : List ℕ) (p : Pool) (m : List DebugRange)
    → pool_size p < 2 ^ 32
    → add_constant o (bytecode b p m) ≡ bytecode (b ++ index_bytes (pool_size p)) (push_back p o) m
add_constant-block o b p m h =
    let size : pool_size (push_back p o) - 1 ≡ pool_size p =
      omega (arith, pool_size-push_back p o) in
    rw size (pool_operand-block (pool_size p) b (push_back p o) m h)

load_operand-block :
    (o : Object) (b : List ℕ) (p : Pool) (m : List DebugRange)
    → pool_size p < 2 ^ 32
    → load_operand o (bytecode b p m) ≡ bytecode (b ++ operand o p) (operand_pool o p) m
unfolding load_operand
load_operand-block (int v) b p m h = ground (arith, add_constant-block (int v) b p m h)
load_operand-block o b p m h = add_constant-block o b p m h

pub load_reg_const-block :
    (o : Object) (reg : ℕ) (b : List ℕ) (p : Pool) (m : List DebugRange)
    → pool_size p < 2 ^ 32
    → load_reg_const o reg (bytecode b p m)
      ≡ bytecode (b ++ (op_load_reg ∷ reg ∷ operand o p)) (operand_pool o p) m
unfolding load_reg_const add_op
load_reg_const-block o reg b p m h =
    load_operand-block o ((b ++ (op_load_reg ∷ [])) ++ (reg ∷ [])) p m h
    ∙ rw (append_assoc, append_assoc) refl

load_immediate :
    (b more : List ℕ) (p : Pool) (m : List DebugRange) (v ip : ℕ)
    → v < 2 ^ 64
    → ip ≡ length b
    → is_immediate v ≡ true
    → load_oper (bytecode (b ++ ((v + 2) % 2 ^ 64 % 256 ∷ more)) p m) ip ≡ some (int v, ip + 1)
unfolding load_case
load_immediate b more p m v ip h e c =
    let op = (v + 2) % 2 ^ 64 % 256 in
    load_oper_step (bytecode (b ++ (op ∷ more)) p m) ip op
      (get_elem?-behind b (op ∷ more) 0 ip (omega arith))
    ∙ ground arith

load_operand_back :
    (o : Object) (b more : List ℕ) (p q : Pool) (m : List DebugRange) (ip : ℕ)
    → IsWord o
    → pool_size p < 2 ^ 32
    → ip ≡ length b
    → Keeps (operand_pool o p) q
    → load_oper (bytecode (b ++ (operand o p ++ more)) q m) ip ≡ some (o, ip + length (operand o p))
load_operand_back (int v) b more p q m ip w h e k = elim (Bool-cases (is_immediate v)) [
  | inl c ↦ rw c (load_immediate b more q m v ip w e c)
  | inr c ↦ rw c (
      load_index b more q m (pool_size p) ip (int v) h e
        (k _ _ (rw c (pool_at-push_back p (int v)))))
]
load_operand_back o b more p q m ip w h e k =
    load_index b more q m (pool_size p) ip o h e (k _ o (pool_at-push_back p o))

-- `OP_LOAD_REG` reads back the register and the constant that `loadRegConst` emitted, immediate or by
-- place, and ends where the emitted code ends, whatever code and constants come behind. The pool has
-- fewer than 2^32 entries and an integer is 64 bits.
pub load_reg_case-load_reg_const :
    (o : Object) (reg : ℕ) (b more : List ℕ) (p q : Pool) (m n : List DebugRange)
    → IsWord o
    → pool_size p < 2 ^ 32
    → Keeps (pool (load_reg_const o reg (bytecode b p m))) q
    → load_reg_case
        (bytecode (block (load_reg_const o reg (bytecode b p m)) ++ more) q n)
        (length b + 1)
      ≡ some (reg, o, code_size (load_reg_const o reg (bytecode b p m)))
unfolding load_reg_case
load_reg_case-load_reg_const o reg b more p q m n w h k =
    let emitted = load_reg_const-block o reg b p m h in
    let kept : Keeps (operand_pool o p) q = rw emitted at k in
    let cs = op_load_reg ∷ reg ∷ (operand o p ++ more) in
    let code = b ++ cs in
    let back : load_oper (bytecode code q n) (length b + 1 + 1)
        ≡ some (o, length b + 1 + 1 + length (operand o p)) =
      rw (← append_assoc b (op_load_reg ∷ reg ∷ []) (operand o p ++ more)) (
        load_operand_back o (b ++ (op_load_reg ∷ reg ∷ [])) more p q n (length b + 1 + 1) w h
          (omega (arith, length-append b (op_load_reg ∷ reg ∷ []))) kept) in
    rw
      (
        emitted,
        append_assoc,
        read_byte-at code (length b + 1) reg (get_elem?-behind b cs 1 _ refl),
        back,
      )
      (ground (arith, length-append b (op_load_reg ∷ reg ∷ operand o p)))
