-- ===== src/Tests/CodeTests.antt =====
-- Runs of the emitter of src/bytecode.cpp and of the reader of src/vm.cpp.
use choice_lang.Prelude.{
  ℕ, ◌+◌, ◌-◌, ◌^◌, ◌≡◌, refl, false, true, none, some, [], ◌∷◌, ◌++◌, List, length, arith,
  replicate, length-replicate,
}
use choice_lang.Object.{int, text, bytecode, Pool, block, pool, ByteCode}
use choice_lang.Opcodes.{op_jump, op_jump_false, op_loop}
use choice_lang.Code.{load_reg_const, code_size, add_jump, add_loop}
use choice_lang.Vm.{load_reg_case, jump_case}
use choice_lang.Code.LoadConst.{load_reg_case-load_reg_const}
use choice_lang.Code.Jumps.{
  always, on_false, patched, jump_case-patched, jump_case-unpatched, jump_case-add_loop,
}

abbrev start : ByteCode
start = bytecode (9 ∷ 9 ∷ []) Pool.nil []

abbrev with_text : ByteCode
with_text = load_reg_const (text (b'h' ∷ b'i' ∷ [])) 5 start

load_reg_case-load_reg_const_example :
    load_reg_case (bytecode (block with_text ++ (85 ∷ [])) (pool with_text) []) 3
    ≡ some (5, text (b'h' ∷ b'i' ∷ []), code_size with_text)
load_reg_case-load_reg_const_example =
    load_reg_case-load_reg_const (text (b'h' ∷ b'i' ∷ [])) 5 (9 ∷ 9 ∷ []) (85 ∷ []) Pool.nil
      (pool with_text) [] [] tt (omega arith) (λ i o h. h)

minus_one : block (load_reg_const (int (2 ^ 64 - 1)) 4 start) ≡ 9 ∷ 9 ∷ 82 ∷ 4 ∷ 1 ∷ []
unfolding load_reg_const
minus_one = refl

abbrev three : List ℕ
three = 1 ∷ 2 ∷ 3 ∷ []

jump_case-patched_example :
    jump_case
      (λ r. false)
      op_jump_false
      (block (patched op_jump_false (some 7) start three Pool.nil []) ++ (85 ∷ []))
      3
    ≡ some (code_size (patched op_jump_false (some 7) start three Pool.nil []))
jump_case-patched_example =
    jump_case-patched (λ r. false) (on_false 7) (9 ∷ 9 ∷ []) three (85 ∷ []) Pool.nil Pool.nil [] []
      (omega arith) (omega arith)

-- 65536 bytes, one more than a jump can pass.
long_body : List ℕ
long_body = replicate 65536 0

length-long_body : length long_body ≡ 65536
unfolding long_body
length-long_body = length-replicate 65536 0

jump_case-unpatched_example :
    jump_case (λ r. true) op_jump (block (patched op_jump none start long_body Pool.nil []) ++ []) 3
    ≡ some ((add_jump op_jump none start).1 + 2)
jump_case-unpatched_example =
    jump_case-unpatched (λ r. true) always (9 ∷ 9 ∷ []) long_body [] Pool.nil Pool.nil [] []
      (omega (arith, length-long_body)) (omega (arith, length-long_body))

jump_case-add_loop_example :
    jump_case (λ r. true) op_loop (block (add_loop 1 start) ++ (85 ∷ [])) 3 ≡ some 1
jump_case-add_loop_example =
    jump_case-add_loop (λ r. true) 1 (9 ∷ 9 ∷ []) (85 ∷ []) Pool.nil [] (omega arith) (omega arith)
      (omega arith)
