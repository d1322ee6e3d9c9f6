-- ===== src/Code/Jumps.antt =====
-- `addJump`, `patchJump` and `addLoop` against the jumps of the VM's dispatch loop.
use choice_lang.Prelude.{
  ℕ, zero, suc, ◌+◌, ◌-◌, ◌/◌, ◌%◌, ◌^◌, ◌≤◌, ◌<◌, ◌≡◌, refl, ap, Bool, true, not, Option, none,
  some, List, [], ◌∷◌, ◌++◌, length, if◌then◌else◌, arith, set, length-append, append_assoc,
  bit_and_byte,
}
use choice_lang.Object.{ByteCode, DebugRange, bytecode, Pool, block}
use choice_lang.Opcodes.{op_jump, op_jump_true, op_jump_false, op_loop}
use choice_lang.Code.{add_jump, patch_jump, add_loop, code_size, byte_jump_max}
use choice_lang.Vm.{read_byte, read_short, jump_case}
use choice_lang.Code.Operands.{get_elem?-behind, low, read_short-big_endian, read_byte-at}

-- The operand bytes of a jump: the register, if there is one.
abbrev pub register_bytes : Option ℕ → List ℕ
register_bytes none = []
register_bytes (some r) = r % 256 ∷ []

-- The code from the opcode up to the two bytes to patch.
abbrev pub jump_front : List ℕ → ℕ → Option ℕ → List ℕ
jump_front b op reg = b ++ (op % 256 ∷ register_bytes reg)

pub add_jump-block :
    (op : ℕ) (reg : Option ℕ) (b : List ℕ) (p : Pool) (m : List DebugRange)
    → add_jump op reg (bytecode b p m)
      ≡ (bytecode (jump_front b op reg ++ (0 ∷ 0 ∷ [])) p m, length (jump_front b op reg))
unfolding add_jump
add_jump-block op none b p m = simp append_assoc
add_jump-block op (some r) b p m = simp append_assoc

set-behind :
    (xs ys : List ℕ) (k i v : ℕ) → i ≡ length xs + k → set (xs ++ ys) i v ≡ xs ++ set ys k v
set-behind [] ys k i v e = let e' : i ≡ k = omega arith in rw e'
set-behind (x ∷ xs) ys k zero v e = absurd (omega arith)
set-behind (x ∷ xs) ys k (suc i) v e = ap (λ t. x ∷ t) (set-behind xs ys k i v (omega arith))

-- Patching behind a body of `n` bytes writes `n`, high byte first, and changes nothing else.
pub patch_jump-body :
    (front body : List ℕ) (p : Pool) (m : List DebugRange)
    → length body ≤ byte_jump_max
    → length front + 2 + length body < 2 ^ 64
    → patch_jump (length front) (bytecode (front ++ (0 ∷ 0 ∷ body)) p m)
      ≡ bytecode (front ++ (low (length body / 2 ^ 8) ∷ low (length body) ∷ body)) p m
unfolding patch_jump
patch_jump-body front body p m h fits =
    let diff : (length (front ++ (0 ∷ 0 ∷ body)) + 2 ^ 64 - length front + 2 ^ 64 - 2) % 2 ^ 64
        ≡ length body =
      omega (arith, length-append front (0 ∷ 0 ∷ body)) in
    let hi = low (length body / 2 ^ 8) in
    rw
      (
        diff,
        bit_and_byte (length body / 2 ^ 8),
        bit_and_byte (length body),
        set-behind front (0 ∷ 0 ∷ body) 0 (length front) hi (omega arith),
        set-behind front (hi ∷ 0 ∷ body) 1 (length front + 1) (low (length body)) refl,
      )
      (ground arith)

patch_jump_long :
    (front body : List ℕ) (p : Pool) (m : List DebugRange)
    → byte_jump_max < length body
    → length front + 2 + length body < 2 ^ 64
    → patch_jump (length front) (bytecode (front ++ (0 ∷ 0 ∷ body)) p m)
      ≡ bytecode (front ++ (0 ∷ 0 ∷ body)) p m
unfolding patch_jump
patch_jump_long front body p m h fits =
    let diff : (length (front ++ (0 ∷ 0 ∷ body)) + 2 ^ 64 - length front + 2 ^ 64 - 2) % 2 ^ 64
        ≡ length body =
      omega (arith, length-append front (0 ∷ 0 ∷ body)) in
    rw diff (ground arith)

-- The three jump instructions, with the register that a conditional one tests.
pub data IsJump : ℕ → Option ℕ → Type 0 where
  always : IsJump op_jump none
  on_true : (r : ℕ) → IsJump op_jump_true (some r)
  on_false : (r : ℕ) → IsJump op_jump_false (some r)

-- Whether the jump is taken.
abbrev pub takes : (ℕ → Bool) → {op : ℕ} {reg : Option ℕ} → IsJump op reg → Bool
takes truthy always = true
takes truthy (on_true r) = truthy (r % 256)
takes truthy (on_false r) = not (truthy (r % 256))

read_distance :
    (front body : List ℕ) (n ip : ℕ)
    → n < 2 ^ 16
    → ip ≡ length front
    → read_short (front ++ (low (n / 2 ^ 8) ∷ low n ∷ body)) ip ≡ some (n, ip + 2)
read_distance front body n ip h e =
    let cs = low (n / 2 ^ 8) ∷ low n ∷ body in
    read_short-big_endian (front ++ cs) ip n h (get_elem?-behind front cs 0 ip (omega arith))
      (get_elem?-behind front cs 1 (ip + 1) (omega arith))

read_register :
    (b rest : List ℕ) (op r : ℕ)
    → read_byte ((b ++ (op ∷ r ∷ [])) ++ rest) (length b + 1) ≡ some (r, length b + 1 + 1)
read_register b rest op r = read_byte-at _ _ r (
    rw (append_assoc b (op ∷ r ∷ []) rest)
      (get_elem?-behind b (op ∷ r ∷ rest) 1 (length b + 1) refl))

-- A jump over the distance `n`, run from behind its opcode.
pub jump_case-distance :
    (truthy : ℕ → Bool) {op : ℕ} {reg : Option ℕ} (j : IsJump op reg) (b body : List ℕ) (n : ℕ)
    → n < 2 ^ 16
    → jump_case truthy op (jump_front b op reg ++ (low (n / 2 ^ 8) ∷ low n ∷ body)) (length b + 1)
      ≡ some (length (jump_front b op reg) + 2 + (if takes truthy j then n else 0))
unfolding jump_case
jump_case-distance truthy always b body n h =
    let front = jump_front b op_jump none in
    rw (read_distance front body n (length b + 1) h (omega (arith, length-append b (op_jump ∷ []))))
      (ground (arith, length-append b (op_jump ∷ [])))
jump_case-distance truthy (on_true r) b body n h =
    let front = jump_front b op_jump_true (some r) in
    let cs = low (n / 2 ^ 8) ∷ low n ∷ body in
    let size = length-append b (op_jump_true ∷ r % 256 ∷ []) in
    rw
      (
        read_register b cs op_jump_true (r % 256),
        read_distance front body n (length b + 1 + 1) h (omega (arith, size)),
      )
      (ground (arith, size))
jump_case-distance truthy (on_false r) b body n h =
    let front = jump_front b op_jump_false (some r) in
    let cs = low (n / 2 ^ 8) ∷ low n ∷ body in
    let size = length-append b (op_jump_false ∷ r % 256 ∷ []) in
    rw
      (
        read_register b cs op_jump_false (r % 256),
        read_distance front body n (length b + 1 + 1) h (omega (arith, size)),
      )
      (ground (arith, size))

-- `addJump`, then `body` and its constants, then `patchJump`.
unfoldable pub patched : ℕ → Option ℕ → ByteCode → List ℕ → Pool → List DebugRange → ByteCode
patched op reg code body q n =
    let (front, offset) = add_jump op reg code in
    patch_jump offset (bytecode (block front ++ body) q n)

patched-block :
    (op : ℕ) (reg : Option ℕ) (b body : List ℕ) (p q : Pool) (m n : List DebugRange)
    → length body ≤ byte_jump_max
    → length (jump_front b op reg) + 2 + length body < 2 ^ 64
    → patched op reg (bytecode b p m) body q n
      ≡ bytecode (jump_front b op reg ++ (low (length body / 2 ^ 8) ∷ low (length body) ∷ body)) q n
unfolding patched
patched-block op reg b body p q m n h fits =
    rw (add_jump-block op reg b p m, append_assoc (jump_front b op reg) (0 ∷ 0 ∷ []) body)
      (patch_jump-body (jump_front b op reg) body q n h fits)

-- A patched jump over a body of at most 65535 bytes: when it is taken the VM goes on behind the body,
-- and otherwise at its first byte, whatever code comes behind. The code has fewer than 2^64 bytes.
pub jump_case-patched :
    (truthy : ℕ → Bool) {op : ℕ} {reg : Option ℕ} (j : IsJump op reg) (b body more : List ℕ)
    (p q : Pool) (m n : List DebugRange)
    → length body ≤ byte_jump_max
    → length (jump_front b op reg) + 2 + length body < 2 ^ 64
    → jump_case truthy op (block (patched op reg (bytecode b p m) body q n) ++ more) (length b + 1)
      ≡ some (
          if takes truthy j
          then code_size (patched op reg (bytecode b p m) body q n)
          else (add_jump op reg (bytecode b p m)).1 + 2)
jump_case-patched truthy {op} {reg} j b body more p q m n h fits =
    let size = length body in
    let front = jump_front b op reg in
    let cs = low (size / 2 ^ 8) ∷ low size ∷ body in
    rw
      (
        patched-block op reg b body p q m n h fits,
        add_jump-block op reg b p m,
        append_assoc front cs more,
        jump_case-distance truthy j b (body ++ more) size (omega arith),
      )
      (ground (arith, length-append front cs))

-- A body of more than 65535 bytes: `patchJump` leaves the operand zero, and the jump goes to the
-- first byte of the body also when it is taken. The code has fewer than 2^64 bytes.
pub jump_case-unpatched :
    (truthy : ℕ → Bool) {op : ℕ} {reg : Option ℕ} (j : IsJump op reg) (b body more : List ℕ)
    (p q : Pool) (m n : List DebugRange)
    → byte_jump_max < length body
    → length (jump_front b op reg) + 2 + length body < 2 ^ 64
    → jump_case truthy op (block (patched op reg (bytecode b p m) body q n) ++ more) (length b + 1)
      ≡ some ((add_jump op reg (bytecode b p m)).1 + 2)
unfolding patched
jump_case-unpatched truthy {op} {reg} j b body more p q m n h fits =
    let front = jump_front b op reg in
    let cs = 0 ∷ 0 ∷ body in
    rw
      (
        add_jump-block op reg b p m,
        append_assoc front (0 ∷ 0 ∷ []) body,
        patch_jump_long front body q n h fits,
        append_assoc front cs more,
        jump_case-distance truthy j b (body ++ more) 0 (omega arith),
      )
      (ground arith)

add_loop-block :
    (start : ℕ) (b : List ℕ) (p : Pool) (m : List DebugRange)
    → start ≤ length b
    → length b + 3 < start + 2 ^ 16
    → length b < 2 ^ 63
    → add_loop start (bytecode b p m)
      ≡ bytecode
          (b ++ (op_loop ∷ low ((length b + 3 - start) / 2 ^ 8) ∷ low (length b + 3 - start) ∷ []))
          p
          m
unfolding add_loop
add_loop-block start b p m h fits small =
    let n = length b + 3 - start in
    let diff : (length b + 2 ^ 64 - start + 3) % 2 ^ 16 ≡ n = omega arith in
    rw (diff, bit_and_byte n, bit_and_byte (n / 2 ^ 8)) (simp append_assoc)

-- `addLoop` emits a jump that leads the VM back to `start`, as long as the distance with the three
-- bytes of the instruction fits 16 bits. `start` lies in the code, which has fewer than 2^63 bytes.
pub jump_case-add_loop :
    (truthy : ℕ → Bool) (start : ℕ) (b more : List ℕ) (p : Pool) (m : List DebugRange)
    → start ≤ length b
    → length b + 3 < start + 2 ^ 16
    → length b < 2 ^ 63
    → jump_case truthy op_loop (block (add_loop start (bytecode b p m)) ++ more) (length b + 1)
      ≡ some start
unfolding jump_case
jump_case-add_loop truthy start b more p m h fits small =
    let n = length b + 3 - start in
    let cs = low (n / 2 ^ 8) ∷ low n ∷ more in
    rw
      (
        add_loop-block start b p m h fits small,
        append_assoc b (op_loop ∷ low (n / 2 ^ 8) ∷ low n ∷ []) more,
        ← append_assoc b (op_loop ∷ []) cs,
        read_distance (b ++ (op_loop ∷ [])) more n (length b + 1) (omega arith)
            (omega (arith, length-append b (op_loop ∷ []))),
      )
      (ground arith)
