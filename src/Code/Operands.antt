-- ===== src/Code/Operands.antt =====
-- What the VM reads back from the operands that `ByteCode` emits.
use choice_lang.Prelude.{
  ℕ, zero, suc, ◌+◌, ◌*◌, ◌/◌, ◌%◌, ◌^◌, ◌<◌, ◌≡◌, refl, ◌∙◌, some, List, [], ◌∷◌, ◌++◌, length,
  ltb, if◌then◌else◌, arith, inl, inr, Bool-cases, get_elem?, append_assoc, bit_and_byte, bit_or,
  bit_or_byte, bit_or_shifted,
}
use choice_lang.Object.{Object, ByteCode, DebugRange, bytecode, Pool, block, pool, pool_at}
use choice_lang.Opcodes.{op_byte_oper, op_short_oper, op_long_oper}
use choice_lang.Code.{add_byte, add_short, add_long, pool_operand}
use choice_lang.Vm.{read_byte, read_short, read_long, load_case, load_oper}

-- Reading behind a front part is reading the rest.
pub get_elem?-behind :
    {A : Type 0} (xs ys : List A) (k i : ℕ)
    → i ≡ length xs + k
    → get_elem? (xs ++ ys) i ≡ get_elem? ys k
get_elem?-behind [] ys k i e = let e' : i ≡ k = omega arith in rw e'
get_elem?-behind (x ∷ xs) ys k zero e = absurd (omega arith)
get_elem?-behind (x ∷ xs) ys k (suc i) e = get_elem?-behind xs ys k i (omega arith)

abbrev pub low : ℕ → ℕ
low n = n % 256

-- The bytes of the operand that names place `i`.
unfoldable pub index_bytes : ℕ → List ℕ
index_bytes i =
    if ltb i (2 ^ 8)
    then op_byte_oper ∷ low i ∷ []
    else if ltb i (2 ^ 16)
    then op_short_oper ∷ low (i / 2 ^ 8) ∷ low i ∷ []
    else op_long_oper ∷ low (i / 2 ^ 24) ∷ low (i / 2 ^ 16) ∷ low (i / 2 ^ 8) ∷ low i ∷ []

pub add_byte-block :
    (n : ℕ) (b : List ℕ) (p : Pool) (m : List DebugRange)
    → add_byte n (bytecode b p m) ≡ bytecode (b ++ (n ∷ [])) p m
unfolding add_byte
add_byte-block n b p m = refl

pub add_short-block :
    (n : ℕ) (b : List ℕ) (p : Pool) (m : List DebugRange)
    → add_short n (bytecode b p m) ≡ bytecode (b ++ (low (n / 2 ^ 8) ∷ low n ∷ [])) p m
unfolding add_short
add_short-block n b p m = simp (bit_and_byte, append_assoc)

add_long-block :
    (n : ℕ) (b : List ℕ) (p : Pool) (m : List DebugRange)
    → add_long n (bytecode b p m)
      ≡ bytecode (b ++ (low (n / 2 ^ 24) ∷ low (n / 2 ^ 16) ∷ low (n / 2 ^ 8) ∷ low n ∷ [])) p m
unfolding add_long
add_long-block n b p m = simp (bit_and_byte, append_assoc)

pub pool_operand-block :
    (i : ℕ) (b : List ℕ) (p : Pool) (m : List DebugRange)
    → i < 2 ^ 32
    → pool_operand i (bytecode b p m) ≡ bytecode (b ++ index_bytes i) p m
unfolding pool_operand index_bytes
pool_operand-block i b p m h = elim (Bool-cases (ltb i (2 ^ 8))) [
  | inl e ↦ rw e (rw append_assoc (ground arith))
  | inr e ↦ elim (Bool-cases (ltb i (2 ^ 16))) [
    | inl e' ↦ rw (e, e', add_short-block, append_assoc) (ground arith)
    | inr e' ↦ rw (e, e', add_long-block, append_assoc) (ground arith)
  ]
]

pub read_short-big_endian :
    (code : List ℕ) (ip n : ℕ)
    → n < 2 ^ 16
    → get_elem? code ip ≡ some (low (n / 2 ^ 8))
    → get_elem? code (ip + 1) ≡ some (low n)
    → read_short code ip ≡ some (n, ip + 2)
unfolding read_short
read_short-big_endian code ip n h h1 h2 =
    ground (arith, bit_or_byte (low (n / 2 ^ 8)) (low n) (omega arith))

or_bytes :
    (b1 b2 b3 b4 : ℕ)
    → b1 < 256
    → b2 < 256
    → b3 < 256
    → b4 < 256
    → bit_or (bit_or (bit_or (b1 * 2 ^ 24 % 2 ^ 32) (b2 * 2 ^ 16)) (b3 * 2 ^ 8)) b4
      ≡ b1 * 2 ^ 24 + b2 * 2 ^ 16 + b3 * 2 ^ 8 + b4
or_bytes b1 b2 b3 b4 h1 h2 h3 h4 =
    let e0 : b1 * 2 ^ 24 % 2 ^ 32 ≡ b1 * 2 ^ 24 = omega arith in
    let e1 = bit_or_shifted 24 b1 (b2 * 2 ^ 16) (omega arith) in
    let f1 : b1 * 2 ^ 24 + b2 * 2 ^ 16 ≡ (b1 * 2 ^ 8 + b2) * 2 ^ 16 = omega arith in
    let e2 = bit_or_shifted 16 (b1 * 2 ^ 8 + b2) (b3 * 2 ^ 8) (omega arith) in
    let f2 : (b1 * 2 ^ 8 + b2) * 2 ^ 16 + b3 * 2 ^ 8 ≡ (b1 * 2 ^ 16 + b2 * 2 ^ 8 + b3) * 2 ^ 8 =
      omega arith in
    let e3 = bit_or_shifted 8 (b1 * 2 ^ 16 + b2 * 2 ^ 8 + b3) b4 (omega arith) in
    rw (e0, e1, f1, e2, f2, e3) (omega arith)

read_long-big_endian :
    (code : List ℕ) (ip n : ℕ)
    → n < 2 ^ 32
    → get_elem? code ip ≡ some (low (n / 2 ^ 24))
    → get_elem? code (ip + 1) ≡ some (low (n / 2 ^ 16))
    → get_elem? code (ip + 2) ≡ some (low (n / 2 ^ 8))
    → get_elem? code (ip + 3) ≡ some (low n)
    → read_long code ip ≡ some (n, ip + 4)
unfolding read_long
read_long-big_endian code ip n h h1 h2 h3 h4 =
    let whole =
      or_bytes (low (n / 2 ^ 24)) (low (n / 2 ^ 16)) (low (n / 2 ^ 8)) (low n) (omega arith)
        (omega arith) (omega arith) (omega arith) in
    rw (h1, h2, h3, h4, whole) (ground arith)

pub read_byte-at :
    (code : List ℕ) (ip x : ℕ) → get_elem? code ip ≡ some x → read_byte code ip ≡ some (x, ip + 1)
unfolding read_byte
read_byte-at code ip x h = rw h

-- One lemma for each width, from the bytes that stand behind the opcode of the operand.
module _ (code : ByteCode) (i ip : ℕ) (o : Object) (at : pool_at (pool code) i ≡ some o) where
  load_byte :
      i < 2 ^ 8
      → get_elem? (block code) ip ≡ some (low i)
      → load_case op_byte_oper code ip ≡ some (o, ip + 1)
  unfolding load_case
  load_byte h b0 =
      let whole : low i ≡ i = omega arith in rw (read_byte-at (block code) ip (low i) b0, whole, at)

  load_short :
      i < 2 ^ 16
      → get_elem? (block code) ip ≡ some (low (i / 2 ^ 8))
      → get_elem? (block code) (ip + 1) ≡ some (low i)
      → load_case op_short_oper code ip ≡ some (o, ip + 2)
  unfolding load_case
  load_short h b0 b1 = rw (read_short-big_endian (block code) ip i h b0 b1, at)

  load_long :
      i < 2 ^ 32
      → get_elem? (block code) ip ≡ some (low (i / 2 ^ 24))
      → get_elem? (block code) (ip + 1) ≡ some (low (i / 2 ^ 16))
      → get_elem? (block code) (ip + 2) ≡ some (low (i / 2 ^ 8))
      → get_elem? (block code) (ip + 3) ≡ some (low i)
      → load_case op_long_oper code ip ≡ some (o, ip + 4)
  unfolding load_case
  load_long h b0 b1 b2 b3 = rw (read_long-big_endian (block code) ip i h b0 b1 b2 b3, at)

pub load_oper_step :
    (code : ByteCode) (ip op : ℕ)
    → get_elem? (block code) ip ≡ some op
    → load_oper code ip ≡ load_case op code (ip + 1)
unfolding load_oper
load_oper_step code ip op h = rw (read_byte-at (block code) ip op h)

-- `index_bytes` read back: the opcode byte chooses the width, and the rest is the place.
pub load_index :
    (b more : List ℕ) (p : Pool) (m : List DebugRange) (i ip : ℕ) (o : Object)
    → i < 2 ^ 32
    → ip ≡ length b
    → pool_at p i ≡ some o
    → load_oper (bytecode (b ++ (index_bytes i ++ more)) p m) ip
      ≡ some (o, ip + length (index_bytes i))
unfolding index_bytes
load_index b more p m i ip o h e at = elim (Bool-cases (ltb i (2 ^ 8))) [
  | inl c ↦
      let cs = op_byte_oper ∷ low i ∷ more in
      let code = bytecode (b ++ cs) p m in
      rw c (
        load_oper_step code ip op_byte_oper (get_elem?-behind b cs 0 ip (omega arith))
        ∙ load_byte code i (ip + 1) o at (ground arith) (get_elem?-behind b cs 1 _ (omega arith))
        ∙ ground arith)
  | inr c ↦ elim (Bool-cases (ltb i (2 ^ 16))) [
    | inl c' ↦
        let cs = op_short_oper ∷ low (i / 2 ^ 8) ∷ low i ∷ more in
        let code = bytecode (b ++ cs) p m in
        rw (c, c')
          (load_oper_step code ip op_short_oper (get_elem?-behind b cs 0 ip (omega arith))
            ∙ load_short code i (ip + 1) o at (ground arith)
                (get_elem?-behind b cs 1 _ (omega arith)) (get_elem?-behind b cs 2 _ (omega arith))
            ∙ ground arith)
    | inr c' ↦
        let cs =
          op_long_oper ∷ low (i / 2 ^ 24) ∷ low (i / 2 ^ 16) ∷ low (i / 2 ^ 8) ∷ low i ∷ more in
        let code = bytecode (b ++ cs) p m in
        rw (c, c')
          (load_oper_step code ip op_long_oper (get_elem?-behind b cs 0 ip (omega arith))
            ∙ load_long code i (ip + 1) o at h (get_elem?-behind b cs 1 _ (omega arith))
                (get_elem?-behind b cs 2 _ (omega arith)) (get_elem?-behind b cs 3 _ (omega arith))
                (get_elem?-behind b cs 4 _ (omega arith))
            ∙ ground arith)
  ]
]
