-- ===== src/Object.antt =====
-- include/object.h, include/bytecode.h, include/debug.h: the values that a constant pool or an
-- immediate operand holds. An i64 and a double are their 64-bit patterns, a string its bytes.
use choice_lang.Prelude.{
  ℕ, zero, suc, ◌+◌, ◌%◌, ◌^◌, ◌≡◌, Bool, Option, none, some, List, ltb, arith,
}

pub record DebugRange : Type 0 where
  pub byte_start : ℕ
  pub byte_end : ℕ
  pub source_start : ℕ
  pub source_end : ℕ

-- `Type::Field`; `access` is the C++ field `pub`.
pub record Field : Type 0 where
  pub name : List ℕ
  pub fixed : Bool
  pub access : Bool

-- A `UserFunc` has a name and a `Lambda` has none; both have an object of `Function`, whose default
-- arguments are byte code. Pools and argument arrays are lists in the block.
mutual
  pub data Object : Type 0 where
    int : ℕ → Object
    dec : ℕ → Object
    boolean : Bool → Object
    null : Object
    text : List ℕ → Object
    string : List ℕ → Object
    module_ : List ℕ → Object
    user_type : List ℕ → List Field → Object
    user_func : Function → Object

  pub data Function : Type 0 where
    function : Option (List ℕ) → ℕ → ℕ → Bool → ByteCode → Chunks → Function

  pub data ByteCode : Type 0 where
    bytecode : List ℕ → Pool → List DebugRange → ByteCode

  pub data Pool : Type 0 where
    nil : Pool
    cons : Object → Pool → Pool

  pub data Chunks : Type 0 where
    no_args : Chunks
    arg : ByteCode → Chunks → Chunks

abbrev pub block : ByteCode → List ℕ
block (bytecode b p m) = b

abbrev pub pool : ByteCode → Pool
pool (bytecode b p m) = p

abbrev pub metadata : ByteCode → List DebugRange
metadata (bytecode b p m) = m

-- `pool.push_back(obj)`, `pool.size()` and `pool[i]`.
abbrev pub push_back : Pool → Object → Pool
push_back Pool.nil o = Pool.cons o Pool.nil
push_back (Pool.cons a p) o = Pool.cons a (push_back p o)

abbrev pub pool_size : Pool → ℕ
pool_size Pool.nil = 0
pool_size (Pool.cons a p) = suc (pool_size p)

abbrev pub pool_at : Pool → ℕ → Option Object
pool_at Pool.nil i = none
pool_at (Pool.cons a p) zero = some a
pool_at (Pool.cons a p) (suc i) = pool_at p i

pub pool_size-push_back : (p : Pool) (o : Object) → pool_size (push_back p o) ≡ suc (pool_size p)
pool_size-push_back Pool.nil o = omega arith
pool_size-push_back (Pool.cons a p) o = omega (arith, pool_size-push_back p o)

pub pool_at-push_back : (p : Pool) (o : Object) → pool_at (push_back p o) (pool_size p) ≡ some o
pool_at-push_back Pool.nil o = ground arith
pool_at-push_back (Pool.cons a p) o = pool_at-push_back p o

-- Signed order on 64-bit patterns.
abbrev pub slt : ℕ → ℕ → Bool
slt a b = ltb ((a + 2 ^ 63) % 2 ^ 64) ((b + 2 ^ 63) % 2 ^ 64)
