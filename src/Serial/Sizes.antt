-- ===== src/Serial/Sizes.antt =====
-- src/object.cpp and src/bytecode.cpp: the sizes that are announced in front of the constants are
-- the sizes of the constants.
use choice_lang.Prelude.{
  ℕ, zero, suc, ◌+◌, ◌-◌, ◌*◌, ◌%◌, ◌^◌, ◌≤◌, ◌<◌, ◌≡◌, Option, none, some, List, [], ◌∷◌, ◌++◌,
  length, arith, length-append, le→leb,
}
use choice_lang.Object.{
  Object, int, dec, boolean, null, text, string, module_, user_type, user_func, Function, function,
  ByteCode, bytecode, Pool, Chunks, no_args, arg, DebugRange, Field,
}
use choice_lang.Serial.{
  DebugInfoState, combined, separate, stripped, default_count, emit_pool, encode_value, emit_fields,
  encode_ranges, encode_block, combined_block, combined_size, fields_size, func_name,
  func_name_size, object_size, function_size, chunk_size, args_size, count_pool, payload,
  emit_function, emit_chunk, emit_args, encode_data, emit_string, emit,
}
use choice_lang.Serial.Values.{length-encode_value}
use choice_lang.Serial.Encodable.{
  Encodable, EncodableFunction, EncodableChunk, EncodableArgs, EncodablePool,
}

length-emit_fields :
    (fields : List Field) → fields_size fields ≡ length (emit_fields fields) % 2 ^ 64
unfolding emit_fields
length-emit_fields [] = omega arith
length-emit_fields (f ∷ fields) =
    omega (arith, length-emit_fields fields, length-append f.name (_ ∷ _ ∷ emit_fields fields))

length-encode_ranges : (m : List DebugRange) → length (encode_ranges m) ≡ length m * 32
unfolding encode_ranges
length-encode_ranges [] = omega arith
length-encode_ranges (r ∷ m) = omega (
  arith,
  length-append (encode_value 8 r.byte_start) _,
  length-append (encode_value 8 r.byte_end) _,
  length-append (encode_value 8 r.source_start) _,
  length-append (encode_value 8 r.source_end) (encode_ranges m),
  length-encode_ranges m,
  length-encode_value 8 r.byte_start,
  length-encode_value 8 r.byte_end,
  length-encode_value 8 r.source_start,
  length-encode_value 8 r.source_end,
)

pub length-encode_block : (m : List DebugRange) → length (encode_block m) ≡ length m * 32 + 8
unfolding encode_block
length-encode_block m = omega (
  arith,
  length-append (encode_value 8 (length m)) (encode_ranges m),
  length-encode_value 8 (length m),
  length-encode_ranges m,
)

length-combined_block :
    (d : DebugInfoState) (m : List DebugRange)
    → combined_size d m ≡ length (combined_block d m) % 2 ^ 64
length-combined_block combined m = omega (arith, length-encode_block m)
length-combined_block separate m = omega arith
length-combined_block stripped m = omega arith

pub length-emit_string : (str : List ℕ) → length (emit_string str) ≡ 8 + length str
length-emit_string str =
    omega
      (arith, length-append (encode_value 8 (length str)) str, length-encode_value 8 (length str))

pub length-encode_data :
    (b : List ℕ) (size : ℕ) (constants : List ℕ)
    → length b < 2 ^ 63
    → length (encode_data b size constants) ≡ 16 + length b + length constants
unfolding encode_data
length-encode_data b size constants h =
    let fits = le→leb (length b) (2 ^ 63 - 1) (omega arith) in
    rw fits (
      omega (
        arith,
        length-append (encode_value 8 (length b)) (encode_value 8 size ++ (b ++ constants)),
        length-append (encode_value 8 size) (b ++ constants),
        length-append b constants,
        length-encode_value 8 (length b),
        length-encode_value 8 size,
      ))

length-func_name : (name : Option (List ℕ)) → length (func_name name) ≡ 1 + func_name_size name
length-func_name none = omega arith
length-func_name (some name) = omega arith

module _ (d : DebugInfoState) where
  mutual
    unfolding Encodable object_size payload

    length-payload :
        (obj : Object) → Encodable d obj → object_size d obj ≡ (1 + length (payload d obj)) % 2 ^ 64
    length-payload (int value) h = omega (arith, length-encode_value 8 value)
    length-payload (dec value) h = omega (arith, length-encode_value 8 value)
    length-payload (boolean value) h = absurd h
    length-payload null h = absurd h
    length-payload (text str) h = omega (arith, length-emit_string str)
    length-payload (string str) h = omega (arith, length-emit_string str)
    length-payload (module_ name) h = omega arith
    length-payload (user_type name fields) h =
        omega (arith, length-append name (_ ∷ emit_fields fields), length-emit_fields fields)
    length-payload (user_func f) h = length-emit_function f h

    length-emit_function :
        (f : Function)
        → EncodableFunction d f
        → function_size d f ≡ (1 + length (emit_function d f)) % 2 ^ 64
    length-emit_function (function name arity_min arity_max variadic code default_args) h =
        let count = default_count arity_min arity_max in
        let chunk = emit_chunk d code in
        omega (
          arith,
          length-func_name name,
          length-append (func_name name) _,
          length-append chunk (emit_args d count default_args),
          length-emit_chunk code h.3,
          length-emit_args count default_args h.4,
        )

    length-emit_chunk :
        (code : ByteCode)
        → EncodableChunk d code
        → chunk_size d code ≡ length (emit_chunk d code) % 2 ^ 64
    length-emit_chunk (bytecode b p m) h = omega (
      arith,
      length-append (encode_data b (count_pool d p) (emit_pool d p)) _,
      length-encode_data b (count_pool d p) (emit_pool d p) h.0,
      length-emit_pool p h.1,
      length-combined_block d m,
    )

    length-emit_args :
        (count : ℕ) (args : Chunks)
        → EncodableArgs d count args
        → args_size d count args ≡ length (emit_args d count args) % 2 ^ 64
    length-emit_args zero args h = omega arith
    length-emit_args (suc count) no_args h = omega arith
    length-emit_args (suc count) (arg code args) h = omega (
      arith,
      length-append (emit_chunk d code) (emit_args d count args),
      length-emit_chunk code h.0,
      length-emit_args count args h.1,
    )

    length-emit_pool :
        (p : Pool) → EncodablePool d p → count_pool d p ≡ length (emit_pool d p) % 2 ^ 64
    length-emit_pool Pool.nil h = omega arith
    length-emit_pool (Pool.cons constant p) h = omega (
      arith,
      length-append (payload d constant) (emit_pool d p),
      length-payload constant h.0,
      length-emit_pool p h.1,
    )

-- The size of an object, its type's byte included, is the number of bytes that are written for it,
-- modulo 2^64, for each state of the debug information and each object that the format can hold
-- (`Encodable`): no Boolean and no null, lengths that fit their bytes, sorted metadata, and arrays of
-- default arguments as long as their count.
pub object_size-emit :
    (d : DebugInfoState) (obj : Object)
    → Encodable d obj
    → object_size d obj ≡ length (emit d obj) % 2 ^ 64
object_size-emit d obj h = omega (arith, length-payload d obj h)

-- The size of a pool that fits 64 bits.
pub count_pool-exact :
    (d : DebugInfoState) (p : Pool)
    → EncodablePool d p
    → length (emit_pool d p) < 2 ^ 64
    → count_pool d p ≡ length (emit_pool d p)
count_pool-exact d p h fits = omega (arith, length-emit_pool d p h)

-- Each piece of code starts with its two sizes.
pub sizes_first :
    (d : DebugInfoState) (code : ByteCode) → EncodableChunk d code → 16 ≤ length (emit_chunk d code)
unfolding Encodable payload
sizes_first d (bytecode b p m) h = omega (
  arith,
  length-append (encode_data b (count_pool d p) (emit_pool d p)) _,
  length-encode_data b (count_pool d p) (emit_pool d p) h.0,
)
