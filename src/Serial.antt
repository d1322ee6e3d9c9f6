-- ===== src/Serial.antt =====
-- src/object.cpp, src/bytecode.cpp, include/bytes.h: the bytes that are written for a piece of byte
-- code. Each function gives the bytes that its counterpart puts on the stream.
pub mod Sorting
pub mod Ordered
pub mod Sorted
pub mod Reader
pub mod Encodable
pub mod Sizes
pub mod Parts
pub mod RoundTrip
pub mod Blocks
pub mod DebugFile
pub mod CacheFile
pub mod Progress
pub mod Ends
pub mod Values
use choice_lang.Prelude.{
  ℕ, zero, suc, ◌+◌, ◌-◌, ◌*◌, ◌/◌, ◌%◌, ◌^◌, bit_and, Bool, true, false, Option, none, some, List,
  [], ◌∷◌, ◌++◌, length, leb, if◌then◌else◌,
}
use choice_lang.Object.{
  Object, int, dec, boolean, null, text, string, module_, user_type, user_func, Function, function,
  ByteCode, bytecode, Pool, Chunks, no_args, arg, DebugRange, Field, block, pool, metadata,
}

pub data DebugInfoState : Type 0 where
  combined separate stripped : DebugInfoState

abbrev pub state_byte : DebugInfoState → ℕ
state_byte combined = 0
state_byte separate = 1
state_byte stripped = 2

-- A value of `size` bytes, the highest first.
unfoldable pub encode_value : ℕ → ℕ → List ℕ
encode_value zero value = []
encode_value (suc size) value = bit_and (value / 2 ^ (size * 8)) 0xff ∷ encode_value size value

abbrev pub bool_byte : Bool → ℕ
bool_byte false = 0
bool_byte true = 1

-- Names behind one byte for their length, strings behind eight.
abbrev pub emit_name : List ℕ → List ℕ
emit_name name = length name % 256 ∷ name

abbrev pub emit_string : List ℕ → List ℕ
emit_string str = encode_value 8 (length str) ++ str

unfoldable pub emit_fields : List Field → List ℕ
emit_fields [] = []
emit_fields (f ∷ fields) =
    emit_name f.name ++ (bool_byte f.fixed ∷ bool_byte f.access ∷ emit_fields fields)

abbrev pub emit_type : List ℕ → List Field → List ℕ
emit_type name fields = emit_name name ++ (length fields % 256 ∷ emit_fields fields)

unfoldable pub encode_ranges : List DebugRange → List ℕ
encode_ranges [] = []
encode_ranges (r ∷ ranges) =
    encode_value 8 r.byte_start
    ++ (encode_value 8 r.byte_end
        ++ (encode_value 8 r.source_start ++ (encode_value 8 r.source_end ++ encode_ranges ranges)))

-- The metadata of one piece of code.
unfoldable pub encode_block : List DebugRange → List ℕ
encode_block ranges = encode_value 8 (length ranges) ++ encode_ranges ranges

abbrev pub combined_block : DebugInfoState → List DebugRange → List ℕ
combined_block combined ranges = encode_block ranges
combined_block _ ranges = []

abbrev pub fields_size : List Field → ℕ
fields_size [] = 0
fields_size (f ∷ fields) = (1 + length f.name + 2 + fields_size fields) % 2 ^ 64

abbrev pub type_size : List ℕ → List Field → ℕ
type_size name fields = (1 + (1 + length name) + 1 + fields_size fields) % 2 ^ 64

abbrev pub string_size : List ℕ → ℕ
string_size str = (1 + 8 + length str) % 2 ^ 64

abbrev pub module_size : List ℕ → ℕ
module_size name = (2 + length name) % 2 ^ 64

abbrev pub chunk_metadata_size : List DebugRange → ℕ
chunk_metadata_size ranges = (length ranges * 32 + 8) % 2 ^ 64

-- What is added when the debug information is combined with the code.
abbrev pub combined_size : DebugInfoState → List DebugRange → ℕ
combined_size combined ranges = chunk_metadata_size ranges
combined_size _ ranges = 0

-- A lambda has no name.
abbrev pub func_name : Option (List ℕ) → List ℕ
func_name none = 0 ∷ []
func_name (some name) = emit_name name

abbrev pub func_name_size : Option (List ℕ) → ℕ
func_name_size none = 0
func_name_size (some name) = length name

abbrev pub default_count : ℕ → ℕ → ℕ
default_count arity_min arity_max = (arity_max + 256 - arity_min) % 256

-- A Boolean or null constant is unreachable in the source, and counts for nothing. So is an array
-- of default arguments that is shorter than their count.
unfoldable mutual
  pub object_size : DebugInfoState → Object → ℕ
  object_size d (int value) = 9
  object_size d (dec value) = 9
  object_size d (boolean value) = 0
  object_size d null = 0
  object_size d (text str) = string_size str
  object_size d (string str) = string_size str
  object_size d (module_ name) = module_size name
  object_size d (user_type name fields) = type_size name fields
  object_size d (user_func f) = function_size d f

  pub function_size : DebugInfoState → Function → ℕ
  function_size d (function name arity_min arity_max variadic code default_args) =
      (func_name_size name
        + 5
        + chunk_size d code
        + args_size d (default_count arity_min arity_max) default_args)
      % 2 ^ 64

  pub chunk_size : DebugInfoState → ByteCode → ℕ
  chunk_size d (bytecode b p m) = (16 + length b + count_pool d p + combined_size d m) % 2 ^ 64

  pub args_size : DebugInfoState → ℕ → Chunks → ℕ
  args_size d zero args = 0
  args_size d (suc count) no_args = 0
  args_size d (suc count) (arg code args) = (chunk_size d code + args_size d count args) % 2 ^ 64

  pub count_pool : DebugInfoState → Pool → ℕ
  count_pool d Pool.nil = 0
  count_pool d (Pool.cons obj p) = (object_size d obj + count_pool d p) % 2 ^ 64

abbrev pub type_int : ℕ
type_int = 0

abbrev pub type_dec : ℕ
type_dec = 1

abbrev pub type_bool : ℕ
type_bool = 2

abbrev pub type_null : ℕ
type_null = 3

abbrev pub type_module : ℕ
type_module = 8

abbrev pub type_user_type : ℕ
type_user_type = 9

abbrev pub type_user_func : ℕ
type_user_func = 11

abbrev pub type_lambda : ℕ
type_lambda = 12

abbrev pub type_text : ℕ
type_text = 17

abbrev pub type_string : ℕ
type_string = 18

abbrev pub func_type : Function → ℕ
func_type (function none arity_min arity_max variadic code default_args) = type_lambda
func_type (function (some name) arity_min arity_max variadic code default_args) = type_user_func

-- `numeric_limits<streamsize>::max()`.
abbrev pub max_size : ℕ
max_size = 2 ^ 63 - 1

-- The code, the size of its pool and the bytes of its pool.
unfoldable pub encode_data : List ℕ → ℕ → List ℕ → List ℕ
encode_data b pool_size constants =
    encode_value 8 (length b)
    ++ (encode_value 8 pool_size ++ (if leb (length b) max_size then b ++ constants else []))

abbrev pub type_byte : Object → ℕ
type_byte (int value) = type_int
type_byte (dec value) = type_dec
type_byte (boolean value) = type_bool
type_byte null = type_null
type_byte (text str) = type_text
type_byte (string str) = type_string
type_byte (module_ name) = type_module
type_byte (user_type name fields) = type_user_type
type_byte (user_func f) = func_type f

-- `payload` is what `Object::emit` puts behind the byte of the type.
unfoldable mutual
  pub payload : DebugInfoState → Object → List ℕ
  payload d (int value) = encode_value 8 value
  payload d (dec value) = encode_value 8 value
  payload d (boolean value) = []
  payload d null = []
  payload d (text str) = emit_string str
  payload d (string str) = emit_string str
  payload d (module_ name) = emit_name name
  payload d (user_type name fields) = emit_type name fields
  payload d (user_func f) = emit_function d f

  pub emit_function : DebugInfoState → Function → List ℕ
  emit_function d (function name arity_min arity_max variadic code default_args) =
      func_name name
      ++ (arity_min % 256
          ∷ arity_max % 256
          ∷ bool_byte variadic
          ∷ (emit_chunk d code ++ emit_args d (default_count arity_min arity_max) default_args))

  -- `encodeData`, and `encodeMetadata` if the debug information is combined with the code.
  pub emit_chunk : DebugInfoState → ByteCode → List ℕ
  emit_chunk d (bytecode b p m) =
      encode_data b (count_pool d p) (emit_pool d p) ++ combined_block d m

  pub emit_args : DebugInfoState → ℕ → Chunks → List ℕ
  emit_args d zero args = []
  emit_args d (suc count) no_args = []
  emit_args d (suc count) (arg code args) = emit_chunk d code ++ emit_args d count args

  -- `emit` of each constant.
  pub emit_pool : DebugInfoState → Pool → List ℕ
  emit_pool d Pool.nil = []
  emit_pool d (Pool.cons constant p) = type_byte constant ∷ (payload d constant ++ emit_pool d p)

abbrev pub emit : DebugInfoState → Object → List ℕ
emit d obj = type_byte obj ∷ payload d obj

abbrev pub magic : List ℕ
magic = 99 ∷ 104 ∷ 111 ∷ 105 ∷ 99 ∷ 101 ∷ []

abbrev pub version : List ℕ
version = 0 ∷ 0 ∷ 1 ∷ []

abbrev pub encode_headers : DebugInfoState → List ℕ → List ℕ
encode_headers d file_name = magic ++ (version ++ (state_byte d ∷ emit_name file_name))
