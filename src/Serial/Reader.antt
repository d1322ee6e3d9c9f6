-- ===== src/Serial/Reader.antt =====
-- src/bytes.cpp: `CodeReader`, which rebuilds byte code from a file, and `DebugReader`.
use choice_lang.Prelude.{
  ℕ, zero, suc, ◌+◌, ◌*◌, ◌%◌, ◌^◌, bit_or, Bool, true, false, not, Option, none, some, List, [],
  ◌∷◌, ◌≡◌, ap, length, take, drop, ltb, leb, ◌==◌, ◌||◌, if◌then◌else◌, same,
}
use choice_lang.Object.{
  Object, int, dec, text, string, module_, user_type, user_func, Function, function, ByteCode,
  bytecode, Pool, Chunks, no_args, arg, DebugRange, Field,
}
use choice_lang.Serial.Sorting.{sort_metadata}
use choice_lang.Serial.{
  default_count, type_int, type_dec, type_bool, type_null, type_module, type_user_type,
  type_user_func, type_lambda, type_text, type_string, magic,
}

-- `it` is a position in the file and `rest` the bytes from there; `blocks` is `data` from
-- `dataIndex` on.
pub record Reader : Type 0 where
  pub debug_info_exists : Bool
  pub debug_info_combined : Bool
  pub blocks : List (List DebugRange)
  pub it : ℕ
  pub rest : List ℕ

-- The ends of the process, an access out of bounds, and the end of the fuel.
pub data Failure : Type 0 where
  eof_error improper_magic incompatible_version : Failure
  unknown_type : ℕ → ℕ → Failure
  undefined : Failure
  out_of_fuel : Failure

pub data Read {ℓ} (A : Type ℓ) : Type ℓ where
  done : A → Reader → Read A
  failed : Failure → Read A

abbrev pub Action {ℓ} : Type ℓ → Type ℓ
Action A = Reader → Read A

-- A failed step ends the run.
abbrev pub continue {ℓ κ} : {A : Type ℓ} {B : Type κ} → (A → Action B) → Read A → Read B
continue f (done a t) = f a t
continue f (failed e) = failed e

infixl 5 ◌>>=◌
unfoldable pub ◌>>=◌ {ℓ κ} : {A : Type ℓ} {B : Type κ} → Action A → (A → Action B) → Action B
◌>>=◌ m f s = continue f (m s)

infixl 5 ◌>>◌
unfoldable pub ◌>>◌ {ℓ κ} : {A : Type ℓ} {B : Type κ} → Action A → Action B → Action B
◌>>◌ m k s = continue (λ _. k) (m s)

module _ {ℓ κ} {A : Type ℓ} {B : Type κ} {s t : Reader} {a : A} where
  pub bind_done : (m : Action A) (f : A → Action B) → m s ≡ done a t → (m >>= f) s ≡ f a t
  unfolding ◌>>=◌
  bind_done m f e = ap (continue f) e

  pub then_done : (m : Action A) (k : Action B) → m s ≡ done a t → (m >> k) s ≡ k t
  unfolding ◌>>◌
  then_done m k e = ap (continue (λ _. k)) e

abbrev pub pure {ℓ} : {A : Type ℓ} → A → Action A
pure a s = done a s

abbrev pub fail {ℓ} : {A : Type ℓ} → Failure → Action A
fail e s = failed e

abbrev pub advance : ℕ → Reader → Reader
advance n s = record s { it = s.it + n; rest = drop n s.rest }

-- The bytes of a value, the highest first, shifted into 64 bits.
unfoldable pub read_mem : ℕ → ℕ → List ℕ → ℕ
read_mem zero value mem = value
read_mem (suc n) value [] = value
read_mem (suc n) value (b ∷ mem) = read_mem n (bit_or (value * 2 ^ 8 % 2 ^ 64) b) mem

unfoldable pub read_value : ℕ → Action ℕ
read_value size s =
    if leb size (length s.rest)
    then done (read_mem size 0 s.rest % 2 ^ (size * 8)) (advance size s)
    else failed eof_error

unfoldable pub read_bytes : ℕ → Action (List ℕ)
read_bytes size s =
    if leb size (length s.rest) then done (take size s.rest) (advance size s) else failed eof_error

abbrev pub read_bool : Action Bool
read_bool = do b ← read_value 1; pure (not (b == 0))

-- A byte for the length and the name.
abbrev pub read_name : Action (List ℕ)
read_name = do len ← read_value 1; read_bytes len

-- Eight bytes for the length and the string.
abbrev pub read_string : Action (List ℕ)
read_string = do len ← read_value 8; read_bytes len

unfoldable pub read_fields : ℕ → Action (List Field)
read_fields zero = pure []
read_fields (suc n) = do
  name ← read_name
  fixed ← read_bool
  access ← read_bool
  fields ← read_fields n
  pure (record { name = name; fixed = fixed; access = access } ∷ fields)

unfoldable pub reconstruct_type : Action Object
reconstruct_type = do
  name ← read_name
  field_count ← read_value 1
  fields ← read_fields field_count
  pure (user_type name fields)

unfoldable pub read_range : Action DebugRange
read_range = do
  byte_start ← read_value 8
  byte_end ← read_value 8
  source_start ← read_value 8
  source_end ← read_value 8
  pure (record {
    byte_start = byte_start;
    byte_end = byte_end;
    source_start = source_start;
    source_end = source_end;
  })

unfoldable pub read_ranges : ℕ → Action (List DebugRange)
read_ranges zero = pure []
read_ranges (suc n) = do range ← read_range; ranges ← read_ranges n; pure (range ∷ ranges)

unfoldable pub read_metadata_block : Action (List DebugRange)
read_metadata_block = do size ← read_value 8; read_ranges size

-- `setDebugData`, which sorts the metadata.
abbrev pub sorted_at : Option (List DebugRange) → Reader → Read (List DebugRange)
sorted_at none s = failed undefined
sorted_at (some m) s = done m s

abbrev pub set_debug_data : List DebugRange → Reader → Read (List DebugRange)
set_debug_data m s = sorted_at (sort_metadata m) s

-- `readDebugMetadata`: another reader starts at the position of this one, which then moves.
abbrev pub move_over : Reader → Read (List DebugRange) → Read (List DebugRange)
move_over s (done m _) = set_debug_data m (advance (length m * 32 + 8) s)
move_over s (failed e) = failed e

unfoldable pub read_debug_metadata : Action (List DebugRange)
read_debug_metadata s = move_over s (read_metadata_block s)

abbrev pub next_block : List (List DebugRange) → Action (List DebugRange)
next_block [] s = failed undefined
next_block (m ∷ blocks) s = set_debug_data m (record s { blocks = blocks })

unfoldable pub match_debug_metadata : Action (List DebugRange)
match_debug_metadata s = next_block s.blocks s

unfoldable pub debug_metadata : Action (List DebugRange)
debug_metadata s =
    if s.debug_info_combined
    then read_debug_metadata s
    else if s.debug_info_exists
    then match_debug_metadata s
    else done [] s

-- A constant of type Bool or Null has no object.
abbrev pub emplace_back : Option Object → Pool → Pool
emplace_back none p = p
emplace_back (some obj) p = Pool.cons obj p

abbrev unknown_byte : ℕ → Action (Option Object)
unknown_byte type s = failed (unknown_type s.it type)

-- A step behind the end is undefined.
abbrev pub skip_byte : List ℕ → Action (Option Object)
skip_byte [] s = failed undefined
skip_byte (b ∷ bs) s = done none (advance 1 s)

abbrev default_type : ℕ → Action (Option Object)
default_type type s =
    if type == type_bool || type == type_null then skip_byte s.rest s else unknown_byte type s

-- The types of constants that hold no byte code.
unfoldable pub reconstruct_plain : ℕ → Action (Option Object)
reconstruct_plain type =
    if type == type_int
    then (do value ← read_value 8; pure (some (int value)))
    else if type == type_dec
    then (do value ← read_value 8; pure (some (dec value)))
    else if type == type_module
    then (do name ← read_name; pure (some (module_ name)))
    else if type == type_user_type
    then (do obj ← reconstruct_type; pure (some obj))
    else if type == type_text
    then (do str ← read_string; pure (some (text str)))
    else if type == type_string
    then (do str ← read_string; pure (some (string str)))
    else default_type type

abbrev pub is_func_type : ℕ → Bool
is_func_type type = type == type_user_func || type == type_lambda

abbrev pub func_name_of : List ℕ → Option (List ℕ)
func_name_of [] = none
func_name_of (c ∷ name) = some (c ∷ name)

-- The end of a pool is an iterator, `it + poolByteSize`, and one behind the end of the file is
-- undefined.
unfoldable mutual
  pub reconstruct_pool : ℕ → ℕ → Action Pool
  reconstruct_pool zero stop s = failed out_of_fuel
  reconstruct_pool (suc n) stop s =
      if ltb s.it stop
      then (do
        type ← read_value 1
        obj ← reconstruct_object n type
        p ← reconstruct_pool n stop
        pure (emplace_back obj p))
          s
      else done Pool.nil s

  pub reconstruct_object : ℕ → ℕ → Action (Option Object)
  reconstruct_object zero type = fail out_of_fuel
  reconstruct_object (suc n) type =
      if is_func_type type
      then (do f ← reconstruct_func n; pure (some (user_func f)))
      else reconstruct_plain type

  pub reconstruct_func : ℕ → Action Function
  reconstruct_func zero = fail out_of_fuel
  reconstruct_func (suc n) = do
    name ← read_name
    arity_min ← read_value 1
    arity_max ← read_value 1
    variadic ← read_bool
    code ← reconstruct_byte_code n
    default_args ← reconstruct_args n (default_count arity_min arity_max)
    pure (function (func_name_of name) arity_min arity_max variadic code default_args)

  pub reconstruct_byte_code : ℕ → Action ByteCode
  reconstruct_byte_code zero = fail out_of_fuel
  reconstruct_byte_code (suc n) = do
    code_size ← read_value 8
    pool_size ← read_value 8
    bytes ← read_bytes code_size
    p ← (λ s.
        if leb pool_size (length s.rest)
        then reconstruct_pool n (s.it + pool_size) s
        else failed undefined)
    m ← debug_metadata
    pure (bytecode bytes p m)

  pub reconstruct_args : ℕ → ℕ → Action Chunks
  reconstruct_args zero count = fail out_of_fuel
  reconstruct_args (suc n) zero = pure no_args
  reconstruct_args (suc n) (suc count) = do
    code ← reconstruct_byte_code n
    args ← reconstruct_args n count
    pure (arg code args)

-- Each call of `reconstruct_pool`'s cycle reads a byte.
abbrev pub enough : Reader → ℕ
enough s = length s.rest + 3

-- `readCache`, with and without metadata; the flags come from its arguments.
abbrev pub read_cache : Action ByteCode
read_cache s =
    let t = record s { debug_info_exists = false; debug_info_combined = false } in
    reconstruct_byte_code (enough s) t

abbrev pub is_empty : List (List DebugRange) → Bool
is_empty [] = true
is_empty (m ∷ blocks) = false

abbrev pub read_cache_metadata : List (List DebugRange) → Action ByteCode
read_cache_metadata blocks s =
    let t = record s {
      debug_info_exists = true;
      debug_info_combined = is_empty blocks;
      blocks = blocks;
    } in
    reconstruct_byte_code (enough s) t

unfoldable pub read_magic : Action (Unit {0})
read_magic = do bytes ← read_bytes 6; if same bytes magic then pure tt else fail improper_magic

abbrev pub major_matches : List ℕ → Bool
major_matches [] = false
major_matches (major ∷ rest) = major == 0

unfoldable pub read_version_num : Action (Unit {0})
read_version_num = do
  num ← read_bytes 3
  if major_matches num then pure tt else fail incompatible_version

unfoldable pub read_headers : Action (Unit {0})
read_headers = do read_magic; read_version_num

unfoldable pub read_words : ℕ → Action (List ℕ)
read_words zero = pure []
read_words (suc n) = do w ← read_value 8; ws ← read_words n; pure (w ∷ ws)

unfoldable pub read_line_markers : Action (List ℕ)
read_line_markers = do count ← read_value 8; read_words count

-- `DebugReader::readMetadata`, on fuel: a block takes at least eight bytes.
unfoldable pub read_metadata : ℕ → Action (List (List DebugRange))
read_metadata zero s = failed out_of_fuel
read_metadata (suc n) s =
    if ltb 0 (length s.rest)
    then (do m ← read_metadata_block; ms ← read_metadata n; pure (m ∷ ms)) s
    else done [] s
