-- ===== src/Serial/Encodable.antt =====
-- Which objects the format of src/object.cpp and src/bytecode.cpp can hold, and what of them comes
-- back.
use choice_lang.Prelude.{
  ℕ, zero, suc, ◌^◌, ◌<◌, ◌≡◌, Option, none, some, List, [], ◌∷◌, length, All,
}
use choice_lang.Object.{
  Object, int, dec, boolean, null, text, string, module_, user_type, user_func, Function, function,
  ByteCode, bytecode, Pool, Chunks, no_args, arg, DebugRange,
}
use choice_lang.Serial.Sorting.{sort_metadata}
use choice_lang.Serial.{DebugInfoState, separate, stripped, default_count, emit_pool}

abbrev pub IsRange : DebugRange → Type 0
IsRange r =
    (r.byte_start < 2 ^ 64)
    × (r.byte_end < 2 ^ 64)
    × (r.source_start < 2 ^ 64)
    × (r.source_end < 2 ^ 64)

abbrev pub IsFuncName : Option (List ℕ) → Type 0
IsFuncName none = Unit
IsFuncName (some name) = (0 < length name) × (length name < 256)

-- The metadata is in the order that `setDebugData` leaves, without duplicates.
abbrev pub IsSorted : DebugInfoState → List DebugRange → Type 0
IsSorted stripped m = Unit
IsSorted _ m = sort_metadata m ≡ some m

-- Each number fits its bytes, metadata is sorted, and the arrays of default arguments have the length of their count.
unfoldable mutual
  pub Encodable : DebugInfoState → Object → Type 0
  Encodable d (int value) = value < 2 ^ 64
  Encodable d (dec value) = value < 2 ^ 64
  Encodable d (boolean value) = ⊥
  Encodable d null = ⊥
  Encodable d (text str) = length str < 2 ^ 64
  Encodable d (string str) = length str < 2 ^ 64
  Encodable d (module_ name) = length name < 256
  Encodable d (user_type name fields) =
      (length name < 256) × (length fields < 256) × All (λ f. length f.name < 256) fields
  Encodable d (user_func f) = EncodableFunction d f

  pub EncodableFunction : DebugInfoState → Function → Type 0
  EncodableFunction d (function name arity_min arity_max variadic code default_args) =
      IsFuncName name
      × (arity_min < 256)
      × (arity_max < 256)
      × EncodableChunk d code
      × EncodableArgs d (default_count arity_min arity_max) default_args

  pub EncodableChunk : DebugInfoState → ByteCode → Type 0
  EncodableChunk d (bytecode b p m) =
      (length b < 2 ^ 63)
      × EncodablePool d p
      × (length (emit_pool d p) < 2 ^ 64)
      × (length m < 2 ^ 64)
      × All IsRange m
      × IsSorted d m

  pub EncodableArgs : DebugInfoState → ℕ → Chunks → Type 0
  EncodableArgs d zero no_args = Unit
  EncodableArgs d zero (arg code args) = ⊥
  EncodableArgs d (suc count) no_args = ⊥
  EncodableArgs d (suc count) (arg code args) = EncodableChunk d code × EncodableArgs d count args

  pub EncodablePool : DebugInfoState → Pool → Type 0
  EncodablePool d Pool.nil = Unit
  EncodablePool d (Pool.cons constant p) = Encodable d constant × EncodablePool d p

abbrev pub visible_ranges : DebugInfoState → List DebugRange → List DebugRange
visible_ranges stripped m = []
visible_ranges _ m = m

-- What comes back: stripped code has no metadata.
unfoldable mutual
  pub visible : DebugInfoState → Object → Object
  visible d (user_func f) = user_func (visible_function d f)
  visible d (int value) = int value
  visible d (dec value) = dec value
  visible d (boolean value) = boolean value
  visible d null = null
  visible d (text str) = text str
  visible d (string str) = string str
  visible d (module_ name) = module_ name
  visible d (user_type name fields) = user_type name fields

  pub visible_function : DebugInfoState → Function → Function
  visible_function d (function name arity_min arity_max variadic code default_args) =
      function name arity_min arity_max variadic (visible_chunk d code)
        (visible_args d default_args)

  pub visible_chunk : DebugInfoState → ByteCode → ByteCode
  visible_chunk d (bytecode b p m) = bytecode b (visible_pool d p) (visible_ranges d m)

  pub visible_args : DebugInfoState → Chunks → Chunks
  visible_args d no_args = no_args
  visible_args d (arg code args) = arg (visible_chunk d code) (visible_args d args)

  pub visible_pool : DebugInfoState → Pool → Pool
  visible_pool d Pool.nil = Pool.nil
  visible_pool d (Pool.cons constant p) = Pool.cons (visible d constant) (visible_pool d p)

abbrev pub own_block :
    DebugInfoState → List DebugRange → List (List DebugRange) → List (List DebugRange)
own_block separate m more = m ∷ more
own_block _ m more = more

-- The blocks of metadata that a reader of separate debug information takes, in its order, in front
-- of `more`.
unfoldable mutual
  pub object_blocks : DebugInfoState → Object → List (List DebugRange) → List (List DebugRange)
  object_blocks d (user_func f) more = function_blocks d f more
  object_blocks d (int value) more = more
  object_blocks d (dec value) more = more
  object_blocks d (boolean value) more = more
  object_blocks d null more = more
  object_blocks d (text str) more = more
  object_blocks d (string str) more = more
  object_blocks d (module_ name) more = more
  object_blocks d (user_type name fields) more = more

  pub function_blocks : DebugInfoState → Function → List (List DebugRange) → List (List DebugRange)
  function_blocks d (function name arity_min arity_max variadic code default_args) more =
      chunk_blocks d code (args_blocks d default_args more)

  pub chunk_blocks : DebugInfoState → ByteCode → List (List DebugRange) → List (List DebugRange)
  chunk_blocks d (bytecode b p m) more = pool_blocks d p (own_block d m more)

  pub args_blocks : DebugInfoState → Chunks → List (List DebugRange) → List (List DebugRange)
  args_blocks d no_args more = more
  args_blocks d (arg code args) more = chunk_blocks d code (args_blocks d args more)

  pub pool_blocks : DebugInfoState → Pool → List (List DebugRange) → List (List DebugRange)
  pool_blocks d Pool.nil more = more
  pool_blocks d (Pool.cons constant p) more = object_blocks d constant (pool_blocks d p more)
