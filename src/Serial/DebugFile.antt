-- ===== src/Serial/DebugFile.antt =====
-- src/bytecode.cpp and src/object.cpp: `encodeMetadata`, which writes the debug information that is
-- kept apart from the code, and `DebugReader` of src/bytes.cpp, which reads it. A constant that is
-- no function has no `emitMetadata` to call, and `none` stands for the undefined call.
use choice_lang.Prelude.{
  ℕ, zero, suc, ◌≡◌, refl, ◌∙◌, Option, none, some, List, [], ◌∷◌, ◌++◌, arith, append_assoc,
}
use choice_lang.Object.{
  Object, int, dec, boolean, null, text, string, module_, user_type, user_func, Function, function,
  ByteCode, bytecode, Pool, Chunks, no_args, arg, DebugRange,
}
use choice_lang.Vm.{◌>>=◌}
use choice_lang.Serial.{separate, default_count, encode_block}
use choice_lang.Serial.Encodable.{
  EncodableChunk, EncodableArgs, EncodablePool, Encodable, EncodableFunction, object_blocks,
  function_blocks, chunk_blocks, args_blocks, pool_blocks,
}

-- The cast to a function of a constant that is none is undefined, and there is then no file.
unfoldable mutual
  pub emit_metadata : Object → Option (List ℕ)
  emit_metadata (user_func f) = function_metadata f
  emit_metadata (int value) = none
  emit_metadata (dec value) = none
  emit_metadata (boolean value) = none
  emit_metadata null = none
  emit_metadata (text str) = none
  emit_metadata (string str) = none
  emit_metadata (module_ name) = none
  emit_metadata (user_type name fields) = none

  pub function_metadata : Function → Option (List ℕ)
  function_metadata (function name arity_min arity_max variadic code default_args) = do
    own ← encode_metadata code
    args ← args_metadata (default_count arity_min arity_max) default_args
    some (own ++ args)

  pub encode_metadata : ByteCode → Option (List ℕ)
  encode_metadata (bytecode b p m) = do inner ← pool_metadata p; some (inner ++ encode_block m)

  pub args_metadata : ℕ → Chunks → Option (List ℕ)
  args_metadata zero args = some []
  args_metadata (suc count) no_args = none
  args_metadata (suc count) (arg code args) = do
    own ← encode_metadata code
    others ← args_metadata count args
    some (own ++ others)

  pub pool_metadata : Pool → Option (List ℕ)
  pool_metadata Pool.nil = some []
  pool_metadata (Pool.cons obj p) = do
    own ← emit_metadata obj
    others ← pool_metadata p
    some (own ++ others)

-- The blocks of a file.
unfoldable pub file_of : List (List DebugRange) → List ℕ
file_of [] = []
file_of (m ∷ blocks) = encode_block m ++ file_of blocks

-- The parts of a concatenation of two results.
both :
    (a b : Option (List ℕ)) (bytes : List ℕ)
    → (do x ← a; y ← b; some (x ++ y)) ≡ some bytes
    → (x : List ℕ) × (y : List ℕ) × (a ≡ some x) × (b ≡ some y) × (x ++ y ≡ bytes)
both none b bytes e = absurd (ground arith)
both (some x) none bytes e = absurd (ground arith)
both (some x) (some y) bytes e = (x, y, refl, refl, ground arith)

mutual
  unfolding emit_metadata object_blocks Encodable file_of

  emit_metadata-file :
      (obj : Object) (bytes : List ℕ) (more : List (List DebugRange))
      → Encodable separate obj
      → emit_metadata obj ≡ some bytes
      → file_of (object_blocks separate obj more) ≡ bytes ++ file_of more
  emit_metadata-file (user_func f) bytes more h e = function_metadata-file f bytes more h e
  emit_metadata-file (int value) bytes more h e = absurd (ground arith)
  emit_metadata-file (dec value) bytes more h e = absurd (ground arith)
  emit_metadata-file (boolean value) bytes more h e = absurd (ground arith)
  emit_metadata-file null bytes more h e = absurd (ground arith)
  emit_metadata-file (text str) bytes more h e = absurd (ground arith)
  emit_metadata-file (string str) bytes more h e = absurd (ground arith)
  emit_metadata-file (module_ name) bytes more h e = absurd (ground arith)
  emit_metadata-file (user_type name fields) bytes more h e = absurd (ground arith)

  function_metadata-file :
      (f : Function) (bytes : List ℕ) (more : List (List DebugRange))
      → EncodableFunction separate f
      → function_metadata f ≡ some bytes
      → file_of (function_blocks separate f more) ≡ bytes ++ file_of more
  function_metadata-file (function name arity_min arity_max variadic code args) bytes more h e =
      let count = default_count arity_min arity_max in
      let (x, y, ex, ey, eq) = both (encode_metadata code) (args_metadata count args) bytes e in
      encode_metadata-file code x (args_blocks separate args more) h.3 ex
      ∙ rw (args_metadata-file count args y more h.4 ey, ← eq, append_assoc) refl

  pub encode_metadata-file :
      (code : ByteCode) (bytes : List ℕ) (more : List (List DebugRange))
      → EncodableChunk separate code
      → encode_metadata code ≡ some bytes
      → file_of (chunk_blocks separate code more) ≡ bytes ++ file_of more
  encode_metadata-file (bytecode b p m) bytes more h e =
      let (x, y, ex, ey, eq) = both (pool_metadata p) (some (encode_block m)) bytes e in
      let last : encode_block m ≡ y = ground arith in
      pool_metadata-file p x (m ∷ more) h.1 ex ∙ rw (← eq, ← last, append_assoc) refl

  args_metadata-file :
      (count : ℕ) (args : Chunks) (bytes : List ℕ) (more : List (List DebugRange))
      → EncodableArgs separate count args
      → args_metadata count args ≡ some bytes
      → file_of (args_blocks separate args more) ≡ bytes ++ file_of more
  args_metadata-file zero no_args bytes more h e =
      let empty : [] ≡ bytes = ground arith in rw (← empty) refl
  args_metadata-file zero (arg code args) bytes more h e = absurd h
  args_metadata-file (suc count) no_args bytes more h e = absurd h
  args_metadata-file (suc count) (arg code args) bytes more h e =
      let (x, y, ex, ey, eq) = both (encode_metadata code) (args_metadata count args) bytes e in
      encode_metadata-file code x (args_blocks separate args more) h.0 ex
      ∙ rw (args_metadata-file count args y more h.1 ey, ← eq, append_assoc) refl

  pool_metadata-file :
      (p : Pool) (bytes : List ℕ) (more : List (List DebugRange))
      → EncodablePool separate p
      → pool_metadata p ≡ some bytes
      → file_of (pool_blocks separate p more) ≡ bytes ++ file_of more
  pool_metadata-file Pool.nil bytes more h e =
      let empty : [] ≡ bytes = ground arith in rw (← empty) refl
  pool_metadata-file (Pool.cons obj p) bytes more h e =
      let (x, y, ex, ey, eq) = both (emit_metadata obj) (pool_metadata p) bytes e in
      emit_metadata-file obj x (pool_blocks separate p more) h.0 ex
      ∙ rw (pool_metadata-file p y more h.1 ey, ← eq, append_assoc) refl
