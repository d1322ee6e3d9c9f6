-- ===== src/Serial/RoundTrip.antt =====
-- src/bytes.cpp against src/object.cpp and src/bytecode.cpp: what is written is read back.
use choice_lang.Prelude.{
  ℕ, zero, suc, ◌+◌, ◌%◌, ◌^◌, ◌≤◌, ◌<◌, ◌≡◌, refl, ◌∙◌, Bool, true, Option, none, some, List, [],
  ◌∷◌, ◌++◌, length, arith, length-append, append_assoc, lt→ltb, ge→ltb, le→leb,
}
use choice_lang.Object.{
  Object, int, dec, boolean, null, text, string, module_, user_type, user_func, Function, function,
  ByteCode, bytecode, Pool, Chunks, no_args, arg, DebugRange,
}
use choice_lang.Serial.{
  DebugInfoState, default_count, emit_pool, encode_value, encode_data, combined_block, func_name,
  count_pool, payload, type_byte, func_type, emit_function, emit_chunk, emit_args, bool_byte,
  max_size,
}
use choice_lang.Serial.Reader.{
  done, bind_done, read_name, read_string, read_bool, read_value, func_name_of, is_func_type,
  reconstruct_plain, reconstruct_pool, reconstruct_object, reconstruct_func, reconstruct_byte_code,
  reconstruct_args,
}
use choice_lang.Serial.Values.{
  reader, read_value-encode, read_bytes-front, read_byte-front, read_bool-byte, read_name-emit,
  read_string-emit, length-encode_value,
}
use choice_lang.Serial.Parts.{
  done_at, reconstruct_type-emit, debug_metadata-back, info_exists, info_combined, reader_for,
}
use choice_lang.Serial.Sizes.{count_pool-exact, length-emit_string, sizes_first, length-encode_data}
use choice_lang.Serial.Encodable.{
  Encodable, EncodableFunction, EncodableChunk, EncodableArgs, EncodablePool, IsFuncName, visible,
  visible_function, visible_chunk, visible_args, visible_pool, own_block, object_blocks,
  function_blocks, chunk_blocks, args_blocks, pool_blocks,
}

read_func_name :
    (e c : Bool) (ms : List (List DebugRange)) (name : Option (List ℕ)) (it : ℕ) (rest : List ℕ)
    → IsFuncName name
    → (read : List ℕ) × (read_name (reader e c ms it (func_name name ++ rest))
        ≡ done read (reader e c ms (it + length (func_name name)) rest))
      × (func_name_of read ≡ name)
read_func_name e c ms none it rest h =
    ([], read_name-emit [] it rest (omega arith) ∙ done_at [] _ _ rest (omega arith), refl)
read_func_name e c ms (some []) it rest h = absurd (omega (arith, h.0))
read_func_name e c ms (some (x ∷ name)) it rest h = (
  x ∷ name,
  read_name-emit (x ∷ name) it rest h.1 ∙ done_at (x ∷ name) _ _ rest (omega arith),
  refl,
)

encode_data-front :
    (b : List ℕ) (size : ℕ) (constants more : List ℕ)
    → length b < 2 ^ 63
    → encode_data b size constants ++ more
      ≡ encode_value 8 (length b) ++ (encode_value 8 size ++ (b ++ (constants ++ more)))
unfolding encode_data
encode_data-front b size constants more h =
    rw (le→leb (length b) max_size (omega arith))
      (rw (append_assoc, append_assoc, append_assoc) refl)

module _ (d : DebugInfoState) where
  func_type-known : (f : Function) → is_func_type (func_type f) ≡ true
  func_type-known (function none arity_min arity_max variadic code default_args) = refl
  func_type-known (function (some name) arity_min arity_max variadic code default_args) = refl

  read_type :
      (obj : Object) {ms : List (List DebugRange)} (it : ℕ) (rest : List ℕ)
      → read_value 1 (reader_for d ms it (type_byte obj ∷ rest))
        ≡ done (type_byte obj) (reader_for d ms (it + 1) rest)
  read_type (int value) it rest = read_byte-front 0 it rest (omega arith)
  read_type (dec value) it rest = read_byte-front 1 it rest (omega arith)
  read_type (boolean value) it rest = read_byte-front 2 it rest (omega arith)
  read_type null it rest = read_byte-front 3 it rest (omega arith)
  read_type (text str) it rest = read_byte-front 17 it rest (omega arith)
  read_type (string str) it rest = read_byte-front 18 it rest (omega arith)
  read_type (module_ name) it rest = read_byte-front 8 it rest (omega arith)
  read_type (user_type name fields) it rest = read_byte-front 9 it rest (omega arith)
  read_type (user_func (function none arity_min arity_max variadic code args)) it rest =
      read_byte-front 12 it rest (omega arith)
  read_type (user_func (function (some name) arity_min arity_max variadic code args)) it rest =
      read_byte-front 11 it rest (omega arith)

  function_length :
      (name : Option (List ℕ)) (arity_min arity_max : ℕ) (variadic : Bool) (code : ByteCode)
      (args : Chunks)
      → length (emit_function d (function name arity_min arity_max variadic code args))
        ≡ length (func_name name)
          + 3
          + length (emit_chunk d code)
          + length (emit_args d (default_count arity_min arity_max) args)
  unfolding payload
  function_length name arity_min arity_max variadic code args =
      let chunk = emit_chunk d code in
      let rest = emit_args d (default_count arity_min arity_max) args in
      omega (
        arith,
        length-append chunk rest,
        length-append (func_name name)
            (arity_min % 256 ∷ arity_max % 256 ∷ bool_byte variadic ∷ (chunk ++ rest)),
      )

  chunk_length :
      (b : List ℕ) (p : Pool) (m : List DebugRange)
      → length b < 2 ^ 63
      → length (emit_chunk d (bytecode b p m))
        ≡ 16 + length b + length (emit_pool d p) + length (combined_block d m)
  unfolding payload
  chunk_length b p m h = omega (
    arith,
    length-encode_data b (count_pool d p) (emit_pool d p) h,
    length-append (encode_data b (count_pool d p) (emit_pool d p)) (combined_block d m),
  )

  mutual
    unfolding Encodable payload visible object_blocks reconstruct_pool reconstruct_plain

    object_back :
        (n it : ℕ) (obj : Object) (more : List (List DebugRange)) (rest : List ℕ)
        → Encodable d obj
        → length (payload d obj) + 2 ≤ n
        → reconstruct_object n
            (type_byte obj)
            (reader_for d (object_blocks d obj more) it (payload d obj ++ rest))
          ≡ done (some (visible d obj)) (reader_for d more (it + length (payload d obj)) rest)
    object_back zero it obj more rest h k = absurd (omega arith)
    object_back (suc n) it (int value) more rest h k =
        bind_done _ _ (read_value-encode 8 value it rest h h)
        ∙ done_at (some (int value)) _ _ rest (omega (arith, length-encode_value 8 value))
    object_back (suc n) it (dec value) more rest h k =
        bind_done _ _ (read_value-encode 8 value it rest h h)
        ∙ done_at (some (dec value)) _ _ rest (omega (arith, length-encode_value 8 value))
    object_back (suc n) it (boolean value) more rest h k = absurd h
    object_back (suc n) it null more rest h k = absurd h
    object_back (suc n) it (text str) more rest h k =
        bind_done read_string _ (read_string-emit str it rest h)
        ∙ done_at (some (text str)) _ _ rest (omega (arith, length-emit_string str))
    object_back (suc n) it (string str) more rest h k =
        bind_done read_string _ (read_string-emit str it rest h)
        ∙ done_at (some (string str)) _ _ rest (omega (arith, length-emit_string str))
    object_back (suc n) it (module_ name) more rest h k =
        bind_done read_name _ (read_name-emit name it rest h)
        ∙ done_at (some (module_ name)) _ _ rest (omega arith)
    object_back (suc n) it (user_type name fields) more rest h k =
        bind_done _ _ (reconstruct_type-emit name fields it rest h.0 h.1 h.2)
    object_back (suc n) it (user_func f) more rest h k =
        rw (func_type-known f) (bind_done _ _ (function_back n it f more rest h (omega arith)))

    function_back :
        (n it : ℕ) (f : Function) (more : List (List DebugRange)) (rest : List ℕ)
        → EncodableFunction d f
        → length (emit_function d f) + 1 ≤ n
        → reconstruct_func n
            (reader_for d (function_blocks d f more) it (emit_function d f ++ rest))
          ≡ done (visible_function d f) (reader_for d more (it + length (emit_function d f)) rest)
    function_back zero it f more rest h k = absurd (omega arith)
    function_back (suc n) it (function name arity_min arity_max variadic code default_args) more
          rest h k =
        let count = default_count arity_min arity_max in
        let chunk = emit_chunk d code in
        let args = emit_args d count default_args in
        let chunks = chunk_blocks d code (args_blocks d default_args more) in
        let name_read =
          read_func_name (info_exists d) (info_combined d) chunks name it
            (arity_min % 256 ∷ arity_max % 256 ∷ bool_byte variadic ∷ (chunk ++ (args ++ rest)))
            h.0 in
        let i = it + length (func_name name) in
        let len = function_length name arity_min arity_max variadic code default_args in
        rw (append_assoc, append_assoc)
          (bind_done read_name _ name_read.1
            ∙ bind_done _ _ (read_byte-front arity_min i _ h.1)
            ∙ bind_done _ _ (read_byte-front arity_max (i + 1) _ h.2)
            ∙ bind_done read_bool _ (read_bool-byte variadic (i + 1 + 1) _)
            ∙ bind_done _ _ (
                chunk_back n (i + 1 + 1 + 1) code (args_blocks d default_args more) _ h.3
                  (omega arith))
            ∙ bind_done _ _ (
                args_back n (i + 1 + 1 + 1 + length chunk) count default_args more rest h.4
                  (omega arith))
            ∙ rw name_read.2 (
                done_at
                  (visible_function d
                    (function name arity_min arity_max variadic code default_args))
                  _ _ rest (omega arith)))

    pub chunk_back :
        (n it : ℕ) (code : ByteCode) (more : List (List DebugRange)) (rest : List ℕ)
        → EncodableChunk d code
        → length (emit_chunk d code) + 2 ≤ n
        → reconstruct_byte_code n
            (reader_for d (chunk_blocks d code more) it (emit_chunk d code ++ rest))
          ≡ done (visible_chunk d code) (reader_for d more (it + length (emit_chunk d code)) rest)
    chunk_back zero it code more rest h k = absurd (omega arith)
    chunk_back (suc n) it (bytecode b p m) more rest h k =
        let constants = emit_pool d p in
        let size = count_pool d p in
        let exact = count_pool-exact d p h.1 h.2 in
        let fits : size < 2 ^ 64 = omega (arith, exact, h.2) in
        let len = chunk_length b p m h.0 in
        let i = it + 8 + 8 + length b in
        rw
          (
            append_assoc,
            encode_data-front b (count_pool d p) constants (combined_block d m ++ rest) h.0,
          )
          (bind_done _ _
              (read_value-encode 8 (length b) it _ (omega (arith, h.0)) (omega (arith, h.0)))
            ∙ bind_done _ _ (read_value-encode 8 size (it + 8) _ fits fits)
            ∙ bind_done _ _ (read_bytes-front b (it + 8 + 8) _)
            ∙ bind_done _ _ (
                rw
                  (le→leb size (length (constants ++ (combined_block d m ++ rest)))
                    (omega (arith, exact, length-append constants (combined_block d m ++ rest))))
                  (pool_back n i (i + size) p (own_block d m more) _ h.1 (omega arith)
                    (omega arith)))
            ∙ bind_done _ _ (debug_metadata-back d m more (i + size) rest h.3 h.4 h.5)
            ∙ done_at (visible_chunk d (bytecode b p m)) _ _ rest (omega arith))

    args_back :
        (n it count : ℕ) (args : Chunks) (more : List (List DebugRange)) (rest : List ℕ)
        → EncodableArgs d count args
        → length (emit_args d count args) + 3 ≤ n
        → reconstruct_args n count
            (reader_for d (args_blocks d args more) it (emit_args d count args ++ rest))
          ≡ done
              (visible_args d args)
              (reader_for d more (it + length (emit_args d count args)) rest)
    args_back zero it count args more rest h k = absurd (omega arith)
    args_back (suc n) it zero no_args more rest h k = done_at no_args it _ rest (omega arith)
    args_back (suc n) it zero (arg code args) more rest h k = absurd h
    args_back (suc n) it (suc count) no_args more rest h k = absurd h
    args_back (suc n) it (suc count) (arg code args) more rest h k =
        let chunk = emit_chunk d code in
        let sizes = sizes_first d code h.0 in
        let len = length-append chunk (emit_args d count args) in
        rw append_assoc (
          bind_done _ _ (chunk_back n it code (args_blocks d args more) _ h.0 (omega arith))
          ∙ bind_done _ _ (args_back n (it + length chunk) count args more rest h.1 (omega arith))
          ∙ done_at (arg (visible_chunk d code) (visible_args d args)) _ _ rest (omega arith))

    pool_back :
        (n it stop : ℕ) (p : Pool) (more : List (List DebugRange)) (rest : List ℕ)
        → EncodablePool d p
        → length (emit_pool d p) + 2 ≤ n
        → it + length (emit_pool d p) ≡ stop
        → reconstruct_pool n stop (reader_for d (pool_blocks d p more) it (emit_pool d p ++ rest))
          ≡ done (visible_pool d p) (reader_for d more stop rest)
    pool_back zero it stop p more rest h k e = absurd (omega arith)
    pool_back (suc n) it stop Pool.nil more rest h k e =
        rw (ge→ltb it stop (omega arith)) (done_at Pool.nil it stop rest (omega arith))
    pool_back (suc n) it stop (Pool.cons constant p) more rest h k e =
        let constants = emit_pool d p in
        let len = length-append (payload d constant) constants in
        rw (lt→ltb it stop (omega arith), append_assoc)
          (bind_done _ _ (read_type constant it _)
            ∙ bind_done _ _
                (object_back n (it + 1) constant (pool_blocks d p more) _ h.0 (omega arith))
            ∙ bind_done _ _ (
                pool_back n (it + 1 + length (payload d constant)) stop p more rest h.1
                  (omega arith) (omega arith)))
