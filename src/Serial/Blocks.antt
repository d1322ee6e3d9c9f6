-- ===== src/Serial/Blocks.antt =====
-- src/bytes.cpp: the blocks of metadata that belong to a piece of code.
use choice_lang.Prelude.{ℕ, zero, suc, ◌^◌, ◌<◌, ◌≡◌, refl, List, [], ◌∷◌, length, All}
use choice_lang.Object.{
  Object, int, dec, boolean, null, text, string, module_, user_type, user_func, Function, function,
  ByteCode, bytecode, Pool, Chunks, no_args, arg, DebugRange,
}
use choice_lang.Serial.{DebugInfoState, combined, separate, stripped, default_count}
use choice_lang.Serial.Encodable.{
  IsRange, EncodableChunk, EncodableArgs, EncodablePool, Encodable, EncodableFunction, own_block,
  object_blocks, function_blocks, chunk_blocks, args_blocks, pool_blocks,
}

abbrev pub FitsBlock : List DebugRange → Type 0
FitsBlock m = (length m < 2 ^ 64) × All IsRange m

-- What each block keeps, the blocks of a piece of code keep.
module _ (d : DebugInfoState) (P : List (List DebugRange) → Type 0)
    (step : (m : List DebugRange) (more : List (List DebugRange))
      → FitsBlock m
      → P more
      → P (own_block d m more)) where
  mutual
    unfolding object_blocks Encodable

    object_blocks-keep :
        (obj : Object) (more : List (List DebugRange))
        → Encodable d obj
        → P more
        → P (object_blocks d obj more)
    object_blocks-keep (user_func f) more h p = function_blocks-keep f more h p
    object_blocks-keep (int value) more h p = p
    object_blocks-keep (dec value) more h p = p
    object_blocks-keep (boolean value) more h p = p
    object_blocks-keep null more h p = p
    object_blocks-keep (text str) more h p = p
    object_blocks-keep (string str) more h p = p
    object_blocks-keep (module_ name) more h p = p
    object_blocks-keep (user_type name fields) more h p = p

    function_blocks-keep :
        (f : Function) (more : List (List DebugRange))
        → EncodableFunction d f
        → P more
        → P (function_blocks d f more)
    function_blocks-keep (function name arity_min arity_max variadic code args) more h p =
        chunk_blocks-keep code (args_blocks d args more) h.3
          (args_blocks-keep (default_count arity_min arity_max) args more h.4 p)

    pub chunk_blocks-keep :
        (code : ByteCode) (more : List (List DebugRange))
        → EncodableChunk d code
        → P more
        → P (chunk_blocks d code more)
    chunk_blocks-keep (bytecode b p m) more h q =
        pool_blocks-keep p (own_block d m more) h.1 (step m more (h.3, h.4) q)

    args_blocks-keep :
        (count : ℕ) (args : Chunks) (more : List (List DebugRange))
        → EncodableArgs d count args
        → P more
        → P (args_blocks d args more)
    args_blocks-keep zero no_args more h p = p
    args_blocks-keep zero (arg code args) more h p = absurd h
    args_blocks-keep (suc count) no_args more h p = p
    args_blocks-keep (suc count) (arg code args) more h p =
        chunk_blocks-keep code (args_blocks d args more) h.0
          (args_blocks-keep count args more h.1 p)

    pool_blocks-keep :
        (p : Pool) (more : List (List DebugRange))
        → EncodablePool d p
        → P more
        → P (pool_blocks d p more)
    pool_blocks-keep Pool.nil more h q = q
    pool_blocks-keep (Pool.cons obj p) more h q =
        object_blocks-keep obj (pool_blocks d p more) h.0 (pool_blocks-keep p more h.1 q)

-- A reader of one file takes no block from `data`.
pub chunk_blocks-combined :
    (code : ByteCode) (more : List (List DebugRange))
    → EncodableChunk combined code
    → chunk_blocks combined code more ≡ more
chunk_blocks-combined code more h =
    chunk_blocks-keep combined (λ l. l ≡ more) (λ m l f e. e) code more h refl

pub chunk_blocks-stripped :
    (code : ByteCode) (more : List (List DebugRange))
    → EncodableChunk stripped code
    → chunk_blocks stripped code more ≡ more
chunk_blocks-stripped code more h =
    chunk_blocks-keep stripped (λ l. l ≡ more) (λ m l f e. e) code more h refl

pub chunk_blocks-FitsBlock :
    (code : ByteCode) → EncodableChunk separate code → All FitsBlock (chunk_blocks separate code [])
chunk_blocks-FitsBlock code h =
    chunk_blocks-keep separate (All FitsBlock) (λ m l f p. (f, p)) code [] h tt

abbrev pub NonEmpty : List (List DebugRange) → Type 0
NonEmpty [] = ⊥
NonEmpty (m ∷ blocks) = Unit

-- A block for the code itself.
pub chunk_blocks-NonEmpty :
    (code : ByteCode) → EncodableChunk separate code → NonEmpty (chunk_blocks separate code [])
unfolding object_blocks Encodable
chunk_blocks-NonEmpty (bytecode b p m) h =
    pool_blocks-keep separate NonEmpty (λ m l f q. tt) p (m ∷ []) h.1 tt
