-- ===== src/Tests/SerialTests.antt =====
-- Runs of the writers and readers of byte code.
use choice_lang.Prelude.{◌%◌, ◌^◌, ◌≡◌, ◌≢◌, refl, false, none, some, [], ◌∷◌, ◌++◌, length, arith}
use choice_lang.Object.{
  Object, int, text, user_func, function, ByteCode, bytecode, Pool, no_args, arg, DebugRange,
}
use choice_lang.Serial.{
  combined, stripped, emit, emit_name, object_size, payload, encode_value, encode_data,
  encode_block, encode_ranges,
}
use choice_lang.Serial.Sorting.{sort_metadata, is_ordered, precedes}
use choice_lang.Serial.Sorted.{sort_metadata-again}
use choice_lang.Serial.Encodable.{Encodable, EncodableChunk, visible_chunk}
use choice_lang.Serial.Reader.{Reader, done, failed, out_of_fuel, read_name}
use choice_lang.Serial.Values.{reader, read_name-any_length}
use choice_lang.Serial.Sizes.{object_size-emit}
use choice_lang.Serial.DebugFile.{encode_metadata}
use choice_lang.Serial.CacheFile.{
  cache_file, debug_file, read_byte_code, visible_markers, code_reader, read_byte_code-cache_file,
}
use choice_lang.Serial.Ends.{read_byte_code-ends}

abbrev one_range : DebugRange
one_range = record { byte_start = 0; byte_end = 2; source_start = 5; source_end = 9 }

-- `func f(a = 1)`, in an outer code with a number and a string.
abbrev inner : ByteCode
inner = bytecode (7 ∷ []) Pool.nil (one_range ∷ [])

abbrev func_f : Object
func_f = user_func (function (some (102 ∷ [])) 0 1 false inner (arg inner no_args))

abbrev outer : ByteCode
outer = bytecode (1 ∷ 2 ∷ []) (Pool.cons (int 300) (Pool.cons func_f Pool.nil)) (one_range ∷ [])

emit_int : emit stripped (int 258) ≡ 0 ∷ 0 ∷ 0 ∷ 0 ∷ 0 ∷ 0 ∷ 0 ∷ 1 ∷ 2 ∷ []
unfolding payload encode_value
emit_int = refl

size_text : object_size stripped (text (97 ∷ 98 ∷ [])) ≡ 11
unfolding object_size
size_text = refl

one_range_sorted : sort_metadata (one_range ∷ []) ≡ some (one_range ∷ [])
unfolding sort_metadata is_ordered precedes
one_range_sorted = refl

inner-Encodable : EncodableChunk combined inner
unfolding Encodable payload
inner-Encodable = (omega arith, tt, omega arith, omega arith, omega arith, one_range_sorted)

func_f-Encodable : Encodable combined func_f
unfolding Encodable
func_f-Encodable = (omega arith, omega arith, omega arith, inner-Encodable, (inner-Encodable, tt))

outer-Encodable : EncodableChunk combined outer
unfolding Encodable payload encode_value encode_data encode_block encode_ranges object_size
outer-Encodable = (
  omega arith,
  (omega arith, (func_f-Encodable, tt)),
  omega arith,
  omega arith,
  omega arith,
  one_range_sorted,
)

object_size-emit_example : object_size combined func_f ≡ length (emit combined func_f) % 2 ^ 64
object_size-emit_example = object_size-emit combined func_f func_f-Encodable

read_byte_code-cache_file_example :
    (t : Reader) × (read_byte_code []
        (code_reader (cache_file combined (109 ∷ []) (0 ∷ 12 ∷ []) outer))
      ≡ done (109 ∷ [], (visible_markers combined (0 ∷ 12 ∷ []), visible_chunk combined outer)) t)
unfolding debug_file
read_byte_code-cache_file_example =
    read_byte_code-cache_file combined (109 ∷ []) (0 ∷ 12 ∷ []) [] outer outer-Encodable
      (omega arith) (omega arith) (omega arith, (omega arith, tt)) refl

read_byte_code-ends_example :
    read_byte_code [] (code_reader (99 ∷ 104 ∷ 111 ∷ 105 ∷ 99 ∷ 101 ∷ [])) ≢ failed out_of_fuel
read_byte_code-ends_example = read_byte_code-ends [] (99 ∷ 104 ∷ 111 ∷ 105 ∷ 99 ∷ 101 ∷ [])

-- The metadata of a number is read through a pointer to a function.
metadata_of_number :
    encode_metadata (bytecode (1 ∷ []) (Pool.cons (int 300) Pool.nil) (one_range ∷ [])) ≡ none
unfolding encode_metadata
metadata_of_number = refl

read_name-any_length_example :
    read_name (reader false false [] 0 (emit_name (97 ∷ 98 ∷ []) ++ (99 ∷ [])))
    ≡ done (97 ∷ 98 ∷ []) (reader false false [] 3 (99 ∷ []))
read_name-any_length_example = read_name-any_length false false [] 0 (97 ∷ 98 ∷ []) (99 ∷ [])

-- An expression whose code is empty precedes itself.
empty_range : sort_metadata (record one_range { byte_end = 0 } ∷ []) ≡ none
unfolding sort_metadata is_ordered precedes
empty_range = refl

-- The range of an operand in front of that of its expression.
abbrev whole_range : DebugRange
whole_range = record { byte_start = 0; byte_end = 7; source_start = 5; source_end = 20 }

operand_first :
    sort_metadata (whole_range ∷ one_range ∷ whole_range ∷ []) ≡ some (one_range ∷ whole_range ∷ [])
unfolding sort_metadata is_ordered precedes
operand_first = refl

sort_metadata-again_example :
    sort_metadata (one_range ∷ whole_range ∷ []) ≡ some (one_range ∷ whole_range ∷ [])
sort_metadata-again_example =
    sort_metadata-again (whole_range ∷ one_range ∷ whole_range ∷ []) (one_range ∷ whole_range ∷ [])
      operand_first
