-- ===== src/Serial/Parts.antt =====
-- src/bytes.cpp: the readers of fields, types and metadata against their writers.
use choice_lang.Prelude.{
  ℕ, ◌+◌, ◌*◌, ◌^◌, ◌<◌, ◌≡◌, some, ap, ◌∙◌, Bool, true, false, List, [], ◌∷◌, ◌++◌, length, drop,
  arith, All, length-append, append_assoc, drop-append,
}
use choice_lang.Object.{user_type, DebugRange, Field}
use choice_lang.Serial.{
  DebugInfoState, combined, separate, stripped, encode_value, emit_fields, emit_type, encode_ranges,
  encode_block, combined_block,
}
use choice_lang.Serial.Reader.{
  Reader, done, bind_done, read_fields, read_name, read_bool, reconstruct_type, move_over,
  read_range, read_ranges, read_metadata_block, read_debug_metadata, match_debug_metadata,
  debug_metadata,
}
use choice_lang.Serial.Values.{
  reader, read_value-encode, read_byte-front, read_bool-byte, read_name-emit,
}
use choice_lang.Serial.Sizes.{length-encode_block}
use choice_lang.Serial.Sorting.{sort_metadata}
use choice_lang.Serial.Encodable.{IsRange, IsSorted, visible_ranges, own_block}

module _ {e c : Bool} {ms : List (List DebugRange)} where
  -- A position may be written in two ways.
  pub done_at {ℓ} :
      {A : Type ℓ} (a : A) (i j : ℕ) (rest : List ℕ)
      → i ≡ j
      → done a (reader e c ms i rest) ≡ done a (reader e c ms j rest)
  done_at a i j rest p = ap (λ k. done a (reader e c ms k rest)) p

  pub read_fields-emit :
      (fields : List Field) (it : ℕ) (rest : List ℕ)
      → All (λ f. length f.name < 256) fields
      → read_fields (length fields) (reader e c ms it (emit_fields fields ++ rest))
        ≡ done fields (reader e c ms (it + length (emit_fields fields)) rest)
  unfolding read_fields emit_fields
  read_fields-emit [] it rest h = done_at [] it (it + 0) rest (omega arith)
  read_fields-emit (f ∷ fields) it rest h =
      let i = it + 1 + length f.name in
      rw append_assoc (
        bind_done read_name _ (read_name-emit f.name it _ h.0)
        ∙ bind_done read_bool _ (read_bool-byte f.fixed i _)
        ∙ bind_done read_bool _ (read_bool-byte f.access (i + 1) _)
        ∙ bind_done _ _ (read_fields-emit fields (i + 1 + 1) rest h.1)
        ∙ done_at (f ∷ fields) _ _ rest
            (omega (arith, length-append f.name (_ ∷ _ ∷ emit_fields fields))))

  pub reconstruct_type-emit :
      (name : List ℕ) (fields : List Field) (it : ℕ) (rest : List ℕ)
      → length name < 256
      → length fields < 256
      → All (λ f. length f.name < 256) fields
      → reconstruct_type (reader e c ms it (emit_type name fields ++ rest))
        ≡ done (user_type name fields) (reader e c ms (it + length (emit_type name fields)) rest)
  unfolding reconstruct_type
  reconstruct_type-emit name fields it rest h k all =
      let i = it + 1 + length name in
      rw append_assoc (
        bind_done read_name _ (read_name-emit name it _ h)
        ∙ bind_done _ _ (read_byte-front (length fields) i _ k)
        ∙ bind_done _ _ (read_fields-emit fields (i + 1) rest all)
        ∙ done_at (user_type name fields) _ _ rest
            (omega (arith, length-append name (_ ∷ emit_fields fields))))

  read_range-encode :
      (r : DebugRange) (it : ℕ) (rest : List ℕ)
      → IsRange r
      → read_range (
          reader e c ms it (
            encode_value 8 r.byte_start
            ++ (encode_value 8 r.byte_end
                ++ (encode_value 8 r.source_start ++ (encode_value 8 r.source_end ++ rest)))))
        ≡ done r (reader e c ms (it + 32) rest)
  unfolding read_range
  read_range-encode r it rest h =
      bind_done _ _ (read_value-encode 8 r.byte_start it _ h.0 h.0)
      ∙ bind_done _ _ (read_value-encode 8 r.byte_end (it + 8) _ h.1 h.1)
      ∙ bind_done _ _ (read_value-encode 8 r.source_start (it + 8 + 8) _ h.2 h.2)
      ∙ bind_done _ _ (read_value-encode 8 r.source_end (it + 8 + 8 + 8) _ h.3 h.3)
      ∙ done_at r (it + 8 + 8 + 8 + 8) (it + 32) rest (omega arith)

  read_ranges-encode :
      (m : List DebugRange) (it : ℕ) (rest : List ℕ)
      → All IsRange m
      → read_ranges (length m) (reader e c ms it (encode_ranges m ++ rest))
        ≡ done m (reader e c ms (it + length m * 32) rest)
  unfolding read_ranges encode_ranges
  read_ranges-encode [] it rest h = done_at [] it (it + 0 * 32) rest (omega arith)
  read_ranges-encode (r ∷ m) it rest h =
      rw (append_assoc, append_assoc, append_assoc, append_assoc)
        (bind_done _ _ (read_range-encode r it _ h.0)
          ∙ bind_done _ _ (read_ranges-encode m (it + 32) rest h.1)
          ∙ done_at (r ∷ m) _ _ rest (omega arith))

  pub read_metadata_block-encode :
      (m : List DebugRange) (it : ℕ) (rest : List ℕ)
      → length m < 2 ^ 64
      → All IsRange m
      → read_metadata_block (reader e c ms it (encode_block m ++ rest))
        ≡ done m (reader e c ms (it + length (encode_block m)) rest)
  unfolding read_metadata_block encode_block
  read_metadata_block-encode m it rest h all = rw append_assoc (
      bind_done _ _ (read_value-encode 8 (length m) it _ h h)
      ∙ read_ranges-encode m (it + 8) rest all
      ∙ done_at m _ _ rest (omega (arith, length-encode_block m)))

  read_debug_metadata-encode :
      (m : List DebugRange) (it : ℕ) (rest : List ℕ)
      → length m < 2 ^ 64
      → All IsRange m
      → sort_metadata m ≡ some m
      → read_debug_metadata (reader e c ms it (encode_block m ++ rest))
        ≡ done m (reader e c ms (it + length (encode_block m)) rest)
  unfolding read_debug_metadata
  read_debug_metadata-encode m it rest h all order =
      let len = length-encode_block m in
      let left : drop (length m * 32 + 8) (encode_block m ++ rest) ≡ rest =
        rw (← len) (drop-append (encode_block m) rest) in
      ap (move_over (reader e c ms it (encode_block m ++ rest)))
        (read_metadata_block-encode m it rest h all)
      ∙ rw (order, left) (done_at m (it + (length m * 32 + 8)) _ rest (omega (arith, len)))

-- The flags of a reader for each state of the debug information.
abbrev pub info_exists : DebugInfoState → Bool
info_exists stripped = false
info_exists _ = true

abbrev pub info_combined : DebugInfoState → Bool
info_combined combined = true
info_combined _ = false

abbrev pub reader_for : DebugInfoState → List (List DebugRange) → ℕ → List ℕ → Reader
reader_for d ms it rest = reader (info_exists d) (info_combined d) ms it rest

pub debug_metadata-back :
    (d : DebugInfoState) (m : List DebugRange) (more : List (List DebugRange)) (it : ℕ)
    (rest : List ℕ)
    → length m < 2 ^ 64
    → All IsRange m
    → IsSorted d m
    → debug_metadata (reader_for d (own_block d m more) it (combined_block d m ++ rest))
      ≡ done (visible_ranges d m) (reader_for d more (it + length (combined_block d m)) rest)
unfolding debug_metadata match_debug_metadata
debug_metadata-back combined m more it rest h all order =
    read_debug_metadata-encode m it rest h all order
debug_metadata-back separate m more it rest h all order =
    rw order (done_at m it (it + 0) rest (omega arith))
debug_metadata-back stripped m more it rest h all order = done_at [] it (it + 0) rest (omega arith)
