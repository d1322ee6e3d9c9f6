-- ===== src/Serial/CacheFile.antt =====
-- src/options.cpp: `optionCacheBytecode`, which writes byte code to a file, and `readByteCode`, which
-- loads it.
use choice_lang.Prelude.{
  ℕ, zero, suc, ◌+◌, ◌*◌, ◌^◌, ◌≤◌, ◌<◌, ◌≡◌, refl, sym, ap, ◌∙◌, Bool, true, false, Option, none,
  some, List, [], ◌∷◌, ◌++◌, length, arith, length-append, append_assoc, append-nil, lt→ltb, All,
  inl, inr, Option-cases, if◌then◌else◌, ◌==◌,
}
use choice_lang.Object.{ByteCode, DebugRange}
use choice_lang.Serial.{
  DebugInfoState, combined, separate, stripped, encode_value, encode_block, encode_headers,
  emit_chunk, emit_name, magic, version, state_byte,
}
use choice_lang.Serial.Reader.{
  Reader, Read, done, failed, Action, ◌>>=◌, ◌>>◌, bind_done, then_done, pure, read_headers,
  read_magic, read_version_num, read_value, read_bytes, read_name, read_words, read_line_markers,
  reconstruct_byte_code, is_empty, read_metadata, read_cache, read_cache_metadata,
}
use choice_lang.Serial.Values.{
  reader, read_value-encode, read_bytes-front, read_byte-front, read_name-emit,
}
use choice_lang.Serial.Parts.{done_at, reader_for, read_metadata_block-encode}
use choice_lang.Serial.Encodable.{EncodableChunk, chunk_blocks, visible_chunk}
use choice_lang.Serial.Blocks.{
  FitsBlock, NonEmpty, chunk_blocks-combined, chunk_blocks-stripped, chunk_blocks-FitsBlock,
  chunk_blocks-NonEmpty,
}
use choice_lang.Serial.Sizes.{length-encode_block}
use choice_lang.Serial.DebugFile.{encode_metadata, encode_metadata-file, file_of}
use choice_lang.Serial.RoundTrip.{chunk_back}

unfoldable pub encode_words : List ℕ → List ℕ
encode_words [] = []
encode_words (w ∷ ws) = encode_value 8 w ++ encode_words ws

abbrev pub encode_line_markers : List ℕ → List ℕ
encode_line_markers markers = encode_value 8 (length markers) ++ encode_words markers

abbrev pub combined_markers : DebugInfoState → List ℕ → List ℕ
combined_markers combined markers = encode_line_markers markers
combined_markers _ markers = []

-- The file of the code.
unfoldable pub cache_file : DebugInfoState → List ℕ → List ℕ → ByteCode → List ℕ
cache_file d file_name markers code =
    encode_headers d file_name ++ (combined_markers d markers ++ emit_chunk d code)

abbrev markers_then : List ℕ → Option (List ℕ) → Option (List ℕ)
markers_then markers none = none
markers_then markers (some blocks) = some (encode_line_markers markers ++ blocks)

-- The file of the debug information, where it is kept apart from the code.
unfoldable pub debug_file : DebugInfoState → List ℕ → ByteCode → Option (List ℕ)
debug_file separate markers code = markers_then markers (encode_metadata code)
debug_file _ markers code = some []

-- Any byte but those of the last two states is read as the first.
abbrev pub state_of : ℕ → DebugInfoState
state_of b = if b == 2 then stripped else if b == 1 then separate else combined

abbrev pub code_reader : List ℕ → Reader
code_reader bytes = reader false false [] 0 bytes

-- The other file has a reader of its own.
abbrev pub return_to {ℓ} : {A : Type ℓ} → Reader → Read A → Read A
return_to s (done a t) = done a s
return_to s (failed e) = failed e

abbrev pub aside {ℓ} : {A : Type ℓ} → List ℕ → Action A → Action A
aside bytes m s = return_to s (m (code_reader bytes))

abbrev pub read_debug_file : ℕ → Action (List ℕ × List (List DebugRange))
read_debug_file fuel = do
  markers ← read_line_markers
  blocks ← read_metadata fuel
  pure (markers, blocks)

abbrev pub read_code : DebugInfoState → List ℕ → Action (List ℕ × ByteCode)
read_code stripped debug = do code ← read_cache; pure ([], code)
read_code separate debug = do
  info ← aside debug (read_debug_file (length debug + 1))
  code ← read_cache_metadata info.1
  pure (info.0, code)
read_code combined debug = do
  markers ← read_line_markers
  code ← read_cache_metadata []
  pure (markers, code)

-- The name of the source file, its line markers and the code.
unfoldable pub read_byte_code : List ℕ → Action (List ℕ × (List ℕ × ByteCode))
read_byte_code debug = do
  read_headers
  state ← read_value 1
  file_name ← read_name
  result ← read_code (state_of state) debug
  pure (file_name, result)

module _ {e c : Bool} {ms : List (List DebugRange)} where
  read_words-encode :
      (ws : List ℕ) (it : ℕ) (rest : List ℕ)
      → All (λ w. w < 2 ^ 64) ws
      → read_words (length ws) (reader e c ms it (encode_words ws ++ rest))
        ≡ done ws (reader e c ms (it + length ws * 8) rest)
  unfolding read_words encode_words
  read_words-encode [] it rest h = done_at [] it _ rest (omega arith)
  read_words-encode (w ∷ ws) it rest h = rw append_assoc (
      bind_done _ _ (read_value-encode 8 w it _ h.0 h.0)
      ∙ bind_done _ _ (read_words-encode ws (it + 8) rest h.1)
      ∙ done_at (w ∷ ws) _ _ rest (omega arith))

  read_line_markers-encode :
      (ws : List ℕ) (it : ℕ) (rest : List ℕ)
      → length ws < 2 ^ 64
      → All (λ w. w < 2 ^ 64) ws
      → read_line_markers (reader e c ms it (encode_line_markers ws ++ rest))
        ≡ done ws (reader e c ms (it + 8 + length ws * 8) rest)
  unfolding read_line_markers
  read_line_markers-encode ws it rest h all = rw append_assoc (
      bind_done _ _ (read_value-encode 8 (length ws) it _ h h)
      ∙ read_words-encode ws (it + 8) rest all)

  read_headers-magic :
      (it : ℕ) (rest : List ℕ)
      → read_headers (reader e c ms it (magic ++ (version ++ rest)))
        ≡ done tt (reader e c ms (it + 9) rest)
  unfolding read_headers read_magic read_version_num
  read_headers-magic it rest =
      then_done _ _ (bind_done (read_bytes 6) _ (read_bytes-front magic it (version ++ rest)))
      ∙ bind_done (read_bytes 3) _ (read_bytes-front version (it + 6) rest)
      ∙ done_at tt (it + 6 + 3) (it + 9) rest (omega arith)

  -- A block takes at least its size.
  read_metadata-file :
      (n : ℕ) (blocks : List (List DebugRange)) (it : ℕ)
      → All FitsBlock blocks
      → length (file_of blocks) < n
      → (j : ℕ) × (read_metadata n (reader e c ms it (file_of blocks))
          ≡ done blocks (reader e c ms j []))
  unfolding read_metadata file_of
  read_metadata-file zero blocks it h k = absurd (omega arith)
  read_metadata-file (suc n) [] it h k = (it, refl)
  read_metadata-file (suc n) (m ∷ blocks) it h k =
      let size = length-encode_block m in
      let len = length-append (encode_block m) (file_of blocks) in
      let (j, e) = read_metadata-file n blocks (it + length (encode_block m)) h.1 (omega arith) in
      (
        j,
        rw (lt→ltb 0 (length (encode_block m ++ file_of blocks)) (omega arith))
            (bind_done _ _ (read_metadata_block-encode m it _ h.0.0 h.0.1) ∙ bind_done _ _ e),
      )

-- The code at the end of a file.
code_last :
    (d : DebugInfoState) (n it : ℕ) (code : ByteCode) (blocks : List (List DebugRange))
    → EncodableChunk d code
    → length (emit_chunk d code) + 2 ≤ n
    → chunk_blocks d code [] ≡ blocks
    → reconstruct_byte_code n (reader_for d blocks it (emit_chunk d code))
      ≡ done (visible_chunk d code) (reader_for d [] (it + length (emit_chunk d code)) [])
code_last d n it code blocks h k e =
    ap (λ l. reconstruct_byte_code n (reader_for d blocks it l)) (sym (append-nil _))
    ∙ ap (λ l. reconstruct_byte_code n (reader_for d l it (emit_chunk d code ++ []))) (sym e)
    ∙ chunk_back d n it code [] [] h k

is_empty-NonEmpty : (blocks : List (List DebugRange)) → NonEmpty blocks → is_empty blocks ≡ false
is_empty-NonEmpty [] h = absurd h
is_empty-NonEmpty (m ∷ blocks) h = refl

read_cache_metadata-separate :
    (code : ByteCode) (it : ℕ)
    → EncodableChunk separate code
    → read_cache_metadata
        (chunk_blocks separate code [])
        (reader false false [] it (emit_chunk separate code))
      ≡ done
          (visible_chunk separate code)
          (reader_for separate [] (it + length (emit_chunk separate code)) [])
read_cache_metadata-separate code it h =
    let blocks = chunk_blocks separate code [] in
    let bytes = emit_chunk separate code in
    ap (λ b. reconstruct_byte_code (length bytes + 3) (reader true b blocks it bytes))
      (is_empty-NonEmpty blocks (chunk_blocks-NonEmpty code h))
    ∙ code_last separate (length bytes + 3) it code blocks h (omega arith) refl

read_debug_file-front :
    (n : ℕ) (markers : List ℕ) (blocks : List (List DebugRange))
    → length markers < 2 ^ 64
    → All (λ w. w < 2 ^ 64) markers
    → All FitsBlock blocks
    → length (file_of blocks) < n
    → (t : Reader) × (read_debug_file n
          (code_reader (encode_line_markers markers ++ file_of blocks))
        ≡ done (markers, blocks) t)
read_debug_file-front n markers blocks k all fit less =
    let i = 0 + 8 + length markers * 8 in
    let (j, e) = read_metadata-file n blocks i fit less in
    (
      reader false false [] j [],
      bind_done _ _ (read_line_markers-encode markers 0 (file_of blocks) k all) ∙ bind_done _ _ e,
    )

read_debug_file-back :
    (markers bytes : List ℕ) (code : ByteCode)
    → EncodableChunk separate code
    → length markers < 2 ^ 64
    → All (λ w. w < 2 ^ 64) markers
    → debug_file separate markers code ≡ some bytes
    → (t : Reader) × (read_debug_file (length bytes + 1) (code_reader bytes)
        ≡ done (markers, chunk_blocks separate code []) t)
unfolding debug_file file_of
read_debug_file-back markers bytes code h k all e = elim (Option-cases (encode_metadata code)) [
  | inl undefined_call ↦ absurd (ground arith)
  | inr (bs, eb) ↦
      let blocks = chunk_blocks separate code [] in
      let file : file_of blocks ≡ bs = encode_metadata-file code bs [] h eb ∙ append-nil bs in
      let whole : encode_line_markers markers ++ bs ≡ bytes = ground arith in
      let len = length-append (encode_line_markers markers) bs in
      let path : encode_line_markers markers ++ file_of blocks ≡ bytes =
        ap (λ l. encode_line_markers markers ++ l) file ∙ whole in
      let size : length (encode_line_markers markers ++ bs) ≡ length bytes = ap length whole in
      let size' : length (file_of blocks) ≡ length bs = ap length file in
      let (t, read) =
        read_debug_file-front (length bytes + 1) markers blocks k all
          (chunk_blocks-FitsBlock code h) (omega arith) in
      (t, ap (λ l. read_debug_file (length bytes + 1) (code_reader l)) (sym path) ∙ read)
]

state_of-state_byte : (d : DebugInfoState) → state_of (state_byte d) ≡ d
state_of-state_byte combined = refl
state_of-state_byte separate = refl
state_of-state_byte stripped = refl

read_state :
    (d : DebugInfoState) (it : ℕ) (rest : List ℕ)
    → read_value 1 (reader false false [] it (state_byte d ∷ rest))
      ≡ done (state_byte d) (reader false false [] (it + 1) rest)
read_state combined it rest = read_byte-front 0 it rest (omega arith)
read_state separate it rest = read_byte-front 1 it rest (omega arith)
read_state stripped it rest = read_byte-front 2 it rest (omega arith)

-- The headers, whatever follows.
read_byte_code-headers :
    (d : DebugInfoState) (file_name more debug : List ℕ)
    → length file_name < 256
    → read_byte_code debug (code_reader (encode_headers d file_name ++ more))
      ≡ (read_code d debug >>= (λ result. pure (file_name, result)))
          (reader false false [] (9 + 1 + 1 + length file_name) more)
unfolding read_byte_code
read_byte_code-headers d file_name more debug h =
    then_done _ _ (read_headers-magic 0 (state_byte d ∷ (emit_name file_name ++ more)))
    ∙ bind_done _ _ (read_state d 9 (emit_name file_name ++ more))
    ∙ bind_done read_name _ (read_name-emit file_name (9 + 1) more h)
    ∙ ap
        (λ state.
          (read_code state debug >>= (λ result. pure (file_name, result)))
            (reader false false [] (9 + 1 + 1 + length file_name) more))
        (state_of-state_byte d)

abbrev pub visible_markers : DebugInfoState → List ℕ → List ℕ
visible_markers stripped markers = []
visible_markers _ markers = markers

pub read_byte_code-cache_file :
    (d : DebugInfoState) (file_name markers debug : List ℕ) (code : ByteCode)
    → EncodableChunk d code
    → length file_name < 256
    → length markers < 2 ^ 64
    → All (λ w. w < 2 ^ 64) markers
    → debug_file d markers code ≡ some debug
    → (t : Reader) × (read_byte_code debug (code_reader (cache_file d file_name markers code))
        ≡ done (file_name, (visible_markers d markers, visible_chunk d code)) t)
unfolding read_byte_code cache_file
read_byte_code-cache_file combined file_name markers debug code h n k all e =
    let bytes = emit_chunk combined code in
    let i = 9 + 1 + 1 + length file_name in
    (
      _,
      read_byte_code-headers combined file_name (encode_line_markers markers ++ bytes) debug n
          ∙ bind_done _ _ (
              bind_done _ _ (read_line_markers-encode markers i bytes k all)
              ∙ bind_done (read_cache_metadata []) _ (
                  code_last combined (length bytes + 3) (i + 8 + length markers * 8) code [] h
                    (omega arith) (chunk_blocks-combined code [] h))),
    )
read_byte_code-cache_file separate file_name markers debug code h n k all e =
    let bytes = emit_chunk separate code in
    let i = 9 + 1 + 1 + length file_name in
    let (t, info) = read_debug_file-back markers debug code h k all e in
    (
      _,
      read_byte_code-headers separate file_name bytes debug n
          ∙ bind_done _ _ (
              bind_done (aside debug (read_debug_file (length debug + 1))) _
                (ap (return_to (reader false false [] i bytes)) info)
              ∙ bind_done _ _ (read_cache_metadata-separate code i h)),
    )
read_byte_code-cache_file stripped file_name markers debug code h n k all e =
    let bytes = emit_chunk stripped code in
    let i = 9 + 1 + 1 + length file_name in
    (
      _,
      read_byte_code-headers stripped file_name bytes debug n
          ∙ bind_done _ _ (
              bind_done read_cache _ (
                code_last stripped (length bytes + 3) i code [] h (omega arith)
                  (chunk_blocks-stripped code [] h))),
    )
