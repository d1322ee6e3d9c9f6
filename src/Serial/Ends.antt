-- ===== src/Serial/Ends.antt =====
-- src/options.cpp and src/bytes.cpp: loading a file comes to an end, whatever the file holds.
use choice_lang.Prelude.{
  ℕ, zero, suc, ◌+◌, ◌<◌, ◌≢◌, Bool, true, false, List, [], length, ltb, arith, same,
}
use choice_lang.Object.{DebugRange}
use choice_lang.Serial.{DebugInfoState, combined, separate, stripped, magic}
use choice_lang.Serial.Reader.{
  Reader, Read, done, failed, out_of_fuel, Action, ◌>>=◌, ◌>>◌, read_bytes, read_name,
  reconstruct_byte_code, is_empty, read_cache, read_cache_metadata, read_magic, major_matches,
  read_version_num, read_headers, read_words, read_line_markers, read_metadata, read_metadata_block,
}
use choice_lang.Serial.CacheFile.{
  return_to, aside, read_debug_file, read_code, read_byte_code, state_of, code_reader,
}
use choice_lang.Serial.Progress.{
  Reads, choose, follow, after, value, nothing, fewer, if_reads, read_bytes-reads, read_name-reads,
  read_metadata_block-reads, reconstruct_byte_code-reads,
}

read_words-reads : (n : ℕ) (s : Reader) → Reads 0 (length s.rest) (read_words n s)
unfolding read_words
read_words-reads zero s = nothing s
read_words-reads (suc n) s =
    value 8 _ s (λ w t. follow (read_words n) _ t (read_words-reads n t) (λ ws u e. nothing u))

read_line_markers-reads : (s : Reader) → Reads 0 (length s.rest) (read_line_markers s)
unfolding read_line_markers
read_line_markers-reads s = value 8 read_words s read_words-reads

read_metadata-reads :
    (n : ℕ) (s : Reader) → length s.rest < n → Reads 0 (length s.rest) (read_metadata n s)
unfolding read_metadata
read_metadata-reads zero s h = absurd (omega arith)
read_metadata-reads (suc n) s h =
    if_reads 0 (length s.rest) (ltb 0 (length s.rest)) _ _
      (λ _. after 8 read_metadata_block _ s (read_metadata_block-reads s) (λ m t e.
        follow (read_metadata n) _ t (read_metadata-reads n t (omega arith)) (λ ms u f. nothing u)))
      (λ _. nothing s)

-- With the flags and blocks that `readCache` sets.
code-reads :
    (e c : Bool) (ms : List (List DebugRange)) (s : Reader)
    → Reads 0 (length s.rest) (
        reconstruct_byte_code
          (length s.rest + 3)
          (record s { debug_info_exists = e; debug_info_combined = c; blocks = ms }))
code-reads e c ms s =
    let t = record s { debug_info_exists = e; debug_info_combined = c; blocks = ms } in
    fewer 16 (length s.rest) (reconstruct_byte_code (length s.rest + 3) t)
      (reconstruct_byte_code-reads (length s.rest + 3) t (omega arith))

read_debug_file-reads :
    (bytes : List ℕ)
    → Reads 0 (length bytes) (read_debug_file (length bytes + 1) (code_reader bytes))
read_debug_file-reads bytes =
    follow read_line_markers _ (code_reader bytes) (read_line_markers-reads (code_reader bytes))
      (λ markers t e.
        follow (read_metadata (length bytes + 1)) _ t
          (read_metadata-reads (length bytes + 1) t (omega arith)) (λ ms u f. nothing u))

return_to-reads {ℓ} :
    {A : Type ℓ} (size : ℕ) (s : Reader) (r : Read A)
    → Reads 0 size r
    → Reads 0 (length s.rest) (return_to s r)
return_to-reads size s (done a t) h = nothing s
return_to-reads size s (failed e) h = h

read_code-reads :
    (d : DebugInfoState) (debug : List ℕ) (s : Reader)
    → Reads 0 (length s.rest) (read_code d debug s)
read_code-reads stripped debug s =
    follow read_cache _ s (code-reads false false s.blocks s) (λ code t e. nothing t)
read_code-reads separate debug s =
    follow (aside debug (read_debug_file (length debug + 1))) _ s
      (return_to-reads (length debug) s _ (read_debug_file-reads debug))
      (λ info t e.
        follow (read_cache_metadata info.1) _ t (code-reads true (is_empty info.1) info.1 t)
          (λ code u f. nothing u))
read_code-reads combined debug s =
    follow read_line_markers _ s (read_line_markers-reads s) (λ markers t e.
      follow (read_cache_metadata []) _ t (code-reads true true [] t) (λ code u f. nothing u))

then_reads {ℓ κ} :
    {A : Type ℓ} {B : Type κ} (m : Action A) (k : Action B) (s : Reader)
    → Reads 0 (length s.rest) (m s)
    → ((t : Reader) → Reads 0 (length t.rest) (k t))
    → Reads 0 (length s.rest) ((m >> k) s)
unfolding ◌>>=◌ ◌>>◌
then_reads m k s h g = follow m (λ _. k) s h (λ a t e. g t)

read_magic-reads : (s : Reader) → Reads 0 (length s.rest) (read_magic s)
unfolding read_magic
read_magic-reads s =
    follow (read_bytes 6) _ s (fewer 6 _ _ (read_bytes-reads 6 s))
      (λ bytes t e. choose (same bytes magic) _ _ t (nothing t) tt)

read_version_num-reads : (s : Reader) → Reads 0 (length s.rest) (read_version_num s)
unfolding read_version_num
read_version_num-reads s =
    follow (read_bytes 3) _ s (fewer 3 _ _ (read_bytes-reads 3 s))
      (λ num t e. choose (major_matches num) _ _ t (nothing t) tt)

read_headers-reads : (s : Reader) → Reads 0 (length s.rest) (read_headers s)
unfolding read_headers
read_headers-reads s =
    then_reads read_magic read_version_num s (read_magic-reads s) read_version_num-reads

read_byte_code-reads :
    (debug : List ℕ) (s : Reader) → Reads 0 (length s.rest) (read_byte_code debug s)
unfolding read_byte_code
read_byte_code-reads debug s = then_reads read_headers _ s (read_headers-reads s) (λ t.
    value 1 _ t (λ state u. follow read_name _ u (fewer 1 _ _ (read_name-reads u)) (λ name v e.
      follow (read_code (state_of state) debug) _ v (read_code-reads (state_of state) debug v)
        (λ result w f. nothing w))))

not_fuel {ℓ} : {A : Type ℓ} (size : ℕ) (r : Read A) → Reads 0 size r → r ≢ failed out_of_fuel
not_fuel size r h e = rw e at h

pub read_byte_code-ends :
    (debug bytes : List ℕ) → read_byte_code debug (code_reader bytes) ≢ failed out_of_fuel
read_byte_code-ends debug bytes =
    not_fuel (length bytes) _ (read_byte_code-reads debug (code_reader bytes))
