-- ===== src/Serial/Progress.antt =====
-- src/bytes.cpp and src/options.cpp: on every file, also a damaged one, the readers come to an end.
use choice_lang.Prelude.{
  ℕ, zero, suc, ◌+◌, ◌*◌, ◌≤◌, ◌≡◌, refl, Bool, true, false, List, [], ◌∷◌, length, ltb, leb,
  leb→le, Option, none, some, if◌then◌else◌, ◌==◌, ◌||◌, arith, length-drop,
}
use choice_lang.Object.{DebugRange}
use choice_lang.Serial.{
  default_count, type_int, type_dec, type_bool, type_null, type_module, type_user_type, type_text,
  type_string,
}
use choice_lang.Serial.Sorting.{sort_metadata}
use choice_lang.Serial.Reader.{
  Reader, Read, done, failed, Failure, undefined, out_of_fuel, Action, continue, ◌>>=◌, read_value,
  read_bytes, skip_byte, read_bool, read_name, read_string, read_fields, reconstruct_type,
  read_range, read_ranges, read_metadata_block, advance, sorted_at, move_over, read_debug_metadata,
  next_block, match_debug_metadata, debug_metadata, reconstruct_plain, is_func_type,
  reconstruct_pool, reconstruct_object, reconstruct_func, reconstruct_byte_code, reconstruct_args,
}

abbrev pub NotFuel : Failure → Type 0
NotFuel out_of_fuel = ⊥
NotFuel _ = Unit

-- A run that has read `k` of `size` bytes or more, or failed for another reason than its fuel.
abbrev pub Reads {ℓ} : {A : Type ℓ} → ℕ → ℕ → Read A → Type 0
Reads k size (done a t) = length t.rest + k ≤ size
Reads k size (failed e) = NotFuel e

-- What a later part of a run reads.
later {ℓ} :
    {A : Type ℓ} (k j i size small : ℕ) (r : Read A)
    → Reads k small r
    → small + i ≤ size
    → j ≤ k + i
    → Reads j size r
later k j i size small (done a t) h e l = omega arith
later k j i size small (failed e) h _ _ = h

module _ {ℓ κ} {A : Type ℓ} {B : Type κ} where
  continue_reads :
      (k j size : ℕ) (f : A → Action B) (r : Read A)
      → Reads k size r
      → ((a : A) (t : Reader) → length t.rest + k ≤ size → Reads j size (f a t))
      → Reads j size (continue f r)
  continue_reads k j size f (done a t) h g = g a t h
  continue_reads k j size f (failed e) h g = h

  pub bind_reads :
      (k j size : ℕ) (m : Action A) (f : A → Action B) (s : Reader)
      → Reads k size (m s)
      → ((a : A) (t : Reader) → length t.rest + k ≤ size → Reads j size (f a t))
      → Reads j size ((m >>= f) s)
  unfolding ◌>>=◌
  bind_reads k j size m f s h g = continue_reads k j size f (m s) h g

  -- A step and what follows it, each measured by its own start.
  chain :
      (k j : ℕ) (m : Action A) (f : A → Action B) (s : Reader)
      → Reads k (length s.rest) (m s)
      → ((a : A) (t : Reader) → length t.rest + k ≤ length s.rest → Reads j (length t.rest) (f a t))
      → Reads (k + j) (length s.rest) ((m >>= f) s)
  chain k j m f s h g =
      bind_reads k (k + j) (length s.rest) m f s h (λ a t e.
        later j (k + j) k (length s.rest) (length t.rest) (f a t) (g a t e) e (omega arith))

  -- The same where it does not matter how much is read.
  pub follow :
      (m : Action A) (f : A → Action B) (s : Reader)
      → Reads 0 (length s.rest) (m s)
      → ((a : A) (t : Reader) → length t.rest ≤ length s.rest → Reads 0 (length t.rest) (f a t))
      → Reads 0 (length s.rest) ((m >>= f) s)
  follow m f s h g = chain 0 0 m f s h (λ a t e. g a t (omega arith))

pub fewer {ℓ} : {A : Type ℓ} (k size : ℕ) (r : Read A) → Reads k size r → Reads 0 size r
fewer k size (done a t) h = omega arith
fewer k size (failed e) h = h

pub after {ℓ κ} :
    {A : Type ℓ} {B : Type κ} (k : ℕ) (m : Action A) (f : A → Action B) (s : Reader)
    → Reads k (length s.rest) (m s)
    → ((a : A) (t : Reader) → length t.rest + k ≤ length s.rest → Reads 0 (length t.rest) (f a t))
    → Reads 0 (length s.rest) ((m >>= f) s)
after k m f s h g = fewer (k + 0) (length s.rest) ((m >>= f) s) (chain k 0 m f s h g)

pub if_reads {ℓ} :
    {A : Type ℓ} (k size : ℕ) (b : Bool) (r q : Read A)
    → (b ≡ true → Reads k size r)
    → (b ≡ false → Reads k size q)
    → Reads k size (if b then r else q)
if_reads k size true r q f g = f refl
if_reads k size false r q f g = g refl

pub choose {ℓ} :
    {A : Type ℓ} (b : Bool) (m k : Action A) (s : Reader)
    → Reads 0 (length s.rest) (m s)
    → Reads 0 (length s.rest) (k s)
    → Reads 0 (length s.rest) ((if b then m else k) s)
choose true m k s f g = f
choose false m k s f g = g

pub read_value-reads : (n : ℕ) (s : Reader) → Reads n (length s.rest) (read_value n s)
unfolding read_value
read_value-reads n s =
    if_reads n (length s.rest) (leb n (length s.rest)) _ _
      (λ e. let l = leb→le n (length s.rest) e in omega (arith, length-drop n s.rest)) (λ _. tt)

pub read_bytes-reads : (n : ℕ) (s : Reader) → Reads n (length s.rest) (read_bytes n s)
unfolding read_bytes
read_bytes-reads n s =
    if_reads n (length s.rest) (leb n (length s.rest)) _ _
      (λ e. let l = leb→le n (length s.rest) e in omega (arith, length-drop n s.rest)) (λ _. tt)

pub nothing : (t : Reader) → length t.rest + 0 ≤ length t.rest
nothing t = omega arith

read_bool-reads : (s : Reader) → Reads 1 (length s.rest) (read_bool s)
read_bool-reads s = chain 1 0 (read_value 1) _ s (read_value-reads 1 s) (λ b t e. nothing t)

pub read_name-reads : (s : Reader) → Reads 1 (length s.rest) (read_name s)
read_name-reads s =
    chain 1 0 (read_value 1) read_bytes s (read_value-reads 1 s)
      (λ n t e. fewer n _ (read_bytes n t) (read_bytes-reads n t))

read_string-reads : (s : Reader) → Reads 0 (length s.rest) (read_string s)
read_string-reads s =
    follow (read_value 8) read_bytes s (fewer 8 _ _ (read_value-reads 8 s))
      (λ n t e. fewer n _ (read_bytes n t) (read_bytes-reads n t))

pub value {ℓ} :
    {B : Type ℓ} (n : ℕ) (f : ℕ → Action B) (s : Reader)
    → ((a : ℕ) (t : Reader) → Reads 0 (length t.rest) (f a t))
    → Reads 0 (length s.rest) ((read_value n >>= f) s)
value n f s g = follow (read_value n) f s (fewer n _ _ (read_value-reads n s)) (λ a t e. g a t)

read_fields-reads : (n : ℕ) (s : Reader) → Reads 0 (length s.rest) (read_fields n s)
unfolding read_fields
read_fields-reads zero s = nothing s
read_fields-reads (suc n) s = follow read_name _ s (fewer 1 _ _ (read_name-reads s)) (λ name t e.
    follow read_bool _ t (fewer 1 _ _ (read_bool-reads t)) (λ fixed u e.
      follow read_bool _ u (fewer 1 _ _ (read_bool-reads u)) (λ access v e.
        follow (read_fields n) _ v (read_fields-reads n v) (λ fields w e. nothing w))))

reconstruct_type-reads : (s : Reader) → Reads 0 (length s.rest) (reconstruct_type s)
unfolding reconstruct_type
reconstruct_type-reads s = follow read_name _ s (fewer 1 _ _ (read_name-reads s)) (λ name t e.
    value 1 _ t
      (λ n u. follow (read_fields n) _ u (read_fields-reads n u) (λ fields v e. nothing v)))

read_range-reads : (s : Reader) → Reads 0 (length s.rest) (read_range s)
unfolding read_range
read_range-reads s =
    value 8 _ s (λ a t. value 8 _ t (λ b u. value 8 _ u (λ c v. value 8 _ v (λ d w. nothing w))))

read_ranges-reads : (n : ℕ) (s : Reader) → Reads 0 (length s.rest) (read_ranges n s)
unfolding read_ranges
read_ranges-reads zero s = nothing s
read_ranges-reads (suc n) s =
    follow read_range _ s (read_range-reads s)
      (λ r t e. follow (read_ranges n) _ t (read_ranges-reads n t) (λ rs u e. nothing u))

pub read_metadata_block-reads : (s : Reader) → Reads 8 (length s.rest) (read_metadata_block s)
unfolding read_metadata_block
read_metadata_block-reads s =
    chain 8 0 (read_value 8) read_ranges s (read_value-reads 8 s) (λ n t e. read_ranges-reads n t)

sorted_at-reads :
    (m : Option (List DebugRange)) (size : ℕ) (t : Reader)
    → length t.rest ≤ size
    → Reads 0 size (sorted_at m t)
sorted_at-reads none size t h = tt
sorted_at-reads (some m) size t h = omega (arith, h)

debug_metadata-reads : (s : Reader) → Reads 0 (length s.rest) (debug_metadata s)
unfolding debug_metadata read_debug_metadata match_debug_metadata
debug_metadata-reads s =
    if_reads 0 (length s.rest) s.debug_info_combined _ _
      (λ _. over (read_metadata_block s) (read_metadata_block-reads s))
      (λ _.
        if_reads 0 (length s.rest) s.debug_info_exists _ _ (λ _. next s.blocks) (λ _. omega arith))
  where
    over :
        (r : Read (List DebugRange))
        → Reads 8 (length s.rest) r
        → Reads 0 (length s.rest) (move_over s r)
    over (done m t) h =
        sorted_at-reads (sort_metadata m) (length s.rest) (advance (length m * 32 + 8) s)
          (omega (arith, length-drop (length m * 32 + 8) s.rest))
    over (failed e) h = h

    next : (blocks : List (List DebugRange)) → Reads 0 (length s.rest) (next_block blocks s)
    next [] = tt
    next (m ∷ blocks) =
        sorted_at-reads (sort_metadata m) (length s.rest) (record s { blocks = blocks })
          (omega arith)

skip_byte-reads : (bytes : List ℕ) (s : Reader) → Reads 0 (length s.rest) (skip_byte bytes s)
skip_byte-reads [] s = tt
skip_byte-reads (b ∷ bytes) s = omega (arith, length-drop 1 s.rest)

reconstruct_plain-reads :
    (type : ℕ) (s : Reader) → Reads 0 (length s.rest) (reconstruct_plain type s)
unfolding reconstruct_plain
reconstruct_plain-reads type s = choose (type == type_int) _ _ s (value 8 _ s (λ a t. nothing t)) (
    choose (type == type_dec) _ _ s (value 8 _ s (λ a t. nothing t)) (
      choose (type == type_module) _ _ s
        (follow read_name _ s (fewer 1 _ _ (read_name-reads s)) (λ a t e. nothing t))
        (choose (type == type_user_type) _ _ s
          (follow reconstruct_type _ s (reconstruct_type-reads s) (λ a t e. nothing t))
          (choose (type == type_text) _ _ s
            (follow read_string _ s (read_string-reads s) (λ a t e. nothing t))
            (choose (type == type_string) _ _ s
              (follow read_string _ s (read_string-reads s) (λ a t e. nothing t))
              (if_reads 0 (length s.rest) (type == type_bool || type == type_null) _ _
                (λ _. skip_byte-reads s.rest s) (λ _. tt)))))))

mutual
  unfolding reconstruct_pool

  reconstruct_pool-reads :
      (n stop : ℕ) (s : Reader)
      → length s.rest + 2 ≤ n
      → Reads 0 (length s.rest) (reconstruct_pool n stop s)
  reconstruct_pool-reads zero stop s h = absurd (omega arith)
  reconstruct_pool-reads (suc n) stop s h =
      if_reads 0 (length s.rest) (ltb s.it stop) _ _
        (λ _. after 1 (read_value 1) _ s (read_value-reads 1 s) (λ type t e.
          follow (reconstruct_object n type) _ t (reconstruct_object-reads n type t (omega arith))
            (λ obj u l.
              follow (reconstruct_pool n stop) _ u (reconstruct_pool-reads n stop u (omega arith))
                (λ p v m. nothing v))))
        (λ _. nothing s)

  reconstruct_object-reads :
      (n type : ℕ) (s : Reader)
      → length s.rest + 2 ≤ n
      → Reads 0 (length s.rest) (reconstruct_object n type s)
  reconstruct_object-reads zero type s h = absurd (omega arith)
  reconstruct_object-reads (suc n) type s h =
      choose (is_func_type type) _ _ s
        (follow (reconstruct_func n) _ s (reconstruct_func-reads n s (omega arith))
          (λ f t e. nothing t))
        (reconstruct_plain-reads type s)

  reconstruct_func-reads :
      (n : ℕ) (s : Reader) → length s.rest + 1 ≤ n → Reads 0 (length s.rest) (reconstruct_func n s)
  reconstruct_func-reads zero s h = absurd (omega arith)
  reconstruct_func-reads (suc n) s h = after 1 read_name _ s (read_name-reads s) (λ name t e.
      after 1 (read_value 1) _ t (read_value-reads 1 t) (λ arity_min u f.
        after 1 (read_value 1) _ u (read_value-reads 1 u) (λ arity_max v g.
          after 1 read_bool _ v (read_bool-reads v) (λ variadic w i.
            after 16 (reconstruct_byte_code n) _ w (reconstruct_byte_code-reads n w (omega arith))
              (λ code x j.
                let count = default_count arity_min arity_max in
                follow (reconstruct_args n count) _ x
                  (reconstruct_args-reads n count x (omega arith)) (λ args y k. nothing y))))))

  pub reconstruct_byte_code-reads :
      (n : ℕ) (s : Reader)
      → length s.rest + 2 ≤ n
      → Reads 16 (length s.rest) (reconstruct_byte_code n s)
  reconstruct_byte_code-reads zero s h = absurd (omega arith)
  reconstruct_byte_code-reads (suc n) s h =
      chain 8 8 (read_value 8) _ s (read_value-reads 8 s) (λ code_size t e.
        chain 8 0 (read_value 8) _ t (read_value-reads 8 t) (λ pool_size u f.
          follow (read_bytes code_size) _ u (fewer code_size _ _ (read_bytes-reads code_size u))
            (λ bytes v g.
              follow
                (λ r.
                  if leb pool_size (length r.rest)
                  then reconstruct_pool n (r.it + pool_size) r
                  else failed undefined)
                _ v
                (if_reads 0 (length v.rest) (leb pool_size (length v.rest)) _ _
                  (λ _. reconstruct_pool-reads n (v.it + pool_size) v (omega arith)) (λ _. tt))
                (λ p w i.
                  follow debug_metadata _ w (debug_metadata-reads w) (λ m x j. nothing x)))))

  reconstruct_args-reads :
      (n count : ℕ) (s : Reader)
      → length s.rest + 3 ≤ n
      → Reads 0 (length s.rest) (reconstruct_args n count s)
  reconstruct_args-reads zero count s h = absurd (omega arith)
  reconstruct_args-reads (suc n) zero s h = nothing s
  reconstruct_args-reads (suc n) (suc count) s h =
      after 16 (reconstruct_byte_code n) _ s (reconstruct_byte_code-reads n s (omega arith))
        (λ code t e.
          follow (reconstruct_args n count) _ t (reconstruct_args-reads n count t (omega arith))
            (λ args u f. nothing u))
