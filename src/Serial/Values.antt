-- ===== src/Serial/Values.antt =====
-- include/bytes.h and src/bytes.cpp: `encodeMemValue` against `readMemValue`, and the readers of
-- bytes, names and strings against their writers.
use choice_lang.Prelude.{
  ℕ, zero, suc, ◌+◌, ◌*◌, ◌/◌, ◌%◌, ◌^◌, ◌≤◌, ◌<◌, bit_and, bit_or, ◌≡◌, refl, sym, ap, ◌∙◌, Bool,
  true, false, List, [], ◌∷◌, ◌++◌, length, take, drop, arith, bit_and_byte, bit_or_byte,
  length-append, take-append, drop-append, take-append-drop, append_assoc, le→leb,
}
use choice_lang.Object.{DebugRange}
use choice_lang.Serial.{encode_value, emit_name, emit_string, bool_byte}
use choice_lang.Serial.Reader.{
  Reader, done, read_mem, read_value, read_bytes, read_bool, read_name, read_string, ◌>>=◌,
  bind_done,
}
use native.Mathlib.Nat.{pow-suc, div-le_self, div-eq_of_lt, mod-eq_of_lt, div-div-eq-div-mul}

abbrev pub reader : Bool → Bool → List (List DebugRange) → ℕ → List ℕ → Reader
reader e c ms it rest = record {
  debug_info_exists = e;
  debug_info_combined = c;
  blocks = ms;
  it = it;
  rest = rest;
}

pub length-encode_value : (size value : ℕ) → length (encode_value size value) ≡ size
unfolding encode_value
length-encode_value zero value = refl
length-encode_value (suc size) value = ap suc (length-encode_value size value)

byte_step : (k : ℕ) → 2 ^ (suc k * 8) ≡ 2 ^ (k * 8) * 256
byte_step k =
    let e : suc k * 8 ≡ suc (suc (suc (suc (suc (suc (suc (suc (k * 8)))))))) = omega arith in
    let n = k * 8 in
    rw e (
      omega (
        arith,
        pow-suc 2 n,
        pow-suc 2 (suc n),
        pow-suc 2 (suc (suc n)),
        pow-suc 2 (suc (suc (suc n))),
        pow-suc 2 (suc (suc (suc (suc n)))),
        pow-suc 2 (suc (suc (suc (suc (suc n))))),
        pow-suc 2 (suc (suc (suc (suc (suc (suc n)))))),
        pow-suc 2 (suc (suc (suc (suc (suc (suc (suc n))))))),
      ))

-- The digits in front of the last `size` bytes and the next byte.
next_digit :
    (size value : ℕ)
    → value < 2 ^ 64
    → bit_or (value / 2 ^ (suc size * 8) * 2 ^ 8 % 2 ^ 64) (bit_and (value / 2 ^ (size * 8)) 0xff)
      ≡ value / 2 ^ (size * 8)
next_digit size value h =
    let q = value / 2 ^ (size * 8) in
    let front : value / 2 ^ (suc size * 8) ≡ q / 256 =
      rw (byte_step size) (sym (div-div-eq-div-mul value (2 ^ (size * 8)) 256)) in
    let small = div-le_self value (2 ^ (size * 8)) in
    let whole : q / 256 * 256 % 2 ^ 64 ≡ q / 256 * 256 = omega (arith, small) in
    rw (front, whole, bit_and_byte q, bit_or_byte (q / 256) (q % 256) (omega arith)) (omega arith)

read_mem-encode :
    (size value : ℕ) (rest : List ℕ)
    → value < 2 ^ 64
    → read_mem size (value / 2 ^ (size * 8)) (encode_value size value ++ rest) ≡ value
unfolding read_mem encode_value
read_mem-encode zero value rest h = omega arith
read_mem-encode (suc size) value rest h =
    rw (next_digit size value h) (read_mem-encode size value rest h)

module _ {e c : Bool} {ms : List (List DebugRange)} where
  pub read_value-encode :
      (size value it : ℕ) (rest : List ℕ)
      → value < 2 ^ 64
      → value < 2 ^ (size * 8)
      → read_value size (reader e c ms it (encode_value size value ++ rest))
        ≡ done value (reader e c ms (it + size) rest)
  unfolding read_value
  read_value-encode size value it rest h fits =
      let bytes = encode_value size value in
      let len = length-encode_value size value in
      let ok =
        le→leb size (length (bytes ++ rest)) (omega (arith, length-append bytes rest, len)) in
      let none_yet : value / 2 ^ (size * 8) ≡ 0 = div-eq_of_lt fits in
      let read : read_mem size 0 (bytes ++ rest) ≡ value =
        ap (λ z. read_mem size z (bytes ++ rest)) (sym none_yet)
        ∙ read_mem-encode size value rest h in
      let left : drop size (bytes ++ rest) ≡ rest =
        ap (λ k. drop k (bytes ++ rest)) (sym len) ∙ drop-append bytes rest in
      rw (ok, read, left, mod-eq_of_lt fits) refl

  pub read_bytes-front :
      (bytes : List ℕ) (it : ℕ) (rest : List ℕ)
      → read_bytes (length bytes) (reader e c ms it (bytes ++ rest))
        ≡ done bytes (reader e c ms (it + length bytes) rest)
  unfolding read_bytes
  read_bytes-front bytes it rest =
      let fits =
        le→leb (length bytes) (length (bytes ++ rest)) (omega (arith, length-append bytes rest)) in
      rw (fits, take-append bytes rest, drop-append bytes rest) refl

  pub read_byte-front :
      (b it : ℕ) (rest : List ℕ)
      → b < 256
      → read_value 1 (reader e c ms it (b % 256 ∷ rest)) ≡ done b (reader e c ms (it + 1) rest)
  unfolding read_value read_mem
  read_byte-front b it rest h = ground (arith, bit_or_byte 0 (b % 256) (omega arith))

  pub read_bool-byte :
      (b : Bool) (it : ℕ) (rest : List ℕ)
      → read_bool (reader e c ms it (bool_byte b ∷ rest)) ≡ done b (reader e c ms (it + 1) rest)
  unfolding ◌>>=◌ read_value read_mem
  read_bool-byte true it rest = ground arith
  read_bool-byte false it rest = ground arith

  pub read_name-emit :
      (name : List ℕ) (it : ℕ) (rest : List ℕ)
      → length name < 256
      → read_name (reader e c ms it (emit_name name ++ rest))
        ≡ done name (reader e c ms (it + 1 + length name) rest)
  read_name-emit name it rest h =
      bind_done _ _ (read_byte-front (length name) it (name ++ rest) h)
      ∙ read_bytes-front name (it + 1) rest

  pub read_string-emit :
      (str : List ℕ) (it : ℕ) (rest : List ℕ)
      → length str < 2 ^ 64
      → read_string (reader e c ms it (emit_string str ++ rest))
        ≡ done str (reader e c ms (it + 8 + length str) rest)
  read_string-emit str it rest h = rw append_assoc (
      bind_done _ _ (read_value-encode 8 (length str) it (str ++ rest) h h)
      ∙ read_bytes-front str (it + 8) rest)

length-take : (n : ℕ) (xs : List ℕ) → n ≤ length xs → length (take n xs) ≡ n
length-take zero xs h = refl
length-take (suc n) [] h = absurd (omega arith)
length-take (suc n) (x ∷ xs) h = ap suc (length-take n xs (omega arith))

-- The length of a name is written in one byte: of a name of any length, the reader takes as many
-- bytes as the length modulo 256, and the others stay in front of what follows.
pub read_name-any_length :
    (e c : Bool) (ms : List (List DebugRange)) (it : ℕ) (name rest : List ℕ)
    → let k = length name % 256 in
      read_name (reader e c ms it (emit_name name ++ rest))
      ≡ done (take k name) (reader e c ms (it + 1 + k) (drop k name ++ rest))
read_name-any_length e c ms it name rest =
    let k = length name % 256 in
    let byte : k ≡ k % 256 = omega arith in
    let len : length (take k name) ≡ k = length-take k name (omega arith) in
    let parts : take k name ++ (drop k name ++ rest) ≡ name ++ rest =
      sym (append_assoc (take k name) (drop k name) rest)
      ∙ ap (λ l. l ++ rest) (take-append-drop k name) in
    bind_done (read_value 1) read_bytes (
      ap (λ b. read_value 1 (reader e c ms it (b ∷ (name ++ rest)))) byte
      ∙ read_byte-front k it (name ++ rest) (omega arith))
    ∙ ap (λ l. read_bytes k (reader e c ms (it + 1) l)) (sym parts)
    ∙ ap (λ n. read_bytes n (reader e c ms (it + 1) (take k name ++ (drop k name ++ rest))))
        (sym len)
    ∙ read_bytes-front (take k name) (it + 1) (drop k name ++ rest)
    ∙ ap (λ n. done (take k name) (reader e c ms (it + 1 + n) (drop k name ++ rest))) len
