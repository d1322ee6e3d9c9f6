-- ===== src/Machine.antt =====
-- src/vm.cpp and src/object.cpp: the operators of the virtual machine on objects. The arithmetic of
-- doubles, on their patterns, and the identity of heap objects are the parameter `Floats`.
pub mod Step
use choice_lang.Prelude.{
  ℕ, zero, suc, ◌+◌, ◌-◌, ◌*◌, ◌%◌, ◌^◌, Bool, true, false, not, ◌&&◌, ◌||◌, Option, none, some,
  List, [], ◌∷◌, ◌++◌, length, ltb, leb, ◌==◌, if◌then◌else◌, same,
}
use choice_lang.Object.{
  Object, int, dec, boolean, null, text, string, module_, user_type, user_func,
}
use choice_lang.Arith.{BitOp, BitResult, hit_shift_max, wrong_operands, bit_oper, ipow}

pub record Floats : Type 0 where
  pub of_int : ℕ → ℕ
  pub add : ℕ → ℕ → ℕ
  pub sub : ℕ → ℕ → ℕ
  pub mult : ℕ → ℕ → ℕ
  pub div : ℕ → ℕ → ℕ
  pub pow : ℕ → ℕ → ℕ
  pub negate : ℕ → ℕ
  pub equal : ℕ → ℕ → Bool
  pub less : ℕ → ℕ → Bool
  pub same_pointer : Object → Object → Bool

pub data RuntimeError : Type 0 where
  division_by_zero modulus_with_zero shift_max wrong_binary wrong_unary : RuntimeError
  obj_not_iterable obj_wrong_iter_type : RuntimeError

-- What an operator returns or throws; `endless` is a loop that does not end, `unreachable` the macro
-- `CH_UNREACHABLE`.
pub data Result : Type 0 where
  result : Object → Result
  thrown : RuntimeError → Result
  endless : Result
  unreachable : Result

pub data ArithOp : Type 0 where
  op_add op_sub op_mult op_div op_power op_mod : ArithOp

pub data CompareOp : Type 0 where
  op_equal op_gt op_lt op_in : CompareOp

pub data UnaryOp : Type 0 where
  op_neg op_incr op_decr op_not op_comp : UnaryOp

abbrev pub double_zero : ℕ
double_zero = 0

-- The size of an i64, and the i64 of opposite sign.
abbrev pub magnitude : ℕ → ℕ
magnitude a = if ltb a (2 ^ 63) then a else 2 ^ 64 - a

abbrev pub opposite : ℕ → ℕ
opposite a = (2 ^ 64 - a) % 2 ^ 64

-- The remainder takes the sign of the left operand.
abbrev pub remainder : ℕ → ℕ → ℕ
remainder a b = let r = magnitude a % magnitude b in if ltb a (2 ^ 63) then r else opposite r

abbrev pub power_result : Option ℕ → Result
power_result none = endless
power_result (some value) = result (int value)

-- 64 rounds take each exponent of 63 bits to zero; a negative one never gets there.
unfoldable pub int_arith : Floats → ArithOp → ℕ → ℕ → Result
int_arith fl op_add a b = result (int ((a + b) % 2 ^ 64))
int_arith fl op_sub a b = result (int ((a + (2 ^ 64 - b)) % 2 ^ 64))
int_arith fl op_mult a b = result (int (a * b % 2 ^ 64))
int_arith fl op_div a b =
    if b == 0 then thrown division_by_zero else result (dec (fl.div (fl.of_int a) (fl.of_int b)))
int_arith fl op_mod a b = if b == 0 then thrown modulus_with_zero else result (int (remainder a b))
int_arith fl op_power a b = power_result (ipow 65 a b)

unfoldable pub dec_arith : Floats → ArithOp → ℕ → ℕ → Result
dec_arith fl op_add a b = result (dec (fl.add a b))
dec_arith fl op_sub a b = result (dec (fl.sub a b))
dec_arith fl op_mult a b = result (dec (fl.mult a b))
dec_arith fl op_div a b =
    if fl.equal b double_zero then thrown division_by_zero else result (dec (fl.div a b))
dec_arith fl op_power a b = result (dec (fl.pow a b))
dec_arith fl op_mod a b = thrown wrong_binary

-- `getObjectText` of a text or a string.
abbrev pub object_text : Object → Option (List ℕ)
object_text (text str) = some str
object_text (string str) = some str
object_text _ = none

abbrev pub concat_strings : ArithOp → Option (List ℕ) → Option (List ℕ) → Result
concat_strings op_add (some x) (some y) = result (string (x ++ y))
concat_strings _ _ _ = thrown wrong_binary

unfoldable pub arith_oper : Floats → ArithOp → Object → Object → Result
arith_oper fl op (int a) (int b) = int_arith fl op a b
arith_oper fl op (int a) (dec b) = dec_arith fl op (fl.of_int a) b
arith_oper fl op (dec a) (int b) = dec_arith fl op a (fl.of_int b)
arith_oper fl op (dec a) (dec b) = dec_arith fl op a b
arith_oper fl op a b = concat_strings op (object_text a) (object_text b)

-- The order of strings, by their bytes.
abbrev pub text_less : List ℕ → List ℕ → Bool
text_less [] [] = false
text_less [] (y ∷ ys) = true
text_less (x ∷ xs) [] = false
text_less (x ∷ xs) (y ∷ ys) = if ltb x y then true else x == y && text_less xs ys

abbrev pub starts_with : List ℕ → List ℕ → Bool
starts_with [] ys = true
starts_with (x ∷ xs) [] = false
starts_with (x ∷ xs) (y ∷ ys) = x == y && starts_with xs ys

-- `find` finds it somewhere.
abbrev pub found : List ℕ → List ℕ → Bool
found part [] = starts_with part []
found part (y ∷ ys) = starts_with part (y ∷ ys) || found part ys

-- Numbers of either type, strings of either type, or neither.
pub data Comparable : Type 0 where
  number : ℕ → Comparable
  chars : List ℕ → Comparable
  other : Comparable

abbrev pub comparable : Floats → Object → Comparable
comparable fl (int a) = number (fl.of_int a)
comparable fl (dec a) = number a
comparable fl (text str) = chars str
comparable fl (string str) = chars str
comparable fl _ = other

-- `operator==` on objects that are not two numbers or two strings.
abbrev pub same_kind : Floats → Object → Object → Bool
same_kind fl (boolean a) (boolean b) = if a then b else not b
same_kind fl null null = true
same_kind fl (module_ a) (module_ b) = same a b
same_kind fl (user_type a x) (user_type b y) = fl.same_pointer (user_type a x) (user_type b y)
same_kind fl (user_func a) (user_func b) = fl.same_pointer (user_func a) (user_func b)
same_kind fl _ _ = false

abbrev pub equal_or : Floats → Comparable → Comparable → Bool → Bool
equal_or fl (number a) (number b) rest = fl.equal a b
equal_or fl (chars x) (chars y) rest = same x y
equal_or fl _ _ rest = rest

abbrev pub same_object : Floats → Object → Object → Bool
same_object fl a b = equal_or fl (comparable fl a) (comparable fl b) (same_kind fl a b)

-- `operator<`, and its guard in `compareOper`: both operands are numbers or strings.
unfoldable pub object_less : Floats → Comparable → Comparable → Result
object_less fl (number a) (number b) = result (boolean (fl.less a b))
object_less fl (chars x) (chars y) = result (boolean (text_less x y))
object_less fl (number a) (chars y) = unreachable
object_less fl (chars x) (number b) = unreachable
object_less fl _ _ = thrown wrong_binary

unfoldable pub object_in : Option (List ℕ) → Option (List ℕ) → Result
object_in (some x) (some y) = result (boolean (found x y))
object_in x none = thrown obj_not_iterable
object_in none (some y) = thrown obj_wrong_iter_type

unfoldable pub compare_oper : Floats → CompareOp → Object → Object → Result
compare_oper fl op_equal a b = result (boolean (same_object fl a b))
compare_oper fl op_gt a b = object_less fl (comparable fl b) (comparable fl a)
compare_oper fl op_lt a b = object_less fl (comparable fl a) (comparable fl b)
compare_oper fl op_in a b = object_in (object_text a) (object_text b)

abbrev pub from_bits : BitResult → Result
from_bits (BitResult.value obj) = result obj
from_bits hit_shift_max = thrown shift_max
from_bits wrong_operands = thrown wrong_binary

unfoldable pub is_truthy : Floats → Object → Bool
is_truthy fl (int a) = not (a == 0)
is_truthy fl (dec a) = not (fl.equal a double_zero)
is_truthy fl (boolean b) = b
is_truthy fl null = false
is_truthy fl (text str) = ltb 0 (length str)
is_truthy fl (string str) = ltb 0 (length str)
is_truthy fl _ = true

abbrev pub number_oper : (ℕ → Object) → (ℕ → Object) → Object → Result
number_oper on_int on_dec (int a) = result (on_int a)
number_oper on_int on_dec (dec a) = result (on_dec a)
number_oper on_int on_dec _ = thrown wrong_unary

abbrev pub complement : Object → Result
complement (int a) = result (int (2 ^ 64 - 1 - a))
complement _ = thrown wrong_unary

unfoldable pub unary_oper : Floats → UnaryOp → Object → Result
unary_oper fl op_incr obj =
    number_oper (λ a. int ((a + 1) % 2 ^ 64)) (λ a. dec (fl.add a (fl.of_int 1))) obj
unary_oper fl op_decr obj =
    number_oper (λ a. int ((a + (2 ^ 64 - 1)) % 2 ^ 64))
      (λ a. dec (fl.add a (fl.of_int (2 ^ 64 - 1)))) obj
unary_oper fl op_neg obj = number_oper (λ a. int (opposite a)) (λ a. dec (fl.negate a)) obj
unary_oper fl op_not obj = result (boolean (not (is_truthy fl obj)))
unary_oper fl op_comp obj = complement obj
