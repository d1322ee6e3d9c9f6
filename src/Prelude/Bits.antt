-- ===== src/Prelude/Bits.antt =====
-- Bit masks as arithmetic: the low bits by the digit recursion, other facts by tables of bytes.
use Prim.Native.Nat.{
  ℕ, zero, suc, ◌+◌, ◌*◌, ◌/◌, ◌%◌, ◌≤◌, ◌<◌, ◌^◌, min, max, bit_and, bit_or, digits,
  bit_and-bitwise, bit_or-bitwise,
}
use mathlib.Core.Path.{◌≡◌, refl}
use mathlib.Core.Bool.{Bool, true, false}
use mathlib.Core.Logic.{ite}
use native.Mathlib.Decide.{ℕ_discrete}
use native.Mathlib.Nat.{pow-suc, mul_assoc}
use native.Mathlib.Omega.{arith}

-- A bitwise operation is the recursion `digits` on its first operand; once the fuel covers that
-- operand, more fuel changes nothing.
module _ (stop : ℕ → ℕ) (bit : ℕ → ℕ → ℕ) where
  more_fuel :
      (fuel more x y : ℕ)
      → x ≤ fuel
      → fuel ≤ more
      → digits stop bit more x y ≡ digits stop bit fuel x y
  more_fuel zero zero zero y le up = refl
  more_fuel zero (suc more) zero y le up = refl
  more_fuel (suc fuel) (suc more) zero y le up = refl
  more_fuel (suc fuel) zero x y le up = absurd (omega arith)
  more_fuel zero more (suc x) y le up = absurd (omega arith)
  more_fuel (suc fuel) (suc more) (suc x) y le up =
      let below = more_fuel fuel more (suc x / 2) (y / 2) (omega arith) (omega arith) in
      omega (arith, below)

  half_fuel :
      (x y : ℕ) → digits stop bit x (suc x / 2) y ≡ digits stop bit (suc x / 2) (suc x / 2) y
  half_fuel x y = more_fuel (suc x / 2) x (suc x / 2) y (omega arith) (omega arith)

-- The lowest binary digit of `bit_and`.
bit_and-low : (x y : ℕ) → bit_and x y ≡ bit_and (x / 2) (y / 2) * 2 + min (x % 2) (y % 2)
bit_and-low zero y = let l = bit_and-bitwise 0 y in let r = bit_and-bitwise 0 (y / 2) in omega arith
bit_and-low (suc x) y =
    let l = bit_and-bitwise (suc x) y in
    let r = bit_and-bitwise (suc x / 2) (y / 2) in
    let e = half_fuel (λ rest. zero) min x (y / 2) in omega arith

no_mask : (bound x : ℕ) → x ≤ bound → bit_and x 0 ≡ 0
no_mask bound zero le = refl
no_mask zero (suc x) le = absurd (omega arith)
no_mask (suc bound) (suc x) le =
    let above = no_mask bound (suc x / 2) (omega arith) in omega (arith, bit_and-low (suc x) 0)

bit_and-one : (a : ℕ) → bit_and a 1 ≡ a % 2
bit_and-one a = omega (arith, bit_and-low a 1, no_mask (a / 2) (a / 2) (omega arith))

bit_and_two_bits : (a : ℕ) → bit_and a 3 ≡ a % 4
bit_and_two_bits a = omega (arith, bit_and-low a 3, bit_and-one (a / 2))

bit_and_four_bits : (a : ℕ) → bit_and a 15 ≡ a % 16
bit_and_four_bits a =
    omega (arith, bit_and-low a 15, bit_and-low (a / 2) 7, bit_and_two_bits (a / 2 / 2))

-- `x & 0x3f` keeps six bits.
pub bit_and_six_bits : (a : ℕ) → bit_and a 0x3f ≡ a % 64
bit_and_six_bits a =
    omega (arith, bit_and-low a 63, bit_and-low (a / 2) 31, bit_and_four_bits (a / 2 / 2))

-- `x & 0xff` keeps a byte.
pub bit_and_byte : (a : ℕ) → bit_and a 0xff ≡ a % 256
bit_and_byte a =
    omega (arith, bit_and-low a 255, bit_and-low (a / 2) 127, bit_and_six_bits (a / 2 / 2))

module _ (f g : ℕ → ℕ) where
  pub agree_below : ℕ → Bool
  unfolding ℕ_discrete
  agree_below zero = true
  agree_below (suc n) = ite (ℕ_discrete (f n) (g n)) (agree_below n) false

  -- Two functions that agree on a table agree below its size.
  pub agree_below→eq : (n : ℕ) → agree_below n ≡ true → (i : ℕ) → i < n → f i ≡ g i
  unfolding agree_below
  agree_below→eq zero e i h = absurd (omega arith)
  agree_below→eq (suc n) e i h = ground (arith, agree_below→eq n (ground arith) i)

pub or_0x80 : (b : ℕ) → b < 64 → bit_or 0x80 b ≡ b + 128
unfolding agree_below
or_0x80 = agree_below→eq _ _ 64 refl

pub or_0xc0 : (b : ℕ) → b < 32 → bit_or 0xc0 b ≡ b + 192
unfolding agree_below
or_0xc0 = agree_below→eq _ _ 32 refl

pub or_0xe0 : (b : ℕ) → b < 16 → bit_or 0xe0 b ≡ b + 224
unfolding agree_below
or_0xe0 = agree_below→eq _ _ 16 refl

pub or_0xf0 : (b : ℕ) → b < 8 → bit_or 0xf0 b ≡ b + 240
unfolding agree_below
or_0xf0 = agree_below→eq _ _ 8 refl

-- The lowest binary digit of `bit_or`.
bit_or-low : (x y : ℕ) → bit_or x y ≡ bit_or (x / 2) (y / 2) * 2 + max (x % 2) (y % 2)
bit_or-low zero y = let l = bit_or-bitwise 0 y in let r = bit_or-bitwise 0 (y / 2) in omega arith
bit_or-low (suc x) y =
    let l = bit_or-bitwise (suc x) y in
    let r = bit_or-bitwise (suc x / 2) (y / 2) in
    let e = half_fuel (λ rest. rest) max x (y / 2) in omega arith

bit_or_none : (bound x : ℕ) → x ≤ bound → bit_or x 0 ≡ x
bit_or_none bound zero le = refl
bit_or_none zero (suc x) le = absurd (omega arith)
bit_or_none (suc bound) (suc x) le =
    let above = bit_or_none bound (suc x / 2) (omega arith) in omega (arith, bit_or-low (suc x) 0)

-- Bits behind a shift by `k` are only added.
pub bit_or_shifted : (k a b : ℕ) → b < 2 ^ k → bit_or (a * 2 ^ k) b ≡ a * 2 ^ k + b
bit_or_shifted zero a b h =
    let e : b ≡ 0 = omega arith in rw e (omega (arith, bit_or_none (a * 1) (a * 1) (omega arith)))
bit_or_shifted (suc k) a b h =
    let half : b < 2 ^ k * 2 = rw (← pow-suc) h in
    let whole : a * 2 ^ suc k ≡ a * 2 ^ k * 2 = rw (pow-suc, ← mul_assoc) refl in
    let parts : a * 2 ^ k * 2 / 2 ≡ a * 2 ^ k = omega arith in
    let step = bit_or-low (a * 2 ^ k * 2) b in
    let high = rw parts at step in
    rw whole (omega (arith, high, bit_or_shifted k a (b / 2) (omega arith)))

pub bit_or_byte : (a b : ℕ) → b < 256 → bit_or (a * 256) b ≡ a * 256 + b
bit_or_byte a b h = bit_or_shifted 8 a b h
