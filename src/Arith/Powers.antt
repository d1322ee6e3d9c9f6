-- ===== src/Arith/Powers.antt =====
-- `ipow` against the power of natural numbers.
use choice_lang.Prelude.{
  ℕ, zero, suc, ◌+◌, ◌*◌, ◌/◌, ◌%◌, ◌^◌, ◌≤◌, ◌<◌, ◌≡◌, refl, sym, ap, ◌∙◌, none, some, arith, ◌==◌,
  Bool-cases, inl, inr, if◌then◌else◌,
}
use choice_lang.Arith.{ipow, ipow_loop, halve}
use native.Mathlib.Nat.{
  mod-add-div, add-mul-mod_self_left, mul_assoc, mul_comm, pow-suc, pow-zero, pow-le-pow_right,
}

-- A factor may be taken modulo `m`.
times_mod : (a b m : ℕ) → (a % m * b) % m ≡ a * b % m
times_mod a b m =
    let parts = mod-add-div a m in
    let whole : a * b ≡ a % m * b + m * (a / m * b) = ap (λ x. x * b) (sym parts) ∙ grind arith in
    sym (ap (λ x. x % m) whole ∙ add-mul-mod_self_left (a % m * b) m (a / m * b))

pow_mod : (a n m : ℕ) → (a % m) ^ n % m ≡ a ^ n % m
pow_mod a zero m = rw (pow-zero, pow-zero) refl
pow_mod a (suc n) m =
    rw (pow-suc, pow-suc)
      (ap (λ x. x % m) (mul_comm ((a % m) ^ n) (a % m))
        ∙ times_mod a ((a % m) ^ n) m
        ∙ ap (λ x. x % m) (mul_comm a ((a % m) ^ n))
        ∙ sym (times_mod ((a % m) ^ n) a m)
        ∙ ap (λ x. x * a % m) (pow_mod a n m)
        ∙ times_mod (a ^ n) a m)

-- One power taken modulo `m` in a product.
factor_mod : (x a n m : ℕ) → x * (a % m) ^ n % m ≡ x * a ^ n % m
factor_mod x a n m =
    ap (λ y. y % m) (mul_comm x ((a % m) ^ n))
    ∙ sym (times_mod ((a % m) ^ n) x m)
    ∙ ap (λ y. y * x % m) (pow_mod a n m)
    ∙ times_mod (a ^ n) x m
    ∙ ap (λ y. y % m) (mul_comm (a ^ n) x)

twice : (b n : ℕ) → b ^ (n + n) ≡ (b * b) ^ n
twice b zero = rw (pow-zero, pow-zero) refl
twice b (suc n) =
    let e : suc n + suc n ≡ suc (suc (n + n)) = omega arith in
    rw (e, pow-suc, pow-suc, pow-suc, twice b n) (mul_assoc ((b * b) ^ n) b b)

-- A negative exponent stays negative when it is halved: the loop has no end.
pub ipow_loop_negative :
    (fuel res base exp : ℕ) → 2 ^ 63 ≤ exp → exp < 2 ^ 64 → ipow_loop fuel res base exp ≡ none
unfolding ipow_loop
ipow_loop_negative zero res base exp low high = refl
ipow_loop_negative (suc fuel) res base exp low high =
    let next =
      ipow_loop_negative fuel (if exp % 2 == 1 then res * base % 2 ^ 64 else res)
        (base * base % 2 ^ 64) (halve exp) (ground arith) (ground arith) in
    ground arith

even_power : (b e : ℕ) → e % 2 ≡ 0 → b ^ e ≡ (b * b) ^ (e / 2)
even_power b e even =
    let half : e ≡ e / 2 + e / 2 = omega arith in ap (λ n. b ^ n) half ∙ twice b (e / 2)

odd_power : (b e : ℕ) → e % 2 ≡ 1 → b ^ e ≡ (b * b) ^ (e / 2) * b
odd_power b e odd =
    let half : e ≡ suc (e / 2 + e / 2) = omega arith in
    ap (λ n. b ^ n) half ∙ rw pow-suc (ap (λ x. x * b) (twice b (e / 2)))

-- What a round leaves to multiply.
round_power :
    (res b e m : ℕ)
    → (if e % 2 == 1 then res * b % m else res) * (b * b % m) ^ (e / 2) % m ≡ res * b ^ e % m
round_power res b e m = elim (Bool-cases (e % 2 == 1)) [
  | inl h ↦
      rw
        (
          h,
          factor_mod (res * b % m) (b * b) (e / 2) m,
          times_mod (res * b) ((b * b) ^ (e / 2)) m,
          odd_power b e (ground arith),
        )
        (ap (λ x. x % m)
          (mul_assoc res b ((b * b) ^ (e / 2))
            ∙ ap (λ x. res * x) (mul_comm b ((b * b) ^ (e / 2)))))
  | inr h ↦ rw (h, factor_mod res (b * b) (e / 2) m, even_power b e (ground arith)) refl
]

ipow_loop-pow :
    (n res base exp : ℕ)
    → exp < 2 ^ n
    → n ≤ 63
    → res < 2 ^ 64
    → ipow_loop (suc n) res base exp ≡ some (res * base ^ exp % 2 ^ 64)
unfolding ipow_loop
ipow_loop-pow zero res base exp lt le small =
    let none_left : exp ≡ 0 = omega arith in rw (none_left, pow-zero) (ap some (omega arith))
ipow_loop-pow (suc n) res base exp lt le small = elim (Bool-cases (exp == 0)) [
  | inl h ↦
      let none_left : exp ≡ 0 = ground arith in rw (none_left, pow-zero) (ap some (omega arith))
  | inr h ↦
      let next = if exp % 2 == 1 then res * base % 2 ^ 64 else res in
      let bound : 2 ^ suc n ≤ 2 ^ 63 = pow-le-pow_right (omega arith) le in
      let half : halve exp ≡ exp / 2 = ground arith in
      let two = pow-suc 2 n in
      let rest =
        ipow_loop-pow n next (base * base % 2 ^ 64) (exp / 2) (omega arith) (omega arith)
          (ground arith) in
      rw (h, half) (rest ∙ ap some (round_power res base exp (2 ^ 64)))
]

-- For an exponent that is not negative, `ipow` ends, within 64 rounds, and is the power of the base
-- modulo 2^64.
pub ipow-pow : (base exp : ℕ) → exp < 2 ^ 63 → ipow 64 base exp ≡ some (base ^ exp % 2 ^ 64)
unfolding ipow
ipow-pow base exp h =
    ipow_loop-pow 63 1 base exp h (omega arith) (omega arith)
    ∙ ap some (ap (λ x. x % 2 ^ 64) (omega arith))

-- For a negative exponent, a pattern of 2^63 or more, `ipow` does not end on any fuel.
pub ipow_negative : (fuel base exp : ℕ) → 2 ^ 63 ≤ exp → exp < 2 ^ 64 → ipow fuel base exp ≡ none
unfolding ipow
ipow_negative fuel base exp low high = ipow_loop_negative fuel 1 base exp low high
