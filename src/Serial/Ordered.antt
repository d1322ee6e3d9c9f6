-- ===== src/Serial/Ordered.antt =====
-- src/bytecode.cpp: lists of debug ranges that the comparison of `sortMetadata` orders.
use choice_lang.Prelude.{
  ◌≡◌, ◌⊎◌, inl, inr, refl, sym, ap, ◌∙◌, Bool, true, false, not, ◌&&◌, ◌||◌, List, [], ◌∷◌,
  and-true, Bool-cases, ==_iff, ◌==◌, arith, ℕ,
}
use choice_lang.Object.{DebugRange}
use choice_lang.Serial.Sorting.{
  same_range, precedes, all_ranges, one_of, is_ordered, bytes_equal, location_equal,
}

abbrev pub In : DebugRange → List DebugRange → Type 0
In a [] = ⊥
In a (x ∷ xs) = (a ≡ x) ⊎ In a xs

abbrev pub range_of : ℕ → ℕ → ℕ → ℕ → DebugRange
range_of a b c d = record { byte_start = a; byte_end = b; source_start = c; source_end = d }

pub same_range→≡ : (a b : DebugRange) → same_range a b ≡ true → a ≡ b
same_range→≡ a b h =
    let p = and-true (bytes_equal a b) (location_equal a b) h in
    let q = and-true (a.byte_start == b.byte_start) (a.byte_end == b.byte_end) p.0 in
    let r = and-true (a.source_start == b.source_start) (a.source_end == b.source_end) p.1 in
    let e : range_of a.byte_start a.byte_end a.source_start a.source_end ≡ b =
      rw
        (
          (==_iff a.byte_start b.byte_start).0 q.0,
          (==_iff a.byte_end b.byte_end).0 q.1,
          (==_iff a.source_start b.source_start).0 r.0,
          (==_iff a.source_end b.source_end).0 r.1,
        )
        refl in
    e

pub both_true : (a b : Bool) → a ≡ true → b ≡ true → (a && b) ≡ true
both_true a b h k = rw (h, k) refl

pub all_ranges-In :
    (f : DebugRange → Bool) (m : List DebugRange) (a : DebugRange)
    → all_ranges f m ≡ true
    → In a m
    → f a ≡ true
all_ranges-In f [] a h i = absurd i
all_ranges-In f (x ∷ m) a h (inl e) = rw e ((and-true (f x) (all_ranges f m) h).0)
all_ranges-In f (x ∷ m) a h (inr i) = all_ranges-In f m a ((and-true (f x) (all_ranges f m) h).1) i

pub all_ranges-all :
    (f : DebugRange → Bool) (m : List DebugRange)
    → ((a : DebugRange) → In a m → f a ≡ true)
    → all_ranges f m ≡ true
all_ranges-all f [] h = refl
all_ranges-all f (x ∷ m) h =
    both_true (f x) (all_ranges f m) (h x (inl refl)) (all_ranges-all f m (λ a i. h a (inr i)))

abbrev pub third : DebugRange → DebugRange → DebugRange → Bool
third a b c = not (precedes a b && precedes b c) || precedes a c

abbrev pub second : List DebugRange → DebugRange → DebugRange → Bool
second m a b = (same_range a b || one_of (precedes a b) (precedes b a)) && all_ranges (third a b) m

abbrev pub first : List DebugRange → DebugRange → Bool
first m a = not (precedes a a) && all_ranges (second m a) m

-- A strict order of some ranges is one of fewer ranges.
pub is_ordered-fewer :
    (m s : List DebugRange)
    → ((a : DebugRange) → In a s → In a m)
    → is_ordered m ≡ true
    → is_ordered s ≡ true
unfolding is_ordered
is_ordered-fewer m s sub h = all_ranges-all (first s) s (λ a i.
    let p =
      and-true (not (precedes a a)) (all_ranges (second m a) m)
        (all_ranges-In (first m) m a h (sub a i)) in
    both_true _ _ p.0 (
      all_ranges-all (second s a) s (λ b j.
        let q =
          and-true (same_range a b || one_of (precedes a b) (precedes b a))
            (all_ranges (third a b) m) (all_ranges-In (second m a) m b p.1 (sub b j)) in
        both_true _ _ q.0
          (all_ranges-all (third a b) s (λ c k. all_ranges-In (third a b) m c q.1 (sub c k))))))

pub not-true : (b : Bool) → not b ≡ true → b ≡ false
not-true b h = ground arith

pub other_way : (s x y : Bool) → (s || one_of x y) ≡ true → s ≡ false → x ≡ false → y ≡ true
other_way s x y h k l = ground arith

pub implied : (x y z : Bool) → (not (x && y) || z) ≡ true → x ≡ true → y ≡ true → z ≡ true
implied x y z h k l = ground arith

-- No later range precedes an earlier one.
abbrev pub IsAscending : List DebugRange → Type 0
IsAscending [] = Unit
IsAscending (x ∷ xs) = ((y : DebugRange) → In y xs → precedes y x ≡ false) × IsAscending xs

-- And none equals an earlier one.
abbrev pub IsStrict : List DebugRange → Type 0
IsStrict [] = Unit
IsStrict (x ∷ xs) =
    ((y : DebugRange) → In y xs → (precedes y x ≡ false) × (same_range x y ≡ false)) × IsStrict xs

pub different_back : (a b : DebugRange) → same_range a b ≡ false → same_range b a ≡ false
different_back a b h = elim (Bool-cases (same_range b a)) [
  | inr e ↦ e
  | inl e ↦
      let q = same_range→≡ b a e in
      ap (λ z. same_range z a) q ∙ sym (ap (λ z. same_range a z) q) ∙ h
]

pub clash : {b : Bool} → b ≡ true → b ≡ false → ⊥
clash h k = ground arith

pub deeper :
    (r x : DebugRange) (xs : List DebugRange) (y : DebugRange) (zs : List DebugRange)
    → (In y zs → (y ≡ r) ⊎ In y xs)
    → In y (x ∷ zs)
    → (y ≡ r) ⊎ In y (x ∷ xs)
deeper r x xs y zs f (inl e) = inr (inl e)
deeper r x xs y zs f (inr i) = elim (f i) [ inl q ↦ inl q | inr k ↦ inr (inr k) ]
