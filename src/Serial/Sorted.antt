-- ===== src/Serial/Sorted.antt =====
-- src/bytecode.cpp: what `sortMetadata` leaves, it leaves as it is.
use choice_lang.Prelude.{
  ◌≡◌, ◌⊎◌, inl, inr, refl, ap, ◌∙◌, true, false, not, ◌||◌, Option, some, none, List, [], ◌∷◌,
  and-true, Bool-cases,
}
use mathlib.Core.Path.{subst}
use choice_lang.Object.{DebugRange}
use choice_lang.Serial.Sorting.{
  same_range, precedes, all_ranges, one_of, is_ordered, insert_range, sort_ranges, unique_from,
  unique, sort_metadata,
}
use choice_lang.Serial.Ordered.{
  In, same_range→≡, all_ranges-In, third, second, first, is_ordered-fewer, not-true, other_way,
  implied, IsAscending, IsStrict, different_back, clash, deeper,
}

module _ (m : List DebugRange) (ordered : is_ordered m ≡ true) where
  irreflexive : (a : DebugRange) → In a m → precedes a a ≡ false
  unfolding is_ordered
  irreflexive a i =
      let p =
        and-true (not (precedes a a)) (all_ranges (second m a) m)
          (all_ranges-In (first m) m a ordered i) in
      not-true (precedes a a) p.0

  pair : (a b : DebugRange) → In a m → In b m → second m a b ≡ true
  unfolding is_ordered
  pair a b i j =
      let p =
        and-true (not (precedes a a)) (all_ranges (second m a) m)
          (all_ranges-In (first m) m a ordered i) in
      all_ranges-In (second m a) m b p.1 j

  total :
      (a b : DebugRange)
      → In a m
      → In b m
      → same_range a b ≡ false
      → precedes a b ≡ false
      → precedes b a ≡ true
  total a b i j different h =
      let p =
        (and-true (same_range a b || one_of (precedes a b) (precedes b a))
          (all_ranges (third a b) m) (pair a b i j)).0 in
      other_way (same_range a b) (precedes a b) (precedes b a) p different h

  transitive :
      (a b c : DebugRange)
      → In a m
      → In b m
      → In c m
      → precedes a b ≡ true
      → precedes b c ≡ true
      → precedes a c ≡ true
  transitive a b c i j k h l =
      let p =
        (and-true (same_range a b || one_of (precedes a b) (precedes b a))
          (all_ranges (third a b) m) (pair a b i j)).1 in
      let q = all_ranges-In (third a b) m c p k in
      implied (precedes a b) (precedes b c) (precedes a c) q h l

  -- Nothing precedes a range that it follows.
  not_back : (a b : DebugRange) → In a m → In b m → precedes a b ≡ true → precedes b a ≡ false
  not_back a b i j h = elim (Bool-cases (precedes b a)) [
    | inl e ↦ absurd (clash (transitive a b a i j i h e) (irreflexive a i))
    | inr e ↦ e
  ]

  -- What does not precede `x`, does not precede `r`, if `x` does not precede `r`.
  no_shortcut :
      (x r y : DebugRange)
      → In x m
      → In r m
      → In y m
      → precedes x r ≡ false
      → precedes y x ≡ false
      → precedes y r ≡ false
  no_shortcut x r y i j k h l = elim (Bool-cases (precedes y r)) [
    | inr e ↦ e
    | inl e ↦ elim (Bool-cases (same_range y x)) [
      | inl q ↦ ap (λ z. precedes z r) (same_range→≡ y x q) ∙ h
      | inr q ↦ absurd (clash (transitive x y r i k j (total y x k i q l) e) h)
    ]
  ]

  insert_range-In :
      (r : DebugRange) (xs : List DebugRange) (y : DebugRange)
      → In y (insert_range r xs)
      → (y ≡ r) ⊎ In y xs
  insert_range-In r [] y i = i
  insert_range-In r (x ∷ xs) y i = elim (Bool-cases (precedes x r)) [
    | inl e ↦ deeper r x xs y (insert_range r xs) (insert_range-In r xs y) (rw e at i)
    | inr e ↦ rw e at i
  ]

  insert_range-IsAscending :
      (r : DebugRange) (xs : List DebugRange)
      → In r m
      → ((y : DebugRange) → In y xs → In y m)
      → IsAscending xs
      → IsAscending (insert_range r xs)
  insert_range-IsAscending r [] i sub h = (λ y j. absurd j, tt)
  insert_range-IsAscending r (x ∷ xs) i sub h = elim (Bool-cases (precedes x r)) [
    | inl e ↦ rw e (
      λ y j. elim (insert_range-In r xs y j) [
        | inl q ↦ ap (λ z. precedes z x) q ∙ not_back x r (sub x (inl refl)) i e
        | inr k ↦ h.0 y k
      ],
      insert_range-IsAscending r xs i (λ y k. sub y (inr k)) h.1,
    )
    | inr e ↦ rw e (
      λ y j. elim j [
        | inl q ↦ ap (λ z. precedes z r) q ∙ e
        | inr k ↦ no_shortcut x r y (sub x (inl refl)) i (sub y (inr k)) e (h.0 y k)
      ],
      h,
    )
  ]

  sort_ranges-IsAscending :
      (xs : List DebugRange)
      → ((y : DebugRange) → In y xs → In y m)
      → IsAscending (sort_ranges xs) × ((y : DebugRange) → In y (sort_ranges xs) → In y m)
  sort_ranges-IsAscending [] sub = (tt, λ y i. absurd i)
  sort_ranges-IsAscending (r ∷ xs) sub =
      let (up, inside) = sort_ranges-IsAscending xs (λ y i. sub y (inr i)) in
      (
        insert_range-IsAscending r (sort_ranges xs) (sub r (inl refl)) inside up,
        λ y i. elim (insert_range-In r (sort_ranges xs) y i) [
          | inl q ↦ sub y (inl q)
          | inr k ↦ inside y k
        ],
      )

  -- What follows a range in an ascending list, and differs from it, does not equal it further on.
  apart :
      (last r y : DebugRange)
      → In last m
      → In r m
      → same_range last r ≡ false
      → precedes r last ≡ false
      → precedes y r ≡ false
      → same_range last y ≡ false
  apart last r y i j different h l = elim (Bool-cases (same_range last y)) [
    | inr e ↦ e
    | inl e ↦ absurd (
        clash (total r last j i (different_back last r different) h)
          (ap (λ z. precedes z r) (same_range→≡ last y e) ∙ l))
  ]

  unique_from-IsAscending :
      (last : DebugRange) (xs : List DebugRange)
      → In last m
      → ((y : DebugRange) → In y xs → In y m)
      → IsAscending (last ∷ xs)
      → IsStrict (last ∷ unique_from last xs)
        × ((y : DebugRange) → In y (unique_from last xs) → In y xs)
  unique_from-IsAscending last [] i sub h = ((λ y j. absurd j, tt), λ y j. j)
  unique_from-IsAscending last (r ∷ xs) i sub h =
      let same_first =
        unique_from-IsAscending last xs i (λ y j. sub y (inr j)) (λ y j. h.0 y (inr j), h.1.1) in
      let next = unique_from-IsAscending r xs (sub r (inl refl)) (λ y j. sub y (inr j)) h.1 in
      elim (Bool-cases (same_range last r)) [
        | inl e ↦ rw e (same_first.0, λ y j. inr (same_first.1 y j))
        | inr e ↦ rw e (
          (
            λ y j. elim j [
              | inl q ↦ (
                ap (λ z. precedes z last) q ∙ h.0 r (inl refl),
                ap (λ z. same_range last z) q ∙ e,
              )
              | inr k ↦ (
                h.0 y (inr (next.1 y k)),
                apart last r y i (sub r (inl refl)) e (h.0 r (inl refl)) (next.0.0 y k).0,
              )
            ],
            next.0,
          ),
          λ y j. elim j [ inl q ↦ inl q | inr k ↦ inr (next.1 y k) ],
        )
      ]

  unique-IsAscending :
      (xs : List DebugRange)
      → ((y : DebugRange) → In y xs → In y m)
      → IsAscending xs
      → IsStrict (unique xs) × ((y : DebugRange) → In y (unique xs) → In y m)
  unique-IsAscending [] sub h = (tt, λ y i. absurd i)
  unique-IsAscending (r ∷ xs) sub h =
      let (strict, inside) =
        unique_from-IsAscending r xs (sub r (inl refl)) (λ y i. sub y (inr i)) h in
      (strict, λ y i. elim i [ inl q ↦ sub y (inl q) | inr k ↦ sub y (inr (inside y k)) ])

-- Sorting leaves a strict list as it is.
insert_range-first :
    (x : DebugRange) (xs : List DebugRange) → IsStrict (x ∷ xs) → insert_range x xs ≡ x ∷ xs
insert_range-first x [] h = refl
insert_range-first x (y ∷ ys) h = rw ((h.0 y (inl refl)).0) refl

sort_ranges-IsStrict : (xs : List DebugRange) → IsStrict xs → sort_ranges xs ≡ xs
sort_ranges-IsStrict [] h = refl
sort_ranges-IsStrict (x ∷ xs) h =
    ap (insert_range x) (sort_ranges-IsStrict xs h.1) ∙ insert_range-first x xs h

unique_from-IsStrict :
    (x : DebugRange) (xs : List DebugRange) → IsStrict (x ∷ xs) → unique_from x xs ≡ xs
unique_from-IsStrict x [] h = refl
unique_from-IsStrict x (y ∷ ys) h =
    rw ((h.0 y (inl refl)).1) (ap (λ l. y ∷ l) (unique_from-IsStrict y ys h.1))

unique-IsStrict : (xs : List DebugRange) → IsStrict xs → unique xs ≡ xs
unique-IsStrict [] h = refl
unique-IsStrict (x ∷ xs) h = ap (λ l. x ∷ l) (unique_from-IsStrict x xs h)

sorted_again :
    (m : List DebugRange)
    → is_ordered m ≡ true
    → sort_metadata (unique (sort_ranges m)) ≡ some (unique (sort_ranges m))
unfolding sort_metadata
sorted_again m ordered =
    let (up, inside) = sort_ranges-IsAscending m ordered m (λ y i. i) in
    let (strict, sub) = unique-IsAscending m ordered (sort_ranges m) inside up in
    let s = unique (sort_ranges m) in
    rw (is_ordered-fewer m s sub ordered)
      (ap some (ap unique (sort_ranges-IsStrict s strict) ∙ unique-IsStrict s strict))

abbrev LeftAsItIs : Option (List DebugRange) → Type 0
LeftAsItIs none = Unit
LeftAsItIs (some s) = sort_metadata s ≡ some s

sorted_or_none : (m : List DebugRange) → LeftAsItIs (sort_metadata m)
unfolding sort_metadata
sorted_or_none m = elim (Bool-cases (is_ordered m)) [
  | inl e ↦ rw e (sorted_again m e)
  | inr e ↦ rw e tt
]

pub sort_metadata-again :
    (m s : List DebugRange) → sort_metadata m ≡ some s → sort_metadata s ≡ some s
sort_metadata-again m s h = subst LeftAsItIs h (sorted_or_none m)
