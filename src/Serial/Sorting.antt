-- ===== src/Serial/Sorting.antt =====
-- src/debug.cpp and src/bytecode.cpp: the order of debug ranges, and `ByteCode::sortMetadata`.
use choice_lang.Prelude.{
  Bool, true, false, not, ◌&&◌, ◌||◌, Option, none, some, List, [], ◌∷◌, leb, ◌==◌, if◌then◌else◌,
}
use choice_lang.Object.{DebugRange}

abbrev pub bytes_equal : DebugRange → DebugRange → Bool
bytes_equal a b = a.byte_start == b.byte_start && a.byte_end == b.byte_end

abbrev pub location_equal : DebugRange → DebugRange → Bool
location_equal a b = a.source_start == b.source_start && a.source_end == b.source_end

-- `operator==`.
abbrev pub same_range : DebugRange → DebugRange → Bool
same_range a b = bytes_equal a b && location_equal a b

abbrev pub bytes_inside : DebugRange → DebugRange → Bool
bytes_inside a b =
    not (bytes_equal a b) && (leb b.byte_start a.byte_start && leb a.byte_end b.byte_end)

abbrev pub location_inside : DebugRange → DebugRange → Bool
location_inside a b =
    not (location_equal a b) && (leb b.source_start a.source_start && leb a.source_end b.source_end)

-- The comparison that `std::sort` is given.
unfoldable pub precedes : DebugRange → DebugRange → Bool
precedes a b = bytes_inside a b || (location_inside a b || leb a.byte_end b.byte_start)

abbrev pub all_ranges : (DebugRange → Bool) → List DebugRange → Bool
all_ranges f [] = true
all_ranges f (r ∷ m) = f r && all_ranges f m

abbrev pub one_of : Bool → Bool → Bool
one_of true b = not b
one_of false b = b

-- A strict order in which different ranges are not equivalent: what `std::sort` wants of its
-- comparison, and what makes its result the only one.
unfoldable pub is_ordered : List DebugRange → Bool
is_ordered m =
    all_ranges
      (λ a.
        not (precedes a a)
        && all_ranges
            (λ b.
              (same_range a b || one_of (precedes a b) (precedes b a))
              && all_ranges (λ c. not (precedes a b && precedes b c) || precedes a c) m)
            m)
      m

abbrev pub insert_range : DebugRange → List DebugRange → List DebugRange
insert_range r [] = r ∷ []
insert_range r (x ∷ xs) =
    let rest = insert_range r xs in if precedes x r then x ∷ rest else r ∷ x ∷ xs

abbrev pub sort_ranges : List DebugRange → List DebugRange
sort_ranges [] = []
sort_ranges (r ∷ m) = insert_range r (sort_ranges m)

-- `std::unique`: an element that equals the last one that was kept goes.
abbrev pub unique_from : DebugRange → List DebugRange → List DebugRange
unique_from last [] = []
unique_from last (r ∷ m) = if same_range last r then unique_from last m else r ∷ unique_from r m

abbrev pub unique : List DebugRange → List DebugRange
unique [] = []
unique (r ∷ m) = r ∷ unique_from r m

-- No result where the comparison is no such order: the sort is then undefined, or the order of some
-- ranges is.
unfoldable pub sort_metadata : List DebugRange → Option (List DebugRange)
sort_metadata m = if is_ordered m then some (unique (sort_ranges m)) else none
