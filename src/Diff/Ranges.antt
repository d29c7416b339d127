-- ===== src/Diff/Ranges.antt =====
-- parseRangeSet and ExplicitRanges of internal/diff/diff.go: changed lines given on the command line.
use gruff_go.Base.{
  ℕ, ◌+◌, ◌-◌, Bool, true, false, not, ◌||◌, ◌&&◌, Option, none, some, List, [], ◌∷◌, Text,
  text_key, split, trim_space, insert, if◌then◌else◌, ltb, leb, ◌==◌,
}
use gruff_go.Finding.{is_digit, is_empty}
use gruff_go.Diff.Changed.{
  ChangedLines, LineMap, nothing_changed, add_lines, copy_line_set, refresh_changed_files,
}
use gruff_go.Diff.Patch.{max_int, digits_value, counted_lines}

abbrev all_digits : Text → Bool
all_digits [] = true
all_digits (c ∷ s) = is_digit c && all_digits s

unfoldable pub atoi_unsigned : Text → Option ℕ
unfolding digits_value
atoi_unsigned s =
    if is_empty s || not (all_digits s)
    then none
    else if leb (digits_value 0 s) max_int
    then some (digits_value 0 s)
    else none

-- strconv.Atoi on a text with no minus sign in it, which is all that the callers pass.
unfoldable pub atoi : Text → Option ℕ
unfolding atoi_unsigned
atoi [] = none
atoi (c ∷ s) = if c == b'+' then atoi_unsigned s else atoi_unsigned (c ∷ s)

-- What one entry of the list stands for.
pub data RangeEntry : Type 0 where
  blank invalid : RangeEntry
  range : (first last : ℕ) → RangeEntry

abbrev pub valid_range : ℕ → Option ℕ → RangeEntry
valid_range start none = invalid
valid_range start (some end) = if ltb end start then invalid else range start end

abbrev pub range_from : Option ℕ → List Text → RangeEntry
range_from none rest = invalid
range_from (some start) [] = if ltb start 1 then invalid else range start start
range_from (some start) (last ∷ []) = if ltb start 1 then invalid else valid_range start (atoi last)
range_from (some start) (_ ∷ _ ∷ _) = invalid

abbrev pub range_bounds : List Text → RangeEntry
range_bounds [] = invalid
range_bounds (first ∷ rest) = range_from (atoi first) rest

-- The body of parseRangeSet's loop, up to its inner loop.
unfoldable pub parse_entry : Text → RangeEntry
unfolding atoi split trim_space
parse_entry part =
    if is_empty (trim_space part) then blank else range_bounds (split b'-' (trim_space part))

-- `unending` is a loop that never ends.
pub data RangeResult : Type 0 where
  lines : List ℕ → RangeResult
  bad_entry : Text → RangeResult
  no_ranges unending : RangeResult

-- The loop of parseRangeSet: the set so far, or the entry that it rejects. Where a range ends at the
-- greatest int, line++ wraps around and line <= end always holds, so the inner loop never ends.
unfoldable pub range_loop : List Text → List ℕ → RangeResult
range_loop [] out = lines out
range_loop (part ∷ parts) out = elim (parse_entry part) [
  | blank ↦ range_loop parts out
  | invalid ↦ bad_entry (trim_space part)
  | range start end ↦ elim (end == max_int) [
    | true ↦ unending
    | false ↦ range_loop parts (add_lines (counted_lines start (end + 1 - start)) out)
  ]
]

abbrev pub non_empty_set : RangeResult → RangeResult
non_empty_set (lines []) = no_ranges
non_empty_set other = other

-- parseRangeSet
unfoldable pub parse_range_set : Text → RangeResult
parse_range_set raw = non_empty_set (range_loop (split b',' raw) [])

-- The loop of ExplicitRanges.
unfoldable pub same_lines : List ℕ → List Text → LineMap → LineMap
unfolding insert copy_line_set
same_lines set [] m = m
same_lines set (file ∷ files) m = same_lines set files (insert file (copy_line_set set) m)

pub data Explicit : Type 0 where
  explicit : ChangedLines → Explicit
  refused : RangeResult → Explicit
  endless_ranges : Explicit

-- ExplicitRanges
unfoldable pub explicit_ranges : Text → Text → List Text → Explicit
unfolding parse_range_set same_lines refresh_changed_files
explicit_ranges base ranges files = elim (parse_range_set ranges) [
  | lines set ↦ explicit (
      refresh_changed_files
        (record (nothing_changed base) { lines_by_file = same_lines set files [] }))
  | bad_entry entry ↦ refused (bad_entry entry)
  | no_ranges ↦ refused no_ranges
  | unending ↦ endless_ranges
]
