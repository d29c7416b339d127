-- ===== src/Pathfilter/Patterns.antt =====
-- Validate, Matches and FirstMatch of internal/pathfilter/pathfilter.go.
use gruff_go.Base.{
  ℕ, suc, Bool, true, false, not, ◌&&◌, ◌||◌, Option, none, some, List, [], ◌∷◌, ◌++◌, Text,
  text_eq, has_prefix, has_suffix, trim_prefix, trim_suffix, contains_byte, ltb, leb, ◌==◌,
  if◌then◌else◌, codes,
}

-- The errors of Validate.
pub data PatternError : Type 0 where
  no_pattern : PatternError
  not_relative : PatternError
  drive_qualifier : PatternError
  backslash : PatternError
  outside : PatternError
  misplaced_recursion : PatternError
  invalid_glob : PatternError

abbrev pub is_letter : ℕ → Bool
is_letter c = (leb b'A' c && leb c b'Z') || (leb b'a' c && leb c b'z')

-- A letter and a colon at the start.
abbrev pub has_drive : Text → Bool
has_drive (c ∷ d ∷ s) = is_letter c && (d == b':')
has_drive _ = false

-- strings.Count(pattern, "**")
unfoldable pub count_recursive : Text → ℕ
count_recursive [] = 0
count_recursive (c ∷ []) = 0
count_recursive (c ∷ d ∷ s) =
    let pair = suc (count_recursive s) in
    let next = count_recursive (d ∷ s) in if (c == b'*') && (d == b'*') then pair else next

abbrev pub recursive_suffix : Text
recursive_suffix = codes "/**"

-- The pattern that Validate tries out.
abbrev pub probe_of : Text → Text
probe_of pattern =
    if has_suffix pattern recursive_suffix
    then trim_suffix pattern recursive_suffix ++ codes "/*"
    else pattern

abbrev pub is_outside : Text → Bool
is_outside cleaned =
    text_eq cleaned (codes ".") || text_eq cleaned (codes "..") || has_prefix cleaned (codes "../")

abbrev pub is_misplaced : Text → Bool
is_misplaced pattern =
    ltb 1 (count_recursive pattern)
    || ((count_recursive pattern == 1) && not (has_suffix pattern recursive_suffix))

abbrev pub is_bad : Option Bool → Bool
is_bad none = true
is_bad (some ok) = false

abbrev pub is_ok : Option Bool → Bool
is_ok none = false
is_ok (some ok) = ok

-- path.Clean and path.Match are given; path.Match has no result on a malformed pattern.
module _ (clean : Text → Text) (glob : Text → Text → Option Bool) where
  -- Validate
  unfoldable pub validate : Text → Option PatternError
  validate pattern =
      if text_eq pattern []
      then some no_pattern
      else if has_prefix pattern (codes "/")
      then some not_relative
      else if has_drive (clean pattern)
      then some drive_qualifier
      else if contains_byte pattern 92
      then some backslash
      else if is_outside (clean pattern)
      then some outside
      else if is_misplaced pattern
      then some misplaced_recursion
      else if is_bad (glob (probe_of pattern) (codes "probe"))
      then some invalid_glob
      else none

  -- Matches, after its two assignments to pattern
  unfoldable pub matches_pattern : Text → Text → Bool
  matches_pattern pattern rel =
      if has_suffix pattern recursive_suffix
      then text_eq rel (trim_suffix pattern recursive_suffix)
        || has_prefix rel (trim_suffix pattern recursive_suffix ++ codes "/")
      else is_ok (glob pattern rel) || text_eq rel (clean pattern)

  -- The pattern without its first "./", and with "**" after a last slash.
  abbrev pub whole_pattern : Text → Text
  whole_pattern pattern = if has_suffix pattern (codes "/") then pattern ++ codes "**" else pattern

  -- Matches
  unfoldable pub matches : Text → Text → Bool
  matches pattern rel =
      matches_pattern (whole_pattern (trim_prefix pattern (codes "./")))
        (clean (trim_prefix rel (codes "./")))

  -- FirstMatch; a Boolean and a pattern are an optional pattern.
  unfoldable pub first_match : List Text → Text → Option Text
  first_match [] rel = none
  first_match (candidate ∷ patterns) rel =
      let rest = first_match patterns rel in if matches candidate rel then some candidate else rest

  abbrev pub is_match : Option Text → Bool
  is_match none = false
  is_match (some pattern) = true

  -- MatchesAny
  unfoldable pub matches_any : List Text → Text → Bool
  matches_any patterns rel = is_match (first_match patterns rel)
