-- ===== src/Pathfilter/Samples.antt =====
-- Concrete patterns for internal/pathfilter/pathfilter.go.
use gruff_go.Base.{
  ◌≡◌, ◌↔◌, refl, Bool, Option, none, some, List, [], ◌∷◌, Text, text_eq, has_prefix, has_suffix,
  trim_prefix, trim_suffix, contains_byte, codes,
}
use gruff_go.Pathfilter.Patterns.{
  misplaced_recursion, count_recursive, validate, matches, matches_pattern, first_match,
}
use gruff_go.Pathfilter.First.{matches_dir}
use gruff_go.Pathfilter.Accepted.{IsPattern, validate_iff}

-- Paths are clean already, and no pattern has a wildcard.
abbrev clean : Text → Text
clean path = path

abbrev glob : Text → Text → Option Bool
glob pattern name = some (text_eq pattern name)

abbrev patterns : List Text
patterns = codes "docs" ∷ codes "gen/**" ∷ codes "gen/" ∷ []

second_pattern : first_match clean glob patterns (codes "gen/a.go") ≡ some (codes "gen/**")
unfolding first_match matches matches_pattern has_suffix has_prefix trim_prefix trim_suffix text_eq
second_pattern = refl

matches_dir_example :
    matches clean glob (codes "gen/") (codes "gen/a.go")
    ≡ matches clean glob (codes "gen/**") (codes "gen/a.go")
matches_dir_example = matches_dir clean glob b'g' b'e' (codes "n") (codes "gen/a.go")

validate_iff_example :
    (validate clean glob (codes "gen/**") ≡ none) ↔ IsPattern clean glob (codes "gen/**")
validate_iff_example = validate_iff clean glob (codes "gen/**")

stars_inside : validate clean glob (codes "a/**/b") ≡ some misplaced_recursion
unfolding validate text_eq has_prefix has_suffix contains_byte count_recursive
stars_inside = refl
