-- ===== src/Finding/Types.antt =====
-- internal/finding/types.go and the struct of finding.go. Severities, confidences and pillars are
-- Go strings, so any text may stand in their place.
use gruff_go.Base.{
  ℕ, Bool, true, false, Option, none, some, List, Text, codes, text_eq, leb, if◌then◌else◌,
}

unfoldable pub severity_advisory : Text
severity_advisory = codes "advisory"

unfoldable pub severity_warning : Text
severity_warning = codes "warning"

unfoldable pub severity_error : Text
severity_error = codes "error"

-- severityRank[s]: a miss is none.
unfoldable pub severity_rank : Text → Option ℕ
severity_rank s =
    if text_eq s severity_advisory
    then some 0
    else if text_eq s severity_warning
    then some 1
    else if text_eq s severity_error
    then some 2
    else none

-- Reading a Go map at a missing key gives the zero value.
abbrev pub or_zero : Option ℕ → ℕ
or_zero none = 0
or_zero (some n) = n

-- Severity.Valid
unfoldable pub severity_valid : Text → Bool
severity_valid s = elim (severity_rank s) [ none ↦ false | some _ ↦ true ]

-- Severity.AtLeast
unfoldable pub at_least : Text → Text → Bool
at_least s threshold = leb (or_zero (severity_rank threshold)) (or_zero (severity_rank s))

-- ParseSeverity
unfoldable pub parse_severity : Text → Option Text
parse_severity input = if severity_valid input then some input else none

unfoldable pub confidence_low : Text
confidence_low = codes "low"

unfoldable pub confidence_medium : Text
confidence_medium = codes "medium"

pub record Location : Type 0 where
  pub line : ℕ
  pub column : ℕ
  pub end_line : ℕ

-- A value of map[string]any, by the dynamic types that the program tells apart. In a []any an item
-- is a string or not. A float64 stands by its integer part, which is all that the program reads.
pub data MetaValue : Type 0 where
  int_value int64_value float_value : ℕ → MetaValue
  text_value : Text → MetaValue
  texts_value : List Text → MetaValue
  anys_value : List (Option Text) → MetaValue
  other_value : MetaValue

-- The nil map and the empty map read alike.
abbrev pub Metadata : Type 0
Metadata = List (Text × MetaValue)

pub record Finding : Type 0 where
  pub rule_id : Text
  pub message : Text
  pub file : Text
  pub location : Option Location
  pub symbol : Text
  pub severity : Text
  pub confidence : Text
  pub pillar : Text
  pub secondary_pillars : List Text
  pub tier : Text
  pub remediation : Text
  pub metadata : Metadata
  pub fingerprint : Text
  pub stable_identity : Text
