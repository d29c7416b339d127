-- ===== src/Scoring/Points.antt =====
-- What one finding weighs, the letter grades and the bins of internal/scoring/scoring.go.
use gruff_go.Base.{
  ℕ, ◌*◌, ◌/◌, Bool, Option, none, some, Text, text_key, text_eq, has_prefix, lookup, leb,
  if◌then◌else◌, codes,
}
use gruff_go.Finding.{
  Finding, Metadata, MetaValue, int_value, int64_value, float_value, severity_advisory,
  severity_warning, severity_error, confidence_low, confidence_medium,
}

-- What the code does with a float64: the constant 0, conversions, +, /, > and int(math.Round(x)).
-- No penalty is negative, so a rounded one is a natural number.
pub record Float (F : Type 0) : Type 0 where
  pub nought : F
  pub of_int : ℕ → F
  pub add : F → F → F
  pub div : F → F → F
  pub gt : F → F → Bool
  pub round : F → ℕ

abbrev pub max : ℕ → ℕ → ℕ
max a b = if leb a b then b else a

-- The map from severity to weight; a missing key reads as 0.
abbrev pub severity_weight : Text → ℕ
severity_weight s =
    if text_eq s severity_advisory
    then 1
    else if text_eq s severity_warning
    then 8
    else if text_eq s severity_error
    then 30
    else 0

-- findingPenalty
unfoldable pub finding_penalty : Finding → ℕ
finding_penalty item =
    let base = severity_weight item.severity in
    if text_eq item.confidence confidence_low
    then max 1 (base / 2)
    else if text_eq item.confidence confidence_medium
    then max 1 (base * 3 / 4)
    else base

-- scoreNeutralFinding
unfoldable pub score_neutral_finding : Finding → Bool
score_neutral_finding item = has_prefix item.rule_id (codes "design.")

-- grade
unfoldable pub grade : ℕ → Text
grade score =
    if leb 90 score
    then codes "A"
    else if leb 80 score
    then codes "B"
    else if leb 70 score
    then codes "C"
    else if leb 60 score
    then codes "D"
    else codes "F"

-- complexityBin
unfoldable pub complexity_bin : ℕ → Text
complexity_bin complexity =
    if leb complexity 5
    then codes "1-5"
    else if leb complexity 10
    then codes "6-10"
    else if leb complexity 15
    then codes "11-15"
    else if leb complexity 20
    then codes "16-20"
    else codes "21+"

abbrev int_in : Option MetaValue → Option ℕ
int_in (some (int_value n)) = some n
int_in (some (int64_value n)) = some n
int_in (some (float_value n)) = some n
int_in _ = none

-- metadataInt
unfoldable pub metadata_int : Metadata → Text → Option ℕ
metadata_int m key = int_in (lookup key m)

abbrev pub cyclomatic_rule : Text
cyclomatic_rule = codes "complexity.cyclomatic"

-- The value that complexityFindingDistribution charts for a finding, if there is one.
unfoldable pub charted : Finding → Option ℕ
charted item =
    if text_eq item.rule_id cyclomatic_rule
    then metadata_int item.metadata (codes "complexity")
    else none
