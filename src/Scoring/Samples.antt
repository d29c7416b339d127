-- ===== src/Scoring/Samples.antt =====
-- Concrete findings for internal/scoring/scoring.go, with whole numbers for a float64.
use gruff_go.Base.{
  ℕ, ◌+◌, ◌/◌, ◌≡◌, ◌⊎◌, ◌≤◌, refl, some, List, [], ◌∷◌, ◌++◌, map, Text, codes, ltb, length,
  lookup, contains, text_key, has_prefix, keep_if, set_insert, insert, text_eq, IsRanked,
}
use mathlib.Core.List.{Perm}
use gruff_go.Finding.{
  severity_advisory, confidence_medium, confidence_low, Finding, severity_error, severity_warning,
  int_value,
}
use gruff_go.Scoring.Points.{Float, finding_penalty, score_neutral_finding, cyclomatic_rule}
use gruff_go.Scoring.Clusters.{
  max_loop, max_float, share_loop, share_group, cluster_key_eq, correlated_rule, key_of, group_loop,
  share_groups, cluster_penalties,
}
use gruff_go.Scoring.Tally.{FileScore, tally_loop, tally_finding, add_penalty, pillar_set}
use gruff_go.Scoring.Totals.{calculate, finished, tally, composite_total, top_offenders, file_score}
use gruff_go.Scoring.Sharing.{billed, cluster_penalties_lem}
use gruff_go.Scoring.Neutral.{is_scored, calculate-scored}
use gruff_go.Scoring.Tallied.{IsDistinct, counts}
use gruff_go.Scoring.Bounds.{IsScore, calculate-IsScore}
use gruff_go.Scoring.Offenders.{IsWorse, top_offenders_lem}

abbrev whole : Float ℕ
whole = record {
  nought = 0;
  of_int = λ n. n;
  add = λ a b. a + b;
  div = λ a b. a / b;
  gt = λ a b. ltb b a;
  round = λ n. n;
}

abbrev finding_of : Text → Text → Text → Finding
finding_of rule severity pillar = record {
  rule_id = rule;
  message = codes "m";
  file = codes "a.go";
  location = some (record { line = 3; column = 1; end_line = 9 });
  symbol = codes "Run";
  severity = severity;
  confidence = codes "high";
  pillar = pillar;
  secondary_pillars = [];
  tier = [];
  remediation = [];
  metadata = (codes "complexity", int_value 12) ∷ [];
  fingerprint = [];
  stable_identity = [];
}

-- Two findings on one function, and one of a design rule.
abbrev findings : List Finding
findings =
    finding_of cyclomatic_rule severity_error (codes "complexity")
    ∷ finding_of (codes "size.function-length") severity_warning (codes "size")
    ∷ finding_of (codes "design.unused-export") severity_error (codes "design")
    ∷ []

abbrev rule_backed : List Text
rule_backed = codes "size" ∷ codes "complexity" ∷ codes "security" ∷ []

cluster_penalties_lem_example :
    cluster_penalties whole findings ≡ map (billed whole findings) findings
cluster_penalties_lem_example = cluster_penalties_lem whole findings

shared : cluster_penalties whole findings ≡ 15 ∷ 15 ∷ 30 ∷ []
unfolding cluster_penalties share_groups group_loop key_of correlated_rule text_eq insert
    cluster_key_eq share_group lookup share_loop max_float finding_penalty max_loop confidence_low
    confidence_medium severity_error severity_advisory severity_warning
shared = refl

calculate-scored_example :
    calculate whole (keep_if is_scored findings) rule_backed ≡ calculate whole findings rule_backed
calculate-scored_example = calculate-scored whole findings rule_backed

calculate-IsScore_example :
    (pillars : List Text) × IsDistinct pillars
    × ((k : Text) → contains pillars k ≡ counts findings rule_backed k)
    × IsScore {F = ℕ} pillars (calculate whole findings rule_backed)
calculate-IsScore_example = calculate-IsScore whole findings rule_backed

-- (85 + 85 + 100) / 3
composite_90 : (calculate whole findings rule_backed).composite ≡ 90
unfolding calculate finished tally tally_loop tally_finding cluster_penalties group_loop key_of
    correlated_rule cluster_key_eq share_groups share_group share_loop max_float max_loop
    finding_penalty score_neutral_finding has_prefix add_penalty composite_total pillar_set text_eq
    insert lookup set_insert contains confidence_low confidence_medium severity_error
    severity_advisory severity_warning
composite_90 = refl

abbrev penalties : List (Text × ℕ)
penalties = (codes "a.go", 3) ∷ (codes "b.go", 7) ∷ []

top_offenders_lem_example :
    (rest : List FileScore) × Perm
      (top_offenders whole penalties [] [] ++ rest)
      (map (file_score whole [] []) penalties)
    × IsRanked IsWorse (top_offenders whole penalties [] [] ++ rest)
    × (length (top_offenders whole penalties [] []) ≤ 5)
    × ((rest ≡ []) ⊎ (length (top_offenders whole penalties [] []) ≡ 5))
top_offenders_lem_example = top_offenders_lem whole penalties [] []
