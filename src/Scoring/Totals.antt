-- ===== src/Scoring/Totals.antt =====
-- What Calculate of internal/scoring/scoring.go makes of its maps: pillar scores, the composite, the
-- worst files.
use gruff_go.Base.{
  ℕ, zero, suc, ◌+◌, ◌*◌, ◌-◌, ◌/◌, List, [], ◌∷◌, ◌++◌, map, Text, text_key, text_compare, lookup,
  sort_by, length, take, compare, Ordering, ltb, ◌==◌, if◌then◌else◌, codes,
}
use gruff_go.Finding.{Finding, or_zero}
use gruff_go.Scoring.Points.{Float, grade}
use gruff_go.Scoring.Clusters.{cluster_penalties}
use gruff_go.Scoring.Tally.{
  ScoreCoverage, PillarDetail, FileScore, Score, Tally, tally_loop, pillar_set, empty_tally,
  complexity_finding_distribution, float_or_nought,
}

abbrev pub keys : {A : Type 0} → List (Text × A) → List Text
keys [] = []
keys ((key, _) ∷ m) = key ∷ keys m

-- The decimal digits of 1 and 2, which are all that the caveat prints.
abbrev pub small_digits : ℕ → Text
small_digits n = if n == 1 then codes "1" else codes "2"

-- pluralise
abbrev pub pluralise : ℕ → Text → Text → Text
pluralise count singular plural = if count == 1 then singular else plural

abbrev pub coverage_caveat : ℕ → Text
coverage_caveat n =
    if n == 0
    then codes
        "No score-impacting findings; the score reflects configured parser rules and thresholds, not exhaustive semantic proof."
    else if ltb n 3
    then codes "Composite grade is driven by "
      ++ small_digits n
      ++ codes " score-impacting "
      ++ pluralise n (codes "pillar") (codes "pillars")
      ++ codes
          "; clean pillars mean no above-threshold findings from configured rules, not broad risk coverage."
    else []

-- scoreCoverage
unfoldable pub score_coverage : {F : Type 0} → List (Text × F) → ScoreCoverage
score_coverage pillar_penalty = record {
  contributing_pillars = sort_by text_compare (keys pillar_penalty);
  caveat = coverage_caveat (length pillar_penalty);
}

-- The order of topOffenders: the greater penalty first, then by file.
abbrev pub compare_offenders : FileScore → FileScore → Ordering
compare_offenders a b = elim (compare b.penalty a.penalty) [
  | Ordering.eq ↦ text_compare a.file b.file
  | other ↦ other
]

-- Division by len(compositePillars), where it is not 0: a pillar with a penalty is in the set.
abbrev pub mean : ℕ → ℕ → ℕ
mean total zero = 0
mean total (suc n) = total / suc n

module _ {F : Type 0} (fl : Float F) where
  -- max(0, 100-roundPenalty(penalty))
  abbrev pub clamped_score : F → ℕ
  clamped_score penalty = 100 - fl.round penalty

  abbrev pub file_score : List (Text × ℕ) → List (Text × ℕ) → Text × F → FileScore
  file_score file_findings file_max (file, penalty) = record {
    file = file;
    penalty = fl.round penalty;
    findings = or_zero (lookup file file_findings);
    grade = grade (clamped_score penalty);
    max_cyclomatic = lookup file file_max;
  }

  -- topOffenders
  unfoldable pub top_offenders :
      List (Text × F) → List (Text × ℕ) → List (Text × ℕ) → List FileScore
  top_offenders file_penalty file_findings file_max =
      take 5 (sort_by compare_offenders (map (file_score file_findings file_max) file_penalty))

  -- The loop that scores the pillars with findings.
  unfoldable pub pillar_scores : List (Text × F) → List (Text × ℕ)
  pillar_scores [] = []
  pillar_scores ((pillar, penalty) ∷ m) = (pillar, clamped_score penalty) ∷ pillar_scores m

  -- The same loop's running total, where the sum is never below 100.
  unfoldable pub composite_total : ℕ → List (Text × F) → ℕ
  composite_total total [] = total
  composite_total total ((_, penalty) ∷ m) = composite_total (total + clamped_score penalty - 100) m

  -- The loop that completes the details.
  abbrev pub completed : List (Text × ℕ) → List (Text × F) → Text × PillarDetail F → PillarDetail F
  completed scores penalties (pillar, detail) =
      let score = or_zero (lookup pillar scores) in
      record detail {
        score = score;
        grade = grade score;
        penalty = float_or_nought fl (lookup pillar penalties);
      }

  abbrev pub compare_details : PillarDetail F → PillarDetail F → Ordering
  compare_details a b = text_compare a.pillar b.pillar

  -- collectPillarDetails, of the completed details
  unfoldable pub collect_pillar_details :
      List (Text × ℕ) → List (Text × F) → List (Text × PillarDetail F) → List (PillarDetail F)
  collect_pillar_details scores penalties details =
      sort_by compare_details (map (completed scores penalties) details)

  -- The score of a run with no score-impacting finding.
  abbrev pub clean_score : List (Text × ℕ) → Score F
  clean_score distribution = record {
    composite = 100;
    grade = codes "A";
    pillars = [];
    pillar_details = [];
    coverage = score_coverage {F = F} [];
    top_offender = [];
    complexity_distribution = distribution;
    complexity_distribution_scope = codes "finding-only";
  }

  abbrev pub score_of : List (Text × ℕ) → Tally F → Score F
  score_of distribution t =
      let scores = pillar_scores t.pillar_penalty in
      let composite =
        mean (composite_total (100 * length t.composite_pillars) t.pillar_penalty)
          (length t.composite_pillars) in
      record {
        composite = composite;
        grade = grade composite;
        pillars = scores;
        pillar_details = collect_pillar_details scores t.pillar_penalty t.pillar_counts;
        coverage = score_coverage t.pillar_penalty;
        top_offender = top_offenders t.file_penalty t.file_findings t.file_max_cyclomatic;
        complexity_distribution = distribution;
        complexity_distribution_scope = codes "finding-only";
      }

  -- The final tally of Calculate.
  unfoldable pub tally : List Finding → List Text → Tally F
  tally fs rule_backed =
      tally_loop fl fs (cluster_penalties fl fs) (empty_tally fl (pillar_set rule_backed []))

  -- Calculate from its tally on
  abbrev pub finished_as : List (Text × F) → List (Text × ℕ) → Tally F → Score F
  finished_as [] distribution t = clean_score distribution
  finished_as (_ ∷ _) distribution t = score_of distribution t

  unfoldable pub finished : List (Text × ℕ) → Tally F → Score F
  finished distribution t = finished_as t.pillar_penalty distribution t

  -- Calculate
  unfoldable pub calculate : List Finding → List Text → Score F
  calculate fs rule_backed = finished (complexity_finding_distribution fs) (tally fs rule_backed)
