-- ===== src/Scoring/Tally.antt =====
-- The main loop of Calculate in internal/scoring/scoring.go, and the records of a score.
use gruff_go.Base.{
  ℕ, ◌+◌, Option, none, some, List, [], ◌∷◌, Text, text_key, text_eq, set_insert, lookup, insert,
  ltb, if◌then◌else◌, codes,
}
use gruff_go.Finding.{Finding, or_zero, severity_advisory, severity_warning, severity_error}
use gruff_go.Scoring.Points.{Float, score_neutral_finding, charted, complexity_bin}

pub record ScoreCoverage : Type 0 where
  pub contributing_pillars : List Text
  pub caveat : Text

pub record PillarDetail (F : Type 0) : Type 0 where
  pub pillar : Text
  pub score : ℕ
  pub grade : Text
  pub findings : ℕ
  pub advisory : ℕ
  pub warning : ℕ
  pub error : ℕ
  pub penalty : F

pub record FileScore : Type 0 where
  pub file : Text
  pub penalty : ℕ
  pub findings : ℕ
  pub grade : Text
  pub max_cyclomatic : Option ℕ

pub record Score (F : Type 0) : Type 0 where
  pub composite : ℕ
  pub grade : Text
  pub pillars : List (Text × ℕ)
  pub pillar_details : List (PillarDetail F)
  pub coverage : ScoreCoverage
  pub top_offender : List FileScore
  pub complexity_distribution : List (Text × ℕ)
  pub complexity_distribution_scope : Text

-- incrementSeverity
unfoldable pub increment_severity : {F : Type 0} → PillarDetail F → Text → PillarDetail F
increment_severity detail severity =
    if text_eq severity severity_error
    then record detail { error = detail.error + 1 }
    else if text_eq severity severity_warning
    then record detail { warning = detail.warning + 1 }
    else if text_eq severity severity_advisory
    then record detail { advisory = detail.advisory + 1 }
    else detail

-- The maps that the loop fills.
pub record Tally (F : Type 0) : Type 0 where
  pub composite_pillars : List Text
  pub pillar_penalty : List (Text × F)
  pub file_penalty : List (Text × F)
  pub file_findings : List (Text × ℕ)
  pub file_max_cyclomatic : List (Text × ℕ)
  pub pillar_counts : List (Text × PillarDetail F)

abbrev pub record_max : Text → Option ℕ → List (Text × ℕ) → List (Text × ℕ)
record_max file none m = m
record_max file (some value) m = elim (lookup file m) [
  | none ↦ insert file value m
  | some existing ↦ if ltb existing value then insert file value m else m
]

-- The loop that fills compositePillars from the rule-backed pillars.
unfoldable pub pillar_set : List Text → List Text → List Text
pillar_set [] seen = seen
pillar_set (pillar ∷ pillars) seen = pillar_set pillars (set_insert pillar seen)

module _ {F : Type 0} (fl : Float F) where
  abbrev pub float_or_nought : Option F → F
  float_or_nought none = fl.nought
  float_or_nought (some x) = x

  -- m[key] += penalty
  unfoldable pub add_penalty : Text → F → List (Text × F) → List (Text × F)
  add_penalty key penalty m = insert key (fl.add (float_or_nought (lookup key m)) penalty) m

  abbrev pub fresh_detail : Text → PillarDetail F
  fresh_detail pillar = record {
    pillar = pillar;
    score = 0;
    grade = [];
    findings = 0;
    advisory = 0;
    warning = 0;
    error = 0;
    penalty = fl.nought;
  }

  abbrev pub detail_or_fresh : Text → Option (PillarDetail F) → PillarDetail F
  detail_or_fresh pillar none = fresh_detail pillar
  detail_or_fresh pillar (some detail) = detail

  abbrev pub counted : Finding → PillarDetail F → PillarDetail F
  counted item detail =
      increment_severity (record detail { findings = detail.findings + 1 }) item.severity

  -- The body of Calculate's loop for a finding that is not score-neutral.
  unfoldable pub tally_finding : Finding → F → Tally F → Tally F
  tally_finding item penalty t = record {
    composite_pillars = set_insert item.pillar t.composite_pillars;
    pillar_penalty = add_penalty item.pillar penalty t.pillar_penalty;
    file_penalty = add_penalty item.file penalty t.file_penalty;
    file_findings =
        insert item.file (or_zero (lookup item.file t.file_findings) + 1) t.file_findings;
    file_max_cyclomatic = record_max item.file (charted item) t.file_max_cyclomatic;
    pillar_counts =
        insert item.pillar
          (counted item (detail_or_fresh item.pillar (lookup item.pillar t.pillar_counts)))
          t.pillar_counts;
  }

  -- Calculate's loop: the findings with their penalties.
  unfoldable pub tally_loop : List Finding → List F → Tally F → Tally F
  tally_loop [] ps t = t
  tally_loop (f ∷ fs) [] t = t
  tally_loop (f ∷ fs) (p ∷ ps) t =
      tally_loop fs ps (if score_neutral_finding f then t else tally_finding f p t)

  abbrev pub empty_tally : List Text → Tally F
  empty_tally pillars = record {
    composite_pillars = pillars;
    pillar_penalty = [];
    file_penalty = [];
    file_findings = [];
    file_max_cyclomatic = [];
    pillar_counts = [];
  }

abbrev pub Bins : Type 0
Bins = List (Text × ℕ)

-- emptyComplexityDistribution
abbrev pub empty_complexity_distribution : Bins
empty_complexity_distribution =
    (codes "1-5", 0)
    ∷ (codes "6-10", 0)
    ∷ (codes "11-15", 0)
    ∷ (codes "16-20", 0)
    ∷ (codes "21+", 0)
    ∷ []

abbrev pub chart : Option ℕ → Bins → Bins
chart none bins = bins
chart (some n) bins = insert (complexity_bin n) (or_zero (lookup (complexity_bin n) bins) + 1) bins

-- The loop of complexityFindingDistribution.
unfoldable pub distribution_loop : List Finding → Bins → Bins
distribution_loop [] bins = bins
distribution_loop (f ∷ fs) bins = distribution_loop fs (chart (charted f) bins)

-- complexityFindingDistribution
unfoldable pub complexity_finding_distribution : List Finding → Bins
complexity_finding_distribution fs = distribution_loop fs empty_complexity_distribution
