-- ===== src/Scoring/Neutral.antt =====
-- scoreNeutralFinding of internal/scoring/scoring.go: what design findings do to a score.
use gruff_go.Base.{
  ◌≡◌, refl, ap, ◌∙◌, inl, inr, Bool, true, false, not, Option, none, some, List, [], ◌∷◌, map,
  Text, text_eq, text_eq→eq, has_prefix, codes, count_if, keep_if, arith, Bool-cases,
}
use gruff_go.Finding.{Finding}
use gruff_go.Scoring.Points.{Float, score_neutral_finding, charted, cyclomatic_rule}
use gruff_go.Scoring.Clusters.{ClusterKey, correlated_rule, key_of}
use gruff_go.Scoring.Tally.{
  Tally, tally_loop, tally_finding, Bins, chart, distribution_loop, complexity_finding_distribution,
}
use gruff_go.Scoring.Totals.{tally, calculate, finished}
use gruff_go.Scoring.Grouping.{has_key}
use gruff_go.Scoring.Sharing.{share, billed, billed_as, cluster_penalties_lem}

abbrev pub is_scored : Finding → Bool
is_scored f = not (score_neutral_finding f)

-- The rule identifiers that the loops look for do not begin with "design.".
named_rule :
    (name rule : Text)
    → has_prefix name (codes "design.") ≡ false
    → has_prefix rule (codes "design.") ≡ true
    → text_eq rule name ≡ false
named_rule name rule h n = elim (Bool-cases (text_eq rule name)) [
  | inl t ↦ let same = text_eq→eq rule name t in absurd (let g = rw same at n in cc)
  | inr other ↦ other
]

neutral_key : (f : Finding) → score_neutral_finding f ≡ true → key_of f ≡ none
unfolding score_neutral_finding key_of correlated_rule has_prefix
neutral_key f n =
    rw
      (
        named_rule (codes "complexity.cyclomatic") f.rule_id refl n,
        named_rule (codes "complexity.cognitive") f.rule_id refl n,
        named_rule (codes "complexity.nesting-depth") f.rule_id refl n,
        named_rule (codes "size.function-length") f.rule_id refl n,
        named_rule (codes "size.parameter-count") f.rule_id refl n,
      )
      refl

neutral_charted : (f : Finding) → score_neutral_finding f ≡ true → charted f ≡ none
unfolding score_neutral_finding charted has_prefix
neutral_charted f n = rw (named_rule cyclomatic_rule f.rule_id refl n) refl

neutral_has_key :
    (k : ClusterKey) (f : Finding) → score_neutral_finding f ≡ true → has_key k f ≡ false
neutral_has_key k f n = rw (has_key, neutral_key f n) refl

keep_if-scored :
    (k : ClusterKey) (fs : List Finding)
    → (keep_if (has_key k) (keep_if is_scored fs) ≡ keep_if (has_key k) fs)
      × (count_if (has_key k) (keep_if is_scored fs) ≡ count_if (has_key k) fs)
keep_if-scored k [] = (refl, refl)
keep_if-scored k (f ∷ fs) =
    let (kept, counted) = keep_if-scored k fs in
    elim (Bool-cases (score_neutral_finding f)) [
      | inl n ↦ rw (n, neutral_has_key k f n) (kept, counted)
      | inr s ↦ rw s (elim (Bool-cases (has_key k f)) [
        | inl t ↦ rw t (ap (λ r. f ∷ r) kept, omega arith)
        | inr o ↦ rw o (kept, counted)
      ])
    ]

distribution-scored :
    (fs : List Finding) (bins : Bins)
    → distribution_loop (keep_if is_scored fs) bins ≡ distribution_loop fs bins
unfolding distribution_loop
distribution-scored [] bins = refl
distribution-scored (f ∷ fs) bins = elim (Bool-cases (score_neutral_finding f)) [
  | inl n ↦ rw (n, neutral_charted f n) (distribution-scored fs bins)
  | inr s ↦ rw s (distribution-scored fs (chart (charted f) bins))
]

module _ {F : Type 0} (fl : Float F) where
  billed-scored :
      (fs : List Finding) (o : Option ClusterKey) (f : Finding)
      → billed_as fl o (keep_if is_scored fs) f ≡ billed_as fl o fs f
  billed-scored fs none f = refl
  billed-scored fs (some k) f =
      let (kept, counted) = keep_if-scored k fs in rw (billed_as, share, kept, counted) refl

  tally_loop-scored :
      (v w : Finding → F) (fs : List Finding) (t : Tally F)
      → ((f : Finding) → v f ≡ w f)
      → tally_loop fl (keep_if is_scored fs) (map v (keep_if is_scored fs)) t
        ≡ tally_loop fl fs (map w fs) t
  unfolding tally_loop
  tally_loop-scored v w [] t h = refl
  tally_loop-scored v w (f ∷ fs) t h = elim (Bool-cases (score_neutral_finding f)) [
    | inl n ↦ rw n (tally_loop-scored v w fs t h)
    | inr s ↦ rw (s, tally_loop, s, h f) (tally_loop-scored v w fs (tally_finding fl f (w f) t) h)
  ]

  tally-scored :
      (fs : List Finding) (pillars : List Text)
      → tally fl (keep_if is_scored fs) pillars ≡ tally fl fs pillars
  unfolding tally
  tally-scored fs pillars =
      rw (cluster_penalties_lem fl fs, cluster_penalties_lem fl (keep_if is_scored fs))
        (tally_loop-scored (billed fl (keep_if is_scored fs)) (billed fl fs) fs _
          (λ f. billed-scored fs (key_of f) f))

  -- Findings of design rules do not change anything of a score: it is that of the other findings.
  pub calculate-scored :
      (fs : List Finding) (pillars : List Text)
      → calculate fl (keep_if is_scored fs) pillars ≡ calculate fl fs pillars
  unfolding calculate complexity_finding_distribution
  calculate-scored fs pillars =
      ap (λ bins. finished fl bins (tally fl (keep_if is_scored fs) pillars))
        (distribution-scored fs _)
      ∙ ap (finished fl (complexity_finding_distribution fs)) (tally-scored fs pillars)
