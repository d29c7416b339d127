-- ===== src/Scoring/Charted.antt =====
-- complexityFindingDistribution of internal/scoring/scoring.go: the bins of the complexity chart.
use gruff_go.Base.{
  ℕ, ◌+◌, ◌≡◌, ◌∙◌, Bool, false, Option, none, some, List, [], ◌∷◌, Text, text_key, text_eq,
  text_eq_iff, lookup, lookup-insert, count_if, if◌then◌else◌, arith,
}
use gruff_go.Finding.{Finding, or_zero}
use gruff_go.Scoring.Points.{charted, complexity_bin}
use gruff_go.Scoring.Tally.{
  empty_complexity_distribution, Bins, chart, distribution_loop, complexity_finding_distribution,
}

-- A finding whose value falls into a bin.
abbrev value_in : Text → Option ℕ → Bool
value_in bin none = false
value_in bin (some n) = text_eq (complexity_bin n) bin

abbrev pub falls_in : Text → Finding → Bool
falls_in bin f = value_in bin (charted f)

chart_step :
    (bin : Text) (o : Option ℕ) (bins : Bins)
    → or_zero (lookup bin (chart o bins))
      ≡ or_zero (lookup bin bins) + (if value_in bin o then 1 else 0)
chart_step bin none bins = omega arith
chart_step bin (some n) bins = ground (
  arith,
  lookup-insert (complexity_bin n) bin (or_zero (lookup (complexity_bin n) bins) + 1) bins,
  text_eq_iff (complexity_bin n) bin,
)

distribution_loop_lem :
    (bin : Text) (fs : List Finding) (bins : Bins)
    → or_zero (lookup bin (distribution_loop fs bins))
      ≡ or_zero (lookup bin bins) + count_if (falls_in bin) fs
unfolding distribution_loop
distribution_loop_lem bin [] bins = omega arith
distribution_loop_lem bin (f ∷ fs) bins =
    distribution_loop_lem bin fs (chart (charted f) bins)
    ∙ ground (arith, chart_step bin (charted f) bins)

empty_bins : (bin : Text) → or_zero (lookup bin empty_complexity_distribution) ≡ 0
unfolding lookup
empty_bins bin = ground arith

-- Each bin holds the number of the cyclomatic findings whose complexity falls into it.
pub complexity_finding_distribution_lem :
    (fs : List Finding) (bin : Text)
    → or_zero (lookup bin (complexity_finding_distribution fs)) ≡ count_if (falls_in bin) fs
unfolding complexity_finding_distribution
complexity_finding_distribution_lem fs bin =
    distribution_loop_lem bin fs _ ∙ ground (arith, empty_bins bin)
