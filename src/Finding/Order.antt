-- ===== src/Finding/Order.antt =====
-- The exit threshold of internal/finding/threshold.go against the order of severities.
use gruff_go.Base.{
  ◌≡◌, refl, ◌⊎◌, inl, inr, Bool, true, not, ◌&&◌, Text, text_eq, text_eq_iff, arith,
}
use gruff_go.Finding.Types.{
  severity_advisory, severity_warning, severity_error, severity_rank, severity_valid, at_least,
}
use gruff_go.Finding.Threshold.{threshold_none, threshold_valid, is_triggered_by}

abbrev ThresholdCases : Text → Type 0
ThresholdCases t =
    (t ≡ severity_advisory) ⊎ (t ≡ severity_warning) ⊎ (t ≡ severity_error) ⊎ (t ≡ threshold_none)

threshold_cases : (t : Text) → threshold_valid t ≡ true → ThresholdCases t
unfolding threshold_valid
threshold_cases t h = ground (
  arith,
  text_eq_iff t severity_advisory,
  text_eq_iff t severity_warning,
  text_eq_iff t severity_error,
  text_eq_iff t threshold_none,
)

-- What the rank order says of a threshold and a severity.
abbrev pub reaches : Text → Text → Bool
reaches t s = not (text_eq t threshold_none) && severity_valid s && at_least s t

reaches-advisory : (s : Text) → is_triggered_by severity_advisory s ≡ reaches severity_advisory s
unfolding is_triggered_by severity_valid at_least severity_advisory severity_warning severity_error
    threshold_none text_eq severity_rank
reaches-advisory s = ground arith

reaches-warning : (s : Text) → is_triggered_by severity_warning s ≡ reaches severity_warning s
unfolding is_triggered_by severity_advisory severity_warning severity_error threshold_none text_eq
reaches-warning s = refl

reaches-error : (s : Text) → is_triggered_by severity_error s ≡ reaches severity_error s
unfolding is_triggered_by severity_advisory severity_warning severity_error threshold_none text_eq
reaches-error s = refl

reaches-none : (s : Text) → is_triggered_by threshold_none s ≡ reaches threshold_none s
unfolding is_triggered_by threshold_none text_eq
reaches-none s = refl

-- For each of the four valid thresholds, the exit gate fires on a severity exactly if the threshold
-- is not "none", the severity is a known one, and its rank is at least the threshold's.
pub is_triggered_by-eq-reaches :
    (t s : Text) → threshold_valid t ≡ true → is_triggered_by t s ≡ reaches t s
is_triggered_by-eq-reaches t s h = elim (threshold_cases t h) [
  | inl e ↦ rw e (reaches-advisory s)
  | inr (inl e) ↦ rw e (reaches-warning s)
  | inr (inr (inl e)) ↦ rw e (reaches-error s)
  | inr (inr (inr e)) ↦ rw e (reaches-none s)
]
