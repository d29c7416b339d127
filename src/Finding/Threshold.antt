-- ===== src/Finding/Threshold.antt =====
-- internal/finding/threshold.go: the exit gate.
use gruff_go.Base.{Bool, false, ◌&&◌, ◌||◌, Option, none, some, Text, codes, text_eq, if◌then◌else◌}
use gruff_go.Finding.Types.{
  severity_advisory, severity_warning, severity_error, severity_valid, at_least,
}

-- The other three thresholds are spelled like the severities.
unfoldable pub threshold_none : Text
threshold_none = codes "none"

-- FailThreshold.Valid
unfoldable pub threshold_valid : Text → Bool
threshold_valid t =
    text_eq t severity_advisory
    || text_eq t severity_warning
    || text_eq t severity_error
    || text_eq t threshold_none

-- ParseFailThreshold
unfoldable pub parse_fail_threshold : Text → Option Text
parse_fail_threshold input = if threshold_valid input then some input else none

-- FailThreshold.IsTriggeredBy
unfoldable pub is_triggered_by : Text → Text → Bool
is_triggered_by t s =
    if text_eq t threshold_none
    then false
    else if text_eq t severity_advisory
    then severity_valid s
    else if text_eq t severity_warning
    then severity_valid s && at_least s severity_warning
    else if text_eq t severity_error
    then severity_valid s && at_least s severity_error
    else false

-- DefaultFailThresholdFor
unfoldable pub default_fail_threshold_for : Text → Text
default_fail_threshold_for cmd =
    if text_eq cmd (codes "analyse") || text_eq cmd (codes "summary")
    then severity_advisory
    else if text_eq cmd (codes "report") || text_eq cmd (codes "dashboard")
    then threshold_none
    else severity_advisory
