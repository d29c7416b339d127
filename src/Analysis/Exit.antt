-- ===== src/Analysis/Exit.antt =====
-- The exit code and the tallies of internal/analysis/report.go.
use gruff_go.Base.{
  ℕ, ◌+◌, Option, none, some, List, [], ◌∷◌, Text, text_key, lookup, insert, text_eq, text_compare,
  if◌then◌else◌, Ordering, compare, ◌==◌, not,
}
use gruff_go.Finding.{
  Finding, Location, is_triggered_by, severity_advisory, severity_warning, severity_error, or_zero,
}

pub record Diagnostic : Type 0 where
  pub stage : Text
  pub message : Text
  pub file : Text
  pub location : Option Location
  pub severity : Text

-- The loop of ResolveExitCode.
unfoldable pub any_triggered : List Finding → Text → ℕ
any_triggered [] fail_on = 0
any_triggered (f ∷ fs) fail_on =
    let later = any_triggered fs fail_on in if is_triggered_by fail_on f.severity then 1 else later

-- ResolveExitCode
unfoldable pub resolve_exit_code : List Diagnostic → List Finding → Text → ℕ
unfolding any_triggered
resolve_exit_code [] fs fail_on = any_triggered fs fail_on
resolve_exit_code (_ ∷ _) fs fail_on = 2

abbrev pub Counts : Type 0
Counts = List (Text × ℕ)

-- counts[key]++
unfoldable pub increment : Text → Counts → Counts
unfolding lookup insert
increment k m = insert k (or_zero (lookup k m) + 1) m

unfoldable pub count_keys : (Finding → Text) → List Finding → Counts → Counts
unfolding increment
count_keys key [] m = m
count_keys key (f ∷ fs) m = count_keys key fs (increment (key f) m)

-- countSeverity
unfoldable pub count_severity : List Finding → Counts
unfolding count_keys
count_severity fs =
    count_keys (λ f. f.severity) fs
      ((severity_advisory, 0) ∷ (severity_warning, 0) ∷ (severity_error, 0) ∷ [])

-- countPillar
unfoldable pub count_pillar : List Finding → Counts
unfolding count_keys
count_pillar fs = count_keys (λ f. f.pillar) fs []

-- locationLine
abbrev pub location_line : Option Location → ℕ
location_line none = 0
location_line (some l) = l.line

-- compareDiagnostics. A difference of lines is read by its sign only.
unfoldable pub compare_diagnostics : Diagnostic → Diagnostic → Ordering
compare_diagnostics a b =
    if not (text_eq a.file b.file)
    then text_compare a.file b.file
    else if not (location_line a.location == location_line b.location)
    then compare (location_line a.location) (location_line b.location)
    else if not (text_eq a.stage b.stage)
    then text_compare a.stage b.stage
    else text_compare a.message b.message
