-- ===== src/Analysis/RunSamples.antt =====
-- Concrete runs for internal/analysis/runner.go and report.go.
use gruff_go.Base.{
  sort_by, ℕ, ◌+◌, keep_if, ◌≡◌, refl, true, false, Option, none, some, List, [], ◌∷◌, Text, codes,
  text_eq, text_key, text_compare, length, count_if, lookup, IsRanked, if◌then◌else◌,
}
use mathlib.Core.List.{Perm}
use gruff_go.Finding.{Finding, or_zero}
use gruff_go.Baseline.{
  entry_of, compare_entries, first_incomplete, schema_version, check_file, BaselineFile, LoadError,
  unreadable, loaded, load_failed, load, from_findings,
}
use gruff_go.Diff.{done, GitRun, exit_error, RangeResult}
use gruff_go.Analysis.Exit.{resolve_exit_code}
use gruff_go.Analysis.Region.{apply_changed_filter}
use gruff_go.Analysis.Report.{SkippedPath, Report, ReportInput, new_report}
use gruff_go.Analysis.Inputs.{Options, Discovery}
use gruff_go.Analysis.Run.{no_baseline, no_diff, report_run, analyze}
use gruff_go.Analysis.Reported.{new_report-summary, new_report-IsRanked, new_report-buckets}
use gruff_go.Analysis.Ordered.{FindingLe, DiagnosticLe}
use gruff_go.Analysis.Stages.{unscoped}
use gruff_go.Analysis.Whole.{report_run-unread_baseline, analyze-own_baseline}
use gruff_go.Analysis.Display.{DisplayFilter}
use gruff_go.Analysis.Filtered.{apply_display_filter}
use gruff_go.Analysis.Shown.{is_shown, apply_display_filter_lem}
use gruff_go.Analysis.Samples.{findings}

abbrev skipped : List SkippedPath
skipped =
    record {
      path = codes "gen.go";
      reason = codes "config-ignore";
      layer = codes "config";
      pattern = codes "gen*";
    }
    ∷ record {
      path = codes "old.go";
      reason = codes "gitignored";
      layer = codes "gitignore";
      pattern = [];
    }
    ∷ []

-- A score that is the number of findings.
abbrev score : List Finding → List Text → ℕ
score fs pillars = length fs

abbrev input : ReportInput
input = record {
  root = codes "/src";
  inputs = codes "." ∷ [];
  format = codes "text";
  fail_on = codes "warning";
  include_ignored = false;
  scanned = codes "b.go" ∷ codes "a.go" ∷ [];
  skipped = skipped;
  missing = [];
  diagnostics = [];
  findings = findings;
  definitions = [];
  baseline = no_baseline;
  diff = no_diff;
  suppressed_count = none;
}

new_report-summary_example :
    ((new_report score input).summary.exit_code
      ≡ resolve_exit_code
          (new_report score input).diagnostics
          (new_report score input).findings
          (new_report score input).run.fail_on)
    × ((new_report score input).summary.findings_count ≡ length (new_report score input).findings)
    × ((new_report score input).summary.diagnostics_count
        ≡ length (new_report score input).diagnostics)
    × ((new_report score input).summary.files_scanned
        ≡ length (new_report score input).paths.scanned)
    × ((new_report score input).summary.files_skipped
        ≡ length (new_report score input).paths.skipped)
new_report-summary_example = new_report-summary score input

new_report-IsRanked_example :
    Perm (new_report score input).findings findings
    × Perm (new_report score input).diagnostics []
    × IsRanked FindingLe (new_report score input).findings
    × IsRanked DiagnosticLe (new_report score input).diagnostics
new_report-IsRanked_example = new_report-IsRanked score input

new_report-buckets_example :
    (or_zero (lookup (codes "warning") (new_report score input).summary.counts_by_severity)
      ≡ count_if (λ f. text_eq f.severity (codes "warning")) (new_report score input).findings)
    × (or_zero (lookup (codes "warning") (new_report score input).summary.counts_by_pillar)
        ≡ count_if (λ f. text_eq f.pillar (codes "warning")) (new_report score input).findings)
new_report-buckets_example = new_report-buckets score input (codes "warning")

abbrev size_only : DisplayFilter
size_only = record {
  include_rules = [];
  exclude_rules = [];
  include_pillars = codes "size" ∷ [];
  exclude_pillars = codes "naming" ∷ [];
}

apply_display_filter_lem_example :
    ((apply_display_filter (new_report score input) size_only).findings
      ≡ keep_if (is_shown size_only) (new_report score input).findings)
    × (length (apply_display_filter (new_report score input) size_only).findings
          + (apply_display_filter (new_report score input) size_only).display_filter.hidden_findings
        ≡ length (new_report score input).findings)
    × ((apply_display_filter (new_report score input) size_only).summary
        ≡ (new_report score input).summary)
    × ((apply_display_filter (new_report score input) size_only).score
        ≡ (new_report score input).score)
    × ((apply_display_filter (new_report score input) size_only).diagnostics
        ≡ (new_report score input).diagnostics)
apply_display_filter_lem_example = apply_display_filter_lem (new_report score input) size_only

abbrev options : Options
options = record {
  root = codes "/src";
  inputs = [];
  format = [];
  fail_on = [];
  include_ignored = false;
  report_all_skipped_inputs = false;
  baseline_path = codes "base.json";
  diff_base = [];
  diff_mode = [];
  diff_patch = [];
  changed_ranges = [];
  changed_scope = [];
  baseline_show = true;
}

-- The same run on some lines.
abbrev ranged_options : Options
ranged_options = record options { changed_ranges = codes "3-4, 9" }

abbrev no_git : List Text → GitRun
no_git args = exit_error (codes "unknown revision")

abbrev range_error : RangeResult → Text
range_error r = codes "bad ranges"

abbrev error_text : LoadError → Text
error_text e = codes "bad baseline"

abbrev absolute : Text → Text → Text
absolute root path = path

abbrev digest : Text → Text
digest s = s

abbrev no_files : Text → Option Text
no_files path = none

-- The one file there is, and a decoder that reads it as the baseline of the findings.
abbrev one_file : Text → Option Text
one_file path = if text_eq path (codes "base.json") then some (codes "{}") else none

abbrev decode : Text → Option BaselineFile
decode text = if text_eq text (codes "{}") then some (from_findings digest findings) else none

abbrev discovery : Discovery
discovery = record { files = codes "a.go" ∷ []; skipped = []; missing = [] }

no_file :
    load no_files decode (absolute (codes "/src") (codes "base.json")) ≡ load_failed unreadable
unfolding load
no_file = refl

report_run-unread_baseline_example :
    ((report_run score digest error_text no_files decode absolute options discovery [] [] unscoped
        [] findings).summary.exit_code
      ≡ 2)
    × ((report_run score digest error_text no_files decode absolute options discovery [] [] unscoped
          [] findings).baseline.applied
        ≡ false)
    × Perm
        (report_run score digest error_text no_files decode absolute options discovery [] []
          unscoped [] findings).findings
        (apply_changed_filter findings [] unscoped.changed unscoped.summary options.changed_scope).0
report_run-unread_baseline_example =
    report_run-unread_baseline score digest error_text no_files decode absolute options discovery []
      [] unscoped [] findings unreadable refl no_file

own_file :
    load one_file decode (absolute (codes "/src") (codes "base.json"))
    ≡ loaded (from_findings digest findings)
unfolding load text_eq check_file from_findings schema_version first_incomplete sort_by
    compare_entries entry_of text_compare
own_file = refl

analyze-own_baseline_example :
    (r : Report ℕ) × (analyze score digest error_text one_file decode absolute no_git range_error
        options discovery [] [] [] findings
      ≡ done r)
    × (r.findings ≡ [])
    × (r.baseline.unchanged_findings ≡ length findings)
    × (r.summary.exit_code ≡ 0)
analyze-own_baseline_example =
    analyze-own_baseline score digest error_text one_file decode absolute no_git range_error options
      discovery [] [] findings refl refl refl refl own_file
