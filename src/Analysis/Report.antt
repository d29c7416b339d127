-- ===== src/Analysis/Report.antt =====
-- NewReport of internal/analysis/report.go, with the records of a report and their orders. The
-- score is an argument: a type, and the calculation over the findings and the pillars.
use gruff_go.Base.{
  ℕ, Bool, false, not, ◌||◌, Option, none, some, List, [], ◌∷◌, Text, text_key, text_eq,
  text_compare, contains, set_insert, sort_by, if◌then◌else◌, Ordering, compare, ◌==◌, codes,
  length,
}
use gruff_go.Finding.{Finding, Location}
use gruff_go.Analysis.Display.{DisplayFilterSummary, unfiltered}
use gruff_go.Analysis.Region.{DiffSummary}
use gruff_go.Analysis.Exit.{
  Diagnostic, Counts, resolve_exit_code, count_severity, count_pillar, compare_diagnostics,
  location_line,
}

-- The fields of rule.Definition that a report reads.
pub record Definition : Type 0 where
  pub id : Text
  pub pillar : Text

pub record Tool : Type 0 where
  pub name : Text
  pub version : Text

pub record RunMetadata : Type 0 where
  pub working_directory : Text
  pub inputs : List Text
  pub format : Text
  pub fail_on : Text
  pub include_ignored : Bool

pub record Summary : Type 0 where
  pub files_scanned : ℕ
  pub files_skipped : ℕ
  pub diagnostics_count : ℕ
  pub findings_count : ℕ
  pub counts_by_severity : Counts
  pub counts_by_pillar : Counts
  pub exit_code : ℕ
  pub parser_mode : Text
  pub type_loading_enabled : Bool

pub record BaselineEntry : Type 0 where
  pub rule_id : Text
  pub file : Text
  pub fingerprint : Text

pub record BaselineSummary : Type 0 where
  pub applied : Bool
  pub path : Text
  pub entries : ℕ
  pub suppressed_findings : ℕ
  pub stale_entries : ℕ
  pub new_findings : ℕ
  pub unchanged_findings : ℕ
  pub resolved_findings : ℕ
  pub unchanged : List Finding
  pub resolved : List BaselineEntry
  pub show : Bool

pub record SkippedPath : Type 0 where
  pub path : Text
  pub reason : Text
  pub layer : Text
  pub pattern : Text

pub record Paths : Type 0 where
  pub scanned : List Text
  pub ignored_paths : List Text
  pub skipped : List SkippedPath
  pub missing : List Text

pub record Report (Score : Type 0) : Type 0 where
  pub schema : Text
  pub tool : Tool
  pub run : RunMetadata
  pub summary : Summary
  pub baseline : BaselineSummary
  pub diff : DiffSummary
  pub suppressed_count : Option ℕ
  pub display_filter : DisplayFilterSummary
  pub score : Score
  pub rules : List Definition
  pub paths : Paths
  pub diagnostics : List Diagnostic
  pub findings : List Finding

pub record ReportInput : Type 0 where
  pub root : Text
  pub inputs : List Text
  pub format : Text
  pub fail_on : Text
  pub include_ignored : Bool
  pub scanned : List Text
  pub skipped : List SkippedPath
  pub missing : List Text
  pub diagnostics : List Diagnostic
  pub findings : List Finding
  pub definitions : List Definition
  pub baseline : BaselineSummary
  pub diff : DiffSummary
  pub suppressed_count : Option ℕ

-- locationColumn of internal/rule/rule.go
abbrev pub location_column : Option Location → ℕ
location_column none = 0
location_column (some l) = l.column

-- CompareFindings. A difference of lines or columns is read by its sign only.
unfoldable pub compare_findings : Finding → Finding → Ordering
compare_findings a b =
    if not (text_eq a.file b.file)
    then text_compare a.file b.file
    else if not (location_line a.location == location_line b.location)
    then compare (location_line a.location) (location_line b.location)
    else if not (location_column a.location == location_column b.location)
    then compare (location_column a.location) (location_column b.location)
    else if not (text_eq a.rule_id b.rule_id)
    then text_compare a.rule_id b.rule_id
    else if not (text_eq a.message b.message)
    then text_compare a.message b.message
    else text_compare a.fingerprint b.fingerprint

-- The order of skipped paths in SortReport.
abbrev pub compare_skipped : SkippedPath → SkippedPath → Ordering
compare_skipped a b =
    if text_eq a.path b.path then text_compare a.reason b.reason else text_compare a.path b.path

abbrev pub compare_rules : Definition → Definition → Ordering
compare_rules a b = text_compare a.id b.id

-- The test of configIgnoredPaths' loop.
abbrev pub is_config_skip : SkippedPath → Bool
is_config_skip s = text_eq s.layer (codes "config") || text_eq s.reason (codes "config-ignore")

-- The loop of configIgnoredPaths: `seen` and `out` hold the same paths.
unfoldable pub ignored_loop : List SkippedPath → List Text → List Text
unfolding set_insert contains
ignored_loop [] seen = seen
ignored_loop (s ∷ skipped) seen =
    ignored_loop skipped (if is_config_skip s then set_insert s.path seen else seen)

-- configIgnoredPaths
unfoldable pub config_ignored_paths : List SkippedPath → List Text
unfolding ignored_loop
config_ignored_paths skipped = sort_by text_compare (ignored_loop skipped [])

unfoldable pub unique_pillars : List Definition → List Text → List Text
unfolding set_insert contains
unique_pillars [] seen = seen
unique_pillars (d ∷ ds) seen = unique_pillars ds (set_insert d.pillar seen)

-- ruleBackedPillars
unfoldable pub rule_backed_pillars : List Definition → List Text
unfolding unique_pillars
rule_backed_pillars ds = sort_by text_compare (unique_pillars ds [])

-- SortReport
unfoldable pub sort_report : {Score : Type 0} → Report Score → Report Score
sort_report r = record r {
  paths = record {
    scanned = sort_by text_compare r.paths.scanned;
    ignored_paths = sort_by text_compare r.paths.ignored_paths;
    skipped = sort_by compare_skipped r.paths.skipped;
    missing = sort_by text_compare r.paths.missing;
  };
  diagnostics = sort_by compare_diagnostics r.diagnostics;
  findings = sort_by compare_findings r.findings;
  rules = sort_by compare_rules r.rules;
}

module _ {Score : Type 0} (calculate : List Finding → List Text → Score) where
  -- NewReport. The zero DisplayFilterSummary is that of a report without a filter.
  unfoldable pub new_report : ReportInput → Report Score
  unfolding sort_report
  new_report input = sort_report (record {
    schema = codes "gruff.analysis.v2";
    tool = record { name = codes "gruff-go"; version = codes "0.5.0" };
    run = record {
      working_directory = input.root;
      inputs = input.inputs;
      format = input.format;
      fail_on = input.fail_on;
      include_ignored = input.include_ignored;
    };
    summary = record {
      files_scanned = length input.scanned;
      files_skipped = length input.skipped;
      diagnostics_count = length input.diagnostics;
      findings_count = length input.findings;
      counts_by_severity = count_severity input.findings;
      counts_by_pillar = count_pillar input.findings;
      exit_code = resolve_exit_code input.diagnostics input.findings input.fail_on;
      parser_mode = codes "parser-only";
      type_loading_enabled = false;
    };
    baseline = input.baseline;
    diff = input.diff;
    suppressed_count = input.suppressed_count;
    display_filter = unfiltered;
    score = calculate input.findings (rule_backed_pillars input.definitions);
    rules = input.definitions;
    paths = record {
      scanned = input.scanned;
      ignored_paths = config_ignored_paths input.skipped;
      skipped = input.skipped;
      missing = input.missing;
    };
    diagnostics = input.diagnostics;
    findings = input.findings;
  })
