-- ===== src/Analysis/Inputs.antt =====
-- The options of a run, and its diagnostics of discovery and parsing, in internal/analysis/runner.go
-- and skipped_input_diagnostics.go.
use gruff_go.Base.{
  ℕ, Bool, not, ◌||◌, ◌&&◌, Option, none, some, List, [], ◌∷◌, ◌++◌, Text, if◌then◌else◌, ◌==◌,
  codes, length,
}
use gruff_go.Finding.{Location, severity_error, is_empty, default_fail_threshold_for}
use gruff_go.Analysis.Exit.{Diagnostic}
use gruff_go.Analysis.Report.{SkippedPath}

-- The fields of Options that do not stand for services.
pub record Options : Type 0 where
  pub root : Text
  pub inputs : List Text
  pub format : Text
  pub fail_on : Text
  pub include_ignored : Bool
  pub report_all_skipped_inputs : Bool
  pub baseline_path : Text
  pub diff_base : Text
  pub diff_mode : Text
  pub diff_patch : Text
  pub changed_ranges : Text
  pub changed_scope : Text
  pub baseline_show : Bool

abbrev pub or_default : Text → Text → Text
or_default value default = if is_empty value then default else value

-- normalizeOptions
unfoldable pub normalize_options : Options → Options
unfolding default_fail_threshold_for
normalize_options o = record o {
  fail_on = or_default o.fail_on (default_fail_threshold_for (codes "analyse"));
  format = or_default o.format (codes "text");
  changed_scope = or_default o.changed_scope (codes "symbol");
}

abbrev pub error_at : Text → Text → Text → Option Location → Diagnostic
error_at stage message file location = record {
  stage = stage;
  message = message;
  file = file;
  location = location;
  severity = severity_error;
}

-- diagnosticsFromDiscovery
unfoldable pub diagnostics_from_discovery : List Text → List Diagnostic
diagnostics_from_discovery [] = []
diagnostics_from_discovery (missing ∷ paths) =
    error_at (codes "discovery") (codes "path does not exist") missing none
    ∷ diagnostics_from_discovery paths

pub record ParseDiagnostic : Type 0 where
  pub file : Text
  pub line : ℕ
  pub column : ℕ
  pub message : Text

-- parserLocation
unfoldable pub parser_location : ParseDiagnostic → Option Location
parser_location d =
    if d.line == 0 && d.column == 0
    then none
    else some (record { line = d.line; column = d.column; end_line = 0 })

-- diagnosticsFromParser
unfoldable pub diagnostics_from_parser : List ParseDiagnostic → List Diagnostic
unfolding parser_location
diagnostics_from_parser [] = []
diagnostics_from_parser (d ∷ ds) =
    error_at (codes "parse") d.message d.file (parser_location d) ∷ diagnostics_from_parser ds

abbrev pub detail : Text → Text → List Text
detail label value = if is_empty value then [] else (label ++ value) ∷ []

abbrev pub join_details : List Text → Text
join_details [] = []
join_details (part ∷ []) = part
join_details (part ∷ next ∷ parts) = part ++ codes ", " ++ join_details (next ∷ parts)

abbrev pub skipped_message : SkippedPath → Text
skipped_message s =
    codes "explicit input skipped before parsing ("
    ++ join_details (
        ((codes "reason=" ++ s.reason) ∷ [])
        ++ detail (codes "source=") s.layer
        ++ detail (codes "pattern=") s.pattern)
    ++ codes
        "); run from the target project root, pass --include-ignored for generated/git/default skips, or remove the matching paths.ignore entry"

abbrev pub skipped_diagnostics : List SkippedPath → List Diagnostic
skipped_diagnostics [] = []
skipped_diagnostics (s ∷ skipped) =
    error_at (codes "discovery") (skipped_message s) s.path none ∷ skipped_diagnostics skipped

-- What a run learns from source.Discover.
pub record Discovery : Type 0 where
  pub files : List Text
  pub skipped : List SkippedPath
  pub missing : List Text

-- diagnosticsFromAllSkippedInputs
unfoldable pub diagnostics_from_all_skipped_inputs : List Text → Discovery → List Diagnostic
diagnostics_from_all_skipped_inputs inputs d =
    if length inputs == 0
      || not (length d.files == 0)
      || not (length d.missing == 0)
      || length d.skipped == 0
    then []
    else skipped_diagnostics d.skipped
