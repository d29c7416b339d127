-- ===== src/Analysis/Run.antt =====
-- internal/analysis/runner.go around the rules: options, diagnostics, the baseline and the changed
-- region of a run. Files, JSON, SHA-256, git and the texts of errors are arguments.
use gruff_go.Base.{
  ℕ, Bool, true, false, not, Option, none, some, List, [], ◌∷◌, ◌++◌, Text, text_eq, if◌then◌else◌,
  codes,
}
use gruff_go.Finding.{Finding, is_empty}
use gruff_go.Baseline.{
  Entry, BaselineFile, apply, new_count, unchanged_count, resolved_count, LoadError, Loaded, loaded,
  load_failed, load,
}
use gruff_go.Diff.{
  ChangedLines, nothing_changed, Explicit, explicit, refused, endless_ranges, RangeResult,
  explicit_ranges, parse, Outcome, done, failed, panicked, endless, GitRun, from_mode, from_git,
  or_panic,
}
use gruff_go.Analysis.Region.{Functions, DiffSummary, apply_changed_filter}
use gruff_go.Analysis.Exit.{Diagnostic}
use gruff_go.Analysis.Inputs.{
  Options, normalize_options, error_at, Discovery, ParseDiagnostic, diagnostics_from_discovery,
  diagnostics_from_parser, diagnostics_from_all_skipped_inputs,
}
use gruff_go.Analysis.Report.{BaselineEntry, BaselineSummary, Definition, Report, new_report}

-- reportBaselineEntries
unfoldable pub report_baseline_entries : List Entry → List BaselineEntry
report_baseline_entries [] = []
report_baseline_entries (e ∷ es) =
    record { rule_id = e.rule_id; file = e.file; fingerprint = e.fingerprint }
    ∷ report_baseline_entries es

abbrev pub no_baseline : BaselineSummary
no_baseline = record {
  applied = false;
  path = [];
  entries = 0;
  suppressed_findings = 0;
  stale_entries = 0;
  new_findings = 0;
  unchanged_findings = 0;
  resolved_findings = 0;
  unchanged = [];
  resolved = [];
  show = false;
}

-- The variables that a stage of the run reassigns.
pub record BaselineStage : Type 0 where
  pub findings : List Finding
  pub summary : BaselineSummary
  pub diagnostics : List Diagnostic

module _ (digest : Text → Text) where
  abbrev pub compared : List Finding → List Diagnostic → Text → Bool → BaselineFile → BaselineStage
  compared fs ds path show file =
      let result = apply digest fs file in
      record {
        findings = result.findings;
        summary = record {
          applied = true;
          path = path;
          entries = result.entries;
          suppressed_findings = result.suppressed_findings;
          stale_entries = result.stale_entries;
          new_findings = new_count result;
          unchanged_findings = unchanged_count result;
          resolved_findings = resolved_count result;
          unchanged = if show then result.unchanged else [];
          resolved = if show then report_baseline_entries result.resolved else [];
          show = show;
        };
        diagnostics = ds;
      }

  module _ (error_text : LoadError → Text) where
    -- applyBaseline, from what Load returns on
    unfoldable pub after_load :
        List Finding → List Diagnostic → Text → Bool → Loaded → BaselineStage
    after_load fs ds path show (loaded file) = compared fs ds path show file
    after_load fs ds path show (load_failed e) = record {
      findings = fs;
      summary = record no_baseline { path = path };
      diagnostics = ds ++ (error_at (codes "baseline") (error_text e) path none ∷ []);
    }

    module _ (read_file : Text → Option Text) (decode : Text → Option BaselineFile)
        (absolute : Text → Text → Text) where
      -- applyBaseline; `absolute root path` is the path that is loaded.
      unfoldable pub apply_baseline :
          Text → List Finding → List Diagnostic → Text → Bool → BaselineStage
      apply_baseline root fs ds path show =
          if is_empty path
          then record { findings = fs; summary = no_baseline; diagnostics = ds }
          else after_load fs ds path show (load read_file decode (absolute root path))

abbrev pub no_diff : DiffSummary
no_diff = record {
  enabled = false;
  base = [];
  changed_files = [];
  filtered_findings = 0;
  caveat = [];
}

pub record ScopeStage : Type 0 where
  pub changed : ChangedLines
  pub summary : DiffSummary
  pub diagnostics : List Diagnostic

-- appendDiffDiagnostic
unfoldable pub append_diff_diagnostic : List Diagnostic → Text → List Diagnostic
append_diff_diagnostic ds message = ds ++ (error_at (codes "diff") message [] none ∷ [])

-- What every case of resolveChangedScope does with the change, or the error, that it gets.
unfoldable pub scope_of : List Diagnostic → Text → Outcome ChangedLines → Outcome ScopeStage
unfolding append_diff_diagnostic
scope_of ds base (done c) = done (record {
  changed = c;
  summary = record no_diff { enabled = true; base = base; changed_files = c.changed_files };
  diagnostics = ds;
})
scope_of ds base (failed e) = done (record {
  changed = nothing_changed [];
  summary = no_diff;
  diagnostics = append_diff_diagnostic ds e;
})
scope_of ds base panicked = panicked
scope_of ds base endless = endless

abbrev pub explicit_outcome : (RangeResult → Text) → Explicit → Outcome ChangedLines
explicit_outcome range_error (explicit c) = done c
explicit_outcome range_error (refused r) = failed (range_error r)
explicit_outcome range_error endless_ranges = endless

module _ (git : List Text → GitRun) (range_error : RangeResult → Text) where
  -- resolveChangedScope
  unfoldable pub resolve_changed_scope : List Text → List Diagnostic → Options → Outcome ScopeStage
  resolve_changed_scope files ds o =
      if not (is_empty o.changed_ranges)
      then scope_of ds (codes "explicit")
          (explicit_outcome range_error (explicit_ranges (codes "explicit") o.changed_ranges files))
      else if text_eq o.diff_mode (codes "-")
      then scope_of ds (codes "stdin") (or_panic (parse (codes "stdin") o.diff_patch))
      else if not (is_empty o.diff_mode)
      then scope_of ds o.diff_mode (from_mode git o.diff_mode o.inputs)
      else if not (is_empty o.diff_patch)
      then scope_of ds (codes "stdin") (or_panic (parse (codes "stdin") o.diff_patch))
      else if not (is_empty o.diff_base)
      then scope_of ds o.diff_base (from_git git o.diff_base o.inputs)
      else done (record { changed = nothing_changed []; summary = no_diff; diagnostics = ds })

-- suppressedCountPointer
unfoldable pub suppressed_count_pointer : DiffSummary → Option ℕ
suppressed_count_pointer s = if s.enabled then some s.filtered_findings else none

-- inputsOrDefault
unfoldable pub inputs_or_default : List Text → List Text
inputs_or_default [] = codes "." ∷ []
inputs_or_default (path ∷ paths) = path ∷ paths

module _ {Score : Type 0} (calculate : List Finding → List Text → Score) (digest : Text → Text)
    (error_text : LoadError → Text) (read_file : Text → Option Text)
    (decode : Text → Option BaselineFile) (absolute : Text → Text → Text) where
  -- Analyze from the baseline on.
  unfoldable pub report_run :
      Options
      → Discovery
      → List Definition
      → Functions
      → ScopeStage
      → List Diagnostic
      → List Finding
      → Report Score
  report_run o d definitions units scope ds fs =
      let b =
        apply_baseline digest error_text read_file decode absolute o.root fs ds o.baseline_path
          o.baseline_show in
      let (kept, summary) =
        apply_changed_filter b.findings units scope.changed scope.summary o.changed_scope in
      new_report calculate (record {
        root = o.root;
        inputs = inputs_or_default o.inputs;
        format = o.format;
        fail_on = o.fail_on;
        include_ignored = o.include_ignored;
        scanned = d.files;
        skipped = d.skipped;
        missing = d.missing;
        diagnostics = b.diagnostics;
        findings = kept;
        definitions = definitions;
        baseline = b.summary;
        diff = summary;
        suppressed_count = suppressed_count_pointer summary;
      })

  -- Analyze from the changed scope on.
  abbrev pub after_scope :
      Options
      → Discovery
      → List Definition
      → Functions
      → List ParseDiagnostic
      → List Finding
      → Outcome ScopeStage
      → Outcome (Report Score)
  after_scope o d definitions units parse_ds fs (done scope) = done (
      report_run o d definitions units scope
        (scope.diagnostics
          ++ (diagnostics_from_discovery d.missing ++ diagnostics_from_parser parse_ds))
        fs)
  after_scope o d definitions units parse_ds fs (failed e) = failed e
  after_scope o d definitions units parse_ds fs panicked = panicked
  after_scope o d definitions units parse_ds fs endless = endless

  module _ (git : List Text → GitRun) (range_error : RangeResult → Text) where
    -- Analyze, after discovery, parsing and the rules: what these found is given.
    unfoldable pub analyze :
        Options
        → Discovery
        → List Definition
        → Functions
        → List ParseDiagnostic
        → List Finding
        → Outcome (Report Score)
    analyze options d definitions units parse_ds fs =
        let o = normalize_options options in
        let skipped =
          if o.report_all_skipped_inputs
          then diagnostics_from_all_skipped_inputs o.inputs d
          else [] in
        after_scope o d definitions units parse_ds fs
          (resolve_changed_scope git range_error d.files skipped o)
