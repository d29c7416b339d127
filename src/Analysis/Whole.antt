-- ===== src/Analysis/Whole.antt =====
-- Analyze of internal/analysis/runner.go: a run that cannot do what it was asked for fails, and a
-- run against its own baseline passes.
use gruff_go.Base.{
  ◌≡◌, ◌≤◌, refl, ap, ◌∙◌, Bool, false, Option, none, List, [], ◌∷◌, ◌++◌, Text, if◌then◌else◌,
  arith, length, length-append, codes, sort_by, sort_by-perm,
}
use mathlib.Core.List.{Perm}
use gruff_go.Finding.{Finding, is_empty}
use gruff_go.Baseline.{
  BaselineFile, LoadError, loaded, load_failed, load, from_findings, unchanged_count,
}
use gruff_go.Baseline.RoundTrip.{apply-from_findings}
use gruff_go.Diff.{RangeResult, done, GitRun}
use gruff_go.Analysis.Exit.{Diagnostic, resolve_exit_code, any_triggered}
use gruff_go.Analysis.Region.{Functions, apply_changed_filter}
use gruff_go.Analysis.Report.{Definition, Report, new_report, compare_findings}
use gruff_go.Analysis.Inputs.{
  diagnostics_from_all_skipped_inputs, diagnostics_from_discovery, diagnostics_from_parser, Options,
  error_at, Discovery, normalize_options,
}
use gruff_go.Analysis.Run.{
  after_load, apply_baseline, ScopeStage, resolve_changed_scope, report_run, after_scope, analyze,
}
use gruff_go.Analysis.Stages.{asks_region, unscoped, unasked}

diagnostics_exit :
    (ds : List Diagnostic) (fs : List Finding) (t : Text)
    → 1 ≤ length ds
    → resolve_exit_code ds fs t ≡ 2
unfolding resolve_exit_code
diagnostics_exit [] fs t h = absurd (omega arith)
diagnostics_exit (d ∷ ds) fs t h = refl

-- The diagnostics of the inputs that discovery skipped, where the run reports them.
abbrev pub reported_skips : Options → Discovery → List Diagnostic
reported_skips o d =
    if o.report_all_skipped_inputs then diagnostics_from_all_skipped_inputs o.inputs d else []

module _ {Score : Type 0} (calculate : List Finding → List Text → Score) (digest : Text → Text)
    (error_text : LoadError → Text) (read_file : Text → Option Text)
    (decode : Text → Option BaselineFile) (absolute : Text → Text → Text) where
  -- Where the baseline that a run names cannot be read or is refused, the exit code is 2, the baseline
  -- does not count as applied, and the report lists every finding that the changed region leaves, up
  -- to order.
  pub report_run-unread_baseline :
      (o : Options) (d : Discovery) (definitions : List Definition) (units : Functions)
      (scope : ScopeStage) (ds : List Diagnostic) (fs : List Finding) (e : LoadError)
      → is_empty o.baseline_path ≡ false
      → load read_file decode (absolute o.root o.baseline_path) ≡ load_failed e
      → ((report_run calculate digest error_text read_file decode absolute o d definitions units
            scope ds fs).summary.exit_code
          ≡ 2)
        × ((report_run calculate digest error_text read_file decode absolute o d definitions units
              scope ds fs).baseline.applied
            ≡ false)
        × Perm
            (report_run calculate digest error_text read_file decode absolute o d definitions units
              scope ds fs).findings
            (apply_changed_filter fs units scope.changed scope.summary o.changed_scope).0
  unfolding report_run new_report apply_baseline after_load
  report_run-unread_baseline o d definitions units scope ds fs e named unread =
      rw (named, unread)
        (
          diagnostics_exit _ _ _ (
              let grown =
                length-append ds
                  (error_at (codes "baseline") (error_text e) o.baseline_path none ∷ []) in
              omega (arith, grown)),
          refl,
          sort_by-perm compare_findings _,
        )

  own_report :
      (o : Options) (d : Discovery) (definitions : List Definition) (units : Functions)
      (fs : List Finding)
      → is_empty o.baseline_path ≡ false
      → load read_file decode (absolute o.root o.baseline_path) ≡ loaded (from_findings digest fs)
      → ((report_run calculate digest error_text read_file decode absolute o d definitions units
            unscoped [] fs).findings
          ≡ [])
        × ((report_run calculate digest error_text read_file decode absolute o d definitions units
              unscoped [] fs).baseline.unchanged_findings
            ≡ length fs)
        × ((report_run calculate digest error_text read_file decode absolute o d definitions units
              unscoped [] fs).summary.exit_code
            ≡ 0)
  unfolding report_run new_report apply_baseline after_load apply_changed_filter unchanged_count
  own_report o d definitions units fs named own =
      let (new, kept, _) = apply-from_findings digest fs in
      rw (named, own)
        (
          rw new (unfold sort_by in refl),
          ap length kept,
          rw new (unfold resolve_exit_code any_triggered in refl),
        )

  module _ (git : List Text → GitRun) (range_error : RangeResult → Text) where
    -- A run that asks for no changed region and no report of skipped inputs, finds every input it was
    -- given, has no parse diagnostic, and loads the baseline written from its own findings ends with a
    -- report that lists no finding, counts all of them as unchanged, and has the exit code 0, whatever
    -- the threshold.
    pub analyze-own_baseline :
        (options : Options) (d : Discovery) (definitions : List Definition) (units : Functions)
        (fs : List Finding)
        → asks_region options ≡ false
        → options.report_all_skipped_inputs ≡ false
        → d.missing ≡ []
        → is_empty options.baseline_path ≡ false
        → load read_file decode (absolute options.root options.baseline_path)
          ≡ loaded (from_findings digest fs)
        → (r : Report Score) × (analyze calculate digest error_text read_file decode absolute git
              range_error options d definitions units [] fs
            ≡ done r)
          × (r.findings ≡ [])
          × (r.baseline.unchanged_findings ≡ length fs)
          × (r.summary.exit_code ≡ 0)
    unfolding analyze normalize_options
    analyze-own_baseline options d definitions units fs whole quiet found named own =
        let o = normalize_options options in
        let resolved : resolve_changed_scope git range_error d.files
              (if options.report_all_skipped_inputs
                then diagnostics_from_all_skipped_inputs o.inputs d
                else [])
              o
            ≡ done unscoped =
          ap
            (λ (b : Bool).
              resolve_changed_scope git range_error d.files
                (if b then diagnostics_from_all_skipped_inputs o.inputs d else []) o)
            quiet
          ∙ unasked git range_error d.files o whole in
        let no_diagnostics : diagnostics_from_discovery d.missing ++ diagnostics_from_parser []
            ≡ [] =
          rw found (unfold diagnostics_from_discovery diagnostics_from_parser in refl) in
        let run = λ (ds : List Diagnostic).
          report_run calculate digest error_text read_file decode absolute o d definitions units
            unscoped ds fs in
        let (new, kept, code) = own_report o d definitions units fs named own in
        (
          run [],
          ap
                (after_scope calculate digest error_text read_file decode absolute o d definitions
                  units [] fs)
                resolved
              ∙ ap (λ ds. done (run ds)) no_diagnostics,
          new,
          kept,
          code,
        )
