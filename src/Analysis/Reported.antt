-- ===== src/Analysis/Reported.antt =====
-- NewReport and SortReport of internal/analysis/report.go: what a report says agrees with what it
-- lists.
use gruff_go.Base.{
  ◌≡◌, refl, sym, ◌∙◌, inl, inr, true, false, ◌||◌, ◌&&◌, List, [], ◌∷◌, Text, text_key, text_eq,
  text_eq_iff, text_compare, text_compare_total, contains, set_insert, contains-set_insert, sort_by,
  insert_sorted, arith, Bool-cases, any_of, length, length-sort_by, sort_by-IsSorted, sort_by-perm,
  IsSorted, is_gt, Ordering, IsRanked, sorted-IsRanked, count_if, count_if-sort_by, lookup,
}
use mathlib.Core.List.{Perm}
use gruff_go.Finding.{Finding, or_zero}
use gruff_go.Diff.Listing.{contains-sort_by}
use gruff_go.Analysis.Exit.{Diagnostic, resolve_exit_code, any_triggered, compare_diagnostics}
use gruff_go.Analysis.Report.{
  ReportInput, SkippedPath, is_config_skip, ignored_loop, config_ignored_paths, compare_findings,
  new_report,
}
use gruff_go.Analysis.Ordered.{
  compare_findings_total, compare_diagnostics_total, FindingLe, compare_findings-FindingLe,
  FindingLe-trans, DiagnosticLe, compare_diagnostics-DiagnosticLe, DiagnosticLe-trans,
}
use gruff_go.Analysis.Gate.{count_severity_lem}

contains-ignored_loop :
    (skipped : List SkippedPath) (seen : List Text) (p : Text)
    → contains (ignored_loop skipped seen) p
      ≡ (any_of (λ s. is_config_skip s && text_eq s.path p) skipped || contains seen p)
unfolding ignored_loop
contains-ignored_loop [] seen p = refl
contains-ignored_loop (s ∷ skipped) seen p = elim (Bool-cases (is_config_skip s)) [
  | inl t ↦
      rw (t, contains-ignored_loop skipped (set_insert s.path seen) p, contains-set_insert)
        (ground (arith, text_eq_iff s.path p, text_eq_iff p s.path))
  | inr n ↦ rw (n, contains-ignored_loop skipped seen p) refl
]

-- The bare list of ignored paths has exactly the paths that a configured pattern excluded, and is
-- sorted.
pub config_ignored_paths_lem :
    (skipped : List SkippedPath)
    → ((p : Text)
        → contains (config_ignored_paths skipped) p
          ≡ any_of (λ s. is_config_skip s && text_eq s.path p) skipped)
      × IsSorted text_compare (config_ignored_paths skipped)
unfolding config_ignored_paths
config_ignored_paths_lem skipped = (listed, sort_by-IsSorted text_compare text_total _)
  where
    text_total : (x y : Text) → is_gt (text_compare x y) ≡ true → is_gt (text_compare y x) ≡ false
    text_total x y h = ground (arith, text_compare_total x y)

    listed :
        (p : Text)
        → contains (sort_by text_compare (ignored_loop skipped [])) p
          ≡ any_of (λ s. is_config_skip s && text_eq s.path p) skipped
    listed p =
        contains-sort_by text_compare (ignored_loop skipped []) p
        ∙ contains-ignored_loop skipped [] p
        ∙ (unfold contains in ground arith)

module _ (cmp : Finding → Finding → Ordering) (t : Text) where
  any_triggered-insert_sorted :
      (f : Finding) (fs : List Finding)
      → any_triggered (insert_sorted cmp f fs) t ≡ any_triggered (f ∷ fs) t
  unfolding insert_sorted any_triggered
  any_triggered-insert_sorted f [] = refl
  any_triggered-insert_sorted f (g ∷ fs) = ground (arith, any_triggered-insert_sorted f fs)

  any_triggered-sort_by :
      (fs : List Finding) → any_triggered (sort_by cmp fs) t ≡ any_triggered fs t
  unfolding sort_by any_triggered
  any_triggered-sort_by [] = refl
  any_triggered-sort_by (f ∷ fs) =
      any_triggered-insert_sorted f (sort_by cmp fs) ∙ (rw (any_triggered-sort_by fs) refl)

resolve_exit_code-sort_by :
    (cd : Diagnostic → Diagnostic → Ordering) (cf : Finding → Finding → Ordering)
    (ds : List Diagnostic) (fs : List Finding) (t : Text)
    → resolve_exit_code (sort_by cd ds) (sort_by cf fs) t ≡ resolve_exit_code ds fs t
unfolding resolve_exit_code
resolve_exit_code-sort_by cd cf [] fs t = unfold sort_by in any_triggered-sort_by cf t fs
resolve_exit_code-sort_by cd cf (d ∷ ds) fs t =
    some_left (sort_by cd (d ∷ ds)) (length-sort_by cd (d ∷ ds))
  where
    some_left :
        (rest : List Diagnostic)
        → length rest ≡ length (d ∷ ds)
        → resolve_exit_code rest (sort_by cf fs) t ≡ 2
    some_left [] h = absurd (omega arith)
    some_left (e ∷ rest) h = refl

module _ {Score : Type 0} (calculate : List Finding → List Text → Score) where
  -- A report's exit code is the one of the diagnostics and findings that it lists; its counts of
  -- findings, diagnostics and files are the lengths of its lists.
  pub new_report-summary :
      (input : ReportInput)
      → ((new_report calculate input).summary.exit_code
          ≡ resolve_exit_code
              (new_report calculate input).diagnostics
              (new_report calculate input).findings
              (new_report calculate input).run.fail_on)
        × ((new_report calculate input).summary.findings_count
            ≡ length (new_report calculate input).findings)
        × ((new_report calculate input).summary.diagnostics_count
            ≡ length (new_report calculate input).diagnostics)
        × ((new_report calculate input).summary.files_scanned
            ≡ length (new_report calculate input).paths.scanned)
        × ((new_report calculate input).summary.files_skipped
            ≡ length (new_report calculate input).paths.skipped)
  unfolding new_report
  new_report-summary input = (
    sym (
        resolve_exit_code-sort_by compare_diagnostics compare_findings input.diagnostics
          input.findings input.fail_on),
    sym (length-sort_by _ input.findings),
    sym (length-sort_by _ input.diagnostics),
    sym (length-sort_by _ input.scanned),
    sym (length-sort_by _ input.skipped),
  )

  -- A report lists the findings and the diagnostics of its input, no more and no fewer. Of each two
  -- findings that it lists, the first comes first by file, line, column, rule, message and
  -- fingerprint, in this order; of each two diagnostics, by file, line, stage and message. A finding
  -- without a location has line and column 0.
  pub new_report-IsRanked :
      (input : ReportInput)
      → Perm (new_report calculate input).findings input.findings
        × Perm (new_report calculate input).diagnostics input.diagnostics
        × IsRanked FindingLe (new_report calculate input).findings
        × IsRanked DiagnosticLe (new_report calculate input).diagnostics
  unfolding new_report
  new_report-IsRanked input = (
    sort_by-perm _ input.findings,
    sort_by-perm _ input.diagnostics,
    sorted-IsRanked FindingLe compare_findings compare_findings-FindingLe FindingLe-trans _
        (sort_by-IsSorted compare_findings compare_findings_total input.findings),
    sorted-IsRanked DiagnosticLe compare_diagnostics compare_diagnostics-DiagnosticLe
        DiagnosticLe-trans _
        (sort_by-IsSorted compare_diagnostics compare_diagnostics_total input.diagnostics),
  )

  -- The buckets of a report's summary count the listed findings with that severity, and with that
  -- pillar.
  pub new_report-buckets :
      (input : ReportInput) (k : Text)
      → (or_zero (lookup k (new_report calculate input).summary.counts_by_severity)
          ≡ count_if (λ f. text_eq f.severity k) (new_report calculate input).findings)
        × (or_zero (lookup k (new_report calculate input).summary.counts_by_pillar)
            ≡ count_if (λ f. text_eq f.pillar k) (new_report calculate input).findings)
  unfolding new_report
  new_report-buckets input k =
      let (severities, pillars) = count_severity_lem input.findings k in
      (
        severities ∙ sym (count_if-sort_by compare_findings _ input.findings),
        pillars ∙ sym (count_if-sort_by compare_findings _ input.findings),
      )
