-- ===== src/Analysis/Samples.antt =====
-- Concrete findings, filters and functions for internal/analysis.
use gruff_go.Base.{
  contains, ℕ, ◌+◌, ◌≡◌, refl, ◌↔◌, true, false, none, some, List, [], ◌∷◌, Text, codes, text_eq,
  keep_if, any_of, length, text_key,
}
use gruff_go.Finding.{
  severity_error, severity_warning, severity_advisory, Finding, Metadata, texts_value,
  threshold_valid,
}
use gruff_go.Finding.Order.{reaches}
use gruff_go.Diff.{ChangedLines, matches_finding}
use gruff_go.Analysis.Composite.{
  collect_non_composite_fingerprints, composite_underlying_fingerprints,
  composite_evidence_survives, prune_loop, prune_orphaned_composites,
}
use gruff_go.Analysis.Region.{
  Function, Functions, enclosing_function, best_named, changed_scope_matches, DiffSummary,
}
use gruff_go.Analysis.Exit.{Diagnostic, resolve_exit_code}
use gruff_go.Analysis.Pruned.{is_backed, prune_orphaned_composites_lem}
use gruff_go.Analysis.Scoped.{matches-changed_scope_matches}
use gruff_go.Analysis.Gate.{resolve_exit_code_lem}

abbrev finding_of : Text → ℕ → Metadata → Finding
finding_of fingerprint line metadata = record {
  rule_id = codes "size.long";
  message = codes "m";
  file = codes "a.go";
  location = some (record { line = line; column = 1; end_line = 0 });
  symbol = codes "Run";
  severity = codes "warning";
  confidence = codes "high";
  pillar = codes "size";
  secondary_pillars = [];
  tier = [];
  remediation = [];
  metadata = metadata;
  fingerprint = fingerprint;
  stable_identity = [];
}

abbrev evidence_of : Text → Metadata
evidence_of fingerprint = (codes "underlyingFingerprints", texts_value (fingerprint ∷ [])) ∷ []

-- A finding, a composite that rests on it and a composite that rests on nothing here.
abbrev pub findings : List Finding
findings =
    finding_of (codes "f1") 5 []
    ∷ finding_of (codes "c1") 5 (evidence_of (codes "f1"))
    ∷ finding_of (codes "c2") 7 (evidence_of (codes "c1"))
    ∷ []

one_pruned : (prune_orphaned_composites findings).1 ≡ 1
unfolding prune_orphaned_composites prune_loop composite_evidence_survives
    composite_underlying_fingerprints text_eq contains collect_non_composite_fingerprints
one_pruned = refl

prune_orphaned_composites_lem_example :
    ((prune_orphaned_composites findings).0 ≡ keep_if (is_backed findings) findings)
    × (length (prune_orphaned_composites findings).0 + (prune_orphaned_composites findings).1 ≡ 3)
prune_orphaned_composites_lem_example = prune_orphaned_composites_lem findings

abbrev outer : Function
outer = record { name = codes "Outer"; line = 1; end_line = 20 }

abbrev inner : Function
inner = record { name = codes "T.Run"; line = 4; end_line = 9 }

inner_encloses : enclosing_function 5 (codes "Run") (outer ∷ inner ∷ []) ≡ some inner
unfolding enclosing_function text_eq
inner_encloses = refl

inner_named : best_named 5 (codes "Run") (outer ∷ inner ∷ []) none ≡ some inner
unfolding best_named text_eq
inner_named = refl

none_encloses : enclosing_function 30 (codes "Run") (outer ∷ inner ∷ []) ≡ none
unfolding enclosing_function
none_encloses = refl

abbrev change : ChangedLines
change = record {
  base = codes "main";
  lines_by_file = (codes "a.go", 5 ∷ []) ∷ [];
  whole_files = [];
  changed_files = codes "a.go" ∷ [];
}

on_changed_line : matches_finding (finding_of (codes "f1") 5 []) change ≡ true
unfolding matches_finding text_eq
on_changed_line = refl

matches-changed_scope_matches_example :
    changed_scope_matches (finding_of (codes "f1") 5 []) change (inner ∷ []) ≡ true
matches-changed_scope_matches_example =
    matches-changed_scope_matches (finding_of (codes "f1") 5 []) change (inner ∷ []) on_changed_line

abbrev units : Functions
units = (codes "a.go", outer ∷ inner ∷ []) ∷ []

abbrev diff_on : DiffSummary
diff_on = record {
  enabled = true;
  base = codes "main";
  changed_files = codes "a.go" ∷ [];
  filtered_findings = 0;
  caveat = [];
}

error_is_valid : threshold_valid (codes "error") ≡ true
unfolding threshold_valid text_eq severity_advisory severity_warning severity_error
error_is_valid = refl

abbrev no_diagnostics : List Diagnostic
no_diagnostics = []

resolve_exit_code_lem_example :
    ((resolve_exit_code no_diagnostics findings (codes "error") ≡ 2)
      ↔ ((d : Diagnostic) × (rest : List Diagnostic) × (no_diagnostics ≡ d ∷ rest)))
    × ((resolve_exit_code no_diagnostics findings (codes "error") ≡ 1) ↔ (
        (no_diagnostics ≡ []) × (any_of (λ f. reaches (codes "error") f.severity) findings ≡ true)))
    × ((resolve_exit_code no_diagnostics findings (codes "error") ≡ 0) ↔ (
        (no_diagnostics ≡ [])
        × (any_of (λ f. reaches (codes "error") f.severity) findings ≡ false)))
resolve_exit_code_lem_example =
    resolve_exit_code_lem no_diagnostics findings (codes "error") error_is_valid
