-- ===== src/Analysis/Ordered.antt =====
-- The orders of the lists of a report: compareFindings of internal/analysis/report.go and
-- compareDiagnostics.
use gruff_go.Base.{
  ◌≡◌, ◌<◌, inl, inr, true, false, arith, text_eq_iff, text_compare_total, is_gt, Lex, Lex-trans,
  TextLt, TextLt-trans, TextLe, TextLe-trans, lex_text, lex_nat,
}
use gruff_go.Finding.{Finding}
use gruff_go.Analysis.Exit.{Diagnostic, location_line, compare_diagnostics}
use gruff_go.Analysis.Report.{location_column, compare_findings}

pub compare_findings_total :
    (x y : Finding) → is_gt (compare_findings x y) ≡ true → is_gt (compare_findings y x) ≡ false
unfolding compare_findings
compare_findings_total x y h = ground (
  arith,
  text_eq_iff x.file y.file,
  text_eq_iff y.file x.file,
  text_eq_iff x.rule_id y.rule_id,
  text_eq_iff y.rule_id x.rule_id,
  text_eq_iff x.message y.message,
  text_eq_iff y.message x.message,
  text_compare_total x.file y.file,
  text_compare_total x.rule_id y.rule_id,
  text_compare_total x.message y.message,
  text_compare_total x.fingerprint y.fingerprint,
)

pub compare_diagnostics_total :
    (x y : Diagnostic)
    → is_gt (compare_diagnostics x y) ≡ true
    → is_gt (compare_diagnostics y x) ≡ false
unfolding compare_diagnostics
compare_diagnostics_total x y h = ground (
  arith,
  text_eq_iff x.file y.file,
  text_eq_iff y.file x.file,
  text_eq_iff x.stage y.stage,
  text_eq_iff y.stage x.stage,
  text_compare_total x.file y.file,
  text_compare_total x.stage y.stage,
  text_compare_total x.message y.message,
)

abbrev FindingLeByFingerprint : Finding → Finding → Type 0
FindingLeByFingerprint a b = TextLe a.fingerprint b.fingerprint

abbrev FindingLeByMessage : Finding → Finding → Type 0
FindingLeByMessage = Lex TextLt (λ x. x.message) FindingLeByFingerprint

abbrev FindingLeByRule : Finding → Finding → Type 0
FindingLeByRule = Lex TextLt (λ x. x.rule_id) FindingLeByMessage

abbrev FindingLeByColumn : Finding → Finding → Type 0
FindingLeByColumn = Lex (λ m n. m < n) (λ x. location_column x.location) FindingLeByRule

abbrev FindingLeByLine : Finding → Finding → Type 0
FindingLeByLine = Lex (λ m n. m < n) (λ x. location_line x.location) FindingLeByColumn

-- The order of the findings of a report.
abbrev pub FindingLe : Finding → Finding → Type 0
FindingLe = Lex TextLt (λ x. x.file) FindingLeByLine

FindingLeByFingerprint-trans :
    (a b c : Finding)
    → FindingLeByFingerprint a b
    → FindingLeByFingerprint b c
    → FindingLeByFingerprint a c
FindingLeByFingerprint-trans a b c h k = TextLe-trans a.fingerprint b.fingerprint c.fingerprint h k

FindingLeByMessage-trans :
    (a b c : Finding) → FindingLeByMessage a b → FindingLeByMessage b c → FindingLeByMessage a c
FindingLeByMessage-trans =
    Lex-trans TextLt (λ x. x.message) FindingLeByFingerprint TextLt-trans
      FindingLeByFingerprint-trans

FindingLeByRule-trans :
    (a b c : Finding) → FindingLeByRule a b → FindingLeByRule b c → FindingLeByRule a c
FindingLeByRule-trans =
    Lex-trans TextLt (λ x. x.rule_id) FindingLeByMessage TextLt-trans FindingLeByMessage-trans

FindingLeByColumn-trans :
    (a b c : Finding) → FindingLeByColumn a b → FindingLeByColumn b c → FindingLeByColumn a c
FindingLeByColumn-trans =
    Lex-trans (λ m n. m < n) (λ x. location_column x.location) FindingLeByRule
      (λ x y z h k. omega arith) FindingLeByRule-trans

FindingLeByLine-trans :
    (a b c : Finding) → FindingLeByLine a b → FindingLeByLine b c → FindingLeByLine a c
FindingLeByLine-trans =
    Lex-trans (λ m n. m < n) (λ x. location_line x.location) FindingLeByColumn
      (λ x y z h k. omega arith) FindingLeByColumn-trans

pub FindingLe-trans : (a b c : Finding) → FindingLe a b → FindingLe b c → FindingLe a c
FindingLe-trans = Lex-trans TextLt (λ x. x.file) FindingLeByLine TextLt-trans FindingLeByLine-trans

pub compare_findings-FindingLe :
    (a b : Finding) → is_gt (compare_findings a b) ≡ false → FindingLe a b
unfolding compare_findings
compare_findings-FindingLe a b h = elim (lex_text a.file b.file _ h) [
  | inl lt ↦ inl lt
  | inr (e0, h0) ↦ elim (lex_nat (location_line a.location) (location_line b.location) _ h0) [
    | inl lt ↦ inr (e0, inl lt)
    | inr (e1, h1) ↦ elim (lex_nat (location_column a.location) (location_column b.location) _ h1) [
      | inl lt ↦ inr (e0, inr (e1, inl lt))
      | inr (e2, h2) ↦ elim (lex_text a.rule_id b.rule_id _ h2) [
        | inl lt ↦ inr (e0, inr (e1, inr (e2, inl lt)))
        | inr (e3, h3) ↦ elim (lex_text a.message b.message _ h3) [
          | inl lt ↦ inr (e0, inr (e1, inr (e2, inr (e3, inl lt))))
          | inr (e4, h4) ↦ inr (e0, inr (e1, inr (e2, inr (e3, inr (e4, h4)))))
        ]
      ]
    ]
  ]
]

abbrev DiagnosticLeByMessage : Diagnostic → Diagnostic → Type 0
DiagnosticLeByMessage a b = TextLe a.message b.message

abbrev DiagnosticLeByStage : Diagnostic → Diagnostic → Type 0
DiagnosticLeByStage = Lex TextLt (λ x. x.stage) DiagnosticLeByMessage

abbrev DiagnosticLeByLine : Diagnostic → Diagnostic → Type 0
DiagnosticLeByLine = Lex (λ m n. m < n) (λ x. location_line x.location) DiagnosticLeByStage

-- The order of the diagnostics of a report.
abbrev pub DiagnosticLe : Diagnostic → Diagnostic → Type 0
DiagnosticLe = Lex TextLt (λ x. x.file) DiagnosticLeByLine

DiagnosticLeByMessage-trans :
    (a b c : Diagnostic)
    → DiagnosticLeByMessage a b
    → DiagnosticLeByMessage b c
    → DiagnosticLeByMessage a c
DiagnosticLeByMessage-trans a b c h k = TextLe-trans a.message b.message c.message h k

DiagnosticLeByStage-trans :
    (a b c : Diagnostic)
    → DiagnosticLeByStage a b
    → DiagnosticLeByStage b c
    → DiagnosticLeByStage a c
DiagnosticLeByStage-trans =
    Lex-trans TextLt (λ x. x.stage) DiagnosticLeByMessage TextLt-trans DiagnosticLeByMessage-trans

DiagnosticLeByLine-trans :
    (a b c : Diagnostic) → DiagnosticLeByLine a b → DiagnosticLeByLine b c → DiagnosticLeByLine a c
DiagnosticLeByLine-trans =
    Lex-trans (λ m n. m < n) (λ x. location_line x.location) DiagnosticLeByStage
      (λ x y z h k. omega arith) DiagnosticLeByStage-trans

pub DiagnosticLe-trans :
    (a b c : Diagnostic) → DiagnosticLe a b → DiagnosticLe b c → DiagnosticLe a c
DiagnosticLe-trans =
    Lex-trans TextLt (λ x. x.file) DiagnosticLeByLine TextLt-trans DiagnosticLeByLine-trans

pub compare_diagnostics-DiagnosticLe :
    (a b : Diagnostic) → is_gt (compare_diagnostics a b) ≡ false → DiagnosticLe a b
unfolding compare_diagnostics
compare_diagnostics-DiagnosticLe a b h = elim (lex_text a.file b.file _ h) [
  | inl lt ↦ inl lt
  | inr (e0, h0) ↦ elim (lex_nat (location_line a.location) (location_line b.location) _ h0) [
    | inl lt ↦ inr (e0, inl lt)
    | inr (e1, h1) ↦ elim (lex_text a.stage b.stage _ h1) [
      | inl lt ↦ inr (e0, inr (e1, inl lt))
      | inr (e2, h2) ↦ inr (e0, inr (e1, inr (e2, h2)))
    ]
  ]
]
