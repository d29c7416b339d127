-- ===== src/Baseline/Samples.antt =====
-- Concrete scans and baselines for internal/baseline/baseline.go.
use gruff_go.Base.{
  ◌+◌, ◌++◌, ◌==◌, ◌≡◌, refl, if◌then◌else◌, Option, none, some, List, [], ◌∷◌, Text, codes, All,
  text_eq, sort_by, text_compare, has_prefix,
}
use gruff_go.Finding.{
  Finding, is_empty, has_contract_stable_anchor, compute_contract_stable_identity, identity_bytes,
  contract_subject,
}
use gruff_go.Baseline.Entries.{
  Entry, BaselineFile, schema_version, compare_entries, from_findings, entry_of, match_key_eq,
  parsed, parse, marshal,
}
use gruff_go.Baseline.Pairing.{
  finding_allows_contract_stable_match, rule_allows_contract_stable_match,
}
use gruff_go.Baseline.Apply.{apply, new_count, unchanged_count, resolved_count}
use gruff_go.Baseline.Document.{IsVerdict, parse-IsVerdict, parse-marshal-from_findings}
use gruff_go.Baseline.Counts.{apply-counts}
use gruff_go.Baseline.RoundTrip.{apply-from_findings}
use gruff_go.Baseline.Reviewed.{IsReviewed, apply-unchanged-IsReviewed}

abbrev digest : Text → Text
digest s = s

abbrev finding_of : Text → Text → Text → Finding
finding_of rule symbol fingerprint = record {
  rule_id = rule;
  message = codes "function has 81 lines";
  file = codes "a.go";
  location = some (record { line = 3; column = 1; end_line = 90 });
  symbol = symbol;
  severity = codes "warning";
  confidence = codes "high";
  pillar = codes "size";
  secondary_pillars = [];
  tier = codes "v0.1";
  remediation = [];
  metadata = [];
  fingerprint = fingerprint;
  stable_identity = [];
}

-- Two occurrences of one finding, and another one.
abbrev scan : List Finding
scan =
    finding_of (codes "size.long") (codes "Run") (codes "f1")
    ∷ finding_of (codes "size.long") (codes "Run") (codes "f1")
    ∷ finding_of (codes "sensitive-data.key") [] (codes "f2")
    ∷ []

-- The scan after the first function has moved, without its double.
abbrev later_scan : List Finding
later_scan =
    finding_of (codes "size.long") (codes "Run") (codes "f9")
    ∷ finding_of (codes "sensitive-data.key") [] (codes "f8")
    ∷ []

abbrev reviewed : BaselineFile
reviewed = from_findings digest scan

abbrev row_of : Text → Text → Entry
row_of file fingerprint = record {
  rule_id = codes "r";
  file = file;
  fingerprint = fingerprint;
  stable_identity = [];
}

abbrev two_rows : BaselineFile
two_rows = record {
  schema = schema_version;
  findings = row_of (codes "b.go") (codes "2") ∷ row_of (codes "a.go") (codes "1") ∷ [];
}

-- The moved function is recognised, the leaked key is not.
moved_function :
    (new_count (apply digest later_scan reviewed) ≡ 1)
    × (unchanged_count (apply digest later_scan reviewed) ≡ 1)
    × (resolved_count (apply digest later_scan reviewed) ≡ 2)
unfolding apply from_findings new_count unchanged_count resolved_count sort_by compare_entries
    text_eq entry_of text_compare match_key_eq finding_allows_contract_stable_match
    rule_allows_contract_stable_match has_prefix has_contract_stable_anchor
    compute_contract_stable_identity identity_bytes contract_subject
moved_function = (refl, refl, refl)

apply-from_findings_example :
    ((apply digest scan (from_findings digest scan)).findings ≡ [])
    × ((apply digest scan (from_findings digest scan)).unchanged ≡ scan)
    × ((apply digest scan (from_findings digest scan)).resolved ≡ [])
apply-from_findings_example = apply-from_findings digest scan

apply-unchanged-IsReviewed_example :
    All (IsReviewed digest reviewed.findings) (apply digest later_scan reviewed).unchanged
apply-unchanged-IsReviewed_example = apply-unchanged-IsReviewed digest later_scan reviewed

apply-counts_example :
    (new_count (apply digest later_scan reviewed)
        + unchanged_count (apply digest later_scan reviewed)
      ≡ 2)
    × (resolved_count (apply digest later_scan reviewed)
          + unchanged_count (apply digest later_scan reviewed)
        ≡ (apply digest later_scan reviewed).entries)
    × ((apply digest later_scan reviewed).suppressed_findings
        ≡ unchanged_count (apply digest later_scan reviewed))
    × ((apply digest later_scan reviewed).stale_entries
        ≡ resolved_count (apply digest later_scan reviewed))
apply-counts_example = apply-counts digest later_scan reviewed

abbrev decode_two_rows : Text → Option BaselineFile
decode_two_rows text = if is_empty text then none else some two_rows

parse-IsVerdict_example :
    IsVerdict (decode_two_rows (codes "doc")) (parse decode_two_rows (codes "doc"))
parse-IsVerdict_example = parse-IsVerdict decode_two_rows (codes "doc")

abbrev encode_scan : BaselineFile → Text
encode_scan b = codes "{}"

-- A decoder for the one document that the encoder prints here: it looks at the first byte.
abbrev decode_scan : Text → Option BaselineFile
decode_scan [] = none
decode_scan (c ∷ text) = if c == b'{' then some (from_findings digest scan) else none

newline_ignored : (json : Text) → decode_scan (json ++ (10 ∷ [])) ≡ decode_scan json
newline_ignored [] = refl
newline_ignored (c ∷ text) = refl

parse-marshal-from_findings_example :
    parse decode_scan (marshal encode_scan (from_findings digest scan))
    ≡ parsed (from_findings digest scan)
parse-marshal-from_findings_example =
    parse-marshal-from_findings digest encode_scan decode_scan scan refl newline_ignored (
      (λ e. cc, λ e. cc, λ e. cc),
      ((λ e. cc, λ e. cc, λ e. cc), ((λ e. cc, λ e. cc, λ e. cc), tt)),
    )
