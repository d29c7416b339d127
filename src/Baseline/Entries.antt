-- ===== src/Baseline/Entries.antt =====
-- The baseline document of internal/baseline/baseline.go: its rows, their order, how a file is built
-- from a scan and how it is checked on reading. The JSON encoder and decoder are parameters.
use gruff_go.Base.{
  ℕ, ◌+◌, ◌≡◌, ◌↔◌, Bool, true, not, ◌&&◌, ◌||◌, Option, none, some, List, [], ◌∷◌, map, Text,
  codes, text_eq, text_eq_iff, text_compare, sort_by, Ordering, if◌then◌else◌, Eq, arith, ◌++◌,
}
use gruff_go.Finding.{Finding, is_empty, compute_contract_stable_identity}

unfoldable pub schema_version : Text
schema_version = codes "gruff-go.baseline.v0.1"

pub record Entry : Type 0 where
  pub rule_id : Text
  pub file : Text
  pub fingerprint : Text
  pub stable_identity : Text

pub record BaselineFile : Type 0 where
  pub schema : Text
  pub findings : List Entry

-- exactMatchKey and stableMatchKey: three texts each, compared field by field.
pub record MatchKey : Type 0 where
  pub rule_id : Text
  pub file : Text
  pub identity : Text

unfoldable pub match_key_eq : MatchKey → MatchKey → Bool
match_key_eq a b =
    text_eq a.rule_id b.rule_id && (text_eq a.file b.file && text_eq a.identity b.identity)

pub match_key_eq_iff : (a b : MatchKey) → (match_key_eq a b ≡ true) ↔ (a ≡ b)
unfolding match_key_eq
match_key_eq_iff a b = ground (
  arith,
  text_eq_iff a.rule_id b.rule_id,
  text_eq_iff a.file b.file,
  text_eq_iff a.identity b.identity,
)

instance abbrev pub match_key : Eq MatchKey
match_key = record { beq = match_key_eq; beq_iff = match_key_eq_iff }

-- compareEntries
unfoldable pub compare_entries : Entry → Entry → Ordering
compare_entries l r =
    if not (text_eq l.file r.file)
    then text_compare l.file r.file
    else if not (text_eq l.rule_id r.rule_id)
    then text_compare l.rule_id r.rule_id
    else text_compare l.fingerprint r.fingerprint

-- The row that FromFindings writes for one finding.
unfoldable pub entry_of : (Text → Text) → Finding → Entry
entry_of digest f = record {
  rule_id = f.rule_id;
  file = f.file;
  fingerprint = f.fingerprint;
  stable_identity = compute_contract_stable_identity digest f;
}

-- FromFindings
unfoldable pub from_findings : (Text → Text) → List Finding → BaselineFile
from_findings digest fs = record {
  schema = schema_version;
  findings = sort_by compare_entries (map (entry_of digest) fs);
}

pub data ParseError : Type 0 where
  decode_failed unsupported_schema : ParseError
  incomplete_entry : ℕ → ParseError

pub data Parsed : Type 0 where
  parsed : BaselineFile → Parsed
  rejected : ParseError → Parsed

-- A row that lacks its rule, its file or its fingerprint.
abbrev pub is_incomplete : Entry → Bool
is_incomplete e = is_empty e.rule_id || is_empty e.file || is_empty e.fingerprint

-- The validation loop: the index of the first incomplete row.
unfoldable pub first_incomplete : ℕ → List Entry → Option ℕ
first_incomplete i [] = none
first_incomplete i (e ∷ es) =
    let later = first_incomplete (i + 1) es in if is_incomplete e then some i else later

-- The checks of Parse on a decoded document.
unfoldable pub check_file : BaselineFile → Parsed
check_file b =
    if not (text_eq b.schema schema_version)
    then rejected unsupported_schema
    else elim (first_incomplete 0 b.findings) [
      | none ↦ parsed b
      | some i ↦ rejected (incomplete_entry i)
    ]

-- Parse, after the strict decoder
unfoldable pub parse : (Text → Option BaselineFile) → Text → Parsed
parse decode json = elim (decode json) [ none ↦ rejected decode_failed | some b ↦ check_file b ]

-- Marshal: the indented document and a newline
unfoldable pub marshal : (BaselineFile → Text) → BaselineFile → Text
marshal encode b = encode b ++ (10 ∷ [])
