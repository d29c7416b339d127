-- ===== src/Finding/Identity.antt =====
-- internal/finding/finding.go and contract_identity.go: what a finding is recognised by. The hash
-- (SHA-256, in hexadecimal, cut to 16 digits) and the JSON encoder are parameters.
use gruff_go.Base.{
  ℕ, Bool, true, false, not, ◌&&◌, ◌||◌, Option, none, some, [], ◌∷◌, ◌++◌, Text, codes, text_key,
  leb, ◌==◌, if◌then◌else◌, lookup,
}
use gruff_go.Finding.Types.{Location, Metadata, Finding}

-- The struct that ComputeFingerprint encodes.
pub record FingerprintFields : Type 0 where
  pub rule_id : Text
  pub file : Text
  pub line : ℕ
  pub column : ℕ
  pub end_line : ℕ
  pub symbol : Text
  pub message : Text

abbrev unknown_location : Location
unknown_location = record { line = 0; column = 0; end_line = 0 }

abbrev pub location_or_zero : Option Location → Location
location_or_zero none = unknown_location
location_or_zero (some l) = l

unfoldable pub fingerprint_fields : Finding → FingerprintFields
fingerprint_fields f = record {
  rule_id = f.rule_id;
  file = f.file;
  line = (location_or_zero f.location).line;
  column = (location_or_zero f.location).column;
  end_line = (location_or_zero f.location).end_line;
  symbol = f.symbol;
  message = f.message;
}

abbrev pub is_empty : Text → Bool
is_empty [] = true
is_empty (_ ∷ _) = false

-- The bytes written to the hasher: rule, file and subject, with a NUL between.
unfoldable pub identity_bytes : Text → Text → Text → Text
identity_bytes rule file subject = rule ++ (0 ∷ (file ++ (0 ∷ subject)))

abbrev has_key : Metadata → Text → Bool
has_key m k = elim (lookup k m) [ none ↦ false | some _ ↦ true ]

-- hasContractMetricMetadata
unfoldable pub has_contract_metric_metadata : Metadata → Bool
unfolding lookup
has_contract_metric_metadata m =
    if has_key m (codes "threshold")
    then has_key m (codes "lines")
      || has_key m (codes "complexity")
      || has_key m (codes "depth")
      || has_key m (codes "parameters")
      || has_key m (codes "measured")
    else false

abbrev pub is_digit : ℕ → Bool
is_digit c = leb b'0' c && leb c b'9'

abbrev pub starts_with_digit : Text → Bool
starts_with_digit [] = false
starts_with_digit (c ∷ _) = is_digit c

-- Where the scan for \d+(?:\.\d+)? stands: outside a number, in its whole part, in its fraction.
pub data NumberScan : Type 0 where
  outside whole fraction : NumberScan

abbrev pub scan_mode : NumberScan → ℕ → Text → NumberScan
scan_mode outside c rest = if is_digit c then whole else outside
scan_mode whole c rest =
    if is_digit c then whole else if c == b'.' && starts_with_digit rest then fraction else outside
scan_mode fraction c rest = if is_digit c then fraction else outside

abbrev pub scan_output : NumberScan → NumberScan → ℕ → Text → Text
scan_output outside whole c out = b'#' ∷ out
scan_output _ outside c out = c ∷ out
scan_output _ _ c out = out

-- contractNumberPattern.ReplaceAllString(s, "#"), from a scan state
unfoldable pub replace_numbers : NumberScan → Text → Text
replace_numbers m [] = []
replace_numbers m (c ∷ s) =
    let next = scan_mode m c s in scan_output m next c (replace_numbers next s)

-- The subject of ComputeContractStableIdentity.
unfoldable pub contract_subject : Finding → Text
unfolding replace_numbers has_contract_metric_metadata
contract_subject f =
    if is_empty f.symbol && not (has_contract_metric_metadata f.metadata)
    then replace_numbers outside f.message
    else f.symbol

-- HasContractStableAnchor
unfoldable pub has_contract_stable_anchor : Finding → Bool
unfolding has_contract_metric_metadata
has_contract_stable_anchor f = not (is_empty f.symbol) || has_contract_metric_metadata f.metadata

unfoldable pub default_tier : Text
default_tier = codes "v0.1"

module _ (digest : Text → Text) where
  -- ComputeStableIdentity
  unfoldable pub compute_stable_identity : Finding → Text
  compute_stable_identity f =
      digest (identity_bytes f.rule_id f.file (if is_empty f.symbol then f.message else f.symbol))

  -- ComputeContractStableIdentity
  unfoldable pub compute_contract_stable_identity : Finding → Text
  compute_contract_stable_identity f = digest (identity_bytes f.rule_id f.file (contract_subject f))

  module _ (marshal : FingerprintFields → Text) where
    -- ComputeFingerprint
    unfoldable pub compute_fingerprint : Finding → Text
    compute_fingerprint f = digest (marshal (fingerprint_fields f))

    -- WithFingerprint
    unfoldable pub with_fingerprint : Finding → Finding
    with_fingerprint f =
        let g = record f { fingerprint = compute_fingerprint f } in
        let h = record g { stable_identity = compute_stable_identity g } in
        if is_empty h.tier then record h { tier = default_tier } else h
