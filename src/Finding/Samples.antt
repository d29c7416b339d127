-- ===== src/Finding/Samples.antt =====
-- Concrete findings for internal/finding.
use gruff_go.Base.{◌≡◌, refl, true, none, [], ◌∷◌, Text, codes, text_eq, All, arith}
use gruff_go.Finding.Types.{Finding, severity_advisory, severity_warning}
use gruff_go.Finding.Threshold.{threshold_valid}
use gruff_go.Finding.Identity.{outside, replace_numbers, compute_contract_stable_identity}
use gruff_go.Finding.Subject.{NotNul, contract_identity-measured, identity_bytes-injective}

warning_is_valid : threshold_valid severity_warning ≡ true
unfolding threshold_valid severity_warning severity_advisory text_eq
warning_is_valid = refl

numbers_hidden : replace_numbers outside (codes "9 of 4.25 (x3)") ≡ codes "# of # (x#)"
unfolding replace_numbers
numbers_hidden = refl

abbrev sized : Text → Finding
sized message = record {
  rule_id = codes "size.file";
  message = message;
  file = codes "a.go";
  location = none;
  symbol = [];
  severity = severity_warning;
  confidence = codes "high";
  pillar = codes "size";
  secondary_pillars = [];
  tier = [];
  remediation = [];
  metadata = [];
  fingerprint = [];
  stable_identity = [];
}

abbrev digest : Text → Text
digest s = s

contract_identity-measured_example :
    compute_contract_stable_identity digest (sized (codes "81 lines"))
    ≡ compute_contract_stable_identity digest (sized (codes "104 lines"))
contract_identity-measured_example =
    contract_identity-measured digest (sized (codes "81 lines")) (sized (codes "104 lines")) []
      (codes " lines") (codes "1") (codes "04") b'8' b'1' refl refl refl refl (refl, (refl, tt))
      (refl, (refl, (refl, tt))) refl refl

nul_free_rule : All NotNul (codes "r")
nul_free_rule = (omega arith, tt)

nul_free_file : All NotNul (codes "a")
nul_free_file = (omega arith, tt)

identity_bytes-injective_example :
    (codes "r" ≡ codes "r") × (codes "a" ≡ codes "a") × (0 ∷ codes "m" ≡ 0 ∷ codes "m")
identity_bytes-injective_example =
    identity_bytes-injective (codes "r") (codes "a") (0 ∷ codes "m") (codes "r") (codes "a")
      (0 ∷ codes "m") nul_free_rule nul_free_file nul_free_rule nul_free_file refl
