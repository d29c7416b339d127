-- ===== src/Baseline/Apply.antt =====
-- Apply of internal/baseline/baseline.go: the three states of a scan against its baseline.
use gruff_go.Base.{ℕ, Bool, true, false, List, [], ◌∷◌, Text, length, sort_by, if◌then◌else◌}
use gruff_go.Finding.{Finding}
use gruff_go.Baseline.Entries.{Entry, BaselineFile, compare_entries}
use gruff_go.Baseline.Pairing.{pair_baseline_occurrences}

pub record ApplyResult : Type 0 where
  pub findings : List Finding
  pub unchanged : List Finding
  pub resolved : List Entry
  pub suppressed_findings : ℕ
  pub stale_entries : ℕ
  pub entries : ℕ

module _ {A : Type 0} where
  -- The items whose flag has the given value: the splitting loops, over a slice and its flags.
  unfoldable pub with_flag : Bool → List Bool → List A → List A
  with_flag b [] xs = []
  with_flag b (c ∷ cs) [] = []
  with_flag true (c ∷ cs) (x ∷ xs) = let rest = with_flag true cs xs in if c then x ∷ rest else rest
  with_flag false (c ∷ cs) (x ∷ xs) =
      let rest = with_flag false cs xs in if c then rest else x ∷ rest

module _ (digest : Text → Text) where
  unfoldable pub apply : List Finding → BaselineFile → ApplyResult
  unfolding with_flag pair_baseline_occurrences
  apply fs b =
      let p = pair_baseline_occurrences digest fs b.findings in
      let unchanged = with_flag true p.current_matched fs in
      let resolved = sort_by compare_entries (with_flag false p.baseline_matched b.findings) in
      record {
        findings = with_flag false p.current_matched fs;
        unchanged = unchanged;
        resolved = resolved;
        suppressed_findings = length unchanged;
        stale_entries = length resolved;
        entries = length b.findings;
      }

-- NewCount, UnchangedCount and ResolvedCount
unfoldable pub new_count : ApplyResult → ℕ
new_count r = length r.findings

unfoldable pub unchanged_count : ApplyResult → ℕ
unchanged_count r = length r.unchanged

unfoldable pub resolved_count : ApplyResult → ℕ
resolved_count r = length r.resolved
