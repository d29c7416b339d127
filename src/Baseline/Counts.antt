-- ===== src/Baseline/Counts.antt =====
-- Apply of internal/baseline/baseline.go: the counts that a report prints add up.
use gruff_go.Base.{
  ◌+◌, ◌≡◌, refl, ◌∙◌, false, List, length, Text, arith, length-replicate, count_true,
  count_true-replicate, length-sort_by,
}
use gruff_go.Finding.{Finding}
use gruff_go.Baseline.Entries.{Entry, BaselineFile, compare_entries}
use gruff_go.Baseline.Pairing.{pair_exact_occurrences, pair_baseline_occurrences}
use gruff_go.Baseline.Apply.{with_flag, apply, new_count, unchanged_count, resolved_count}
use gruff_go.Baseline.Flags.{length-with_flag-true, length-with_flag-false}
use gruff_go.Baseline.Matching.{none_matched, pair_exact-IsPhase, pair_stable-IsPhase}

module _ (digest : Text → Text) (fs : List Finding) (es : List Entry) where
  pub pair-lengths :
      (length (pair_exact_occurrences fs es (none_matched fs es)).current_matched ≡ length fs)
      × (length (pair_exact_occurrences fs es (none_matched fs es)).baseline_matched ≡ length es)
      × (length (pair_baseline_occurrences digest fs es).current_matched ≡ length fs)
      × (length (pair_baseline_occurrences digest fs es).baseline_matched ≡ length es)
  unfolding pair_baseline_occurrences
  pair-lengths =
      let first = pair_exact-IsPhase fs es in
      let lc = first.lengths.0 ∙ length-replicate (length fs) false in
      let lb = first.lengths.1 ∙ length-replicate (length es) false in
      let second = pair_stable-IsPhase digest fs es _ lc lb in
      (lc, lb, second.lengths.0 ∙ lc, second.lengths.1 ∙ lb)

  -- As many findings are paired as rows.
  pub pair_baseline-balanced :
      count_true (pair_baseline_occurrences digest fs es).current_matched
      ≡ count_true (pair_baseline_occurrences digest fs es).baseline_matched
  unfolding pair_baseline_occurrences
  pair_baseline-balanced =
      let first = pair_exact-IsPhase fs es in
      let second = pair_stable-IsPhase digest fs es _ pair-lengths.0 pair-lengths.1 in
      omega (
        arith,
        first.balance,
        second.balance,
        count_true-replicate (length fs),
        count_true-replicate (length es),
      )

-- New and unchanged findings make up the scan, resolved and paired rows make up the baseline, and the
-- two older names of the counts agree with the new ones.
pub apply-counts :
    (digest : Text → Text) (fs : List Finding) (b : BaselineFile)
    → (new_count (apply digest fs b) + unchanged_count (apply digest fs b) ≡ length fs)
      × (resolved_count (apply digest fs b) + unchanged_count (apply digest fs b)
          ≡ (apply digest fs b).entries)
      × ((apply digest fs b).suppressed_findings ≡ unchanged_count (apply digest fs b))
      × ((apply digest fs b).stale_entries ≡ resolved_count (apply digest fs b))
unfolding apply new_count unchanged_count resolved_count
apply-counts digest fs b =
    let p = pair_baseline_occurrences digest fs b.findings in
    let (_, _, lc, lb) = pair-lengths digest fs b.findings in
    let balanced = pair_baseline-balanced digest fs b.findings in
    let shown = length-with_flag-true p.current_matched fs lc in
    let hidden = length-with_flag-false p.current_matched fs lc in
    let stale = length-with_flag-false p.baseline_matched b.findings lb in
    let sorted = length-sort_by compare_entries (with_flag false p.baseline_matched b.findings) in
    (omega arith, omega arith, refl, refl)
