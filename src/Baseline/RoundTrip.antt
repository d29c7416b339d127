-- ===== src/Baseline/RoundTrip.antt =====
-- A scan against the baseline that FromFindings of internal/baseline/baseline.go wrote for it.
use gruff_go.Base.{
  ℕ, suc, ◌≡◌, ◌<◌, refl, sym, ap, ◌∙◌, true, false, List, [], ◌∷◌, map, length, get_elem?, some,
  Text, arith, length-sort_by, count_if-sort_by, count_true, count_true_all, length-replicate,
  sort_by,
}
use gruff_go.Finding.{Finding}
use gruff_go.Baseline.Entries.{Entry, MatchKey, match_key, compare_entries, entry_of, from_findings}
use gruff_go.Baseline.Pairing.{
  pair_exact_occurrences, pair_baseline_occurrences, exact_key_entry, exact_key, no_queues,
  queue_entries, start,
}
use gruff_go.Baseline.Apply.{apply}
use gruff_go.Baseline.Flags.{with_flag_all}
use gruff_go.Baseline.Totals.{key_count, length-queue_entries, consume-all}
use gruff_go.Baseline.Matching.{none_matched, pair_stable-IsPhase}
use gruff_go.Baseline.Counts.{pair-lengths, pair_baseline-balanced}

length-map : {A B : Type 0} (f : A → B) (xs : List A) → length (map f xs) ≡ length xs
length-map f [] = refl
length-map f (x ∷ xs) = ap suc (length-map f xs)

module _ (digest : Text → Text) (fs : List Finding) where
  abbrev rows : List Entry
  rows = (from_findings digest fs).findings

  length-rows : length rows ≡ length fs
  unfolding from_findings
  length-rows = length-sort_by compare_entries (map (entry_of digest) fs) ∙ length-map _ fs

  key_count-entry_of :
      (k : MatchKey) (xs : List Finding)
      → key_count exact_key_entry k (map (entry_of digest) xs) ≡ key_count exact_key k xs
  unfolding entry_of
  key_count-entry_of k [] = refl
  key_count-entry_of k (x ∷ xs) = rw (key_count-entry_of k xs)

  key_count-rows : (k : MatchKey) → key_count exact_key_entry k rows ≡ key_count exact_key k fs
  unfolding from_findings
  key_count-rows k =
      count_if-sort_by compare_entries (λ x. match_key.beq (exact_key_entry x) k)
        (map (entry_of digest) fs)
      ∙ key_count-entry_of k fs

  exact_matches_all :
      (n : ℕ)
      → n < length fs
      → get_elem? (pair_exact_occurrences fs rows (none_matched fs rows)).current_matched n
        ≡ some true
  unfolding pair_exact_occurrences
  exact_matches_all n lt =
      let queues = queue_entries (λ i e. true) exact_key_entry 0 rows no_queues in
      consume-all exact_key queues 0 fs (start (none_matched fs rows))
        (record {
          rows = λ k.
              omega
                (arith, length-queue_entries exact_key_entry 0 rows no_queues k, key_count-rows k);
          done = λ m h. absurd (omega arith);
          room = omega (arith, length-replicate (length fs) false);
        })
        n (omega arith)

  final_matches_all :
      count_true (pair_baseline_occurrences digest fs rows).current_matched ≡ length fs
  unfolding pair_baseline_occurrences
  final_matches_all =
      let (l0, l1, l2, l3) = pair-lengths digest fs rows in
      let second = pair_stable-IsPhase digest fs rows _ l0 l1 in
      count_true_all (pair_baseline_occurrences digest fs rows).current_matched
        (λ n lt. second.kept n (exact_matches_all n (omega arith)))
      ∙ l2

-- A scan against the baseline written from it has no new finding and no resolved row, and all of its
-- findings, in order, are unchanged; duplicates included, for any hash.
pub apply-from_findings :
    (digest : Text → Text) (fs : List Finding)
    → ((apply digest fs (from_findings digest fs)).findings ≡ [])
      × ((apply digest fs (from_findings digest fs)).unchanged ≡ fs)
      × ((apply digest fs (from_findings digest fs)).resolved ≡ [])
unfolding apply sort_by
apply-from_findings digest fs =
    let p = pair_baseline_occurrences digest fs (rows digest fs) in
    let (_, _, lc, lb) = pair-lengths digest fs (rows digest fs) in
    let all = final_matches_all digest fs in
    let balanced = pair_baseline-balanced digest fs (rows digest fs) in
    let (kept, new) = with_flag_all p.current_matched fs lc (all ∙ sym lc) in
    let (_, stale) =
      with_flag_all p.baseline_matched (rows digest fs) lb (omega (arith, length-rows digest fs)) in
    (new, kept, ap (sort_by compare_entries) stale)
