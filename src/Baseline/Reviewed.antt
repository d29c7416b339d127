-- ===== src/Baseline/Reviewed.antt =====
-- Apply of internal/baseline/baseline.go: why a finding is hidden from the report.
use gruff_go.Base.{
  ℕ, ◌≡◌, ap, ◌∙◌, ◌⊎◌, inl, inr, true, false, List, length, get_elem?, some, Text, arith, All,
  codes, has_prefix, get_elem?-replicate, get_elem?-lt,
}
use gruff_go.Finding.{Finding, has_contract_stable_anchor}
use gruff_go.Baseline.Entries.{Entry, BaselineFile, match_key}
use gruff_go.Baseline.Pairing.{
  Pairing, pair_baseline_occurrences, pair_exact_occurrences, exact_key_entry, exact_key,
  rule_allows_contract_stable_match, finding_allows_contract_stable_match, stable_key_entry,
  stable_key, stable_entry_takes, stable_finding_takes,
}
use gruff_go.Baseline.Apply.{apply}
use gruff_go.Baseline.Flags.{All-with_flag-true}
use gruff_go.Baseline.Consume.{IsJustified}
use gruff_go.Baseline.Matching.{none_matched, pair_exact-IsPhase, pair_stable-IsPhase}
use gruff_go.Baseline.Counts.{pair-lengths}

-- A reviewed row has the finding's rule, file and fingerprint; or the rule is not about sensitive
-- data, the finding has a semantic anchor, and a row has its rule, file and stable identity.
abbrev pub IsReviewed : (Text → Text) → List Entry → Finding → Type 0
IsReviewed digest es f =
    ((j : ℕ) × (e : Entry) × (get_elem? es j ≡ some e) × (exact_key_entry e ≡ exact_key f))
    ⊎ ((has_prefix f.rule_id (codes "sensitive-data.") ≡ false)
        × (has_contract_stable_anchor f ≡ true)
        × ((j : ℕ) × (e : Entry) × (get_elem? es j ≡ some e)
            × (stable_key_entry e ≡ stable_key digest f)))

stable_taken :
    (q : Pairing) (i : ℕ) (f : Finding)
    → stable_finding_takes q i f ≡ true
    → (has_prefix f.rule_id (codes "sensitive-data.") ≡ false)
      × (has_contract_stable_anchor f ≡ true)
unfolding finding_allows_contract_stable_match rule_allows_contract_stable_match
stable_taken q i f h = ground arith

module _ (digest : Text → Text) (fs : List Finding) (es : List Entry) where
  exact_IsReviewed :
      (n : ℕ) (f : Finding)
      → get_elem? fs n ≡ some f
      → IsJustified (λ i e. true) exact_key_entry es (λ q i g. true) exact_key fs n
      → IsReviewed digest es f
  exact_IsReviewed n f stands j =
      let same : j.finding ≡ f = cc (stands, j.stands) in
      inl (j.row, j.keyed.row, j.keyed.stands, j.keyed.keyed ∙ ap exact_key same)

  stable_IsReviewed :
      (p : Pairing) (n : ℕ) (f : Finding)
      → get_elem? fs n ≡ some f
      → IsJustified
          (stable_entry_takes p)
          stable_key_entry
          es
          stable_finding_takes
          (stable_key digest)
          fs
          n
      → IsReviewed digest es f
  stable_IsReviewed p n f stands j =
      let same : j.finding ≡ f = cc (stands, j.stands) in
      let t = j.taken in
      let (plain, anchored) = stable_taken j.at n f (rw same at t) in
      inr (
        plain,
        anchored,
        (j.row, j.keyed.row, j.keyed.stands, j.keyed.keyed ∙ ap (stable_key digest) same),
      )

  matched_IsReviewed :
      (n : ℕ) (f : Finding)
      → get_elem? (pair_baseline_occurrences digest fs es).current_matched n ≡ some true
      → get_elem? fs n ≡ some f
      → IsReviewed digest es f
  unfolding pair_baseline_occurrences
  matched_IsReviewed n f matched stands =
      let first = pair_exact-IsPhase fs es in
      let second =
        pair_stable-IsPhase digest fs es _ (pair-lengths digest fs es).0
          (pair-lengths digest fs es).1 in
      elim (second.justified n matched) [
        | inr stable ↦
            stable_IsReviewed (pair_exact_occurrences fs es (none_matched fs es)) n f stands stable
        | inl earlier ↦ elim (first.justified n earlier) [
          | inr exact ↦ exact_IsReviewed n f stands exact
          | inl start ↦
              absurd
                (cc (start, get_elem?-replicate (length fs) n false (get_elem?-lt fs n stands)))
        ]
      ]

-- Every finding that the baseline hides was reviewed: a row has its rule, file and fingerprint; or its
-- rule is not about sensitive data, it has a symbol or metric metadata, and a row has its rule, file
-- and stable identity.
pub apply-unchanged-IsReviewed :
    (digest : Text → Text) (fs : List Finding) (b : BaselineFile)
    → All (IsReviewed digest b.findings) (apply digest fs b).unchanged
unfolding apply
apply-unchanged-IsReviewed digest fs b =
    All-with_flag-true (IsReviewed digest b.findings) _ fs (matched_IsReviewed digest fs b.findings)
