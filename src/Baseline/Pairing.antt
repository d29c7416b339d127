-- ===== src/Baseline/Pairing.antt =====
-- The two pairing phases of internal/baseline/baseline.go: first by exact key, then by the identity
-- that ignores lines and measured values. Both queue the rows by key and let each finding consume
-- the next row of its queue; the loops are stated once, over the key and the skipping test.
use gruff_go.Base.{
  ℕ, ◌+◌, Bool, true, false, not, ◌||◌, none, some, List, [], ◌∷◌, ◌++◌, Text, codes, has_prefix,
  get_elem?, set, replicate, length, if◌then◌else◌, Eq, update,
}
use gruff_go.Finding.{
  Finding, is_empty, compute_contract_stable_identity, has_contract_stable_anchor,
}
use gruff_go.Baseline.Entries.{Entry, MatchKey, match_key}

-- baselinePairing
pub record Pairing : Type 0 where
  pub current_matched : List Bool
  pub baseline_matched : List Bool

-- A flag of one of the parallel slices. The loops read in range only.
abbrev pub flag_at : List Bool → ℕ → Bool
flag_at flags i = elim (get_elem? flags i) [ none ↦ false | some b ↦ b ]

-- The variables of the consuming loop: nextEntryByIdentity and the pairing.
pub record Round (K : Type 0) : Type 0 where
  pub next : K → ℕ
  pub pairing : Pairing

module _ {K E : Type 0} ⦃e : Eq K⦄ where
  -- The loop that queues row indices by key, in input order.
  unfoldable pub queue_entries : (ℕ → E → Bool) → (E → K) → ℕ → List E → (K → List ℕ) → K → List ℕ
  unfolding update
  queue_entries takes key i [] queues = queues
  queue_entries takes key i (x ∷ xs) queues =
      queue_entries takes key (i + 1) xs
        (if takes i x then update queues (key x) (queues (key x) ++ (i ∷ [])) else queues)

module _ {K : Type 0} ⦃e : Eq K⦄ where
  -- One finding that is not skipped: it takes the next row of its queue, if one is left.
  unfoldable pub take_next : (K → List ℕ) → K → ℕ → Round K → Round K
  unfolding update
  take_next queues k i r = elim (get_elem? (queues k) (r.next k)) [
    | none ↦ r
    | some j ↦ record {
      next = update r.next k (r.next k + 1);
      pairing = record {
        current_matched = set r.pairing.current_matched i true;
        baseline_matched = set r.pairing.baseline_matched j true;
      };
    }
  ]

  -- The consuming loop over the current findings.
  unfoldable pub consume :
      {F : Type 0}
      → (Pairing → ℕ → F → Bool)
      → (F → K)
      → (K → List ℕ)
      → ℕ
      → List F
      → Round K
      → Round K
  unfolding take_next
  consume takes key queues i [] r = r
  consume takes key queues i (f ∷ fs) r =
      consume takes key queues (i + 1) fs
        (if takes r.pairing i f then take_next queues (key f) i r else r)

abbrev pub no_queues : MatchKey → List ℕ
no_queues k = []

abbrev pub start : Pairing → Round MatchKey
start p = record { next = λ k. 0; pairing = p }

-- Entry.exactMatchKey, and the same key of a finding
abbrev pub exact_key_entry : Entry → MatchKey
exact_key_entry e = record { rule_id = e.rule_id; file = e.file; identity = e.fingerprint }

abbrev pub exact_key : Finding → MatchKey
exact_key f = record { rule_id = f.rule_id; file = f.file; identity = f.fingerprint }

-- pairExactOccurrences
unfoldable pub pair_exact_occurrences : List Finding → List Entry → Pairing → Pairing
unfolding queue_entries consume
pair_exact_occurrences fs es p =
    let queues = queue_entries (λ i e. true) exact_key_entry 0 es no_queues in
    (consume (λ q i f. true) exact_key queues 0 fs (start p)).pairing

-- ruleAllowsContractStableMatch
unfoldable pub rule_allows_contract_stable_match : Text → Bool
rule_allows_contract_stable_match rule = not (has_prefix rule (codes "sensitive-data."))

-- findingAllowsContractStableMatch
unfoldable pub finding_allows_contract_stable_match : Finding → Bool
finding_allows_contract_stable_match f =
    if not (rule_allows_contract_stable_match f.rule_id)
    then false
    else has_contract_stable_anchor f

abbrev pub stable_key_entry : Entry → MatchKey
stable_key_entry e = record { rule_id = e.rule_id; file = e.file; identity = e.stable_identity }

-- The rows that may take part in the second phase.
abbrev pub stable_entry_takes : Pairing → ℕ → Entry → Bool
stable_entry_takes p i e = not (
    flag_at p.baseline_matched i
    || is_empty e.stable_identity
    || not (rule_allows_contract_stable_match e.rule_id))

abbrev pub stable_finding_takes : Pairing → ℕ → Finding → Bool
stable_finding_takes q i f =
    not (flag_at q.current_matched i || not (finding_allows_contract_stable_match f))

module _ (digest : Text → Text) where
  abbrev pub stable_key : Finding → MatchKey
  stable_key f = record {
    rule_id = f.rule_id;
    file = f.file;
    identity = compute_contract_stable_identity digest f;
  }

  -- pairStableOccurrences
  unfoldable pub pair_stable_occurrences : List Finding → List Entry → Pairing → Pairing
  unfolding queue_entries consume
  pair_stable_occurrences fs es p =
      let queues = queue_entries (stable_entry_takes p) stable_key_entry 0 es no_queues in
      (consume stable_finding_takes stable_key queues 0 fs (start p)).pairing

  -- pairBaselineOccurrences
  unfoldable pub pair_baseline_occurrences : List Finding → List Entry → Pairing
  unfolding pair_exact_occurrences pair_stable_occurrences
  pair_baseline_occurrences fs es = pair_stable_occurrences fs es (
      pair_exact_occurrences fs es (record {
        current_matched = replicate (length fs) false;
        baseline_matched = replicate (length es) false;
      }))
