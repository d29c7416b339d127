-- ===== src/Baseline/Matching.antt =====
-- The two phases of internal/baseline/baseline.go, from the laws of their loops: what they leave
-- balanced, and why a finding was paired.
use gruff_go.Base.{
  ℕ, ◌+◌, ◌≡◌, ◌∙◌, ◌⊎◌, Bool, true, false, some, List, get_elem?, length, Text, replicate, arith,
  get_elem?-replicate, get_elem?-lt, get_elem?_of_lt, count_true, IsRest-start,
}
use gruff_go.Finding.{Finding}
use gruff_go.Baseline.Entries.{Entry, MatchKey, match_key}
use gruff_go.Baseline.Pairing.{
  Pairing, queue_entries, consume, no_queues, start, exact_key_entry, exact_key,
  pair_exact_occurrences, stable_key_entry, stable_entry_takes, stable_finding_takes, stable_key,
  pair_stable_occurrences,
}
use gruff_go.Baseline.Loops.{HasKey, queue_entries-IsQueued}
use gruff_go.Baseline.Consume.{IsJustified, consume-Inv, Inv-start}
use gruff_go.Baseline.Flags.{flag_clear, SameLengths, length-consume}

-- What a phase guarantees of the pairing it returns, against the one it was given.
pub record IsPhase (fs : List Finding) (es : List Entry) (entry_takes : ℕ → Entry → Bool)
    (entry_key : Entry → MatchKey) (takes : Pairing → ℕ → Finding → Bool) (key : Finding → MatchKey)
    (p q : Pairing) : Type 0 where
  pub lengths : SameLengths q p
  pub balance :
      count_true q.current_matched + count_true p.baseline_matched
      ≡ count_true p.current_matched + count_true q.baseline_matched
  pub kept :
      (n : ℕ)
      → get_elem? p.current_matched n ≡ some true
      → get_elem? q.current_matched n ≡ some true
  pub justified :
      (n : ℕ)
      → get_elem? q.current_matched n ≡ some true
      → (get_elem? p.current_matched n ≡ some true)
        ⊎ IsJustified entry_takes entry_key es takes key fs n

module _ (fs : List Finding) (es : List Entry) (entry_takes : ℕ → Entry → Bool)
    (entry_key : Entry → MatchKey) (takes : Pairing → ℕ → Finding → Bool) (key : Finding → MatchKey)
    (p : Pairing) where
  -- Both phases have this shape.
  abbrev phase : Pairing
  phase =
      (consume takes key (queue_entries entry_takes entry_key 0 es no_queues) 0 fs
        (start p)).pairing

  phase-IsPhase :
      ((j : ℕ) (k : MatchKey)
        → HasKey entry_takes entry_key es k j
        → get_elem? p.baseline_matched j ≡ some false)
      → ((q : Pairing) (i : ℕ) (f : Finding)
          → get_elem? fs i ≡ some f
          → get_elem? q.current_matched i ≡ get_elem? p.current_matched i
          → takes q i f ≡ true
          → get_elem? q.current_matched i ≡ some false)
      → IsPhase fs es entry_takes entry_key takes key p phase
  phase-IsPhase rows_clear findings_clear =
      let queues = queue_entries entry_takes entry_key 0 es no_queues in
      let queued =
        queue_entries-IsQueued entry_takes entry_key es 0 es no_queues (IsRest-start es)
          (record { keyed = λ k. tt; ascending = λ k. tt; below = λ k. tt }) in
      let inv =
        consume-Inv entry_takes entry_key es takes key fs queues p findings_clear 0 fs (start p)
          (IsRest-start fs)
          (Inv-start entry_takes entry_key es takes key fs queues p queued.keyed queued.ascending
            rows_clear) in
      record {
        lengths = length-consume takes key queues 0 fs (start p);
        balance = inv.balance;
        kept = inv.kept;
        justified = inv.justified;
      }

abbrev pub none_matched : List Finding → List Entry → Pairing
none_matched fs es = record {
  current_matched = replicate (length fs) false;
  baseline_matched = replicate (length es) false;
}

pub pair_exact-IsPhase :
    (fs : List Finding) (es : List Entry)
    → IsPhase fs es
        (λ i e. true)
        exact_key_entry
        (λ q i f. true)
        exact_key
        (none_matched fs es)
        (pair_exact_occurrences fs es (none_matched fs es))
unfolding pair_exact_occurrences
pair_exact-IsPhase fs es =
    phase-IsPhase fs es (λ i e. true) exact_key_entry (λ q i f. true) exact_key (none_matched fs es)
      (λ j k h. get_elem?-replicate (length es) j false (get_elem?-lt es j h.stands))
      (λ q i f stands same _.
        same ∙ get_elem?-replicate (length fs) i false (get_elem?-lt fs i stands))

module _ (digest : Text → Text) where
  pub pair_stable-IsPhase :
      (fs : List Finding) (es : List Entry) (p : Pairing)
      → length p.current_matched ≡ length fs
      → length p.baseline_matched ≡ length es
      → IsPhase fs es
          (stable_entry_takes p)
          stable_key_entry
          stable_finding_takes
          (stable_key digest)
          p
          (pair_stable_occurrences digest fs es p)
  unfolding pair_stable_occurrences
  pair_stable-IsPhase fs es p lc lb =
      phase-IsPhase fs es (stable_entry_takes p) stable_key_entry stable_finding_takes
        (stable_key digest) p rows_clear findings_clear
    where
      rows_clear :
          (j : ℕ) (k : MatchKey)
          → HasKey (stable_entry_takes p) stable_key_entry es k j
          → get_elem? p.baseline_matched j ≡ some false
      rows_clear j k h =
          let t = h.taken in
          flag_clear p.baseline_matched j (omega (arith, get_elem?-lt es j h.stands)) (ground arith)

      findings_clear :
          (q : Pairing) (i : ℕ) (f : Finding)
          → get_elem? fs i ≡ some f
          → get_elem? q.current_matched i ≡ get_elem? p.current_matched i
          → stable_finding_takes q i f ≡ true
          → get_elem? q.current_matched i ≡ some false
      findings_clear q i f stands same taken =
          let (b, at) =
            get_elem?_of_lt p.current_matched i (omega (arith, get_elem?-lt fs i stands)) in
          ground arith
