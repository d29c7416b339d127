-- ===== src/Baseline/Totals.antt =====
-- The loops of Baseline/Pairing where no item is skipped: how long the queues are, and that each
-- finding is paired if its key has rows enough.
use gruff_go.Base.{
  ℕ, ◌+◌, ◌≡◌, ◌<◌, ◌≤◌, ◌∙◌, true, inl, inr, some, List, [], ◌∷◌, ◌++◌, get_elem?, set, length, Eq,
  update, update_self, update_ne, beq_self, arith, Bool-cases, get_elem?-set_self, get_elem?-set_ne,
  count_if, length-append, length-set, get_elem?_of_lt,
}
use native.Mathlib.Decide.{ℕ_discrete}
use gruff_go.Baseline.Pairing.{Round, queue_entries, take_next, consume}

module _ {A K : Type 0} ⦃e : Eq K⦄ (key : A → K) where
  -- How often a key stands in a list.
  abbrev pub key_count : K → List A → ℕ
  key_count k xs = count_if (λ x. e.beq (key x) k) xs

  length-update :
      (queues : K → List ℕ) (x : A) (xs : List A) (i : ℕ) (k : K)
      → length (update queues (key x) (queues (key x) ++ (i ∷ [])) k) + key_count k xs
        ≡ length (queues k) + key_count k (x ∷ xs)
  length-update queues x xs i k = elim (Bool-cases (e.beq (key x) k)) [
    | inl same ↦
        let eq = (e.beq_iff (key x) k).0 same in
        rw (same, eq, update_self queues k (queues k ++ (i ∷ [])), length-append) (omega arith)
    | inr other ↦ rw (other, update_ne queues (key x) k (queues (key x) ++ (i ∷ [])) other)
  ]

  pub length-queue_entries :
      (i : ℕ) (xs : List A) (queues : K → List ℕ) (k : K)
      → length (queue_entries (λ _ _. true) key i xs queues k) ≡ length (queues k) + key_count k xs
  unfolding queue_entries
  length-queue_entries i [] queues k = omega arith
  length-queue_entries i (x ∷ xs) queues k =
      length-queue_entries (i + 1) xs (update queues (key x) (queues (key x) ++ (i ∷ []))) k
      ∙ length-update queues x xs i k

module _ {F K : Type 0} ⦃e : Eq K⦄ (key : F → K) (queues : K → List ℕ) where
  -- The findings below i are paired, and the rows left suffice for the others.
  pub record Enough (i : ℕ) (fs : List F) (r : Round K) : Type 0 where
    pub rows : (k : K) → r.next k + key_count key k fs ≤ length (queues k)
    pub done : (n : ℕ) → n < i → get_elem? r.pairing.current_matched n ≡ some true
    pub room : i + length fs ≤ length r.pairing.current_matched

  Enough-next :
      (i : ℕ) (f : F) (fs : List F) (r : Round K)
      → Enough i (f ∷ fs) r
      → Enough (i + 1) fs (take_next queues (key f) i r)
  unfolding take_next
  Enough-next i f fs r h =
      let k = key f in
      let here = h.rows k in
      let self = beq_self k in
      let counted = rw self at here in
      let (j, row) = get_elem?_of_lt (queues k) (r.next k) (omega (arith, counted)) in
      rw (row, take_next)
        (record {
          rows = λ k'. rows k';
          done = λ n lt. done n lt (ℕ_discrete i n);
          room = omega (arith, length-set r.pairing.current_matched i true, h.room);
        })
    where
      rows :
          (k' : K)
          → update r.next (key f) (r.next (key f) + 1) k' + key_count key k' fs ≤ length (queues k')
      rows k' = elim (Bool-cases (e.beq (key f) k')) [
        | inl same ↦
            let eq = (e.beq_iff (key f) k').0 same in
            let old = h.rows k' in
            let old' = rw same at old in
            rw (eq, update_self r.next k' (r.next k' + 1)) (omega (arith, old'))
        | inr other ↦
            let old = h.rows k' in
            let old' = rw other at old in
            rw (update_ne r.next (key f) k' (r.next (key f) + 1) other) old'
      ]

      done :
          (n : ℕ)
          → n < i + 1
          → Dec (i ≡ n)
          → get_elem? (set r.pairing.current_matched i true) n ≡ some true
      done n lt (yes here) =
          rw (← here) (get_elem?-set_self r.pairing.current_matched i true (omega (arith, h.room)))
      done n lt (no there) =
          get_elem?-set_ne r.pairing.current_matched i n true there ∙ h.done n (omega arith)

  pub consume-all :
      (i : ℕ) (fs : List F) (r : Round K)
      → Enough i fs r
      → (n : ℕ) → n < i + length fs
      → get_elem? (consume (λ _ _ _. true) key queues i fs r).pairing.current_matched n ≡ some true
  unfolding consume
  consume-all i [] r h n lt = h.done n (omega arith)
  consume-all i (f ∷ fs) r h n lt =
      consume-all (i + 1) fs (take_next queues (key f) i r) (Enough-next i f fs r h) n (omega arith)
