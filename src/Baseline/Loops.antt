-- ===== src/Baseline/Loops.antt =====
-- The queueing loop and the consuming loop of Baseline/Pairing, over any key and skipping test.
use gruff_go.Base.{
  ℕ, suc, ◌+◌, ◌≡◌, ◌<◌, inl, inr, Bool, true, some, List, [], ◌∷◌, ◌++◌, get_elem?, length, Eq,
  update, update_self, update_ne, All, All-imp, All-append, IsRest, IsRest-here, IsRest-next, arith,
  Bool-cases,
}
use gruff_go.Baseline.Pairing.{queue_entries}

abbrev pub Ascending : List ℕ → Type 0
Ascending [] = Unit
Ascending (j ∷ js) = All (λ j'. j < j') js × Ascending js

Ascending-snoc :
    (js : List ℕ) (i : ℕ) → Ascending js → All (λ j. j < i) js → Ascending (js ++ (i ∷ []))
Ascending-snoc [] i a h = (tt, tt)
Ascending-snoc (j ∷ js) i a h =
    (All-append (λ j'. j < j') js (i ∷ []) a.0 (h.0, tt), Ascending-snoc js i a.1 h.1)

module _ {K E : Type 0} ⦃e : Eq K⦄ (takes : ℕ → E → Bool) (key : E → K) (whole : List E) where
  -- The row at index j takes part, and has key k.
  pub record HasKey (k : K) (j : ℕ) : Type 0 where
    pub row : E
    pub stands : get_elem? whole j ≡ some row
    pub taken : takes j row ≡ true
    pub keyed : key row ≡ k

  pub HasKey-unique : {k k' : K} {j : ℕ} → HasKey k j → HasKey k' j → k ≡ k'
  HasKey-unique h h' = cc (h.stands, h'.stands, h.keyed, h'.keyed)

  -- The queues hold rows below i, each under its own key, in increasing order.
  pub record IsQueued (i : ℕ) (queues : K → List ℕ) : Type 0 where
    pub keyed : (k : K) → All (HasKey k) (queues k)
    pub ascending : (k : K) → Ascending (queues k)
    pub below : (k : K) → All (λ j. j < i) (queues k)

  below-snoc : (js : List ℕ) (i : ℕ) → All (λ j. j < i) js → All (λ j. j < i + 1) (js ++ (i ∷ []))
  below-snoc js i h =
      All-append (λ j. j < i + 1) js (i ∷ []) (All-imp js (λ j p. omega arith) h) (omega arith, tt)

  IsQueued-add :
      (i : ℕ) (x : E) (queues : K → List ℕ)
      → get_elem? whole i ≡ some x
      → takes i x ≡ true
      → IsQueued i queues
      → IsQueued (i + 1) (update queues (key x) (queues (key x) ++ (i ∷ [])))
  IsQueued-add i x queues stands taken q = record {
    keyed = λ k.
        parts k (λ js. All (HasKey k) js) (q.keyed k)
          (λ same.
            All-append (HasKey k) (queues k) (i ∷ []) (q.keyed k)
              (record { row = x; stands = stands; taken = taken; keyed = same }, tt));
    ascending = λ k.
        parts k Ascending (q.ascending k)
          (λ _. Ascending-snoc (queues k) i (q.ascending k) (q.below k));
    below = λ k.
        parts k (λ js. All (λ j. j < i + 1) js)
          (All-imp (queues k) (λ j p. omega arith) (q.below k))
          (λ _. below-snoc (queues k) i (q.below k));
  }
    where
      parts :
          (k : K) (P : List ℕ → Type 0)
          → P (queues k)
          → (key x ≡ k → P (queues k ++ (i ∷ [])))
          → P (update queues (key x) (queues (key x) ++ (i ∷ [])) k)
      parts k P old new = elim (Bool-cases (e.beq (key x) k)) [
        | inl same ↦
            let eq = (e.beq_iff (key x) k).0 same in
            rw eq (rw (update_self queues k (queues k ++ (i ∷ []))) (new eq))
        | inr other ↦ rw (update_ne queues (key x) k _ other) old
      ]

  IsQueued-skip : (i : ℕ) (queues : K → List ℕ) → IsQueued i queues → IsQueued (i + 1) queues
  IsQueued-skip i queues q = record {
    keyed = q.keyed;
    ascending = q.ascending;
    below = λ k. All-imp (queues k) (λ j p. omega arith) (q.below k);
  }

  pub queue_entries-IsQueued :
      (i : ℕ) (xs : List E) (queues : K → List ℕ)
      → IsRest i xs whole
      → IsQueued i queues
      → IsQueued (i + length xs) (queue_entries takes key i xs queues)
  unfolding queue_entries
  queue_entries-IsQueued i [] queues rest q = let s : i ≡ i + 0 = omega arith in rw (← s) q
  queue_entries-IsQueued i (x ∷ xs) queues rest q =
      let s : i + 1 + length xs ≡ i + suc (length xs) = omega arith in
      elim (Bool-cases (takes i x)) [
        | inl t ↦
            rw (t, ← s)
              (queue_entries-IsQueued (i + 1) xs _ (IsRest-next i x xs whole rest)
                (IsQueued-add i x queues (IsRest-here i x xs whole rest) t q))
        | inr f ↦
            rw (f, ← s)
              (queue_entries-IsQueued (i + 1) xs queues (IsRest-next i x xs whole rest)
                (IsQueued-skip i queues q))
      ]
