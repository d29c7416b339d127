-- ===== src/Baseline/Consume.antt =====
-- The consuming loop of Baseline/Pairing, over any key and skipping test: every step pairs one
-- unpaired finding with one unpaired row of its key.
use gruff_go.Base.{
  ℕ, suc, ◌+◌, ◌≡◌, ◌<◌, ◌≤◌, ◌≢◌, refl, sym, ◌∙◌, ◌⊎◌, inl, inr, Bool, true, false, some, List, [],
  ◌∷◌, get_elem?, set, drop, length, Eq, update, update_self, update_ne, All, All-imp, IsRest,
  IsRest-here, IsRest-next, arith, Bool-cases, Option-cases, drop-get_elem?, get_elem?-set_ne,
  get_elem?-set_self, get_elem?-lt, count_true, count_true-set,
}
use native.Mathlib.Decide.{ℕ_discrete}
use gruff_go.Baseline.Pairing.{Pairing, Round, take_next, consume}
use gruff_go.Baseline.Loops.{Ascending, HasKey, HasKey-unique}

module _ {K E F : Type 0} ⦃e : Eq K⦄ (entry_takes : ℕ → E → Bool) (entry_key : E → K)
    (entries : List E) (takes : Pairing → ℕ → F → Bool) (key : F → K) (findings : List F) where
  -- The finding at index i was not skipped, and some row that takes part has its key.
  pub record IsJustified (i : ℕ) : Type 0 where
    pub finding : F
    pub stands : get_elem? findings i ≡ some finding
    pub at : Pairing
    pub taken : takes at i finding ≡ true
    pub row : ℕ
    pub keyed : HasKey entry_takes entry_key entries (key finding) row

module _ {K E F : Type 0} ⦃e : Eq K⦄ (entry_takes : ℕ → E → Bool) (entry_key : E → K)
    (entries : List E) (takes : Pairing → ℕ → F → Bool) (key : F → K) (findings : List F)
    (queues : K → List ℕ) (before : Pairing) where
  abbrev Keyed : K → ℕ → Type 0
  Keyed k j = HasKey entry_takes entry_key entries k j

  -- A row of this key that is not paired yet.
  abbrev IsOpen : Round K → K → ℕ → Type 0
  IsOpen r k j = (get_elem? r.pairing.baseline_matched j ≡ some false) × Keyed k j

  abbrev left : Round K → K → List ℕ
  left r k = drop (r.next k) (queues k)

  pub record Inv (i : ℕ) (r : Round K) : Type 0 where
    pub open_rows : (k : K) → All (IsOpen r k) (left r k)
    pub ascending : (k : K) → Ascending (left r k)
    pub untouched :
        (n : ℕ) → i ≤ n → get_elem? r.pairing.current_matched n ≡ get_elem? before.current_matched n
    pub balance :
        count_true r.pairing.current_matched + count_true before.baseline_matched
        ≡ count_true before.current_matched + count_true r.pairing.baseline_matched
    pub justified :
        (n : ℕ)
        → get_elem? r.pairing.current_matched n ≡ some true
        → (get_elem? before.current_matched n ≡ some true)
          ⊎ IsJustified entry_takes entry_key entries takes key findings n
    pub kept :
        (n : ℕ)
        → get_elem? before.current_matched n ≡ some true
        → get_elem? r.pairing.current_matched n ≡ some true

  -- The state after the finding at i took the row j.
  abbrev paired : Round K → K → ℕ → ℕ → Round K
  paired r k i j = record {
    next = update r.next k (r.next k + 1);
    pairing = record {
      current_matched = set r.pairing.current_matched i true;
      baseline_matched = set r.pairing.baseline_matched j true;
    };
  }

  module _ (i j : ℕ) (k : K) (r : Round K) (inv : Inv i r)
      (row : get_elem? (queues k) (r.next k) ≡ some j) where
    front : left r k ≡ j ∷ drop (suc (r.next k)) (queues k)
    front = drop-get_elem? (queues k) (r.next k) j row

    front-IsOpen : IsOpen r k j
    front-IsOpen = (subst_all (inv.open_rows k)).0
      where
        subst_all :
            All (IsOpen r k) (left r k) → All (IsOpen r k) (j ∷ drop (suc (r.next k)) (queues k))
        subst_all h = rw front at h

    rest-IsOpen : All (IsOpen r k) (drop (suc (r.next k)) (queues k))
    rest-IsOpen = let h = inv.open_rows k in let g = rw front at h in g.1

    rest-Ascending :
        All (λ j'. j < j') (drop (suc (r.next k)) (queues k))
        × Ascending (drop (suc (r.next k)) (queues k))
    rest-Ascending = let h = inv.ascending k in rw front at h

    by_key :
        (P : K → List ℕ → Type 0) (k' : K)
        → P k (drop (suc (r.next k)) (queues k))
        → (e.beq k k' ≡ false → P k' (left r k'))
        → P k' (left (paired r k i j) k')
    by_key P k' same other = elim (Bool-cases (e.beq k k')) [
      | inl t ↦
          let eq = (e.beq_iff k k').0 t in
          let up : r.next k + 1 ≡ suc (r.next k) = omega arith in
          rw (← eq) (rw (update_self r.next k (r.next k + 1), up) same)
      | inr f ↦ rw (update_ne r.next k k' (r.next k + 1) f) (other f)
    ]

    still-IsOpen : (k' : K) (j' : ℕ) → j ≢ j' → IsOpen r k' j' → IsOpen (paired r k i j) k' j'
    still-IsOpen k' j' ne h = (get_elem?-set_ne r.pairing.baseline_matched j j' true ne ∙ h.0, h.1)

    paired-IsOpen : (k' : K) → All (IsOpen (paired r k i j) k') (left (paired r k i j) k')
    paired-IsOpen k' =
        by_key (λ x js. All (IsOpen (paired r k i j) x) js) k'
          (later _ rest-Ascending.0 rest-IsOpen)
          λ f. All-imp (left r k') (λ j' h. still-IsOpen k' j' (apart f j' h) h) (inv.open_rows k')
      where
        apart : e.beq k k' ≡ false → (j' : ℕ) → IsOpen r k' j' → j ≢ j'
        apart f j' h same =
            let h' = h.1 in
            let back : Keyed k' j = rw (← same) at h' in
            let eq = HasKey-unique entry_takes entry_key entries front-IsOpen.1 back in
            cc (f, (e.beq_iff k k').1 eq)

        later :
            (js : List ℕ)
            → All (λ j'. j < j') js
            → All (IsOpen r k) js
            → All (IsOpen (paired r k i j) k) js
        later [] lt h = tt
        later (j' ∷ js) lt h = (still-IsOpen k j' (λ q. omega arith) h.0, later js lt.1 h.1)

    paired-Inv :
        (f : F)
        → get_elem? findings i ≡ some f
        → takes r.pairing i f ≡ true
        → key f ≡ k
        → get_elem? r.pairing.current_matched i ≡ some false
        → Inv (i + 1) (paired r k i j)
    paired-Inv f stands taken keyed clear = record {
      open_rows = paired-IsOpen;
      ascending = λ k'. by_key (λ _ js. Ascending js) k' rest-Ascending.1 (λ _. inv.ascending k');
      untouched = λ n h.
          get_elem?-set_ne r.pairing.current_matched i n true (λ q. omega arith)
          ∙ inv.untouched n (omega arith);
      balance = omega (
        arith,
        inv.balance,
        count_true-set r.pairing.current_matched i clear,
        count_true-set r.pairing.baseline_matched j front-IsOpen.0,
      );
      justified = λ n h. justified n h (ℕ_discrete i n);
      kept = λ n h. kept n h (ℕ_discrete i n);
    }
      where
        justified :
            (n : ℕ)
            → get_elem? (set r.pairing.current_matched i true) n ≡ some true
            → Dec (i ≡ n)
            → (get_elem? before.current_matched n ≡ some true)
              ⊎ IsJustified entry_takes entry_key entries takes key findings n
        justified n h (yes here) = inr (record {
          finding = f;
          stands = rw here at stands;
          at = r.pairing;
          taken = rw here at taken;
          row = j;
          keyed = let o = front-IsOpen.1 in rw (← keyed) at o;
        })
        justified n h (no there) =
            inv.justified n (sym (get_elem?-set_ne r.pairing.current_matched i n true there) ∙ h)

        kept :
            (n : ℕ)
            → get_elem? before.current_matched n ≡ some true
            → Dec (i ≡ n)
            → get_elem? (set r.pairing.current_matched i true) n ≡ some true
        kept n h (yes here) = rw (← here) (
            get_elem?-set_self r.pairing.current_matched i true
              (get_elem?-lt r.pairing.current_matched i clear))
        kept n h (no there) =
            get_elem?-set_ne r.pairing.current_matched i n true there ∙ inv.kept n h

  Inv-skip : (i : ℕ) (r : Round K) → Inv i r → Inv (i + 1) r
  Inv-skip i r inv = record {
    open_rows = inv.open_rows;
    ascending = inv.ascending;
    untouched = λ n h. inv.untouched n (omega arith);
    balance = inv.balance;
    justified = inv.justified;
    kept = inv.kept;
  }

  -- No finding that is taken was paired before the loop.
  abbrev TakesClear : Type 0
  TakesClear =
      (q : Pairing) (i : ℕ) (f : F)
      → get_elem? findings i ≡ some f
      → get_elem? q.current_matched i ≡ get_elem? before.current_matched i
      → takes q i f ≡ true
      → get_elem? q.current_matched i ≡ some false

  module _ (clear : TakesClear) where
    take_next-Inv :
        (i : ℕ) (f : F) (r : Round K)
        → get_elem? findings i ≡ some f
        → takes r.pairing i f ≡ true
        → Inv i r
        → Inv (i + 1) (take_next queues (key f) i r)
    unfolding take_next
    take_next-Inv i f r stands taken inv =
        elim (Option-cases (get_elem? (queues (key f)) (r.next (key f)))) [
          | inl none_left ↦ rw (none_left, take_next) (Inv-skip i r inv)
          | inr (j, row) ↦
              rw (row, take_next)
                (paired-Inv i j (key f) r inv row f stands taken refl
                  (clear r.pairing i f stands (inv.untouched i (omega arith)) taken))
        ]

    pub consume-Inv :
        (i : ℕ) (fs : List F) (r : Round K)
        → IsRest i fs findings
        → Inv i r
        → Inv (i + length fs) (consume takes key queues i fs r)
    unfolding consume
    consume-Inv i [] r rest inv = let s : i ≡ i + 0 = omega arith in rw (← s) inv
    consume-Inv i (f ∷ fs) r rest inv =
        let s : i + 1 + length fs ≡ i + suc (length fs) = omega arith in
        let tail = IsRest-next i f fs findings rest in
        elim (Bool-cases (takes r.pairing i f)) [
          | inl t ↦
              rw (t, ← s)
                (consume-Inv (i + 1) fs (take_next queues (key f) i r) tail
                  (take_next-Inv i f r (IsRest-here i f fs findings rest) t inv))
          | inr n ↦ rw (n, ← s) (consume-Inv (i + 1) fs r tail (Inv-skip i r inv))
        ]

  pub Inv-start :
      ((k : K) → All (Keyed k) (queues k))
      → ((k : K) → Ascending (queues k))
      → ((j : ℕ) (k : K) → Keyed k j → get_elem? before.baseline_matched j ≡ some false)
      → Inv 0 (record { next = λ k. 0; pairing = before })
  Inv-start keyed ascending clear = record {
    open_rows = λ k. All-imp (queues k) (λ j h. (clear j k h, h)) (keyed k);
    ascending = ascending;
    untouched = λ n h. refl;
    balance = omega arith;
    justified = λ n h. inl h;
    kept = λ n h. h;
  }
