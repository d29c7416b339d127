-- ===== src/Scoring/Tallied.antt =====
-- The set of pillars that Calculate in internal/scoring/scoring.go fills, and its map of penalties.
use gruff_go.Base.{
  ℕ, ◌+◌, ◌≡◌, refl, ◌∙◌, inl, inr, Bool, true, false, not, ◌||◌, List, [], ◌∷◌, Text, text_key,
  text_eq, text_eq_iff, text_eq→eq, text_eq_self, contains, set_insert, contains-set_insert, insert,
  length, count_if, any_of, map, ◌&&◌, if◌then◌else◌, arith, Bool-cases,
}
use gruff_go.Finding.{Finding}
use gruff_go.Scoring.Points.{Float, score_neutral_finding}
use gruff_go.Scoring.Clusters.{cluster_penalties}
use gruff_go.Scoring.Sharing.{billed, cluster_penalties_lem}
use gruff_go.Scoring.Neutral.{is_scored}
use gruff_go.Scoring.Tally.{Tally, tally_loop, tally_finding, add_penalty, pillar_set}
use gruff_go.Scoring.Totals.{tally}

abbrev pub occurs : Text → List Text → ℕ
occurs k pillars = count_if (λ p. text_eq p k) pillars

occurs-zero : (k : Text) (pillars : List Text) → contains pillars k ≡ false → occurs k pillars ≡ 0
unfolding contains
occurs-zero k [] h = refl
occurs-zero k (p ∷ pillars) h = ground (arith, occurs-zero k pillars)

count_if-or :
    (f : Text → Bool) (p : Text) (xs : List Text)
    → count_if (λ q. text_eq p q || f q) xs ≡ count_if f xs + (if f p then 0 else occurs p xs)
count_if-or f p [] = ground arith
count_if-or f p (x ∷ xs) = elim (Bool-cases (text_eq p x)) [
  | inl t ↦
      let same = text_eq→eq p x t in
      let rest = count_if-or f p xs in rw (t, ← same, text_eq_self p) (ground arith)
  | inr n ↦ let rest = count_if-or f p xs in ground (arith, text_eq_iff p x, text_eq_iff x p)
]

count_if-congr :
    (f g : Text → Bool) (xs : List Text) → ((x : Text) → f x ≡ g x) → count_if f xs ≡ count_if g xs
count_if-congr f g [] h = refl
count_if-congr f g (x ∷ xs) h = rw (h x, count_if-congr f g xs h) refl

-- The pillars are distinct.
abbrev pub IsDistinct : List Text → Type 0
IsDistinct pillars = (k : Text) → occurs k pillars ≡ (if contains pillars k then 1 else 0)

set_insert-IsDistinct :
    (p : Text) (pillars : List Text) → IsDistinct pillars → IsDistinct (set_insert p pillars)
unfolding set_insert contains
set_insert-IsDistinct p pillars once k = elim (Bool-cases (contains pillars p)) [
  | inl old ↦ rw (old, once k) refl
  | inr new ↦ elim (Bool-cases (text_eq p k)) [
    | inl t ↦
        let gone : contains pillars k ≡ false = rw (← text_eq→eq p k t) new in
        rw (new, t, occurs-zero k pillars gone) refl
    | inr n ↦ rw (new, n) (once k)
  ]
]

pillar_set-IsDistinct :
    (pillars seen : List Text) → IsDistinct seen → IsDistinct (pillar_set pillars seen)
unfolding pillar_set
pillar_set-IsDistinct [] seen h = h
pillar_set-IsDistinct (p ∷ pillars) seen h =
    pillar_set-IsDistinct pillars (set_insert p seen) (set_insert-IsDistinct p seen h)

count_if-never : (pillars : List Text) → count_if (λ p. false) pillars ≡ 0
count_if-never [] = refl
count_if-never (p ∷ pillars) = count_if-never pillars

module _ {F : Type 0} where
  abbrev pub has_entry : List (Text × F) → Text → Bool
  has_entry [] k = false
  has_entry ((j, _) ∷ m) k = text_eq j k || has_entry m k

  -- The pillars are distinct, and as many of them as there are penalties have one.
  abbrev pub IsTallied : List Text → List (Text × F) → Type 0
  IsTallied pillars m =
      IsDistinct pillars
      × ((k : Text) → (not (has_entry m k) || contains pillars k) ≡ true)
      × (count_if (has_entry m) pillars ≡ length m)

  has_entry-insert :
      (k j : Text) (v : F) (m : List (Text × F))
      → has_entry (insert k v m) j ≡ (text_eq k j || has_entry m j)
  unfolding insert
  has_entry-insert k j v [] = refl
  has_entry-insert k j v ((i, w) ∷ m) =
      ground (arith, text_eq_iff k j, text_eq_iff i k, text_eq_iff i j, has_entry-insert k j v m)

  length-insert :
      (k : Text) (v : F) (m : List (Text × F))
      → length (insert k v m) ≡ (if has_entry m k then length m else length m + 1)
  unfolding insert
  length-insert k v [] = refl
  length-insert k v ((i, w) ∷ m) = ground (arith, length-insert k v m)

  -- A penalty added under a pillar that is put into the set.
  set_insert-insert-IsTallied :
      (pillars : List Text) (m : List (Text × F)) (p : Text) (v : F)
      → IsTallied pillars m
      → IsTallied (set_insert p pillars) (insert p v m)
  set_insert-insert-IsTallied pillars m p v (once, inside, total) = (
    set_insert-IsDistinct p pillars once,
    kept,
    elim (Bool-cases (contains pillars p)) [
      | inl old ↦
          unfold set_insert in rw old (counted ∙ ground (arith, once p, length-insert p v m))
      | inr new ↦
          let fresh : has_entry m p ≡ false = (let h = inside p in ground arith) in
          unfold set_insert in
          rw (new, has_entry-insert p p v m, text_eq_self p)
            (ground (arith, counted, length-insert p v m, occurs-zero p pillars new))
    ],
  )
    where
      kept :
          (k : Text)
          → (not (has_entry (insert p v m) k) || contains (set_insert p pillars) k) ≡ true
      kept k =
          rw (has_entry-insert p k v m, contains-set_insert p k pillars) (ground (arith, inside k))

      counted :
          count_if (has_entry (insert p v m)) pillars
          ≡ count_if (has_entry m) pillars + (if has_entry m p then 0 else occurs p pillars)
      counted =
          count_if-congr _ _ pillars (λ k. has_entry-insert p k v m)
          ∙ count_if-or (has_entry m) p pillars

  tally_loop-IsTallied :
      (fl : Float F) (fs : List Finding) (ps : List F) (t : Tally F)
      → IsTallied t.composite_pillars t.pillar_penalty
      → IsTallied (tally_loop fl fs ps t).composite_pillars (tally_loop fl fs ps t).pillar_penalty
  unfolding tally_loop
  tally_loop-IsTallied fl [] ps t h = h
  tally_loop-IsTallied fl (f ∷ fs) [] t h = h
  tally_loop-IsTallied fl (f ∷ fs) (p ∷ ps) t h = elim (Bool-cases (score_neutral_finding f)) [
    | inl n ↦ rw (n, tally_loop) (tally_loop-IsTallied fl fs ps t h)
    | inr s ↦
        rw (s, tally_loop)
          (tally_loop-IsTallied fl fs ps (tally_finding fl f p t)
            (unfold tally_finding add_penalty in set_insert-insert-IsTallied _ _ f.pillar _ h))
  ]

  pub tally-IsTallied :
      (fl : Float F) (fs : List Finding) (rule_backed : List Text)
      → IsTallied
          (tally fl fs rule_backed).composite_pillars
          (tally fl fs rule_backed).pillar_penalty
  unfolding tally contains
  tally-IsTallied fl fs rule_backed = tally_loop-IsTallied fl fs (cluster_penalties fl fs) _ (
    pillar_set-IsDistinct rule_backed [] (λ k. refl),
    λ k. refl,
    count_if-never (pillar_set rule_backed []),
  )

-- A pillar counts when it is rule-backed or that of a finding which counts.
abbrev pub counts : List Finding → List Text → Text → Bool
counts fs rule_backed k =
    contains rule_backed k || any_of (λ f. is_scored f && text_eq f.pillar k) fs

contains-pillar_set :
    (k : Text) (pillars seen : List Text)
    → contains (pillar_set pillars seen) k ≡ (contains pillars k || contains seen k)
unfolding pillar_set contains
contains-pillar_set k [] seen = refl
contains-pillar_set k (p ∷ pillars) seen =
    contains-pillar_set k pillars (set_insert p seen) ∙ ground (arith, contains-set_insert p k seen)

module _ {F : Type 0} (fl : Float F) where
  contains-tally_loop :
      (k : Text) (v : Finding → F) (fs : List Finding) (t : Tally F)
      → contains (tally_loop fl fs (map v fs) t).composite_pillars k
        ≡ (contains t.composite_pillars k || any_of (λ f. is_scored f && text_eq f.pillar k) fs)
  unfolding tally_loop
  contains-tally_loop k v [] t = ground arith
  contains-tally_loop k v (f ∷ fs) t = elim (Bool-cases (score_neutral_finding f)) [
    | inl n ↦ rw (n, tally_loop) (contains-tally_loop k v fs t)
    | inr s ↦
        rw (s, tally_loop, contains-tally_loop k v fs (tally_finding fl f (v f) t))
          (unfold tally_finding in
            ground (arith, contains-set_insert f.pillar k t.composite_pillars))
  ]

  pub contains-tally :
      (fs : List Finding) (rule_backed : List Text) (k : Text)
      → contains (tally fl fs rule_backed).composite_pillars k ≡ counts fs rule_backed k
  unfolding tally contains
  contains-tally fs rule_backed k =
      rw (cluster_penalties_lem fl fs, contains-tally_loop k (billed fl fs) fs)
        (ground (arith, contains-pillar_set k rule_backed []))
