-- ===== src/Scoring/Bounds.antt =====
-- The composite of Calculate in internal/scoring/scoring.go: a truncated mean between 0 and 100.
use gruff_go.Base.{
  ℕ, zero, suc, ◌+◌, ◌*◌, ◌-◌, ◌≡◌, ◌⊎◌, ◌≤◌, refl, ap, inl, inr, List, [], ◌∷◌, Text, text_key,
  contains, length, count_if-le-length, All, arith,
}
use gruff_go.Finding.{Finding}
use gruff_go.Scoring.Points.{Float, grade}
use gruff_go.Scoring.Tally.{Score, Tally}
use gruff_go.Scoring.Totals.{
  clamped_score, pillar_scores, composite_total, mean, score_of, tally, finished_as, finished,
  calculate,
}
use gruff_go.Scoring.Tallied.{
  IsDistinct, IsTallied, has_entry, counts, tally-IsTallied, contains-tally,
}

abbrev pub sum_scores : List (Text × ℕ) → ℕ
sum_scores [] = 0
sum_scores ((_, score) ∷ m) = score + sum_scores m

mean-le : (total n : ℕ) → total ≤ 100 * n → mean total n ≤ 100
mean-le total zero h = omega arith
mean-le total (suc n) h = grind arith

module _ {F : Type 0} where
  clamped_score-le : (fl : Float F) (x : F) → clamped_score fl x ≤ 100
  clamped_score-le fl x = omega arith

  -- While the total is enough for what is left, the subtraction does not stop at 0.
  composite_total_lem :
      (fl : Float F) (total : ℕ) (m : List (Text × F))
      → 100 * length m ≤ total
      → composite_total fl total m + 100 * length m ≡ total + sum_scores (pillar_scores fl m)
  unfolding composite_total pillar_scores
  composite_total_lem fl total [] h = omega arith
  composite_total_lem fl total ((k, penalty) ∷ m) h =
      let rest = composite_total_lem fl (total + clamped_score fl penalty - 100) m (omega arith) in
      omega arith

  pillar_scores-le :
      (fl : Float F) (m : List (Text × F)) → All (λ (e : Text × ℕ). e.1 ≤ 100) (pillar_scores fl m)
  unfolding pillar_scores
  pillar_scores-le fl [] = tt
  pillar_scores-le fl ((k, penalty) ∷ m) = (omega arith, pillar_scores-le fl m)

  length-pillar_scores :
      (fl : Float F) (m : List (Text × F)) → length (pillar_scores fl m) ≡ length m
  unfolding pillar_scores
  length-pillar_scores fl [] = refl
  length-pillar_scores fl (e ∷ m) = ap suc (length-pillar_scores fl m)

  sum_scores-le :
      (fl : Float F) (m : List (Text × F)) → sum_scores (pillar_scores fl m) ≤ 100 * length m
  unfolding pillar_scores
  sum_scores-le fl [] = omega arith
  sum_scores-le fl ((k, penalty) ∷ m) = omega (arith, sum_scores-le fl m)

  abbrev IsMean : List Text → Score F → Type 0
  IsMean pillars s =
      (length s.pillars ≤ length pillars)
      × (s.composite
          ≡ mean (100 * (length pillars - length s.pillars) + sum_scores s.pillars)
              (length pillars))

  abbrev pub IsScore : List Text → Score F → Type 0
  IsScore pillars s =
      (s.composite ≤ 100)
      × (s.grade ≡ grade s.composite)
      × All (λ (e : Text × ℕ). e.1 ≤ 100) s.pillars
      × (((s.pillars ≡ []) × (s.composite ≡ 100)) ⊎ IsMean pillars s)

  score_of-IsScore :
      (fl : Float F) (bins : List (Text × ℕ)) (t : Tally F)
      → IsTallied t.composite_pillars t.pillar_penalty
      → IsScore t.composite_pillars (score_of fl bins t)
  score_of-IsScore fl bins t (once, inside, total) =
      let m = t.pillar_penalty in
      let n = length t.composite_pillars in
      let most : length m ≤ n =
        omega (arith, total, count_if-le-length (has_entry m) t.composite_pillars) in
      let same : composite_total fl (100 * n) m
          ≡ 100 * (n - length m) + sum_scores (pillar_scores fl m) =
        omega (arith, composite_total_lem fl (100 * n) m) in
      let e = length-pillar_scores fl m in
      (
        mean-le _ n (omega (arith, sum_scores-le fl m, same)),
        refl,
        pillar_scores-le fl m,
        inr (omega arith, rw (e, same) refl),
      )

  finished-IsScore :
      (fl : Float F) (bins : List (Text × ℕ)) (t : Tally F) (m : List (Text × F))
      → IsTallied t.composite_pillars t.pillar_penalty
      → IsScore t.composite_pillars (finished_as fl m bins t)
  finished-IsScore fl bins t [] h = (omega arith, unfold grade in refl, tt, inl (refl, refl))
  finished-IsScore fl bins t (e ∷ m) h = score_of-IsScore fl bins t h

  -- The composite and the score of each pillar are at most 100, and the grade is that of the
  -- composite. If no pillar has a score, the composite is 100. Otherwise it is the mean, rounded down,
  -- over the distinct pillars that are rule-backed or have a finding which counts; a pillar without
  -- a score of its own enters the mean as 100.
  pub calculate-IsScore :
      (fl : Float F) (fs : List Finding) (rule_backed : List Text)
      → (pillars : List Text) × IsDistinct pillars
        × ((k : Text) → contains pillars k ≡ counts fs rule_backed k)
        × IsScore pillars (calculate fl fs rule_backed)
  unfolding calculate finished
  calculate-IsScore fl fs rule_backed =
      let t = tally fl fs rule_backed in
      let h = tally-IsTallied fl fs rule_backed in
      (
        t.composite_pillars,
        h.0,
        contains-tally fl fs rule_backed,
        finished-IsScore fl _ t t.pillar_penalty h,
      )
