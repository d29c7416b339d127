-- ===== src/Source/Gitignore/Globs.antt =====
-- matchSegmentsAt of internal/source/gitignore.go against the meaning of a pattern as a relation.
use gruff_go.Base.{
  ◌≡◌, ◌≢◌, ◌↔◌, ◌⊎◌, refl, ap, inl, inr, Bool, true, false, not, Option, none, some, List, [], ◌∷◌,
  ◌++◌, Text, text_eq, text_eq→eq, text_eq_self, split, if◌then◌else◌, arith, Bool-cases,
}
use gruff_go.Source.Gitignore.Parse.{IgnoreRule, double_star}
use gruff_go.Source.Gitignore.Segments.{
  is_nil, is_ok, any_rest, next_segment, match_segments_at, float_loop, rule_match,
}

module _ (glob : Text → Text → Option Bool) where
  -- A double star stands for any segments, in the last place for at least one; every other segment
  -- of the pattern stands for one segment, by path.Match.
  pub data Matches : List Text → List Text → Type 0 where
    done : Matches [] []
    below : {p s : Text} {segs : List Text} → p ≡ double_star → Matches (p ∷ []) (s ∷ segs)
    no_more :
        {p q : Text} {pat segs : List Text}
        → p ≡ double_star
        → Matches (q ∷ pat) segs
        → Matches (p ∷ q ∷ pat) segs
    one_more :
        {p q s : Text} {pat segs : List Text}
        → p ≡ double_star
        → Matches (p ∷ q ∷ pat) segs
        → Matches (p ∷ q ∷ pat) (s ∷ segs)
    segment :
        {p s : Text} {pat segs : List Text}
        → p ≢ double_star
        → glob p s ≡ some true
        → Matches pat segs
        → Matches (p ∷ pat) (s ∷ segs)

  is_ok-some : (o : Option Bool) → is_ok o ≡ true → o ≡ some true
  is_ok-some none h = cc
  is_ok-some (some true) h = refl
  is_ok-some (some false) h = cc

  -- A rest that matches the pattern after a double star.
  any_rest-Matches :
      (p q : Text) (pat segs : List Text)
      → p ≡ double_star
      → ((rest : List Text) → match_segments_at glob (q ∷ pat) rest ≡ true → Matches (q ∷ pat) rest)
      → any_rest (match_segments_at glob (q ∷ pat)) segs ≡ true
      → Matches (p ∷ q ∷ pat) segs
  any_rest-Matches p q pat [] e ih h = no_more e (ih [] h)
  any_rest-Matches p q pat (s ∷ segs) e ih h =
      elim (Bool-cases (match_segments_at glob (q ∷ pat) (s ∷ segs))) [
        | inl t ↦ no_more e (ih (s ∷ segs) t)
        | inr n ↦ one_more e (any_rest-Matches p q pat segs e ih (rw n at h))
      ]

  match_segments_at→Matches :
      (pat segs : List Text) → match_segments_at glob pat segs ≡ true → Matches pat segs
  unfolding match_segments_at
  match_segments_at→Matches [] [] h = done
  match_segments_at→Matches [] (s ∷ segs) h = cc
  match_segments_at→Matches (p ∷ pat) segs h = elim (Bool-cases (text_eq p double_star)) [
    | inl t ↦
        starred pat segs (match_segments_at→Matches pat) (text_eq→eq p double_star t) (rw t at h)
    | inr n ↦
        named segs (match_segments_at→Matches pat) (λ e. let t = text_eq_self double_star in cc)
          (rw n at h)
  ]
    where
      starred :
          (pat segs : List Text)
          → ((rest : List Text) → match_segments_at glob pat rest ≡ true → Matches pat rest)
          → p ≡ double_star
          → (if is_nil pat then not (is_nil segs) else any_rest (match_segments_at glob pat) segs)
            ≡ true
          → Matches (p ∷ pat) segs
      starred [] [] ih e g = cc
      starred [] (s ∷ segs) ih e g = below e
      starred (q ∷ pat) segs ih e g = any_rest-Matches p q pat segs e ih g

      named :
          (segs : List Text)
          → ((rest : List Text) → match_segments_at glob pat rest ≡ true → Matches pat rest)
          → p ≢ double_star
          → next_segment glob p (match_segments_at glob pat) segs ≡ true
          → Matches (p ∷ pat) segs
      named [] ih d g = cc
      named (s ∷ segs) ih d g =
          segment d (is_ok-some (glob p s) (ground arith)) (ih segs (ground arith))

  any_rest-here : (f : List Text → Bool) (segs : List Text) → f segs ≡ true → any_rest f segs ≡ true
  any_rest-here f [] h = h
  any_rest-here f (s ∷ segs) h = rw h refl

  is_star : (p : Text) → p ≡ double_star → text_eq p double_star ≡ true
  is_star p e = rw e (text_eq_self double_star)

  not_star : (p : Text) → p ≢ double_star → text_eq p double_star ≡ false
  not_star p d = elim (Bool-cases (text_eq p double_star)) [
    | inl t ↦ absurd (d (text_eq→eq p double_star t))
    | inr n ↦ n
  ]

  Matches→match_segments_at :
      {pat segs : List Text} → Matches pat segs → match_segments_at glob pat segs ≡ true
  unfolding match_segments_at
  Matches→match_segments_at done = refl
  Matches→match_segments_at (below {p} e) = rw (is_star p e) refl
  Matches→match_segments_at (no_more {p} {q} {pat} {segs} e m) =
      rw (is_star p e)
        (any_rest-here (match_segments_at glob (q ∷ pat)) segs (Matches→match_segments_at m))
  Matches→match_segments_at (one_more {p} {q} {s} {pat} {segs} e m) =
      let rest = rw (is_star p e) at (Matches→match_segments_at m) in
      rw (is_star p e) (ground arith)
  Matches→match_segments_at (segment {p} d g m) =
      rw (not_star p d, g, Matches→match_segments_at m) refl

  -- matchSegmentsAt accepts just the segments that the pattern stands for.
  pub match_segments_at_iff :
      (pat segs : List Text) → (match_segments_at glob pat segs ≡ true) ↔ Matches pat segs
  match_segments_at_iff pat segs = (match_segments_at→Matches pat segs, Matches→match_segments_at)

  -- A suffix of the path's segments that is not empty matches.
  abbrev pub MatchesBelow : List Text → List Text → Type 0
  MatchesBelow parts segs =
      (before : List Text) × (s : Text) × (after : List Text) × (segs ≡ before ++ (s ∷ after))
      × Matches parts (s ∷ after)

  float_loop→MatchesBelow :
      (parts segs : List Text) → float_loop glob parts segs ≡ true → MatchesBelow parts segs
  unfolding float_loop
  float_loop→MatchesBelow parts [] h = cc
  float_loop→MatchesBelow parts (s ∷ segs) h =
      elim (Bool-cases (match_segments_at glob parts (s ∷ segs))) [
        | inl t ↦ ([], s, segs, refl, match_segments_at→Matches parts (s ∷ segs) t)
        | inr n ↦
            let (before, r, after, e, m) = float_loop→MatchesBelow parts segs (rw n at h) in
            (s ∷ before, r, after, ap (λ t. s ∷ t) e, m)
      ]

  float_loop-append :
      (parts before : List Text) (s : Text) (after : List Text)
      → match_segments_at glob parts (s ∷ after) ≡ true
      → float_loop glob parts (before ++ (s ∷ after)) ≡ true
  unfolding float_loop
  float_loop-append parts [] s after h = rw h refl
  float_loop-append parts (b ∷ before) s after h =
      ground (arith, float_loop-append parts before s after h)

  -- What a rule says of a path that is not empty: of all its segments if the rule is anchored, and
  -- of the segments from some place on if it is not.
  abbrev pub RuleMatches : IgnoreRule → Text → Type 0
  RuleMatches rule rel =
      ((rule.anchored ≡ true) × Matches rule.parts (split b'/' rel))
      ⊎ ((rule.anchored ≡ false) × MatchesBelow rule.parts (split b'/' rel))

  anchored→RuleMatches :
      (anchored : Bool) (parts segs : List Text)
      → (if anchored then match_segments_at glob parts segs else float_loop glob parts segs) ≡ true
      → ((anchored ≡ true) × Matches parts segs) ⊎ ((anchored ≡ false) × MatchesBelow parts segs)
  anchored→RuleMatches true parts segs h = inl (refl, match_segments_at→Matches parts segs h)
  anchored→RuleMatches false parts segs h = inr (refl, float_loop→MatchesBelow parts segs h)

  RuleMatches→rule_match :
      (rule : IgnoreRule) (rel : Text)
      → text_eq rel [] ≡ false
      → RuleMatches rule rel
      → rule_match glob rule rel ≡ true
  unfolding rule_match
  RuleMatches→rule_match rule rel n (inl (a, m)) = rw (n, a) (Matches→match_segments_at m)
  RuleMatches→rule_match rule rel n (inr (a, (before, s, after, e, m))) =
      rw (n, a, e) (float_loop-append rule.parts before s after (Matches→match_segments_at m))

  -- A rule matches a path that is not empty exactly if its pattern stands for all segments of the
  -- path or, for a rule that is not anchored, for all of them from some segment on. The empty path is
  -- matched by no rule.
  pub rule_match_iff :
      (rule : IgnoreRule) (rel : Text)
      → (rule_match glob rule rel ≡ true) ↔ ((rel ≢ []) × RuleMatches rule rel)
  unfolding rule_match
  rule_match_iff rule rel = elim (Bool-cases (text_eq rel [])) [
    | inl t ↦ (λ h. absurd (let g = rw t at h in cc), λ m. absurd (m.0 (text_eq→eq rel [] t)))
    | inr n ↦ (
      λ h. (
        λ e.
            let t = text_eq_self rel in absurd (let g = rw e at n in let u = text_eq_self [] in cc),
        anchored→RuleMatches rule.anchored rule.parts (split b'/' rel) (rw n at h),
      ),
      λ m. RuleMatches→rule_match rule rel n m.1,
    )
  ]
