-- ===== src/Source/Gitignore/Segments.antt =====
-- matchSegmentsAt and ignoreRule.match of internal/source/gitignore.go. An index into a list is what
-- is left of the list from there on.
use gruff_go.Base.{
  Bool, true, false, not, ◌&&◌, ◌||◌, Option, none, some, List, [], ◌∷◌, Text, text_eq, split,
  if◌then◌else◌,
}
use gruff_go.Source.Gitignore.Parse.{IgnoreRule, double_star}

abbrev pub is_nil : {A : Type 0} → List A → Bool
is_nil [] = true
is_nil (x ∷ xs) = false

-- The loop over k: some rest of the segments, the empty one included, passes.
abbrev pub any_rest : (List Text → Bool) → List Text → Bool
any_rest f [] = f []
any_rest f (s ∷ segs) = f (s ∷ segs) || any_rest f segs

-- ok of path.Match
abbrev pub is_ok : Option Bool → Bool
is_ok none = false
is_ok (some ok) = ok

module _ (glob : Text → Text → Option Bool) where
  abbrev pub next_segment : Text → (List Text → Bool) → List Text → Bool
  next_segment p f [] = false
  next_segment p f (s ∷ segs) = is_ok (glob p s) && f segs

  -- matchSegmentsAt
  unfoldable pub match_segments_at : List Text → List Text → Bool
  match_segments_at [] segs = is_nil segs
  match_segments_at (p ∷ pat) segs =
      if text_eq p double_star
      then if is_nil pat then not (is_nil segs) else any_rest (match_segments_at pat) segs
      else next_segment p (match_segments_at pat) segs

  -- The loop of match over the start of an unanchored rule.
  unfoldable pub float_loop : List Text → List Text → Bool
  float_loop parts [] = false
  float_loop parts (s ∷ segs) = match_segments_at parts (s ∷ segs) || float_loop parts segs

  -- match
  unfoldable pub rule_match : IgnoreRule → Text → Bool
  rule_match rule rel =
      if text_eq rel []
      then false
      else if rule.anchored
      then match_segments_at rule.parts (split b'/' rel)
      else float_loop rule.parts (split b'/' rel)
