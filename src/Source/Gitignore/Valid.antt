-- ===== src/Source/Gitignore/Valid.antt =====
-- The rules that parseIgnoreFile of internal/source/gitignore.go keeps.
use gruff_go.Base.{
  ◌≡◌, ◌≢◌, ◌⊎◌, text_eq→eq, not, ◌&&◌, none, some, inl, inr, Bool, false, ◌||◌, Option, List, [],
  ◌∷◌, Text, text_eq, has_prefix, split, All, All-append, codes, arith, Bool-cases,
}
use gruff_go.Source.Gitignore.Parse.{
  IgnoreRule, IgnoreFile, RuleResult, parsed, malformed, double_star, is_bad, segments_bad,
  finished_rule, parse_ignore_rule, add_rule, trimmed_line, file_lines, parse_ignore_file,
}
use gruff_go.Source.Gitignore.Prefixes.{split-one}

module _ (glob : Text → Text → Option Bool) where
  -- A rule that is not anchored has one segment, and path.Match accepts every segment but "**" as
  -- a pattern.
  pub record IsValid (rule : IgnoreRule) : Type 0 where
    pub floating : rule.anchored ≡ false → (p : Text) × (rule.parts ≡ p ∷ [])
    pub sound : All (λ p. (p ≡ codes "**") ⊎ (glob p [] ≢ none)) rule.parts

  sound_segments :
      (parts : List Text)
      → segments_bad glob parts ≡ false
      → All (λ p. (p ≡ codes "**") ⊎ (glob p [] ≢ none)) parts
  unfolding segments_bad
  sound_segments [] h = tt
  sound_segments (p ∷ parts) h = (here (glob p []) h, sound_segments parts (ground arith))
    where
      here :
          (o : Option Bool)
          → ((not (text_eq p double_star) && is_bad glob o) || segments_bad glob parts) ≡ false
          → (p ≡ codes "**") ⊎ (o ≢ none)
      here none h = inl (text_eq→eq p (codes "**") (ground arith))
      here (some b) h = inr (λ e. cc)

  abbrev IsValidResult : RuleResult → Type 0
  IsValidResult (parsed rule) = IsValid rule
  IsValidResult (malformed e) = Unit

  finished_rule-IsValid :
      (raw : Text) (negation anchored dir_only : Bool) (line : Text)
      → IsValidResult (finished_rule glob raw negation anchored dir_only line)
  unfolding finished_rule
  finished_rule-IsValid raw negation anchored dir_only line = elim (Bool-cases (text_eq line [])) [
    | inl t ↦ rw t tt
    | inr n ↦ elim (Bool-cases (segments_bad glob (split b'/' line))) [
      | inl bad ↦ rw (n, bad) tt
      | inr good ↦
          rw (n, good)
            (record {
              floating = λ e. (line, split-one line (ground arith));
              sound = sound_segments _ good;
            })
    ]
  ]

  add_rule-IsValid :
      (r : RuleResult) (file : IgnoreFile)
      → IsValidResult r
      → All IsValid file.rules
      → All IsValid (add_rule glob r file).rules
  add_rule-IsValid (malformed e) file v h = h
  add_rule-IsValid (parsed rule) file v h = All-append IsValid file.rules (rule ∷ []) h (v, tt)

  file_lines-IsValid :
      (lines : List Text) (file : IgnoreFile)
      → All IsValid file.rules
      → All IsValid (file_lines glob lines file).rules
  unfolding file_lines parse_ignore_rule
  file_lines-IsValid [] file h = h
  file_lines-IsValid (raw ∷ lines) file h =
      elim (Bool-cases
        (text_eq (trimmed_line raw) [] || has_prefix (trimmed_line raw) (codes "#"))) [
          | inl t ↦ rw (t, file_lines) (file_lines-IsValid lines file h)
          | inr n ↦
              rw (n, file_lines)
                (file_lines-IsValid lines _ (
                  add_rule-IsValid (parse_ignore_rule glob (trimmed_line raw)) file
                    (finished_rule-IsValid _ _ _ _ _) h))
        ]

  -- Each rule of a parsed file is well-formed: no segment but "**" is a pattern that path.Match
  -- refuses, and a rule with more than one segment is anchored.
  pub parse_ignore_file-IsValid :
      (dir text : Text) → All IsValid (parse_ignore_file glob dir text).rules
  unfolding parse_ignore_file
  parse_ignore_file-IsValid dir text = file_lines-IsValid (split 10 text) _ tt
