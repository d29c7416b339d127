-- ===== src/Source/Gitignore/Below.antt =====
-- An ignored directory, and what lies below it, for internal/source/gitignore.go.
use gruff_go.Base.{
  ◌≡◌, ◌≢◌, sym, refl, ap, ◌∙◌, inl, inr, Bool, true, false, ◌||◌, Option, List, [], ◌∷◌, ◌++◌, map,
  Text, text_eq, split, join, any_of, codes, ◌==◌, arith, Bool-cases,
}
use mathlib.Core.List.{reverse, reverse-cons}
use gruff_go.Source.Ignored.{without_last}
use gruff_go.Source.Walk.{split_first, split-append, without_last-append}
use gruff_go.Source.Gitignore.Chain.{prefixes, joined, parent_dir}
use gruff_go.Source.Gitignore.Loaded.{Matcher, ancestors, match_relative}
use gruff_go.Source.Gitignore.Cached.{path_verdict, nearest, or_above, verdict_of, IsCoherent}
use gruff_go.Source.Gitignore.Verdict.{match_relative-Answers}
use gruff_go.Source.Gitignore.Prefixes.{any_of-map, join-grown}

-- Joining undoes splitting.
join-split : (s : Text) → joined (split b'/' s) ≡ s
unfolding split join
join-split [] = refl
join-split (c ∷ s) = elim (Bool-cases (c == b'/')) [
  | inl t ↦
      let (p, parts, e) = split_first b'/' s in
      let rest = join-split s in rw (t, e) (let g = rw e at rest in ground arith)
  | inr n ↦
      let (p, parts, e) = split_first b'/' s in
      let rest = join-split s in rw (n, e) (join-grown c p parts ∙ ap (λ r. c ∷ r) (rw e at rest))
]

any_of-append :
    {A : Type 0} (f : A → Bool) (xs ys : List A)
    → any_of f (xs ++ ys) ≡ (any_of f xs || any_of f ys)
any_of-append f [] ys = refl
any_of-append f (x ∷ xs) ys = ground (arith, any_of-append f xs ys)

any_of-reverse : {A : Type 0} (f : A → Bool) (xs : List A) → any_of f (reverse xs) ≡ any_of f xs
any_of-reverse f [] = refl
any_of-reverse f (x ∷ xs) =
    rw (reverse-cons x xs, any_of-append f (reverse xs) (x ∷ []), any_of-reverse f xs)
      (ground arith)

-- Segments are a prefix of those that go on.
any_prefix :
    (g : List Text → Bool) (p : Text) (parts after : List Text)
    → g (p ∷ parts) ≡ true
    → any_of g (prefixes ((p ∷ parts) ++ after)) ≡ true
unfolding prefixes
any_prefix g p [] after h = rw h refl
any_prefix g p (q ∷ parts) after h =
    let rest = any_prefix (λ r. g (p ∷ r)) q parts after h in
    rw (any_of-map (λ r. p ∷ r) g (prefixes (q ∷ parts ++ after))) (ground arith)

-- The prefixes of all segments but the last are among those of segments that go on.
any_longer :
    (g : List Text → Bool) (parts after : List Text)
    → any_of g (prefixes (without_last parts)) ≡ true
    → any_of g (prefixes (parts ++ after)) ≡ true
unfolding prefixes
any_longer g [] after h = absurd (cc)
any_longer g (p ∷ []) after h = absurd (cc)
any_longer g (p ∷ q ∷ parts) after h = elim (Bool-cases (g (p ∷ []))) [
  | inl t ↦ rw t refl
  | inr n ↦
      let below : any_of (λ r. g (p ∷ r)) (prefixes (without_last (q ∷ parts))) ≡ true =
        sym (any_of-map (λ r. p ∷ r) g (prefixes (without_last (q ∷ parts)))) ∙ (rw n at h) in
      rw (n, any_of-map (λ r. p ∷ r) g (prefixes ((q ∷ parts) ++ after)))
        (any_longer (λ r. g (p ∷ r)) (q ∷ parts) after below)
]

module _ (glob : Text → Text → Option Bool) (read_ignore : Text → Option Text) where
  abbrev is_ignored : Text → Bool
  is_ignored dir = (path_verdict glob read_ignore dir true).0

  nearest_ignored :
      (dirs : List Text) (source : Text)
      → any_of is_ignored dirs ≡ true
      → (nearest glob read_ignore dirs source).0 ≡ true
  nearest_ignored [] source h = absurd (cc)
  nearest_ignored (dir ∷ dirs) source h = elim (Bool-cases (is_ignored dir)) [
    | inl t ↦ rw t refl
    | inr n ↦ rw n (nearest_ignored dirs source (rw n at h))
  ]

  or_above_ignored :
      (v : Bool × Text) (rel : Text)
      → any_of is_ignored (ancestors rel) ≡ true
      → (or_above glob read_ignore v rel).0 ≡ true
  or_above_ignored (true, source) rel h = refl
  or_above_ignored (false, source) rel h = nearest_ignored (ancestors rel) source h

  is_ancestor :
      (dir name : Text)
      → is_ignored dir ≡ true
      → any_of is_ignored (ancestors (dir ++ (b'/' ∷ name))) ≡ true
  is_ancestor dir name h =
      let (p, parts, e) = split_first b'/' dir in
      let (q, more, d) = split_first b'/' name in
      let dirs = prefixes (without_last (split b'/' (dir ++ (b'/' ∷ name)))) in
      any_of-reverse is_ignored (map joined dirs)
      ∙ any_of-map joined is_ignored dirs
      ∙ rw (split-append b'/' dir name, e, d, without_last-append (p ∷ parts) q more)
          (any_prefix (λ r. is_ignored (joined r)) p parts (without_last (q ∷ more))
            (rw (← e, join-split dir) h))

  not_special :
      (dir name : Text)
      → (text_eq (dir ++ (b'/' ∷ name)) [] || text_eq (dir ++ (b'/' ∷ name)) (codes ".")) ≡ false
  unfolding text_eq
  not_special [] name = ground arith
  not_special (c ∷ []) name = ground arith
  not_special (c ∷ b ∷ dir) name = ground arith

  verdict_of_below :
      (dir name : Text) (is_dir : Bool)
      → any_of is_ignored (ancestors (dir ++ (b'/' ∷ name))) ≡ true
      → (verdict_of glob read_ignore (dir ++ (b'/' ∷ name)) is_dir).0 ≡ true
  verdict_of_below dir name is_dir h =
      rw (not_special dir name) (or_above_ignored _ (dir ++ (b'/' ∷ name)) h)

  -- An ancestor of a directory is one of what lies below it.
  ancestor_below :
      (dir name : Text)
      → any_of is_ignored (ancestors dir) ≡ true
      → any_of is_ignored (ancestors (dir ++ (b'/' ∷ name))) ≡ true
  ancestor_below dir name h =
      let (q, more, d) = split_first b'/' name in
      let above = prefixes (without_last (split b'/' dir)) in
      let dirs = prefixes (without_last (split b'/' (dir ++ (b'/' ∷ name)))) in
      let there : any_of (λ r. is_ignored (joined r)) above ≡ true =
        sym (any_of-map joined is_ignored above)
        ∙ sym (any_of-reverse is_ignored (map joined above))
        ∙ h in
      any_of-reverse is_ignored (map joined dirs)
      ∙ any_of-map joined is_ignored dirs
      ∙ rw (split-append b'/' dir name, d, without_last-append (split b'/' dir) q more)
          (any_longer (λ r. is_ignored (joined r)) (split b'/' dir) (without_last (q ∷ more)) there)

  nearest_ignored→ :
      (dirs : List Text) (source : Text)
      → (nearest glob read_ignore dirs source).0 ≡ true
      → any_of is_ignored dirs ≡ true
  nearest_ignored→ [] source h = absurd (cc)
  nearest_ignored→ (dir ∷ dirs) source h = elim (Bool-cases (is_ignored dir)) [
    | inl t ↦ rw t refl
    | inr n ↦ rw n (nearest_ignored→ dirs source (rw n at h))
  ]

  ignored_above :
      (v : Bool × Text) (dir name : Text)
      → path_verdict glob read_ignore dir true ≡ v
      → (or_above glob read_ignore v dir).0 ≡ true
      → any_of is_ignored (ancestors (dir ++ (b'/' ∷ name))) ≡ true
  ignored_above (true, source) dir name e h = is_ancestor dir name (ap (λ u. u.0) e)
  ignored_above (false, source) dir name e h =
      ancestor_below dir name (nearest_ignored→ (ancestors dir) source h)

  -- Where Match ignores a directory, by rules on it or on a directory above it, Match ignores every
  -- path below it, whatever the rules say of that path: no negated rule brings it back. The matcher is
  -- any whose caches agree with the files, and the directories above are not spelled ".".
  pub match_relative-below :
      (dir name : Text) (is_dir : Bool) (m : Matcher)
      → IsCoherent glob read_ignore m
      → parent_dir dir ≢ codes "."
      → parent_dir (dir ++ (b'/' ∷ name)) ≢ codes "."
      → (match_relative glob read_ignore dir true m).1.0 ≡ true
      → (match_relative glob read_ignore (dir ++ (b'/' ∷ name)) is_dir m).1.0 ≡ true
  match_relative-below dir name is_dir m c clean clean' h =
      let (_, at_dir) = match_relative-Answers glob read_ignore dir true m c clean in
      let (_, below) =
        match_relative-Answers glob read_ignore (dir ++ (b'/' ∷ name)) is_dir m c clean' in
      ap (λ v. v.0) below
      ∙ verdict_of_below dir name is_dir (ignored dir (sym (ap (λ v. v.0) at_dir) ∙ h))
    where
      ignored :
          (dir : Text)
          → (verdict_of glob read_ignore dir true).0 ≡ true
          → any_of is_ignored (ancestors (dir ++ (b'/' ∷ name))) ≡ true
      ignored dir g = elim (Bool-cases (text_eq dir [] || text_eq dir (codes "."))) [
        | inl t ↦ absurd (let g' = rw t at g in cc)
        | inr n ↦ ignored_above _ dir name refl (rw n at g)
      ]
