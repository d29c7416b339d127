-- ===== src/Source/Gitignore/Last.antt =====
-- Which rule decides in internal/source/gitignore.go: the last one that applies, and an ignored
-- directory above all rules on what is in it.
use gruff_go.Base.{
  ◌≡◌, refl, sym, ap, ◌∙◌, Bool, true, false, not, Option, none, some, List, [], ◌∷◌, ◌++◌, map,
  Text, if◌then◌else◌,
}
use gruff_go.Source.Gitignore.Parse.{IgnoreFile, IgnoreRule}
use gruff_go.Source.Gitignore.Chain.{ancestor_chain, rel_path_from, join_ignore_path}
use gruff_go.Source.Gitignore.Loaded.{
  Matcher, ignore_name, rule_applies, apply_rules, apply_file, match_path,
}
use gruff_go.Source.Gitignore.Cached.{file_at, walk, IsCoherent, match_path-Answers}

abbrev pub rules_of : Option IgnoreFile → List IgnoreRule
rules_of none = []
rules_of (some file) = file.rules

abbrev pub later {ℓ} : {A : Type ℓ} → Option A → Option A → Option A
later (some y) before = some y
later none before = before

-- The last item of a list that passes a test.
abbrev pub last_of {ℓ} : {A : Type ℓ} → (A → Bool) → List A → Option A
last_of p [] = none
last_of p (x ∷ xs) = later (last_of p xs) (if p x then some x else none)

module _ (glob : Text → Text → Option Bool) (read_ignore : Text → Option Text) where
  -- The rules that stand above a path, each with its directory, in the order of their files.
  abbrev pub rules_above : List Text → List (Text × IgnoreRule)
  rules_above [] = []
  rules_above (dir ∷ dirs) =
      map (λ rule. (dir, rule)) (rules_of (file_at glob read_ignore dir)) ++ rules_above dirs

  abbrev pub applies : Text → Bool → Text × IgnoreRule → Bool
  applies rel is_dir (dir, rule) = rule_applies glob rule (rel_path_from dir rel) is_dir

  abbrev pub decision : Text × IgnoreRule → Bool × Text
  decision (dir, rule) = (not rule.negation, join_ignore_path dir ignore_name)

  abbrev pub decided : Option (Text × IgnoreRule) → Bool × Text → Bool × Text
  decided none v = v
  decided (some r) v = decision r

  decided-later :
      (o before : Option (Text × IgnoreRule)) (v : Bool × Text)
      → decided (later o before) v ≡ decided o (decided before v)
  decided-later none before v = refl
  decided-later (some r) before v = refl

  last_of-append :
      (rel : Text) (is_dir : Bool) (xs ys : List (Text × IgnoreRule)) (v : Bool × Text)
      → decided (last_of (applies rel is_dir) (xs ++ ys)) v
        ≡ decided (last_of (applies rel is_dir) ys) (decided (last_of (applies rel is_dir) xs) v)
  last_of-append rel is_dir [] ys v = refl
  last_of-append rel is_dir (x ∷ xs) ys v =
      decided-later (last_of (applies rel is_dir) (xs ++ ys)) _ v
      ∙ last_of-append rel is_dir xs ys _
      ∙ ap (decided (last_of (applies rel is_dir) ys))
          (sym (decided-later (last_of (applies rel is_dir) xs) _ v))

  apply_rules_lem :
      (rules : List IgnoreRule) (dir rel : Text) (is_dir : Bool) (v : Bool × Text)
      → apply_rules glob rules dir (rel_path_from dir rel) is_dir v
        ≡ decided (last_of (applies rel is_dir) (map (λ rule. (dir, rule)) rules)) v
  unfolding apply_rules
  apply_rules_lem [] dir rel is_dir v = refl
  apply_rules_lem (rule ∷ rules) dir rel is_dir v =
      apply_rules_lem rules dir rel is_dir _
      ∙ sym (
          decided-later (last_of (applies rel is_dir) (map (λ r. (dir, r)) rules)) _ v
          ∙ ap (decided (last_of (applies rel is_dir) (map (λ r. (dir, r)) rules)))
              (chosen (rule_applies glob rule (rel_path_from dir rel) is_dir)))
    where
      chosen :
          (b : Bool)
          → decided (if b then some (dir, rule) else none) v
            ≡ (if b then decision (dir, rule) else v)
      chosen true = refl
      chosen false = refl

  apply_file_lem :
      (file : Option IgnoreFile) (dir rel : Text) (is_dir : Bool) (v : Bool × Text)
      → apply_file glob file dir rel is_dir v
        ≡ decided (last_of (applies rel is_dir) (map (λ rule. (dir, rule)) (rules_of file))) v
  apply_file_lem none dir rel is_dir v = refl
  apply_file_lem (some file) dir rel is_dir v = apply_rules_lem file.rules dir rel is_dir v

  walk_lem :
      (dirs : List Text) (rel : Text) (is_dir : Bool) (v : Bool × Text)
      → walk glob read_ignore dirs rel is_dir v
        ≡ decided (last_of (applies rel is_dir) (rules_above dirs)) v
  unfolding walk
  walk_lem [] rel is_dir v = refl
  walk_lem (dir ∷ dirs) rel is_dir v =
      walk_lem dirs rel is_dir _
      ∙ ap (decided (last_of (applies rel is_dir) (rules_above dirs)))
          (apply_file_lem (file_at glob read_ignore dir) dir rel is_dir v)
      ∙ sym (
          last_of-append rel is_dir
            (map (λ rule. (dir, rule)) (rules_of (file_at glob read_ignore dir))) (rules_above dirs)
            v)

  -- Of all rules from the root's file down to that of the path's own directory, the last one that
  -- applies to the path decides: it ignores it unless it is negated, and its file is the source. Where
  -- none applies, the path is not ignored. This holds whatever a coherent matcher has cached.
  pub match_path_lem :
      (rel : Text) (is_dir : Bool) (m : Matcher)
      → IsCoherent glob read_ignore m
      → (match_path glob read_ignore rel is_dir m).1
        ≡ decided (last_of (applies rel is_dir) (rules_above (ancestor_chain rel))) (false, [])
  match_path_lem rel is_dir m c =
      (match_path-Answers glob read_ignore rel is_dir m c).1
      ∙ walk_lem (ancestor_chain rel) rel is_dir (false, [])
