-- ===== src/Source/Gitignore/Cached.antt =====
-- The caches of the Matcher of internal/source/gitignore.go: an answer does not depend on them.
use gruff_go.Base.{
  ◌≡◌, refl, inl, inr, Bool, true, false, ◌||◌, Option, some, List, [], ◌∷◌, Text, text_key,
  text_eq, text_eq→eq, lookup, insert, lookup-insert, any_of, if◌then◌else◌, codes, arith,
  Bool-cases, Option-cases,
}
use gruff_go.Source.Gitignore.Parse.{IgnoreFile}
use gruff_go.Source.Gitignore.Chain.{ancestor_chain, dir_chain}
use gruff_go.Source.Gitignore.Loaded.{
  Matcher, new_matcher, file_of, load, has_rules, rules_loop, has_rules_in_chain, is_file,
  files_loop, apply_file, path_loop, match_path, ancestor_loop, ancestors,
}

module _ (glob : Text → Text → Option Bool) (read_ignore : Text → Option Text) where
  -- The rules of a directory as the file system has them.
  abbrev pub file_at : Text → Option IgnoreFile
  file_at dir = file_of glob dir (read_ignore dir)

  abbrev pub chain_has_rules : Text → Bool
  chain_has_rules dir = any_of (λ d. has_rules (file_at d)) (dir_chain dir)

  -- matchPath with no cache
  unfoldable pub walk : List Text → Text → Bool → Bool × Text → Bool × Text
  walk [] rel is_dir verdict = verdict
  walk (dir ∷ dirs) rel is_dir verdict =
      walk dirs rel is_dir (apply_file glob (file_at dir) dir rel is_dir verdict)

  abbrev pub path_verdict : Text → Bool → Bool × Text
  path_verdict rel is_dir = walk (ancestor_chain rel) rel is_dir (false, [])

  -- The nearest ancestor that is ignored as a directory, or else the source given.
  abbrev pub nearest : List Text → Text → Bool × Text
  nearest [] source = (false, source)
  nearest (dir ∷ dirs) source =
      if (path_verdict dir true).0 then path_verdict dir true else nearest dirs source

  abbrev pub or_above : Bool × Text → Text → Bool × Text
  or_above (true, source) rel = (true, source)
  or_above (false, source) rel = nearest (ancestors rel) source

  -- Match with no cache and no shortcut
  abbrev pub verdict_of : Text → Bool → Bool × Text
  verdict_of rel is_dir =
      if text_eq rel [] || text_eq rel (codes ".")
      then (false, [])
      else or_above (path_verdict rel is_dir) rel

  -- Each cache holds what the file system gives.
  pub record IsCoherent (m : Matcher) : Type 0 where
    pub files : (dir : Text) (f : Option IgnoreFile) → lookup dir m.cache ≡ some f → f ≡ file_at dir
    pub chains :
        (dir : Text) (b : Bool) → lookup dir m.rule_chain_cache ≡ some b → b ≡ chain_has_rules dir

  -- The answer is the one given, and the caches still hold what the file system gives.
  abbrev pub Answers : {R : Type 0} → Matcher × R → R → Type 0
  Answers out r = IsCoherent out.0 × (out.1 ≡ r)

  pub new_matcher-IsCoherent : IsCoherent new_matcher
  unfolding lookup
  new_matcher-IsCoherent = record {
    files = λ dir f h. absurd (cc);
    chains = λ dir b h. absurd (cc);
  }

  lookup_fresh :
      {V : Type 0} (k j : Text) (v w : V) (c : List (Text × V)) (P : Text → V)
      → ((i : Text) (u : V) → lookup i c ≡ some u → u ≡ P i)
      → v ≡ P k
      → lookup j (insert k v c) ≡ some w
      → w ≡ P j
  lookup_fresh k j v w c P old e h = elim (Bool-cases (text_eq k j)) [
    | inl t ↦
        let same = text_eq→eq k j t in
        let g = rw (lookup-insert k j v c, t) at h in rw (← same, ← e) (ground arith)
    | inr n ↦ old j w (rw (lookup-insert k j v c, n) at h)
  ]

  pub load-Answers :
      (dir : Text) (m : Matcher)
      → IsCoherent m
      → Answers (load glob read_ignore dir m) (file_at dir)
  unfolding load
  load-Answers dir m c = elim (Option-cases (lookup dir m.cache)) [
    | inl e ↦ rw e (
      record {
        files = λ j f h. lookup_fresh dir j (file_at dir) f m.cache file_at c.files refl h;
        chains = c.chains;
      },
      refl,
    )
    | inr (f, e) ↦ rw e (c, c.files dir f e)
  ]

  rules_loop-Answers :
      (dirs : List Text) (m : Matcher)
      → IsCoherent m
      → Answers (rules_loop glob read_ignore dirs m) (any_of (λ d. has_rules (file_at d)) dirs)
  unfolding rules_loop
  rules_loop-Answers [] m c = (c, refl)
  rules_loop-Answers (dir ∷ dirs) m c =
      let (c', e) = load-Answers dir m c in
      let rest = rules_loop-Answers dirs (load glob read_ignore dir m).0 c' in
      elim (Bool-cases (has_rules (file_at dir))) [
        | inl t ↦ rw (e, t) (c', refl)
        | inr n ↦ rw (e, n) rest
      ]

  pub has_rules_in_chain-Answers :
      (dir : Text) (m : Matcher)
      → IsCoherent m
      → Answers (has_rules_in_chain glob read_ignore dir m) (chain_has_rules dir)
  unfolding has_rules_in_chain
  has_rules_in_chain-Answers dir m c = elim (Option-cases (lookup dir m.rule_chain_cache)) [
    | inl none_yet ↦
        let (c', e) = rules_loop-Answers (dir_chain dir) m c in
        rw none_yet (
          record {
            files = c'.files;
            chains = λ j b h. lookup_fresh dir j _ b _ chain_has_rules c'.chains e h;
          },
          e,
        )
    | inr (b, e) ↦ rw e (c, c.chains dir b e)
  ]

  pub files_loop-Answers :
      (dirs : List Text) (m : Matcher)
      → IsCoherent m
      → Answers (files_loop glob read_ignore dirs m) (any_of (λ d. is_file (file_at d)) dirs)
  unfolding files_loop
  files_loop-Answers [] m c = (c, refl)
  files_loop-Answers (dir ∷ dirs) m c =
      let (c', e) = load-Answers dir m c in
      let rest = files_loop-Answers dirs (load glob read_ignore dir m).0 c' in
      elim (Bool-cases (is_file (file_at dir))) [
        | inl t ↦ rw (e, t) (c', refl)
        | inr n ↦ rw (e, n) rest
      ]

  path_loop-Answers :
      (dirs : List Text) (rel : Text) (is_dir : Bool) (verdict : Bool × Text) (m : Matcher)
      → IsCoherent m
      → Answers
          (path_loop glob read_ignore dirs rel is_dir verdict m)
          (walk dirs rel is_dir verdict)
  unfolding path_loop walk
  path_loop-Answers [] rel is_dir verdict m c = (c, refl)
  path_loop-Answers (dir ∷ dirs) rel is_dir verdict m c =
      let (c', e) = load-Answers dir m c in
      rw (e, path_loop) (path_loop-Answers dirs rel is_dir _ (load glob read_ignore dir m).0 c')

  pub match_path-Answers :
      (rel : Text) (is_dir : Bool) (m : Matcher)
      → IsCoherent m
      → Answers (match_path glob read_ignore rel is_dir m) (path_verdict rel is_dir)
  unfolding match_path
  match_path-Answers rel is_dir m c =
      path_loop-Answers (ancestor_chain rel) rel is_dir (false, []) m c

  pub ancestor_loop-Answers :
      (dirs : List Text) (source : Text) (m : Matcher)
      → IsCoherent m
      → Answers (ancestor_loop glob read_ignore dirs source m) (nearest dirs source)
  unfolding ancestor_loop
  ancestor_loop-Answers [] source m c = (c, refl)
  ancestor_loop-Answers (dir ∷ dirs) source m c =
      let (c', e) = match_path-Answers dir true m c in
      let rest = ancestor_loop-Answers dirs source (match_path glob read_ignore dir true m).0 c' in
      elim (Bool-cases (path_verdict dir true).0) [
        | inl t ↦ rw (e, t) (c', refl)
        | inr n ↦ rw (e, n) rest
      ]
