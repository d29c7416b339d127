-- ===== src/Source/Discovery/Agreed.antt =====
-- Discovery and check-ignore, of internal/source/source.go, decide alike.
use gruff_go.Base.{
  ◌≡◌, refl, sym, ◌∙◌, inl, inr, Bool, true, false, not, ◌&&◌, ◌||◌, Option, none, some, [], Text,
  text_eq, any_of, trim_prefix, if◌then◌else◌, codes, Bool-cases,
}
use gruff_go.Source.Ignored.{
  always_ignored_dir, always_ignored_file, fallback_ignored_dir, fallback_ignored_file,
}
use gruff_go.Source.Gitignore.{
  Matcher, new_matcher, is_file, dir_chain, parent_dir, match_rel, match_path, after_chain,
  has_gitignore_in_chain,
}
use gruff_go.Source.Gitignore.Cached.{
  file_at, chain_has_rules, path_verdict, or_above, IsCoherent, Answers, new_matcher-IsCoherent,
  has_rules_in_chain-Answers, match_path-Answers, files_loop-Answers,
}
use gruff_go.Source.Gitignore.Verdict.{after_path-Answers}
use gruff_go.Source.Discovery.Decide.{
  Options, IgnoreDecision, not_ignored, gitignored, default_decision, config_ignored, repo_relative,
  parent_slash_dir, fallback_applies_at, by_name, by_default, by_config, configured, by_rules,
  decide_ignore, check_ignore,
}

module _ (glob : Text → Text → Option Bool) (read_ignore : Text → Option Text) where
  abbrev pub if_ruled : Bool → Bool × Text → Bool × Text
  if_ruled true v = v
  if_ruled false v = (false, [])

  -- Match, with no cache
  abbrev pub answer_of : Text → Bool → Bool × Text
  answer_of rel is_dir =
      if text_eq rel [] || text_eq rel (codes ".")
      then (false, [])
      else if_ruled (chain_has_rules glob read_ignore (parent_dir rel))
          (or_above glob read_ignore (path_verdict glob read_ignore rel is_dir) rel)

  chain-Answers :
      (out : Matcher × Bool) (b : Bool) (rel : Text) (is_dir : Bool)
      → Answers glob read_ignore out b
      → Answers glob read_ignore
          (after_chain glob read_ignore out rel is_dir)
          (if_ruled b (or_above glob read_ignore (path_verdict glob read_ignore rel is_dir) rel))
  chain-Answers (m, false) b rel is_dir (c, e) = (c, rw (← e) refl)
  chain-Answers (m, true) b rel is_dir (c, e) = rw (← e) (
      after_path-Answers glob read_ignore (match_path glob read_ignore rel is_dir m) _ rel
        (match_path-Answers glob read_ignore rel is_dir m c))

  match_rel-Answers :
      (rel : Text) (is_dir : Bool) (m : Matcher)
      → IsCoherent glob read_ignore m
      → Answers glob read_ignore
          (match_rel glob read_ignore rel is_dir m)
          (answer_of (trim_prefix rel (codes "/")) is_dir)
  unfolding match_rel
  match_rel-Answers rel is_dir m c =
      let r = trim_prefix rel (codes "/") in
      elim (Bool-cases (text_eq r [] || text_eq r (codes "."))) [
        | inl t ↦ rw t (c, refl)
        | inr n ↦ rw n (
            chain-Answers _ _ r is_dir
              (has_rules_in_chain-Answers glob read_ignore (parent_dir r) m c))
      ]

  pub match_rel-new_matcher :
      (rel : Text) (is_dir : Bool)
      → (match_rel glob read_ignore rel is_dir new_matcher).1
        ≡ answer_of (trim_prefix rel (codes "/")) is_dir
  match_rel-new_matcher rel is_dir =
      (match_rel-Answers rel is_dir new_matcher (new_matcher-IsCoherent glob read_ignore)).1

  abbrev pub applies_at : Text → Bool
  applies_at rel =
      not (any_of (λ d. is_file (file_at glob read_ignore d)) (dir_chain (parent_slash_dir rel)))

  -- The always-ignored names and the fallback, with no cache
  abbrev pub name_decision : Option Text → Option Text → Text → IgnoreDecision
  name_decision (some reason) fallback rel = default_decision (some reason)
  name_decision none fallback rel =
      if applies_at rel then default_decision fallback else not_ignored

  by_name-Answers :
      (named fallback : Option Text) (rel : Text) (m : Matcher)
      → IsCoherent glob read_ignore m
      → Answers glob read_ignore
          (by_name glob read_ignore named fallback rel m)
          (name_decision named fallback rel)
  unfolding fallback_applies_at has_gitignore_in_chain
  by_name-Answers (some reason) fallback rel m c = (c, refl)
  by_name-Answers none fallback rel m c =
      let (c', e) = files_loop-Answers glob read_ignore (dir_chain (parent_slash_dir rel)) m c in
      (c', rw e refl)

  abbrev pub default_of : Text → Bool → IgnoreDecision
  default_of rel true = name_decision (always_ignored_dir rel) (fallback_ignored_dir rel) rel
  default_of rel false = name_decision (always_ignored_file rel) (fallback_ignored_file rel) rel

  by_default-Answers :
      (rel : Text) (is_dir : Bool) (m : Matcher)
      → IsCoherent glob read_ignore m
      → Answers glob read_ignore (by_default glob read_ignore rel is_dir m) (default_of rel is_dir)
  by_default-Answers rel true m c = by_name-Answers (always_ignored_dir rel) _ rel m c
  by_default-Answers rel false m c = by_name-Answers (always_ignored_file rel) _ rel m c

module _ (clean : Text → Text) (glob : Text → Text → Option Bool) (read_ignore : Text → Option Text)
    (options : Options) where
  abbrev pub config_of : Option Text → Text → Bool → IgnoreDecision
  config_of (some pattern) rel is_dir = config_ignored pattern
  config_of none rel is_dir =
      if options.include_ignored then not_ignored else default_of glob read_ignore rel is_dir

  by_config-Answers :
      (found : Option Text) (rel : Text) (is_dir : Bool) (m : Matcher)
      → IsCoherent glob read_ignore m
      → Answers glob read_ignore
          (by_config clean glob read_ignore options found rel is_dir m)
          (config_of found rel is_dir)
  by_config-Answers (some pattern) rel is_dir m c = (c, refl)
  by_config-Answers none rel is_dir m c = elim (Bool-cases options.include_ignored) [
    | inl t ↦ rw t (c, refl)
    | inr n ↦ rw n (by_default-Answers glob read_ignore rel is_dir m c)
  ]

  abbrev pub rules_of : Bool × Text → Text → Bool → IgnoreDecision
  rules_of (true, source) rel is_dir = gitignored
  rules_of (false, source) rel is_dir =
      config_of (configured clean glob read_ignore options rel) rel is_dir

  by_rules-Answers :
      (out : Matcher × (Bool × Text)) (v : Bool × Text) (rel : Text) (is_dir : Bool)
      → Answers glob read_ignore out v
      → Answers glob read_ignore
          (by_rules clean glob read_ignore options out rel is_dir)
          (rules_of v rel is_dir)
  by_rules-Answers (m, (true, source)) v rel is_dir (c, e) = (c, rw (← e) refl)
  by_rules-Answers (m, (false, source)) v rel is_dir (c, e) =
      rw (← e) (by_config-Answers (configured clean glob read_ignore options rel) rel is_dir m c)

  -- decideIgnore, with no cache: the order of the layers is that of the source.
  abbrev pub decision : Text → Bool → IgnoreDecision
  decision rel is_dir =
      if not options.include_ignored && repo_relative rel
      then rules_of (answer_of glob read_ignore (trim_prefix rel (codes "/")) is_dir) rel is_dir
      else config_of (configured clean glob read_ignore options rel) rel is_dir

  decide_ignore-decision :
      (rel : Text) (is_dir : Bool) (m : Matcher)
      → IsCoherent glob read_ignore m
      → Answers glob read_ignore
          (decide_ignore clean glob read_ignore options rel is_dir m)
          (decision rel is_dir)
  unfolding decide_ignore
  decide_ignore-decision rel is_dir m c =
      elim (Bool-cases (not options.include_ignored && repo_relative rel)) [
        | inl t ↦ rw t (
            by_rules-Answers (match_rel glob read_ignore rel is_dir m) _ rel is_dir
              (match_rel-Answers glob read_ignore rel is_dir m c))
        | inr n ↦
            rw n (by_config-Answers (configured clean glob read_ignore options rel) rel is_dir m c)
      ]

  pub check_ignore_lem :
      (rel : Text) (is_dir : Bool)
      → check_ignore clean glob read_ignore options rel is_dir ≡ decision rel is_dir
  unfolding check_ignore
  check_ignore_lem rel is_dir =
      (decide_ignore-decision rel is_dir new_matcher (new_matcher-IsCoherent glob read_ignore)).1

  -- In a walk, whatever it has cached, a path is decided as check-ignore decides it.
  pub decide_ignore-Answers :
      (rel : Text) (is_dir : Bool) (m : Matcher)
      → IsCoherent glob read_ignore m
      → Answers glob read_ignore
          (decide_ignore clean glob read_ignore options rel is_dir m)
          (check_ignore clean glob read_ignore options rel is_dir)
  decide_ignore-Answers rel is_dir m c =
      let (c', e) = decide_ignore-decision rel is_dir m c in
      (c', e ∙ sym (check_ignore_lem rel is_dir))
