-- ===== src/Source/Discovery/Layers.antt =====
-- The layers of decideIgnore in internal/source/source.go.
use gruff_go.Base.{
  ◌≡◌, refl, Bool, true, false, not, ◌&&◌, ◌||◌, Option, none, some, Text, if◌then◌else◌,
}
use gruff_go.Pathfilter.{is_match, matches_any}
use gruff_go.Source.Gitignore.{match_rel, new_matcher}
use gruff_go.Source.Discovery.Decide.{not_ignored, Options, repo_relative, configured, check_ignore}
use gruff_go.Source.Discovery.Agreed.{
  answer_of, default_of, config_of, rules_of, check_ignore_lem, match_rel-new_matcher,
}

module _ (clean : Text → Text) (glob : Text → Text → Option Bool) (read_ignore : Text → Option Text)
    (options : Options) where
  -- A rule of the repository's .gitignore files ignores the path.
  abbrev pub is_ruled_out : Text → Bool → Bool
  is_ruled_out rel is_dir =
      repo_relative rel && (match_rel glob read_ignore rel is_dir new_matcher).1.0

  config_of-ignored :
      (o : Option Text) (rel : Text) (is_dir : Bool)
      → (config_of clean glob read_ignore options o rel is_dir).ignored ≡ (
          is_match clean glob o
          || (not options.include_ignored && (default_of glob read_ignore rel is_dir).ignored))
  config_of-ignored (some pattern) rel is_dir = refl
  config_of-ignored none rel is_dir = by_flag options.include_ignored
    where
      by_flag :
          (b : Bool)
          → (if b then not_ignored else default_of glob read_ignore rel is_dir).ignored
            ≡ (false || (not b && (default_of glob read_ignore rel is_dir).ignored))
      by_flag true = refl
      by_flag false = refl

  layers :
      (included relative : Bool) (v : Bool × Text) (rel : Text) (is_dir m d : Bool)
      → (config_of clean glob read_ignore options
          (configured clean glob read_ignore options rel)
          rel
          is_dir).ignored
        ≡ (m || (not included && d))
      → (if not included && relative
          then rules_of clean glob read_ignore options v rel is_dir
          else config_of clean glob read_ignore options
              (configured clean glob read_ignore options rel)
              rel
              is_dir).ignored
        ≡ (m || (not included && ((relative && v.0) || d)))
  layers true relative v rel is_dir m d e = e
  layers false false v rel is_dir m d e = e
  layers false true (true, source) rel is_dir true d e = refl
  layers false true (true, source) rel is_dir false d e = refl
  layers false true (false, source) rel is_dir m d e = e

  -- check-ignore reports a path exactly if a pattern of the configuration matches it or, unless ignored
  -- files are included, a rule of a .gitignore or the path's own name rules it out. So the patterns
  -- of the configuration hold in every mode, and are all that holds where ignored files are included.
  pub check_ignore-ignored :
      (rel : Text) (is_dir : Bool)
      → (check_ignore clean glob read_ignore options rel is_dir).ignored ≡ (
          matches_any clean glob options.ignore_patterns rel
          || (not options.include_ignored
              && (is_ruled_out rel is_dir || (default_of glob read_ignore rel is_dir).ignored)))
  unfolding matches_any
  check_ignore-ignored rel is_dir =
      rw
        (
          check_ignore_lem clean glob read_ignore options rel is_dir,
          match_rel-new_matcher glob read_ignore rel is_dir,
        )
        (layers options.include_ignored (repo_relative rel) (answer_of glob read_ignore _ is_dir)
          rel is_dir _ _
          (config_of-ignored (configured clean glob read_ignore options rel) rel is_dir))
