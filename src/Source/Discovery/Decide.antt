-- ===== src/Source/Discovery/Decide.antt =====
-- decideIgnore and CheckIgnore of internal/source/source.go.
use gruff_go.Base.{
  Bool, true, false, not, ◌&&◌, ◌||◌, Option, none, some, List, [], ◌∷◌, Text, text_eq, has_prefix,
  ◌==◌, if◌then◌else◌, codes,
}
use gruff_go.Pathfilter.{first_match, is_letter}
use gruff_go.Source.Ignored.{
  always_ignored_dir, always_ignored_file, fallback_ignored_dir, fallback_ignored_file,
}
use gruff_go.Source.Gitignore.{Matcher, new_matcher, match_rel, has_gitignore_in_chain, parent_dir}

pub record Options : Type 0 where
  pub root : Text
  pub paths : List Text
  pub include_ignored : Bool
  pub ignore_patterns : List Text

pub record IgnoreDecision : Type 0 where
  pub ignored : Bool
  pub reason : Text
  pub source : Text
  pub pattern : Text

unfoldable pub origin_config : Text
origin_config = codes "config"

unfoldable pub origin_gitignore : Text
origin_gitignore = codes "gitignore"

unfoldable pub origin_default : Text
origin_default = codes "default"

unfoldable pub origin_generated : Text
origin_generated = codes "generated"

abbrev pub not_ignored : IgnoreDecision
not_ignored = record { ignored = false; reason = []; source = []; pattern = [] }

abbrev pub gitignored : IgnoreDecision
gitignored = record {
  ignored = true;
  reason = codes "gitignored";
  source = origin_gitignore;
  pattern = [];
}

abbrev pub config_ignored : Text → IgnoreDecision
config_ignored pattern = record {
  ignored = true;
  reason = codes "config-ignore";
  source = origin_config;
  pattern = pattern;
}

abbrev pub default_decision : Option Text → IgnoreDecision
default_decision none = not_ignored
default_decision (some reason) = record {
  ignored = true;
  reason = reason;
  source = origin_default;
  pattern = [];
}

-- hasWindowsDrivePrefix
unfoldable pub has_windows_drive_prefix : Text → Bool
has_windows_drive_prefix (c ∷ d ∷ e ∷ s) =
    is_letter c && ((d == b':') && ((e == b'/') || (e == 92)))
has_windows_drive_prefix _ = false

-- repoRelative
unfoldable pub repo_relative : Text → Bool
repo_relative rel =
    if text_eq rel [] || text_eq rel (codes ".")
    then false
    else if has_prefix rel (codes "/") || text_eq rel (codes "..") || has_prefix rel (codes "../")
    then false
    else not (has_windows_drive_prefix rel)

-- parentSlashDir
unfoldable pub parent_slash_dir : Text → Text
parent_slash_dir rel = if text_eq rel [] || text_eq rel (codes ".") then [] else parent_dir rel

-- path.Clean, path.Match and the .gitignore files are given.
module _ (glob : Text → Text → Option Bool) (read_ignore : Text → Option Text) where
  -- fallbackAppliesAt
  unfoldable pub fallback_applies_at : Text → Matcher → Matcher × Bool
  fallback_applies_at rel m =
      let (m', found) = has_gitignore_in_chain glob read_ignore (parent_slash_dir rel) m in
      (m', not found)

  -- The always-ignored names, and the fallback where it applies.
  abbrev pub by_name : Option Text → Option Text → Text → Matcher → Matcher × IgnoreDecision
  by_name (some reason) fallback rel m = (m, default_decision (some reason))
  by_name none fallback rel m =
      let (m', applies) = fallback_applies_at rel m in
      (m', if applies then default_decision fallback else not_ignored)

  abbrev pub by_default : Text → Bool → Matcher → Matcher × IgnoreDecision
  by_default rel true m = by_name (always_ignored_dir rel) (fallback_ignored_dir rel) rel m
  by_default rel false m = by_name (always_ignored_file rel) (fallback_ignored_file rel) rel m

module _ (clean : Text → Text) (glob : Text → Text → Option Bool) (read_ignore : Text → Option Text)
    (options : Options) where
  abbrev pub by_config : Option Text → Text → Bool → Matcher → Matcher × IgnoreDecision
  by_config (some pattern) rel is_dir m = (m, config_ignored pattern)
  by_config none rel is_dir m =
      if options.include_ignored then (m, not_ignored) else by_default glob read_ignore rel is_dir m

  abbrev pub configured : Text → Option Text
  configured rel = first_match clean glob options.ignore_patterns rel

  abbrev pub by_rules : Matcher × (Bool × Text) → Text → Bool → Matcher × IgnoreDecision
  by_rules (m, (true, source)) rel is_dir = (m, gitignored)
  by_rules (m, (false, source)) rel is_dir = by_config (configured rel) rel is_dir m

  -- decideIgnore
  unfoldable pub decide_ignore : Text → Bool → Matcher → Matcher × IgnoreDecision
  decide_ignore rel is_dir m =
      if not options.include_ignored && repo_relative rel
      then by_rules (match_rel glob read_ignore rel is_dir m) rel is_dir
      else by_config (configured rel) rel is_dir m

  -- CheckIgnore
  unfoldable pub check_ignore : Text → Bool → IgnoreDecision
  check_ignore rel is_dir = (decide_ignore rel is_dir new_matcher).1
