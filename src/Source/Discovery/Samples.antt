-- ===== src/Source/Discovery/Samples.antt =====
-- A concrete tree for internal/source/source.go.
use gruff_go.Base.{
  ◌≡◌, ◌∷◌, ◌&&◌, ◌||◌, not, refl, Bool, true, false, Option, none, some, [], ◌++◌, Text, codes,
  drop, if◌then◌else◌, text_eq, text_compare, split, join, has_prefix, has_suffix, trim_prefix,
  trim_suffix, contains_byte, lookup, insert, insert_sorted, sort_by, trim_left, trim_space,
}
use gruff_go.Pathfilter.{count_recursive, matches_pattern, matches, first_match, matches_any}
use gruff_go.Source.Ignored.{
  vcs_reason, metadata_reason, dir_loop, file_loop, github_loop, github_metadata_decision,
  always_ignored_dir, always_ignored_file, fallback_loop, fallback_ignored_dir,
  fallback_ignored_file,
}
use gruff_go.Source.Gitignore.{
  backslashes, escaped, trim_loop, trim_unescaped_trailing_whitespace, unprefixed, segments_bad,
  finished_rule, parse_ignore_rule, trimmed_line, file_lines, parse_ignore_file, match_segments_at,
  float_loop, rule_match, prefixes, ancestor_chain, rel_path_from, join_ignore_path, dir_chain,
  before_last_slash, parent_dir, rule_applies, apply_rules, load, rules_loop, has_rules_in_chain,
  path_loop, match_path, ancestor_loop, match_rel, files_loop, has_gitignore_in_chain, parse_errors,
}
use gruff_go.Source.Discovery.Decide.{
  Options, check_ignore, origin_gitignore, origin_config, origin_default, has_windows_drive_prefix,
  repo_relative, parent_slash_dir, fallback_applies_at, decide_ignore,
}
use gruff_go.Source.Discovery.Classify.{
  go_source, contains_text, ext_loop, base_loop, classify, scanned, header_loop,
  has_generated_go_header,
}
use gruff_go.Source.Discovery.Files.{
  Node, file, directory, nil, cons, missing_path, a_directory, ok, System,
}
use gruff_go.Source.Discovery.Walker.{
  display_path, add_file, visit_file, visit_dir, walk_node, walk_nodes, visit_input, visit_inputs,
  flush_parse_errors, dedupe_loop, normalize, discover,
}
use gruff_go.Source.Discovery.Agreed.{default_of}
use gruff_go.Source.Discovery.Layers.{is_ruled_out, check_ignore-ignored}
use gruff_go.Source.Discovery.Found.{Includes, discover-Includes}
use gruff_go.Source.Discovery.Reachable.{
  here, first, readable_file, readable_dir, no_more, one_more,
}
use gruff_go.Source.Discovery.Accounted.{
  IsAccounted, discover-IsAccounted, IsOrdered, discover-IsIncreasing,
}

-- a.go, and b.go in out, which a rule ignores
abbrev tree : Node
tree = directory (codes "/r") (
    cons (file (codes "/r/a.go"))
      (cons (directory (codes "/r/out") (cons (file (codes "/r/out/b.go")) nil)) nil))

abbrev glob : Text → Text → Option Bool
glob pattern name = some (text_eq pattern name)

abbrev root_rules : Text → Option Text
root_rules dir = if text_eq dir [] then some (codes "out/") else none

abbrev os : System
os = record {
  clean = λ path. path;
  glob = glob;
  absolute = λ path. ok (codes "/r");
  is_abs = λ path. has_prefix path (codes "/");
  join_paths = λ root path. if text_eq path (codes ".") then root else root ++ b'/' ∷ path;
  clean_path = λ path. path;
  relative = λ root path. some (drop 3 path);
  to_slash = λ path. path;
  read_ignore = root_rules;
  read_file = λ path. some (codes "package a");
  stat = λ path. if text_eq path (codes "/r") then a_directory tree else missing_path;
}

abbrev options : Options
options = record {
  root = [];
  paths = [];
  include_ignored = false;
  ignore_patterns = codes "docs" ∷ [];
}

discover-IsAccounted_example : IsAccounted os options (ok (codes "/r")) (discover os options)
discover-IsAccounted_example = discover-IsAccounted os options

discover-IsIncreasing_example : IsOrdered os options (discover os options)
discover-IsIncreasing_example = discover-IsIncreasing os options

check_ignore-ignored_example :
    (check_ignore (λ path. path) glob root_rules options (codes "out") true).ignored ≡ (
      matches_any (λ path. path) glob options.ignore_patterns (codes "out")
      || (not options.include_ignored
          && (is_ruled_out (λ path. path) glob root_rules options (codes "out") true
              || (default_of glob root_rules (codes "out") true).ignored)))
check_ignore-ignored_example =
    check_ignore-ignored (λ path. path) glob root_rules options (codes "out") true

found :
    discover os options
    ≡ ok (record {
      files =
          (record { path = codes "a.go"; abs_path = codes "/r/a.go"; file_type = go_source }) ∷ [];
      missing = [];
      skipped =
          (record {
            path = codes "out";
            reason = codes "gitignored";
            source = codes "gitignore";
            pattern = [];
          })
          ∷ [];
    })
unfolding discover display_path add_file visit_file visit_dir walk_node walk_nodes visit_input
    visit_inputs flush_parse_errors dedupe_loop normalize contains_text ext_loop base_loop classify
    scanned header_loop has_generated_go_header origin_gitignore origin_config origin_default
    has_windows_drive_prefix repo_relative parent_slash_dir fallback_applies_at decide_ignore
    vcs_reason metadata_reason dir_loop file_loop github_loop github_metadata_decision
    always_ignored_dir always_ignored_file fallback_loop fallback_ignored_dir fallback_ignored_file
    count_recursive matches_pattern matches first_match backslashes escaped trim_loop
    trim_unescaped_trailing_whitespace unprefixed segments_bad finished_rule parse_ignore_rule
    trimmed_line file_lines parse_ignore_file match_segments_at float_loop rule_match prefixes
    ancestor_chain rel_path_from join_ignore_path dir_chain before_last_slash parent_dir
    rule_applies apply_rules load rules_loop has_rules_in_chain path_loop match_path ancestor_loop
    match_rel files_loop has_gitignore_in_chain parse_errors text_eq text_compare split join
    has_prefix has_suffix trim_prefix trim_suffix contains_byte lookup insert insert_sorted sort_by
    trim_left trim_space
found = refl

-- A file below a dependency directory is not reported, whereas the directory is.
vendored_file :
    (check_ignore (λ path. path) glob (λ dir. none) options (codes "vendor/x.go") false).ignored
    ≡ false
unfolding check_ignore origin_gitignore origin_config origin_default has_windows_drive_prefix
    repo_relative parent_slash_dir fallback_applies_at decide_ignore vcs_reason metadata_reason
    dir_loop file_loop github_loop github_metadata_decision always_ignored_dir always_ignored_file
    fallback_loop fallback_ignored_dir fallback_ignored_file count_recursive matches_pattern matches
    first_match prefixes ancestor_chain rel_path_from join_ignore_path dir_chain before_last_slash
    parent_dir rule_applies apply_rules load rules_loop has_rules_in_chain path_loop match_path
    ancestor_loop match_rel files_loop has_gitignore_in_chain text_eq split join has_prefix
    has_suffix trim_prefix trim_suffix contains_byte lookup insert
vendored_file = refl

vendored_dir :
    (check_ignore (λ path. path) glob (λ dir. none) options (codes "vendor") true).ignored ≡ true
unfolding check_ignore origin_gitignore origin_config origin_default has_windows_drive_prefix
    repo_relative parent_slash_dir fallback_applies_at decide_ignore vcs_reason metadata_reason
    dir_loop file_loop github_loop github_metadata_decision always_ignored_dir always_ignored_file
    fallback_loop fallback_ignored_dir fallback_ignored_file count_recursive matches_pattern matches
    first_match prefixes ancestor_chain rel_path_from join_ignore_path dir_chain before_last_slash
    parent_dir rule_applies apply_rules load rules_loop has_rules_in_chain path_loop match_path
    ancestor_loop match_rel files_loop has_gitignore_in_chain text_eq split join has_prefix
    has_suffix trim_prefix trim_suffix contains_byte lookup insert
vendored_dir = refl

discover-Includes_example : Includes os options (codes "/r") (codes "/r/a.go") (discover os options)
unfolding check_ignore display_path add_file visit_file visit_dir contains_text ext_loop base_loop
    classify scanned header_loop has_generated_go_header origin_gitignore origin_config
    origin_default has_windows_drive_prefix repo_relative parent_slash_dir fallback_applies_at
    decide_ignore vcs_reason metadata_reason dir_loop file_loop github_loop github_metadata_decision
    always_ignored_dir always_ignored_file fallback_loop fallback_ignored_dir fallback_ignored_file
    count_recursive matches_pattern matches first_match backslashes escaped trim_loop
    trim_unescaped_trailing_whitespace unprefixed segments_bad finished_rule parse_ignore_rule
    trimmed_line file_lines parse_ignore_file match_segments_at float_loop rule_match prefixes
    ancestor_chain rel_path_from join_ignore_path dir_chain before_last_slash parent_dir
    rule_applies apply_rules load rules_loop has_rules_in_chain path_loop match_path ancestor_loop
    match_rel files_loop has_gitignore_in_chain parse_errors text_eq split join has_prefix
    has_suffix trim_prefix trim_suffix contains_byte lookup insert trim_left trim_space
discover-Includes_example =
    discover-Includes os options (codes "/r") (codes "/r") (codes "/r/a.go") _ refl refl refl refl
      (one_more readable_file (one_more (readable_dir (one_more readable_file no_more)) no_more))
      (first here) (go_source, refl, refl, refl)
