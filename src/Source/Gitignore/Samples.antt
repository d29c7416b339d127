-- ===== src/Source/Gitignore/Samples.antt =====
-- Concrete .gitignore files for internal/source/gitignore.go.
use gruff_go.Base.{
  ◌≡◌, ◌≢◌, ◌↔◌, refl, Bool, true, false, Option, none, some, List, [], ◌∷◌, ◌++◌, map, Text,
  text_eq, split, join, has_prefix, has_suffix, trim_prefix, trim_suffix, contains_byte, lookup,
  insert, codes, All, if◌then◌else◌,
}
use gruff_go.Source.Gitignore.Parse.{
  IgnoreRule, backslashes, escaped, trim_loop, trim_unescaped_trailing_whitespace, unprefixed,
  segments_bad, finished_rule, parse_ignore_rule, trimmed_line, file_lines, parse_ignore_file,
}
use gruff_go.Source.Gitignore.Segments.{match_segments_at, float_loop, rule_match}
use gruff_go.Source.Gitignore.Chain.{
  prefixes, ancestor_chain, rel_path_from, join_ignore_path, dir_chain, before_last_slash,
  parent_dir,
}
use gruff_go.Source.Gitignore.Loaded.{
  new_matcher, rule_applies, apply_rules, load, rules_loop, has_rules_in_chain, path_loop,
  match_path, ancestor_loop, match_rel, match_relative,
}
use gruff_go.Source.Gitignore.Globs.{RuleMatches, rule_match_iff}
use gruff_go.Source.Gitignore.Cached.{new_matcher-IsCoherent}
use gruff_go.Source.Gitignore.Verdict.{match_all, verdict_at, match_all_lem}
use gruff_go.Source.Gitignore.Last.{decided, last_of, applies, rules_above, match_path_lem}
use gruff_go.Source.Gitignore.Below.{match_relative-below}
use gruff_go.Source.Gitignore.Valid.{IsValid, parse_ignore_file-IsValid}

-- A pattern is a name, "*" or the malformed "[".
abbrev glob : Text → Text → Option Bool
glob pattern name =
    if text_eq pattern (codes "[")
    then none
    else some (if text_eq pattern (codes "*") then true else text_eq pattern name)

-- /build/ and !keep.txt at the root, * in vendor
abbrev read_ignore : Text → Option Text
read_ignore dir =
    if text_eq dir []
    then some (codes "/build/" ++ 10 ∷ codes "!keep.txt" ++ 10 ∷ codes "a/[")
    else if text_eq dir (codes "vendor")
    then some (codes "*")
    else none

abbrev rule : IgnoreRule
rule = record {
  raw = codes "a/**/z";
  negation = false;
  dir_only = false;
  anchored = true;
  parts = codes "a" ∷ codes "**" ∷ codes "z" ∷ [];
}

rule_match_iff_example :
    (rule_match glob rule (codes "a/b/z") ≡ true)
    ↔ ((codes "a/b/z" ≢ []) × RuleMatches glob rule (codes "a/b/z"))
rule_match_iff_example = rule_match_iff glob rule (codes "a/b/z")

middle_skipped : rule_match glob rule (codes "a/b/z") ≡ true
unfolding rule_match match_segments_at text_eq split
middle_skipped = refl

abbrev queries : List (Text × Bool)
queries =
    (codes "build/keep.txt", false) ∷ (codes "vendor/x", false) ∷ (codes "/main.go", false) ∷ []

match_all_lem_example :
    match_all glob read_ignore queries new_matcher ≡ map (verdict_at glob read_ignore) queries
unfolding parent_dir before_last_slash trim_prefix has_prefix
match_all_lem_example = match_all_lem glob read_ignore queries (λ e. cc, (λ e. cc, (λ e. cc, tt)))

answers :
    match_all glob read_ignore queries new_matcher
    ≡ (true, codes ".gitignore") ∷ (true, codes "vendor/.gitignore") ∷ (false, []) ∷ []
unfolding match_all load rules_loop has_rules_in_chain path_loop match_path ancestor_loop match_rel
    lookup insert prefixes ancestor_chain rel_path_from join_ignore_path dir_chain before_last_slash
    parent_dir text_eq split join has_prefix has_suffix trim_prefix trim_suffix contains_byte
    backslashes escaped trim_loop trim_unescaped_trailing_whitespace unprefixed segments_bad
    finished_rule parse_ignore_rule trimmed_line file_lines parse_ignore_file match_segments_at
    float_loop rule_match rule_applies apply_rules
answers = refl

match_path_lem_example :
    (match_path glob read_ignore (codes "keep.txt") false new_matcher).1
    ≡ decided glob read_ignore
        (last_of
          (applies glob read_ignore (codes "keep.txt") false)
          (rules_above glob read_ignore (ancestor_chain (codes "keep.txt"))))
        (false, [])
match_path_lem_example =
    match_path_lem glob read_ignore (codes "keep.txt") false new_matcher
      (new_matcher-IsCoherent glob read_ignore)

build_ignored : (match_relative glob read_ignore (codes "build") true new_matcher).1.0 ≡ true
unfolding match_all load rules_loop has_rules_in_chain path_loop match_path ancestor_loop lookup
    insert prefixes ancestor_chain rel_path_from join_ignore_path dir_chain before_last_slash
    parent_dir text_eq split join has_prefix has_suffix trim_prefix trim_suffix contains_byte
    backslashes escaped trim_loop trim_unescaped_trailing_whitespace unprefixed segments_bad
    finished_rule parse_ignore_rule trimmed_line file_lines parse_ignore_file match_segments_at
    float_loop rule_match rule_applies apply_rules
build_ignored = refl

match_relative-below_example :
    (match_relative glob read_ignore
      (codes "build" ++ (b'/' ∷ codes "keep.txt"))
      false
      new_matcher).1.0
    ≡ true
unfolding parent_dir before_last_slash
match_relative-below_example =
    match_relative-below glob read_ignore (codes "build") (codes "keep.txt") false new_matcher
      (new_matcher-IsCoherent glob read_ignore) (λ e. cc) (λ e. cc) build_ignored

parse_ignore_file-IsValid_example :
    All (IsValid glob) (parse_ignore_file glob [] (codes "a/[")).rules
parse_ignore_file-IsValid_example = parse_ignore_file-IsValid glob [] (codes "a/[")
