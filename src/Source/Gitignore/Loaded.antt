-- ===== src/Source/Gitignore/Loaded.antt =====
-- The Matcher of internal/source/gitignore.go: files that are read once, and the walk over their rules.
use gruff_go.Base.{
  Bool, true, false, not, ◌&&◌, ◌||◌, Option, none, some, List, [], ◌∷◌, ◌++◌, map, Text, text_key,
  text_eq, trim_prefix, split, lookup, insert, if◌then◌else◌, codes,
}
use mathlib.Core.List.{reverse}
use gruff_go.Source.Ignored.{without_last}
use gruff_go.Source.Gitignore.Parse.{IgnoreRule, IgnoreFile, parse_ignore_file}
use gruff_go.Source.Gitignore.Segments.{is_nil, rule_match}
use gruff_go.Source.Gitignore.Chain.{
  prefixes, joined, ancestor_chain, dir_chain, parent_dir, rel_path_from, join_ignore_path,
}

-- A key of cache without a file has the nil pointer.
pub record Matcher : Type 0 where
  pub cache : List (Text × Option IgnoreFile)
  pub rule_chain_cache : List (Text × Bool)

-- NewMatcher
abbrev pub new_matcher : Matcher
new_matcher = record { cache = []; rule_chain_cache = [] }

abbrev pub ignore_name : Text
ignore_name = codes ".gitignore"

abbrev pub has_rules : Option IgnoreFile → Bool
has_rules none = false
has_rules (some file) = not (is_nil file.rules)

abbrev pub is_file : Option IgnoreFile → Bool
is_file none = false
is_file (some file) = true

-- The ancestors strings.Join(parts[:i], "/") for i from len(parts)-1 down to 1.
abbrev pub ancestors : Text → List Text
ancestors rel = reverse (map joined (prefixes (without_last (split b'/' rel))))

module _ (glob : Text → Text → Option Bool) where
  abbrev pub file_of : Text → Option Text → Option IgnoreFile
  file_of dir none = none
  file_of dir (some text) = some (parse_ignore_file glob dir text)

  -- The rule passes the tests of matchPath's inner loop.
  unfoldable pub rule_applies : IgnoreRule → Text → Bool → Bool
  rule_applies rule rels is_dir = not (rule.dir_only && not is_dir) && rule_match glob rule rels

  -- The inner loop of matchPath, with its variables matched and source.
  unfoldable pub apply_rules : List IgnoreRule → Text → Text → Bool → Bool × Text → Bool × Text
  apply_rules [] dir rels is_dir verdict = verdict
  apply_rules (rule ∷ rules) dir rels is_dir verdict = apply_rules rules dir rels is_dir (
      if rule_applies rule rels is_dir
      then (not rule.negation, join_ignore_path dir ignore_name)
      else verdict)

  abbrev pub apply_file : Option IgnoreFile → Text → Text → Bool → Bool × Text → Bool × Text
  apply_file none dir rel is_dir verdict = verdict
  apply_file (some file) dir rel is_dir verdict =
      apply_rules file.rules dir (rel_path_from dir rel) is_dir verdict

-- os.ReadFile is given, at the .gitignore of a directory of the root, without its error.
module _ (glob : Text → Text → Option Bool) (read_ignore : Text → Option Text) where
  abbrev pub loaded : Option (Option IgnoreFile) → Text → Matcher → Matcher × Option IgnoreFile
  loaded (some existing) dir m = (m, existing)
  loaded none dir m =
      let file = file_of glob dir (read_ignore dir) in
      (record m { cache = insert dir file m.cache }, file)

  -- load
  unfoldable pub load : Text → Matcher → Matcher × Option IgnoreFile
  load dir m = loaded (lookup dir m.cache) dir m

  -- The loop of hasRulesInChain.
  unfoldable pub rules_loop : List Text → Matcher → Matcher × Bool
  rules_loop [] m = (m, false)
  rules_loop (dir ∷ dirs) m =
      let (m', file) = load dir m in
      let rest = rules_loop dirs m' in if has_rules file then (m', true) else rest

  abbrev pub chain_checked : Option Bool → Text → Matcher → Matcher × Bool
  chain_checked (some value) dir m = (m, value)
  chain_checked none dir m =
      let (m', found) = rules_loop (dir_chain dir) m in
      (record m' { rule_chain_cache = insert dir found m'.rule_chain_cache }, found)

  -- hasRulesInChain
  unfoldable pub has_rules_in_chain : Text → Matcher → Matcher × Bool
  has_rules_in_chain dir m = chain_checked (lookup dir m.rule_chain_cache) dir m

  unfoldable pub files_loop : List Text → Matcher → Matcher × Bool
  files_loop [] m = (m, false)
  files_loop (dir ∷ dirs) m =
      let (m', file) = load dir m in
      let rest = files_loop dirs m' in if is_file file then (m', true) else rest

  -- HasGitignoreInChain
  unfoldable pub has_gitignore_in_chain : Text → Matcher → Matcher × Bool
  has_gitignore_in_chain dir m = files_loop (dir_chain dir) m

  unfoldable pub path_loop :
      List Text → Text → Bool → Bool × Text → Matcher → Matcher × (Bool × Text)
  path_loop [] rel is_dir verdict m = (m, verdict)
  path_loop (dir ∷ dirs) rel is_dir verdict m =
      let (m', file) = load dir m in
      path_loop dirs rel is_dir (apply_file glob file dir rel is_dir verdict) m'

  -- matchPath
  unfoldable pub match_path : Text → Bool → Matcher → Matcher × (Bool × Text)
  match_path rel is_dir m = path_loop (ancestor_chain rel) rel is_dir (false, []) m

  -- The loop of Match over the ancestors, from the nearest one on.
  unfoldable pub ancestor_loop : List Text → Text → Matcher → Matcher × (Bool × Text)
  ancestor_loop [] source m = (m, (false, source))
  ancestor_loop (ancestor ∷ ancestors) source m =
      let (m', verdict) = match_path ancestor true m in
      let rest = ancestor_loop ancestors source m' in if verdict.0 then (m', verdict) else rest

  abbrev pub after_path : Matcher × (Bool × Text) → Text → Matcher × (Bool × Text)
  after_path (m, (true, source)) rel = (m, (true, source))
  after_path (m, (false, source)) rel = ancestor_loop (ancestors rel) source m

  abbrev pub after_chain : Matcher × Bool → Text → Bool → Matcher × (Bool × Text)
  after_chain (m, false) rel is_dir = (m, (false, []))
  after_chain (m, true) rel is_dir = after_path (match_path rel is_dir m) rel

  abbrev pub match_relative : Text → Bool → Matcher → Matcher × (Bool × Text)
  match_relative rel is_dir m =
      if text_eq rel [] || text_eq rel (codes ".")
      then (m, (false, []))
      else after_chain (has_rules_in_chain (parent_dir rel) m) rel is_dir

  -- Match
  unfoldable pub match_rel : Text → Bool → Matcher → Matcher × (Bool × Text)
  match_rel rel is_dir m = match_relative (trim_prefix rel (codes "/")) is_dir m

abbrev pub error_path : {E : Type 0} → Text → Option E → List Text
error_path dir none = []
error_path dir (some e) = join_ignore_path dir ignore_name ∷ []

-- ParseErrors, in the order of the list; the order of a Go map is not fixed.
unfoldable pub parse_errors : List (Text × Option IgnoreFile) → List Text
parse_errors [] = []
parse_errors ((dir, none) ∷ cache) = parse_errors cache
parse_errors ((dir, some file) ∷ cache) = error_path dir file.err ++ parse_errors cache
