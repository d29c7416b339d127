-- ===== src/Source/Discovery/Walker.antt =====
-- Discover of internal/source/source.go: the walk, and the order of its result.
use gruff_go.Base.{
  Bool, true, false, not, ◌&&◌, Option, none, some, List, [], ◌∷◌, ◌++◌, map, Text, text_eq,
  text_compare, has_prefix, sort_by, Ordering, if◌then◌else◌, codes,
}
use gruff_go.Source.Gitignore.{Matcher, new_matcher, parse_errors}
use gruff_go.Source.Discovery.Decide.{Options, IgnoreDecision, origin_gitignore, decide_ignore}
use gruff_go.Source.Discovery.Classify.{FileType, classify, generated_content}
use gruff_go.Source.Discovery.Files.{
  Attempt, Discovered, File, Node, Nodes, SkippedPath, Stat, System, Walker, a_directory,
  add_skipped, and_then, cons, directory, failed, file, generated_at, is_go, missing_path, nil, ok,
  plain_file, skipped_path, stat_error, unreadable,
}

module _ (os : System) (options : Options) (root_abs : Text) where
  abbrev pub shown : Option Text → Text → Text
  shown none path = os.to_slash path
  shown (some rel) path = if has_prefix rel (codes "..") then os.to_slash path else os.to_slash rel

  -- displayPath
  unfoldable pub display_path : Text → Text
  display_path path = shown (os.relative root_abs path) path

  abbrev pub decision_at : Text → Bool → Matcher → Matcher × IgnoreDecision
  decision_at rel is_dir m = decide_ignore os.clean os.glob os.read_ignore options rel is_dir m

  abbrev pub add_classified : Option FileType → Text → Discovered → Discovered
  add_classified none path r = r
  add_classified (some t) path r =
      if is_go t && (not options.include_ignored && generated_content (os.read_file path))
      then add_skipped (generated_at (display_path path)) r
      else record r {
        files =
            r.files ++ (record { path = display_path path; abs_path = path; file_type = t }) ∷ [];
      }

  -- addFile
  unfoldable pub add_file : Text → Discovered → Discovered
  add_file path r = add_classified (classify path) path r

  -- visitFile
  unfoldable pub visit_file : Text → Walker → Walker
  visit_file path w =
      let (m, d) = decision_at (display_path path) false w.matcher in
      record {
        matcher = m;
        result =
            if d.ignored
            then add_skipped (skipped_path d (display_path path)) w.result
            else add_file path w.result;
      }

  -- visitDir, with whether it returns filepath.SkipDir
  unfoldable pub visit_dir : Text → Walker → Walker × Bool
  visit_dir path w =
      let (m, d) = decision_at (display_path path) true w.matcher in
      (
        record {
          matcher = m;
          result =
              if d.ignored
              then add_skipped (skipped_path d (display_path path)) w.result
              else w.result;
        },
        d.ignored,
      )

  -- filepath.WalkDir with the function that visitInput passes
  unfoldable mutual
    pub walk_node : Node → Walker → Attempt Walker
    walk_node (file path) w = ok (visit_file path w)
    walk_node (directory path nodes) w =
        let (w', skip) = visit_dir path w in
        let below = walk_nodes nodes w' in if skip then ok w' else below

    pub walk_nodes : Nodes → Walker → Attempt Walker
    walk_nodes nil w = ok w
    walk_nodes (unreadable e) w = failed e
    walk_nodes (cons node nodes) w = and_then (walk_node node w) (λ w'. walk_nodes nodes w')

  -- The root of a walk is not visited itself if it is a directory.
  abbrev pub walk_root : Node → Walker → Attempt Walker
  walk_root (file path) w = ok (visit_file path w)
  walk_root (directory path nodes) w = walk_nodes nodes w

  abbrev pub visit_directory : Text → Node → Walker → Attempt Walker
  visit_directory path node w =
      if text_eq path (os.clean_path root_abs)
      then walk_root node w
      else let (w', skip) = visit_dir path w in
        let below = walk_root node w' in if skip then ok w' else below

  -- slashClean
  abbrev pub slash_clean : Text → Text
  slash_clean path = os.to_slash (os.clean_path path)

  abbrev pub visit_stat : Stat → Text → Text → Walker → Attempt Walker
  visit_stat missing_path input path w = ok (record w {
    result = record w.result { missing = w.result.missing ++ slash_clean input ∷ [] };
  })
  visit_stat (stat_error e) input path w = failed e
  visit_stat plain_file input path w = ok (visit_file path w)
  visit_stat (a_directory node) input path w = visit_directory (os.clean_path path) node w

  abbrev pub path_of : Text → Text
  path_of input = if os.is_abs input then input else os.join_paths root_abs input

  -- visitInput
  unfoldable pub visit_input : Text → Walker → Attempt Walker
  visit_input input w = visit_stat (os.stat (path_of input)) input (path_of input) w

  -- The loop of Discover.
  unfoldable pub visit_inputs : List Text → Walker → Attempt Walker
  visit_inputs [] w = ok w
  visit_inputs (input ∷ inputs) w = and_then (visit_input input w) (λ w'. visit_inputs inputs w')

abbrev pub parse_error_at : Text → SkippedPath
parse_error_at path = record {
  path = path;
  reason = codes "gitignore-parse-error";
  source = origin_gitignore;
  pattern = [];
}

-- flushParseErrors
unfoldable pub flush_parse_errors : Walker → Discovered
flush_parse_errors w = record w.result {
  skipped = w.result.skipped ++ map parse_error_at (parse_errors w.matcher.cache);
}

abbrev pub compare_files : File → File → Ordering
compare_files a b = text_compare a.path b.path

abbrev pub compare_skipped_paths : SkippedPath → SkippedPath → Ordering
compare_skipped_paths a b =
    if text_eq a.path b.path then text_compare a.reason b.reason else text_compare a.path b.path

abbrev pub same_file : File → File → Bool
same_file a b = text_eq a.path b.path

abbrev pub same_skipped : SkippedPath → SkippedPath → Bool
same_skipped a b =
    text_eq a.path b.path
    && (text_eq a.reason b.reason && (text_eq a.source b.source && text_eq a.pattern b.pattern))

-- The loops of dedupeFiles and dedupeSkipped after the first item: what equals the item before it
-- in the result goes.
unfoldable pub dedupe_loop : {A : Type 0} → (A → A → Bool) → A → List A → List A
dedupe_loop same previous [] = []
dedupe_loop same previous (x ∷ xs) =
    let kept = x ∷ dedupe_loop same x xs in
    let gone = dedupe_loop same previous xs in if same x previous then gone else kept

abbrev pub dedupe : {A : Type 0} → (A → A → Bool) → List A → List A
dedupe same [] = []
dedupe same (x ∷ xs) = x ∷ dedupe_loop same x xs

-- normalize
unfoldable pub normalize : Discovered → Discovered
normalize r = record {
  files = dedupe same_file (sort_by compare_files r.files);
  missing = dedupe text_eq (sort_by text_compare r.missing);
  skipped = dedupe same_skipped (sort_by compare_skipped_paths r.skipped);
}

abbrev pub nothing_found : Discovered
nothing_found = record { files = []; missing = []; skipped = [] }

abbrev pub here_if_empty : List Text → List Text
here_if_empty [] = codes "." ∷ []
here_if_empty (p ∷ paths) = p ∷ paths

-- Discover, for a context that is not cancelled
unfoldable pub discover : System → Options → Attempt Discovered
discover os options =
    and_then (os.absolute (if text_eq options.root [] then codes "." else options.root)) (λ root.
      and_then
        (visit_inputs os options root (here_if_empty options.paths)
          (record { matcher = new_matcher; result = nothing_found }))
        (λ w. ok (normalize (flush_parse_errors w))))
