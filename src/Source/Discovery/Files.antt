-- ===== src/Source/Discovery/Files.antt =====
-- The data of discovery in internal/source/source.go, and of the file system that it walks.
use gruff_go.Base.{Bool, true, false, Option, List, [], ◌∷◌, ◌++◌, Text, codes}
use gruff_go.Source.Gitignore.{Matcher}
use gruff_go.Source.Discovery.Decide.{IgnoreDecision, origin_generated}
use gruff_go.Source.Discovery.Classify.{FileType, go_source, text_content}

pub record File : Type 0 where
  pub path : Text
  pub abs_path : Text
  pub file_type : FileType

pub record SkippedPath : Type 0 where
  pub path : Text
  pub reason : Text
  pub source : Text
  pub pattern : Text

-- Result
pub record Discovered : Type 0 where
  pub files : List File
  pub missing : List Text
  pub skipped : List SkippedPath

-- What filepath.WalkDir meets below a directory, in its order: a file, a directory with its
-- entries, or the error with which reading the entries fails.
mutual
  pub data Node : Type 0 where
    file : Text → Node
    directory : Text → Nodes → Node

  pub data Nodes : Type 0 where
    nil : Nodes
    unreadable : Text → Nodes
    cons : Node → Nodes → Nodes

-- os.Stat; for a directory, with what WalkDir meets at its path.
pub data Stat : Type 0 where
  missing_path : Stat
  stat_error : Text → Stat
  plain_file : Stat
  a_directory : Node → Stat

pub data Attempt (A : Type 0) : Type 0 where
  ok : A → Attempt A
  failed : Text → Attempt A

-- What the code uses of path, path/filepath and os.
pub record System : Type 0 where
  pub clean : Text → Text
  pub glob : Text → Text → Option Bool
  pub absolute : Text → Attempt Text
  pub is_abs : Text → Bool
  pub join_paths : Text → Text → Text
  pub clean_path : Text → Text
  pub relative : Text → Text → Option Text
  pub to_slash : Text → Text
  pub read_ignore : Text → Option Text
  pub read_file : Text → Option Text
  pub stat : Text → Stat

-- discoveryWalker, what changes of it
pub record Walker : Type 0 where
  pub matcher : Matcher
  pub result : Discovered

-- IgnoreDecision.skippedPath
abbrev pub skipped_path : IgnoreDecision → Text → SkippedPath
skipped_path d rel = record {
  path = rel;
  reason = d.reason;
  source = d.source;
  pattern = d.pattern;
}

abbrev pub add_skipped : SkippedPath → Discovered → Discovered
add_skipped item r = record r { skipped = r.skipped ++ item ∷ [] }

abbrev pub and_then : {A B : Type 0} → Attempt A → (A → Attempt B) → Attempt B
and_then (ok a) f = f a
and_then (failed e) f = failed e

abbrev pub is_go : FileType → Bool
is_go go_source = true
is_go text_content = false

abbrev pub generated_at : Text → SkippedPath
generated_at rel = record {
  path = rel;
  reason = codes "generated";
  source = origin_generated;
  pattern = [];
}
