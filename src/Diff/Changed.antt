-- ===== src/Diff/Changed.antt =====
-- ChangedLines of internal/diff/diff.go and the functions that build and merge it. A line set is a
-- list without repetition, LinesByFile a list of pairs. Paths are separated by slashes, so
-- filepath.ToSlash leaves them as they are.
use gruff_go.Base.{
  ℕ, Option, none, some, List, [], ◌∷◌, Text, text_key, nat_eq, text_compare, sort_by, contains,
  set_insert, lookup, insert, remove, if◌then◌else◌,
}

abbrev pub LineMap : Type 0
LineMap = List (Text × List ℕ)

pub record ChangedLines : Type 0 where
  pub base : Text
  pub lines_by_file : LineMap
  pub whole_files : List Text
  pub changed_files : List Text

abbrev pub nothing_changed : Text → ChangedLines
nothing_changed base = record {
  base = base;
  lines_by_file = [];
  whole_files = [];
  changed_files = [];
}

-- The two loops that fill `seen` in refreshChangedFiles.
unfoldable pub seen_files : List Text → List Text → List Text
unfolding set_insert contains
seen_files [] seen = seen
seen_files (file ∷ files) seen = seen_files files (set_insert file seen)

abbrev pub line_files : LineMap → List Text
line_files [] = []
line_files ((file, _) ∷ m) = file ∷ line_files m

-- refreshChangedFiles
unfoldable pub refresh_changed_files : ChangedLines → ChangedLines
unfolding seen_files
refresh_changed_files c = record c {
  changed_files =
      sort_by text_compare (seen_files c.whole_files (seen_files (line_files c.lines_by_file) []));
}

-- Add lines to a set, as both copyLineSet and the innermost loop of Merge do.
unfoldable pub add_lines : List ℕ → List ℕ → List ℕ
unfolding set_insert contains
add_lines [] set = set
add_lines (line ∷ lines) set = add_lines lines (set_insert line set)

-- copyLineSet
unfoldable pub copy_line_set : List ℕ → List ℕ
copy_line_set lines = add_lines lines []

-- WholeFiles
unfoldable pub whole_files_of : Text → List Text → ChangedLines
unfolding refresh_changed_files
whole_files_of base files =
    refresh_changed_files (record (nothing_changed base) { whole_files = seen_files files [] })

-- The first loop of Merge over one set: whole files win over line sets.
unfoldable pub merge_whole : List Text → ChangedLines → ChangedLines
unfolding remove
merge_whole [] merged = merged
merge_whole (file ∷ files) merged = merge_whole files (record merged {
  whole_files = set_insert file merged.whole_files;
  lines_by_file = remove file merged.lines_by_file;
})

abbrev pub lines_or_empty : Option (List ℕ) → List ℕ
lines_or_empty none = []
lines_or_empty (some lines) = lines

-- The body of Merge's second loop: one file of one set.
unfoldable pub merge_file : Text → List ℕ → ChangedLines → ChangedLines
unfolding contains lookup insert
merge_file file lines merged = if contains merged.whole_files file then merged else record merged {
  lines_by_file =
      insert file (add_lines lines (lines_or_empty (lookup file merged.lines_by_file)))
        merged.lines_by_file;
}

-- The second loop of Merge over one set.
unfoldable pub merge_lines : LineMap → ChangedLines → ChangedLines
unfolding merge_file
merge_lines [] merged = merged
merge_lines ((file, lines) ∷ m) merged = merge_lines m (merge_file file lines merged)

unfoldable pub merge_sets : List ChangedLines → ChangedLines → ChangedLines
unfolding merge_whole merge_lines
merge_sets [] merged = merged
merge_sets (c ∷ cs) merged =
    merge_sets cs (merge_lines c.lines_by_file (merge_whole c.whole_files merged))

-- Merge
unfoldable pub merge : Text → List ChangedLines → ChangedLines
unfolding merge_sets refresh_changed_files
merge base sets = refresh_changed_files (merge_sets sets (nothing_changed base))
