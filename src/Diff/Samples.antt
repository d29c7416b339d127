-- ===== src/Diff/Samples.antt =====
-- Concrete patches, range lists and git runs for internal/diff/diff.go.
use gruff_go.Base.{
  Any, sort_by, ℕ, ◌≡◌, refl, ◌↔◌, true, false, ◌||◌, ◌&&◌, some, List, [], ◌∷◌, Text, codes,
  text_eq, text_key, nat_eq, contains, lookup, split, IsSorted, text_compare, All, any_of,
  if◌then◌else◌,
}
use gruff_go.Finding.{Finding}
use gruff_go.Diff.Changed.{add_lines, ChangedLines, refresh_changed_files, merge}
use gruff_go.Diff.Patch.{max_int, find_hunk, add_hunk_lines, parse, atoi_digits}
use gruff_go.Diff.Ranges.{range_loop, parse_range_set, lines, unending, parse_entry}
use gruff_go.Diff.Scope.{file_changed, matches_finding}
use gruff_go.Diff.Git.{
  GitRun, output, exit_error, done, git_diff, untracked_files, from_mode, working_tree, staged_args,
  unstaged_args,
}
use gruff_go.Diff.Merging.{covers, IsMap}
use gruff_go.Diff.Coverage.{covers-merge}
use gruff_go.Diff.Listing.{IsDistinct, refresh-changed_files}
use gruff_go.Diff.Hunks.{hunk_has, count_of, covers-add_hunk_lines}
use gruff_go.Diff.Panics.{parse_total}
use gruff_go.Diff.Entries.{IsFine, HasLine}
use gruff_go.Diff.RangeSets.{parse_range_set-lines}
use gruff_go.Diff.Modes.{from_mode-working_tree}
use gruff_go.Diff.Overlap.{InRegion, matches_finding_iff}

-- Lines 3 and 4 of a.go, and all of b.go.
abbrev change : ChangedLines
change = record {
  base = codes "main";
  lines_by_file = (codes "a.go", 3 ∷ 4 ∷ []) ∷ [];
  whole_files = codes "b.go" ∷ [];
  changed_files = [];
}

abbrev other_change : ChangedLines
other_change = record {
  base = codes "main";
  lines_by_file = (codes "b.go", 1 ∷ []) ∷ (codes "a.go", 9 ∷ []) ∷ [];
  whole_files = [];
  changed_files = [];
}

distinct_keys : All (λ c. IsMap c.lines_by_file) (change ∷ other_change ∷ [])
unfolding lookup text_eq
distinct_keys = ((refl, tt), ((refl, (refl, tt)), tt))

covers-merge_example :
    covers (merge (codes "main") (change ∷ other_change ∷ [])) (codes "a.go") 9
    ≡ any_of (λ c. covers c (codes "a.go") 9) (change ∷ other_change ∷ [])
covers-merge_example =
    covers-merge (codes "main") (change ∷ other_change ∷ []) (codes "a.go") 9 distinct_keys

whole_stays :
    contains (merge (codes "main") (change ∷ other_change ∷ [])).whole_files (codes "b.go") ≡ true
unfolding merge text_eq
whole_stays = refl

refresh-changed_files_example :
    ((f : Text)
      → contains (refresh_changed_files change).changed_files f
        ≡ file_changed (refresh_changed_files change) f)
    × IsDistinct (refresh_changed_files change).changed_files
    × IsSorted text_compare (refresh_changed_files change).changed_files
refresh-changed_files_example = refresh-changed_files change

abbrev hunk : Text
hunk = codes "@@ -8,0 +9,2 @@ func f() {"

hunk_found : find_hunk hunk ≡ some (codes "9", codes "2")
unfolding find_hunk
hunk_found = refl

abbrev hunk_added : ChangedLines
hunk_added = record change { lines_by_file = (codes "a.go", 10 ∷ 9 ∷ 3 ∷ 4 ∷ []) ∷ [] }

hunk_adds : add_hunk_lines change (codes "a.go") hunk ≡ some hunk_added
unfolding add_hunk_lines find_hunk text_eq max_int
hunk_adds = refl

not_whole : contains change.whole_files (codes "a.go") ≡ false
unfolding contains text_eq
not_whole = refl

covers-add_hunk_lines_example : covers hunk_added (codes "a.go") 10 ≡ (
    covers change (codes "a.go") 10
    || (text_eq (codes "a.go") (codes "a.go")
        && hunk_has (atoi_digits (codes "9")) (count_of (codes "2")) 10))
covers-add_hunk_lines_example =
    covers-add_hunk_lines change (codes "a.go") hunk (codes "9") (codes "2") hunk_added not_whole
      hunk_found hunk_adds (codes "a.go") 10

abbrev patch : Text
patch = codes "--- a/a.go\n+++ b/a.go\n@@ -1 +1,2 @@\n-x\n+y\n+z\n"

parse_total_example :
    (c : ChangedLines) × (parse (codes "main") patch ≡ some c) × IsMap c.lines_by_file
parse_total_example = parse_total (codes "main") patch

two_entries : parse_range_set (codes "3-4, 9") ≡ lines (9 ∷ 4 ∷ 3 ∷ [])
unfolding parse_range_set range_loop split parse_entry max_int add_lines
two_entries = refl

-- The greatest int: the loop over its lines never ends.
no_end : parse_range_set (codes "1-9223372036854775807") ≡ unending
unfolding parse_range_set range_loop split parse_entry max_int
no_end = refl

parse_range_set-lines_example :
    ((set : List ℕ) × (parse_range_set (codes "3-4, 9") ≡ lines set) × (contains set 4 ≡ true))
    ↔ (All IsFine (split b',' (codes "3-4, 9")) × Any (HasLine 4) (split b',' (codes "3-4, 9")))
parse_range_set-lines_example = parse_range_set-lines (codes "3-4, 9") 4

-- One untracked file, and the same patch from every diff.
abbrev git : List Text → GitRun
git [] = exit_error (codes "usage")
git (command ∷ args) =
    if text_eq command (codes "ls-files") then output (codes "new.go\n") else output patch

abbrev patched : ChangedLines
patched = record {
  base = working_tree;
  lines_by_file = (codes "a.go", 2 ∷ 1 ∷ []) ∷ [];
  whole_files = [];
  changed_files = codes "a.go" ∷ [];
}

staged_run : git_diff git working_tree staged_args [] ≡ done patched
unfolding git_diff text_eq max_int sort_by
staged_run = refl

unstaged_run : git_diff git working_tree unstaged_args [] ≡ done patched
unfolding git_diff text_eq max_int sort_by
unstaged_run = refl

untracked_run : untracked_files git [] ≡ done (codes "new.go" ∷ [])
unfolding untracked_files text_eq
untracked_run = refl

from_mode-working_tree_example :
    (c : ChangedLines) × (from_mode git [] [] ≡ done c)
    × ((f : Text) (n : ℕ)
        → covers c f n
          ≡ (covers patched f n || (covers patched f n || contains (codes "new.go" ∷ []) f)))
from_mode-working_tree_example =
    from_mode-working_tree git [] [] patched patched (codes "new.go" ∷ []) refl staged_run
      unstaged_run untracked_run

abbrev on_lines : ℕ → ℕ → Finding
on_lines line end_line = record {
  rule_id = codes "r";
  message = codes "m";
  file = codes "a.go";
  location = some (record { line = line; column = 1; end_line = end_line });
  symbol = [];
  severity = codes "error";
  confidence = codes "high";
  pillar = codes "size";
  secondary_pillars = [];
  tier = [];
  remediation = [];
  metadata = [];
  fingerprint = [];
  stable_identity = [];
}

matches_finding_iff_example :
    (matches_finding (on_lines 1 3) change ≡ true) ↔ InRegion (on_lines 1 3) change
matches_finding_iff_example = matches_finding_iff (on_lines 1 3) change
