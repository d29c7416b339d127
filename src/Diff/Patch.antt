-- ===== src/Diff/Patch.antt =====
-- Parse of internal/diff/diff.go: a unified diff, line by line, into a change.
use gruff_go.Base.{
  ℕ, zero, suc, ◌+◌, ◌*◌, ◌-◌, ◌%◌, Bool, true, false, not, trim_space, ◌||◌, ◌&&◌, Option, none,
  some, List, [], ◌∷◌, Text, codes, text_key, nat_eq, text_eq, has_prefix, trim_prefix, split,
  contains, set_insert, lookup, insert, if◌then◌else◌, ltb, leb, ◌==◌,
}
use gruff_go.Finding.{is_digit, is_empty}
use gruff_go.Diff.Changed.{ChangedLines, add_lines, nothing_changed, refresh_changed_files}

-- patchParseState
pub record PatchParseState : Type 0 where
  pub current_file : Text
  pub new_file : Bool

-- The greatest int, which strconv.Atoi gives for digits that stand for more.
unfoldable pub max_int : ℕ
max_int = 9223372036854775807

abbrev pub digit_value : ℕ → ℕ
digit_value c = c - b'0'

unfoldable pub digits_value : ℕ → Text → ℕ
digits_value acc [] = acc
digits_value acc (c ∷ s) = digits_value (acc * 10 + digit_value c) s

-- strconv.Atoi of a run of digits, its range error ignored
unfoldable pub atoi_digits : Text → ℕ
unfolding digits_value
atoi_digits s = let n = digits_value 0 s in if leb n max_int then n else max_int

-- \d+ takes as many digits as there are: the run, and what follows it.
unfoldable pub span_digits : Text → Text × Text
span_digits [] = ([], [])
span_digits (c ∷ s) =
    let (run, rest) = span_digits s in if is_digit c then (c ∷ run, rest) else ([], c ∷ s)

abbrev pub expect : Text → Text → Option Text
expect p s = if has_prefix s p then some (trim_prefix s p) else none

abbrev pub some_digits : Text → Option (Text × Text)
some_digits s = let (run, rest) = span_digits s in if is_empty run then none else some (run, rest)

infixl 5 ◌>>=◌
abbrev ◌>>=◌ : {A B : Type 0} → Option A → (A → Option B) → Option B
none >>= f = none
some a >>= f = f a

-- (?:,(\d+))? : the digits are empty where the group is absent. A comma with no digit behind it is
-- left for what follows, which then fails.
abbrev comma_digits : Text → Text × Text
comma_digits s = elim (expect (codes ",") s >>= some_digits) [ none ↦ ([], s) | some both ↦ both ]

-- hunkPattern at the start of a text: the two captured groups.
unfoldable pub hunk_at : Text → Option (Text × Text)
unfolding span_digits has_prefix trim_prefix
hunk_at s = do
  s1 ← expect (codes "@@ -") s
  (old, s2) ← some_digits s1
  let (_, s3) = comma_digits s2
  s4 ← expect (codes " +") s3
  (start, s5) ← some_digits s4
  let (count, s6) = comma_digits s5
  end ← expect (codes " @@") s6
  some (start, count)

-- FindStringSubmatch: the leftmost match.
unfoldable pub find_hunk : Text → Option (Text × Text)
unfolding hunk_at
find_hunk [] = none
find_hunk (c ∷ s) =
    let later = find_hunk s in elim (hunk_at (c ∷ s)) [ none ↦ later | some groups ↦ some groups ]

-- parseNewFile
unfoldable pub parse_new_file : Text → Text
unfolding trim_prefix has_prefix trim_space
parse_new_file line =
    let path = trim_space (trim_prefix line (codes "+++ ")) in
    if text_eq path (codes "/dev/null")
    then []
    else if has_prefix path (codes "b/")
    then trim_prefix path (codes "b/")
    else path

-- markParsedFile
unfoldable pub mark_parsed_file : ChangedLines → Text → Bool → ChangedLines
unfolding lookup insert set_insert
mark_parsed_file result file new_file =
    if is_empty file
    then result
    else if new_file
    then record result { whole_files = set_insert file result.whole_files }
    else elim (lookup file result.lines_by_file) [
      | some _ ↦ result
      | none ↦ record result { lines_by_file = insert file [] result.lines_by_file }
    ]

-- The lines that a hunk header adds: `count` lines from `start`, or the anchor of a pure deletion.
abbrev pub counted_lines : ℕ → ℕ → List ℕ
counted_lines start zero = []
counted_lines start (suc n) = start ∷ counted_lines (start + 1) n

-- An int has 64 bits, and a sum of two wraps around. A number from 2 ^ 63 on stands for the negative
-- int with these bits; no finding has such a line.
abbrev pub wrapped : List ℕ → List ℕ
wrapped [] = []
wrapped (n ∷ lines) = (n % 18446744073709551616) ∷ wrapped lines

unfoldable pub hunk_lines : Text → Text → List ℕ
unfolding atoi_digits
hunk_lines start_digits count_digits =
    let start = atoi_digits start_digits in
    let count = if is_empty count_digits then 1 else atoi_digits count_digits in
    if count == 0
    then (if ltb start 1 then 1 else start) ∷ []
    else wrapped (counted_lines start count)

-- addHunkLines. A write to a missing line set panics, and is none.
unfoldable pub add_hunk_lines : ChangedLines → Text → Text → Option ChangedLines
unfolding find_hunk hunk_lines lookup insert add_lines contains
add_hunk_lines result file line =
    if contains result.whole_files file then some result else elim (find_hunk line) [
      | none ↦ some result
      | some (start, count) ↦ elim (lookup file result.lines_by_file) [
        | none ↦ none
        | some lines ↦ some (record result {
          lines_by_file =
              insert file (add_lines (hunk_lines start count) lines) result.lines_by_file;
        })
      ]
    ]

-- parsePatchLine
unfoldable pub parse_patch_line :
    ChangedLines → PatchParseState → Text → Option (ChangedLines × PatchParseState)
unfolding parse_new_file mark_parsed_file add_hunk_lines
parse_patch_line result state line =
    if has_prefix line (codes "diff --git ")
    then some (result, record { current_file = []; new_file = false })
    else if has_prefix line (codes "new file mode ") || text_eq line (codes "--- /dev/null")
    then some (result, record state { new_file = true })
    else if has_prefix line (codes "+++ ")
    then some (
      mark_parsed_file result (parse_new_file line) state.new_file,
      record state { current_file = parse_new_file line },
    )
    else if not (is_empty state.current_file) && has_prefix line (codes "@@ ")
    then elim (add_hunk_lines result state.current_file line) [
      | none ↦ none
      | some after ↦ some (after, state)
    ]
    else some (result, state)

unfoldable pub parse_lines :
    List Text → ChangedLines → PatchParseState → Option (ChangedLines × PatchParseState)
unfolding parse_patch_line
parse_lines [] result state = some (result, state)
parse_lines (line ∷ lines) result state = elim (parse_patch_line result state line) [
  | none ↦ none
  | some (result', state') ↦ parse_lines lines result' state'
]

abbrev pub parse_start : PatchParseState
parse_start = record { current_file = []; new_file = false }

-- Parse
unfoldable pub parse : Text → Text → Option ChangedLines
unfolding parse_lines split refresh_changed_files
parse base patch = elim (parse_lines (split 10 patch) (nothing_changed base) parse_start) [
  | none ↦ none
  | some (result, _) ↦ some (refresh_changed_files result)
]
