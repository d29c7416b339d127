-- ===== src/Source/Gitignore/Parse.antt =====
-- The rules of a .gitignore file, from internal/source/gitignore.go: lines, flags and segments.
use gruff_go.Base.{
  ℕ, suc, ◌%◌, ◌&&◌, Bool, true, false, not, ◌||◌, Option, none, some, List, [], ◌∷◌, ◌++◌, Text,
  text_eq, has_prefix, has_suffix, trim_suffix, contains_byte, split, drop, ◌==◌, if◌then◌else◌,
  codes,
}
use mathlib.Core.List.{reverse}

-- ignoreRule
pub record IgnoreRule : Type 0 where
  pub raw : Text
  pub negation : Bool
  pub dir_only : Bool
  pub anchored : Bool
  pub parts : List Text

-- The two errors of parseIgnoreRule, each with the line that it quotes.
pub data RuleError : Type 0 where
  empty_pattern : Text → RuleError
  invalid_pattern : Text → RuleError

pub data RuleResult : Type 0 where
  parsed : IgnoreRule → RuleResult
  malformed : RuleError → RuleResult

-- ignoreFile
pub record IgnoreFile : Type 0 where
  pub dir : Text
  pub rules : List IgnoreRule
  pub err : Option RuleError

-- The backslashes that stand last in a text, which is given from its end.
unfoldable pub backslashes : Text → ℕ
backslashes [] = 0
backslashes (c ∷ s) = let more = backslashes s in if c == 92 then suc more else 0

-- escaped
unfoldable pub escaped : Text → Bool
escaped before = backslashes before % 2 == 1

-- The loop of trimUnescapedTrailingWhitespace, on the line from its end.
unfoldable pub trim_loop : Text → Text
trim_loop [] = []
trim_loop (c ∷ s) =
    let rest = trim_loop s in
    if (c == b' ') || (c == 9) then if escaped s then c ∷ s else rest else c ∷ s

-- trimUnescapedTrailingWhitespace
unfoldable pub trim_unescaped_trailing_whitespace : Text → Text
trim_unescaped_trailing_whitespace line = reverse (trim_loop (reverse line))

-- The switch of parseIgnoreRule: what is left of the line and the negation.
unfoldable pub unprefixed : Text → Text × Bool
unprefixed line =
    if has_prefix line (codes "\\!")
    then (drop 1 line, false)
    else if has_prefix line (codes "\\#")
    then (drop 1 line, false)
    else if has_prefix line (codes "!")
    then (drop 1 line, true)
    else (line, false)

-- The line of one turn of parseIgnoreFile's loop.
unfoldable pub trimmed_line : Text → Text
trimmed_line raw = trim_unescaped_trailing_whitespace (trim_suffix raw (13 ∷ []))

abbrev pub double_star : Text
double_star = codes "**"

-- path.Match is given: from a pattern and a name, no result on a malformed pattern.
module _ (glob : Text → Text → Option Bool) where
  abbrev pub is_bad : Option Bool → Bool
  is_bad none = true
  is_bad (some ok) = false

  -- The loop of parseIgnoreRule: some segment is malformed.
  unfoldable pub segments_bad : List Text → Bool
  segments_bad [] = false
  segments_bad (segment ∷ parts) =
      (not (text_eq segment double_star) && is_bad (glob segment [])) || segments_bad parts

  -- parseIgnoreRule from the test of the empty pattern on
  unfoldable pub finished_rule : Text → Bool → Bool → Bool → Text → RuleResult
  finished_rule raw negation anchored dir_only line =
      if text_eq line []
      then malformed (empty_pattern raw)
      else if segments_bad (split b'/' line)
      then malformed (invalid_pattern raw)
      else parsed (record {
        raw = raw;
        negation = negation;
        dir_only = dir_only;
        anchored = anchored || contains_byte line b'/';
        parts = split b'/' line;
      })

  -- parseIgnoreRule
  unfoldable pub parse_ignore_rule : Text → RuleResult
  parse_ignore_rule raw =
      let (line, negation) = unprefixed raw in
      let anchored = has_prefix line (codes "/") in
      let relative = if anchored then drop 1 line else line in
      finished_rule raw negation anchored (has_suffix relative (codes "/"))
        (trim_suffix relative (codes "/"))

  abbrev pub add_rule : RuleResult → IgnoreFile → IgnoreFile
  add_rule (malformed e) file = record file { err = some e }
  add_rule (parsed rule) file = record file { rules = file.rules ++ rule ∷ [] }

  unfoldable pub file_lines : List Text → IgnoreFile → IgnoreFile
  file_lines [] file = file
  file_lines (raw ∷ lines) file = file_lines lines (
      if text_eq (trimmed_line raw) [] || has_prefix (trimmed_line raw) (codes "#")
      then file
      else add_rule (parse_ignore_rule (trimmed_line raw)) file)

  -- parseIgnoreFile
  unfoldable pub parse_ignore_file : Text → Text → IgnoreFile
  parse_ignore_file dir text =
      file_lines (split 10 text) (record { dir = dir; rules = []; err = none })
