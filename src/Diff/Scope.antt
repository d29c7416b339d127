-- ===== src/Diff/Scope.antt =====
-- The questions that internal/diff/diff.go answers of a change: FileChanged, RangeChanged,
-- matchesFinding and Filter.
use gruff_go.Base.{
  ℕ, zero, suc, ◌+◌, ◌-◌, Bool, true, false, ◌||◌, none, some, List, [], ◌∷◌, Text, text_key,
  nat_eq, contains, lookup, if◌then◌else◌, ltb, ◌==◌,
}
use gruff_go.Finding.{Finding}
use gruff_go.Diff.Changed.{ChangedLines}

-- for line := start; line <= end; line++, by the rounds left
unfoldable pub any_line : List ℕ → ℕ → ℕ → Bool
unfolding contains
any_line lines start zero = false
any_line lines start (suc n) =
    let later = any_line lines (start + 1) n in if contains lines start then true else later

-- end == 0 || end < start
abbrev pub range_end : ℕ → ℕ → ℕ
range_end start end = if end == 0 || ltb end start then start else end

unfoldable pub file_changed : ChangedLines → Text → Bool
unfolding contains lookup
file_changed c file =
    if contains c.whole_files file
    then true
    else elim (lookup file c.lines_by_file) [ none ↦ false | some _ ↦ true ]

unfoldable pub range_changed : ChangedLines → Text → ℕ → ℕ → Bool
unfolding contains lookup any_line
range_changed c file start end =
    if contains c.whole_files file then true else elim (lookup file c.lines_by_file) [
      | none ↦ false
      | some lines ↦ any_line lines start (range_end start end + 1 - start)
    ]

unfoldable pub matches_finding : Finding → ChangedLines → Bool
unfolding contains lookup any_line
matches_finding f c =
    if contains c.whole_files f.file then true else elim (lookup f.file c.lines_by_file) [
      | none ↦ false
      | some lines ↦ elim f.location [
        | none ↦ true
        | some l ↦
            if l.line == 0
            then true
            else any_line lines l.line (range_end l.line l.end_line + 1 - l.line)
      ]
    ]

pub record FilterResult : Type 0 where
  pub findings : List Finding
  pub filtered_findings : ℕ

-- The loop of Filter with its two accumulators.
unfoldable pub filter_findings : List Finding → ChangedLines → FilterResult
unfolding matches_finding
filter_findings [] c = record { findings = []; filtered_findings = 0 }
filter_findings (f ∷ fs) c =
    let rest = filter_findings fs c in
    if matches_finding f c
    then record rest { findings = f ∷ rest.findings }
    else record rest { filtered_findings = rest.filtered_findings + 1 }
