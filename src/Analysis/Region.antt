-- ===== src/Analysis/Region.antt =====
-- The changed-region filter of internal/analysis/runner.go: by hunk, or by the enclosing function.
use gruff_go.Base.{
  ℕ, ◌+◌, ◌-◌, Bool, true, false, not, ◌||◌, ◌&&◌, Option, none, some, List, [], ◌∷◌, Text,
  text_key, text_eq, lookup, insert, has_suffix, codes, if◌then◌else◌, ltb, leb, ◌==◌,
}
use gruff_go.Finding.{Finding, Location, is_empty}
use gruff_go.Diff.{
  ChangedLines, FilterResult, filter_findings, file_changed, range_changed, range_end,
}
use gruff_go.Analysis.Composite.{prune_orphaned_composites}

-- The fields of parser.Function that the filter reads.
pub record Function : Type 0 where
  pub name : Text
  pub line : ℕ
  pub end_line : ℕ

abbrev pub covers_line : Function → ℕ → Bool
covers_line fn line = leb fn.line line && leb line fn.end_line

-- The symbol test of enclosingFunction's first loop.
abbrev pub names_symbol : Function → Text → Bool
names_symbol fn symbol =
    is_empty symbol || text_eq fn.name symbol || has_suffix fn.name (b'.' ∷ symbol)

abbrev pub tighter : Option Function → Function → Option Function
tighter none fn = some fn
tighter (some best) fn =
    if ltb (fn.end_line - fn.line) (best.end_line - best.line) then some fn else some best

-- The first loop: the tightest covering function that the symbol names.
unfoldable pub best_named : ℕ → Text → List Function → Option Function → Option Function
unfolding has_suffix
best_named line symbol [] best = best
best_named line symbol (fn ∷ fns) best =
    best_named line symbol fns
      (if covers_line fn line && names_symbol fn symbol then tighter best fn else best)

-- The second loop: the first function that covers the line.
unfoldable pub first_covering : ℕ → List Function → Option Function
first_covering line [] = none
first_covering line (fn ∷ fns) =
    let later = first_covering line fns in if covers_line fn line then some fn else later

-- enclosingFunction
unfoldable pub enclosing_function : ℕ → Text → List Function → Option Function
unfolding best_named first_covering
enclosing_function line symbol fns = elim (best_named line symbol fns none) [
  | some fn ↦ some fn
  | none ↦ first_covering line fns
]

abbrev pub in_function : ChangedLines → Text → Option Function → Bool
in_function changed file none = false
in_function changed file (some fn) = range_changed changed file fn.line fn.end_line

abbrev pub located_matches : Finding → ChangedLines → List Function → Location → Bool
located_matches f changed fns l =
    if range_changed changed f.file l.line (range_end l.line l.end_line)
    then true
    else in_function changed f.file (enclosing_function l.line f.symbol fns)

-- changedScopeMatches
unfoldable pub changed_scope_matches : Finding → ChangedLines → List Function → Bool
changed_scope_matches f changed fns = elim f.location [
  | none ↦ file_changed changed f.file
  | some l ↦ if l.line == 0 then file_changed changed f.file else located_matches f changed fns l
]

abbrev pub Functions : Type 0
Functions = List (Text × List Function)

-- A missing map entry reads as the nil slice.
abbrev pub functions_of : Functions → Text → List Function
functions_of m file = elim (lookup file m) [ none ↦ [] | some fns ↦ fns ]

-- The loop that fills functionsByFile from the parsed units.
unfoldable pub functions_by_file : Functions → Functions → Functions
unfolding insert
functions_by_file [] m = m
functions_by_file ((path, fns) ∷ units) m = functions_by_file units (insert path fns m)

unfoldable pub symbol_loop : List Finding → ChangedLines → Functions → FilterResult
symbol_loop [] changed m = record { findings = []; filtered_findings = 0 }
symbol_loop (f ∷ fs) changed m =
    let rest = symbol_loop fs changed m in
    if changed_scope_matches f changed (functions_of m f.file)
    then record rest { findings = f ∷ rest.findings }
    else record rest { filtered_findings = rest.filtered_findings + 1 }

-- filterFindingsByChangedScope
unfoldable pub filter_by_changed_scope :
    List Finding → ChangedLines → Functions → Text → FilterResult
unfolding symbol_loop
filter_by_changed_scope fs changed units scope =
    if text_eq scope (codes "hunk")
    then filter_findings fs changed
    else symbol_loop fs changed (functions_by_file units [])

pub record DiffSummary : Type 0 where
  pub enabled : Bool
  pub base : Text
  pub changed_files : List Text
  pub filtered_findings : ℕ
  pub caveat : Text

-- applyChangedFilter
unfoldable pub apply_changed_filter :
    List Finding → Functions → ChangedLines → DiffSummary → Text → List Finding × DiffSummary
apply_changed_filter fs units changed summary scope =
    if not summary.enabled
    then (fs, summary)
    else let result = filter_by_changed_scope fs changed units scope in
      let (kept, pruned) = prune_orphaned_composites result.findings in
      (
        kept,
        record summary {
          filtered_findings = result.filtered_findings + pruned;
          caveat =
              codes
                "diff mode is changed-region scoped and is not full-project proof for project-level rules";
        },
      )
