-- ===== src/Analysis/Display.antt =====
-- internal/analysis/display_filter.go: presentation filters.
use gruff_go.Base.{
  ℕ, ◌+◌, Bool, true, false, not, ◌&&◌, List, [], ◌∷◌, Text, text_key, text_compare, contains,
  sort_by, if◌then◌else◌,
}
use gruff_go.Finding.{Finding}

pub record DisplayFilter : Type 0 where
  pub include_rules : List Text
  pub exclude_rules : List Text
  pub include_pillars : List Text
  pub exclude_pillars : List Text

pub record DisplayFilterSummary : Type 0 where
  pub applied : Bool
  pub include_rules : List Text
  pub exclude_rules : List Text
  pub include_pillars : List Text
  pub exclude_pillars : List Text
  pub hidden_findings : ℕ
  pub caveat : Text

abbrev pub no_texts : List Text → Bool
no_texts [] = true
no_texts (_ ∷ _) = false

-- DisplayFilter.Empty
unfoldable pub filter_empty : DisplayFilter → Bool
filter_empty f =
    no_texts f.include_rules
    && no_texts f.exclude_rules
    && no_texts f.include_pillars
    && no_texts f.exclude_pillars

-- displayFilterKeeps
unfoldable pub display_filter_keeps : Finding → DisplayFilter → Bool
unfolding contains
display_filter_keeps item f =
    if not (no_texts f.include_rules) && not (contains f.include_rules item.rule_id)
    then false
    else if contains f.exclude_rules item.rule_id
    then false
    else if not (no_texts f.include_pillars) && not (contains f.include_pillars item.pillar)
    then false
    else not (contains f.exclude_pillars item.pillar)

abbrev pub sorted_strings : List Text → List Text
sorted_strings values = sort_by text_compare values

-- The filtering loop of ApplyDisplayFilter: the kept findings and the number of hidden ones.
unfoldable pub display_loop : List Finding → DisplayFilter → List Finding × ℕ
display_loop [] f = ([], 0)
display_loop (item ∷ items) f =
    let (kept, hidden) = display_loop items f in
    if display_filter_keeps item f then (item ∷ kept, hidden) else (kept, hidden + 1)

abbrev pub unfiltered : DisplayFilterSummary
unfiltered = record {
  applied = false;
  include_rules = [];
  exclude_rules = [];
  include_pillars = [];
  exclude_pillars = [];
  hidden_findings = 0;
  caveat = [];
}
