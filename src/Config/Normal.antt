-- ===== src/Config/Normal.antt =====
-- Normalized of internal/config/config.go: older and newer fields of one meaning in one place.
use gruff_go.Base.{
  List, [], ◌∷◌, ◌++◌, Text, text_key, text_compare, contains, sort_by, if◌then◌else◌,
}
use gruff_go.Config.Fields.{Config}

-- The loop of mergeStringLists.
unfoldable pub merge_loop : List Text → List Text → List Text
merge_loop seen [] = []
merge_loop seen (value ∷ values) =
    let skip = merge_loop seen values in
    let keep = value ∷ merge_loop (value ∷ seen) values in
    if contains seen value then skip else keep

-- mergeStringLists
unfoldable pub merge_string_lists : List Text → List Text → List Text
merge_string_lists primary alias = merge_loop [] (primary ++ alias)

-- An alias that is empty leaves the list alone.
abbrev pub with_alias : List Text → List Text → List Text
with_alias primary [] = primary
with_alias primary (a ∷ alias) = merge_string_lists primary (a ∷ alias)

-- sortedCopy
abbrev pub sorted_copy : List Text → List Text
sorted_copy values = sort_by text_compare values

-- Normalized
unfoldable pub normalized : {F O : Type 0} → Config F O → Config F O
normalized cfg = record cfg {
  select = sorted_copy (with_alias cfg.select cfg.selection.rules);
  exclude_rules = sorted_copy (with_alias cfg.exclude_rules cfg.selection.exclude_rules);
  ignore_paths = sorted_copy (with_alias cfg.ignore_paths cfg.paths_ignore);
  accepted_abbreviations =
      sorted_copy (with_alias cfg.accepted_abbreviations cfg.allowlists.accepted_abbreviations);
  preview_allowlist = sorted_copy (with_alias cfg.preview_allowlist cfg.allowlists.secret_previews);
}
