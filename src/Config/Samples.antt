-- ===== src/Config/Samples.antt =====
-- A concrete configuration for internal/config/config.go.
use gruff_go.Base.{
  ℕ, ◌≡◌, refl, true, false, none, some, List, [], ◌∷◌, text_key, text_eq, has_prefix, trim_prefix,
  contains, set_insert, lookup, insert, insert_sorted, sort_by, codes, if◌then◌else◌,
}
use gruff_go.Config.Fields.{Config, Definition}
use gruff_go.Config.Normal.{merge_loop, merge_string_lists, normalized}
use gruff_go.Config.Rules.{
  definitions_by_id, index_loop, dashed_loop, canonical_rule_id, selected_loop, enable_loop,
  apply_selected_rules, override_rule, apply_rule_overrides, exclude_ids, exclude_pillar,
  exclude_each_pillar, apply_excluded_rules, options_of, rule_options,
}
use gruff_go.Config.Precedence.{excluded, overridden, selection_of, or_earlier, rule_options_lem}

abbrev definitions : List (Definition ℕ)
definitions =
    (record { id = codes "docs.api"; pillar = codes "docs"; thresholds = [] })
    ∷ (record { id = codes "size.file"; pillar = codes "size"; thresholds = [] })
    ∷ []

-- docs.api by an old name is overridden, and size is excluded.
abbrev config : Config ℕ ℕ
config = record {
  schema_version = [];
  minimum_severity = [];
  select = codes "size.file" ∷ [];
  exclude_rules = [];
  ignore_paths = [];
  accepted_abbreviations = [];
  rules =
      (
        codes "documentation.api",
        record {
          enabled = some true;
          threshold = none;
          thresholds = [];
          options = [];
          severity = [];
        },
      )
      ∷ [];
  preview_allowlist = [];
  paths_ignore = [];
  allowlists = record { accepted_abbreviations = []; secret_previews = [] };
  selection = record {
    tiers = [];
    pillars = [];
    rules = [];
    exclude_pillars = codes "size" ∷ [];
    exclude_rules = [];
  };
  minimum_go_version = [];
}

rule_options_lem_example : lookup (codes "size.file") (rule_options config definitions).enabled ≡ (
    if excluded (normalized config) definitions (definitions_by_id definitions) (codes "size.file")
    then some false
    else or_earlier (overridden config.rules (definitions_by_id definitions) (codes "size.file")) (
        selection_of
          (normalized config)
          definitions
          (definitions_by_id definitions)
          (codes "size.file")))
rule_options_lem_example = rule_options_lem config definitions (codes "size.file")

overridden_docs : lookup (codes "docs.api") (rule_options config definitions).enabled ≡ some true
unfolding rule_options normalized options_of definitions_by_id index_loop canonical_rule_id
    dashed_loop selected_loop enable_loop apply_selected_rules override_rule apply_rule_overrides
    exclude_ids exclude_pillar exclude_each_pillar apply_excluded_rules merge_loop
    merge_string_lists lookup insert contains set_insert text_eq has_prefix trim_prefix sort_by
    insert_sorted
overridden_docs = refl
