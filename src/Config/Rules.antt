-- ===== src/Config/Rules.antt =====
-- RuleOptions of internal/config/config.go: which rules are enabled, and with what.
use gruff_go.Base.{
  Bool, true, false, ◌||◌, ◌&&◌, ◌++◌, Option, none, some, List, [], ◌∷◌, Text, text_key, text_eq,
  has_prefix, trim_prefix, contains, set_insert, lookup, insert, ◌==◌, if◌then◌else◌, codes,
}
use gruff_go.Finding.{parse_severity}
use gruff_go.Config.Fields.{RuleConfig, Config, Definition, RuleOptions}
use gruff_go.Config.Normal.{normalized}

-- strings.ReplaceAll(id, ".", "-")
abbrev pub dashed : Text → Text
dashed [] = []
dashed (c ∷ s) = (if c == b'.' then b'-' else c) ∷ dashed s

abbrev pub text_or_empty : Option Text → Text
text_or_empty none = []
text_or_empty (some s) = s

abbrev pub is_empty_list : {A : Type 0} → List A → Bool
is_empty_list [] = true
is_empty_list (x ∷ xs) = false

abbrev pub ById : Type 0 → Type 0
ById F = List (Text × Definition F)

unfoldable pub index_loop : {F : Type 0} → List (Definition F) → ById F → ById F
index_loop [] out = out
index_loop (d ∷ ds) out = index_loop ds (insert d.id d out)

-- definitionsByID
unfoldable pub definitions_by_id : {F : Type 0} → List (Definition F) → ById F
definitions_by_id ds = index_loop ds []

abbrev pub is_known : {F : Type 0} → Option (Definition F) → Bool
is_known none = false
is_known (some d) = true

-- The loop over the index: the first identifier that is the given one with dots for dashes.
unfoldable pub dashed_loop : {F : Type 0} → Text → ById F → Option Text
dashed_loop id [] = none
dashed_loop id ((known, d) ∷ rest) =
    let later = dashed_loop id rest in if text_eq (dashed known) id then some known else later

-- One of the two old spellings of docs rules.
abbrev pub renamed : {F : Type 0} → Text → Text → ById F → Option Text
renamed old id by_id =
    if has_prefix id old
    then if is_known (lookup (codes "docs." ++ trim_prefix id old) by_id)
      then some (codes "docs." ++ trim_prefix id old)
      else none
    else none

abbrev pub first_of : Option Text → Option Text → Option Text
first_of (some id) other = some id
first_of none other = other

-- canonicalRuleID
unfoldable pub canonical_rule_id : {F : Type 0} → Text → ById F → Option Text
canonical_rule_id id by_id =
    if is_known (lookup id by_id)
    then some id
    else first_of (renamed (codes "documentation.") id by_id)
        (first_of (renamed (codes "documentation-") id by_id) (dashed_loop id by_id))

abbrev pub canonical : {F : Type 0} → ById F → Text → Text
canonical by_id id = text_or_empty (canonical_rule_id id by_id)

-- newRuleOptions
abbrev pub new_rule_options : {F O : Type 0} → Config F O → RuleOptions F O
new_rule_options cfg = record {
  enabled = [];
  thresholds = [];
  severities = [];
  options = [];
  preview_allowlist = cfg.preview_allowlist;
  accepted_abbreviations = cfg.accepted_abbreviations;
}

abbrev pub add_selected : Option Text → List Text → List Text
add_selected none selected = selected
add_selected (some id) selected = set_insert id selected

unfoldable pub selected_loop : {F : Type 0} → List Text → ById F → List Text → List Text
selected_loop [] by_id selected = selected
selected_loop (id ∷ ids) by_id selected =
    selected_loop ids by_id (add_selected (canonical_rule_id id by_id) selected)

unfoldable pub enable_loop :
    {F : Type 0}
    → List (Definition F)
    → List Text
    → List Text
    → List (Text × Bool)
    → List (Text × Bool)
enable_loop [] selected pillars enabled = enabled
enable_loop (d ∷ ds) selected pillars enabled =
    enable_loop ds selected pillars
      (insert d.id (contains selected d.id || contains pillars d.pillar) enabled)

-- applySelectedRules
unfoldable pub apply_selected_rules :
    {F O : Type 0} → Config F O → List (Definition F) → ById F → RuleOptions F O → RuleOptions F O
apply_selected_rules cfg ds by_id options =
    if is_empty_list cfg.select && is_empty_list cfg.selection.pillars
    then options
    else record options {
      enabled =
          enable_loop ds (selected_loop cfg.select by_id []) cfg.selection.pillars options.enabled;
    }

abbrev pub set_enabled : Option Bool → Text → List (Text × Bool) → List (Text × Bool)
set_enabled none id enabled = enabled
set_enabled (some b) id enabled = insert id b enabled

unfoldable pub set_all : {F : Type 0} → List (Text × F) → F → List (Text × F) → List (Text × F)
set_all [] value out = out
set_all ((name, old) ∷ rest) value out = set_all rest value (insert name value out)

abbrev pub names_of : {F : Type 0} → Option (Definition F) → List (Text × F)
names_of none = []
names_of (some d) = d.thresholds

abbrev pub own_thresholds :
    {F : Type 0} → Option F → Option (Definition F) → List (Text × F) → List (Text × F)
own_thresholds none d given = given
own_thresholds (some value) d given = set_all (names_of d) value given

abbrev pub unless_empty : {A : Type 0} → Text → List A → List (Text × List A) → List (Text × List A)
unless_empty id [] m = m
unless_empty id (x ∷ xs) m = insert id (x ∷ xs) m

-- The body of applyRuleOverrides' loop; a severity that does not parse is the empty one.
unfoldable pub override_rule :
    {F O : Type 0} → ById F → Text → RuleConfig F O → RuleOptions F O → RuleOptions F O
override_rule by_id id r options = record {
  enabled = set_enabled r.enabled id options.enabled;
  thresholds =
      unless_empty id (own_thresholds r.threshold (lookup id by_id) r.thresholds)
        options.thresholds;
  severities =
      if text_eq r.severity []
      then options.severities
      else insert id (text_or_empty (parse_severity r.severity)) options.severities;
  options = unless_empty id r.options options.options;
  preview_allowlist = options.preview_allowlist;
  accepted_abbreviations = options.accepted_abbreviations;
}

-- applyRuleOverrides
unfoldable pub apply_rule_overrides :
    {F O : Type 0} → List (Text × RuleConfig F O) → ById F → RuleOptions F O → RuleOptions F O
apply_rule_overrides [] by_id options = options
apply_rule_overrides ((id, r) ∷ rules) by_id options =
    apply_rule_overrides rules by_id (override_rule by_id (canonical by_id id) r options)

unfoldable pub exclude_ids :
    {F : Type 0} → List Text → ById F → List (Text × Bool) → List (Text × Bool)
exclude_ids [] by_id enabled = enabled
exclude_ids (id ∷ ids) by_id enabled =
    exclude_ids ids by_id (insert (canonical by_id id) false enabled)

unfoldable pub exclude_pillar :
    {F : Type 0} → Text → List (Definition F) → List (Text × Bool) → List (Text × Bool)
exclude_pillar pillar [] enabled = enabled
exclude_pillar pillar (d ∷ ds) enabled =
    exclude_pillar pillar ds
      (if text_eq d.pillar pillar then insert d.id false enabled else enabled)

unfoldable pub exclude_each_pillar :
    {F : Type 0} → List Text → List (Definition F) → List (Text × Bool) → List (Text × Bool)
exclude_each_pillar [] ds enabled = enabled
exclude_each_pillar (pillar ∷ pillars) ds enabled =
    exclude_each_pillar pillars ds (exclude_pillar pillar ds enabled)

-- applyExcludedRules
unfoldable pub apply_excluded_rules :
    {F O : Type 0} → Config F O → List (Definition F) → ById F → RuleOptions F O → RuleOptions F O
apply_excluded_rules cfg ds by_id options = record options {
  enabled =
      exclude_each_pillar cfg.selection.exclude_pillars ds
        (exclude_ids cfg.exclude_rules by_id options.enabled);
}

-- RuleOptions from the normalized configuration on, for given default definitions
unfoldable pub options_of : {F O : Type 0} → Config F O → List (Definition F) → RuleOptions F O
options_of cfg ds =
    let by_id = definitions_by_id ds in
    apply_excluded_rules cfg ds by_id (
      apply_rule_overrides cfg.rules by_id
        (apply_selected_rules cfg ds by_id (new_rule_options cfg)))

-- RuleOptions
unfoldable pub rule_options : {F O : Type 0} → Config F O → List (Definition F) → RuleOptions F O
rule_options cfg ds = options_of (normalized cfg) ds
