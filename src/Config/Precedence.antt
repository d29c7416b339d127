-- ===== src/Config/Precedence.antt =====
-- Which entry of a configuration decides whether a rule runs, in internal/config/config.go.
use gruff_go.Base.{
  ◌≡◌, refl, ap, ◌∙◌, inl, inr, Bool, true, false, ◌&&◌, ◌||◌, Option, none, some, List, [], ◌∷◌,
  Text, text_key, text_eq, contains, lookup, insert, lookup-insert, any_of, if◌then◌else◌, arith,
  Bool-cases,
}
use gruff_go.Config.Fields.{RuleConfig, Config, Definition, RuleOptions}
use gruff_go.Config.Normal.{normalized}
use gruff_go.Config.Rules.{
  ById, definitions_by_id, canonical, is_empty_list, new_rule_options, selected_loop, enable_loop,
  apply_selected_rules, set_enabled, override_rule, apply_rule_overrides, exclude_ids,
  exclude_pillar, exclude_each_pillar, apply_excluded_rules, options_of, rule_options,
}

abbrev pub or_earlier : Option Bool → Option Bool → Option Bool
or_earlier (some b) earlier = some b
or_earlier none earlier = earlier

-- The last definition of an identifier decides by what is selected.
abbrev pub selected_by :
    {F : Type 0} → List (Definition F) → (Definition F → Bool) → Text → Option Bool
selected_by [] p k = none
selected_by (d ∷ ds) p k =
    or_earlier (selected_by ds p k) (if text_eq d.id k then some (p d) else none)

-- What the last override of a rule that says so says of its enablement.
abbrev pub overridden : {F O : Type 0} → List (Text × RuleConfig F O) → ById F → Text → Option Bool
overridden [] by_id k = none
overridden ((id, r) ∷ rules) by_id k =
    or_earlier (overridden rules by_id k)
      (if text_eq (canonical by_id id) k then r.enabled else none)

-- A rule is excluded by an identifier of its own or by its pillar.
abbrev pub excluded : {F O : Type 0} → Config F O → List (Definition F) → ById F → Text → Bool
excluded cfg ds by_id k =
    any_of (λ id. text_eq (canonical by_id id) k) cfg.exclude_rules
    || any_of (λ pillar. any_of (λ d. text_eq d.pillar pillar && text_eq d.id k) ds)
        cfg.selection.exclude_pillars

or_earlier_assoc :
    (a b c : Option Bool) → or_earlier a (or_earlier b c) ≡ or_earlier (or_earlier a b) c
or_earlier_assoc (some x) b c = refl
or_earlier_assoc none b c = refl

insert_step :
    (k j : Text) (v : Bool) (m : List (Text × Bool))
    → lookup j (insert k v m) ≡ or_earlier (if text_eq k j then some v else none) (lookup j m)
insert_step k j v m = ground (arith, lookup-insert k j v m)

enable_loop_lem :
    {F : Type 0} (ds : List (Definition F)) (ids pillars : List Text) (m : List (Text × Bool))
    (k : Text)
    → lookup k (enable_loop ds ids pillars m)
      ≡ or_earlier
          (selected_by ds (λ d. contains ids d.id || contains pillars d.pillar) k)
          (lookup k m)
unfolding enable_loop
enable_loop_lem [] ids pillars m k = refl
enable_loop_lem (d ∷ ds) ids pillars m k =
    enable_loop_lem ds ids pillars _ k
    ∙ ap (or_earlier _) (insert_step d.id k _ m)
    ∙ or_earlier_assoc (selected_by ds _ k) _ (lookup k m)

set_enabled_step :
    (o : Option Bool) (id k : Text) (m : List (Text × Bool))
    → lookup k (set_enabled o id m) ≡ or_earlier (if text_eq id k then o else none) (lookup k m)
set_enabled_step none id k m = ground arith
set_enabled_step (some b) id k m = insert_step id k b m

apply_rule_overrides_lem :
    {F O : Type 0} (rules : List (Text × RuleConfig F O)) (by_id : ById F)
    (options : RuleOptions F O) (k : Text)
    → lookup k (apply_rule_overrides rules by_id options).enabled
      ≡ or_earlier (overridden rules by_id k) (lookup k options.enabled)
unfolding apply_rule_overrides override_rule
apply_rule_overrides_lem [] by_id options k = refl
apply_rule_overrides_lem ((id, r) ∷ rules) by_id options k =
    apply_rule_overrides_lem rules by_id (override_rule by_id (canonical by_id id) r options) k
    ∙ ap (or_earlier (overridden rules by_id k))
        (set_enabled_step r.enabled (canonical by_id id) k options.enabled)
    ∙ or_earlier_assoc (overridden rules by_id k) _ (lookup k options.enabled)

exclude_ids_lem :
    {F : Type 0} (ids : List Text) (by_id : ById F) (m : List (Text × Bool)) (k : Text)
    → lookup k (exclude_ids ids by_id m)
      ≡ (if any_of (λ id. text_eq (canonical by_id id) k) ids then some false else lookup k m)
unfolding exclude_ids
exclude_ids_lem [] by_id m k = refl
exclude_ids_lem (id ∷ ids) by_id m k =
    exclude_ids_lem ids by_id _ k ∙ ground (arith, lookup-insert (canonical by_id id) k false m)

exclude_pillar_lem :
    {F : Type 0} (pillar : Text) (ds : List (Definition F)) (m : List (Text × Bool)) (k : Text)
    → lookup k (exclude_pillar pillar ds m) ≡ (
        if any_of (λ d. text_eq d.pillar pillar && text_eq d.id k) ds
        then some false
        else lookup k m)
unfolding exclude_pillar
exclude_pillar_lem pillar [] m k = refl
exclude_pillar_lem pillar (d ∷ ds) m k =
    exclude_pillar_lem pillar ds _ k ∙ ground (arith, lookup-insert d.id k false m)

exclude_each_pillar_lem :
    {F : Type 0} (pillars : List Text) (ds : List (Definition F)) (m : List (Text × Bool))
    (k : Text)
    → lookup k (exclude_each_pillar pillars ds m) ≡ (
        if any_of (λ pillar. any_of (λ d. text_eq d.pillar pillar && text_eq d.id k) ds) pillars
        then some false
        else lookup k m)
unfolding exclude_each_pillar
exclude_each_pillar_lem [] ds m k = refl
exclude_each_pillar_lem (pillar ∷ pillars) ds m k =
    exclude_each_pillar_lem pillars ds _ k ∙ ground (arith, exclude_pillar_lem pillar ds m k)

-- What selection lists make of a rule; without any, they say nothing.
abbrev pub selection_of :
    {F O : Type 0} → Config F O → List (Definition F) → ById F → Text → Option Bool
selection_of cfg ds by_id k =
    if is_empty_list cfg.select && is_empty_list cfg.selection.pillars
    then none
    else selected_by ds
        (λ d.
          contains (selected_loop cfg.select by_id []) d.id
          || contains cfg.selection.pillars d.pillar)
        k

apply_selected_rules_lem :
    {F O : Type 0} (cfg : Config F O) (ds : List (Definition F)) (by_id : ById F) (k : Text)
    → lookup k (apply_selected_rules cfg ds by_id (new_rule_options cfg)).enabled
      ≡ selection_of cfg ds by_id k
unfolding apply_selected_rules lookup
apply_selected_rules_lem cfg ds by_id k =
    elim (Bool-cases (is_empty_list cfg.select && is_empty_list cfg.selection.pillars)) [
      | inl t ↦ rw t refl
      | inr n ↦ rw n (enable_loop_lem ds _ cfg.selection.pillars [] k ∙ last_none _)
    ]
  where
    last_none : (o : Option Bool) → or_earlier o none ≡ o
    last_none none = refl
    last_none (some b) = refl

either_excluded :
    (a b : Bool) (o : Option Bool)
    → (if a then some false else (if b then some false else o)) ≡ (if b || a then some false else o)
either_excluded true true o = refl
either_excluded true false o = refl
either_excluded false true o = refl
either_excluded false false o = refl

options_of_lem :
    {F O : Type 0} (cfg : Config F O) (ds : List (Definition F)) (k : Text)
    → lookup k (options_of cfg ds).enabled ≡ (
        if excluded cfg ds (definitions_by_id ds) k
        then some false
        else or_earlier
            (overridden cfg.rules (definitions_by_id ds) k)
            (selection_of cfg ds (definitions_by_id ds) k))
unfolding options_of apply_excluded_rules
options_of_lem cfg ds k =
    let by_id = definitions_by_id ds in
    let selected = apply_selected_rules cfg ds by_id (new_rule_options cfg) in
    exclude_each_pillar_lem cfg.selection.exclude_pillars ds _ k
    ∙ ap
        (λ o.
          if any_of (λ pillar. any_of (λ d. text_eq d.pillar pillar && text_eq d.id k) ds)
            cfg.selection.exclude_pillars
          then some false
          else o)
        (exclude_ids_lem cfg.exclude_rules by_id _ k)
    ∙ either_excluded _ (any_of (λ id. text_eq (canonical by_id id) k) cfg.exclude_rules) _
    ∙ ap (λ o. if excluded cfg ds by_id k then some false else o)
        (apply_rule_overrides_lem cfg.rules by_id selected k
          ∙ ap (or_earlier (overridden cfg.rules by_id k))
              (apply_selected_rules_lem cfg ds by_id k))

-- Whether the configuration enables or disables a rule: an exclusion of the rule or of its pillar
-- disables it, whatever else is said; otherwise the override of the rule decides, where it speaks of
-- enablement; otherwise the selection lists, where there are any; otherwise nothing is said.
pub rule_options_lem :
    {F O : Type 0} (cfg : Config F O) (ds : List (Definition F)) (k : Text)
    → lookup k (rule_options cfg ds).enabled ≡ (
        if excluded (normalized cfg) ds (definitions_by_id ds) k
        then some false
        else or_earlier
            (overridden cfg.rules (definitions_by_id ds) k)
            (selection_of (normalized cfg) ds (definitions_by_id ds) k))
unfolding rule_options normalized
rule_options_lem cfg ds k = options_of_lem (normalized cfg) ds k
