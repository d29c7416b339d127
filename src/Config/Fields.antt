-- ===== src/Config/Fields.antt =====
-- The records of internal/config/config.go, those parts that RuleOptions reads, and rule.Config.
use gruff_go.Base.{Bool, Option, List, Text}

-- A float64 and a decoded option value are only passed on.
pub record RuleConfig (F O : Type 0) : Type 0 where
  pub enabled : Option Bool
  pub threshold : Option F
  pub thresholds : List (Text × F)
  pub options : List (Text × O)
  pub severity : Text

pub record SelectionConfig : Type 0 where
  pub tiers : List Text
  pub pillars : List Text
  pub rules : List Text
  pub exclude_pillars : List Text
  pub exclude_rules : List Text

pub record AllowlistsConfig : Type 0 where
  pub accepted_abbreviations : List Text
  pub secret_previews : List Text

pub record Config (F O : Type 0) : Type 0 where
  pub schema_version : Text
  pub minimum_severity : List (Text × Text)
  pub select : List Text
  pub exclude_rules : List Text
  pub ignore_paths : List Text
  pub accepted_abbreviations : List Text
  pub rules : List (Text × RuleConfig F O)
  pub preview_allowlist : List Text
  pub paths_ignore : List Text
  pub allowlists : AllowlistsConfig
  pub selection : SelectionConfig
  pub minimum_go_version : Text

-- The fields of rule.Definition that are read here.
pub record Definition (F : Type 0) : Type 0 where
  pub id : Text
  pub pillar : Text
  pub thresholds : List (Text × F)

-- rule.Config
pub record RuleOptions (F O : Type 0) : Type 0 where
  pub enabled : List (Text × Bool)
  pub thresholds : List (Text × List (Text × F))
  pub severities : List (Text × Text)
  pub options : List (Text × List (Text × O))
  pub preview_allowlist : List Text
  pub accepted_abbreviations : List Text
