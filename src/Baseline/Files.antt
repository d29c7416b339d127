-- ===== src/Baseline/Files.antt =====
-- Load and Write of internal/baseline/baseline.go. Reading and writing a file, and JSON, are
-- arguments.
use gruff_go.Base.{Option, none, some, Text}
use gruff_go.Baseline.Entries.{BaselineFile, ParseError, Parsed, parsed, rejected, parse, marshal}

pub data LoadError : Type 0 where
  unreadable : LoadError
  invalid_file : ParseError → LoadError

pub data Loaded : Type 0 where
  loaded : BaselineFile → Loaded
  load_failed : LoadError → Loaded

abbrev from_parsed : Parsed → Loaded
from_parsed (parsed b) = loaded b
from_parsed (rejected e) = load_failed (invalid_file e)

-- Load
unfoldable pub load : (Text → Option Text) → (Text → Option BaselineFile) → Text → Loaded
unfolding parse
load read_file decode path = elim (read_file path) [
  | none ↦ load_failed unreadable
  | some json ↦ from_parsed (parse decode json)
]

-- Write, over what writing a file returns
unfoldable pub write :
    {R : Type 0} → (Text → Text → R) → (BaselineFile → Text) → Text → BaselineFile → R
unfolding marshal
write write_file encode path b = write_file path (marshal encode b)
