-- ===== src/Source/Discovery/Classify.antt =====
-- classify of internal/source/source.go, and HasGeneratedGoHeader of internal/source/generated.go.
use gruff_go.Base.{
  ◌+◌, Bool, false, not, ◌&&◌, ◌||◌, Option, none, some, List, [], ◌∷◌, ◌++◌, Text, text_eq,
  has_prefix, trim_prefix, trim_space, split, drop, length, ltb, leb, ◌==◌, if◌then◌else◌, codes,
}
use mathlib.Core.List.{reverse}

pub data FileType : Type 0 where
  go_source : FileType
  text_content : FileType

-- strings.ToLower, on ASCII
abbrev pub to_lower : Text → Text
to_lower [] = []
to_lower (c ∷ s) = (if leb b'A' c && leb c b'Z' then c + 32 else c) ∷ to_lower s

-- strings.Contains
unfoldable pub contains_text : Text → Text → Bool
contains_text [] t = has_prefix [] t
contains_text (c ∷ s) t = has_prefix (c ∷ s) t || contains_text s t

-- filepath.Ext, of the path from its end and what has been passed
unfoldable pub ext_loop : Text → Text → Text
ext_loop [] passed = []
ext_loop (c ∷ before) passed =
    let more = ext_loop before (c ∷ passed) in
    if c == b'/' then [] else if c == b'.' then c ∷ passed else more

abbrev pub ext : Text → Text
ext path = ext_loop (reverse path) []

-- filepath.Base, of a path that does not end in a slash
unfoldable pub base_loop : Text → Text → Text
base_loop [] passed = passed
base_loop (c ∷ before) passed =
    let more = base_loop before (c ∷ passed) in if c == b'/' then passed else more

abbrev pub base : Text → Text
base path = base_loop (reverse path) []

abbrev pub is_text_ext : Text → Bool
is_text_ext e =
    text_eq e (codes ".json")
    || text_eq e (codes ".yaml")
    || text_eq e (codes ".yml")
    || text_eq e (codes ".toml")
    || text_eq e (codes ".ini")
    || text_eq e (codes ".xml")
    || text_eq e (codes ".env")
    || text_eq e (codes ".txt")

-- classify
unfoldable pub classify : Text → Option FileType
classify path =
    if text_eq (to_lower (ext path)) (codes ".go")
    then some go_source
    else if is_text_ext (to_lower (ext path))
    then some text_content
    else if text_eq (base path) (codes "go.mod") || text_eq (base path) (codes "go.sum")
    then some text_content
    else if has_prefix (base path) (codes ".env")
    then some text_content
    else none

-- The lines of bufio.Scanner: without an empty last one, and none from a line on that is too long
-- for its buffer of 65536 bytes.
unfoldable pub scanned : List Text → List Text
scanned [] = []
scanned (line ∷ []) = if text_eq line [] || ltb 65535 (length line) then [] else line ∷ []
scanned (line ∷ next ∷ lines) =
    let rest = scanned (next ∷ lines) in if ltb 65535 (length line) then [] else line ∷ rest

-- The loop of HasGeneratedGoHeader: nothing where it returns false, else the leading comments.
unfoldable pub header_loop : List Text → Bool → Text → Option Text
header_loop [] in_block leading = some leading
header_loop (raw ∷ lines) in_block leading =
    let line = trim_space raw in
    let skip = header_loop lines in_block leading in
    let within = header_loop lines (not (contains_text line (codes "*/"))) (leading ++ 10 ∷ line) in
    let comment =
      header_loop lines false (leading ++ 10 ∷ trim_space (trim_prefix line (codes "//"))) in
    let block =
      header_loop lines (not (contains_text (drop 2 line) (codes "*/"))) (leading ++ 10 ∷ line) in
    if text_eq line []
    then skip
    else if in_block
    then within
    else if has_prefix line (codes "package ")
    then some leading
    else if has_prefix line (codes "//")
    then comment
    else if has_prefix line (codes "/*")
    then block
    else none

abbrev pub says_generated : Option Text → Bool
says_generated none = false
says_generated (some leading) =
    contains_text (to_lower leading) (codes "generated")
    && contains_text (to_lower leading) (codes "do not edit")

-- HasGeneratedGoHeader
unfoldable pub has_generated_go_header : Text → Bool
has_generated_go_header source = says_generated (header_loop (scanned (split 10 source)) false [])

abbrev pub generated_content : Option Text → Bool
generated_content none = false
generated_content (some text) = has_generated_go_header text
