-- ===== src/Source/Gitignore/Chain.antt =====
-- The directories above a path, from internal/source/gitignore.go.
use gruff_go.Base.{
  ℕ, ◌||◌, Option, none, some, List, [], ◌∷◌, ◌++◌, map, Text, text_eq, trim_prefix, split, join,
  ◌==◌, if◌then◌else◌, codes,
}
use gruff_go.Source.Ignored.{without_last}

-- parts[:1], parts[:2] and so on, to the whole list
unfoldable pub prefixes : List Text → List (List Text)
prefixes [] = []
prefixes (p ∷ parts) = (p ∷ []) ∷ map (λ before. p ∷ before) (prefixes parts)

abbrev pub joined : List Text → Text
joined parts = join b'/' parts

-- ancestorChain
unfoldable pub ancestor_chain : Text → List Text
ancestor_chain rel = [] ∷ map joined (prefixes (without_last (split b'/' rel)))

-- dirChain
unfoldable pub dir_chain : Text → List Text
dir_chain dir =
    if text_eq dir [] || text_eq dir (codes ".")
    then [] ∷ []
    else [] ∷ map joined (prefixes (split b'/' dir))

abbrev pub here_or_after : ℕ → Option Text → Option Text
here_or_after c (some before) = some (c ∷ before)
here_or_after c none = if c == b'/' then some [] else none

-- What stands before the last slash.
unfoldable pub before_last_slash : Text → Option Text
before_last_slash [] = none
before_last_slash (c ∷ s) = here_or_after c (before_last_slash s)

abbrev pub or_empty : Option Text → Text
or_empty none = []
or_empty (some s) = s

-- parentDir
unfoldable pub parent_dir : Text → Text
parent_dir rel = or_empty (before_last_slash rel)

-- relPathFrom
unfoldable pub rel_path_from : Text → Text → Text
rel_path_from dir rel = if text_eq dir [] then rel else trim_prefix rel (dir ++ codes "/")

-- joinIgnorePath
unfoldable pub join_ignore_path : Text → Text → Text
join_ignore_path dir name = if text_eq dir [] then name else dir ++ b'/' ∷ name
