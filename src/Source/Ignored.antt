-- ===== src/Source/Ignored.antt =====
-- internal/source/ignore_classification.go: directories and files that are skipped by name. A reason
-- and a Boolean are an optional reason.
use gruff_go.Base.{
  Bool, ◌||◌, Option, none, some, List, [], ◌∷◌, Text, text_eq, split, codes, if◌then◌else◌,
}

unfoldable pub vcs_reason : Text
vcs_reason = codes "vcs"

unfoldable pub metadata_reason : Text
metadata_reason = codes "non-application-metadata"

abbrev pub is_vcs_part : Text → Bool
is_vcs_part part =
    text_eq part (codes ".git") || text_eq part (codes ".hg") || text_eq part (codes ".svn")

abbrev pub is_metadata_part : Text → Bool
is_metadata_part part =
    text_eq part (codes ".agents")
    || text_eq part (codes ".claude")
    || text_eq part (codes ".codex")
    || text_eq part (codes ".goat-flow")

-- The loop of alwaysIgnoredDir.
unfoldable pub dir_loop : List Text → Option Text
dir_loop [] = none
dir_loop (part ∷ parts) =
    let later = dir_loop parts in
    if is_vcs_part part
    then some vcs_reason
    else if is_metadata_part part
    then some metadata_reason
    else later

-- The loop of alwaysIgnoredFile.
unfoldable pub file_loop : List Text → Option Text
file_loop [] = none
file_loop (part ∷ parts) =
    let later = file_loop parts in if is_metadata_part part then some metadata_reason else later

-- parts[:len(parts)-1]
abbrev pub without_last : List Text → List Text
without_last [] = []
without_last (part ∷ []) = []
without_last (part ∷ next ∷ parts) = part ∷ without_last (next ∷ parts)

-- The loop of githubMetadataDecision.
unfoldable pub github_loop : List Text → Option Text
github_loop [] = none
github_loop (part ∷ []) = none
github_loop (part ∷ next ∷ parts) =
    let later = github_loop (next ∷ parts) in
    if text_eq part (codes ".github")
    then if text_eq next (codes "workflows") then none else some metadata_reason
    else later

-- githubMetadataDecision
unfoldable pub github_metadata_decision : Text → Option Text
github_metadata_decision rel = github_loop (split b'/' rel)

abbrev pub or_else : Option Text → Option Text → Option Text
or_else (some reason) other = some reason
or_else none other = other

-- alwaysIgnoredDir
unfoldable pub always_ignored_dir : Text → Option Text
always_ignored_dir rel = or_else (dir_loop (split b'/' rel)) (github_metadata_decision rel)

-- alwaysIgnoredFile
unfoldable pub always_ignored_file : Text → Option Text
always_ignored_file rel =
    or_else (file_loop (without_last (split b'/' rel))) (github_metadata_decision rel)

abbrev pub fallback_reason : Text → Option Text
fallback_reason part =
    if text_eq part (codes "vendor") || text_eq part (codes "node_modules")
    then some (codes "dependency")
    else if text_eq part (codes "dist")
        || text_eq part (codes "build")
        || text_eq part (codes "coverage")
    then some (codes "build-output")
    else if text_eq part (codes ".idea") || text_eq part (codes ".vscode")
    then some (codes "local-tooling")
    else none

unfoldable pub fallback_loop : List Text → Option Text
fallback_loop [] = none
fallback_loop (part ∷ parts) =
    let later = fallback_loop parts in or_else (fallback_reason part) later

-- fallbackIgnoredDir
unfoldable pub fallback_ignored_dir : Text → Option Text
fallback_ignored_dir rel = fallback_loop (split b'/' rel)

-- fallbackIgnoredFile
unfoldable pub fallback_ignored_file : Text → Option Text
fallback_ignored_file rel = none
