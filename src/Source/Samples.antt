-- ===== src/Source/Samples.antt =====
-- Concrete paths for internal/source/ignore_classification.go.
use gruff_go.Base.{text_eq, split, ◌≡◌, ◌⊎◌, refl, none, some, ◌∷◌, ◌++◌, Text, codes}
use gruff_go.Source.Ignored.{
  dir_loop, github_loop, github_metadata_decision, file_loop, vcs_reason, metadata_reason,
  always_ignored_dir, always_ignored_file,
}
use gruff_go.Source.Walk.{always_ignored_dir-below}

workflow_kept : always_ignored_file (codes ".github/workflows/ci.yml") ≡ none
unfolding always_ignored_file file_loop split text_eq github_metadata_decision github_loop
workflow_kept = refl

metadata_dir : always_ignored_dir (codes "a/.claude") ≡ some metadata_reason
unfolding always_ignored_dir dir_loop split text_eq
metadata_dir = refl

always_ignored_dir-below_example :
    ((metadata_reason ≡ vcs_reason)
      ⊎ (always_ignored_file (codes "a/.claude" ++ (b'/' ∷ codes "x/y.go")) ≡ some metadata_reason))
    × ((q : Text) × (always_ignored_dir (codes "a/.claude" ++ (b'/' ∷ codes "x/y.go")) ≡ some q))
always_ignored_dir-below_example =
    always_ignored_dir-below (codes "a/.claude") (codes "x/y.go") metadata_reason metadata_dir
