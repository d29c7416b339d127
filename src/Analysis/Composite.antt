-- ===== src/Analysis/Composite.antt =====
-- internal/analysis/composite_pruning.go: composites whose evidence was filtered away are dropped.
use gruff_go.Base.{
  ℕ, ◌+◌, Bool, true, false, ◌||◌, Option, none, some, List, [], ◌∷◌, Text, text_key, contains,
  set_insert, lookup, if◌then◌else◌, codes,
}
use gruff_go.Finding.{Finding, MetaValue, texts_value, anys_value, is_empty}

-- The strings of a []any.
unfoldable pub strings_of : List (Option Text) → List Text
strings_of [] = []
strings_of (none ∷ values) = strings_of values
strings_of (some text ∷ values) = text ∷ strings_of values

abbrev pub fingerprints_in : Option MetaValue → Option (List Text)
fingerprints_in (some (texts_value values)) = some values
fingerprints_in (some (anys_value values)) = some (strings_of values)
fingerprints_in _ = none

-- compositeUnderlyingFingerprints
unfoldable pub composite_underlying_fingerprints : Finding → Option (List Text)
unfolding lookup strings_of
composite_underlying_fingerprints item =
    fingerprints_in (lookup (codes "underlyingFingerprints") item.metadata)

-- collectNonCompositeFingerprints
unfoldable pub collect_non_composite_fingerprints : List Finding → List Text → List Text
unfolding set_insert contains
collect_non_composite_fingerprints [] out = out
collect_non_composite_fingerprints (f ∷ fs) out =
    collect_non_composite_fingerprints fs (elim (composite_underlying_fingerprints f) [
      | some _ ↦ out
      | none ↦ if is_empty f.fingerprint then out else set_insert f.fingerprint out
    ])

abbrev pub any_survives : List Text → List Text → Bool
any_survives [] surviving = false
any_survives (fp ∷ fps) surviving = contains surviving fp || any_survives fps surviving

-- compositeEvidenceSurvives
unfoldable pub composite_evidence_survives : Finding → List Text → Bool
composite_evidence_survives f surviving = elim (composite_underlying_fingerprints f) [
  | none ↦ true
  | some underlying ↦ any_survives underlying surviving
]

-- The loop of pruneOrphanedComposites.
unfoldable pub prune_loop : List Finding → List Text → List Finding × ℕ
prune_loop [] surviving = ([], 0)
prune_loop (f ∷ fs) surviving =
    let (kept, pruned) = prune_loop fs surviving in
    if composite_evidence_survives f surviving then (f ∷ kept, pruned) else (kept, pruned + 1)

-- pruneOrphanedComposites
unfoldable pub prune_orphaned_composites : List Finding → List Finding × ℕ
prune_orphaned_composites fs = prune_loop fs (collect_non_composite_fingerprints fs [])
