-- ===== src/Analysis/Kept.antt =====
-- The changed-region filter of internal/analysis/runner.go: all that it keeps lies in the region.
use gruff_go.Base.{
  ◌≡◌, inl, inr, Bool, true, List, [], ◌∷◌, Text, text_eq, All, keep_if, if◌then◌else◌, Bool-cases,
  codes,
}
use gruff_go.Finding.{Finding}
use gruff_go.Diff.{ChangedLines, matches_finding}
use gruff_go.Diff.Overlap.{filter_findings_lem}
use gruff_go.Analysis.Region.{
  changed_scope_matches, symbol_loop, functions_of, Functions, functions_by_file,
  filter_by_changed_scope, DiffSummary, apply_changed_filter,
}
use gruff_go.Analysis.Pruned.{prune_orphaned_composites_lem}

-- A finding that lies in the region, by its own lines under the scope "hunk", or else by its own or
-- by those of the function around it.
abbrev pub is_in_scope : ChangedLines → Functions → Text → Finding → Bool
is_in_scope c units scope f =
    if text_eq scope (codes "hunk")
    then matches_finding f c
    else changed_scope_matches f c (functions_of (functions_by_file units []) f.file)

All-kept {ℓ} : {A : Type ℓ} (p : A → Bool) (xs : List A) → All (λ x. p x ≡ true) (keep_if p xs)
All-kept p [] = tt
All-kept p (x ∷ xs) = elim (Bool-cases (p x)) [
  | inl t ↦ rw t (t, All-kept p xs)
  | inr n ↦ rw n (All-kept p xs)
]

All-keep_if {ℓ κ} :
    {A : Type ℓ} (P : A → Type κ) (p : A → Bool) (xs : List A) → All P xs → All P (keep_if p xs)
All-keep_if P p [] h = tt
All-keep_if P p (x ∷ xs) h = elim (Bool-cases (p x)) [
  | inl t ↦ rw t (h.0, All-keep_if P p xs h.1)
  | inr n ↦ rw n (All-keep_if P p xs h.1)
]

symbol_loop-All :
    (fs : List Finding) (c : ChangedLines) (m : Functions)
    → All
        (λ f. changed_scope_matches f c (functions_of m f.file) ≡ true)
        (symbol_loop fs c m).findings
unfolding symbol_loop
symbol_loop-All [] c m = tt
symbol_loop-All (f ∷ fs) c m =
    elim (Bool-cases (changed_scope_matches f c (functions_of m f.file))) [
      | inl t ↦ rw t (t, symbol_loop-All fs c m)
      | inr n ↦ rw n (symbol_loop-All fs c m)
    ]

filter_by_changed_scope-All :
    (fs : List Finding) (c : ChangedLines) (units : Functions) (scope : Text)
    → All
        (λ f. is_in_scope c units scope f ≡ true)
        (filter_by_changed_scope fs c units scope).findings
unfolding filter_by_changed_scope
filter_by_changed_scope-All fs c units scope = elim (Bool-cases (text_eq scope (codes "hunk"))) [
  | inl t ↦ rw (t, (filter_findings_lem fs c).0) (All-kept (λ f. matches_finding f c) fs)
  | inr n ↦ rw n (symbol_loop-All fs c (functions_by_file units []))
]

-- With diff mode on, every finding that is kept lies in the region.
pub apply_changed_filter-All :
    (fs : List Finding) (units : Functions) (c : ChangedLines) (s : DiffSummary) (scope : Text)
    → s.enabled ≡ true
    → All (λ f. is_in_scope c units scope f ≡ true) (apply_changed_filter fs units c s scope).0
unfolding apply_changed_filter
apply_changed_filter-All fs units c s scope on =
    let result = filter_by_changed_scope fs c units scope in
    rw (on, (prune_orphaned_composites_lem result.findings).0)
      (All-keep_if _ _ result.findings (filter_by_changed_scope-All fs c units scope))
