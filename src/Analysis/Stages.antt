-- ===== src/Analysis/Stages.antt =====
-- resolveChangedScope of internal/analysis/runner.go: a run that asks for a region gets it or fails.
use gruff_go.Base.{
  ℕ, ◌≡◌, ◌≢◌, refl, inl, inr, ◌⊎◌, Bool, true, false, not, ◌||◌, List, [], ◌∷◌, Text, text_eq,
  arith, Bool-cases, codes,
}
use gruff_go.Finding.{is_empty}
use gruff_go.Diff.{
  ChangedLines, RangeResult, parse, Outcome, done, failed, panicked, endless, GitRun, from_git,
  or_panic, nothing_changed, lines, bad_entry, no_ranges, unending, parse_range_set,
  explicit_ranges,
}
use gruff_go.Diff.Panics.{parse_total}
use gruff_go.Diff.Modes.{returns, from_mode-returns, from_git-Ends}
use gruff_go.Analysis.Exit.{Diagnostic}
use gruff_go.Analysis.Inputs.{Options}
use gruff_go.Analysis.Run.{
  ScopeStage, append_diff_diagnostic, scope_of, explicit_outcome, resolve_changed_scope, no_diff,
}

-- The run was asked to look at a changed region.
abbrev pub asks_region : Options → Bool
asks_region o =
    not (is_empty o.changed_ranges)
    || not (is_empty o.diff_mode)
    || not (is_empty o.diff_patch)
    || not (is_empty o.diff_base)

-- The region was found and the diagnostics are as they were, or there is one more.
abbrev pub IsResolved : List Diagnostic → ScopeStage → Type 0
IsResolved ds s =
    ((s.summary.enabled ≡ true) × (s.diagnostics ≡ ds))
    ⊎ ((s.summary.enabled ≡ false) × ((e : Text) × (s.diagnostics ≡ append_diff_diagnostic ds e)))

scope_of-IsResolved :
    (ds : List Diagnostic) (base : Text) (c : Outcome ChangedLines)
    → returns c ≡ true
    → (s : ScopeStage) × (scope_of ds base c ≡ done s) × IsResolved ds s
unfolding scope_of
scope_of-IsResolved ds base (done c) h = (_, refl, inl (refl, refl))
scope_of-IsResolved ds base (failed e) h = (_, refl, inr (refl, (e, refl)))
scope_of-IsResolved ds base panicked h = absurd (cc)
scope_of-IsResolved ds base endless h = absurd (cc)

parse-returns : (base patch : Text) → returns (or_panic (parse base patch)) ≡ true
parse-returns base patch = let (c, e, _) = parse_total base patch in rw e refl

explicit-returns :
    (range_error : RangeResult → Text) (base ranges : Text) (files : List Text)
    → parse_range_set ranges ≢ unending
    → returns (explicit_outcome range_error (explicit_ranges base ranges files)) ≡ true
unfolding explicit_ranges
explicit-returns range_error base ranges files h = elim (Range-cases (parse_range_set ranges)) [
  | inl (set, e) ↦ rw (e, explicit_ranges) refl
  | inr (inl (entry, e)) ↦ rw (e, explicit_ranges) refl
  | inr (inr (inl e)) ↦ rw (e, explicit_ranges) refl
  | inr (inr (inr e)) ↦ absurd (h e)
]
  where
    Range-cases :
        (r : RangeResult)
        → ((set : List ℕ) × (r ≡ lines set))
          ⊎ ((entry : Text) × (r ≡ bad_entry entry))
          ⊎ (r ≡ no_ranges)
          ⊎ (r ≡ unending)
    Range-cases (lines set) = inl (set, refl)
    Range-cases (bad_entry entry) = inr (inl (entry, refl))
    Range-cases no_ranges = inr (inr (inl refl))
    Range-cases unending = inr (inr (inr refl))

from_git-returns :
    (git : List Text → GitRun) (base : Text) (paths : List Text)
    → returns (from_git git base paths) ≡ true
from_git-returns git base paths = elim (from_git-Ends git base paths) [
  | inl (c, e, _) ↦ rw e refl
  | inr (r, e) ↦ rw e refl
]

none_asked :
    (a b c d : Bool)
    → (not a || not b || not c || not d) ≡ false
    → (a ≡ true) × (b ≡ true) × (c ≡ true) × (d ≡ true)
none_asked a b c d h = ground arith

empty_no_dash : (m : Text) → is_empty m ≡ true → text_eq m (codes "-") ≡ false
unfolding text_eq
empty_no_dash [] h = refl
empty_no_dash (c ∷ m) h = absurd (cc)

abbrev pub unscoped : ScopeStage
unscoped = record { changed = nothing_changed []; summary = no_diff; diagnostics = [] }

pub unasked :
    (git : List Text → GitRun) (range_error : RangeResult → Text) (files : List Text) (o : Options)
    → asks_region o ≡ false
    → resolve_changed_scope git range_error files [] o ≡ done unscoped
unfolding resolve_changed_scope
unasked git range_error files o whole =
    let (a, b, c, d) =
      none_asked (is_empty o.changed_ranges) (is_empty o.diff_mode) (is_empty o.diff_patch)
        (is_empty o.diff_base) whole in
    rw (a, empty_no_dash o.diff_mode b, b, c, d) refl

-- A run that asks for a changed region, in ranges that end, gets it, with no new diagnostic, or gets a diagnostic and no
-- region; it does not panic.
pub resolve_changed_scope-IsResolved :
    (git : List Text → GitRun) (range_error : RangeResult → Text) (files : List Text)
    (ds : List Diagnostic) (o : Options)
    → asks_region o ≡ true
    → parse_range_set o.changed_ranges ≢ unending
    → (s : ScopeStage) × (resolve_changed_scope git range_error files ds o ≡ done s)
      × IsResolved ds s
unfolding resolve_changed_scope
resolve_changed_scope-IsResolved git range_error files ds o asked ends =
    elim (Bool-cases (is_empty o.changed_ranges)) [
      | inr given ↦
          rw (given, resolve_changed_scope)
            (scope_of-IsResolved ds _ _ (explicit-returns range_error _ _ files ends))
      | inl unranged ↦ elim (Bool-cases (text_eq o.diff_mode (codes "-"))) [
        | inl dash ↦
            rw (unranged, dash, resolve_changed_scope)
              (scope_of-IsResolved ds _ _ (parse-returns _ o.diff_patch))
        | inr other ↦ elim (Bool-cases (is_empty o.diff_mode)) [
          | inr given ↦
              rw (unranged, other, given, resolve_changed_scope)
                (scope_of-IsResolved ds _ _ (from_mode-returns git o.diff_mode o.inputs))
          | inl no_mode ↦ elim (Bool-cases (is_empty o.diff_patch)) [
            | inr given ↦
                rw (unranged, other, no_mode, given, resolve_changed_scope)
                  (scope_of-IsResolved ds _ _ (parse-returns _ o.diff_patch))
            | inl no_patch ↦ elim (Bool-cases (is_empty o.diff_base)) [
              | inr given ↦
                  rw (unranged, other, no_mode, no_patch, given, resolve_changed_scope)
                    (scope_of-IsResolved ds _ _ (from_git-returns git o.diff_base o.inputs))
              | inl no_base ↦
                  absurd (let g = rw (unranged, no_mode, no_patch, no_base) at asked in cc)
            ]
          ]
        ]
      ]
    ]
