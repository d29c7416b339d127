-- ===== src/Analysis/Gate.antt =====
-- ResolveExitCode and the tallies of internal/analysis/report.go.
use gruff_go.Base.{
  ◌+◌, ◌≡◌, refl, ◌∙◌, inl, inr, ◌↔◌, true, false, List, [], ◌∷◌, Text, text_eq, text_eq→eq,
  text_key, lookup, lookup-insert, if◌then◌else◌, arith, Bool-cases, count_if, any_of,
}
use gruff_go.Finding.{
  Finding, severity_advisory, severity_warning, severity_error, or_zero, threshold_valid,
}
use gruff_go.Finding.Order.{reaches, is_triggered_by-eq-reaches}
use gruff_go.Analysis.Exit.{
  Diagnostic, any_triggered, resolve_exit_code, Counts, increment, count_keys, count_severity,
  count_pillar,
}

any_triggered-reaches :
    (fs : List Finding) (t : Text)
    → threshold_valid t ≡ true
    → any_triggered fs t ≡ (if any_of (λ f. reaches t f.severity) fs then 1 else 0)
unfolding any_triggered
any_triggered-reaches [] t h = refl
any_triggered-reaches (f ∷ fs) t h =
    rw (is_triggered_by-eq-reaches t f.severity h, any_triggered-reaches fs t h) (ground arith)

-- Under a valid threshold the exit code is 2 exactly if there is a diagnostic; 1 exactly if there is
-- none and a finding reaches the threshold; 0 exactly if there is none and no finding reaches it.
pub resolve_exit_code_lem :
    (ds : List Diagnostic) (fs : List Finding) (t : Text)
    → threshold_valid t ≡ true
    → ((resolve_exit_code ds fs t ≡ 2)
        ↔ ((d : Diagnostic) × (rest : List Diagnostic) × (ds ≡ d ∷ rest)))
      × ((resolve_exit_code ds fs t ≡ 1)
          ↔ ((ds ≡ []) × (any_of (λ f. reaches t f.severity) fs ≡ true)))
      × ((resolve_exit_code ds fs t ≡ 0)
          ↔ ((ds ≡ []) × (any_of (λ f. reaches t f.severity) fs ≡ false)))
unfolding resolve_exit_code
resolve_exit_code_lem (d ∷ rest) fs t h = (
  (λ _. (d, rest, refl), λ _. refl),
  (λ e. absurd (omega arith), λ e. absurd (ground arith)),
  (λ e. absurd (omega arith), λ e. absurd (ground arith)),
)
resolve_exit_code_lem [] fs t h =
    let e = any_triggered-reaches fs t h in
    (
      (λ two. absurd (ground arith), λ (d, rest, q). absurd (ground arith)),
      (λ one. (refl, ground arith), λ (_, hit). ground arith),
      (λ zero_code. (refl, ground arith), λ (_, miss). ground arith),
    )

increment_lem :
    (k j : Text) (m : Counts)
    → or_zero (lookup j (increment k m)) ≡ or_zero (lookup j m) + (if text_eq k j then 1 else 0)
unfolding increment
increment_lem k j m = elim (Bool-cases (text_eq k j)) [
  | inl t ↦ rw (lookup-insert, t, text_eq→eq k j t) refl
  | inr n ↦ rw (lookup-insert, n) (omega arith)
]

-- Counting by a key adds to each count the number of findings with that key.
pub count_keys_lem :
    (key : Finding → Text) (fs : List Finding) (m : Counts) (k : Text)
    → or_zero (lookup k (count_keys key fs m))
      ≡ or_zero (lookup k m) + count_if (λ f. text_eq (key f) k) fs
unfolding count_keys
count_keys_lem key [] m k = omega arith
count_keys_lem key (f ∷ fs) m k =
    ground (arith, count_keys_lem key fs (increment (key f) m) k, increment_lem (key f) k m)

-- The severity count and the pillar count of a key are the numbers of findings with that severity and
-- with that pillar; a missing key counts as 0.
pub count_severity_lem :
    (fs : List Finding) (k : Text)
    → (or_zero (lookup k (count_severity fs)) ≡ count_if (λ f. text_eq f.severity k) fs)
      × (or_zero (lookup k (count_pillar fs)) ≡ count_if (λ f. text_eq f.pillar k) fs)
unfolding count_severity count_pillar
count_severity_lem fs k = (
  count_keys_lem (λ f. f.severity) fs _ k ∙ empty_buckets,
  count_keys_lem (λ f. f.pillar) fs [] k ∙ (unfold lookup in omega arith),
)
  where
    empty_buckets :
        or_zero
            (lookup k ((severity_advisory, 0) ∷ (severity_warning, 0) ∷ (severity_error, 0) ∷ []))
          + count_if (λ f. text_eq f.severity k) fs
        ≡ count_if (λ f. text_eq f.severity k) fs
    empty_buckets = unfold lookup in ground arith
