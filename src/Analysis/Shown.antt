-- ===== src/Analysis/Shown.antt =====
-- ApplyDisplayFilter of internal/analysis/display_filter.go.
use gruff_go.Base.{
  ◌+◌, ◌≡◌, refl, sym, ap, inl, inr, Bool, true, false, not, ◌&&◌, List, [], ◌∷◌, Text, text_key,
  contains, arith, Bool-cases, &&_iff, keep_if, length,
}
use gruff_go.Finding.{Finding}
use gruff_go.Analysis.Filtered.{apply_display_filter}
use gruff_go.Analysis.Report.{Report}
use gruff_go.Analysis.Display.{
  DisplayFilter, no_texts, filter_empty, display_filter_keeps, display_loop,
}

-- A list of allowed values, where the empty list allows all.
abbrev pub allows : List Text → Text → Bool
allows [] v = true
allows (x ∷ xs) v = contains (x ∷ xs) v

-- What the filter's four lists say of a finding.
abbrev pub is_shown : DisplayFilter → Finding → Bool
is_shown f item =
    allows f.include_rules item.rule_id
    && not (contains f.exclude_rules item.rule_id)
    && (allows f.include_pillars item.pillar && not (contains f.exclude_pillars item.pillar))

allows_lem :
    (xs : List Text) (v : Text) → not (not (no_texts xs) && not (contains xs v)) ≡ allows xs v
allows_lem [] v = refl
allows_lem (x ∷ xs) v = ground arith

keeps-is_shown :
    (item : Finding) (f : DisplayFilter) → display_filter_keeps item f ≡ is_shown f item
unfolding display_filter_keeps
keeps-is_shown item f =
    ground
      (arith, allows_lem f.include_rules item.rule_id, allows_lem f.include_pillars item.pillar)

display_loop_lem :
    (fs : List Finding) (f : DisplayFilter)
    → ((display_loop fs f).0 ≡ keep_if (is_shown f) fs)
      × (length (display_loop fs f).0 + (display_loop fs f).1 ≡ length fs)
unfolding display_loop
display_loop_lem [] f = (refl, omega arith)
display_loop_lem (item ∷ fs) f =
    let (same, total) = display_loop_lem fs f in
    rw (keeps-is_shown item f) (elim (Bool-cases (is_shown f item)) [
      | inl t ↦ rw t (ap (λ r. item ∷ r) same, omega arith)
      | inr n ↦ rw n (same, omega arith)
    ])

no_texts_lem : (xs : List Text) → no_texts xs ≡ true → xs ≡ []
no_texts_lem [] h = refl
no_texts_lem (x ∷ xs) h = ground arith

allows_empty : (xs : List Text) (v : Text) → no_texts xs ≡ true → allows xs v ≡ true
allows_empty [] v h = refl
allows_empty (x ∷ xs) v h = ground arith

contains_empty : (xs : List Text) (v : Text) → no_texts xs ≡ true → contains xs v ≡ false
unfolding contains
contains_empty [] v h = refl
contains_empty (x ∷ xs) v h = ground arith

empty_shows_all :
    (f : DisplayFilter) → filter_empty f ≡ true → (item : Finding) → is_shown f item ≡ true
unfolding filter_empty
empty_shows_all f h item =
    let (rest, d) =
      (&&_iff (no_texts f.include_rules && no_texts f.exclude_rules && no_texts f.include_pillars)
          (no_texts f.exclude_pillars)).0
        h in
    let (rest, c) =
      (&&_iff (no_texts f.include_rules && no_texts f.exclude_rules) (no_texts f.include_pillars)).0
        rest in
    let (a, b) = (&&_iff (no_texts f.include_rules) (no_texts f.exclude_rules)).0 rest in
    rw
      (
        allows_empty f.include_rules item.rule_id a,
        contains_empty f.exclude_rules item.rule_id b,
        allows_empty f.include_pillars item.pillar c,
        contains_empty f.exclude_pillars item.pillar d,
      )
      refl

keep_if_all :
    (p : Finding → Bool) → ((x : Finding) → p x ≡ true) → (xs : List Finding) → keep_if p xs ≡ xs
keep_if_all p h [] = refl
keep_if_all p h (x ∷ xs) = rw (h x) (ap (λ r. x ∷ r) (keep_if_all p h xs))

-- The display filter keeps, in order, the findings that its four lists allow, an empty include list
-- allowing all; the shown and the hidden findings make up the report's; the summary with its exit
-- code, the score and the diagnostics stay as they were.
pub apply_display_filter_lem :
    {Score : Type 0} (r : Report Score) (f : DisplayFilter)
    → ((apply_display_filter r f).findings ≡ keep_if (is_shown f) r.findings)
      × (length (apply_display_filter r f).findings
            + (apply_display_filter r f).display_filter.hidden_findings
          ≡ length r.findings)
      × ((apply_display_filter r f).summary ≡ r.summary)
      × ((apply_display_filter r f).score ≡ r.score)
      × ((apply_display_filter r f).diagnostics ≡ r.diagnostics)
unfolding apply_display_filter filter_empty
apply_display_filter_lem r f = elim (Bool-cases (filter_empty f)) [
  | inl t ↦
      rw (t, filter_empty)
        (
          sym (keep_if_all (is_shown f) (empty_shows_all f t) r.findings),
          omega arith,
          refl,
          refl,
          refl,
        )
  | inr n ↦
      let (kept, hidden) = display_loop_lem r.findings f in
      rw (n, filter_empty) (kept, hidden, refl, refl, refl)
]
