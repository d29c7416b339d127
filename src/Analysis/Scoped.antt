-- ===== src/Analysis/Scoped.antt =====
-- The changed-region filter of internal/analysis/runner.go.
use gruff_go.Base.{
  ℕ, ◌+◌, ◌-◌, ◌≡◌, refl, inl, inr, ◌⊎◌, true, false, ◌&&◌, Option, none, some, List, [], ◌∷◌, Text,
  text_eq, text_key, contains, lookup, arith, Bool-cases, Option-cases, Any, length, ltb, codes,
  ◌==◌, &&_iff,
}
use gruff_go.Finding.{Finding, Location}
use gruff_go.Diff.{ChangedLines, file_changed, range_changed, matches_finding, range_end}
use gruff_go.Diff.Overlap.{filter_findings_lem}
use gruff_go.Analysis.Region.{
  Function, covers_line, names_symbol, tighter, best_named, changed_scope_matches, symbol_loop,
  functions_of, Functions, functions_by_file, filter_by_changed_scope, DiffSummary,
  apply_changed_filter,
}
use gruff_go.Analysis.Pruned.{prune_orphaned_composites_lem}

range_end_idem : (start end : ℕ) → range_end start (range_end start end) ≡ range_end start end
range_end_idem start end = ground arith

unlocated_changed :
    (f : Finding) (c : ChangedLines) → matches_finding f c ≡ true → file_changed c f.file ≡ true
unfolding matches_finding file_changed
unlocated_changed f c h = ground arith

located_changed :
    (f : Finding) (c : ChangedLines) (l : Location)
    → f.location ≡ some l
    → (l.line == 0) ≡ false
    → matches_finding f c ≡ true
    → range_changed c f.file l.line (range_end l.line l.end_line) ≡ true
unfolding matches_finding range_changed
located_changed f c l here placed h = elim (Bool-cases (contains c.whole_files f.file)) [
  | inl whole ↦ rw whole
  | inr out ↦ elim (Option-cases (lookup f.file c.lines_by_file)) [
    | inl missing ↦ absurd (let g = rw (out, missing, matches_finding) at h in cc)
    | inr (lines, at) ↦
        rw (out, at, range_changed, range_end_idem)
          (let g = rw (out, at, here, placed, matches_finding) at h in g)
  ]
]

-- What the hunk scope keeps, the symbol scope keeps too: a finding on a changed line matches the
-- changed scope, whichever functions its file has.
pub matches-changed_scope_matches :
    (f : Finding) (c : ChangedLines) (fns : List Function)
    → matches_finding f c ≡ true
    → changed_scope_matches f c fns ≡ true
unfolding changed_scope_matches
matches-changed_scope_matches f c fns h = elim (Option-cases f.location) [
  | inl unlocated ↦ rw (unlocated, changed_scope_matches) (unlocated_changed f c h)
  | inr (l, here) ↦ elim (Bool-cases (l.line == 0)) [
    | inl t ↦ rw (here, t, changed_scope_matches) (unlocated_changed f c h)
    | inr placed ↦
        let hit = located_changed f c l here placed h in
        rw (here, placed, hit, changed_scope_matches) refl
  ]
]

-- The function that the first loop chooses is the one it starts with, or one of the list that covers
-- the line and that the symbol names.
pub best_named-covers :
    (line : ℕ) (symbol : Text) (fns : List Function) (best : Option Function) (fn : Function)
    → best_named line symbol fns best ≡ some fn
    → (best ≡ some fn)
      ⊎ Any (λ g. (g ≡ fn) × (covers_line g line ≡ true) × (names_symbol g symbol ≡ true)) fns
unfolding best_named
best_named-covers line symbol [] best fn e = inl e
best_named-covers line symbol (g ∷ fns) best fn e =
    elim (Bool-cases (covers_line g line && names_symbol g symbol)) [
      | inr n ↦ elim (best_named-covers line symbol fns best fn (rw (n, best_named) at e)) [
        | inl old ↦ inl old
        | inr later ↦ inr (inr later)
      ]
      | inl t ↦
          elim (best_named-covers line symbol fns (tighter best g) fn (rw (t, best_named) at e)) [
            | inr later ↦ inr (inr later)
            | inl chosen ↦ from_tighter best chosen ((&&_iff _ _).0 t)
          ]
    ]
  where
    from_tighter :
        (o : Option Function)
        → tighter o g ≡ some fn
        → (covers_line g line ≡ true) × (names_symbol g symbol ≡ true)
        → (o ≡ some fn)
          ⊎ Any
              (λ h. (h ≡ fn) × (covers_line h line ≡ true) × (names_symbol h symbol ≡ true))
              (g ∷ fns)
    from_tighter none q both = inr (inl (ground arith, both.0, both.1))
    from_tighter (some b) q both =
        elim (Bool-cases (ltb (g.end_line - g.line) (b.end_line - b.line))) [
          | inl t ↦ let q' = rw t at q in inr (inl (ground arith, both.0, both.1))
          | inr n ↦ let q' = rw n at q in inl q'
        ]

symbol_loop-counts :
    (fs : List Finding) (c : ChangedLines) (m : Functions)
    → length (symbol_loop fs c m).findings + (symbol_loop fs c m).filtered_findings ≡ length fs
unfolding symbol_loop
symbol_loop-counts [] c m = omega arith
symbol_loop-counts (f ∷ fs) c m =
    let total = symbol_loop-counts fs c m in
    elim (Bool-cases (changed_scope_matches f c (functions_of m f.file))) [
      | inl t ↦ rw t (omega arith)
      | inr n ↦ rw n (omega arith)
    ]

scope-counts :
    (fs : List Finding) (units : Functions) (c : ChangedLines) (scope : Text)
    → length (filter_by_changed_scope fs c units scope).findings
        + (filter_by_changed_scope fs c units scope).filtered_findings
      ≡ length fs
unfolding filter_by_changed_scope
scope-counts fs units c scope = elim (Bool-cases (text_eq scope (codes "hunk"))) [
  | inl t ↦ rw t (filter_findings_lem fs c).1
  | inr n ↦ rw n (symbol_loop-counts fs c (functions_by_file units []))
]

-- With diff mode on, the kept findings and the reported number of filtered findings, the pruned
-- composites included, make up the findings that came in, under every scope.
pub apply_changed_filter-counts :
    (fs : List Finding) (units : Functions) (c : ChangedLines) (s : DiffSummary) (scope : Text)
    → s.enabled ≡ true
    → length (apply_changed_filter fs units c s scope).0
        + (apply_changed_filter fs units c s scope).1.filtered_findings
      ≡ length fs
unfolding apply_changed_filter
apply_changed_filter-counts fs units c s scope on =
    let result = filter_by_changed_scope fs c units scope in
    let scoped = scope-counts fs units c scope in
    let pruned = (prune_orphaned_composites_lem result.findings).1 in rw on (omega arith)
