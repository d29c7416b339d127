-- ===== src/Analysis/Enclosing.antt =====
-- enclosingFunction of internal/analysis/runner.go: the function that a finding lies in.
use gruff_go.Base.{
  not, ltb, ◌-◌, Bool, Option, ◌&&◌, ℕ, ◌≡◌, ◌∙◌, inl, inr, true, false, none, some, List, [], ◌∷◌,
  Text, arith, Bool-cases, Option-cases, All, Any,
}
use gruff_go.Analysis.Region.{
  Function, covers_line, names_symbol, tighter, best_named, first_covering, enclosing_function,
}
use gruff_go.Analysis.Scoped.{best_named-covers}

-- The function is one of the list, and covers the line.
abbrev pub IsAround : ℕ → List Function → Function → Type 0
IsAround line fns fn = Any (λ g. (g ≡ fn) × (covers_line g line ≡ true)) fns

first_covering-IsAround :
    (line : ℕ) (fns : List Function) (fn : Function)
    → first_covering line fns ≡ some fn
    → IsAround line fns fn
unfolding first_covering
first_covering-IsAround line [] fn e = absurd (cc)
first_covering-IsAround line (g ∷ fns) fn e = elim (Bool-cases (covers_line g line)) [
  | inl t ↦ inl (ground arith, t)
  | inr n ↦ inr (first_covering-IsAround line fns fn (rw n at e))
]

first_covering-none :
    (line : ℕ) (fns : List Function)
    → first_covering line fns ≡ none
    → All (λ g. covers_line g line ≡ false) fns
unfolding first_covering
first_covering-none line [] e = tt
first_covering-none line (g ∷ fns) e = elim (Bool-cases (covers_line g line)) [
  | inl t ↦ absurd (let h = rw t at e in cc)
  | inr n ↦ (n, first_covering-none line fns (rw n at e))
]

named_IsAround :
    (line : ℕ) (symbol : Text) (fns : List Function) (fn : Function)
    → Any (λ g. (g ≡ fn) × (covers_line g line ≡ true) × (names_symbol g symbol ≡ true)) fns
    → IsAround line fns fn
named_IsAround line symbol [] fn h = absurd h
named_IsAround line symbol (g ∷ fns) fn (inl (same, around, _)) = inl (same, around)
named_IsAround line symbol (g ∷ fns) fn (inr later) = inr (named_IsAround line symbol fns fn later)

-- The function found for a line and a symbol is one of the file's functions and covers the line.
pub enclosing_function-IsAround :
    (line : ℕ) (symbol : Text) (fns : List Function) (fn : Function)
    → enclosing_function line symbol fns ≡ some fn
    → IsAround line fns fn
unfolding enclosing_function
enclosing_function-IsAround line symbol fns fn e =
    elim (Option-cases (best_named line symbol fns none)) [
      | inl missing ↦ first_covering-IsAround line fns fn (rw (missing, enclosing_function) at e)
      | inr (best, found) ↦
          elim (best_named-covers line symbol fns none fn
            (found ∙ (rw (found, enclosing_function) at e))) [
              | inl impossible ↦ absurd (cc)
              | inr there ↦ named_IsAround line symbol fns fn there
            ]
    ]

-- Where no function is found for a line and a symbol, no function of the file covers the line.
pub enclosing_function-none :
    (line : ℕ) (symbol : Text) (fns : List Function)
    → enclosing_function line symbol fns ≡ none
    → All (λ g. covers_line g line ≡ false) fns
unfolding enclosing_function
enclosing_function-none line symbol fns e = elim (Option-cases (best_named line symbol fns none)) [
  | inl missing ↦ first_covering-none line fns (rw (missing, enclosing_function) at e)
  | inr (best, found) ↦ absurd (let h = rw (found, enclosing_function) at e in cc)
]

abbrev span : Function → ℕ
span g = g.end_line - g.line

-- The function chosen so far, if there is one, is no narrower than this one.
abbrev no_narrower : Option Function → Function → Bool
no_narrower none fn = true
no_narrower (some b) fn = not (ltb (span b) (span fn))

no_narrower-tighter :
    (best : Option Function) (g fn : Function)
    → no_narrower (tighter best g) fn ≡ true
    → (no_narrower best fn ≡ true) × (ltb (span g) (span fn) ≡ false)
no_narrower-tighter none g fn h = ground arith
no_narrower-tighter (some b) g fn h = elim (Bool-cases (ltb (span g) (span b))) [
  | inl t ↦ let k = rw t at h in ground arith
  | inr n ↦ let k = rw n at h in ground arith
]

-- A function that covers the line, that the symbol names, and that is narrower than this one.
abbrev pub is_better : ℕ → Text → Function → Function → Bool
is_better line symbol fn g =
    (covers_line g line && names_symbol g symbol)
    && ltb (g.end_line - g.line) (fn.end_line - fn.line)

best_named_tight :
    (line : ℕ) (symbol : Text) (fns : List Function) (best : Option Function) (fn : Function)
    → best_named line symbol fns best ≡ some fn
    → (no_narrower best fn ≡ true) × All (λ g. is_better line symbol fn g ≡ false) fns
unfolding best_named
best_named_tight line symbol [] none fn e = absurd (cc)
best_named_tight line symbol [] (some b) fn e = (ground arith, tt)
best_named_tight line symbol (g ∷ fns) best fn e =
    elim (Bool-cases (covers_line g line && names_symbol g symbol)) [
      | inr n ↦
          let (kept, rest) = best_named_tight line symbol fns best fn (rw (n, best_named) at e) in
          (kept, (rw n, rest))
      | inl t ↦
          let (kept, rest) =
            best_named_tight line symbol fns (tighter best g) fn (rw (t, best_named) at e) in
          let (old, new) = no_narrower-tighter best g fn kept in (old, (rw t new, rest))
    ]

-- Where the symbol names a function that covers the line, the one found is the tightest: no function
-- that covers the line and that the symbol names has a shorter span.
pub enclosing_function-tightest :
    (line : ℕ) (symbol : Text) (fns : List Function) (named fn : Function)
    → best_named line symbol fns none ≡ some named
    → enclosing_function line symbol fns ≡ some fn
    → All (λ g. is_better line symbol fn g ≡ false) fns
unfolding enclosing_function
enclosing_function-tightest line symbol fns named fn found e =
    (best_named_tight line symbol fns none fn (found ∙ (rw (found, enclosing_function) at e))).1
