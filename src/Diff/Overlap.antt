-- ===== src/Diff/Overlap.antt =====
-- The questions of Diff/Scope against what they mean.
use gruff_go.Base.{
  ℕ, zero, suc, ◌+◌, ◌-◌, ◌≡◌, ◌≤◌, ◌<◌, refl, sym, ap, ◌∙◌, inl, inr, ◌⊎◌, ◌↔◌, true, false, none,
  some, List, [], ◌∷◌, text_key, nat_eq, contains, lookup, if◌then◌else◌, ◌==◌, arith, Bool-cases,
  Option-cases, keep_if, length,
}
use native.Mathlib.Decide.{ℕ_discrete}
use gruff_go.Finding.{Finding, Location}
use gruff_go.Diff.Changed.{ChangedLines}
use gruff_go.Diff.Scope.{any_line, range_end, matches_finding, filter_findings}

-- A changed line between start and start + n.
abbrev pub HasLine : List ℕ → ℕ → ℕ → Type 0
HasLine lines start n = (k : ℕ) × (start ≤ k) × (k < start + n) × (contains lines k ≡ true)

any_line→HasLine :
    (lines : List ℕ) (start n : ℕ) → any_line lines start n ≡ true → HasLine lines start n
unfolding any_line
any_line→HasLine lines start zero h = absurd (cc)
any_line→HasLine lines start (suc n) h = elim (Bool-cases (contains lines start)) [
  | inl now ↦ (start, omega arith, omega arith, now)
  | inr later ↦
      let (k, lo, hi, there) = any_line→HasLine lines (start + 1) n (rw later at h) in
      (k, omega arith, omega arith, there)
]

HasLine→any_line :
    (lines : List ℕ) (start n k : ℕ)
    → start ≤ k
    → k < start + n
    → contains lines k ≡ true
    → any_line lines start n ≡ true
unfolding any_line
HasLine→any_line lines start zero k lo hi there = absurd (omega arith)
HasLine→any_line lines start (suc n) k lo hi there = elim (Bool-cases (contains lines start)) [
  | inl now ↦ rw now
  | inr other ↦ rw other (
      HasLine→any_line lines (start + 1) n k (apart other (ℕ_discrete start k)) (omega arith) there)
]
  where
    apart : contains lines start ≡ false → Dec (start ≡ k) → start + 1 ≤ k
    apart out (yes same) = absurd (cc)
    apart out (no ne) = omega arith

-- The lines of a located finding: from its line to its end line, or its line alone.
abbrev pub TouchesLines : List ℕ → ℕ → ℕ → Type 0
TouchesLines lines start end =
    (k : ℕ) × (start ≤ k) × ((k ≤ end) ⊎ (k ≡ start)) × (contains lines k ≡ true)

any_line_iff :
    (lines : List ℕ) (start end : ℕ)
    → (any_line lines start (range_end start end + 1 - start) ≡ true) ↔ TouchesLines lines start end
any_line_iff lines start end = (forth, back)
  where
    forth :
        any_line lines start (range_end start end + 1 - start) ≡ true → TouchesLines lines start end
    forth h =
        let (k, lo, hi, there) = any_line→HasLine lines start _ h in (k, lo, ground arith, there)

    back :
        TouchesLines lines start end → any_line lines start (range_end start end + 1 - start) ≡ true
    back (k, lo, hi, there) = HasLine→any_line lines start _ k lo (ground arith) there

abbrev pub Touches : Finding → List ℕ → Type 0
Touches f lines =
    (f.location ≡ none)
    ⊎ ((l : Location) × (f.location ≡ some l)
        × ((l.line ≡ 0) ⊎ TouchesLines lines l.line l.end_line))

-- What it means for a finding to lie in the changed region.
abbrev pub InRegion : Finding → ChangedLines → Type 0
InRegion f c =
    (contains c.whole_files f.file ≡ true)
    ⊎ ((lines : List ℕ) × (lookup f.file c.lines_by_file ≡ some lines) × Touches f lines)

matches_located :
    (f : Finding) (c : ChangedLines) (lines : List ℕ) (l : Location)
    → contains c.whole_files f.file ≡ false
    → lookup f.file c.lines_by_file ≡ some lines
    → f.location ≡ some l
    → matches_finding f c ≡ (
        if l.line == 0
        then true
        else any_line lines l.line (range_end l.line l.end_line + 1 - l.line))
unfolding matches_finding
matches_located f c lines l out at here = rw (out, at, here)

matches→InRegion : (f : Finding) (c : ChangedLines) → matches_finding f c ≡ true → InRegion f c
unfolding matches_finding
matches→InRegion f c h = elim (Bool-cases (contains c.whole_files f.file)) [
  | inl whole ↦ inl whole
  | inr out ↦ elim (Option-cases (lookup f.file c.lines_by_file)) [
    | inl missing ↦ absurd (ground arith)
    | inr (lines, at) ↦ inr (
      lines,
      at,
      elim (Option-cases f.location) [
        | inl unlocated ↦ inl unlocated
        | inr (l, here) ↦
            let g = sym (matches_located f c lines l out at here) ∙ h in
            inr (
              l,
              here,
              elim (ℕ_discrete l.line 0) [
                | yes zero_line ↦ inl zero_line
                | no placed ↦ inr ((any_line_iff lines l.line l.end_line).0 (ground arith))
              ],
            )
      ],
    )
  ]
]

InRegion→matches : (f : Finding) (c : ChangedLines) → InRegion f c → matches_finding f c ≡ true
unfolding matches_finding
InRegion→matches f c (inl whole) = ground arith
InRegion→matches f c (inr (lines, at, inl unlocated)) = ground arith
InRegion→matches f c (inr (lines, at, inr (l, here, touch))) =
    elim (Bool-cases (contains c.whole_files f.file)) [
      | inl whole ↦ ground arith
      | inr out ↦ matches_located f c lines l out at here ∙ (elim touch [
        | inl zero_line ↦ ground arith
        | inr lines_touch ↦
            let hit = (any_line_iff lines l.line l.end_line).1 lines_touch in ground arith
      ])
    ]

-- A finding is in the changed region exactly if its file is changed as a whole, or the file has a
-- line set and the finding has no line, or one of the lines from its first to its last is
-- changed, the first alone where no later end is given.
pub matches_finding_iff :
    (f : Finding) (c : ChangedLines) → (matches_finding f c ≡ true) ↔ InRegion f c
matches_finding_iff f c = (matches→InRegion f c, InRegion→matches f c)

-- Filtering keeps, in order, the findings in the changed region, and counts the ones it drops.
pub filter_findings_lem :
    (fs : List Finding) (c : ChangedLines)
    → ((filter_findings fs c).findings ≡ keep_if (λ f. matches_finding f c) fs)
      × (length (filter_findings fs c).findings + (filter_findings fs c).filtered_findings
          ≡ length fs)
unfolding filter_findings
filter_findings_lem [] c = (refl, omega arith)
filter_findings_lem (f ∷ fs) c =
    let (same, total) = filter_findings_lem fs c in
    elim (Bool-cases (matches_finding f c)) [
      | inl t ↦ rw t (ap (λ r. f ∷ r) same, omega arith)
      | inr n ↦ rw n (same, omega arith)
    ]
