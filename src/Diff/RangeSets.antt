-- ===== src/Diff/RangeSets.antt =====
-- What parseRangeSet of internal/diff/diff.go accepts, and the lines that it returns.
use gruff_go.Base.{
  ℕ, ◌+◌, ◌-◌, ◌≡◌, ◌≤◌, refl, sym, ◌∙◌, inl, inr, true, false, ◌||◌, List, [], ◌∷◌, Text, nat_eq,
  contains, arith, Bool-cases, split, any_of, ◌==◌, ◌↔◌, Any, ap, any_of-Any, Any→any_of, All,
}
use gruff_go.Diff.Ranges.{
  range, parse_entry, RangeResult, lines, bad_entry, no_ranges, unending, range_loop,
  parse_range_set, non_empty_set,
}
use gruff_go.Diff.Changed.{add_lines}
use gruff_go.Diff.Patch.{counted_lines, max_int}
use gruff_go.Diff.Merging.{contains-add_lines}
use gruff_go.Diff.Hunks.{contains-counted_lines}
use gruff_go.Diff.Entries.{
  entry_has, parse_entry-IsProper, Entry-cases, parse_entry_iff, HasLine, entry_has_iff, IsFine,
  parse_entry-blank, blank_only,
}

contains-range :
    (start end k : ℕ)
    → 1 ≤ start
    → start ≤ end
    → contains (counted_lines start (end + 1 - start)) k ≡ entry_has (range start end) k
contains-range start end k lo hi = contains-counted_lines start (end + 1 - start) k ∙ ground arith

contains-range_loop :
    (parts : List Text) (out set : List ℕ) (k : ℕ)
    → range_loop parts out ≡ lines set
    → contains set k ≡ (contains out k || any_of (λ p. entry_has (parse_entry p) k) parts)
unfolding range_loop
contains-range_loop [] out set k e = ground arith
contains-range_loop (part ∷ parts) out set k e = elim (Entry-cases (parse_entry part)) [
  | inl b ↦ let g = rw (b, range_loop) at e in rw b (contains-range_loop parts out set k g)
  | inr (inl i) ↦ absurd (let g = rw (i, range_loop) at e in cc)
  | inr (inr (start, end, r)) ↦
      let g = below_max start end set (rw (r, range_loop) at e) in
      let proper = parse_entry-IsProper part in
      let (lo, hi) = rw r at proper in
      rw (r, contains-range_loop parts _ set k g, contains-add_lines)
        (ground (arith, contains-range start end k lo hi))
]
  where
    below_max :
        (start end : ℕ) (set : List ℕ)
        → (elim (end == max_int) [
          | true ↦ unending
          | false ↦ range_loop parts (add_lines (counted_lines start (end + 1 - start)) out)
        ])
          ≡ lines set
        → range_loop parts (add_lines (counted_lines start (end + 1 - start)) out) ≡ lines set
    below_max start end set h = elim (Bool-cases (end == max_int)) [
      | inl t ↦ absurd (let g = rw t at h in cc)
      | inr n ↦ rw n at h
    ]

range_loop-IsFine :
    (parts : List Text) (out set : List ℕ) → range_loop parts out ≡ lines set → All IsFine parts
unfolding range_loop
range_loop-IsFine [] out set e = tt
range_loop-IsFine (part ∷ parts) out set e = elim (Entry-cases (parse_entry part)) [
  | inl b ↦ (inl (blank_only part b), range_loop-IsFine parts out set (rw (b, range_loop) at e))
  | inr (inl i) ↦ absurd (let g = rw (i, range_loop) at e in cc)
  | inr (inr (start, end, r)) ↦ elim (Bool-cases (end == max_int)) [
    | inl t ↦ absurd (let g = rw (r, t, range_loop) at e in cc)
    | inr n ↦ (
      inr (start, end, ((parse_entry_iff part start end).0 r, ground arith)),
      range_loop-IsFine parts _ set (rw (r, n, range_loop) at e),
    )
  ]
]

range_loop-lines :
    (parts : List Text) (out : List ℕ)
    → All IsFine parts
    → (set : List ℕ) × (range_loop parts out ≡ lines set)
unfolding range_loop
range_loop-lines [] out h = (out, refl)
range_loop-lines (part ∷ parts) out (inl empty, rest) =
    let (set, e) = range_loop-lines parts out rest in
    (set, rw (parse_entry-blank part empty, range_loop) e)
range_loop-lines (part ∷ parts) out (inr (start, end, (entry, other)), rest) =
    let (set, e) =
      range_loop-lines parts (add_lines (counted_lines start (end + 1 - start)) out) rest in
    let n : (end == max_int) ≡ false = ground arith in
    (set, rw ((parse_entry_iff part start end).1 entry, n, range_loop) e)

Any-imp :
    {P Q : Text → Type 0}
    → ((p : Text) → P p → Q p)
    → (parts : List Text) → Any P parts
    → Any Q parts
Any-imp f [] h = absurd h
Any-imp f (p ∷ parts) (inl now) = inl (f p now)
Any-imp f (p ∷ parts) (inr later) = inr (Any-imp f parts later)

accepted : (r : RangeResult) (set : List ℕ) → non_empty_set r ≡ lines set → r ≡ lines set
accepted (lines []) set h = absurd (cc)
accepted (lines (x ∷ xs)) set h = h
accepted (bad_entry entry) set h = absurd (cc)
accepted no_ranges set h = absurd (cc)
accepted unending set h = absurd (cc)

filled : (set : List ℕ) (k : ℕ) → contains set k ≡ true → non_empty_set (lines set) ≡ lines set
unfolding contains
filled [] k h = absurd (cc)
filled (x ∷ xs) k h = refl

-- A range list is accepted, with a given line in its set, exactly if each entry between its commas is
-- blank, a positive number or two such numbers with a dash between, the second no smaller, neither
-- the greatest int, and the line lies in the range of some entry.
pub parse_range_set-lines :
    (raw : Text) (k : ℕ)
    → ((set : List ℕ) × (parse_range_set raw ≡ lines set) × (contains set k ≡ true))
      ↔ (All IsFine (split b',' raw) × Any (HasLine k) (split b',' raw))
unfolding parse_range_set
parse_range_set-lines raw k = (forth, back)
  where
    parts : List Text
    parts = split b',' raw

    covered :
        (set : List ℕ)
        → range_loop parts [] ≡ lines set
        → contains set k ≡ any_of (λ p. entry_has (parse_entry p) k) parts
    covered set e = contains-range_loop parts [] set k e ∙ (unfold contains in refl)

    forth :
        (set : List ℕ) × (parse_range_set raw ≡ lines set) × (contains set k ≡ true)
        → All IsFine parts × Any (HasLine k) parts
    forth (set, e, there) =
        let inner = accepted (range_loop parts []) set e in
        (
          range_loop-IsFine parts [] set inner,
          Any-imp (λ p. (entry_has_iff k p).0) parts
              (any_of-Any _ parts (sym (covered set inner) ∙ there)),
        )

    back :
        All IsFine parts × Any (HasLine k) parts
        → (set : List ℕ) × (parse_range_set raw ≡ lines set) × (contains set k ≡ true)
    back (fine, some_line) =
        let (set, inner) = range_loop-lines parts [] fine in
        let there =
          covered set inner
          ∙ Any→any_of _ parts (Any-imp (λ p. (entry_has_iff k p).1) parts some_line) in
        (set, ap non_empty_set inner ∙ filled set k there, there)
