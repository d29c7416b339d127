-- ===== src/Diff/Hunks.antt =====
-- addHunkLines of internal/diff/diff.go: the lines that a hunk header adds.
use gruff_go.Base.{
  ℕ, zero, suc, ◌+◌, ◌%◌, ◌≤◌, refl, ◌≡◌, ◌∙◌, inl, inr, Bool, false, ◌||◌, ◌&&◌, Option, none,
  some, List, [], ◌∷◌, Text, text_key, nat_eq, contains, lookup, insert, lookup-insert,
  if◌then◌else◌, arith, Bool-cases, Option-cases, text_eq, text_eq→eq, ltb, ◌==◌, leb,
}
use gruff_go.Finding.{is_empty}
use gruff_go.Diff.Changed.{ChangedLines, add_lines}
use gruff_go.Diff.Patch.{
  find_hunk, hunk_lines, wrapped, max_int, counted_lines, add_hunk_lines, atoi_digits,
}
use gruff_go.Diff.Merging.{contains-add_lines, covers}

pub contains-counted_lines :
    (start n k : ℕ) → contains (counted_lines start n) k ≡ (leb start k && ltb k (start + n))
unfolding contains
contains-counted_lines start zero k = ground arith
contains-counted_lines start (suc n) k = ground (arith, contains-counted_lines (start + 1) n k)

-- What a hunk header says: with no count, one line; with a count of zero, the line before the cut,
-- or the first line; otherwise `count` lines from `start`.
abbrev pub hunk_has : ℕ → Option ℕ → ℕ → Bool
hunk_has start none k = k == start
hunk_has start (some zero) k = k == (if ltb start 1 then 1 else start)
hunk_has start (some (suc n)) k = leb start k && ltb k (start + suc n)

abbrev pub count_of : Text → Option ℕ
count_of digits = if is_empty digits then none else some (atoi_digits digits)

-- The lines of a hunk do not exceed what 64 bits hold.
wrapped-counted_lines :
    (start n : ℕ)
    → start + n ≤ 18446744073709551616
    → wrapped (counted_lines start n) ≡ counted_lines start n
wrapped-counted_lines start zero h = refl
wrapped-counted_lines start (suc n) h =
    let first : start % 18446744073709551616 ≡ start = omega arith in
    rw (first, wrapped-counted_lines (start + 1) n (omega arith)) refl

atoi_digits-le : (s : Text) → atoi_digits s ≤ 9223372036854775807
unfolding atoi_digits max_int
atoi_digits-le s = ground arith

contains-hunk_lines :
    (start count : Text) (k : ℕ)
    → contains (hunk_lines start count) k ≡ hunk_has (atoi_digits start) (count_of count) k
unfolding hunk_lines
contains-hunk_lines start count k = elim (Bool-cases (is_empty count)) [
  | inl absent ↦
      rw (absent, wrapped-counted_lines (atoi_digits start) 1 (omega (arith, atoi_digits-le start)))
        (one_line (atoi_digits start))
  | inr present ↦ rw present (
      counted (atoi_digits start) (atoi_digits count) (atoi_digits-le start) (atoi_digits-le count))
]
  where
    one_line : (s : ℕ) → contains (counted_lines s 1) k ≡ (k == s)
    one_line s = contains-counted_lines s 1 k ∙ ground arith

    counted :
        (s n : ℕ)
        → s ≤ 9223372036854775807
        → n ≤ 9223372036854775807
        → contains
            (if n == 0 then (if ltb s 1 then 1 else s) ∷ [] else wrapped (counted_lines s n))
            k
          ≡ hunk_has s (some n) k
    counted s zero hs hn = unfold contains in ground arith
    counted s (suc n) hs hn =
        let positive : (suc n == 0) ≡ false = ground arith in
        rw (positive, wrapped-counted_lines s (suc n) (omega arith))
          (contains-counted_lines s (suc n) k)

-- On a file that is not changed as a whole, adding a hunk header that matches the pattern makes the
-- change cover, of that file, the lines that the header's start and count stand for, and nothing else
-- that it did not cover before.
pub covers-add_hunk_lines :
    (c : ChangedLines) (file line start count : Text) (after : ChangedLines)
    → contains c.whole_files file ≡ false
    → find_hunk line ≡ some (start, count)
    → add_hunk_lines c file line ≡ some after
    → (f : Text) (k : ℕ)
    → covers after f k
      ≡ (covers c f k || (text_eq file f && hunk_has (atoi_digits start) (count_of count) k))
unfolding add_hunk_lines
covers-add_hunk_lines c file line start count after out found e f k =
    elim (Option-cases (lookup file c.lines_by_file)) [
      | inl missing ↦ absurd (let g = rw (out, found, missing) at e in cc)
      | inr (lines, at) ↦
          let g = rw (out, found, at) at e in
          let same : with_lines lines ≡ after = ground arith in
          rw (← same) (elim (Bool-cases (text_eq file f)) [
            | inr other ↦ rw (lookup-insert, other) (ground arith)
            | inl t ↦
                let here = text_eq→eq file f t in
                let at' : lookup f c.lines_by_file ≡ some lines = rw (← here) at in
                rw (lookup-insert, t, at', contains-add_lines, contains-hunk_lines) (ground arith)
          ])
    ]
  where
    with_lines : List ℕ → ChangedLines
    with_lines lines = record c {
      lines_by_file = insert file (add_lines (hunk_lines start count) lines) c.lines_by_file;
    }
