-- ===== src/Diff/Coverage.antt =====
-- Merge of internal/diff/diff.go: the merged change covers what one of its sets covers.
use gruff_go.Base.{
  ℕ, ◌≡◌, refl, ◌∙◌, ◌||◌, List, [], ◌∷◌, Text, text_key, nat_eq, contains, lookup, arith, any_of,
  All,
}
use gruff_go.Diff.Changed.{
  ChangedLines, nothing_changed, merge_whole, merge_lines, merge_sets, merge,
}
use gruff_go.Diff.Merging.{covers, IsMap, map_covers-lookup, covers-merge_lines, covers-merge_whole}

merge_set-covers :
    (c m : ChangedLines) (f : Text) (n : ℕ)
    → IsMap c.lines_by_file
    → covers (merge_lines c.lines_by_file (merge_whole c.whole_files m)) f n
      ≡ (covers m f n || covers c f n)
merge_set-covers c m f n h =
    rw (covers-merge_lines, covers-merge_whole)
      (ground (arith, map_covers-lookup c.lines_by_file f n h))

covers-merge_sets :
    (cs : List ChangedLines) (m : ChangedLines) (f : Text) (n : ℕ)
    → All (λ c. IsMap c.lines_by_file) cs
    → covers (merge_sets cs m) f n ≡ (covers m f n || any_of (λ c. covers c f n) cs)
unfolding merge_sets
covers-merge_sets [] m f n h = ground arith
covers-merge_sets (c ∷ cs) m f n h =
    covers-merge_sets cs (merge_lines c.lines_by_file (merge_whole c.whole_files m)) f n h.1 ∙ split
  where
    split :
        (covers (merge_lines c.lines_by_file (merge_whole c.whole_files m)) f n
          || any_of (λ d. covers d f n) cs)
        ≡ (covers m f n || (covers c f n || any_of (λ d. covers d f n) cs))
    split = rw (merge_set-covers c m f n h.0) (ground arith)

-- A merged change covers a line of a file exactly if one of the merged changes covers it, each of them
-- having one line set for a file.
pub covers-merge :
    (base : Text) (cs : List ChangedLines) (f : Text) (n : ℕ)
    → All (λ c. IsMap c.lines_by_file) cs
    → covers (merge base cs) f n ≡ any_of (λ c. covers c f n) cs
unfolding merge
covers-merge base cs f n h = covers-merge_sets cs (nothing_changed base) f n h ∙ start
  where
    start :
        (covers (nothing_changed base) f n || any_of (λ c. covers c f n) cs)
        ≡ any_of (λ c. covers c f n) cs
    start = unfold contains lookup in refl
