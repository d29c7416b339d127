-- ===== src/Diff/Listing.antt =====
-- refreshChangedFiles and the shape of the change that Merge returns, in internal/diff/diff.go.
use gruff_go.Base.{
  ℕ, ◌≡◌, refl, ap, ◌∙◌, inl, inr, true, false, ◌||◌, none, some, List, [], ◌∷◌, Text, Ordering,
  text_key, nat_eq, contains, lookup, arith, Bool-cases, sort_by, insert_sorted, is_gt, IsSorted,
  sort_by-IsSorted, text_compare, text_compare_total, text_eq, text_eq→eq, text_eq_iff, set_insert,
}
use gruff_go.Diff.Changed.{
  ChangedLines, LineMap, nothing_changed, merge_whole, merge_file, merge_lines, merge_sets, merge,
  seen_files, line_files, refresh_changed_files,
}
use gruff_go.Diff.Scope.{file_changed}
use gruff_go.Diff.Merging.{
  contains-seen_files, merge_whole-whole, merge_whole-lookup, merge_file-whole, merge_file-lookup,
}

module _ (cmp : Text → Text → Ordering) where
  contains-insert_sorted :
      (x : Text) (xs : List Text) (f : Text)
      → contains (insert_sorted cmp x xs) f ≡ (text_eq x f || contains xs f)
  unfolding insert_sorted contains
  contains-insert_sorted x [] f = refl
  contains-insert_sorted x (y ∷ ys) f = ground (arith, contains-insert_sorted x ys f)

  pub contains-sort_by : (xs : List Text) (f : Text) → contains (sort_by cmp xs) f ≡ contains xs f
  unfolding sort_by contains
  contains-sort_by [] f = refl
  contains-sort_by (x ∷ xs) f =
      contains-insert_sorted x (sort_by cmp xs) f
      ∙ ap (λ b. text_eq x f || b) (contains-sort_by xs f)

contains-line_files :
    (m : LineMap) (f : Text)
    → contains (line_files m) f ≡ (elim (lookup f m) [ none ↦ false | some _ ↦ true ])
unfolding contains lookup
contains-line_files [] f = refl
contains-line_files ((g, lines) ∷ m) f = ground (arith, contains-line_files m f)

text_order_total : (s t : Text) → is_gt (text_compare s t) ≡ true → is_gt (text_compare t s) ≡ false
text_order_total s t h = ground (arith, text_compare_total s t)

contains-nil : (f : Text) → contains [] f ≡ false
unfolding contains
contains-nil f = refl

-- No file is listed twice.
abbrev pub IsDistinct : List Text → Type 0
IsDistinct [] = Unit
IsDistinct (f ∷ fs) = (contains fs f ≡ false) × IsDistinct fs

module _ (cmp : Text → Text → Ordering) where
  insert_sorted-IsDistinct :
      (x : Text) (xs : List Text)
      → contains xs x ≡ false
      → IsDistinct xs
      → IsDistinct (insert_sorted cmp x xs)
  unfolding insert_sorted contains
  insert_sorted-IsDistinct x [] h d = (refl, tt)
  insert_sorted-IsDistinct x (y ∷ ys) h d = elim (Bool-cases (is_gt (cmp x y))) [
    | inr n ↦ rw n (h, d)
    | inl t ↦ rw t (
      contains-insert_sorted cmp x ys y ∙ ground (arith, text_eq→eq x y, text_eq_iff y x),
      insert_sorted-IsDistinct x ys (ground arith) d.1,
    )
  ]

  sort_by-IsDistinct : (xs : List Text) → IsDistinct xs → IsDistinct (sort_by cmp xs)
  unfolding sort_by
  sort_by-IsDistinct [] d = tt
  sort_by-IsDistinct (x ∷ xs) d =
      insert_sorted-IsDistinct x (sort_by cmp xs) (contains-sort_by cmp xs x ∙ d.0)
        (sort_by-IsDistinct xs d.1)

seen_files-IsDistinct : (fs seen : List Text) → IsDistinct seen → IsDistinct (seen_files fs seen)
unfolding seen_files set_insert
seen_files-IsDistinct [] seen d = d
seen_files-IsDistinct (f ∷ fs) seen d = elim (Bool-cases (contains seen f)) [
  | inl t ↦ rw t (seen_files-IsDistinct fs seen d)
  | inr n ↦ rw n (seen_files-IsDistinct fs (f ∷ seen) (n, d))
]

-- The refreshed list of changed files has exactly the files that the change answers for, those
-- changed as a whole and those with a line set, each of them once, and is sorted.
pub refresh-changed_files :
    (c : ChangedLines)
    → ((f : Text)
        → contains (refresh_changed_files c).changed_files f
          ≡ file_changed (refresh_changed_files c) f)
      × IsDistinct (refresh_changed_files c).changed_files
      × IsSorted text_compare (refresh_changed_files c).changed_files
unfolding refresh_changed_files file_changed
refresh-changed_files c = (
  listed,
  sort_by-IsDistinct text_compare seen (
      seen_files-IsDistinct c.whole_files _
        (seen_files-IsDistinct (line_files c.lines_by_file) [] tt)),
  sort_by-IsSorted text_compare text_order_total _,
)
  where
    seen : List Text
    seen = seen_files c.whole_files (seen_files (line_files c.lines_by_file) [])

    listed : (f : Text) → contains (sort_by text_compare seen) f ≡ file_changed c f
    listed f =
        contains-sort_by text_compare seen f
        ∙ contains-seen_files c.whole_files (seen_files (line_files c.lines_by_file) []) f
        ∙ ground (
          arith,
          contains-seen_files (line_files c.lines_by_file) [] f,
          contains-line_files c.lines_by_file f,
          contains-nil f,
        )

-- A file is either wholly changed or has a line set, never both.
abbrev pub IsSplit : ChangedLines → Type 0
IsSplit c = (f : Text) → contains c.whole_files f ≡ true → lookup f c.lines_by_file ≡ none

merge_whole-IsSplit :
    (files : List Text) (m : ChangedLines) → IsSplit m → IsSplit (merge_whole files m)
merge_whole-IsSplit files m h f whole =
    let e = merge_whole-whole files m f in rw merge_whole-lookup (ground (arith, h f))

merge_file-IsSplit :
    (g : Text) (lines : List ℕ) (m : ChangedLines) → IsSplit m → IsSplit (merge_file g lines m)
merge_file-IsSplit g lines m h f whole =
    let same = merge_file-whole g lines m in
    let whole' : contains m.whole_files f ≡ true = rw same at whole in
    elim (Bool-cases (text_eq g f)) [
      | inl t ↦ let e = text_eq→eq g f t in rw (merge_file-lookup, e, whole') (h f whole')
      | inr other ↦ rw (merge_file-lookup, other) (ground (arith, h f))
    ]

merge_lines-IsSplit : (lm : LineMap) (m : ChangedLines) → IsSplit m → IsSplit (merge_lines lm m)
unfolding merge_lines
merge_lines-IsSplit [] m h = h
merge_lines-IsSplit ((g, lines) ∷ lm) m h =
    merge_lines-IsSplit lm (merge_file g lines m) (merge_file-IsSplit g lines m h)

merge_sets-IsSplit :
    (cs : List ChangedLines) (m : ChangedLines) → IsSplit m → IsSplit (merge_sets cs m)
unfolding merge_sets
merge_sets-IsSplit [] m h = h
merge_sets-IsSplit (c ∷ cs) m h =
    merge_sets-IsSplit cs (merge_lines c.lines_by_file (merge_whole c.whole_files m))
      (merge_lines-IsSplit c.lines_by_file _ (merge_whole-IsSplit c.whole_files m h))

-- A merged change keeps no line set for a file that it lists as changed as a whole.
pub merge-IsSplit :
    (base : Text) (cs : List ChangedLines) (f : Text)
    → contains (merge base cs).whole_files f ≡ true
    → lookup f (merge base cs).lines_by_file ≡ none
unfolding merge
merge-IsSplit base cs =
    merge_sets-IsSplit cs (nothing_changed base) (λ f h. absurd (let n = contains-nil f in cc))
