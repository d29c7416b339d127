-- ===== src/Diff/Merging.antt =====
-- What each loop of Merge in internal/diff/diff.go does to the set of covered lines.
use gruff_go.Base.{
  ℕ, ◌≡◌, refl, ◌∙◌, inl, inr, Bool, false, ◌||◌, ◌&&◌, Option, none, some, List, [], ◌∷◌, Text,
  text_key, nat_eq, contains, set_insert, lookup, remove, contains-set_insert, lookup-insert,
  lookup-remove, if◌then◌else◌, arith, Bool-cases, text_eq, text_eq→eq, text_eq_self,
}
use gruff_go.Diff.Changed.{
  ChangedLines, LineMap, seen_files, add_lines, merge_whole, merge_file, merge_lines,
  lines_or_empty,
}

-- A finding on this line of this file is in the changed region.
abbrev pub line_in : Option (List ℕ) → ℕ → Bool
line_in none n = false
line_in (some lines) n = contains lines n

abbrev pub covers : ChangedLines → Text → ℕ → Bool
covers c f n = contains c.whole_files f || line_in (lookup f c.lines_by_file) n

pub ||_assoc : (a b c : Bool) → ((a || b) || c) ≡ (a || (b || c))
||_assoc a b c = ground arith

pub contains-seen_files :
    (files seen : List Text) (f : Text)
    → contains (seen_files files seen) f ≡ (contains files f || contains seen f)
unfolding seen_files
contains-seen_files [] seen f = unfold contains in refl
contains-seen_files (g ∷ files) seen f = contains-seen_files files (set_insert g seen) f ∙ split
  where
    split :
        (contains files f || contains (set_insert g seen) f)
        ≡ (contains (g ∷ files) f || contains seen f)
    split = rw contains-set_insert (unfold contains in ground arith)

pub contains-add_lines :
    (lines s : List ℕ) (n : ℕ) → contains (add_lines lines s) n ≡ (contains lines n || contains s n)
unfolding add_lines
contains-add_lines [] s n = unfold contains in refl
contains-add_lines (l ∷ lines) s n = contains-add_lines lines (set_insert l s) n ∙ split
  where
    split :
        (contains lines n || contains (set_insert l s) n) ≡ (contains (l ∷ lines) n || contains s n)
    split = rw contains-set_insert (unfold contains in ground arith)

pub merge_whole-whole :
    (files : List Text) (m : ChangedLines) (f : Text)
    → contains (merge_whole files m).whole_files f ≡ (contains files f || contains m.whole_files f)
unfolding merge_whole
merge_whole-whole [] m f = unfold contains in refl
merge_whole-whole (g ∷ files) m f = merge_whole-whole files _ f ∙ split
  where
    split :
        (contains files f || contains (set_insert g m.whole_files) f)
        ≡ (contains (g ∷ files) f || contains m.whole_files f)
    split = rw contains-set_insert (unfold contains in ground arith)

pub merge_whole-lookup :
    (files : List Text) (m : ChangedLines) (f : Text)
    → lookup f (merge_whole files m).lines_by_file
      ≡ (if contains files f then none else lookup f m.lines_by_file)
unfolding merge_whole
merge_whole-lookup [] m f = unfold contains in refl
merge_whole-lookup (g ∷ files) m f = merge_whole-lookup files _ f ∙ split
  where
    split :
        (if contains files f then none else lookup f (remove g m.lines_by_file))
        ≡ (if contains (g ∷ files) f then none else lookup f m.lines_by_file)
    split = rw lookup-remove (unfold contains in ground arith)

pub covers-merge_whole :
    (files : List Text) (m : ChangedLines) (f : Text) (n : ℕ)
    → covers (merge_whole files m) f n ≡ (contains files f || covers m f n)
covers-merge_whole files m f n = rw (merge_whole-whole, merge_whole-lookup) (ground arith)

pub merge_file-lookup :
    (g : Text) (lines : List ℕ) (m : ChangedLines) (f : Text)
    → lookup f (merge_file g lines m).lines_by_file ≡ (
        if contains m.whole_files g
        then lookup f m.lines_by_file
        else if text_eq g f
        then some (add_lines lines (lines_or_empty (lookup g m.lines_by_file)))
        else lookup f m.lines_by_file)
unfolding merge_file
merge_file-lookup g lines m f = elim (Bool-cases (contains m.whole_files g)) [
  | inl t ↦ rw (t, merge_file)
  | inr n ↦ rw (n, merge_file, lookup-insert)
]

pub merge_file-whole :
    (g : Text) (lines : List ℕ) (m : ChangedLines)
    → (merge_file g lines m).whole_files ≡ m.whole_files
unfolding merge_file
merge_file-whole g lines m = ground arith

line_in-or_empty : (o : Option (List ℕ)) (n : ℕ) → contains (lines_or_empty o) n ≡ line_in o n
unfolding contains
line_in-or_empty none n = refl
line_in-or_empty (some lines) n = refl

pub covers-merge_file :
    (g : Text) (lines : List ℕ) (m : ChangedLines) (f : Text) (n : ℕ)
    → covers (merge_file g lines m) f n ≡ (covers m f n || (text_eq g f && contains lines n))
covers-merge_file g lines m f n = elim (Bool-cases (text_eq g f)) [
  | inl t ↦
      let e = text_eq→eq g f t in
      rw (e, merge_file-whole, merge_file-lookup, text_eq_self f)
        (ground (
          arith,
          contains-add_lines lines (lines_or_empty (lookup f m.lines_by_file)) n,
          line_in-or_empty (lookup f m.lines_by_file) n,
        ))
  | inr other ↦ rw (merge_file-whole, merge_file-lookup, other) (ground arith)
]

-- Some entry of a line map has this file and this line.
abbrev pub map_covers : LineMap → Text → ℕ → Bool
map_covers [] f n = false
map_covers ((g, lines) ∷ m) f n = (text_eq g f && contains lines n) || map_covers m f n

pub covers-merge_lines :
    (lm : LineMap) (m : ChangedLines) (f : Text) (n : ℕ)
    → covers (merge_lines lm m) f n ≡ (covers m f n || map_covers lm f n)
unfolding merge_lines
covers-merge_lines [] m f n = ground arith
covers-merge_lines ((g, lines) ∷ lm) m f n =
    covers-merge_lines lm (merge_file g lines m) f n ∙ split
  where
    split :
        (covers (merge_file g lines m) f n || map_covers lm f n)
        ≡ (covers m f n || ((text_eq g f && contains lines n) || map_covers lm f n))
    split = rw covers-merge_file (ground arith)

-- The keys of a Go map are distinct.
abbrev pub IsMap : LineMap → Type 0
IsMap [] = Unit
IsMap ((g, _) ∷ m) = (lookup g m ≡ none) × IsMap m

pub map_covers-lookup :
    (lm : LineMap) (f : Text) (n : ℕ) → IsMap lm → map_covers lm f n ≡ line_in (lookup f lm) n
unfolding lookup
map_covers-lookup [] f n h = refl
map_covers-lookup ((g, lines) ∷ lm) f n h = elim (Bool-cases (text_eq g f)) [
  | inl t ↦
      let absent = h.0 in
      let e = text_eq→eq g f t in
      let later = map_covers-lookup lm f n h.1 in
      let none_there : lookup f lm ≡ none = rw e at absent in
      rw (t, later, none_there) (ground arith)
  | inr other ↦ rw (other, lookup) (map_covers-lookup lm f n h.1)
]
