-- ===== src/Diff/Panics.antt =====
-- Parse of internal/diff/diff.go never writes to a missing line set.
use gruff_go.Base.{
  ℕ, ◌≡◌, refl, inl, inr, ◌⊎◌, Bool, true, false, ◌||◌, Option, none, some, List, [], ◌∷◌, Text,
  text_key, nat_eq, contains, lookup, insert, set_insert, contains-set_insert, lookup-insert,
  if◌then◌else◌, Bool-cases, Option-cases, has_prefix, codes, text_eq, text_eq_self, split,
}
use gruff_go.Finding.{is_empty}
use gruff_go.Diff.Changed.{ChangedLines, add_lines, nothing_changed, refresh_changed_files}
use gruff_go.Diff.Merging.{IsMap}
use gruff_go.Diff.Maps.{insert-IsMap, mark-IsMap}
use gruff_go.Diff.Patch.{
  PatchParseState, parse_new_file, mark_parsed_file, find_hunk, hunk_lines, add_hunk_lines,
  parse_patch_line, parse_lines, parse_start, parse,
}

-- The current file, if there is one, is wholly changed or has a line set.
abbrev pub IsTracked : ChangedLines → Text → Type 0
IsTracked c file =
    (is_empty file ≡ true)
    ⊎ (contains c.whole_files file ≡ true)
    ⊎ ((lines : List ℕ) × (lookup file c.lines_by_file ≡ some lines))

mark-IsTracked :
    (c : ChangedLines) (file : Text) (new : Bool) → IsTracked (mark_parsed_file c file new) file
unfolding mark_parsed_file
mark-IsTracked c file new = elim (Bool-cases (is_empty file)) [
  | inl e ↦ inl e
  | inr named ↦ rw (named, mark_parsed_file) (inr (marked new))
]
  where
    missing : Option (List ℕ) → ChangedLines
    missing o = elim o [
      | some _ ↦ c
      | none ↦ record c { lines_by_file = insert file [] c.lines_by_file }
    ]

    unseen :
        (o : Option (List ℕ))
        → lookup file c.lines_by_file ≡ o
        → (lines : List ℕ) × (lookup file (missing o).lines_by_file ≡ some lines)
    unseen (some lines) e = (lines, e)
    unseen none e = ([], rw (lookup-insert, text_eq_self file))

    marked :
        (b : Bool)
        → (contains
              (if b
                then record c { whole_files = set_insert file c.whole_files }
                else missing (lookup file c.lines_by_file)).whole_files
              file
            ≡ true)
          ⊎ ((lines : List ℕ) × (lookup file
                  (if b
                    then record c { whole_files = set_insert file c.whole_files }
                    else missing (lookup file c.lines_by_file)).lines_by_file
                ≡ some lines))
    marked true = inl (rw (contains-set_insert, text_eq_self file))
    marked false = inr (unseen (lookup file c.lines_by_file) refl)

add-IsTracked :
    (c : ChangedLines) (file line : Text)
    → is_empty file ≡ false
    → IsTracked c file
    → IsMap c.lines_by_file
    → (after : ChangedLines) × (add_hunk_lines c file line ≡ some after)
      × IsTracked after file
      × IsMap after.lines_by_file
unfolding add_hunk_lines
add-IsTracked c file line named (inl e) h = absurd (cc)
add-IsTracked c file line named (inr (inl whole)) h =
    (c, rw (whole, add_hunk_lines), inr (inl whole), h)
add-IsTracked c file line named (inr (inr (lines, at))) h =
    elim (Bool-cases (contains c.whole_files file)) [
      | inl whole ↦ (c, rw (whole, add_hunk_lines), inr (inl whole), h)
      | inr out ↦ elim (Option-cases (find_hunk line)) [
        | inl none_found ↦ (c, rw (out, none_found, add_hunk_lines), inr (inr (lines, at)), h)
        | inr ((start, count), found) ↦ (
          record c {
            lines_by_file = insert file (add_lines (hunk_lines start count) lines) c.lines_by_file;
          },
          rw (out, found, at, add_hunk_lines),
          inr (
              inr
                (add_lines (hunk_lines start count) lines, rw (lookup-insert, text_eq_self file))),
          insert-IsMap file _ c.lines_by_file h,
        )
      ]
    ]

parse_patch_line-IsTracked :
    (c : ChangedLines) (s : PatchParseState) (line : Text)
    → IsTracked c s.current_file
    → IsMap c.lines_by_file
    → (c' : ChangedLines) × (s' : PatchParseState) × (parse_patch_line c s line ≡ some (c', s'))
      × IsTracked c' s'.current_file
      × IsMap c'.lines_by_file
unfolding parse_patch_line
parse_patch_line-IsTracked c s line h k = elim (Bool-cases header) [
  | inl t ↦ (c, record { current_file = []; new_file = false }, rw t, inl refl, k)
  | inr no_header ↦ elim (Bool-cases new_mode) [
    | inl t ↦ (c, record s { new_file = true }, rw (no_header, t), h, k)
    | inr no_mode ↦ elim (Bool-cases (has_prefix line (codes "+++ "))) [
      | inl t ↦ (
        mark_parsed_file c (parse_new_file line) s.new_file,
        record s { current_file = parse_new_file line },
        rw (no_header, no_mode, t),
        mark-IsTracked c (parse_new_file line) s.new_file,
        mark-IsMap c (parse_new_file line) s.new_file k,
      )
      | inr no_name ↦ elim (Bool-cases (is_empty s.current_file)) [
        | inl unnamed ↦ (c, s, rw (no_header, no_mode, no_name, unnamed), h, k)
        | inr named ↦ elim (Bool-cases (has_prefix line (codes "@@ "))) [
          | inr plain ↦ (c, s, rw (no_header, no_mode, no_name, named, plain), h, k)
          | inl hunk ↦
              let (after, e, h', k') = add-IsTracked c s.current_file line named h k in
              (after, s, rw (no_header, no_mode, no_name, named, hunk, e), h', k')
        ]
      ]
    ]
  ]
]
  where
    header : Bool
    header = has_prefix line (codes "diff --git ")

    new_mode : Bool
    new_mode = has_prefix line (codes "new file mode ") || text_eq line (codes "--- /dev/null")

parse_lines_total :
    (lines : List Text) (c : ChangedLines) (s : PatchParseState)
    → IsTracked c s.current_file
    → IsMap c.lines_by_file
    → (r : ChangedLines × PatchParseState) × (parse_lines lines c s ≡ some r)
      × IsMap r.0.lines_by_file
unfolding parse_lines
parse_lines_total [] c s h k = ((c, s), refl, k)
parse_lines_total (line ∷ lines) c s h k =
    let (c', s', e, h', k') = parse_patch_line-IsTracked c s line h k in
    let (r, e', k'') = parse_lines_total lines c' s' h' k' in (r, rw (e, parse_lines) e', k'')

-- Parsing any patch text returns a change: the line set that a hunk header writes to is never missing,
-- so the write to a nil map cannot happen. Each file has one line set.
pub parse_total :
    (base patch : Text) → (c : ChangedLines) × (parse base patch ≡ some c) × IsMap c.lines_by_file
unfolding parse
parse_total base patch =
    let (r, e, k) =
      parse_lines_total (split 10 patch) (nothing_changed base) parse_start (inl refl) tt in
    (refresh_changed_files r.0, rw (e, parse), unfold refresh_changed_files in k)
