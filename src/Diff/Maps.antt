-- ===== src/Diff/Maps.antt =====
-- Distinct keys of LinesByFile are kept by the writes of Parse in internal/diff/diff.go.
use gruff_go.Base.{
  ℕ, ◌≡◌, refl, inl, inr, Bool, false, none, List, [], ◌∷◌, Text, text_eq, text_eq→eq, text_eq_iff,
  text_key, nat_eq, lookup, insert, lookup-insert, arith, Bool-cases,
}
use gruff_go.Diff.Changed.{ChangedLines, LineMap}
use gruff_go.Diff.Patch.{mark_parsed_file}
use gruff_go.Diff.Merging.{IsMap}

pub insert-IsMap : (k : Text) (v : List ℕ) (m : LineMap) → IsMap m → IsMap (insert k v m)
unfolding insert
insert-IsMap k v [] h = (unfold lookup in refl, tt)
insert-IsMap k v ((j, w) ∷ m) h = elim (Bool-cases (text_eq j k)) [
  | inl t ↦ rw t (let absent = h.0 in rw (text_eq→eq j k t) at absent, h.1)
  | inr other ↦ rw other (absent other, insert-IsMap k v m h.1)
]
  where
    absent : text_eq j k ≡ false → lookup j (insert k v m) ≡ none
    absent other = rw lookup-insert (ground (arith, text_eq_iff j k, text_eq_iff k j, h.0))

pub mark-IsMap :
    (c : ChangedLines) (file : Text) (new : Bool)
    → IsMap c.lines_by_file
    → IsMap (mark_parsed_file c file new).lines_by_file
unfolding mark_parsed_file
mark-IsMap c file new h = ground (arith, insert-IsMap file [] c.lines_by_file h)
