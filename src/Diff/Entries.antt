-- ===== src/Diff/Entries.antt =====
-- What one entry of a range list stands for, in parseRangeSet of internal/diff/diff.go.
use gruff_go.Base.{
  ℕ, ◌≡◌, ◌≤◌, ◌≢◌, refl, inl, inr, ◌⊎◌, Bool, true, false, ◌&&◌, Option, none, some, List, [], ◌∷◌,
  Text, nat_eq, arith, Bool-cases, split, trim_space, leb, ◌↔◌, Option-cases,
}
use gruff_go.Diff.Ranges.{
  RangeEntry, blank, invalid, range, parse_entry, atoi, range_bounds, range_from,
}
use gruff_go.Finding.{is_empty}
use gruff_go.Diff.Patch.{max_int}

abbrev pub entry_has : RangeEntry → ℕ → Bool
entry_has (range start end) k = leb start k && leb k end
entry_has _ k = false

-- An accepted entry is a range of positive line numbers.
abbrev pub IsProper : RangeEntry → Type 0
IsProper (range start end) = (1 ≤ start) × (start ≤ end)
IsProper _ = Unit

range_from-IsProper : (first : Option ℕ) (rest : List Text) → IsProper (range_from first rest)
range_from-IsProper none rest = tt
range_from-IsProper (some start) [] = ground arith
range_from-IsProper (some start) (last ∷ []) = ground arith
range_from-IsProper (some start) (_ ∷ _ ∷ _) = tt

range_bounds-IsProper : (parts : List Text) → IsProper (range_bounds parts)
range_bounds-IsProper [] = tt
range_bounds-IsProper (first ∷ rest) = range_from-IsProper (atoi first) rest

pub parse_entry-IsProper : (part : Text) → IsProper (parse_entry part)
unfolding parse_entry
parse_entry-IsProper part = elim (Bool-cases (is_empty (trim_space part))) [
  | inl t ↦ rw (t, parse_entry) tt
  | inr n ↦ rw (n, parse_entry) (range_bounds-IsProper (split b'-' (trim_space part)))
]

pub Entry-cases :
    (e : RangeEntry)
    → (e ≡ blank) ⊎ (e ≡ invalid) ⊎ ((start : ℕ) × (end : ℕ) × (e ≡ range start end))
Entry-cases blank = inl refl
Entry-cases invalid = inr (inl refl)
Entry-cases (range start end) = inr (inr (start, end, refl))

-- The texts on the two sides of the dash, if there is one, and their values.
abbrev FromBounds : Option ℕ → List Text → ℕ → ℕ → Type 0
FromBounds first [] start end = (first ≡ some start) × (end ≡ start)
FromBounds first (last ∷ []) start end = (first ≡ some start) × (atoi last ≡ some end)
FromBounds first (_ ∷ _ ∷ _) start end = ⊥

abbrev Bounds : List Text → ℕ → ℕ → Type 0
Bounds [] start end = ⊥
Bounds (first ∷ rest) start end = FromBounds (atoi first) rest start end

-- An entry is a positive number, or two of them with a dash between, the second no smaller.
abbrev pub IsEntry : Text → ℕ → ℕ → Type 0
IsEntry part start end =
    Bounds (split b'-' (trim_space part)) start end × ((1 ≤ start) × (start ≤ end))

range_from→ :
    (first : Option ℕ) (rest : List Text) (start end : ℕ)
    → range_from first rest ≡ range start end
    → FromBounds first rest start end × ((1 ≤ start) × (start ≤ end))
range_from→ none rest start end h = absurd (cc)
range_from→ (some a) [] start end h = ground arith
range_from→ (some a) (last ∷ []) start end h = elim (Option-cases (atoi last)) [
  | inl none_there ↦ absurd (let g = rw none_there at h in ground arith)
  | inr (b, e) ↦ let g = rw e at h in ground arith
]
range_from→ (some a) (_ ∷ _ ∷ _) start end h = absurd (cc)

range_from← :
    (first : Option ℕ) (rest : List Text) (start end : ℕ)
    → FromBounds first rest start end
    → 1 ≤ start
    → start ≤ end
    → range_from first rest ≡ range start end
range_from← first [] start end (e, d) lo hi = rw (e, d) (ground arith)
range_from← first (last ∷ []) start end (e, d) lo hi = rw (e, d) (ground arith)
range_from← first (_ ∷ _ ∷ _) start end b lo hi = absurd b

range_bounds→ :
    (parts : List Text) (start end : ℕ)
    → range_bounds parts ≡ range start end
    → Bounds parts start end × ((1 ≤ start) × (start ≤ end))
range_bounds→ [] start end h = absurd (cc)
range_bounds→ (first ∷ rest) start end h = range_from→ (atoi first) rest start end h

range_bounds← :
    (parts : List Text) (start end : ℕ)
    → Bounds parts start end
    → 1 ≤ start
    → start ≤ end
    → range_bounds parts ≡ range start end
range_bounds← [] start end b lo hi = absurd b
range_bounds← (first ∷ rest) start end b lo hi = range_from← (atoi first) rest start end b lo hi

no_blank-Bounds :
    (text : Text) (start end : ℕ) → Bounds (split b'-' text) start end → is_empty text ≡ false
unfolding split atoi
no_blank-Bounds [] start end b = absurd (cc)
no_blank-Bounds (c ∷ text) start end b = refl

pub parse_entry_iff :
    (part : Text) (start end : ℕ) → (parse_entry part ≡ range start end) ↔ IsEntry part start end
unfolding parse_entry
parse_entry_iff part start end = (
  λ h. elim (Bool-cases (is_empty (trim_space part))) [
    | inl t ↦ absurd (let g = rw (t, parse_entry) at h in cc)
    | inr n ↦ range_bounds→ _ start end (rw (n, parse_entry) at h)
  ],
  λ (b, (lo, hi)).
      rw (no_blank-Bounds (trim_space part) start end b, parse_entry)
        (range_bounds← _ start end b lo hi),
)

-- The line lies in an entry's range.
abbrev pub HasLine : ℕ → Text → Type 0
HasLine k part = (start : ℕ) × (end : ℕ) × (IsEntry part start end × ((start ≤ k) × (k ≤ end)))

pub entry_has_iff : (k : ℕ) (part : Text) → (entry_has (parse_entry part) k ≡ true) ↔ HasLine k part
entry_has_iff k part = (
  λ h. elim (Entry-cases (parse_entry part)) [
    | inl b ↦ absurd (let g = rw b at h in cc)
    | inr (inl i) ↦ absurd (let g = rw i at h in cc)
    | inr (inr (start, end, r)) ↦
        let g = rw r at h in
        (start, end, ((parse_entry_iff part start end).0 r, (ground arith, ground arith)))
  ],
  λ (start, end, (entry, (lo, hi))). rw ((parse_entry_iff part start end).1 entry) (ground arith),
)

-- An entry is blank, or a range that ends below the greatest int.
abbrev pub IsFine : Text → Type 0
IsFine part =
    (is_empty (trim_space part) ≡ true)
    ⊎ ((start : ℕ) × (end : ℕ) × (IsEntry part start end × (end ≢ max_int)))

pub parse_entry-blank : (part : Text) → is_empty (trim_space part) ≡ true → parse_entry part ≡ blank
unfolding parse_entry
parse_entry-blank part t = rw t refl

-- Only a blank entry is read as one.
pub blank_only : (part : Text) → parse_entry part ≡ blank → is_empty (trim_space part) ≡ true
unfolding parse_entry
blank_only part h = elim (Bool-cases (is_empty (trim_space part))) [
  | inl t ↦ t
  | inr n ↦ absurd (not_blank (split b'-' (trim_space part)) (rw (n, parse_entry) at h))
]
  where
    from_not_blank : (first : Option ℕ) (rest : List Text) → range_from first rest ≢ blank
    from_not_blank none rest h = cc
    from_not_blank (some a) [] h = ground arith
    from_not_blank (some a) (last ∷ []) h = elim (Option-cases (atoi last)) [
      | inl e ↦ let g = rw e at h in ground arith
      | inr (b, e) ↦ let g = rw e at h in ground arith
    ]
    from_not_blank (some a) (_ ∷ _ ∷ _) h = cc

    not_blank : (parts : List Text) → range_bounds parts ≢ blank
    not_blank [] h = cc
    not_blank (first ∷ rest) h = from_not_blank (atoi first) rest h
