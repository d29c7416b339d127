-- ===== src/Pathfilter/First.antt =====
-- Which pattern internal/pathfilter/pathfilter.go reports, and the two spellings of a directory.
use gruff_go.Base.{
  ℕ, ◌≡◌, refl, ap, inl, inr, Bool, true, false, Option, none, some, List, [], ◌∷◌, ◌++◌, Text,
  has_prefix, has_suffix, trim_prefix, any_of, All, codes, append_assoc, arith, Bool-cases,
}
use mathlib.Core.List.{reverse-append}
use gruff_go.Pathfilter.Patterns.{whole_pattern, matches, first_match, matches_any}

module _ (clean : Text → Text) (glob : Text → Text → Option Bool) where
  abbrev pub IsFirst : List Text → Text → Option Text → Type 0
  IsFirst patterns rel none = All (λ p. matches clean glob p rel ≡ false) patterns
  IsFirst patterns rel (some p) =
      (before : List Text) × (after : List Text) × (patterns ≡ before ++ (p ∷ after))
      × (matches clean glob p rel ≡ true)
      × All (λ q. matches clean glob q rel ≡ false) before

  IsFirst-cons :
      (candidate : Text) (patterns : List Text) (rel : Text) (o : Option Text)
      → matches clean glob candidate rel ≡ false
      → IsFirst patterns rel o
      → IsFirst (candidate ∷ patterns) rel o
  IsFirst-cons candidate patterns rel none n h = (n, h)
  IsFirst-cons candidate patterns rel (some p) n (before, after, e, m, others) =
      (candidate ∷ before, after, ap (λ r. candidate ∷ r) e, m, (n, others))

  first_match-IsFirst :
      (patterns : List Text) (rel : Text)
      → IsFirst patterns rel (first_match clean glob patterns rel)
  unfolding first_match
  first_match-IsFirst [] rel = tt
  first_match-IsFirst (candidate ∷ patterns) rel =
      elim (Bool-cases (matches clean glob candidate rel)) [
        | inl t ↦ rw t ([], patterns, refl, t, tt)
        | inr n ↦ rw n (
            IsFirst-cons candidate patterns rel (first_match clean glob patterns rel) n
              (first_match-IsFirst patterns rel))
      ]

  any_of-is_match :
      (patterns : List Text) (rel : Text)
      → matches_any clean glob patterns rel ≡ any_of (λ p. matches clean glob p rel) patterns
  unfolding matches_any first_match
  any_of-is_match [] rel = refl
  any_of-is_match (candidate ∷ patterns) rel =
      elim (Bool-cases (matches clean glob candidate rel)) [
        | inl t ↦ rw t refl
        | inr n ↦ rw n (any_of-is_match patterns rel)
      ]

  -- FirstMatch gives the first pattern of the list that matches, or nothing where none does, and
  -- MatchesAny tells whether one does.
  pub first_match_lem :
      (patterns : List Text) (rel : Text)
      → IsFirst patterns rel (first_match clean glob patterns rel)
        × (matches_any clean glob patterns rel ≡ any_of (λ p. matches clean glob p rel) patterns)
  first_match_lem patterns rel = (first_match-IsFirst patterns rel, any_of-is_match patterns rel)

  ends_in_slash : (s : Text) → has_suffix (s ++ codes "/") (codes "/") ≡ true
  unfolding has_suffix has_prefix
  ends_in_slash s = rw (reverse-append s (codes "/")) refl

  ends_in_stars : (s : Text) → has_suffix (s ++ codes "/**") (codes "/") ≡ false
  unfolding has_suffix has_prefix
  ends_in_stars s = rw (reverse-append s (codes "/**")) refl

  -- The prefix "./" is taken off in front of what follows it.
  trim_dot :
      (c d : ℕ) (s t : Text)
      → trim_prefix ((c ∷ d ∷ s) ++ t) (codes "./") ≡ trim_prefix (c ∷ d ∷ s) (codes "./") ++ t
  unfolding trim_prefix has_prefix
  trim_dot c d s t = ground arith

  whole_dir :
      (s : Text)
      → whole_pattern clean glob (s ++ codes "/") ≡ whole_pattern clean glob (s ++ codes "/**")
  whole_dir s = rw (ends_in_slash s, ends_in_stars s, append_assoc) refl

  -- A directory spelled with a last slash and with "/**" is one pattern, for any directory of two
  -- bytes or more.
  pub matches_dir :
      (c d : ℕ) (dir rel : Text)
      → matches clean glob ((c ∷ d ∷ dir) ++ codes "/") rel
        ≡ matches clean glob ((c ∷ d ∷ dir) ++ codes "/**") rel
  unfolding matches
  matches_dir c d dir rel =
      rw
        (
          trim_dot c d dir (codes "/"),
          trim_dot c d dir (codes "/**"),
          whole_dir (trim_prefix (c ∷ d ∷ dir) (codes "./")),
        )
        refl
