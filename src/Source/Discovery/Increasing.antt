-- ===== src/Source/Discovery/Increasing.antt =====
-- Sorting and removing neighbours of one text, as normalize of internal/source/source.go does.
use gruff_go.Base.{
  text_eq→eq, is_gt, Ordering, IsSorted, sort_by-IsSorted, text_compare, text_compare_eq,
  text_compare_total, text_eq_iff, ◌≡◌, inl, inr, false, List, [], ◌∷◌, Text, text_eq, sort_by,
  arith, Bool-cases,
}
use gruff_go.Source.Discovery.Walker.{dedupe_loop, dedupe}

-- The text of each item comes before that of the next.
abbrev pub IsIncreasing : {A : Type 0} → (A → Text) → List A → Type 0
IsIncreasing key [] = Unit
IsIncreasing key (x ∷ []) = Unit
IsIncreasing key (x ∷ y ∷ ys) =
    (text_compare (key x) (key y) ≡ Ordering.lt) × IsIncreasing key (y ∷ ys)

module _ {A : Type 0} (key : A → Text) where
  lt_of_le :
      (a b : A)
      → is_gt (text_compare (key a) (key b)) ≡ false
      → text_eq (key b) (key a) ≡ false
      → text_compare (key a) (key b) ≡ Ordering.lt
  lt_of_le a b h n = ground (arith, text_compare_eq (key a) (key b), text_eq_iff (key b) (key a))

  -- A sorted list without an item of the text of the one before it.
  dedupe_loop-IsIncreasing :
      (x : A) (xs : List A)
      → IsSorted (λ a b. text_compare (key a) (key b)) (x ∷ xs)
      → IsIncreasing key (x ∷ dedupe_loop (λ a b. text_eq (key a) (key b)) x xs)
  unfolding dedupe_loop
  dedupe_loop-IsIncreasing x [] h = tt
  dedupe_loop-IsIncreasing x (y ∷ ys) h = elim (Bool-cases (text_eq (key y) (key x))) [
    | inl t ↦ rw t (dedupe_loop-IsIncreasing x ys (joined ys (text_eq→eq (key y) (key x) t) h.1))
    | inr n ↦ rw n (lt_of_le x y h.0 n, dedupe_loop-IsIncreasing y ys h.1)
  ]
    where
      joined :
          (ys : List A)
          → key y ≡ key x
          → IsSorted (λ a b. text_compare (key a) (key b)) (y ∷ ys)
          → IsSorted (λ a b. text_compare (key a) (key b)) (x ∷ ys)
      joined [] e s = tt
      joined (z ∷ zs) e s = (rw (← e) s.0, s.1)

  pub normalized-IsIncreasing :
      (xs : List A)
      → IsIncreasing key (
          dedupe
            (λ a b. text_eq (key a) (key b))
            (sort_by (λ a b. text_compare (key a) (key b)) xs))
  normalized-IsIncreasing xs = strict (sort_by (λ a b. text_compare (key a) (key b)) xs) (
      sort_by-IsSorted (λ a b. text_compare (key a) (key b))
        (λ a b h. ground (arith, text_compare_total (key a) (key b))) xs)
    where
      strict :
          (ys : List A)
          → IsSorted (λ a b. text_compare (key a) (key b)) ys
          → IsIncreasing key (dedupe (λ a b. text_eq (key a) (key b)) ys)
      strict [] s = tt
      strict (y ∷ ys) s = dedupe_loop-IsIncreasing y ys s
