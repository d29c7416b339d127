-- ===== src/Scoring/Offenders.antt =====
-- topOffenders of internal/scoring/scoring.go: the worst files of a run.
use gruff_go.Base.{
  ℕ, zero, suc, ◌≡◌, ◌⊎◌, ◌≤◌, refl, ap, inl, inr, true, false, List, [], ◌∷◌, ◌++◌, map, Text,
  length, take, drop, sort_by, sort_by-perm, sort_by-IsSorted, is_gt, TextLe, TextLe-trans,
  IsRanked, sorted-IsRanked, ◌<◌, ◌∙◌, text_compare_total, arith,
}
use mathlib.Core.List.{Perm}
use gruff_go.Scoring.Points.{Float}
use gruff_go.Scoring.Tally.{FileScore}
use gruff_go.Scoring.Totals.{file_score, compare_offenders, top_offenders}

take-append-drop {ℓ} : {A : Type ℓ} (n : ℕ) (xs : List A) → take n xs ++ drop n xs ≡ xs
take-append-drop zero xs = refl
take-append-drop (suc n) [] = refl
take-append-drop (suc n) (x ∷ xs) = ap (λ r. x ∷ r) (take-append-drop n xs)

length-take-le {ℓ} : {A : Type ℓ} (n : ℕ) (xs : List A) → length (take n xs) ≤ n
length-take-le zero xs = omega arith
length-take-le (suc n) [] = omega arith
length-take-le (suc n) (x ∷ xs) = omega (arith, length-take-le n xs)

-- Only a list that is too short is taken whole.
take_full {ℓ} : {A : Type ℓ} (n : ℕ) (xs : List A) → (drop n xs ≡ []) ⊎ (length (take n xs) ≡ n)
take_full zero xs = inr refl
take_full (suc n) [] = inl refl
take_full (suc n) (x ∷ xs) = elim (take_full n xs) [ inl e ↦ inl e | inr e ↦ inr (ap suc e) ]

compare_offenders_total :
    (a b : FileScore) → is_gt (compare_offenders a b) ≡ true → is_gt (compare_offenders b a) ≡ false
compare_offenders_total a b h = ground (arith, text_compare_total a.file b.file)

-- One file is worse than another: by its penalty, or with the same penalty by its name.
abbrev pub IsWorse : FileScore → FileScore → Type 0
IsWorse a b = (b.penalty < a.penalty) ⊎ ((a.penalty ≡ b.penalty) × TextLe a.file b.file)

compare_offenders-IsWorse : (a b : FileScore) → is_gt (compare_offenders a b) ≡ false → IsWorse a b
compare_offenders-IsWorse a b h = ground arith

IsWorse-trans : (a b c : FileScore) → IsWorse a b → IsWorse b c → IsWorse a c
IsWorse-trans a b c (inl h) (inl k) = inl (omega arith)
IsWorse-trans a b c (inl h) (inr (e, k)) = inl (omega arith)
IsWorse-trans a b c (inr (e, h)) (inl k) = inl (omega arith)
IsWorse-trans a b c (inr (e, h)) (inr (d, k)) = inr (e ∙ d, TextLe-trans a.file b.file c.file h k)

module _ {F : Type 0} (fl : Float F) where
  -- The result is the start of a list of the scores of all files in which each file has a greater
  -- penalty than every later one, or the same penalty and a name that does not come after. It has at
  -- most five files, and fewer only where it has all of them.
  pub top_offenders_lem :
      (penalties : List (Text × F)) (findings most : List (Text × ℕ))
      → (rest : List FileScore) × Perm
          (top_offenders fl penalties findings most ++ rest)
          (map (file_score fl findings most) penalties)
        × IsRanked IsWorse (top_offenders fl penalties findings most ++ rest)
        × (length (top_offenders fl penalties findings most) ≤ 5)
        × ((rest ≡ []) ⊎ (length (top_offenders fl penalties findings most) ≡ 5))
  unfolding top_offenders
  top_offenders_lem penalties findings most =
      let files = map (file_score fl findings most) penalties in
      let sorted = sort_by compare_offenders files in
      let e = take-append-drop 5 sorted in
      (
        drop 5 sorted,
        rw e (sort_by-perm compare_offenders files),
        rw e (
            sorted-IsRanked IsWorse compare_offenders compare_offenders-IsWorse IsWorse-trans sorted
              (sort_by-IsSorted compare_offenders compare_offenders_total files)),
        length-take-le 5 sorted,
        take_full 5 sorted,
      )
