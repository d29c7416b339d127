-- ===== src/Base/Sort.antt =====
-- slices.SortFunc, as a stable insertion sort by a three-way comparison.
use Prim.Native.Nat.{suc, Ordering}
use mathlib.Core.Path.{◌≡◌, refl}
use mathlib.Core.Logic.{inl, inr}
use mathlib.Core.Bool.{Bool, true, false}
use mathlib.Core.List.{List, [], ◌∷◌, Perm}
use mathlib.Core.List.Perm
use native.Mathlib.Omega.{arith}
use gruff_go.Base.Tests.{if◌then◌else◌, Bool-cases}
use gruff_go.Base.Lists.{length, count_if, All}

abbrev pub is_gt : Ordering → Bool
is_gt Ordering.gt = true
is_gt _ = false

module _ {ℓ} {A : Type ℓ} (cmp : A → A → Ordering) where
  unfoldable pub insert_sorted : A → List A → List A
  insert_sorted x [] = x ∷ []
  insert_sorted x (y ∷ ys) = if is_gt (cmp x y) then y ∷ insert_sorted x ys else x ∷ y ∷ ys

  unfoldable pub sort_by : List A → List A
  unfolding insert_sorted
  sort_by [] = []
  sort_by (x ∷ xs) = insert_sorted x (sort_by xs)

  -- No item stands before one that it is greater than.
  abbrev pub IsSorted : List A → Type 0
  IsSorted [] = Unit
  IsSorted (x ∷ []) = Unit
  IsSorted (x ∷ y ∷ ys) = (is_gt (cmp x y) ≡ false) × IsSorted (y ∷ ys)

  count_if-insert_sorted :
      (p : A → Bool) (x : A) (xs : List A) → count_if p (insert_sorted x xs) ≡ count_if p (x ∷ xs)
  unfolding insert_sorted
  count_if-insert_sorted p x [] = refl
  count_if-insert_sorted p x (y ∷ ys) = ground (arith, count_if-insert_sorted p x ys)

  pub count_if-sort_by : (p : A → Bool) (xs : List A) → count_if p (sort_by xs) ≡ count_if p xs
  unfolding sort_by
  count_if-sort_by p [] = refl
  count_if-sort_by p (x ∷ xs) =
      ground (arith, count_if-insert_sorted p x (sort_by xs), count_if-sort_by p xs)

  length-insert_sorted : (x : A) (xs : List A) → length (insert_sorted x xs) ≡ suc (length xs)
  unfolding insert_sorted
  length-insert_sorted x [] = refl
  length-insert_sorted x (y ∷ ys) = ground (arith, length-insert_sorted x ys)

  pub length-sort_by : (xs : List A) → length (sort_by xs) ≡ length xs
  unfolding sort_by
  length-sort_by [] = refl
  length-sort_by (x ∷ xs) = ground (arith, length-insert_sorted x (sort_by xs), length-sort_by xs)

  insert_sorted-perm : (x : A) (xs : List A) → Perm (insert_sorted x xs) (x ∷ xs)
  unfolding insert_sorted
  insert_sorted-perm x [] = Perm.rfl
  insert_sorted-perm x (y ∷ ys) =
      either (is_gt (cmp x y))
        (Perm.trans (Perm.cons y (insert_sorted-perm x ys)) (Perm.swap x y ys))
    where
      either :
          (b : Bool)
          → Perm (y ∷ insert_sorted x ys) (x ∷ y ∷ ys)
          → Perm (if b then y ∷ insert_sorted x ys else x ∷ y ∷ ys) (x ∷ y ∷ ys)
      either true behind = behind
      either false _ = Perm.rfl

  pub sort_by-perm : (xs : List A) → Perm (sort_by xs) xs
  unfolding sort_by
  sort_by-perm [] = Perm.rfl
  sort_by-perm (x ∷ xs) =
      Perm.trans (insert_sorted-perm x (sort_by xs)) (Perm.cons x (sort_by-perm xs))

  module _ (total : (x y : A) → is_gt (cmp x y) ≡ true → is_gt (cmp y x) ≡ false) where
    insert_sorted-IsSorted_under :
        (z x : A) (xs : List A)
        → is_gt (cmp z x) ≡ false
        → IsSorted (z ∷ xs)
        → IsSorted (insert_sorted x xs)
        → IsSorted (z ∷ insert_sorted x xs)
    unfolding insert_sorted
    insert_sorted-IsSorted_under z x [] h s t = ground arith
    insert_sorted-IsSorted_under z x (y ∷ ys) h s t = ground arith

    insert_sorted-IsSorted : (x : A) (xs : List A) → IsSorted xs → IsSorted (insert_sorted x xs)
    unfolding insert_sorted
    insert_sorted-IsSorted x [] s = tt
    insert_sorted-IsSorted x (y ∷ []) s = ground (arith, total x y)
    insert_sorted-IsSorted x (y ∷ z ∷ zs) s = ground (
      arith,
      total x y,
      insert_sorted-IsSorted_under y x (z ∷ zs),
      insert_sorted-IsSorted x (z ∷ zs),
    )

    pub sort_by-IsSorted : (xs : List A) → IsSorted (sort_by xs)
    unfolding sort_by
    sort_by-IsSorted [] = tt
    sort_by-IsSorted (x ∷ xs) = insert_sorted-IsSorted x (sort_by xs) (sort_by-IsSorted xs)

  All-insert_sorted {κ} :
      (P : A → Type κ) (x : A) (xs : List A) → P x → All P xs → All P (insert_sorted x xs)
  unfolding insert_sorted
  All-insert_sorted P x [] p h = (p, tt)
  All-insert_sorted P x (y ∷ ys) p h = elim (Bool-cases (is_gt (cmp x y))) [
    | inl t ↦ rw t (h.0, All-insert_sorted P x ys p h.1)
    | inr f ↦ rw f (p, (h.0, h.1))
  ]

  pub All-sort_by {κ} : (P : A → Type κ) (xs : List A) → All P xs → All P (sort_by xs)
  unfolding sort_by
  All-sort_by P [] h = tt
  All-sort_by P (x ∷ xs) h = All-insert_sorted P x (sort_by xs) h.0 (All-sort_by P xs h.1)
