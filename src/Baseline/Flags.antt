-- ===== src/Baseline/Flags.antt =====
-- The flag slices of Baseline/Pairing: their lengths, and the items that a flag selects.
use gruff_go.Base.{
  ℕ, zero, suc, ◌+◌, ◌≡◌, ◌<◌, refl, ap, ◌∙◌, Bool, true, false, inl, inr, some, List, [], ◌∷◌,
  get_elem?, length, Eq, All, arith, Bool-cases, Option-cases, length-set, count_true,
  count_if-le-length,
}
use gruff_go.Baseline.Pairing.{Pairing, Round, take_next, consume, flag_at}
use gruff_go.Baseline.Apply.{with_flag}

pub flag_clear :
    (flags : List Bool) (i : ℕ)
    → i < length flags
    → flag_at flags i ≡ false
    → get_elem? flags i ≡ some false
flag_clear [] i lt h = elim lt [ ]
flag_clear (b ∷ flags) zero lt h = ap some h
flag_clear (b ∷ flags) (suc i) lt h = flag_clear flags i (omega arith) h

abbrev pub SameLengths : Pairing → Pairing → Type 0
SameLengths p q =
    (length p.current_matched ≡ length q.current_matched)
    × (length p.baseline_matched ≡ length q.baseline_matched)

module _ {K : Type 0} ⦃e : Eq K⦄ where
  length-take_next :
      (queues : K → List ℕ) (k : K) (i : ℕ) (r : Round K)
      → SameLengths (take_next queues k i r).pairing r.pairing
  unfolding take_next
  length-take_next queues k i r = elim (Option-cases (get_elem? (queues k) (r.next k))) [
    | inl none_left ↦ rw (none_left, take_next) (refl, refl)
    | inr (j, row) ↦
        rw (row, take_next)
          (
            length-set r.pairing.current_matched i true,
            length-set r.pairing.baseline_matched j true,
          )
  ]

  pub length-consume :
      {F : Type 0} (takes : Pairing → ℕ → F → Bool) (key : F → K) (queues : K → List ℕ) (i : ℕ)
      (fs : List F) (r : Round K)
      → SameLengths (consume takes key queues i fs r).pairing r.pairing
  unfolding consume
  length-consume takes key queues i [] r = (refl, refl)
  length-consume takes key queues i (f ∷ fs) r = elim (Bool-cases (takes r.pairing i f)) [
    | inl t ↦
        let after = take_next queues (key f) i r in
        let (c, b) = length-consume takes key queues (i + 1) fs after in
        let (c', b') = length-take_next queues (key f) i r in rw (t, consume) (c ∙ c', b ∙ b')
    | inr n ↦ rw (n, consume) (length-consume takes key queues (i + 1) fs r)
  ]

module _ {A : Type 0} where
  pub length-with_flag-true :
      (flags : List Bool) (xs : List A)
      → length flags ≡ length xs
      → length (with_flag true flags xs) ≡ count_true flags
  unfolding with_flag
  length-with_flag-true [] xs h = refl
  length-with_flag-true (b ∷ flags) [] h = absurd (omega arith)
  length-with_flag-true (b ∷ flags) (x ∷ xs) h = ground (arith, length-with_flag-true flags xs)

  pub length-with_flag-false :
      (flags : List Bool) (xs : List A)
      → length flags ≡ length xs
      → length (with_flag false flags xs) + count_true flags ≡ length xs
  unfolding with_flag
  length-with_flag-false [] [] h = omega arith
  length-with_flag-false [] (x ∷ xs) h = absurd (omega arith)
  length-with_flag-false (b ∷ flags) [] h = absurd (omega arith)
  length-with_flag-false (b ∷ flags) (x ∷ xs) h = ground (arith, length-with_flag-false flags xs)

  pub with_flag_all :
      (flags : List Bool) (xs : List A)
      → length flags ≡ length xs
      → count_true flags ≡ length flags
      → (with_flag true flags xs ≡ xs) × (with_flag false flags xs ≡ [])
  unfolding with_flag
  with_flag_all [] [] h c = (refl, refl)
  with_flag_all [] (x ∷ xs) h c = absurd (omega arith)
  with_flag_all (b ∷ flags) [] h c = absurd (omega arith)
  with_flag_all (b ∷ flags) (x ∷ xs) h c =
      ground (arith, with_flag_all flags xs, count_if-le-length (λ (y : Bool). y) flags)

  pub All-with_flag-true :
      (P : A → Type 0) (flags : List Bool) (xs : List A)
      → ((n : ℕ) (x : A) → get_elem? flags n ≡ some true → get_elem? xs n ≡ some x → P x)
      → All P (with_flag true flags xs)
  unfolding with_flag
  All-with_flag-true P [] xs h = tt
  All-with_flag-true P (b ∷ flags) [] h = tt
  All-with_flag-true P (true ∷ flags) (x ∷ xs) h =
      (h 0 x refl refl, All-with_flag-true P flags xs (λ n y f g. h (suc n) y f g))
  All-with_flag-true P (false ∷ flags) (x ∷ xs) h =
      All-with_flag-true P flags xs (λ n y f g. h (suc n) y f g)
