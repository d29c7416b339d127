-- ===== src/Base/Ranked.antt =====
-- What an order by several keys says: of each two items of a sorted list, the first comes first.
use Prim.Native.Nat.{ℕ, ◌<◌, Ordering, compare}
use mathlib.Core.Path.{◌≡◌, refl, sym, ◌∙◌, subst}
use mathlib.Core.Logic.{◌⊎◌, inl, inr}
use mathlib.Core.Bool.{false, not}
use mathlib.Core.List.{List, [], ◌∷◌}
use native.Mathlib.Omega.{arith}
use gruff_go.Base.Tests.{if◌then◌else◌, Bool-cases, ◌==◌}
use gruff_go.Base.Lists.{All, All-imp}
use gruff_go.Base.Strings.{Text, text_eq, text_eq→eq, text_eq_iff, text_compare, text_compare_eq}
use gruff_go.Base.Sort.{is_gt, IsSorted}

module _ {ℓ} {A : Type ℓ} (R : A → A → Type 0) where
  -- Each item stands before all that come after it.
  abbrev pub IsRanked : List A → Type 0
  IsRanked [] = Unit
  IsRanked (x ∷ xs) = All (R x) xs × IsRanked xs

  module _ (cmp : A → A → Ordering) (reads : (x y : A) → is_gt (cmp x y) ≡ false → R x y)
      (trans : (x y z : A) → R x y → R y z → R x z) where
    pub sorted-IsRanked : (xs : List A) → IsSorted cmp xs → IsRanked xs
    sorted-IsRanked [] h = tt
    sorted-IsRanked (x ∷ []) h = (tt, tt)
    sorted-IsRanked (x ∷ y ∷ ys) h =
        let later = sorted-IsRanked (y ∷ ys) h.1 in
        let first = reads x y h.0 in ((first, All-imp ys (λ z. trans x y z first) later.0), later)

-- By one key first, and by the rest where it is the same.
abbrev pub Lex : {A K : Type 0} → (K → K → Type 0) → (A → K) → (A → A → Type 0) → A → A → Type 0
Lex lt key rest a b = lt (key a) (key b) ⊎ ((key a ≡ key b) × rest a b)

pub Lex-trans :
    {A K : Type 0} (lt : K → K → Type 0) (key : A → K) (rest : A → A → Type 0)
    → ((x y z : K) → lt x y → lt y z → lt x z)
    → ((a b c : A) → rest a b → rest b c → rest a c)
    → (a b c : A) → Lex lt key rest a b
    → Lex lt key rest b c
    → Lex lt key rest a c
Lex-trans lt key rest t r a b c (inl h) (inl k) = inl (t (key a) (key b) (key c) h k)
Lex-trans lt key rest t r a b c (inl h) (inr (e, k)) = inl (subst (λ x. lt (key a) x) e h)
Lex-trans lt key rest t r a b c (inr (e, h)) (inl k) = inl (subst (λ x. lt x (key c)) (sym e) k)
Lex-trans lt key rest t r a b c (inr (e, h)) (inr (d, k)) = inr (e ∙ d, r a b c h k)

-- The byte order of texts, and its strict part.
abbrev pub TextLt : Text → Text → Type 0
TextLt s t = text_compare s t ≡ Ordering.lt

abbrev pub TextLe : Text → Text → Type 0
TextLe s t = is_gt (text_compare s t) ≡ false

pub TextLt-trans : (s t u : Text) → TextLt s t → TextLt t u → TextLt s u
unfolding text_compare
TextLt-trans [] [] u h k = absurd (ground arith)
TextLt-trans [] (d ∷ t) [] h k = absurd (ground arith)
TextLt-trans [] (d ∷ t) (e ∷ u) h k = refl
TextLt-trans (c ∷ s) [] u h k = absurd (ground arith)
TextLt-trans (c ∷ s) (d ∷ t) [] h k = absurd (ground arith)
TextLt-trans (c ∷ s) (d ∷ t) (e ∷ u) h k = ground (arith, TextLt-trans s t u)

pub TextLe-trans : (s t u : Text) → TextLe s t → TextLe t u → TextLe s u
unfolding text_compare
TextLe-trans [] t [] h k = refl
TextLe-trans [] t (e ∷ u) h k = refl
TextLe-trans (c ∷ s) [] u h k = absurd (ground arith)
TextLe-trans (c ∷ s) (d ∷ t) [] h k = absurd (ground arith)
TextLe-trans (c ∷ s) (d ∷ t) (e ∷ u) h k = ground (arith, TextLe-trans s t u)

pub lex_text :
    (s t : Text) (c : Ordering)
    → is_gt (if not (text_eq s t) then text_compare s t else c) ≡ false
    → TextLt s t ⊎ ((s ≡ t) × (is_gt c ≡ false))
lex_text s t c h = elim (Bool-cases (text_eq s t)) [
  | inl same ↦ inr (text_eq→eq s t same, rw same at h)
  | inr other ↦ inl (strict other (text_compare s t) refl (rw other at h))
]
  where
    strict :
        text_eq s t ≡ false
        → (o : Ordering) → text_compare s t ≡ o
        → is_gt o ≡ false
        → text_compare s t ≡ Ordering.lt
    strict other Ordering.lt e g = e
    strict other Ordering.eq e g =
        absurd (let d = (text_eq_iff s t).1 (text_compare_eq s t e) in cc)
    strict other Ordering.gt e g = absurd (cc)

pub lex_nat :
    (m n : ℕ) (c : Ordering)
    → is_gt (if not (m == n) then compare m n else c) ≡ false
    → (m < n) ⊎ ((m ≡ n) × (is_gt c ≡ false))
lex_nat m n c h = ground arith
