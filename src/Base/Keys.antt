-- ===== src/Base/Keys.antt =====
-- Go maps: the interface of key equality, maps as functions and as lists of pairs, and sets.
use Prim.Native.Nat.{ℕ}
use mathlib.Core.Path.{◌≡◌, refl, sym, ◌∙◌}
use mathlib.Core.Logic.{◌↔◌, ◌≢◌, inl, inr}
use mathlib.Core.Bool.{Bool, true, false, ◌||◌}
use mathlib.Core.List.{List, [], ◌∷◌}
use mathlib.Core.Option.{Option, none, some}
use native.Mathlib.Omega.{arith}
use gruff_go.Base.Tests.{◌==◌, ==_iff, if◌then◌else◌, Bool-cases}
use gruff_go.Base.Strings.{Text, text_eq, text_eq_iff}

pub record Eq {ℓ} (A : Type ℓ) : Type ℓ where
  pub beq : A → A → Bool
  pub beq_iff : (a b : A) → (beq a b ≡ true) ↔ (a ≡ b)

instance abbrev pub nat_eq : Eq ℕ
nat_eq = record { beq = ◌==◌; beq_iff = ==_iff }

instance abbrev pub text_key : Eq Text
text_key = record { beq = text_eq; beq_iff = text_eq_iff }

module _ {ℓ} {K : Type ℓ} ⦃e : Eq K⦄ where
  pub beq_self : (k : K) → e.beq k k ≡ true
  beq_self k = (e.beq_iff k k).1 refl

  pub beq_ne : (k j : K) → k ≢ j → e.beq k j ≡ false
  beq_ne k j h = elim (Bool-cases (e.beq k j)) [
    | inl same ↦ absurd (h ((e.beq_iff k j).0 same))
    | inr other ↦ other
  ]

  pub beq_comm : (k j : K) → e.beq k j ≡ e.beq j k
  beq_comm k j = elim (Bool-cases (e.beq k j)) [
    | inl same ↦ same ∙ sym ((e.beq_iff j k).1 (sym ((e.beq_iff k j).0 same)))
    | inr other ↦
        other
        ∙ sym (
            beq_ne j k (λ q. elim (Bool-cases (e.beq k j)) [
              | inl t ↦ cc
              | inr f ↦ cc ((e.beq_iff k j).1 (sym q))
            ]))
  ]

  -- slices.Contains, and membership in a set kept as a list
  unfoldable pub contains : List K → K → Bool
  contains [] k = false
  contains (j ∷ js) k = e.beq j k || contains js k

  -- set[k] = struct{}{}
  unfoldable pub set_insert : K → List K → List K
  set_insert k s = if contains s k then s else k ∷ s

  pub contains-set_insert :
      (k j : K) (s : List K) → contains (set_insert k s) j ≡ (e.beq k j || contains s j)
  unfolding set_insert contains
  contains-set_insert k j s = elim (Bool-cases (contains s k)) [
    | inl old ↦ rw old (elim (Bool-cases (e.beq k j)) [
      | inl same ↦ rw same (rw ((e.beq_iff k j).0 same) at old)
      | inr other ↦ rw other
    ])
    | inr new ↦ rw new
  ]

  module _ {κ} {V : Type κ} where
    -- m[k] = v on a map that is a function
    unfoldable pub update : (K → V) → K → V → K → V
    update m k v j = if e.beq k j then v else m j

    pub update_self : (m : K → V) (k : K) (v : V) → update m k v k ≡ v
    unfolding update
    update_self m k v = rw (beq_self k)

    pub update_ne : (m : K → V) (k j : K) (v : V) → e.beq k j ≡ false → update m k v j ≡ m j
    unfolding update
    update_ne m k j v h = rw h

    unfoldable pub lookup : K → List (K × V) → Option V
    lookup k [] = none
    lookup k ((j, v) ∷ m) = if e.beq j k then some v else lookup k m

    unfoldable pub insert : K → V → List (K × V) → List (K × V)
    insert k v [] = (k, v) ∷ []
    insert k v ((j, w) ∷ m) = if e.beq j k then (k, v) ∷ m else (j, w) ∷ insert k v m

    -- delete(m, k)
    unfoldable pub remove : K → List (K × V) → List (K × V)
    remove k [] = []
    remove k ((j, w) ∷ m) = if e.beq j k then remove k m else (j, w) ∷ remove k m

    pub lookup-insert :
        (k j : K) (v : V) (m : List (K × V))
        → lookup j (insert k v m) ≡ (if e.beq k j then some v else lookup j m)
    unfolding lookup insert
    lookup-insert k j v [] = refl
    lookup-insert k j v ((i, w) ∷ m) =
        ground (arith, e.beq_iff k j, e.beq_iff i k, e.beq_iff i j, lookup-insert k j v m)

    pub lookup-remove :
        (k j : K) (m : List (K × V))
        → lookup j (remove k m) ≡ (if e.beq k j then none else lookup j m)
    unfolding lookup remove
    lookup-remove k j [] = ground arith
    lookup-remove k j ((i, w) ∷ m) =
        ground (arith, e.beq_iff k j, e.beq_iff i k, e.beq_iff i j, lookup-remove k j m)
