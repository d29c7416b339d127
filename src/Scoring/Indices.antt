-- ===== src/Scoring/Indices.antt =====
-- maxFloat and the sharing loop of clusterPenalties (internal/scoring/scoring.go) at the indices of
-- one cluster.
use gruff_go.Base.{
  ◌+◌, ◌≡◌, refl, sym, ap, ◌∙◌, inl, inr, true, some, List, [], ◌∷◌, ◌++◌, map, append_assoc,
  get_elem?, set, length, length-append, keep_if, if◌then◌else◌, arith, Bool-cases,
}
use gruff_go.Finding.{Finding}
use gruff_go.Scoring.Points.{Float}
use gruff_go.Scoring.Clusters.{ClusterKey, penalty_at, max_loop, share_loop}
use gruff_go.Scoring.Grouping.{has_key, indices_of}

get_elem?-middle :
    {A : Type 0} (before : List A) (x : A) (after : List A)
    → get_elem? (before ++ (x ∷ after)) (length before) ≡ some x
get_elem?-middle [] x after = refl
get_elem?-middle (y ∷ before) x after = get_elem?-middle before x after

set-middle :
    {A : Type 0} (before : List A) (x y : A) (after : List A)
    → set (before ++ (x ∷ after)) (length before) y ≡ before ++ (y ∷ after)
set-middle [] x y after = refl
set-middle (z ∷ before) x y after = ap (λ r. z ∷ r) (set-middle before x y after)

length-snoc :
    {A : Type 0} (before : List A) (x : A) → length (before ++ (x ∷ [])) ≡ length before + 1
length-snoc before x = omega (arith, length-append before (x ∷ []))

pub map_congr :
    {A B : Type 0} (v w : A → B) (xs : List A) → ((x : A) → v x ≡ w x) → map v xs ≡ map w xs
map_congr v w [] h = refl
map_congr v w (x ∷ xs) h = rw (h x, map_congr v w xs h) refl

module _ {F : Type 0} (fl : Float F) where
  -- The greatest of these findings' penalties, from a start.
  abbrev pub max_of : (Finding → F) → List Finding → F → F
  max_of v [] largest = largest
  max_of v (f ∷ fs) largest = max_of v fs (if fl.gt (v f) largest then v f else largest)

  pub max_loop-indices :
      (k : ClusterKey) (v : Finding → F) (fs : List Finding) (before : List F) (l : F)
      → max_loop fl (before ++ map v fs) (indices_of k (length before) fs) l
        ≡ max_of v (keep_if (has_key k) fs) l
  unfolding max_loop
  max_loop-indices k v [] before l = refl
  max_loop-indices k v (f ∷ fs) before l = elim (Bool-cases (has_key k f)) [
    | inl t ↦
        rw (t, max_loop, penalty_at, get_elem?-middle before (v f) (map v fs))
          (behind _ _ (max_loop-indices k v fs (before ++ (v f ∷ [])) _))
    | inr n ↦ rw n (behind _ _ (max_loop-indices k v fs (before ++ (v f ∷ [])) l))
  ]
    where
      behind :
          (m : F) (r : F)
          → max_loop fl
              ((before ++ (v f ∷ [])) ++ map v fs)
              (indices_of k (length (before ++ (v f ∷ []))) fs)
              m
            ≡ r
          → max_loop fl (before ++ (v f ∷ map v fs)) (indices_of k (length before + 1) fs) m ≡ r
      behind m r h =
          ap (λ ps. max_loop fl ps (indices_of k (length before + 1) fs) m)
            (sym (append_assoc before (v f ∷ []) (map v fs)))
          ∙ ap (λ i. max_loop fl ((before ++ (v f ∷ [])) ++ map v fs) (indices_of k i fs) m)
              (sym (length-snoc before (v f)))
          ∙ h

  -- The indices of the items behind a list, whose first value is done.
  behind :
      (k : ClusterKey) (s x : F) (v : Finding → F) (fs : List Finding) (before : List F)
      → share_loop fl s
          (indices_of k (length (before ++ (x ∷ []))) fs)
          ((before ++ (x ∷ [])) ++ map v fs)
        ≡ (before ++ (x ∷ [])) ++ map (λ f. if has_key k f then s else v f) fs
      → share_loop fl s (indices_of k (length before + 1) fs) (before ++ (x ∷ map v fs))
        ≡ before ++ (x ∷ map (λ f. if has_key k f then s else v f) fs)
  behind k s x v fs before h =
      ap (λ ps. share_loop fl s (indices_of k (length before + 1) fs) ps)
        (sym (append_assoc before (x ∷ []) (map v fs)))
      ∙ ap (λ i. share_loop fl s (indices_of k i fs) ((before ++ (x ∷ [])) ++ map v fs))
          (sym (length-snoc before x))
      ∙ h
      ∙ append_assoc before (x ∷ []) (map (λ f. if has_key k f then s else v f) fs)

  pub share_loop-indices :
      (k : ClusterKey) (s : F) (v : Finding → F) (fs : List Finding) (before : List F)
      → share_loop fl s (indices_of k (length before) fs) (before ++ map v fs)
        ≡ before ++ map (λ f. if has_key k f then s else v f) fs
  unfolding share_loop
  share_loop-indices k s v [] before = refl
  share_loop-indices k s v (f ∷ fs) before = elim (Bool-cases (has_key k f)) [
    | inl t ↦
        rw (t, share_loop, set-middle before (v f) s (map v fs))
          (behind k s s v fs before (share_loop-indices k s v fs (before ++ (s ∷ []))))
    | inr n ↦
        rw n (behind k s (v f) v fs before (share_loop-indices k s v fs (before ++ (v f ∷ []))))
  ]

  pub max_of-keep_if :
      (k : ClusterKey) (v w : Finding → F) (fs : List Finding) (l : F)
      → ((f : Finding) → has_key k f ≡ true → v f ≡ w f)
      → max_of v (keep_if (has_key k) fs) l ≡ max_of w (keep_if (has_key k) fs) l
  max_of-keep_if k v w [] l h = refl
  max_of-keep_if k v w (f ∷ fs) l h = elim (Bool-cases (has_key k f)) [
    | inl t ↦ rw t (keeps (v f) (w f) (h f t) (max_of-keep_if k v w fs _ h))
    | inr n ↦ rw n (max_of-keep_if k v w fs l h)
  ]
    where
      keeps :
          (x y : F)
          → x ≡ y
          → max_of v (keep_if (has_key k) fs) (if fl.gt x l then x else l)
            ≡ max_of w (keep_if (has_key k) fs) (if fl.gt x l then x else l)
          → max_of v (keep_if (has_key k) fs) (if fl.gt x l then x else l)
            ≡ max_of w (keep_if (has_key k) fs) (if fl.gt y l then y else l)
      keeps x y e m = m ∙ ap (λ z. max_of w (keep_if (has_key k) fs) (if fl.gt z l then z else l)) e
