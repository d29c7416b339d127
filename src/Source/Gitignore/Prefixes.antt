-- ===== src/Source/Gitignore/Prefixes.antt =====
-- Paths and their segments: splitting, joining and the directories above, for
-- internal/source/gitignore.go.
use gruff_go.Base.{
  split_cons, ℕ, ◌≡◌, ◌⊎◌, refl, sym, ap, ◌∙◌, inl, inr, Bool, true, false, ◌||◌, none, some, List,
  [], ◌∷◌, map, Text, contains_byte, split, join, any_of, All, All-imp, ◌==◌, arith, Bool-cases,
}
use gruff_go.Source.Ignored.{without_last}
use gruff_go.Source.Walk.{split-append}
use gruff_go.Source.Gitignore.Chain.{prefixes, joined, before_last_slash, parent_dir}

abbrev pub HasNoSlash : Text → Type 0
HasNoSlash part = contains_byte part b'/' ≡ false

All-split_cons :
    (c : ℕ) (parts : List Text)
    → (c == b'/') ≡ false
    → All HasNoSlash parts
    → All HasNoSlash (split_cons c parts)
unfolding contains_byte
All-split_cons c [] n h = (rw n refl, tt)
All-split_cons c (p ∷ parts) n h = (rw n h.0, h.1)

pub split-HasNoSlash : (s : Text) → All HasNoSlash (split b'/' s)
unfolding split contains_byte
split-HasNoSlash [] = (refl, tt)
split-HasNoSlash (c ∷ s) = elim (Bool-cases (c == b'/')) [
  | inl t ↦ rw t (refl, split-HasNoSlash s)
  | inr n ↦ rw n (All-split_cons c (split b'/' s) n (split-HasNoSlash s))
]

pub split-one : (p : Text) → HasNoSlash p → split b'/' p ≡ p ∷ []
unfolding split contains_byte
split-one [] h = refl
split-one (c ∷ p) h = elim (Bool-cases (c == b'/')) [
  | inl t ↦ absurd (let g = rw t at h in cc)
  | inr n ↦ rw (n, split-one p (rw n at h)) refl
]

-- Splitting undoes joining.
pub split-join :
    (p : Text) (parts : List Text)
    → All HasNoSlash (p ∷ parts)
    → split b'/' (joined (p ∷ parts)) ≡ p ∷ parts
unfolding join
split-join p [] h = split-one p h.0
split-join p (q ∷ parts) h =
    split-append b'/' p (joined (q ∷ parts)) ∙ rw (split-one p h.0, split-join q parts h.1) refl

pub join-grown :
    (c : ℕ) (p : Text) (parts : List Text) → joined ((c ∷ p) ∷ parts) ≡ c ∷ joined (p ∷ parts)
unfolding join
join-grown c p [] = refl
join-grown c p (q ∷ parts) = refl

-- A path without a slash, or with its parent and its segments.
abbrev Above : Text → Type 0
Above s =
    ((before_last_slash s ≡ none) × (split b'/' s ≡ s ∷ []))
    ⊎ ((b : Text) × (p : Text) × (q : Text) × (parts : List Text) × (before_last_slash s ≡ some b)
        × (split b'/' s ≡ p ∷ q ∷ parts)
        × (joined (p ∷ without_last (q ∷ parts)) ≡ b))

above : (s : Text) → Above s
unfolding before_last_slash split join
above [] = inl (refl, refl)
above (c ∷ s) = elim (Bool-cases (c == b'/')) [
  | inl t ↦ at_slash t (above s)
  | inr n ↦ past n (above s)
]
  where
    at_slash : (c == b'/') ≡ true → Above s → Above (c ∷ s)
    at_slash t (inl (none_above, e)) =
        inr ([], [], s, [], rw (none_above, t) refl, rw (t, e) refl, refl)
    at_slash t (inr (b, p, q, parts, some_above, e, j)) =
        inr (c ∷ b, [], p, q ∷ parts, rw (some_above) refl, rw (t, e) refl, ground (arith))

    past : (c == b'/') ≡ false → Above s → Above (c ∷ s)
    past n (inl (none_above, e)) = inl (rw (none_above, n) refl, rw (n, e) refl)
    past n (inr (b, p, q, parts, some_above, e, j)) = inr (
      c ∷ b,
      c ∷ p,
      q,
      parts,
      rw some_above refl,
      rw (n, e) refl,
      join-grown c p (without_last (q ∷ parts)) ∙ ap (λ r. c ∷ r) j,
    )

-- The parent of a path is what its segments but the last are joined to.
pub parent_dir_lem : (s : Text) → parent_dir s ≡ joined (without_last (split b'/' s))
unfolding parent_dir join
parent_dir_lem s = elim (above s) [
  | inl (none_above, e) ↦ rw (none_above, e) refl
  | inr (b, p, q, parts, some_above, e, j) ↦ rw (some_above, e, j) refl
]

pub All-map :
    {A B : Type 0} (f : A → B) (P : B → Type 0) (xs : List A)
    → All (λ x. P (f x)) xs
    → All P (map f xs)
All-map f P [] h = tt
All-map f P (x ∷ xs) h = (h.0, All-map f P xs h.1)

pub any_of-map :
    {A B : Type 0} (f : A → B) (g : B → Bool) (xs : List A)
    → any_of g (map f xs) ≡ any_of (λ x. g (f x)) xs
any_of-map f g [] = refl
any_of-map f g (x ∷ xs) = ap (λ b. g (f x) || b) (any_of-map f g xs)

abbrev IsPath : List Text → Type 0
IsPath [] = ⊥
IsPath (p ∷ parts) = All HasNoSlash (p ∷ parts)

longer : (p : Text) → HasNoSlash p → (q : List Text) → IsPath q → IsPath (p ∷ q)
longer p n [] h = absurd h
longer p n (r ∷ q) h = (n, h)

prefixes-IsPath : (parts : List Text) → All HasNoSlash parts → All IsPath (prefixes parts)
unfolding prefixes
prefixes-IsPath [] h = tt
prefixes-IsPath (p ∷ parts) h = (
  (h.0, tt),
  All-map (λ q. p ∷ q) IsPath (prefixes parts)
      (All-imp (prefixes parts) (longer p h.0) (prefixes-IsPath parts h.1)),
)

split-IsPath : (q : List Text) → IsPath q → split b'/' (joined q) ≡ q
split-IsPath [] h = absurd h
split-IsPath (p ∷ parts) h = split-join p parts h

-- A prefix of segments without a slash is what splitting gives of its path.
pub prefixes-split :
    (parts : List Text)
    → All HasNoSlash parts
    → All (λ q. split b'/' (joined q) ≡ q) (prefixes parts)
prefixes-split parts h = All-imp (prefixes parts) split-IsPath (prefixes-IsPath parts h)

-- Where a test fails on every prefix, it fails on the prefixes of each of them.
pub prefixes-without_last :
    (g : List Text → Bool) (parts : List Text)
    → any_of g (prefixes parts) ≡ false
    → All (λ q. any_of g (prefixes (without_last q)) ≡ false) (prefixes parts)
unfolding prefixes
prefixes-without_last g [] h = tt
prefixes-without_last g (p ∷ parts) h =
    let first : g (p ∷ []) ≡ false = ground arith in
    let others : any_of g (map (λ q. p ∷ q) (prefixes parts)) ≡ false = ground arith in
    (
      refl,
      All-map (λ q. p ∷ q) _ (prefixes parts)
          (All-imp (prefixes parts) (grown first) (
            prefixes-without_last (λ q. g (p ∷ q)) parts
              (sym (any_of-map (λ q. p ∷ q) g (prefixes parts)) ∙ others))),
    )
  where
    grown :
        g (p ∷ []) ≡ false
        → (q : List Text) → any_of (λ r. g (p ∷ r)) (prefixes (without_last q)) ≡ false
        → any_of g (prefixes (without_last (p ∷ q))) ≡ false
    grown f [] e = refl
    grown f (r ∷ q) e = rw (f, any_of-map (λ q. p ∷ q) g (prefixes (without_last (r ∷ q)))) e
