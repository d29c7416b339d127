-- ===== src/Pathfilter/Guards.antt =====
-- What the tests of Validate in internal/pathfilter/pathfilter.go say of a text.
use gruff_go.Base.{
  ℕ, ◌+◌, ◌≤◌, ◌≡◌, ◌≢◌, ◌↔◌, ◌⊎◌, refl, sym, ap, ◌∙◌, inl, inr, Bool, true, false, not, ◌||◌, ◌&&◌,
  Option, none, some, [], ◌∷◌, ◌++◌, Text, text_eq_iff, has_prefix, has_suffix, trim_suffix,
  contains_byte, ltb, ◌==◌, codes, arith, All, Bool-cases,
}
use mathlib.Core.List.{reverse, reverse-append, reverse-reverse}
use gruff_go.Pathfilter.Patterns.{
  has_drive, count_recursive, recursive_suffix, is_outside, is_misplaced, is_bad,
}

-- An ASCII letter.
abbrev pub IsLetter : ℕ → Type 0
IsLetter c = ((65 ≤ c) × (c ≤ 90)) ⊎ ((97 ≤ c) × (c ≤ 122))

-- No two neighbours are both stars.
abbrev pub HasNoPair : Text → Type 0
HasNoPair [] = Unit
HasNoPair (c ∷ []) = Unit
HasNoPair (c ∷ d ∷ s) = ((c ≡ b'*') → d ≢ b'*') × HasNoPair (d ∷ s)

has_prefix→ : (s p : Text) → has_prefix s p ≡ true → (t : Text) × (s ≡ p ++ t)
unfolding has_prefix
has_prefix→ s [] h = (s, refl)
has_prefix→ [] (d ∷ p) h = absurd (cc)
has_prefix→ (c ∷ s) (d ∷ p) h =
    let (t, e) = has_prefix→ s p (ground arith) in
    let same : c ≡ d = ground arith in (t, ap (λ x. x ∷ s) same ∙ ap (λ r. d ∷ r) e)

has_prefix-append : (p t : Text) → has_prefix (p ++ t) p ≡ true
unfolding has_prefix
has_prefix-append [] t = refl
has_prefix-append (d ∷ p) t = ground (arith, has_prefix-append p t)

pub has_prefix_iff : (s p : Text) → (has_prefix s p ≡ true) ↔ ((t : Text) × (s ≡ p ++ t))
has_prefix_iff s p = (has_prefix→ s p, λ (t, e). rw e (has_prefix-append p t))

-- Texts that end in "/**".
pub has_suffix_iff :
    (s : Text)
    → (has_suffix s recursive_suffix ≡ true) ↔ ((stem : Text) × (s ≡ stem ++ codes "/**"))
unfolding has_suffix
has_suffix_iff s = (
  λ h.
      let (t, e) = (has_prefix_iff (reverse s) (reverse (codes "/**"))).0 h in
      (
        reverse t,
        sym (reverse-reverse s) ∙ ap reverse e ∙ reverse-append (reverse (codes "/**")) t,
      ),
  λ (stem, e). rw (e, reverse-append stem (codes "/**")) (unfold has_prefix in refl),
)

pub trim_suffix-stem : (stem : Text) → trim_suffix (stem ++ codes "/**") recursive_suffix ≡ stem
unfolding trim_suffix has_prefix
trim_suffix-stem stem = rw (reverse-append stem (codes "/**")) (reverse-reverse stem)

count_iff : (s : Text) → (count_recursive s ≡ 0) ↔ HasNoPair s
unfolding count_recursive
count_iff [] = (λ h. tt, λ h. refl)
count_iff (c ∷ []) = (λ h. tt, λ h. refl)
count_iff (c ∷ d ∷ s) = elim (Bool-cases ((c == b'*') && (d == b'*'))) [
  | inl t ↦ (
    λ h. absurd (let g = rw t at h in omega arith),
    λ h. absurd (h.0 (ground arith) (ground arith)),
  )
  | inr n ↦ (
    λ h. (λ e k. absurd (ground arith), (count_iff (d ∷ s)).0 (rw n at h)),
    λ h. rw n ((count_iff (d ∷ s)).1 h.1),
  )
]

count_stem : (s : Text) → count_recursive (s ++ codes "/**") ≡ count_recursive s + 1
unfolding count_recursive
count_stem [] = refl
count_stem (c ∷ []) = ground arith
count_stem (c ∷ d ∷ s) = elim (Bool-cases ((c == b'*') && (d == b'*'))) [
  | inl t ↦ rw t (omega (arith, count_stem s))
  | inr n ↦ rw n (count_stem (d ∷ s))
]

pub drive_iff :
    (s : Text)
    → (has_drive s ≡ false) ↔ ((c : ℕ) (rest : Text) → s ≡ c ∷ b':' ∷ rest → ¬ IsLetter c)
drive_iff [] = (λ h c rest e. absurd (cc), λ h. refl)
drive_iff (a ∷ []) = (λ h c rest e. absurd (cc), λ h. refl)
drive_iff (a ∷ b ∷ s) = (forth, back)
  where
    forth :
        has_drive (a ∷ b ∷ s) ≡ false
        → (c : ℕ) (rest : Text) → a ∷ b ∷ s ≡ c ∷ b':' ∷ rest
        → ¬ IsLetter c
    forth h c rest e letter = let first : a ≡ c = cc in let colon : b ≡ b':' = cc in ground arith

    back :
        ((c : ℕ) (rest : Text) → a ∷ b ∷ s ≡ c ∷ b':' ∷ rest → ¬ IsLetter c)
        → has_drive (a ∷ b ∷ s) ≡ false
    back h = elim (Bool-cases (b == b':')) [
      | inr n ↦ rw n (ground arith)
      | inl t ↦
          let colon : b ≡ b':' = ground arith in
          let no : ¬ IsLetter a = h a s (ap (λ x. a ∷ x ∷ s) colon) in ground arith
    ]

pub no_byte_iff : (s : Text) → (contains_byte s 92 ≡ false) ↔ All (λ c. c ≢ 92) s
unfolding contains_byte
no_byte_iff [] = (λ h. tt, λ h. refl)
no_byte_iff (c ∷ s) = (
  λ h. (λ e. absurd (ground arith), (no_byte_iff s).0 (ground arith)),
  λ h. let g = (no_byte_iff s).1 h.1 in let k = h.0 in ground arith,
)

pub is_bad_iff : (o : Option Bool) → (is_bad o ≡ false) ↔ (o ≢ none)
is_bad_iff none = (λ h. absurd (cc), λ h. absurd (h refl))
is_bad_iff (some b) = (λ h e. cc, λ h. refl)

misplaced_iff :
    (n : ℕ) (b : Bool)
    → ((ltb 1 n || ((n == 1) && not b)) ≡ false) ↔ ((n ≡ 0) ⊎ ((n ≡ 1) × (b ≡ true)))
misplaced_iff n b = ground arith

pub outside_iff :
    (s : Text)
    → (is_outside s ≡ false)
      ↔ ((s ≢ codes ".") × (s ≢ codes "..") × ((rest : Text) → s ≢ b'.' ∷ b'.' ∷ b'/' ∷ rest))
outside_iff s = (
  λ h. (
    λ e. absurd (let t = (text_eq_iff s (codes ".")).1 e in ground arith),
    λ e. absurd (let t = (text_eq_iff s (codes "..")).1 e in ground arith),
    λ rest e. absurd (let t = (has_prefix_iff s (codes "../")).1 (rest, e) in ground arith),
  ),
  λ (dot, dots, up).
      let no_up : has_prefix s (codes "../") ≡ false =
        elim (Bool-cases (has_prefix s (codes "../"))) [
          | inl t ↦ absurd (let (rest, e) = (has_prefix_iff s (codes "../")).0 t in up rest e)
          | inr n ↦ n
        ] in
      ground (arith, text_eq_iff s (codes "."), text_eq_iff s (codes "..")),
)

pub recursion_iff :
    (s : Text)
    → (is_misplaced s ≡ false)
      ↔ (HasNoPair s ⊎ ((stem : Text) × (s ≡ stem ++ codes "/**") × HasNoPair stem))
recursion_iff s = (
  λ h. elim ((misplaced_iff (count_recursive s) (has_suffix s recursive_suffix)).0 h) [
    | inl e ↦ inl ((count_iff s).0 e)
    | inr (one, ends) ↦
        let (stem, e) = (has_suffix_iff s).0 ends in
        let counted : count_recursive (stem ++ codes "/**") ≡ 1 = rw e at one in
        inr (stem, e, (count_iff stem).0 (omega (arith, count_stem stem)))
  ],
  λ h. (misplaced_iff (count_recursive s) (has_suffix s recursive_suffix)).1 (elim h [
    | inl no_pair ↦ inl ((count_iff s).1 no_pair)
    | inr (stem, e, no_pair) ↦
        let none_there = (count_iff stem).1 no_pair in
        inr (rw e (omega (arith, count_stem stem)), (has_suffix_iff s).1 (stem, e))
  ]),
)
