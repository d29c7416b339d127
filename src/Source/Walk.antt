-- ===== src/Source/Walk.antt =====
-- The directories that internal/source/ignore_classification.go prunes, against the files below them.
use gruff_go.Base.{
  ℕ, ◌≡◌, refl, sym, ap, ◌∙◌, inl, inr, ◌⊎◌, Option, none, some, List, [], ◌∷◌, ◌++◌, Text, text_eq,
  split, codes, arith, Bool-cases, Option-cases, ◌==◌,
}
use gruff_go.Source.Ignored.{
  vcs_reason, metadata_reason, is_vcs_part, is_metadata_part, dir_loop, file_loop, without_last,
  github_loop, github_metadata_decision, or_else, always_ignored_dir, always_ignored_file,
}

-- Splitting gives a first part.
pub split_first :
    (sep : ℕ) (s : Text) → (part : Text) × (parts : List Text) × (split sep s ≡ part ∷ parts)
unfolding split
split_first sep [] = ([], [], refl)
split_first sep (c ∷ s) = elim (Bool-cases (c == sep)) [
  | inl t ↦ ([], split sep s, rw t refl)
  | inr n ↦ let (part, parts, e) = split_first sep s in (c ∷ part, parts, rw (n, e) refl)
]

-- Splitting at the separator between two texts splits both.
pub split-append : (sep : ℕ) (s t : Text) → split sep (s ++ (sep ∷ t)) ≡ split sep s ++ split sep t
unfolding split
split-append sep [] t = ground (arith)
split-append sep (c ∷ s) t = elim (Bool-cases (c == sep)) [
  | inl same ↦ rw same (ap (λ r. [] ∷ r) (split-append sep s t))
  | inr n ↦ let (part, parts, e) = split_first sep s in rw (n, split-append sep s t, e) refl
]

pub without_last-append :
    (xs : List Text) (y : Text) (ys : List Text)
    → without_last (xs ++ (y ∷ ys)) ≡ xs ++ without_last (y ∷ ys)
without_last-append [] y ys = refl
without_last-append (x ∷ []) y ys = refl
without_last-append (x ∷ z ∷ xs) y ys = ap (λ r. x ∷ r) (without_last-append (z ∷ xs) y ys)

file_loop_reason : (xs : List Text) (r : Text) → file_loop xs ≡ some r → r ≡ metadata_reason
unfolding file_loop
file_loop_reason [] r h = absurd (cc)
file_loop_reason (x ∷ xs) r h = elim (Bool-cases (is_metadata_part x)) [
  | inl t ↦ let g = rw t at h in ground arith
  | inr n ↦ file_loop_reason xs r (rw n at h)
]

github_loop_reason : (xs : List Text) (r : Text) → github_loop xs ≡ some r → r ≡ metadata_reason
unfolding github_loop
github_loop_reason [] r h = absurd (cc)
github_loop_reason (x ∷ []) r h = absurd (cc)
github_loop_reason (x ∷ y ∷ xs) r h = ground (arith, github_loop_reason (y ∷ xs) r)

-- A directory pruned for its metadata part keeps that part below it.
dir_loop-file_loop :
    (xs zs : List Text) (r : Text)
    → dir_loop xs ≡ some r
    → (r ≡ vcs_reason) ⊎ (file_loop (xs ++ zs) ≡ some metadata_reason)
unfolding dir_loop file_loop
dir_loop-file_loop [] zs r h = absurd (cc)
dir_loop-file_loop (x ∷ xs) zs r h = elim (Bool-cases (is_vcs_part x)) [
  | inl t ↦ inl (let g = rw t at h in ground arith)
  | inr n ↦ elim (Bool-cases (is_metadata_part x)) [
    | inl t ↦ inr (rw t refl)
    | inr n' ↦ elim (dir_loop-file_loop xs zs r (rw (n, n') at h)) [
      | inl v ↦ inl v
      | inr later ↦ inr (rw n' later)
    ]
  ]
]

github_loop-append :
    (xs ys : List Text) (r : Text) → github_loop xs ≡ some r → github_loop (xs ++ ys) ≡ some r
unfolding github_loop
github_loop-append [] ys r h = absurd (cc)
github_loop-append (x ∷ []) ys r h = absurd (cc)
github_loop-append (x ∷ y ∷ xs) ys r h = elim (Bool-cases (text_eq x (codes ".github"))) [
  | inl t ↦ rw t (rw t at h)
  | inr n ↦ rw n (github_loop-append (y ∷ xs) ys r (rw n at h))
]

file_reason :
    (xs ys : List Text)
    → github_loop ys ≡ some metadata_reason
    → or_else (file_loop xs) (github_loop ys) ≡ some metadata_reason
file_reason xs ys h = elim (Option-cases (file_loop xs)) [
  | inl n ↦ rw n h
  | inr (q, e) ↦ rw e (ap some (file_loop_reason xs q e))
]

dir_loop-append :
    (xs ys : List Text) (r : Text) → dir_loop xs ≡ some r → dir_loop (xs ++ ys) ≡ some r
unfolding dir_loop
dir_loop-append [] ys r h = absurd (cc)
dir_loop-append (x ∷ xs) ys r h = ground (arith, dir_loop-append xs ys r)

or_else_found :
    (first other : Option Text) (r : Text)
    → other ≡ some r
    → (q : Text) × (or_else first other ≡ some q)
or_else_found none other r h = (r, h)
or_else_found (some q) other r h = (q, refl)

-- Below a directory that is always skipped as metadata, every path is always skipped as metadata when
-- it is a file. Below one that is always skipped, for whatever reason, every directory is always
-- skipped.
pub always_ignored_dir-below :
    (dir rest r : Text)
    → always_ignored_dir dir ≡ some r
    → ((r ≡ vcs_reason) ⊎ (always_ignored_file (dir ++ (b'/' ∷ rest)) ≡ some metadata_reason))
      × ((q : Text) × (always_ignored_dir (dir ++ (b'/' ∷ rest)) ≡ some q))
unfolding always_ignored_dir always_ignored_file github_metadata_decision
always_ignored_dir-below dir rest r h =
    let (y, ys, e) = split_first b'/' rest in
    let parts = split b'/' dir in
    let whole : split b'/' (dir ++ (b'/' ∷ rest)) ≡ parts ++ (y ∷ ys) =
      split-append b'/' dir rest ∙ ap (λ ps. parts ++ ps) e in
    elim (Option-cases (dir_loop parts)) [
      | inr (q, found) ↦
          let same : q ≡ r = (let g = rw found at h in ground arith) in
          (
            elim (dir_loop-file_loop parts (without_last (y ∷ ys)) q found) [
              | inl vcs ↦ inl (sym same ∙ vcs)
              | inr kept ↦ inr (rw (whole, without_last-append parts y ys, kept) refl)
            ],
            (q, rw (whole, dir_loop-append parts (y ∷ ys) q found) refl),
          )
      | inl missing ↦
          let github = rw missing at h in
          let below = github_loop-append parts (y ∷ ys) r github in
          (
            inr (rw whole (file_reason _ _ (below ∙ ap some (github_loop_reason parts r github)))),
            (let (q, e) = or_else_found (dir_loop (parts ++ (y ∷ ys))) _ r below in
                (q, rw whole e)),
          )
    ]
