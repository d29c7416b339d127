-- ===== src/Pathfilter/Accepted.antt =====
-- The patterns that Validate of internal/pathfilter/pathfilter.go accepts.
use gruff_go.Base.{
  ℕ, ◌≡◌, ◌≢◌, ◌↔◌, ◌⊎◌, refl, sym, ap, ◌∙◌, inl, inr, Bool, false, Option, none, [], ◌∷◌, ◌++◌,
  Text, text_eq, text_eq_iff, has_prefix, has_suffix, trim_suffix, contains_byte, codes, arith, All,
  Bool-cases,
}
use gruff_go.Pathfilter.Patterns.{
  has_drive, recursive_suffix, probe_of, is_outside, is_misplaced, is_bad, validate,
}
use gruff_go.Pathfilter.Guards.{
  IsLetter, HasNoPair, drive_iff, no_byte_iff, has_prefix_iff, has_suffix_iff, trim_suffix-stem,
  is_bad_iff, outside_iff, recursion_iff,
}

module _ (clean : Text → Text) (glob : Text → Text → Option Bool) where
  -- A relative path with slashes that stays in the repository, with "**" at most once and then as
  -- the last segment, and else a pattern of path.Match; in place of a last "**" this is tried with "*".
  pub record IsPattern (pattern : Text) : Type 0 where
    pub some_byte : pattern ≢ []
    pub relative : (rest : Text) → pattern ≢ b'/' ∷ rest
    pub no_drive : (c : ℕ) (rest : Text) → clean pattern ≡ c ∷ b':' ∷ rest → ¬ IsLetter c
    pub slashes : All (λ c. c ≢ 92) pattern
    pub inside :
        (clean pattern ≢ codes ".")
        × (clean pattern ≢ codes "..")
        × ((rest : Text) → clean pattern ≢ b'.' ∷ b'.' ∷ b'/' ∷ rest)
    pub recursion :
        HasNoPair pattern ⊎ ((stem : Text) × (pattern ≡ stem ++ codes "/**") × HasNoPair stem)
    pub globs :
        ((stem : Text)
          → pattern ≡ stem ++ codes "/**"
          → glob (stem ++ codes "/*") (codes "probe") ≢ none)
        × (((stem : Text) → pattern ≢ stem ++ codes "/**") → glob pattern (codes "probe") ≢ none)

  globs_iff :
      (s : Text)
      → (is_bad (glob (probe_of s) (codes "probe")) ≡ false) ↔ (
          ((stem : Text)
            → s ≡ stem ++ codes "/**"
            → glob (stem ++ codes "/*") (codes "probe") ≢ none)
          × (((stem : Text) → s ≢ stem ++ codes "/**") → glob s (codes "probe") ≢ none))
  globs_iff s = elim (Bool-cases (has_suffix s recursive_suffix)) [
    | inl t ↦
        let (stem, e) = (has_suffix_iff s).0 t in
        let probe : probe_of s ≡ stem ++ codes "/*" = rw t (
          ap (λ r. trim_suffix r recursive_suffix ++ codes "/*") e
          ∙ ap (λ r. r ++ codes "/*") (trim_suffix-stem stem)) in
        (
          λ h. (
            λ other d.
                let same : probe_of s ≡ other ++ codes "/*" = rw t (
                  ap (λ r. trim_suffix r recursive_suffix ++ codes "/*") d
                  ∙ ap (λ r. r ++ codes "/*") (trim_suffix-stem other)) in
                (is_bad_iff (glob (other ++ codes "/*") (codes "probe"))).0
                  (ap (λ r. is_bad (glob r (codes "probe"))) (sym same) ∙ h),
            λ no. absurd (no stem e),
          ),
          λ (stems, others).
              ap (λ r. is_bad (glob r (codes "probe"))) probe
              ∙ (is_bad_iff (glob (stem ++ codes "/*") (codes "probe"))).1 (stems stem e),
        )
    | inr n ↦
        let probe : probe_of s ≡ s = rw n refl in
        (
          λ h. (
            λ stem e. absurd (let t = (has_suffix_iff s).1 (stem, e) in cc),
            λ no.
                (is_bad_iff (glob s (codes "probe"))).0
                  (ap (λ r. is_bad (glob r (codes "probe"))) (sym probe) ∙ h),
          ),
          λ (stems, others).
              ap (λ r. is_bad (glob r (codes "probe"))) probe
              ∙ (is_bad_iff (glob s (codes "probe"))).1
                  (others (λ stem e. (let t = (has_suffix_iff s).1 (stem, e) in cc))),
        )
  ]

  accepted :
      (pattern : Text)
      → validate clean glob pattern ≡ none
      → (text_eq pattern [] ≡ false)
        × (has_prefix pattern (codes "/") ≡ false)
        × (has_drive (clean pattern) ≡ false)
        × (contains_byte pattern 92 ≡ false)
        × (is_outside (clean pattern) ≡ false)
        × (is_misplaced pattern ≡ false)
        × (is_bad (glob (probe_of pattern) (codes "probe")) ≡ false)
  unfolding validate
  accepted pattern h = ground arith

  accepted→IsPattern : (pattern : Text) → validate clean glob pattern ≡ none → IsPattern pattern
  accepted→IsPattern pattern h =
      let (a, b, c, d, e, f, g) = accepted pattern h in
      record {
        some_byte = λ empty. let t = (text_eq_iff pattern []).1 empty in cc;
        relative = λ rest r. (let t = (has_prefix_iff pattern (codes "/")).1 (rest, r) in cc);
        no_drive = (drive_iff (clean pattern)).0 c;
        slashes = (no_byte_iff pattern).0 d;
        inside = (outside_iff (clean pattern)).0 e;
        recursion = (recursion_iff pattern).0 f;
        globs = (globs_iff pattern).0 g;
      }

  no_slash : (pattern : Text) → IsPattern pattern → has_prefix pattern (codes "/") ≡ false
  no_slash pattern p = elim (Bool-cases (has_prefix pattern (codes "/"))) [
    | inl t ↦ absurd (let (rest, e) = (has_prefix_iff pattern (codes "/")).0 t in p.relative rest e)
    | inr n ↦ n
  ]

  IsPattern→accepted : (pattern : Text) → IsPattern pattern → validate clean glob pattern ≡ none
  unfolding validate
  IsPattern→accepted pattern p =
      let a : text_eq pattern [] ≡ false = ground (arith, text_eq_iff pattern [], p.some_byte) in
      rw
        (
          a,
          no_slash pattern p,
          (drive_iff (clean pattern)).1 p.no_drive,
          (no_byte_iff pattern).1 p.slashes,
          (outside_iff (clean pattern)).1 p.inside,
          (recursion_iff pattern).1 p.recursion,
          (globs_iff pattern).1 p.globs,
        )
        refl

  -- Validate accepts exactly the patterns that are not empty, are relative, use slashes, have after
  -- cleaning no drive letter and stay in the repository, have "**" at most once and then as the last
  -- segment, and are patterns of path.Match, with "*" in place of that segment.
  pub validate_iff : (pattern : Text) → (validate clean glob pattern ≡ none) ↔ IsPattern pattern
  validate_iff pattern = (accepted→IsPattern pattern, IsPattern→accepted pattern)
