-- ===== src/Source/Gitignore/Verdict.antt =====
-- Match of internal/source/gitignore.go as a whole: its shortcut, its caches and a sequence of calls.
use gruff_go.Base.{
  ◌≡◌, ◌≢◌, refl, sym, ap, ◌∙◌, inl, inr, Bool, true, false, not, ◌||◌, Option, none, some, List,
  [], ◌∷◌, map, Text, text_eq, text_eq→eq, split, join, any_of, All, All-imp, All-append,
  trim_prefix, codes, arith, Bool-cases, subst,
}
use mathlib.Core.List.{reverse, reverse-cons}
use gruff_go.Source.Ignored.{without_last}
use gruff_go.Source.Gitignore.Parse.{IgnoreFile, IgnoreRule}
use gruff_go.Source.Gitignore.Segments.{is_nil}
use gruff_go.Source.Gitignore.Chain.{
  prefixes, joined, ancestor_chain, dir_chain, parent_dir, rel_path_from,
}
use gruff_go.Source.Gitignore.Loaded.{
  Matcher, new_matcher, has_rules, apply_rules, apply_file, ancestors, match_path, after_path,
  after_chain, match_relative, match_rel,
}
use gruff_go.Source.Gitignore.Cached.{
  file_at, chain_has_rules, walk, path_verdict, nearest, or_above, new_matcher-IsCoherent,
  verdict_of, IsCoherent, Answers, has_rules_in_chain-Answers, match_path-Answers,
  ancestor_loop-Answers,
}
use gruff_go.Source.Gitignore.Prefixes.{
  HasNoSlash, split-HasNoSlash, split-join, parent_dir_lem, any_of-map, All-map, prefixes-split,
  prefixes-without_last,
}

All-reverse : {A : Type 0} (P : A → Type 0) (xs : List A) → All P xs → All P (reverse xs)
All-reverse P [] h = tt
All-reverse P (x ∷ xs) h =
    rw (reverse-cons x xs) (All-append P (reverse xs) (x ∷ []) (All-reverse P xs h.1) (h.0, tt))

All-both :
    {A : Type 0} (P Q : A → Type 0) (xs : List A) → All P xs → All Q xs → All (λ x. P x × Q x) xs
All-both P Q [] h k = tt
All-both P Q (x ∷ xs) h k = ((h.0, k.0), All-both P Q xs h.1 k.1)

without_last-HasNoSlash :
    (parts : List Text) → All HasNoSlash parts → All HasNoSlash (without_last parts)
without_last-HasNoSlash [] h = tt
without_last-HasNoSlash (p ∷ []) h = tt
without_last-HasNoSlash (p ∷ q ∷ parts) h = (h.0, without_last-HasNoSlash (q ∷ parts) h.1)

module _ (glob : Text → Text → Option Bool) (read_ignore : Text → Option Text) where
  abbrev rules_at : Text → Bool
  rules_at dir = has_rules (file_at glob read_ignore dir)

  no_file_rules :
      (file : Option IgnoreFile) (dir rel : Text) (is_dir : Bool) (v : Bool × Text)
      → has_rules file ≡ false
      → apply_file glob file dir rel is_dir v ≡ v
  unfolding apply_rules
  no_file_rules none dir rel is_dir v h = refl
  no_file_rules (some file) dir rel is_dir v h = by_rules file.rules h
    where
      by_rules :
          (rules : List IgnoreRule)
          → not (is_nil rules) ≡ false
          → apply_rules glob rules dir (rel_path_from dir rel) is_dir v ≡ v
      by_rules [] h = refl
      by_rules (r ∷ rules) h = absurd (cc)

  walk_no_rules :
      (dirs : List Text) (rel : Text) (is_dir : Bool) (v : Bool × Text)
      → any_of rules_at dirs ≡ false
      → walk glob read_ignore dirs rel is_dir v ≡ v
  unfolding walk
  walk_no_rules [] rel is_dir v h = refl
  walk_no_rules (dir ∷ dirs) rel is_dir v h =
      let now : rules_at dir ≡ false = ground arith in
      let later : any_of rules_at dirs ≡ false = ground arith in
      rw (no_file_rules (file_at glob read_ignore dir) dir rel is_dir v now)
        (walk_no_rules dirs rel is_dir v later)

  -- The parent's chain is that of the path's ancestors.
  chain_no_rules :
      (above : List Text)
      → All HasNoSlash above
      → joined above ≢ codes "."
      → chain_has_rules glob read_ignore (joined above) ≡ false
      → any_of rules_at ([] ∷ map joined (prefixes above)) ≡ false
  unfolding dir_chain prefixes text_eq split join
  chain_no_rules [] n d h = h
  chain_no_rules (p ∷ parts) n d h = elim (Bool-cases (text_eq (joined (p ∷ parts)) [])) [
    | inl t ↦
        let e : split b'/' [] ≡ p ∷ parts =
          ap (split b'/') (sym (text_eq→eq (joined (p ∷ parts)) [] t)) ∙ split-join p parts n in
        let none_at_root = rw (t, dir_chain) at h in
        subst (λ ps. any_of rules_at ([] ∷ map joined (prefixes ps)) ≡ false) e
          (let root : rules_at [] ≡ false = ground arith in rw root refl)
    | inr u ↦
        let g = rw (u, not_dot (joined (p ∷ parts)) d, dir_chain, split-join p parts n) at h in g
  ]
    where
      not_dot : (s : Text) → s ≢ codes "." → text_eq s (codes ".") ≡ false
      not_dot s d = elim (Bool-cases (text_eq s (codes "."))) [
        | inl t ↦ absurd (d (text_eq→eq s (codes ".") t))
        | inr n ↦ n
      ]

  ancestors_no_rules :
      (rel : Text)
      → parent_dir rel ≢ codes "."
      → chain_has_rules glob read_ignore (parent_dir rel) ≡ false
      → any_of rules_at (ancestor_chain rel) ≡ false
  unfolding ancestor_chain
  ancestors_no_rules rel d h =
      chain_no_rules (without_last (split b'/' rel))
        (without_last-HasNoSlash (split b'/' rel) (split-HasNoSlash rel))
        (λ e. d (parent_dir_lem rel ∙ e)) (rw (parent_dir_lem rel) at h)

  quiet :
      rules_at [] ≡ false
      → (q : List Text)
      → (split b'/' (joined q) ≡ q)
        × (any_of (λ r. rules_at (joined r)) (prefixes (without_last q)) ≡ false)
      → path_verdict glob read_ignore (joined q) true ≡ (false, [])
  quiet root q (e, h) =
      walk_no_rules (ancestor_chain (joined q)) (joined q) true (false, [])
        (unfold ancestor_chain in
          rw (root, e, any_of-map joined rules_at (prefixes (without_last q))) h)

  nearest_quiet :
      (dirs : List Text) (source : Text)
      → All (λ dir. path_verdict glob read_ignore dir true ≡ (false, [])) dirs
      → nearest glob read_ignore dirs source ≡ (false, source)
  nearest_quiet [] source h = refl
  nearest_quiet (dir ∷ dirs) source h = rw h.0 (nearest_quiet dirs source h.1)

  -- A path whose ancestors have no rules, and its ancestors, are not ignored.
  unruled :
      (rel : Text) (is_dir : Bool)
      → any_of rules_at (ancestor_chain rel) ≡ false
      → or_above glob read_ignore (path_verdict glob read_ignore rel is_dir) rel ≡ (false, [])
  unruled rel is_dir h =
      let above = without_last (split b'/' rel) in
      let g : (rules_at [] || any_of rules_at (map joined (prefixes above))) ≡ false =
        unfold ancestor_chain in h in
      let root : rules_at [] ≡ false = ground arith in
      let rest : any_of rules_at (map joined (prefixes above)) ≡ false = ground arith in
      let slashless = without_last-HasNoSlash (split b'/' rel) (split-HasNoSlash rel) in
      let none_below = sym (any_of-map joined rules_at (prefixes above)) ∙ rest in
      rw (walk_no_rules (ancestor_chain rel) rel is_dir (false, []) h) (
        nearest_quiet (ancestors rel) [] (
          All-reverse _ (map joined (prefixes above)) (
            All-map joined _ (prefixes above) (
              All-imp (prefixes above) (quiet root) (
                All-both _ _ (prefixes above) (prefixes-split above slashless)
                  (prefixes-without_last (λ r. rules_at (joined r)) above none_below))))))

  pub after_path-Answers :
      (out : Matcher × (Bool × Text)) (v : Bool × Text) (rel : Text)
      → Answers glob read_ignore out v
      → Answers glob read_ignore
          (after_path glob read_ignore out rel)
          (or_above glob read_ignore v rel)
  after_path-Answers (m, (true, source)) v rel (c, e) = (c, rw (← e) refl)
  after_path-Answers (m, (false, source)) v rel (c, e) =
      rw (← e) (ancestor_loop-Answers glob read_ignore (ancestors rel) source m c)

  after_chain-Answers :
      (out : Matcher × Bool) (rel : Text) (is_dir : Bool)
      → parent_dir rel ≢ codes "."
      → Answers glob read_ignore out (chain_has_rules glob read_ignore (parent_dir rel))
      → Answers glob read_ignore
          (after_chain glob read_ignore out rel is_dir)
          (or_above glob read_ignore (path_verdict glob read_ignore rel is_dir) rel)
  after_chain-Answers (m, false) rel is_dir d (c, e) =
      (c, sym (unruled rel is_dir (ancestors_no_rules rel d (sym e))))
  after_chain-Answers (m, true) rel is_dir d (c, e) =
      after_path-Answers (match_path glob read_ignore rel is_dir m) _ rel
        (match_path-Answers glob read_ignore rel is_dir m c)

  pub match_relative-Answers :
      (rel : Text) (is_dir : Bool) (m : Matcher)
      → IsCoherent glob read_ignore m
      → parent_dir rel ≢ codes "."
      → Answers glob read_ignore
          (match_relative glob read_ignore rel is_dir m)
          (verdict_of glob read_ignore rel is_dir)
  match_relative-Answers rel is_dir m c d =
      elim (Bool-cases (text_eq rel [] || text_eq rel (codes "."))) [
        | inl t ↦ rw t (c, refl)
        | inr n ↦ rw n (
            after_chain-Answers _ rel is_dir d
              (has_rules_in_chain-Answers glob read_ignore (parent_dir rel) m c))
      ]

  -- The calls of Match that discovery makes, one after the other on one matcher.
  unfoldable pub match_all : List (Text × Bool) → Matcher → List (Bool × Text)
  match_all [] m = []
  match_all ((rel, is_dir) ∷ queries) m =
      let (m', answer) = match_rel glob read_ignore rel is_dir m in answer ∷ match_all queries m'

  abbrev pub verdict_at : Text × Bool → Bool × Text
  verdict_at (rel, is_dir) = verdict_of glob read_ignore (trim_prefix rel (codes "/")) is_dir

  abbrev pub IsClean : Text × Bool → Type 0
  IsClean (rel, is_dir) = parent_dir (trim_prefix rel (codes "/")) ≢ codes "."

  match_all_coherent :
      (queries : List (Text × Bool)) (m : Matcher)
      → IsCoherent glob read_ignore m
      → All IsClean queries
      → match_all queries m ≡ map verdict_at queries
  unfolding match_all match_rel
  match_all_coherent [] m c h = refl
  match_all_coherent ((rel, is_dir) ∷ queries) m c h =
      let (c', e) = match_relative-Answers (trim_prefix rel (codes "/")) is_dir m c h.0 in
      rw (e, match_all_coherent queries _ c' h.1) refl

  -- Paths are put to a new matcher one after the other, and the directory above each is not spelled
  -- ".". Each answer is then the one from the files as they are: that of the rules on the path itself
  -- or, where these do not ignore it, of the nearest ignored ancestor. The caches and the shortcut for
  -- a path above which there are no rules change nothing.
  pub match_all_lem :
      (queries : List (Text × Bool))
      → All IsClean queries
      → match_all queries new_matcher ≡ map verdict_at queries
  match_all_lem queries h =
      match_all_coherent queries new_matcher (new_matcher-IsCoherent glob read_ignore) h
