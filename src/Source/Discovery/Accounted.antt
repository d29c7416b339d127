-- ===== src/Source/Discovery/Accounted.antt =====
-- What Discover of internal/source/source.go returns: each item accounted for, in order, once.
use gruff_go.Base.{
  ◌≡◌, ◌⊎◌, refl, inl, inr, Bool, List, [], ◌∷◌, map, Text, text_eq, All, All-imp, All-append,
  All-sort_by, if◌then◌else◌, codes, Bool-cases,
}
use gruff_go.Source.Gitignore.{new_matcher, parse_errors}
use gruff_go.Source.Gitignore.Cached.{new_matcher-IsCoherent}
use gruff_go.Source.Discovery.Decide.{Options}
use gruff_go.Source.Discovery.Files.{
  File, SkippedPath, Discovered, Attempt, ok, failed, System, Walker, and_then,
}
use gruff_go.Source.Discovery.Walker.{
  visit_inputs, parse_error_at, flush_parse_errors, compare_files, compare_skipped_paths,
  dedupe_loop, dedupe, normalize, same_file, same_skipped, nothing_found, here_if_empty, discover,
}
use gruff_go.Source.Discovery.Increasing.{IsIncreasing, normalized-IsIncreasing}
use gruff_go.Source.Discovery.Explained.{IsScanned, IsExplained, Ends, visit_inputs-Ends}

All-dedupe_loop :
    {A : Type 0} (P : A → Type 0) (same : A → A → Bool) (previous : A) (xs : List A)
    → All P xs
    → All P (dedupe_loop same previous xs)
unfolding dedupe_loop
All-dedupe_loop P same previous [] h = tt
All-dedupe_loop P same previous (x ∷ xs) h = elim (Bool-cases (same x previous)) [
  | inl t ↦ rw t (All-dedupe_loop P same previous xs h.1)
  | inr n ↦ rw n (h.0, All-dedupe_loop P same x xs h.1)
]

All-dedupe :
    {A : Type 0} (P : A → Type 0) (same : A → A → Bool) (xs : List A)
    → All P xs
    → All P (dedupe same xs)
All-dedupe P same [] h = tt
All-dedupe P same (x ∷ xs) h = (h.0, All-dedupe_loop P same x xs h.1)

All-map :
    {A B : Type 0} (f : A → B) (P : B → Type 0) (xs : List A)
    → ((x : A) → P (f x))
    → All P (map f xs)
All-map f P [] h = tt
All-map f P (x ∷ xs) h = (h x, All-map f P xs h)

module _ (os : System) (options : Options) where
  -- A malformed .gitignore is listed with what is skipped.
  abbrev pub IsReported : Text → SkippedPath → Type 0
  IsReported root s = IsExplained os options root s ⊎ ((path : Text) × (s ≡ parse_error_at path))

  abbrev pub IsAccounted : Attempt Text → Attempt Discovered → Type 0
  IsAccounted (ok root) (ok r) =
      All (IsScanned os options root) r.files × All (IsReported root) r.skipped
  IsAccounted (failed e) (ok r) = ⊥
  IsAccounted a (failed e) = Unit

  normalize-IsAccounted :
      (root : Text) (a : Attempt Walker)
      → Ends os options root a
      → IsAccounted (ok root) (and_then a (λ w. ok (normalize (flush_parse_errors w))))
  unfolding normalize flush_parse_errors
  normalize-IsAccounted root (failed e) s = tt
  normalize-IsAccounted root (ok w) (c, (fs, ss)) = (
    All-dedupe _ same_file _ (All-sort_by compare_files _ w.result.files fs),
    All-dedupe _ same_skipped _ (
        All-sort_by compare_skipped_paths _ _ (
          All-append (IsReported root) w.result.skipped _
            (All-imp w.result.skipped (λ s h. inl h) ss)
            (All-map parse_error_at (IsReported root) (parse_errors w.matcher.cache)
              (λ p. inr (p, refl))))),
  )

  -- The items of discovery's result agree with check-ignore. A file that is scanned is of a known
  -- type, passes check-ignore and is not a generated Go file. A path that is listed as skipped is
  -- reported as ignored by check-ignore, for the same reason, from the same layer and by the same
  -- pattern, unless it is a generated Go file, which check-ignore lets pass, or a malformed .gitignore.
  pub discover-IsAccounted :
      IsAccounted
        (os.absolute (if text_eq options.root [] then codes "." else options.root))
        (discover os options)
  unfolding discover
  discover-IsAccounted =
      accounted (os.absolute (if text_eq options.root [] then codes "." else options.root))
    where
      accounted :
          (a : Attempt Text)
          → IsAccounted a (
              and_then a (λ root.
                and_then
                  (visit_inputs os options root
                    (here_if_empty options.paths)
                    (record { matcher = new_matcher; result = nothing_found }))
                  (λ w. ok (normalize (flush_parse_errors w)))))
      accounted (failed e) = tt
      accounted (ok root) = normalize-IsAccounted root _ (
          visit_inputs-Ends os options root (here_if_empty options.paths) _
            (new_matcher-IsCoherent os.glob os.read_ignore, (tt, tt)))

  abbrev pub IsOrdered : Attempt Discovered → Type 0
  IsOrdered (failed e) = Unit
  IsOrdered (ok r) =
      IsIncreasing (λ (f : File). f.path) r.files × IsIncreasing (λ (t : Text). t) r.missing

  -- Each file that is returned has a path before that of the next one, and so it is with the missing
  -- inputs: none is listed twice in a row.
  pub discover-IsIncreasing : IsOrdered (discover os options)
  unfolding discover normalize flush_parse_errors
  discover-IsIncreasing =
      from_root (os.absolute (if text_eq options.root [] then codes "." else options.root))
    where
      ordered :
          (a : Attempt Walker) → IsOrdered (and_then a (λ w. ok (normalize (flush_parse_errors w))))
      ordered (failed e) = tt
      ordered (ok w) = (
        normalized-IsIncreasing (λ (f : File). f.path) w.result.files,
        normalized-IsIncreasing (λ (t : Text). t) w.result.missing,
      )

      from_root :
          (a : Attempt Text)
          → IsOrdered (
              and_then a (λ root.
                and_then
                  (visit_inputs os options root
                    (here_if_empty options.paths)
                    (record { matcher = new_matcher; result = nothing_found }))
                  (λ w. ok (normalize (flush_parse_errors w)))))
      from_root (failed e) = tt
      from_root (ok root) = ordered _
