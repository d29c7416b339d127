-- ===== src/Source/Discovery/Found.antt =====
-- Discover of internal/source/source.go on a whole repository: no file is missed.
use gruff_go.Base.{
  ◌≡◌, refl, sym, ap, ◌∙◌, subst, text_eq_self, inl, inr, Bool, true, ◌||◌, List, [], ◌∷◌, Text,
  text_eq, text_eq→eq, any_of, insert_sorted, sort_by, is_gt, Ordering, if◌then◌else◌, codes, arith,
  Bool-cases,
}
use gruff_go.Source.Gitignore.{new_matcher}
use gruff_go.Source.Gitignore.Cached.{new_matcher-IsCoherent}
use gruff_go.Source.Discovery.Decide.{Options}
use gruff_go.Source.Discovery.Files.{
  File, Discovered, directory, Nodes, a_directory, Attempt, ok, failed, System, Walker, and_then,
}
use gruff_go.Source.Discovery.Walker.{
  display_path, walk_nodes, path_of, visit_directory, visit_stat, visit_input, visit_inputs,
  flush_parse_errors, normalize, compare_files, same_file, dedupe_loop, dedupe, nothing_found,
  here_if_empty, discover,
}
use gruff_go.Source.Discovery.Reachable.{is_listed, IsWanted, LiesIn, AreReadable, Lists}
use gruff_go.Source.Discovery.Complete.{walk_nodes-Lists}

any_of-insert_sorted :
    {A : Type 0} (cmp : A → A → Ordering) (p : A → Bool) (x : A) (xs : List A)
    → any_of p (insert_sorted cmp x xs) ≡ (p x || any_of p xs)
unfolding insert_sorted
any_of-insert_sorted cmp p x [] = refl
any_of-insert_sorted cmp p x (y ∷ ys) = elim (Bool-cases (is_gt (cmp x y))) [
  | inl t ↦ rw (t, any_of-insert_sorted cmp p x ys) (ground arith)
  | inr n ↦ rw n refl
]

any_of-sort_by :
    {A : Type 0} (cmp : A → A → Ordering) (p : A → Bool) (xs : List A)
    → any_of p (sort_by cmp xs) ≡ any_of p xs
unfolding sort_by
any_of-sort_by cmp p [] = refl
any_of-sort_by cmp p (x ∷ xs) =
    any_of-insert_sorted cmp p x (sort_by cmp xs) ∙ ap (λ b. p x || b) (any_of-sort_by cmp p xs)

-- A test that does not tell neighbours of one kind apart does not miss what is removed.
any_of-dedupe_loop :
    {A : Type 0} (same : A → A → Bool) (p : A → Bool) (x : A) (xs : List A)
    → ((a b : A) → same a b ≡ true → p a ≡ p b)
    → any_of p (x ∷ dedupe_loop same x xs) ≡ any_of p (x ∷ xs)
unfolding dedupe_loop
any_of-dedupe_loop same p x [] h = refl
any_of-dedupe_loop same p x (y ∷ ys) h = elim (Bool-cases (same y x)) [
  | inl t ↦ let rest = any_of-dedupe_loop same p x ys h in rw (t, h y x t) (ground arith)
  | inr n ↦ rw (n, any_of-dedupe_loop same p y ys h) refl
]

module _ (os : System) (options : Options) (root : Text) where
  normalize-keeps :
      (path : Text) (w : Walker)
      → is_listed os options root path w.result ≡ true
      → is_listed os options root path (normalize (flush_parse_errors w)) ≡ true
  unfolding normalize flush_parse_errors
  normalize-keeps path w h = deduped (sort_by compare_files w.result.files) (
      any_of-sort_by compare_files
        (λ (f : File). text_eq f.path (display_path os options root path)) w.result.files
      ∙ h)
    where
      deduped :
          (fs : List File)
          → any_of (λ (f : File). text_eq f.path (display_path os options root path)) fs ≡ true
          → any_of
              (λ (f : File). text_eq f.path (display_path os options root path))
              (dedupe same_file fs)
            ≡ true
      deduped [] g = g
      deduped (f ∷ fs) g =
          any_of-dedupe_loop same_file _ f fs (λ a b e.
            ap (λ s. text_eq s (display_path os options root path)) (text_eq→eq a.path b.path e))
          ∙ g

  abbrev pub Includes : Text → Attempt Discovered → Type 0
  Includes path (ok r) = is_listed os options root path r ≡ true
  Includes path (failed e) = ⊥

  normalized-Includes :
      (path : Text) (a : Attempt Walker)
      → Lists os options root path a
      → Includes path
          (and_then (and_then a (λ w. ok w)) (λ w. ok (normalize (flush_parse_errors w))))
  normalized-Includes path (ok w) h = normalize-keeps path w h
  normalized-Includes path (failed e) h = absurd h

  at_root :
      (p dir : Text) (nodes : Nodes) (w : Walker)
      → p ≡ os.clean_path root
      → visit_directory os options root p (directory dir nodes) w
        ≡ walk_nodes os options root nodes w
  at_root p dir nodes w e =
      let t : text_eq p (os.clean_path root) ≡ true = rw e (text_eq_self (os.clean_path root)) in
      rw t refl

  -- A whole repository, all of whose directories can be read, is scanned without an error, and every
  -- file of it that lies in directories which check-ignore lets pass, which check-ignore itself lets
  -- pass, which is of a known type and which is not a generated Go file is in the result.
  pub discover-Includes :
      (dir path : Text) (nodes : Nodes)
      → os.absolute (if text_eq options.root [] then codes "." else options.root) ≡ ok root
      → options.paths ≡ []
      → os.stat (path_of os options root (codes ".")) ≡ a_directory (directory dir nodes)
      → os.clean_path (path_of os options root (codes ".")) ≡ os.clean_path root
      → AreReadable nodes
      → LiesIn os options root path nodes
      → IsWanted os options root path
      → Includes path (discover os options)
  unfolding discover visit_inputs visit_input
  discover-Includes dir path nodes named all stat same readable lies wanted =
      let start : Walker = record { matcher = new_matcher; result = nothing_found } in
      let end : Walker → Attempt Discovered = λ w. ok (normalize (flush_parse_errors w)) in
      let found =
        walk_nodes-Lists os options root path start readable lies
          (new_matcher-IsCoherent os.glob os.read_ignore, (tt, tt)) wanted in
      let run =
        ap
          (λ a.
            and_then a
              (λ r. and_then (visit_inputs os options r (here_if_empty options.paths) start) end))
          named
        ∙ ap (λ ps. and_then (visit_inputs os options root (here_if_empty ps) start) end) all
        ∙ ap
            (λ st.
              and_then
                (and_then
                  (visit_stat os options root st (codes ".") (path_of os options root (codes "."))
                    start)
                  (λ w. ok w))
                end)
            stat
        ∙ ap (λ a. and_then (and_then a (λ w. ok w)) end) (at_root _ dir nodes start same) in
      subst (Includes path) (sym run) (normalized-Includes path _ found)
