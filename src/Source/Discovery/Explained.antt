-- ===== src/Source/Discovery/Explained.antt =====
-- The result of Discover in internal/source/source.go, item by item.
use gruff_go.Base.{
  ◌≡◌, ◌⊎◌, refl, inl, inr, Bool, true, false, not, ◌&&◌, Option, none, some, List, [], ◌∷◌, Text,
  text_eq, All, All-append, if◌then◌else◌, Bool-cases,
}
use gruff_go.Source.Gitignore.Cached.{IsCoherent}
use gruff_go.Source.Discovery.Decide.{Options, IgnoreDecision, decide_ignore, check_ignore}
use gruff_go.Source.Discovery.Classify.{FileType, classify, generated_content}
use gruff_go.Source.Discovery.Agreed.{decide_ignore-Answers}
use gruff_go.Source.Discovery.Files.{
  File, SkippedPath, Discovered, Node, file, directory, Nodes, nil, unreadable, cons, Stat,
  missing_path, stat_error, plain_file, a_directory, Attempt, ok, failed, System, Walker,
  skipped_path, add_skipped, and_then, is_go, generated_at,
}
use gruff_go.Source.Discovery.Walker.{
  display_path, add_classified, add_file, visit_file, visit_dir, walk_node, walk_nodes, walk_root,
  visit_stat, path_of, visit_input, visit_inputs,
}

module _ (os : System) (options : Options) where
  abbrev pub check : Text → Bool → IgnoreDecision
  check rel is_dir = check_ignore os.clean os.glob os.read_ignore options rel is_dir

  -- A Go file that carries the generated header, where such files are left out.
  abbrev pub is_generated : FileType → Text → Bool
  is_generated t path =
      is_go t && (not options.include_ignored && generated_content (os.read_file path))

  -- A file that check-ignore lets pass, of a known type and not generated.
  pub record IsScanned (root : Text) (f : File) : Type 0 where
    pub shown : f.path ≡ display_path os options root f.abs_path
    pub passed : (check f.path false).ignored ≡ false
    pub classified : classify f.abs_path ≡ some f.file_type
    pub written : is_generated f.file_type f.abs_path ≡ false

  -- A path that check-ignore reports as ignored, with its reason; or a generated file.
  abbrev pub IsExplained : Text → SkippedPath → Type 0
  IsExplained root s =
      ((is_dir : Bool) × ((check s.path is_dir).ignored ≡ true)
        × (s ≡ skipped_path (check s.path is_dir) s.path))
      ⊎ ((path : Text) × (t : FileType) × (s ≡ generated_at (display_path os options root path))
          × ((check s.path false).ignored ≡ false)
          × (classify path ≡ some t)
          × (is_generated t path ≡ true))

  abbrev pub IsKnown : Text → Discovered → Type 0
  IsKnown root r = All (IsScanned root) r.files × All (IsExplained root) r.skipped

  -- The caches are right and the result so far is accounted for.
  abbrev pub IsSound : Text → Walker → Type 0
  IsSound root w = IsCoherent os.glob os.read_ignore w.matcher × (IsKnown root w.result)

  abbrev pub Ends : Text → Attempt Walker → Type 0
  Ends root (ok w) = IsSound root w
  Ends root (failed e) = Unit

  add_skipped-IsKnown :
      (root : Text) (s : SkippedPath) (r : Discovered)
      → IsKnown root r
      → IsExplained root s
      → IsKnown root (add_skipped s r)
  add_skipped-IsKnown root s r (fs, ss) h =
      (fs, All-append (IsExplained root) r.skipped (s ∷ []) ss (h, tt))

  add_classified-IsKnown :
      (root path : Text) (o : Option FileType) (r : Discovered)
      → IsKnown root r
      → classify path ≡ o
      → (check (display_path os options root path) false).ignored ≡ false
      → IsKnown root (add_classified os options root o path r)
  add_classified-IsKnown root path none r k e d = k
  add_classified-IsKnown root path (some t) r k e d = elim (Bool-cases (is_generated t path)) [
    | inl g ↦ rw g (add_skipped-IsKnown root _ r k (inr (path, t, refl, d, e, g)))
    | inr w ↦ rw w (
      All-append (IsScanned root) r.files _ k.0
          (record { shown = refl; passed = d; classified = e; written = w }, tt),
      k.1,
    )
  ]

  pub decided :
      (root path : Text) (is_dir : Bool) (w : Walker)
      → IsSound root w
      → IsCoherent os.glob os.read_ignore
          (decide_ignore os.clean os.glob os.read_ignore options
            (display_path os options root path)
            is_dir
            w.matcher).0
        × ((decide_ignore os.clean os.glob os.read_ignore options
              (display_path os options root path)
              is_dir
              w.matcher).1
            ≡ check (display_path os options root path) is_dir)
  decided root path is_dir w s =
      decide_ignore-Answers os.clean os.glob os.read_ignore options
        (display_path os options root path) is_dir w.matcher s.0

  pub visit_file-IsSound :
      (root path : Text) (w : Walker)
      → IsSound root w
      → IsSound root (visit_file os options root path w)
  unfolding visit_file add_file
  visit_file-IsSound root path w s =
      let (c, e) = decided root path false w s in
      let rel = display_path os options root path in
      elim (Bool-cases (check rel false).ignored) [
        | inl t ↦ (c, rw (e, t) (add_skipped-IsKnown root _ w.result s.1 (inl (false, t, refl))))
        | inr n ↦
            (c, rw (e, n) (add_classified-IsKnown root path (classify path) w.result s.1 refl n))
      ]

  pub visit_dir-IsSound :
      (root path : Text) (w : Walker)
      → IsSound root w
      → IsSound root (visit_dir os options root path w).0
  unfolding visit_dir
  visit_dir-IsSound root path w s =
      let (c, e) = decided root path true w s in
      let rel = display_path os options root path in
      elim (Bool-cases (check rel true).ignored) [
        | inl t ↦ (c, rw (e, t) (add_skipped-IsKnown root _ w.result s.1 (inl (true, t, refl))))
        | inr n ↦ (c, rw (e, n) s.1)
      ]

  and_then-Ends :
      (root : Text) (a : Attempt Walker) (f : Walker → Attempt Walker)
      → Ends root a
      → ((w : Walker) → IsSound root w → Ends root (f w))
      → Ends root (and_then a f)
  and_then-Ends root (ok w) f s h = h w s
  and_then-Ends root (failed e) f s h = tt

  if-Ends :
      (root : Text) (b : Bool) (x y : Attempt Walker)
      → Ends root x
      → Ends root y
      → Ends root (if b then x else y)
  if-Ends root true x y h k = h
  if-Ends root false x y h k = k

  mutual
    unfolding walk_node walk_nodes

    pub walk_node-Ends :
        (root : Text) (n : Node) (w : Walker)
        → IsSound root w
        → Ends root (walk_node os options root n w)
    walk_node-Ends root (file path) w s = visit_file-IsSound root path w s
    walk_node-Ends root (directory path nodes) w s =
        let s' = visit_dir-IsSound root path w s in
        let w' = (visit_dir os options root path w).0 in
        if-Ends root (visit_dir os options root path w).1 (ok w')
          (walk_nodes os options root nodes w') s' (walk_nodes-Ends root nodes w' s')

    walk_nodes-Ends :
        (root : Text) (ns : Nodes) (w : Walker)
        → IsSound root w
        → Ends root (walk_nodes os options root ns w)
    walk_nodes-Ends root nil w s = s
    walk_nodes-Ends root (unreadable e) w s = tt
    walk_nodes-Ends root (cons n ns) w s =
        and_then-Ends root (walk_node os options root n w) _ (walk_node-Ends root n w s)
          (λ w' s'. walk_nodes-Ends root ns w' s')

  pub walk_root-Ends :
      (root : Text) (n : Node) (w : Walker)
      → IsSound root w
      → Ends root (walk_root os options root n w)
  walk_root-Ends root (file path) w s = visit_file-IsSound root path w s
  walk_root-Ends root (directory path nodes) w s = walk_nodes-Ends root nodes w s

  visit_stat-Ends :
      (root : Text) (o : Stat) (input path : Text) (w : Walker)
      → IsSound root w
      → Ends root (visit_stat os options root o input path w)
  visit_stat-Ends root missing_path input path w s = s
  visit_stat-Ends root (stat_error e) input path w s = tt
  visit_stat-Ends root plain_file input path w s = visit_file-IsSound root path w s
  visit_stat-Ends root (a_directory n) input path w s =
      let p = os.clean_path path in
      let s' = visit_dir-IsSound root p w s in
      let w' = (visit_dir os options root p w).0 in
      if-Ends root (text_eq p (os.clean_path root)) _ _ (walk_root-Ends root n w s) (
        if-Ends root (visit_dir os options root p w).1 (ok w') (walk_root os options root n w') s'
          (walk_root-Ends root n w' s'))

  pub visit_inputs-Ends :
      (root : Text) (inputs : List Text) (w : Walker)
      → IsSound root w
      → Ends root (visit_inputs os options root inputs w)
  unfolding visit_inputs visit_input
  visit_inputs-Ends root [] w s = s
  visit_inputs-Ends root (input ∷ inputs) w s =
      and_then-Ends root (visit_input os options root input w) _
        (visit_stat-Ends root (os.stat (path_of os options root input)) input _ w s)
        (λ w' s'. visit_inputs-Ends root inputs w' s')
