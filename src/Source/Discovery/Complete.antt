-- ===== src/Source/Discovery/Complete.antt =====
-- The files that Discover of internal/source/source.go does not miss.
use gruff_go.Base.{
  ◌≡◌, refl, ap, ◌∙◌, inl, inr, Bool, true, false, ◌||◌, Option, none, some, List, [], ◌∷◌, ◌++◌,
  Text, text_eq, text_eq_self, any_of, if◌then◌else◌, arith, Bool-cases,
}
use gruff_go.Source.Discovery.Decide.{Options, IgnoreDecision, decide_ignore}
use gruff_go.Source.Discovery.Classify.{FileType, classify}
use gruff_go.Source.Discovery.Files.{
  File, Discovered, Node, Nodes, Attempt, ok, failed, System, Walker, add_skipped, and_then,
  skipped_path,
}
use gruff_go.Source.Discovery.Walker.{
  add_classified, add_file, visit_file, visit_dir, walk_node, walk_nodes, decision_at,
}
use gruff_go.Source.Discovery.Explained.{
  check, is_generated, IsSound, decided, visit_file-IsSound, visit_dir-IsSound,
}
use gruff_go.Source.Discovery.Reachable.{
  shown_at, is_listed, IsWanted, Lies, here, below, LiesIn, first, later, IsReadable, readable_file,
  readable_dir, AreReadable, no_more, one_more, Lists,
}

any_of-snoc :
    {A : Type 0} (p : A → Bool) (xs : List A) (x : A)
    → any_of p (xs ++ (x ∷ [])) ≡ (any_of p xs || p x)
any_of-snoc p [] x = ground arith
any_of-snoc p (y ∷ xs) x = ground (arith, any_of-snoc p xs x)

module _ (os : System) (options : Options) (root : Text) where
  add_file-keeps :
      (path other : Text) (o : Option FileType) (r : Discovered)
      → is_listed os options root path r ≡ true
      → is_listed os options root path (add_classified os options root o other r) ≡ true
  add_file-keeps path other none r h = h
  add_file-keeps path other (some t) r h = elim (Bool-cases (is_generated os options t other)) [
    | inl g ↦ rw g h
    | inr w ↦
        rw
          (
            w,
            any_of-snoc (λ (f : File). text_eq f.path (shown_at os options root path)) r.files _,
            h,
          )
          refl
  ]

  visit_file-keeps :
      (path other : Text) (w : Walker)
      → is_listed os options root path w.result ≡ true
      → is_listed os options root path (visit_file os options root other w).result ≡ true
  unfolding visit_file add_file
  visit_file-keeps path other w h =
      by_flag
        (decide_ignore os.clean os.glob os.read_ignore options (shown_at os options root other)
          false w.matcher).1
    where
      by_flag :
          (d : IgnoreDecision)
          → is_listed os options root path (
              if d.ignored
              then add_skipped (skipped_path d (shown_at os options root other)) w.result
              else add_classified os options root (classify other) other w.result)
            ≡ true
      by_flag d = elim (Bool-cases d.ignored) [
        | inl t ↦ rw t h
        | inr n ↦ rw n (add_file-keeps path other (classify other) w.result h)
      ]

  visit_dir-files :
      (path : Text) (w : Walker)
      → (visit_dir os options root path w).0.result.files ≡ w.result.files
  unfolding visit_dir
  visit_dir-files path w =
      elim (Bool-cases
        (decision_at os options root (shown_at os options root path) true w.matcher).1.ignored) [
          | inl t ↦ rw t refl
          | inr n ↦ rw n refl
        ]

  visit_dir-keeps :
      (path other : Text) (w : Walker)
      → is_listed os options root path w.result ≡ true
      → is_listed os options root path (visit_dir os options root other w).0.result ≡ true
  visit_dir-keeps path other w h =
      ap (any_of (λ (f : File). text_eq f.path (shown_at os options root path)))
        (visit_dir-files other w)
      ∙ h

  visit_file-lists :
      (path : Text) (w : Walker)
      → IsSound os options root w
      → IsWanted os options root path
      → is_listed os options root path (visit_file os options root path w).result ≡ true
  unfolding visit_file add_file
  visit_file-lists path w s (t, passes, typed, written) =
      let (c, e) = decided os options root path false w s in
      rw
        (
          e,
          passes,
          typed,
          written,
          any_of-snoc (λ (f : File). text_eq f.path (shown_at os options root path)) w.result.files
              _,
          text_eq_self (shown_at os options root path),
        )
        (ground arith)

  if-Lists :
      (path : Text) (b : Bool) (x y : Attempt Walker)
      → Lists os options root path x
      → Lists os options root path y
      → Lists os options root path (if b then x else y)
  if-Lists path true x y h k = h
  if-Lists path false x y h k = k

  and_then-Lists :
      (path : Text) (a : Attempt Walker) (f : Walker → Attempt Walker)
      → Lists os options root path a
      → ((w : Walker)
          → is_listed os options root path w.result ≡ true
          → Lists os options root path (f w))
      → Lists os options root path (and_then a f)
  and_then-Lists path (ok w) f l h = h w l
  and_then-Lists path (failed e) f l h = absurd l

  mutual
    unfolding walk_node walk_nodes

    walk_node-keeps :
        (path : Text) {n : Node} (w : Walker)
        → IsReadable n
        → is_listed os options root path w.result ≡ true
        → Lists os options root path (walk_node os options root n w)
    walk_node-keeps path w (readable_file {path = other}) h = visit_file-keeps path other w h
    walk_node-keeps path w (readable_dir {dir} {nodes} rs) h =
        let h' = visit_dir-keeps path dir w h in
        let w' = (visit_dir os options root dir w).0 in
        if-Lists path (visit_dir os options root dir w).1 (ok w')
          (walk_nodes os options root nodes w') h' (walk_nodes-keeps path w' rs h')

    walk_nodes-keeps :
        (path : Text) {ns : Nodes} (w : Walker)
        → AreReadable ns
        → is_listed os options root path w.result ≡ true
        → Lists os options root path (walk_nodes os options root ns w)
    walk_nodes-keeps path w no_more h = h
    walk_nodes-keeps path w (one_more {n} {ns} r rs) h =
        and_then-Lists path (walk_node os options root n w) _ (walk_node-keeps path w r h)
          (λ w' h'. walk_nodes-keeps path w' rs h')

  -- A walk over what comes first keeps the walker sound and does not fail.
  abbrev IsDone : Attempt Walker → Type 0
  IsDone (ok w) = IsSound os options root w
  IsDone (failed e) = ⊥

  if-IsDone : (b : Bool) (x y : Attempt Walker) → IsDone x → IsDone y → IsDone (if b then x else y)
  if-IsDone true x y h k = h
  if-IsDone false x y h k = k

  and_then-IsDone :
      (a : Attempt Walker) (f : Walker → Attempt Walker)
      → IsDone a
      → ((w : Walker) → IsSound os options root w → IsDone (f w))
      → IsDone (and_then a f)
  and_then-IsDone (ok w) f s h = h w s
  and_then-IsDone (failed e) f s h = absurd s

  mutual
    unfolding walk_node walk_nodes

    walk_node-IsDone :
        {n : Node} (w : Walker)
        → IsReadable n
        → IsSound os options root w
        → IsDone (walk_node os options root n w)
    walk_node-IsDone w (readable_file {path}) s = visit_file-IsSound os options root path w s
    walk_node-IsDone w (readable_dir {dir} {nodes} rs) s =
        let s' = visit_dir-IsSound os options root dir w s in
        let w' = (visit_dir os options root dir w).0 in
        if-IsDone (visit_dir os options root dir w).1 (ok w') (walk_nodes os options root nodes w')
          s' (walk_nodes-IsDone w' rs s')

    walk_nodes-IsDone :
        {ns : Nodes} (w : Walker)
        → AreReadable ns
        → IsSound os options root w
        → IsDone (walk_nodes os options root ns w)
    walk_nodes-IsDone w no_more s = s
    walk_nodes-IsDone w (one_more {n} {ns} r rs) s =
        and_then-IsDone (walk_node os options root n w) _ (walk_node-IsDone w r s)
          (λ w' s'. walk_nodes-IsDone w' rs s')

  after-Lists :
      (path : Text) (a : Attempt Walker) (f : Walker → Attempt Walker)
      → IsDone a
      → ((w : Walker) → IsSound os options root w → Lists os options root path (f w))
      → Lists os options root path (and_then a f)
  after-Lists path (ok w) f s h = h w s
  after-Lists path (failed e) f s h = absurd s

  entered :
      (dir : Text) (w : Walker)
      → IsSound os options root w
      → (check os options (shown_at os options root dir) true).ignored ≡ false
      → (visit_dir os options root dir w).1 ≡ false
  unfolding visit_dir
  entered dir w s passes =
      let (c, e) = decided os options root dir true w s in
      ap (λ (d : IgnoreDecision). d.ignored) e ∙ passes

  unless-Lists :
      (path : Text) (b : Bool) (x y : Attempt Walker)
      → b ≡ false
      → Lists os options root path y
      → Lists os options root path (if b then x else y)
  unless-Lists path true x y e k = absurd (cc)
  unless-Lists path false x y e k = k

  mutual
    unfolding walk_node walk_nodes

    walk_node-Lists :
        (path : Text) {n : Node} (w : Walker)
        → IsReadable n
        → Lies os options root path n
        → IsSound os options root w
        → IsWanted os options root path
        → Lists os options root path (walk_node os options root n w)
    walk_node-Lists path w r here s h = visit_file-lists path w s h
    walk_node-Lists path w (readable_dir {dir} {nodes} rs) (below passes l) s h =
        let s' = visit_dir-IsSound os options root dir w s in
        let w' = (visit_dir os options root dir w).0 in
        unless-Lists path (visit_dir os options root dir w).1 (ok w')
          (walk_nodes os options root nodes w') (entered dir w s passes)
          (walk_nodes-Lists path w' rs l s' h)

    pub walk_nodes-Lists :
        (path : Text) {ns : Nodes} (w : Walker)
        → AreReadable ns
        → LiesIn os options root path ns
        → IsSound os options root w
        → IsWanted os options root path
        → Lists os options root path (walk_nodes os options root ns w)
    walk_nodes-Lists path w no_more l s h = elim l [ ]
    walk_nodes-Lists path w (one_more {n} {ns} r rs) (first l) s h =
        and_then-Lists path (walk_node os options root n w) _ (walk_node-Lists path w r l s h)
          (λ w' k. walk_nodes-keeps path w' rs k)
    walk_nodes-Lists path w (one_more {n} {ns} r rs) (later l) s h =
        after-Lists path (walk_node os options root n w) _ (walk_node-IsDone w r s)
          (λ w' s'. walk_nodes-Lists path w' rs l s' h)
