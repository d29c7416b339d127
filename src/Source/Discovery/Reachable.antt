-- ===== src/Source/Discovery/Reachable.antt =====
-- What a walk of internal/source/source.go is to find.
use gruff_go.Base.{◌≡◌, Bool, true, false, some, Text, text_eq, any_of}
use gruff_go.Source.Discovery.Decide.{Options}
use gruff_go.Source.Discovery.Classify.{FileType, classify}
use gruff_go.Source.Discovery.Files.{
  File, Discovered, Node, file, directory, Nodes, nil, cons, Attempt, ok, failed, System, Walker,
}
use gruff_go.Source.Discovery.Walker.{display_path}
use gruff_go.Source.Discovery.Explained.{check, is_generated}

-- A tree in which every directory can be read.
mutual
  pub data IsReadable : Node → Type 0 where
    readable_file : {path : Text} → IsReadable (file path)
    readable_dir :
        {dir : Text} {nodes : Nodes} → AreReadable nodes → IsReadable (directory dir nodes)

  pub data AreReadable : Nodes → Type 0 where
    no_more : AreReadable nil
    one_more : {n : Node} {ns : Nodes} → IsReadable n → AreReadable ns → AreReadable (cons n ns)

module _ (os : System) (options : Options) (root : Text) where
  abbrev pub shown_at : Text → Text
  shown_at path = display_path os options root path

  abbrev pub is_listed : Text → Discovered → Bool
  is_listed path r = any_of (λ (f : File). text_eq f.path (shown_at path)) r.files

  -- A file that check-ignore lets pass, of a known type and not generated.
  abbrev pub IsWanted : Text → Type 0
  IsWanted path =
      (t : FileType) × ((check os options (shown_at path) false).ignored ≡ false)
      × (classify path ≡ some t)
      × (is_generated os options t path ≡ false)

  -- A file of a tree below directories that check-ignore lets pass.
  mutual
    pub data Lies (path : Text) : Node → Type 0 where
      here : Lies path (file path)
      below :
          {dir : Text} {nodes : Nodes}
          → (check os options (shown_at dir) true).ignored ≡ false
          → LiesIn path nodes
          → Lies path (directory dir nodes)

    pub data LiesIn (path : Text) : Nodes → Type 0 where
      first : {n : Node} {ns : Nodes} → Lies path n → LiesIn path (cons n ns)
      later : {n : Node} {ns : Nodes} → LiesIn path ns → LiesIn path (cons n ns)

  -- The walk ends without an error and the file is listed.
  abbrev pub Lists : Text → Attempt Walker → Type 0
  Lists path (ok w) = is_listed path w.result ≡ true
  Lists path (failed e) = ⊥
