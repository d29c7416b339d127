-- ===== src/Diff/Git.antt =====
-- FromGit, FromMode, gitDiff and untrackedFiles of internal/diff/diff.go. Running git is a parameter:
-- a function of the arguments, into its output or the reason that it failed.
use gruff_go.Base.{
  ◌||◌, Option, none, some, List, [], ◌∷◌, ◌++◌, Text, codes, text_eq, split, trim_space,
  if◌then◌else◌,
}
use gruff_go.Finding.{is_empty}
use gruff_go.Diff.Changed.{ChangedLines, whole_files_of, merge}
use gruff_go.Diff.Patch.{parse}

-- A call returns, fails with an error, panics, or never comes back.
pub data Outcome (A : Type 0) : Type 0 where
  done : A → Outcome A
  failed : Text → Outcome A
  panicked : Outcome A
  endless : Outcome A

-- A git process prints its output, or exits with an error.
pub data GitRun : Type 0 where
  output : Text → GitRun
  exit_error : Text → GitRun

abbrev pub run_result : GitRun → Outcome Text
run_result (output text) = done text
run_result (exit_error reason) = failed reason

infixl 5 ◌>>=◌
abbrev pub ◌>>=◌ : {A B : Type 0} → Outcome A → (A → Outcome B) → Outcome B
done a >>= f = f a
failed e >>= f = failed e
panicked >>= f = panicked
endless >>= f = endless

abbrev pub or_panic : Option ChangedLines → Outcome ChangedLines
or_panic none = panicked
or_panic (some c) = done c

abbrev pub scoped : List Text → List Text → List Text
scoped args [] = args ++ (codes "." ∷ [])
scoped args (path ∷ paths) = args ++ (path ∷ paths)

abbrev pub staged_args : List Text
staged_args =
    codes "diff"
    ∷ codes "--cached"
    ∷ codes "--unified=0"
    ∷ codes "--no-ext-diff"
    ∷ codes "--relative"
    ∷ codes "--"
    ∷ []

abbrev pub unstaged_args : List Text
unstaged_args =
    codes "diff"
    ∷ codes "--unified=0"
    ∷ codes "--no-ext-diff"
    ∷ codes "--relative"
    ∷ codes "--"
    ∷ []

abbrev pub base_args : Text → List Text
base_args base =
    codes "diff"
    ∷ codes "--unified=0"
    ∷ codes "--no-ext-diff"
    ∷ codes "--relative"
    ∷ base
    ∷ codes "--"
    ∷ []

abbrev pub untracked_args : List Text
untracked_args = codes "ls-files" ∷ codes "--others" ∷ codes "--exclude-standard" ∷ codes "--" ∷ []

abbrev pub working_tree : Text
working_tree = codes "working-tree"

-- The lines of the listing that are not blank.
unfoldable pub listed_files : List Text → List Text
unfolding trim_space
listed_files [] = []
listed_files (line ∷ lines) =
    let rest = listed_files lines in if is_empty (trim_space line) then rest else line ∷ rest

module _ (git : List Text → GitRun) where
  -- gitDiff
  unfoldable pub git_diff : Text → List Text → List Text → Outcome ChangedLines
  unfolding parse
  git_diff base args paths = do
    text ← run_result (git (scoped args paths))
    or_panic (parse base text)

  -- FromGit
  unfoldable pub from_git : Text → List Text → Outcome ChangedLines
  unfolding git_diff
  from_git base paths =
      if is_empty base
      then failed (codes "diff base must not be empty")
      else git_diff base (base_args base) paths

  -- untrackedFiles
  unfoldable pub untracked_files : List Text → Outcome (List Text)
  unfolding listed_files split
  untracked_files paths = do
    text ← run_result (git (scoped untracked_args paths))
    done (listed_files (split 10 text))

  unfoldable pub from_working_tree : List Text → Outcome ChangedLines
  unfolding git_diff untracked_files merge whole_files_of
  from_working_tree paths = do
    staged ← git_diff working_tree staged_args paths
    unstaged ← git_diff working_tree unstaged_args paths
    untracked ← untracked_files paths
    done (merge working_tree (staged ∷ unstaged ∷ whole_files_of working_tree untracked ∷ []))

  unfoldable pub from_base : Text → List Text → Outcome ChangedLines
  unfolding from_git untracked_files merge whole_files_of
  from_base mode paths = do
    base ← from_git mode paths
    untracked ← untracked_files paths
    done (merge mode (base ∷ whole_files_of mode untracked ∷ []))

  -- FromMode
  unfoldable pub from_mode : Text → List Text → Outcome ChangedLines
  unfolding from_working_tree from_base git_diff
  from_mode mode paths =
      if is_empty mode || text_eq mode working_tree
      then from_working_tree paths
      else if text_eq mode (codes "staged")
      then git_diff mode staged_args paths
      else if text_eq mode (codes "unstaged")
      then git_diff mode unstaged_args paths
      else from_base mode paths
