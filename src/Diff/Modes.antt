-- ===== src/Diff/Modes.antt =====
-- FromMode of internal/diff/diff.go over any git: what the composed diff modes cover.
use gruff_go.Base.{
  ℕ, ◌≡◌, refl, ◌∙◌, inl, inr, ◌⊎◌, Bool, true, false, ◌||◌, List, [], ◌∷◌, Text, codes, text_eq,
  text_key, nat_eq, contains, lookup, arith, Bool-cases, split,
}
use gruff_go.Finding.{is_empty}
use gruff_go.Diff.Changed.{ChangedLines, merge, whole_files_of, refresh_changed_files}
use gruff_go.Diff.Git.{
  working_tree, base_args, Outcome, done, failed, panicked, endless, GitRun, output, exit_error,
  run_result, scoped, git_diff, from_git, untracked_files, from_working_tree, from_base, from_mode,
  listed_files, staged_args, unstaged_args, untracked_args,
}
use gruff_go.Diff.Merging.{covers, IsMap, contains-seen_files}
use gruff_go.Diff.Panics.{parse_total}
use gruff_go.Diff.Coverage.{covers-merge}

-- A call that comes back with a result or an error.
abbrev pub returns : {A : Type 0} → Outcome A → Bool
returns (done a) = true
returns (failed e) = true
returns panicked = false
returns endless = false

module _ (git : List Text → GitRun) where
  -- A change of a finished run, or a failure with git's reason.
  abbrev Ends : Outcome ChangedLines → Type 0
  Ends r =
      ((c : ChangedLines) × (r ≡ done c) × IsMap c.lines_by_file) ⊎ ((e : Text) × (r ≡ failed e))

  run-cases :
      (args : List Text)
      → ((text : Text) × (run_result (git args) ≡ done text))
        ⊎ ((e : Text) × (run_result (git args) ≡ failed e))
  run-cases args = go (git args)
    where
      go :
          (r : GitRun)
          → ((text : Text) × (run_result r ≡ done text)) ⊎ ((e : Text) × (run_result r ≡ failed e))
      go (output text) = inl (text, refl)
      go (exit_error e) = inr (e, refl)

  git_diff-Ends : (base : Text) (args paths : List Text) → Ends (git_diff git base args paths)
  unfolding git_diff
  git_diff-Ends base args paths = elim (run-cases (scoped args paths)) [
    | inr (e, failure) ↦ inr (e, rw failure)
    | inl (text, ran) ↦
        let (c, parsed, distinct) = parse_total base text in inl (c, rw (ran, parsed), distinct)
  ]

  untracked-cases :
      (paths : List Text)
      → ((files : List Text) × (untracked_files git paths ≡ done files))
        ⊎ ((e : Text) × (untracked_files git paths ≡ failed e))
  unfolding untracked_files
  untracked-cases paths = elim (run-cases (scoped untracked_args paths)) [
    | inl (text, ran) ↦ inl (listed_files (split 10 text), rw ran)
    | inr (e, failure) ↦ inr (e, rw failure)
  ]

  pub from_git-Ends : (base : Text) (paths : List Text) → Ends (from_git git base paths)
  unfolding from_git
  from_git-Ends base paths = elim (Bool-cases (is_empty base)) [
    | inl t ↦ inr (codes "diff base must not be empty", rw t)
    | inr n ↦ rw n (git_diff-Ends base (base_args base) paths)
  ]

  from_working_tree-returns : (paths : List Text) → returns (from_working_tree git paths) ≡ true
  unfolding from_working_tree
  from_working_tree-returns paths = elim (git_diff-Ends working_tree staged_args paths) [
    | inr (e, s) ↦ rw (s, from_working_tree) refl
    | inl (staged, s, _) ↦ elim (git_diff-Ends working_tree unstaged_args paths) [
      | inr (e, u) ↦ rw (s, u, from_working_tree) refl
      | inl (unstaged, u, _) ↦ elim (untracked-cases paths) [
        | inr (e, n) ↦ rw (s, u, n, from_working_tree) refl
        | inl (files, n) ↦ rw (s, u, n, from_working_tree) refl
      ]
    ]
  ]

  from_base-returns : (mode : Text) (paths : List Text) → returns (from_base git mode paths) ≡ true
  unfolding from_base
  from_base-returns mode paths = elim (from_git-Ends mode paths) [
    | inr (e, s) ↦ rw (s, from_base) refl
    | inl (base, s, _) ↦ elim (untracked-cases paths) [
      | inr (e, n) ↦ rw (s, n, from_base) refl
      | inl (files, n) ↦ rw (s, n, from_base) refl
    ]
  ]

  git_diff-returns :
      (base : Text) (args paths : List Text) → returns (git_diff git base args paths) ≡ true
  git_diff-returns base args paths = elim (git_diff-Ends base args paths) [
    | inl (c, e, _) ↦ rw e refl
    | inr (r, e) ↦ rw e refl
  ]

-- Whatever git prints, computing the changed region ends and does not panic, in any mode.
pub from_mode-returns :
    (git : List Text → GitRun) (mode : Text) (paths : List Text)
    → returns (from_mode git mode paths) ≡ true
unfolding from_mode
from_mode-returns git mode paths = elim (Bool-cases (is_empty mode || text_eq mode working_tree)) [
  | inl t ↦ rw t (from_working_tree-returns git paths)
  | inr n ↦ elim (Bool-cases (text_eq mode (codes "staged"))) [
    | inl t ↦ rw (n, t) (git_diff-returns git mode staged_args paths)
    | inr n' ↦ elim (Bool-cases (text_eq mode (codes "unstaged"))) [
      | inl t ↦ rw (n, n', t) (git_diff-returns git mode unstaged_args paths)
      | inr n'' ↦ rw (n, n', n'') (from_base-returns git mode paths)
    ]
  ]
]

covers-whole_files_of :
    (base : Text) (files : List Text) (f : Text) (n : ℕ)
    → covers (whole_files_of base files) f n ≡ contains files f
unfolding whole_files_of refresh_changed_files
covers-whole_files_of base files f n =
    rw contains-seen_files (unfold contains lookup in ground arith)

done-IsMap :
    (git : List Text → GitRun) (base : Text) (args paths : List Text) (c : ChangedLines)
    → git_diff git base args paths ≡ done c
    → IsMap c.lines_by_file
done-IsMap git base args paths c h = elim (git_diff-Ends git base args paths) [
  | inl (c', e, k) ↦ let same : c' ≡ c = ground arith in rw (← same) k
  | inr (r, e) ↦ absurd (cc)
]

-- In the default mode, where git lists the staged, the unstaged and the untracked changes, the result
-- covers a line exactly if the staged or the unstaged change covers it or its file is untracked.
pub from_mode-working_tree :
    (git : List Text → GitRun) (mode : Text) (paths : List Text) (staged unstaged : ChangedLines)
    (untracked : List Text)
    → (is_empty mode || text_eq mode working_tree) ≡ true
    → git_diff git working_tree staged_args paths ≡ done staged
    → git_diff git working_tree unstaged_args paths ≡ done unstaged
    → untracked_files git paths ≡ done untracked
    → (c : ChangedLines) × (from_mode git mode paths ≡ done c)
      × ((f : Text) (n : ℕ)
          → covers c f n ≡ (covers staged f n || (covers unstaged f n || contains untracked f)))
unfolding from_mode from_working_tree
from_mode-working_tree git mode paths staged unstaged untracked default s u n =
    (merge working_tree sets, rw (default, s, u, n, from_working_tree), covered)
  where
    sets : List ChangedLines
    sets = staged ∷ unstaged ∷ whole_files_of working_tree untracked ∷ []

    covered :
        (f : Text) (k : ℕ)
        → covers (merge working_tree sets) f k
          ≡ (covers staged f k || (covers unstaged f k || contains untracked f))
    covered f k =
        covers-merge working_tree sets f k (
          done-IsMap git working_tree staged_args paths staged s,
          (
            done-IsMap git working_tree unstaged_args paths unstaged u,
            (unfold whole_files_of refresh_changed_files in tt, tt),
          ),
        )
        ∙ ground (arith, covers-whole_files_of working_tree untracked f k)
