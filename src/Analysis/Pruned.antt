-- ===== src/Analysis/Pruned.antt =====
-- pruneOrphanedComposites of internal/analysis/composite_pruning.go.
use gruff_go.Base.{
  ◌+◌, ◌≡◌, refl, ap, inl, inr, Bool, true, false, not, ◌||◌, ◌&&◌, none, some, List, [], ◌∷◌, Text,
  text_eq, text_key, contains, set_insert, contains-set_insert, arith, Bool-cases, Option-cases,
  any_of, keep_if, length,
}
use mathlib.Core.Path.{fun_ext}
use gruff_go.Finding.{Finding, is_empty}
use gruff_go.Analysis.Composite.{
  composite_underlying_fingerprints, collect_non_composite_fingerprints, any_survives,
  composite_evidence_survives, prune_loop, prune_orphaned_composites,
}

-- A finding that is no composite, and has this fingerprint.
abbrev pub is_evidence : Text → Finding → Bool
is_evidence fp f = elim (composite_underlying_fingerprints f) [
  | some _ ↦ false
  | none ↦ not (is_empty f.fingerprint) && text_eq f.fingerprint fp
]

contains-collect :
    (fs : List Finding) (out : List Text) (fp : Text)
    → contains (collect_non_composite_fingerprints fs out) fp
      ≡ (any_of (is_evidence fp) fs || contains out fp)
unfolding collect_non_composite_fingerprints
contains-collect [] out fp = refl
contains-collect (f ∷ fs) out fp = elim (Option-cases (composite_underlying_fingerprints f)) [
  | inr (fps, e) ↦ ground (arith, contains-collect fs out fp)
  | inl e ↦ elim (Bool-cases (is_empty f.fingerprint)) [
    | inl t ↦ ground (arith, contains-collect fs out fp)
    | inr n ↦ ground (
      arith,
      contains-collect fs (set_insert f.fingerprint out) fp,
      contains-set_insert f.fingerprint fp out,
    )
  ]
]

-- Some fingerprint of the list belongs to a finding that is no composite.
abbrev pub any_evidence : List Text → List Finding → Bool
any_evidence [] fs = false
any_evidence (fp ∷ fps) fs = any_of (is_evidence fp) fs || any_evidence fps fs

any_survives-collect :
    (fps : List Text) (fs : List Finding)
    → any_survives fps (collect_non_composite_fingerprints fs []) ≡ any_evidence fps fs
any_survives-collect [] fs = refl
any_survives-collect (fp ∷ fps) fs =
    rw (contains-collect, any_survives-collect fps fs) (unfold contains in ground arith)

-- What a finding needs to stay: to be no composite, or to have evidence in the list.
abbrev pub is_backed : List Finding → Finding → Bool
is_backed fs f = elim (composite_underlying_fingerprints f) [
  | none ↦ true
  | some fps ↦ any_evidence fps fs
]

survives-is_backed :
    (fs : List Finding) (f : Finding)
    → composite_evidence_survives f (collect_non_composite_fingerprints fs []) ≡ is_backed fs f
unfolding composite_evidence_survives
survives-is_backed fs f = elim (Option-cases (composite_underlying_fingerprints f)) [
  | inl e ↦ ground arith
  | inr (fps, e) ↦ ground (arith, any_survives-collect fps fs)
]

prune_loop_lem :
    (fs all : List Finding)
    → ((prune_loop fs (collect_non_composite_fingerprints all [])).0 ≡ keep_if (is_backed all) fs)
      × (length (prune_loop fs (collect_non_composite_fingerprints all [])).0
            + (prune_loop fs (collect_non_composite_fingerprints all [])).1
          ≡ length fs)
unfolding prune_loop
prune_loop_lem [] all = (refl, omega arith)
prune_loop_lem (f ∷ fs) all =
    let (same, total) = prune_loop_lem fs all in
    rw (survives-is_backed all f) (elim (Bool-cases (is_backed all f)) [
      | inl t ↦ rw t (ap (λ r. f ∷ r) same, omega arith)
      | inr n ↦ rw n (same, omega arith)
    ])

-- A composite is a finding whose metadata lists underlying fingerprints, an empty list included.
-- Pruning keeps, in order, the findings that are no composites and the composites that name the
-- fingerprint of some present finding that is no composite, so none whose list is empty; the number
-- it reports is that of the findings it dropped.
pub prune_orphaned_composites_lem :
    (fs : List Finding)
    → ((prune_orphaned_composites fs).0 ≡ keep_if (is_backed fs) fs)
      × (length (prune_orphaned_composites fs).0 + (prune_orphaned_composites fs).1 ≡ length fs)
unfolding prune_orphaned_composites
prune_orphaned_composites_lem fs = prune_loop_lem fs fs

all_backed :
    (fs all : List Finding)
    → keep_if (is_backed all) (keep_if (is_backed all) fs) ≡ keep_if (is_backed all) fs
all_backed [] all = refl
all_backed (f ∷ fs) all = elim (Bool-cases (is_backed all f)) [
  | inl t ↦ rw (t, t) (ap (λ r. f ∷ r) (all_backed fs all))
  | inr n ↦ rw n (all_backed fs all)
]

any_of-keep_if_backed :
    (fp : Text) (fs all : List Finding)
    → any_of (is_evidence fp) (keep_if (is_backed all) fs) ≡ any_of (is_evidence fp) fs
any_of-keep_if_backed fp [] all = refl
any_of-keep_if_backed fp (f ∷ fs) all = elim (Option-cases (composite_underlying_fingerprints f)) [
  | inl e ↦ ground (arith, any_of-keep_if_backed fp fs all)
  | inr (fps, e) ↦ ground (arith, any_of-keep_if_backed fp fs all)
]

any_evidence-keep_if_backed :
    (fps : List Text) (fs all : List Finding)
    → any_evidence fps (keep_if (is_backed all) fs) ≡ any_evidence fps fs
any_evidence-keep_if_backed [] fs all = refl
any_evidence-keep_if_backed (fp ∷ fps) fs all =
    rw (any_of-keep_if_backed fp fs all, any_evidence-keep_if_backed fps fs all)

is_backed-keep_if :
    (fs : List Finding) (f : Finding) → is_backed (keep_if (is_backed fs) fs) f ≡ is_backed fs f
is_backed-keep_if fs f = elim (Option-cases (composite_underlying_fingerprints f)) [
  | inl e ↦ ground arith
  | inr (fps, e) ↦ ground (arith, any_evidence-keep_if_backed fps fs fs)
]

-- Pruning a second time changes nothing: no composite counts on another composite.
pub prune_orphaned_composites_idem :
    (fs : List Finding)
    → (prune_orphaned_composites (prune_orphaned_composites fs).0).0
      ≡ (prune_orphaned_composites fs).0
prune_orphaned_composites_idem fs =
    rw
      (
        (prune_orphaned_composites_lem fs).0,
        (prune_orphaned_composites_lem (keep_if (is_backed fs) fs)).0,
        fun_ext (is_backed-keep_if fs),
      )
      (all_backed fs fs)
