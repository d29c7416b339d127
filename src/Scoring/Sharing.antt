-- ===== src/Scoring/Sharing.antt =====
-- clusterPenalties of internal/scoring/scoring.go, without indices: what each finding is billed.
use gruff_go.Base.{
  ℕ, ◌+◌, ◌≡◌, ◌≢◌, refl, ap, ◌∙◌, inl, inr, true, Option, none, some, List, [], ◌∷◌, map, lookup,
  count_if, keep_if, beq_self, beq_comm, ltb, if◌then◌else◌, arith, Bool-cases, Option-cases, All,
  All-imp,
}
use gruff_go.Finding.{Finding}
use gruff_go.Scoring.Points.{Float}
use gruff_go.Scoring.Clusters.{
  ClusterKey, cluster_key_eq, cluster_key_eq_iff, cluster_key, Groups, key_of, group_loop, max_loop,
  max_float, share_loop, share_group, share_groups, base_penalty, cluster_penalties,
}
use gruff_go.Scoring.Grouping.{
  is_key, has_key, indices_of, length-indices_of, IsGrouped, group_loop-IsGrouped,
  lookup-group_loop, group_loop-found,
}
use gruff_go.Scoring.Indices.{
  map_congr, max_of, max_loop-indices, share_loop-indices, max_of-keep_if,
}

module _ {F : Type 0} (fl : Float F) where
  -- What one finding of a cluster is billed: an equal share of the cluster's greatest penalty.
  abbrev pub share : ClusterKey → List Finding → F
  share k fs =
      fl.div (max_of fl (base_penalty fl) (keep_if (has_key k) fs) fl.nought)
        (fl.of_int (count_if (has_key k) fs))

  -- What a finding is billed among these findings: its own penalty, or its share in a cluster of two
  -- or more.
  abbrev pub billed_as : Option ClusterKey → List Finding → Finding → F
  billed_as none fs f = base_penalty fl f
  billed_as (some k) fs f =
      if ltb (count_if (has_key k) fs) 2 then base_penalty fl f else share k fs

  abbrev pub billed : List Finding → Finding → F
  billed fs f = billed_as (key_of f) fs f

  -- What the findings are billed while these groups are still to be shared.
  abbrev pending_as : List Finding → Option ClusterKey → Groups → Finding → F
  pending_as fs none groups f = base_penalty fl f
  pending_as fs (some k) groups f = elim (lookup k groups) [
    | some _ ↦ base_penalty fl f
    | none ↦ billed_as (some k) fs f
  ]

  abbrev pending : List Finding → Groups → Finding → F
  pending fs groups f = pending_as fs (key_of f) groups f

  module _ (fs : List Finding) (k : ClusterKey) (ms : List ℕ) (groups : Groups)
      (fresh : lookup k groups ≡ none) where
    pending_member_as :
        (o : Option ClusterKey) (f : Finding)
        → is_key k o ≡ true
        → pending_as fs o ((k, ms) ∷ groups) f ≡ base_penalty fl f
    unfolding lookup
    pending_member_as none f h = refl
    pending_member_as (some j) f h =
        rw ((cluster_key_eq_iff j k).0 h) (rw (pending_as, beq_self k) refl)

    pending_step_as :
        (o : Option ClusterKey) (f : Finding)
        → (if ltb (count_if (has_key k) fs) 2
            then pending_as fs o ((k, ms) ∷ groups) f
            else if is_key k o
            then share k fs
            else pending_as fs o ((k, ms) ∷ groups) f)
          ≡ pending_as fs o groups f
    unfolding lookup
    pending_step_as none f = ground arith
    pending_step_as (some j) f = elim (Bool-cases (cluster_key_eq j k)) [
      | inl t ↦
          rw ((cluster_key_eq_iff j k).0 t) (rw (pending_as, beq_self k, fresh) (ground arith))
      | inr n ↦ rw (pending_as, n, beq_comm k j, n) (ground arith)
    ]

  share_group_lem :
      (fs : List Finding) (k : ClusterKey) (groups : Groups)
      → lookup k groups ≡ none
      → share_group fl (indices_of k 0 fs) (map (pending fs ((k, indices_of k 0 fs) ∷ groups)) fs)
        ≡ map (pending fs groups) fs
  unfolding share_group max_float
  share_group_lem fs k groups fresh = elim (Bool-cases (ltb (count_if (has_key k) fs) 2)) [
    | inl lone ↦
        rw (length-indices_of k 0 fs, lone)
          (map_congr before_group (pending fs groups) fs (λ f.
            (let step = pending_step_as fs k ms groups fresh (key_of f) f in rw lone at step)))
    | inr more ↦
        rw (length-indices_of k 0 fs, more)
          (ap (λ s. share_loop fl s ms (map before_group fs)) shared
            ∙ share_loop-indices fl k (share k fs) before_group fs []
            ∙ map_congr _ (pending fs groups) fs (λ f.
              (let step = pending_step_as fs k ms groups fresh (key_of f) f in rw more at step)))
  ]
    where
      ms : List ℕ
      ms = indices_of k 0 fs

      before_group : Finding → F
      before_group = pending fs ((k, indices_of k 0 fs) ∷ groups)

      shared :
          fl.div
            (max_loop fl (map before_group fs) ms fl.nought)
            (fl.of_int (count_if (has_key k) fs))
          ≡ share k fs
      shared =
          ap (λ m. fl.div m (fl.of_int (count_if (has_key k) fs)))
            (max_loop-indices fl k before_group fs [] fl.nought
              ∙ max_of-keep_if fl k before_group (base_penalty fl) fs fl.nought
                  (λ f h. pending_member_as fs k ms groups fresh (key_of f) f h))

  share_groups_lem :
      (fs : List Finding) (groups : Groups)
      → IsGrouped groups
      → ((k : ClusterKey) (ms : List ℕ) → lookup k groups ≡ some ms → ms ≡ indices_of k 0 fs)
      → share_groups fl groups (map (pending fs groups) fs) ≡ map (billed fs) fs
  unfolding share_groups
  share_groups_lem fs [] h own = map_congr _ _ fs (λ f. done (key_of f) f)
    where
      done : (o : Option ClusterKey) (f : Finding) → pending_as fs o [] f ≡ billed_as o fs f
      done none f = refl
      done (some k) f = unfold lookup in refl
  share_groups_lem fs ((k, ms) ∷ groups) h own =
      let mine : ms ≡ indices_of k 0 fs = own k ms (unfold lookup in rw (beq_self k)) in
      rw mine (
        ap (share_groups fl groups) (share_group_lem fs k groups h.0)
        ∙ share_groups_lem fs groups h.1 (λ j ns e. own j ns (later j ns e)))
    where
      later :
          (j : ClusterKey) (ns : List ℕ)
          → lookup j groups ≡ some ns
          → lookup j ((k, ms) ∷ groups) ≡ some ns
      later j ns e =
          unfold lookup in
          elim (Bool-cases (cluster_key_eq k j)) [
            | inl t ↦ absurd (
                let same = (cluster_key_eq_iff k j).0 t in
                let g = h.0 in let g' = rw same at g in cc)
            | inr n ↦ rw n e
          ]

  members_found :
      (i : ℕ) (fs : List Finding)
      → All (λ f. (k : ClusterKey) → key_of f ≡ some k → indices_of k i fs ≢ []) fs
  members_found i [] = tt
  members_found i (f ∷ fs) = (here, All-imp fs later (members_found (i + 1) fs))
    where
      here : (k : ClusterKey) → key_of f ≡ some k → indices_of k i (f ∷ fs) ≢ []
      here k e h = let g = rw (has_key, e, is_key, beq_self k) at h in cc

      later :
          (g : Finding)
          → ((k : ClusterKey) → key_of g ≡ some k → indices_of k (i + 1) fs ≢ [])
          → (k : ClusterKey) → key_of g ≡ some k
          → indices_of k i (f ∷ fs) ≢ []
      later g found k e h = elim (Bool-cases (has_key k f)) [
        | inl t ↦ let q = rw t at h in cc
        | inr n ↦ found k e (rw n at h)
      ]

  start_pending :
      (all fs : List Finding)
      → All (λ f. (k : ClusterKey) → key_of f ≡ some k → lookup k (group_loop 0 all []) ≢ none) fs
      → map (base_penalty fl) fs ≡ map (pending all (group_loop 0 all [])) fs
  start_pending all [] h = refl
  start_pending all (f ∷ fs) h = rw (start_as (key_of f) h.0, start_pending all fs h.1) refl
    where
      start_as :
          (o : Option ClusterKey)
          → ((k : ClusterKey) → o ≡ some k → lookup k (group_loop 0 all []) ≢ none)
          → base_penalty fl f ≡ pending_as all o (group_loop 0 all []) f
      start_as none g = refl
      start_as (some k) g = elim (Option-cases (lookup k (group_loop 0 all []))) [
        | inl missing ↦ absurd (g k refl missing)
        | inr (ms, e) ↦ rw (pending_as, e) refl
      ]

  -- Clustering bills each finding, in order, its own penalty, or, where it shares its file, symbol and
  -- line with another correlated finding, an equal share of the greatest penalty among them.
  pub cluster_penalties_lem : (fs : List Finding) → cluster_penalties fl fs ≡ map (billed fs) fs
  unfolding cluster_penalties
  cluster_penalties_lem fs =
      ap (share_groups fl (group_loop 0 fs [])) (
        start_pending fs fs
          (All-imp fs (λ f g k e. group_loop-found k f fs e (g k e)) (members_found 0 fs)))
      ∙ share_groups_lem fs (group_loop 0 fs []) (group_loop-IsGrouped 0 fs [] tt)
          (λ k ms e. lookup-group_loop k ms fs e)
