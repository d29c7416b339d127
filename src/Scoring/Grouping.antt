-- ===== src/Scoring/Grouping.antt =====
-- The grouping loop of clusterPenalties in internal/scoring/scoring.go: the map has one entry for each
-- cluster, with the indices of its findings in order.
use gruff_go.Base.{
  ℕ, ◌+◌, ◌≡◌, ◌≢◌, refl, sym, ap, ◌∙◌, inl, inr, Bool, false, Option, none, some, List, [], ◌∷◌,
  ◌++◌, append_assoc, append-nil, lookup, insert, lookup-insert, length, count_if, if◌then◌else◌,
  arith, Bool-cases,
}
use gruff_go.Finding.{Finding}
use gruff_go.Scoring.Clusters.{
  ClusterKey, cluster_key_eq, cluster_key_eq_iff, cluster_key, Groups, members_or_nil, key_of,
  add_member, group_loop,
}

abbrev pub is_key : ClusterKey → Option ClusterKey → Bool
is_key k none = false
is_key k (some j) = cluster_key_eq j k

-- The finding belongs to this cluster.
abbrev pub has_key : ClusterKey → Finding → Bool
has_key k f = is_key k (key_of f)

abbrev pub indices_of : ClusterKey → ℕ → List Finding → List ℕ
indices_of k i [] = []
indices_of k i (f ∷ fs) =
    if has_key k f then i ∷ indices_of k (i + 1) fs else indices_of k (i + 1) fs

pub length-indices_of :
    (k : ClusterKey) (i : ℕ) (fs : List Finding)
    → length (indices_of k i fs) ≡ count_if (has_key k) fs
length-indices_of k i [] = refl
length-indices_of k i (f ∷ fs) = ground (arith, length-indices_of k (i + 1) fs)

members-add_member :
    (k : ClusterKey) (o : Option ClusterKey) (i : ℕ) (groups : Groups)
    → members_or_nil (lookup k (add_member o i groups))
      ≡ members_or_nil (lookup k groups) ++ (if is_key k o then i ∷ [] else [])
members-add_member k none i groups = sym (append-nil _)
members-add_member k (some j) i groups = elim (Bool-cases (cluster_key_eq j k)) [
  | inl t ↦ rw (lookup-insert, t, (cluster_key_eq_iff j k).0 t) refl
  | inr n ↦ rw (lookup-insert, n) (sym (append-nil _))
]

pub members-group_loop :
    (k : ClusterKey) (i : ℕ) (fs : List Finding) (groups : Groups)
    → members_or_nil (lookup k (group_loop i fs groups))
      ≡ members_or_nil (lookup k groups) ++ indices_of k i fs
unfolding group_loop
members-group_loop k i [] groups = sym (append-nil _)
members-group_loop k i (f ∷ fs) groups =
    members-group_loop k (i + 1) fs (add_member (key_of f) i groups)
    ∙ ap (λ ms. ms ++ indices_of k (i + 1) fs) (members-add_member k (key_of f) i groups)
    ∙ elim (Bool-cases (has_key k f)) [
      | inl t ↦ rw t (append_assoc _ (i ∷ []) _)
      | inr n ↦ rw (n, append-nil) refl
    ]

-- The keys of the map are distinct.
abbrev pub IsGrouped : Groups → Type 0
IsGrouped [] = Unit
IsGrouped ((k, _) ∷ groups) = (lookup k groups ≡ none) × IsGrouped groups

insert-IsGrouped :
    (k : ClusterKey) (ms : List ℕ) (groups : Groups)
    → IsGrouped groups
    → IsGrouped (insert k ms groups)
unfolding insert
insert-IsGrouped k ms [] h = (unfold lookup in refl, tt)
insert-IsGrouped k ms ((j, ns) ∷ groups) h = elim (Bool-cases (cluster_key_eq j k)) [
  | inl t ↦ rw t (let absent = h.0 in rw ((cluster_key_eq_iff j k).0 t) at absent, h.1)
  | inr other ↦ rw other (absent other, insert-IsGrouped k ms groups h.1)
]
  where
    absent : cluster_key_eq j k ≡ false → lookup j (insert k ms groups) ≡ none
    absent other =
        rw lookup-insert (ground (arith, cluster_key_eq_iff j k, cluster_key_eq_iff k j, h.0))

pub group_loop-IsGrouped :
    (i : ℕ) (fs : List Finding) (groups : Groups)
    → IsGrouped groups
    → IsGrouped (group_loop i fs groups)
unfolding group_loop
group_loop-IsGrouped i [] groups h = h
group_loop-IsGrouped i (f ∷ fs) groups h = group_loop-IsGrouped (i + 1) fs _ (added (key_of f))
  where
    added : (o : Option ClusterKey) → IsGrouped (add_member o i groups)
    added none = h
    added (some k) = insert-IsGrouped k _ groups h

-- An entry of the map lists the findings of its cluster.
pub lookup-group_loop :
    (k : ClusterKey) (ms : List ℕ) (fs : List Finding)
    → lookup k (group_loop 0 fs []) ≡ some ms
    → ms ≡ indices_of k 0 fs
lookup-group_loop k ms fs h =
    let all = members-group_loop k 0 fs [] in
    let left : members_or_nil (lookup k (group_loop 0 fs [])) ≡ ms = rw h refl in
    let right : members_or_nil (lookup {V = List ℕ} k []) ++ indices_of k 0 fs ≡ indices_of k 0 fs =
      unfold lookup in refl in
    sym left ∙ all ∙ right

-- A cluster with a finding in it has an entry.
pub group_loop-found :
    (k : ClusterKey) (f : Finding) (fs : List Finding)
    → key_of f ≡ some k
    → indices_of k 0 fs ≢ []
    → lookup k (group_loop 0 fs []) ≢ none
group_loop-found k f fs e found missing =
    let all = members-group_loop k 0 fs [] in
    let left : members_or_nil (lookup k (group_loop 0 fs [])) ≡ [] = rw missing refl in
    let right : members_or_nil (lookup {V = List ℕ} k []) ++ indices_of k 0 fs ≡ indices_of k 0 fs =
      unfold lookup in refl in
    found (sym right ∙ sym all ∙ left)
