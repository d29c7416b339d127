-- ===== src/Scoring/Clusters.antt =====
-- clusterPenalties of internal/scoring/scoring.go: findings on one function that have one cause are
-- billed once.
use gruff_go.Base.{
  ℕ, ◌+◌, ◌≡◌, ◌↔◌, Bool, true, not, ◌&&◌, ◌||◌, Option, none, some, List, [], ◌∷◌, ◌++◌, map, Text,
  text_eq, text_eq_iff, ◌==◌, ==_iff, Eq, lookup, insert, get_elem?, set, length, ltb,
  if◌then◌else◌, codes, arith,
}
use gruff_go.Finding.{Finding, is_empty, location_or_zero}
use gruff_go.Scoring.Points.{Float, finding_penalty}

pub record ClusterKey : Type 0 where
  pub file : Text
  pub symbol : Text
  pub line : ℕ

unfoldable pub cluster_key_eq : ClusterKey → ClusterKey → Bool
cluster_key_eq a b = text_eq a.file b.file && (text_eq a.symbol b.symbol && (a.line == b.line))

pub cluster_key_eq_iff : (a b : ClusterKey) → (cluster_key_eq a b ≡ true) ↔ (a ≡ b)
unfolding cluster_key_eq
cluster_key_eq_iff a b =
    ground (arith, text_eq_iff a.file b.file, text_eq_iff a.symbol b.symbol, ==_iff a.line b.line)

instance abbrev pub cluster_key : Eq ClusterKey
cluster_key = record { beq = cluster_key_eq; beq_iff = cluster_key_eq_iff }

-- correlatedRuleIDs
unfoldable pub correlated_rule : Text → Bool
correlated_rule rule =
    text_eq rule (codes "complexity.cyclomatic")
    || text_eq rule (codes "complexity.cognitive")
    || text_eq rule (codes "complexity.nesting-depth")
    || text_eq rule (codes "size.function-length")
    || text_eq rule (codes "size.parameter-count")

-- findingLine
abbrev pub finding_line : Finding → ℕ
finding_line item = (location_or_zero item.location).line

-- The tests of the grouping loop, and the key of a finding that passes them.
unfoldable pub key_of : Finding → Option ClusterKey
key_of item =
    if not (correlated_rule item.rule_id)
    then none
    else if is_empty item.symbol || (finding_line item == 0)
    then none
    else some (record { file = item.file; symbol = item.symbol; line = finding_line item })

abbrev pub Groups : Type 0
Groups = List (ClusterKey × List ℕ)

-- A missing entry of the map reads as the nil slice.
abbrev pub members_or_nil : Option (List ℕ) → List ℕ
members_or_nil none = []
members_or_nil (some members) = members

abbrev pub add_member : Option ClusterKey → ℕ → Groups → Groups
add_member none i groups = groups
add_member (some key) i groups = insert key (members_or_nil (lookup key groups) ++ (i ∷ [])) groups

-- The grouping loop.
unfoldable pub group_loop : ℕ → List Finding → Groups → Groups
group_loop i [] groups = groups
group_loop i (f ∷ fs) groups = group_loop (i + 1) fs (add_member (key_of f) i groups)

module _ {F : Type 0} (fl : Float F) where
  -- An index of the penalties; the loops read in range only.
  abbrev pub penalty_at : List F → ℕ → F
  penalty_at penalties i = elim (get_elem? penalties i) [ none ↦ fl.nought | some p ↦ p ]

  -- The loop of maxFloat.
  unfoldable pub max_loop : List F → List ℕ → F → F
  max_loop penalties [] largest = largest
  max_loop penalties (i ∷ members) largest =
      max_loop penalties members
        (if fl.gt (penalty_at penalties i) largest then penalty_at penalties i else largest)

  -- maxFloat
  unfoldable pub max_float : List F → List ℕ → F
  max_float penalties members = max_loop penalties members fl.nought

  unfoldable pub share_loop : F → List ℕ → List F → List F
  share_loop shared [] penalties = penalties
  share_loop shared (i ∷ members) penalties = share_loop shared members (set penalties i shared)

  -- The body of the loop over the groups.
  unfoldable pub share_group : List ℕ → List F → List F
  share_group members penalties =
      if ltb (length members) 2
      then penalties
      else share_loop (fl.div (max_float penalties members) (fl.of_int (length members))) members
          penalties

  unfoldable pub share_groups : Groups → List F → List F
  share_groups [] penalties = penalties
  share_groups ((key, members) ∷ groups) penalties =
      share_groups groups (share_group members penalties)

  abbrev pub base_penalty : Finding → F
  base_penalty item = fl.of_int (finding_penalty item)

  -- clusterPenalties
  unfoldable pub cluster_penalties : List Finding → List F
  cluster_penalties fs = share_groups (group_loop 0 fs []) (map base_penalty fs)
