-- ===== src/StateGraph/Recovery.antt =====
-- `GraphTraversalLog.find_last_of_type` and `GraphExecutor.find_recovery_target` of
-- core/state_graph.py: the node to jump to after a failure.
use mathlib.Core.List.{reverse}
use phylum.Common.{
  String, ◌≡◌, refl, true, false, Bool, Option, none, some, List, [], ◌∷◌, arith, Bool-cases, All,
  In, Option-cases, inl, inr, ◌⊎◌, if◌then◌else◌, ◌==◌, ◌&&◌, eq_iff, map, truthy, find?, filter,
  head?, one_of, find?-In, eq_refl,
}
use phylum.Common.Dict.{Dict, get, has_key}
use phylum.StateGraph.{
  NodeType, executor, script_recovery, planner, reflection, handoff, value, type_eq, Visit,
  GraphNode, StateGraph, find_nodes_by_type,
}
use phylum.StateGraph.Built.{IsNamed}

-- The keys that are read of a recovery classification.
pub record Hint : Type 0 where
  pub suggested_action : String
  pub target_node : Option String
  pub classification : String

-- `for entry in reversed(entries): if entry["node_type"] == …: return entry["node_id"]`.
unfoldable pub find_last_of_type : List Visit → String → Option String
find_last_of_type entries type = elim (find? (λ v. v.node_type == type) (reverse entries)) [
  | none ↦ none
  | some v ↦ some v.node_id
]

unfoldable pub action_to_node_type : Dict NodeType
action_to_node_type =
    ("retry", executor)
    ∷ ("execute_script", script_recovery)
    ∷ ("rediscover_target", planner)
    ∷ ("replan", planner)
    ∷ ("switch_tooling", planner)
    ∷ ("verify_outcome", reflection)
    ∷ ("ask_user", handoff)
    ∷ ("narrow_selector", executor)
    ∷ []

-- `a`, where it is there, before `b`.
unfoldable pub first_of_two : Option String → Option String → Option String
first_of_two none b = b
first_of_two (some a) b = some a

-- `if x: return x`: the empty text is falsy.
when_truthy : Option String → Option String
when_truthy o = if truthy o then o else none

-- The search of a log by classification. `keep` is the test on the id that was found, which only
-- the search of the `GraphTraversalLog` makes.
unfoldable pub only_if : Bool → Option String → Option String
only_if test o = if test then o else none

unfoldable pub from_log : (Option String → Option String) → List Visit → String → Option String
unfolding find_last_of_type value
from_log keep log classification =
    first_of_two
      (only_if (one_of classification ("retryable" ∷ "script_recovery" ∷ []))
        (keep (find_last_of_type log (value executor))))
      (only_if (classification == "replan_required") (keep (find_last_of_type log (value planner))))

module _ {S R : Type 0} where
  -- The hint's node, where the graph has it.
  unfoldable pub from_hint : StateGraph S R → Hint → Option String
  from_hint g h = elim h.target_node [
    | none ↦ none
    | some n ↦ if truthy (some n) && has_key n g.nodes then some n else none
  ]

  -- The first node of the type that the suggested action asks for.
  unfoldable pub from_action : StateGraph S R → Hint → Option String
  unfolding find_nodes_by_type action_to_node_type get
  from_action g h = elim (get h.suggested_action action_to_node_type) [
    | none ↦ none
    | some t ↦ elim (head? (find_nodes_by_type g t)) [ none ↦ none | some n ↦ some n.node_id ]
  ]

  -- `log` is the traversal of the state, `entries` a traversal that was stored as plain data.
  unfoldable pub find_recovery_target :
      StateGraph S R → List Visit → List Visit → Hint → Option String
  unfolding from_hint from_action from_log when_truthy
  find_recovery_target g log entries h = first_of_two (from_hint g h) (
      first_of_two (from_action g h) (
        first_of_two (from_log when_truthy log h.classification)
          (from_log (λ o. o) entries h.classification)))

  head-filter-known :
      (p : GraphNode S R → Bool) (d : Dict (GraphNode S R)) (n : GraphNode S R)
      → All (λ e. e.1.node_id ≡ e.0) d
      → head? (filter p (map (λ e. e.1) d)) ≡ some n
      → has_key n.node_id d ≡ true
  unfolding get
  head-filter-known p [] n ids h = absurd (ground arith)
  head-filter-known p ((k, v) ∷ d) n ids h = elim (Bool-cases (p v)) [
    | inl e ↦ let same : v ≡ n = ground arith in rw (← same, ids.0, eq_refl) refl
    | inr e ↦ let later = head-filter-known p d n ids.1 (ground arith) in ground (arith, later)
  ]

  from_hint-known :
      (g : StateGraph S R) (h : Hint) (n : String)
      → from_hint g h ≡ some n
      → has_key n g.nodes ≡ true
  unfolding from_hint
  from_hint-known g h n e = ground arith

  from_action-known :
      (g : StateGraph S R) (h : Hint) (n : String)
      → IsNamed g
      → from_action g h ≡ some n
      → has_key n g.nodes ≡ true
  unfolding from_action
  from_action-known g h n named e =
      elim (Option-cases (get h.suggested_action action_to_node_type)) [
        | inl p ↦ absurd (ground arith)
        | inr (t, p) ↦ elim (Option-cases (head? (find_nodes_by_type g t))) [
          | inl q ↦ absurd (ground arith)
          | inr (v, q) ↦
              let same : v.node_id ≡ n = ground arith in
              rw (← same)
                (head-filter-known (λ m. type_eq m.node_type t) g.nodes v named.node_ids q)
        ]
      ]

find_last_of_type-In :
    (log : List Visit) (type n : String)
    → find_last_of_type log type ≡ some n
    → (v : Visit) × In v (reverse log) × (v.node_id ≡ n) × (v.node_type ≡ type)
unfolding find_last_of_type
find_last_of_type-In log type n h =
    elim (Option-cases (find? (λ v. v.node_type == type) (reverse log))) [
      | inl p ↦ absurd (ground arith)
      | inr (v, p) ↦
          let (fits, listed) = find?-In (λ v. v.node_type == type) (reverse log) v p in
          (v, listed, ground arith, (eq_iff v.node_type type).0 fits)
    ]

-- `n` is the id of a visit of an executor or planner node in the log.
pub record IsLogged (log : List Visit) (n : String) : Type 0 where
  pub visit : Visit
  pub listed : In visit (reverse log)
  pub named : visit.node_id ≡ n
  pub typed : (visit.node_type ≡ value executor) ⊎ (visit.node_type ≡ value planner)

first_of_two-some :
    (a b : Option String) (n : String) → first_of_two a b ≡ some n → (a ≡ some n) ⊎ (b ≡ some n)
unfolding first_of_two
first_of_two-some none b n h = inr h
first_of_two-some (some a) b n h = inl h

only_if-some : (t : Bool) (o : Option String) (n : String) → only_if t o ≡ some n → o ≡ some n
unfolding only_if
only_if-some true o n h = h
only_if-some false o n h = absurd (ground arith)

from_log-IsLogged :
    (keep : Option String → Option String) (log : List Visit) (classification n : String)
    → ((o : Option String) → keep o ≡ some n → o ≡ some n)
    → from_log keep log classification ≡ some n
    → IsLogged log n
unfolding from_log
from_log-IsLogged keep log classification n kept h = elim (first_of_two-some _ _ n h) [
  | inl first ↦ logged (value executor) (inl refl) (only_if-some _ _ n first)
  | inr second ↦ logged (value planner) (inr refl) (only_if-some _ _ n second)
]
  where
    logged :
        (type : String)
        → (type ≡ value executor) ⊎ (type ≡ value planner)
        → keep (find_last_of_type log type) ≡ some n
        → IsLogged log n
    logged type which found =
        let (v, listed, named, typed) = find_last_of_type-In log type n (kept _ found) in
        record { visit = v; listed = listed; named = named; typed = rw typed which }

-- Where a recovery target is found, it is a node of the graph, or the id of an executor or planner
-- visit in one of the two logs.
pub find_recovery_target-known :
    {S R : Type 0} (g : StateGraph S R) (log entries : List Visit) (h : Hint) (n : String)
    → IsNamed g
    → find_recovery_target g log entries h ≡ some n
    → (has_key n g.nodes ≡ true) ⊎ IsLogged log n ⊎ IsLogged entries n
unfolding find_recovery_target
find_recovery_target-known g log entries h n named e = elim (first_of_two-some _ _ n e) [
  | inl p ↦ inl (from_hint-known g h n p)
  | inr e' ↦ elim (first_of_two-some _ _ n e') [
    | inl p ↦ inl (from_action-known g h n named p)
    | inr e'' ↦ elim (first_of_two-some _ _ n e'') [
      | inl p ↦
          inr (inl (from_log-IsLogged when_truthy log h.classification n (λ o k. ground arith) p))
      | inr p ↦ inr (inr (from_log-IsLogged (λ o. o) entries h.classification n (λ o k. k) p))
    ]
  ]
]
