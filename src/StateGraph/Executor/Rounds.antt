-- ===== src/StateGraph/Executor/Rounds.antt =====
-- What one round of the executor's loop does, by the way it ends.
use mathlib.Core.List.{map-append}
use phylum.Common.{
  ℕ, String, ◌≡◌, refl, true, some, List, [], ◌∷◌, ◌++◌, arith, Bool-cases, Option-cases, inl, inr,
  In, ◌⊎◌, map,
}
use phylum.StateGraph.{
  GraphNode, GraphEdge, StateGraph, RunState, matches, edges_of, get_node, value,
}
use phylum.StateGraph.Executor.{
  ResultOps, no_matching_edge, finished, failed, stopped, Handled, handled, interrupted, Round,
  done, goto, is_final, is_handoff, resolve_next, first_match, call_handler, log_visit, leave,
  visit_node, visit, mark_terminal, mark_paused, enter,
}
use phylum.StateGraph.Executor.Trail.{IsLinked}

-- The ids of the visited nodes, oldest first.
abbrev pub visited : {S R : Type 0} → RunState S R → List String
visited st = map (λ v. v.node_id) st.graph.traversal

module _ {S R : Type 0} where
  -- The node that the state names is final or a handoff, and the state says so.
  pub record IsOver (g : StateGraph S R) (st : RunState S R) : Type 0 where
    pub node : GraphNode S R
    pub found : get_node g st.graph.current_node ≡ some node
    pub marked :
        ((is_final node.node_type ≡ true)
          × (st.graph.terminal ≡ some (st.graph.current_node, value node.node_type)))
        ⊎ ((is_handoff node.node_type ≡ true) × (st.graph.paused_at ≡ some st.graph.current_node))

  first_match-In :
      (es : List (GraphEdge S R)) (s : S) (r : R) (next : String)
      → first_match es s r ≡ some next
      → In next (map (λ e. e.target) es)
  unfolding first_match
  first_match-In [] s r next h = absurd (ground arith)
  first_match-In (e ∷ es) s r next h = elim (Bool-cases (matches e s r)) [
    | inl fits ↦ inl (ground arith)
    | inr no_fit ↦ inr (first_match-In es s r next (ground arith))
  ]

  pub resolve_next-IsLinked :
      (g : StateGraph S R) (current next : String) (s : S) (r : R)
      → resolve_next g current s r ≡ some next
      → IsLinked g current next
  unfolding resolve_next
  resolve_next-IsLinked g current next s r h = first_match-In (edges_of g current) s r next h

module _ {S R : Type 0} (g : StateGraph S R) (current : String) (ids : List String) where
  -- The ways in which a round at `current` can end, after visits of `ids`.
  pub data RoundCase (r : Round S R) : Type 0 where
    over :
        (out : RunState S R)
        → r ≡ done (finished out)
        → IsOver g out
        → visited out ≡ ids ++ current ∷ []
        → RoundCase r
    moves :
        (next : String) (out : RunState S R)
        → r ≡ goto next out
        → IsLinked g current next
        → visited out ≡ ids ++ current ∷ []
        → RoundCase r
    stuck :
        (out : RunState S R)
        → r ≡ done (failed (no_matching_edge current) out)
        → visited out ≡ ids ++ current ∷ []
        → RoundCase r
    halted : (out : RunState S R) → r ≡ done (stopped out) → visited out ≡ ids → RoundCase r

module _ {S R : Type 0} (ops : ResultOps R) (g : StateGraph S R) (current : String)
    (node : GraphNode S R) (found : get_node g current ≡ some node) where
  leave-RoundCase :
      (ids : List String) (st : RunState S R) (r : R)
      → st.graph.current_node ≡ current
      → visited st ≡ ids ++ current ∷ []
      → RoundCase g current ids (leave g current node st r)
  unfolding leave
  leave-RoundCase ids st r named seen = elim (Bool-cases (is_final node.node_type)) [
    | inl final ↦
        over (mark_terminal current node st) (rw final)
          (record { node = node; found = rw named found; marked = inl (final, rw named) }) seen
    | inr not_final ↦ elim (Bool-cases (is_handoff node.node_type)) [
      | inl pause ↦
          over (mark_paused current st) (rw (not_final, pause))
            (record { node = node; found = rw named found; marked = inr (pause, rw named) }) seen
      | inr proceed ↦ elim (Option-cases (resolve_next g current st.user r)) [
        | inl nowhere ↦ stuck st (rw (not_final, proceed, nowhere)) seen
        | inr (next, e) ↦
            moves next st (rw (not_final, proceed, e))
              (resolve_next-IsLinked g current next st.user r e) seen
      ]
    ]
  ]

  visit_node-RoundCase :
      (st : RunState S R)
      → st.graph.current_node ≡ current
      → RoundCase g current (visited st) (visit_node ops g current node st)
  unfolding visit_node
  visit_node-RoundCase st named = go (call_handler ops node st) refl
    where
      go :
          (h : Handled S R)
          → call_handler ops node st ≡ h
          → RoundCase g current (visited st) (visit_node ops g current node st)
      go (interrupted s) e = rw (e, visit_node) (halted (record st { user = s }) refl refl)
      go (handled s r error) e =
          rw (e, visit_node)
            (leave-RoundCase (visited st) (log_visit ops current node st s r error) r
              (unfold log_visit in named)
              (unfold log_visit in map-append (λ v. v.node_id) st.graph.traversal _))

  pub visit-RoundCase :
      (visits : ℕ) (st : RunState S R)
      → RoundCase g current (visited st) (visit ops g visits current st)
  unfolding visit
  visit-RoundCase visits st =
      rw (found, visit) (visit_node-RoundCase (enter visits current st) refl)
