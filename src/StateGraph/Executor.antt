-- ===== src/StateGraph/Executor.antt =====
-- `GraphExecutor` of core/state_graph.py: the walk over a compiled graph. The cancel event is set
-- by others while the executor waits: it is a function of the number of visits made so far.
pub mod Rounds
pub mod Ends
pub mod Trail
pub mod Resolve
use phylum.Common.{
  ℕ, zero, suc, ◌+◌, String, Bool, true, false, Option, none, some, List, [], ◌∷◌, ◌++◌, map,
  if◌then◌else◌, non_empty, ◌==◌, ◌||◌,
}
use phylum.Common.Dict.{Dict}
use phylum.StateGraph.{
  NodeType, complete, fail, handoff, value, Outcome, returned, raised, Visit, RunInfo, RunState,
  GraphNode, GraphEdge, StateGraph, matches, edges_of, get_node,
}

-- What the executor needs of the results, which are `dict`s: `{}`, the dictionary that it makes of
-- an exception, and the keys.
pub record ResultOps (R : Type 0) : Type 0 where
  pub none_given : R
  pub of_exception : String → String → R
  pub keys : R → List String

pub data RunError : Type 0 where
  no_entry : RunError
  max_visits_exceeded : RunError
  node_not_found : String → RunError
  no_matching_edge : String → RunError

-- `run` returns the state, raises, or is cancelled. The caller holds the state in each case.
pub data Ended (S R : Type 0) : Type 0 where
  finished : RunState S R → Ended S R
  failed : RunError → RunState S R → Ended S R
  stopped : RunState S R → Ended S R

-- What `run` has when the handler is over: the user's state, the result and the error's text.
pub data Handled (S R : Type 0) : Type 0 where
  handled : S → R → Option String → Handled S R
  interrupted : S → Handled S R

-- One round of the loop ends the run or chooses the next node.
pub data Round (S R : Type 0) : Type 0 where
  done : Ended S R → Round S R
  goto : String → RunState S R → Round S R

unfoldable pub is_final : NodeType → Bool
is_final complete = true
is_final fail = true
is_final _ = false

unfoldable pub is_handoff : NodeType → Bool
is_handoff handoff = true
is_handoff _ = false

unfoldable pub result_keys : {R : Type 0} → ResultOps R → R → Option (List String)
result_keys ops r = if non_empty (ops.keys r) then some (ops.keys r) else none

abbrev pub fresh_info : String → RunInfo
fresh_info current = record {
  current_node = current;
  traversal = [];
  visits = 0;
  terminal = none;
  paused_at = none;
}

module _ {S R : Type 0} where
  unfoldable pub first_match : List (GraphEdge S R) → S → R → Option String
  first_match [] s r = none
  first_match (e ∷ es) s r =
      let rest = first_match es s r in if matches e s r then some e.target else rest

  -- `_resolve_next`.
  unfoldable pub resolve_next : StateGraph S R → String → S → R → Option String
  unfolding first_match edges_of
  resolve_next g current s r = first_match (edges_of g current) s r

  -- The `try` statement around the handler. `{}` and `None` are both falsy.
  unfoldable pub after_handler : ResultOps R → Outcome S R → Handled S R
  after_handler ops (returned s none) = handled s ops.none_given none
  after_handler ops (returned s (some r)) = handled s r none
  after_handler ops (raised s message type) =
      handled s (ops.of_exception message type) (some message)
  after_handler ops (Outcome.cancelled s) = interrupted s

  unfoldable pub call_handler : ResultOps R → GraphNode S R → RunState S R → Handled S R
  unfolding after_handler
  call_handler ops node st = elim node.handler [
    | none ↦ handled st.user ops.none_given none
    | some h ↦ after_handler ops (h st)
  ]

  unfoldable pub visit_of : ResultOps R → String → GraphNode S R → R → Option String → Visit
  unfolding result_keys value
  visit_of ops current node r error = record {
    node_id = current;
    node_type = value node.node_type;
    result_keys = result_keys ops r;
    error = error;
  }

  -- `traversal.record` and the assignment to `_graph_result`.
  unfoldable pub log_visit :
      ResultOps R → String → GraphNode S R → RunState S R → S → R → Option String → RunState S R
  unfolding visit_of
  log_visit ops current node st s r error = record {
    user = s;
    graph = record (st.graph) {
      traversal = st.graph.traversal ++ visit_of ops current node r error ∷ [];
    };
    graph_result = some r;
  }

  abbrev pub mark_terminal : String → GraphNode S R → RunState S R → RunState S R
  unfolding value
  mark_terminal current node st = record st {
    graph = record (st.graph) { terminal = some (current, value node.node_type) };
  }

  abbrev pub mark_paused : String → RunState S R → RunState S R
  mark_paused current st = record st { graph = record (st.graph) { paused_at = some current } }

  abbrev pub enter : ℕ → String → RunState S R → RunState S R
  enter visits current st = record st {
    graph = record (st.graph) { current_node = current; visits = visits };
  }

  -- From the log entry to the end of the loop's body.
  unfoldable pub leave : StateGraph S R → String → GraphNode S R → RunState S R → R → Round S R
  unfolding is_final is_handoff resolve_next value
  leave g current node st r =
      if is_final node.node_type
      then done (finished (mark_terminal current node st))
      else if is_handoff node.node_type
      then done (finished (mark_paused current st))
      else elim (resolve_next g current st.user r) [
        | some next ↦ goto next st
        | none ↦ done (failed (no_matching_edge current) st)
      ]

  -- The loop's body for the node that was found.
  unfoldable pub visit_node :
      ResultOps R → StateGraph S R → String → GraphNode S R → RunState S R → Round S R
  unfolding call_handler log_visit leave
  visit_node ops g current node st = elim (call_handler ops node st) [
    | interrupted s ↦ done (stopped (record st { user = s }))
    | handled s r error ↦ leave g current node (log_visit ops current node st s r error) r
  ]

  -- The loop's body behind its two guards; `visits` counts this visit.
  unfoldable pub visit : ResultOps R → StateGraph S R → ℕ → String → RunState S R → Round S R
  unfolding visit_node get_node
  visit ops g visits current st = elim (get_node g current) [
    | none ↦ done (failed (node_not_found current) st)
    | some node ↦ visit_node ops g current node (enter visits current st)
  ]

  -- The loop. `left` is the number of visits that `max_visits` still allows. An empty `current`
  -- is falsy and ends the loop.
  unfoldable pub walk :
      ResultOps R → StateGraph S R → (ℕ → Bool) → ℕ → ℕ → String → RunState S R → Ended S R
  walk ops g cancel zero visits current st =
      if current == ""
      then finished st
      else if cancel visits
      then stopped st
      else failed max_visits_exceeded st
  walk ops g cancel (suc left) visits current st = elim (current == "") [
    | true ↦ finished st
    | false ↦ elim (cancel visits) [
      | true ↦ stopped st
      | false ↦ elim (visit ops g (visits + 1) current st) [
        | done e ↦ e
        | goto next st' ↦ walk ops g cancel left (visits + 1) next st'
      ]
    ]
  ]

  -- `start_node or self.graph.entry_node`.
  unfoldable pub first_node : StateGraph S R → Option String → String
  first_node g start = elim start [
    | none ↦ elim g.entry_node [ none ↦ "" | some n ↦ n ]
    | some n ↦ if n == "" then elim g.entry_node [ none ↦ "" | some m ↦ m ] else n
  ]

  unfoldable pub run :
      ResultOps R → StateGraph S R → ℕ → (ℕ → Bool) → Option String → RunState S R → Ended S R
  run ops g max_visits cancel start st =
      let current = first_node g start in
      if current == ""
      then failed no_entry st
      else walk ops g cancel max_visits 0 current (record st { graph = fresh_info current })
