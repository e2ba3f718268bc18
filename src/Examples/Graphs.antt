-- ===== src/Examples/Graphs.antt =====
-- A graph with two nodes, built, compiled and run, and the choices of its executor.
use mathlib.Core.Bool.{decide}
use phylum.Common.{◌≤◌, refl, Bool, true, false, not, none, some, [], length}
use phylum.Common.Dict.{get, put}
use phylum.Common.Sort.{sort}
use phylum.StateGraph.{
  entry, complete, StateGraph, RunState, ok, error, empty, add_node, add_edge, compile, edges_of,
  matches, returned, Outcome,
}
use phylum.StateGraph.Built.{Built, start, node, edge, IsReady, compile-IsReady}
use phylum.StateGraph.Executor.{ResultOps, run, resolve_next, fresh_info}
use phylum.StateGraph.Executor.Rounds.{visited}
use phylum.StateGraph.Executor.Ends.{EndsWell, state_of, run_lem}
use phylum.StateGraph.Executor.Trail.{IsWalk}
use phylum.StateGraph.Executor.Resolve.{IsChoice, resolve_next-IsChoice}
use phylum.StateGraph.Recovery.{Hint, first_of_two, from_hint, find_recovery_target}

abbrev bool_results : ResultOps Bool
bool_results = record { none_given = false; of_exception = λ message type. true; keys = λ r. [] }

abbrev negated : RunState Bool Bool → Outcome Bool Bool
negated st = returned (not st.user) (some st.user)

abbrev draft : StateGraph Bool Bool
draft =
    add_edge "first" "last" (some (λ s r. some (not s))) 10 "user is false"
      (add_node "last" complete none (add_node "first" entry (some negated) (empty "small")))

draft-Built : Built draft
draft-Built =
    edge
      (node (node (start "small" refl) "first" entry (some negated) refl) "last" complete none refl)
      "first" "last" (some (λ s r. some (not s))) 10 "user is false" refl

unfoldable small : StateGraph Bool Bool
unfolding compile
small = elim (compile draft) [ ok g ↦ g | error e ↦ empty "small" ]

small-IsReady : IsReady small
unfolding small compile resolve_next find_recovery_target first_of_two from_hint add_edge add_node
    decide put empty get sort matches
small-IsReady = compile-IsReady draft small draft-Built refl

abbrev begin_state : RunState Bool Bool
begin_state = record { user = true; graph = fresh_info ""; graph_result = none }

compile-IsReady_example : IsReady small
unfolding small compile resolve_next find_recovery_target first_of_two from_hint add_edge add_node
    decide put empty get sort matches
compile-IsReady_example = compile-IsReady draft small draft-Built refl

run_lem_example :
    EndsWell small 5 (run bool_results small 5 (λ n. false) none begin_state)
    × (length (visited (state_of (run bool_results small 5 (λ n. false) none begin_state))) ≤ 5)
    × IsWalk small small-IsReady.begin
        (visited (state_of (run bool_results small 5 (λ n. false) none begin_state)))
unfolding small compile resolve_next find_recovery_target first_of_two from_hint add_edge add_node
    decide put empty get sort matches
run_lem_example = run_lem bool_results small 5 (λ n. false) begin_state small-IsReady refl

resolve_next-IsChoice_example : IsChoice false true (edges_of small "first") "last"
unfolding small compile resolve_next find_recovery_target first_of_two from_hint add_edge add_node
    decide put empty get sort matches
resolve_next-IsChoice_example =
    resolve_next-IsChoice small "first" false true "last" small-IsReady.ordered refl

abbrev ask_executor : Hint
ask_executor = record {
  suggested_action = "";
  target_node = some "last";
  classification = "terminal";
}
