-- ===== src/StateGraph/Order.antt =====
-- The edges of every node stay sorted by priority while a graph is built.
use phylum.Common.{
  ℕ, String, ◌≡◌, Bool, Option, List, [], ◌∷◌, ◌++◌, arith, eq_iff, if◌then◌else◌, ◌==◌, Bool-cases,
  inl, inr,
}
use phylum.Common.Dict.{get, put, get-put}
use phylum.Common.Sort.{sort, IsSorted, sort-IsSorted}
use phylum.StateGraph.{
  NodeType, Outcome, RunState, GraphEdge, StateGraph, empty, edges_of, set_default, add_node,
  add_edge, priority_le,
}

module _ {S R : Type 0} where
  -- Every node's edges are in the order of their priorities.
  pub record IsOrdered (g : StateGraph S R) : Type 0 where
    pub at_node : (n : String) → IsSorted priority_le (edges_of g n)

  pub priority-IsSorted : (es : List (GraphEdge S R)) → IsSorted priority_le (sort priority_le es)
  priority-IsSorted es =
      sort-IsSorted priority_le (λ a b h. ground arith) (λ a b c h k. ground arith) es

  pub IsOrdered-empty : (name : String) → IsOrdered (empty name)
  unfolding empty edges_of get
  IsOrdered-empty name = record { at_node = λ n. tt }

  -- Filling in a missing list of edges changes no node's edges.
  pub edges_of-set_default :
      (g : StateGraph S R) (k n : String)
      → edges_of (record g { edges = set_default k g.edges }) n ≡ edges_of g n
  unfolding edges_of set_default
  edges_of-set_default g k n = ground (arith, get-put k n [] g.edges, eq_iff k n)

  pub edges_of-add_node :
      (node_id : String) (node_type : NodeType) (handler : Option (RunState S R → Outcome S R))
      (g : StateGraph S R) (n : String)
      → edges_of (add_node node_id node_type handler g) n ≡ edges_of g n
  unfolding add_node edges_of
  edges_of-add_node node_id node_type handler g n =
      ground (arith, get-put node_id n [] g.edges, eq_iff node_id n)

  edges_of-put :
      (g : StateGraph S R) (k n : String) (es : List (GraphEdge S R))
      → edges_of (record g { edges = put k es g.edges }) n ≡ (if k == n then es else edges_of g n)
  unfolding edges_of
  edges_of-put g k n es = ground (arith, get-put k n es g.edges, eq_iff k n)

  pub edges_of-add_edge :
      (source target : String) (condition : Option (S → R → Option Bool)) (priority : ℕ)
      (label : String) (g : StateGraph S R) (n : String)
      → edges_of (add_edge source target condition priority label g) n ≡ (
          if source == n
          then sort priority_le (
              edges_of g source
              ++ (record {
                source = source;
                target = target;
                condition = condition;
                priority = priority;
                label = label;
              })
                ∷ [])
          else edges_of g n)
  unfolding add_edge
  edges_of-add_edge source target condition priority label g n = edges_of-put g source n _

  pub IsOrdered-add_node :
      (node_id : String) (node_type : NodeType) (handler : Option (RunState S R → Outcome S R))
      (g : StateGraph S R)
      → IsOrdered g
      → IsOrdered (add_node node_id node_type handler g)
  IsOrdered-add_node node_id node_type handler g h = record {
    at_node = λ n. rw edges_of-add_node (h.at_node n);
  }

  pub IsOrdered-add_edge :
      (source target : String) (condition : Option (S → R → Option Bool)) (priority : ℕ)
      (label : String) (g : StateGraph S R)
      → IsOrdered g
      → IsOrdered (add_edge source target condition priority label g)
  IsOrdered-add_edge source target condition priority label g h = record {
    at_node = λ n. rw edges_of-add_edge (elim (Bool-cases (source == n)) [
      | inl e ↦ rw e (priority-IsSorted _)
      | inr e ↦ rw e (h.at_node n)
    ]);
  }
