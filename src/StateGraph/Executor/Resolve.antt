-- ===== src/StateGraph/Executor/Resolve.antt =====
-- `_resolve_next`: which edge the executor follows.
use phylum.Common.{
  String, ◌≡◌, refl, true, false, none, some, List, [], ◌∷◌, arith, Bool-cases, inl, inr, All,
  All-map, In, ◌≤◌, ◌↔◌, leb→le, ◌⊎◌,
}
use phylum.Common.Sort.{IsSorted}
use phylum.StateGraph.{GraphEdge, StateGraph, matches, edges_of, priority_le}
use phylum.StateGraph.Order.{IsOrdered}
use phylum.StateGraph.Executor.{first_match, resolve_next}

module _ {S R : Type 0} (s : S) (r : R) where
  -- `edge` is an edge to `next` whose condition holds, and no edge with a smaller priority number
  -- has a condition that holds.
  pub record IsChoice (es : List (GraphEdge S R)) (next : String) : Type 0 where
    pub edge : GraphEdge S R
    pub listed : In edge es
    pub target_is : edge.target ≡ next
    pub fits : matches edge s r ≡ true
    pub least : All (λ f. (matches f s r ≡ false) ⊎ (edge.priority ≤ f.priority)) es

  pub first_match-IsChoice :
      (es : List (GraphEdge S R)) (next : String)
      → IsSorted priority_le es
      → first_match es s r ≡ some next
      → IsChoice es next
  unfolding first_match
  first_match-IsChoice [] next o h = absurd (ground arith)
  first_match-IsChoice (e ∷ es) next o h = elim (Bool-cases (matches e s r)) [
    | inl fits ↦ record {
      edge = e;
      listed = inl refl;
      target_is = ground arith;
      fits = fits;
      least = (inr (omega arith), All-map _ _ es (λ f p. inr (leb→le e.priority f.priority p)) o.0);
    }
    | inr no_fit ↦
        let later = first_match-IsChoice es next o.1 (ground arith) in
        record {
          edge = later.edge;
          listed = inr later.listed;
          target_is = later.target_is;
          fits = later.fits;
          least = (inl no_fit, later.least);
        }
  ]

  first_match-none :
      (es : List (GraphEdge S R)) → first_match es s r ≡ none → All (λ e. matches e s r ≡ false) es
  unfolding first_match
  first_match-none [] h = tt
  first_match-none (e ∷ es) h = ground (arith, first_match-none es)

  first_match-All_false :
      (es : List (GraphEdge S R)) → All (λ e. matches e s r ≡ false) es → first_match es s r ≡ none
  unfolding first_match
  first_match-All_false [] h = refl
  first_match-All_false (e ∷ es) h = rw h.0 (first_match-All_false es h.1)

module _ {S R : Type 0} (g : StateGraph S R) (current : String) (s : S) (r : R) where
  -- Where the node's edges are in order, the executor follows an edge whose condition holds, and
  -- every edge of the node with a smaller priority number has a condition that does not hold.
  pub resolve_next-IsChoice :
      (next : String)
      → IsOrdered g
      → resolve_next g current s r ≡ some next
      → IsChoice s r (edges_of g current) next
  unfolding resolve_next
  resolve_next-IsChoice next o h =
      first_match-IsChoice s r (edges_of g current) next (o.at_node current) h

  -- The executor finds no next node exactly when no condition on the node's edges holds.
  pub resolve_next-none_iff :
      resolve_next g current s r ≡ none ↔ All (λ e. matches e s r ≡ false) (edges_of g current)
  unfolding resolve_next
  resolve_next-none_iff =
      (first_match-none s r (edges_of g current), first_match-All_false s r (edges_of g current))
