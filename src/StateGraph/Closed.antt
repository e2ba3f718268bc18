-- ===== src/StateGraph/Closed.antt =====
-- What `compile` accepts: graphs whose edges join nodes, with an entry node.
use phylum.Common.{
  String, ◌≡◌, refl, true, none, some, List, [], ◌∷◌, ◌∙◌, arith, eq_iff, Option-cases, inl, inr,
  All,
}
use phylum.Common.Dict.{Dict, get, has_key, keys}
use phylum.StateGraph.{
  GraphNode, GraphEdge, StateGraph, edges_of, set_default, fill, compile, ok, check_targets,
  check_edges, resolve_entry,
}
use phylum.StateGraph.Order.{IsOrdered, edges_of-set_default}

-- Every edge's target is a key of `nodes`, and every key of `edges` is too.
pub record IsClosed {S R : Type 0} (g : StateGraph S R) : Type 0 where
  pub targets : (n : String) → All (λ e. has_key e.target g.nodes ≡ true) (edges_of g n)
  pub sources : (n : String) → has_key n g.edges ≡ true → has_key n g.nodes ≡ true

module _ {S R : Type 0} where
  abbrev Targets : Dict (GraphNode S R) → List (GraphEdge S R) → Type 0
  Targets nodes es = All (λ e. has_key e.target nodes ≡ true) es

  check_targets-none :
      (nodes : Dict (GraphNode S R)) (es : List (GraphEdge S R))
      → check_targets nodes es ≡ none
      → Targets nodes es
  unfolding check_targets
  check_targets-none nodes [] h = tt
  check_targets-none nodes (e ∷ es) h = ground (arith, check_targets-none nodes es)

  check_targets-Targets :
      (nodes : Dict (GraphNode S R)) (es : List (GraphEdge S R))
      → Targets nodes es
      → check_targets nodes es ≡ none
  unfolding check_targets
  check_targets-Targets nodes [] h = refl
  check_targets-Targets nodes (e ∷ es) h = rw h.0 (check_targets-Targets nodes es h.1)

  -- An accepted table of edges: at each key, the source and the targets are nodes.
  check_edges-none :
      (nodes : Dict (GraphNode S R)) (d : Dict (List (GraphEdge S R))) (n : String)
      (es : List (GraphEdge S R))
      → check_edges nodes d ≡ none
      → get n d ≡ some es
      → (has_key n nodes ≡ true) × Targets nodes es
  unfolding check_edges get
  check_edges-none nodes [] n es h p = cc
  check_edges-none nodes ((source, fs) ∷ d) n es h p =
      ground (arith, check_edges-none nodes d n es, check_targets-none nodes fs, eq_iff source n)

  -- Filling in keeps the edges of every node, and adds only the keys that it is given.
  edges_of-fill :
      (g : StateGraph S R) (ns : List String) (n : String)
      → edges_of (record g { edges = fill ns g.edges }) n ≡ edges_of g n
  unfolding fill
  edges_of-fill g [] n = refl
  edges_of-fill g (k ∷ ns) n =
      edges_of-fill (record g { edges = set_default k g.edges }) ns n ∙ edges_of-set_default g k n

  get-some-All :
      (g : StateGraph S R) (P : List (GraphEdge S R) → Type 0) (n : String)
      → P []
      → ((es : List (GraphEdge S R)) → get n g.edges ≡ some es → P es)
      → P (edges_of g n)
  unfolding edges_of
  get-some-All g P n nothing found = elim (Option-cases (get n g.edges)) [
    | inl e ↦ rw (e, edges_of) nothing
    | inr (es, e) ↦ rw (e, edges_of) (found es e)
  ]

  check_edges-IsClosed : (g : StateGraph S R) → check_edges g.nodes g.edges ≡ none → IsClosed g
  check_edges-IsClosed g h = record {
    targets = λ n.
        get-some-All g (Targets g.nodes) n tt
          (λ es p. (check_edges-none g.nodes g.edges n es h p).1);
    sources = λ n p. elim (Option-cases (get n g.edges)) [
      | inl e ↦ cc
      | inr (es, e) ↦ (check_edges-none g.nodes g.edges n es h e).0
    ];
  }

  -- What `compile` returns, and when.
  pub compile_inv :
      (g g' : StateGraph S R)
      → compile g ≡ ok g'
      → (start : String) × (resolve_entry g ≡ some start)
        × (g' ≡ record g {
          entry_node = some start;
          edges = fill (keys g.nodes) g.edges;
          compiled = true;
        })
        × (check_edges g.nodes (fill (keys g.nodes) g.edges) ≡ none)
  unfolding compile
  compile_inv g g' h = elim (Option-cases (resolve_entry g)) [
    | inl e ↦ absurd (ground arith)
    | inr (start, e) ↦ (start, e, ground arith, ground arith)
  ]

  -- A compiled graph is closed.
  pub compile-IsClosed : (g g' : StateGraph S R) → compile g ≡ ok g' → IsClosed g'
  compile-IsClosed g g' h =
      let (start, _, e, accepted) = compile_inv g g' h in rw e (check_edges-IsClosed _ accepted)

  pub compile-IsOrdered : (g g' : StateGraph S R) → compile g ≡ ok g' → IsOrdered g → IsOrdered g'
  unfolding edges_of
  compile-IsOrdered g g' h o =
      let (start, _, e, _) = compile_inv g g' h in
      rw e (record { at_node = λ n. rw edges_of-fill (o.at_node n) })
