-- ===== src/StateGraph/Built.antt =====
-- Graphs built by `add_node` and `add_edge` in any order, and what holds of all of them.
use phylum.Common.{
  All, refl, ap, ℕ, String, ◌≡◌, true, Bool, Option, some, [], ◌∷◌, arith, eq_iff, Bool-cases, inl,
  inr, truthy, head?,
}
use phylum.Common.Dict.{put-All, Dict, get, get-put, has_key}
use phylum.StateGraph.{
  NodeType, Outcome, RunState, GraphNode, StateGraph, add_node, add_edge, compile, ok,
  resolve_entry, entry_ids, empty,
}
use phylum.StateGraph.Order.{IsOrdered, IsOrdered-empty, IsOrdered-add_node, IsOrdered-add_edge}
use phylum.StateGraph.Closed.{IsClosed, compile-IsClosed, compile-IsOrdered, compile_inv}

module _ {S R : Type 0} where
  -- `g` comes from an empty graph by calls of the builder methods.
  pub data Built : StateGraph S R → Type 0 where
    start : {g : StateGraph S R} (name : String) → g ≡ empty name → Built g
    node :
        {g g₀ : StateGraph S R}
        → Built g₀
        → (node_id : String) → (node_type : NodeType)
        → (handler : Option (RunState S R → Outcome S R))
        → g ≡ add_node node_id node_type handler g₀
        → Built g
    edge :
        {g g₀ : StateGraph S R}
        → Built g₀
        → (source target : String) → (condition : Option (S → R → Option Bool)) → (priority : ℕ)
        → (label : String) → g ≡ add_edge source target condition priority label g₀
        → Built g

  -- The entry node, where it is set, is a key of `nodes`, and each node's id is its key.
  pub record IsNamed (g : StateGraph S R) : Type 0 where
    pub entry_known : (n : String) → g.entry_node ≡ some n → has_key n g.nodes ≡ true
    pub node_ids : All (λ e. e.1.node_id ≡ e.0) g.nodes

  IsNamed-empty : (name : String) → IsNamed (empty name)
  unfolding empty get
  IsNamed-empty name = record { entry_known = λ n p. cc; node_ids = tt }

  IsNamed-add_node :
      (node_id : String) (node_type : NodeType) (handler : Option (RunState S R → Outcome S R))
      (g : StateGraph S R)
      → IsNamed g
      → IsNamed (add_node node_id node_type handler g)
  unfolding add_node
  IsNamed-add_node node_id node_type handler g h = record {
    entry_known = λ n p. ground (
      arith,
      get-put node_id n (record { node_id = node_id; node_type = node_type; handler = handler })
          g.nodes,
      eq_iff node_id n,
      h.entry_known n,
    );
    node_ids =
        put-All (λ e. e.1.node_id ≡ e.0) node_id
          (record { node_id = node_id; node_type = node_type; handler = handler }) g.nodes refl
          h.node_ids;
  }

  IsNamed-add_edge :
      (source target : String) (condition : Option (S → R → Option Bool)) (priority : ℕ)
      (label : String) (g : StateGraph S R)
      → IsNamed g
      → IsNamed (add_edge source target condition priority label g)
  unfolding add_edge
  IsNamed-add_edge source target condition priority label g h = record {
    entry_known = h.entry_known;
    node_ids = h.node_ids;
  }

  pub Built-IsNamed : {g : StateGraph S R} → Built g → IsNamed g
  Built-IsNamed (start name e) = rw e (IsNamed-empty name)
  Built-IsNamed (node b i t f e) = rw e (IsNamed-add_node i t f _ (Built-IsNamed b))
  Built-IsNamed (edge b s t c p l e) = rw e (IsNamed-add_edge s t c p l _ (Built-IsNamed b))

  -- Whatever the order of the calls, every node's edges are sorted by priority.
  pub Built-IsOrdered : {g : StateGraph S R} → Built g → IsOrdered g
  Built-IsOrdered (start name e) = rw e (IsOrdered-empty name)
  Built-IsOrdered (node b i t f e) = rw e (IsOrdered-add_node i t f _ (Built-IsOrdered b))
  Built-IsOrdered (edge b s t c p l e) = rw e (IsOrdered-add_edge s t c p l _ (Built-IsOrdered b))

  -- The first key of a filtered dictionary is a key of the dictionary.
  head-entry_ids :
      (d : Dict (GraphNode S R)) (n : String) → head? (entry_ids d) ≡ some n → has_key n d ≡ true
  unfolding entry_ids get
  head-entry_ids [] n h = cc
  head-entry_ids ((k, v) ∷ d) n h = ground (arith, head-entry_ids d n, eq_iff k n)

  resolve_entry-known :
      (g : StateGraph S R) (n : String)
      → IsNamed g
      → resolve_entry g ≡ some n
      → has_key n g.nodes ≡ true
  unfolding resolve_entry
  resolve_entry-known g n h p = elim (Bool-cases (truthy g.entry_node)) [
    | inl e ↦ h.entry_known n (rw e at p)
    | inr e ↦ head-entry_ids g.nodes n (rw e at p)
  ]

  -- A graph that was built and compiled: closed, ordered, and with a known entry node.
  pub record IsReady (g : StateGraph S R) : Type 0 where
    pub closed : IsClosed g
    pub ordered : IsOrdered g
    pub named : IsNamed g
    pub begin : String
    pub entry_set : g.entry_node ≡ some begin

  -- Where `compile` accepts a graph that `add_node` and `add_edge` have built, the compiled graph is
  -- closed, the edges of every node are in order, every node's id is its key, and the entry node is
  -- set and is a node of the graph.
  pub compile-IsReady : (g g' : StateGraph S R) → Built g → compile g ≡ ok g' → IsReady g'
  compile-IsReady g g' b h =
      let (first, resolved, e, _) = compile_inv g g' h in
      let named = Built-IsNamed b in
      record {
        closed = compile-IsClosed g g' h;
        ordered = compile-IsOrdered g g' h (Built-IsOrdered b);
        named = record {
          entry_known = λ n p.
              let same : n ≡ first = ground arith in
              rw (e, same) (resolve_entry-known g first named resolved);
          node_ids = rw e named.node_ids;
        };
        begin = first;
        entry_set = ap (λ (k : StateGraph S R). k.entry_node) e;
      }
