-- ===== src/StateGraph.antt =====
-- core/state_graph.py: `NodeType`, `GraphNode`, `GraphEdge` and the builder methods of
-- `StateGraph`. A node's handler and an edge's condition are given by the user of the graph: they
-- are functions of the state `S` and the result `R`, both `dict`s in the source.
pub mod Order
pub mod Closed
pub mod Built
pub mod Executor
pub mod Recovery
pub mod Cuts
use mathlib.Core.Bool.{decide}
use phylum.Common.{
  ℕ, String, ◌≡◌, refl, Bool, true, false, Option, none, some, List, [], ◌∷◌, ◌++◌, map, leb,
  if◌then◌else◌, truthy, is_some, filter, head?, not, any, ◌==◌, ◌&&◌,
}
use phylum.Common.Dict.{Dict, get, put, has_key, keys}
use phylum.Common.Sort.{sort}

pub data NodeType : Type 0 where
  entry planner router safety approval executor reflection : NodeType
  recovery checkpoint handoff complete fail script_recovery : NodeType

pub NodeType-discrete : Discrete NodeType
NodeType-discrete = hlevel

-- `a == b` on members of the enumeration.
pub type_eq : NodeType → NodeType → Bool
unfolding NodeType-discrete
type_eq a b = decide (NodeType-discrete a b)

-- The text of each member.
unfoldable pub value : NodeType → String
value entry = "entry"
value planner = "planner"
value router = "router"
value safety = "safety"
value approval = "approval"
value executor = "executor"
value reflection = "reflection"
value recovery = "recovery"
value checkpoint = "checkpoint"
value handoff = "handoff"
value complete = "complete"
value fail = "fail"
value script_recovery = "script_recovery"

-- How a handler ends: it returns (`none` for `None`), raises an exception with a message and a
-- type name, or is cancelled. It has changed the state in each case.
pub data Outcome (S R : Type 0) : Type 0 where
  returned : S → Option R → Outcome S R
  raised : S → String → String → Outcome S R
  cancelled : S → Outcome S R

-- What a run keeps under `state["_graph"]`.
pub record Visit : Type 0 where
  pub node_id : String
  pub node_type : String
  pub result_keys : Option (List String)
  pub error : Option String

pub record RunInfo : Type 0 where
  pub current_node : String
  pub traversal : List Visit
  pub visits : ℕ
  pub terminal : Option (String × String)
  pub paused_at : Option String

-- The state: the keys of the graph's user, and the executor's `_graph` and `_graph_result`.
pub record RunState (S R : Type 0) : Type 0 where
  pub user : S
  pub graph : RunInfo
  pub graph_result : Option R

-- A handler reads the whole state and changes the user's part of it.
pub record GraphNode (S R : Type 0) : Type 0 where
  pub node_id : String
  pub node_type : NodeType
  pub handler : Option (RunState S R → Outcome S R)

-- A condition that raises gives `none`.
pub record GraphEdge (S R : Type 0) : Type 0 where
  pub source : String
  pub target : String
  pub condition : Option (S → R → Option Bool)
  pub priority : ℕ
  pub label : String

pub record StateGraph (S R : Type 0) : Type 0 where
  pub name : String
  pub nodes : Dict (GraphNode S R)
  pub edges : Dict (List (GraphEdge S R))
  pub entry_node : Option String
  pub compiled : Bool

pub data CompileError : Type 0 where
  no_entry : CompileError
  bad_source : String → CompileError
  bad_target : String → CompileError

pub data Compiled (S R : Type 0) : Type 0 where
  ok : StateGraph S R → Compiled S R
  error : CompileError → Compiled S R

-- `except Exception: return False`.
abbrev pub holds : Option Bool → Bool
holds none = false
holds (some b) = b

module _ {S R : Type 0} where
  unfoldable pub matches : GraphEdge S R → S → R → Bool
  matches e s r = elim e.condition [ none ↦ true | some c ↦ holds (c s r) ]

  unfoldable pub empty : String → StateGraph S R
  empty name = record { name = name; nodes = []; edges = []; entry_node = none; compiled = false }

  -- `self.edges.get(node_id, [])`.
  unfoldable pub edges_of : StateGraph S R → String → List (GraphEdge S R)
  edges_of g n = elim (get n g.edges) [ none ↦ [] | some es ↦ es ]

  -- `d.setdefault(k, [])`.
  unfoldable pub set_default : String → Dict (List (GraphEdge S R)) → Dict (List (GraphEdge S R))
  set_default k d = if has_key k d then d else put k [] d

  unfoldable pub add_node :
      String → NodeType → Option (RunState S R → Outcome S R) → StateGraph S R → StateGraph S R
  unfolding set_default type_eq
  add_node node_id node_type handler g = record g {
    nodes =
        put node_id (record { node_id = node_id; node_type = node_type; handler = handler })
          g.nodes;
    edges = set_default node_id g.edges;
    entry_node = if type_eq node_type entry then some node_id else g.entry_node;
    compiled = false;
  }

  abbrev pub priority_le : GraphEdge S R → GraphEdge S R → Bool
  priority_le a b = leb a.priority b.priority

  -- The edges of a source are kept sorted by priority; edges of one priority keep their order.
  unfoldable pub add_edge :
      String → String → Option (S → R → Option Bool) → ℕ → String → StateGraph S R → StateGraph S R
  unfolding edges_of
  add_edge source target condition priority label g =
      let edge : GraphEdge S R = record {
        source = source;
        target = target;
        condition = condition;
        priority = priority;
        label = label;
      } in
      record g {
        edges = put source (sort priority_le (edges_of g source ++ edge ∷ [])) g.edges;
        compiled = false;
      }

  unfoldable pub find_nodes_by_type : StateGraph S R → NodeType → List (GraphNode S R)
  unfolding type_eq
  find_nodes_by_type g t = filter (λ n. type_eq n.node_type t) (map (λ e. e.1) g.nodes)

  unfoldable pub get_node : StateGraph S R → String → Option (GraphNode S R)
  get_node g n = get n g.nodes

  pub successors : StateGraph S R → String → List String
  unfolding edges_of
  successors g n = map (λ e. e.target) (edges_of g n)

  -- The ids of the nodes marked ENTRY, in the order of the dictionary.
  unfoldable pub entry_ids : Dict (GraphNode S R) → List String
  unfolding type_eq
  entry_ids d = map (λ e. e.0) (filter (λ e. type_eq e.1.node_type entry) d)

  -- The first branch of `compile`: the entry node that is set, or the first node marked ENTRY.
  unfoldable pub resolve_entry : StateGraph S R → Option String
  unfolding entry_ids
  resolve_entry g = if truthy g.entry_node then g.entry_node else head? (entry_ids g.nodes)

  unfoldable pub fill : List String → Dict (List (GraphEdge S R)) → Dict (List (GraphEdge S R))
  unfolding set_default
  fill [] d = d
  fill (n ∷ ns) d = fill ns (set_default n d)

  unfoldable pub check_targets : Dict (GraphNode S R) → List (GraphEdge S R) → Option CompileError
  check_targets nodes [] = none
  check_targets nodes (e ∷ es) =
      let rest = check_targets nodes es in
      if has_key e.target nodes then rest else some (bad_target e.target)

  unfoldable pub check_edges :
      Dict (GraphNode S R) → Dict (List (GraphEdge S R)) → Option CompileError
  unfolding check_targets
  check_edges nodes [] = none
  check_edges nodes ((source, es) ∷ d) =
      let rest = check_edges nodes d in
      if has_key source nodes
      then elim (check_targets nodes es) [ none ↦ rest | some x ↦ some x ]
      else some (bad_source source)

  -- The warning for a node with no way out changes nothing and is left out.
  unfoldable pub compile : StateGraph S R → Compiled S R
  unfolding resolve_entry fill check_edges
  compile g = elim (resolve_entry g) [
    | none ↦ error no_entry
    | some start ↦
        let filled = fill (keys g.nodes) g.edges in
        elim (check_edges g.nodes filled) [
          | some x ↦ error x
          | none ↦ ok (record g { entry_node = some start; edges = filled; compiled = true })
        ]
  ]
