-- ===== src/StateGraph/Executor/Ends.antt =====
-- How a run of a compiled graph can end, and what it has visited by then.
use phylum.Common.{
  ℕ, zero, suc, ◌+◌, ◌≤◌, String, ◌≡◌, refl, true, false, Bool, none, some, List, [], ◌∷◌, ◌++◌,
  arith, Bool-cases, inl, inr, All, In, length, length-append, ◌==◌, eq_iff, map, ap, ◌∙◌,
}
use phylum.Common.Dict.{has_key}
use phylum.StateGraph.{GraphNode, GraphEdge, StateGraph, RunState, edges_of, get_node}
use phylum.StateGraph.Built.{IsReady}
use phylum.StateGraph.Executor.{
  ResultOps, no_entry, max_visits_exceeded, no_matching_edge, node_not_found, Ended, finished,
  failed, stopped, Round, done, goto, visit, walk, run, first_node, fresh_info,
}
use phylum.StateGraph.Executor.Trail.{IsWalk, Leads, IsWalk-snoc, Leads-snoc, IsLinked}
use phylum.StateGraph.Executor.Rounds.{
  visited, IsOver, RoundCase, over, moves, stuck, halted, visit-RoundCase,
}

-- The state that the caller holds afterwards.
abbrev pub state_of : {S R : Type 0} → Ended S R → RunState S R
state_of (finished st) = st
state_of (failed e st) = st
state_of (stopped st) = st

-- What each way to end promises. Only two errors are left: no matching edge, which names the last
-- visited node, or the visits are used up.
abbrev pub EndsWell : {S R : Type 0} → StateGraph S R → ℕ → Ended S R → Type 0
EndsWell g limit (finished st) = IsOver g st
EndsWell g limit (failed no_entry st) = ⊥
EndsWell g limit (failed (node_not_found n) st) = ⊥
EndsWell g limit (failed max_visits_exceeded st) = length (visited st) ≡ limit
EndsWell g limit (failed (no_matching_edge n) st) =
    (ids : List String) × (visited st ≡ ids ++ n ∷ [])
EndsWell g limit (stopped st) = Unit

module _ {S R : Type 0} (ops : ResultOps R) (g : StateGraph S R) (ready : IsReady g)
    (no_empty_id : has_key "" g.nodes ≡ false) (cancel : ℕ → Bool) (limit : ℕ)
    (first : String) where
  record Post (e : Ended S R) : Type 0 where
    ends : EndsWell g limit e
    bounded : length (visited (state_of e)) ≤ limit
    path : IsWalk g first (visited (state_of e))

  linked_known : (a b : String) → IsLinked g a b → has_key b g.nodes ≡ true
  linked_known a b l = go (edges_of g a) (ready.closed.targets a) l
    where
      go :
          (es : List (GraphEdge S R))
          → All (λ e. has_key e.target g.nodes ≡ true) es
          → In b (map (λ e. e.target) es)
          → has_key b g.nodes ≡ true
      go [] h m = absurd m
      go (e ∷ es) h m = elim m [ inl p ↦ rw p at h.0 | inr later ↦ go es h.1 later ]

  not_empty : (n : String) → has_key n g.nodes ≡ true → (n == "") ≡ false
  not_empty n known = elim (Bool-cases (n == "")) [
    | inl e ↦
        let same : n ≡ "" = (eq_iff n "").0 e in
        absurd (ground (arith, ap (λ k. has_key k g.nodes) same))
    | inr e ↦ e
  ]

  node_of_key :
      (n : String) → has_key n g.nodes ≡ true → (v : GraphNode S R) × (get_node g n ≡ some v)
  unfolding get_node
  node_of_key n known = ground arith

  -- The end of the walk, from what its first round does.
  after_round :
      (current : String) (st : RunState S R) (e : Round S R)
      (rest : String → RunState S R → Ended S R)
      → RoundCase g current (visited st) e
      → length (visited st) + 1 ≤ limit
      → IsWalk g first (visited st)
      → Leads g first (visited st) current
      → ((next : String) (out : RunState S R)
          → has_key next g.nodes ≡ true
          → length (visited out) ≡ length (visited st) + 1
          → IsWalk g first (visited out)
          → Leads g first (visited out) next
          → Post (rest next out))
      → Post (elim e [ done x ↦ x | goto next out ↦ rest next out ])
  after_round current st e rest c room path leads ih =
      let walked : IsWalk g first (visited st ++ current ∷ []) =
        IsWalk-snoc g first (visited st) current path leads in
      let count : length (visited st ++ current ∷ []) ≡ length (visited st) + 1 =
        length-append (visited st) (current ∷ []) ∙ omega arith in
      elim c [
        | over out p o seen ↦
            rw p (record { ends = o; bounded = rw seen (rw count room); path = rw seen walked })
        | moves next out p l seen ↦ rw p (
            ih next out (linked_known current next l) (rw seen count) (rw seen walked)
              (rw seen (Leads-snoc g first (visited st) current next l)))
        | stuck out p seen ↦ rw p (record {
          ends = (visited st, seen);
          bounded = rw seen (rw count room);
          path = rw seen walked;
        })
        | halted out p seen ↦
            rw p (record { ends = tt; bounded = rw seen (omega arith); path = rw seen path })
      ]

  walk-Post :
      (left visits : ℕ) (current : String) (st : RunState S R)
      → has_key current g.nodes ≡ true
      → visits + left ≡ limit
      → length (visited st) ≡ visits
      → IsWalk g first (visited st)
      → Leads g first (visited st) current
      → Post (walk ops g cancel left visits current st)
  unfolding walk
  walk-Post zero visits current st known budget count path leads =
      rw (not_empty current known) (elim (Bool-cases (cancel visits)) [
        | inl e ↦ rw e (record { ends = tt; bounded = omega arith; path = path })
        | inr e ↦ rw e (record { ends = omega arith; bounded = omega arith; path = path })
      ])
  walk-Post (suc left) visits current st known budget count path leads =
      rw (not_empty current known, walk)
        (elim (Bool-cases (cancel visits)) [
          | inl e ↦ rw e (record { ends = tt; bounded = omega arith; path = path })
          | inr e ↦ rw e (
              after_round current st (visit ops g (visits + 1) current st)
                (λ next out. walk ops g cancel left (visits + 1) next out)
                (visit-RoundCase ops g current (node_of_key current known).0
                  (node_of_key current known).1 (visits + 1) st)
                (omega arith) path leads
                (λ next out k c w l.
                  walk-Post left (visits + 1) next out k (omega arith) (omega arith) w l))
        ])

first_node_entry :
    {S R : Type 0} (g : StateGraph S R) (n : String) → g.entry_node ≡ some n → first_node g none ≡ n
unfolding first_node
first_node_entry g n e = rw e

module _ {S R : Type 0} (ops : ResultOps R) (g : StateGraph S R) (limit : ℕ) (cancel : ℕ → Bool)
    (st : RunState S R) where
  -- A run of a ready graph from its entry node, on any handlers, conditions and cancellation, where no
  -- node's id is the empty text. Where it returns, the last node is COMPLETE, FAIL or HANDOFF, and the
  -- state names it so. Where it raises, it has made `max_visits` visits, or it has found no matching
  -- edge after the last visited node, which the error names. It has visited at most `max_visits`
  -- nodes, and they are a walk along edges of the graph from the entry node.
  pub run_lem :
      (ready : IsReady g)
      → has_key "" g.nodes ≡ false
      → EndsWell g limit (run ops g limit cancel none st)
        × (length (visited (state_of (run ops g limit cancel none st))) ≤ limit)
        × IsWalk g ready.begin (visited (state_of (run ops g limit cancel none st)))
  unfolding run
  run_lem ready no_empty_id =
      let known = ready.named.entry_known ready.begin ready.entry_set in
      rw
        (
          first_node_entry g ready.begin ready.entry_set,
          not_empty ops g ready no_empty_id cancel limit ready.begin ready.begin known,
        )
        (let p =
            walk-Post ops g ready no_empty_id cancel limit ready.begin limit 0 ready.begin
              (record st { graph = fresh_info ready.begin }) known (omega arith) refl tt refl in
          (p.ends, p.bounded, p.path))
