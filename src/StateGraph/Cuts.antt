-- ===== src/StateGraph/Cuts.antt =====
-- Facts about the edges of a graph that a Boolean check of its table decides, and nodes that every
-- walk has to pass.
use phylum.Common.{
  &&-parts, String, ◌≡◌, Bool, true, false, some, List, [], ◌∷◌, ◌++◌, arith, In, ◌⊎◌, inl, inr,
  map, all, Option-cases, eq_iff, ◌≢◌,
}
use phylum.Common.Dict.{Dict, get}
use phylum.StateGraph.{GraphEdge, StateGraph, edges_of}
use phylum.StateGraph.Executor.Trail.{IsLinked, IsWalk, IsTail}

module _ {S R : Type 0} (check : String → GraphEdge S R → Bool) where
  abbrev pub passes : Dict (List (GraphEdge S R)) → Bool
  passes d = all (λ x. all (check x.0) x.1) d

  get-passes :
      (d : Dict (List (GraphEdge S R))) (n : String) (es : List (GraphEdge S R))
      → passes d ≡ true
      → get n d ≡ some es
      → all (check n) es ≡ true
  unfolding get
  get-passes [] n es h p = absurd (ground arith)
  get-passes ((k, fs) ∷ d) n es h p =
      let (here, later) = &&-parts (all (check k) fs) (passes d) h in
      ground (arith, eq_iff k n, get-passes d n es later)

  -- A check of the whole table holds of every edge of a node.
  edges_of-passes :
      (g : StateGraph S R) (n : String)
      → passes g.edges ≡ true
      → all (check n) (edges_of g n) ≡ true
  unfolding edges_of
  edges_of-passes g n h = elim (Option-cases (get n g.edges)) [
    | inl e ↦ rw (e, edges_of)
    | inr (es, e) ↦ rw (e, edges_of) (get-passes g.edges n es h e)
  ]

-- A check that reads only the ends of an edge.
abbrev pub ends_pass : {S R : Type 0} → (String → String → Bool) → StateGraph S R → Bool
ends_pass check g = passes (λ n e. check n e.target) g.edges

linked-In :
    {S R : Type 0} (check : String → Bool) (es : List (GraphEdge S R)) (b : String)
    → all (λ e. check e.target) es ≡ true
    → In b (map (λ e. e.target) es)
    → check b ≡ true
linked-In check [] b h m = absurd m
linked-In check (e ∷ es) b h m =
    let (here, later) = &&-parts (check e.target) (all (λ x. check x.target) es) h in
    elim m [ inl p ↦ rw p at here | inr q ↦ linked-In check es b later q ]

-- A check of the ends of all edges holds of any two linked nodes.
pub IsLinked-passes :
    {S R : Type 0} (check : String → String → Bool) (g : StateGraph S R) (a b : String)
    → ends_pass check g ≡ true
    → IsLinked g a b
    → check a b ≡ true
IsLinked-passes check g a b h l =
    linked-In (check a) (edges_of g a) b (edges_of-passes (λ n e. check n e.target) g a h) l

module _ {S R : Type 0} (g : StateGraph S R) (inside : String → Bool) (gate : String)
    (closed : (a b : String)
      → IsLinked g a b
      → inside a ≡ true
      → (inside b ≡ true) ⊎ (b ≡ gate)) where
  tail-gate :
      (a : String) (ids : List String) (x : String) (rest : List String)
      → inside a ≡ true
      → inside x ≡ false
      → x ≢ gate
      → IsTail g a (ids ++ x ∷ rest)
      → In gate ids
  tail-gate a [] x rest i o other w = elim (closed a x w.0 i) [
    | inl p ↦ absurd (ground arith)
    | inr p ↦ absurd (other p)
  ]
  tail-gate a (b ∷ ids) x rest i o other w = elim (closed a b w.0 i) [
    | inl p ↦ inr (tail-gate b ids x rest p o other w.1)
    | inr p ↦ inl p
  ]

  -- A walk that starts inside and comes to a node outside has passed the gate before.
  pub IsWalk-gate :
      (first : String) (ids : List String) (x : String) (rest : List String)
      → inside first ≡ true
      → inside x ≡ false
      → x ≢ gate
      → IsWalk g first (ids ++ x ∷ rest)
      → In gate ids
  IsWalk-gate first [] x rest i o other w = absurd (ground arith)
  IsWalk-gate first (a ∷ ids) x rest i o other w =
      inr (tail-gate a ids x rest (rw w.0 i) o other w.1)
