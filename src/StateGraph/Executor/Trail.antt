-- ===== src/StateGraph/Executor/Trail.antt =====
-- Walks along the edges of a graph, as lists of node ids.
use phylum.Common.{String, ◌≡◌, List, [], ◌∷◌, ◌++◌, In, map}
use phylum.StateGraph.{StateGraph, edges_of}

module _ {S R : Type 0} (g : StateGraph S R) where
  -- Some edge of `a` leads to `b`.
  abbrev pub IsLinked : String → String → Type 0
  IsLinked a b = In b (map (λ e. e.target) (edges_of g a))

  abbrev pub IsTail : String → List String → Type 0
  IsTail a [] = Unit
  IsTail a (b ∷ ids) = IsLinked a b × IsTail b ids

  -- The list starts at `first`, and each node is linked to the next one.
  abbrev pub IsWalk : String → List String → Type 0
  IsWalk first [] = Unit
  IsWalk first (a ∷ ids) = (a ≡ first) × IsTail a ids

  abbrev LeadsTail : String → List String → String → Type 0
  LeadsTail a [] c = IsLinked a c
  LeadsTail a (b ∷ ids) c = LeadsTail b ids c

  -- The list may be continued by `c`.
  abbrev pub Leads : String → List String → String → Type 0
  Leads first [] c = c ≡ first
  Leads first (a ∷ ids) c = LeadsTail a ids c

  IsTail-snoc :
      (a : String) (ids : List String) (c : String)
      → IsTail a ids
      → LeadsTail a ids c
      → IsTail a (ids ++ c ∷ [])
  IsTail-snoc a [] c w l = (l, tt)
  IsTail-snoc a (b ∷ ids) c w l = (w.0, IsTail-snoc b ids c w.1 l)

  pub IsWalk-snoc :
      (first : String) (ids : List String) (c : String)
      → IsWalk first ids
      → Leads first ids c
      → IsWalk first (ids ++ c ∷ [])
  IsWalk-snoc first [] c w l = (l, tt)
  IsWalk-snoc first (a ∷ ids) c w l = (w.0, IsTail-snoc a ids c w.1 l)

  LeadsTail-snoc :
      (a : String) (ids : List String) (b c : String) → IsLinked b c → LeadsTail a (ids ++ b ∷ []) c
  LeadsTail-snoc a [] b c l = l
  LeadsTail-snoc a (d ∷ ids) b c l = LeadsTail-snoc d ids b c l

  pub Leads-snoc :
      (first : String) (ids : List String) (b c : String)
      → IsLinked b c
      → Leads first (ids ++ b ∷ []) c
  Leads-snoc first [] b c l = l
  Leads-snoc first (a ∷ ids) b c l = LeadsTail-snoc a ids b c l
