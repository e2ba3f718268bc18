-- ===== src/RecoveryEngine/Targets.antt =====
-- The node that the recovery of a failure jumps to, in the graph of the local pipeline.
use mathlib.Core.Path.{subst}
use phylum.Common.{
  String, Bool, true, Option, none, some, List, [], ◌∷◌, ◌≡◌, refl, Bool-cases, inl, inr, arith,
  is_some, All, truthy, sym, ◌==◌, ◌∙◌, if◌then◌else◌,
}
use phylum.Common.Dict.{Dict, get, has_key}
use phylum.StateGraph.{Visit}
use phylum.StateGraph.Recovery.{find_recovery_target, from_hint, first_of_two}
use phylum.Pipelines.Local.{local, build_local_graph}
use phylum.RecoveryEngine.{Plan, resolve_graph_target, suggested_action_to_target_node}
use phylum.RecoveryEngine.Plans.{IsSound}

get-All :
    (P : String → Type 0) (d : Dict String) (k v : String)
    → All (λ e. P e.1) d
    → get k d ≡ some v
    → P v
unfolding get
get-All P [] k v h e = absurd (ground arith)
get-All P ((x, w) ∷ d) k v h e = elim (Bool-cases (x == k)) [
  | inl f ↦ let same : w ≡ v = ground arith in subst P same h.0
  | inr f ↦ get-All P d k v h.1 (ground arith)
]

is_some-some : {A : Type 0} (o : Option A) → is_some o ≡ true → (a : A) × (o ≡ some a)
is_some-some none h = absurd (ground arith)
is_some-some (some a) h = (a, refl)

abbrev IsStop : String → Type 0
IsStop n = (truthy (some n) ≡ true) × (has_key n local.nodes ≡ true)

targets-known : All (λ e. IsStop e.1) suggested_action_to_target_node
unfolding get suggested_action_to_target_node build_local_graph
targets-known = (
  (refl, refl),
  (
    (refl, refl),
    (
      (refl, refl),
      (
        (refl, refl),
        (
          (refl, refl),
          ((refl, refl), ((refl, refl), ((refl, refl), ((refl, refl), ((refl, refl), tt))))),
        ),
      ),
    ),
  ),
)

same_branches : (n : String) (b : Bool) → b ≡ true → (if b then some n else some n) ≡ some n
same_branches n b h = rw h refl

-- A sound classification leads to a node of the local pipeline's graph, whatever the traversal was.
pub resolve_graph_target-local :
    (again : Bool) (p : Plan) (log entries : List Visit)
    → IsSound again p
    → (n : String) × (resolve_graph_target (some local) log entries p ≡ some n)
      × (has_key n local.nodes ≡ true)
unfolding resolve_graph_target find_recovery_target from_hint first_of_two
resolve_graph_target-local again p log entries sound =
    let (n, there) = is_some-some p.target_node sound.known in
    let stop =
      get-All IsStop suggested_action_to_target_node p.suggested_action n targets-known
        (sym sound.target ∙ there) in
    (n, rw (there, stop.0, stop.1) (same_branches n (truthy (some n)) stop.0), stop.1)
