-- ===== src/AgenticLoop/Partition.antt =====
-- `_partition_by_dependency`: which calls of a turn are run in parallel.
use mathlib.Core.List.{append-nil}
use phylum.Common.{
  ◌≤◌, String, Bool, true, false, List, [], ◌∷◌, ◌++◌, ◌≡◌, refl, ap, inl, inr, arith, Bool-cases,
  one_of, leb, length, ◌||◌,
}
use phylum.AgenticLoop.{
  ToolCall, Task, Services, Planned, mutation_types, refs_sibling, split, partition,
}

-- Whether the task waits for the ones before it: it is listed as a mutation, or its parameters name a
-- task before.
abbrev pub waits : Services → List String → Task → Bool
waits services seen t = one_of t.action mutation_types || refs_sibling services seen t

-- No task of the list waits, where the tasks with these ids come before it.
abbrev pub AllAtOnce : Services → List String → Planned → Type 0
AllAtOnce services seen [] = Unit
AllAtOnce services seen (p ∷ ps) =
    (waits services seen (p.1) ≡ false) × AllAtOnce services (p.1.id ∷ seen) ps

-- The ids of the tasks, the last one first, before the ones seen already.
abbrev pub seen_after : List String → Planned → List String
seen_after seen [] = seen
seen_after seen (p ∷ ps) = seen_after (p.1.id ∷ seen) ps

abbrev pub StartsWaiting : Services → List String → Planned → Type 0
StartsWaiting services seen [] = Unit
StartsWaiting services seen (p ∷ ps) = waits services seen (p.1) ≡ true

-- The two groups of a turn's tasks.
pub record IsSplit (services : Services) (seen : List String) (planned : Planned)
    (groups : Planned × Planned) : Type 0 where
  pub whole : groups.0 ++ groups.1 ≡ planned
  pub parallel : AllAtOnce services seen groups.0
  pub longest : StartsWaiting services (seen_after seen groups.0) groups.1

module _ (services : Services) where
  split-IsSplit :
      (seen : List String) (planned : Planned)
      → IsSplit services seen planned (split services seen planned)
  unfolding split refs_sibling
  split-IsSplit seen [] = record { whole = refl; parallel = tt; longest = tt }
  split-IsSplit seen (p ∷ planned) =
      let rest = split-IsSplit (p.1.id ∷ seen) planned in
      elim (Bool-cases (waits services seen (p.1))) [
        | inl e ↦ rw (e, split) (record { whole = refl; parallel = tt; longest = e })
        | inr e ↦
            rw (e, split)
              (record {
                whole = ap (λ ps. p ∷ ps) rest.whole;
                parallel = (e, rest.parallel);
                longest = rest.longest;
              })
      ]

  -- Of two or more planned calls, in their order, the group that is run in parallel is the longest
  -- first part none of whose tasks is listed as a mutation or names, in its parameters, the id of a
  -- task before it; the others form the group that is run one by one.
  pub partition-IsSplit :
      (planned : Planned)
      → 2 ≤ length planned
      → IsSplit services [] planned (partition services planned)
  unfolding partition
  partition-IsSplit planned h =
      let e : leb (length planned) 1 ≡ false = ground (arith) in
      rw (e, partition) (split-IsSplit [] planned)

  pub partition_whole :
      (planned : Planned)
      → (partition services planned).0 ++ (partition services planned).1 ≡ planned
  unfolding partition
  partition_whole planned = elim (Bool-cases (leb (length planned) 1)) [
    | inl e ↦ rw (e, partition) (append-nil planned)
    | inr e ↦ rw (e, partition) ((split-IsSplit [] planned).whole)
  ]

  -- Two tasks whose actions are not listed are run at the same time, unless the second names the
  -- first: "write", "append" and "mkdir" are not listed.
  pub partition_unlisted :
      (p q : ToolCall × Task)
      → one_of (p.1.action) mutation_types ≡ false
      → one_of (q.1.action) mutation_types ≡ false
      → refs_sibling services (p.1.id ∷ []) (q.1) ≡ false
      → partition services (p ∷ q ∷ []) ≡ (p ∷ q ∷ [], [])
  unfolding partition split refs_sibling
  partition_unlisted p q ep eq er =
      let ep' : waits services [] (p.1) ≡ false = rw ep refl in
      let eq' : waits services (p.1.id ∷ []) (q.1) ≡ false = rw (eq, er) refl in
      rw (ep', eq', split) refl
