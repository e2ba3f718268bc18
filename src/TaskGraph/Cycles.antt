-- ===== src/TaskGraph/Cycles.antt =====
-- What `validate` answers.
use phylum.Common.{
  ℕ, zero, suc, ◌<◌, ◌≤◌, String, true, false, List, [], if◌then◌else◌, nat_eq, filter, length,
  one_of, ◌≡◌, ◌≢◌, ◌↔◌, refl, sym, ◌∙◌, arith, inl, inr, Bool-cases, nat_eq_iff,
}
use phylum.Common.Dict.{Dict, get, keys}
use phylum.Common.Sets.{
  Within, one_of-filter, Unique-filter, length-Within, Within-full, one_of-append, Unique-left,
  index_of, left_over, zero-left_over,
}
use phylum.TaskGraph.{Task}
use phylum.TaskGraph.Validation.{
  dependencies, depends, degree, degrees, is_missing, validate, valid, missing_dependencies, cycle,
  stuck,
}
use phylum.TaskGraph.Acyclic.{Inv, IsClosed, drain_lem}
use phylum.TaskGraph.Dependencies.{
  degree-table, Unique-depends, depends-absent, is_missing-known, left_over-all,
  Unique-add_dependencies, depends-known, known-is_missing, IsAcyclic,
}

module _ (tasks : List Task) (known : is_missing (dependencies tasks) ≡ false) where
  d : Dict (List String)
  d = dependencies tasks

  closed : IsClosed d
  unfolding d dependencies depends get
  closed = record {
    names = Unique-add_dependencies tasks [] tt;
    sets = Unique-depends tasks [] (λ k. tt);
    known = λ k x h. (depends-known d k x h, is_missing-known d known k x h);
  }

  start : List String
  start = filter (λ k. nat_eq (degree (degrees d) k) 0) (keys d)

  degrees-left_over : (k : String) → degree (degrees d) k ≡ left_over [] (depends d k)
  unfolding degrees
  degrees-left_over k =
      degree-table (λ j. length (depends d j)) (keys d) k ∙ elim (Bool-cases (one_of k (keys d))) [
        | inl e ↦ rw e (sym (left_over-all (depends d k)))
        | inr e ↦ rw (e, depends-absent d k e) refl
      ]

  Inv-start : Inv d closed [] start (degrees d)
  unfolding start d
  Inv-start = record {
    counted = degrees-left_over;
    once = Unique-filter _ (keys d) closed.names;
    members =
        λ k h. ground (arith, h, one_of-filter (λ j. nat_eq (degree (degrees d) j) 0) k (keys d));
    free = λ k h. ground (
      arith,
      h,
      degrees-left_over k,
      one_of-filter (λ j. nat_eq (degree (degrees d) j) 0) k (keys d),
    );
    settled = λ k h z. ground (
      arith,
      h,
      z,
      degrees-left_over k,
      one_of-filter (λ j. nat_eq (degree (degrees d) j) 0) k (keys d),
    );
    ordered = λ k x h. absurd (ground arith);
  }

  -- The loop ends with the tasks that it visited, in their order.
  ending :
      (final : List String) × (rest : Dict ℕ) × (validate tasks
        ≡ (if nat_eq (length final) (length (keys d)) then valid else cycle))
      × Inv d closed final [] rest
  unfolding validate d start
  ending =
      let (final, rest, ends, holds) =
        drain_lem d closed (length (keys d)) [] start (degrees d) Inv-start (omega arith) in
      (final, rest, rw (known, ends) refl, holds)

  -- Where every task was visited, its place in the order is its rank.
  ranked :
      (final : List String) (rest : Dict ℕ)
      → Inv d closed final [] rest
      → length final ≡ length (keys d)
      → IsAcyclic d
  unfolding d
  ranked final rest inv full = record {
    known = is_missing-known d known;
    rank = λ k. index_of k final;
    falls = λ k x dep. (inv.ordered k x (visited k (depends-known d k x dep)) dep).1;
  }
    where
      visited : Within (keys d) final
      visited =
          Within-full final (keys d) (Unique-left final [] inv.once)
            (λ x h. inv.members x (one_of-append x final [] ∙ rw h refl)) (omega (arith, full))

  -- Where there are ranks, every task below a bound is visited.
  below :
      (acyclic : IsAcyclic d) (final : List String) (rest : Dict ℕ)
      → Inv d closed final [] rest
      → (n : ℕ) (k : String) → acyclic.rank k < n
      → one_of k (keys d) ≡ true
      → one_of k final ≡ true
  below acyclic final rest inv zero k lt h = absurd (omega arith)
  below acyclic final rest inv (suc n) k lt h =
      let done : Within (depends d k) final = λ x dep.
        below acyclic final rest inv n x (omega (arith, lt, acyclic.falls k x dep))
          (acyclic.known k x dep) in
      ground
        (arith, inv.settled k h (zero-left_over final (depends d k) done), one_of-append k final [])

  valid-ending : validate tasks ≡ valid ↔ IsAcyclic d
  valid-ending =
      let (final, rest, ends, inv) = ending in
      elim (Bool-cases (nat_eq (length final) (length (keys d)))) [
        | inl e ↦ (
          λ h. ranked final rest inv ((nat_eq_iff (length final) (length (keys d))).0 e),
          λ a. ends ∙ rw e refl,
        )
        | inr e ↦ (
          λ h. absurd (valid≢cycle (sym h ∙ ends ∙ rw e refl)),
          λ a.
              let fewer =
                length-Within (keys d) final closed.names
                  (λ k h. below a final rest inv (suc (a.rank k)) k (omega arith) h) in
              absurd (ground (arith, e, fewer, at_most final rest inv)),
        )
      ]
    where
      valid≢cycle : valid ≢ cycle
      valid≢cycle h = cc

      at_most :
          (final : List String) (rest : Dict ℕ)
          → Inv d closed final [] rest
          → length final ≤ length (keys d)
      at_most final rest inv =
          length-Within final (keys d) (Unique-left final [] inv.once)
            (λ x h. inv.members x (one_of-append x final [] ∙ rw h refl))

-- `validate` accepts the tasks exactly where every dependency is the id of a task and the tasks
-- can be ranked with every task above its dependencies.
pub validate-valid_iff :
    (tasks : List Task) → validate tasks ≡ valid ↔ IsAcyclic (dependencies tasks)
unfolding validate d
validate-valid_iff tasks = elim (Bool-cases (is_missing (dependencies tasks))) [
  | inl e ↦ (
    λ h. absurd (missing≢valid (rw e at h)),
    λ a. absurd (ground (arith, e, known-is_missing (dependencies tasks) a.known)),
  )
  | inr e ↦ valid-ending tasks e
]
  where
    missing≢valid : missing_dependencies ≢ valid
    missing≢valid h = cc

-- The loop never stops for want of rounds: the number of ids is enough of them.
pub validate-IsDecided : (tasks : List Task) → validate tasks ≢ stuck
unfolding validate d
validate-IsDecided tasks h = elim (Bool-cases (is_missing (dependencies tasks))) [
  | inl e ↦ let h' : missing_dependencies ≡ stuck = rw e at h in cc
  | inr e ↦
      let (final, rest, ends, inv) = ending tasks e in
      elim (Bool-cases (nat_eq (length final) (length (keys (dependencies tasks))))) [
        | inl f ↦ let h' : valid ≡ stuck = sym (ends ∙ rw f refl) ∙ h in cc
        | inr f ↦ let h' : cycle ≡ stuck = sym (ends ∙ rw f refl) ∙ h in cc
      ]
]
