-- ===== src/TaskGraph/Acyclic.antt =====
-- The loop of Kahn's algorithm in `validate`: what it has visited, queued and counted.
use phylum.Common.{
  ℕ, zero, suc, ◌+◌, ◌-◌, ◌<◌, ◌≤◌, String, Bool, true, false, some, List, [], ◌∷◌, ◌++◌, ◌&&◌,
  if◌then◌else◌, nat_eq, filter, length, length-append, one_of, ◌≡◌, refl, sym, ap, ◌∙◌, arith, inl,
  inr, eq_iff, eq_refl, Bool-cases, &&-parts, nat_eq_iff,
}
use mathlib.Core.List.{append_assoc}
use mathlib.Core.Path.{subst}
use phylum.Common.Dict.{Dict, keys}
use phylum.Common.Sets.{
  Unique, Within, one_of-append, one_of-filter, Unique-filter, Unique-append, Unique-apart,
  length-Within, index_of, index_of-front, index_of-at, index_of-append, left_over, left_over-zero,
  left_over-step,
}
use phylum.TaskGraph.Validation.{depends, dependents, degree, release, drain}
use phylum.TaskGraph.Release.{release-degree, release-queue}

-- Every dependency of a text of the list stands before it.
abbrev pub IsOrdered : Dict (List String) → List String → Type 0
IsOrdered d xs =
    (k x : String)
    → one_of k xs ≡ true
    → one_of x (depends d k) ≡ true
    → (one_of x xs ≡ true) × (index_of x xs < index_of k xs)

-- The names of the dictionary and of its values are sets, and every dependency is a name.
pub record IsClosed (d : Dict (List String)) : Type 0 where
  pub names : Unique (keys d)
  pub sets : (k : String) → Unique (depends d k)
  pub known :
      (k x : String)
      → one_of x (depends d k) ≡ true
      → (one_of k (keys d) ≡ true) × (one_of x (keys d) ≡ true)

module _ (d : Dict (List String)) (closed : IsClosed d) where
  -- What holds when the tasks of `done` have been taken from the queue and `q` is left.
  pub record Inv (done q : List String) (ind : Dict ℕ) : Type 0 where
    pub counted : (k : String) → degree ind k ≡ left_over done (depends d k)
    pub once : Unique (done ++ q)
    pub members : Within (done ++ q) (keys d)
    pub free : (k : String) → one_of k q ≡ true → left_over done (depends d k) ≡ 0
    pub settled :
        (k : String)
        → one_of k (keys d) ≡ true
        → left_over done (depends d k) ≡ 0
        → one_of k (done ++ q) ≡ true
    pub ordered : IsOrdered d done

  one_of-dependents : (k c : String) → one_of k (dependents d c) ≡ one_of c (depends d k)
  unfolding dependents
  one_of-dependents k c =
      one_of-filter (λ j. one_of c (depends d j)) k (keys d)
      ∙ elim (Bool-cases (one_of c (depends d k))) [
        | inl e ↦ rw (e, (closed.known k c e).0) refl
        | inr e ↦ rw e (ground arith)
      ]

  Unique-dependents : (c : String) → Unique (dependents d c)
  unfolding dependents
  Unique-dependents c = Unique-filter _ (keys d) closed.names

  module _ (done : List String) (c : String) (q : List String) (ind : Dict ℕ)
      (inv : Inv done (c ∷ q) ind) where
    fresh : one_of c done ≡ false
    fresh = Unique-apart done (c ∷ q) c inv.once (rw (eq_refl c) refl)

    step :
        (k : String)
        → left_over done (depends d k)
          ≡ left_over (done ++ c ∷ []) (depends d k) + (if one_of c (depends d k) then 1 else 0)
    step k = left_over-step done c (depends d k) (closed.sets k) fresh

    step_dep :
        (k : String)
        → one_of c (depends d k) ≡ true
        → left_over done (depends d k) ≡ suc (left_over (done ++ c ∷ []) (depends d k))
    step_dep k h = omega (arith, step k, ap {B = ℕ} (λ (b : Bool). if b then 1 else 0) h)

    step_other :
        (k : String)
        → one_of c (depends d k) ≡ false
        → left_over done (depends d k) ≡ left_over (done ++ c ∷ []) (depends d k)
    step_other k h = omega (arith, step k, ap {B = ℕ} (λ (b : Bool). if b then 1 else 0) h)

    counted_next :
        (k : String)
        → degree (release (dependents d c) ind q).0 k ≡ left_over (done ++ c ∷ []) (depends d k)
    counted_next k =
        release-degree (dependents d c) ind q k (Unique-dependents c)
        ∙ elim (Bool-cases (one_of c (depends d k))) [
          | inl e ↦ rw (one_of-dependents k c, e) (omega (arith, step_dep k e, inv.counted k))
          | inr e ↦ rw (one_of-dependents k c, e) (omega (arith, step_other k e, inv.counted k))
        ]

    freed : List String
    freed = filter (λ k. nat_eq (degree ind k - 1) 0) (dependents d c)

    one_of-freed :
        (k : String) → one_of k freed ≡ (one_of c (depends d k) && nat_eq (degree ind k - 1) 0)
    unfolding freed
    one_of-freed k = one_of-filter _ k (dependents d c) ∙ rw (one_of-dependents k c) refl

    shifted : (xs : List String) → (done ++ c ∷ []) ++ (q ++ xs) ≡ (done ++ c ∷ q) ++ xs
    shifted xs = append_assoc done (c ∷ []) (q ++ xs) ∙ sym (append_assoc done (c ∷ q) xs)

    IsOrdered-next : IsOrdered d (done ++ c ∷ [])
    IsOrdered-next k x h dep = elim (Bool-cases (one_of k done)) [
      | inl e ↦
          let (there, before) = inv.ordered k x e dep in
          (
            one_of-append x done (c ∷ []) ∙ rw there refl,
            rw (index_of-append x done (c ∷ []) there, index_of-append k done (c ∷ []) e) before,
          )
      | inr e ↦
          let same : k ≡ c = (eq_iff k c).0 (ground (arith, h, e, one_of-append k done (c ∷ []))) in
          let there : one_of x done ≡ true =
            left_over-zero done (depends d k) (inv.free k (rw (same, eq_refl c) refl)) x dep in
          (
            one_of-append x done (c ∷ []) ∙ rw there refl,
            omega (
              arith,
              index_of-front x done (c ∷ []) there,
              index_of-at c done [] fresh,
              ap (λ v. index_of v (done ++ c ∷ [])) same,
            ),
          )
    ]

    freed_late : (k : String) → one_of k freed ≡ true → one_of k (done ++ c ∷ q) ≡ false
    freed_late k h =
        let (dep, last) = &&-parts (one_of c (depends d k)) _ (sym (one_of-freed k) ∙ h) in
        let more : 0 < left_over done (depends d k) = omega (arith, step_dep k dep) in
        one_of-append k done (c ∷ q) ∙ rw (not_done k dep, not_queued k more) refl
      where
        not_done : (k : String) → one_of c (depends d k) ≡ true → one_of k done ≡ false
        not_done k dep = elim (Bool-cases (one_of k done)) [
          | inl e ↦ absurd (ground (arith, fresh, (inv.ordered k c e dep).0))
          | inr e ↦ e
        ]

        not_queued : (k : String) → 0 < left_over done (depends d k) → one_of k (c ∷ q) ≡ false
        not_queued k more = elim (Bool-cases (one_of k (c ∷ q))) [
          | inl e ↦ absurd (omega (arith, more, inv.free k e))
          | inr e ↦ e
        ]

    freed_free : (k : String) → one_of k freed ≡ true → left_over (done ++ c ∷ []) (depends d k) ≡ 0
    freed_free k h =
        let (dep, last) = &&-parts (one_of c (depends d k)) _ (sym (one_of-freed k) ∙ h) in
        omega (arith, (nat_eq_iff (degree ind k - 1) 0).0 last, step_dep k dep, inv.counted k)

    settled_next :
        (k : String)
        → one_of k (keys d) ≡ true
        → left_over (done ++ c ∷ []) (depends d k) ≡ 0
        → one_of k ((done ++ c ∷ q) ++ freed) ≡ true
    settled_next k h z =
        one_of-append k (done ++ c ∷ q) freed ∙ elim (Bool-cases (one_of c (depends d k))) [
          | inl e ↦
              let one : degree ind k - 1 ≡ 0 = omega (arith, z, step_dep k e, inv.counted k) in
              let new : one_of k freed ≡ true =
                one_of-freed k ∙ rw (e, (nat_eq_iff (degree ind k - 1) 0).1 one) refl in
              rw new (ground arith)
          | inr e ↦
              let same : left_over done (depends d k) ≡ 0 = omega (arith, z, step_other k e) in
              rw (inv.settled k h same) refl
        ]

    free_next :
        (k : String) → one_of k (q ++ freed) ≡ true → left_over (done ++ c ∷ []) (depends d k) ≡ 0
    free_next k h = elim (Bool-cases (one_of k freed)) [
      | inl e ↦ freed_free k e
      | inr e ↦
          let queued : one_of k (c ∷ q) ≡ true = ground (arith, h, e, one_of-append k q freed) in
          omega (arith, step k, inv.free k queued)
    ]

    members_next :
        (k : String) → one_of k ((done ++ c ∷ q) ++ freed) ≡ true → one_of k (keys d) ≡ true
    members_next k h = elim (Bool-cases (one_of k freed)) [
      | inl e ↦
          (closed.known k c ((&&-parts (one_of c (depends d k)) _ (sym (one_of-freed k) ∙ e)).0)).0
      | inr e ↦ inv.members k (ground (arith, h, e, one_of-append k (done ++ c ∷ q) freed))
    ]

    -- Taking a task from the queue keeps what holds.
    Inv-next : Inv (done ++ c ∷ []) (q ++ freed) (release (dependents d c) ind q).0
    unfolding freed
    Inv-next = record {
      counted = counted_next;
      once = subst Unique (sym (shifted freed)) (
          Unique-append (done ++ c ∷ q) freed inv.once (Unique-filter _ _ (Unique-dependents c))
            apart);
      members = λ k h. members_next k (rw shifted at h);
      free = free_next;
      settled = λ k h z. rw (shifted freed) (settled_next k h z);
      ordered = IsOrdered-next;
    }
      where
        apart : (k : String) → one_of k (done ++ c ∷ q) ≡ true → one_of k freed ≡ false
        apart k h = elim (Bool-cases (one_of k freed)) [
          | inl e ↦ absurd (ground (arith, freed_late k e))
          | inr e ↦ e
        ]

  -- With a round for every name the loop ends, having counted the tasks that it visited.
  pub drain_lem :
      (fuel : ℕ) (done q : List String) (ind : Dict ℕ)
      → Inv done q ind
      → length (keys d) ≤ fuel + length done
      → (final : List String) × (rest : Dict ℕ) × (drain d fuel ind q (length done)
          ≡ some (length final))
        × Inv final [] rest
  unfolding drain freed
  drain_lem zero done [] ind inv enough = (done, ind, refl, inv)
  drain_lem (suc fuel) done [] ind inv enough = (done, ind, refl, inv)
  drain_lem zero done (c ∷ q) ind inv enough = absurd (
      omega (
        arith,
        length-Within (done ++ c ∷ q) (keys d) inv.once inv.members,
        length-append done (c ∷ q),
      ))
  drain_lem (suc fuel) done (c ∷ q) ind inv enough =
      let longer = length-append done (c ∷ []) in
      let next =
        subst (λ v. Inv (done ++ c ∷ []) v (release (dependents d c) ind q).0)
          (sym (release-queue (dependents d c) ind q (Unique-dependents c)))
          (Inv-next done c q ind inv) in
      let (final, rest, ends, holds) =
        drain_lem fuel (done ++ c ∷ []) (release (dependents d c) ind q).1
          (release (dependents d c) ind q).0 next (omega (arith, longer, enough)) in
      (final, rest, rw longer at ends, holds)
