-- ===== src/Common/Sort.antt =====
-- `list.sort(key=…)`: a stable sort, as insertion sort by a Boolean order on the items.
use mathlib.Core.Path.{◌≡◌}
use mathlib.Core.Logic.{inl, inr, ◌↔◌, ◌≢◌}
use mathlib.Core.Bool.{Bool, true, false}
use mathlib.Core.List.{List, [], ◌∷◌, Perm}
use mathlib.Core.List.Perm
use native.Mathlib.Omega.{arith}
use phylum.Common.Tests.{if◌then◌else◌, Bool-cases}
use phylum.Common.Lists.{All, All-map}

module _ {ℓ} {A : Type ℓ} where
  -- `le a b`: `a` may stand before `b`.
  unfoldable pub insert : (A → A → Bool) → A → List A → List A
  insert le a [] = a ∷ []
  insert le a (x ∷ xs) = let rest = insert le a xs in if le a x then a ∷ x ∷ xs else x ∷ rest

  -- Equal items keep their order: an item is put before those that follow it.
  unfoldable pub sort : (A → A → Bool) → List A → List A
  unfolding insert
  sort le [] = []
  sort le (x ∷ xs) = insert le x (sort le xs)

  abbrev pub IsSorted : (A → A → Bool) → List A → Type 0
  IsSorted le [] = Unit
  IsSorted le (x ∷ xs) = All (λ y. le x y ≡ true) xs × IsSorted le xs

  pub insert-All {κ} :
      (le : A → A → Bool) (P : A → Type κ) (a : A) (xs : List A)
      → P a
      → All P xs
      → All P (insert le a xs)
  unfolding insert
  insert-All le P a [] pa h = (pa, tt)
  insert-All le P a (x ∷ xs) pa h = elim (Bool-cases (le a x)) [
    | inl e ↦ rw e (pa, h)
    | inr e ↦ rw e (h.0, insert-All le P a xs pa h.1)
  ]

  pub sort-All {κ} :
      (le : A → A → Bool) (P : A → Type κ) (xs : List A) → All P xs → All P (sort le xs)
  unfolding sort
  sort-All le P [] h = tt
  sort-All le P (x ∷ xs) h = insert-All le P x (sort le xs) h.0 (sort-All le P xs h.1)

  insert-All_inv {κ} :
      (le : A → A → Bool) (P : A → Type κ) (a : A) (xs : List A)
      → All P (insert le a xs)
      → P a × All P xs
  unfolding insert
  insert-All_inv le P a [] h = h
  insert-All_inv le P a (x ∷ xs) h = elim (Bool-cases (le a x)) [
    | inl e ↦ rw e at h
    | inr e ↦
        let h' : P x × All P (insert le a xs) = rw e at h in
        let (pa, later) = insert-All_inv le P a xs h'.1 in (pa, (h'.0, later))
  ]

  -- What holds of every item of the sorted list holds of every item of the list.
  pub sort-All_inv {κ} :
      (le : A → A → Bool) (P : A → Type κ) (xs : List A) → All P (sort le xs) → All P xs
  unfolding sort
  sort-All_inv le P [] h = tt
  sort-All_inv le P (x ∷ xs) h =
      let (here, later) = insert-All_inv le P x (sort le xs) h in (here, sort-All_inv le P xs later)

  insert-ne-nil : (le : A → A → Bool) (a : A) (xs : List A) → insert le a xs ≢ []
  unfolding insert
  insert-ne-nil le a [] = ground arith
  insert-ne-nil le a (x ∷ xs) = ground arith

  pub insert-perm : (le : A → A → Bool) (a : A) (xs : List A) → Perm (insert le a xs) (a ∷ xs)
  unfolding insert
  insert-perm le a [] = Perm.refl _
  insert-perm le a (x ∷ xs) = elim (Bool-cases (le a x)) [
    | inl e ↦ rw e (Perm.refl _)
    | inr e ↦ rw e (Perm.trans (Perm.cons x (insert-perm le a xs)) (Perm.swap a x xs))
  ]

  sort-nil : (le : A → A → Bool) (xs : List A) → sort le xs ≡ [] → xs ≡ []
  unfolding sort
  sort-nil le [] h = h
  sort-nil le (x ∷ xs) h = absurd (insert-ne-nil le x (sort le xs) h)

  -- A sorted list is empty only where the list was.
  pub sort-nil_iff : (le : A → A → Bool) (xs : List A) → (sort le xs ≡ []) ↔ (xs ≡ [])
  unfolding sort
  sort-nil_iff le xs = (sort-nil le xs, λ e. rw e)

  -- Sorting rearranges the list.
  pub sort-perm : (le : A → A → Bool) (xs : List A) → Perm (sort le xs) xs
  unfolding sort
  sort-perm le [] = Perm.refl _
  sort-perm le (x ∷ xs) = Perm.trans (insert-perm le x (sort le xs)) (Perm.cons x (sort-perm le xs))

  module _ (le : A → A → Bool) (total : (a b : A) → le a b ≡ false → le b a ≡ true)
      (trans : (a b c : A) → le a b ≡ true → le b c ≡ true → le a c ≡ true) where
    pub insert-IsSorted : (a : A) (xs : List A) → IsSorted le xs → IsSorted le (insert le a xs)
    unfolding insert
    insert-IsSorted a [] h = (tt, tt)
    insert-IsSorted a (x ∷ xs) h = elim (Bool-cases (le a x)) [
      | inl e ↦ rw e ((e, All-map _ _ xs (λ y p. trans a x y e p) h.0), h)
      | inr e ↦
          rw e (insert-All le (λ y. le x y ≡ true) a xs (total a x e) h.0, insert-IsSorted a xs h.1)
    ]

    -- With a total, transitive order the result is sorted.
    pub sort-IsSorted : (xs : List A) → IsSorted le (sort le xs)
    unfolding sort
    sort-IsSorted [] = tt
    sort-IsSorted (x ∷ xs) = insert-IsSorted x (sort le xs) (sort-IsSorted xs)
