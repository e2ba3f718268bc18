-- ===== src/Common/Select.antt =====
-- `SELECT … WHERE test ORDER BY … LIMIT 1`: the first item by a total order of those that pass a test.
use mathlib.Core.Path.{◌≡◌, refl, sym, subst}
use mathlib.Core.Logic.{◌⊎◌, inl, inr}
use mathlib.Core.Bool.{Bool, true, false}
use mathlib.Core.Option.{none, some}
use mathlib.Core.List.{List, [], ◌∷◌}
use native.Mathlib.Omega.{arith}
use phylum.Common.Tests.{Bool-cases}
use phylum.Common.Lists.{
  All, All-map, In, head?, filter, filter-All_of, filter-All_inv, All-In_self,
}
use phylum.Common.Sort.{sort, IsSorted, sort-All, sort-All_inv, sort-IsSorted, sort-nil_iff}

-- `x` stands in the list and passes the test, and no item that passes it comes before `x`.
pub record IsFirst {A : Type 0} (le : A → A → Bool) (test : A → Bool) (xs : List A) (x : A)
    : Type 0 where
  pub listed : In x xs
  pub allowed : test x ≡ true
  pub least : All (λ y. (test y ≡ false) ⊎ (le x y ≡ true)) xs

module _ {A : Type 0} (le : A → A → Bool) (total : (a b : A) → le a b ≡ false → le b a ≡ true)
    (trans : (a b c : A) → le a b ≡ true → le b c ≡ true → le a c ≡ true) where
  le_refl : (a : A) → le a a ≡ true
  le_refl a = elim (Bool-cases (le a a)) [ inl e ↦ e | inr e ↦ total a a e ]

  head_All : (P : A → Type 0) (xs : List A) (x : A) → head? xs ≡ some x → All P xs → P x
  head_All P [] x h a = absurd (ground arith)
  head_All P (y ∷ xs) x h a = let same : y ≡ x = ground arith in rw same at (a.0)

  head_least :
      (xs : List A) (x : A) → head? xs ≡ some x → IsSorted le xs → All (λ y. le x y ≡ true) xs
  head_least [] x h s = absurd (ground arith)
  head_least (y ∷ xs) x h s =
      let same : y ≡ x = ground arith in
      subst (λ z. All (λ a. le z a ≡ true) (y ∷ xs)) same (le_refl y, s.0)

  pub head-IsFirst :
      (test : A → Bool) (xs : List A) (x : A)
      → head? (sort le (filter test xs)) ≡ some x
      → IsFirst le test xs x
  head-IsFirst test xs x h =
      let chosen : In x xs × (test x ≡ true) =
        head_All _ (sort le (filter test xs)) x h (
          sort-All le _ (filter test xs) (filter-All_of (λ y. In y xs) test xs (All-In_self xs))) in
      record {
        listed = chosen.0;
        allowed = chosen.1;
        least =
            filter-All_inv (λ y. le x y ≡ true) test xs
              (sort-All_inv le _ (filter test xs) (
                head_least (sort le (filter test xs)) x h
                  (sort-IsSorted le total trans (filter test xs))));
      }

  nil_head : (xs : List A) → head? xs ≡ none → xs ≡ []
  nil_head [] h = refl
  nil_head (x ∷ xs) h = absurd (ground arith)

  -- Where none is chosen, none passes the test.
  pub head_All_false :
      (test : A → Bool) (xs : List A)
      → head? (sort le (filter test xs)) ≡ none
      → All (λ y. test y ≡ false) xs
  head_All_false test xs h =
      let empty : filter test xs ≡ [] = (sort-nil_iff le (filter test xs)).0 (nil_head _ h) in
      All-map _ _ xs (λ y k. elim k [ inl e ↦ e | inr e ↦ absurd e ])
        (filter-All_inv (λ y. ⊥) test xs (subst (All (λ y. ⊥)) (sym empty) tt))
