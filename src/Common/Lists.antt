-- ===== src/Common/Lists.antt =====
-- Lists measured and indexed by native numbers, under the library's names, filters by a Boolean
-- test, and predicates on lists by recursion.
use Prim.Native.Nat.{ℕ, zero, suc, ◌+◌, ◌-◌, ◌≤◌, min}
use mathlib.Core.Path.{◌≡◌, refl, ap, subst}
use mathlib.Core.Logic.{◌≢◌, ◌⊎◌, inl, inr}
use mathlib.Core.Bool.{Bool, true, false, ◌&&◌, ◌||◌}
use mathlib.Core.List.{List, [], ◌∷◌, ◌++◌}
use mathlib.Core.Option.{Option, none, some}
use native.Mathlib.Omega.{arith}
use phylum.Common.Tests.{if◌then◌else◌, Bool-cases}

module _ {ℓ} {A : Type ℓ} where
  abbrev pub length : List A → ℕ
  length [] = 0
  length (x ∷ xs) = suc (length xs)

  abbrev pub get_elem? : List A → ℕ → Option A
  get_elem? [] i = none
  get_elem? (x ∷ xs) zero = some x
  get_elem? (x ∷ xs) (suc i) = get_elem? xs i

  abbrev pub head? : List A → Option A
  head? [] = none
  head? (x ∷ xs) = some x

  abbrev pub take : ℕ → List A → List A
  take zero xs = []
  take (suc n) [] = []
  take (suc n) (x ∷ xs) = x ∷ take n xs

  abbrev pub drop : ℕ → List A → List A
  drop zero xs = xs
  drop (suc n) [] = []
  drop (suc n) (x ∷ xs) = drop n xs

  pub length-append : (xs ys : List A) → length (xs ++ ys) ≡ length xs + length ys
  length-append [] ys = omega arith
  length-append (x ∷ xs) ys = omega (arith, length-append xs ys)

  pub length-drop : (n : ℕ) (xs : List A) → length (drop n xs) ≡ length xs - n
  length-drop zero xs = omega arith
  length-drop (suc n) [] = omega arith
  length-drop (suc n) (x ∷ xs) = omega (arith, length-drop n xs)

  pub length-take : (n : ℕ) (xs : List A) → length (take n xs) ≡ min n (length xs)
  length-take zero xs = omega arith
  length-take (suc n) [] = omega arith
  length-take (suc n) (x ∷ xs) = omega (arith, length-take n xs)

  -- `[x for x in xs if p(x)]`.
  abbrev pub filter : (A → Bool) → List A → List A
  filter p [] = []
  filter p (x ∷ xs) = let rest = filter p xs in if p x then x ∷ rest else rest

  -- `any(p(x) for x in xs)` and `all(p(x) for x in xs)`.
  abbrev pub any : (A → Bool) → List A → Bool
  any p [] = false
  any p (x ∷ xs) = p x || any p xs

  abbrev pub all : (A → Bool) → List A → Bool
  all p [] = true
  all p (x ∷ xs) = p x && all p xs

  -- `next((x for x in xs if p(x)), None)`.
  abbrev pub find? : (A → Bool) → List A → Option A
  find? p [] = none
  find? p (x ∷ xs) = let rest = find? p xs in if p x then some x else rest

-- Every item satisfies `P`; some item does; `x` stands in the list.
abbrev pub All {ℓ κ} : {A : Type ℓ} → (A → Type κ) → List A → Type κ
All P [] = Unit
All P (x ∷ xs) = P x × All P xs

abbrev pub Any {ℓ} : {A : Type ℓ} → (A → Type 0) → List A → Type 0
Any P [] = ⊥
Any P (x ∷ xs) = P x ⊎ Any P xs

abbrev pub In : {A : Type 0} → A → List A → Type 0
In a xs = Any (λ x. x ≡ a) xs

module _ {ℓ} {A : Type ℓ} where
  pub All-append {κ} : (P : A → Type κ) (xs ys : List A) → All P xs → All P ys → All P (xs ++ ys)
  All-append P [] ys hx hy = hy
  All-append P (x ∷ xs) ys hx hy = (hx.0, All-append P xs ys hx.1 hy)

  pub All-append_inv {κ} :
      (P : A → Type κ) (xs ys : List A) → All P (xs ++ ys) → All P xs × All P ys
  All-append_inv P [] ys h = (tt, h)
  All-append_inv P (x ∷ xs) ys (h, hs) =
      let rest = All-append_inv P xs ys hs in ((h, rest.0), rest.1)

  pub All-map {κ μ} :
      (P : A → Type κ) (Q : A → Type μ) (xs : List A) → ((x : A) → P x → Q x) → All P xs → All Q xs
  All-map P Q [] f h = tt
  All-map P Q (x ∷ xs) f h = (f x h.0, All-map P Q xs f h.1)

  pub length-filter-le : (p : A → Bool) (xs : List A) → length (filter p xs) ≤ length xs
  length-filter-le p [] = omega arith
  length-filter-le p (x ∷ xs) = ground (arith, length-filter-le p xs)

  -- What a filter keeps passed the test.
  pub filter-All : (p : A → Bool) (xs : List A) → All (λ x. p x ≡ true) (filter p xs)
  filter-All p [] = tt
  filter-All p (x ∷ xs) = ground (arith, filter-All p xs)

module _ {A : Type 0} where
  -- The item that `find?` returns passed the test and stands in the list.
  pub find?-In : (p : A → Bool) (xs : List A) (a : A) → find? p xs ≡ some a → (p a ≡ true) × In a xs
  find?-In p [] a h = cc
  find?-In p (x ∷ xs) a h = ground (arith, find?-In p xs a)

-- Two lists of one length whose items are related place by place.
abbrev pub Both {ℓ κ} : {A : Type ℓ} {B : Type κ} → (A → B → Type 0) → List A → List B → Type 0
Both P [] [] = Unit
Both P [] (y ∷ ys) = ⊥
Both P (x ∷ xs) [] = ⊥
Both P (x ∷ xs) (y ∷ ys) = P x y × Both P xs ys

module _ {A : Type 0} where
  All-In_cons : (x : A) (xs ys : List A) → All (λ y. In y xs) ys → All (λ y. In y (x ∷ xs)) ys
  All-In_cons x xs ys h = All-map _ _ ys (λ y m. inr m) h

  -- Every item stands in its list.
  pub All-In_self : (xs : List A) → All (λ x. In x xs) xs
  All-In_self [] = tt
  All-In_self (x ∷ xs) = (inl refl, All-In_cons x xs xs (All-In_self xs))

  pub filter-All_of :
      (P : A → Type 0) (p : A → Bool) (xs : List A)
      → All P xs
      → All (λ x. P x × (p x ≡ true)) (filter p xs)
  filter-All_of P p [] h = tt
  filter-All_of P p (x ∷ xs) h = elim (Bool-cases (p x)) [
    | inl e ↦ rw e ((h.0, e), filter-All_of P p xs h.1)
    | inr e ↦ rw e (filter-All_of P p xs h.1)
  ]

  -- What holds of every item that a filter keeps holds of every item that passes its test.
  pub filter-All_inv :
      (P : A → Type 0) (p : A → Bool) (xs : List A)
      → All P (filter p xs)
      → All (λ x. (p x ≡ false) ⊎ P x) xs
  filter-All_inv P p [] h = tt
  filter-All_inv P p (x ∷ xs) h = elim (Bool-cases (p x)) [
    | inl e ↦
        let h' : P x × All P (filter p xs) = rw e at h in (inr h'.0, filter-All_inv P p xs h'.1)
    | inr e ↦ (inl e, filter-All_inv P p xs (rw e at h))
  ]

-- `xs[i] = change(xs[i])`, and nothing out of range.
module _ {ℓ} {A : Type ℓ} where
  abbrev pub modify : ℕ → (A → A) → List A → List A
  modify i change [] = []
  modify zero change (x ∷ xs) = change x ∷ xs
  modify (suc i) change (x ∷ xs) = x ∷ modify i change xs

  pub length-modify :
      (i : ℕ) (change : A → A) (xs : List A) → length (modify i change xs) ≡ length xs
  length-modify i change [] = refl
  length-modify zero change (x ∷ xs) = refl
  length-modify (suc i) change (x ∷ xs) = ap suc (length-modify i change xs)

  pub get_elem?-modify_other :
      (i j : ℕ) (change : A → A) (xs : List A)
      → i ≢ j
      → get_elem? (modify i change xs) j ≡ get_elem? xs j
  get_elem?-modify_other i j change [] h = refl
  get_elem?-modify_other zero zero change (x ∷ xs) h = absurd (h refl)
  get_elem?-modify_other zero (suc j) change (x ∷ xs) h = refl
  get_elem?-modify_other (suc i) zero change (x ∷ xs) h = refl
  get_elem?-modify_other (suc i) (suc j) change (x ∷ xs) h =
      get_elem?-modify_other i j change xs (λ e. h (ap suc e))

  pub get_elem?-modify_same :
      (i : ℕ) (change : A → A) (xs : List A) (x : A)
      → get_elem? xs i ≡ some x
      → get_elem? (modify i change xs) i ≡ some (change x)
  get_elem?-modify_same i change [] x h = absurd (ground arith)
  get_elem?-modify_same zero change (y ∷ xs) x h =
      ap {B = Option A} (λ o. elim o [ none ↦ none | some z ↦ some (change z) ]) h
  get_elem?-modify_same (suc i) change (y ∷ xs) x h = get_elem?-modify_same i change xs x h

  pub modify-absent :
      (i : ℕ) (change : A → A) (xs : List A) → get_elem? xs i ≡ none → modify i change xs ≡ xs
  modify-absent i change [] h = refl
  modify-absent zero change (x ∷ xs) h = absurd (ground arith)
  modify-absent (suc i) change (x ∷ xs) h = ap (λ ys. x ∷ ys) (modify-absent i change xs h)

  -- A part of a list in which all satisfy `P`, and what is left without it.
  pub All-middle {κ} :
      (P : A → Type κ) (xs : List A) (y : A) (ys : List A)
      → All P (xs ++ y ∷ ys)
      → P y × All P (xs ++ ys)
  All-middle P [] y ys h = h
  All-middle P (x ∷ xs) y ys h =
      let (here, others) = All-middle P xs y ys h.1 in (here, (h.0, others))

pub In-All : {A : Type 0} (P : A → Type 0) (x : A) (xs : List A) → In x xs → All P xs → P x
In-All P x [] m h = absurd m
In-All P x (y ∷ xs) (inl e) h = subst P e h.0
In-All P x (y ∷ xs) (inr m) h = In-All P x xs m h.1
