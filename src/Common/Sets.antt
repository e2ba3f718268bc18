-- ===== src/Common/Sets.antt =====
-- Lists of texts as sets: lists without repetitions, and counting their members.
use Prim.Native.Nat.{ℕ, suc, ◌+◌, ◌≤◌, ◌<◌}
use Prim.Native.String.{String}
use mathlib.Core.Path.{◌≡◌, refl, sym, ap, ◌∙◌, subst}
use mathlib.Core.Logic.{inl, inr}
use mathlib.Core.Bool.{Bool, true, false, not, ◌&&◌, ◌||◌}
use mathlib.Core.List.{List, [], ◌∷◌, ◌++◌}
use native.Mathlib.Omega.{arith}
use text.Mathlib.Text.{◌==◌}
use text.Mathlib.TextEquality.{eq_iff}
use text.Mathlib.TextPositions.{eq_refl}
use phylum.Common.Tests.{one_of, if◌then◌else◌, Bool-cases, distinct}
use phylum.Common.Lists.{length, filter, length-filter-le}

-- No text stands in the list twice.
abbrev pub Unique : List String → Type 0
Unique [] = Unit
Unique (x ∷ xs) = (one_of x xs ≡ false) × Unique xs

abbrev pub Within : List String → List String → Type 0
Within xs ys = (x : String) → one_of x xs ≡ true → one_of x ys ≡ true

pub one_of-append :
    (x : String) (xs ys : List String) → one_of x (xs ++ ys) ≡ (one_of x xs || one_of x ys)
one_of-append x [] ys = refl
one_of-append x (y ∷ xs) ys = rw (one_of-append x xs ys) (ground arith)

pub eq_sym : (x y : String) → (x == y) ≡ false → (y == x) ≡ false
eq_sym x y h = elim (Bool-cases (y == x)) [
  | inl e ↦ let same : y ≡ x = (eq_iff y x).0 e in absurd (ground (arith, eq_iff x y))
  | inr e ↦ e
]

pub one_of-distinct : (y : String) (xs : List String) → one_of y (distinct xs) ≡ one_of y xs
one_of-distinct y [] = refl
one_of-distinct y (x ∷ xs) = elim (Bool-cases (one_of x xs)) [
  | inr e ↦ rw e (ap (λ b. (y == x) || b) (one_of-distinct y xs))
  | inl e ↦ rw e (elim (Bool-cases (y == x)) [
    | inr f ↦ rw f (one_of-distinct y xs)
    | inl f ↦
        let same : y ≡ x = (eq_iff y x).0 f in
        rw f (one_of-distinct y xs ∙ ap (λ z. one_of z xs) same ∙ e)
  ])
]

pub Unique-distinct : (xs : List String) → Unique (distinct xs)
Unique-distinct [] = tt
Unique-distinct (x ∷ xs) = elim (Bool-cases (one_of x xs)) [
  | inl e ↦ rw e (Unique-distinct xs)
  | inr e ↦ rw e (one_of-distinct x xs ∙ e, Unique-distinct xs)
]

pub one_of-filter :
    (test : String → Bool) (x : String) (xs : List String)
    → one_of x (filter test xs) ≡ (one_of x xs && test x)
one_of-filter test x [] = refl
one_of-filter test x (y ∷ xs) =
    let rest = one_of-filter test x xs in
    elim (Bool-cases (x == y)) [
      | inr e ↦ rw e (elim (Bool-cases (test y)) [ inl f ↦ rw (f, e) rest | inr f ↦ rw f rest ])
      | inl e ↦
          let same : x ≡ y = (eq_iff x y).0 e in
          elim (Bool-cases (test y)) [
            | inl f ↦ rw (e, f) (ground (arith, ap test same))
            | inr f ↦ rw (e, f) (ground (arith, ap test same))
          ]
    ]

pub Unique-filter : (test : String → Bool) (xs : List String) → Unique xs → Unique (filter test xs)
Unique-filter test [] u = tt
Unique-filter test (x ∷ xs) u = elim (Bool-cases (test x)) [
  | inl e ↦ rw e (ground (arith, one_of-filter test x xs, u.0), Unique-filter test xs (u.1))
  | inr e ↦ rw e (Unique-filter test xs (u.1))
]

pub Unique-snoc :
    (xs : List String) (x : String) → Unique xs → one_of x xs ≡ false → Unique (xs ++ x ∷ [])
Unique-snoc [] x u h = (refl, tt)
Unique-snoc (y ∷ xs) x u h =
    let parts : ((x == y) ≡ false) × (one_of x xs ≡ false) = ground arith in
    (
      ground (arith, one_of-append y xs (x ∷ []), u.0, eq_sym x y (parts.0)),
      Unique-snoc xs x (u.1) (parts.1),
    )

abbrev remove : String → List String → List String
remove x = filter (λ y. not (y == x))

length-remove :
    (x : String) (xs : List String) → one_of x xs ≡ true → suc (length (remove x xs)) ≤ length xs
length-remove x [] h = absurd (ground arith)
length-remove x (y ∷ xs) h = elim (Bool-cases (x == y)) [
  | inl e ↦
      let same : x ≡ y = (eq_iff x y).0 e in
      ground (arith, eq_iff x y, eq_iff y x, length-filter-le (λ z. not (z == x)) xs)
  | inr e ↦ ground (arith, length-remove x xs)
]

-- A set within another has no more members.
pub length-Within : (xs ys : List String) → Unique xs → Within xs ys → length xs ≤ length ys
length-Within [] ys u w = omega arith
length-Within (x ∷ xs) ys u w =
    let there = w x (rw (eq_refl x) refl) in
    let shorter = length-Within xs (remove x ys) (u.1) (λ z h. kept z h) in
    omega (arith, length-remove x ys there)
  where
    in_tail : (z : String) → one_of z xs ≡ true → one_of z (x ∷ xs) ≡ true
    in_tail z h = rw h (ground arith)

    kept : (z : String) → one_of z xs ≡ true → one_of z (remove x ys) ≡ true
    kept z h = elim (Bool-cases (z == x)) [
      | inl e ↦
          let same : z ≡ x = (eq_iff z x).0 e in
          absurd (ground (arith, ap (λ (k : String). one_of k xs) same, u.0))
      | inr e ↦
          let there = w z (in_tail z h) in
          one_of-filter (λ y. not (y == x)) z ys ∙ rw (there, e) refl
    ]

-- A set that has as many members as one that it is within has all of them.
pub Within-full :
    (xs ys : List String) → Unique xs → Within xs ys → length ys ≤ length xs → Within ys xs
Within-full xs ys u w long y h = elim (Bool-cases (one_of y xs)) [
  | inl e ↦ e
  | inr e ↦ absurd (let longer = length-Within (y ∷ xs) ys (e, u) more in omega arith)
]
  where
    more : Within (y ∷ xs) ys
    more z k = elim (Bool-cases (z == y)) [
      | inl e ↦ let same : z ≡ y = (eq_iff z y).0 e in subst (λ v. one_of v ys ≡ true) (sym same) h
      | inr e ↦ w z (ground arith)
    ]

pub Unique-append :
    (xs ys : List String)
    → Unique xs
    → Unique ys
    → ((x : String) → one_of x xs ≡ true → one_of x ys ≡ false)
    → Unique (xs ++ ys)
Unique-append [] ys u v apart = v
Unique-append (x ∷ xs) ys u v apart = (
  one_of-append x xs ys ∙ rw (u.0, apart x (rw (eq_refl x) refl)) refl,
  Unique-append xs ys (u.1) v (λ y h. apart y (rw h (ground arith))),
)

pub Unique-left : (xs ys : List String) → Unique (xs ++ ys) → Unique xs
Unique-left [] ys u = tt
Unique-left (x ∷ xs) ys u = (ground (arith, u.0, one_of-append x xs ys), Unique-left xs ys (u.1))

-- A member of the second part is not in the first.
pub Unique-apart :
    (xs ys : List String) (x : String)
    → Unique (xs ++ ys)
    → one_of x ys ≡ true
    → one_of x xs ≡ false
Unique-apart [] ys x u h = refl
Unique-apart (y ∷ xs) ys x u h = elim (Bool-cases (x == y)) [
  | inl e ↦
      let same : x ≡ y = (eq_iff x y).0 e in
      absurd (ground (arith, u.0, one_of-append y xs ys, ap (λ (z : String). one_of z ys) same))
  | inr e ↦ rw e (Unique-apart xs ys x (u.1) h)
]

pub filter_same :
    (p q : String → Bool) (xs : List String)
    → ((x : String) → one_of x xs ≡ true → p x ≡ q x)
    → filter p xs ≡ filter q xs
filter_same p q [] h = refl
filter_same p q (x ∷ xs) h =
    rw (h x (rw (eq_refl x) refl), filter_same p q xs (λ y k. h y (rw k (ground arith)))) refl

-- Where the place of a member is, from the front.
pub index_of : String → List String → ℕ
index_of x [] = 0
index_of x (y ∷ ys) = if x == y then 0 else suc (index_of x ys)

pub index_of-front :
    (x : String) (xs ys : List String) → one_of x xs ≡ true → index_of x (xs ++ ys) < length xs
unfolding index_of
index_of-front x [] ys h = absurd (ground arith)
index_of-front x (y ∷ xs) ys h = elim (Bool-cases (x == y)) [
  | inl e ↦ rw e (omega arith)
  | inr e ↦ rw e (omega (arith, index_of-front x xs ys (rw e at h)))
]

pub index_of-at :
    (x : String) (xs ys : List String) → one_of x xs ≡ false → index_of x (xs ++ x ∷ ys) ≡ length xs
unfolding index_of
index_of-at x [] ys h = rw (eq_refl x) refl
index_of-at x (y ∷ xs) ys h = elim (Bool-cases (x == y)) [
  | inl e ↦ absurd (ground arith)
  | inr e ↦ rw e (ap suc (index_of-at x xs ys (rw e at h)))
]

pub index_of-append :
    (x : String) (xs ys : List String) → one_of x xs ≡ true → index_of x (xs ++ ys) ≡ index_of x xs
unfolding index_of
index_of-append x [] ys h = absurd (ground arith)
index_of-append x (y ∷ xs) ys h = elim (Bool-cases (x == y)) [
  | inl e ↦ rw e refl
  | inr e ↦ rw e (ap suc (index_of-append x xs ys (rw e at h)))
]

-- The number of members of a set that are not in `done`.
abbrev pub left_over : List String → List String → ℕ
left_over done xs = length (filter (λ x. not (one_of x done)) xs)

pub left_over-zero : (done xs : List String) → left_over done xs ≡ 0 → Within xs done
left_over-zero done [] h x k = absurd (ground arith)
left_over-zero done (y ∷ xs) h x k = elim (Bool-cases (one_of y done)) [
  | inr e ↦ absurd (let h' : suc (left_over done xs) ≡ 0 = rw e at h in omega arith)
  | inl e ↦ elim (Bool-cases (x == y)) [
    | inl f ↦ let same : x ≡ y = (eq_iff x y).0 f in subst (λ v. one_of v done ≡ true) (sym same) e
    | inr f ↦ left_over-zero done xs (rw e at h) x (rw f at k)
  ]
]

pub zero-left_over : (done xs : List String) → Within xs done → left_over done xs ≡ 0
zero-left_over done [] w = refl
zero-left_over done (y ∷ xs) w =
    rw (w y (rw (eq_refl y) refl)) (zero-left_over done xs (λ x k. w x (rw k (ground arith))))

-- One more text is done: it no longer counts.
pub left_over-step :
    (done : List String) (c : String) (xs : List String)
    → Unique xs
    → one_of c done ≡ false
    → left_over done xs ≡ left_over (done ++ c ∷ []) xs + (if one_of c xs then 1 else 0)
left_over-step done c [] u h = refl
left_over-step done c (x ∷ xs) u h =
    let rest = left_over-step done c xs (u.1) h in
    elim (Bool-cases (c == x)) [
      | inl e ↦
          let same : c ≡ x = (eq_iff c x).0 e in
          let fresh : one_of x done ≡ false = subst (λ v. one_of v done ≡ false) same h in
          let now : one_of x (done ++ c ∷ []) ≡ true =
            one_of-append x done (c ∷ []) ∙ rw (fresh, same, eq_refl x) refl in
          let once : one_of c xs ≡ false = subst (λ v. one_of v xs ≡ false) (sym same) (u.0) in
          rw (fresh, now, e)
            (omega (arith, rest, ap {B = ℕ} (λ (b : Bool). if b then 1 else 0) once))
      | inr e ↦
          let kept : one_of x (done ++ c ∷ []) ≡ one_of x done =
            one_of-append x done (c ∷ []) ∙ rw (eq_sym c x e) (ground arith) in
          elim (Bool-cases (one_of x done)) [
            | inl f ↦ rw (kept, f, e) rest
            | inr f ↦ rw (kept, f, e) (omega (arith, rest))
          ]
    ]
