-- ===== src/TaskGraph/Dependencies.antt =====
-- The dictionary of the dependencies that `validate` reads: its names, its sets and its degrees.
use phylum.Common.{
  ℕ, suc, ◌<◌, String, Bool, true, false, Option, none, some, List, [], ◌∷◌, ◌||◌, ◌==◌,
  if◌then◌else◌, map, length, any, one_of, distinct, is_some, ◌≡◌, refl, ap, ◌∙◌, arith, inl, inr,
  eq_iff, eq_refl, Bool-cases, Option-cases,
}
use phylum.Common.Dict.{has_key-one_of, Dict, get, put, get-put, keys}
use phylum.Common.Sets.{eq_sym, Unique, Unique-distinct, left_over}
use phylum.TaskGraph.{Task}
use phylum.TaskGraph.Validation.{add_dependencies, depends, degree, is_missing}

one_of-put :
    {V : Type 0} (x k : String) (v : V) (d : Dict V)
    → one_of x (keys (put k v d)) ≡ (one_of x (keys d) || x == k)
one_of-put x k v d = ground (
  arith,
  has_key-one_of x (put k v d),
  has_key-one_of x d,
  get-put k x v d,
  eq_iff k x,
  eq_iff x k,
)

Unique-put :
    {V : Type 0} (k : String) (v : V) (d : Dict V) → Unique (keys d) → Unique (keys (put k v d))
unfolding put
Unique-put k v [] u = (refl, tt)
Unique-put k v ((j, w) ∷ d) u = elim (Bool-cases (j == k)) [
  | inl e ↦ rw e u
  | inr e ↦ rw e (one_of-put j k v d ∙ rw (e, u.0) refl, Unique-put k v d (u.1))
]

pub Unique-add_dependencies :
    (ts : List Task) (d : Dict (List String))
    → Unique (keys d)
    → Unique (keys (add_dependencies d ts))
unfolding add_dependencies
Unique-add_dependencies [] d u = u
Unique-add_dependencies (t ∷ ts) d u = Unique-add_dependencies ts _ (Unique-put t.id _ d u)

depends-put :
    (k j : String) (v : List String) (d : Dict (List String))
    → depends (put k v d) j ≡ (if k == j then v else depends d j)
unfolding depends
depends-put k j v d =
    ap (λ o. elim o [ none ↦ [] | some m ↦ m ]) (get-put k j v d)
    ∙ elim (Bool-cases (k == j)) [ inl e ↦ rw e refl | inr e ↦ rw e refl ]

pub Unique-depends :
    (ts : List Task) (d : Dict (List String))
    → ((k : String) → Unique (depends d k))
    → (k : String) → Unique (depends (add_dependencies d ts) k)
unfolding add_dependencies
Unique-depends [] d u k = u k
Unique-depends (t ∷ ts) d u k = Unique-depends ts (put t.id (distinct t.depends_on) d) added k
  where
    added : (j : String) → Unique (depends (put t.id (distinct t.depends_on) d) j)
    added j = rw (depends-put t.id j (distinct t.depends_on) d) (elim (Bool-cases (t.id == j)) [
      | inl e ↦ rw e (Unique-distinct t.depends_on)
      | inr e ↦ rw e (u j)
    ])

pub depends-absent :
    (d : Dict (List String)) (k : String) → one_of k (keys d) ≡ false → depends d k ≡ []
unfolding depends get
depends-absent d k h = elim (Option-cases (get k d)) [
  | inl e ↦ ap (λ o. elim o [ none ↦ [] | some m ↦ m ]) e
  | inr (v, e) ↦ absurd (
      ground
        (arith, h, has_key-one_of k d, ap {B = Bool} (λ (o : Option (List String)). is_some o) e))
]

any-false :
    (p : String → Bool) (xs : List String)
    → any p xs ≡ false
    → (x : String) → one_of x xs ≡ true
    → p x ≡ false
any-false p [] h x k = absurd (ground arith)
any-false p (y ∷ xs) h x k = elim (Bool-cases (x == y)) [
  | inl e ↦ let same : x ≡ y = (eq_iff x y).0 e in ground (arith, h, ap p same)
  | inr e ↦ any-false p xs (ground arith) x (rw e at k)
]

false-any :
    (p : String → Bool) (xs : List String)
    → ((x : String) → one_of x xs ≡ true → p x ≡ false)
    → any p xs ≡ false
false-any p [] h = refl
false-any p (y ∷ xs) h =
    rw (h y (rw (eq_refl y) refl)) (false-any p xs (λ x k. h x (rw k (ground arith))))

-- Every dependency is a task, and the tasks have ranks that every dependency is below.
pub record IsAcyclic (d : Dict (List String)) : Type 0 where
  pub known : (k x : String) → one_of x (depends d k) ≡ true → one_of x (keys d) ≡ true
  pub rank : String → ℕ
  pub falls : (k x : String) → one_of x (depends d k) ≡ true → rank x < rank k

pub depends-known :
    (d : Dict (List String)) (k x : String)
    → one_of x (depends d k) ≡ true
    → one_of k (keys d) ≡ true
depends-known d k x h = elim (Bool-cases (one_of k (keys d))) [
  | inl e ↦ e
  | inr e ↦
      absurd
        (ground (arith, h, ap {B = Bool} (λ (v : List String). one_of x v) (depends-absent d k e)))
]

pub is_missing-known :
    (d : Dict (List String))
    → is_missing d ≡ false
    → (k x : String) → one_of x (depends d k) ≡ true
    → one_of x (keys d) ≡ true
unfolding is_missing
is_missing-known d h k x dep =
    let inner = any-false _ (keys d) h k (depends-known d k x dep) in
    ground (arith, any-false _ (depends d k) inner x dep, has_key-one_of x d)

pub known-is_missing :
    (d : Dict (List String))
    → ((k x : String) → one_of x (depends d k) ≡ true → one_of x (keys d) ≡ true)
    → is_missing d ≡ false
unfolding is_missing
known-is_missing d h =
    false-any _ (keys d)
      (λ k m. false-any _ (depends d k) (λ x dep. ground (arith, h k x dep, has_key-one_of x d)))

degree-cons :
    (j k : String) (n : ℕ) (ind : Dict ℕ)
    → degree ((j, n) ∷ ind) k ≡ (if j == k then n else degree ind k)
unfolding degree get
degree-cons j k n ind = elim (Bool-cases (j == k)) [
  | inl e ↦ rw (e, degree) refl
  | inr e ↦ rw (e, degree) refl
]

pub degree-table :
    (f : String → ℕ) (ks : List String) (k : String)
    → degree (map (λ k. (k, f k)) ks) k ≡ (if one_of k ks then f k else 0)
unfolding degree get
degree-table f [] k = refl
degree-table f (j ∷ ks) k =
    degree-cons j k (f j) (map (λ k. (k, f k)) ks) ∙ elim (Bool-cases (k == j)) [
      | inl e ↦ let same : k ≡ j = (eq_iff k j).0 e in rw (e, same, eq_refl j) refl
      | inr e ↦ rw (e, eq_sym k j e) (degree-table f ks k)
    ]

pub left_over-all : (xs : List String) → left_over [] xs ≡ length xs
left_over-all [] = refl
left_over-all (x ∷ xs) = ap suc (left_over-all xs)
