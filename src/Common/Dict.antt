-- ===== src/Common/Dict.antt =====
-- A Python `dict` with text keys, as the list of its entries in insertion order. Assigning a
-- key that is there keeps its position.
use Prim.Native.String.{String}
use mathlib.Core.Path.{◌≡◌, refl, sym, ap, ◌∙◌}
use mathlib.Core.Bool.{Bool, false}
use mathlib.Core.Option.{Option, none, some}
use mathlib.Core.List.{List, [], ◌∷◌, map}
use native.Mathlib.Omega.{arith}
use text.Mathlib.Text.{◌==◌}
use text.Mathlib.TextEquality.{eq_iff}
use text.Mathlib.TextPositions.{eq_refl}
use mathlib.Core.Logic.{inl, inr}
use phylum.Common.Lists.{All}
use phylum.Common.Sets.{Unique}
use phylum.Common.Tests.{Bool-cases, Option-cases, if◌then◌else◌, is_some, one_of}

abbrev pub Dict {ℓ} : Type ℓ → Type ℓ
Dict V = List (String × V)

module _ {ℓ} {V : Type ℓ} where
  -- `d.get(k)`.
  unfoldable pub get : String → Dict V → Option V
  get k [] = none
  get k ((j, v) ∷ d) = if j == k then some v else get k d

  -- `k in d`.
  abbrev pub has_key : String → Dict V → Bool
  has_key k d = is_some (get k d)

  -- `d[k] = v`.
  unfoldable pub put : String → V → Dict V → Dict V
  put k v [] = (k, v) ∷ []
  put k v ((j, w) ∷ d) = if j == k then (j, v) ∷ d else (j, w) ∷ put k v d

  abbrev pub keys : Dict V → List String
  keys d = map (λ e. e.0) d

  pub get-put :
      (k j : String) (v : V) (d : Dict V) → get j (put k v d) ≡ (if k == j then some v else get j d)
  unfolding get put
  get-put k j v [] = refl
  get-put k j v ((i, w) ∷ d) = ground (arith, eq_iff k j, eq_iff i k, eq_iff i j, get-put k j v d)

  -- What holds of every entry is kept by an assignment for which it holds.
  pub put-All {κ} :
      (P : String × V → Type κ) (k : String) (v : V) (d : Dict V)
      → P (k, v)
      → All P d
      → All P (put k v d)
  unfolding put
  put-All P k v [] new h = (new, tt)
  put-All P k v ((j, w) ∷ d) new h = elim (Bool-cases (j == k)) [
    | inl e ↦ rw e (let same : j ≡ k = (eq_iff j k).0 e in rw same new, h.1)
    | inr e ↦ rw e (h.0, put-All P k v d new h.1)
  ]

-- `k in d` as membership in the list of the names.
pub has_key-one_of : {V : Type 0} (k : String) (d : Dict V) → has_key k d ≡ one_of k (keys d)
unfolding get
has_key-one_of k [] = refl
has_key-one_of k ((j, v) ∷ d) = elim (Bool-cases (j == k)) [
  | inl e ↦ let same : j ≡ k = (eq_iff j k).0 e in rw e (rw (same, eq_refl k) refl)
  | inr e ↦ ground (arith, eq_iff j k, eq_iff k j, has_key-one_of k d)
]

-- `old.update(new)`.
unfoldable pub merge : {V : Type 0} → Dict V → Dict V → Dict V
unfolding put
merge old [] = old
merge old ((k, v) ∷ new) = merge (put k v old) new

none_of : {V : Type 0} (o : Option V) → is_some o ≡ false → o ≡ none
none_of none h = refl
none_of (some w) h = absurd (ground arith)

get-cons :
    {V : Type 0} (k j : String) (v : V) (d : Dict V)
    → get k ((j, v) ∷ d) ≡ (if j == k then some v else get k d)
unfolding get
get-cons k j v d = refl

after_put :
    {V : Type 0} (k j : String) (v : V) (new old : Dict V)
    → one_of j (keys new) ≡ false
    → (elim (get k new) as (λ _. Option V) [ none ↦ get k (put j v old) | some w ↦ some w ])
      ≡ (elim (get k ((j, v) ∷ new)) as (λ _. Option V) [ none ↦ get k old | some w ↦ some w ])
after_put k j v new old u = elim (Bool-cases (j == k)) [
  | inl e ↦
      let same : j ≡ k = (eq_iff j k).0 e in
      let fresh : get k new ≡ none = none_of (get k new) (
        has_key-one_of k new
        ∙ ap {B = Bool} (λ (z : String). one_of z (keys new)) (sym same)
        ∙ u) in
      let here : get k ((j, v) ∷ new) ≡ some v = get-cons k j v new ∙ rw e refl in
      rw (fresh, here) (get-put j k v old ∙ rw e refl)
  | inr e ↦
      let here : get k ((j, v) ∷ new) ≡ get k new = get-cons k j v new ∙ rw e refl in
      let kept : get k (put j v old) ≡ get k old = get-put j k v old ∙ rw e refl in
      elim (Option-cases (get k new)) [ inl f ↦ rw (here, f) kept | inr (w, f) ↦ rw (here, f) refl ]
]

-- A merged dictionary has the new entries, and the old ones of other keys.
pub get-merge :
    {V : Type 0} (k : String) (new old : Dict V)
    → Unique (keys new)
    → get k (merge old new) ≡ elim (get k new) [ none ↦ get k old | some v ↦ some v ]
unfolding merge get
get-merge k [] old u = refl
get-merge k ((j, v) ∷ new) old u =
    get-merge k new (put j v old) (u.1) ∙ after_put k j v new old (u.0)
