-- ===== src/ContextWindow/Sizes.antt =====
-- How small the values of a summary are.
use Prim.Native.String
use phylum.Common.{
  ℕ, zero, suc, ◌+◌, ◌-◌, ◌≤◌, String, ◌≡◌, ◌⊎◌, inl, inr, refl, true, leb, Bool-cases, arith,
}
use phylum.ContextWindow.{
  Texts, Json, null, boolean, number, string, array, object, Items, no_items, item, Fields,
  no_fields, field, is_preservable, compress_text, compact_value, compact_items, compact_fields,
  items_size, take_items, append_item,
}

unfoldable mutual
  -- A text under a key is preserved, has at most 400 characters, or counts the items left out; an
  -- array has at most five items.
  pub IsCompact : Texts → String → Json → Type 0
  IsCompact texts key null = Unit {0}
  IsCompact texts key (boolean b) = Unit {0}
  IsCompact texts key (number n) = Unit {0}
  IsCompact texts key (string t) =
      (is_preservable texts key t ≡ true)
      ⊎ (texts.size t ≤ 400)
      ⊎ ((n : ℕ) × (t ≡ String.◌++◌ "(+" (String.◌++◌ (texts.show n) " more)")))
  IsCompact texts key (array vs) = (items_size vs ≤ 5) × AreCompact texts vs
  IsCompact texts key (object fs) = HaveCompact texts fs

  pub AreCompact : Texts → Items → Type 0
  AreCompact texts no_items = Unit {0}
  AreCompact texts (item v vs) = IsCompact texts "" v × AreCompact texts vs

  pub HaveCompact : Texts → Fields → Type 0
  HaveCompact texts no_fields = Unit {0}
  HaveCompact texts (field k v fs) = IsCompact texts k v × HaveCompact texts fs

items_size-compact_items :
    (texts : Texts) (vs : Items) → items_size (compact_items texts vs) ≡ items_size vs
unfolding items_size compact_items
items_size-compact_items texts no_items = refl
items_size-compact_items texts (item v vs) =
    let rest = items_size-compact_items texts vs in ground arith

AreCompact-take_items :
    (texts : Texts) (n : ℕ) (vs : Items) → AreCompact texts vs → AreCompact texts (take_items n vs)
unfolding take_items AreCompact
AreCompact-take_items texts zero vs h = tt
AreCompact-take_items texts (suc n) no_items h = tt
AreCompact-take_items texts (suc n) (item v vs) h = (h.0, AreCompact-take_items texts n vs h.1)

AreCompact-append_item :
    (texts : Texts) (vs : Items) (w : Json)
    → AreCompact texts vs
    → IsCompact texts "" w
    → AreCompact texts (append_item vs w)
unfolding append_item AreCompact
AreCompact-append_item texts no_items w h last = (last, tt)
AreCompact-append_item texts (item v vs) w h last =
    (h.0, AreCompact-append_item texts vs w h.1 last)

items_size-take-append :
    (n : ℕ) (vs : Items) (w : Json) → items_size (append_item (take_items n vs) w) ≤ n + 1
unfolding items_size append_item take_items
items_size-take-append zero vs w = omega arith
items_size-take-append (suc n) no_items w = omega arith
items_size-take-append (suc n) (item v vs) w = omega (arith, items_size-take-append n vs w)

module _ (texts : Texts) (takes : (n : ℕ) (t : String) → texts.size (texts.take_text n t) ≤ n) where
  -- A text that was compressed to `n` characters has at most a hundred more.
  size-compress_text : (n : ℕ) (t : String) → texts.size (compress_text texts n t) ≤ n + 100
  unfolding compress_text
  size-compress_text n t = elim (Bool-cases (leb (texts.size t) n)) [
    | inl e ↦ rw e (ground arith)
    | inr e ↦ rw e (takes (n + 100) _)
  ]

  string-IsCompact : (key t : String) → IsCompact texts key (compact_value texts key (string t))
  unfolding compact_value IsCompact
  string-IsCompact key t = elim (Bool-cases (is_preservable texts key t)) [
    | inl e ↦ rw e (inl e)
    | inr e ↦ elim (Bool-cases (leb (texts.size t) 200)) [
      | inl f ↦ rw (e, f) (inr (inl (ground arith)))
      | inr f ↦ rw (e, f) (inr (inl (size-compress_text 300 t)))
    ]
  ]

  array_IsCompact :
      (key : String) (vs : Items)
      → AreCompact texts (compact_items texts vs)
      → IsCompact texts key (compact_value texts key (array vs))
  unfolding compact_value IsCompact
  array_IsCompact key vs all = elim (Bool-cases (leb (items_size vs) 5)) [
    | inl e ↦ rw e (ground (arith, items_size-compact_items texts vs), all)
    | inr e ↦ rw e (
      omega (arith, items_size-take-append 3 (compact_items texts vs)),
      AreCompact-append_item texts (take_items 3 (compact_items texts vs)) _
          (AreCompact-take_items texts 3 (compact_items texts vs) all)
          (inr (inr (items_size vs - 3, refl))),
    )
  ]

  mutual
    unfolding compact_value IsCompact

    value_IsCompact : (key : String) (v : Json) → IsCompact texts key (compact_value texts key v)
    value_IsCompact key null = tt
    value_IsCompact key (boolean b) = tt
    value_IsCompact key (number n) = tt
    value_IsCompact key (string t) = string-IsCompact key t
    value_IsCompact key (array vs) = array_IsCompact key vs (compact_items-AreCompact vs)
    value_IsCompact key (object fs) = compact_fields-HaveCompact fs

    compact_items-AreCompact : (vs : Items) → AreCompact texts (compact_items texts vs)
    compact_items-AreCompact no_items = tt
    compact_items-AreCompact (item v vs) = (value_IsCompact "" v, compact_items-AreCompact vs)

    compact_fields-HaveCompact : (fs : Fields) → HaveCompact texts (compact_fields texts fs)
    compact_fields-HaveCompact no_fields = tt
    compact_fields-HaveCompact (field k v fs) = (value_IsCompact k v, compact_fields-HaveCompact fs)

  -- Where a slice `s[:n]` has at most `n` characters, every text that a summary keeps of a value is
  -- preserved for its key or content, has at most 400 characters, or counts the items left out, and
  -- every array in it has at most five items, at every depth.
  pub compact_value-IsCompact :
      (key : String) (v : Json) → IsCompact texts key (compact_value texts key v)
  compact_value-IsCompact key v = value_IsCompact key v
