-- ===== src/TaskGraph/Release.antt =====
-- The inner loop of Kahn's algorithm in `validate`: the counts and the queue after it.
use phylum.Common.{
  ℕ, ◌-◌, String, Bool, true, false, none, some, List, [], ◌∷◌, ◌++◌, ◌==◌, if◌then◌else◌, nat_eq,
  filter, one_of, ◌≡◌, refl, sym, ap, ◌∙◌, arith, inl, inr, eq_iff, eq_refl, Bool-cases,
}
use mathlib.Core.List.{append_assoc, append-nil}
use phylum.Common.Dict.{Dict, put, get-put}
use phylum.Common.Sets.{Unique, filter_same, eq_sym}
use phylum.TaskGraph.Validation.{degree, release}

degree-put :
    (k j : String) (n : ℕ) (ind : Dict ℕ)
    → degree (put k n ind) j ≡ (if k == j then n else degree ind j)
unfolding degree
degree-put k j n ind =
    ap (λ o. elim o [ none ↦ 0 | some m ↦ m ]) (get-put k j n ind)
    ∙ elim (Bool-cases (k == j)) [ inl e ↦ rw e refl | inr e ↦ rw e refl ]

-- The children of a task lose one each.
pub release-degree :
    (cs : List String) (ind : Dict ℕ) (q : List String) (k : String)
    → Unique cs
    → degree (release cs ind q).0 k ≡ (if one_of k cs then degree ind k - 1 else degree ind k)
unfolding release
release-degree [] ind q k u = refl
release-degree (c ∷ cs) ind q k u =
    let n = degree ind c - 1 in
    let rest = release-degree cs (put c n ind) (if nat_eq n 0 then q ++ c ∷ [] else q) k (u.1) in
    let here = degree-put c k n ind in
    elim (Bool-cases (k == c)) [
      | inl e ↦
          let same : k ≡ c = (eq_iff k c).0 e in
          let once : one_of k cs ≡ false = ap (λ (v : String). one_of v cs) same ∙ u.0 in
          rest ∙ rw (once, e) (here ∙ rw (same, eq_refl c) refl)
      | inr e ↦ let other : (c == k) ≡ false = eq_sym k c e in rest ∙ rw (e, here, other) refl
    ]

-- Those that are left with none are queued, in their order.
pub release-queue :
    (cs : List String) (ind : Dict ℕ) (q : List String)
    → Unique cs
    → (release cs ind q).1 ≡ q ++ filter (λ k. nat_eq (degree ind k - 1) 0) cs
unfolding release
release-queue [] ind q u = sym (append-nil q)
release-queue (c ∷ cs) ind q u =
    let n = degree ind c - 1 in
    let rest = release-queue cs (put c n ind) (if nat_eq n 0 then q ++ c ∷ [] else q) (u.1) in
    let others =
      filter_same _ (λ k. nat_eq (degree ind k - 1) 0) cs
        (λ k h. ap {B = Bool} (λ (m : ℕ). nat_eq (m - 1) 0) (unchanged n k h)) in
    elim (Bool-cases (nat_eq n 0)) [
      | inl e ↦ rest ∙ rw (others, e) (append_assoc q (c ∷ []) _)
      | inr e ↦ rest ∙ rw (others, e) refl
    ]
  where
    unchanged : (n : ℕ) (k : String) → one_of k cs ≡ true → degree (put c n ind) k ≡ degree ind k
    unchanged n k h = elim (Bool-cases (c == k)) [
      | inl e ↦
          let same : c ≡ k = (eq_iff c k).0 e in
          absurd (ground (arith, u.0, ap {B = Bool} (λ (v : String). one_of v cs) same))
      | inr e ↦ degree-put c k n ind ∙ rw e refl
    ]
