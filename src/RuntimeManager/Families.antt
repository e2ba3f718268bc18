-- ===== src/RuntimeManager/Families.antt =====
-- The families of a run's active grants, and what a revocation leaves of them.
use mathlib.Core.Path.{subst}
use mathlib.Core.Option.{some-injective}
use phylum.Common.{
  String, true, false, none, some, List, [], ◌∷◌, ◌≡◌, ◌||◌, ◌==◌, refl, sym, ◌∙◌, inl, inr, arith,
  All, Bool-cases, Option-cases, one_of, if◌then◌else◌,
}
use phylum.Common.Sets.{Unique}
use phylum.RiskClassifier.{medium}
use phylum.Policy.{Grant}
use phylum.RuntimeManager.{revoke_first}

-- A grant of the run.
pub record IsRunGrant (g : Grant) : Type 0 where
  pub scope : g.scope ≡ "run_scope"
  pub bound : g.max_risk_level ≡ some medium

-- The families of the active grants.
abbrev pub active_families : List Grant → List String
active_families [] = []
active_families (g ∷ gs) =
    if g.status == "active"
    then elim g.family [ none ↦ active_families gs | some f ↦ f ∷ active_families gs ]
    else active_families gs

pub record IsBounded (grants : List Grant) : Type 0 where
  pub bounded : All IsRunGrant grants
  pub distinct : Unique (active_families grants)

-- The grants with one revoked.
pub record Fewer (old new : List Grant) : Type 0 where
  pub sound : IsBounded new
  pub absent :
      (x : String) → one_of x (active_families old) ≡ false → one_of x (active_families new) ≡ false

tail-distinct :
    (g : Grant) (gs : List Grant) → Unique (active_families (g ∷ gs)) → Unique (active_families gs)
tail-distinct g gs h = elim (Bool-cases (g.status == "active")) [
  | inr e ↦ rw e at h
  | inl e ↦ elim (Option-cases g.family) [
    | inl f ↦ rw (e, f) at h
    | inr (family, f) ↦ let (_, rest) = rw (e, f) at h in rest
  ]
]

revoked-Fewer :
    (g : Grant) (gs : List Grant)
    → IsBounded (g ∷ gs)
    → Fewer (g ∷ gs) (record g { status = "revoked" } ∷ gs)
revoked-Fewer g gs h = record {
  sound = record {
    bounded = (record { scope = h.bounded.0.scope; bound = h.bounded.0.bound }, h.bounded.1);
    distinct = tail-distinct g gs h.distinct;
  };
  absent = λ x apart. elim (Bool-cases (g.status == "active")) [
    | inr e ↦ rw e at apart
    | inl e ↦ elim (Option-cases g.family) [
      | inl f ↦ rw (e, f) at apart
      | inr (family, f) ↦
          let both : ((x == family) || one_of x (active_families gs)) ≡ false =
            rw (e, f) at apart in
          ground (arith, both)
    ]
  ];
}

kept-Fewer :
    (g : Grant) (gs gs' : List Grant) → IsBounded (g ∷ gs) → Fewer gs gs' → Fewer (g ∷ gs) (g ∷ gs')
kept-Fewer g gs gs' h fewer = record {
  sound = record {
    bounded = (h.bounded.0, fewer.sound.bounded);
    distinct = elim (Bool-cases (g.status == "active")) [
      | inr e ↦ rw e fewer.sound.distinct
      | inl e ↦ elim (Option-cases g.family) [
        | inl f ↦ rw (e, f) fewer.sound.distinct
        | inr (family, f) ↦
            let (apart, _) = rw (e, f) at h.distinct in
            rw (e, f) (fewer.absent family apart, fewer.sound.distinct)
      ]
    ];
  };
  absent = λ x apart. elim (Bool-cases (g.status == "active")) [
    | inr e ↦ rw e (fewer.absent x (rw e at apart))
    | inl e ↦ elim (Option-cases g.family) [
      | inl f ↦ rw (e, f) (fewer.absent x (rw (e, f) at apart))
      | inr (family, f) ↦
          let both : ((x == family) || one_of x (active_families gs)) ≡ false =
            rw (e, f) at apart in
          let later = fewer.absent x (ground (arith, both)) in
          rw (e, f) (ground (arith, both, later))
    ]
  ];
}

pub revoke_first-Fewer :
    (grant_id : String) (grants grants' : List Grant)
    → IsBounded grants
    → revoke_first grant_id grants ≡ some grants'
    → Fewer grants grants'
unfolding revoke_first
revoke_first-Fewer grant_id [] grants' h e = absurd (ground (arith, e))
revoke_first-Fewer grant_id (g ∷ gs) grants' h e =
    let below : IsBounded gs = record {
      bounded = h.bounded.1;
      distinct = tail-distinct g gs h.distinct;
    } in
    let rest : (gs' : List Grant) → revoke_first grant_id gs ≡ some gs' → Fewer gs gs' =
      λ gs' f. revoke_first-Fewer grant_id gs gs' below f in
    let first_found : g.grant_id == grant_id ≡ true
        → revoke_first grant_id (g ∷ gs) ≡ some (record g { status = "revoked" } ∷ gs) =
      λ k. rw (k, revoke_first) refl in
    elim (Bool-cases (g.grant_id == grant_id)) [
      | inl k ↦
          let same : some (record g { status = "revoked" } ∷ gs) ≡ some grants' =
            sym (first_found k) ∙ e in
          subst (Fewer (g ∷ gs)) (some-injective _ _ same) (revoked-Fewer g gs h)
      | inr k ↦ elim (Option-cases (revoke_first grant_id gs)) [
        | inl f ↦
            let none_found : revoke_first grant_id (g ∷ gs) ≡ none = rw (k, f, revoke_first) refl in
            absurd (ground (arith, none_found, e))
        | inr (gs', f) ↦
            let found : revoke_first grant_id (g ∷ gs) ≡ some (g ∷ gs') =
              rw (k, f, revoke_first) refl in
            subst (Fewer (g ∷ gs)) (some-injective _ _ (sym found ∙ e))
              (kept-Fewer g gs gs' h (rest gs' f))
      ]
    ]
