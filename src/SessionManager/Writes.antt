-- ===== src/SessionManager/Writes.antt =====
-- What a write leaves in the table.
use phylum.Common.{
  ℕ, String, true, false, none, some, List, [], ◌∷◌, ◌≡◌, ◌≢◌, inl, inr, refl, sym, ap, ◌∙◌, arith,
  Bool-cases, eq_iff, ◌==◌, eq_refl, one_of,
}
use phylum.Common.Dict.{Dict, get, keys, get-merge}
use phylum.Common.Sets.{Unique, one_of-append}
use phylum.SessionManager.{
  Session, Table, Updates, has_id, get_session, apply_updates, update_where, update_session,
  read_and_write, checkpoint, checkpoint_updates, add_run_updates, append_new,
}

module _ (now : ℕ) (u : Updates) (id : String) where
  get_session-update :
      (rows : Table) (x : Session)
      → get_session id rows ≡ some x
      → get_session id (update_where (has_id id) (apply_updates now u) rows)
        ≡ some (apply_updates now u x)
  unfolding get_session update_where apply_updates
  get_session-update [] x h = absurd (ground arith)
  get_session-update (s ∷ rows) x h = elim (Bool-cases (s.session_id == id)) [
    | inl e ↦
        let same : s ≡ x = ground arith in rw (e, e) (ap (λ y. some (apply_updates now u y)) same)
    | inr e ↦ rw (e, e) (get_session-update rows x (rw e at h))
  ]

  get_session-update_other :
      (other : String) (rows : Table)
      → other ≢ id
      → get_session other (update_where (has_id id) (apply_updates now u) rows)
        ≡ get_session other rows
  unfolding get_session update_where apply_updates
  get_session-update_other other [] h = refl
  get_session-update_other other (s ∷ rows) h =
      let rest = get_session-update_other other rows h in
      elim (Bool-cases (s.session_id == id)) [
        | inr e ↦ rw (e, rest) refl
        | inl e ↦
            let apart : (s.session_id == other) ≡ false =
              differs ((eq_iff s.session_id id).0 e) h in
            rw (e, apart) rest
      ]
    where
      differs : {a b c : String} → a ≡ b → c ≢ b → (a == c) ≡ false
      differs {a} {b} {c} same h = elim (Bool-cases (a == c)) [
        | inl e ↦ absurd (h (sym ((eq_iff a c).0 e) ∙ same))
        | inr e ↦ e
      ]

checkpoint-written :
    (now : ℕ) (id : String) (saved : Dict String) (rows : Table) (x : Session)
    → get_session id rows ≡ some x
    → checkpoint now id saved rows ≡ update_session now id (checkpoint_updates saved x) rows
unfolding checkpoint read_and_write
checkpoint-written now id saved rows x h = rw (h, read_and_write) refl

-- After `checkpoint` of a session that is there, its row is the one that is returned, whose checkpoint
-- has the values given and the old ones of other keys; the rows of other ids are as they were.
pub checkpoint-merges :
    (now : ℕ) (id : String) (saved : Dict String) (rows : Table) (x : Session)
    → Unique (keys saved)
    → get_session id rows ≡ some x
    → (y : Session) × ((checkpoint now id saved rows).1 ≡ some y)
      × (get_session id (checkpoint now id saved rows).0 ≡ some y)
      × ((k : String)
          → get k y.checkpoint ≡ elim (get k saved) [ none ↦ get k x.checkpoint | some v ↦ some v ])
      × ((other : String)
          → other ≢ id
          → get_session other (checkpoint now id saved rows).0 ≡ get_session other rows)
unfolding update_session apply_updates checkpoint_updates
checkpoint-merges now id saved rows x u h =
    let there = get_session-update now (checkpoint_updates saved x) id rows x h in
    let written = checkpoint-written now id saved rows x h in
    (
      apply_updates now (checkpoint_updates saved x) x,
      rw written there,
      rw written there,
      λ k. get-merge k saved x.checkpoint u,
      λ other apart.
          rw written
            (get_session-update_other now (checkpoint_updates saved x) id other rows apart),
    )

append_new-listed : (x : String) (xs : List String) → one_of x (append_new x xs) ≡ true
unfolding append_new
append_new-listed x xs = elim (Bool-cases (one_of x xs)) [
  | inl e ↦ rw e e
  | inr e ↦ rw e (one_of-append x xs (x ∷ []) ∙ rw (e, eq_refl x) refl)
]

one_of-append_new :
    (a b : String) (xs : List String)
    → one_of a xs ≡ false
    → a ≢ b
    → one_of a (append_new b xs) ≡ false
unfolding append_new
one_of-append_new a b xs h apart = elim (Bool-cases (one_of b xs)) [
  | inl e ↦ rw e h
  | inr e ↦ rw e (ground (arith, one_of-append a xs (b ∷ []), h, eq_iff a b))
]

-- Where two runs are added at the same time to a session, both calls having read it before either
-- writes, the first run is lost: the row that is left has the second and not the first.
pub add_run_lost :
    (now later : ℕ) (a b : String) (rows : Table) (x : Session)
    → get_session x.session_id rows ≡ some x
    → one_of a x.run_ids ≡ false
    → a ≢ b
    → (y : Session) × (get_session x.session_id
          (update_session later x.session_id
            (add_run_updates b x)
            (update_session now x.session_id (add_run_updates a x) rows).0).0
        ≡ some y)
      × (one_of b y.run_ids ≡ true)
      × (one_of a y.run_ids ≡ false)
unfolding update_session apply_updates add_run_updates
add_run_lost now later a b rows x there fresh apart =
    let once = get_session-update now (add_run_updates a x) x.session_id rows x there in
    (
      apply_updates later (add_run_updates b x) (apply_updates now (add_run_updates a x) x),
      get_session-update later (add_run_updates b x) x.session_id _ _ once,
      append_new-listed b x.run_ids,
      one_of-append_new a b x.run_ids fresh apart,
    )
