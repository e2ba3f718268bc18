-- ===== src/RuntimeManager/Lifecycle/Resumption.antt =====
-- When a run is started again, and with which messages.
use mathlib.Core.Path.{subst}
use phylum.Common.{
  String, Bool, true, false, Option, none, some, ◌==◌, ◌≡◌, ◌↔◌, refl, sym, ap, ◌∙◌, inl, inr,
  arith, any, Bool-cases, Option-cases, truthy,
}
use phylum.AgenticLoop.Resume.{apply_handoff_response}
use phylum.RuntimeManager.Lifecycle.{
  Life, Handoff, already_terminal, wants_response, awaits_approval, runs_already, started,
  is_terminal, reply_to_run, apply_response, start_again, take_response, resume_run,
}

-- What the resumption waits for.
abbrev pub is_answered : Option Handoff → Bool
is_answered none = true
is_answered (some h) = truthy h.response

pub record IsReady (l : Life) : Type 0 where
  pub goes_on : is_terminal l.status ≡ false
  pub answered : is_answered l.pending_handoff ≡ true
  pub approved : any (λ s. s == "pending") l.approvals ≡ false
  pub idle : l.is_running ≡ false

start_again_iff :
    (l : Life)
    → ((start_again l).0 ≡ started)
      ↔ ((any (λ s. s == "pending") l.approvals ≡ false) × (l.is_running ≡ false))
unfolding start_again
start_again_iff l = elim (Bool-cases (any (λ s. s == "pending") l.approvals)) [
  | inl e ↦
      let here : (start_again l).0 ≡ awaits_approval = rw (e, start_again) refl in
      ((λ h. absurd (ground (arith, here, h))), (λ h. absurd (ground (arith, h.0, e))))
  | inr e ↦ elim (Bool-cases l.is_running) [
    | inl f ↦
        let here : (start_again l).0 ≡ runs_already = rw (e, f, start_again) refl in
        ((λ h. absurd (ground (arith, here, h))), (λ h. absurd (ground (arith, h.1, f))))
    | inr f ↦ ((λ h. (e, f)), (λ h. rw (e, f, start_again) refl))
  ]
]

ready :
    (l l' : Life)
    → is_terminal l.status ≡ false
    → is_answered l.pending_handoff ≡ true
    → l'.approvals ≡ l.approvals
    → l'.is_running ≡ l.is_running
    → (resume_run l).0 ≡ (start_again l').0
    → ((resume_run l).0 ≡ started) ↔ IsReady l
ready l l' goes_on answered approvals running same = (
  (λ h.
      let (free, idle) = (start_again_iff l').0 (sym same ∙ h) in
      record {
        goes_on = goes_on;
        answered = answered;
        approved = subst (λ as'. any (λ s. s == "pending") as' ≡ false) approvals free;
        idle = sym running ∙ idle;
      }),
  (λ r.
      same
      ∙ (start_again_iff l').1 (
        subst (λ as'. any (λ s. s == "pending") as' ≡ false) (sym approvals) r.approved,
        running ∙ r.idle,
      )),
)

unready :
    (l : Life)
    → (resume_run l).0 ≡ wants_response
    → is_answered l.pending_handoff ≡ false
    → ((resume_run l).0 ≡ started) ↔ IsReady l
unready l waits open_still = (
  (λ h. absurd (ground (arith, waits, h))),
  (λ r. absurd (ground (arith, r.answered, open_still))),
)

-- A run is started again exactly where it is not at its end, a handoff that is pending has a response
-- that is not empty, no approval is pending, and the run is not running.
pub resume_run-started_iff : (l : Life) → ((resume_run l).0 ≡ started) ↔ IsReady l
unfolding resume_run take_response apply_response
resume_run-started_iff l = elim (Bool-cases (is_terminal l.status)) [
  | inl e ↦
      let here : (resume_run l).0 ≡ already_terminal = rw (e, resume_run) refl in
      ((λ h. absurd (ground (arith, here, h))), (λ h. absurd (ground (arith, h.goes_on, e))))
  | inr e ↦
      let opened : resume_run l ≡ take_response l.pending_handoff l = rw (e, resume_run) refl in
      elim (Option-cases l.pending_handoff) [
        | inl f ↦
            let same : resume_run l ≡ start_again l = opened ∙ ap (λ o. take_response o l) f in
            ready l l e (rw f refl) refl refl (ap (λ r. r.0) same)
        | inr (h, f) ↦
            let same : resume_run l ≡ take_response (some h) l =
              opened ∙ ap (λ o. take_response o l) f in
            elim (Option-cases h.response) [
              | inl k ↦
                  let waits : (take_response (some h) l).0 ≡ wants_response =
                    rw (k, take_response) refl in
                  unready l (ap (λ r. r.0) same ∙ waits) (rw (f, k) refl)
              | inr (response, k) ↦ elim (Bool-cases (response == "")) [
                | inl m ↦
                    let waits : (take_response (some h) l).0 ≡ wants_response =
                      rw (k, m, take_response) refl in
                    unready l (ap (λ r. r.0) same ∙ waits) (rw (f, k, m) refl)
                | inr m ↦
                    let starts : (take_response (some h) l).0
                        ≡ (start_again (apply_response h response l)).0 =
                      rw (k, m, take_response) refl in
                    ready l (apply_response h response l) e (rw (f, k, m) refl) refl refl
                      (ap (λ r. r.0) same ∙ starts)
              ]
            ]
      ]
]

-- A run with a pending handoff is started again when the user replies and resumes it, whatever its
-- status was, failed and cancelled included, where the response is not empty, no approval is pending, the
-- run is not running, and its cancel event is not set. The event is still not set then, no handoff is
-- pending, and the messages are those before with the response to the handoff's tool call, where it has
-- one.
pub reply_to_run-revives :
    (l : Life) (h : Handoff) (response : String)
    → l.pending_handoff ≡ some h
    → response == "" ≡ false
    → any (λ s. s == "pending") l.approvals ≡ false
    → l.is_running ≡ false
    → l.is_cancelled ≡ false
    → (l' : Life) × (reply_to_run response l ≡ some l')
      × ((resume_run l').0 ≡ started)
      × ((resume_run l').1.is_running ≡ true)
      × ((resume_run l').1.is_cancelled ≡ false)
      × ((resume_run l').1.pending_handoff ≡ none)
      × ((resume_run l').1.messages ≡ apply_handoff_response h.tool_call_id response l.messages)
unfolding reply_to_run resume_run apply_response start_again
reply_to_run-revives l h response waits said free idle fresh =
    let told : Handoff = record h { response = some response; status = "answered" } in
    let l' : Life = record l { pending_handoff = some told; status = "paused" } in
    let replied : reply_to_run response l ≡ some l' = rw (waits, reply_to_run) refl in
    let same : resume_run l'
        ≡ (started, record (apply_response told response l') { is_running = true }) =
      rw (said, free, idle, resume_run) refl in
    (
      l',
      replied,
      ap (λ r. r.0) same,
      ap (λ r. r.1.is_running) same,
      ap (λ r. r.1.is_cancelled) same ∙ fresh,
      ap (λ r. r.1.pending_handoff) same,
      ap (λ r. r.1.messages) same,
    )
