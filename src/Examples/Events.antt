-- ===== src/Examples/Events.antt =====
-- Two handlers of the event bus, one of which leaves.
use phylum.Common.{◌≡◌, false, none, List, [], ◌∷◌}
use phylum.EventBus.{run_started, goal_cancelled, mem, emit, last_n, max_history, unsubscribe_all}
use phylum.EventBus.Delivery.{
  Call, emits, clears, subscribes, subscribes_all, after_calls, unsubscribe_all-silent,
}
use phylum.EventBus.History.{emitted, history-last_n}

abbrev calls : List Call
calls = subscribes_all 1 ∷ subscribes run_started 1 ∷ subscribes run_started 2 ∷ []

unsubscribe_all-silent_example :
    mem 1 (emit (λ h e. false) run_started [] none (unsubscribe_all 1 (after_calls calls))).called
    ≡ false
unsubscribe_all-silent_example = unsubscribe_all-silent calls 1 (λ h e. false) run_started [] none

abbrev events : List Call
events =
    emits (λ h e. false) run_started [] none
    ∷ clears
    ∷ emits (λ h e. false) goal_cancelled [] none
    ∷ calls

history-last_n_example : (after_calls events).history ≡ last_n max_history (emitted events)
history-last_n_example = history-last_n events
