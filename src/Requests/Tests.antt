-- ===== src/Requests/Tests.antt =====
-- Runs of the request state machine.
use salesforce_expert_suppor.Prelude.{
  ◌≡◌, refl, ◌↔◌, true, none, some, List, [], ◌∷◌, In, length, ◌≤◌,
}
use salesforce_expert_suppor.Prelude.{index}
use salesforce_expert_suppor.Contracts.{RequestState, RequestState-discrete}
use salesforce_expert_suppor.Requests.Machine.{
  TransitionActor-discrete, system, expert, admin, TransitionRule, has_eligible_candidate,
  transitions, find_transition, legal, assert_transition, is_terminal,
}
use salesforce_expert_suppor.Requests.Lookup.{assert_transition-legal}
use salesforce_expert_suppor.Requests.History.{
  Move, replay, replay-consent, replay_terminates, replay_absorbed, is_committed,
}

abbrev search_to_offer : TransitionRule
search_to_offer = record {
  from = RequestState.searching;
  to = RequestState.offered;
  actors = system ∷ admin ∷ [];
  guard = some has_eligible_candidate;
}

-- From a new request to an accepted one, by direct dispatch.
abbrev dispatched : List Move
dispatched =
    (system, RequestState.classifying)
    ∷ (system, RequestState.searching)
    ∷ (system, RequestState.offered)
    ∷ (expert, RequestState.accepted)
    ∷ []

assert_transition-legal_example :
    (assert_transition RequestState.searching RequestState.offered admin ≡ legal search_to_offer)
    ↔ (In search_to_offer transitions
        × (search_to_offer.from ≡ RequestState.searching)
        × (search_to_offer.to ≡ RequestState.offered)
        × In admin search_to_offer.actors)
assert_transition-legal_example =
    assert_transition-legal RequestState.searching RequestState.offered admin search_to_offer

replay-consent_example : In (expert, RequestState.accepted) dispatched
unfolding replay assert_transition find_transition index transitions is_committed
    RequestState-discrete TransitionActor-discrete
replay-consent_example =
    replay-consent dispatched RequestState.created RequestState.accepted refl refl refl

replay_terminates_example :
    (moves : List Move) × (t : RequestState) × (length moves ≤ 4)
    × (replay RequestState.ready moves ≡ some t)
    × (is_terminal t ≡ true)
replay_terminates_example = replay_terminates RequestState.ready

replay_absorbed_example :
    replay RequestState.cancelled ((admin, RequestState.searching) ∷ []) ≡ none
unfolding is_terminal RequestState-discrete
replay_absorbed_example =
    replay_absorbed RequestState.cancelled (admin, RequestState.searching) [] refl
