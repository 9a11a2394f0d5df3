-- ===== src/Requests/Machine.antt =====
-- support-requests/state-machine.ts. The human-readable `description` of a rule is left out.
use salesforce_expert_suppor.Prelude.{
  Bool, true, false, Option, none, some, List, [], ◌∷◌, map, if◌then◌else◌, includes, index,
  targets,
}
use salesforce_expert_suppor.Contracts.{RequestState, RequestState-discrete}

pub data TransitionActor : Type 0 where
  system customer expert admin : TransitionActor

unfoldable pub TransitionActor-discrete : Discrete TransitionActor
TransitionActor-discrete = hlevel

-- The guard names that the table uses.
pub data GuardName : Type 0 where
  has_eligible_candidate has_interested_candidates candidate_is_shortlisted : GuardName
  offer_still_open admin_reason_provided payment_authorization_valid : GuardName
  payment_confirmed within_dispute_window : GuardName

unfoldable pub GuardName-discrete : Discrete GuardName
GuardName-discrete = hlevel

pub record TransitionRule : Type 0 where
  pub from : RequestState
  pub to : RequestState
  pub actors : List TransitionActor
  pub guard : Option GuardName

abbrev rule : RequestState → RequestState → List TransitionActor → TransitionRule
rule from to actors = record { from = from; to = to; actors = actors; guard = none }

abbrev guarded : RequestState → RequestState → List TransitionActor → GuardName → TransitionRule
guarded from to actors g = record { from = from; to = to; actors = actors; guard = some g }

open_states : List RequestState
open_states =
    RequestState.created ∷ RequestState.classifying ∷ RequestState.searching ∷ RequestState.offered
    ∷ []

cancellation : RequestState → TransitionRule
cancellation from = rule from RequestState.cancelled (customer ∷ admin ∷ [])

unfoldable pub transitions : List TransitionRule
unfolding open_states cancellation
transitions =
    rule RequestState.created RequestState.classifying (system ∷ [])
    ∷ rule RequestState.classifying RequestState.searching (system ∷ [])
    ∷ guarded RequestState.searching RequestState.offered (system ∷ admin ∷ [])
        has_eligible_candidate
    ∷ guarded RequestState.searching RequestState.shortlisted (system ∷ [])
        has_interested_candidates
    ∷ guarded RequestState.shortlisted RequestState.awaiting_expert_confirmation (customer ∷ [])
        candidate_is_shortlisted
    ∷ rule RequestState.awaiting_expert_confirmation RequestState.accepted (expert ∷ [])
    ∷ rule RequestState.awaiting_expert_confirmation RequestState.shortlisted (system ∷ [])
    ∷ rule RequestState.shortlisted RequestState.searching (system ∷ [])
    ∷ rule RequestState.shortlisted RequestState.no_expert_found (system ∷ [])
    ∷ rule RequestState.searching RequestState.no_expert_found (system ∷ [])
    ∷ guarded RequestState.offered RequestState.accepted (expert ∷ []) offer_still_open
    ∷ rule RequestState.offered RequestState.searching (system ∷ expert ∷ [])
    ∷ rule RequestState.offered RequestState.no_expert_found (system ∷ [])
    ∷ guarded RequestState.offered RequestState.offered (admin ∷ []) admin_reason_provided
    ∷ guarded RequestState.accepted RequestState.ready (system ∷ []) payment_authorization_valid
    ∷ rule RequestState.accepted RequestState.payment_pending (system ∷ [])
    ∷ guarded RequestState.payment_pending RequestState.ready (system ∷ []) payment_confirmed
    ∷ rule RequestState.payment_pending RequestState.cancelled (system ∷ [])
    ∷ rule RequestState.ready RequestState.in_session (system ∷ [])
    ∷ rule RequestState.in_session RequestState.completed (system ∷ customer ∷ expert ∷ [])
    ∷ guarded RequestState.completed RequestState.disputed (customer ∷ []) within_dispute_window
    ∷ rule RequestState.disputed RequestState.completed (admin ∷ [])
    ∷ rule RequestState.disputed RequestState.refunded (admin ∷ [])
    ∷ map cancellation open_states

abbrev pub terminal_states : List RequestState
terminal_states = RequestState.no_expert_found ∷ RequestState.cancelled ∷ RequestState.refunded ∷ []

unfoldable pub is_terminal : RequestState → Bool
is_terminal state = includes RequestState-discrete state terminal_states

unfoldable pub find_transition : RequestState → RequestState → Option TransitionRule
find_transition from to = index RequestState-discrete (λ r. r.from) (λ r. r.to) transitions from to

-- The optional `actor` parameter: absent, or among those of the rule.
unfoldable pub admits : TransitionRule → Option TransitionActor → Bool
admits r none = true
admits r (some actor) = includes TransitionActor-discrete actor r.actors

unfoldable pub can_transition : RequestState → RequestState → Option TransitionActor → Bool
unfolding admits
can_transition from to actor = elim (find_transition from to) [
  | none ↦ false
  | some r ↦ admits r actor
]

unfoldable pub next_states : RequestState → Option TransitionActor → List RequestState
next_states from actor =
    targets RequestState-discrete (λ r. r.from) (λ r. r.to) (λ r. admits r actor) transitions from

-- Why an `IllegalTransitionError` was thrown, with the data of its message.
pub data TransitionReason : Type 0 where
  no_such_rule : List RequestState → TransitionReason
  actor_not_allowed : List TransitionActor → TransitionReason

pub data Asserted : Type 0 where
  legal : TransitionRule → Asserted
  illegal : TransitionReason → Asserted

unfoldable pub assert_transition : RequestState → RequestState → TransitionActor → Asserted
unfolding next_states
assert_transition from to actor = elim (find_transition from to) [
  | none ↦ illegal (no_such_rule (next_states from none))
  | some r ↦
      if includes TransitionActor-discrete actor r.actors
      then legal r
      else illegal (actor_not_allowed r.actors)
]

unfoldable pub guards : List GuardName
guards =
    has_eligible_candidate ∷ offer_still_open ∷ admin_reason_provided ∷ payment_authorization_valid
    ∷ payment_confirmed ∷ within_dispute_window ∷ []
