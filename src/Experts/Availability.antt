-- ===== src/Experts/Availability.antt =====
-- experts/availability.ts: the availability machine, presence, and matching eligibility. An instant
-- is a number of milliseconds; `now - last <= limit` is written `now ≤ last + limit`, which is the
-- same for every two instants.
use salesforce_expert_suppor.Prelude.{
  ℕ, ◌+◌, ◌-◌, ◌*◌, ◌/◌, Bool, true, false, not, ◌&&◌, Option, none, some, List, [], ◌∷◌, ◌++◌,
  if◌then◌else◌, index, includes, leb,
}
use salesforce_expert_suppor.Contracts.{
  AvailabilityStatus, AvailabilityStatus-discrete, AvailabilityChangeSource,
  AvailabilityChangeSource-discrete, ExpertStatus, AccountStatus,
}
use salesforce_expert_suppor.Experts.Status.{is_eligible_for_matching}

pub record AvailabilityTransition : Type 0 where
  pub from : AvailabilityStatus
  pub to : AvailabilityStatus
  pub sources : List AvailabilityChangeSource

abbrev rule :
    AvailabilityStatus → AvailabilityStatus → List AvailabilityChangeSource → AvailabilityTransition
rule from to sources = record { from = from; to = to; sources = sources }

unfoldable pub availability_transitions : List AvailabilityTransition
availability_transitions =
    rule AvailabilityStatus.offline AvailabilityStatus.available
      (AvailabilityChangeSource.manual_toggle ∷ AvailabilityChangeSource.admin ∷ [])
    ∷ rule AvailabilityStatus.available AvailabilityStatus.offline (
        AvailabilityChangeSource.manual_toggle ∷ AvailabilityChangeSource.heartbeat_timeout
        ∷ AvailabilityChangeSource.admin ∷ [])
    ∷ rule AvailabilityStatus.available AvailabilityStatus.on_offer
        (AvailabilityChangeSource.offer_lock ∷ [])
    ∷ rule AvailabilityStatus.offline AvailabilityStatus.on_offer
        (AvailabilityChangeSource.admin ∷ [])
    ∷ rule AvailabilityStatus.on_offer AvailabilityStatus.available
        (AvailabilityChangeSource.offer_released ∷ [])
    ∷ rule AvailabilityStatus.on_offer AvailabilityStatus.in_session
        (AvailabilityChangeSource.session_start ∷ [])
    ∷ rule AvailabilityStatus.on_offer AvailabilityStatus.offline
        (AvailabilityChangeSource.heartbeat_timeout ∷ AvailabilityChangeSource.admin ∷ [])
    ∷ rule AvailabilityStatus.in_session AvailabilityStatus.available
        (AvailabilityChangeSource.session_end ∷ [])
    ∷ rule AvailabilityStatus.in_session AvailabilityStatus.offline
        (AvailabilityChangeSource.session_end ∷ AvailabilityChangeSource.admin ∷ [])
    ∷ []

unfoldable pub find_availability_transition :
    AvailabilityStatus → AvailabilityStatus → Option AvailabilityTransition
find_availability_transition from to =
    index AvailabilityStatus-discrete (λ r. r.from) (λ r. r.to) availability_transitions from to

unfoldable pub can_change_availability :
    AvailabilityStatus → AvailabilityStatus → AvailabilityChangeSource → Bool
can_change_availability from to source = elim (find_availability_transition from to) [
  | none ↦ false
  | some r ↦ includes AvailabilityChangeSource-discrete source r.sources
]

pub data AssertedAvailability : Type 0 where
  legal : AvailabilityTransition → AssertedAvailability
  no_such_edge : AssertedAvailability
  source_not_allowed : List AvailabilityChangeSource → AssertedAvailability

unfoldable pub assert_availability_transition :
    AvailabilityStatus → AvailabilityStatus → AvailabilityChangeSource → AssertedAvailability
assert_availability_transition from to source = elim (find_availability_transition from to) [
  | none ↦ no_such_edge
  | some r ↦
      if includes AvailabilityChangeSource-discrete source r.sources
      then legal r
      else source_not_allowed r.sources
]

unfoldable pub can_go_available : ExpertStatus → Bool
can_go_available status = is_eligible_for_matching (some status)

abbrev pub default_heartbeat_interval_seconds : ℕ
default_heartbeat_interval_seconds = 45

abbrev pub default_heartbeat_stale_after_seconds : ℕ
default_heartbeat_stale_after_seconds = 180

unfoldable pub is_heartbeat_fresh : Option ℕ → ℕ → ℕ → Bool
is_heartbeat_fresh none now stale_after_seconds = false
is_heartbeat_fresh (some last) now stale_after_seconds = leb now (last + stale_after_seconds * 1000)

-- `Math.max(0, Math.floor((now - last) / 1000))`: both stop at 0.
unfoldable pub seconds_since_heartbeat : Option ℕ → ℕ → Option ℕ
seconds_since_heartbeat none now = none
seconds_since_heartbeat (some last) now = some ((now - last) / 1000)

pub data IneligibilityReason : Type 0 where
  not_approved account_not_active not_available presence_stale : IneligibilityReason
  already_on_offer in_session no_matching_skills : IneligibilityReason

pub record EligibilityInput : Type 0 where
  pub expert_status : ExpertStatus
  pub account_status : AccountStatus
  pub availability_status : AvailabilityStatus
  pub last_heartbeat_at : Option ℕ
  pub now : ℕ
  pub heartbeat_stale_after_seconds : Option ℕ

pub record EligibilityResult : Type 0 where
  pub eligible : Bool
  pub reasons : List IneligibilityReason

-- A reason that is pushed under a condition.
abbrev pub push_if {ℓ} : {A : Type ℓ} → Bool → A → List A
push_if true a = a ∷ []
push_if false a = []

abbrev pub is_active : AccountStatus → Bool
is_active AccountStatus.active = true
is_active _ = false

abbrev pub is_available : AvailabilityStatus → Bool
is_available AvailabilityStatus.available = true
is_available _ = false

-- The `switch` on the availability status.
availability_reasons : AvailabilityStatus → List IneligibilityReason
availability_reasons AvailabilityStatus.offline = not_available ∷ []
availability_reasons AvailabilityStatus.on_offer = already_on_offer ∷ []
availability_reasons AvailabilityStatus.in_session = IneligibilityReason.in_session ∷ []
availability_reasons AvailabilityStatus.available = []

-- The default of an optional parameter.
abbrev pub stale_after : Option ℕ → ℕ
stale_after none = default_heartbeat_stale_after_seconds
stale_after (some seconds) = seconds

eligibility_reasons : EligibilityInput → List IneligibilityReason
unfolding availability_reasons
eligibility_reasons input =
    push_if (not (is_active input.account_status)) account_not_active
    ++ (push_if (not (is_eligible_for_matching (some input.expert_status))) not_approved
        ++ (availability_reasons input.availability_status
            ++ push_if
                (is_available input.availability_status
                  && not (
                      is_heartbeat_fresh input.last_heartbeat_at input.now
                        (stale_after input.heartbeat_stale_after_seconds)))
                presence_stale))

abbrev pub is_empty {ℓ} : {A : Type ℓ} → List A → Bool
is_empty [] = true
is_empty (_ ∷ _) = false

unfoldable pub evaluate_eligibility : EligibilityInput → EligibilityResult
unfolding eligibility_reasons
evaluate_eligibility input = record {
  eligible = is_empty (eligibility_reasons input);
  reasons = eligibility_reasons input;
}

unfoldable pub is_currently_matchable : EligibilityInput → Bool
unfolding evaluate_eligibility
is_currently_matchable input = (evaluate_eligibility input).eligible
