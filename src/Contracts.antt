-- ===== src/Contracts.antt =====
-- The enumerations of packages/contracts/src/primitives.ts that the domain code branches on.
-- A zod enum is a data type with its strings as constructors; `===` on it is a decision.
pub data CurrencyCode : Type 0 where
  inr usd gbp eur aud cad sgd aed : CurrencyCode

pub data ProficiencyLevel : Type 0 where
  beginner intermediate advanced expert : ProficiencyLevel

pub data RequestState : Type 0 where
  created classifying searching offered shortlisted : RequestState
  awaiting_expert_confirmation accepted payment_pending ready in_session : RequestState
  completed cancelled no_expert_found disputed refunded : RequestState

pub data AvailabilityStatus : Type 0 where
  offline available on_offer in_session : AvailabilityStatus

pub data AvailabilityChangeSource : Type 0 where
  manual_toggle heartbeat_timeout offer_lock offer_released : AvailabilityChangeSource
  session_start session_end admin : AvailabilityChangeSource

pub data ExpertStatus : Type 0 where
  draft submitted under_review approved rejected suspended : ExpertStatus

pub data ExclusionReason : Type 0 where
  not_approved account_not_active not_available presence_stale : ExclusionReason
  already_on_offer in_session missing_primary_skill primary_below_floor : ExclusionReason
  insufficient_secondary_coverage rating_below_floor no_language_overlap : ExclusionReason
  already_responded is_the_customer : ExclusionReason

pub data AttemptStatus : Type 0 where
  excluded ranked offered interested not_interested shortlisted confirming : AttemptStatus
  accepted declined timed_out superseded withdrawn : AttemptStatus

pub data SessionState : Type 0 where
  scheduled ready active completed abandoned : SessionState

pub data AttemptOrigin : Type 0 where
  algorithmic admin_assign admin_force_assign : AttemptOrigin

pub data DeclineReasonCode : Type 0 where
  not_my_expertise no_longer_available too_complex duration_not_suitable other : DeclineReasonCode

pub data UserRole : Type 0 where
  customer expert admin : UserRole

-- The three states of an account, an inline union in the source.
pub data AccountStatus : Type 0 where
  active suspended deleted : AccountStatus

unfoldable pub CurrencyCode-discrete : Discrete CurrencyCode
CurrencyCode-discrete = hlevel

unfoldable pub RequestState-discrete : Discrete RequestState
RequestState-discrete = hlevel

unfoldable pub AvailabilityStatus-discrete : Discrete AvailabilityStatus
AvailabilityStatus-discrete = hlevel

unfoldable pub AvailabilityChangeSource-discrete : Discrete AvailabilityChangeSource
AvailabilityChangeSource-discrete = hlevel

unfoldable pub ExpertStatus-discrete : Discrete ExpertStatus
ExpertStatus-discrete = hlevel

unfoldable pub ExclusionReason-discrete : Discrete ExclusionReason
ExclusionReason-discrete = hlevel

unfoldable pub AttemptStatus-discrete : Discrete AttemptStatus
AttemptStatus-discrete = hlevel

unfoldable pub SessionState-discrete : Discrete SessionState
SessionState-discrete = hlevel

unfoldable pub UserRole-discrete : Discrete UserRole
UserRole-discrete = hlevel
