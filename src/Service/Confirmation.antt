-- ===== src/Service/Confirmation.antt =====
-- The interest pool's steps of matching-service.ts that move the request: broadcast, shortlist,
-- selection, confirmation and falling back.
use salesforce_expert_suppor.Prelude.{
  ℕ, suc, Bool, false, not, ◌||◌, Option, none, some, leb, ltb, ◌==◌,
}
use salesforce_expert_suppor.Contracts.{
  RequestState, AttemptStatus, AvailabilityStatus, DeclineReasonCode,
}
use salesforce_expert_suppor.Requests.Machine.{system, customer, expert}
use salesforce_expert_suppor.Authorization.Policy.{Actor, offer_respond, support_request_read_own}
use salesforce_expert_suppor.Dispatch.Attempts.{Attempt, has_status}
use salesforce_expert_suppor.Dispatch.Store.{supersede_ranked_attempts}
use salesforce_expert_suppor.Dispatch.Pool.{
  Settlement, settle_accepted, settle_timed_out, settle_declined, settle_confirmation,
}
use salesforce_expert_suppor.Matching.Number.{Number}
use salesforce_expert_suppor.Matching.Relaxation.{max_relaxation_level, scheduled_level}
use salesforce_expert_suppor.Service.World.{Request}
use salesforce_expert_suppor.Service.Monad.{
  Action, Error, pure, on_store, branch, ◌>>=◌, or_raise, on_option, raise_if, conflict,
}
use salesforce_expert_suppor.Service.Requests.{
  is_state, require_request, transition, give_up, assign_expert,
}
use salesforce_expert_suppor.Service.Runs.{complete_run}
use salesforce_expert_suppor.Service.Setup.{Deps}
use salesforce_expert_suppor.Service.Dispatch.{
  Outcome, relaxed, broadcast, no_expert_found, deadline_passed, not_searching, create_run, is_due,
  come_back, seconds_until_level, elapsed_seconds,
}
use salesforce_expert_suppor.Service.Responses.{
  require_permission, require_own_attempt, find_attempt_by_id, is_past, is_before,
}
use salesforce_expert_suppor.Service.Interest.{
  InterestOutcome, broadcasted, shortlisted, no_interest, open_window, close_window, select_one,
  lapse,
}

-- What `fallBackFromConfirmation` and `lapseConfirmation` answer.
pub data FallBack : Type 0 where
  not_enabled unknown_attempt already_settled not_yet_due not_awaiting : FallBack
  researching back_to_shortlist : FallBack

module _ (N : Number) (D : Deps N) where
  open D use {broadcast_size, interest_window_seconds, relaxation_schedule_seconds, has_interest}

  unfoldable pub handle_empty_pool : Request → ℕ → ℕ → Action Outcome
  handle_empty_pool request level now =
      branch (ltb max_relaxation_level (suc level)) (do _ ← give_up request; pure no_expert_found)
        (branch (not (is_due N D request now (suc level)))
          (do
            _ ← come_back N D request (suc level) (seconds_until_level N D (suc level) request now)
            pure (relaxed level))
          (do _ ← come_back N D request (suc level) 0; pure (relaxed (suc level))))

  abbrev reached : InterestOutcome → ℕ
  reached (broadcasted n) = n
  reached _ = 0

  abbrev level_now : Request → ℕ → ℕ
  level_now request now =
      scheduled_level (elapsed_seconds N D request now) relaxation_schedule_seconds

  -- `broadcastInterest`, where `interest` is there.
  unfoldable pub broadcast_interest : ℕ → ℕ → Action Outcome
  broadcast_interest id now = do
    request ← require_request id
    branch (not (is_state RequestState.searching request)) (pure not_searching) (
        branch (leb request.match_deadline_at now) (do _ ← give_up request; pure deadline_passed)
          (do
            _ ← create_run N D request (level_now request now) now
            outcome ← open_window broadcast_size interest_window_seconds request
            branch (reached outcome == 0) (handle_empty_pool request (level_now request now) now)
                (pure (broadcast (reached outcome)))))

  unfoldable pub after_close : Request → ℕ → InterestOutcome → Action Outcome
  after_close request now no_interest = handle_empty_pool request (level_now request now) now
  after_close request now (shortlisted n) = do
    _ ← transition request RequestState.shortlisted system
    pure (broadcast n)
  after_close request now _ = pure not_searching

  unfoldable pub close_interest_window : ℕ → ℕ → Action Outcome
  close_interest_window id now = do
    request ← require_request id
    branch (not (is_state RequestState.searching request) || not has_interest) (pure not_searching)
        (do outcome ← close_window request; after_close request now outcome)

  unfoldable pub select_candidate : Actor → ℕ → ℕ → ℕ → Action Attempt
  select_candidate actor id attempt_id now = do
    _ ← require_permission actor support_request_read_own
    _ ← raise_if (not has_interest) conflict
    request ← require_request id
    _ ← raise_if (not (is_customer actor.customer_profile_id request)) Error.forbidden
    _ ← raise_if (not (is_state RequestState.shortlisted request)) conflict
    chosen ← select_one id attempt_id now
    _ ← transition request RequestState.awaiting_expert_confirmation customer
    pure chosen
    where
      is_customer : Option ℕ → Request → Bool
      is_customer none request = false
      is_customer (some c) request = request.customer_id == c

  -- Where `confirmSelection` has passed its early return.
  unfoldable pub confirm_open : Attempt → ℕ → Action Attempt
  confirm_open attempt now = do
    _ ← raise_if (not (has_status AttemptStatus.confirming attempt)) conflict
    _ ← raise_if (is_past now attempt.offer_expires_at) conflict
    request ← require_request attempt.support_request_id
    answer ← on_store (
        settle_confirmation attempt.id attempt.expert_profile_id settle_accepted now
          (some AvailabilityStatus.in_session) none)
    settled ← or_raise answer conflict
    _ ← transition request RequestState.accepted expert
    _ ← assign_expert request.id attempt.expert_profile_id
    _ ← on_store (supersede_ranked_attempts attempt.matching_run_id now)
    _ ← complete_run attempt.matching_run_id now
    accepted ← require_request request.id
    _ ← transition accepted RequestState.payment_pending system
    pure settled

  unfoldable pub confirm_selection : Actor → ℕ → ℕ → Action Attempt
  confirm_selection actor attempt_id now = do
    _ ← require_permission actor offer_respond
    attempt ← require_own_attempt actor attempt_id
    branch (has_status AttemptStatus.accepted attempt) (pure attempt) (confirm_open attempt now)

  -- The end of `fallBackFromConfirmation`, on what `lapse` answered.
  unfoldable pub give_back : Request → Bool → Action FallBack
  give_back request exhausted =
      branch exhausted
        (do
          _ ← transition request RequestState.shortlisted system
          back ← require_request request.id
          _ ← transition back RequestState.searching system
          pure researching)
        (do _ ← transition request RequestState.shortlisted system; pure back_to_shortlist)

  unfoldable pub fall_back : Attempt → ℕ → Settlement → Option DeclineReasonCode → Action FallBack
  fall_back attempt now decision reason = branch (not has_interest) (pure not_enabled) (do
    answer ←
        on_store (settle_confirmation attempt.id attempt.expert_profile_id decision now none reason)
    on_option answer (pure already_settled) (λ settled. do
      request ← require_request attempt.support_request_id
      branch (not (is_state RequestState.awaiting_expert_confirmation request)) (pure not_awaiting)
          (do result ← lapse request.id attempt.id; give_back request result.exhausted)))

  unfoldable pub lapse_open : Attempt → ℕ → Action FallBack
  lapse_open attempt now =
      branch (not (has_status AttemptStatus.confirming attempt)) (pure already_settled) (
        branch (is_before now attempt.offer_expires_at) (pure not_yet_due)
          (fall_back attempt now settle_timed_out none))

  unfoldable pub lapse_confirmation : ℕ → ℕ → Action FallBack
  lapse_confirmation attempt_id now = branch (not has_interest) (pure not_enabled) (do
    found ← find_attempt_by_id attempt_id
    on_option found (pure unknown_attempt) (λ attempt. lapse_open attempt now))

  -- `after ?? settled ?? attempt`
  abbrev latest_of : Option Attempt → Option Attempt → Attempt → Attempt
  latest_of (some after) before attempt = after
  latest_of none (some before) attempt = before
  latest_of none none attempt = attempt

  unfoldable pub decline_confirmation : Actor → ℕ → ℕ → Option DeclineReasonCode → Action Attempt
  decline_confirmation actor attempt_id now reason = do
    _ ← require_permission actor offer_respond
    attempt ← require_own_attempt actor attempt_id
    _ ← raise_if (not (has_status AttemptStatus.confirming attempt)) conflict
    before ← find_attempt_by_id attempt_id
    _ ← fall_back attempt now settle_declined reason
    after ← find_attempt_by_id attempt_id
    pure (latest_of after before attempt)
