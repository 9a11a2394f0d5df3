-- ===== src/Service/Responses.antt =====
-- The expert's answer to an offer, and the clocks that run out, in matching-service.ts.
use salesforce_expert_suppor.Prelude.{
  ℕ, Bool, true, false, not, ◌&&◌, Option, none, some, ltb, ◌==◌,
}
use salesforce_expert_suppor.Contracts.{
  RequestState, AttemptStatus, AvailabilityStatus, DeclineReasonCode,
}
use salesforce_expert_suppor.Requests.Machine.{expert}
use salesforce_expert_suppor.Authorization.Policy.{
  Actor, ExpertIdentity, Permission, offer_respond, Authorized, granted, unauthenticated, authorize,
  authenticated,
}
use salesforce_expert_suppor.Dispatch.Attempts.{Attempt, has_status}
use salesforce_expert_suppor.Dispatch.Store.{
  find_attempt, close_offer, close_accepted, close_declined, close_timed_out, close_withdrawn,
  supersede_ranked_attempts,
}
use salesforce_expert_suppor.Service.World.{timeout_queue, retry_key}
use salesforce_expert_suppor.Service.Monad.{
  Action, Error, pure, raise, reads, on_store, branch, ◌>>=◌, enqueue, or_raise, on_option,
  raise_if, not_found, conflict, validation,
}
use salesforce_expert_suppor.Service.Requests.{
  is_state, find_request, require_request, transition, give_up, return_to_searching, assign_expert,
}
use salesforce_expert_suppor.Service.Runs.{complete_run, open_offer_of}
use salesforce_expert_suppor.Service.Dispatch.{seconds_until}

unfoldable pub permitted : Authorized → Action (Unit {0})
permitted (granted a) = pure tt
permitted unauthenticated = raise Error.unauthenticated
permitted _ = raise Error.forbidden

-- `authorize(actor, permission)`
unfoldable pub require_permission : Actor → Permission → Action (Unit {0})
unfolding permitted
require_permission actor permission = permitted (authorize (authenticated actor) permission)

unfoldable pub find_attempt_by_id : ℕ → Action (Option Attempt)
find_attempt_by_id id = reads (λ w. find_attempt id w.store.attempts)

abbrev pub owns : Option ExpertIdentity → Attempt → Bool
owns none attempt = false
owns (some e) attempt = e.profile_id == attempt.expert_profile_id

-- `requireOwnAttempt`
unfoldable pub require_own_attempt : Actor → ℕ → Action Attempt
require_own_attempt actor id = do
  found ← find_attempt_by_id id
  attempt ← or_raise found not_found
  _ ← raise_if (not (owns actor.expert attempt)) Error.forbidden
  pure attempt

-- `deadline && now > deadline`, and `deadline && now < deadline`
abbrev pub is_past : ℕ → Option ℕ → Bool
is_past now none = false
is_past now (some at) = ltb at now

abbrev pub is_before : ℕ → Option ℕ → Bool
is_before now none = false
is_before now (some at) = ltb now at

unfoldable pub accept_open : Actor → Attempt → ℕ → Action Attempt
accept_open actor attempt now = do
  _ ← raise_if (not (has_status AttemptStatus.offered attempt)) conflict
  _ ← raise_if (is_past now attempt.offer_expires_at) conflict
  request ← require_request attempt.support_request_id
  answer ← on_store (
      close_offer attempt.id attempt.expert_profile_id close_accepted now none true
        (some AvailabilityStatus.in_session))
  closed ← or_raise answer conflict
  _ ← transition request RequestState.accepted expert
  _ ← assign_expert request.id attempt.expert_profile_id
  _ ← on_store (supersede_ranked_attempts attempt.matching_run_id now)
  _ ← complete_run attempt.matching_run_id now
  pure closed

unfoldable pub accept_offer : Actor → ℕ → ℕ → Action Attempt
accept_offer actor attempt_id now = do
  _ ← require_permission actor offer_respond
  attempt ← require_own_attempt actor attempt_id
  branch (has_status AttemptStatus.accepted attempt) (pure attempt) (accept_open actor attempt now)

-- `note_length` is the length of the note, 0 for none.
unfoldable pub decline_open : Attempt → ℕ → Option DeclineReasonCode → ℕ → Action Attempt
decline_open attempt now reason note_length = do
  _ ← raise_if (not (has_status AttemptStatus.offered attempt)) conflict
  _ ← raise_if (ltb 500 note_length) validation
  answer ← on_store (
      close_offer attempt.id attempt.expert_profile_id close_declined now reason true
        (some AvailabilityStatus.available))
  closed ← or_raise answer conflict
  _ ← return_to_searching attempt.support_request_id now
  pure closed

unfoldable pub decline_offer : Actor → ℕ → ℕ → Option DeclineReasonCode → ℕ → Action Attempt
decline_offer actor attempt_id now reason note_length = do
  _ ← require_permission actor offer_respond
  attempt ← require_own_attempt actor attempt_id
  branch (has_status AttemptStatus.declined attempt) (pure attempt)
      (decline_open attempt now reason note_length)

-- What `expireOffer` answers.
pub data Expiry : Type 0 where
  expired gone not_offered not_yet answered_first : Expiry

unfoldable pub expire_open : Attempt → ℕ → Action Expiry
expire_open attempt now =
    branch (not (has_status AttemptStatus.offered attempt)) (pure not_offered) (
      branch (is_before now attempt.offer_expires_at)
        (do
          _ ← enqueue record {
            queue = timeout_queue;
            request_id = attempt.support_request_id;
            attempt_id = some attempt.id;
            run_after_seconds = some (remaining attempt.offer_expires_at);
            key = retry_key attempt.id;
          }
          pure not_yet)
        (do
          answer ← on_store (
              close_offer attempt.id attempt.expert_profile_id close_timed_out now none true
                (some AvailabilityStatus.available))
          on_option answer (pure answered_first)
              (λ closed. do _ ← return_to_searching attempt.support_request_id now; pure expired)))
  where
    remaining : Option ℕ → ℕ
    remaining none = 0
    remaining (some at) = seconds_until at now

unfoldable pub expire_offer : ℕ → ℕ → Action Expiry
expire_offer attempt_id now = do
  found ← find_attempt_by_id attempt_id
  on_option found (pure gone) (λ attempt. expire_open attempt now)

-- What `expireMatching` answers.
pub data GaveUp : Type 0 where
  gave_up no_request not_matching before_deadline : GaveUp

unfoldable pub withdraw_open : ℕ → ℕ → Action (Unit {0})
withdraw_open request_id now = do
  found ← reads (open_offer_of request_id)
  on_option found (pure tt) (λ a. do
    _ ← on_store (
        close_offer a.id a.expert_profile_id close_withdrawn now none false
          (some AvailabilityStatus.available))
    pure tt)

unfoldable pub expire_matching : ℕ → ℕ → Action GaveUp
expire_matching request_id now = do
  found ← find_request request_id
  on_option found (pure no_request) (λ request.
      branch
        (not (is_state RequestState.searching request)
          && not (is_state RequestState.offered request))
        (pure not_matching)
        (branch (ltb now request.match_deadline_at) (pure before_deadline)
          (do _ ← withdraw_open request_id now; _ ← give_up request; pure gave_up)))
