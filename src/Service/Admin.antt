-- ===== src/Service/Admin.antt =====
-- Manual dispatch, the entry points and the janitors of matching-service.ts. The audit row is left
-- out; the rows that the janitors work on come from a query, and are arguments.
use salesforce_expert_suppor.Prelude.{
  ℕ, suc, ◌+◌, ◌*◌, Bool, true, false, not, ◌&&◌, none, some, List, [], ◌∷◌, ◌==◌,
}
use salesforce_expert_suppor.Contracts.{RequestState, AttemptOrigin, AvailabilityStatus}
use salesforce_expert_suppor.Requests.Machine.{admin}
use salesforce_expert_suppor.Authorization.Policy.{
  Actor, matching_admin_assign, matching_admin_force_assign,
}
use salesforce_expert_suppor.Dispatch.Attempts.{Attempt}
use salesforce_expert_suppor.Dispatch.Store.{
  Opened, opened, not_opened, conflict, open_offer, close_offer, close_superseded, close_withdrawn,
}
use salesforce_expert_suppor.Matching.Number.{Number}
use salesforce_expert_suppor.Service.World.{deadline_queue, deadline_key}
use salesforce_expert_suppor.Service.Monad.{
  Action, Error, validation, pure, raise, reads, on_store, branch, ◌>>=◌, ◌>>◌, enqueue, on_option,
  raise_if,
}
use salesforce_expert_suppor.Service.Requests.{
  is_state, require_request, transition, return_to_searching,
}
use salesforce_expert_suppor.Service.Runs.{
  create_admin_attempt, open_offer_of, open_offer_for_expert,
}
use salesforce_expert_suppor.Service.Setup.{Deps}
use salesforce_expert_suppor.Service.Dispatch.{
  Outcome, offered, broadcast, no_expert_found, seconds_until, schedule_offer_timeout, current_run,
  dispatch_exclusive,
}
use salesforce_expert_suppor.Service.Responses.{require_permission}
use salesforce_expert_suppor.Service.Confirmation.{
  broadcast_interest, lapse_confirmation, FallBack, researching, back_to_shortlist,
}

-- The two origins of manual dispatch.
pub data Manual : Type 0 where
  assign force_assign : Manual

abbrev pub origin_of : Manual → AttemptOrigin
origin_of assign = AttemptOrigin.admin_assign
origin_of force_assign = AttemptOrigin.admin_force_assign

-- An open offer of the request is superseded.
unfoldable pub supersede_open : ℕ → ℕ → Action (Unit {0})
supersede_open request_id now = do
  found ← reads (open_offer_of request_id)
  on_option found (pure tt) (λ a. do
    _ ← on_store (
        close_offer a.id a.expert_profile_id close_superseded now none false
          (some AvailabilityStatus.available))
    pure tt)

-- `openOffer` outside a `try`: a conflict is thrown, and so is its refusal.
unfoldable pub take_opened : Opened → Action Attempt
take_opened (opened a) = pure a
take_opened not_opened = raise Error.conflict
take_opened (conflict a) = raise Error.conflict

unfoldable pub open_manually : Attempt → ℕ → ℕ → ℕ → Action Attempt
unfolding take_opened
open_manually attempt expert now expires_at = do
  answer ← on_store (open_offer attempt.id expert now expires_at)
  take_opened answer

module _ (N : Number) (D : Deps N) where
  open D use {offer_window_seconds, has_interest, is_interest_pool}

  -- `adminOffer`; `reason_length` is the length of the trimmed reason.
  unfoldable pub admin_offer : ℕ → ℕ → ℕ → Manual → ℕ → Action Attempt
  admin_offer request_id expert reason_length manual now = do
    _ ← raise_if (reason_length == 0) validation
    request ← require_request request_id
    _ ←
        raise_if
          (not (is_state RequestState.searching request)
            && not (is_state RequestState.offered request))
          Error.conflict
    held ← reads (open_offer_for_expert expert)
    on_option held (pure tt) (λ a. raise Error.conflict)
    supersede_open request.id now
    run ← current_run N D request now
    attempt ← create_admin_attempt run.id request.id expert (origin_of manual)
    given ← open_manually attempt expert now (now + offer_window_seconds * 1000)
    again ← require_request request.id
    _ ← transition again RequestState.offered admin
    _ ← schedule_offer_timeout given now
    pure given

  unfoldable pub admin_assign : Actor → ℕ → ℕ → ℕ → ℕ → Action Attempt
  admin_assign actor request_id expert reason_length now = do
    _ ← require_permission actor matching_admin_assign
    admin_offer request_id expert reason_length assign now

  unfoldable pub admin_force_assign : Actor → ℕ → ℕ → ℕ → ℕ → Action Attempt
  admin_force_assign actor request_id expert reason_length now = do
    _ ← require_permission actor matching_admin_force_assign
    admin_offer request_id expert reason_length force_assign now

  unfoldable pub dispatch_next_offer : ℕ → ℕ → Action Outcome
  dispatch_next_offer id now =
      branch (is_interest_pool && has_interest) (broadcast_interest N D id now)
        (dispatch_exclusive N D id now)

  unfoldable pub begin_search : ℕ → ℕ → Action Outcome
  begin_search id now = do
    request ← require_request id
    _ ← enqueue record {
      queue = deadline_queue;
      request_id = id;
      attempt_id = none;
      run_after_seconds = some (seconds_until request.match_deadline_at now);
      key = deadline_key id;
    }
    dispatch_next_offer id now

  -- The loops of the three janitors, each with the count so far.
  unfoldable pub reconcile_stale_offers : List Attempt → ℕ → ℕ → Action ℕ
  reconcile_stale_offers [] now withdrawn = pure withdrawn
  reconcile_stale_offers (a ∷ rest) now withdrawn = do
    closed ← on_store (
        close_offer a.id a.expert_profile_id close_withdrawn now none false
          (some AvailabilityStatus.offline))
    on_option closed (reconcile_stale_offers rest now withdrawn) (λ c. do
      return_to_searching a.support_request_id now
      reconcile_stale_offers rest now (suc withdrawn))

  abbrev settles : Outcome → Bool
  settles (offered a level) = true
  settles (broadcast n) = true
  settles no_expert_found = true
  settles _ = false

  unfoldable pub recover_stalled_searches : List ℕ → ℕ → ℕ → Action ℕ
  recover_stalled_searches [] now recovered = pure recovered
  recover_stalled_searches (id ∷ rest) now recovered = do
    outcome ← dispatch_next_offer id now
    branch (settles outcome) (recover_stalled_searches rest now (suc recovered))
        (recover_stalled_searches rest now recovered)

  abbrev gave_back : FallBack → Bool
  gave_back researching = true
  gave_back back_to_shortlist = true
  gave_back _ = false

  unfoldable pub reconcile_lapsed : List Attempt → ℕ → ℕ → Action ℕ
  reconcile_lapsed [] now lapsed = pure lapsed
  reconcile_lapsed (a ∷ rest) now lapsed = do
    answer ← lapse_confirmation N D a.id now
    branch (gave_back answer) (reconcile_lapsed rest now (suc lapsed))
        (reconcile_lapsed rest now lapsed)
