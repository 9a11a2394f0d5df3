-- ===== src/Service/Ends/Pool.antt =====
-- The interest pool and its confirmations end in valid worlds.
use salesforce_expert_suppor.Prelude.{ℕ, Bool, Option}
use salesforce_expert_suppor.Dispatch.Attempts.{Attempt}
use salesforce_expert_suppor.Contracts.{DeclineReasonCode}
use salesforce_expert_suppor.Authorization.Policy.{Actor}
use salesforce_expert_suppor.Service.World.{Request}
use salesforce_expert_suppor.Service.Valid.{Total, total}
use salesforce_expert_suppor.Matching.Number.{Number}
use salesforce_expert_suppor.Service.Setup.{Deps}
use salesforce_expert_suppor.Dispatch.Pool.{Settlement}
use salesforce_expert_suppor.Service.Responses.{find_attempt_by_id}
use salesforce_expert_suppor.Service.Interest.{
  InterestOutcome, broadcasted, shortlisted, no_interest, search_over,
}
use salesforce_expert_suppor.Service.Confirmation.{
  handle_empty_pool, broadcast_interest, close_interest_window, select_candidate, confirm_open,
  confirm_selection, give_back, fall_back, lapse_open, lapse_confirmation, decline_confirmation,
  after_close,
}
use salesforce_expert_suppor.Service.Ends.Responses.{
  give_up-Total, require_permission-Total, require_own_attempt-Total, open_window-Total,
  close_window-Total, select_one-Total, lapse-Total,
}
use salesforce_expert_suppor.Service.Ends.Dispatch.{create_run-Total}

module _ (N : Number) (D : Deps N) where
  pub handle_empty_pool-Total :
      (request : Request) (level : ℕ) (now : ℕ) → Total (handle_empty_pool N D request level now)
  unfolding handle_empty_pool
  handle_empty_pool-Total request level now = search (total, give_up-Total) depth 40

  pub broadcast_interest-Total : (id : ℕ) (now : ℕ) → Total (broadcast_interest N D id now)
  unfolding broadcast_interest
  broadcast_interest-Total id now =
      search (total, give_up-Total, create_run-Total, open_window-Total, handle_empty_pool-Total)
        depth 40

  after_close-Total :
      (request : Request) (now : ℕ) (outcome : InterestOutcome)
      → Total (after_close N D request now outcome)
  unfolding after_close
  after_close-Total request now (broadcasted n) = search total
  after_close-Total request now (shortlisted n) = search total depth 40
  after_close-Total request now no_interest = handle_empty_pool-Total request _ now
  after_close-Total request now search_over = search total

  pub close_interest_window-Total : (id : ℕ) (now : ℕ) → Total (close_interest_window N D id now)
  unfolding close_interest_window
  close_interest_window-Total id now =
      search (total, close_window-Total, after_close-Total) depth 40

  pub select_candidate-Total :
      (actor : Actor) (id : ℕ) (attempt_id : ℕ) (now : ℕ)
      → Total (select_candidate N D actor id attempt_id now)
  unfolding select_candidate
  select_candidate-Total actor id attempt_id now =
      search (total, require_permission-Total, select_one-Total) depth 40

  pub confirm_open-Total : (attempt : Attempt) (now : ℕ) → Total (confirm_open N D attempt now)
  unfolding confirm_open
  confirm_open-Total attempt now = search total depth 40

  pub confirm_selection-Total :
      (actor : Actor) (attempt_id : ℕ) (now : ℕ)
      → Total (confirm_selection N D actor attempt_id now)
  unfolding confirm_selection
  confirm_selection-Total actor attempt_id now =
      search (total, require_permission-Total, require_own_attempt-Total, confirm_open-Total) depth
        40

  pub give_back-Total :
      (request : Request) (exhausted : Bool) → Total (give_back N D request exhausted)
  unfolding give_back
  give_back-Total request exhausted = search total depth 40

  pub fall_back-Total :
      (attempt : Attempt) (now : ℕ) (decision : Settlement) (reason : Option DeclineReasonCode)
      → Total (fall_back N D attempt now decision reason)
  unfolding fall_back
  fall_back-Total attempt now decision reason =
      search (total, lapse-Total, give_back-Total) depth 40

  pub lapse_open-Total : (attempt : Attempt) (now : ℕ) → Total (lapse_open N D attempt now)
  unfolding lapse_open
  lapse_open-Total attempt now = search (total, fall_back-Total) depth 40

  pub lapse_confirmation-Total :
      (attempt_id : ℕ) (now : ℕ) → Total (lapse_confirmation N D attempt_id now)
  unfolding lapse_confirmation find_attempt_by_id
  lapse_confirmation-Total attempt_id now = search (total, lapse_open-Total) depth 40

  pub decline_confirmation-Total :
      (actor : Actor) (attempt_id : ℕ) (now : ℕ) (reason : Option DeclineReasonCode)
      → Total (decline_confirmation N D actor attempt_id now reason)
  unfolding decline_confirmation find_attempt_by_id
  decline_confirmation-Total actor attempt_id now reason =
      search (total, require_permission-Total, require_own_attempt-Total, fall_back-Total) depth 40
