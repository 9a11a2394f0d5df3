-- ===== src/Service/Refines/Pool.antt =====
-- The interest pool and its confirmations are safe.
use salesforce_expert_suppor.Prelude.{ℕ, ◌≡◌, Bool, true, Option, List}
use salesforce_expert_suppor.Dispatch.Attempts.{Attempt}
use salesforce_expert_suppor.Requests.Machine.{TransitionActor}
use salesforce_expert_suppor.Requests.History.{Move}
use salesforce_expert_suppor.Contracts.{RequestState, DeclineReasonCode}
use salesforce_expert_suppor.Authorization.Policy.{Actor}
use salesforce_expert_suppor.Service.World.{Request}
use salesforce_expert_suppor.Service.Moving.{Safe, Held, Allowed}
use salesforce_expert_suppor.Service.Safe.{steps}
use salesforce_expert_suppor.Matching.Number.{Number}
use salesforce_expert_suppor.Service.Setup.{Deps}
use salesforce_expert_suppor.Dispatch.Pool.{Settlement}
use salesforce_expert_suppor.Service.Responses.{find_attempt_by_id}
use salesforce_expert_suppor.Service.Interest.{
  InterestOutcome, broadcasted, shortlisted, no_interest, search_over,
}
use salesforce_expert_suppor.Service.Confirmation.{
  handle_empty_pool, broadcast_interest, close_interest_window, select_candidate, confirm_open,
  confirm_selection, give_back, fall_back, lapse_open, lapse_confirmation, decline_confirmation,
  after_close,
}
use salesforce_expert_suppor.Service.Refines.Responses.{
  give_up-Safe, require_permission-Safe, require_own_attempt-Safe, open_window-Safe,
  close_window-Safe, select_one-Safe, lapse-Safe,
}
use salesforce_expert_suppor.Service.Refines.Dispatch.{create_run-Safe}

module _ (N : Number) (D : Deps N) where
  pub handle_empty_pool-Safe :
      (p : Move → Bool) (held : List Request) (request : Request) (level : ℕ) (now : ℕ)
      → Held request held
      → Allowed p
      → Safe p held (handle_empty_pool N D request level now)
  unfolding handle_empty_pool
  handle_empty_pool-Safe p held request level now in_hand allowed =
      search (steps, give_up-Safe) depth 40

  pub broadcast_interest-Safe :
      (p : Move → Bool) (held : List Request) (id : ℕ) (now : ℕ)
      → Allowed p
      → Safe p held (broadcast_interest N D id now)
  unfolding broadcast_interest
  broadcast_interest-Safe p held id now allowed =
      search (steps, give_up-Safe, create_run-Safe, open_window-Safe, handle_empty_pool-Safe) depth
        40

  after_close-Safe :
      (p : Move → Bool) (held : List Request) (request : Request) (now : ℕ)
      (outcome : InterestOutcome)
      → Held request held
      → Allowed p
      → Safe p held (after_close N D request now outcome)
  unfolding after_close
  after_close-Safe p held request now (broadcasted n) i allowed = search steps
  after_close-Safe p held request now (shortlisted n) i allowed =
      search (steps, allowed.by_system) depth 40
  after_close-Safe p held request now no_interest i allowed =
      handle_empty_pool-Safe p held request _ now i allowed
  after_close-Safe p held request now search_over i allowed = search steps

  pub close_interest_window-Safe :
      (p : Move → Bool) (held : List Request) (id : ℕ) (now : ℕ)
      → Allowed p
      → Safe p held (close_interest_window N D id now)
  unfolding close_interest_window
  close_interest_window-Safe p held id now allowed =
      search (steps, close_window-Safe, after_close-Safe) depth 40

  pub select_candidate-Safe :
      (p : Move → Bool) (held : List Request) (actor : Actor) (id : ℕ) (attempt_id : ℕ) (now : ℕ)
      → Allowed p
      → Safe p held (select_candidate N D actor id attempt_id now)
  unfolding select_candidate
  select_candidate-Safe p held actor id attempt_id now allowed =
      search (steps, allowed.by_customer, require_permission-Safe, select_one-Safe) depth 40

  pub confirm_open-Safe :
      (p : Move → Bool) (held : List Request) (attempt : Attempt) (now : ℕ)
      → Allowed p
      → p (TransitionActor.expert, RequestState.accepted) ≡ true
      → Safe p held (confirm_open N D attempt now)
  unfolding confirm_open
  confirm_open-Safe p held attempt now allowed by_expert =
      search (steps, allowed.by_system) depth 40

  pub confirm_selection-Safe :
      (p : Move → Bool) (held : List Request) (actor : Actor) (attempt_id : ℕ) (now : ℕ)
      → Allowed p
      → p (TransitionActor.expert, RequestState.accepted) ≡ true
      → Safe p held (confirm_selection N D actor attempt_id now)
  unfolding confirm_selection
  confirm_selection-Safe p held actor attempt_id now allowed by_expert =
      search (steps, require_permission-Safe, require_own_attempt-Safe, confirm_open-Safe) depth 40

  pub give_back-Safe :
      (p : Move → Bool) (held : List Request) (request : Request) (exhausted : Bool)
      → Held request held
      → Allowed p
      → Safe p held (give_back N D request exhausted)
  unfolding give_back
  give_back-Safe p held request exhausted in_hand allowed =
      search (steps, allowed.by_system) depth 40

  pub fall_back-Safe :
      (p : Move → Bool) (held : List Request) (attempt : Attempt) (now : ℕ) (decision : Settlement)
      (reason : Option DeclineReasonCode)
      → Allowed p
      → Safe p held (fall_back N D attempt now decision reason)
  unfolding fall_back
  fall_back-Safe p held attempt now decision reason allowed =
      search (steps, lapse-Safe, give_back-Safe) depth 40

  pub lapse_open-Safe :
      (p : Move → Bool) (held : List Request) (attempt : Attempt) (now : ℕ)
      → Allowed p
      → Safe p held (lapse_open N D attempt now)
  unfolding lapse_open
  lapse_open-Safe p held attempt now allowed = search (steps, fall_back-Safe) depth 40

  pub lapse_confirmation-Safe :
      (p : Move → Bool) (held : List Request) (attempt_id : ℕ) (now : ℕ)
      → Allowed p
      → Safe p held (lapse_confirmation N D attempt_id now)
  unfolding lapse_confirmation find_attempt_by_id
  lapse_confirmation-Safe p held attempt_id now allowed = search (steps, lapse_open-Safe) depth 40

  pub decline_confirmation-Safe :
      (p : Move → Bool) (held : List Request) (actor : Actor) (attempt_id : ℕ) (now : ℕ)
      (reason : Option DeclineReasonCode)
      → Allowed p
      → Safe p held (decline_confirmation N D actor attempt_id now reason)
  unfolding decline_confirmation find_attempt_by_id
  decline_confirmation-Safe p held actor attempt_id now reason allowed =
      search (steps, require_permission-Safe, require_own_attempt-Safe, fall_back-Safe) depth 40
