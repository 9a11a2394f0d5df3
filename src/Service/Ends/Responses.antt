-- ===== src/Service/Ends/Responses.antt =====
-- The answers and the clocks of an offer, and the steps of interest-dispatch.ts, end in valid worlds.
use salesforce_expert_suppor.Prelude.{ℕ, Bool, Option}
use salesforce_expert_suppor.Dispatch.Attempts.{Attempt}
use salesforce_expert_suppor.Contracts.{DeclineReasonCode}
use salesforce_expert_suppor.Authorization.Policy.{
  Actor, Permission, Authorized, unauthenticated, forbidden, granted, authorize, authenticated,
}
use salesforce_expert_suppor.Service.World.{Request}
use salesforce_expert_suppor.Service.Valid.{Total, total}
use salesforce_expert_suppor.Service.Requests.{give_up, return_found, return_to_searching}
use salesforce_expert_suppor.Service.Responses.{
  require_permission, require_own_attempt, accept_open, accept_offer, decline_open, decline_offer,
  expire_open, expire_offer, withdraw_open, expire_matching, find_attempt_by_id, permitted,
}
use salesforce_expert_suppor.Service.Interest.{
  open_window, respond, close_window, select_one, lapse,
}

pub give_up-Total : (request : Request) → Total (give_up request)
unfolding give_up
give_up-Total request = search total depth 40

pub return_to_searching-Total : (id : ℕ) (now : ℕ) → Total (return_to_searching id now)
unfolding return_to_searching return_found
return_to_searching-Total id now = search (total, give_up-Total) depth 40

permitted-Total : (a : Authorized) → Total (permitted a)
unfolding permitted
permitted-Total (granted a) = search total
permitted-Total unauthenticated = search total
permitted-Total forbidden = search total

pub require_permission-Total :
    (actor : Actor) (permission : Permission) → Total (require_permission actor permission)
unfolding require_permission permitted
require_permission-Total actor permission =
    permitted-Total (authorize (authenticated actor) permission)

pub require_own_attempt-Total : (actor : Actor) (id : ℕ) → Total (require_own_attempt actor id)
unfolding require_own_attempt find_attempt_by_id
require_own_attempt-Total actor id = search total depth 40

pub accept_open-Total :
    (actor : Actor) (attempt : Attempt) (now : ℕ) → Total (accept_open actor attempt now)
unfolding accept_open
accept_open-Total actor attempt now = search total depth 40

pub accept_offer-Total :
    (actor : Actor) (attempt_id : ℕ) (now : ℕ) → Total (accept_offer actor attempt_id now)
unfolding accept_offer
accept_offer-Total actor attempt_id now =
    search (total, require_permission-Total, require_own_attempt-Total, accept_open-Total) depth 40

pub decline_open-Total :
    (attempt : Attempt) (now : ℕ) (reason : Option DeclineReasonCode) (note_length : ℕ)
    → Total (decline_open attempt now reason note_length)
unfolding decline_open
decline_open-Total attempt now reason note_length =
    search (total, return_to_searching-Total) depth 40

pub decline_offer-Total :
    (actor : Actor) (attempt_id : ℕ) (now : ℕ) (reason : Option DeclineReasonCode) (note_length : ℕ)
    → Total (decline_offer actor attempt_id now reason note_length)
unfolding decline_offer
decline_offer-Total actor attempt_id now reason note_length =
    search (total, require_permission-Total, require_own_attempt-Total, decline_open-Total) depth 40

pub expire_open-Total : (attempt : Attempt) (now : ℕ) → Total (expire_open attempt now)
unfolding expire_open
expire_open-Total attempt now = search (total, return_to_searching-Total) depth 40

pub expire_offer-Total : (attempt_id : ℕ) (now : ℕ) → Total (expire_offer attempt_id now)
unfolding expire_offer find_attempt_by_id
expire_offer-Total attempt_id now = search (total, expire_open-Total) depth 40

pub withdraw_open-Total : (request_id : ℕ) (now : ℕ) → Total (withdraw_open request_id now)
unfolding withdraw_open
withdraw_open-Total request_id now = search total depth 40

pub expire_matching-Total : (request_id : ℕ) (now : ℕ) → Total (expire_matching request_id now)
unfolding expire_matching
expire_matching-Total request_id now = search (total, withdraw_open-Total, give_up-Total) depth 40

pub open_window-Total :
    (broadcast_size : ℕ) (window_seconds : ℕ) (request : Request)
    → Total (open_window broadcast_size window_seconds request)
unfolding open_window
open_window-Total broadcast_size window_seconds request = search total depth 40

pub respond-Total :
    (actor : Actor) (attempt_id : ℕ) (interested : Bool) (now : ℕ)
    → Total (respond actor attempt_id interested now)
unfolding respond
respond-Total actor attempt_id interested now = search (total, require_permission-Total) depth 40

pub close_window-Total : (request : Request) → Total (close_window request)
unfolding close_window
close_window-Total request = search total depth 40

pub select_one-Total :
    (request_id : ℕ) (attempt_id : ℕ) (now : ℕ) → Total (select_one request_id attempt_id now)
unfolding select_one
select_one-Total request_id attempt_id now = search total depth 40

pub lapse-Total : (request_id : ℕ) (attempt_id : ℕ) → Total (lapse request_id attempt_id)
unfolding lapse
lapse-Total request_id attempt_id = search total depth 40
