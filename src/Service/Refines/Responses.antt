-- ===== src/Service/Refines/Responses.antt =====
-- The answers and the clocks of an offer, and the steps of interest-dispatch.ts, are safe.
use salesforce_expert_suppor.Prelude.{ℕ, ◌≡◌, Bool, true, Option, List}
use salesforce_expert_suppor.Dispatch.Attempts.{Attempt}
use salesforce_expert_suppor.Requests.Machine.{TransitionActor}
use salesforce_expert_suppor.Requests.History.{Move}
use salesforce_expert_suppor.Contracts.{RequestState, DeclineReasonCode}
use salesforce_expert_suppor.Authorization.Policy.{
  Actor, Permission, Authorized, granted, authorize, authenticated,
}
use salesforce_expert_suppor.Service.World.{Request}
use salesforce_expert_suppor.Service.Moving.{Safe, Held, Allowed}
use salesforce_expert_suppor.Service.Safe.{steps}
use salesforce_expert_suppor.Service.Requests.{give_up, return_found, return_to_searching}
use salesforce_expert_suppor.Service.Responses.{
  require_permission, require_own_attempt, accept_open, accept_offer, decline_open, decline_offer,
  expire_open, expire_offer, withdraw_open, expire_matching, find_attempt_by_id, permitted,
}
use salesforce_expert_suppor.Service.Interest.{
  open_window, respond, close_window, select_one, lapse,
}
use salesforce_expert_suppor.Service.Dispatch.{schedule_offer_timeout, announce}

pub give_up-Safe :
    (p : Move → Bool) (held : List Request) (request : Request)
    → Held request held
    → Allowed p
    → Safe p held (give_up request)
unfolding give_up
give_up-Safe p held request in_hand allowed = search (steps, allowed.by_system) depth 40

pub return_to_searching-Safe :
    (p : Move → Bool) (held : List Request) (id : ℕ) (now : ℕ)
    → Allowed p
    → Safe p held (return_to_searching id now)
unfolding return_to_searching return_found
return_to_searching-Safe p held id now allowed =
    search (steps, allowed.by_system, give_up-Safe) depth 40

permitted-Safe :
    (p : Move → Bool) (held : List Request) (a : Authorized) → Safe p held (permitted a)
unfolding permitted
permitted-Safe p held (granted a) = search steps
permitted-Safe p held _ = search steps

pub require_permission-Safe :
    (p : Move → Bool) (held : List Request) (actor : Actor) (permission : Permission)
    → Allowed p
    → Safe p held (require_permission actor permission)
unfolding require_permission permitted
require_permission-Safe p held actor permission allowed =
    permitted-Safe p held (authorize (authenticated actor) permission)

pub require_own_attempt-Safe :
    (p : Move → Bool) (held : List Request) (actor : Actor) (id : ℕ)
    → Allowed p
    → Safe p held (require_own_attempt actor id)
unfolding require_own_attempt find_attempt_by_id
require_own_attempt-Safe p held actor id allowed = search steps depth 40

pub accept_open-Safe :
    (p : Move → Bool) (held : List Request) (actor : Actor) (attempt : Attempt) (now : ℕ)
    → Allowed p
    → p (TransitionActor.expert, RequestState.accepted) ≡ true
    → Safe p held (accept_open actor attempt now)
unfolding accept_open
accept_open-Safe p held actor attempt now allowed by_expert = search steps depth 40

pub accept_offer-Safe :
    (p : Move → Bool) (held : List Request) (actor : Actor) (attempt_id : ℕ) (now : ℕ)
    → Allowed p
    → p (TransitionActor.expert, RequestState.accepted) ≡ true
    → Safe p held (accept_offer actor attempt_id now)
unfolding accept_offer
accept_offer-Safe p held actor attempt_id now allowed by_expert =
    search (steps, require_permission-Safe, require_own_attempt-Safe, accept_open-Safe) depth 40

pub decline_open-Safe :
    (p : Move → Bool) (held : List Request) (attempt : Attempt) (now : ℕ)
    (reason : Option DeclineReasonCode) (note_length : ℕ)
    → Allowed p
    → Safe p held (decline_open attempt now reason note_length)
unfolding decline_open
decline_open-Safe p held attempt now reason note_length allowed =
    search (steps, return_to_searching-Safe) depth 40

pub decline_offer-Safe :
    (p : Move → Bool) (held : List Request) (actor : Actor) (attempt_id : ℕ) (now : ℕ)
    (reason : Option DeclineReasonCode) (note_length : ℕ)
    → Allowed p
    → Safe p held (decline_offer actor attempt_id now reason note_length)
unfolding decline_offer
decline_offer-Safe p held actor attempt_id now reason note_length allowed =
    search (steps, require_permission-Safe, require_own_attempt-Safe, decline_open-Safe) depth 40

pub expire_open-Safe :
    (p : Move → Bool) (held : List Request) (attempt : Attempt) (now : ℕ)
    → Allowed p
    → Safe p held (expire_open attempt now)
unfolding expire_open
expire_open-Safe p held attempt now allowed = search (steps, return_to_searching-Safe) depth 40

pub expire_offer-Safe :
    (p : Move → Bool) (held : List Request) (attempt_id : ℕ) (now : ℕ)
    → Allowed p
    → Safe p held (expire_offer attempt_id now)
unfolding expire_offer find_attempt_by_id
expire_offer-Safe p held attempt_id now allowed = search (steps, expire_open-Safe) depth 40

pub withdraw_open-Safe :
    (p : Move → Bool) (held : List Request) (request_id : ℕ) (now : ℕ)
    → Allowed p
    → Safe p held (withdraw_open request_id now)
unfolding withdraw_open
withdraw_open-Safe p held request_id now allowed = search steps depth 40

pub expire_matching-Safe :
    (p : Move → Bool) (held : List Request) (request_id : ℕ) (now : ℕ)
    → Allowed p
    → Safe p held (expire_matching request_id now)
unfolding expire_matching
expire_matching-Safe p held request_id now allowed =
    search (steps, withdraw_open-Safe, give_up-Safe) depth 40

pub open_window-Safe :
    (p : Move → Bool) (held : List Request) (broadcast_size : ℕ) (window_seconds : ℕ)
    (request : Request)
    → Allowed p
    → Safe p held (open_window broadcast_size window_seconds request)
unfolding open_window
open_window-Safe p held broadcast_size window_seconds request allowed = search steps depth 40

pub respond-Safe :
    (p : Move → Bool) (held : List Request) (actor : Actor) (attempt_id : ℕ) (interested : Bool)
    (now : ℕ)
    → Allowed p
    → Safe p held (respond actor attempt_id interested now)
unfolding respond
respond-Safe p held actor attempt_id interested now allowed =
    search (steps, require_permission-Safe) depth 40

pub close_window-Safe :
    (p : Move → Bool) (held : List Request) (request : Request)
    → Allowed p
    → Safe p held (close_window request)
unfolding close_window
close_window-Safe p held request allowed = search steps depth 40

pub select_one-Safe :
    (p : Move → Bool) (held : List Request) (request_id : ℕ) (attempt_id : ℕ) (now : ℕ)
    → Allowed p
    → Safe p held (select_one request_id attempt_id now)
unfolding select_one
select_one-Safe p held request_id attempt_id now allowed = search steps depth 40

pub lapse-Safe :
    (p : Move → Bool) (held : List Request) (request_id : ℕ) (attempt_id : ℕ)
    → Allowed p
    → Safe p held (lapse request_id attempt_id)
unfolding lapse
lapse-Safe p held request_id attempt_id allowed = search steps depth 40

pub schedule_offer_timeout-Safe :
    (p : Move → Bool) (held : List Request) (attempt : Attempt) (now : ℕ)
    → Allowed p
    → Safe p held (schedule_offer_timeout attempt now)
unfolding schedule_offer_timeout
schedule_offer_timeout-Safe p held attempt now allowed = search steps depth 40

pub announce-Safe :
    (p : Move → Bool) (held : List Request) (request : Request) (now : ℕ) (attempt : Attempt)
    → Held request held
    → Allowed p
    → Safe p held (announce request now attempt)
unfolding announce
announce-Safe p held request now attempt in_hand allowed =
    search (steps, allowed.by_system, schedule_offer_timeout-Safe) depth 40
