-- ===== src/Service/Interest.antt =====
-- The interest pool of interest-dispatch.ts: asking, shortlisting, selecting, and lapsing. The scores
-- that `closeWindow` hands to `selectShortlist` are not read there; a shortlist is chosen by place.
use salesforce_expert_suppor.Prelude.{
  ℕ, ◌-◌, ◌/◌, Bool, true, false, not, ◌&&◌, Option, none, some, List, map, leb, ◌==◌, length,
  select, any, includes, find_first, sort_by, take, ℕ_discrete,
}
use salesforce_expert_suppor.Contracts.{RequestState, AttemptStatus}
use salesforce_expert_suppor.Authorization.Policy.{Actor, ExpertIdentity, offer_respond}
use salesforce_expert_suppor.Experts.Availability.{is_empty}
use salesforce_expert_suppor.Dispatch.Attempts.{Attempt, has_status}
use salesforce_expert_suppor.Dispatch.Pool.{
  record_interest, list_interested, list_shortlisted, mark_shortlisted, start_confirmation,
}
use salesforce_expert_suppor.Matching.Shortlist.{
  shortlist_size, expert_confirm_seconds, confirmation_deadline, should_close_interest_window,
}
use salesforce_expert_suppor.Service.World.{
  Request, interest_queue, confirmation_queue, interest_key, confirm_key,
}
use salesforce_expert_suppor.Service.Monad.{
  Action, Error, pure, reads, on_store, branch, ◌>>=◌, enqueue, or_raise, raise_if, not_found,
  conflict,
}
use salesforce_expert_suppor.Service.Requests.{is_state}
use salesforce_expert_suppor.Service.Runs.{attempts_of, by_first_rank}
use salesforce_expert_suppor.Service.Responses.{require_permission}

-- `InterestOutcome`
pub data InterestOutcome : Type 0 where
  broadcasted : ℕ → InterestOutcome
  shortlisted : ℕ → InterestOutcome
  no_interest search_over : InterestOutcome

-- Was the attempt asked: ranked, and within the size of the broadcast?
abbrev pub within : ℕ → Option ℕ → Bool
within size none = false
within size (some rank) = leb rank size

abbrev pub is_asked : ℕ → Attempt → Bool
is_asked size a = has_status AttemptStatus.ranked a && within size a.rank

unfoldable pub open_window : ℕ → ℕ → Request → Action InterestOutcome
open_window broadcast_size window_seconds request =
    branch (not (is_state RequestState.searching request)) (pure search_over) (do
      _ ← enqueue record {
        queue = interest_queue;
        request_id = request.id;
        attempt_id = none;
        run_after_seconds = some window_seconds;
        key = interest_key request.id;
      }
      asked ← reads (λ w. select (is_asked broadcast_size) (attempts_of request.id w))
      pure (broadcasted (length asked)))

abbrev pub profile_of : Option ExpertIdentity → Option ℕ
profile_of none = none
profile_of (some e) = some e.profile_id

-- `respond`: was the answer the first?
unfoldable pub respond : Actor → ℕ → Bool → ℕ → Action Bool
respond actor attempt_id interested now = do
  _ ← require_permission actor offer_respond
  profile ← or_raise (profile_of actor.expert) Error.forbidden
  on_store (record_interest attempt_id profile interested now)

unfoldable pub should_close : ℕ → Request → ℕ → Action Bool
should_close window_seconds request now = do
  interested ← reads (λ w. list_interested request.id w.store)
  pure (
      should_close_interest_window (length interested) ((now - request.created_at) / 1000)
        window_seconds none)

abbrev has_rank : Attempt → Bool
has_rank a = elim a.rank [ none ↦ false | some rank ↦ true ]

abbrev experts_of : List Attempt → List ℕ
experts_of attempts = map (λ (a : Attempt). a.expert_profile_id) attempts

-- `closeWindow`'s choice: of the ranked in order of rank, those whose expert is interested, and of
-- these as many as fit.
unfoldable pub chosen_experts : List Attempt → List Attempt → List ℕ
chosen_experts attempts interested = take shortlist_size (
    select (λ e. includes ℕ_discrete e (experts_of interested))
      (experts_of (sort_by by_first_rank (select has_rank attempts))))

unfoldable pub chosen_attempts : List Attempt → List Attempt → List ℕ
chosen_attempts attempts interested =
    map (λ (a : Attempt). a.id)
      (select (λ a. includes ℕ_discrete a.expert_profile_id (chosen_experts attempts interested))
        interested)

unfoldable pub close_window : Request → Action InterestOutcome
close_window request = branch (not (is_state RequestState.searching request)) (pure search_over) (do
  interested ← reads (λ w. list_interested request.id w.store)
  branch (is_empty interested) (pure no_interest) (do
    attempts ← reads (attempts_of request.id)
    marked ← on_store (mark_shortlisted request.id (chosen_attempts attempts interested))
    pure (shortlisted marked)))

-- `select`
unfoldable pub select_one : ℕ → ℕ → ℕ → Action Attempt
select_one request_id attempt_id now = do
  list ← reads (λ w. list_shortlisted request_id w.store)
  chosen ← or_raise (find_first (λ a. a.id == attempt_id) list) not_found
  _ ← raise_if (any (has_status AttemptStatus.confirming) list) conflict
  answer ← on_store (start_confirmation attempt_id (confirmation_deadline now none) now)
  updated ← or_raise answer conflict
  _ ← enqueue record {
    queue = confirmation_queue;
    request_id = request_id;
    attempt_id = some attempt_id;
    run_after_seconds = some expert_confirm_seconds;
    key = confirm_key attempt_id;
  }
  pure updated

pub record Lapse : Type 0 where
  pub remaining : List Attempt
  pub exhausted : Bool

-- `lapse`, on the shortlist it reads.
abbrev pub lapse_from : List Attempt → ℕ → Lapse
lapse_from list attempt_id =
    let others = select (λ a. not (a.id == attempt_id)) list in
    elim (find_first (λ a. a.id == attempt_id) list) [
      | none ↦ record { remaining = list; exhausted = false }
      | some found ↦ record { remaining = others; exhausted = is_empty others }
    ]

unfoldable pub lapse : ℕ → ℕ → Action Lapse
lapse request_id attempt_id =
    reads (λ w. lapse_from (list_shortlisted request_id w.store) attempt_id)
