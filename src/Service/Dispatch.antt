-- ===== src/Service/Dispatch.antt =====
-- Stage 4 of matching-service.ts: offering a request to one candidate after another, and widening the
-- search. The two loops run on fuel.
use salesforce_expert_suppor.Prelude.{
  ℕ, zero, suc, ◌+◌, ◌-◌, ◌*◌, ◌/◌, Bool, false, not, ◌&&◌, Option, none, some, List, [], ◌∷◌, map,
  length, if◌then◌else◌, leb, ltb, max, min, ◌==◌,
}
use salesforce_expert_suppor.Contracts.{RequestState, AttemptStatus}
use salesforce_expert_suppor.Requests.Machine.{system}
use salesforce_expert_suppor.Dispatch.Attempts.{Attempt, has_status}
use salesforce_expert_suppor.Dispatch.Store.{
  Opened, opened, not_opened, conflict, open_offer, close_offer, close_withdrawn,
  supersede_ranked_attempts,
}
use salesforce_expert_suppor.Dispatch.Counting.{count}
use salesforce_expert_suppor.Matching.Number.{Number}
use salesforce_expert_suppor.Matching.Relaxation.{
  max_relaxation_level, scheduled_level, engages_at_seconds,
}
use salesforce_expert_suppor.Matching.Rank.{RankedCandidate, ExcludedCandidate}
use salesforce_expert_suppor.Service.World.{
  Request, Run, dispatch_queue, timeout_queue, level_key, timeout_key,
}
use salesforce_expert_suppor.Service.Monad.{
  Action, pure, raise, reads, on_store, branch, ◌>>=◌, enqueue, or_raise, on_option, internal,
  out_of_fuel,
}
use salesforce_expert_suppor.Service.Requests.{is_state, require_request, transition, give_up}
use salesforce_expert_suppor.Service.Runs.{
  persist_run, latest_run, next_round_number, complete_run, next_ranked_attempt,
}
use salesforce_expert_suppor.Service.Setup.{Deps, rank_for}

-- `DispatchOutcome`, less its texts.
pub data Outcome : Type 0 where
  offered : Attempt → ℕ → Outcome
  broadcast : ℕ → Outcome
  relaxed : ℕ → Outcome
  no_expert_found deadline_passed already_offered not_searching : Outcome

-- `Math.ceil(ms / 1000)`, and 0 for a negative difference.
abbrev pub seconds_until : ℕ → ℕ → ℕ
seconds_until at now = (at - now + 999) / 1000

-- `scheduleOfferTimeout`: `attempt.offerExpiresAt ?? now`
abbrev expiry_or : ℕ → Option ℕ → ℕ
expiry_or now none = now
expiry_or now (some at) = at

unfoldable pub schedule_offer_timeout : Attempt → ℕ → Action (Unit {0})
schedule_offer_timeout attempt now = enqueue record {
  queue = timeout_queue;
  request_id = attempt.support_request_id;
  attempt_id = some attempt.id;
  run_after_seconds = some (seconds_until (expiry_or now attempt.offer_expires_at) now);
  key = timeout_key attempt.id;
}

-- `openOffer` inside its `try`: a conflict is caught, and is no offer.
abbrev pub opened_attempt : Opened → Option Attempt
opened_attempt (opened a) = some a
opened_attempt not_opened = none
opened_attempt (conflict a) = none

unfoldable pub try_open : Attempt → ℕ → ℕ → Action (Option Attempt)
try_open attempt now expires_at = on_store (λ s.
    let (answer, after) = open_offer attempt.id attempt.expert_profile_id now expires_at s in
    (opened_attempt answer, after))

-- A candidate that cannot be offered is withdrawn, at no cost to the expert.
unfoldable pub withdraw : Attempt → ℕ → Action (Option Attempt)
withdraw attempt now =
    on_store (close_offer attempt.id attempt.expert_profile_id close_withdrawn now none false none)

unfoldable pub announce : Request → ℕ → Attempt → Action (Option Attempt)
announce request now attempt = do
  _ ← transition request RequestState.offered system
  _ ← schedule_offer_timeout attempt now
  pure (some attempt)

abbrev pub ranked_pairs : {N : Number} → List (RankedCandidate N) → List (ℕ × ℕ)
ranked_pairs [] = []
ranked_pairs (c ∷ rest) = (c.expert_profile_id, c.rank) ∷ ranked_pairs rest

abbrev pub is_open_in : ℕ → Attempt → Bool
is_open_in run a = (a.matching_run_id == run) && has_status AttemptStatus.ranked a

module _ (N : Number) (D : Deps N) where
  open D use {offer_window_seconds, relaxation_schedule_seconds}

  -- No offer outlives the matching deadline.
  abbrev pub offer_deadline : Request → ℕ → ℕ
  offer_deadline request now = min (now + offer_window_seconds * 1000) request.match_deadline_at

  -- `createRun`
  unfoldable pub create_run : Request → ℕ → ℕ → Action Run
  create_run request level now = do
    found ← reads (rank_for N D request level now)
    ranking ← or_raise found internal
    round ← next_round_number request.id
    persist_run request.id round level (length ranking.ranked) now (ranked_pairs ranking.ranked)
        (map (λ (e : ExcludedCandidate). e.expert_profile_id) ranking.excluded)

  -- The loop of `tryOfferFromRun`.
  unfoldable pub try_offers : ℕ → Request → ℕ → ℕ → Action (Option Attempt)
  try_offers zero request run now = raise out_of_fuel
  try_offers (suc fuel) request run now = do
    next ← next_ranked_attempt run
    on_option next (pure none) (λ attempt. do
      taken ← try_open attempt now (offer_deadline request now)
      on_option taken (withdraw attempt now >>= λ _. try_offers fuel request run now)
          (announce request now))

  -- Each turn takes one attempt of the run out of `RANKED`, so their number is fuel enough.
  unfoldable pub try_offer_from_run : Request → ℕ → ℕ → Action (Option Attempt)
  try_offer_from_run request run now w =
      try_offers (suc (count (is_open_in run) w.store.attempts)) request run now w

  abbrev pub elapsed_seconds : Request → ℕ → ℕ
  elapsed_seconds request now = (now - request.created_at) / 1000

  abbrev pub is_due : Request → ℕ → ℕ → Bool
  is_due request now level =
      leb level (scheduled_level (elapsed_seconds request now) relaxation_schedule_seconds)

  -- `secondsUntilNextLevel`
  abbrev pub seconds_until_level : ℕ → Request → ℕ → ℕ
  seconds_until_level level request now = max 2 (
      seconds_until
        (request.created_at + engages_at_seconds level relaxation_schedule_seconds * 1000) now)

  abbrev pub come_back : Request → ℕ → ℕ → Action (Unit {0})
  come_back request level seconds = enqueue record {
    queue = dispatch_queue;
    request_id = request.id;
    attempt_id = none;
    run_after_seconds = some seconds;
    key = level_key request.id level;
  }

  -- The loop of `dispatchNextOffer`, on the run in hand.
  unfoldable pub dispatch_from : ℕ → Request → Run → ℕ → Action Outcome
  dispatch_from zero request run now = raise out_of_fuel
  dispatch_from (suc fuel) request run now = do
    taken ← try_offer_from_run request run.id now
    on_option taken
        (branch (ltb max_relaxation_level (suc run.relaxation_level))
          (do _ ← give_up request; pure no_expert_found)
          (branch (not (is_due request now (suc run.relaxation_level)))
            (do
              _ ←
                  come_back request (suc run.relaxation_level)
                    (seconds_until_level (suc run.relaxation_level) request now)
              pure (relaxed run.relaxation_level))
            (do
              _ ← on_store (supersede_ranked_attempts run.id now)
              _ ← complete_run run.id now
              wider ← create_run request (suc run.relaxation_level) now
              dispatch_from fuel request wider now)))
        (λ attempt. pure (offered attempt run.relaxation_level))

  -- `latestRunForRequest`, or a first run.
  unfoldable pub current_run : Request → ℕ → Action Run
  current_run request now = do
    latest ← latest_run request.id
    on_option latest (create_run request 0 now) (λ run. pure run)

  -- `dispatchNextOffer` in the exclusive mode. Four turns reach the last level from any.
  unfoldable pub dispatch_exclusive : ℕ → ℕ → Action Outcome
  dispatch_exclusive id now = do
    request ← require_request id
    branch (not (is_state RequestState.searching request))
        (pure (if is_state RequestState.offered request then already_offered else not_searching))
        (branch (leb request.match_deadline_at now) (do _ ← give_up request; pure deadline_passed)
          (do run ← current_run request now; dispatch_from 4 request run now))
