-- ===== src/Service/Tests.antt =====
-- Runs of the service on two requests, one of them offered to an expert.
use salesforce_expert_suppor.Prelude.{
  ℕ, ◌+◌, ◌*◌, ◌≤◌, ◌≡◌, ◌≢◌, ◌⊎◌, refl, true, false, none, some, List, [], ◌∷◌, arith, length,
  index,
}
use salesforce_expert_suppor.Contracts.{
  RequestState, CurrencyCode, RequestState-discrete, AttemptStatus, AttemptStatus-discrete,
  AttemptOrigin, AccountStatus, UserRole, ExpertStatus,
}
use salesforce_expert_suppor.Requests.History.{Move, replay, is_committed}
use salesforce_expert_suppor.Authorization.Policy.{Actor}
use salesforce_expert_suppor.Dispatch.Attempts.{Attempt, has_status}
use salesforce_expert_suppor.Dispatch.Store.{find_attempt}
use salesforce_expert_suppor.Matching.Number.{thousandths}
use salesforce_expert_suppor.Matching.Scoring.{default_weights}
use salesforce_expert_suppor.Matching.Samples.{limits, code_units}
use salesforce_expert_suppor.Matching.Relaxation.{default_relaxation_schedule_seconds}
use salesforce_expert_suppor.Service.World.{World, Request, find_in}
use salesforce_expert_suppor.Service.Setup.{Deps}
use salesforce_expert_suppor.Service.Monad.{ok, err, out_of_fuel}
use salesforce_expert_suppor.Service.Calls.{perform_all, is_consent, Call, declining, dispatching}
use salesforce_expert_suppor.Service.Valid.{IsValid}
use salesforce_expert_suppor.Service.Refines.Calls.{perform_all-replay, perform_all-consent}
use salesforce_expert_suppor.Service.Ends.Calls.{
  perform_all-IsValid, dispatch_next_offer_terminates,
}
use salesforce_expert_suppor.Service.Confirmation.{lapse_confirmation, researching}
use salesforce_expert_suppor.Service.Admin.{dispatch_next_offer, recover_stalled_searches}
use salesforce_expert_suppor.Requests.Machine.{
  assert_transition, find_transition, transitions, TransitionActor-discrete,
}
use salesforce_expert_suppor.Authorization.Policy.{authorize, can}
use salesforce_expert_suppor.Dispatch.Attempts.{patch}
use salesforce_expert_suppor.Dispatch.Store.{
  close_offer, closed_attempt, open_offer, offered_until, close_accepted, supersede_ranked_attempts,
}
use salesforce_expert_suppor.Service.World.{update_request}
use salesforce_expert_suppor.Service.Monad.{
  branch, on_option, raise_if, enqueue, or_raise, on_store, reads, pure, raise, ◌>>=◌,
}
use salesforce_expert_suppor.Service.Requests.{
  require_request, find_request, transition, check_transition, asserted, apply_transition,
  apply_found, assign_expert,
}
use salesforce_expert_suppor.Service.Runs.{complete_run, next_ranked_attempt, next_ranked_in}
use salesforce_expert_suppor.Service.Dispatch.{
  try_offer_from_run, try_offers, try_open, announce, schedule_offer_timeout,
}
use salesforce_expert_suppor.Service.Deadlines.{try_offer_from_run_deadline}
use salesforce_expert_suppor.Service.Responses.{
  accept_offer, accept_open, require_permission, permitted, require_own_attempt, find_attempt_by_id,
  owns, is_past,
}
use salesforce_expert_suppor.Service.Acceptance.{accept_offer_ok, Accepted}
use salesforce_expert_suppor.Service.Fallback.{lapse_confirmation_researching}

abbrev deps : Deps thousandths
deps = record {
  weights = default_weights thousandths;
  thresholds = limits;
  offer_window_seconds = 45;
  candidate_pool_size = 5;
  relaxation_schedule_seconds = default_relaxation_schedule_seconds;
  find_candidates = λ world request skills now limit. [];
  seed_of = λ id. id ∷ [];
  code_units = code_units;
  broadcast_size = 5;
  interest_window_seconds = 120;
  has_interest = true;
  is_interest_pool = false;
}

abbrev request : ℕ → RequestState → Request
request id state = record {
  id = id;
  customer_id = 7;
  state = state;
  version = 4;
  match_deadline_at = 600000;
  assigned_expert_id = none;
  created_at = 0;
  quoted_price_cents = 3635;
  currency = CurrencyCode.usd;
  skills = [];
}

abbrev attempt : ℕ → ℕ → ℕ → AttemptStatus → Attempt
attempt id request expert status = record {
  id = id;
  matching_run_id = 1;
  support_request_id = request;
  expert_profile_id = expert;
  origin = AttemptOrigin.algorithmic;
  rank = some 1;
  status = status;
  offered_at = some 1000;
  offer_expires_at = some 46000;
  responded_at = none;
  response_seconds = none;
  decline_reason = none;
}

abbrev world : World
world = record {
  requests =
      request 10 RequestState.offered
      ∷ request 11 RequestState.searching
      ∷ request 12 RequestState.awaiting_expert_confirmation
      ∷ [];
  runs = [];
  store = record {
    attempts =
        attempt 2 10 5 AttemptStatus.offered
        ∷ attempt 3 11 6 AttemptStatus.ranked
        ∷ attempt 4 12 8 AttemptStatus.confirming
        ∷ [];
    availability = λ e. none;
    reliability_hits = [];
  };
  counter = 4;
  jobs = [];
  payments = [];
  charges = [];
}

abbrev expert_of : ℕ → Actor
expert_of profile = record {
  user_id = 20;
  roles = UserRole.expert ∷ [];
  status = AccountStatus.active;
  email_verified = true;
  customer_profile_id = none;
  expert = some (record { profile_id = profile; status = ExpertStatus.approved });
}

abbrev calls : List Call
calls = declining (expert_of 5) 2 none 0 20000 ∷ dispatching 11 21000 ∷ []

perform_all-replay_example :
    (s : Request) × (find_in 10 (perform_all thousandths deps calls world).requests ≡ some s)
    × (moves : List Move) × (replay RequestState.offered moves ≡ some s.state)
    × (4 + length moves ≡ s.version)
perform_all-replay_example =
    perform_all-replay thousandths deps calls world 10 (request 10 RequestState.offered) refl

perform_all-consent_example :
    (s : Request) × (find_in 11 (perform_all thousandths deps calls world).requests ≡ some s)
    × (is_committed s.state ≡ false)
unfolding is_consent is_committed
perform_all-consent_example =
    perform_all-consent thousandths deps calls world 11 (request 11 RequestState.searching) refl
      refl refl

world-IsValid : IsValid world
unfolding AttemptStatus-discrete
world-IsValid = record { exclusive = λ request expert. ground arith; below = refl }

perform_all-IsValid_example : IsValid (perform_all thousandths deps calls world)
perform_all-IsValid_example = perform_all-IsValid thousandths deps calls world world-IsValid

dispatch_next_offer_terminates_example :
    ((dispatch_next_offer thousandths deps 11 21000 world).0 ≢ err out_of_fuel)
    × ((recover_stalled_searches thousandths deps (11 ∷ []) 21000 0 world).0 ≢ err out_of_fuel)
dispatch_next_offer_terminates_example =
    dispatch_next_offer_terminates thousandths deps 11 (11 ∷ []) 21000 world world-IsValid

lapse_confirmation_researching_example :
    (lapse_confirmation thousandths deps 4 50000 world).0 ≢ ok researching
lapse_confirmation_researching_example =
    lapse_confirmation_researching thousandths deps 4 50000 world world-IsValid

abbrev accepted : Attempt
accepted = closed_attempt close_accepted 20000 none (attempt 2 10 5 AttemptStatus.offered)

accept_offer_ok_example :
    (a : Attempt) × (find_attempt 2 world.store.attempts ≡ some a)
    × (owns (some (record { profile_id = 5; status = ExpertStatus.approved })) a ≡ true)
    × (((has_status AttemptStatus.accepted a ≡ true)
          × ((accept_offer (expert_of 5) 2 20000 world).1 ≡ world))
        ⊎ ((has_status AttemptStatus.offered a ≡ true)
            × (is_past 20000 a.offer_expires_at ≡ false)
            × Accepted a (accept_offer (expert_of 5) 2 20000 world).1))
unfolding accept_offer require_permission permitted authorize require_own_attempt find_attempt_by_id
    accept_open require_request find_request transition check_transition asserted apply_transition
    apply_found assign_expert update_request complete_run branch on_option raise_if or_raise
    on_store reads pure raise ◌>>=◌ close_offer patch supersede_ranked_attempts assert_transition
    find_transition transitions RequestState-discrete AttemptStatus-discrete can index
    TransitionActor-discrete
accept_offer_ok_example =
    accept_offer_ok (expert_of 5) 2 20000 world (accept_offer (expert_of 5) 2 20000 world).1
      accepted refl

abbrev searching : Request
searching = request 11 RequestState.searching

abbrev given : Attempt
given = offered_until 65000 20000 (attempt 3 11 6 AttemptStatus.ranked)

try_offer_from_run_deadline_example :
    (at : ℕ) × (given.status ≡ AttemptStatus.offered)
    × (given.offer_expires_at ≡ some at)
    × (at ≤ 600000)
    × (at ≤ 20000 + 45 * 1000)
unfolding try_offer_from_run try_offers next_ranked_attempt next_ranked_in try_open announce
    schedule_offer_timeout open_offer find_request transition check_transition asserted
    apply_transition apply_found update_request branch on_option or_raise on_store reads pure raise
    enqueue ◌>>=◌ patch assert_transition find_transition transitions RequestState-discrete
    AttemptStatus-discrete index TransitionActor-discrete
try_offer_from_run_deadline_example =
    try_offer_from_run_deadline thousandths deps searching 1 20000 world
      (try_offer_from_run thousandths deps searching 1 20000 world).1 given refl
