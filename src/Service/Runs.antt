-- ===== src/Service/Runs.antt =====
-- Runs and attempts as `FakeMatchingRepository` of matching/in-memory-matching-world.ts creates and
-- finds them. Snapshots of weights, thresholds and filters, and scores and reasons, are written for
-- people only and left out.
use salesforce_expert_suppor.Prelude.{
  ℕ, suc, ◌+◌, Bool, not, ◌&&◌, ◌||◌, Option, none, some, List, [], ◌∷◌, ◌++◌, map, length,
  if◌then◌else◌, ◌==◌, ltb, any, select, sort_by, find_first,
}
use salesforce_expert_suppor.Contracts.{AttemptStatus, AttemptOrigin}
use salesforce_expert_suppor.Dispatch.Attempts.{Attempt, has_status}
use salesforce_expert_suppor.Dispatch.Store.{with_attempts}
use salesforce_expert_suppor.Service.World.{Run, World}
use salesforce_expert_suppor.Service.Monad.{Action, ok, reads}

-- `blankAttempt`
unfoldable pub blank_attempt : ℕ → ℕ → ℕ → ℕ → AttemptOrigin → Option ℕ → AttemptStatus → Attempt
blank_attempt id run request expert origin rank status = record {
  id = id;
  matching_run_id = run;
  support_request_id = request;
  expert_profile_id = expert;
  origin = origin;
  rank = rank;
  status = status;
  offered_at = none;
  offer_expires_at = none;
  responded_at = none;
  response_seconds = none;
  decline_reason = none;
}

-- The two loops of `persistRun`, from the id after the last one given.
unfoldable pub ranked_attempts : ℕ → ℕ → ℕ → List (ℕ × ℕ) → List Attempt
ranked_attempts id run request [] = []
ranked_attempts id run request ((expert, rank) ∷ rest) =
    blank_attempt id run request expert AttemptOrigin.algorithmic (some rank) AttemptStatus.ranked
    ∷ ranked_attempts (suc id) run request rest

unfoldable pub excluded_attempts : ℕ → ℕ → ℕ → List ℕ → List Attempt
excluded_attempts id run request [] = []
excluded_attempts id run request (expert ∷ rest) =
    blank_attempt id run request expert AttemptOrigin.algorithmic none AttemptStatus.excluded
    ∷ excluded_attempts (suc id) run request rest

abbrev new_run : ℕ → ℕ → ℕ → ℕ → ℕ → ℕ → Run
new_run id request round level pool_size now = record {
  id = id;
  support_request_id = request;
  round_number = round;
  relaxation_level = level;
  candidate_pool_size = pool_size;
  started_at = now;
  completed_at = none;
}

-- `persistRun`: `ranked` has the experts with their ranks, `excluded` the experts.
unfoldable pub persist_run : ℕ → ℕ → ℕ → ℕ → ℕ → List (ℕ × ℕ) → List ℕ → Action Run
persist_run request round level pool_size now ranked excluded w =
    let id = suc w.counter in
    (
      ok (new_run id request round level pool_size now),
      record w {
        runs = w.runs ++ (new_run id request round level pool_size now ∷ []);
        store =
            with_attempts
              (w.store.attempts
                ++ (ranked_attempts (suc id) id request ranked
                    ++ excluded_attempts (suc id + length ranked) id request excluded))
              w.store;
        counter = id + length ranked + length excluded;
      },
    )

abbrev last_of : List Run → Option Run
last_of [] = none
last_of (r ∷ []) = some r
last_of (r ∷ s ∷ rest) = last_of (s ∷ rest)

abbrev pub runs_of : ℕ → World → List Run
runs_of request w = select (λ r. r.support_request_id == request) w.runs

unfoldable pub latest_run : ℕ → Action (Option Run)
latest_run request = reads (λ w. last_of (runs_of request w))

unfoldable pub next_round_number : ℕ → Action ℕ
next_round_number request = reads (λ w. length (runs_of request w) + 1)

unfoldable pub complete_run : ℕ → ℕ → Action (Unit {0})
complete_run run now w = (
  ok tt,
  record w {
    runs =
        map (λ (r : Run). if r.id == run then record r { completed_at = some now } else r) w.runs;
  },
)

unfoldable pub create_admin_attempt : ℕ → ℕ → ℕ → AttemptOrigin → Action Attempt
create_admin_attempt run request expert origin w =
    let attempt =
      blank_attempt (suc w.counter) run request expert origin none AttemptStatus.ranked in
    (
      ok attempt,
      record w {
        store = with_attempts (w.store.attempts ++ (attempt ∷ [])) w.store;
        counter = suc w.counter;
      },
    )

abbrev pub has_responded : Attempt → Bool
has_responded a = has_status AttemptStatus.declined a || has_status AttemptStatus.timed_out a

unfoldable pub list_responded : ℕ → World → List ℕ
list_responded request w =
    map (λ (a : Attempt). a.expert_profile_id)
      (select (λ a. (a.support_request_id == request) && has_responded a) w.store.attempts)

-- Has the expert of an attempt answered an offer of its request?
abbrev pub already_answered : List Attempt → Attempt → Bool
already_answered attempts a =
    any
      (λ b.
        has_responded b
        && ((b.support_request_id == a.support_request_id)
            && (b.expert_profile_id == a.expert_profile_id)))
      attempts

-- `attempt.rank ?? 0`
abbrev rank_or_first : Option ℕ → ℕ
rank_or_first none = 0
rank_or_first (some rank) = rank

abbrev pub by_first_rank : Attempt → Attempt → Bool
by_first_rank a b = ltb (rank_or_first a.rank) (rank_or_first b.rank)

abbrev pub first_attempt : List Attempt → Option Attempt
first_attempt [] = none
first_attempt (a ∷ _) = some a

abbrev pub is_next : List Attempt → ℕ → Attempt → Bool
is_next attempts run a =
    ((a.matching_run_id == run) && has_status AttemptStatus.ranked a)
    && not (already_answered attempts a)

unfoldable pub next_ranked_in : ℕ → List Attempt → Option Attempt
next_ranked_in run attempts =
    first_attempt (sort_by by_first_rank (select (is_next attempts run) attempts))

unfoldable pub next_ranked_attempt : ℕ → Action (Option Attempt)
next_ranked_attempt run = reads (λ w. next_ranked_in run w.store.attempts)

abbrev pub attempts_of : ℕ → World → List Attempt
attempts_of request w = select (λ a. a.support_request_id == request) w.store.attempts

abbrev pub open_offer_of : ℕ → World → Option Attempt
open_offer_of request w =
    find_first (λ a. (a.support_request_id == request) && has_status AttemptStatus.offered a)
      w.store.attempts

abbrev pub open_offer_for_expert : ℕ → World → Option Attempt
open_offer_for_expert expert w =
    find_first (λ a. (a.expert_profile_id == expert) && has_status AttemptStatus.offered a)
      w.store.attempts
