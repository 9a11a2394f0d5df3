-- ===== src/Service/Requests.antt =====
-- How the service moves a request: `transition`, `giveUp` and `returnToSearching` of
-- matching-service.ts, over `applyTransition` and `assignExpert` of
-- packages/domain/src/support-requests/in-memory-request-world.ts. The transition's reason, metadata
-- and instant, which nothing reads back, are left out, and so are notices and logs.
use salesforce_expert_suppor.Prelude.{
  ℕ, suc, Bool, not, ◌&&◌, Option, none, some, if◌then◌else◌, ◌==◌, leb, same,
}
use salesforce_expert_suppor.Contracts.{RequestState, RequestState-discrete}
use salesforce_expert_suppor.Requests.Machine.{
  TransitionActor, system, Asserted, legal, illegal, assert_transition,
}
use salesforce_expert_suppor.Service.World.{
  Request, dispatch_queue, no_key, find_in, update_request,
}
use salesforce_expert_suppor.Service.Monad.{
  Action, ok, not_found, conflict, illegal_transition, pure, raise, reads, branch, ◌>>=◌, ◌>>◌,
  enqueue, or_raise, on_option,
}

abbrev pub is_state : RequestState → Request → Bool
is_state state r = same RequestState-discrete r.state state

unfoldable pub find_request : ℕ → Action (Option Request)
find_request id = reads (λ w. find_in id w.requests)

unfoldable pub require_request : ℕ → Action Request
require_request id = do found ← find_request id; or_raise found not_found

-- `applyTransition`: nothing is written, and the answer is `null`, if the row has another version.
abbrev pub moved : RequestState → Request → Request
moved to r = record r { state = to; version = suc r.version }

unfoldable pub apply_found : ℕ → RequestState → ℕ → Option Request → Action (Option Request)
apply_found id to expected none w = (ok none, w)
apply_found id to expected (some current) w =
    if current.version == expected
    then (
      ok (some (moved to current)),
      record w { requests = update_request id (moved to) w.requests },
    )
    else (ok none, w)

unfoldable pub apply_transition : ℕ → RequestState → ℕ → Action (Option Request)
unfolding apply_found
apply_transition id to expected w = apply_found id to expected (find_in id w.requests) w

unfoldable pub assign_expert : ℕ → ℕ → Action (Unit {0})
assign_expert id expert w = (
  ok tt,
  record w {
    requests = update_request id (λ r. record r { assigned_expert_id = some expert }) w.requests;
  },
)

unfoldable pub asserted : Asserted → Action (Unit {0})
asserted (legal rule) = pure tt
asserted (illegal why) = raise illegal_transition

-- `assertTransition`, on the state of the record in hand.
unfoldable pub check_transition : RequestState → RequestState → TransitionActor → Action (Unit {0})
unfolding asserted pure raise
check_transition from to actor = asserted (assert_transition from to actor)

-- `transition`: check the table, then write against the version in hand.
unfoldable pub transition : Request → RequestState → TransitionActor → Action Request
transition request to actor = do
  check_transition request.state to actor
  updated ← apply_transition request.id to request.version
  or_raise updated conflict

unfoldable pub give_up : Request → Action (Unit {0})
give_up request =
    branch
      (not (is_state RequestState.searching request) && not (is_state RequestState.offered request))
      (pure tt) (do transition request RequestState.no_expert_found system >>= λ _. pure tt)

-- `returnToSearching`, on the request it has found.
unfoldable pub return_found : ℕ → ℕ → Request → Action (Unit {0})
return_found id now request = branch (not (is_state RequestState.offered request)) (pure tt) (
    branch (leb request.match_deadline_at now) (give_up request) (do
      _ ← transition request RequestState.searching system
      enqueue record {
        queue = dispatch_queue;
        request_id = id;
        attempt_id = none;
        run_after_seconds = none;
        key = no_key;
      }))

unfoldable pub return_to_searching : ℕ → ℕ → Action (Unit {0})
return_to_searching id now = do
  found ← find_request id
  on_option found (pure tt) (return_found id now)
