-- ===== src/Dispatch/Tests.antt =====
-- Runs of the store on two attempts of one expert.
use salesforce_expert_suppor.Prelude.{ℕ, ◌≤◌, ◌≡◌, refl, none, some, [], ◌∷◌, true, arith}
use salesforce_expert_suppor.Contracts.{
  AttemptStatus, AttemptStatus-discrete, AttemptOrigin, AvailabilityStatus, DeclineReasonCode,
}
use salesforce_expert_suppor.Dispatch.Attempts.{
  Attempt, patch, offered_to, confirming_by, confirming_on,
}
use salesforce_expert_suppor.Dispatch.Store.{
  Store, open_offer, offered_until, close_declined, close_timed_out, close_offer, closed_attempt,
}
use salesforce_expert_suppor.Dispatch.Pool.{start_confirmation}
use salesforce_expert_suppor.Dispatch.Counting.{count, distinct_ids}
use salesforce_expert_suppor.Dispatch.Offers.{close_offer_once}
use salesforce_expert_suppor.Dispatch.Steps.{stay, next, offer, start, Steps-Exclusive}

abbrev attempt : ℕ → ℕ → AttemptStatus → Attempt
attempt id request status = record {
  id = id;
  matching_run_id = 1;
  support_request_id = request;
  expert_profile_id = 5;
  origin = AttemptOrigin.algorithmic;
  rank = some 1;
  status = status;
  offered_at = none;
  offer_expires_at = none;
  responded_at = none;
  response_seconds = none;
  decline_reason = none;
}

abbrev two_requests : Store
two_requests = record {
  attempts = attempt 1 10 AttemptStatus.ranked ∷ attempt 2 11 AttemptStatus.shortlisted ∷ [];
  availability = λ e. none;
  reliability_hits = [];
}

abbrev offered : Store
offered = (open_offer 1 5 1000 46000 two_requests).1

abbrev confirming : Store
confirming = (start_confirmation 2 130000 10000 offered).1

Steps-Exclusive_example :
    (distinct_ids confirming.attempts ≡ true)
    × (count (offered_to 5) confirming.attempts ≤ 1)
    × (count (confirming_on 11) confirming.attempts ≤ 1)
    × (count (confirming_by 5) confirming.attempts ≤ 1)
unfolding AttemptStatus-discrete
Steps-Exclusive_example =
    Steps-Exclusive 11 5 two_requests confirming
      (next (offer 1 1000 46000 (attempt 1 10 AttemptStatus.ranked) two_requests refl)
        (next (start 2 130000 10000 offered) (stay confirming)))
      (refl, omega arith, omega arith, omega arith)

-- A decline and then the timeout of the same offer.
close_offer_once_example :
    let after =
      (close_offer 1 5 close_declined 20000
        (some DeclineReasonCode.too_complex)
        true
        (some AvailabilityStatus.available)
        offered).1 in
    close_offer 1 5 close_timed_out 46000 none true (some AvailabilityStatus.available) after
    ≡ (none, after)
unfolding open_offer patch AttemptStatus-discrete close_offer
close_offer_once_example =
    close_offer_once 1 5 close_declined close_timed_out 20000 46000
      (some DeclineReasonCode.too_complex) none true true (some AvailabilityStatus.available)
      (some AvailabilityStatus.available)
      (closed_attempt close_declined 20000 (some DeclineReasonCode.too_complex)
        (offered_until 46000 1000 (attempt 1 10 AttemptStatus.ranked)))
      offered refl
