-- ===== src/Dispatch/Pool.antt =====
-- The interest pool and the confirmations: those operations of `FakeMatchingRepository` in
-- matching/in-memory-matching-world.ts. `none` is an answer of `null`.
use salesforce_expert_suppor.Prelude.{
  ℕ, Bool, true, false, not, ◌&&◌, ◌||◌, Option, none, some, List, map, length, if◌then◌else◌, ◌==◌,
  ltb, select, any, includes, find_first, sort_by, ℕ_discrete,
}
use salesforce_expert_suppor.Contracts.{AttemptStatus, AvailabilityStatus, DeclineReasonCode}
use salesforce_expert_suppor.Dispatch.Attempts.{
  Attempt, has_status, patch, confirming_by, confirming_on,
}
use salesforce_expert_suppor.Dispatch.Store.{Store, set_availability, with_attempts, find_attempt}

-- `recordInterest`: was the attempt answered, and the store after.
unfoldable pub record_interest : ℕ → ℕ → Bool → ℕ → Store → Bool × Store
record_interest attempt_id expert interested now store =
    elim (find_first
      (λ a.
        (a.id == attempt_id)
        && ((a.expert_profile_id == expert) && has_status AttemptStatus.ranked a))
      store.attempts) [
        | none ↦ (false, store)
        | some attempt ↦ (
          true,
          with_attempts
              (patch attempt.id
                (λ a. record a {
                  status =
                      if interested then AttemptStatus.interested else AttemptStatus.not_interested;
                  responded_at = some now;
                })
                store.attempts)
              store,
        )
      ]

-- `attempt.rank ?? 1e9`
abbrev rank_or_last : Option ℕ → ℕ
rank_or_last none = 1000000000
rank_or_last (some rank) = rank

abbrev pub by_rank : Attempt → Attempt → Bool
by_rank a b = ltb (rank_or_last a.rank) (rank_or_last b.rank)

unfoldable pub list_interested : ℕ → Store → List Attempt
list_interested request store = sort_by by_rank (
    select (λ a. (a.support_request_id == request) && has_status AttemptStatus.interested a)
      store.attempts)

unfoldable pub list_shortlisted : ℕ → Store → List Attempt
list_shortlisted request store = sort_by by_rank (
    select
      (λ a.
        (a.support_request_id == request)
        && (has_status AttemptStatus.shortlisted a || has_status AttemptStatus.confirming a))
      store.attempts)

-- One turn of the loop of `markShortlisted`. Identifiers are unique, so that its `patch` of the
-- attempt in hand is a change in place.
abbrev pub mark_one : ℕ → List ℕ → Attempt → Attempt
mark_one request chosen a =
    if not (a.support_request_id == request)
    then a
    else if includes ℕ_discrete a.id chosen
    then record a { status = AttemptStatus.shortlisted }
    else if has_status AttemptStatus.interested a || has_status AttemptStatus.ranked a
    then record a { status = AttemptStatus.superseded }
    else a

unfoldable pub mark_shortlisted : ℕ → List ℕ → Store → ℕ × Store
mark_shortlisted request chosen store = (
  length (
      select (λ a. (a.support_request_id == request) && includes ℕ_discrete a.id chosen)
        store.attempts),
  with_attempts (map (mark_one request chosen) store.attempts) store,
)

-- `startConfirmation`, once the attempt is found: is somebody else confirming already?
abbrev pub is_contested : Attempt → List Attempt → Bool
is_contested attempt attempts =
    any (λ a. confirming_on attempt.support_request_id a && not (a.id == attempt.id)) attempts
    || any (λ a. confirming_by attempt.expert_profile_id a && not (a.id == attempt.id)) attempts

abbrev pub confirming_until : ℕ → ℕ → Attempt → Attempt
confirming_until expires_at now a = record a {
  status = AttemptStatus.confirming;
  offered_at = some now;
  offer_expires_at = some expires_at;
}

unfoldable pub start_confirmation : ℕ → ℕ → ℕ → Store → Option Attempt × Store
start_confirmation attempt_id expires_at now store =
    elim (find_first (λ a. (a.id == attempt_id) && has_status AttemptStatus.shortlisted a)
      store.attempts) [
        | none ↦ (none, store)
        | some attempt ↦
            if is_contested attempt store.attempts
            then (none, store)
            else let after = patch attempt.id (confirming_until expires_at now) store.attempts in
              (find_attempt attempt_id after, with_attempts after store)
      ]

-- The statuses in which a confirmation ends.
pub data Settlement : Type 0 where
  settle_accepted settle_timed_out settle_declined : Settlement

abbrev pub settled : Settlement → AttemptStatus
settled settle_accepted = AttemptStatus.accepted
settled settle_timed_out = AttemptStatus.timed_out
settled settle_declined = AttemptStatus.declined

unfoldable pub settle_confirmation :
    ℕ
    → ℕ
    → Settlement
    → ℕ
    → Option AvailabilityStatus
    → Option DeclineReasonCode
    → Store
    → Option Attempt × Store
settle_confirmation attempt_id expert to_status now release_to reason store =
    elim (find_first (λ a. (a.id == attempt_id) && has_status AttemptStatus.confirming a)
      store.attempts) [
        | none ↦ (none, store)
        | some attempt ↦
            let after =
              patch attempt.id
                (λ a. record a {
                  status = settled to_status;
                  responded_at = some now;
                  decline_reason = reason;
                })
                store.attempts in
            (
              find_attempt attempt_id after,
              set_availability expert release_to (with_attempts after store),
            )
      ]
