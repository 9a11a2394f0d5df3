-- ===== src/Dispatch/Store.antt =====
-- The operations of `FakeMatchingRepository` in matching/in-memory-matching-world.ts that answer and
-- move attempts. `none` is an answer of `null`; `openOffer` can also throw a conflict.
use salesforce_expert_suppor.Prelude.{
  ℕ, ◌+◌, ◌-◌, ◌/◌, Bool, true, false, not, ◌&&◌, ◌||◌, Option, none, some, List, [], ◌∷◌, ◌++◌,
  map, length, if◌then◌else◌, ◌==◌, select, find_first,
}
use salesforce_expert_suppor.Contracts.{
  AttemptStatus, AttemptOrigin, AvailabilityStatus, DeclineReasonCode,
}
use salesforce_expert_suppor.Dispatch.Attempts.{Attempt, has_status, patch, offered_to}

-- The three variables of the store that these operations use. `availability` is a `Map`.
pub record Store : Type 0 where
  pub attempts : List Attempt
  pub availability : ℕ → Option AvailabilityStatus
  pub reliability_hits : List ℕ

abbrev pub set_availability : ℕ → Option AvailabilityStatus → Store → Store
set_availability expert none store = store
set_availability expert (some status) store = record store {
  availability = λ e. if e == expert then some status else store.availability e;
}

abbrev pub with_attempts : List Attempt → Store → Store
with_attempts attempts store = record store { attempts = attempts }

abbrev pub find_attempt : ℕ → List Attempt → Option Attempt
find_attempt id attempts = find_first (λ a. a.id == id) attempts

-- What `openOffer` answers: the attempt, `null`, or the conflict that it throws.
pub data Opened : Type 0 where
  opened : Attempt → Opened
  not_opened : Opened
  conflict : Attempt → Opened

abbrev is_algorithmic : AttemptOrigin → Bool
is_algorithmic AttemptOrigin.algorithmic = true
is_algorithmic _ = false

-- The test on the expert's availability: an administrator may also offer to an expert who is offline.
abbrev pub may_offer : AttemptOrigin → Option AvailabilityStatus → Bool
may_offer origin none = true
may_offer origin (some AvailabilityStatus.available) = true
may_offer origin (some AvailabilityStatus.offline) = not (is_algorithmic origin)
may_offer origin (some _) = false

abbrev pub offered_until : ℕ → ℕ → Attempt → Attempt
offered_until expires_at now a = record a {
  status = AttemptStatus.offered;
  offered_at = some now;
  offer_expires_at = some expires_at;
}

unfoldable pub open_offer : ℕ → ℕ → ℕ → ℕ → Store → Opened × Store
open_offer attempt_id expert now expires_at store =
    elim (find_first (offered_to expert) store.attempts) [
      | some held ↦ (conflict held, store)
      | none ↦ elim (find_attempt attempt_id store.attempts) [
        | none ↦ (not_opened, store)
        | some attempt ↦
            if (has_status AttemptStatus.ranked attempt
                || has_status AttemptStatus.excluded attempt)
              && may_offer attempt.origin (store.availability expert)
            then (
              opened (offered_until expires_at now attempt),
              set_availability expert (some AvailabilityStatus.on_offer) (
                  with_attempts (patch attempt_id (offered_until expires_at now) store.attempts)
                    store),
            )
            else (not_opened, store)
      ]
    ]

-- The statuses in which an offer ends.
pub data Closing : Type 0 where
  close_accepted close_declined close_timed_out close_superseded close_withdrawn : Closing

abbrev pub closed_as : Closing → AttemptStatus
closed_as close_accepted = AttemptStatus.accepted
closed_as close_declined = AttemptStatus.declined
closed_as close_timed_out = AttemptStatus.timed_out
closed_as close_superseded = AttemptStatus.superseded
closed_as close_withdrawn = AttemptStatus.withdrawn

abbrev is_withdrawal : Closing → Bool
is_withdrawal close_withdrawn = true
is_withdrawal _ = false

-- `Math.round((now - offeredAt) / 1000)`, for an offer that was not made later than `now`.
abbrev seconds_since : ℕ → Option ℕ → Option ℕ
seconds_since now none = none
seconds_since now (some offered_at) = some ((now - offered_at + 500) / 1000)

abbrev pub closed_attempt : Closing → ℕ → Option DeclineReasonCode → Attempt → Attempt
closed_attempt to_status now reason a = record a {
  status = closed_as to_status;
  responded_at = some now;
  response_seconds = seconds_since now a.offered_at;
  decline_reason = reason;
}

abbrev pub may_close : Closing → Attempt → Bool
may_close to_status a =
    has_status AttemptStatus.offered a
    || (is_withdrawal to_status && has_status AttemptStatus.ranked a)

abbrev count_hit : Bool → ℕ → Store → Store
count_hit false id store = store
count_hit true id store = record store { reliability_hits = store.reliability_hits ++ (id ∷ []) }

unfoldable pub close_offer :
    ℕ
    → ℕ
    → Closing
    → ℕ
    → Option DeclineReasonCode
    → Bool
    → Option AvailabilityStatus
    → Store
    → Option Attempt × Store
close_offer attempt_id expert to_status now reason counts release_to store =
    elim (find_attempt attempt_id store.attempts) [
      | none ↦ (none, store)
      | some attempt ↦
          if may_close to_status attempt
          then (
            some (closed_attempt to_status now reason attempt),
            set_availability expert release_to (
                count_hit counts attempt.id (
                  with_attempts
                    (patch attempt_id (closed_attempt to_status now reason) store.attempts) store)),
          )
          else (none, store)
    ]

abbrev pub supersede_one : ℕ → ℕ → Attempt → Attempt
supersede_one run now a =
    if (a.matching_run_id == run) && has_status AttemptStatus.ranked a
    then record a { status = AttemptStatus.superseded; responded_at = some now }
    else a

unfoldable pub supersede_ranked_attempts : ℕ → ℕ → Store → ℕ × Store
supersede_ranked_attempts run now store = (
  length (
      select (λ a. (a.matching_run_id == run) && has_status AttemptStatus.ranked a) store.attempts),
  with_attempts (map (supersede_one run now) store.attempts) store,
)
