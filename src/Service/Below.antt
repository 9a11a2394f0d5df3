-- ===== src/Service/Below.antt =====
-- The ids of attempts, which no step of the store changes: all are below a counter.
use salesforce_expert_suppor.Prelude.{
  ℕ, ◌≡◌, refl, Bool, true, Option, List, [], ◌∷◌, ◌&&◌, ◌||◌, ◌==◌, arith, Bool-cases,
  Option-cases, inl, inr, all, leb, map, find_first,
}
use salesforce_expert_suppor.Contracts.{AttemptStatus, AvailabilityStatus, DeclineReasonCode}
use salesforce_expert_suppor.Dispatch.Attempts.{Attempt, patch, has_status, offered_to}
use salesforce_expert_suppor.Dispatch.Store.{
  Store, Closing, open_offer, close_offer, supersede_ranked_attempts, find_attempt, may_close,
  may_offer, offered_until, supersede_one,
}
use salesforce_expert_suppor.Dispatch.Pool.{
  Settlement, record_interest, mark_shortlisted, start_confirmation, settle_confirmation, mark_one,
  is_contested, confirming_until,
}
use salesforce_expert_suppor.Dispatch.Offers.{set_availability-attempts, close_offer-attempts}
use salesforce_expert_suppor.Dispatch.Steps.{
  Step, interest, shortlist, start, settle, offer, close, supersede,
}

abbrev pub Below : ℕ → List Attempt → Type 0
Below n attempts = all (λ a. leb a.id n) attempts ≡ true

pub Below-patch :
    (n id : ℕ) (change : Attempt → Attempt) (xs : List Attempt)
    → ((a : Attempt) → (change a).id ≡ a.id)
    → Below n xs
    → Below n (patch id change xs)
unfolding patch
Below-patch n id change [] k h = h
Below-patch n id change (a ∷ xs) k h = ground (arith, k a, Below-patch n id change xs k)

pub Below-map :
    (n : ℕ) (change : Attempt → Attempt) (xs : List Attempt)
    → ((a : Attempt) → (change a).id ≡ a.id)
    → Below n xs
    → Below n (map change xs)
Below-map n change [] k h = h
Below-map n change (a ∷ xs) k h = ground (arith, k a, Below-map n change xs k)

open_offer-Below :
    (n id expert now expires_at : ℕ) (s : Store)
    → Below n s.attempts
    → Below n (open_offer id expert now expires_at s).1.attempts
unfolding open_offer
open_offer-Below n id expert now expires_at s h =
    elim (Option-cases (find_first (offered_to expert) s.attempts)) [
      | inr (held, f) ↦ rw (f, open_offer) h
      | inl free ↦ elim (Option-cases (find_attempt id s.attempts)) [
        | inl f ↦ rw (free, f, open_offer) h
        | inr (a, f) ↦
            elim (Bool-cases (
              (has_status AttemptStatus.ranked a || has_status AttemptStatus.excluded a)
              && may_offer a.origin (s.availability expert))) [
                | inl may ↦
                    rw (free, f, may, open_offer)
                      (Below-patch n id (offered_until expires_at now) s.attempts (λ b. refl) h)
                | inr may_not ↦ rw (free, f, may_not, open_offer) h
              ]
      ]
    ]

close_offer-Below :
    (n id expert : ℕ) (to : Closing) (now : ℕ) (reason : Option DeclineReasonCode) (counts : Bool)
    (release_to : Option AvailabilityStatus) (s : Store)
    → Below n s.attempts
    → Below n (close_offer id expert to now reason counts release_to s).1.attempts
unfolding close_offer
close_offer-Below n id expert to now reason counts release_to s h =
    elim (Option-cases (find_attempt id s.attempts)) [
      | inl f ↦ rw (f, close_offer) h
      | inr (a, f) ↦ elim (Bool-cases (may_close to a)) [
        | inl m ↦
            rw (close_offer-attempts id expert to now reason counts release_to a s f m)
              (Below-patch n id _ s.attempts (λ b. refl) h)
        | inr m ↦ rw (f, m, close_offer) h
      ]
    ]

settle_confirmation-Below :
    (n id expert : ℕ) (to : Settlement) (now : ℕ) (release_to : Option AvailabilityStatus)
    (reason : Option DeclineReasonCode) (s : Store)
    → Below n s.attempts
    → Below n (settle_confirmation id expert to now release_to reason s).1.attempts
unfolding settle_confirmation
settle_confirmation-Below n id expert to now release_to reason s h =
    elim (Option-cases
      (find_first (λ a. (a.id == id) && has_status AttemptStatus.confirming a) s.attempts)) [
        | inl f ↦ rw (f, settle_confirmation) h
        | inr (a, f) ↦
            rw (f, settle_confirmation, set_availability-attempts expert release_to _)
              (Below-patch n a.id _ s.attempts (λ b. refl) h)
      ]

start_confirmation-Below :
    (n id expires_at now : ℕ) (s : Store)
    → Below n s.attempts
    → Below n (start_confirmation id expires_at now s).1.attempts
unfolding start_confirmation
start_confirmation-Below n id expires_at now s h =
    elim (Option-cases
      (find_first (λ a. (a.id == id) && has_status AttemptStatus.shortlisted a) s.attempts)) [
        | inl f ↦ rw (f, start_confirmation) h
        | inr (a, f) ↦ elim (Bool-cases (is_contested a s.attempts)) [
          | inl c ↦ rw (f, c, start_confirmation) h
          | inr c ↦
              rw (f, c, start_confirmation)
                (Below-patch n a.id (confirming_until expires_at now) s.attempts (λ b. refl) h)
        ]
      ]

record_interest-Below :
    (n id expert : ℕ) (willing : Bool) (now : ℕ) (s : Store)
    → Below n s.attempts
    → Below n (record_interest id expert willing now s).1.attempts
unfolding record_interest
record_interest-Below n id expert willing now s h =
    elim (Option-cases (
      find_first
        (λ a.
          (a.id == id) && ((a.expert_profile_id == expert) && has_status AttemptStatus.ranked a))
        s.attempts)) [
          | inl f ↦ rw (f, record_interest) h
          | inr (a, f) ↦ rw (f, record_interest) (Below-patch n a.id _ s.attempts (λ b. refl) h)
        ]

pub Step-Below : (n : ℕ) (s t : Store) → Step s t → Below n s.attempts → Below n t.attempts
unfolding mark_shortlisted supersede_ranked_attempts
Step-Below n _ _ (interest id e willing now s) h = record_interest-Below n id e willing now s h
Step-Below n _ _ (shortlist r chosen s) h =
    Below-map n (mark_one r chosen) s.attempts (λ a. ground arith) h
Step-Below n _ _ (start id expires_at now s) h = start_confirmation-Below n id expires_at now s h
Step-Below n _ _ (settle id e to now release_to reason s) h =
    settle_confirmation-Below n id e to now release_to reason s h
Step-Below n _ _ (offer id now expires_at a s found) h =
    open_offer-Below n id a.expert_profile_id now expires_at s h
Step-Below n _ _ (close id e to now reason counts release_to s) h =
    close_offer-Below n id e to now reason counts release_to s h
Step-Below n _ _ (supersede run now s) h =
    Below-map n (supersede_one run now) s.attempts (λ a. ground arith) h
