-- ===== src/Dispatch/Quiet.antt =====
-- What an operation of the store does to the number of attempts held in a status, and to ids: the
-- operations below raise no such number.
use salesforce_expert_suppor.Prelude.{
  ℕ, ◌≤◌, ◌≡◌, refl, inl, inr, Bool, true, false, ◌&&◌, ◌||◌, Option, List, arith, ◌==◌, find_first,
  Bool-cases, Option-cases, same,
}
use salesforce_expert_suppor.Contracts.{
  AttemptStatus, AttemptStatus-discrete, AvailabilityStatus, DeclineReasonCode,
}
use salesforce_expert_suppor.Dispatch.Attempts.{Attempt, has_status, patch, offered_to}
use salesforce_expert_suppor.Dispatch.Store.{
  Store, open_offer, offered_until, may_offer, find_attempt, Closing, closed_as, close_offer,
  may_close, supersede_ranked_attempts, supersede_one,
}
use salesforce_expert_suppor.Dispatch.Pool.{
  record_interest, mark_shortlisted, mark_one, start_confirmation, is_contested, confirming_until,
  Settlement, settled, settle_confirmation,
}
use salesforce_expert_suppor.Dispatch.Counting.{
  count, distinct_ids, count-patch-drop, count-map-le, distinct_ids-patch, distinct_ids-map,
}
use salesforce_expert_suppor.Dispatch.Offers.{close_offer-attempts, set_availability-attempts}

-- The statuses in which an attempt holds its expert or its request.
abbrev pub is_held : AttemptStatus → Bool
is_held AttemptStatus.offered = true
is_held AttemptStatus.confirming = true
is_held _ = false

-- The attempts that hold an expert or a request, and pass a test.
abbrev pub held_as : AttemptStatus → (Attempt → Bool) → Attempt → Bool
held_as status key a = key a && has_status status a

-- `after` holds no more than `before`, and has distinct ids if that has.
abbrev pub Quiet : AttemptStatus → (Attempt → Bool) → List Attempt → List Attempt → Type 0
Quiet status key before after =
    (count (held_as status key) after ≤ count (held_as status key) before)
    × (distinct_ids after ≡ distinct_ids before)

patch-Quiet :
    (status : AttemptStatus) (key : Attempt → Bool) (id : ℕ) (change : Attempt → Attempt)
    (xs : List Attempt)
    → ((a : Attempt) → (change a).id ≡ a.id)
    → ((a : Attempt) → has_status status (change a) ≡ false)
    → Quiet status key xs (patch id change xs)
patch-Quiet status key id change xs keeps off = (
  count-patch-drop (held_as status key) id change xs (λ a i e. ground (arith, off a)),
  distinct_ids-patch id change xs keeps,
)

pub record_interest-Quiet :
    (status : AttemptStatus) (key : Attempt → Bool) (id expert : ℕ) (willing : Bool) (now : ℕ)
    (s : Store)
    → is_held status ≡ true
    → Quiet status key s.attempts (record_interest id expert willing now s).1.attempts
unfolding record_interest AttemptStatus-discrete
record_interest-Quiet status key id expert willing now s h =
    elim (Option-cases (
      find_first
        (λ a.
          (a.id == id) && ((a.expert_profile_id == expert) && has_status AttemptStatus.ranked a))
        s.attempts)) [
          | inl f ↦ rw (f, record_interest) (omega arith, refl)
          | inr (a, f) ↦
              rw (f, record_interest)
                (patch-Quiet status key a.id _ s.attempts (λ b. refl) (λ b. ground arith))
        ]

pub mark_shortlisted-Quiet :
    (status : AttemptStatus) (key : Attempt → Bool) (request : ℕ) (chosen : List ℕ) (s : Store)
    → is_held status ≡ true
    → ((a : Attempt) → key (mark_one request chosen a) ≡ key a)
    → Quiet status key s.attempts (mark_shortlisted request chosen s).1.attempts
unfolding mark_shortlisted AttemptStatus-discrete
mark_shortlisted-Quiet status key request chosen s h k = (
  count-map-le (held_as status key) (mark_one request chosen) s.attempts
      (λ a t. ground (arith, k a)),
  distinct_ids-map (mark_one request chosen) s.attempts (λ a. ground arith),
)

pub supersede-Quiet :
    (status : AttemptStatus) (key : Attempt → Bool) (run now : ℕ) (s : Store)
    → is_held status ≡ true
    → ((a : Attempt) → key (supersede_one run now a) ≡ key a)
    → Quiet status key s.attempts (supersede_ranked_attempts run now s).1.attempts
unfolding supersede_ranked_attempts AttemptStatus-discrete
supersede-Quiet status key run now s h k = (
  count-map-le (held_as status key) (supersede_one run now) s.attempts (λ a t. ground (arith, k a)),
  distinct_ids-map (supersede_one run now) s.attempts (λ a. ground arith),
)

settled-off :
    (status : AttemptStatus) (to : Settlement)
    → is_held status ≡ true
    → same AttemptStatus-discrete (settled to) status ≡ false
unfolding AttemptStatus-discrete
settled-off status to h = ground arith

closed_as-off :
    (status : AttemptStatus) (to : Closing)
    → is_held status ≡ true
    → same AttemptStatus-discrete (closed_as to) status ≡ false
unfolding AttemptStatus-discrete
closed_as-off status to h = ground arith

pub settle_confirmation-Quiet :
    (status : AttemptStatus) (key : Attempt → Bool) (id expert : ℕ) (to : Settlement) (now : ℕ)
    (release_to : Option AvailabilityStatus) (reason : Option DeclineReasonCode) (s : Store)
    → is_held status ≡ true
    → Quiet status key s.attempts
        (settle_confirmation id expert to now release_to reason s).1.attempts
unfolding settle_confirmation
settle_confirmation-Quiet status key id expert to now release_to reason s h =
    elim (Option-cases
      (find_first (λ a. (a.id == id) && has_status AttemptStatus.confirming a) s.attempts)) [
        | inl f ↦ rw (f, settle_confirmation) (omega arith, refl)
        | inr (a, f) ↦
            rw (f, settle_confirmation, set_availability-attempts expert release_to _)
              (patch-Quiet status key a.id _ s.attempts (λ b. refl) (λ b. settled-off status to h))
      ]

pub close_offer-Quiet :
    (status : AttemptStatus) (key : Attempt → Bool) (id expert : ℕ) (to : Closing) (now : ℕ)
    (reason : Option DeclineReasonCode) (counts : Bool) (release_to : Option AvailabilityStatus)
    (s : Store)
    → is_held status ≡ true
    → Quiet status key s.attempts
        (close_offer id expert to now reason counts release_to s).1.attempts
unfolding close_offer
close_offer-Quiet status key id expert to now reason counts release_to s h =
    elim (Option-cases (find_attempt id s.attempts)) [
      | inl f ↦ rw (f, close_offer) (omega arith, refl)
      | inr (a, f) ↦ elim (Bool-cases (may_close to a)) [
        | inl m ↦
            rw (close_offer-attempts id expert to now reason counts release_to a s f m)
              (patch-Quiet status key id _ s.attempts (λ b. refl) (λ b. closed_as-off status to h))
        | inr m ↦ rw (f, m, close_offer) (omega arith, refl)
      ]
    ]

-- `openOffer` starts no confirmation, and `startConfirmation` opens no offer.
pub open_offer-confirming :
    (key : Attempt → Bool) (id expert now expires_at : ℕ) (s : Store)
    → Quiet AttemptStatus.confirming key s.attempts
        (open_offer id expert now expires_at s).1.attempts
unfolding open_offer AttemptStatus-discrete
open_offer-confirming key id expert now expires_at s =
    elim (Option-cases (find_first (offered_to expert) s.attempts)) [
      | inr (held, f) ↦ rw (f, open_offer) (omega arith, refl)
      | inl free ↦ elim (Option-cases (find_attempt id s.attempts)) [
        | inl f ↦ rw (free, f, open_offer) (omega arith, refl)
        | inr (a, f) ↦
            elim (Bool-cases (
              (has_status AttemptStatus.ranked a || has_status AttemptStatus.excluded a)
              && may_offer a.origin (s.availability expert))) [
                | inl may ↦
                    rw (free, f, may, open_offer)
                      (patch-Quiet AttemptStatus.confirming key id (offered_until expires_at now)
                        s.attempts (λ b. refl) (λ b. refl))
                | inr may_not ↦ rw (free, f, may_not, open_offer) (omega arith, refl)
              ]
      ]
    ]

pub start_confirmation-offered :
    (key : Attempt → Bool) (id expires_at now : ℕ) (s : Store)
    → Quiet AttemptStatus.offered key s.attempts (start_confirmation id expires_at now s).1.attempts
unfolding start_confirmation AttemptStatus-discrete
start_confirmation-offered key id expires_at now s =
    elim (Option-cases
      (find_first (λ a. (a.id == id) && has_status AttemptStatus.shortlisted a) s.attempts)) [
        | inl f ↦ rw (f, start_confirmation) (omega arith, refl)
        | inr (a, f) ↦ elim (Bool-cases (is_contested a s.attempts)) [
          | inl c ↦ rw (f, c, start_confirmation) (omega arith, refl)
          | inr c ↦
              rw (f, c, start_confirmation)
                (patch-Quiet AttemptStatus.offered key a.id (confirming_until expires_at now)
                  s.attempts (λ b. refl) (λ b. refl))
        ]
      ]
