-- ===== src/Dispatch/Steps.antt =====
-- Every series of the store's operations: offers and confirmations stay exclusive along all of them.
use salesforce_expert_suppor.Prelude.{
  ℕ, ◌≤◌, ◌≡◌, refl, ◌∙◌, Bool, true, Option, some, List, arith, ◌==◌,
}
use salesforce_expert_suppor.Contracts.{AttemptStatus, AvailabilityStatus, DeclineReasonCode}
use salesforce_expert_suppor.Dispatch.Attempts.{Attempt, offered_to, confirming_by, confirming_on}
use salesforce_expert_suppor.Dispatch.Store.{
  Store, open_offer, find_attempt, Closing, close_offer, supersede_ranked_attempts,
}
use salesforce_expert_suppor.Dispatch.Pool.{
  record_interest, mark_shortlisted, start_confirmation, Settlement, settle_confirmation,
}
use salesforce_expert_suppor.Dispatch.Counting.{count, distinct_ids}
use salesforce_expert_suppor.Dispatch.Offers.{open_offer_exclusive}
use salesforce_expert_suppor.Dispatch.Quiet.{
  Quiet, record_interest-Quiet, mark_shortlisted-Quiet, supersede-Quiet, settle_confirmation-Quiet,
  close_offer-Quiet, open_offer-confirming, start_confirmation-offered,
}
use salesforce_expert_suppor.Dispatch.Confirmations.{start_confirmation_exclusive}

-- A step: one call of an operation. `openOffer` is called with the expert of the attempt.
pub data Step : Store → Store → Type 0 where
  interest :
      (id expert : ℕ) (willing : Bool) (now : ℕ) (s : Store)
      → Step s (record_interest id expert willing now s).1
  shortlist :
      (request : ℕ) (chosen : List ℕ) (s : Store) → Step s (mark_shortlisted request chosen s).1
  start : (id expires_at now : ℕ) (s : Store) → Step s (start_confirmation id expires_at now s).1
  settle :
      (id expert : ℕ) (to : Settlement) (now : ℕ) (release_to : Option AvailabilityStatus)
      (reason : Option DeclineReasonCode) (s : Store)
      → Step s (settle_confirmation id expert to now release_to reason s).1
  offer :
      (id now expires_at : ℕ) (a : Attempt) (s : Store)
      → find_attempt id s.attempts ≡ some a
      → Step s (open_offer id a.expert_profile_id now expires_at s).1
  close :
      (id expert : ℕ) (to : Closing) (now : ℕ) (reason : Option DeclineReasonCode) (counts : Bool)
      (release_to : Option AvailabilityStatus) (s : Store)
      → Step s (close_offer id expert to now reason counts release_to s).1
  supersede : (run now : ℕ) (s : Store) → Step s (supersede_ranked_attempts run now s).1

pub data Steps : Store → Store → Type 0 where
  stay : (s : Store) → Steps s s
  next : {s t u : Store} → Step s t → Steps t u → Steps s u

-- What holds of a request and an expert in every state of the store.
abbrev pub Exclusive : ℕ → ℕ → Store → Type 0
Exclusive request expert s =
    (distinct_ids s.attempts ≡ true)
    × (count (offered_to expert) s.attempts ≤ 1)
    × (count (confirming_on request) s.attempts ≤ 1)
    × (count (confirming_by expert) s.attempts ≤ 1)

abbrev of_expert : ℕ → Attempt → Bool
of_expert expert a = a.expert_profile_id == expert

abbrev on_request : ℕ → Attempt → Bool
on_request request a = a.support_request_id == request

Quiet-Exclusive :
    (request expert : ℕ) (s t : Store)
    → Quiet AttemptStatus.offered (of_expert expert) s.attempts t.attempts
    → Quiet AttemptStatus.confirming (on_request request) s.attempts t.attempts
    → Quiet AttemptStatus.confirming (of_expert expert) s.attempts t.attempts
    → Exclusive request expert s
    → Exclusive request expert t
Quiet-Exclusive request expert s t (o, d) (q, _) (c, _) (i, x, y, z) =
    (d ∙ i, omega arith, omega arith, omega arith)

pub Step-Exclusive :
    (request expert : ℕ) (s t : Store)
    → Step s t
    → Exclusive request expert s
    → Exclusive request expert t
Step-Exclusive request expert _ _ (interest id e willing now s) h =
    Quiet-Exclusive request expert s ((record_interest id e willing now s).1)
      (record_interest-Quiet AttemptStatus.offered (of_expert expert) id e willing now s refl)
      (record_interest-Quiet AttemptStatus.confirming (on_request request) id e willing now s refl)
      (record_interest-Quiet AttemptStatus.confirming (of_expert expert) id e willing now s refl) h
Step-Exclusive request expert _ _ (shortlist r chosen s) h =
    Quiet-Exclusive request expert s ((mark_shortlisted r chosen s).1)
      (mark_shortlisted-Quiet AttemptStatus.offered (of_expert expert) r chosen s refl
        (λ a. ground arith))
      (mark_shortlisted-Quiet AttemptStatus.confirming (on_request request) r chosen s refl
        (λ a. ground arith))
      (mark_shortlisted-Quiet AttemptStatus.confirming (of_expert expert) r chosen s refl
        (λ a. ground arith))
      h
Step-Exclusive request expert _ _ (start id expires_at now s) (i, x, y, z) =
    let (o, d) = start_confirmation-offered (of_expert expert) id expires_at now s in
    let (q, c) = start_confirmation_exclusive id expires_at now request expert s i y z in
    (d ∙ i, omega arith, q, c)
Step-Exclusive request expert _ _ (settle id e to now release_to reason s) h =
    Quiet-Exclusive request expert s ((settle_confirmation id e to now release_to reason s).1)
      (settle_confirmation-Quiet AttemptStatus.offered (of_expert expert) id e to now release_to
        reason s refl)
      (settle_confirmation-Quiet AttemptStatus.confirming (on_request request) id e to now
        release_to reason s refl)
      (settle_confirmation-Quiet AttemptStatus.confirming (of_expert expert) id e to now release_to
        reason s refl)
      h
Step-Exclusive request expert _ _ (offer id now expires_at a s found) (i, x, y, z) =
    let e = a.expert_profile_id in
    let (q, d) = open_offer-confirming (on_request request) id e now expires_at s in
    let (c, _) = open_offer-confirming (of_expert expert) id e now expires_at s in
    (
      d ∙ i,
      open_offer_exclusive id e now expires_at expert a s found refl i x,
      omega arith,
      omega arith,
    )
Step-Exclusive request expert _ _ (close id e to now reason counts release_to s) h =
    Quiet-Exclusive request expert s ((close_offer id e to now reason counts release_to s).1)
      (close_offer-Quiet AttemptStatus.offered (of_expert expert) id e to now reason counts
        release_to s refl)
      (close_offer-Quiet AttemptStatus.confirming (on_request request) id e to now reason counts
        release_to s refl)
      (close_offer-Quiet AttemptStatus.confirming (of_expert expert) id e to now reason counts
        release_to s refl)
      h
Step-Exclusive request expert _ _ (supersede run now s) h =
    Quiet-Exclusive request expert s ((supersede_ranked_attempts run now s).1)
      (supersede-Quiet AttemptStatus.offered (of_expert expert) run now s refl (λ a. ground arith))
      (supersede-Quiet AttemptStatus.confirming (on_request request) run now s refl
        (λ a. ground arith))
      (supersede-Quiet AttemptStatus.confirming (of_expert expert) run now s refl
        (λ a. ground arith))
      h

-- Along every series of calls, in any order, each `openOffer` for the expert of its attempt: if at
-- the start ids are distinct, the expert holds at most one open offer and at most one confirmation,
-- and the request waits for at most one, then so it is at the end.
pub Steps-Exclusive :
    (request expert : ℕ) (s t : Store)
    → Steps s t
    → Exclusive request expert s
    → Exclusive request expert t
Steps-Exclusive request expert _ _ (stay s) h = h
Steps-Exclusive request expert _ _ (next {s = s} {t = m} {u = t} step rest) h =
    Steps-Exclusive request expert m t rest (Step-Exclusive request expert s m step h)
