-- ===== src/Dispatch/Offers.antt =====
-- Exclusive offers: `openOffer` and `closeOffer` of matching/in-memory-matching-world.ts.
use salesforce_expert_suppor.Prelude.{
  ℕ, ◌≤◌, ◌≡◌, refl, sym, ◌∙◌, ap, inl, inr, Bool, true, false, ◌&&◌, ◌||◌, Option, none, some,
  List, [], ◌∷◌, arith, ◌==◌, ==_iff, find_first, find_first-In, Bool-cases, Option-cases,
}
use salesforce_expert_suppor.Contracts.{
  AttemptStatus, AttemptStatus-discrete, AvailabilityStatus, DeclineReasonCode,
}
use salesforce_expert_suppor.Dispatch.Attempts.{Attempt, has_status, patch, offered_to}
use salesforce_expert_suppor.Dispatch.Store.{
  Store, find_attempt, set_availability, open_offer, offered_until, may_offer, Closing,
  close_accepted, close_offer, closed_attempt, may_close,
}
use salesforce_expert_suppor.Dispatch.Counting.{
  count, distinct_ids, count-patch-le, count-patch-drop, find_first-count, distinct_ids-In,
}

-- What remains of a store when the availability of an expert is set.
pub set_availability-attempts :
    (expert : ℕ) (status : Option AvailabilityStatus) (store : Store)
    → (set_availability expert status store).attempts ≡ store.attempts
set_availability-attempts expert none store = refl
set_availability-attempts expert (some status) store = refl

offered_until-other :
    (now expires_at expert e : ℕ) (a : Attempt)
    → a.expert_profile_id ≡ expert
    → (e == expert) ≡ false
    → offered_to e (offered_until expires_at now a) ≡ false
offered_until-other now expires_at expert e a h n = ground (arith, ==_iff a.expert_profile_id e)

count-offered_until :
    (id expert now expires_at e : ℕ) (a : Attempt) (xs : List Attempt)
    → find_attempt id xs ≡ some a
    → a.expert_profile_id ≡ expert
    → distinct_ids xs ≡ true
    → find_first (offered_to expert) xs ≡ none
    → count (offered_to e) xs ≤ 1
    → count (offered_to e) (patch id (offered_until expires_at now) xs) ≤ 1
count-offered_until id expert now expires_at e a xs found of_expert distinct free one =
    elim (Bool-cases (e == expert)) [
      | inl same_expert ↦
          let none_held = find_first-count (offered_to expert) xs free in
          omega (
            arith,
            count-patch-le (offered_to e) id (offered_until expires_at now) xs,
            ap (λ k. count (offered_to k) xs) ((==_iff e expert).0 same_expert),
            none_held,
          )
      | inr other ↦
          let (i, t) = find_first-In (λ b. b.id == id) xs a found in
          let below = count-patch-drop (offered_to e) id (offered_until expires_at now) xs (λ b j s.
            offered_until-other now expires_at expert e b
              (ap (λ (c : Attempt). c.expert_profile_id)
                  (distinct_ids-In xs b a distinct j i (s ∙ sym ((==_iff a.id id).0 t)))
                ∙ of_expert)
              other) in
          omega (arith, below)
    ]

-- An offer is exclusive: if nobody holds two open offers, then nobody does after `openOffer`, whose
-- expert is the attempt's own, whatever it answers.
pub open_offer_exclusive :
    (attempt_id expert now expires_at e : ℕ) (a : Attempt) (store : Store)
    → find_attempt attempt_id store.attempts ≡ some a
    → a.expert_profile_id ≡ expert
    → distinct_ids store.attempts ≡ true
    → count (offered_to e) store.attempts ≤ 1
    → count (offered_to e) (open_offer attempt_id expert now expires_at store).1.attempts ≤ 1
unfolding open_offer
open_offer_exclusive attempt_id expert now expires_at e a store found of_expert distinct one =
    elim (Option-cases (find_first (offered_to expert) store.attempts)) [
      | inr (held, h) ↦ rw (h, open_offer) one
      | inl free ↦
          elim (Bool-cases (
            (has_status AttemptStatus.ranked a || has_status AttemptStatus.excluded a)
            && may_offer a.origin (store.availability expert))) [
              | inl may ↦
                  rw (free, found, may, open_offer)
                    (count-offered_until attempt_id expert now expires_at e a store.attempts found
                      of_expert distinct free one)
              | inr may_not ↦ rw (free, found, may_not, open_offer) one
            ]
    ]

pub find_attempt-patch :
    (id : ℕ) (change : Attempt → Attempt) (a : Attempt) (xs : List Attempt)
    → ((b : Attempt) → (change b).id ≡ b.id)
    → find_attempt id xs ≡ some a
    → find_attempt id (patch id change xs) ≡ some (change a)
unfolding patch
find_attempt-patch id change a [] h f = cc
find_attempt-patch id change a (x ∷ xs) h f =
    ground (arith, h x, find_attempt-patch id change a xs h)

closed_twice :
    (first second : Closing) (now : ℕ) (reason : Option DeclineReasonCode) (a : Attempt)
    → may_close second (closed_attempt first now reason a) ≡ false
unfolding AttemptStatus-discrete
closed_twice close_accepted second now reason a = ground arith
closed_twice _ second now reason a = ground arith

pub close_offer-refused :
    (attempt_id expert : ℕ) (second : Closing) (later : ℕ) (why : Option DeclineReasonCode)
    (again : Bool) (next : Option AvailabilityStatus) (b : Attempt) (store : Store)
    → find_attempt attempt_id store.attempts ≡ some b
    → may_close second b ≡ false
    → close_offer attempt_id expert second later why again next store ≡ (none, store)
unfolding close_offer
close_offer-refused attempt_id expert second later why again next b store f m =
    rw (f, m, close_offer) refl

pub close_offer-attempts :
    (attempt_id expert : ℕ) (first : Closing) (now : ℕ) (reason : Option DeclineReasonCode)
    (counts : Bool) (release_to : Option AvailabilityStatus) (a : Attempt) (store : Store)
    → find_attempt attempt_id store.attempts ≡ some a
    → may_close first a ≡ true
    → (close_offer attempt_id expert first now reason counts release_to store).1.attempts
      ≡ patch attempt_id (closed_attempt first now reason) store.attempts
unfolding close_offer
close_offer-attempts attempt_id expert first now reason true none a store f m =
    rw (f, m, close_offer) refl
close_offer-attempts attempt_id expert first now reason true (some r) a store f m =
    rw (f, m, close_offer) refl
close_offer-attempts attempt_id expert first now reason false none a store f m =
    rw (f, m, close_offer) refl
close_offer-attempts attempt_id expert first now reason false (some r) a store f m =
    rw (f, m, close_offer) refl

close_offer-found :
    (attempt_id expert : ℕ) (first : Closing) (now : ℕ) (reason : Option DeclineReasonCode)
    (counts : Bool) (release_to : Option AvailabilityStatus) (closed : Attempt) (store : Store)
    → (close_offer attempt_id expert first now reason counts release_to store).0 ≡ some closed
    → (a : Attempt) × (find_attempt attempt_id store.attempts ≡ some a) × (may_close first a ≡ true)
unfolding close_offer
close_offer-found attempt_id expert first now reason counts release_to closed store h =
    elim (Option-cases (find_attempt attempt_id store.attempts)) [
      | inl f ↦ ground (arith, rw (f, close_offer) at h)
      | inr (a, f) ↦ elim (Bool-cases (may_close first a)) [
        | inl m ↦ (a, f, m)
        | inr m ↦ ground (arith, rw (f, m, close_offer) at h)
      ]
    ]

-- A race has one winner: once `closeOffer` has closed an attempt, closing that attempt again fails,
-- whichever two ways of closing meet, and changes nothing.
pub close_offer_once :
    (attempt_id expert : ℕ) (first second : Closing) (now later : ℕ)
    (reason why : Option DeclineReasonCode) (counts again : Bool)
    (release_to next : Option AvailabilityStatus) (closed : Attempt) (store : Store)
    → (close_offer attempt_id expert first now reason counts release_to store).0 ≡ some closed
    → let after = (close_offer attempt_id expert first now reason counts release_to store).1 in
      close_offer attempt_id expert second later why again next after ≡ (none, after)
close_offer_once attempt_id expert first second now later reason why counts again release_to next
      closed store h =
    let (a, f, m) =
      close_offer-found attempt_id expert first now reason counts release_to closed store h in
    let after = (close_offer attempt_id expert first now reason counts release_to store).1 in
    let attempts =
      close_offer-attempts attempt_id expert first now reason counts release_to a store f m in
    close_offer-refused attempt_id expert second later why again next
      (closed_attempt first now reason a) after
      (rw attempts (
        find_attempt-patch attempt_id (closed_attempt first now reason) a store.attempts (λ b. refl)
          f))
      (closed_twice first second now reason a)
