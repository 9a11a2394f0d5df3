-- ===== src/Service/Fallback.antt =====
-- What is left of the shortlist after a confirmation that lapsed or was refused.
use salesforce_expert_suppor.Prelude.{
  ℕ, ◌≡◌, ◌≢◌, refl, Bool, true, false, not, Option, none, some, arith, Option-cases, inl, inr,
}
use salesforce_expert_suppor.Contracts.{RequestState, AttemptStatus, DeclineReasonCode}
use salesforce_expert_suppor.Dispatch.Attempts.{Attempt, has_status}
use salesforce_expert_suppor.Dispatch.Store.{Store}
use salesforce_expert_suppor.Dispatch.Counting.{distinct_ids}
use salesforce_expert_suppor.Dispatch.Pool.{
  Settlement, settle_timed_out, settle_confirmation, list_shortlisted,
}
use salesforce_expert_suppor.Requests.Machine.{system}
use salesforce_expert_suppor.Matching.Number.{Number}
use salesforce_expert_suppor.Service.World.{World, Request, find_in}
use salesforce_expert_suppor.Service.Setup.{Deps}
use salesforce_expert_suppor.Service.Monad.{
  Action, Result, ok, err, ◌>>=◌, and_then, branch, on_option, pure, reads, on_store, or_raise,
}
use salesforce_expert_suppor.Service.Requests.{is_state, find_request, require_request, transition}
use salesforce_expert_suppor.Service.Interest.{lapse, Lapse}
use salesforce_expert_suppor.Service.Responses.{find_attempt_by_id, is_before}
use salesforce_expert_suppor.Service.Confirmation.{
  FallBack, researching, back_to_shortlist, not_enabled, unknown_attempt, already_settled,
  not_yet_due, not_awaiting, give_back, fall_back, lapse_open, lapse_confirmation,
}
use salesforce_expert_suppor.Service.Offering.{ok_eq}
use salesforce_expert_suppor.Service.Valid.{IsValid}
use salesforce_expert_suppor.Service.Shortlisted.{settle_off, unlisted-lapse_from}

abbrev is_researching : Result FallBack → Bool
is_researching (ok researching) = true
is_researching _ = false

-- A method after which nothing answers `researching`.
avoids-bind :
    {A : Type 0} (m : Action A) (f : A → Action FallBack) (w : World)
    → ((a : A) → (m w).0 ≡ ok a → is_researching (f a (m w).1).0 ≡ false)
    → is_researching ((m >>= f) w).0 ≡ false
unfolding ◌>>=◌
avoids-bind {A = A} m f w h = after (m w).0 (m w).1 h
  where
    after :
        (r : Result A) (v : World)
        → ((a : A) → r ≡ ok a → is_researching (f a v).0 ≡ false)
        → is_researching (and_then r v f).0 ≡ false
    after (ok a) v h = h a refl
    after (err e) v h = refl

avoids-branch :
    (c : Bool) (m n : Action FallBack) (w : World)
    → is_researching (m w).0 ≡ false
    → is_researching (n w).0 ≡ false
    → is_researching (branch c m n w).0 ≡ false
unfolding branch
avoids-branch true m n w h k = h
avoids-branch false m n w h k = k

require_request_reads : (id : ℕ) (w : World) → (require_request id w).1.store ≡ w.store
unfolding require_request find_request reads or_raise ◌>>=◌
require_request_reads id w = elim (Option-cases (find_in id w.requests)) [
  | inl n ↦ rw (n, or_raise) refl
  | inr (r, f) ↦ rw (f, or_raise) refl
]

module _ (N : Number) (D : Deps N) where
  give_back_avoids :
      (request : Request) (exhausted : Bool) (w : World)
      → exhausted ≡ false
      → is_researching (give_back N D request exhausted w).0 ≡ false
  unfolding give_back branch pure
  give_back_avoids request exhausted w e =
      rw (e, branch)
        (avoids-bind (transition request RequestState.shortlisted system)
          (λ _. pure back_to_shortlist) w (λ a f. refl))

  -- After a settlement, the attempt is on no shortlist, so that `lapse` never finds it exhausted.
  lapse_avoids :
      (a c : Attempt) (request : Request) (now : ℕ) (to : Settlement)
      (reason : Option DeclineReasonCode) (w v : World)
      → distinct_ids w.store.attempts ≡ true
      → (settle_confirmation a.id a.expert_profile_id to now none reason w.store).0 ≡ some c
      → v.store ≡ (settle_confirmation a.id a.expert_profile_id to now none reason w.store).1
      → is_researching
          ((lapse request.id a.id >>= λ result. give_back N D request result.exhausted) v).0
        ≡ false
  unfolding lapse reads
  lapse_avoids a c request now to reason w v d settled_one e =
      avoids-bind (lapse request.id a.id) (λ result. give_back N D request result.exhausted) v
        (λ result f. give_back_avoids request result.exhausted v (
          not_exhausted result (ok_eq f) (
            unlisted-lapse_from (list_shortlisted request.id v.store) a.id (λ b i.
              settle_off a.id a.expert_profile_id to now reason w.store c b request.id d settled_one
                (rw e at i)))))
    where
      not_exhausted :
          (result : Lapse) {l : Lapse} → l ≡ result → l.exhausted ≡ false → result.exhausted ≡ false
      not_exhausted result f g = cc

  fall_back_avoids :
      (a : Attempt) (now : ℕ) (to : Settlement) (reason : Option DeclineReasonCode) (w : World)
      → distinct_ids w.store.attempts ≡ true
      → is_researching (fall_back N D a now to reason w).0 ≡ false
  unfolding fall_back on_store on_option pure
  fall_back_avoids a now to reason w d =
      avoids-branch (not D.has_interest) (pure not_enabled)
        (on_store settle_now >>= after_settlement) w refl
        (avoids-bind (on_store settle_now) after_settlement w
          (λ answer e. by_answer answer (ok_eq e)))
    where
      settle_now : Store → Option Attempt × Store
      settle_now = settle_confirmation a.id a.expert_profile_id to now none reason

      after_request : Request → Action FallBack
      after_request request =
          branch (not (is_state RequestState.awaiting_expert_confirmation request))
            (pure not_awaiting)
            (lapse request.id a.id >>= λ result. give_back N D request result.exhausted)

      after_settlement : Option Attempt → Action FallBack
      after_settlement answer =
          on_option answer (pure already_settled)
            (λ settled. require_request a.support_request_id >>= after_request)

      by_answer :
          (answer : Option Attempt)
          → (settle_now w.store).0 ≡ answer
          → is_researching (after_settlement answer (record w { store = (settle_now w.store).1 })).0
            ≡ false
      by_answer none e = refl
      by_answer (some c) e =
          let u = record w { store = (settle_now w.store).1 } in
          avoids-bind (require_request a.support_request_id) after_request u (λ request f.
            let v = (require_request a.support_request_id u).1 in
            avoids-branch (not (is_state RequestState.awaiting_expert_confirmation request))
              (pure not_awaiting)
              (lapse request.id a.id >>= λ result. give_back N D request result.exhausted) v refl
              (lapse_avoids a c request now to reason w v d e
                (require_request_reads a.support_request_id u)))

  lapse_open_avoids :
      (a : Attempt) (now : ℕ) (w : World)
      → distinct_ids w.store.attempts ≡ true
      → is_researching (lapse_open N D a now w).0 ≡ false
  unfolding lapse_open pure
  lapse_open_avoids a now w d =
      avoids-branch (not (has_status AttemptStatus.confirming a)) (pure already_settled)
        (branch (is_before now a.offer_expires_at) (pure not_yet_due)
          (fall_back N D a now settle_timed_out none))
        w refl
        (avoids-branch (is_before now a.offer_expires_at) (pure not_yet_due)
          (fall_back N D a now settle_timed_out none) w refl
          (fall_back_avoids a now settle_timed_out none w d))

  found_avoids :
      (found : Option Attempt) (now : ℕ) (w : World)
      → distinct_ids w.store.attempts ≡ true
      → is_researching (on_option found (pure unknown_attempt) (λ a. lapse_open N D a now) w).0
        ≡ false
  unfolding on_option pure
  found_avoids none now w d = refl
  found_avoids (some a) now w d = lapse_open_avoids a now w d

  -- In a valid world `lapseConfirmation` never answers `RESEARCHING`, however short the shortlist is.
  pub lapse_confirmation_researching :
      (id now : ℕ) (w : World) → IsValid w → (lapse_confirmation N D id now w).0 ≢ ok researching
  unfolding lapse_confirmation find_attempt_by_id reads pure
  lapse_confirmation_researching id now w valid h = clash h (
      avoids-branch (not D.has_interest) (pure not_enabled)
        (find_attempt_by_id id >>= λ found.
          on_option found (pure unknown_attempt) (λ a. lapse_open N D a now))
        w refl
        (avoids-bind (find_attempt_by_id id)
          (λ found. on_option found (pure unknown_attempt) (λ a. lapse_open N D a now)) w
          (λ found e. found_avoids found now w (valid.exclusive 0 0).0)))
    where
      clash : {r : Result FallBack} → r ≡ ok researching → is_researching r ≡ false → ⊥
      clash e n = ground arith
