-- ===== src/Service/Acceptance.antt =====
-- What a successful `acceptOffer` has checked, and what it leaves.
use salesforce_expert_suppor.Prelude.{
  ℕ, ◌≡◌, ◌⊎◌, refl, sym, ap, ◌∙◌, true, false, not, Option, none, some, arith, Bool-cases, inl,
  inr,
}
use salesforce_expert_suppor.Contracts.{RequestState, AttemptStatus, AvailabilityStatus}
use salesforce_expert_suppor.Requests.Machine.{TransitionActor}
use salesforce_expert_suppor.Authorization.Policy.{Actor, offer_respond}
use salesforce_expert_suppor.Dispatch.Attempts.{Attempt, has_status}
use salesforce_expert_suppor.Dispatch.Store.{
  Store, find_attempt, close_offer, close_accepted, supersede_ranked_attempts,
}
use salesforce_expert_suppor.Service.World.{World, Request, find_in}
use salesforce_expert_suppor.Service.Monad.{
  Action, ok, Error, ◌>>=◌, branch, pure, on_store, or_raise, raise_if,
}
use salesforce_expert_suppor.Service.Requests.{require_request, transition, assign_expert, moved}
use salesforce_expert_suppor.Service.Runs.{complete_run}
use salesforce_expert_suppor.Service.Responses.{
  accept_offer, accept_open, require_permission, require_own_attempt, owns, is_past,
}
use salesforce_expert_suppor.Service.Follows.{find_in-id, find_at}
use salesforce_expert_suppor.Service.Inversion.{
  assign_expert_ok, bind_ok, or_raise_ok, quiet_ok, raise_if_ok, require_own_attempt_ok,
  require_permission_ok, require_request_ok, still_found, transition_ok,
}

-- What an acceptance leaves of the request of its attempt.
abbrev pub Accepted : Attempt → World → Type 0
Accepted a v =
    (s : Request) × (find_in a.support_request_id v.requests ≡ some s)
    × (s.state ≡ RequestState.accepted)
    × (s.assigned_expert_id ≡ some a.expert_profile_id)

abbrev taken : Attempt → ℕ → Store → Option Attempt × Store
taken a now =
    close_offer a.id a.expert_profile_id close_accepted now none true
      (some AvailabilityStatus.in_session)

-- The rest of `acceptOffer`, once its request is there.
abbrev accept_rest : Attempt → ℕ → Request → Action Attempt
accept_rest a now r = do
  answer ← on_store (taken a now)
  closed ← or_raise answer Error.conflict
  _ ← transition r RequestState.accepted TransitionActor.expert
  _ ← assign_expert r.id a.expert_profile_id
  _ ← on_store (supersede_ranked_attempts a.matching_run_id now)
  _ ← complete_run a.matching_run_id now
  pure closed

accept_rest_ok :
    (a : Attempt) (now : ℕ) (r : Request) (w v : World) (closed : Attempt)
    → find_in r.id w.requests ≡ some r
    → accept_rest a now r w ≡ (ok closed, v)
    → find_in r.id v.requests
      ≡ some
          (record (moved RequestState.accepted r) { assigned_expert_id = some a.expert_profile_id })
unfolding on_store complete_run pure
accept_rest_ok a now r w v closed f h =
    bind_ok (on_store (taken a now)) _ w v closed _ h (λ answer w1 e1 k1.
      bind_ok (or_raise answer Error.conflict) _ w1 v closed _ k1 (λ c w2 e2 k2.
        bind_ok (transition r RequestState.accepted TransitionActor.expert) _ w2 v closed _ k2
          (λ x w3 e3 k3.
            bind_ok (assign_expert r.id a.expert_profile_id) _ w3 v closed _ k3 (λ t w4 e4 k4.
              bind_ok (on_store (supersede_ranked_attempts a.matching_run_id now)) _ w4 v closed _
                k4
                (λ n w5 e5 k5.
                  bind_ok (complete_run a.matching_run_id now) _ w5 v closed _ k5 (λ t' w6 e6 k6.
                    let (_, at2) = or_raise_ok answer Error.conflict w1 w2 c e2 in
                    let f2 =
                      still_found r.id w w2 (some r)
                        (ap (λ u. u.requests) at2
                          ∙ quiet_ok (on_store (taken a now)) w w1 answer (λ u. refl) e1)
                        f in
                    let f3 =
                      transition_ok r x r RequestState.accepted TransitionActor.expert w2 w3 f2
                        e3 in
                    let f4 =
                      assign_expert_ok r.id a.expert_profile_id w3 w4
                        (moved RequestState.accepted r) t f3 e4 in
                    still_found r.id w4 v _
                      (quiet_ok (pure c) w6 v closed (λ u. refl) k6
                        ∙ (quiet_ok (complete_run a.matching_run_id now) w5 w6 t' (λ u. refl) e6
                            ∙ quiet_ok (on_store (supersede_ranked_attempts a.matching_run_id now))
                                w4 w5 n (λ u. refl) e5))
                      f4))))))

accept_open_ok :
    (actor : Actor) (a : Attempt) (now : ℕ) (w v : World) (closed : Attempt)
    → accept_open actor a now w ≡ (ok closed, v)
    → (has_status AttemptStatus.offered a ≡ true)
      × (is_past now a.offer_expires_at ≡ false)
      × Accepted a v
unfolding accept_open
accept_open_ok actor a now w v closed h =
    bind_ok (raise_if (not (has_status AttemptStatus.offered a)) Error.conflict) _ w v closed _ h
      (λ t1 w1 e1 k1.
        bind_ok (raise_if (is_past now a.offer_expires_at) Error.conflict) _ w1 v closed _ k1
          (λ t2 w2 e2 k2.
            bind_ok (require_request a.support_request_id) _ w2 v closed _ k2 (λ r w3 e3 k3.
              let (is_offered, _) =
                raise_if_ok (not (has_status AttemptStatus.offered a)) Error.conflict w w1 t1 e1 in
              let (not_past, _) =
                raise_if_ok (is_past now a.offer_expires_at) Error.conflict w1 w2 t2 e2 in
              let (found, at) = require_request_ok a.support_request_id w2 w3 r e3 in
              (ground arith, not_past, accepted_rest r w2 w3 found at k3))))
  where
    accepted_rest :
        (r : Request) (u x : World)
        → find_in a.support_request_id u.requests ≡ some r
        → x ≡ u
        → accept_rest a now r x ≡ (ok closed, v)
        → Accepted a v
    accepted_rest r u x f e k =
        let same_id = find_in-id a.support_request_id u.requests r f in
        let g =
          still_found r.id u x (some r) (ap (λ y. y.requests) e)
            (find_at u.requests r.id a.support_request_id same_id f) in
        let after = accept_rest_ok a now r x v closed g k in
        (
          record (moved RequestState.accepted r) { assigned_expert_id = some a.expert_profile_id },
          find_at v.requests a.support_request_id r.id (sym same_id) after,
          refl,
          refl,
        )

unchanged :
    (a : Attempt) (u : World) {closed : Attempt} {v : World} → pure a u ≡ (ok closed, v) → v ≡ u
unfolding pure
unchanged a u h = ap (λ x. x.1) (sym h)

-- If `acceptOffer` succeeds, the attempt is there and is the caller's own. Either it was accepted
-- before, and nothing has changed; or it was an offer whose deadline had not passed, and its request
-- is now accepted and assigned to the attempt's expert.
pub accept_offer_ok :
    (actor : Actor) (id now : ℕ) (w v : World) (closed : Attempt)
    → accept_offer actor id now w ≡ (ok closed, v)
    → (a : Attempt) × (find_attempt id w.store.attempts ≡ some a)
      × (owns actor.expert a ≡ true)
      × (((has_status AttemptStatus.accepted a ≡ true) × (v ≡ w))
          ⊎ ((has_status AttemptStatus.offered a ≡ true)
              × (is_past now a.offer_expires_at ≡ false)
              × Accepted a v))
unfolding accept_offer branch
accept_offer_ok actor id now w v closed h =
    bind_ok (require_permission actor offer_respond) _ w v closed _ h (λ t w1 e1 k1.
      bind_ok (require_own_attempt actor id) _ w1 v closed _ k1 (λ a w2 e2 k2.
        let at1 = require_permission_ok actor offer_respond w w1 t e1 in
        let (found, own, at2) = require_own_attempt_ok actor id w1 w2 a e2 in
        (a, rw (sym at1) found, own, by_status a w2 (at2 ∙ at1) k2)))
  where
    by_status :
        (a : Attempt) (u : World)
        → u ≡ w
        → branch (has_status AttemptStatus.accepted a) (pure a) (accept_open actor a now) u
          ≡ (ok closed, v)
        → ((has_status AttemptStatus.accepted a ≡ true) × (v ≡ w))
          ⊎ ((has_status AttemptStatus.offered a ≡ true)
              × (is_past now a.offer_expires_at ≡ false)
              × Accepted a v)
    by_status a u e k = elim (Bool-cases (has_status AttemptStatus.accepted a)) [
      | inl y ↦ inl (y, unchanged a u (rw (y, branch) at k) ∙ e)
      | inr n ↦ inr (accept_open_ok actor a now u v closed (rw (n, branch) at k))
    ]
