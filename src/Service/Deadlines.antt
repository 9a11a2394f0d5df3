-- ===== src/Service/Deadlines.antt =====
-- When the offers of `tryOfferFromRun` expire.
use salesforce_expert_suppor.Prelude.{
  ℕ, zero, suc, ◌+◌, ◌*◌, ◌≤◌, ◌≡◌, true, Option, none, some, arith, sym,
}
use salesforce_expert_suppor.Contracts.{AttemptStatus, AttemptStatus-discrete, RequestState}
use salesforce_expert_suppor.Requests.Machine.{system}
use salesforce_expert_suppor.Dispatch.Attempts.{Attempt, has_status}
use salesforce_expert_suppor.Dispatch.Store.{Store, open_offer}
use salesforce_expert_suppor.Matching.Number.{Number}
use salesforce_expert_suppor.Service.World.{World, Request}
use salesforce_expert_suppor.Service.Setup.{Deps}
use salesforce_expert_suppor.Service.Monad.{Result, ok, ◌>>=◌, on_option, pure, on_store, raise}
use salesforce_expert_suppor.Service.Requests.{transition}
use salesforce_expert_suppor.Service.Runs.{next_ranked_attempt}
use salesforce_expert_suppor.Service.Dispatch.{
  try_offers, try_offer_from_run, try_open, withdraw, announce, opened_attempt, offer_deadline,
  schedule_offer_timeout,
}
use salesforce_expert_suppor.Service.Inversion.{bind_ok}

-- An offer that expires at an instant.
abbrev Offered : ℕ → Attempt → Type 0
Offered at a = (has_status AttemptStatus.offered a ≡ true) × (a.offer_expires_at ≡ some at)

open_offer-Offered :
    (a b : Attempt) (now at : ℕ) (s : Store)
    → opened_attempt (open_offer a.id a.expert_profile_id now at s).0 ≡ some b
    → Offered at b
unfolding open_offer AttemptStatus-discrete
open_offer-Offered a b now at s h = ground arith

try_open-Offered :
    (a b : Attempt) (now at : ℕ) (w v : World)
    → try_open a now at w ≡ (ok (some b), v)
    → Offered at b
unfolding try_open on_store
try_open-Offered a b now at w v h = open_offer-Offered a b now at w.store (answer h)
  where
    answer :
        {o : Option Attempt} {u : World}
        → Path (Result (Option Attempt) × World) (ok o, u) (ok (some b), v)
        → o ≡ some b
    answer e = ground arith

announce-same :
    (request : Request) (now : ℕ) (a b : Attempt) (w v : World)
    → announce request now a w ≡ (ok (some b), v)
    → a ≡ b
unfolding announce pure
announce-same request now a b w v h =
    bind_ok (transition request RequestState.offered system) _ w v (some b) _ h (λ r u e k.
      bind_ok (schedule_offer_timeout a now) _ u v (some b) _ k (λ t x f l. ground arith))

module _ (N : Number) (D : Deps N) (request : Request) (run now : ℕ) where
  module _ (fuel : ℕ) (b : Attempt) (v : World)
      (again : (u : World)
        → try_offers N D fuel request run now u ≡ (ok (some b), v)
        → Offered (offer_deadline N D request now) b) where
    by_taken :
        (a : Attempt) (taken : Option Attempt) (u x : World)
        → try_open a now (offer_deadline N D request now) u ≡ (ok taken, x)
        → on_option taken
            (withdraw a now >>= λ _. try_offers N D fuel request run now)
            (announce request now)
            x
          ≡ (ok (some b), v)
        → Offered (offer_deadline N D request now) b
    unfolding on_option
    by_taken a none u x f k =
        bind_ok (withdraw a now) _ x v (some b) _ k (λ closed y e l. again y l)
    by_taken a (some c) u x f k =
        rw (sym (announce-same request now c b x v k))
          (try_open-Offered a c now (offer_deadline N D request now) u x f)

    by_next :
        (next : Option Attempt) (u : World)
        → on_option next
            (pure none)
            (λ a. try_open a now (offer_deadline N D request now) >>= λ taken.
              on_option taken
                (withdraw a now >>= λ _. try_offers N D fuel request run now)
                (announce request now))
            u
          ≡ (ok (some b), v)
        → Offered (offer_deadline N D request now) b
    unfolding on_option pure
    by_next none u k = ground arith
    by_next (some a) u k =
        bind_ok (try_open a now (offer_deadline N D request now)) _ u v (some b) _ k
          (λ taken x f l. by_taken a taken u x f l)

  try_offers-Offered :
      (fuel : ℕ) (w v : World) (b : Attempt)
      → try_offers N D fuel request run now w ≡ (ok (some b), v)
      → Offered (offer_deadline N D request now) b
  unfolding try_offers raise
  try_offers-Offered zero w v b h = ground arith
  try_offers-Offered (suc fuel) w v b h =
      bind_ok (next_ranked_attempt run) _ w v (some b) _ h
        (λ next u e k. by_next fuel b v (λ y l. try_offers-Offered fuel y v b l) next u k)

  -- An attempt that `tryOfferFromRun` answers is offered, and it expires at an instant that is no
  -- later than the request's matching deadline and no later than one offer window from now.
  pub try_offer_from_run_deadline :
      (w v : World) (b : Attempt)
      → try_offer_from_run N D request run now w ≡ (ok (some b), v)
      → (at : ℕ) × (b.status ≡ AttemptStatus.offered)
        × (b.offer_expires_at ≡ some at)
        × (at ≤ request.match_deadline_at)
        × (at ≤ now + D.offer_window_seconds * 1000)
  unfolding try_offer_from_run AttemptStatus-discrete
  try_offer_from_run_deadline w v b h =
      let (is_offered, e) = try_offers-Offered _ w v b h in
      (offer_deadline N D request now, ground arith, e, omega arith, omega arith)
