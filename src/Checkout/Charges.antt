-- ===== src/Checkout/Charges.antt =====
-- When the gateway is asked for money, and when a request becomes ready.
use salesforce_expert_suppor.Prelude.{
  ℕ, ==_iff, sym, List, find_first-In, ◌≡◌, ◌⊎◌, refl, ap, ◌∙◌, Bool, true, false, not, ◌||◌,
  Option, none, some, [], ◌∷◌, ◌++◌, arith, if◌then◌else◌, Bool-cases, inl, inr,
}
use salesforce_expert_suppor.Contracts.{RequestState, RequestState-discrete}
use salesforce_expert_suppor.Requests.Machine.{system}
use salesforce_expert_suppor.Authorization.Policy.{Actor, support_request_read_own}
use salesforce_expert_suppor.Checkout.Payments.{
  Payment, find_payment, failed, requires_method, PaymentStatus,
}
use salesforce_expert_suppor.Checkout.Checkouts.{
  Answer, GatewayAnswer, Gateway, accepted, needs_action, refused, is_owner, require_own_request,
  charge_of, answered, ask_gateway, write_payment, by_answer, take_payment, pay, payment_of,
}
use salesforce_expert_suppor.Service.World.{World, Request, Charge, find_in}
use salesforce_expert_suppor.Service.Monad.{
  Action, Result, ok, err, Error, ◌>>=◌, branch, on_option, pure, raise, reads, or_raise, raise_if,
}
use salesforce_expert_suppor.Service.Requests.{is_state, transition}
use salesforce_expert_suppor.Service.Responses.{require_permission}
use salesforce_expert_suppor.Checkout.Endings.{
  branch_ends, ends_with, on_option_ends, or_raise_reads, require_own_request_ok,
  require_own_request_reads, require_permission_reads, transition_charges,
}

-- The gateway accepts a charge.
abbrev pub Accepts : Gateway → Charge → Type 0
Accepts gateway c = (given : GatewayAnswer) × (gateway c ≡ some given) × (given.answer ≡ accepted)

-- The gateway was asked once more, for the quoted price of a request in its currency, and the
-- requests are as they were unless it accepted.
abbrev pub Asked : Gateway → Request → World → World → Type 0
Asked gateway r w v =
    (c : Charge) × (v.charges ≡ w.charges ++ (c ∷ []))
    × (c.request_id ≡ r.id)
    × (c.amount_minor ≡ r.quoted_price_cents)
    × (c.currency ≡ r.currency)
    × ((v.requests ≡ w.requests) ⊎ Accepts gateway c)

still-Asked :
    (gateway : Gateway) (r : Request) (w : World) {u v : World}
    → v ≡ u
    → Asked gateway r w u
    → Asked gateway r w v
still-Asked gateway r w e h = rw e h

by_answer-Asked :
    (gateway : Gateway) (r : Request) (now : ℕ) (given : GatewayAnswer) (answer : Answer)
    (w u : World)
    → gateway (charge_of r) ≡ some given
    → given.answer ≡ answer
    → u.charges ≡ w.charges ++ (charge_of r ∷ [])
    → u.requests ≡ w.requests
    → Asked gateway r w (by_answer r now given answer u).1
unfolding by_answer write_payment pure raise
by_answer-Asked gateway r now given refused w u g e c q =
    ends_with (write_payment (payment_of r given failed none given.failure_code)) _ u
      (Asked gateway r w) (λ x. (charge_of r, c, refl, refl, refl, inl q))
      (λ a x. (charge_of r, c, refl, refl, refl, inl q))
by_answer-Asked gateway r now given needs_action w u g e c q =
    ends_with (write_payment (payment_of r given requires_method none none)) _ u (Asked gateway r w)
      (λ x. (charge_of r, c, refl, refl, refl, inl q))
      (λ row x.
        still-Asked gateway r w (or_raise_reads row Error.internal _)
          (charge_of r, c, refl, refl, refl, inl q))
by_answer-Asked gateway r now given accepted w u g e c q =
    let accepts : Accepts gateway (charge_of r) = (given, g, e) in
    ends_with (write_payment (payment_of r given PaymentStatus.authorized (some now) none)) _ u
      (Asked gateway r w) (λ x. (charge_of r, c, refl, refl, refl, inl q))
      (λ row x.
        ends_with (or_raise row Error.internal) _ _ (Asked gateway r w)
          (λ y.
            still-Asked gateway r w (or_raise_reads row Error.internal _)
              (charge_of r, c, refl, refl, refl, inl q))
          (λ payment y.
            let z = ap (λ v. v.charges) (or_raise_reads row Error.internal _) ∙ c in
            let moved = transition_charges r RequestState.ready _ ∙ z in
            ends_with (transition r RequestState.ready system) _ _ (Asked gateway r w)
              (λ k. (charge_of r, moved, refl, refl, refl, inr accepts))
              (λ k l. (charge_of r, moved, refl, refl, refl, inr accepts))))

-- What a call of `pay` may have done: nothing to the money and the requests, or it has asked for the
-- price of the caller's own request, which was waiting for payment.
abbrev pub Paid : Gateway → Actor → ℕ → World → World → Type 0
Paid gateway actor id w v =
    ((v.charges ≡ w.charges) × (v.requests ≡ w.requests))
    ⊎ ((r : Request) × (find_in id w.requests ≡ some r)
        × (r.id ≡ id)
        × (actor.customer_profile_id ≡ some r.customer_id)
        × (r.state ≡ RequestState.payment_pending)
        × Asked gateway r w v)

owned_by : (o : Option ℕ) (r : Request) → is_owner o r ≡ true → o ≡ some r.customer_id
owned_by none r h = ground arith
owned_by (some c) r h = ap some (sym ((==_iff r.customer_id c).0 h))

pending_state :
    (r : Request)
    → is_state RequestState.payment_pending r ≡ true
    → r.state ≡ RequestState.payment_pending
unfolding RequestState-discrete
pending_state r h = ground arith

found_id : (id : ℕ) (rs : List Request) (r : Request) → find_in id rs ≡ some r → r.id ≡ id
found_id id rs r f = (==_iff r.id id).0 (find_first-In _ rs r f).1

take_payment-Paid :
    (gateway : Gateway) (actor : Actor) (id : ℕ) (r : Request) (now : ℕ) (w : World)
    → find_in id w.requests ≡ some r
    → is_owner actor.customer_profile_id r ≡ true
    → Paid gateway actor id w (take_payment gateway r now w).1
unfolding take_payment raise_if ask_gateway
take_payment-Paid gateway actor id r now w f own =
    elim (Bool-cases (is_state RequestState.payment_pending r)) [
      | inr n ↦
          ends_with (raise_if (not (is_state RequestState.payment_pending r)) Error.conflict) _ w
            (Paid gateway actor id w) (λ e. inl (refl, refl)) (λ t e. absurd (stopped n e))
      | inl y ↦
          ends_with (raise_if (not (is_state RequestState.payment_pending r)) Error.conflict) _ w
            (Paid gateway actor id w) (λ e. inl (refl, refl))
            (λ t e.
              ends_with (ask_gateway gateway r) _ w (Paid gateway actor id w)
                (λ e. inr (
                  r,
                  f,
                  found_id id w.requests r f,
                  owned_by actor.customer_profile_id r own,
                  pending_state r y,
                  (charge_of r, refl, refl, refl, refl, inl refl),
                ))
                (λ given e. inr (
                  r,
                  f,
                  found_id id w.requests r f,
                  owned_by actor.customer_profile_id r own,
                  pending_state r y,
                  given_asked given e,
                )))
    ]
  where
    stopped :
        {c : Bool}
        → c ≡ false
        → Path (Result (Unit {0})) (if not c then err Error.conflict else ok tt) (ok tt)
        → ⊥
    stopped n e = ground arith

    given_by :
        (o : Option GatewayAnswer) (given : GatewayAnswer) → answered o ≡ ok given → o ≡ some given
    given_by none given e = ground arith
    given_by (some a) given e = ground arith

    given_asked :
        (given : GatewayAnswer)
        → answered (gateway (charge_of r)) ≡ ok given
        → Asked gateway r w (by_answer r now given given.answer (ask_gateway gateway r w).1).1
    given_asked given e =
        by_answer-Asked gateway r now given given.answer w (ask_gateway gateway r w).1
          (given_by (gateway (charge_of r)) given e) refl refl refl

-- However a payment ends, by a throw of the gateway too, `pay` has asked the gateway for nothing and
-- left every request as it was, or it has asked once: for the request's own id, the amount that the
-- request was quoted and its currency, while the request was the caller's and waiting for payment.
-- In that case the requests are as they were unless the gateway accepted that charge.
pub pay_charges :
    (gateway : Gateway) (actor : Actor) (id now : ℕ) (w : World)
    → Paid gateway actor id w (pay gateway actor id now w).1
unfolding pay reads pure
pay_charges gateway actor id now w =
    let at = require_permission_reads actor support_request_read_own w in
    ends_with (require_permission actor support_request_read_own) _ w (Paid gateway actor id w)
      (λ e. same_world at)
      (λ t e. with_permission (require_permission actor support_request_read_own w).1 at)
  where
    same_world : {v : World} → v ≡ w → Paid gateway actor id w v
    same_world e = inl (ap (λ x. x.charges) e, ap (λ x. x.requests) e)

    rest : Request → Action Payment
    rest request =
        branch (is_state RequestState.ready request || is_state RequestState.in_session request)
          (do
            existing ← reads (λ u. find_payment request.id u.payments)
            on_option existing (take_payment gateway request now) pure)
          (take_payment gateway request now)

    rest_paid :
        (r : Request)
        → find_in id w.requests ≡ some r
        → is_owner actor.customer_profile_id r ≡ true
        → Paid gateway actor id w (rest r w).1
    rest_paid r f own =
        let taken = take_payment-Paid gateway actor id r now w f own in
        branch_ends (is_state RequestState.ready r || is_state RequestState.in_session r) _ _ w
          (Paid gateway actor id w)
          (ends_with (reads (λ u. find_payment r.id u.payments)) _ w (Paid gateway actor id w)
            (λ e. same_world refl)
            (λ existing e.
              on_option_ends existing (take_payment gateway r now) pure w (Paid gateway actor id w)
                taken (λ p. same_world refl)))
          taken

    with_permission :
        (u : World) → u ≡ w → Paid gateway actor id w ((require_own_request actor id >>= rest) u).1
    with_permission u e = rw e (
        ends_with (require_own_request actor id) rest w (Paid gateway actor id w)
          (λ x. same_world (require_own_request_reads actor id w))
          (λ r x.
            let (f, own) = require_own_request_ok actor id w r x in
            rw (require_own_request_reads actor id w) (rest_paid r f own)))
