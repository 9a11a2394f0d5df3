-- ===== src/Checkout/Checkouts.antt =====
-- `CheckoutService` of packages/domain/src/payments/checkout-service.ts. The payment gateway is a
-- parameter: what its `authorize` answers to a key and an amount, or that it throws. The duration of
-- the summary, the failure's message, the audit row and the notice are left out.
use salesforce_expert_suppor.Prelude.{
  ℕ, Bool, true, false, not, ◌||◌, Option, none, some, [], ◌∷◌, ◌++◌, ◌==◌,
}
use salesforce_expert_suppor.Contracts.{RequestState}
use salesforce_expert_suppor.Requests.Machine.{system}
use salesforce_expert_suppor.Authorization.Policy.{Actor, support_request_read_own}
use salesforce_expert_suppor.Checkout.Payments.{
  Payment, PaymentStatus, requires_method, failed, find_payment, upsert_payment,
}
use salesforce_expert_suppor.Service.World.{Request, Charge}
use salesforce_expert_suppor.Service.Monad.{
  Action, Result, ok, err, Error, pure, raise, reads, branch, ◌>>=◌, on_option, or_raise, raise_if,
  not_found, forbidden, conflict, validation,
}
use salesforce_expert_suppor.Service.Requests.{is_state, find_request, transition}
use salesforce_expert_suppor.Service.Responses.{require_permission}

-- `Authorization`
pub data Answer : Type 0 where
  accepted needs_action refused : Answer

pub record GatewayAnswer : Type 0 where
  pub provider : ℕ
  pub provider_ref : ℕ
  pub answer : Answer
  pub failure_code : Option ℕ

-- `authorize`, of the key and the amount, the same for the same key; `none` where it throws.
abbrev pub Gateway : Type 0
Gateway = Charge → Option GatewayAnswer

-- An error that is thrown by the gateway passes through `pay`; it is none of the domain's own.
abbrev pub answered : Option GatewayAnswer → Result GatewayAnswer
answered none = err Error.internal
answered (some given) = ok given

abbrev pub is_owner : Option ℕ → Request → Bool
is_owner none request = false
is_owner (some customer) request = request.customer_id == customer

-- `requireOwnRequest`
unfoldable pub require_own_request : Actor → ℕ → Action Request
require_own_request actor id = do
  found ← find_request id
  request ← or_raise found not_found
  _ ← raise_if (not (is_owner actor.customer_profile_id request)) forbidden
  pure request

abbrev pub charge_of : Request → Charge
charge_of request = record {
  request_id = request.id;
  amount_minor = request.quoted_price_cents;
  currency = request.currency;
}

unfoldable pub ask_gateway : Gateway → Request → Action GatewayAnswer
ask_gateway gateway request w = (
  answered (gateway (charge_of request)),
  record w { charges = w.charges ++ (charge_of request ∷ []) },
)

abbrev pub payment_of : Request → GatewayAnswer → PaymentStatus → Option ℕ → Option ℕ → Payment
payment_of request given status at failure = record {
  support_request_id = request.id;
  customer_id = request.customer_id;
  provider = given.provider;
  provider_ref = given.provider_ref;
  amount_cents = request.quoted_price_cents;
  currency = request.currency;
  status = status;
  authorized_at = at;
  captured_at = none;
  failure_code = failure;
}

-- `payments.upsertForRequest`, which answers the row.
unfoldable pub write_payment : Payment → Action (Option Payment)
write_payment input w =
    let rows = upsert_payment input w.payments in
    (ok (find_payment input.support_request_id rows), record w { payments = rows })

unfoldable pub by_answer : Request → ℕ → GatewayAnswer → Answer → Action Payment
by_answer request now given refused = do
  _ ← write_payment (payment_of request given failed none given.failure_code)
  raise validation
by_answer request now given needs_action = do
  row ← write_payment (payment_of request given requires_method none none)
  or_raise row Error.internal
by_answer request now given accepted = do
  row ← write_payment (payment_of request given PaymentStatus.authorized (some now) none)
  payment ← or_raise row Error.internal
  _ ← transition request RequestState.ready system
  pure payment

-- Where `pay` has not found a payment that was made.
unfoldable pub take_payment : Gateway → Request → ℕ → Action Payment
take_payment gateway request now = do
  _ ← raise_if (not (is_state RequestState.payment_pending request)) conflict
  given ← ask_gateway gateway request
  by_answer request now given given.answer

unfoldable pub pay : Gateway → Actor → ℕ → ℕ → Action Payment
pay gateway actor id now = do
  _ ← require_permission actor support_request_read_own
  request ← require_own_request actor id
  branch (is_state RequestState.ready request || is_state RequestState.in_session request)
      (do
        existing ← reads (λ w. find_payment request.id w.payments)
        on_option existing (take_payment gateway request now) pure)
      (take_payment gateway request now)

pub data Due : Type 0 where
  due paid not_due : Due

abbrev due_by : Bool → Option Payment → Due
due_by true payment = due
due_by false none = not_due
due_by false (some p) = paid

-- The status of `summary`.
unfoldable pub summary : Actor → ℕ → Action Due
summary actor id = do
  _ ← require_permission actor support_request_read_own
  request ← require_own_request actor id
  payment ← reads (λ w. find_payment request.id w.payments)
  pure (due_by (is_state RequestState.payment_pending request) payment)
