-- ===== src/Checkout/Tests.antt =====
-- Runs of the payments and of checkout.
use salesforce_expert_suppor.Prelude.{
  ℕ, List, ◌⊎◌, ◌≢◌, ◌≡◌, refl, true, none, some, [], ◌∷◌, arith,
}
use salesforce_expert_suppor.Contracts.{RequestState, CurrencyCode, AccountStatus, UserRole}
use salesforce_expert_suppor.Authorization.Policy.{Actor}
use salesforce_expert_suppor.Checkout.Payments.{
  Payment, PaymentStatus, find_payment, upsert_payment, mark_captured, RowStep, upsert, capture,
  run_rows,
}
use salesforce_expert_suppor.Checkout.Rows.{
  Written, one_each, mark_captured-upsert_payment, upsert_payment-find_payment, mark_captured_once,
}
use salesforce_expert_suppor.Checkout.Checkouts.{Gateway, accepted, pay}
use salesforce_expert_suppor.Checkout.Charges.{Paid, pay_charges}
use salesforce_expert_suppor.Service.World.{World}

abbrev payment : ℕ → PaymentStatus → Payment
payment request status = record {
  support_request_id = request;
  customer_id = 7;
  provider = 1;
  provider_ref = 50;
  amount_cents = 3635;
  currency = CurrencyCode.usd;
  status = status;
  authorized_at = some 1000;
  captured_at = none;
  failure_code = none;
}

abbrev rows : List Payment
rows = payment 10 PaymentStatus.failed ∷ payment 11 PaymentStatus.captured ∷ []

upsert_payment-find_payment_example :
    ((p : Payment) × (find_payment 10 (upsert_payment (payment 10 PaymentStatus.authorized) rows)
        ≡ some p)
      × Written (payment 10 PaymentStatus.authorized) (find_payment 10 rows) p)
    × (find_payment 11 (upsert_payment (payment 10 PaymentStatus.authorized) rows)
        ≡ find_payment 11 rows)
upsert_payment-find_payment_example =
    upsert_payment-find_payment (payment 10 PaymentStatus.authorized) rows 11 (omega arith)

abbrev before : List RowStep
before = upsert (payment 10 PaymentStatus.authorized) ∷ capture 11 1500 ∷ []

abbrev others : List RowStep
others = capture 10 3000 ∷ upsert (payment 12 PaymentStatus.authorized) ∷ capture 10 4000 ∷ []

mark_captured_once_example :
    let last = run_rows others (mark_captured 10 2000 (run_rows before rows)) in
    (one_each last ≡ true)
    × (((PaymentStatus.authorized ≡ PaymentStatus.authorized)
          × (find_payment 10 last
              ≡ some (record (payment 10 PaymentStatus.authorized) {
                status = PaymentStatus.captured;
                captured_at = some 2000;
              })))
        ⊎ ((PaymentStatus.authorized ≢ PaymentStatus.authorized)
            × (find_payment 10 last ≡ some (payment 10 PaymentStatus.authorized))))
unfolding run_rows upsert_payment find_payment mark_captured
mark_captured_once_example =
    mark_captured_once before others rows 10 2000 (payment 10 PaymentStatus.authorized) refl refl
      refl

mark_captured-upsert_payment_example :
    (p : Payment) × (find_payment 11
        (mark_captured 11 5000 (upsert_payment (payment 11 PaymentStatus.authorized) rows))
      ≡ some p)
    × (p.status ≡ PaymentStatus.captured)
    × (p.captured_at ≡ some 5000)
    × (p.amount_cents ≡ 3635)
mark_captured-upsert_payment_example =
    mark_captured-upsert_payment (payment 11 PaymentStatus.authorized) rows 5000 refl

abbrev gateway : Gateway
gateway charge =
    some record { provider = 1; provider_ref = 50; answer = accepted; failure_code = none }

abbrev customer : Actor
customer = record {
  user_id = 30;
  roles = UserRole.customer ∷ [];
  status = AccountStatus.active;
  email_verified = true;
  customer_profile_id = some 7;
  expert = none;
}

abbrev waiting : World
waiting = record {
  requests =
      record {
        id = 10;
        customer_id = 7;
        state = RequestState.payment_pending;
        version = 6;
        match_deadline_at = 600000;
        assigned_expert_id = some 5;
        created_at = 0;
        quoted_price_cents = 3635;
        currency = CurrencyCode.usd;
        skills = [];
      }
      ∷ [];
  runs = [];
  store = record { attempts = []; availability = λ e. none; reliability_hits = [] };
  counter = 0;
  jobs = [];
  payments = [];
  charges = [];
}

pay_charges_example : Paid gateway customer 10 waiting (pay gateway customer 10 9000 waiting).1
pay_charges_example = pay_charges gateway customer 10 9000 waiting
