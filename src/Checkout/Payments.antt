-- ===== src/Checkout/Payments.antt =====
-- Payments, one for each request: `PaymentRecord` of packages/domain/src/ports/payment-repository.ts
-- without its id and its message, and the three operations of
-- packages/adapters/src/persistence/prisma-payment-repository.ts. The unique index that the database
-- keeps on the request's id is why an upsert changes the first row that it finds.
use salesforce_expert_suppor.Prelude.{
  ℕ, Bool, true, false, ◌&&◌, Option, none, some, List, [], ◌∷◌, ◌==◌, if◌then◌else◌, find_first,
}
use salesforce_expert_suppor.Contracts.{CurrencyCode}

pub data PaymentStatus : Type 0 where
  requires_method authorized captured failed cancelled refunded partially_refunded : PaymentStatus

pub record Payment : Type 0 where
  pub support_request_id : ℕ
  pub customer_id : ℕ
  pub provider : ℕ
  pub provider_ref : ℕ
  pub amount_cents : ℕ
  pub currency : CurrencyCode
  pub status : PaymentStatus
  pub authorized_at : Option ℕ
  pub captured_at : Option ℕ
  pub failure_code : Option ℕ

abbrev pub is_authorized : PaymentStatus → Bool
is_authorized authorized = true
is_authorized _ = false

unfoldable pub find_payment : ℕ → List Payment → Option Payment
find_payment request rows = find_first (λ p. p.support_request_id == request) rows

-- An update keeps the customer, and what was captured.
abbrev pub updated_by : Payment → Payment → Payment
updated_by input p = record input {
  support_request_id = p.support_request_id;
  customer_id = p.customer_id;
  captured_at = p.captured_at;
}

abbrev pub created_by : Payment → Payment
created_by input = record input { captured_at = none }

-- `upsertForRequest`; the `captured_at` of the input is not read.
unfoldable pub upsert_payment : Payment → List Payment → List Payment
upsert_payment input [] = created_by input ∷ []
upsert_payment input (p ∷ rows) =
    if p.support_request_id == input.support_request_id
    then updated_by input p ∷ rows
    else p ∷ upsert_payment input rows

abbrev pub captured_by : ℕ → Payment → Payment
captured_by now p = record p { status = captured; captured_at = some now }

-- `markCaptured`
unfoldable pub mark_captured : ℕ → ℕ → List Payment → List Payment
mark_captured request now [] = []
mark_captured request now (p ∷ rows) =
    if (p.support_request_id == request) && is_authorized p.status
    then captured_by now p ∷ rows
    else p ∷ mark_captured request now rows

-- The operations that write, in any order.
pub data RowStep : Type 0 where
  upsert : Payment → RowStep
  capture : ℕ → ℕ → RowStep

unfoldable pub run_rows : List RowStep → List Payment → List Payment
run_rows [] rows = rows
run_rows (upsert input ∷ steps) rows = run_rows steps (upsert_payment input rows)
run_rows (capture request now ∷ steps) rows = run_rows steps (mark_captured request now rows)
