-- ===== src/Checkout/Rows.antt =====
-- What the payments' operations keep: one payment for each request, and money that was captured.
use salesforce_expert_suppor.Prelude.{
  ℕ, ◌∙◌, sym, ap, ◌≡◌, ◌≢◌, ◌⊎◌, refl, Bool, true, false, not, ◌&&◌, ◌||◌, Option, none, some,
  List, [], ◌∷◌, ◌==◌, any, all, arith, ==_iff, ℕ_discrete, if◌then◌else◌,
}
use salesforce_expert_suppor.Checkout.Payments.{
  Payment, find_payment, upsert_payment, updated_by, created_by, mark_captured, captured_by,
  is_authorized, captured, PaymentStatus, RowStep, upsert, capture, run_rows,
}

abbrev pub captured_of : Option Payment → Option ℕ
captured_of none = none
captured_of (some p) = p.captured_at

abbrev stored : Payment → Option Payment → Payment
stored input none = created_by input
stored input (some p) = updated_by input p

find-upsert_same :
    (input : Payment) (rows : List Payment)
    → find_payment input.support_request_id (upsert_payment input rows)
      ≡ some (stored input (find_payment input.support_request_id rows))
unfolding upsert_payment find_payment
find-upsert_same input [] = ground (arith, ==_iff input.support_request_id input.support_request_id)
find-upsert_same input (p ∷ rows) = ground (arith, find-upsert_same input rows)

find-upsert_other :
    (input : Payment) (rows : List Payment) (other : ℕ)
    → other ≢ input.support_request_id
    → find_payment other (upsert_payment input rows) ≡ find_payment other rows
unfolding upsert_payment find_payment
find-upsert_other input [] other n = ground (arith, ==_iff input.support_request_id other, n)
find-upsert_other input (p ∷ rows) other n = ground (
  arith,
  find-upsert_other input rows other n,
  ==_iff p.support_request_id input.support_request_id,
  ==_iff p.support_request_id other,
  n,
)

-- The customer of the payment that was there, or of the one that is written first.
abbrev pub customer_of : Payment → Option Payment → ℕ
customer_of input none = input.customer_id
customer_of input (some p) = p.customer_id

-- The fields of a payment that was written over another, or first.
abbrev pub Written : Payment → Option Payment → Payment → Type 0
Written input old p =
    (p.provider ≡ input.provider)
    × (p.provider_ref ≡ input.provider_ref)
    × (p.amount_cents ≡ input.amount_cents)
    × (p.currency ≡ input.currency)
    × (p.status ≡ input.status)
    × (p.authorized_at ≡ input.authorized_at)
    × (p.failure_code ≡ input.failure_code)
    × (p.captured_at ≡ captured_of old)
    × (p.customer_id ≡ customer_of input old)

-- A payment is found again as it was written, in provider, reference, amount, currency, status,
-- authorization and failure, whatever was there: the status of a payment that was captured or refunded
-- is replaced like any other. Only the instant of capture and the customer stay those of the payment
-- that was there, and there is no such instant if there was none. The payment of any other request is
-- what it was.
pub upsert_payment-find_payment :
    (input : Payment) (rows : List Payment) (other : ℕ)
    → other ≢ input.support_request_id
    → ((p : Payment) × (find_payment input.support_request_id (upsert_payment input rows) ≡ some p)
        × Written input (find_payment input.support_request_id rows) p)
      × (find_payment other (upsert_payment input rows) ≡ find_payment other rows)
upsert_payment-find_payment input rows other n = (
  (
    stored input (find_payment input.support_request_id rows),
    find-upsert_same input rows,
    stored-Written (find_payment input.support_request_id rows),
  ),
  find-upsert_other input rows other n,
)
  where
    stored-Written : (old : Option Payment) → Written input old (stored input old)
    stored-Written none = (refl, refl, refl, refl, refl, refl, refl, refl, refl)
    stored-Written (some q) = (refl, refl, refl, refl, refl, refl, refl, refl, refl)

-- No request has two payments.
abbrev pub one_each : List Payment → Bool
one_each [] = true
one_each (p ∷ rows) =
    not (any (λ q. q.support_request_id == p.support_request_id) rows) && one_each rows

any-upsert :
    (input : Payment) (rows : List Payment) (id : ℕ)
    → any (λ q. q.support_request_id == id) (upsert_payment input rows)
      ≡ (any (λ q. q.support_request_id == id) rows || (input.support_request_id == id))
unfolding upsert_payment
any-upsert input [] id = ground arith
any-upsert input (p ∷ rows) id =
    ground (arith, any-upsert input rows id, ==_iff p.support_request_id input.support_request_id)

any-capture :
    (request now : ℕ) (rows : List Payment) (id : ℕ)
    → any (λ q. q.support_request_id == id) (mark_captured request now rows)
      ≡ any (λ q. q.support_request_id == id) rows
unfolding mark_captured
any-capture request now [] id = refl
any-capture request now (p ∷ rows) id = ground (arith, any-capture request now rows id)

upsert_one_each :
    (input : Payment) (rows : List Payment)
    → one_each rows ≡ true
    → one_each (upsert_payment input rows) ≡ true
unfolding upsert_payment
upsert_one_each input [] h = refl
upsert_one_each input (p ∷ rows) h = ground (
  arith,
  any-upsert input rows p.support_request_id,
  upsert_one_each input rows,
  ==_iff input.support_request_id p.support_request_id,
  ==_iff p.support_request_id input.support_request_id,
)

capture_one_each :
    (request now : ℕ) (rows : List Payment)
    → one_each rows ≡ true
    → one_each (mark_captured request now rows) ≡ true
unfolding mark_captured
capture_one_each request now [] h = refl
capture_one_each request now (p ∷ rows) h =
    ground
      (arith, any-capture request now rows p.support_request_id, capture_one_each request now rows)

-- The payment that a capture leaves of one.
abbrev pub after_capture : ℕ → Payment → Payment
after_capture now p = if is_authorized p.status then captured_by now p else p

find-capture_same :
    (request now : ℕ) (rows : List Payment) (p : Payment)
    → find_payment request rows ≡ some p
    → find_payment request (mark_captured request now rows) ≡ some (after_capture now p)
unfolding mark_captured find_payment
find-capture_same request now [] p f = ground arith
find-capture_same request now (q ∷ rows) p f = ground (arith, find-capture_same request now rows p)

find-capture_other :
    (request now : ℕ) (rows : List Payment) (other : ℕ)
    → other ≢ request
    → find_payment other (mark_captured request now rows) ≡ find_payment other rows
unfolding mark_captured find_payment
find-capture_other request now [] other n = refl
find-capture_other request now (p ∷ rows) other n = ground (
  arith,
  find-capture_other request now rows other n,
  ==_iff p.support_request_id request,
  ==_iff p.support_request_id other,
  n,
)

run-one_each :
    (steps : List RowStep) (rows : List Payment)
    → one_each rows ≡ true
    → one_each (run_rows steps rows) ≡ true
unfolding run_rows
run-one_each [] rows h = h
run-one_each (upsert input ∷ steps) rows h =
    run-one_each steps (upsert_payment input rows) (upsert_one_each input rows h)
run-one_each (capture request now ∷ steps) rows h =
    run-one_each steps (mark_captured request now rows) (capture_one_each request now rows h)

-- A step that does not write the payment of a request; a capture of it may come.
abbrev pub spares : ℕ → RowStep → Bool
spares request (upsert input) = not (input.support_request_id == request)
spares request (capture other now) = true

capture_spent : (now : ℕ) (p : Payment) → is_authorized p.status ≡ false → after_capture now p ≡ p
capture_spent now p h = rw h refl

run_spared :
    (steps : List RowStep) (rows : List Payment) (request : ℕ) (p : Payment)
    → all (spares request) steps ≡ true
    → is_authorized p.status ≡ false
    → find_payment request rows ≡ some p
    → find_payment request (run_rows steps rows) ≡ some p
unfolding run_rows
run_spared [] rows request p h s f = f
run_spared (upsert input ∷ steps) rows request p h s f =
    run_spared steps (upsert_payment input rows) request p (ground arith) s (
      find-upsert_other input rows request
        (λ e. ground (arith, ==_iff input.support_request_id request))
      ∙ f)
run_spared (capture other now ∷ steps) rows request p h s f =
    run_spared steps (mark_captured other now rows) request p (ground arith) s
      (elim (ℕ_discrete request other) [
        | yes e ↦
            rw (sym e) (find-capture_same request now rows p f ∙ ap some (capture_spent now p s))
        | no n ↦ find-capture_other other now rows request n ∙ f
      ])

capture_due :
    (now : ℕ) (p : Payment)
    → p.status ≡ PaymentStatus.authorized
    → after_capture now p ≡ captured_by now p
capture_due now p h = ground arith

after_capture-spent : (now : ℕ) (p : Payment) → is_authorized (after_capture now p).status ≡ false
after_capture-spent now p = ground arith

after_capture-cases :
    (now : ℕ) (p : Payment) (o : Option Payment)
    → o ≡ some (after_capture now p)
    → ((p.status ≡ PaymentStatus.authorized)
        × (o ≡ some (record p { status = captured; captured_at = some now })))
      ⊎ ((p.status ≢ PaymentStatus.authorized) × (o ≡ some p))
after_capture-cases now p o h = ground arith

-- From rows in which no request has two payments, let any payments be written and captured, in any
-- order; then let the payment of a request be captured; then let anything be written and captured,
-- that request's payment again included, but for a write of that request's own payment. In the end no
-- request has two payments, and the payment is as the first of these captures left it: captured at
-- its instant if it was AUTHORIZED, and otherwise what it was.
pub mark_captured_once :
    (before others : List RowStep) (rows : List Payment) (request now : ℕ) (p : Payment)
    → one_each rows ≡ true
    → find_payment request (run_rows before rows) ≡ some p
    → all (spares request) others ≡ true
    → let last = run_rows others (mark_captured request now (run_rows before rows)) in
      (one_each last ≡ true)
      × (((p.status ≡ PaymentStatus.authorized)
            × (find_payment request last
                ≡ some (record p { status = captured; captured_at = some now })))
          ⊎ ((p.status ≢ PaymentStatus.authorized) × (find_payment request last ≡ some p)))
mark_captured_once before others rows request now p h f s =
    let kept = run_rows before rows in
    let marked = mark_captured request now kept in
    (
      run-one_each others marked (capture_one_each request now kept (run-one_each before rows h)),
      after_capture-cases now p (find_payment request (run_rows others marked)) (
          run_spared others marked request (after_capture now p) s (after_capture-spent now p)
            (find-capture_same request now kept p f)),
    )

-- What a capture did can be done again once the payment is written anew: whatever payment a request
-- had, a captured one included, after it is written as AUTHORIZED a capture takes the amount that was
-- written, at the instant of that capture.
pub mark_captured-upsert_payment :
    (input : Payment) (rows : List Payment) (now : ℕ)
    → input.status ≡ PaymentStatus.authorized
    → (p : Payment) × (find_payment input.support_request_id
          (mark_captured input.support_request_id now (upsert_payment input rows))
        ≡ some p)
      × (p.status ≡ captured)
      × (p.captured_at ≡ some now)
      × (p.amount_cents ≡ input.amount_cents)
mark_captured-upsert_payment input rows now h =
    taken (find_payment input.support_request_id rows) (find-upsert_same input rows)
  where
    taken :
        (old : Option Payment)
        → find_payment input.support_request_id (upsert_payment input rows)
          ≡ some (stored input old)
        → (p : Payment) × (find_payment input.support_request_id
              (mark_captured input.support_request_id now (upsert_payment input rows))
            ≡ some p)
          × (p.status ≡ captured)
          × (p.captured_at ≡ some now)
          × (p.amount_cents ≡ input.amount_cents)
    taken none e = (
      captured_by now (created_by input),
      find-capture_same input.support_request_id now (upsert_payment input rows) (created_by input)
            e
          ∙ ap some (capture_due now (created_by input) h),
      refl,
      refl,
      refl,
    )
    taken (some q) e = (
      captured_by now (updated_by input q),
      find-capture_same input.support_request_id now (upsert_payment input rows)
            (updated_by input q) e
          ∙ ap some (capture_due now (updated_by input q) h),
      refl,
      refl,
      refl,
    )
