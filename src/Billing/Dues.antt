-- ===== src/Billing/Dues.antt =====
-- What falls due, and what blocks.
use salesforce_expert_suppor.Prelude.{
  ℕ, suc, ◌+◌, ◌-◌, ◌≤◌, ◌<◌, ◌≡◌, refl, sym, ◌∙◌, ◌↔◌, ◌⊎◌, inl, true, not, List, [], ◌∷◌, arith,
  In, same, select, select-In, In-select, if◌then◌else◌,
}
use salesforce_expert_suppor.Int.{ℤ, pos, ◌+ℤ◌, ◌-ℤ◌, int_laws}
use salesforce_expert_suppor.Contracts.{CurrencyCode, CurrencyCode-discrete}
use salesforce_expert_suppor.Billing.Fees.{
  fee_units_accrued, fee_units_newly_due, sessions_until_next_fee, OutstandingDue, is_unpaid,
  add_total, totals_from, is_empty, evaluate_dues,
}

-- Billing whatever is newly due, after any number of sessions and however often the event is
-- replayed, bills every fee unit once: with the new units on the account nothing more is due, and
-- the account then stands at what has accrued, unless it stood above that before.
pub fee_units_newly_due_idempotent :
    (sessions : ℤ) (billed : ℕ)
    → let due = fee_units_newly_due sessions (pos billed) in
      (fee_units_newly_due sessions (pos (billed + due)) ≡ 0)
      × ((billed + due ≡ fee_units_accrued sessions)
          ⊎ ((due ≡ 0) × (fee_units_accrued sessions < billed)))
unfolding fee_units_newly_due ◌-ℤ◌
fee_units_newly_due_idempotent sessions billed = ground arith

-- Counting down to the next fee agrees with accruing it: the next unit accrues after exactly that
-- many sessions more and not one earlier, and there are one to five of them to go.
pub sessions_until_next_fee-accrued :
    (n : ℕ)
    → let left = sessions_until_next_fee (pos n) in
      (1 ≤ left)
      × (left ≤ 5)
      × (fee_units_accrued (pos (n + left)) ≡ suc (fee_units_accrued (pos n)))
      × (fee_units_accrued (pos (n + (left - 1))) ≡ fee_units_accrued (pos n))
unfolding sessions_until_next_fee fee_units_accrued
sessions_until_next_fee-accrued n = (omega arith, omega arith, omega arith, omega arith)

-- The amount under a currency in a list of totals, 0 if there is none.
abbrev pub total_of : CurrencyCode → List (CurrencyCode × ℤ) → ℤ
total_of c [] = pos 0
total_of c ((k, total) ∷ rest) = if same CurrencyCode-discrete k c then total else total_of c rest

-- What is owed in one currency: the sum of the unpaid dues in it.
abbrev pub owed : CurrencyCode → List OutstandingDue → ℤ
owed c [] = pos 0
owed c (due ∷ dues) =
    let rest = owed c dues in
    if is_unpaid due
    then (if same CurrencyCode-discrete due.currency c then due.amount_minor +ℤ rest else rest)
    else rest

total_of-add_total :
    (c k : CurrencyCode) (amount : ℤ) (totals : List (CurrencyCode × ℤ))
    → total_of c (add_total k amount totals)
      ≡ (if same CurrencyCode-discrete k c then total_of c totals +ℤ amount else total_of c totals)
unfolding add_total
total_of-add_total c k amount [] = ground arith
total_of-add_total c k amount ((j, total) ∷ rest) =
    ground (arith, total_of-add_total c k amount rest)

+ℤ_assoc : (a b c : ℤ) → a +ℤ b +ℤ c ≡ a +ℤ (b +ℤ c)
+ℤ_assoc a b c = omega int_laws

+ℤ-zero : (a : ℤ) → a +ℤ pos 0 ≡ a
+ℤ-zero a = omega int_laws

zero-+ℤ : (a : ℤ) → pos 0 +ℤ a ≡ a
zero-+ℤ a = omega int_laws

total_of-totals_from :
    (c : CurrencyCode) (dues : List OutstandingDue) (totals : List (CurrencyCode × ℤ))
    → total_of c (totals_from totals (select is_unpaid dues)) ≡ total_of c totals +ℤ owed c dues
unfolding totals_from
total_of-totals_from c [] totals = sym (+ℤ-zero (total_of c totals))
total_of-totals_from c (due ∷ dues) totals = ground (
  arith,
  total_of-totals_from c dues totals,
  total_of-totals_from c dues (add_total due.currency due.amount_minor totals),
  total_of-add_total c due.currency due.amount_minor totals,
  +ℤ_assoc (total_of c totals) due.amount_minor (owed c dues),
)

nonempty→In : (xs : List OutstandingDue) → not (is_empty xs) ≡ true → (x : OutstandingDue) × In x xs
nonempty→In [] h = cc
nonempty→In (x ∷ xs) h = (x, inl refl)

In→nonempty : (xs : List OutstandingDue) (x : OutstandingDue) → In x xs → not (is_empty xs) ≡ true
In→nonempty [] x i = absurd i
In→nonempty (y ∷ xs) x i = refl

-- Somebody is blocked exactly if some due is unpaid.
pub evaluate_dues_lem :
    (dues : List OutstandingDue)
    → ((evaluate_dues dues).blocked ≡ true)
      ↔ ((due : OutstandingDue) × In due dues × (is_unpaid due ≡ true))
unfolding evaluate_dues
evaluate_dues_lem dues = (
  λ h.
      let (x, i) = nonempty→In (select is_unpaid dues) h in
      let (j, t) = select-In is_unpaid dues x i in (x, j, t),
  λ h. In→nonempty (select is_unpaid dues) h.0 (In-select is_unpaid dues h.0 h.1 h.2),
)

-- The totals report, for every currency, the sum of the unpaid dues in it, with nothing carried from
-- one currency to another.
pub evaluate_dues-totals :
    (dues : List OutstandingDue) (c : CurrencyCode)
    → total_of c (evaluate_dues dues).totals ≡ owed c dues
unfolding evaluate_dues
evaluate_dues-totals dues c = total_of-totals_from c dues [] ∙ zero-+ℤ (owed c dues)
