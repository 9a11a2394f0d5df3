-- ===== src/Billing/Tests.antt =====
-- Runs of the money code.
use salesforce_expert_suppor.Prelude.{◌+◌, ◌*◌, ◌≤◌, ◌<◌, ◌≡◌, refl, ◌↔◌, ◌⊎◌, List, [], ◌∷◌}
use salesforce_expert_suppor.Int.{pos, ◌≤ℤ◌, ◌+ℤ◌, ◌-ℤ◌}
use salesforce_expert_suppor.Contracts.{CurrencyCode}
use salesforce_expert_suppor.Billing.Money.{
  Money, minor, add, ok, FeeSplit, fee_minor, split_checked, split_rate, split_fee, SessionSplit,
  split_session_price,
}
use salesforce_expert_suppor.Billing.Split.{
  fee_minor_rounds, split_fee_conserves, split_fee-ok_iff, split_session_price_conserves,
  split_session_price-payout,
}
use salesforce_expert_suppor.Billing.Fees.{
  fee_units_accrued, fee_units_newly_due, OutstandingDue, expert_usage_fee, session_extension,
  evaluate_dues,
}
use salesforce_expert_suppor.Billing.Dues.{
  fee_units_newly_due_idempotent, evaluate_dues-totals, total_of, owed,
}

abbrev price : Money
price = minor (pos 119900) CurrencyCode.inr

abbrev charge : Money
charge = minor (pos 123497) CurrencyCode.inr

abbrev session : SessionSplit
session = record {
  charged = charge;
  fee_base = price;
  processing_allowance = minor (pos 3597) CurrencyCode.inr;
  platform_total = minor (pos 27577) CurrencyCode.inr;
  expert_payout = minor (pos 95920) CurrencyCode.inr;
}

abbrev bare_session : SessionSplit
bare_session = record {
  charged = price;
  fee_base = price;
  processing_allowance = minor (pos 0) CurrencyCode.inr;
  platform_total = minor (pos 23980) CurrencyCode.inr;
  expert_payout = minor (pos 95920) CurrencyCode.inr;
}

abbrev dues : List OutstandingDue
dues =
    record { reason = expert_usage_fee; amount_minor = pos 50000; currency = CurrencyCode.inr }
    ∷ record { reason = session_extension; amount_minor = pos 0; currency = CurrencyCode.inr }
    ∷ record { reason = expert_usage_fee; amount_minor = pos 600; currency = CurrencyCode.usd }
    ∷ []

fee_minor_rounds_example :
    (fee_minor 119905 1500 * 10000 ≤ 119905 * 1500 + 5000)
    × (119905 * 1500 + 5000 < fee_minor 119905 1500 * 10000 + 10000)
fee_minor_rounds_example = fee_minor_rounds 119905 1500

split_fee_conserves_example :
    (add (minor (pos 23980) CurrencyCode.inr) (minor (pos 95920) CurrencyCode.inr) ≡ ok price)
    × (pos 0 ≤ℤ pos 23980)
    × (pos 0 ≤ℤ pos 95920)
unfolding split_fee split_rate split_checked fee_minor ◌-ℤ◌
split_fee_conserves_example =
    split_fee_conserves price (pos 2000) (split_checked 119900 2000 CurrencyCode.inr) refl

split_fee-ok_iff_example :
    ((split : FeeSplit) × (split_fee price (pos 10001) ≡ ok split))
    ↔ ((pos 0 ≤ℤ pos 10001) × (pos 10001 ≤ℤ pos 10000) × (pos 0 ≤ℤ price.amount_minor))
split_fee-ok_iff_example = split_fee-ok_iff price (pos 10001)

split_session_price_conserves_example :
    (add session.platform_total session.expert_payout ≡ ok charge)
    × (pos 3597 ≤ℤ session.platform_total.amount_minor)
    × (pos 0 ≤ℤ session.expert_payout.amount_minor)
unfolding split_session_price split_fee split_rate split_checked fee_minor ◌-ℤ◌ ◌+ℤ◌
split_session_price_conserves_example =
    split_session_price_conserves charge (pos 3597) (pos 2000) session refl

split_session_price-payout_example : session.expert_payout ≡ bare_session.expert_payout
unfolding split_session_price split_fee split_rate split_checked fee_minor ◌-ℤ◌ ◌+ℤ◌
split_session_price-payout_example =
    split_session_price-payout charge price (pos 3597) (pos 0) (pos 2000) session bare_session refl
      refl refl refl

fee_units_newly_due_idempotent_example :
    let due = fee_units_newly_due (pos 17) (pos 1) in
    (fee_units_newly_due (pos 17) (pos (1 + due)) ≡ 0)
    × ((1 + due ≡ fee_units_accrued (pos 17)) ⊎ ((due ≡ 0) × (fee_units_accrued (pos 17) < 1)))
fee_units_newly_due_idempotent_example = fee_units_newly_due_idempotent (pos 17) 1

evaluate_dues-totals_example :
    total_of CurrencyCode.usd (evaluate_dues dues).totals ≡ owed CurrencyCode.usd dues
evaluate_dues-totals_example = evaluate_dues-totals dues CurrencyCode.usd
