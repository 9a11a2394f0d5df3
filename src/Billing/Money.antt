-- ===== src/Billing/Money.antt =====
-- shared/money.ts. Amounts are integers (`Number.isInteger` is checked by the source on the way in);
-- the arithmetic is exact, as the source's is while its products stay below 2 ^ 53.
use salesforce_expert_suppor.Prelude.{ℕ, ◌+◌, ◌*◌, ◌/◌, Bool, ◌&&◌, ltb, if◌then◌else◌, same}
use salesforce_expert_suppor.Int.{ℤ, pos, negsuc, ◌+ℤ◌, ◌-ℤ◌, ltb_ℤ, ℤ-discrete}
use salesforce_expert_suppor.Contracts.{CurrencyCode, CurrencyCode-discrete}

pub record Money : Type 0 where
  pub amount_minor : ℤ
  pub currency : CurrencyCode

-- What the functions of the file throw.
pub data MoneyError : Type 0 where
  currency_mismatch : CurrencyCode → CurrencyCode → MoneyError
  fee_out_of_range negative_amount allowance_invalid allowance_exceeds_charge : MoneyError

pub data Result {ℓ} (A : Type ℓ) : Type ℓ where
  ok : A → Result A
  err : MoneyError → Result A

abbrev pub minor : ℤ → CurrencyCode → Money
minor amount currency = record { amount_minor = amount; currency = currency }

same_currency : Money → Money → Bool
same_currency a b = same CurrencyCode-discrete a.currency b.currency

unfoldable pub add : Money → Money → Result Money
unfolding same_currency
add a b =
    if same_currency a b
    then ok (minor (a.amount_minor +ℤ b.amount_minor) a.currency)
    else err (currency_mismatch a.currency b.currency)

unfoldable pub subtract : Money → Money → Result Money
unfolding same_currency
subtract a b =
    if same_currency a b
    then ok (minor (a.amount_minor -ℤ b.amount_minor) a.currency)
    else err (currency_mismatch a.currency b.currency)

abbrev pub is_negative : Money → Bool
is_negative a = ltb_ℤ a.amount_minor (pos 0)

unfoldable pub equals : Money → Money → Bool
equals a b =
    same CurrencyCode-discrete a.currency b.currency
    && same ℤ-discrete a.amount_minor b.amount_minor

pub record FeeSplit : Type 0 where
  pub platform_fee : Money
  pub expert_payout : Money

abbrev pub basis_points : ℕ
basis_points = 10000

-- `Math.floor((gross * bps + 5_000) / 10_000)`
unfoldable pub fee_minor : ℕ → ℕ → ℕ
fee_minor gross bps = (gross * bps + 5000) / 10000

-- The amount and the rate, once both have passed the checks.
unfoldable pub split_checked : ℕ → ℕ → CurrencyCode → FeeSplit
split_checked gross bps currency = record {
  platform_fee = minor (pos (fee_minor gross bps)) currency;
  expert_payout = minor (pos gross -ℤ pos (fee_minor gross bps)) currency;
}

split_gross : ℤ → ℕ → CurrencyCode → Result FeeSplit
unfolding split_checked
split_gross (negsuc _) bps currency = err negative_amount
split_gross (pos gross) bps currency = ok (split_checked gross bps currency)

unfoldable pub split_rate : ℤ → ℤ → CurrencyCode → Result FeeSplit
unfolding split_gross
split_rate gross (negsuc _) currency = err fee_out_of_range
split_rate gross (pos bps) currency =
    if ltb basis_points bps then err fee_out_of_range else split_gross gross bps currency

unfoldable pub split_fee : Money → ℤ → Result FeeSplit
unfolding split_rate
split_fee gross platform_fee_bps = split_rate gross.amount_minor platform_fee_bps gross.currency

pub record SessionSplit : Type 0 where
  pub charged : Money
  pub fee_base : Money
  pub processing_allowance : Money
  pub platform_total : Money
  pub expert_payout : Money

-- The result, from the split of the fee base.
assemble : Money → ℤ → Result FeeSplit → Result SessionSplit
assemble charged allowance (err e) = err e
assemble charged allowance (ok split) = ok (record {
  charged = charged;
  fee_base = minor (charged.amount_minor -ℤ allowance) charged.currency;
  processing_allowance = minor allowance charged.currency;
  platform_total = minor (split.platform_fee.amount_minor +ℤ allowance) charged.currency;
  expert_payout = split.expert_payout;
})

unfoldable pub split_session_price : Money → ℤ → ℤ → Result SessionSplit
unfolding assemble
split_session_price charged processing_allowance_minor platform_fee_bps =
    if ltb_ℤ processing_allowance_minor (pos 0)
    then err allowance_invalid
    else if ltb_ℤ charged.amount_minor processing_allowance_minor
    then err allowance_exceeds_charge
    else assemble charged processing_allowance_minor (
        split_fee (minor (charged.amount_minor -ℤ processing_allowance_minor) charged.currency)
          platform_fee_bps)
