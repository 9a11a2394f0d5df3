-- ===== src/Billing/Fees.antt =====
-- billing/expert-fees.ts: the usage fee and the dues that block. `duesMessage` is text, and left out.
use salesforce_expert_suppor.Prelude.{
  ℕ, ◌-◌, ◌/◌, ◌%◌, Bool, true, false, not, Option, none, some, List, [], ◌∷◌, map, if◌then◌else◌,
  select, same, includes,
}
use salesforce_expert_suppor.Int.{ℤ, pos, negsuc, pos_part, ◌+ℤ◌, ◌-ℤ◌, ltb_ℤ}
use salesforce_expert_suppor.Contracts.{CurrencyCode, CurrencyCode-discrete}

abbrev pub sessions_per_fee_unit : ℕ
sessions_per_fee_unit = 5

unfoldable pub expert_fee_minor : CurrencyCode → Option ℕ
expert_fee_minor CurrencyCode.inr = some 50000
expert_fee_minor CurrencyCode.usd = some 600
expert_fee_minor CurrencyCode.gbp = some 500
expert_fee_minor _ = none

unfoldable pub supports_expert_fee : CurrencyCode → Bool
supports_expert_fee currency = elim (expert_fee_minor currency) [
  | none ↦ false
  | some amount ↦ true
]

-- `none` where the source throws a `RangeError`.
unfoldable pub expert_fee_unit : CurrencyCode → Option ℕ
expert_fee_unit currency = elim (expert_fee_minor currency) [
  | none ↦ none
  | some amount ↦ some amount
]

unfoldable pub fee_units_accrued : ℤ → ℕ
fee_units_accrued (negsuc _) = 0
fee_units_accrued (pos sessions_delivered) = sessions_delivered / sessions_per_fee_unit

-- `Math.max(0, accrued - billed)`
unfoldable pub fee_units_newly_due : ℤ → ℤ → ℕ
fee_units_newly_due sessions_delivered fee_units_already_billed =
    pos_part (pos (fee_units_accrued sessions_delivered) -ℤ fee_units_already_billed)

unfoldable pub sessions_until_next_fee : ℤ → ℕ
sessions_until_next_fee sessions_delivered =
    sessions_per_fee_unit - pos_part sessions_delivered % sessions_per_fee_unit

pub data DueReason : Type 0 where
  expert_usage_fee session_extension : DueReason

unfoldable pub DueReason-discrete : Discrete DueReason
DueReason-discrete = hlevel

pub record OutstandingDue : Type 0 where
  pub reason : DueReason
  pub amount_minor : ℤ
  pub currency : CurrencyCode

pub record DuesVerdict : Type 0 where
  pub blocked : Bool
  pub totals : List (CurrencyCode × ℤ)
  pub reasons : List DueReason

abbrev pub is_unpaid : OutstandingDue → Bool
is_unpaid due = ltb_ℤ (pos 0) due.amount_minor

-- One turn of the loop on `byCurrency`: a `Map` keeps its keys in order of first insertion.
unfoldable pub add_total : CurrencyCode → ℤ → List (CurrencyCode × ℤ) → List (CurrencyCode × ℤ)
add_total c amount [] = (c, pos 0 +ℤ amount) ∷ []
add_total c amount ((k, total) ∷ rest) =
    if same CurrencyCode-discrete k c
    then (k, total +ℤ amount) ∷ rest
    else (k, total) ∷ add_total c amount rest

unfoldable pub totals_from : List (CurrencyCode × ℤ) → List OutstandingDue → List (CurrencyCode × ℤ)
totals_from totals [] = totals
totals_from totals (due ∷ dues) = totals_from (add_total due.currency due.amount_minor totals) dues

-- `new Set(…)`: the first of each value, in order.
unfoldable pub distinct_from : List DueReason → List DueReason → List DueReason
distinct_from seen [] = []
distinct_from seen (r ∷ rs) =
    if includes DueReason-discrete r seen
    then distinct_from seen rs
    else r ∷ distinct_from (r ∷ seen) rs

-- The order of the strings: "EXPERT_USAGE_FEE" before "SESSION_EXTENSION".
abbrev goes_before : DueReason → DueReason → Bool
goes_before expert_usage_fee _ = true
goes_before session_extension expert_usage_fee = false
goes_before session_extension session_extension = true

insert_reason : DueReason → List DueReason → List DueReason
insert_reason r [] = r ∷ []
insert_reason r (x ∷ xs) = if goes_before r x then r ∷ x ∷ xs else x ∷ insert_reason r xs

unfoldable pub sort_reasons : List DueReason → List DueReason
unfolding insert_reason
sort_reasons [] = []
sort_reasons (r ∷ rs) = insert_reason r (sort_reasons rs)

abbrev pub is_empty : List OutstandingDue → Bool
is_empty [] = true
is_empty (_ ∷ _) = false

unfoldable pub evaluate_dues : List OutstandingDue → DuesVerdict
evaluate_dues dues =
    let unpaid = select is_unpaid dues in
    record {
      blocked = not (is_empty unpaid);
      totals = totals_from [] unpaid;
      reasons = sort_reasons (distinct_from [] (map (λ due. due.reason) unpaid));
    }
