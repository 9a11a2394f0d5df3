-- ===== src/Billing/Split.antt =====
-- What a split of a price keeps: no minor unit appears or vanishes, and nobody's share is negative.
use salesforce_expert_suppor.Prelude.{
  ℕ, ◌+◌, ◌*◌, ◌≤◌, ◌<◌, ◌≡◌, refl, sym, ◌∙◌, ◌↔◌, ◌⊎◌, inl, inr, arith,
}
use salesforce_expert_suppor.Int.{ℤ, pos, negsuc, ◌+ℤ◌, ◌-ℤ◌, ◌≤ℤ◌, int_laws}
use salesforce_expert_suppor.Contracts.{CurrencyCode}
use salesforce_expert_suppor.Billing.Money.{
  Money, MoneyError, Result, ok, err, FeeSplit, fee_minor, split_checked, split_rate, split_fee,
  SessionSplit, split_session_price, minor, add,
}

-- The fee lies between nothing and everything.
fee_minor-le : (gross bps : ℕ) → bps ≤ 10000 → fee_minor gross bps ≤ gross
unfolding fee_minor
fee_minor-le gross bps h = grind arith

-- The fee is the exact share `gross * bps / 10000` rounded half up: it is off by half a unit at
-- most, and a tie goes to the platform.
pub fee_minor_rounds :
    (gross bps : ℕ)
    → (fee_minor gross bps * 10000 ≤ gross * bps + 5000)
      × (gross * bps + 5000 < fee_minor gross bps * 10000 + 10000)
unfolding fee_minor
fee_minor_rounds gross bps = (omega arith, omega arith)

-- What `splitFee` returns, and on which arguments.
pub split_rate_cases :
    (gross bps : ℤ) (currency : CurrencyCode) (split : FeeSplit)
    → split_rate gross bps currency ≡ ok split
    → (n : ℕ) × (b : ℕ) × (gross ≡ pos n)
      × (bps ≡ pos b)
      × (b ≤ 10000)
      × (split.platform_fee ≡ minor (pos (fee_minor n b)) currency)
      × (split.expert_payout ≡ minor (pos n -ℤ pos (fee_minor n b)) currency)
unfolding split_rate
split_rate_cases gross (negsuc b) currency split h = cc
split_rate_cases (negsuc n) (pos b) currency split h = ground arith
split_rate_cases (pos n) (pos b) currency split h =
    (n, b, refl, refl, ground arith, ground arith, ground arith)

Result-cases :
    (r : Result FeeSplit) → ((e : MoneyError) × (r ≡ err e)) ⊎ ((x : FeeSplit) × (r ≡ ok x))
Result-cases (err e) = inl (e, refl)
Result-cases (ok x) = inr (x, refl)

add_amounts :
    (x y z : ℤ) (currency : CurrencyCode)
    → x +ℤ y ≡ z
    → add (minor x currency) (minor y currency) ≡ ok (minor z currency)
unfolding add
add_amounts x y z currency e = ground arith

-- A part and what is left of the whole add up to the whole, and so with a surcharge on both.
remainder_sum : (whole part : ℤ) → part +ℤ (whole -ℤ part) ≡ whole
remainder_sum whole part = omega int_laws

surcharge_sum :
    (charge whole part allowance : ℤ)
    → charge -ℤ allowance ≡ whole
    → part +ℤ allowance +ℤ (whole -ℤ part) ≡ charge
surcharge_sum charge whole part allowance e = rw (← e) (omega int_laws)

remainder_nonneg : (n k : ℕ) → k ≤ n → pos 0 ≤ℤ (pos n -ℤ pos k)
unfolding ◌-ℤ◌
remainder_nonneg n k h = ground arith

-- When `splitFee` succeeds, the two shares add up to the gross amount exactly, in its currency, and
-- neither is negative.
pub split_fee_conserves :
    (gross : Money) (bps : ℤ) (split : FeeSplit)
    → split_fee gross bps ≡ ok split
    → (add split.platform_fee split.expert_payout ≡ ok gross)
      × (pos 0 ≤ℤ split.platform_fee.amount_minor)
      × (pos 0 ≤ℤ split.expert_payout.amount_minor)
unfolding split_fee
split_fee_conserves gross bps split h =
    let (n, b, g, _, small, f, p) =
      split_rate_cases gross.amount_minor bps gross.currency split h in
    let fits = fee_minor-le n b small in
    (
      rw (f, p)
          (add_amounts _ _ gross.amount_minor gross.currency
            (remainder_sum (pos n) (pos (fee_minor n b)) ∙ sym g)),
      rw f (omega arith),
      rw p (remainder_nonneg n (fee_minor n b) fits),
    )

split_rate_defined :
    (gross bps : ℤ) (currency : CurrencyCode)
    → pos 0 ≤ℤ bps
    → bps ≤ℤ pos 10000
    → pos 0 ≤ℤ gross
    → (split : FeeSplit) × (split_rate gross bps currency ≡ ok split)
unfolding split_rate
split_rate_defined gross (negsuc b) currency low high h = absurd (omega arith)
split_rate_defined (negsuc n) (pos b) currency low high h = absurd (omega arith)
split_rate_defined (pos n) (pos b) currency low high h = (split_checked n b currency, ground arith)

-- `splitFee` succeeds exactly on a rate within [0, 10000] and an amount that is not negative.
pub split_fee-ok_iff :
    (gross : Money) (bps : ℤ)
    → ((split : FeeSplit) × (split_fee gross bps ≡ ok split))
      ↔ ((pos 0 ≤ℤ bps) × (bps ≤ℤ pos 10000) × (pos 0 ≤ℤ gross.amount_minor))
unfolding split_fee
split_fee-ok_iff gross bps = (
  λ h.
      let (n, b, g, r, small, _, _) =
        split_rate_cases gross.amount_minor bps gross.currency h.0 h.1 in
      (rw r (omega arith), rw r (omega arith), rw g (omega arith)),
  λ h. split_rate_defined gross.amount_minor bps gross.currency h.0 h.1 h.2,
)

assembled :
    (charged : Money) (allowance bps : ℤ) (split : SessionSplit)
    → split_session_price charged allowance bps ≡ ok split
    → (base : FeeSplit) × (split_fee
          (minor (charged.amount_minor -ℤ allowance) charged.currency)
          bps
        ≡ ok base)
      × (pos 0 ≤ℤ allowance)
      × (allowance ≤ℤ charged.amount_minor)
      × (split.platform_total
          ≡ minor (base.platform_fee.amount_minor +ℤ allowance) charged.currency)
      × (split.expert_payout ≡ base.expert_payout)
unfolding split_session_price
assembled charged allowance bps split h =
    elim (Result-cases
      (split_fee (minor (charged.amount_minor -ℤ allowance) charged.currency) bps)) [
        | inl (e, failed) ↦ ground arith
        | inr (base, e) ↦ (base, e, ground arith, ground arith, ground arith, ground arith)
      ]

-- A session's price is split without loss: what the platform keeps and what the expert is paid add
-- up to the charge exactly, the platform keeps at least the whole allowance, and the payout is not
-- negative.
pub split_session_price_conserves :
    (charged : Money) (allowance bps : ℤ) (split : SessionSplit)
    → split_session_price charged allowance bps ≡ ok split
    → (add split.platform_total split.expert_payout ≡ ok charged)
      × (allowance ≤ℤ split.platform_total.amount_minor)
      × (pos 0 ≤ℤ split.expert_payout.amount_minor)
split_session_price_conserves charged allowance bps split h =
    let (base, e, _, _, t, p) = assembled charged allowance bps split h in
    let (n, b, g, _, small, f, q) =
      split_rate_cases (charged.amount_minor -ℤ allowance) bps charged.currency base
        (unfold split_fee in e) in
    (
      rw (t, p, f, q)
          (add_amounts _ _ charged.amount_minor charged.currency
            (surcharge_sum charged.amount_minor (pos n) (pos (fee_minor n b)) allowance g)),
      rw (t, f) (omega int_laws),
      rw (p, q) (remainder_nonneg n (fee_minor n b) (fee_minor-le n b small)),
    )

-- The allowance never touches the expert's payout: two charges with the same fee base, in one
-- currency and at one rate, pay the expert the same.
pub split_session_price-payout :
    (a b : Money) (x y bps : ℤ) (s t : SessionSplit)
    → split_session_price a x bps ≡ ok s
    → split_session_price b y bps ≡ ok t
    → a.currency ≡ b.currency
    → a.amount_minor -ℤ x ≡ b.amount_minor -ℤ y
    → s.expert_payout ≡ t.expert_payout
split_session_price-payout a b x y bps s t h k same_currency same_base =
    let (base, e, _, _, _, p) = assembled a x bps s h in
    let (base', e', _, _, _, p') = assembled b y bps t k in cc
