-- ===== src/Matching/Number.antt =====
-- JavaScript's `number`, as the scorer and the rating filter use it. The operations stand for the
-- machine's, rounding included; of the laws of IEEE 754 only the two below are used, which hold of
-- every two (three) values but `NaN`. Scores are never `NaN` while the prior counts are positive.
use salesforce_expert_suppor.Prelude.{
  ℕ, ◌+◌, ◌-◌, ◌*◌, ◌/◌, ◌≡◌, Bool, true, false, if◌then◌else◌, ltb, arith,
}

pub record Number : Type 1 where
  pub Value : Type 0
  -- The literal `n / d`, and so every number that the source writes.
  pub literal : ℕ → ℕ → Value
  pub plus : Value → Value → Value
  pub minus : Value → Value → Value
  pub times : Value → Value → Value
  pub over : Value → Value → Value
  pub math_round : Value → Value
  pub less : Value → Value → Bool
  pub less_asymm : (x y : Value) → less x y ≡ true → less y x ≡ false
  pub less_cotrans : (x y z : Value) → less x y ≡ false → less y z ≡ false → less x z ≡ false

module _ (N : Number) where
  open N use {Value, literal, times, over, math_round, less}

  abbrev pub whole : ℕ → Value
  whole n = literal n 1

  -- `Math.min` and `Math.max`
  abbrev pub smaller : Value → Value → Value
  smaller x y = if less y x then y else x

  abbrev pub larger : Value → Value → Value
  larger x y = if less x y then y else x

  -- `round` of scoring.ts: three decimal places.
  abbrev pub round : Value → Value
  round x = over (math_round (times x (whole 1000))) (whole 1000)

pub ltb_asymm : (x y : ℕ) → ltb x y ≡ true → ltb y x ≡ false
ltb_asymm x y h = ground arith

pub ltb_cotrans : (x y z : ℕ) → ltb x y ≡ false → ltb y z ≡ false → ltb x z ≡ false
ltb_cotrans x y z h k = ground arith

-- The laws can hold: thousandths, truncated.
abbrev pub thousandths : Number
thousandths = record {
  Value = ℕ;
  literal = λ n d. n * 1000 / d;
  plus = λ x y. x + y;
  minus = λ x y. x - y;
  times = λ x y. x * y / 1000;
  over = λ x y. x * 1000 / y;
  math_round = λ x. (x + 500) / 1000 * 1000;
  less = ltb;
  less_asymm = λ x y h. ltb_asymm x y h;
  less_cotrans = λ x y z h k. ltb_cotrans x y z h k;
}
