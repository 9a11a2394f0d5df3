-- ===== src/Matching/Shortlist.antt =====
-- matching/shortlist.ts: who of the ranked raised a hand and is shown to the customer. Instants are
-- milliseconds.
use salesforce_expert_suppor.Prelude.{
  ℕ, zero, suc, ◌+◌, ◌*◌, ◌/◌, Bool, true, not, ◌&&◌, Option, none, some, List, take, drop, select,
  includes, ltb, leb, ◌==◌, ℕ_discrete, if◌then◌else◌,
}
use salesforce_expert_suppor.Int.{ℤ, pos, negsuc, pos_part}
use salesforce_expert_suppor.Experts.Availability.{is_empty}
use salesforce_expert_suppor.Matching.Number.{Number, whole}
use salesforce_expert_suppor.Matching.Rank.{RankedCandidate}

abbrev pub shortlist_size : ℕ
shortlist_size = 3

abbrev pub expert_confirm_seconds : ℕ
expert_confirm_seconds = 120

abbrev pub interest_target : ℕ
interest_target = shortlist_size

-- The default of an optional parameter.
abbrev pub or_default : ℕ → Option ℕ → ℕ
or_default default none = default
or_default default (some n) = n

unfoldable pub should_close_interest_window : ℕ → ℕ → ℕ → Option ℕ → Bool
should_close_interest_window interested_count elapsed_seconds window_seconds target =
    if leb (or_default interest_target target) interested_count
    then true
    else leb window_seconds elapsed_seconds && ltb 0 interested_count

unfoldable pub confirmation_deadline : ℕ → Option ℕ → ℕ
confirmation_deadline now seconds = now + or_default expert_confirm_seconds seconds * 1000

-- `Math.floor(Math.max(0, minutesDelivered) / 60)`
unfoldable pub hours_delivered : ℤ → ℕ
hours_delivered minutes_delivered = pos_part minutes_delivered / 60

module _ (N : Number) where
  open N use {Value, times, over, math_round}

  pub record DisplayRating : Type 0 where
    pub average : Value
    pub count : ℕ

  unfoldable pub display_rating : ℕ → ℤ → Option DisplayRating
  display_rating rating_sum (negsuc _) = none
  display_rating rating_sum (pos zero) = none
  display_rating rating_sum (pos (suc n)) = some record {
    average =
        over (math_round (times (over (whole N rating_sum) (whole N (suc n))) (whole N 10)))
          (whole N 10);
    count = suc n;
  }

  pub record ShortlistDecision : Type 0 where
    pub shortlisted : List (RankedCandidate N)
    pub reserves : List (RankedCandidate N)

  abbrev pub raised_a_hand : List ℕ → RankedCandidate N → Bool
  raised_a_hand interested candidate = includes ℕ_discrete candidate.expert_profile_id interested

  unfoldable pub select_shortlist : List (RankedCandidate N) → List ℕ → Option ℕ → ShortlistDecision
  select_shortlist ranked interested size =
      let eligible = select (raised_a_hand interested) ranked in
      record {
        shortlisted = take (or_default shortlist_size size) eligible;
        reserves = drop (or_default shortlist_size size) eligible;
      }

  pub record AfterLapse : Type 0 where
    pub remaining : List (RankedCandidate N)
    pub exhausted : Bool

  unfoldable pub shortlist_after_lapse : List (RankedCandidate N) → ℕ → AfterLapse
  shortlist_after_lapse shortlisted lapsed =
      let remaining = select (λ c. not (c.expert_profile_id == lapsed)) shortlisted in
      record { remaining = remaining; exhausted = is_empty remaining }
