-- ===== src/Experts/Eligibility.antt =====
-- What `evaluateEligibility` answers, for every input.
use salesforce_expert_suppor.Prelude.{
  ℕ, refl, ◌+◌, ◌*◌, ◌⊎◌, inl, inr, ◌≡◌, ◌↔◌, ◌≢◌, true, Option, none, some, arith, In, ◌≤◌,
}
use salesforce_expert_suppor.Contracts.{AvailabilityStatus, ExpertStatus, AccountStatus}
use salesforce_expert_suppor.Experts.Status.{is_eligible_for_matching}
use salesforce_expert_suppor.Experts.Availability.{
  EligibilityInput, IneligibilityReason, not_approved, account_not_active, not_available,
  presence_stale, already_on_offer, no_matching_skills, evaluate_eligibility,
  is_currently_matchable, is_heartbeat_fresh, stale_after,
}

-- The limit that is given, or the default of 180 seconds.
abbrev pub Limit : Option ℕ → ℕ → Type 0
Limit given seconds = (given ≡ some seconds) ⊎ ((given ≡ none) × (seconds ≡ 180))

-- There is a heartbeat, and it is no older than the limit.
abbrev pub Present : EligibilityInput → Type 0
Present input =
    (last seconds : ℕ) × (input.last_heartbeat_at ≡ some last)
    × Limit input.heartbeat_stale_after_seconds seconds
    × (input.now ≤ last + seconds * 1000)

fresh_iff :
    (beat limit : Option ℕ) (now : ℕ)
    → (is_heartbeat_fresh beat now (stale_after limit) ≡ true) ↔ (
        (last seconds : ℕ) × (beat ≡ some last)
        × Limit limit seconds
        × (now ≤ last + seconds * 1000))
unfolding is_heartbeat_fresh
fresh_iff none limit now = ground arith
fresh_iff (some last) none now =
    (λ h. (last, 180, refl, inr (refl, refl), ground arith), λ h. ground arith)
fresh_iff (some last) (some seconds) now =
    (λ h. (last, seconds, refl, inl refl, ground arith), λ h. ground arith)

-- An expert is matchable exactly if the account is active, the application approved, the toggle on
-- AVAILABLE, and there is a heartbeat that is no older than the limit, in milliseconds: the limit
-- given, or 180 seconds if none is.
pub is_currently_matchable_iff :
    (input : EligibilityInput)
    → (is_currently_matchable input ≡ true) ↔ (
        (input.account_status ≡ AccountStatus.active)
        × (input.expert_status ≡ ExpertStatus.approved)
        × (input.availability_status ≡ AvailabilityStatus.available)
        × Present input)
unfolding is_currently_matchable is_eligible_for_matching
is_currently_matchable_iff input =
    ground (arith, fresh_iff input.last_heartbeat_at input.heartbeat_stale_after_seconds input.now)

-- Each reason is reported exactly when its condition holds, whatever else is wrong: an account that
-- is not active, an application that is not approved, a toggle on OFFLINE, ON_OFFER or IN_SESSION, and
-- with the toggle on AVAILABLE a heartbeat that is missing or older than the limit. The reason of
-- missing skills is never reported here.
pub evaluate_eligibility-reasons :
    (input : EligibilityInput)
    → let reasons = (evaluate_eligibility input).reasons in
      (In account_not_active reasons ↔ (input.account_status ≢ AccountStatus.active))
      × (In not_approved reasons ↔ (input.expert_status ≢ ExpertStatus.approved))
      × (In not_available reasons ↔ (input.availability_status ≡ AvailabilityStatus.offline))
      × (In already_on_offer reasons ↔ (input.availability_status ≡ AvailabilityStatus.on_offer))
      × (In IneligibilityReason.in_session reasons
          ↔ (input.availability_status ≡ AvailabilityStatus.in_session))
      × (In presence_stale reasons
          ↔ ((input.availability_status ≡ AvailabilityStatus.available) × (¬ Present input)))
      × (¬ In no_matching_skills reasons)
unfolding evaluate_eligibility is_eligible_for_matching
evaluate_eligibility-reasons input =
    ground (arith, fresh_iff input.last_heartbeat_at input.heartbeat_stale_after_seconds input.now)

-- A heartbeat that is fresh stays fresh for every earlier reading of the clock and every wider limit.
pub is_heartbeat_fresh_mono :
    (last : Option ℕ) (now earlier limit wider : ℕ)
    → is_heartbeat_fresh last now limit ≡ true
    → earlier ≤ now
    → limit ≤ wider
    → is_heartbeat_fresh last earlier wider ≡ true
unfolding is_heartbeat_fresh
is_heartbeat_fresh_mono none now earlier limit wider h e l = cc
is_heartbeat_fresh_mono (some last) now earlier limit wider h e l = ground arith
