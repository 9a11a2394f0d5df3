-- ===== src/Experts/Tests.antt =====
-- Runs of the expert's two machines and of the eligibility verdict.
use salesforce_expert_suppor.Prelude.{
  ℕ, ℕ_discrete, ◌≤◌, List, length, ◌≡◌, refl, ◌↔◌, ◌≢◌, true, none, some, [], ◌∷◌, In, index,
}
use salesforce_expert_suppor.Contracts.{
  ExpertStatus, ExpertStatus-discrete, AvailabilityStatus, AccountStatus,
}
use salesforce_expert_suppor.Requests.Machine.{TransitionActor-discrete, admin}
use salesforce_expert_suppor.Experts.Status.{
  ExpertTransitionRule, expert_transitions, find_expert_transition, assert_expert_transition,
  SubmissionField, FieldValue, missing, empty, filled,
}
use salesforce_expert_suppor.Experts.Availability.{
  EligibilityInput, account_not_active, not_approved, not_available, already_on_offer,
  IneligibilityReason, presence_stale, no_matching_skills, evaluate_eligibility,
  is_currently_matchable,
}
use salesforce_expert_suppor.Experts.Eligibility.{
  Present, is_currently_matchable_iff, evaluate_eligibility-reasons,
}
use salesforce_expert_suppor.Experts.Lifecycle.{assert_expert_transition-decision}
use salesforce_expert_suppor.Experts.Photos.{validate_photo_bytes, detect, has_bytes_at, jpeg, png}
use salesforce_expert_suppor.Experts.Signatures.{validate_photo_bytes-accepted, SignedAs}

abbrev approval : ExpertTransitionRule
approval = record {
  from = ExpertStatus.under_review;
  to = ExpertStatus.approved;
  actors = admin ∷ [];
  requires_reason = true;
}

abbrev online : EligibilityInput
online = record {
  expert_status = ExpertStatus.approved;
  account_status = AccountStatus.active;
  availability_status = AvailabilityStatus.available;
  last_heartbeat_at = some 1000;
  now = 61000;
  heartbeat_stale_after_seconds = none;
}

abbrev half_filled : SubmissionField → FieldValue
half_filled SubmissionField.phone = empty
half_filled SubmissionField.country = missing
half_filled _ = filled

is_currently_matchable_iff_example : (is_currently_matchable online ≡ true) ↔ (
    (online.account_status ≡ AccountStatus.active)
    × (online.expert_status ≡ ExpertStatus.approved)
    × (online.availability_status ≡ AvailabilityStatus.available)
    × Present online)
is_currently_matchable_iff_example = is_currently_matchable_iff online

evaluate_eligibility-reasons_example :
    let reasons = (evaluate_eligibility online).reasons in
    (In account_not_active reasons ↔ (online.account_status ≢ AccountStatus.active))
    × (In not_approved reasons ↔ (online.expert_status ≢ ExpertStatus.approved))
    × (In not_available reasons ↔ (online.availability_status ≡ AvailabilityStatus.offline))
    × (In already_on_offer reasons ↔ (online.availability_status ≡ AvailabilityStatus.on_offer))
    × (In IneligibilityReason.in_session reasons
        ↔ (online.availability_status ≡ AvailabilityStatus.in_session))
    × (In presence_stale reasons
        ↔ ((online.availability_status ≡ AvailabilityStatus.available) × (¬ Present online)))
    × (¬ In no_matching_skills reasons)
evaluate_eligibility-reasons_example = evaluate_eligibility-reasons online

assert_expert_transition-decision_example : (admin ≡ admin) × (approval.requires_reason ≡ true)
unfolding assert_expert_transition find_expert_transition index expert_transitions
    ExpertStatus-discrete TransitionActor-discrete
assert_expert_transition-decision_example =
    assert_expert_transition-decision ExpertStatus.under_review ExpertStatus.approved admin approval
      refl refl

abbrev photo : List ℕ
photo = 255 ∷ 216 ∷ 255 ∷ 224 ∷ 0 ∷ []

validate_photo_bytes-accepted_example :
    (jpeg ≡ jpeg)
    × In jpeg (png ∷ jpeg ∷ [])
    × (1 ≤ length photo)
    × (length photo ≤ 1000)
    × SignedAs jpeg photo
unfolding validate_photo_bytes detect has_bytes_at ℕ_discrete
validate_photo_bytes-accepted_example =
    validate_photo_bytes-accepted photo jpeg jpeg 1000 (png ∷ jpeg ∷ []) refl
