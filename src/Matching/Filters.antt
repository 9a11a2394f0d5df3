-- ===== src/Matching/Filters.antt =====
-- matching/filters.ts: who may be a candidate at all. Instants are milliseconds. The two lists that
-- the source builds by pushing are written as sums of parts, in the order of the pushes.
use salesforce_expert_suppor.Prelude.{
  ℕ, ◌*◌, Bool, true, false, not, ◌&&◌, ◌||◌, Option, none, some, List, [], ◌∷◌, ◌++◌, map, length,
  select, any, includes, same, ltb, leb, ℕ_discrete,
}
use salesforce_expert_suppor.Contracts.{
  ProficiencyLevel, ExclusionReason, ExclusionReason-discrete, ExpertStatus, AccountStatus,
  AvailabilityStatus,
}
use salesforce_expert_suppor.Experts.Availability.{
  IneligibilityReason, evaluate_eligibility, push_if, is_empty,
}
use salesforce_expert_suppor.Matching.Number.{Number}
use salesforce_expert_suppor.Matching.Proficiency.{meets_floor}
use salesforce_expert_suppor.Matching.Candidate.{RequiredSkill, CandidateSkill, Candidate}
use salesforce_expert_suppor.Matching.Relaxation.{RelaxationRule, absolute_primary_floor}
use salesforce_expert_suppor.Matching.Scoring.{Thresholds, shrunk_rating}
use salesforce_expert_suppor.Matching.Skills.{match_skill}

unfoldable pub permanent_for_this_request : List ExclusionReason
permanent_for_this_request =
    ExclusionReason.missing_primary_skill ∷ ExclusionReason.already_responded
    ∷ ExclusionReason.is_the_customer ∷ []

pub record CandidateEligibility : Type 0 where
  pub expert_status : ExpertStatus
  pub account_status : AccountStatus
  pub availability_status : AvailabilityStatus
  pub last_heartbeat_at : Option ℕ
  pub already_responded : Bool
  pub is_requesting_customer : Bool

pub record FilterOutcome : Type 0 where
  pub passed : Bool
  pub reasons : List ExclusionReason
  pub permanent : Bool

-- The loop over `verdict.reasons`.
unfoldable pub pushed_reasons : List IneligibilityReason → List ExclusionReason
pushed_reasons [] = []
pushed_reasons (IneligibilityReason.no_matching_skills ∷ rest) = pushed_reasons rest
pushed_reasons (IneligibilityReason.not_approved ∷ rest) =
    ExclusionReason.not_approved ∷ pushed_reasons rest
pushed_reasons (IneligibilityReason.account_not_active ∷ rest) =
    ExclusionReason.account_not_active ∷ pushed_reasons rest
pushed_reasons (IneligibilityReason.not_available ∷ rest) =
    ExclusionReason.not_available ∷ pushed_reasons rest
pushed_reasons (IneligibilityReason.presence_stale ∷ rest) =
    ExclusionReason.presence_stale ∷ pushed_reasons rest
pushed_reasons (IneligibilityReason.already_on_offer ∷ rest) =
    ExclusionReason.already_on_offer ∷ pushed_reasons rest
pushed_reasons (IneligibilityReason.in_session ∷ rest) =
    ExclusionReason.in_session ∷ pushed_reasons rest

abbrev pub primaries : List RequiredSkill → List RequiredSkill
primaries required = select (λ r. r.is_primary) required

abbrev pub is_missing : Option CandidateSkill → Bool
is_missing none = true
is_missing (some _) = false

-- `skill !== null && !meetsFloor(skill.proficiencyLevel, floor)`
abbrev pub is_below : ProficiencyLevel → Option CandidateSkill → Bool
is_below floor none = false
is_below floor (some s) = not (meets_floor s.proficiency_level floor)

module _ (N : Number) where
  open N use {less}

  pub record FilterContext : Type 0 where
    pub required : List RequiredSkill
    pub rule : RelaxationRule
    pub thresholds : Thresholds N
    pub customer_languages : List ℕ
    pub now : ℕ

  unfoldable pub filter_eligibility : CandidateEligibility → FilterContext → List ExclusionReason
  filter_eligibility eligibility context =
      let verdict = evaluate_eligibility record {
        expert_status = eligibility.expert_status;
        account_status = eligibility.account_status;
        availability_status = eligibility.availability_status;
        last_heartbeat_at = eligibility.last_heartbeat_at;
        now = context.now;
        heartbeat_stale_after_seconds = some context.thresholds.heartbeat_stale_after_seconds;
      } in
      push_if eligibility.is_requesting_customer ExclusionReason.is_the_customer
      ++ (push_if eligibility.already_responded ExclusionReason.already_responded
          ++ pushed_reasons verdict.reasons)

  -- The match of a primary skill, for which nothing stands in.
  abbrev pub primary_match : Candidate → RequiredSkill → Option CandidateSkill
  primary_match candidate need =
      (match_skill N need candidate.skills false (need.skill_id ∷ [])).skill

  -- The first loop of `filterCompetence`, as the two flags that it leaves set.
  unfoldable pub missing_primary : Candidate → List RequiredSkill → Bool
  missing_primary candidate required =
      any (λ need. is_missing (primary_match candidate need)) (primaries required)

  unfoldable pub below_floor : ProficiencyLevel → Candidate → List RequiredSkill → Bool
  below_floor floor candidate required =
      any (λ need. is_below floor (primary_match candidate need)) (primaries required)

  -- `covered / secondaries.length < rule.secondaryCoverage`, in hundredths
  unfoldable pub covers_too_few : Candidate → FilterContext → Bool
  covers_too_few candidate context =
      let required = context.required in
      let secondaries = select (λ r. not r.is_primary) required in
      let covered =
        select
          (λ need. not (
            is_missing
              (match_skill N need candidate.skills context.rule.widen_secondary_to_category
                (map (λ r. r.skill_id) required)).skill))
          secondaries in
      ltb 0 (length secondaries)
      && (ltb 0 context.rule.secondary_coverage
          && ltb (length covered * 100) (context.rule.secondary_coverage * length secondaries))

  unfoldable pub rating_below_floor : Candidate → FilterContext → Bool
  rating_below_floor candidate context =
      context.rule.enforce_rating_floor
      && (leb context.thresholds.min_rated_sessions candidate.rating_count
          && less (shrunk_rating N candidate context.thresholds) context.thresholds.min_rating)

  unfoldable pub no_language_overlap : Candidate → FilterContext → Bool
  no_language_overlap candidate context =
      context.rule.enforce_language
      && (ltb 0 (length context.customer_languages)
          && not (any (λ l. includes ℕ_discrete l context.customer_languages) candidate.languages))

  unfoldable pub filter_competence : Candidate → FilterContext → List ExclusionReason
  filter_competence candidate context =
      push_if (missing_primary candidate context.required) ExclusionReason.missing_primary_skill
      ++ (push_if (below_floor context.rule.primary_floor candidate context.required)
            ExclusionReason.primary_below_floor
          ++ (push_if (covers_too_few candidate context)
                ExclusionReason.insufficient_secondary_coverage
              ++ (push_if (rating_below_floor candidate context) ExclusionReason.rating_below_floor
                  ++ push_if (no_language_overlap candidate context)
                      ExclusionReason.no_language_overlap)))

  unfoldable pub is_below_absolute_floor : Candidate → List RequiredSkill → Bool
  is_below_absolute_floor candidate required = below_floor absolute_primary_floor candidate required

  -- The test that `applyFilters` makes of every reason.
  abbrev pub is_permanent : Candidate → List RequiredSkill → ExclusionReason → Bool
  is_permanent candidate required reason =
      includes ExclusionReason-discrete reason permanent_for_this_request
      || (same ExclusionReason-discrete reason ExclusionReason.primary_below_floor
          && is_below_absolute_floor candidate required)

  unfoldable pub apply_filters : Candidate → CandidateEligibility → FilterContext → FilterOutcome
  apply_filters candidate eligibility context =
      let reasons = filter_eligibility eligibility context ++ filter_competence candidate context in
      record {
        passed = is_empty reasons;
        reasons = reasons;
        permanent = any (is_permanent candidate context.required) reasons;
      }
