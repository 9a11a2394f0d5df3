-- ===== src/Matching/Permanent.antt =====
-- Who is out of a request for good, by `applyFilters` of matching/filters.ts.
use salesforce_expert_suppor.Prelude.{
  ℕ, ◌≡◌, refl, ◌⊎◌, ◌↔◌, Bool, true, false, ◌||◌, some, List, [], ◌∷◌, ◌++◌, arith, any,
}
use salesforce_expert_suppor.Contracts.{ExclusionReason-discrete}
use salesforce_expert_suppor.Experts.Availability.{
  IneligibilityReason, evaluate_eligibility, is_empty,
}
use salesforce_expert_suppor.Matching.Number.{Number}
use salesforce_expert_suppor.Matching.Candidate.{RequiredSkill, Candidate}
use salesforce_expert_suppor.Matching.Relaxation.{absolute_primary_floor, rule_for_level}
use salesforce_expert_suppor.Matching.Floors.{meets_absolute_floor}
use salesforce_expert_suppor.Matching.Filters.{
  CandidateEligibility, FilterContext, filter_eligibility, filter_competence, apply_filters,
  missing_primary, below_floor, is_below_absolute_floor, is_permanent, permanent_for_this_request,
  pushed_reasons,
}
use salesforce_expert_suppor.Matching.Competence.{below_floor-weaker}

any-append :
    {A : Type 0} (p : A → Bool) (xs ys : List A) → any p (xs ++ ys) ≡ (any p xs || any p ys)
any-append p [] ys = refl
any-append p (x ∷ xs) ys = ground (arith, any-append p xs ys)

any-is_empty : {A : Type 0} (p : A → Bool) (xs : List A) → any p xs ≡ true → is_empty xs ≡ false
any-is_empty p [] h = cc
any-is_empty p (x ∷ xs) h = refl

module _ (N : Number) where
  any-pushed_reasons :
      (candidate : Candidate) (required : List RequiredSkill) (reasons : List IneligibilityReason)
      → any (is_permanent N candidate required) (pushed_reasons reasons) ≡ false
  unfolding pushed_reasons ExclusionReason-discrete permanent_for_this_request
  any-pushed_reasons candidate required [] = refl
  any-pushed_reasons candidate required (IneligibilityReason.not_approved ∷ rest) =
      any-pushed_reasons candidate required rest
  any-pushed_reasons candidate required (IneligibilityReason.account_not_active ∷ rest) =
      any-pushed_reasons candidate required rest
  any-pushed_reasons candidate required (IneligibilityReason.not_available ∷ rest) =
      any-pushed_reasons candidate required rest
  any-pushed_reasons candidate required (IneligibilityReason.presence_stale ∷ rest) =
      any-pushed_reasons candidate required rest
  any-pushed_reasons candidate required (IneligibilityReason.already_on_offer ∷ rest) =
      any-pushed_reasons candidate required rest
  any-pushed_reasons candidate required (IneligibilityReason.in_session ∷ rest) =
      any-pushed_reasons candidate required rest
  any-pushed_reasons candidate required (IneligibilityReason.no_matching_skills ∷ rest) =
      any-pushed_reasons candidate required rest

  -- The conditions that nothing clears for this request.
  abbrev pub OutForGood : Candidate → CandidateEligibility → FilterContext N → Type 0
  OutForGood candidate eligibility context =
      (eligibility.is_requesting_customer ≡ true)
      ⊎ (eligibility.already_responded ≡ true)
      ⊎ (missing_primary N candidate context.required ≡ true)
      ⊎ ((below_floor N context.rule.primary_floor candidate context.required ≡ true)
          × (is_below_absolute_floor N candidate context.required ≡ true))

  any-filter_eligibility :
      (candidate : Candidate) (eligibility : CandidateEligibility) (context : FilterContext N)
      → any (is_permanent N candidate context.required) (filter_eligibility N eligibility context)
        ≡ (eligibility.is_requesting_customer || eligibility.already_responded)
  unfolding filter_eligibility ExclusionReason-discrete permanent_for_this_request
  any-filter_eligibility candidate eligibility context = ground (
    arith,
    any-pushed_reasons candidate context.required
        (evaluate_eligibility record {
          expert_status = eligibility.expert_status;
          account_status = eligibility.account_status;
          availability_status = eligibility.availability_status;
          last_heartbeat_at = eligibility.last_heartbeat_at;
          now = context.now;
          heartbeat_stale_after_seconds = some context.thresholds.heartbeat_stale_after_seconds;
        }).reasons,
  )

  any-filter_competence :
      (candidate : Candidate) (context : FilterContext N)
      → (any (is_permanent N candidate context.required) (filter_competence N candidate context)
          ≡ true)
        ↔ ((missing_primary N candidate context.required ≡ true)
            ⊎ ((below_floor N context.rule.primary_floor candidate context.required ≡ true)
                × (is_below_absolute_floor N candidate context.required ≡ true)))
  unfolding filter_competence ExclusionReason-discrete permanent_for_this_request
  any-filter_competence candidate context = ground arith

  pub permanent_iff :
      (candidate : Candidate) (eligibility : CandidateEligibility) (context : FilterContext N)
      → ((apply_filters N candidate eligibility context).permanent ≡ true)
        ↔ OutForGood candidate eligibility context
  unfolding apply_filters
  permanent_iff candidate eligibility context = ground (
    arith,
    any-append (is_permanent N candidate context.required)
        (filter_eligibility N eligibility context) (filter_competence N candidate context),
    any-filter_eligibility candidate eligibility context,
    any-filter_competence candidate context,
  )

  apply_filters-OutForGood :
      (candidate : Candidate) (eligibility : CandidateEligibility) (context : FilterContext N)
      → OutForGood candidate eligibility context
      → (apply_filters N candidate eligibility context).passed ≡ false
  unfolding apply_filters
  apply_filters-OutForGood candidate eligibility context h =
      any-is_empty (is_permanent N candidate context.required)
        (filter_eligibility N eligibility context ++ filter_competence N candidate context)
        ((permanent_iff candidate eligibility context).1 h)

  -- An exclusion reported as permanent is final: whatever level the search is at later, and whatever
  -- became of the expert's status, presence, the clock or the thresholds, the filters refuse that
  -- candidate, under four conditions: the request's skills are the same, the candidate's are the same,
  -- a candidate who was the customer of the request still is, and one who had responded still counts
  -- as having responded.
  pub permanent_excluded :
      (candidate : Candidate) (eligibility later : CandidateEligibility)
      (context next : FilterContext N) (level : ℕ)
      → (apply_filters N candidate eligibility context).permanent ≡ true
      → next.required ≡ context.required
      → rule_for_level level ≡ some next.rule
      → (eligibility.is_requesting_customer ≡ true → later.is_requesting_customer ≡ true)
      → (eligibility.already_responded ≡ true → later.already_responded ≡ true)
      → (apply_filters N candidate later next).passed ≡ false
  unfolding is_below_absolute_floor
  permanent_excluded candidate eligibility later context next level h required rule customer
        responded =
      apply_filters-OutForGood candidate later next (
        ground (
          arith,
          (permanent_iff candidate eligibility context).0 h,
          meets_absolute_floor level next.rule rule,
          below_floor-weaker N next.rule.primary_floor absolute_primary_floor candidate
              next.required,
        ))
