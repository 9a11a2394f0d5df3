-- ===== src/Matching/Competence.antt =====
-- What the filters of matching/filters.ts guarantee of those they let through, and of those they
-- keep out for good.
use salesforce_expert_suppor.Prelude.{
  ℕ, ◌≤◌, ◌≡◌, ◌↔◌, true, false, Option, none, some, List, [], arith, any→In, In→any,
}
use salesforce_expert_suppor.Contracts.{ProficiencyLevel}
use salesforce_expert_suppor.Matching.Number.{Number}
use salesforce_expert_suppor.Matching.Proficiency.{meets_floor}
use salesforce_expert_suppor.Matching.Candidate.{RequiredSkill, CandidateSkill, Candidate}
use salesforce_expert_suppor.Matching.Relaxation.{RelaxationRule, rule_for_level}
use salesforce_expert_suppor.Matching.Floors.{rule_for_level-widens}
use salesforce_expert_suppor.Matching.Filters.{
  FilterContext, filter_competence, missing_primary, below_floor, covers_too_few,
  rating_below_floor, no_language_overlap, primaries, is_below, primary_match,
}

is_below-weaker :
    (floor weaker : ProficiencyLevel) (skill : Option CandidateSkill)
    → meets_floor floor weaker ≡ true
    → is_below weaker skill ≡ true
    → is_below floor skill ≡ true
unfolding meets_floor
is_below-weaker floor weaker none m h = h
is_below-weaker floor weaker (some s) m h = ground arith

module _ (N : Number) where
  -- The first pass: no reason of competence, exactly if none of the five tests fails.
  pub filter_competence-nil :
      (candidate : Candidate) (context : FilterContext N)
      → (filter_competence N candidate context ≡ []) ↔ (
          (missing_primary N candidate context.required ≡ false)
          × (below_floor N context.rule.primary_floor candidate context.required ≡ false)
          × (covers_too_few N candidate context ≡ false)
          × (rating_below_floor N candidate context ≡ false)
          × (no_language_overlap N candidate context ≡ false))
  unfolding filter_competence
  filter_competence-nil candidate context = ground arith

  pub below_floor-weaker :
      (floor weaker : ProficiencyLevel) (candidate : Candidate) (required : List RequiredSkill)
      → meets_floor floor weaker ≡ true
      → below_floor N weaker candidate required ≡ true
      → below_floor N floor candidate required ≡ true
  unfolding below_floor
  below_floor-weaker floor weaker candidate required m h =
      let (need, i, b) =
        any→In (λ r. is_below weaker (primary_match N candidate r)) (primaries required) h in
      In→any (λ r. is_below floor (primary_match N candidate r)) (primaries required) need i
        (is_below-weaker floor weaker (primary_match N candidate need) m b)

  covers_too_few-zero :
      (candidate : Candidate) (context : FilterContext N)
      → context.rule.secondary_coverage ≡ 0
      → covers_too_few N candidate context ≡ false
  unfolding covers_too_few
  covers_too_few-zero candidate context h = ground arith

  rating_below_floor-weaker :
      (candidate : Candidate) (context : FilterContext N) (rule wider : RelaxationRule)
      → (rule.enforce_rating_floor ≡ false → wider.enforce_rating_floor ≡ false)
      → rating_below_floor N candidate (record context { rule = rule }) ≡ false
      → rating_below_floor N candidate (record context { rule = wider }) ≡ false
  unfolding rating_below_floor
  rating_below_floor-weaker candidate context rule wider w h = ground arith

  no_language_overlap-weaker :
      (candidate : Candidate) (context : FilterContext N) (rule wider : RelaxationRule)
      → (rule.enforce_language ≡ false → wider.enforce_language ≡ false)
      → no_language_overlap N candidate (record context { rule = rule }) ≡ false
      → no_language_overlap N candidate (record context { rule = wider }) ≡ false
  unfolding no_language_overlap
  no_language_overlap-weaker candidate context rule wider w h = ground arith

  -- Widening never drops anyone: a candidate whose competence passes at a level passes at every
  -- later level, for the same request, thresholds and languages.
  pub filter_competence-widens :
      (candidate : Candidate) (context : FilterContext N) (level later : ℕ)
      (rule wider : RelaxationRule)
      → rule_for_level level ≡ some rule
      → rule_for_level later ≡ some wider
      → level ≤ later
      → filter_competence N candidate (record context { rule = rule }) ≡ []
      → filter_competence N candidate (record context { rule = wider }) ≡ []
  filter_competence-widens candidate context level later rule wider h k l e =
      let (floor, coverage, rating, language) =
        rule_for_level-widens level later rule wider h k l in
      let (missing, below, few, rated, spoken) =
        (filter_competence-nil candidate (record context { rule = rule })).0 e in
      (filter_competence-nil candidate (record context { rule = wider })).1 (
        missing,
        ground (
          arith,
          below_floor-weaker rule.primary_floor wider.primary_floor candidate context.required,
        ),
        covers_too_few-zero candidate (record context { rule = wider }) coverage,
        rating_below_floor-weaker candidate context rule wider rating rated,
        no_language_overlap-weaker candidate context rule wider language spoken,
      )
