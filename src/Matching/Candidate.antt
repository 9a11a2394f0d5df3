-- ===== src/Matching/Candidate.antt =====
-- The records that matching runs on, from packages/domain/src/ports/matching-repositories.ts.
-- Identifiers and slugs are numbers: the code only compares them. Counts, minutes and years are the
-- integers of their database columns.
use salesforce_expert_suppor.Prelude.{ℕ, Bool, Option, List}
use salesforce_expert_suppor.Int.{ℤ}
use salesforce_expert_suppor.Contracts.{ProficiencyLevel}
use salesforce_expert_suppor.Matching.Number.{Number}

pub record RequiredSkill : Type 0 where
  pub skill_id : ℕ
  pub slug : ℕ
  pub category_id : ℕ
  pub is_primary : Bool

pub record CandidateSkill : Type 0 where
  pub skill_id : ℕ
  pub slug : ℕ
  pub category_id : ℕ
  pub proficiency_level : ProficiencyLevel
  pub years_experience : ℕ
  pub verified : Bool

pub record Candidate : Type 0 where
  pub expert_profile_id : ℕ
  pub user_id : ℕ
  pub skills : List CandidateSkill
  pub years_experience : ℕ
  pub rating_sum : ℕ
  pub rating_count : ℕ
  pub offers_received : ℕ
  pub offers_accepted : ℕ
  pub avg_response_seconds : Option ℕ
  pub sessions_today : ℕ
  pub idle_minutes : Option ℕ
  pub languages : List ℕ

module _ (N : Number) where
  open N use {Value}

  pub record SkillScoreDetail : Type 0 where
    pub slug : ℕ
    pub is_primary : Bool
    pub proficiency_level : Option ProficiencyLevel
    pub verified : Bool
    pub value : Value
    pub via_category : Bool

  pub record ScoreBreakdown : Type 0 where
    pub weighted_average : Value
    pub min_primary_value : Value
    pub primary_band : ℤ
    pub per_skill : List SkillScoreDetail
    pub shrunk_rating : Value
    pub acceptance_rate : Option Value
    pub idle_minutes : Option ℕ
    pub sessions_today : ℕ

  pub record ScoreComponents : Type 0 where
    pub skill_score : Value
    pub experience_score : Value
    pub rating_score : Value
    pub fairness_score : Value
    pub reliability_score : Value
    pub final_score : Value
    pub breakdown : ScoreBreakdown
