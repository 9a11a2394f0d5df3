-- ===== src/Matching/Samples.antt =====
-- A request for one skill, three experts for it, and their ranking, with scores in thousandths.
use salesforce_expert_suppor.Prelude.{ℕ, ◌+◌, true, false, some, List, [], ◌∷◌}
use salesforce_expert_suppor.Contracts.{
  ProficiencyLevel, ExpertStatus, AccountStatus, AvailabilityStatus,
}
use salesforce_expert_suppor.Matching.Number.{thousandths}
use salesforce_expert_suppor.Matching.Candidate.{RequiredSkill, CandidateSkill, Candidate}
use salesforce_expert_suppor.Matching.Relaxation.{RelaxationRule}
use salesforce_expert_suppor.Matching.Scoring.{Thresholds, default_weights, score_candidate}
use salesforce_expert_suppor.Matching.Filters.{CandidateEligibility, FilterContext}
use salesforce_expert_suppor.Matching.Rank.{
  Entry, RankingInput, RankedCandidate, RankingResult, rank_under, context_of,
}

abbrev pub need : RequiredSkill
need = record { skill_id = 1; slug = 1; category_id = 9; is_primary = true }

abbrev pub skilled : ProficiencyLevel → List CandidateSkill
skilled level =
    record {
      skill_id = 1;
      slug = 1;
      category_id = 9;
      proficiency_level = level;
      years_experience = 4;
      verified = true;
    }
    ∷ []

abbrev pub someone : ℕ → ProficiencyLevel → Candidate
someone id level = record {
  expert_profile_id = id;
  user_id = 100 + id;
  skills = skilled level;
  years_experience = 6;
  rating_sum = 45;
  rating_count = 10;
  offers_received = 4;
  offers_accepted = 3;
  avg_response_seconds = some 20;
  sessions_today = 1;
  idle_minutes = some 60;
  languages = 44 ∷ [];
}

abbrev pub ready_to_work : CandidateEligibility
ready_to_work = record {
  expert_status = ExpertStatus.approved;
  account_status = AccountStatus.active;
  availability_status = AvailabilityStatus.available;
  last_heartbeat_at = some 1000;
  already_responded = false;
  is_requesting_customer = false;
}

abbrev pub entry : ℕ → ProficiencyLevel → Entry
entry id level = record { candidate = someone id level; eligibility = ready_to_work }

abbrev pub limits : Thresholds thousandths
limits = record {
  fairness_horizon_minutes = 240;
  rating_prior_count = 5;
  rating_prior_mean = 4500;
  min_rating = 4000;
  min_rated_sessions = 3;
  heartbeat_stale_after_seconds = 180;
}

abbrev pub request : RankingInput thousandths
request = record {
  required = need ∷ [];
  candidates =
      entry 1 ProficiencyLevel.advanced
      ∷ entry 2 ProficiencyLevel.beginner
      ∷ entry 3 ProficiencyLevel.expert
      ∷ [];
  relaxation_level = 0;
  weights = default_weights thousandths;
  thresholds = limits;
  customer_languages = 44 ∷ [];
  now = 2000;
  pool_size = 10;
  tie_break_seed = 114 ∷ 49 ∷ [];
}

abbrev pub code_units : ℕ → List ℕ
code_units id = (48 + id) ∷ []

abbrev pub strict : RelaxationRule
strict = record {
  level = 0;
  engages_at_seconds = 0;
  primary_floor = ProficiencyLevel.advanced;
  secondary_coverage = 0;
  enforce_rating_floor = true;
  enforce_language = true;
  widen_secondary_to_category = false;
}

abbrev pub wide : RelaxationRule
wide = record {
  level = 3;
  engages_at_seconds = 360;
  primary_floor = ProficiencyLevel.intermediate;
  secondary_coverage = 0;
  enforce_rating_floor = false;
  enforce_language = false;
  widen_secondary_to_category = true;
}

abbrev pub ranking : RankingResult thousandths
ranking = rank_under thousandths code_units request strict

abbrev pub first_of : List (RankedCandidate thousandths) → RankedCandidate thousandths
first_of [] = record {
  expert_profile_id = 0;
  user_id = 0;
  rank = 0;
  score =
      score_candidate thousandths [] (someone 0 ProficiencyLevel.beginner) request.weights limits
        false;
}
first_of (c ∷ _) = c

abbrev pub context : FilterContext thousandths
context = context_of thousandths request strict
