-- ===== src/Service/Setup.antt =====
-- What the service is built with (`MatchingServiceDeps`, `MatchingThresholds`), less the notifier and
-- the logger, and the rows it ranks. The candidates of a request come from the database by a query,
-- a parameter: the code passes them on to the ranking as they are.
use salesforce_expert_suppor.Prelude.{
  ℕ, ◌*◌, Bool, Option, none, some, List, [], ◌∷◌, map, includes, ℕ_discrete, max, ◌==◌, find_first,
}
use salesforce_expert_suppor.Contracts.{ExpertStatus, AccountStatus, AvailabilityStatus}
use salesforce_expert_suppor.Matching.Number.{Number}
use salesforce_expert_suppor.Matching.Candidate.{Candidate, CandidateSkill, RequiredSkill}
use salesforce_expert_suppor.Matching.Scoring.{ScoringWeights, Thresholds}
use salesforce_expert_suppor.Matching.Rank.{Entry, RankingInput, RankingResult, rank_candidates}
use salesforce_expert_suppor.Service.World.{World, Request, RequestSkill}
use salesforce_expert_suppor.Service.Runs.{list_responded}

pub record CandidateRow : Type 0 where
  pub candidate : Candidate
  pub expert_status : ExpertStatus
  pub account_status : AccountStatus
  pub availability_status : AvailabilityStatus
  pub last_heartbeat_at : Option ℕ
  pub customer_user_id : ℕ

-- The empty string, which is the id of no category.
abbrev pub no_category : ℕ
no_category = 0

-- `categoryOf(skillId, rows) ?? ""`
unfoldable pub category_of : ℕ → List CandidateRow → ℕ
category_of skill [] = no_category
category_of skill (row ∷ rest) =
    elim (find_first (λ (s : CandidateSkill). s.skill_id == skill) row.candidate.skills) [
      | none ↦ category_of skill rest
      | some s ↦ s.category_id
    ]

abbrev pub required_of : List CandidateRow → RequestSkill → RequiredSkill
required_of rows skill = record {
  skill_id = skill.skill_id;
  slug = skill.slug;
  category_id = category_of skill.skill_id rows;
  is_primary = skill.is_primary;
}

abbrev pub entry_of : List ℕ → CandidateRow → Entry
entry_of responded row = record {
  candidate = row.candidate;
  eligibility = record {
    expert_status = row.expert_status;
    account_status = row.account_status;
    availability_status = row.availability_status;
    last_heartbeat_at = row.last_heartbeat_at;
    already_responded = includes ℕ_discrete row.candidate.expert_profile_id responded;
    is_requesting_customer = row.customer_user_id == row.candidate.user_id;
  };
}

module _ (N : Number) where
  -- `find_candidates world request required_skill_ids now limit`; `seed_of` and `code_units` give the
  -- characters of a request's and an expert's id. `interest` is there in the interest-pool mode.
  pub record Deps : Type 0 where
    pub weights : ScoringWeights N
    pub thresholds : Thresholds N
    pub offer_window_seconds : ℕ
    pub candidate_pool_size : ℕ
    pub relaxation_schedule_seconds : List ℕ
    pub find_candidates : World → ℕ → List ℕ → ℕ → ℕ → List CandidateRow
    pub seed_of : ℕ → List ℕ
    pub code_units : ℕ → List ℕ
    pub broadcast_size : ℕ
    pub interest_window_seconds : ℕ
    pub has_interest : Bool
    pub is_interest_pool : Bool

  module _ (D : Deps) where
    open D use {weights, thresholds, candidate_pool_size, find_candidates, seed_of, code_units}

    abbrev pub ranking_input : Request → ℕ → ℕ → List CandidateRow → List ℕ → RankingInput N
    ranking_input request level now rows responded = record {
      required = map (required_of rows) request.skills;
      candidates = map (entry_of responded) rows;
      relaxation_level = level;
      weights = weights;
      thresholds = thresholds;
      customer_languages = [];
      now = now;
      pool_size = candidate_pool_size;
      tie_break_seed = seed_of request.id;
    }

    -- `rankFor`: `none` is the throw of a missing level, which `rank_candidates` never answers.
    unfoldable pub rank_for : Request → ℕ → ℕ → World → Option (RankingResult N)
    rank_for request level now w =
        let rows =
          find_candidates w request.id (map (λ (s : RequestSkill). s.skill_id) request.skills) now
            (max (candidate_pool_size * 5) 50) in
        rank_candidates N code_units
          (ranking_input request level now rows (list_responded request.id w))
